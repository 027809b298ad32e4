-- ===== src/Agent/Accepted.antt =====
-- .github/scripts/pr_contract.py: what a pull request is whose contract is returned.
use robodata.Prelude.{
  ℕ, String, Bool, true, false, ◌≡◌, refl, ap, ◌⊎◌, inl, inr, List, [], ◌∷◌, Option, none, some, In,
  here, there, arith, is_some,
}
use robodata.Agent.Contract.{
  ContractError, PullText, PullRequestContract, required_sections, find_section, error_unless,
  is_one, branch_fits, section_error, section_errors, criteria_fit, contract_errors, contract_of,
  contract_if, validate_pr_contract, empty_section,
}

error_unless-nil :
    (t : Bool) (e : ContractError) (es : List ContractError)
    → error_unless t e es ≡ []
    → (t ≡ true) × (es ≡ [])
error_unless-nil true e es h = (refl, h)
error_unless-nil false e es h = cc

is_one-cases : {A : Type 0} (xs : List A) → is_one xs ≡ true → (x : A) × (xs ≡ x ∷ [])
is_one-cases [] h = cc
is_one-cases (x ∷ []) h = (x, refl)
is_one-cases (x ∷ y ∷ xs) h = cc

In-cases :
    {P : String → Type 0} (n : String) (ns : List String)
    → P n
    → ((m : String) → In m ns → P m)
    → (m : String) → In m (n ∷ ns)
    → P m
In-cases n ns p f m here = p
In-cases n ns p f m (there i) = f m i

module _ (is_filled all_checked : String → Bool) where
  -- The section is there and filled.
  abbrev pub HasSection : List (String × String) → String → Type 0
  HasSection sections n =
      (s : String) × (find_section sections n none ≡ some s) × (is_filled s ≡ true)

  -- What the contract's fields are, and what holds of the pull request.
  pub record Accepts (p : PullText) (c : PullRequestContract) : Type 0 where
    pub on_main : p.base_is_main ≡ true
    pub one_issue : p.closing ≡ c.issue_number ∷ []
    pub own_branch : p.branch ≡ some (c.issue_number, c.attempt)
    pub one_claim : p.claim_ids ≡ c.claim_id ∷ []
    pub one_run : p.agent_runs ≡ c.agent_run ∷ []
    pub one_spec : p.related ≡ c.related_spec ∷ []
    pub has_sections : (n : String) → In n required_sections → HasSection p.sections n
    pub checked :
        criteria_fit is_filled all_checked (find_section p.sections "Acceptance criteria" none)
        ≡ true

  section_error-nil :
      (n : String) (sections : List (String × String)) (o : Option String) (es : List ContractError)
      → find_section sections n none ≡ o
      → section_error is_filled all_checked n o es ≡ []
      → HasSection sections n × (es ≡ [])
  section_error-nil n sections none es q h = cc
  section_error-nil n sections (some s) es q h =
      let (t, r) = error_unless-nil (is_filled s) (empty_section n) es h in ((s, q, t), r)

  section_errors-nil :
      (ns : List String) (sections : List (String × String)) (es : List ContractError)
      → section_errors is_filled all_checked ns sections es ≡ []
      → ((n : String) → In n ns → HasSection sections n) × (es ≡ [])
  unfolding section_errors
  section_errors-nil [] sections es h = ((λ n m. elim m [ ]), h)
  section_errors-nil (n ∷ ns) sections es h =
      let (s, r) =
        section_error-nil n sections (find_section sections n none)
          (section_errors is_filled all_checked ns sections es) refl h in
      let (f, q) = section_errors-nil ns sections es r in (In-cases n ns s f, q)

  branch_fits-Eq :
      (o : Option (ℕ × ℕ)) (n : ℕ)
      → is_some o ≡ true
      → branch_fits o (n ∷ []) ≡ true
      → (a : ℕ) × (o ≡ some (n, a))
  branch_fits-Eq none n h k = cc
  branch_fits-Eq (some (i, a)) n h k = let e : i ≡ n = ground arith in (a, ap (λ m. some (m, a)) e)

  -- What is returned: a contract that the pull request fits, or errors.
  abbrev pub Verdict : PullText → Option PullRequestContract × List ContractError → Type 0
  Verdict p r =
      ((c : PullRequestContract) × (r ≡ (some c, [])) × Accepts p c)
      ⊎ ((e : ContractError) × (es : List ContractError) × (r ≡ (none, e ∷ es)))

  contract_of-Eq :
      (ns : List ℕ) (o : Option (ℕ × ℕ)) (cs rs : List String) (ss : List ℕ) (n a : ℕ)
      (c r : String) (s : ℕ)
      → ns ≡ n ∷ []
      → o ≡ some (n, a)
      → cs ≡ c ∷ []
      → rs ≡ r ∷ []
      → ss ≡ s ∷ []
      → contract_of is_filled all_checked ns o cs rs ss
        ≡ some (record {
          issue_number = n;
          attempt = a;
          claim_id = c;
          agent_run = r;
          related_spec = s;
        })
  contract_of-Eq ns o cs rs ss n a c r s e f g h i = rw (e, f, g, h, i) refl

  passed-Accepts :
      (p : PullText)
      → contract_errors is_filled all_checked p ≡ []
      → (c : PullRequestContract) × (contract_of is_filled all_checked p.closing p.branch
            p.claim_ids p.agent_runs p.related
          ≡ some c)
        × Accepts p c
  unfolding contract_errors
  passed-Accepts p h =
      let (main, h1) = error_unless-nil _ _ _ h in
      let (closes, h2) = error_unless-nil _ _ _ h1 in
      let (branch, h3) = error_unless-nil _ _ _ h2 in
      let (sections, h4) = section_errors-nil required_sections p.sections _ h3 in
      let (claims, h5) = error_unless-nil _ _ _ h4 in
      let (runs, h6) = error_unless-nil _ _ _ h5 in
      let (relates, h7) = error_unless-nil _ _ _ h6 in
      let (criteria, h8) = error_unless-nil _ _ _ h7 in
      let (fits, h9) = error_unless-nil _ _ _ h8 in
      let fit : branch_fits p.branch p.closing ≡ true = fits in
      let (n, en) = is_one-cases p.closing closes in
      let (c, ec) = is_one-cases p.claim_ids claims in
      let (r, er) = is_one-cases p.agent_runs runs in
      let (s, es) = is_one-cases p.related relates in
      let fit_one : branch_fits p.branch (n ∷ []) ≡ true = rw en at fit in
      let (a, ea) = branch_fits-Eq p.branch n branch fit_one in
      (
        record { issue_number = n; attempt = a; claim_id = c; agent_run = r; related_spec = s },
        contract_of-Eq p.closing p.branch p.claim_ids p.agent_runs p.related n a c r s en ea ec er
            es,
        record {
          on_main = main;
          one_issue = en;
          own_branch = ea;
          one_claim = ec;
          one_run = er;
          one_spec = es;
          has_sections = sections;
          checked = criteria;
        },
      )

  judged :
      (p : PullText) (es : List ContractError)
      → contract_errors is_filled all_checked p ≡ es
      → Verdict p (
          contract_if is_filled all_checked es (
            contract_of is_filled all_checked p.closing p.branch p.claim_ids p.agent_runs
              p.related))
  judged p [] h = let (c, e, a) = passed-Accepts p h in inl (c, ap (λ o. (o, [])) e, a)
  judged p (e ∷ es) h = inr (e, es, refl)

  -- validate_pr_contract returns errors and no contract, or a contract and no errors; then the base is main, the body
  -- closes the one issue of the contract and relates to its one spec, the branch is of that issue and of the contract's
  -- attempt, the one Claim-ID and the one Agent-Run are the contract's, all required sections are filled and the
  -- acceptance criteria, where there are any, pass.
  pub validate_pr_contract_lem :
      (p : PullText) → Verdict p (validate_pr_contract is_filled all_checked p)
  unfolding validate_pr_contract
  validate_pr_contract_lem p = judged p (contract_errors is_filled all_checked p) refl
