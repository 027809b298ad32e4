-- ===== src/Agent/Contract.antt =====
-- .github/scripts/pr_contract.py, validate_pr_contract: a pull request's body and branch by what the regular expressions
-- find in them.
use robodata.Prelude.{
  ℕ, String, Bool, true, false, List, [], ◌∷◌, Option, none, some, str_eq, ◌==◌, if◌then◌else◌,
  is_some,
}

pub data ContractError : Type 0 where
  wrong_base not_one_closes bad_branch not_one_relates unchecked_criteria branch_of_another :
      ContractError
  missing_section empty_section not_one_metadata : String → ContractError

pub record PullText : Type 0 where
  pub base_is_main : Bool
  -- The numbers of the `Closes` lines and of the `Relates to` lines.
  pub closing : List ℕ
  pub related : List ℕ
  -- The issue and the attempt in the branch's name.
  pub branch : Option (ℕ × ℕ)
  pub sections : List (String × String)
  pub claim_ids : List String
  pub agent_runs : List String

pub record PullRequestContract : Type 0 where
  pub issue_number : ℕ
  pub attempt : ℕ
  pub claim_id : String
  pub agent_run : String
  pub related_spec : ℕ

abbrev pub required_sections : List String
required_sections =
    "Summary" ∷ "Scope" ∷ "Acceptance criteria" ∷ "Validation" ∷ "Validation gaps" ∷ "Data safety"
    ∷ "Submodule changes" ∷ "Risk and rollback" ∷ "Agent metadata" ∷ []

unfoldable pub find_section : List (String × String) → String → Option String → Option String
find_section [] name o = o
find_section ((h, s) ∷ hs) name o = find_section hs name (if str_eq h name then some s else o)

abbrev pub error_unless : Bool → ContractError → List ContractError → List ContractError
error_unless true e es = es
error_unless false e es = e ∷ es

abbrev pub is_one : {A : Type 0} → List A → Bool
is_one (x ∷ []) = true
is_one _ = false

abbrev pub branch_fits : Option (ℕ × ℕ) → List ℕ → Bool
branch_fits (some (issue, attempt)) (n ∷ []) = issue == n
branch_fits _ _ = true

-- `is_filled` and `all_checked` are _is_filled and the two searches in the acceptance criteria.
module _ (is_filled all_checked : String → Bool) where
  abbrev pub section_error : String → Option String → List ContractError → List ContractError
  section_error n none es = missing_section n ∷ es
  section_error n (some s) es = error_unless (is_filled s) (empty_section n) es

  unfoldable pub section_errors :
      List String → List (String × String) → List ContractError → List ContractError
  unfolding find_section
  section_errors [] sections es = es
  section_errors (n ∷ ns) sections es =
      section_error n (find_section sections n none) (section_errors ns sections es)

  abbrev pub criteria_fit : Option String → Bool
  criteria_fit none = true
  criteria_fit (some s) = if str_eq s "" then true else all_checked s

  unfoldable pub contract_errors : PullText → List ContractError
  unfolding section_errors find_section
  contract_errors p = error_unless p.base_is_main wrong_base (
      error_unless (is_one p.closing) not_one_closes (
        error_unless (is_some p.branch) bad_branch (
          section_errors required_sections p.sections (
            error_unless (is_one p.claim_ids) (not_one_metadata "Claim-ID") (
              error_unless (is_one p.agent_runs) (not_one_metadata "Agent-Run") (
                error_unless (is_one p.related) not_one_relates (
                  error_unless (criteria_fit (find_section p.sections "Acceptance criteria" none))
                    unchecked_criteria
                    (error_unless (branch_fits p.branch p.closing) branch_of_another []))))))))

  -- `none` where the source would raise, which the errors rule out.
  abbrev pub contract_of :
      List ℕ → Option (ℕ × ℕ) → List String → List String → List ℕ → Option PullRequestContract
  contract_of (n ∷ _) (some (issue, attempt)) (c ∷ _) (r ∷ _) (s ∷ _) = some (record {
    issue_number = n;
    attempt = attempt;
    claim_id = c;
    agent_run = r;
    related_spec = s;
  })
  contract_of _ _ _ _ _ = none

  abbrev pub contract_if :
      List ContractError
      → Option PullRequestContract
      → Option PullRequestContract × List ContractError
  contract_if [] c = (c, [])
  contract_if (e ∷ es) c = (none, e ∷ es)

  unfoldable pub validate_pr_contract : PullText → Option PullRequestContract × List ContractError
  unfolding contract_errors
  validate_pr_contract p =
      contract_if (contract_errors p)
        (contract_of p.closing p.branch p.claim_ids p.agent_runs p.related)
