-- ===== src/Agent/Attempts.antt =====
-- .github/scripts/agent_control.py, the `claim` command: the attempt and the lease of the claim that it settles on.
use robodata.Prelude.{
  ℕ, ◌+◌, ◌≤◌, ◌<◌, Bool, true, false, ◌≡◌, refl, sym, ◌∙◌, ◌⊎◌, inl, inr, List, [], ◌∷◌, Option,
  none, some, Bool-cases, In, here, there, keep-In, All, arith, eq_iff,
}
use robodata.Prelude.Checked.{Checked, passed, bind-passed}
use robodata.Agent.{
  ControlError, instant, ClaimState, Key, Values, Receipt, Mark, grants, extends, ends, denies,
  passes_by, receipt_mark, is_live, claim_from_fields, next_claim, matching_claim_receipt,
  reduce_receipts, live_receipt_claims, attempt_of,
}
use robodata.Agent.Controller.{
  receipt_claim, is_expired, claim_values, choose_new, choose_matching, conflicting, choose_claim,
  marked_max, max_attempt, max_with,
}
use robodata.Agent.Matching.{WellFormed, matching_claim_receipt-Told}
use robodata.Agent.Fields.{IsNew, next_claim-cases, claim_from_fields-Records}
use robodata.Agent.Choice.{receipt_claim-passed, found_new-passed}

max_with-le : (o : Option ℕ) (n : ℕ) → n ≤ max_with o n
max_with-le none n = omega arith
max_with-le (some m) n = ground arith

marked_max-le : (m : Mark) (o : Option ℕ) (n : ℕ) → n ≤ marked_max m o n
marked_max-le grants o n = max_with-le o n
marked_max-le extends o n = omega arith
marked_max-le ends o n = omega arith
marked_max-le denies o n = omega arith
marked_max-le passes_by o n = omega arith

max_attempt-le : (rs : List Receipt) (n : ℕ) → n ≤ max_attempt rs n
unfolding max_attempt
max_attempt-le [] n = omega arith
max_attempt-le (r ∷ rs) n =
    omega (arith, marked_max-le (receipt_mark r) r.attempt (max_attempt rs n), max_attempt-le rs n)

le-max_with : (m n : ℕ) → m ≤ max_with (some m) n
le-max_with m n = ground arith

In-max_attempt :
    (rs : List Receipt) (n : ℕ) (r : Receipt) (a : ℕ)
    → In r rs
    → receipt_mark r ≡ grants
    → r.attempt ≡ some a
    → a ≤ max_attempt rs n
unfolding max_attempt
In-max_attempt [] n r a m g e = elim m [ ]
In-max_attempt (q ∷ rs) n r a here g e = rw (g, e) (le-max_with a (max_attempt rs n))
In-max_attempt (q ∷ rs) n r a (there m) g e = omega (
  arith,
  marked_max-le (receipt_mark q) q.attempt (max_attempt rs n),
  In-max_attempt rs n r a m g e,
)

-- The claim is one that the receipts have as live, with the attempt and the lease that they tell.
abbrev pub IsReplay : ℕ → List Receipt → ClaimState → Type 0
IsReplay now rs c =
    (d : ClaimState) × In d (live_receipt_claims now rs)
    × (d.claim_id ≡ c.claim_id)
    × (d.run_id ≡ c.run_id)
    × (d.attempt ≡ c.attempt)
    × (d.lease_until ≡ c.lease_until)

-- The next attempt: within the limit, after the fields' attempt and those of all claim receipts, with a lease from
-- now on.
abbrev pub IsNext : ℕ → ℕ → ℕ → Values → List Receipt → ClaimState → Type 0
IsNext now lease_seconds max_attempts v rs c =
    (c.attempt ≤ max_attempts)
    × (attempt_of v.attempt < c.attempt)
    × ((r : Receipt) (a : ℕ)
        → In r rs
        → receipt_mark r ≡ grants
        → r.attempt ≡ some a
        → a < c.attempt)
    × (c.lease_until ≡ now + lease_seconds)

-- The claim that the fields hold.
abbrev pub IsRecorded : Values → ClaimState → Type 0
IsRecorded v c =
    (v.claim_id ≡ some c.claim_id)
    × (v.run_id ≡ some c.run_id)
    × (v.lease_until ≡ some (instant c.lease_until))

abbrev pub IsKnown : ℕ → ℕ → ℕ → Values → List Receipt → ClaimState → Type 0
IsKnown now lease_seconds max_attempts v rs c =
    IsReplay now rs c ⊎ (IsRecorded v c ⊎ IsNext now lease_seconds max_attempts v rs c)

module _ (now lease_seconds max_attempts : ℕ) (k : Key) (v : Values) (rs : List Receipt) where
  receipt-IsReplay :
      (r : Receipt) (c : ClaimState)
      → All WellFormed rs
      → matching_claim_receipt k rs ≡ passed (some r)
      → receipt_claim k r.attempt r.lease_until ≡ passed c
      → is_live now c ≡ true
      → IsReplay now rs c
  unfolding is_live live_receipt_claims
  receipt-IsReplay r c w m q l =
      let (held, ea, el) = receipt_claim-passed k r.attempt r.lease_until c q in
      let (d, i, (t, ta, tl)) = matching_claim_receipt-Told k rs r w m in
      let e : d.lease_until ≡ c.lease_until = tl c.lease_until el in
      (
        d,
        keep-In (is_live now) (reduce_receipts rs []) i (rw e l),
        ground (arith, eq_iff d.claim_id k.claim_id, eq_iff c.claim_id k.claim_id),
        ground (arith, eq_iff d.run_id k.run_id, eq_iff c.run_id k.run_id),
        ground (arith, sym ea ∙ ta),
        e,
      )

  new-IsNext :
      (x : Bool) (c : ClaimState)
      → IsNew k (claim_values x v rs) now lease_seconds max_attempts c
      → IsNext now lease_seconds max_attempts v rs c
  new-IsNext x c (a, b, l) = (
    b,
    omega (arith, max_attempt-le rs (attempt_of v.attempt)),
    λ r n m g e. omega (arith, In-max_attempt rs (attempt_of v.attempt) r n m g e),
    l,
  )

  claim_values-IsRecorded :
      (x : Bool) (o : Option ClaimState) (c : ClaimState)
      → claim_from_fields (claim_values x v rs) ≡ passed o
      → o ≡ some c
      → IsRecorded v c
  claim_values-IsRecorded true o c e p =
      elim (claim_from_fields-Records (claim_values true v rs) o e) [
        | inl (y, q, s) ↦ cc (s.of_claim)
        | inr (q, n) ↦ cc
      ]
  claim_values-IsRecorded false o c e p =
      elim (claim_from_fields-Records (claim_values false v rs) o e) [
        | inl (y, q, s) ↦
            let d : y ≡ c = ground arith in rw (← d) (s.of_claim, s.of_run, s.of_lease)
        | inr (q, n) ↦ cc
      ]

  next_claim-IsKnown :
      (x : Bool) (c : ClaimState) (a : Bool)
      → next_claim k (claim_values x v rs) now lease_seconds max_attempts ≡ passed (c, a)
      → IsKnown now lease_seconds max_attempts v rs c
  next_claim-IsKnown x c a h =
      let (held, (o, e, how)) =
        next_claim-cases k (claim_values x v rs) now lease_seconds max_attempts c a h in
      elim how [
        | inl (p, t) ↦ inr (inl (claim_values-IsRecorded x o c e p))
        | inr (n, t, u) ↦ inr (inr (new-IsNext x c n))
      ]

  choose_new-IsKnown :
      (m : Checked ControlError (Option ClaimState)) (c : ClaimState) (a : Bool)
      → (choose_new now lease_seconds max_attempts k v rs m).1 ≡ passed (c, a)
      → IsKnown now lease_seconds max_attempts v rs c
  unfolding choose_new
  choose_new-IsKnown (Checked.rejected e) c a h = cc
  choose_new-IsKnown (passed o) c a h = next_claim-IsKnown (is_expired now o) c a h

  choose_matching-IsKnown :
      (m : Checked ControlError (Option Receipt)) (c : ClaimState) (o : Option Receipt)
      → All WellFormed rs
      → matching_claim_receipt k rs ≡ m
      → (choose_matching now lease_seconds max_attempts k v rs m).1 ≡ passed (c, o)
      → is_live now c ≡ true
      → IsKnown now lease_seconds max_attempts v rs c
  unfolding choose_matching
  choose_matching-IsKnown (Checked.rejected e) c o w q h l = cc
  choose_matching-IsKnown (passed (some r)) c o w q h l =
      let (x, y, z) =
        bind-passed (λ x. passed (x, some r)) (receipt_claim k r.attempt r.lease_until) h in
      let e : x ≡ c = ground arith in inl (receipt-IsReplay r c w q (rw e at y) l)
  choose_matching-IsKnown (passed none) c o w q h l =
      let (a, n) =
        found_new-passed now lease_seconds max_attempts k v rs
          (choose_new now lease_seconds max_attempts k v rs (claim_from_fields v)) c o h in
      choose_new-IsKnown (claim_from_fields v) c a n

  -- The claim that the `claim` command settles on while it is live, if the issue's claim receipts have an attempt and
  -- a timestamp each, is one that the receipts have as live, with the attempt and the lease told there; or the
  -- one in the fields, with its lease; or a new one, whose attempt is within the limit and follows the fields' attempt
  -- and those of all pending or accepted claim receipts, and whose lease starts now.
  pub choose_claim-IsKnown :
      (c : ClaimState) (o : Option Receipt)
      → All WellFormed rs
      → (choose_claim now lease_seconds max_attempts k v rs).1 ≡ passed (c, o)
      → is_live now c ≡ true
      → IsKnown now lease_seconds max_attempts v rs c
  unfolding choose_claim
  choose_claim-IsKnown c o w h l = elim (Bool-cases (conflicting now k rs)) [
    | inl t ↦ let f = rw t at h in cc
    | inr t ↦ choose_matching-IsKnown (matching_claim_receipt k rs) c o w refl (rw t at h) l
  ]
