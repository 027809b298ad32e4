-- ===== src/Agent/Fields.antt =====
-- .github/scripts/agent_control.py: what claim_from_fields and next_claim tell of the project's fields.
use robodata.Prelude.{
  ℕ, ◌+◌, ◌≤◌, String, Bool, true, false, ◌&&◌, ◌||◌, ◌≡◌, refl, ap, ◌⊎◌, inl, inr, Option, none,
  some, ltb, str_eq, Bool-cases, arith, Option-cases, eq_refl, if◌then◌else◌,
}
use robodata.Prelude.Checked.{passed, bind-passed}
use robodata.Agent.{
  Timestamp, instant, unreadable, ClaimState, Key, Values, parse_timestamp, has_text, has_stamp,
  read_claim, claim_from_fields, attempt_of, new_claim, claim_anew, is_claimable, blocked_until,
  has_claim_id, replayed, next_claim, held_by,
}

-- The fields hold this claim.
pub record Records (v : Values) (c : ClaimState) : Type 0 where
  pub of_claim : v.claim_id ≡ some c.claim_id
  pub of_run : v.run_id ≡ some c.run_id
  pub of_lease : v.lease_until ≡ some (instant c.lease_until)
  pub of_attempt : v.attempt ≡ some c.attempt

read_claim-Records :
    (v : Values) (c r : Option String) (l : Option Timestamp) (a : Option ℕ) (x : Option ClaimState)
    → v.claim_id ≡ c
    → v.run_id ≡ r
    → v.lease_until ≡ l
    → v.attempt ≡ a
    → read_claim c r l a ≡ passed x
    → (y : ClaimState) × (x ≡ some y) × Records v y
unfolding parse_timestamp
read_claim-Records v (some c) (some r) (some (instant t)) (some a) x ec er el ea h = (
  record { claim_id = c; run_id = r; attempt = a; lease_until = t },
  ground arith,
  record { of_claim = ec; of_run = er; of_lease = el; of_attempt = ea },
)
read_claim-Records v (some c) (some r) (some (unreadable s)) (some a) x ec er el ea h = cc
read_claim-Records v none r l a x ec er el ea h = cc
read_claim-Records v (some c) none l a x ec er el ea h = cc
read_claim-Records v (some c) (some r) none a x ec er el ea h = cc
read_claim-Records v (some c) (some r) (some (instant t)) none x ec er el ea h = cc
read_claim-Records v (some c) (some r) (some (unreadable s)) none x ec er el ea h = cc

no_stamp : (l : Option Timestamp) (t : ℕ) → has_stamp l ≡ false → l ≡ some (instant t) → ⊥
no_stamp none t h e = cc
no_stamp (some (instant x)) t h e = cc
no_stamp (some (unreadable s)) t h e = cc

-- The fields that are read without an error hold the claim, or no claim and no instant.
pub claim_from_fields-Records :
    (v : Values) (o : Option ClaimState)
    → claim_from_fields v ≡ passed o
    → ((y : ClaimState) × (o ≡ some y) × Records v y)
      ⊎ ((o ≡ none) × ((t : ℕ) → v.lease_until ≡ some (instant t) → ⊥))
unfolding claim_from_fields
claim_from_fields-Records v o h =
    elim (Bool-cases (has_text v.claim_id || has_text v.run_id || has_stamp v.lease_until)) [
      | inl a ↦
          elim (Bool-cases (has_text v.claim_id && has_text v.run_id && has_stamp v.lease_until)) [
            | inl b ↦ inl (
                read_claim-Records v v.claim_id v.run_id v.lease_until v.attempt o refl refl refl
                  refl (rw (a, b) at h))
            | inr b ↦ let f = rw (a, b) at h in cc
          ]
      | inr a ↦ inr (ground (arith, rw a at h), λ t. no_stamp v.lease_until t (ground arith))
    ]

module _ (k : Key) (v : Values) (now lease_seconds max_attempts : ℕ) where
  -- A new claim: its attempt follows the recorded one, within the limit, and its lease starts now.
  abbrev pub IsNew : ClaimState → Type 0
  IsNew c =
      (c.attempt ≡ attempt_of v.attempt + 1)
      × (c.attempt ≤ max_attempts)
      × (c.lease_until ≡ now + lease_seconds)

  claim_anew-IsNew :
      (o : Option ClaimState) (c : ClaimState) (b : Bool)
      → claim_anew k v now lease_seconds max_attempts o ≡ passed (c, b)
      → (held_by k c ≡ true) × IsNew c × (b ≡ false) × (blocked_until now o ≡ none)
  unfolding claim_anew new_claim
  claim_anew-IsNew o c b h = elim (Bool-cases (is_claimable v.status)) [
    | inl s ↦ elim (Option-cases (blocked_until now o)) [
      | inl u ↦ elim (Bool-cases (ltb max_attempts (attempt_of v.attempt + 1))) [
        | inl m ↦ let f = rw (s, u, m) at h in cc
        | inr m ↦
            let f = rw (s, u, m) at h in
            (
              ground (arith, eq_refl k.claim_id, eq_refl k.run_id),
              (ground arith, ground arith, ground arith),
              ground arith,
              u,
            )
      ]
      | inr (e, u) ↦ let f = rw (s, u) at h in cc
    ]
    | inr s ↦ let f = rw s at h in cc
  ]

  replayed-Held :
      (o : Option ClaimState) (c : ClaimState) (b : Bool)
      → has_claim_id k o ≡ true
      → replayed k o ≡ passed (c, b)
      → (o ≡ some c) × (held_by k c ≡ true) × (b ≡ true)
  replayed-Held none c b i h = cc
  replayed-Held (some x) c b i h = elim (Bool-cases (str_eq x.run_id k.run_id)) [
    | inl r ↦
        let f = rw r at h in
        let e : x ≡ c = ground arith in (ap some e, rw (← e) (ground arith), ground arith)
    | inr r ↦ let f = rw r at h in cc
  ]

  -- A claim that is proposed is of the request's key: the recorded one, or a new one while none is live.
  pub next_claim-cases :
      (c : ClaimState) (b : Bool)
      → next_claim k v now lease_seconds max_attempts ≡ passed (c, b)
      → (held_by k c ≡ true)
        × ((o : Option ClaimState) × (claim_from_fields v ≡ passed o)
            × (((o ≡ some c) × (b ≡ true))
                ⊎ (IsNew c × (b ≡ false) × (blocked_until now o ≡ none))))
  unfolding next_claim
  next_claim-cases c b h =
      let (o, e, n) =
        bind-passed
          (λ o.
            if has_claim_id k o
            then replayed k o
            else claim_anew k v now lease_seconds max_attempts o)
          (claim_from_fields v) h in
      elim (Bool-cases (has_claim_id k o)) [
        | inl i ↦ let (x, y, z) = replayed-Held o c b i (rw i at n) in (y, (o, e, inl (x, z)))
        | inr i ↦
            let (x, y, z, w) = claim_anew-IsNew o c b (rw i at n) in (x, (o, e, inr (y, z, w)))
      ]
