-- ===== src/Agent/Choice.antt =====
-- .github/scripts/agent_control.py, the `claim` command: the key of the claim that it settles on, where the
-- live claims so far are of one key.
use robodata.Prelude.{
  ℕ, Bool, true, false, not, ◌≡◌, refl, ap, sym, ◌∙◌, inl, inr, List, [], Option, none, some, ltb,
  All, Bool-cases, keep-In, In-any, arith, eq_iff, eq_refl, if◌then◌else◌,
}
use robodata.Prelude.Checked.{Checked, passed, bind-passed}
use robodata.Agent.{
  ControlError, recovery, Timestamp, instant, unreadable, ClaimState, Key, Values, Receipt, is_live,
  parse_timestamp, claim_from_fields, next_claim, matching_claim_receipt, held_by, reduce_receipts,
  live_receipt_claims, blocked_until,
}
use robodata.Agent.Controller.{
  Board, Effect, Choice, clear_claim, board_receipts, receipt_claim, is_expired, claim_values,
  choose_new, found_new, choose_matching, conflicting, choose_claim,
}
use robodata.Agent.Live.{AllHeld}
use robodata.Agent.Matching.{matching_claim_receipt-Told}
use robodata.Agent.Fields.{Records, claim_from_fields-Records, next_claim-cases}
use robodata.Agent.Safe.{Held, HeldFields, Knows, Static}

pub held_by-same : (k j : Key) (c : ClaimState) → held_by k c ≡ true → held_by j c ≡ true → k ≡ j
held_by-same k j c h i = ground (
  arith,
  eq_iff c.claim_id k.claim_id,
  eq_iff c.run_id k.run_id,
  eq_iff c.claim_id j.claim_id,
  eq_iff c.run_id j.run_id,
)

pub receipt_claim-passed :
    (k : Key) (a : Option ℕ) (l : Option Timestamp) (c : ClaimState)
    → receipt_claim k a l ≡ passed c
    → (held_by k c ≡ true) × (a ≡ some c.attempt) × (l ≡ some (instant c.lease_until))
unfolding parse_timestamp
receipt_claim-passed k (some a) (some (instant t)) c h =
    (ground (arith, eq_refl k.claim_id, eq_refl k.run_id), ground arith, ground arith)
receipt_claim-passed k (some a) (some (unreadable s)) c h = cc
receipt_claim-passed k (some a) none c h = cc
receipt_claim-passed k none l c h = cc

clear-Static : (j : Key) (s : Bool) → All (Static j) (if s then clear_claim recovery else [])
clear-Static j true = (tt, (inl refl, (inl refl, (refl, tt))))
clear-Static j false = tt

module _ (now : ℕ) (k : Key) where
  no_conflict-AllHeld :
      (rs : List Receipt) → conflicting now k rs ≡ false → AllHeld now k (reduce_receipts rs [])
  unfolding live_receipt_claims
  no_conflict-AllHeld rs h c m v = elim (Bool-cases (held_by k c)) [
    | inl e ↦ e
    | inr e ↦
        let i = keep-In (is_live now) (reduce_receipts rs []) m v in
        cc (In-any (λ d. not (held_by k d)) _ i (ap not e), h)
  ]

  live_by_lease :
      (v : Values) (c : ClaimState) (t : ℕ)
      → Records v c
      → v.lease_until ≡ some (instant t)
      → ltb now t ≡ is_live now c
  unfolding is_live
  live_by_lease v c t r l =
      let e : some (instant c.lease_until) ≡ some (instant t) = sym r.of_lease ∙ l in ground arith

  expired-HeldFields :
      (v : Values) (c : ClaimState) → Records v c → is_live now c ≡ false → HeldFields now k v
  expired-HeldFields v c r x t l a = cc (live_by_lease v c t r l, x, a)

  pub recorded-Knows : (v : Values) (c : ClaimState) → Records v c → held_by k c ≡ true → Knows k v
  recorded-Knows v c r h = (
    inr (r.of_claim ∙ ap some ((eq_iff c.claim_id k.claim_id).0 (ground arith))),
    inr (r.of_run ∙ ap some ((eq_iff c.run_id k.run_id).0 (ground arith))),
  )

  live_blocks : (c : ClaimState) → blocked_until now (some c) ≡ none → is_live now c ≡ true → ⊥
  live_blocks c h l = let f = rw l at h in cc

  -- Where the fields hold a live lease, the claim that next_claim returns is the recorded one.
  live-Knows :
      (lease_seconds max_attempts : ℕ) (v : Values) (t : ℕ) (c : ClaimState) (a : Bool)
      → v.lease_until ≡ some (instant t)
      → ltb now t ≡ true
      → next_claim k v now lease_seconds max_attempts ≡ passed (c, a)
      → Knows k v
  live-Knows lease_seconds max_attempts v t c a r l h =
      let (held, (o, e, how)) = next_claim-cases k v now lease_seconds max_attempts c a h in
      elim (claim_from_fields-Records v o e) [
        | inl (y, q, s) ↦ elim how [
          | inl (p, i) ↦ let d : y ≡ c = ground arith in recorded-Knows v y s (rw d held)
          | inr (n, i, u) ↦ absurd (live_blocks y (rw q at u) (sym (live_by_lease v y t s r) ∙ l))
        ]
        | inr (q, none_there) ↦ absurd (none_there t r)
      ]

module _ (now lease_seconds max_attempts : ℕ) (k : Key) (v : Values) (rs : List Receipt) where
  next_claim-Keyed :
      (w : Values) (c : ClaimState) (a : Bool)
      → next_claim k w now lease_seconds max_attempts ≡ passed (c, a)
      → held_by k c ≡ true
  next_claim-Keyed w c a h = (next_claim-cases k w now lease_seconds max_attempts c a h).0

  -- A claim where the request has no receipt leaves no other one live in the fields.
  choose_new-HeldFields :
      (o : Option ClaimState) (c : ClaimState) (a : Bool)
      → claim_from_fields v ≡ passed o
      → (choose_new now lease_seconds max_attempts k v rs (passed o)).1 ≡ passed (c, a)
      → HeldFields now k v × (held_by k c ≡ true)
  unfolding choose_new
  choose_new-HeldFields none c a e h = elim (claim_from_fields-Records v none e) [
    | inl (y, q, s) ↦ cc
    | inr (q, n) ↦ (λ t l u. absurd (n t l), next_claim-Keyed (claim_values false v rs) c a h)
  ]
  choose_new-HeldFields (some x) c a e h = elim (claim_from_fields-Records v (some x) e) [
    | inl (y, q, s) ↦
        let p : y ≡ x = ground arith in
        let r : Records v x = rw (← p) s in
        elim (Bool-cases (is_live now x)) [
          | inl l ↦
              let n : next_claim k (claim_values false v rs) now lease_seconds max_attempts
                  ≡ passed (c, a) =
                rw l at h in
              (
                λ t z u.
                    live-Knows now k lease_seconds max_attempts (claim_values false v rs) t c a z u
                      n,
                next_claim-Keyed (claim_values false v rs) c a n,
              )
          | inr l ↦ (
            expired-HeldFields now k v x r l,
            next_claim-Keyed (claim_values (is_expired now (some x)) v rs) c a h,
          )
        ]
    | inr (q, n) ↦ cc
  ]

  pub found_new-passed :
      (p : List Effect × Checked ControlError (ClaimState × Bool)) (c : ClaimState)
      (o : Option Receipt)
      → (found_new p).1 ≡ passed (c, o)
      → (a : Bool) × (p.1 ≡ passed (c, a))
  found_new-passed (es, Checked.rejected e) c o h = cc
  found_new-passed (es, passed (d, a)) c o h = (a, ground arith)

  -- What a choice comes to: effects that keep any key, and of a live claim the request's key.
  abbrev pub Sound : Choice → Type 0
  Sound x =
      ((j : Key) → All (Static j) x.0)
      × ((c : ClaimState) (o : Option Receipt)
          → x.1 ≡ passed (c, o)
          → is_live now c ≡ true
          → (held_by k c ≡ true) × HeldFields now k v)

  choose_fields-Sound :
      (m : Checked ControlError (Option ClaimState))
      → claim_from_fields v ≡ m
      → Sound (found_new (choose_new now lease_seconds max_attempts k v rs m))
  unfolding choose_new
  choose_fields-Sound (Checked.rejected e) q = (λ j. tt, λ c o h l. cc)
  choose_fields-Sound (passed y) q = (
    λ j. clear-Static j (is_expired now y),
    λ c o h l.
        let (a, n) =
          found_new-passed (choose_new now lease_seconds max_attempts k v rs (passed y)) c o h in
        let (f, i) = choose_new-HeldFields y c a q n in (i, f),
  )

-- The `claim` command leaves the live claims with one key: the request's, if it settles on a live claim.
module _ (now lease_seconds max_attempts : ℕ) (k : Key) (b : Board) where
  replayed-Same :
      (j : Key) (r : Receipt) (c : ClaimState)
      → Held now j b
      → matching_claim_receipt k (board_receipts b) ≡ passed (some r)
      → receipt_claim k r.attempt r.lease_until ≡ passed c
      → is_live now c ≡ true
      → (held_by k c ≡ true) × (j ≡ k)
  unfolding is_live
  replayed-Same j r c h m q l =
      let (held, ea, el) = receipt_claim-passed k r.attempt r.lease_until c q in
      let (d, i, (t, ta, tl)) = matching_claim_receipt-Told k (board_receipts b) r h.formed m in
      let e : d.lease_until ≡ c.lease_until = tl c.lease_until el in
      (held, held_by-same j k d (h.recorded d i (rw e l)) t)

  -- What a choice comes to: effects that keep any key, and of a live claim the request's key.
  abbrev pub Settled : Choice → Type 0
  Settled x =
      ((j : Key) → All (Static j) x.0)
      × ((c : ClaimState) (o : Option Receipt)
          → x.1 ≡ passed (c, o)
          → is_live now c ≡ true
          → (held_by k c ≡ true) × Held now k b)

  choose_matching-Settled :
      (j : Key) (m : Checked ControlError (Option Receipt))
      → Held now j b
      → AllHeld now k (reduce_receipts (board_receipts b) [])
      → matching_claim_receipt k (board_receipts b) ≡ m
      → Settled (choose_matching now lease_seconds max_attempts k b.values (board_receipts b) m)
  unfolding choose_matching
  choose_matching-Settled j (Checked.rejected e) h f q = (λ i. tt, λ c o g l. cc)
  choose_matching-Settled j (passed (some r)) h f q = (
    λ i. tt,
    λ c o g l.
        let (x, y, z) =
          bind-passed (λ x. passed (x, some r)) (receipt_claim k r.attempt r.lease_until) g in
        let e : x ≡ c = ground arith in
        let (held, same) = replayed-Same j r x h q y (rw e l) in (rw (← e) held, rw (← same) h),
  )
  choose_matching-Settled j (passed none) h f q =
      let (st, lv) =
        choose_fields-Sound now lease_seconds max_attempts k b.values (board_receipts b)
          (claim_from_fields b.values) refl in
      (
        st,
        λ c o g l.
            let (held, fields) = lv c o g l in
            (held, record { formed = h.formed; recorded = f; fields = fields }),
      )

  pub choose_claim-Settled :
      (j : Key)
      → Held now j b
      → Settled (choose_claim now lease_seconds max_attempts k b.values (board_receipts b))
  unfolding choose_claim
  choose_claim-Settled j h = elim (Bool-cases (conflicting now k (board_receipts b))) [
    | inl t ↦ rw t (λ i. tt, λ c o g l. cc)
    | inr t ↦ rw t (
        choose_matching-Settled j (matching_claim_receipt k (board_receipts b)) h
          (no_conflict-AllHeld now k (board_receipts b) t) refl)
  ]
