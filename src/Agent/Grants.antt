-- ===== src/Agent/Grants.antt =====
-- .github/scripts/agent_control.py: the calls of the `claim` command keep an issue's live claims with one
-- key.
use robodata.Prelude.{
  ℕ, String, Bool, true, false, ◌≡◌, refl, ap, inl, inr, List, [], ◌∷◌, ◌++◌, Option, none, some,
  All, All-append, Bool-cases, arith, eq_iff, if◌then◌else◌, any,
}
use robodata.Prelude.Checked.{Checked, passed}
use robodata.Agent.Ready.{ReadyError}
use robodata.Agent.{
  claim, ReceiptResult, pending, accepted, ControlError, another_live, Reason, failures, told,
  in_progress, ControlRequest, ClaimState, Key, Receipt, is_live, isoformat_utc, held_by,
  live_receipt_claims,
}
use robodata.Agent.Controller.{
  Board, Effect, set_status, set_claim_id, set_run_id, set_lease_until, set_attempt, apply_effect,
  apply_effects, board_receipts, rejection, refused, assign_claim, claim_receipt, is_accepted,
  grant_claim, lapse, key_of, choose_claim, settle_claim, claim_keyed, handle_claim,
}
use robodata.Agent.Safe.{
  Held, Static, Keyed, SafeRun, Static-SafeRun, Keyed-SafeRun, append-SafeRun,
}
use robodata.Agent.Choice.{choose_claim-Settled}
use robodata.Agent.Plans.{
  Runs, Static-Runs, lease_receipt-Static, refused-Static, lapse-Static, rejected_passive, passive,
}

module _ (now : ℕ) (k : Key) (c : ClaimState) (h : held_by k c ≡ true) where
  id-Eq : c.claim_id ≡ k.claim_id
  id-Eq = (eq_iff c.claim_id k.claim_id).0 (ground arith)

  run-Eq : c.run_id ≡ k.run_id
  run-Eq = (eq_iff c.run_id k.run_id).0 (ground arith)

  -- The fields are set in an order that puts the IDs before the lease.
  assign_claim-SafeRun :
      (fs : List Effect) (b : Board)
      → All (Keyed k) fs
      → Held now k b
      → SafeRun now k b (assign_claim c ++ fs)
  unfolding apply_effects apply_effect
  assign_claim-SafeRun fs b p i =
      let ids : List Effect =
        set_status (some in_progress)
        ∷ set_claim_id (some c.claim_id)
        ∷ set_run_id (some c.run_id)
        ∷ [] in
      let ids_static : All (Static k) ids =
        (tt, (inr (ap some id-Eq), (inr (ap some run-Eq), tt))) in
      append-SafeRun now k ids
        (set_lease_until (some (isoformat_utc c.lease_until)) ∷ set_attempt c.attempt ∷ fs) b
        (Static-SafeRun now k ids b ids_static i)
        (λ j.
          Keyed-SafeRun now k
            (set_lease_until (some (isoformat_utc c.lease_until)) ∷ set_attempt c.attempt ∷ fs)
            (apply_effects ids b) (tt, (tt, p)) (inr (ap some id-Eq), inr (ap some run-Eq)) j)

  module _ (q : ControlRequest) (x : q.claim_id ≡ some k.claim_id)
      (y : q.run_id ≡ some k.run_id) where
    claim_receipt-Static : (res : ReceiptResult) → Static k (claim_receipt q res c)
    claim_receipt-Static res =
        lease_receipt-Static k claim res q.claim_id q.run_id c.attempt c.lease_until
          (some in_progress) x y

    accepted-Keyed : (t : Bool) → All (Keyed k) (if t then [] else claim_receipt q accepted c ∷ [])
    accepted-Keyed true = tt
    accepted-Keyed false = (claim_receipt-Static accepted, tt)

    -- The calls that grant a claim of the key.
    grant_claim-SafeRun :
        (o : Option Receipt) (b : Board) → Held now k b → SafeRun now k b (grant_claim q c o)
    grant_claim-SafeRun none b i =
        let first : List Effect = claim_receipt q pending c ∷ [] in
        append-SafeRun now k first (assign_claim c ++ claim_receipt q accepted c ∷ []) b
          (Static-SafeRun now k first b (claim_receipt-Static pending, tt) i)
          (assign_claim-SafeRun (claim_receipt q accepted c ∷ []) (apply_effects first b)
            (accepted-Keyed false))
    grant_claim-SafeRun (some r) b i =
        assign_claim-SafeRun (if is_accepted r.result then [] else claim_receipt q accepted c ∷ [])
          b (accepted-Keyed (is_accepted r.result)) i

abbrev expired : Reason
expired = told "Recorded claim lease has expired; use a new Claim ID."

module _ (now lease_seconds max_attempts : ℕ) (q : ControlRequest) (b : Board) where
  settle_claim-Runs :
      (j k : Key) (es : List Effect) (r : Checked ControlError (ClaimState × Option Receipt))
      → q.claim_id ≡ some k.claim_id
      → q.run_id ≡ some k.run_id
      → Held now j b
      → ((i : Key) → All (Static i) es)
      → ((c : ClaimState) (o : Option Receipt)
          → r ≡ passed (c, o)
          → is_live now c ≡ true
          → (held_by k c ≡ true) × Held now k b)
      → Runs now b (es ++ settle_claim now lease_seconds max_attempts q r)
  unfolding settle_claim
  settle_claim-Runs j k es (Checked.rejected e) x y h st lv =
      Static-Runs now j b (es ++ refused q e) h
        (All-append (Static j) (refused q e) (refused-Static j q e) es (st j))
  settle_claim-Runs j k es (passed (c, o)) x y h st lv = elim (Bool-cases (is_live now c)) [
    | inl l ↦
        let (held, i) = lv c o refl l in
        rw l (
          k,
          i,
          λ d m f.
              append-SafeRun now k es (grant_claim q c o) d (Static-SafeRun now k es d (st k) m)
                (grant_claim-SafeRun now k c held q x y o (apply_effects es d)),
        )
    | inr l ↦ rw l (
        Static-Runs now j b (es ++ lapse q expired) h
          (All-append (Static j) (lapse q expired) (lapse-Static j q expired) es (st j)))
  ]

  key_of-Eq :
      (x y : Option String) (k : Key)
      → key_of x y ≡ some k
      → (x ≡ some k.claim_id) × (y ≡ some k.run_id)
  key_of-Eq none y k e = cc
  key_of-Eq (some x) none k e = cc
  key_of-Eq (some x) (some y) k e = (ground arith, ground arith)

  claim_Keyed-Runs :
      (j : Key) (o : Option Key)
      → key_of q.claim_id q.run_id ≡ o
      → Held now j b
      → Runs now b (claim_keyed now lease_seconds max_attempts q o b.values (board_receipts b))
  claim_Keyed-Runs j none e h =
      elim (Bool-cases (any (λ c. true) (live_receipt_claims now (board_receipts b)))) [
        | inl t ↦
            rw t (Static-Runs now j b (refused q another_live) h (refused-Static j q another_live))
        | inr t ↦ rw t (Static-Runs now j b [] h tt)
      ]
  claim_Keyed-Runs j (some k) e h =
      let (x, y) = key_of-Eq q.claim_id q.run_id k e in
      let choice = choose_claim now lease_seconds max_attempts k b.values (board_receipts b) in
      let (st, lv) = choose_claim-Settled now lease_seconds max_attempts k b j h in
      settle_claim-Runs j k choice.0 choice.1 x y h st lv

  pub handle_claim-Runs :
      (j : Key) (fails : Option (List ReadyError))
      → Held now j b
      → Runs now b (handle_claim now lease_seconds max_attempts q fails b.values (board_receipts b))
  unfolding handle_claim
  handle_claim-Runs j none h = Static-Runs now j b [] h tt
  handle_claim-Runs j (some (e ∷ es)) h =
      Static-Runs now j b (rejection q (failures (e ∷ es)) none ∷ []) h
        (passive _ (rejected_passive q.command), tt)
  handle_claim-Runs j (some []) h = claim_Keyed-Runs j (key_of q.claim_id q.run_id) refl h
