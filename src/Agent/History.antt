-- ===== src/Agent/History.antt =====
-- .github/scripts/agent_control.py: the claims of an issue over a history of workflow runs, one after the other as
-- the workflow's concurrency group has them.
use robodata.Prelude.{
  Option, ℕ, ◌+◌, true, ◌≡◌, sym, ◌∙◌, List, [], ◌∷◌, none, some, take, In, here, In-keep, arith,
  eq_iff,
}
use robodata.Prelude.Checked.{passed}
use robodata.Agent.Ready.{Forms, Server}
use robodata.Agent.{
  ClaimState, Key, is_live, claim_from_fields, held_by, live_receipt_claims, reduce_receipts,
}
use robodata.Agent.Controller.{Board, apply_effects, board_receipts}
use robodata.Agent.Events.{Event, run_event}
use robodata.Agent.Safe.{Held}
use robodata.Agent.Plans.{live-Knows}
use robodata.Agent.Exclusive.{run_event-Held}

-- A workflow run: the time since the one before, GitHub's answers, the event, and the number of calls after which
-- the run is cut short, if it makes more.
pub record Step : Type 0 where
  pub elapsed : ℕ
  pub server : Server
  pub event : Event
  pub calls : ℕ

-- Two claims have the same claim ID and the same run ID.
abbrev pub SameKey : ClaimState → ClaimState → Type 0
SameKey c d = (c.claim_id ≡ d.claim_id) × (c.run_id ≡ d.run_id)

-- All claims that are live by the receipts are of one key, and so is a live claim in the fields.
abbrev pub OneLive : ℕ → Board → Type 0
OneLive now b =
    ((c d : ClaimState)
      → In c (live_receipt_claims now (board_receipts b))
      → In d (live_receipt_claims now (board_receipts b))
      → SameKey c d)
    × ((c d : ClaimState)
        → In c (live_receipt_claims now (board_receipts b))
        → claim_from_fields b.values ≡ passed (some d)
        → is_live now d ≡ true
        → SameKey c d)

empty-Held :
    (now : ℕ) (k : Key) (b : Board)
    → board_receipts b ≡ []
    → b.values.lease_until ≡ none
    → Held now k b
unfolding reduce_receipts
empty-Held now k b empty unset = record {
  formed = rw empty tt;
  recorded = rw empty (λ c m l. elim m [ ]);
  fields = λ t e l. cc (unset, e);
}

module _ (forms : Forms) (lease_seconds max_attempts : ℕ) where
  unfoldable pub run_history : ℕ → Board → List Step → ℕ × Board
  unfolding run_event apply_effects
  run_history now b [] = (now, b)
  run_history now b (s ∷ ss) =
      run_history (now + s.elapsed)
        (apply_effects
          (take s.calls
            (run_event forms s.server lease_seconds max_attempts (now + s.elapsed) s.event b))
          b)
        ss

  later-Held : (now d : ℕ) (k : Key) (b : Board) → Held now k b → Held (now + d) k b
  unfolding is_live
  later-Held now d k b h = record {
    formed = h.formed;
    recorded = λ c m l. h.recorded c m (ground arith);
    fields = λ t e l. h.fields t e (ground arith);
  }

  run_history-Held :
      (now : ℕ) (b : Board) (ss : List Step) (k : Key)
      → Held now k b
      → (j : Key) × Held (run_history now b ss).0 j (run_history now b ss).1
  unfolding run_history
  run_history-Held now b [] k h = (k, h)
  run_history-Held now b (s ∷ ss) k h =
      let (j, before, i) =
        run_event-Held (now + s.elapsed) lease_seconds max_attempts k b
          (later-Held now s.elapsed k b h) forms s.server s.event s.calls in
      run_history-Held (now + s.elapsed)
        (apply_effects
          (take s.calls
            (run_event forms s.server lease_seconds max_attempts (now + s.elapsed) s.event b))
          b)
        ss j i

  held_by-Eq :
      (k : Key) (c : ClaimState)
      → held_by k c ≡ true
      → (c.claim_id ≡ k.claim_id) × (c.run_id ≡ k.run_id)
  held_by-Eq k c h =
      (ground (arith, eq_iff c.claim_id k.claim_id), ground (arith, eq_iff c.run_id k.run_id))

  live-Eq :
      (now : ℕ) (k : Key) (b : Board) (c : ClaimState)
      → Held now k b
      → In c (live_receipt_claims now (board_receipts b))
      → (c.claim_id ≡ k.claim_id) × (c.run_id ≡ k.run_id)
  unfolding live_receipt_claims
  live-Eq now k b c h m =
      let (i, l) = In-keep (is_live now) (reduce_receipts (board_receipts b) []) m in
      held_by-Eq k c (h.recorded c i l)

  Held-OneLive : (now : ℕ) (k : Key) (b : Board) → Held now k b → OneLive now b
  Held-OneLive now k b h = (
    λ c d m n.
        let (x, y) = live-Eq now k b c h m in
        let (z, w) = live-Eq now k b d h n in (x ∙ sym z, y ∙ sym w),
    λ c d m e l.
        let (x, y) = live-Eq now k b c h m in
        let (n, (z, w)) = live-Knows now lease_seconds max_attempts k b d h e l in
        (x ∙ sym z, y ∙ sym w),
  )

  -- After any history of events, also with runs that are cut short at any call, from a board with no receipts and
  -- no lease, the live claims of the issue are of one claim ID and one run ID, and a live claim in the project's
  -- fields is of these too.
  pub run_history-OneLive :
      (now : ℕ) (b : Board) (ss : List Step)
      → board_receipts b ≡ []
      → b.values.lease_until ≡ none
      → OneLive (run_history now b ss).0 (run_history now b ss).1
  unfolding reduce_receipts
  run_history-OneLive now b ss empty unset =
      let (j, h) =
        run_history-Held now b ss (record { claim_id = ""; run_id = "" })
          (empty-Held now (record { claim_id = ""; run_id = "" }) b empty unset) in
      Held-OneLive (run_history now b ss).0 j (run_history now b ss).1 h

-- The claims as a lock: nobody or one key holds it, and only the free one can be taken.
pub data LockStep : Option Key → Option Key → Type 0 where
  acquire : (o : Option Key) → LockStep none o
  free : (k : Key) → LockStep (some k) none
  retain : (k : Key) → LockStep (some k) (some k)

-- The key of the first live claim.
abbrev pub first_key : List ClaimState → Option Key
first_key [] = none
first_key (c ∷ cs) = some (record { claim_id = c.claim_id; run_id = c.run_id })

abbrev pub holder : ℕ → Board → Option Key
holder now b = first_key (live_receipt_claims now (board_receipts b))

AllOf : Key → List ClaimState → Type 0
AllOf k cs = (c : ClaimState) → In c cs → (c.claim_id ≡ k.claim_id) × (c.run_id ≡ k.run_id)

first_key-LockStep :
    (k : Key) (xs ys : List ClaimState)
    → AllOf k xs
    → AllOf k ys
    → LockStep (first_key xs) (first_key ys)
unfolding AllOf
first_key-LockStep k [] ys f g = acquire (first_key ys)
first_key-LockStep k (c ∷ cs) [] f g = free (record { claim_id = c.claim_id; run_id = c.run_id })
first_key-LockStep k (c ∷ cs) (d ∷ ds) f g =
    let (x, y) = f c here in let (z, w) = g d here in rw (x, y, z, w) (retain k)

module _ (forms : Forms) (lease_seconds max_attempts : ℕ) where
  -- The events of an issue refine a lock: after any history from a board with no receipts and no lease, one more event, also
  -- if it is cut short at any call, leaves the holder of the live claims as it was, frees the lock, or gives
  -- the free lock to a holder; it never passes a live claim to another claim ID or run ID.
  pub run_event-LockStep :
      (now : ℕ) (b : Board) (ss : List Step) (s : Step)
      → board_receipts b ≡ []
      → b.values.lease_until ≡ none
      → let (t, c) = run_history forms lease_seconds max_attempts now b ss in
        LockStep (holder (t + s.elapsed) c) (
          holder (t + s.elapsed) (
            apply_effects
              (take s.calls
                (run_event forms s.server lease_seconds max_attempts (t + s.elapsed) s.event c))
              c))
  unfolding AllOf
  run_event-LockStep now b ss s empty unset =
      let c = (run_history forms lease_seconds max_attempts now b ss).1 in
      let t = (run_history forms lease_seconds max_attempts now b ss).0 in
      let (k, h) =
        run_history-Held forms lease_seconds max_attempts now b ss
          (record { claim_id = ""; run_id = "" })
          (empty-Held now (record { claim_id = ""; run_id = "" }) b empty unset) in
      let (j, i, i') =
        run_event-Held (t + s.elapsed) lease_seconds max_attempts k c
          (later-Held forms lease_seconds max_attempts t s.elapsed k c h) forms s.server s.event
          s.calls in
      first_key-LockStep j _ _
        (λ d m. live-Eq forms lease_seconds max_attempts (t + s.elapsed) j c d i m)
        (λ d m. live-Eq forms lease_seconds max_attempts (t + s.elapsed) j _ d i' m)
