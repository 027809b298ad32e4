-- ===== src/Agent/Exclusive.antt =====
-- .github/scripts/agent_control.py: at most one claim of an issue is live, over any history of its events.
use robodata.Prelude.{
  ℕ, ◌+◌, String, Bool, true, false, ◌&&◌, ◌≡◌, refl, ap, inl, inr, List, [], ◌∷◌, ◌++◌, Option,
  none, some, All, All-append, Bool-cases, if◌then◌else◌, take,
}
use robodata.Prelude.Checked.{Checked, passed}
use robodata.Agent.Ready.{
  Issue, Forms, Server, ready_failures, issue_kind, project_dimensions, ReadyError,
}
use robodata.Agent.{
  Command, ready, claim, heartbeat, block, release, complete, accepted, recovery, done, in_progress,
  in_review, ControlError, ControlRequest, ClaimState, Key, mark_of, is_live, claim_from_fields,
  live_receipt_claims,
}
use robodata.Agent.Controller.{
  Board, Effect, set_dimension, handle_ready, apply_effect, apply_effects, board_receipts,
  clear_claim, dispatch, dimension_effects, handle_request, is_leased,
}
use robodata.Agent.Events.{
  IssueAction, closed, reopened, other_action, complete_all, is_unset, is_done, inbox_if,
  sync_action, sync_issue, PullRequest, pull_ended, pull_lease, pull_held, closes_one, names,
  sync_pull_request, repair, expire_claim, reconcile_item, Event, issues, issue_comment,
  pull_request, schedule, comment_effects, effective_action, run_event,
}
use robodata.Agent.Safe.{
  Held, Knows, Static, SafeRun, Static-SafeRun, Keyed-SafeRun, append-SafeRun, cut-Held,
}
use robodata.Agent.Plans.{
  Runs, Static-Runs, dimensions-Static, passive, lease_receipt-Static, handle_ready-Static,
  handle_held-Runs, live-Knows,
}
use robodata.Agent.Grants.{handle_claim-Runs}

module _ (now max_attempts : ℕ) (k : Key) (b : Board) where
  complete_all-Static : (cs : List ClaimState) → All (Static k) (complete_all cs)
  unfolding complete_all mark_of
  complete_all-Static [] = tt
  complete_all-Static (c ∷ cs) = (passive _ refl, complete_all-Static cs)

  inbox_if-Static : (t : Bool) → All (Static k) (inbox_if t)
  inbox_if-Static true = (tt, tt)
  inbox_if-Static false = tt

  sync_action-Static :
      (a : IssueAction) (ds : List Effect)
      → All (Static k) ds
      → All (Static k) (sync_action now a ds b)
  sync_action-Static closed ds p =
      All-append (Static k) (ds ++ clear_claim done)
        (All-append (Static k) (clear_claim done) (tt, (inl refl, (inl refl, (refl, tt)))) ds p)
        (complete_all (live_receipt_claims now (board_receipts b)))
        (complete_all-Static (live_receipt_claims now (board_receipts b)))
  sync_action-Static reopened ds p =
      let t = if is_done b.values.status then true else is_unset b.values.status in
      All-append (Static k) (inbox_if t) (inbox_if-Static t) ds p
  sync_action-Static other_action ds p =
      All-append (Static k) (inbox_if (is_unset b.values.status))
        (inbox_if-Static (is_unset b.values.status)) ds p

  pull_ended-Static : (p : PullRequest) → All (Static k) (pull_ended p)
  unfolding mark_of
  pull_ended-Static p = elim (Bool-cases p.merged) [
    | inl t ↦ rw t (tt, (inl refl, (inl refl, (refl, (passive _ refl, tt)))))
    | inr t ↦ rw t (tt, (inl refl, (inl refl, (refl, (passive _ refl, tt)))))
  ]

  expire_claim-Static : (c : ClaimState) → All (Static k) (expire_claim now max_attempts c)
  unfolding mark_of
  expire_claim-Static c = (tt, (inl refl, (inl refl, (refl, (passive _ refl, tt)))))

  repair-Static :
      (m : Checked ControlError (Option ClaimState)) → All (Static k) (repair now max_attempts m)
  unfolding mark_of
  repair-Static (Checked.rejected e) = (tt, (inl refl, (inl refl, (refl, (passive _ refl, tt)))))
  repair-Static (passed none) = tt
  repair-Static (passed (some c)) = elim (Bool-cases (is_live now c)) [
    | inl l ↦ rw l tt
    | inr l ↦ rw l (expire_claim-Static c)
  ]

  reconcile_item-Static :
      (own : Bool)
      → All (Static k) (reconcile_item now max_attempts (record { is_own = own; board = b }))
  unfolding reconcile_item
  reconcile_item-Static own = elim (Bool-cases (own && is_leased b.values.status)) [
    | inl t ↦ rw t (repair-Static (claim_from_fields b.values))
    | inr t ↦ rw t tt
  ]

dimensions-Knows :
    (k : Key) (ds : List (String × String)) (b : Board)
    → Knows k b.values
    → Knows k (apply_effects (dimension_effects ds) b).values
unfolding apply_effects apply_effect
dimensions-Knows k [] b n = n
dimensions-Knows k (d ∷ ds) b n = dimensions-Knows k ds (apply_effect (set_dimension d.0 d.1) b) n

-- The order holds for some key, also after each first part of the calls.
abbrev pub Safe : ℕ → Board → List Effect → Type 0
Safe now b es = (j : Key) × Held now j b × SafeRun now j b es

module _ (now lease_seconds max_attempts : ℕ) (k : Key) (b : Board) (h : Held now k b) where
  Static-Safe : (es : List Effect) → All (Static k) es → Safe now b es
  Static-Safe es p = (k, h, Static-SafeRun now k es b p h)

  dispatch-Runs :
      (d : Command) (q : ControlRequest) (fails : Option (List ReadyError))
      → q.command ≡ d
      → Runs now b (dispatch now lease_seconds max_attempts d q fails b.values (board_receipts b))
  dispatch-Runs ready q fails e =
      Static-Runs now k b (handle_ready now q fails b.values (claim_from_fields b.values)) h
        (handle_ready-Static k now q fails b.values (claim_from_fields b.values) e)
  dispatch-Runs claim q fails e = handle_claim-Runs now lease_seconds max_attempts q b k fails h
  dispatch-Runs heartbeat q fails e =
      handle_held-Runs now lease_seconds max_attempts k q b (claim_from_fields b.values) h refl
  dispatch-Runs block q fails e =
      handle_held-Runs now lease_seconds max_attempts k q b (claim_from_fields b.values) h refl
  dispatch-Runs release q fails e =
      handle_held-Runs now lease_seconds max_attempts k q b (claim_from_fields b.values) h refl
  dispatch-Runs complete q fails e =
      handle_held-Runs now lease_seconds max_attempts k q b (claim_from_fields b.values) h refl

  after_dimensions-Safe :
      (ds : List (String × String)) (es : List Effect)
      → Runs now b es
      → Safe now b (dimension_effects ds ++ es)
  after_dimensions-Safe ds es (j, i, run) = (
    j,
    i,
    append-SafeRun now j (dimension_effects ds) es b
        (Static-SafeRun now j (dimension_effects ds) b (dimensions-Static j ds) i)
        (λ m. run (apply_effects (dimension_effects ds) b) m (dimensions-Knows j ds b)),
  )

  handle_request-Safe :
      (forms : Forms) (server : Server) (i : Issue) (q : ControlRequest)
      → Safe now b (handle_request now lease_seconds max_attempts forms server i q b)
  unfolding handle_request
  handle_request-Safe forms server i q =
      after_dimensions-Safe (project_dimensions forms i.body (issue_kind forms i.body i.labels))
        (dispatch now lease_seconds max_attempts q.command q (ready_failures forms server i)
          b.values (board_receipts b))
        (dispatch-Runs q.command q (ready_failures forms server i) refl)

  pull_held-Safe :
      (draft : Bool) (m : Checked ControlError (Option ClaimState))
      → claim_from_fields b.values ≡ m
      → Safe now b (pull_held now lease_seconds draft m)
  pull_held-Safe draft (Checked.rejected e) f = Static-Safe [] tt
  pull_held-Safe draft (passed none) f =
      Static-Safe (clear_claim recovery) (tt, (inl refl, (inl refl, (refl, tt))))
  pull_held-Safe draft (passed (some c)) f = elim (Bool-cases (is_live now c)) [
    | inl l ↦
        let (n, (x, y)) = live-Knows now lease_seconds max_attempts k b c h f l in
        let s = if draft then in_progress else in_review in
        rw l (
          k,
          h,
          Keyed-SafeRun now k (pull_lease now lease_seconds s c) b
              (
                tt,
                (
                  tt,
                  (
                    lease_receipt-Static k heartbeat accepted (some c.claim_id) (some c.run_id)
                        c.attempt (now + lease_seconds) (some s) (ap some x) (ap some y),
                    tt,
                  ),
                ),
              )
              n h,
        )
    | inr l ↦ rw l (Static-Safe (clear_claim recovery) (tt, (inl refl, (inl refl, (refl, tt)))))
  ]

  sync_pull_request-Safe : (p : PullRequest) → Safe now b (sync_pull_request now lease_seconds p b)
  unfolding sync_pull_request
  sync_pull_request-Safe p =
      elim (Bool-cases (
        closes_one p.closes
        && names b.values.claim_id p.claim_id
        && names b.values.run_id p.run_id)) [
          | inl t ↦ elim (Bool-cases p.is_closed) [
            | inl s ↦
                rw (t, s) (Static-Safe (pull_ended p) (pull_ended-Static now max_attempts k b p))
            | inr s ↦ rw (t, s) (pull_held-Safe p.draft (claim_from_fields b.values) refl)
          ]
          | inr t ↦ rw t (Static-Safe [] tt)
        ]

  comment-Safe :
      (on_pull by_owner : Bool) (o : Option ControlRequest) (handle : ControlRequest → List Effect)
      → ((q : ControlRequest) → Safe now b (handle q))
      → Safe now b (comment_effects on_pull by_owner o handle)
  comment-Safe on_pull by_owner none handle f = Static-Safe [] tt
  comment-Safe true by_owner (some q) handle f = Static-Safe [] tt
  comment-Safe false true (some q) handle f = f q
  comment-Safe false false (some q) handle f = Static-Safe [] tt

  -- If an issue's board is in order for some key (its claim receipts have an attempt and a timestamp each, the claims
  -- that the receipts have as live are of the key, and so are the IDs beside a live lease in the fields), then there
  -- is a key for which it is in order before an event and after the event, also if the event is cut short after any
  -- number of its calls.
  pub run_event-Held :
      (forms : Forms) (server : Server) (e : Event) (n : ℕ)
      → (j : Key) × Held now j b
        × Held now j
            (apply_effects (take n (run_event forms server lease_seconds max_attempts now e b)) b)
  unfolding run_event sync_issue
  run_event-Held forms server (issues i a) n =
      let ds =
        dimension_effects (project_dimensions forms i.body (issue_kind forms i.body i.labels)) in
      (
        k,
        h,
        cut-Held now k n _ b (
            Static-SafeRun now k (sync_action now (effective_action i a) ds b) b
              (sync_action-Static now max_attempts k b (effective_action i a) ds
                (dimensions-Static k _))
              h),
      )
  run_event-Held forms server (issue_comment x y o i) n =
      let (j, m, s) =
        comment-Safe x y o (λ q. handle_request now lease_seconds max_attempts forms server i q b)
          (handle_request-Safe forms server i) in
      (j, m, cut-Held now j n _ b s)
  run_event-Held forms server (pull_request p) n =
      let (j, m, s) = sync_pull_request-Safe p in (j, m, cut-Held now j n _ b s)
  run_event-Held forms server schedule n = (
    k,
    h,
    cut-Held now k n _ b (
        Static-SafeRun now k (reconcile_item now max_attempts (record { is_own = true; board = b }))
          b (reconcile_item-Static now max_attempts k b true) h),
  )
