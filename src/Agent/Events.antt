-- ===== src/Agent/Events.antt =====
-- .github/scripts/agent_control.py, AgentController.sync_issue, sync_pull_request and reconcile, as the calls
-- that they make, in order.
use robodata.Prelude.{
  ℕ, ◌+◌, String, Bool, true, false, ◌&&◌, List, [], ◌∷◌, ◌++◌, Option, none, some, leb, str_eq,
  if◌then◌else◌,
}
use robodata.Prelude.Checked.{Checked, passed}
use robodata.Agent.Ready.{Issue, Forms, Server, issue_kind, project_dimensions}
use robodata.Agent.{
  Command, heartbeat, release, complete, accepted, reconciled, ControlRequest, Status, inbox,
  in_progress, in_review, recovery, blocked, done, other_status, ControlError, Reason, told,
  control, ClaimState, is_live, isoformat_utc, claim_from_fields, live_receipt_claims,
}
use robodata.Agent.Controller.{
  Board, Effect, set_status, set_lease_until, post_comment, board_receipts, clear_claim,
  lease_receipt, is_leased, apply_effects, dimension_effects, handle_request,
}

abbrev pub notice : Command → Option String → Option String → Option ℕ → Reason → Status → Effect
notice cmd claim_id run_id attempt why s = post_comment (record {
  command = some cmd;
  result = some accepted;
  claim_id = claim_id;
  run_id = run_id;
  attempt = attempt;
  lease_until = none;
  status = some s;
  reason = some why;
})

pub data IssueAction : Type 0 where
  closed reopened other_action : IssueAction

-- One `complete` receipt for each live claim.
unfoldable pub complete_all : List ClaimState → List Effect
complete_all [] = []
complete_all (c ∷ cs) =
    notice complete (some c.claim_id) (some c.run_id) (some c.attempt) (told "Issue closed.") done
    ∷ complete_all cs

abbrev pub is_unset : Option Status → Bool
is_unset none = true
is_unset (some (other_status s)) = str_eq s ""
is_unset _ = false

abbrev pub is_done : Option Status → Bool
is_done none = true
is_done (some done) = true
is_done _ = false

abbrev pub inbox_if : Bool → List Effect
inbox_if true = set_status (some inbox) ∷ []
inbox_if false = []

-- The fields of a closed issue's update stand after its dimensions.
abbrev pub sync_action : ℕ → IssueAction → List Effect → Board → List Effect
sync_action now closed dims b =
    complete_all (live_receipt_claims now (board_receipts b)) ++ (dims ++ clear_claim done)
sync_action now reopened dims b =
    dims ++ inbox_if (if is_done b.values.status then true else is_unset b.values.status)
sync_action now other_action dims b = dims ++ inbox_if (is_unset b.values.status)

unfoldable pub sync_issue : Forms → ℕ → Issue → IssueAction → Board → List Effect
unfolding live_receipt_claims board_receipts complete_all
sync_issue forms now i action b =
    sync_action now action
      (dimension_effects (project_dimensions forms i.body (issue_kind forms i.body i.labels))) b

-- A pull request by what the regular expressions find in its body: the issues that it closes, and its
-- first Claim-ID and Agent-Run lines.
pub record PullRequest : Type 0 where
  pub closes : List ℕ
  pub claim_id : Option String
  pub run_id : Option String
  pub is_closed : Bool
  pub merged : Bool
  pub draft : Bool

abbrev pub names : Option String → Option String → Bool
names (some s) (some t) = str_eq s t
names _ _ = false

abbrev pub pull_ended : PullRequest → List Effect
pull_ended p =
    if p.merged
    then clear_claim done
      ++ notice complete p.claim_id p.run_id none (told "Pull request merged.") done ∷ []
    else clear_claim recovery
      ++ notice release p.claim_id p.run_id none (told "Pull request closed.") recovery ∷ []

abbrev pub closes_one : List ℕ → Bool
closes_one (n ∷ []) = true
closes_one _ = false

module _ (now lease_seconds : ℕ) where
  abbrev pub pull_lease : Status → ClaimState → List Effect
  pull_lease s c =
      set_status (some s)
      ∷ set_lease_until (some (isoformat_utc (now + lease_seconds)))
      ∷ lease_receipt heartbeat accepted (some c.claim_id) (some c.run_id) c.attempt
          (now + lease_seconds) (some s)
      ∷ []

  abbrev pub pull_held : Bool → Checked ControlError (Option ClaimState) → List Effect
  pull_held draft (Checked.rejected e) = []
  pull_held draft (passed none) = clear_claim recovery
  pull_held draft (passed (some c)) =
      if is_live now c
      then pull_lease (if draft then in_progress else in_review) c
      else clear_claim recovery

  -- Of the board of the one issue that the pull request closes.
  unfoldable pub sync_pull_request : PullRequest → Board → List Effect
  unfolding is_live isoformat_utc claim_from_fields
  sync_pull_request p b =
      if closes_one p.closes && names b.values.claim_id p.claim_id && names b.values.run_id p.run_id
      then (if p.is_closed then pull_ended p else pull_held p.draft (claim_from_fields b.values))
      else []

abbrev pub reconciliation : Option String → Option String → Option ℕ → Reason → Status → Effect
reconciliation claim_id run_id attempt why s = post_comment (record {
  command = some release;
  result = some reconciled;
  claim_id = claim_id;
  run_id = run_id;
  attempt = attempt;
  lease_until = none;
  status = some s;
  reason = some why;
})

-- A project item of the repository or of another one, with its issue's board.
pub record Item : Type 0 where
  pub is_own : Bool
  pub board : Board

abbrev pub changed : List Effect → ℕ
changed [] = 0
changed (e ∷ es) = 1

module _ (now max_attempts : ℕ) where
  abbrev pub expire_claim : ClaimState → List Effect
  expire_claim c =
      let s = if leb max_attempts c.attempt then blocked else recovery in
      clear_claim s
      ++ reconciliation (some c.claim_id) (some c.run_id) (some c.attempt) (told "Lease expired.") s
        ∷ []

  abbrev pub repair : Checked ControlError (Option ClaimState) → List Effect
  repair (Checked.rejected e) =
      clear_claim blocked ++ reconciliation none none none (control e) blocked ∷ []
  repair (passed none) = []
  repair (passed (some c)) = if is_live now c then [] else expire_claim c

  unfoldable pub reconcile_item : Item → List Effect
  unfolding is_live claim_from_fields
  reconcile_item i =
      if i.is_own && is_leased i.board.values.status
      then repair (claim_from_fields i.board.values)
      else []

  -- The number of repaired items, and the items.
  unfoldable pub reconcile : List Item → ℕ × List Item
  unfolding reconcile_item apply_effects
  reconcile [] = (0, [])
  reconcile (i ∷ is) =
      let rest = reconcile is in
      (
        changed (reconcile_item i) + rest.0,
        record i { board = apply_effects (reconcile_item i) i.board } ∷ rest.1,
      )

-- A workflow run that concerns one issue. The request of a comment is what parse_control_request returns; where
-- that raises, the run ends and there is none.
pub data Event : Type 0 where
  issues : Issue → IssueAction → Event
  issue_comment : Bool → Bool → Option ControlRequest → Issue → Event
  pull_request : PullRequest → Event
  schedule : Event

abbrev pub effective_action : Issue → IssueAction → IssueAction
effective_action i closed = if i.is_open then other_action else closed
effective_action i a = if i.is_open then a else closed

abbrev pub comment_effects :
    Bool → Bool → Option ControlRequest → (ControlRequest → List Effect) → List Effect
comment_effects on_pull by_owner none handle = []
comment_effects on_pull by_owner (some q) handle =
    if on_pull then [] else if by_owner then handle q else []

module _ (forms : Forms) (server : Server) (lease_seconds max_attempts now : ℕ) where
  unfoldable pub run_event : Event → Board → List Effect
  unfolding sync_issue sync_pull_request reconcile_item handle_request
  run_event (issues i a) b = sync_issue forms now i (effective_action i a) b
  run_event (issue_comment on_pull by_owner o i) b =
      comment_effects on_pull by_owner o
        (λ q. handle_request now lease_seconds max_attempts forms server i q b)
  run_event (pull_request p) b = sync_pull_request now lease_seconds p b
  run_event schedule b = reconcile_item now max_attempts (record { is_own = true; board = b })
