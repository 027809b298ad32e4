-- ===== src/Agent/Controller.antt =====
-- .github/scripts/agent_control.py, AgentController.handle_request: the calls that change the project item or
-- the issue, in the order in which the handler makes them. A run that is cut short has made a first part of
-- them. Project fields are set one at a time, as set_fields does.
use robodata.Prelude.{
  ℕ, ◌+◌, String, Bool, true, false, not, ◌&&◌, ◌||◌, List, [], ◌∷◌, ◌++◌, map, Option, none, some,
  ltb, str_eq, any, keep, if◌then◌else◌,
}
use robodata.Prelude.Checked.{Checked, passed, ◌>>=◌}
use robodata.Agent.Ready.{
  Issue, Forms, Server, ReadyError, ready_failures, issue_kind, project_dimensions,
}
use robodata.Agent.{
  Command, ready, claim, heartbeat, block, release, ReceiptResult, pending, accepted, rejected,
  Status, needs_spec, ready_to_claim, in_progress, in_review, recovery, blocked, Timestamp,
  ControlError, attempt_limit, another_live, uncaught, Reason, told, failures, control,
  ControlRequest, ClaimState, Key, Values, Receipt, Comment, is_live, isoformat_utc,
  parse_timestamp, claim_from_fields, attempt_of, next_claim, grants, Mark, receipt_mark, mark_of,
  trusted_receipt_bodies, parse_receipts, matching_claim_receipt, held_by, live_receipt_claims,
}

pub record Board : Type 0 where
  pub values : Values
  pub comments : List Comment
  pub labels : List String

pub data Effect : Type 0 where
  set_status : Option Status → Effect
  set_claim_id set_run_id : Option String → Effect
  set_lease_until : Option Timestamp → Effect
  set_attempt : ℕ → Effect
  set_dimension : String → String → Effect
  remove_label : String → Effect
  post_comment : Receipt → Effect

abbrev pub with_values : Board → Values → Board
with_values b v = record b { values = v }

abbrev pub bot_comment : Receipt → Comment
bot_comment r = record { login = some "github-actions[bot]"; receipts = r ∷ [] }

unfoldable pub set_entry : String → String → List (String × String) → List (String × String)
set_entry name value [] = (name, value) ∷ []
set_entry name value ((n, v) ∷ ns) =
    if str_eq n name then (n, value) ∷ ns else (n, v) ∷ set_entry name value ns

unfoldable pub apply_effect : Effect → Board → Board
unfolding set_entry
apply_effect (set_status s) b = with_values b (record b.values { status = s })
apply_effect (set_claim_id c) b = with_values b (record b.values { claim_id = c })
apply_effect (set_run_id r) b = with_values b (record b.values { run_id = r })
apply_effect (set_lease_until l) b = with_values b (record b.values { lease_until = l })
apply_effect (set_attempt n) b = with_values b (record b.values { attempt = some n })
apply_effect (set_dimension n v) b =
    with_values b (record b.values { dimensions = set_entry n v b.values.dimensions })
apply_effect (remove_label l) b = record b { labels = keep (λ k. not (str_eq l k)) b.labels }
apply_effect (post_comment r) b = record b { comments = b.comments ++ bot_comment r ∷ [] }

unfoldable pub apply_effects : List Effect → Board → Board
unfolding apply_effect
apply_effects [] b = b
apply_effects (e ∷ es) b = apply_effects es (apply_effect e b)

unfoldable pub board_receipts : Board → List Receipt
unfolding trusted_receipt_bodies parse_receipts
board_receipts b = parse_receipts (trusted_receipt_bodies b.comments)

-- Status, and the claim's three fields cleared.
abbrev pub clear_claim : Status → List Effect
clear_claim s =
    set_status (some s) ∷ set_claim_id none ∷ set_run_id none ∷ set_lease_until none ∷ []

abbrev pub cleared : Status → Values → Values
cleared s v = record v { status = some s; claim_id = none; run_id = none; lease_until = none }

abbrev pub rejection : ControlRequest → Reason → Option Status → Effect
rejection q why s = post_comment (record {
  command = some q.command;
  result = some rejected;
  claim_id = q.claim_id;
  run_id = q.run_id;
  attempt = none;
  lease_until = none;
  status = s;
  reason = some why;
})

-- An accepted receipt with no claim data.
abbrev pub acceptance : ControlRequest → Option Reason → Status → Effect
acceptance q why s = post_comment (record {
  command = some q.command;
  result = some accepted;
  claim_id = q.claim_id;
  run_id = q.run_id;
  attempt = none;
  lease_until = none;
  status = some s;
  reason = why;
})

-- A receipt with the attempt and the lease of a claim.
abbrev pub lease_receipt :
    Command → ReceiptResult → Option String → Option String → ℕ → ℕ → Option Status → Effect
lease_receipt c res claim_id run_id attempt lease s = post_comment (record {
  command = some c;
  result = some res;
  claim_id = claim_id;
  run_id = run_id;
  attempt = some attempt;
  lease_until = some (isoformat_utc lease);
  status = s;
  reason = none;
})

abbrev pub is_leased : Option Status → Bool
is_leased (some in_progress) = true
is_leased (some in_review) = true
is_leased _ = false

abbrev pub is_held : ℕ → Option ClaimState → Bool
is_held now none = false
is_held now (some c) = is_live now c

-- The `ready` command, from its claim fields and the ready failures on.
abbrev pub ready_checked : ControlRequest → Option (List ReadyError) → List Effect
ready_checked q none = []
ready_checked q (some (e ∷ es)) =
    set_status (some needs_spec) ∷ rejection q (failures (e ∷ es)) (some needs_spec) ∷ []
ready_checked q (some []) =
    clear_claim ready_to_claim
    ++ remove_label "needs-triage" ∷ acceptance q none ready_to_claim ∷ []

unfoldable pub handle_ready :
    ℕ
    → ControlRequest
    → Option (List ReadyError)
    → Values
    → Checked ControlError (Option ClaimState)
    → List Effect
unfolding is_live
handle_ready now q fails v (Checked.rejected e) =
    set_status (some blocked) ∷ rejection q (control e) (some blocked) ∷ []
handle_ready now q fails v (passed current) =
    if is_leased v.status || is_held now current
    then rejection q (told "A live claim cannot be moved back to Ready.") v.status ∷ []
    else ready_checked q fails

-- The claim that a recorded receipt tells of.
abbrev pub receipt_claim : Key → Option ℕ → Option Timestamp → Checked ControlError ClaimState
receipt_claim k (some a) (some l) = parse_timestamp l >>= λ t.
    passed (record { claim_id = k.claim_id; run_id = k.run_id; attempt = a; lease_until = t })
receipt_claim k _ _ = Checked.rejected uncaught

abbrev pub max_with : Option ℕ → ℕ → ℕ
max_with none n = n
max_with (some m) n = if ltb n m then m else n

abbrev pub marked_max : Mark → Option ℕ → ℕ → ℕ
marked_max grants a n = max_with a n
marked_max _ a n = n

-- max over the attempts of the claim receipts that are pending or accepted.
unfoldable pub max_attempt : List Receipt → ℕ → ℕ
unfolding mark_of
max_attempt [] n = n
max_attempt (r ∷ rs) n = marked_max (receipt_mark r) r.attempt (max_attempt rs n)

abbrev pub is_expired : ℕ → Option ClaimState → Bool
is_expired now none = false
is_expired now (some c) = not (is_live now c)

-- The recorded fields that next_claim is asked with, `expired` telling that the claim in them was cleared.
abbrev pub claim_values : Bool → Values → List Receipt → Values
claim_values expired v rs = record (if expired then cleared recovery v else v) {
  attempt = some (max_attempt rs (attempt_of v.attempt));
}

-- What the attempt at a claim comes to: its error, or the claim with its earlier receipt, if any.
abbrev pub Choice : Type 0
Choice = List Effect × Checked ControlError (ClaimState × Option Receipt)

abbrev pub found_new : List Effect × Checked ControlError (ClaimState × Bool) → Choice
found_new (es, r) = (es, (r >>= λ c. passed (c.0, none)))

abbrev pub refused : ControlRequest → ControlError → List Effect
refused q uncaught = []
refused q (attempt_limit n) =
    set_status (some blocked) ∷ rejection q (control (attempt_limit n)) none ∷ []
refused q e = rejection q (control e) none ∷ []

-- The update of the five fields, in the order of its dict.
abbrev pub assign_claim : ClaimState → List Effect
assign_claim c =
    set_status (some in_progress)
    ∷ set_claim_id (some c.claim_id)
    ∷ set_run_id (some c.run_id)
    ∷ set_lease_until (some (isoformat_utc c.lease_until))
    ∷ set_attempt c.attempt
    ∷ []

abbrev pub claim_receipt : ControlRequest → ReceiptResult → ClaimState → Effect
claim_receipt q res c =
    lease_receipt claim res q.claim_id q.run_id c.attempt c.lease_until (some in_progress)

abbrev pub is_accepted : Option ReceiptResult → Bool
is_accepted (some accepted) = true
is_accepted _ = false

abbrev pub grant_claim : ControlRequest → ClaimState → Option Receipt → List Effect
grant_claim q c none = claim_receipt q pending c ∷ assign_claim c ++ claim_receipt q accepted c ∷ []
grant_claim q c (some r) =
    assign_claim c ++ (if is_accepted r.result then [] else claim_receipt q accepted c ∷ [])

abbrev pub lapse : ControlRequest → Reason → List Effect
lapse q why = clear_claim recovery ++ rejection q why (some recovery) ∷ []

abbrev pub key_of : Option String → Option String → Option Key
key_of (some c) (some r) = some (record { claim_id = c; run_id = r })
key_of _ _ = none

abbrev pub owns : Option String → Option String → ClaimState → Bool
owns (some c) (some r) s = str_eq s.claim_id c && str_eq s.run_id r
owns _ _ s = false

abbrev pub option_told : Option String → Option Reason
option_told none = none
option_told (some s) = some (told s)

abbrev pub mismatch : ControlRequest → List Effect
mismatch q = rejection q (told "Claim ID or Agent Run does not match the active claim.") none ∷ []

abbrev pub dimension_effects : List (String × String) → List Effect
dimension_effects ds = map (λ d. set_dimension d.0 d.1) ds

-- Another claim is live.
abbrev pub conflicting : ℕ → Key → List Receipt → Bool
conflicting now k rs = any (λ c. not (held_by k c)) (live_receipt_claims now rs)

module _ (now lease_seconds max_attempts : ℕ) where
  -- Where no receipt of the request is found: the effects so far, and the claim.
  unfoldable pub choose_new :
      Key
      → Values
      → List Receipt
      → Checked ControlError (Option ClaimState)
      → List Effect × Checked ControlError (ClaimState × Bool)
  unfolding next_claim max_attempt is_live
  choose_new k v rs (Checked.rejected e) = ([], Checked.rejected e)
  choose_new k v rs (passed current) = (
    (if is_expired now current then clear_claim recovery else []),
    next_claim k (claim_values (is_expired now current) v rs) now lease_seconds max_attempts,
  )

  unfoldable pub choose_matching :
      Key → Values → List Receipt → Checked ControlError (Option Receipt) → Choice
  unfolding choose_new claim_from_fields parse_timestamp
  choose_matching k v rs (Checked.rejected e) = ([], Checked.rejected e)
  choose_matching k v rs (passed (some r)) =
      ([], (receipt_claim k r.attempt r.lease_until >>= λ c. passed (c, some r)))
  choose_matching k v rs (passed none) = found_new (choose_new k v rs (claim_from_fields v))

  unfoldable pub choose_claim : Key → Values → List Receipt → Choice
  unfolding choose_matching matching_claim_receipt live_receipt_claims
  choose_claim k v rs =
      if conflicting now k rs
      then ([], Checked.rejected another_live)
      else choose_matching k v rs (matching_claim_receipt k rs)

  unfoldable pub settle_claim :
      ControlRequest → Checked ControlError (ClaimState × Option Receipt) → List Effect
  unfolding is_live isoformat_utc
  settle_claim q (Checked.rejected e) = refused q e
  settle_claim q (passed (c, o)) =
      if is_live now c
      then grant_claim q c o
      else lapse q (told "Recorded claim lease has expired; use a new Claim ID.")

  -- With no claim ID or run ID, which parse_control_request never returns, the assertion fails.
  abbrev pub claim_keyed : ControlRequest → Option Key → Values → List Receipt → List Effect
  claim_keyed q none v rs =
      if any (λ c. true) (live_receipt_claims now rs) then refused q another_live else []
  claim_keyed q (some k) v rs = (choose_claim k v rs).0 ++ settle_claim q (choose_claim k v rs).1

  unfoldable pub handle_claim :
      ControlRequest → Option (List ReadyError) → Values → List Receipt → List Effect
  unfolding choose_claim settle_claim live_receipt_claims
  handle_claim q none v rs = []
  handle_claim q (some (e ∷ es)) v rs = rejection q (failures (e ∷ es)) none ∷ []
  handle_claim q (some []) v rs = claim_keyed q (key_of q.claim_id q.run_id) v rs

  abbrev pub held_command : Command → ControlRequest → Option Status → ClaimState → List Effect
  held_command heartbeat q s c =
      set_lease_until (some (isoformat_utc (now + lease_seconds)))
      ∷ lease_receipt heartbeat accepted q.claim_id q.run_id c.attempt (now + lease_seconds) s
      ∷ []
  held_command block q s c = clear_claim blocked ++ acceptance q (option_told q.reason) blocked ∷ []
  held_command release q s c =
      clear_claim recovery ++ acceptance q (option_told q.reason) recovery ∷ []
  held_command _ q s c = []

  -- heartbeat, block and release.
  unfoldable pub handle_held :
      ControlRequest → Values → Checked ControlError (Option ClaimState) → List Effect
  unfolding is_live isoformat_utc
  handle_held q v (Checked.rejected e) =
      set_status (some blocked) ∷ rejection q (control e) (some blocked) ∷ []
  handle_held q v (passed none) = mismatch q
  handle_held q v (passed (some c)) =
      if owns q.claim_id q.run_id c
      then (if is_live now c
          then held_command q.command q v.status c
          else lapse q (told "Lease has expired; a new attempt is required."))
      else mismatch q

  abbrev pub dispatch :
      Command → ControlRequest → Option (List ReadyError) → Values → List Receipt → List Effect
  dispatch ready q fails v rs = handle_ready now q fails v (claim_from_fields v)
  dispatch claim q fails v rs = handle_claim q fails v rs
  dispatch _ q fails v rs = handle_held q v (claim_from_fields v)

  module _ (forms : Forms) (server : Server) where
    unfoldable pub handle_request : Issue → ControlRequest → Board → List Effect
    unfolding handle_ready handle_claim handle_held ready_failures claim_from_fields board_receipts
    handle_request i q b =
        dimension_effects (project_dimensions forms i.body (issue_kind forms i.body i.labels))
        ++ dispatch q.command q (ready_failures forms server i) b.values (board_receipts b)
