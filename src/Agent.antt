-- ===== src/Agent.antt =====
-- .github/scripts/agent_control.py: the claims of an issue and the receipts that record them. An instant is
-- a number of microseconds; a receipt is the dict that parse_receipts reads of a comment's body, of which an
-- absent key is `none`, and so is a command or result that no branch tests for.
pub mod Ready
pub mod Controller
pub mod Events
pub mod Live
pub mod Matching
pub mod Fields
pub mod Safe
pub mod Choice
pub mod Plans
pub mod Grants
pub mod Exclusive
pub mod History
pub mod Request
pub mod Formatted
pub mod Pages
pub mod Leaf
pub mod Unready
pub mod Contract
pub mod Accepted
pub mod Refused
pub mod Reconcile
pub mod Attempts
use robodata.Prelude.{
  ℕ, ◌+◌, ◌-◌, ◌%◌, String, Bool, true, false, not, ◌&&◌, ◌||◌, List, [], ◌∷◌, ◌++◌, map, Option,
  none, some, ltb, str_eq, keep, prepend_if, if◌then◌else◌,
}
use robodata.Agent.Ready.{ReadyError}
use robodata.Prelude.Checked.{Checked, passed, ◌>>=◌}

pub data Command : Type 0 where
  ready claim heartbeat block release complete : Command

pub data ReceiptResult : Type 0 where
  pending accepted rejected reconciled : ReceiptResult

pub data Status : Type 0 where
  inbox needs_spec ready_to_claim in_progress in_review recovery blocked done : Status
  other_status : String → Status

-- The text of a timestamp by what parse_timestamp reads of it: an instant, or no timestamp.
pub data Timestamp : Type 0 where
  instant : ℕ → Timestamp
  unreadable : String → Timestamp

pub data ControlError : Type 0 where
  bad_timestamp incomplete_fields another_run another_live finalized already_rejected : ControlError
  not_claimable : Option Status → ControlError
  live_until : Timestamp → ControlError
  attempt_limit : ℕ → ControlError
  -- A KeyError or TypeError, which handle_request does not catch.
  uncaught : ControlError

pub record ControlRequest : Type 0 where
  pub command : Command
  pub claim_id : Option String
  pub run_id : Option String
  pub reason : Option String

pub record ClaimState : Type 0 where
  pub claim_id : String
  pub run_id : String
  pub attempt : ℕ
  pub lease_until : ℕ

-- Why a receipt was written: the source's texts, by what they say.
pub data Reason : Type 0 where
  told : String → Reason
  failures : List ReadyError → Reason
  control : ControlError → Reason

-- The claim ID and the run ID of a claim: the key of live_receipt_claims's dict.
pub record Key : Type 0 where
  pub claim_id : String
  pub run_id : String

pub record Values : Type 0 where
  pub status : Option Status
  pub claim_id : Option String
  pub run_id : Option String
  pub lease_until : Option Timestamp
  pub attempt : Option ℕ
  pub dimensions : List (String × String)

pub record Receipt : Type 0 where
  pub command : Option Command
  pub result : Option ReceiptResult
  pub claim_id : Option String
  pub run_id : Option String
  pub attempt : Option ℕ
  pub lease_until : Option Timestamp
  pub status : Option Status
  pub reason : Option Reason

-- A comment of the issue: its author's login, and the receipts in its body.
pub record Comment : Type 0 where
  pub login : Option String
  pub receipts : List Receipt

unfoldable pub is_live : ℕ → ClaimState → Bool
is_live now c = ltb now c.lease_until

-- `replace(microsecond=0)`
unfoldable pub isoformat_utc : ℕ → Timestamp
isoformat_utc t = instant (t - t % 1000000)

unfoldable pub parse_timestamp : Timestamp → Checked ControlError ℕ
parse_timestamp (instant t) = passed t
parse_timestamp (unreadable s) = Checked.rejected bad_timestamp

abbrev pub has_text : Option String → Bool
has_text none = false
has_text (some s) = not (str_eq s "")

abbrev pub has_stamp : Option Timestamp → Bool
has_stamp none = false
has_stamp (some (instant t)) = true
has_stamp (some (unreadable s)) = not (str_eq s "")

abbrev pub read_claim :
    Option String
    → Option String
    → Option Timestamp
    → Option ℕ
    → Checked ControlError (Option ClaimState)
read_claim (some c) (some r) (some l) (some a) = parse_timestamp l >>= λ t.
    passed (some (record { claim_id = c; run_id = r; attempt = a; lease_until = t }))
read_claim _ _ _ _ = Checked.rejected incomplete_fields

unfoldable pub claim_from_fields : Values → Checked ControlError (Option ClaimState)
unfolding parse_timestamp
claim_from_fields v =
    if has_text v.claim_id || has_text v.run_id || has_stamp v.lease_until
    then (if has_text v.claim_id && has_text v.run_id && has_stamp v.lease_until
        then read_claim v.claim_id v.run_id v.lease_until v.attempt
        else Checked.rejected incomplete_fields)
    else passed none

abbrev pub is_claimable : Option Status → Bool
is_claimable (some ready_to_claim) = true
is_claimable (some recovery) = true
is_claimable _ = false

-- int(values.get("Attempt") or 0)
abbrev pub attempt_of : Option ℕ → ℕ
attempt_of none = 0
attempt_of (some n) = n

-- The new claim of a request, one attempt after the recorded one.
unfoldable pub new_claim : Key → ℕ → ℕ → ℕ → ℕ → Checked ControlError (ClaimState × Bool)
new_claim k now lease_seconds max_attempts attempt =
    if ltb max_attempts attempt
    then Checked.rejected (attempt_limit max_attempts)
    else passed (
      record {
        claim_id = k.claim_id;
        run_id = k.run_id;
        attempt = attempt;
        lease_until = now + lease_seconds;
      },
      false,
    )

abbrev pub blocked_until : ℕ → Option ClaimState → Option ControlError
blocked_until now none = none
blocked_until now (some c) =
    if is_live now c then some (live_until (isoformat_utc c.lease_until)) else none

abbrev pub take_over :
    Option ControlError
    → Checked ControlError (ClaimState × Bool)
    → Checked ControlError (ClaimState × Bool)
take_over none r = r
take_over (some e) r = Checked.rejected e

-- The claim is a new one.
unfoldable pub claim_anew :
    Key → Values → ℕ → ℕ → ℕ → Option ClaimState → Checked ControlError (ClaimState × Bool)
unfolding new_claim is_live
claim_anew k v now lease_seconds max_attempts current =
    if is_claimable v.status
    then take_over (blocked_until now current)
        (new_claim k now lease_seconds max_attempts (attempt_of v.attempt + 1))
    else Checked.rejected (not_claimable v.status)

-- Whether the current claim has the request's claim ID.
abbrev pub has_claim_id : Key → Option ClaimState → Bool
has_claim_id k none = false
has_claim_id k (some c) = str_eq c.claim_id k.claim_id

abbrev pub replayed : Key → Option ClaimState → Checked ControlError (ClaimState × Bool)
replayed k none = Checked.rejected another_run
replayed k (some c) =
    if str_eq c.run_id k.run_id then passed (c, true) else Checked.rejected another_run

-- `lease_seconds` is the timedelta, and `true` tells a replay.
unfoldable pub next_claim : Key → Values → ℕ → ℕ → ℕ → Checked ControlError (ClaimState × Bool)
unfolding claim_from_fields claim_anew
next_claim k v now lease_seconds max_attempts = claim_from_fields v >>= λ current.
    if has_claim_id k current
    then replayed k current
    else claim_anew k v now lease_seconds max_attempts current

-- What a receipt is to the two folds below: their tests of its command and result.
pub data Mark : Type 0 where
  grants extends ends denies passes_by : Mark

unfoldable pub mark_of : Option Command → Option ReceiptResult → Mark
mark_of (some claim) (some pending) = grants
mark_of (some claim) (some accepted) = grants
mark_of (some claim) (some rejected) = denies
mark_of (some heartbeat) (some accepted) = extends
mark_of (some block) (some accepted) = ends
mark_of (some block) (some reconciled) = ends
mark_of (some release) (some accepted) = ends
mark_of (some release) (some reconciled) = ends
mark_of (some complete) (some accepted) = ends
mark_of (some complete) (some reconciled) = ends
mark_of _ _ = passes_by

abbrev pub receipt_mark : Receipt → Mark
receipt_mark r = mark_of r.command r.result

abbrev pub is_bot : Option String → Bool
is_bot none = false
is_bot (some login) = str_eq login "github-actions[bot]"

unfoldable pub trusted_receipt_bodies : List Comment → List (List Receipt)
trusted_receipt_bodies [] = []
trusted_receipt_bodies (c ∷ cs) = prepend_if (is_bot c.login) c.receipts (trusted_receipt_bodies cs)

unfoldable pub parse_receipts : List (List Receipt) → List Receipt
parse_receipts [] = []
parse_receipts (b ∷ bs) = b ++ parse_receipts bs

abbrev pub opt_eq : Option String → String → Bool
opt_eq none t = false
opt_eq (some s) t = str_eq s t

abbrev pub of_request : Key → Receipt → Bool
of_request k r = opt_eq r.claim_id k.claim_id && opt_eq r.run_id k.run_id

-- str(receipt.get("lease_until"))
abbrev pub lease_text : Option Timestamp → Timestamp
lease_text none = unreadable "None"
lease_text (some t) = t

abbrev pub extended_by : Receipt → Receipt → Receipt
extended_by r e = record e { lease_until = some (lease_text r.lease_until); result = some accepted }

abbrev pub match_marked : Mark → Receipt → Option Receipt → Checked ControlError (Option Receipt)
match_marked grants r o = passed (some r)
match_marked extends r none = passed none
match_marked extends r (some e) = passed (some (extended_by r e))
match_marked ends r o = Checked.rejected finalized
match_marked denies r o = Checked.rejected already_rejected
match_marked passes_by r o = passed o

unfoldable pub match_receipts :
    List Receipt → Option Receipt → Checked ControlError (Option Receipt)
unfolding mark_of
match_receipts [] o = passed o
match_receipts (r ∷ rs) o = match_marked (receipt_mark r) r o >>= λ p. match_receipts rs p

unfoldable pub matching_claim_receipt : Key → List Receipt → Checked ControlError (Option Receipt)
unfolding match_receipts
matching_claim_receipt k rs = match_receipts (keep (of_request k) rs) none

-- The entries of live_receipt_claims's dict, in the order of their insertion.
abbrev pub held_by : Key → ClaimState → Bool
held_by k c = str_eq c.claim_id k.claim_id && str_eq c.run_id k.run_id

unfoldable pub put_claim : Key → ClaimState → List ClaimState → List ClaimState
put_claim k c [] = c ∷ []
put_claim k c (d ∷ ds) = if held_by k d then c ∷ ds else d ∷ put_claim k c ds

abbrev pub granted : Key → Option ℕ → Option Timestamp → List ClaimState → List ClaimState
granted k (some a) (some (instant t)) cs =
    put_claim k (record { claim_id = k.claim_id; run_id = k.run_id; attempt = a; lease_until = t })
      cs
granted k _ _ cs = cs

abbrev pub extend_claim : Key → ℕ → ClaimState → ClaimState
extend_claim k t c = if held_by k c then record c { lease_until = t } else c

abbrev pub extended : Key → Option Timestamp → List ClaimState → List ClaimState
extended k (some (instant t)) cs = map (extend_claim k t) cs
extended k _ cs = cs

abbrev pub reduce_marked : Mark → Key → Receipt → List ClaimState → List ClaimState
reduce_marked grants k r cs = granted k r.attempt r.lease_until cs
reduce_marked extends k r cs = extended k r.lease_until cs
reduce_marked ends k r cs = keep (λ c. not (held_by k c)) cs
reduce_marked denies k r cs = cs
reduce_marked passes_by k r cs = cs

abbrev pub reduce_keyed :
    Option String → Option String → Receipt → List ClaimState → List ClaimState
reduce_keyed (some c) (some q) r cs =
    reduce_marked (receipt_mark r) (record { claim_id = c; run_id = q }) r cs
reduce_keyed _ _ r cs = cs

unfoldable pub reduce_receipts : List Receipt → List ClaimState → List ClaimState
unfolding put_claim mark_of
reduce_receipts [] cs = cs
reduce_receipts (r ∷ rs) cs = reduce_receipts rs (reduce_keyed r.claim_id r.run_id r cs)

unfoldable pub live_receipt_claims : ℕ → List Receipt → List ClaimState
unfolding reduce_receipts is_live
live_receipt_claims now rs = keep (is_live now) (reduce_receipts rs [])
