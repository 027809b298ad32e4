-- ===== src/Jobs/Lifecycle.antt =====
-- backend/jobs/lifecycle.py: each function as the SQL statements that it sends to the jobs table, which
-- is the list of its rows. `now` is NOW(); a function that returns a value returns it with the table.
use robodata.Prelude.{
  ℕ, ◌+◌, String, Bool, true, false, not, ◌&&◌, List, Option, none, some, if◌then◌else◌, length,
  keep, any, find_first,
}
use robodata.Json.{Json}
use robodata.Table.{update_where, first_by}
use robodata.Jobs.{
  JobType, Status, Job, any_type, is_queued, is_running, in_flight, is_terminal, same_text, has_id,
}

-- The columns that the claim returns to the worker, as they were before the UPDATE.
pub record Claimed : Type 0 where
  pub id : ℕ
  pub type_ : JobType
  pub payload : Json

abbrev pub claimed_row : Job → Claimed
claimed_row j = record { id = j.id; type_ = j.type_; payload = j.payload }

-- WHERE status='queued' AND type = ANY(types), without the rows that other transactions have locked.
abbrev pub claimable : (Job → Bool) → List JobType → Job → Bool
claimable locked types j = is_queued j.status && (any_type types j.type_ && not (locked j))

abbrev pub start : ℕ → String → Job → Job
start now worker j = record j {
  status = Status.running;
  worker_id = some worker;
  started_at = some now;
  heartbeat_at = some now;
  updated_at = now;
}

abbrev pub take_row : ℕ → String → List Job → Option Job → Option Claimed × List Job
take_row now worker jobs none = (none, jobs)
take_row now worker jobs (some row) =
    (some (claimed_row row), update_where (has_id row.id) (start now worker) jobs)

unfoldable pub claim_next :
    (Job → Bool) → ℕ → String → List JobType → List Job → Option Claimed × List Job
claim_next locked now worker types jobs =
    take_row now worker jobs (first_by (λ j. j.created_at) (keep (claimable locked types) jobs))

abbrev pub abandoned : String → List JobType → Job → Bool
abandoned worker types j =
    is_running j.status && (same_text j.worker_id (some worker) && any_type types j.type_)

abbrev pub requeue : ℕ → Job → Job
requeue now j = record j {
  status = Status.queued;
  worker_id = none;
  started_at = none;
  heartbeat_at = none;
  updated_at = now;
  attempts = j.attempts + 1;
  error = none;
}

unfoldable pub requeue_abandoned : ℕ → String → List JobType → List Job → ℕ × List Job
requeue_abandoned now worker types jobs = (
  length (keep (abandoned worker types) jobs),
  update_where (abandoned worker types) (requeue now) jobs,
)

abbrev pub beat : ℕ → Job → Job
beat now j = record j { heartbeat_at = some now; updated_at = now }

unfoldable pub heartbeat : ℕ → ℕ → List Job → List Job
heartbeat now i = update_where (has_id i) (beat now)

-- WHERE id = $1 AND status IN ('running', 'cancel_requested')
abbrev pub held : ℕ → Job → Bool
held i j = has_id i j && in_flight j.status

abbrev pub set_progress : ℕ → Json → Job → Job
set_progress now p j = record j { progress = p; heartbeat_at = some now; updated_at = now }

unfoldable pub update_progress : ℕ → ℕ → Json → List Job → List Job
update_progress now i p = update_where (held i) (set_progress now p)

abbrev pub status_column : Option Job → Option Status
status_column none = none
status_column (some j) = some j.status

-- SELECT status FROM jobs WHERE id=$1
unfoldable pub status_of : ℕ → List Job → Option Status
status_of i jobs = status_column (find_first (has_id i) jobs)

abbrev pub is_cancel_requested : Option Status → Bool
is_cancel_requested (some Status.cancel_requested) = true
is_cancel_requested _ = false

unfoldable pub cancel_requested : ℕ → List Job → Bool
unfolding status_of
cancel_requested i jobs = is_cancel_requested (status_of i jobs)

-- `between` is what other sessions do between the two statements.
unfoldable pub heartbeat_and_observe_cancel :
    (List Job → List Job) → ℕ → ℕ → List Job → Bool × List Job
unfolding heartbeat cancel_requested
heartbeat_and_observe_cancel between now i jobs =
    let seen = between (heartbeat now i jobs) in (cancel_requested i seen, seen)

-- The reply of `request_cancel`: the row's id and status, LookupError, or AlreadyTerminal.
pub data CancelReply : Type 0 where
  cancel_row : ℕ → Status → CancelReply
  lookup_error : ℕ → CancelReply
  already_terminal : Status → CancelReply

abbrev pub waiting : ℕ → Job → Bool
waiting i j = has_id i j && is_queued j.status

abbrev pub executing : ℕ → Job → Bool
executing i j = has_id i j && is_running j.status

abbrev pub cancel_queued : ℕ → Job → Job
cancel_queued now j = record j {
  status = Status.cancelled;
  cancel_requested_at = some now;
  finished_at = some now;
  updated_at = now;
}

abbrev pub cancel_running : ℕ → Job → Job
cancel_running now j = record j {
  status = Status.cancel_requested;
  cancel_requested_at = some now;
  updated_at = now;
}

-- The first UPDATE of `request_cancel`, and the second.
unfoldable pub cancel_if_queued : ℕ → ℕ → List Job → List Job
cancel_if_queued now i = update_where (waiting i) (cancel_queued now)

unfoldable pub cancel_if_running : ℕ → ℕ → List Job → List Job
cancel_if_running now i = update_where (executing i) (cancel_running now)

abbrev pub other_reply : ℕ → Option Status → CancelReply
other_reply i none = lookup_error i
other_reply i (some s) = if is_terminal s then already_terminal s else cancel_row i s

abbrev pub ask_running : (List Job → List Job) → ℕ → ℕ → List Job → CancelReply × List Job
ask_running after now i jobs =
    if any (executing i) jobs
    then (cancel_row i Status.cancel_requested, cancel_if_running now i jobs)
    else let seen = after jobs in (other_reply i (status_of i seen), seen)

-- `between` and `after` are what other sessions do before the second and the third statement.
unfoldable pub request_cancel :
    (List Job → List Job) → (List Job → List Job) → ℕ → ℕ → List Job → CancelReply × List Job
unfolding status_of cancel_if_queued cancel_if_running
request_cancel between after now i jobs =
    if any (waiting i) jobs
    then (cancel_row i Status.cancelled, cancel_if_queued now i jobs)
    else ask_running after now i (between jobs)

-- CASE WHEN status='cancel_requested' THEN 'cancelled' ELSE s END
abbrev pub end_status : Status → Status → Status
end_status s Status.cancel_requested = Status.cancelled
end_status s _ = s

-- CASE WHEN status='running' THEN new ELSE old END
abbrev pub if_running {ℓ} : {A : Type ℓ} → Status → A → A → A
if_running s new old = if is_running s then new else old

abbrev pub finish : ℕ → Job → Job
finish now j = record j {
  status = end_status Status.complete j.status;
  finished_at = some now;
  updated_at = now;
}

abbrev pub finish_with : ℕ → Json → Job → Job
finish_with now r j = record j {
  status = end_status Status.complete j.status;
  finished_at = some now;
  updated_at = now;
  result = if_running j.status (some r) j.result;
}

unfoldable pub complete : ℕ → ℕ → Option Json → List Job → List Job
complete now i none = update_where (held i) (finish now)
complete now i (some r) = update_where (held i) (finish_with now r)

abbrev pub finish_failed : ℕ → String → Job → Job
finish_failed now e j = record j {
  status = end_status Status.failed j.status;
  finished_at = some now;
  updated_at = now;
  error = if_running j.status (some e) j.error;
}

unfoldable pub fail : ℕ → ℕ → String → List Job → List Job
fail now i e = update_where (held i) (finish_failed now e)

abbrev pub finish_cancelled : ℕ → String → Job → Job
finish_cancelled now cleanup j = record j {
  status = Status.cancelled;
  finished_at = some now;
  updated_at = now;
  error = some cleanup;
}

unfoldable pub cancel_normally : ℕ → ℕ → String → List Job → List Job
cancel_normally now i cleanup = update_where (held i) (finish_cancelled now cleanup)
