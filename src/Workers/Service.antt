-- ===== src/Workers/Service.antt =====
-- backend/workers/service.py: which changes of a worker's desired state are let through.
use robodata.Prelude.{
  ℕ, String, Bool, true, false, not, Option, none, some, ◌==◌, str_eq, if◌then◌else◌,
}
use robodata.Workers.{
  WorkerState, running, paused, draining, stopped, WorkerTables, Worker, Heartbeat, get_worker,
  set_desired_state, is_stale,
}

abbrev pub stale_ttl_seconds : ℕ
stale_ttl_seconds = 30

pub data PatchError : Type 0 where
  worker_not_found worker_stale : PatchError
  illegal_transition : WorkerState → WorkerState → PatchError

pub data PatchReply : Type 0 where
  patched : Option Worker → PatchReply
  refused : PatchError → PatchReply

-- bool(note)
abbrev pub has_note : Option String → Bool
has_note none = false
has_note (some s) = not (str_eq s "")

-- return to != "stopped" or has_note
abbrev pub stop_needs_note : WorkerState → Bool → Bool
stop_needs_note stopped noted = noted
stop_needs_note to noted = true

abbrev pub same_state : WorkerState → WorkerState → Bool
same_state running running = true
same_state paused paused = true
same_state draining draining = true
same_state stopped stopped = true
same_state _ _ = false

abbrev pub moves_on : WorkerState → WorkerState → Bool → Bool
moves_on running to noted = stop_needs_note to noted
moves_on paused to noted = stop_needs_note to noted
moves_on draining running noted = true
moves_on draining stopped noted = noted
moves_on draining to noted = false
moves_on stopped running noted = noted
moves_on stopped to noted = false

-- The two states are members of the enum, so that the test for _VALID_STATES always passes.
unfoldable pub allowed : WorkerState → WorkerState → Bool → Bool
allowed frm to noted = if same_state frm to then true else moves_on frm to noted

-- A number is true in Python if it is not 0; the heartbeat's column may be NULL, or there is none.
abbrev pub job_in_flight : Option Heartbeat → Bool
job_in_flight none = false
job_in_flight (some h) = elim h.in_flight_job_id [ none ↦ false | some i ↦ not (i == 0) ]

-- draining → running only when no in-flight job
abbrev pub drains_on : WorkerState → WorkerState → Worker → Bool
drains_on draining running w = job_in_flight w.beat
drains_on _ _ w = false

abbrev pub admit :
    (WorkerTables → WorkerTables)
    → ℕ
    → String
    → WorkerState
    → Option String
    → Option String
    → WorkerTables
    → Option Worker
    → PatchReply × WorkerTables
admit _ now w _ _ _ t none = (refused worker_not_found, t)
admit between now w to note updated_by t (some current) =
    if is_stale now stale_ttl_seconds w t
    then (refused worker_stale, t)
    else if not (allowed current.control.desired_state to (has_note note))
    then (refused (illegal_transition current.control.desired_state to), t)
    else if drains_on current.control.desired_state to current
    then (refused (illegal_transition current.control.desired_state to), t)
    else let after = set_desired_state now w to updated_by note (between t) in
      (patched (get_worker w after), after)

-- `between` is what other sessions do between the checks and the UPDATE.
unfoldable pub patch_desired_state :
    (WorkerTables → WorkerTables)
    → ℕ
    → String
    → WorkerState
    → Option String
    → Option String
    → WorkerTables
    → PatchReply × WorkerTables
patch_desired_state between now w to note updated_by t =
    admit between now w to note updated_by t (get_worker w t)
