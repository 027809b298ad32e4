-- ===== src/Workers/Runtime.antt =====
-- backend/workers/runtime.py: one iteration of a worker's loop, and its start.
use robodata.Prelude.{
  ℕ, String, Bool, true, false, not, ◌&&◌, List, [], ◌∷◌, map, Option, none, some, any, find_first,
  if◌then◌else◌,
}
use robodata.Json.{Json, obj, end, field, text}
use robodata.Jobs.{JobType, Job, same_type}
use robodata.Jobs.Lifecycle.{
  Claimed, claim_next, requeue_abandoned, complete, fail, cancel_normally,
}
use robodata.Workers.{WorkerState, WorkerTables, Control, controls_worker, upsert_heartbeat}

pub record Database : Type 0 where
  pub jobs : List Job
  pub workers : WorkerTables

-- How a handler ends: by an exception with its text, by CancelledNormally, by a mapping, or by None.
pub data Outcome : Type 0 where
  raised : String → Outcome
  cancelled_normally : String → Outcome
  returned : Json → Outcome
  returned_none : Outcome

-- A handler works on the database too, by `check_cancel`, by its progress, and through other sessions.
pub record Handler : Type 0 where
  pub job_type : JobType
  pub handle : Claimed → Database → Outcome × Database

abbrev pub handler_types : List Handler → List JobType
handler_types hs = map (λ h. h.job_type) hs

-- handlers[job["type"]]
abbrev pub handler_for : JobType → List Handler → Option Handler
handler_for t hs = find_first (λ h. same_type t h.job_type) hs

-- _CONVERSION_JOB_TYPES
abbrev pub is_conversion : JobType → Bool
is_conversion JobType.convert = true
is_conversion JobType.bronze_silver_batch = true
is_conversion _ = false

abbrev pub conversion_handlers_disabled : Bool → List Handler → Bool
conversion_handlers_disabled enabled hs = not enabled && any is_conversion (handler_types hs)

abbrev pub beat_workers : ℕ → String → WorkerState → Option ℕ → Option Json → Database → Database
beat_workers now w state in_flight detail db = record db {
  workers = upsert_heartbeat now w state in_flight detail db.workers;
}

-- The job's end, as the handler's outcome tells it.
unfoldable pub report : ℕ → ℕ → Outcome → List Job → List Job
report now i (raised e) jobs = fail now i e jobs
report now i (cancelled_normally c) jobs = cancel_normally now i c jobs
report now i (returned r) jobs = complete now i (some r) jobs
report now i returned_none jobs = complete now i none jobs

abbrev pub disabled_detail : Json
disabled_detail =
    obj (field "reason" (text "conversion mutations disabled by operator configuration") end)

-- desired is not None and desired["desired_state"] == "running"
abbrev pub wants_running : Option Control → Bool
wants_running none = false
wants_running (some c) = elim c.desired_state [ WorkerState.running ↦ true | _ ↦ false ]

-- try … else … finally; a job whose type has no handler is a KeyError before the `try`.
abbrev pub finish_job : ℕ → String → ℕ → Outcome × Database → Database
finish_job now w i (outcome, db) =
    beat_workers now w WorkerState.running none none
      (record db { jobs = report now i outcome db.jobs })

abbrev pub dispatch : ℕ → String → Claimed → Option Handler → Database → Database
dispatch now w c none db = db
dispatch now w c (some h) db = finish_job now w c.id (h.handle c db)

abbrev pub work : ℕ → String → List Handler → WorkerTables → Option Claimed × List Job → Database
work now w hs ws (none, jobs) = record { jobs = jobs; workers = ws }
work now w hs ws (some c, jobs) =
    dispatch now w c (handler_for c.type_ hs) (
      beat_workers now w WorkerState.running (some c.id) none
        (record { jobs = jobs; workers = ws }))

abbrev pub tick_enabled : (Job → Bool) → ℕ → String → List Handler → Database → Database
tick_enabled locked now w hs db =
    let awake = beat_workers now w WorkerState.running none none db in
    if wants_running (find_first (controls_worker w) awake.workers.controls)
    then work now w hs awake.workers (claim_next locked now w (handler_types hs) awake.jobs)
    else awake

-- `locked` are the rows that other transactions hold while this one claims.
unfoldable pub tick : (Job → Bool) → ℕ → Bool → String → List Handler → Database → Database
tick locked now enabled w [] db = db
tick locked now enabled w (h ∷ hs) db =
    if conversion_handlers_disabled enabled (h ∷ hs)
    then beat_workers now w WorkerState.paused none (some disabled_detail) db
    else tick_enabled locked now w (h ∷ hs) db

-- What `run_forever` does before its loop.
unfoldable pub startup : ℕ → Bool → String → List Handler → Database → Database
startup now enabled w hs db =
    if conversion_handlers_disabled enabled hs
    then db
    else record db { jobs = (requeue_abandoned now w (handler_types hs) db.jobs).1 }
