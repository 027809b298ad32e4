-- ===== src/Tests/Workers.antt =====
-- The worker control plane and loop (backend/workers) on one converter, and the queue of Tests.Jobs.
use robodata.Prelude.{◌≡◌, refl, [], ◌∷◌, none, some, In, here, false, true, inr}
use robodata.Json.{obj, end}
use robodata.Jobs.{JobType, Status, Job, same_type, any_type}
use robodata.Table.{first_by}
use robodata.Jobs.Lifecycle.{Claimed, claim_next}
use robodata.Workers.{
  running, paused, stopped, WorkerTables, Control, Heartbeat, get_worker, is_stale,
}
use robodata.Workers.Service.{patch_desired_state, allowed, refused, illegal_transition}
use robodata.Workers.Patch.{alone}
use robodata.Workers.Runtime.{Database, Handler, returned_none, tick, handler_for}
use robodata.Workers.Tick.{tick_rests, tick-Ended, claimed-handler, Ended}

abbrev curation_control : Control
curation_control = record {
  worker_id = "curation-worker";
  desired_state = running;
  updated_by = none;
  updated_at = 0;
  note = none;
}

abbrev curation_beat : Heartbeat
curation_beat = record {
  worker_id = "curation-worker";
  actual_state = running;
  pid = none;
  container_id = none;
  last_beat_at = 90;
  in_flight_job_id = none;
  detail = obj end;
}

abbrev tables : WorkerTables
tables = record { controls = curation_control ∷ []; heartbeats = curation_beat ∷ [] }

abbrev split_job : Job
split_job = record {
  id = 1;
  external_id = "u1";
  type_ = JobType.split;
  status = Status.queued;
  payload = obj end;
  progress = obj end;
  result = none;
  error = none;
  attempts = 0;
  worker_id = none;
  dedupe_key = some "split:/a:b";
  created_at = 10;
  updated_at = 10;
  started_at = none;
  heartbeat_at = none;
  cancel_requested_at = none;
  finished_at = none;
}

abbrev split_handler : Handler
split_handler = record { job_type = JobType.split; handle = λ c db. (returned_none, db) }

abbrev database : Database
database = record { jobs = split_job ∷ []; workers = tables }

abbrev paused_database : Database
paused_database = record {
  jobs = split_job ∷ [];
  workers = record {
    controls = record curation_control { desired_state = paused } ∷ [];
    heartbeats = curation_beat ∷ [];
  };
}

stop_without_note :
    (patch_desired_state alone 100 "curation-worker" stopped none none tables).0
    ≡ refused (illegal_transition running stopped)
unfolding patch_desired_state get_worker is_stale allowed
stop_without_note = refl

tick_rests_example :
    (tick (λ j. false) 100 true "curation-worker" (split_handler ∷ []) paused_database).jobs
    ≡ split_job ∷ []
tick_rests_example =
    tick_rests (λ j. false) 100 true "curation-worker" (split_handler ∷ []) paused_database
      (inr refl)

abbrev claimed_split : Claimed
claimed_split = record { id = 1; type_ = JobType.split; payload = obj end }

abbrev started_split : Job
started_split = record split_job {
  status = Status.running;
  worker_id = some "curation-worker";
  started_at = some 100;
  heartbeat_at = some 100;
  updated_at = 100;
}

claimed-handler_example : (h : Handler) × (handler_for JobType.split (split_handler ∷ []) ≡ some h)
unfolding claim_next any_type same_type first_by
claimed-handler_example =
    claimed-handler (λ j. false) 100 "curation-worker" (split_handler ∷ []) (split_job ∷ [])
      (started_split ∷ []) claimed_split (refl, tt) refl

tick-Ended_example :
    (k : Job) × In k
      (tick (λ j. false) 100 true "curation-worker" (split_handler ∷ []) database).jobs
    × Ended 1 returned_none Status.running k
unfolding claim_next any_type same_type first_by
tick-Ended_example =
    tick-Ended (λ j. false) 100 true "curation-worker" (split_handler ∷ []) database claimed_split
      (started_split ∷ []) split_handler started_split refl refl refl refl here refl refl
