-- ===== src/Workers.antt =====
-- The worker tables (worker_controls, worker_heartbeats in backend/core/db.py) and the statements of
-- backend/workers/repo.py.
pub mod Service
pub mod Runtime
pub mod Legal
pub mod Patch
pub mod Tick
use robodata.Prelude.{
  ℕ, ◌+◌, String, Bool, true, false, List, [], ◌∷◌, ◌++◌, Option, none, some, ltb, str_eq, any,
  find_first, if◌then◌else◌,
}
use robodata.Json.{Json, obj, end}
use robodata.Table.{update_where}

pub data WorkerState : Type 0 where
  running paused draining stopped : WorkerState

pub record Control : Type 0 where
  pub worker_id : String
  pub desired_state : WorkerState
  pub updated_by : Option String
  pub updated_at : ℕ
  pub note : Option String

pub record Heartbeat : Type 0 where
  pub worker_id : String
  pub actual_state : WorkerState
  pub pid : Option ℕ
  pub container_id : Option String
  pub last_beat_at : ℕ
  pub in_flight_job_id : Option ℕ
  pub detail : Json

pub record WorkerTables : Type 0 where
  pub controls : List Control
  pub heartbeats : List Heartbeat

-- A row of worker_controls with the heartbeat that the LEFT JOIN finds.
pub record Worker : Type 0 where
  pub control : Control
  pub beat : Option Heartbeat

abbrev pub controls_worker : String → Control → Bool
controls_worker w c = str_eq c.worker_id w

abbrev pub beats_worker : String → Heartbeat → Bool
beats_worker w h = str_eq h.worker_id w

abbrev pub joined : Option Heartbeat → Option Control → Option Worker
joined beat none = none
joined beat (some c) = some (record { control = c; beat = beat })

unfoldable pub get_worker : String → WorkerTables → Option Worker
get_worker w t =
    joined (find_first (beats_worker w) t.heartbeats) (find_first (controls_worker w) t.controls)

abbrev pub set_desired : ℕ → WorkerState → Option String → Option String → Control → Control
set_desired now to updated_by note c = record c {
  desired_state = to;
  updated_by = updated_by;
  note = note;
  updated_at = now;
}

unfoldable pub set_desired_state :
    ℕ → String → WorkerState → Option String → Option String → WorkerTables → WorkerTables
set_desired_state now w to updated_by note t = record t {
  controls = update_where (controls_worker w) (set_desired now to updated_by note) t.controls;
}

-- json.dumps(dict(detail or {}))
abbrev pub detail_or_empty : Option Json → Json
detail_or_empty none = obj end
detail_or_empty (some d) = d

-- INSERT … ON CONFLICT(worker_id) DO UPDATE
unfoldable pub upsert_heartbeat :
    ℕ → String → WorkerState → Option ℕ → Option Json → WorkerTables → WorkerTables
upsert_heartbeat now w state in_flight detail t =
    let beat : Heartbeat = record {
      worker_id = w;
      actual_state = state;
      pid = none;
      container_id = none;
      last_beat_at = now;
      in_flight_job_id = in_flight;
      detail = detail_or_empty detail;
    } in
    record t {
      heartbeats =
          if any (beats_worker w) t.heartbeats
          then update_where (beats_worker w) (λ h. beat) t.heartbeats
          else t.heartbeats ++ beat ∷ [];
    }

-- last_beat_at < NOW() - ttl, and `True` where there is no heartbeat.
abbrev pub older : ℕ → ℕ → Option Heartbeat → Bool
older now ttl none = true
older now ttl (some h) = ltb (h.last_beat_at + ttl) now

unfoldable pub is_stale : ℕ → ℕ → String → WorkerTables → Bool
is_stale now ttl w t = older now ttl (find_first (beats_worker w) t.heartbeats)
