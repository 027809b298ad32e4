-- ===== src/Jobs.antt =====
-- The jobs table (docker/db/init.sql, backend/core/db.py) and its rows: what backend/jobs/lifecycle.py,
-- backend/jobs/repo.py and backend/jobs/router.py read and write.
pub mod Lifecycle
pub mod Repo
pub mod Moves
pub mod History
pub mod Index
pub mod Enqueue
pub mod Later
pub mod Claim
pub mod Cancel
pub mod Requested
pub mod Operation
pub mod Canonical
pub mod Router
pub mod Post
pub mod Listing
pub mod Intake
pub mod Lengths
pub mod Located
pub mod Taken
pub mod Agree
use robodata.Prelude.{
  ℕ, zero, suc, String, Bool, true, false, ◌&&◌, ◌||◌, List, Option, none, some, ◌==◌, str_eq, any,
}
use robodata.Json.{Json}

pub data JobType : Type 0 where
  convert split merge delete sync_good_episodes stamp_cycles : JobType
  auto_bad_camera_flicker bronze_silver_batch : JobType

pub data Status : Type 0 where
  queued running complete failed cancel_requested cancelled : Status

pub record Job : Type 0 where
  pub id : ℕ
  pub external_id : String
  pub type_ : JobType
  pub status : Status
  pub payload : Json
  pub progress : Json
  pub result : Option Json
  pub error : Option String
  pub attempts : ℕ
  pub worker_id : Option String
  pub dedupe_key : Option String
  pub created_at : ℕ
  pub updated_at : ℕ
  pub started_at : Option ℕ
  pub heartbeat_at : Option ℕ
  pub cancel_requested_at : Option ℕ
  pub finished_at : Option ℕ

abbrev type_code : JobType → ℕ
type_code JobType.convert = 0
type_code JobType.split = 1
type_code JobType.merge = 2
type_code JobType.delete = 3
type_code JobType.sync_good_episodes = 4
type_code JobType.stamp_cycles = 5
type_code JobType.auto_bad_camera_flicker = 6
type_code JobType.bronze_silver_batch = 7

-- type = $1
unfoldable pub same_type : JobType → JobType → Bool
same_type a b = type_code a == type_code b

-- type::text = ANY($1::text[])
unfoldable pub any_type : List JobType → JobType → Bool
any_type types t = any (same_type t) types

-- status = 'queued'
abbrev pub is_queued : Status → Bool
is_queued Status.queued = true
is_queued _ = false

-- status = 'running'
abbrev pub is_running : Status → Bool
is_running Status.running = true
is_running _ = false

-- status IN ('running', 'cancel_requested')
abbrev pub in_flight : Status → Bool
in_flight Status.running = true
in_flight Status.cancel_requested = true
in_flight _ = false

-- status IN ('queued', 'running', 'cancel_requested')
abbrev pub is_active : Status → Bool
is_active Status.queued = true
is_active Status.running = true
is_active Status.cancel_requested = true
is_active _ = false

-- _TERMINAL
abbrev pub is_terminal : Status → Bool
is_terminal Status.complete = true
is_terminal Status.failed = true
is_terminal Status.cancelled = true
is_terminal _ = false

abbrev status_code : Status → ℕ
status_code Status.queued = 0
status_code Status.running = 1
status_code Status.complete = 2
status_code Status.failed = 3
status_code Status.cancel_requested = 4
status_code Status.cancelled = 5

-- status = $1
unfoldable pub same_status : Status → Status → Bool
same_status a b = status_code a == status_code b

-- a = b of two columns that may be NULL: not true if one is.
abbrev pub same_text : Option String → Option String → Bool
same_text none b = false
same_text (some x) none = false
same_text (some x) (some y) = str_eq x y

-- WHERE id = $1
abbrev pub has_id : ℕ → Job → Bool
has_id i j = j.id == i
