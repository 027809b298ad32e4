-- ===== src/Pipeline.antt =====
-- backend/datasets/services/bronze_silver_pipeline.py: the tables that a batch reads and writes
-- (backend/core/db.py), and its statements. A path is the list of its parts, of which `str` and `Path` are
-- inverse.
pub mod Batch
pub mod Settled
pub mod Kept
pub mod Files
use robodata.Prelude.{
  ℕ, ◌+◌, String, Bool, true, false, ◌&&◌, ◌||◌, List, [], ◌∷◌, ◌++◌, map, Option, none, some, ltb,
  ◌==◌, str_eq, any, keep, take, length, find_first, if◌then◌else◌,
}
use robodata.Table.{update_where}
use robodata.Paths.{ResolvedPath, same_path}

pub data CurationState : Type 0 where
  bronze_detected silver_processing silver_ready human_curating gold_ready silver_failed :
      CurationState

pub record CurationRow : Type 0 where
  pub serial_number : String
  pub cell : String
  pub task : String
  pub bronze_path : ResolvedPath
  pub silver_path : ResolvedPath
  pub state : CurationState
  pub failure_reason : Option String
  pub processing_started_at : Option ℕ
  pub retry_required : Bool
  pub updated_at : ℕ

pub record Dataset : Type 0 where
  pub id : ℕ
  pub path : ResolvedPath
  pub name : String
  pub cell_name : String
  pub synced_at : Option ℕ

pub record EpisodeSerial : Type 0 where
  pub dataset_id : ℕ
  pub episode_index : ℕ
  pub serial : String

pub record CurationTables : Type 0 where
  pub states : List CurationRow
  pub datasets : List Dataset
  pub next_dataset : ℕ
  pub serials : List EpisodeSerial

pub record BronzeEpisode : Type 0 where
  pub serial_number : String
  pub cell : String
  pub task : String
  pub bronze_path : ResolvedPath
  pub silver_path : ResolvedPath

-- A recording directory bronze/<cell>/<task>/<serial>.
pub record Recording : Type 0 where
  pub cell : String
  pub task : String
  pub serial : String

abbrev pub episode_of : ResolvedPath → Recording → BronzeEpisode
episode_of root r = record {
  serial_number = r.serial;
  cell = r.cell;
  task = r.task;
  bronze_path = root ++ "bronze" ∷ r.cell ∷ r.task ∷ r.serial ∷ [];
  silver_path = root ++ "silver_label_data" ∷ r.cell ∷ r.task ∷ "LeRobot" ∷ r.serial ∷ [];
}

-- `recordings` is what the sorted glob finds below the bronze root, if that exists.
unfoldable pub discover_bronze_episodes :
    ResolvedPath → Option (List Recording) → List BronzeEpisode
discover_bronze_episodes root none = []
discover_bronze_episodes root (some recordings) = map (episode_of root) recordings

abbrev pub is_detected : CurationState → Bool
is_detected bronze_detected = true
is_detected _ = false

abbrev pub is_processing : CurationState → Bool
is_processing silver_processing = true
is_processing _ = false

abbrev pub has_serial : String → CurationRow → Bool
has_serial s r = str_eq s r.serial_number

abbrev pub started_before : ℕ → ℕ → Option ℕ → Bool
started_before now timeout none = false
started_before now timeout (some t) = ltb (t + timeout) now

abbrev pub is_stale_processing : ℕ → ℕ → CurationRow → Bool
is_stale_processing now timeout r =
    is_processing r.state && started_before now timeout r.processing_started_at

abbrev pub fail_row : ℕ → String → CurationRow → CurationRow
fail_row now reason r = record r {
  state = silver_failed;
  failure_reason = some reason;
  retry_required = true;
  updated_at = now;
}

-- The number of rows and the table after the UPDATE.
unfoldable pub mark_stale_processing_failed : ℕ → ℕ → List CurationRow → ℕ × List CurationRow
mark_stale_processing_failed now timeout rows = (
  length (keep (is_stale_processing now timeout) rows),
  update_where (is_stale_processing now timeout) (fail_row now "silver_processing timeout") rows,
)

abbrev pub detected_row : ℕ → BronzeEpisode → CurationRow
detected_row now e = record {
  serial_number = e.serial_number;
  cell = e.cell;
  task = e.task;
  bronze_path = e.bronze_path;
  silver_path = e.silver_path;
  state = bronze_detected;
  failure_reason = none;
  processing_started_at = none;
  retry_required = false;
  updated_at = now;
}

abbrev pub redetect : ℕ → BronzeEpisode → CurationRow → CurationRow
redetect now e r = record r {
  cell = e.cell;
  task = e.task;
  bronze_path = e.bronze_path;
  silver_path = e.silver_path;
  updated_at = now;
}

-- INSERT … ON CONFLICT (serial_number) DO UPDATE … WHERE state = 'bronze_detected'
unfoldable pub upsert_detected : ℕ → BronzeEpisode → List CurationRow → List CurationRow
upsert_detected now e rows =
    if any (has_serial e.serial_number) rows
    then update_where (λ r. has_serial e.serial_number r && is_detected r.state) (redetect now e)
        rows
    else rows ++ detected_row now e ∷ []

unfoldable pub upsert_all : ℕ → List BronzeEpisode → List CurationRow → List CurationRow
unfolding upsert_detected
upsert_all now [] rows = rows
upsert_all now (e ∷ es) rows = upsert_all now es (upsert_detected now e rows)

-- ORDER BY updated_at, serial_number, with the collation of the database.
abbrev pub row_before : (String → String → Bool) → CurationRow → CurationRow → Bool
row_before text_before r q =
    ltb r.updated_at q.updated_at
    || ((r.updated_at == q.updated_at) && text_before r.serial_number q.serial_number)

unfoldable pub place_row :
    (String → String → Bool) → CurationRow → List CurationRow → List CurationRow
place_row text_before r [] = r ∷ []
place_row text_before r (q ∷ qs) =
    let rest = place_row text_before r qs in
    if row_before text_before q r then q ∷ rest else r ∷ q ∷ qs

unfoldable pub sort_rows : (String → String → Bool) → List CurationRow → List CurationRow
unfolding place_row
sort_rows text_before [] = []
sort_rows text_before (r ∷ rs) = place_row text_before r (sort_rows text_before rs)

abbrev pub limited : Option ℕ → List CurationRow → List CurationRow
limited none rows = rows
limited (some n) rows = take n rows

unfoldable pub eligible_episodes :
    (String → String → Bool) → Option ℕ → List CurationRow → List CurationRow
unfolding sort_rows
eligible_episodes text_before limit rows =
    limited limit (sort_rows text_before (keep (λ r. is_detected r.state) rows))
