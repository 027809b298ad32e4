-- ===== src/Pipeline/Batch.antt =====
-- One batch of backend/datasets/services/bronze_silver_pipeline.py, from the lock to the reply.
use robodata.Prelude.{
  ℕ, ◌+◌, String, Bool, true, false, ◌&&◌, List, [], ◌∷◌, ◌++◌, Option, none, some, ◌==◌, any,
  length, is_some, find_first, if◌then◌else◌,
}
use robodata.Prelude.Checked.{Checked, rejected, passed}
use robodata.Table.{update_where}
use robodata.Paths.{ResolvedPath, same_path}
use robodata.Pipeline.{
  silver_processing, silver_ready, CurationRow, Dataset, EpisodeSerial, CurationTables, Recording,
  discover_bronze_episodes, has_serial, fail_row, mark_stale_processing_failed, upsert_all,
  eligible_episodes,
}

abbrev pub processing_row : ℕ → CurationRow → CurationRow
processing_row now r = record r {
  state = silver_processing;
  processing_started_at = some now;
  failure_reason = none;
  retry_required = false;
  updated_at = now;
}

abbrev pub mark_processing : ℕ → String → List CurationRow → List CurationRow
mark_processing now s = update_where (has_serial s) (processing_row now)

abbrev pub mark_failed : ℕ → String → String → List CurationRow → List CurationRow
mark_failed now s reason = update_where (has_serial s) (fail_row now reason)

abbrev pub has_path : ResolvedPath → Dataset → Bool
has_path p d = same_path p d.path

abbrev pub silver_dataset : CurationTables → CurationRow → Dataset
silver_dataset t r = record {
  id = t.next_dataset;
  path = r.silver_path;
  name = r.task;
  cell_name = r.cell;
  synced_at = none;
}

abbrev pub registered : CurationTables → CurationRow → Option Dataset → ℕ × CurationTables
registered t r (some d) = (d.id, t)
registered t r none = (
  t.next_dataset,
  record t { datasets = t.datasets ++ silver_dataset t r ∷ []; next_dataset = t.next_dataset + 1 },
)

-- Inside the batch's transaction the INSERT finds no conflict, since the SELECT has found no row.
unfoldable pub ensure_silver_dataset_registered : CurationRow → CurationTables → ℕ × CurationTables
ensure_silver_dataset_registered r t =
    registered t r (find_first (has_path r.silver_path) t.datasets)

abbrev pub first_episode : ℕ → EpisodeSerial → Bool
first_episode i e = (e.dataset_id == i) && (e.episode_index == 0)

abbrev pub upsert_serial : ℕ → String → List EpisodeSerial → List EpisodeSerial
upsert_serial i s rows =
    if any (first_episode i) rows
    then update_where (first_episode i) (λ e. record e { serial = s }) rows
    else rows ++ record { dataset_id = i; episode_index = 0; serial = s } ∷ []

abbrev pub ready_row : ℕ → CurationRow → CurationRow
ready_row now r = record r {
  state = silver_ready;
  failure_reason = none;
  retry_required = false;
  updated_at = now;
}

abbrev pub recorded_ready : ℕ → CurationRow → ℕ × CurationTables → CurationTables
recorded_ready now r (i, t) = record t {
  serials = upsert_serial i r.serial_number t.serials;
  states = update_where (has_serial r.serial_number) (ready_row now) t.states;
}

unfoldable pub mark_ready : ℕ → CurationRow → CurationTables → CurationTables
unfolding ensure_silver_dataset_registered
mark_ready now r t = recorded_ready now r (ensure_silver_dataset_registered r t)

-- The file system: what it holds at a path, and its operations, which raise with a text.
pub record Disk (S D : Type 0) : Type 0 where
  pub look : ResolvedPath → S → Option D
  pub mkdir_parent : ResolvedPath → S → Checked String Unit × S
  pub move : ResolvedPath → ResolvedPath → S → Checked String Unit × S

module _ {S D : Type 0} (disk : Disk S D) where
  abbrev pub move_unless_there : CurationRow → Checked String Unit × S → Checked String Unit × S
  move_unless_there r (rejected e, s) = (rejected e, s)
  move_unless_there r (passed u, s) =
      if is_some (disk.look r.silver_path s)
      then (rejected "silver output already exists", s)
      else disk.move r.bronze_path r.silver_path s

  unfoldable pub process_episode_files : CurationRow → S → Checked String Unit × S
  process_episode_files r s =
      if is_some (disk.look r.bronze_path s)
      then move_unless_there r (disk.mkdir_parent r.silver_path s)
      else if is_some (disk.look r.silver_path s)
      then (passed tt, s)
      else (rejected "bronze episode not found", s)

-- The table that the batch selects from.
abbrev pub detected :
    ℕ → ℕ → ResolvedPath → Option (List Recording) → CurationTables → CurationTables
detected now timeout root recordings t = record t {
  states =
      upsert_all now (discover_bronze_episodes root recordings)
        (mark_stale_processing_failed now timeout t.states).1;
}

pub record Progress (S : Type 0) : Type 0 where
  pub tables : CurationTables
  pub files : S
  pub processed : ℕ
  pub failed : ℕ

-- The reply of a batch that ran has its counts: processed, failed, stale_failed, eligible.
pub data BatchReply : Type 0 where
  skipped : BatchReply
  complete : ℕ → ℕ → ℕ → ℕ → BatchReply

-- `cut` is reason[:1000].
module _ {S D : Type 0} (disk : Disk S D) (now : ℕ) (cut : String → String) where
  abbrev pub settle : CurationRow → Progress S → Checked String Unit × S → Progress S
  settle r p (rejected e, s) = record p {
    tables = record p.tables { states = mark_failed now r.serial_number (cut e) p.tables.states };
    files = s;
    failed = p.failed + 1;
  }
  settle r p (passed u, s) = record p {
    tables = mark_ready now r p.tables;
    files = s;
    processed = p.processed + 1;
  }

  abbrev pub begun : CurationRow → Progress S → Progress S
  begun r p = record p {
    tables = record p.tables { states = mark_processing now r.serial_number p.tables.states };
  }

  unfoldable pub process_row : CurationRow → Progress S → Progress S
  unfolding process_episode_files mark_ready
  process_row r p = settle r (begun r p) (process_episode_files disk r p.files)

  unfoldable pub process_rows : List CurationRow → Progress S → Progress S
  unfolding process_row
  process_rows [] p = p
  process_rows (r ∷ rs) p = process_rows rs (process_row r p)

  abbrev pub completed : ℕ → ℕ → Progress S → BatchReply × CurationTables × S
  completed stale eligible p = (complete p.processed p.failed stale eligible, p.tables, p.files)

  abbrev pub process_eligible :
      ℕ → CurationTables → S → List CurationRow → BatchReply × CurationTables × S
  process_eligible stale t s eligible =
      completed stale (length eligible)
        (process_rows eligible (record { tables = t; files = s; processed = 0; failed = 0 }))

  -- `acquired` is what the advisory lock answers.
  unfoldable pub run_bronze_to_silver_batch :
      (String → String → Bool)
      → Bool
      → ℕ
      → Option ℕ
      → ResolvedPath
      → Option (List Recording)
      → CurationTables
      → S
      → BatchReply × CurationTables × S
  unfolding eligible_episodes process_rows
  run_bronze_to_silver_batch text_before false timeout limit root recordings t s = (skipped, t, s)
  run_bronze_to_silver_batch text_before true timeout limit root recordings t s =
      let after = detected now timeout root recordings t in
      process_eligible (mark_stale_processing_failed now timeout t.states).0 after s
        (eligible_episodes text_before limit after.states)
