-- ===== src/Tests/Pipeline.antt =====
-- A batch of the bronze-silver pipeline over one recording, on a disk that holds numbers at its two paths.
use robodata.Prelude.{
  ℕ, String, Bool, true, false, ◌≡◌, refl, List, [], ◌∷◌, Option, none, some, All, if◌then◌else◌,
  is_some,
}
use robodata.Prelude.Checked.{Checked, rejected, passed}
use robodata.Paths.{ResolvedPath, same_path}
use robodata.Pipeline.{
  CurationRow, CurationTables, Recording, silver_processing, bronze_detected, is_detected,
  mark_stale_processing_failed, discover_bronze_episodes, upsert_all, upsert_detected,
  eligible_episodes, sort_rows, place_row,
}
use robodata.Pipeline.Batch.{
  Disk, complete, run_bronze_to_silver_batch, process_episode_files, process_rows, process_row,
  mark_ready, ensure_silver_dataset_registered,
}
use robodata.Pipeline.Kept.{Kept}
use robodata.Pipeline.Files.{unlimited_batch_lem, process_episode_files_lem}

abbrev bronze : ResolvedPath
bronze = "bronze" ∷ "cell1" ∷ "pick" ∷ "s1" ∷ []

abbrev silver : ResolvedPath
silver = "silver_label_data" ∷ "cell1" ∷ "pick" ∷ "LeRobot" ∷ "s1" ∷ []

abbrev Shelf : Type 0
Shelf = Option ℕ × Option ℕ

abbrev move_across : Shelf → Checked String Unit × Shelf
move_across (some d, none) = (passed tt, (none, some d))
move_across s = (rejected "not moved", s)

abbrev shelf : Disk Shelf ℕ
shelf = record {
  look = λ p s. if same_path p bronze then s.0 else if same_path p silver then s.1 else none;
  mkdir_parent = λ p s. (passed tt, s);
  move = λ p q s. move_across s;
}

abbrev recordings : Option (List Recording)
recordings = some (record { cell = "cell1"; task = "pick"; serial = "s1" } ∷ [])

abbrev old_row : CurationRow
old_row = record {
  serial_number = "s0";
  cell = "cell1";
  task = "pick";
  bronze_path = [];
  silver_path = [];
  state = silver_processing;
  failure_reason = none;
  processing_started_at = some 10;
  retry_required = false;
  updated_at = 10;
}

abbrev new_row : CurationRow
new_row = record {
  serial_number = "s1";
  cell = "cell1";
  task = "pick";
  bronze_path = bronze;
  silver_path = silver;
  state = bronze_detected;
  failure_reason = none;
  processing_started_at = none;
  retry_required = false;
  updated_at = 20;
}

abbrev tables : CurationTables
tables = record { states = old_row ∷ []; datasets = []; next_dataset = 1; serials = [] }

abbrev cut : String → String
cut s = s

abbrev before : String → String → Bool
before s t = false

one_processed :
    (run_bronze_to_silver_batch shelf 5000 cut before true 3600 none [] recordings tables
      (some 7, none)).0
    ≡ complete 1 0 1 1
unfolding run_bronze_to_silver_batch mark_stale_processing_failed discover_bronze_episodes
    upsert_all upsert_detected eligible_episodes sort_rows place_row process_rows process_row
    process_episode_files mark_ready ensure_silver_dataset_registered
one_processed = refl

unlimited_batch_lem_example :
    All
      (λ y. is_detected y.state ≡ false)
      (run_bronze_to_silver_batch shelf 5000 cut before true 3600 none [] recordings tables
        (some 7, none)).1.states
unlimited_batch_lem_example =
    unlimited_batch_lem shelf 5000 cut before 3600 [] recordings tables (some 7, none)

moves_across :
    (s : Shelf) (u : Unit)
    → s.1 ≡ none
    → (move_across s).0 ≡ passed u
    → ((move_across s).1.1 ≡ s.0) × ((move_across s).1.0 ≡ none)
moves_across (some d, none) u e h = (refl, refl)
moves_across (some d, some c) u e h = cc
moves_across (none, o) u e h = cc

process_episode_files_lem_example :
    is_some (shelf.look silver (process_episode_files shelf new_row (some 7, none)).1) ≡ true
unfolding process_episode_files
process_episode_files_lem_example =
    ((process_episode_files_lem shelf new_row (λ s. refl) (λ s. refl) moves_across (some 7, none)).0
      tt refl).1
