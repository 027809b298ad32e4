-- ===== src/Tests/Converter.antt =====
-- A converter with one task, whose state is the number of its recordings that are converted.
use robodata.Prelude.{ℕ, zero, suc, ◌+◌, String, true, false, ◌≡◌, refl, List, [], ◌∷◌}
use robodata.Prelude.Checked.{rejected, passed}
use robodata.Json.{int, bool}
use robodata.Prelude.Int.{pos}
use robodata.Converter.{
  Converter, failed, convert_tasks, select_cell_tasks, has_slash, is_task_of_cell, retries_first,
  target_fps_from_payload, bad_target_fps, progress_error, no_progress,
}
use robodata.Converter.Progress.{Runs, convert_tasks_lem}
use robodata.Converter.Select.{SelectSpec, select_cell_tasks_lem}

abbrev serials : ℕ → List String
serials zero = []
serials (suc n) = "r1" ∷ []

abbrev pending : ℕ → List String
pending zero = "r1" ∷ []
pending (suc n) = []

abbrev converter : Converter ℕ
converter = record {
  pending_recordings = λ t s. (passed (pending s), s);
  converted_count = λ t s. s;
  output_serials = λ t s. serials s;
  failed_serials = λ t s. [];
  convert_task = λ t rs s. (true, s + 1);
  is_cancelled = λ s. false;
  is_shutdown = λ s. false;
  set_shutdown = λ s. s;
}

-- It says that it has converted, and has not.
abbrev idle_converter : Converter ℕ
idle_converter = record converter { convert_task = λ t rs s. (true, s) }

idle_fails :
    convert_tasks idle_converter ("cell1/pick" ∷ []) 0
    ≡ failed (no_progress "cell1/pick" ("r1" ∷ [])) 0
unfolding convert_tasks progress_error
idle_fails = refl

boolean_fps : target_fps_from_payload (bool true) ≡ rejected bad_target_fps
unfolding target_fps_from_payload
boolean_fps = refl

zero_fps : target_fps_from_payload (int (pos 0)) ≡ rejected bad_target_fps
unfolding target_fps_from_payload
zero_fps = refl

retried : retries_first ("a" ∷ "b" ∷ []) ("b" ∷ "z" ∷ []) ("a" ∷ "b" ∷ []) ≡ "b" ∷ "a" ∷ []
unfolding retries_first
retried = refl

convert_tasks_lem_example : Runs converter ("cell1/pick" ∷ []) 0 1
unfolding convert_tasks progress_error
convert_tasks_lem_example = convert_tasks_lem converter ("cell1/pick" ∷ []) 0 1 refl

abbrev names : List String
names = "cell1/pick" ∷ "cell10/pick" ∷ "cell2/pick" ∷ []

one_cell : select_cell_tasks "cell1" names ≡ passed ("cell1/pick" ∷ [])
unfolding select_cell_tasks has_slash is_task_of_cell
one_cell = refl

select_cell_tasks_lem_example : SelectSpec "cell1" names (select_cell_tasks "cell1" names)
select_cell_tasks_lem_example = select_cell_tasks_lem "cell1" names
