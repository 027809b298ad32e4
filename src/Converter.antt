-- ===== src/Converter.antt =====
-- backend/converter/queue_adapter.py: which cell tasks a convert job works on, in which order it takes their
-- recordings, and when it calls a task done. The converter itself (the submodule rosbag2lerobot-svt) is an
-- argument: what it holds, `S`, is asked through its functions.
pub mod Progress
pub mod Select
use Prim.Native.Char.{code}
use Prim.Native.String.{◌++◌ as str_append}
use text.Mathlib.Text.{starts_with}
use robodata.Prelude.{
  ℕ, ◌+◌, String, Bool, true, false, not, ◌&&◌, ◌||◌, List, [], ◌∷◌, ◌++◌, Option, none, some, leb,
  ltb, ◌==◌, str_eq, keep, any, length, if◌then◌else◌,
}
use robodata.Prelude.Checked.{Checked, rejected, passed, ◌>>=◌}
use robodata.Prelude.Int.{ℤ, pos, negsuc}
use robodata.Json.{Json, null, int}

pub data ConvertError : Type 0 where
  bad_target_fps : ConvertError
  no_recordings : String → ConvertError
  mount_failure : String → ConvertError
  state_regressed : String → ℕ → ℕ → ConvertError
  no_progress : String → List String → ConvertError
  pending_failed : String → ConvertError

abbrev pub mem : String → List String → Bool
mem s = any (str_eq s)

-- A value that is not there is `null` here too. In Json a Boolean is no `int`.
unfoldable pub target_fps_from_payload : Json → Checked ConvertError (Option ℕ)
target_fps_from_payload null = passed none
target_fps_from_payload (int (pos n)) = if n == 0 then rejected bad_target_fps else passed (some n)
target_fps_from_payload (int (negsuc n)) = rejected bad_target_fps
target_fps_from_payload _ = rejected bad_target_fps

abbrev pub unless_empty : String → List String → Checked ConvertError (List String)
unless_empty target [] = rejected (no_recordings target)
unless_empty target (t ∷ ts) = passed (t ∷ ts)

-- The numbers of a text's characters.
abbrev pub codes : String → List ℕ
codes String.[] = []
codes (String.◌∷◌ c s) = code c ∷ codes s

abbrev pub is_slash : ℕ → Bool
is_slash c = c == 47

-- "/" in target
unfoldable pub has_slash : String → Bool
has_slash s = any is_slash (codes s)

-- cell_task.startswith(f"{target}/")
unfoldable pub is_task_of_cell : String → String → Bool
is_task_of_cell target cell_task = starts_with cell_task (str_append target "/")

-- `sorted_tasks` are the keys of all_tasks in order.
unfoldable pub select_cell_tasks : String → List String → Checked ConvertError (List String)
unfolding has_slash is_task_of_cell
select_cell_tasks target sorted_tasks =
    if mem target sorted_tasks
    then passed (target ∷ [])
    else if has_slash target
    then rejected (no_recordings target)
    else unless_empty target (keep (is_task_of_cell target) sorted_tasks)

-- The end of _pending_recordings: recordings to retry that the task still has, and then the pending ones.
unfoldable pub retries_first : List String → List String → List String → List String
retries_first task_serials retry_eligible pending =
    let retries = keep (λ s. mem s task_serials) retry_eligible in
    retries ++ keep (λ s. not (mem s retries)) pending

-- What the loop asks of the converter: the recordings of a task that wait, as _pending_recordings returns
-- them, the counts and serials before and after, and the conversion with its `mount_ok`.
pub record Converter (S : Type 0) : Type 0 where
  pub pending_recordings : String → S → Checked ConvertError (List String) × S
  pub converted_count : String → S → ℕ
  pub output_serials : String → S → List String
  pub failed_serials : String → S → List String
  pub convert_task : String → List String → S → Bool × S
  pub is_cancelled : S → Bool
  pub is_shutdown : S → Bool
  -- shutdown_event.set()
  pub set_shutdown : S → S

-- The function returns None where it has finished and where it is stopped.
pub data Outcome (S : Type 0) : Type 0 where
  returned : S → Outcome S
  failed : ConvertError → S → Outcome S

abbrev pub unless_unresolved : String → List String → Option ConvertError
unless_unresolved task [] = none
unless_unresolved task (r ∷ rs) = some (no_progress task (r ∷ rs))

module _ {S : Type 0} (converter : Converter S) where
  abbrev pub unresolved : String → List String → S → List String
  unresolved task recordings s =
      keep
        (λ r.
          not (mem r (converter.output_serials task s))
          && not (mem r (converter.failed_serials task s)))
        recordings

  -- Neither the count nor the output has grown.
  abbrev pub is_idle : String → S → S → Bool
  is_idle task before after =
      (converter.converted_count task after == converter.converted_count task before)
      && leb (length (converter.output_serials task after))
          (length (converter.output_serials task before))

  -- The checks after a conversion that was not stopped.
  unfoldable pub progress_error : String → List String → Bool → S → S → Option ConvertError
  progress_error task recordings mount_ok before after =
      if not mount_ok
      then some (mount_failure task)
      else if ltb (converter.converted_count task after) (converter.converted_count task before)
      then some (
          state_regressed task (converter.converted_count task before)
            (converter.converted_count task after))
      else if is_idle task before after
      then unless_unresolved task (unresolved task recordings after)
      else none

  abbrev pub go_on : (S → Outcome S) → S → Option ConvertError → Outcome S
  go_on rest s none = rest s
  go_on rest s (some e) = failed e s

  abbrev pub after_convert : String → List String → S → (S → Outcome S) → Bool × S → Outcome S
  after_convert task recordings before rest (mount_ok, s) =
      if converter.is_cancelled s || converter.is_shutdown s
      then returned s
      else go_on rest s (progress_error task recordings mount_ok before s)

  abbrev pub after_pending :
      String → (S → Outcome S) → Checked ConvertError (List String) × S → Outcome S
  after_pending task rest (rejected e, s) = failed e s
  after_pending task rest (passed [], s) = rest s
  after_pending task rest (passed (r ∷ rs), s) =
      after_convert task (r ∷ rs) s rest (converter.convert_task task (r ∷ rs) s)

  -- The loop over the cell tasks.
  unfoldable pub convert_tasks : List String → S → Outcome S
  unfolding progress_error
  convert_tasks [] s = returned s
  convert_tasks (task ∷ tasks) s =
      if converter.is_cancelled s
      then returned (converter.set_shutdown s)
      else after_pending task (convert_tasks tasks) (converter.pending_recordings task s)
