-- ===== src/Jobs/Intake.antt =====
-- backend/datasets/services/operation_intake.py, the older way in for Dataset Operations. A request has the
-- fields of its payload, with the paths as they came.
use robodata.Prelude.{
  ℕ, String, Bool, true, false, not, ◌&&◌, str_eq, List, [], ◌∷◌, Option, none, some, if◌then◌else◌,
}
use robodata.Prelude.Checked.{Checked, rejected, passed, ◌>>=◌}
use robodata.Prelude.Int.{ℤ}
use robodata.Paths.{ResolvedPath, FileSystem, same_path}
use robodata.Jobs.{JobType}
use robodata.Jobs.Repo.{
  JobsTable, Request, Enqueued, added, duplicate_dedupe, unique_violation, enqueue,
}
use robodata.Jobs.Operation.{
  Payload, split, merge, delete, sync_good_episodes, stamp_cycles, dedupe_key,
}
use robodata.Jobs.Router.{model_dump}

pub data IntakeError : Type 0 where
  invalid_path : String → IntakeError
  source_path_not_found : String → IntakeError
  same_source_and_destination : IntakeError
  -- pydantic's ValidationError of the payload's constructor
  validation_error : Payload → IntakeError

-- The operation's name.
abbrev pub operation : Payload → JobType
operation (split s i t o) = JobType.split
operation (merge ss t o) = JobType.merge
operation (delete s i o) = JobType.delete
operation (sync_good_episodes s i d) = JobType.sync_good_episodes
operation (stamp_cycles s o) = JobType.stamp_cycles

pub data IntakeReply : Type 0 where
  enqueued : String → JobType → IntakeReply
  duplicate_dataset_operation : ℕ → IntakeReply
  refused : IntakeError → IntakeReply
  failed : IntakeReply

abbrev pub is_text : String → Bool
is_text s = not (str_eq s "")

abbrev pub is_list {ℓ} : {A : Type ℓ} → List A → Bool
is_list [] = false
is_list (x ∷ xs) = true

-- Field(min_length=1) of the payload models.
abbrev pub has_fields : Payload → Bool
has_fields (split s i t o) = is_text s && (is_list i && is_text t)
has_fields (merge ss t o) = is_list ss && is_text t
has_fields (delete s i o) = is_text s && is_list i
has_fields (sync_good_episodes s i d) = is_text s && (is_list i && is_text d)
has_fields (stamp_cycles s o) = is_text s

module _ (fs : FileSystem) (validate_path : String → Checked IntakeError ResolvedPath) where
  -- validate_optional_path
  abbrev pub optional_path : Option String → Checked IntakeError (Option String)
  optional_path none = passed none
  optional_path (some s) = do p ← validate_path s; passed (some (fs.show p))

  abbrev pub require_source_exists : ResolvedPath → String → Checked IntakeError ResolvedPath
  require_source_exists p s = if fs.exists p then passed p else rejected (source_path_not_found s)

  abbrev pub existing_source : String → Checked IntakeError ResolvedPath
  existing_source s = do p ← validate_path s; require_source_exists p s

  abbrev pub existing_sources : List String → Checked IntakeError (List String)
  existing_sources [] = passed []
  existing_sources (s ∷ ss) = do
    p ← existing_source s
    ps ← existing_sources ss
    passed (fs.show p ∷ ps)

  abbrev pub unless_same : ResolvedPath → ResolvedPath → List ℤ → Checked IntakeError Payload
  unless_same p d i =
      if same_path p d
      then rejected same_source_and_destination
      else passed (sync_good_episodes (fs.show p) i (fs.show d))

  -- The arguments of the payload's constructor, up to which each intake checks the paths.
  unfoldable pub located : Payload → Checked IntakeError Payload
  located (split s i t o) = do
    p ← validate_path s
    out ← optional_path o
    q ← require_source_exists p s
    passed (split (fs.show q) i t out)
  located (sync_good_episodes s i d) = do
    p ← validate_path s
    r ← validate_path d
    q ← require_source_exists p s
    unless_same q r i
  located (merge ss t o) = do
    out ← optional_path o
    ps ← existing_sources ss
    passed (merge ps t out)
  located (delete s i o) = do
    p ← validate_path s
    out ← optional_path o
    q ← require_source_exists p s
    passed (delete (fs.show q) i out)
  located (stamp_cycles s o) = do p ← existing_source s; passed (stamp_cycles (fs.show p) o)

  abbrev pub built : Payload → Checked IntakeError Payload
  built p = if has_fields p then passed p else rejected (validation_error p)

  unfoldable pub payload_of : Payload → Checked IntakeError Payload
  unfolding located
  payload_of req = do p ← located req; built p

  abbrev pub reply_of : Enqueued × JobsTable → IntakeReply × JobsTable
  reply_of (added j, t) = (enqueued j.external_id j.type_, t)
  reply_of (duplicate_dedupe i, t) = (duplicate_dataset_operation i, t)
  reply_of (unique_violation, t) = (failed, t)

  abbrev pub request_for : (ℤ → String) → Payload → Request
  request_for show_int p = record {
    type_ = operation p;
    payload = model_dump p;
    dedupe_key = some (dedupe_key show_int p);
  }

  abbrev pub enqueue_payload :
      (JobsTable → JobsTable)
      → (JobsTable → JobsTable)
      → (ℤ → String)
      → ℕ
      → String
      → Checked IntakeError Payload
      → JobsTable
      → IntakeReply × JobsTable
  enqueue_payload between after show_int now external_id (rejected e) t = (refused e, t)
  enqueue_payload between after show_int now external_id (passed p) t =
      reply_of (enqueue between after now external_id (request_for show_int p) t)

  -- intake_split, intake_split_into, intake_merge, intake_delete and intake_stamp_cycles.
  unfoldable pub intake :
      (JobsTable → JobsTable)
      → (JobsTable → JobsTable)
      → (ℤ → String)
      → ℕ
      → String
      → Payload
      → JobsTable
      → IntakeReply × JobsTable
  unfolding payload_of
  intake between after show_int now external_id req t =
      enqueue_payload between after show_int now external_id (payload_of req) t
