-- ===== src/Jobs/Operation.antt =====
-- backend/jobs/dataset_operation_validation.py with the Operation Payloads of backend/datasets/services
-- (*_payload.py). What pydantic makes of a request's dict is an argument, `parse`.
use Prim.Native.String.{◌++◌ as str_append}
use robodata.Prelude.{
  ℕ, String, Bool, true, false, List, [], ◌∷◌, map, Option, none, some, if◌then◌else◌, any,
}
use robodata.Prelude.Int.{ℤ}
use robodata.Prelude.Checked.{Checked, rejected, passed, ◌>>=◌}
use robodata.Json.{Json}
use robodata.Paths.{ResolvedPath, FileSystem, same_path, contains}
use robodata.Jobs.{JobType}

pub data Payload : Type 0 where
  split : String → List ℤ → String → Option String → Payload
  merge : List String → String → Option String → Payload
  delete : String → List ℤ → Option String → Payload
  sync_good_episodes : String → List ℤ → String → Payload
  stamp_cycles : String → Bool → Payload

-- The HTTP status and what the detail names.
pub data ValidationError : Type 0 where
  invalid_payload : Json → ValidationError
  path_policy : String → ValidationError
  source_missing : ResolvedPath → ValidationError
  same_source_and_destination : ValidationError

abbrev pub status_code : ValidationError → ℕ
status_code (invalid_payload issues) = 422
status_code (path_policy p) = 400
status_code (source_missing p) = 404
status_code same_source_and_destination = 400

-- _DATASET_OPERATION_PAYLOADS
abbrev pub is_dataset_operation : JobType → Bool
is_dataset_operation JobType.split = true
is_dataset_operation JobType.merge = true
is_dataset_operation JobType.delete = true
is_dataset_operation JobType.sync_good_episodes = true
is_dataset_operation JobType.stamp_cycles = true
is_dataset_operation _ = false

abbrev pub colon : String → String → String
colon a b = str_append a (str_append ":" b)

-- ",".join
abbrev pub join_comma : List String → String
join_comma [] = ""
join_comma (x ∷ []) = x
join_comma (x ∷ y ∷ xs) = str_append x (str_append "," (join_comma (y ∷ xs)))

-- `show_int` is str of an int.
unfoldable pub dedupe_key : (ℤ → String) → Payload → String
dedupe_key show_int (split source ids target out) = colon "split" (colon source target)
dedupe_key show_int (merge sources target out) = colon "merge" (colon (join_comma sources) target)
dedupe_key show_int (delete source ids out) =
    colon "delete" (colon source (join_comma (map show_int ids)))
dedupe_key show_int (sync_good_episodes source ids dest) =
    colon "sync_good_episodes" (colon source dest)
dedupe_key show_int (stamp_cycles source overwrite) = colon "stamp_cycles" source

pub record Validated : Type 0 where
  pub payload : Payload
  pub key : String

module _ (fs : FileSystem) (allowed_dataset_roots : List String) where
  abbrev pub allowed_path : ResolvedPath → Bool
  allowed_path p = any (contains p) (map fs.resolve allowed_dataset_roots)

  unfoldable pub canonical_path : String → Checked ValidationError ResolvedPath
  canonical_path s =
      let p = fs.resolve s in if allowed_path p then passed p else rejected (path_policy s)

  abbrev pub existing : ResolvedPath → Checked ValidationError ResolvedPath
  existing p = if fs.exists p then passed p else rejected (source_missing p)

  unfoldable pub canonical_existing_source : String → Checked ValidationError ResolvedPath
  unfolding canonical_path
  canonical_existing_source s = do p ← canonical_path s; existing p

  unfoldable pub canonical_optional_path : Option String → Checked ValidationError (Option String)
  unfolding canonical_path
  canonical_optional_path none = passed none
  canonical_optional_path (some s) = do p ← canonical_path s; passed (some (fs.show p))

  unfoldable pub canonical_sources : List String → Checked ValidationError (List String)
  unfolding canonical_existing_source
  canonical_sources [] = passed []
  canonical_sources (s ∷ ss) = do
    p ← canonical_existing_source s
    ps ← canonical_sources ss
    passed (fs.show p ∷ ps)

  -- model_copy(update=_canonical_path_updates(type_, parsed))
  unfoldable pub canonical : Payload → Checked ValidationError Payload
  unfolding canonical_existing_source canonical_optional_path canonical_sources
  canonical (split source ids target out) = do
    p ← canonical_existing_source source
    o ← canonical_optional_path out
    passed (split (fs.show p) ids target o)
  canonical (delete source ids out) = do
    p ← canonical_existing_source source
    o ← canonical_optional_path out
    passed (delete (fs.show p) ids o)
  canonical (stamp_cycles source overwrite) = do
    p ← canonical_existing_source source
    passed (stamp_cycles (fs.show p) overwrite)
  canonical (merge sources target out) = do
    ps ← canonical_sources sources
    o ← canonical_optional_path out
    passed (merge ps target o)
  canonical (sync_good_episodes source ids dest) = do
    p ← canonical_existing_source source
    d ← canonical_path dest
    if same_path p d
        then rejected same_source_and_destination
        else passed (sync_good_episodes (fs.show p) ids (fs.show d))

  unfoldable pub validate_dataset_operation :
      (JobType → Json → Checked ValidationError Payload)
      → (ℤ → String)
      → JobType
      → Json
      → Checked ValidationError Validated
  unfolding canonical dedupe_key
  validate_dataset_operation parse show_int type_ raw = do
    parsed ← parse type_ raw
    payload ← canonical parsed
    passed (record { payload = payload; key = dedupe_key show_int payload })
