-- ===== src/Jobs/Router.antt =====
-- backend/jobs/router.py: the requests that add, read and cancel jobs, with their HTTP replies.
use robodata.Prelude.{
  ℕ, String, Bool, true, false, not, ◌&&◌, List, [], ◌∷◌, Option, none, some, if◌then◌else◌,
}
use robodata.Prelude.Int.{ℤ}
use robodata.Prelude.Checked.{Checked, rejected, passed, ◌>>=◌}
use robodata.Json.{Json, Items, null, bool, int, text, arr, obj, nil, cons, end, field}
use robodata.Paths.{FileSystem}
use robodata.Jobs.{JobType, Status, Job}
use robodata.Jobs.Lifecycle.{
  CancelReply, cancel_row, lookup_error, already_terminal, request_cancel,
}
use robodata.Jobs.Repo.{
  JobsTable, Request, Enqueued, added, duplicate_dedupe, unique_violation, enqueue, fetch,
}
use robodata.Jobs.Operation.{
  Payload, split, merge, delete, sync_good_episodes, stamp_cycles, ValidationError, Validated,
  is_dataset_operation, validate_dataset_operation,
}

abbrev ints : List ℤ → Items
ints [] = nil
ints (i ∷ is) = cons (int i) (ints is)

abbrev texts : List String → Items
texts [] = nil
texts (s ∷ ss) = cons (text s) (texts ss)

abbrev text_or_null : Option String → Json
text_or_null none = null
text_or_null (some s) = text s

-- model_dump of the payload models
unfoldable pub model_dump : Payload → Json
model_dump (split source ids target out) = obj (
    field "source_path" (text source) (
      field "episode_ids" (arr (ints ids))
        (field "target_name" (text target) (field "output_dir" (text_or_null out) end))))
model_dump (merge sources target out) = obj (
    field "source_paths" (arr (texts sources))
      (field "target_name" (text target) (field "output_dir" (text_or_null out) end)))
model_dump (delete source ids out) = obj (
    field "source_path" (text source)
      (field "episode_ids" (arr (ints ids)) (field "output_dir" (text_or_null out) end)))
model_dump (sync_good_episodes source ids dest) = obj (
    field "source_path" (text source)
      (field "episode_ids" (arr (ints ids)) (field "destination_path" (text dest) end)))
model_dump (stamp_cycles source overwrite) =
    obj (field "source_path" (text source) (field "overwrite" (bool overwrite) end))

pub record EnqueueBody : Type 0 where
  pub type_ : JobType
  pub payload : Json
  pub dedupe_key : Option String

pub data PostReply : Type 0 where
  created : Job → PostReply
  conversion_mutations_disabled : PostReply
  invalid : ValidationError → PostReply
  conflict : ℕ → PostReply
  server_error : PostReply

-- _CONVERSION_JOB_TYPES
abbrev pub is_conversion : JobType → Bool
is_conversion JobType.convert = true
is_conversion JobType.bronze_silver_batch = true
is_conversion _ = false

abbrev pub plain_request : EnqueueBody → Request
plain_request b = record { type_ = b.type_; payload = b.payload; dedupe_key = b.dedupe_key }

abbrev pub validated_request : JobType → Validated → Request
validated_request t v = record {
  type_ = t;
  payload = model_dump v.payload;
  dedupe_key = some v.key;
}

abbrev pub reply_enqueued : Enqueued × JobsTable → PostReply × JobsTable
reply_enqueued (added j, t) = (created j, t)
reply_enqueued (duplicate_dedupe i, t) = (conflict i, t)
reply_enqueued (unique_violation, t) = (server_error, t)

module _ (fs : FileSystem) (roots : List String)
    (parse : JobType → Json → Checked ValidationError Payload) (show_int : ℤ → String) where
  -- What the handler enqueues: for a Dataset Operation the canonical payload with its own dedupe key.
  abbrev pub request_of : EnqueueBody → Checked ValidationError Request
  request_of b =
      if is_dataset_operation b.type_
      then (validate_dataset_operation fs roots parse show_int b.type_ b.payload >>= λ v.
          passed (validated_request b.type_ v))
      else passed (plain_request b)

  abbrev pub post_request :
      (JobsTable → JobsTable)
      → (JobsTable → JobsTable)
      → ℕ
      → String
      → JobsTable
      → Checked ValidationError Request
      → PostReply × JobsTable
  post_request between after now external_id t (passed r) =
      reply_enqueued (enqueue between after now external_id r t)
  post_request between after now external_id t (rejected e) = (invalid e, t)

  unfoldable pub post_job :
      (JobsTable → JobsTable)
      → (JobsTable → JobsTable)
      → Bool
      → ℕ
      → String
      → EnqueueBody
      → JobsTable
      → PostReply × JobsTable
  post_job between after enabled now external_id b t =
      if is_conversion b.type_ && not enabled
      then (conversion_mutations_disabled, t)
      else post_request between after now external_id t (request_of b)

abbrev pub GetReply : Type 0
GetReply = Option Job

-- 404 where there is no row.
unfoldable pub get_job : ℕ → JobsTable → GetReply
unfolding fetch
get_job i t = fetch i t

pub data CancelResponse : Type 0 where
  accepted : ℕ → Status → CancelResponse
  not_found : CancelResponse
  conflict_terminal : Status → CancelResponse

abbrev pub cancel_response : CancelReply → CancelResponse
cancel_response (cancel_row i s) = accepted i s
cancel_response (lookup_error i) = not_found
cancel_response (already_terminal s) = conflict_terminal s

unfoldable pub cancel_job :
    (List Job → List Job) → (List Job → List Job) → ℕ → ℕ → List Job → CancelResponse × List Job
unfolding request_cancel
cancel_job between after now i jobs =
    let (reply, after_jobs) = request_cancel between after now i jobs in
    (cancel_response reply, after_jobs)
