-- ===== src/Jobs/Repo.antt =====
-- backend/jobs/repo.py: adding a row under the two unique indexes of the table, and reading rows. Other
-- sessions may commit between the statements of `enqueue`: `between` is what they do to the table
-- between its SELECT and its INSERT, `after` what they do after a refused INSERT.
use robodata.Prelude.{
  ℕ, ◌+◌, String, Bool, true, ◌&&◌, ◌||◌, List, [], ◌∷◌, ◌++◌, Option, none, some, leb,
  if◌then◌else◌, str_eq, keep, any, find_first, take, ltb,
}
use robodata.Json.{Json, obj, end}
use robodata.Jobs.{JobType, Status, Job, same_type, same_status, is_active, same_text, has_id}

-- The table, with the next value of the sequence behind `id`.
pub record JobsTable : Type 0 where
  pub rows : List Job
  pub next_id : ℕ

-- WHERE type = $1 AND dedupe_key = $2 AND status IN ('queued', 'running', 'cancel_requested')
abbrev pub active_with : JobType → Option String → Job → Bool
active_with t key j = same_type j.type_ t && (same_text j.dedupe_key key && is_active j.status)

-- idx_jobs_active_dedupe: two active rows with one type and one dedupe key.
abbrev pub same_slot : Job → Job → Bool
same_slot a b = is_active a.status && active_with a.type_ a.dedupe_key b

-- idx_jobs_external_id
abbrev pub same_external : Job → Job → Bool
same_external a b = str_eq a.external_id b.external_id

-- The INSERT of the row would break a unique index.
abbrev pub violates : List Job → Job → Bool
violates rows j = any (same_slot j) rows || any (same_external j) rows

pub record Request : Type 0 where
  pub type_ : JobType
  pub payload : Json
  pub dedupe_key : Option String

abbrev pub new_row : ℕ → ℕ → String → Request → Job
new_row now i external_id req = record {
  id = i;
  external_id = external_id;
  type_ = req.type_;
  status = Status.queued;
  payload = req.payload;
  progress = obj end;
  result = none;
  error = none;
  attempts = 0;
  worker_id = none;
  dedupe_key = req.dedupe_key;
  created_at = now;
  updated_at = now;
  started_at = none;
  heartbeat_at = none;
  cancel_requested_at = none;
  finished_at = none;
}

pub data Enqueued : Type 0 where
  added : Job → Enqueued
  duplicate_dedupe : ℕ → Enqueued
  unique_violation : Enqueued

-- INSERT … RETURNING: a refused row still uses up its number of the sequence.
abbrev pub insert_row : JobsTable → Job → JobsTable
insert_row t j = record { rows = t.rows ++ j ∷ []; next_id = t.next_id + 1 }

abbrev pub skip_number : JobsTable → JobsTable
skip_number t = record t { next_id = t.next_id + 1 }

abbrev pub find_active : Request → JobsTable → Option Job
find_active req t = find_first (active_with req.type_ req.dedupe_key) t.rows

-- `except asyncpg.UniqueViolationError`: the SELECT again, and the error itself if it finds nothing.
abbrev pub refused : JobsTable → Option Job → Enqueued × JobsTable
refused t none = (unique_violation, t)
refused t (some j) = (duplicate_dedupe j.id, t)

abbrev pub after_violation : Request → JobsTable → Enqueued × JobsTable
after_violation req t = refused t (find_active req t)

unfoldable pub try_insert :
    (JobsTable → JobsTable) → ℕ → String → Request → JobsTable → Enqueued × JobsTable
try_insert after now external_id req t =
    let row = new_row now t.next_id external_id req in
    if violates t.rows row
    then after_violation req (after (skip_number t))
    else (added row, insert_row t row)

abbrev pub unless_active : JobsTable → Option Job → Enqueued × JobsTable → Enqueued × JobsTable
unless_active t none rest = rest
unless_active t (some j) rest = (duplicate_dedupe j.id, t)

unfoldable pub enqueue :
    (JobsTable → JobsTable)
    → (JobsTable → JobsTable)
    → ℕ
    → String
    → Request
    → JobsTable
    → Enqueued × JobsTable
enqueue between after now external_id req t =
    unless_active t (find_active req t) (try_insert after now external_id req (between t))

unfoldable pub fetch : ℕ → JobsTable → Option Job
fetch i t = find_first (has_id i) t.rows

unfoldable pub fetch_by_external_id : String → JobsTable → Option Job
fetch_by_external_id e t = find_first (λ j. str_eq j.external_id e) t.rows

-- The conditions of `list_jobs`. `dataset_id` is Postgres's payload->>'dataset_id' of a row.
pub record Filter : Type 0 where
  pub type_ : Option JobType
  pub status : Option Status
  pub dataset_id : Option String
  pub since : Option ℕ

abbrev pub unless {ℓ} : {A : Type ℓ} → (A → Bool) → Option A → Bool
unless p none = true
unless p (some a) = p a

abbrev pub listed : (Json → Option String) → Filter → Job → Bool
listed dataset_id f j =
    unless (same_type j.type_) f.type_
    && (unless (same_status j.status) f.status
        && (unless (λ d. same_text (dataset_id j.payload) (some d)) f.dataset_id
            && unless (λ n. leb n j.updated_at) f.since))

-- ORDER BY id DESC
unfoldable pub place : Job → List Job → List Job
place j [] = j ∷ []
place j (k ∷ ks) = let rest = place j ks in if ltb j.id k.id then k ∷ rest else j ∷ k ∷ ks

unfoldable pub by_id_desc : List Job → List Job
unfolding place
by_id_desc [] = []
by_id_desc (j ∷ js) = place j (by_id_desc js)

unfoldable pub list_jobs : (Json → Option String) → Filter → ℕ → JobsTable → List Job
unfolding by_id_desc
list_jobs dataset_id f limit t = take limit (by_id_desc (keep (listed dataset_id f) t.rows))
