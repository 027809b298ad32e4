-- ===== src/Tests/Jobs.antt =====
-- The jobs queue (backend/jobs) on a table of three jobs: one waits, one runs, one was asked to stop.
use robodata.Prelude.{
  ℕ, ◌≤◌, ◌⊎◌, All, length, true, ◌≡◌, refl, List, [], ◌∷◌, none, some, arith, In, here, there,
  false,
}
use robodata.Json.{obj, end}
use robodata.Table.{Extends, first_by, update_where}
use robodata.Jobs.{JobType, Status, Job, same_type, any_type, has_id}
use robodata.Jobs.Lifecycle.{claim_next, request_cancel}
use robodata.Jobs.Repo.{JobsTable, Filter, listed, list_jobs, Request, duplicate_dedupe, enqueue}
use robodata.Jobs.History.{claims, requeues, completes, update}
use robodata.Jobs.Index.{IsValid}
use robodata.Jobs.Enqueue.{Answers, enqueue_lem}
use robodata.Jobs.Later.{Event, updates, inserts, Later, run, run-Later}
use robodata.Jobs.Listing.{IsDescending, list_jobs_lem}
use robodata.Jobs.Claim.{ClaimSpec, claim_next_lem}
use robodata.Jobs.Cancel.{alone, cancel_answer, after_cancel, request_cancel_lem}
use robodata.Jobs.Requested.{cancel_wins, requested_blocks}

abbrev waiting_job : Job
waiting_job = record {
  id = 1;
  external_id = "u1";
  type_ = JobType.split;
  status = Status.queued;
  payload = obj end;
  progress = obj end;
  result = none;
  error = none;
  attempts = 0;
  worker_id = none;
  dedupe_key = some "split:/a:b";
  created_at = 10;
  updated_at = 10;
  started_at = none;
  heartbeat_at = none;
  cancel_requested_at = none;
  finished_at = none;
}

abbrev running_job : Job
running_job = record {
  id = 2;
  external_id = "u2";
  type_ = JobType.convert;
  status = Status.running;
  payload = obj end;
  progress = obj end;
  result = none;
  error = none;
  attempts = 0;
  worker_id = some "converter";
  dedupe_key = some "cell001";
  created_at = 11;
  updated_at = 12;
  started_at = some 12;
  heartbeat_at = some 12;
  cancel_requested_at = none;
  finished_at = none;
}

abbrev stopping_job : Job
stopping_job = record {
  id = 3;
  external_id = "u3";
  type_ = JobType.convert;
  status = Status.cancel_requested;
  payload = obj end;
  progress = obj end;
  result = none;
  error = none;
  attempts = 0;
  worker_id = some "converter";
  dedupe_key = some "cell002";
  created_at = 5;
  updated_at = 13;
  started_at = some 6;
  heartbeat_at = some 12;
  cancel_requested_at = some 13;
  finished_at = none;
}

abbrev jobs : List Job
jobs = waiting_job ∷ running_job ∷ stopping_job ∷ []

abbrev table : JobsTable
table = record { rows = jobs; next_id = 4 }

table-IsValid : IsValid table
unfolding same_type
table-IsValid = record {
  ids = (refl, (refl, (refl, tt)));
  below = omega arith;
  slots = (refl, (refl, (refl, tt)));
  externals = (refl, (refl, (refl, tt)));
}

abbrev split_again : Request
split_again = record { type_ = JobType.split; payload = obj end; dedupe_key = some "split:/a:b" }

abbrev convert_again : Request
convert_again = record { type_ = JobType.convert; payload = obj end; dedupe_key = some "cell002" }

abbrev restart : List (ℕ × Event)
restart =
    (20, updates (requeues "converter" (JobType.convert ∷ [])))
    ∷ (21, updates (claims (λ j. false) "converter" (JobType.convert ∷ [])))
    ∷ (22, inserts "u4" split_again)
    ∷ []

enqueue_duplicate :
    enqueue (λ t. t) (λ t. t) 20 "u9" split_again table ≡ (duplicate_dedupe 1, table)
unfolding enqueue same_type
enqueue_duplicate = refl

claim_takes_waiting :
    (claim_next (λ j. false) 20 "curation-worker" (JobType.split ∷ []) jobs).0
    ≡ some (record { id = 1; type_ = JobType.split; payload = obj end })
unfolding claim_next any_type same_type first_by
claim_takes_waiting = refl

run-Later_example : Extends Later jobs (run restart table).rows × IsValid (run restart table)
run-Later_example = run-Later restart table table-IsValid

enqueue_lem_example :
    IsValid (enqueue (λ t. t) (λ t. t) 20 "u9" convert_again table).1
    × Answers convert_again (enqueue (λ t. t) (λ t. t) 20 "u9" convert_again table)
enqueue_lem_example =
    enqueue_lem (λ t. t) (λ t. t) (λ t v. v) (λ t v. v) 20 "u9" convert_again table table-IsValid

claim_next_lem_example :
    ClaimSpec
      (λ j. false)
      20
      "curation-worker"
      (JobType.split ∷ [])
      jobs
      (claim_next (λ j. false) 20 "curation-worker" (JobType.split ∷ []) jobs)
claim_next_lem_example =
    claim_next_lem (λ j. false) 20 "curation-worker" (JobType.split ∷ []) jobs table-IsValid.ids

request_cancel_lem_example :
    request_cancel alone alone 20 2 jobs
    ≡ (cancel_answer 2 Status.running, update_where (has_id 2) (after_cancel 20) jobs)
request_cancel_lem_example = request_cancel_lem 20 jobs table-IsValid.ids running_job (there here)

cancel_wins_example :
    (k : Job) × In k (update 21 (completes 2 none) (request_cancel alone alone 20 2 jobs).1)
    × (k.id ≡ 2)
    × (k.status ≡ Status.cancelled)
    × (k.result ≡ none)
cancel_wins_example =
    cancel_wins 20 21 (completes 2 none) jobs running_job table-IsValid.ids (there here) refl refl

requested_blocks_example :
    enqueue (λ t. t) (λ t. t) 30 "u5" convert_again (run restart table)
    ≡ (duplicate_dedupe 3, run restart table)
unfolding same_type
requested_blocks_example =
    (requested_blocks restart table stopping_job convert_again table-IsValid (there (there here))
      refl refl refl (λ t. t) (λ t. t) 30 "u5").1

abbrev all_jobs : Filter
all_jobs = record { type_ = none; status = none; dataset_id = none; since = none }

abbrev two_newest : List Job
two_newest = list_jobs (λ p. none) all_jobs 2 table

list_jobs_lem_example :
    IsDescending two_newest
    × (length two_newest ≤ 2)
    × ((j : Job) → In j two_newest → In j table.rows × (listed (λ p. none) all_jobs j ≡ true))
    × ((j : Job)
        → In j table.rows
        → listed (λ p. none) all_jobs j ≡ true
        → In j two_newest ⊎ ((length two_newest ≡ 2) × All (λ k. j.id ≤ k.id) two_newest))
list_jobs_lem_example = list_jobs_lem (λ p. none) all_jobs 2 table
