-- ===== src/Jobs/Moves.antt =====
-- What an UPDATE of backend/jobs/lifecycle.py may do to a row: its status moves along an edge of the
-- lifecycle (CONTEXT.md), what names the job stays, and a finished job keeps its outcome.
use robodata.Prelude.{ℕ, String, Bool, true, ◌≡◌, refl, List, In, arith, Bool-cases, inl, inr}
use robodata.Json.{Json}
use robodata.Table.{updated, update_where, Rows, Rows-update_where}
use robodata.Jobs.{Status, Job, is_terminal, is_queued, is_running, in_flight}
use robodata.Jobs.Lifecycle.{
  start, requeue, beat, set_progress, cancel_queued, cancel_running, end_status, finish,
  finish_with, finish_failed, finish_cancelled,
}

-- One edge of the lifecycle, or none.
pub data Edge : Status → Status → Type 0 where
  stay : {s : Status} → Edge s s
  claim : Edge Status.queued Status.running
  cancel_waiting : Edge Status.queued Status.cancelled
  give_back : Edge Status.running Status.queued
  ask_cancel : Edge Status.running Status.cancel_requested
  succeed : Edge Status.running Status.complete
  break_off : Edge Status.running Status.failed
  give_up : Edge Status.running Status.cancelled
  obey : Edge Status.cancel_requested Status.cancelled

-- What names a job and what it was asked to do.
pub record SameJob (j k : Job) : Type 0 where
  pub id : j.id ≡ k.id
  pub external_id : j.external_id ≡ k.external_id
  pub type_ : j.type_ ≡ k.type_
  pub payload : j.payload ≡ k.payload
  pub dedupe_key : j.dedupe_key ≡ k.dedupe_key
  pub created_at : j.created_at ≡ k.created_at

-- What a finished job ended with.
pub record SameOutcome (j k : Job) : Type 0 where
  pub status : j.status ≡ k.status
  pub progress : j.progress ≡ k.progress
  pub result : j.result ≡ k.result
  pub error : j.error ≡ k.error
  pub finished_at : j.finished_at ≡ k.finished_at

pub record Moves (j k : Job) : Type 0 where
  pub same : SameJob j k
  pub edge : Edge j.status k.status
  pub final : is_terminal j.status ≡ true → SameOutcome j k

SameJob-refl : (j : Job) → SameJob j j
SameJob-refl j = record {
  id = refl;
  external_id = refl;
  type_ = refl;
  payload = refl;
  dedupe_key = refl;
  created_at = refl;
}

SameOutcome-refl : (j : Job) → SameOutcome j j
SameOutcome-refl j = record {
  status = refl;
  progress = refl;
  result = refl;
  error = refl;
  finished_at = refl;
}

pub Moves-refl : (j : Job) → Moves j j
Moves-refl j = record { same = SameJob-refl j; edge = stay; final = λ t. SameOutcome-refl j }

-- An UPDATE moves each row if it moves the rows that its WHERE selects.
pub Moves-updated :
    (p : Job → Bool) (f : Job → Job) (j : Job)
    → (p j ≡ true → Moves j (f j))
    → Moves j (updated p f j)
Moves-updated p f j h = elim (Bool-cases (p j)) [ inl e ↦ rw e (h e) | inr e ↦ rw e (Moves-refl j) ]

Edge-queued : (s t : Status) → is_queued s ≡ true → Edge Status.queued t → Edge s t
Edge-queued Status.queued t h e = e
Edge-queued _ t h e = cc

Edge-running : (s t : Status) → is_running s ≡ true → Edge Status.running t → Edge s t
Edge-running Status.running t h e = e
Edge-running _ t h e = cc

Edge-finish : (s t : Status) → in_flight s ≡ true → Edge Status.running t → Edge s (end_status t s)
Edge-finish Status.running t h e = e
Edge-finish Status.cancel_requested t h e = obey
Edge-finish _ t h e = cc

Edge-cancelled : (s : Status) → in_flight s ≡ true → Edge s Status.cancelled
Edge-cancelled Status.running h = give_up
Edge-cancelled Status.cancel_requested h = obey
Edge-cancelled _ h = cc

pub Rows-updated :
    (p : Job → Bool) (f : Job → Job) (jobs : List Job)
    → ((j : Job) → In j jobs → p j ≡ true → Moves j (f j))
    → Rows Moves jobs (update_where p f jobs)
Rows-updated p f jobs h = Rows-update_where Moves p f jobs (λ j m. Moves-updated p f j (h j m))

-- The rows that each UPDATE selects move along an edge.
module _ (now : ℕ) (j : Job) where
  pub start-Moves : (worker : String) → is_queued j.status ≡ true → Moves j (start now worker j)
  start-Moves worker h = record {
    same = ground arith;
    edge = Edge-queued _ _ h claim;
    final = λ t. absurd (ground arith);
  }

  pub requeue-Moves : is_running j.status ≡ true → Moves j (requeue now j)
  requeue-Moves h = record {
    same = ground arith;
    edge = Edge-running _ _ h give_back;
    final = λ t. absurd (ground arith);
  }

  pub beat-Moves : Moves j (beat now j)
  beat-Moves = record { same = ground arith; edge = stay; final = λ t. ground arith }

  pub set_progress-Moves : (v : Json) → in_flight j.status ≡ true → Moves j (set_progress now v j)
  set_progress-Moves v h = record {
    same = ground arith;
    edge = stay;
    final = λ t. absurd (ground arith);
  }

  pub cancel_queued-Moves : is_queued j.status ≡ true → Moves j (cancel_queued now j)
  cancel_queued-Moves h = record {
    same = ground arith;
    edge = Edge-queued _ _ h cancel_waiting;
    final = λ t. absurd (ground arith);
  }

  pub cancel_running-Moves : is_running j.status ≡ true → Moves j (cancel_running now j)
  cancel_running-Moves h = record {
    same = ground arith;
    edge = Edge-running _ _ h ask_cancel;
    final = λ t. absurd (ground arith);
  }

  pub finish-Moves : in_flight j.status ≡ true → Moves j (finish now j)
  finish-Moves h = record {
    same = ground arith;
    edge = Edge-finish _ _ h succeed;
    final = λ t. absurd (ground arith);
  }

  pub finish_with-Moves : (r : Json) → in_flight j.status ≡ true → Moves j (finish_with now r j)
  finish_with-Moves r h = record {
    same = ground arith;
    edge = Edge-finish _ _ h succeed;
    final = λ t. absurd (ground arith);
  }

  pub finish_failed-Moves :
      (e : String) → in_flight j.status ≡ true → Moves j (finish_failed now e j)
  finish_failed-Moves e h = record {
    same = ground arith;
    edge = Edge-finish _ _ h break_off;
    final = λ t. absurd (ground arith);
  }

  pub finish_cancelled-Moves :
      (c : String) → in_flight j.status ≡ true → Moves j (finish_cancelled now c j)
  finish_cancelled-Moves c h = record {
    same = ground arith;
    edge = Edge-cancelled _ h;
    final = λ t. absurd (ground arith);
  }
