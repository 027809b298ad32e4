-- ===== src/Jobs/History.antt =====
-- The jobs table under any interleaving of the sessions that use it: every statement that
-- backend/jobs/lifecycle.py and backend/jobs/repo.py send is one atomic step.
use robodata.Prelude.{
  ℕ, String, Bool, ◌≡◌, refl, List, Option, none, some, arith, ◌==◌, In, In-keep, Apart, Apart-same,
  keep,
}
use robodata.Json.{Json}
use robodata.Table.{Rows, Rows-refl, first_by, first_by-In}
use robodata.Jobs.{JobType, Job, has_id}
use robodata.Jobs.Lifecycle.{
  claim_next, requeue_abandoned, heartbeat, update_progress, cancel_if_queued, cancel_if_running,
  complete, fail, cancel_normally, take_row, claimable, start,
}
use robodata.Jobs.Moves.{
  Moves, Moves-refl, Rows-updated, start-Moves, requeue-Moves, beat-Moves, set_progress-Moves,
  cancel_queued-Moves, cancel_running-Moves, finish-Moves, finish_with-Moves, finish_failed-Moves,
  finish_cancelled-Moves,
}

pub data Statement : Type 0 where
  claims : (Job → Bool) → String → List JobType → Statement
  requeues : String → List JobType → Statement
  beats : ℕ → Statement
  progresses : ℕ → Json → Statement
  cancels_queued : ℕ → Statement
  cancels_running : ℕ → Statement
  completes : ℕ → Option Json → Statement
  fails : ℕ → String → Statement
  cancels_normally : ℕ → String → Statement

-- The statements that change rows and add none.
unfoldable pub update : ℕ → Statement → List Job → List Job
update now (claims locked worker types) jobs = (claim_next locked now worker types jobs).1
update now (requeues worker types) jobs = (requeue_abandoned now worker types jobs).1
update now (beats i) jobs = heartbeat now i jobs
update now (progresses i v) jobs = update_progress now i v jobs
update now (cancels_queued i) jobs = cancel_if_queued now i jobs
update now (cancels_running i) jobs = cancel_if_running now i jobs
update now (completes i r) jobs = complete now i r jobs
update now (fails i e) jobs = fail now i e jobs
update now (cancels_normally i c) jobs = cancel_normally now i c jobs

abbrev pub same_id : Job → Job → Bool
same_id a b = a.id == b.id

pub same_id_comm : (a b : Job) → same_id a b ≡ same_id b a
same_id_comm a b = ground arith

-- The row that is claimed is one of the table, and waits; by the primary key it is the one updated.
take_row-Rows :
    (locked : Job → Bool) (now : ℕ) (worker : String) (types : List JobType) (jobs : List Job)
    (found : Option Job)
    → Apart same_id jobs
    → ((j : Job) → found ≡ some j → In j (keep (claimable locked types) jobs))
    → Rows Moves jobs (take_row now worker jobs found).1
take_row-Rows locked now worker types jobs none ids from = Rows-refl Moves Moves-refl jobs
take_row-Rows locked now worker types jobs (some row) ids from =
    let (m, t) = In-keep (claimable locked types) jobs (from row refl) in
    Rows-updated (has_id row.id) (start now worker) jobs (λ j n e.
      let q : row ≡ j = Apart-same same_id same_id_comm jobs ids m n (ground arith) in
      start-Moves now j worker (rw (← q) (ground arith)))

-- Every statement moves the rows of the table along edges of the lifecycle.
pub update-Rows :
    (now : ℕ) (s : Statement) (jobs : List Job)
    → Apart same_id jobs
    → Rows Moves jobs (update now s jobs)
unfolding update claim_next requeue_abandoned heartbeat update_progress cancel_if_queued
    cancel_if_running complete fail cancel_normally
update-Rows now (claims locked worker types) jobs ids =
    take_row-Rows locked now worker types jobs
      (first_by (λ j. j.created_at) (keep (claimable locked types) jobs)) ids
      (λ j e. first_by-In (λ k. k.created_at) (keep (claimable locked types) jobs) e)
update-Rows now (requeues worker types) jobs ids =
    Rows-updated _ _ jobs (λ j m e. requeue-Moves now j (ground arith))
update-Rows now (beats i) jobs ids = Rows-updated _ _ jobs (λ j m e. beat-Moves now j)
update-Rows now (progresses i v) jobs ids =
    Rows-updated _ _ jobs (λ j m e. set_progress-Moves now j v (ground arith))
update-Rows now (cancels_queued i) jobs ids =
    Rows-updated _ _ jobs (λ j m e. cancel_queued-Moves now j (ground arith))
update-Rows now (cancels_running i) jobs ids =
    Rows-updated _ _ jobs (λ j m e. cancel_running-Moves now j (ground arith))
update-Rows now (completes i none) jobs ids =
    Rows-updated _ _ jobs (λ j m e. finish-Moves now j (ground arith))
update-Rows now (completes i (some r)) jobs ids =
    Rows-updated _ _ jobs (λ j m e. finish_with-Moves now j r (ground arith))
update-Rows now (fails i x) jobs ids =
    Rows-updated _ _ jobs (λ j m e. finish_failed-Moves now j x (ground arith))
update-Rows now (cancels_normally i c) jobs ids =
    Rows-updated _ _ jobs (λ j m e. finish_cancelled-Moves now j c (ground arith))
