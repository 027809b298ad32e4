-- ===== src/Jobs/Requested.antt =====
-- A job whose cancellation was requested while it ran: how it ends when its worker reports, and that it
-- stays so when no worker does (backend/jobs/lifecycle.py).
use robodata.Prelude.{
  ℕ, String, Bool, true, false, not, ◌≡◌, refl, List, [], ◌∷◌, Option, none, some, arith, In, Apart,
  Apart-same, In-keep, In-map, keep, all, Bool-cases, inl, inr, ◌==◌, In-append_left,
}
use robodata.Table.{updated, update_where, first_by, first_by-In}
use robodata.Jobs.{JobType, Status, Job, has_id, is_active}
use robodata.Jobs.Lifecycle.{
  held, abandoned, requeue, beat, set_progress, waiting, executing, cancel_queued, cancel_running,
  finish, finish_with, finish_failed, finish_cancelled, request_cancel, complete, fail,
  cancel_normally, claim_next, claimable, start, take_row, requeue_abandoned, heartbeat,
  update_progress, cancel_if_queued, cancel_if_running,
}
use robodata.Jobs.Repo.{
  JobsTable, Request, duplicate_dedupe, active_with, enqueue, new_row, violates,
}
use robodata.Jobs.History.{
  Statement, claims, requeues, beats, progresses, cancels_queued, cancels_running, completes, fails,
  cancels_normally, update, same_id, same_id_comm,
}
use robodata.Jobs.Index.{IsValid}
use robodata.Jobs.Later.{Event, updates, inserts, exec, run, run-Later, exec-Later, active_refuses}
use robodata.Jobs.Cancel.{alone, after_cancel, request_cancel_lem}

-- The statements by which a worker reports that job i has ended.
abbrev pub ends : ℕ → Statement → Bool
ends i (completes k r) = k == i
ends i (fails k e) = k == i
ends i (cancels_normally k c) = k == i
ends i _ = false

-- Once a running job was asked to stop, every report of its worker, also of success or of a failure, makes
-- it cancelled and stores no result.
pub cancel_wins :
    (now later : ℕ) (s : Statement) (jobs : List Job) (j : Job)
    → Apart same_id jobs
    → In j jobs
    → j.status ≡ Status.running
    → ends j.id s ≡ true
    → (k : Job) × In k (update later s (request_cancel alone alone now j.id jobs).1)
      × (k.id ≡ j.id)
      × (k.status ≡ Status.cancelled)
      × (k.result ≡ j.result)
unfolding update complete fail cancel_normally
cancel_wins now later s jobs j ids m e h = rw (request_cancel_lem now jobs ids j m) (by_report s h)
  where
    asked : Job
    asked = updated (has_id j.id) (after_cancel now) j

    there' : In asked (update_where (has_id j.id) (after_cancel now) jobs)
    there' = In-map (updated (has_id j.id) (after_cancel now)) jobs m

    by_report :
        (s : Statement)
        → ends j.id s ≡ true
        → (k : Job) × In k (update later s (update_where (has_id j.id) (after_cancel now) jobs))
          × (k.id ≡ j.id)
          × (k.status ≡ Status.cancelled)
          × (k.result ≡ j.result)
    by_report (completes i none) h = (
      updated (held i) (finish later) asked,
      In-map _ _ there',
      ground arith,
      ground arith,
      ground arith,
    )
    by_report (completes i (some r)) h = (
      updated (held i) (finish_with later r) asked,
      In-map _ _ there',
      ground arith,
      ground arith,
      ground arith,
    )
    by_report (fails i x) h = (
      updated (held i) (finish_failed later x) asked,
      In-map _ _ there',
      ground arith,
      ground arith,
      ground arith,
    )
    by_report (cancels_normally i c) h = (
      updated (held i) (finish_cancelled later c) asked,
      In-map _ _ there',
      ground arith,
      ground arith,
      ground arith,
    )
    by_report _ h = cc

-- The row of the number i waits for its worker to obey.
abbrev pub Pending : ℕ → List Job → Type 0
Pending i jobs = (k : Job) × In k jobs × (k.id ≡ i) × (k.status ≡ Status.cancel_requested)

Pending-update_where :
    (i : ℕ) (p : Job → Bool) (f : Job → Job) (jobs : List Job)
    → ((j : Job)
        → In j jobs
        → j.id ≡ i
        → j.status ≡ Status.cancel_requested
        → (p j ≡ true)
        → ((f j).id ≡ i) × ((f j).status ≡ Status.cancel_requested))
    → Pending i jobs
    → Pending i (update_where p f jobs)
Pending-update_where i p f jobs h (k, m, e, s) = elim (Bool-cases (p k)) [
  | inl t ↦ let (a, b) = h k m e s t in (updated p f k, In-map (updated p f) jobs m, rw t a, rw t b)
  | inr t ↦ (updated p f k, In-map (updated p f) jobs m, rw t e, rw t s)
]

Pending-take_row :
    (i : ℕ) (locked : Job → Bool) (now : ℕ) (worker : String) (types : List JobType)
    (jobs : List Job) (found : Option Job)
    → Apart same_id jobs
    → ((j : Job) → found ≡ some j → In j (keep (claimable locked types) jobs))
    → Pending i jobs
    → Pending i (take_row now worker jobs found).1
Pending-take_row i locked now worker types jobs none ids from p = p
Pending-take_row i locked now worker types jobs (some row) ids from p =
    let (m, t) = In-keep (claimable locked types) jobs (from row refl) in
    Pending-update_where i (has_id row.id) (start now worker) jobs
      (λ j n e s h.
        let q : row ≡ j = Apart-same same_id same_id_comm jobs ids m n (ground arith) in
        let c : claimable locked types j ≡ true = rw (← q) t in absurd (ground arith))
      p

Pending-update :
    (i now : ℕ) (s : Statement) (jobs : List Job)
    → Apart same_id jobs
    → ends i s ≡ false
    → Pending i jobs
    → Pending i (update now s jobs)
unfolding update claim_next requeue_abandoned heartbeat update_progress cancel_if_queued
    cancel_if_running complete fail cancel_normally
Pending-update i now (claims locked worker types) jobs ids h p =
    Pending-take_row i locked now worker types jobs
      (first_by (λ j. j.created_at) (keep (claimable locked types) jobs)) ids
      (λ j e. first_by-In (λ k. k.created_at) (keep (claimable locked types) jobs) e) p
Pending-update i now (requeues worker types) jobs ids h p =
    Pending-update_where i (abandoned worker types) (requeue now) jobs
      (λ j m e s t. absurd (ground arith)) p
Pending-update i now (beats k) jobs ids h p =
    Pending-update_where i (has_id k) (beat now) jobs (λ j m e s t. (e, s)) p
Pending-update i now (progresses k v) jobs ids h p =
    Pending-update_where i (held k) (set_progress now v) jobs (λ j m e s t. (e, s)) p
Pending-update i now (cancels_queued k) jobs ids h p =
    Pending-update_where i (waiting k) (cancel_queued now) jobs (λ j m e s t. absurd (ground arith))
      p
Pending-update i now (cancels_running k) jobs ids h p =
    Pending-update_where i (executing k) (cancel_running now) jobs
      (λ j m e s t. absurd (ground arith)) p
Pending-update i now (completes k none) jobs ids h p =
    Pending-update_where i (held k) (finish now) jobs (λ j m e s t. absurd (ground arith)) p
Pending-update i now (completes k (some r)) jobs ids h p =
    Pending-update_where i (held k) (finish_with now r) jobs (λ j m e s t. absurd (ground arith)) p
Pending-update i now (fails k x) jobs ids h p =
    Pending-update_where i (held k) (finish_failed now x) jobs (λ j m e s t. absurd (ground arith))
      p
Pending-update i now (cancels_normally k c) jobs ids h p =
    Pending-update_where i (held k) (finish_cancelled now c) jobs
      (λ j m e s t. absurd (ground arith)) p

-- An event that is no worker's report on job i.
abbrev pub spares : ℕ → ℕ × Event → Bool
spares i (now, updates s) = not (ends i s)
spares i (now, inserts external_id req) = true

Pending-exec :
    (i now : ℕ) (e : Event) (t : JobsTable)
    → IsValid t
    → spares i (now, e) ≡ true
    → Pending i t.rows
    → Pending i (exec now e t).rows
unfolding exec
Pending-exec i now (updates s) t v h p = Pending-update i now s t.rows v.ids (ground arith) p
Pending-exec i now (inserts external_id req) t v h (k, m, e, s) =
    elim (Bool-cases (violates t.rows (new_row now t.next_id external_id req))) [
      | inl x ↦ rw x (k, m, e, s)
      | inr x ↦ rw x (k, In-append_left t.rows _ m, e, s)
    ]

pub Pending-run :
    (i : ℕ) (es : List (ℕ × Event)) (t : JobsTable)
    → IsValid t
    → all (spares i) es ≡ true
    → Pending i t.rows
    → Pending i (run es t).rows
unfolding run
Pending-run i [] t v h p = p
Pending-run i ((now, e) ∷ es) t v h p =
    Pending-run i es (exec now e t) (exec-Later now e t v).1 (ground arith)
      (Pending-exec i now e t v (ground arith) p)

-- A job whose cancellation was requested, and on which no worker reports: whatever else happens, restarts of
-- its worker (`requeue_abandoned`) and claims included, it stays so, and every request with its type and
-- dedupe key is refused under its number.
pub requested_blocks :
    (es : List (ℕ × Event)) (t : JobsTable) (j : Job) (req : Request)
    → IsValid t
    → In j t.rows
    → j.status ≡ Status.cancel_requested
    → all (spares j.id) es ≡ true
    → active_with req.type_ req.dedupe_key j ≡ true
    → (between after : JobsTable → JobsTable) (now : ℕ) (external_id : String)
    → Pending j.id (run es t).rows
      × (enqueue between after now external_id req (run es t) ≡ (duplicate_dedupe j.id, run es t))
requested_blocks es t j req v m e spared slot between after now external_id =
    let p = Pending-run j.id es t v spared (j, m, refl, e) in
    (p, active_refuses es t j req v m (active p) slot between after now external_id)
  where
    active :
        Pending j.id (run es t).rows
        → (k : Job) → In k (run es t).rows
        → j.id ≡ k.id
        → is_active k.status ≡ true
    active (i, n, d, s) k o h =
        let q : i ≡ k =
          Apart-same same_id same_id_comm (run es t).rows (run-Later es t v).1.ids n o
            (ground arith) in
        rw (← q) (ground arith)
