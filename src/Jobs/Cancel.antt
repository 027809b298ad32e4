-- ===== src/Jobs/Cancel.antt =====
-- Cancellation in backend/jobs/lifecycle.py: what `request_cancel` answers, that a request outlasts the
-- report of the worker, and what becomes of a request that no worker reports on.
use robodata.Prelude.{
  ℕ, Bool, true, false, ◌&&◌, ◌≡◌, refl, ap, ◌∙◌, List, some, arith, In, Apart, Apart-same, In-any,
  map-eq_of_In, any, any-of_All, All-of_In, Bool-cases, inl, inr, map-eq_self, find_first,
  find_first-of_any, find_first-In, find_first-test,
}
use robodata.Table.{updated, update_where}
use robodata.Jobs.{Status, Job, has_id, is_queued, is_running}
use robodata.Jobs.Lifecycle.{
  CancelReply, cancel_row, already_terminal, other_reply, waiting, executing, cancel_queued,
  cancel_running, request_cancel,
}
use robodata.Jobs.History.{same_id, same_id_comm}

-- What becomes of the row, column by column, and the answer, by the row's status before.
abbrev pub cancel_at : ℕ → Status → Job → Job
cancel_at now Status.queued j = record j {
  status = Status.cancelled;
  cancel_requested_at = some now;
  finished_at = some now;
  updated_at = now;
}
cancel_at now Status.running j = record j {
  status = Status.cancel_requested;
  cancel_requested_at = some now;
  updated_at = now;
}
cancel_at now _ j = j

abbrev pub after_cancel : ℕ → Job → Job
after_cancel now j = cancel_at now j.status j

abbrev pub cancel_answer : ℕ → Status → CancelReply
cancel_answer i Status.queued = cancel_row i Status.cancelled
cancel_answer i Status.running = cancel_row i Status.cancel_requested
cancel_answer i Status.cancel_requested = cancel_row i Status.cancel_requested
cancel_answer i s = already_terminal s

abbrev pub alone : List Job → List Job
alone jobs = jobs

module _ (now : ℕ) (jobs : List Job) (ids : Apart same_id jobs) where
  module _ (j : Job) (m : In j jobs) where
    one_row : (x : Job) → In x jobs → has_id j.id x ≡ true → x ≡ j
    one_row x n e = Apart-same same_id same_id_comm jobs ids n m (ground arith)

    none_selected :
        (q : Status → Bool)
        → q j.status ≡ false
        → any (λ x. has_id j.id x && q x.status) jobs ≡ false
    none_selected q h = any-of_All _ jobs (
        All-of_In _ jobs (λ x n. elim (Bool-cases (has_id j.id x)) [
          | inl e ↦ rw (one_row x n e, h) (ground arith)
          | inr e ↦ rw e refl
        ]))

    one_selected :
        (q : Status → Bool) → q j.status ≡ true → any (λ x. has_id j.id x && q x.status) jobs ≡ true
    one_selected q h = In-any _ jobs m (ground arith)

    same_update :
        (p : Job → Bool) (f g : Job → Job)
        → updated p f j ≡ g j
        → ((x : Job) → has_id j.id x ≡ false → p x ≡ false)
        → update_where p f jobs ≡ update_where (has_id j.id) g jobs
    same_update p f g h others = map-eq_of_In _ _ jobs (λ x n. elim (Bool-cases (has_id j.id x)) [
      | inl e ↦ rw (one_row x n e) (ground (arith, h))
      | inr e ↦ rw (e, others x e) refl
    ])

    untouched : (g : Job → Job) → g j ≡ j → update_where (has_id j.id) g jobs ≡ jobs
    untouched g h = map-eq_self _ jobs (λ x n. elim (Bool-cases (has_id j.id x)) [
      | inl e ↦ rw (one_row x n e) (ground (arith, h))
      | inr e ↦ rw e refl
    ])

    find_row : find_first (has_id j.id) jobs ≡ some j
    find_row =
        let (x, f) = find_first-of_any (has_id j.id) jobs (In-any _ jobs m (ground arith)) in
        f ∙ ap some (one_row x (find_first-In _ jobs f) (find_first-test _ jobs f))

    quiet :
        is_queued j.status ≡ false
        → is_running j.status ≡ false
        → request_cancel alone alone now j.id jobs ≡ (other_reply j.id (some j.status), jobs)
    unfolding request_cancel
    quiet h k = rw (none_selected is_queued h, none_selected is_running k, find_row) refl

    unchanged :
        (s : Status)
        → j.status ≡ s
        → is_queued s ≡ false
        → is_running s ≡ false
        → other_reply j.id (some s) ≡ cancel_answer j.id s
        → request_cancel alone alone now j.id jobs
          ≡ (cancel_answer j.id s, update_where (has_id j.id) (after_cancel now) jobs)
    unchanged s e h k r =
        let kept = untouched (after_cancel now) (ground arith) in
        rw kept
          (quiet (ground arith) (ground arith) ∙ cc (ap (λ u. other_reply j.id (some u)) e, r))

    request_cancel_at :
        (s : Status)
        → j.status ≡ s
        → request_cancel alone alone now j.id jobs
          ≡ (cancel_answer j.id s, update_where (has_id j.id) (after_cancel now) jobs)
    unfolding request_cancel
    request_cancel_at Status.queued e = rw (one_selected is_queued (ground arith)) (
        ap (λ u. (cancel_row j.id Status.cancelled, u))
          (same_update (waiting j.id) (cancel_queued now) (after_cancel now) (ground arith)
            (λ x h. ground arith)))
    request_cancel_at Status.running e =
        rw (none_selected is_queued (ground arith), one_selected is_running (ground arith))
          (ap (λ u. (cancel_row j.id Status.cancel_requested, u))
            (same_update (executing j.id) (cancel_running now) (after_cancel now) (ground arith)
              (λ x h. ground arith)))
    request_cancel_at Status.cancel_requested e = unchanged Status.cancel_requested e refl refl refl
    request_cancel_at Status.complete e = unchanged Status.complete e refl refl refl
    request_cancel_at Status.failed e = unchanged Status.failed e refl refl refl
    request_cancel_at Status.cancelled e = unchanged Status.cancelled e refl refl refl

  -- Without other sessions in between, in a table with one row for each number: the row with the number
  -- becomes cancelled, with its end set, if it waits; cancel_requested, with no end, if it runs; and is
  -- left alone otherwise. The answer has the row's new status, or the old one as an error if the job has
  -- ended. No other row changes.
  pub request_cancel_lem :
      (j : Job)
      → In j jobs
      → request_cancel alone alone now j.id jobs
        ≡ (cancel_answer j.id j.status, update_where (has_id j.id) (after_cancel now) jobs)
  request_cancel_lem j m = request_cancel_at j m j.status refl
