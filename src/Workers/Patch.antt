-- ===== src/Workers/Patch.antt =====
-- What `patch_desired_state` of backend/workers/service.py answers, and does.
use robodata.Prelude.{ℕ, ◌+◌, ◌≤◌, String, false, ◌≡◌, Option, some, find_first, any}
use robodata.Table.{update_where}
use robodata.Workers.{
  WorkerState, running, draining, WorkerTables, Control, Heartbeat, get_worker, set_desired,
  controls_worker, beats_worker,
}
use robodata.Workers.Service.{
  PatchReply, patched, refused, worker_not_found, worker_stale, illegal_transition, has_note,
  job_in_flight,
}
use robodata.Workers.Legal.{Legal}

abbrev pub alone : WorkerTables → WorkerTables
alone t = t

module _ (now : ℕ) (w : String) (to : WorkerState) (note updated_by : Option String)
    (t : WorkerTables) where
  -- The worker has sent a heartbeat within the last 30 seconds.
  abbrev pub IsFresh : Type 0
  IsFresh =
      (h : Heartbeat) × (find_first (beats_worker w) t.heartbeats ≡ some h)
      × (now ≤ h.last_beat_at + 30)

  -- The change is legal, and a worker that drains goes on only with no job in its hands.
  abbrev pub MayMove : Control → Type 0
  MayMove c =
      Legal c.desired_state to (has_note note)
      × (c.desired_state ≡ draining
          → to ≡ running
          → job_in_flight (find_first (beats_worker w) t.heartbeats) ≡ false)

  abbrev pub PatchSpec : PatchReply × WorkerTables → Type 0
  PatchSpec (refused worker_not_found, t') = (t' ≡ t) × (any (controls_worker w) t.controls ≡ false)
  PatchSpec (refused worker_stale, t') = (t' ≡ t) × ¬ IsFresh
  PatchSpec (refused (illegal_transition f s), t') =
      (c : Control) × (find_first (controls_worker w) t.controls ≡ some c)
      × (t' ≡ t)
      × (c.desired_state ≡ f)
      × (s ≡ to)
      × ¬ MayMove c
  PatchSpec (patched r, t') =
      (c : Control) × (find_first (controls_worker w) t.controls ≡ some c)
      × IsFresh
      × MayMove c
      × (t' ≡ record t {
        controls = update_where (controls_worker w) (set_desired now to updated_by note) t.controls;
      })
      × (r ≡ get_worker w t')
