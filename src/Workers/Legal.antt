-- ===== src/Workers/Legal.antt =====
-- The changes of a worker's desired state that backend/workers/service.py means to allow, as a relation.
use robodata.Prelude.{Bool, true, false, ◌≡◌, refl}
use robodata.Workers.{WorkerState, running, paused, draining, stopped}
use robodata.Workers.Service.{allowed}

-- A worker that is stopped, or starts again after a stop, wants a note.
pub data Legal : WorkerState → WorkerState → Bool → Type 0 where
  keep : {s : WorkerState} {n : Bool} → Legal s s n
  pause : {n : Bool} → Legal running paused n
  drain : {n : Bool} → Legal running draining n
  resume : {n : Bool} → Legal paused running n
  drain_paused : {n : Bool} → Legal paused draining n
  undrain : {n : Bool} → Legal draining running n
  stop_running : Legal running stopped true
  stop_paused : Legal paused stopped true
  stop_draining : Legal draining stopped true
  restart : Legal stopped running true

pub Legal-allowed : (f t : WorkerState) (n : Bool) → allowed f t n ≡ true → Legal f t n
unfolding allowed
Legal-allowed running running n h = keep
Legal-allowed running paused n h = pause
Legal-allowed running draining n h = drain
Legal-allowed running stopped true h = stop_running
Legal-allowed running stopped false h = cc
Legal-allowed paused running n h = resume
Legal-allowed paused paused n h = keep
Legal-allowed paused draining n h = drain_paused
Legal-allowed paused stopped true h = stop_paused
Legal-allowed paused stopped false h = cc
Legal-allowed draining running n h = undrain
Legal-allowed draining paused n h = cc
Legal-allowed draining draining n h = keep
Legal-allowed draining stopped true h = stop_draining
Legal-allowed draining stopped false h = cc
Legal-allowed stopped running true h = restart
Legal-allowed stopped running false h = cc
Legal-allowed stopped paused n h = cc
Legal-allowed stopped draining n h = cc
Legal-allowed stopped stopped n h = keep

allowed-same : (s : WorkerState) (n : Bool) → allowed s s n ≡ true
unfolding allowed
allowed-same running n = refl
allowed-same _ n = refl

pub allowed-Legal : {f t : WorkerState} {n : Bool} → Legal f t n → allowed f t n ≡ true
unfolding allowed
allowed-Legal {f} {t} {n} keep = allowed-same f n
allowed-Legal pause = refl
allowed-Legal drain = refl
allowed-Legal resume = refl
allowed-Legal drain_paused = refl
allowed-Legal undrain = refl
allowed-Legal stop_running = refl
allowed-Legal stop_paused = refl
allowed-Legal stop_draining = refl
allowed-Legal restart = refl
