-- ===== src/Workers/Tick.antt =====
-- One iteration of a worker's loop (`tick` of backend/workers/runtime.py): when it takes a job, and how
-- that job ends.
use robodata.Prelude.{
  ℕ, String, Bool, true, false, ◌≡◌, refl, ◌⊎◌, List, [], ◌∷◌, none, some, arith, Bool-cases, inl,
  inr, find_first, In, In-map, Apart,
}
use robodata.Table.{updated}
use robodata.Jobs.{JobType, Status, Job, same_type, any_type, is_terminal, in_flight}
use robodata.Jobs.Lifecycle.{
  Claimed, claim_next, claimable, held, finish, finish_with, finish_failed, finish_cancelled,
  complete, fail, cancel_normally,
}
use robodata.Jobs.History.{same_id}
use robodata.Jobs.Claim.{ClaimSpec, claim_next_lem}
use robodata.Workers.{WorkerState, controls_worker, upsert_heartbeat}
use robodata.Workers.Runtime.{
  Database, Handler, Outcome, raised, cancelled_normally, returned, returned_none, handler_types,
  handler_for, report, tick, finish_job, conversion_handlers_disabled, wants_running, beat_workers,
}

-- What the outcome of its handler makes of a job that still runs.
abbrev pub verdict : Outcome → Status
verdict (raised e) = Status.failed
verdict (cancelled_normally c) = Status.cancelled
verdict (returned r) = Status.complete
verdict returned_none = Status.complete

-- The row that the report leaves.
abbrev reported : ℕ → ℕ → Outcome → Job → Job
reported now i (raised e) k = updated (held i) (finish_failed now e) k
reported now i (cancelled_normally c) k = updated (held i) (finish_cancelled now c) k
reported now i (returned r) k = updated (held i) (finish_with now r) k
reported now i returned_none k = updated (held i) (finish now) k

report-In :
    (now i : ℕ) (o : Outcome) (jobs : List Job) (k : Job)
    → In k jobs
    → In (reported now i o k) (report now i o jobs)
unfolding report complete fail cancel_normally
report-In now i (raised e) jobs k m = In-map _ jobs m
report-In now i (cancelled_normally c) jobs k m = In-map _ jobs m
report-In now i (returned r) jobs k m = In-map _ jobs m
report-In now i returned_none jobs k m = In-map _ jobs m

-- The end of a job in flight, whatever its handler did.
abbrev pub Ended : ℕ → Outcome → Status → Job → Type 0
Ended i o before k =
    (k.id ≡ i)
    × (is_terminal k.status ≡ true)
    × (before ≡ Status.cancel_requested → k.status ≡ Status.cancelled)
    × (before ≡ Status.running → k.status ≡ verdict o)

reported-Ended :
    (now i : ℕ) (o : Outcome) (k : Job)
    → k.id ≡ i
    → in_flight k.status ≡ true
    → Ended i o k.status (reported now i o k)
reported-Ended now i (raised e) k q h =
    (ground arith, ground arith, λ c. ground arith, λ r. ground arith)
reported-Ended now i (cancelled_normally c) k q h =
    (ground arith, ground arith, λ c. ground arith, λ r. ground arith)
reported-Ended now i (returned x) k q h =
    (ground arith, ground arith, λ c. ground arith, λ r. ground arith)
reported-Ended now i returned_none k q h =
    (ground arith, ground arith, λ c. ground arith, λ r. ground arith)

any_type-handler :
    (t : JobType) (hs : List Handler)
    → any_type (handler_types hs) t ≡ true
    → (h : Handler) × (handler_for t hs ≡ some h)
unfolding any_type same_type
any_type-handler t [] e = cc
any_type-handler t (h ∷ hs) e = elim (Bool-cases (same_type t h.job_type)) [
  | inl s ↦ (h, ground arith)
  | inr s ↦ let (k, f) = any_type-handler t hs (ground arith) in (k, ground arith)
]

-- A worker whose desired state is not running (or that has no control row), or whose conversion handlers
-- are switched off by configuration, leaves the jobs table as it is.
pub tick_rests :
    (locked : Job → Bool) (now : ℕ) (enabled : Bool) (w : String) (hs : List Handler)
    (db : Database)
    → (conversion_handlers_disabled enabled hs ≡ true)
      ⊎ (wants_running (find_first (controls_worker w) db.workers.controls) ≡ false)
    → (tick locked now enabled w hs db).jobs ≡ db.jobs
unfolding tick upsert_heartbeat
tick_rests locked now enabled w [] db h = refl
tick_rests locked now enabled w (x ∷ hs) db (inl off) = rw off refl
tick_rests locked now enabled w (x ∷ hs) db (inr rests) =
    elim (Bool-cases (conversion_handlers_disabled enabled (x ∷ hs))) [
      | inl off ↦ rw off refl
      | inr on ↦ rw (on, rests) refl
    ]

-- The database as the handler of a claimed job finds it.
abbrev pub at_dispatch : ℕ → String → Claimed → List Job → Database → Database
at_dispatch now w c jobs db =
    let awake = beat_workers now w WorkerState.running none none db in
    beat_workers now w WorkerState.running (some c.id) none
      (record { jobs = jobs; workers = awake.workers })

claimable-any_type :
    (locked : Job → Bool) (types : List JobType) (j : Job)
    → claimable locked types j ≡ true
    → any_type types j.type_ ≡ true
claimable-any_type locked types j h = ground arith

ClaimSpec-any_type :
    (locked : Job → Bool) (now : ℕ) (w : String) (types : List JobType) (before after : List Job)
    (c : Claimed)
    → ClaimSpec locked now w types before (some c, after)
    → any_type types c.type_ ≡ true
ClaimSpec-any_type locked now w types before after c (j, m, q, t, l, r) =
    rw q (claimable-any_type locked types j t)

-- A job that the worker claims has a type that one of its handlers handles, so that `tick` finds it.
pub claimed-handler :
    (locked : Job → Bool) (now : ℕ) (w : String) (hs : List Handler) (before after : List Job)
    (c : Claimed)
    → Apart same_id before
    → claim_next locked now w (handler_types hs) before ≡ (some c, after)
    → (h : Handler) × (handler_for c.type_ hs ≡ some h)
claimed-handler locked now w hs before after c ids claims = any_type-handler c.type_ hs (
    ClaimSpec-any_type locked now w (handler_types hs) before after c
      (rw claims at (claim_next_lem locked now w (handler_types hs) before ids)))

tick-finish :
    (locked : Job → Bool) (now : ℕ) (enabled : Bool) (w : String) (hs : List Handler)
    (db : Database) (c : Claimed) (jobs : List Job) (h : Handler)
    → conversion_handlers_disabled enabled hs ≡ false
    → wants_running (find_first (controls_worker w) db.workers.controls) ≡ true
    → claim_next locked now w (handler_types hs) db.jobs ≡ (some c, jobs)
    → handler_for c.type_ hs ≡ some h
    → tick locked now enabled w hs db
      ≡ finish_job now w c.id (h.handle c (at_dispatch now w c jobs db))
unfolding tick upsert_heartbeat
tick-finish locked now enabled w [] db c jobs h on wanted claims handles = cc
tick-finish locked now enabled w (x ∷ hs) db c jobs h on wanted claims handles =
    rw (on, wanted, claims, handles) refl

-- The job that `tick` takes ends in the same iteration, if its handler leaves its row in flight: as
-- cancelled if it was asked to stop by then, and otherwise as the handler's outcome says.
pub tick-Ended :
    (locked : Job → Bool) (now : ℕ) (enabled : Bool) (w : String) (hs : List Handler)
    (db : Database) (c : Claimed) (jobs : List Job) (h : Handler) (k : Job)
    → conversion_handlers_disabled enabled hs ≡ false
    → wants_running (find_first (controls_worker w) db.workers.controls) ≡ true
    → claim_next locked now w (handler_types hs) db.jobs ≡ (some c, jobs)
    → handler_for c.type_ hs ≡ some h
    → In k (h.handle c (at_dispatch now w c jobs db)).1.jobs
    → k.id ≡ c.id
    → in_flight k.status ≡ true
    → (k' : Job) × In k' (tick locked now enabled w hs db).jobs
      × Ended c.id (h.handle c (at_dispatch now w c jobs db)).0 k.status k'
tick-Ended locked now enabled w hs db c jobs h k on wanted claims handles m e f =
    let o = (h.handle c (at_dispatch now w c jobs db)).0 in
    let d = (h.handle c (at_dispatch now w c jobs db)).1 in
    (
      reported now c.id o k,
      rw (tick-finish locked now enabled w hs db c jobs h on wanted claims handles)
          (report-In now c.id o d.jobs k m),
      reported-Ended now c.id o k e f,
    )
