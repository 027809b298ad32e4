-- ===== src/Jobs/Enqueue.antt =====
-- What `enqueue` of backend/jobs/repo.py promises, whatever other sessions commit between its statements.
use robodata.Prelude.{
  ℕ, ◌+◌, ◌<◌, String, true, false, ◌≡◌, refl, ap, List, [], ◌∷◌, some, arith, In, Apart-append_one,
  Apart-same, All, All-append, any, Bool-cases, Option-cases, inl, inr, find_first-test,
  find_first-In, find_first-none, find_first-of_any, In-any, In-append_end,
}
use robodata.Jobs.{Status, Job}
use robodata.Jobs.Repo.{
  JobsTable, Request, Enqueued, added, duplicate_dedupe, unique_violation, same_slot, same_external,
  active_with, violates, new_row, insert_row, skip_number, find_active, try_insert, enqueue,
  after_violation,
}
use robodata.Jobs.History.{same_id, same_id_comm}
use robodata.Jobs.Index.{IsValid, same_slot_comm, same_external_comm, same_slot-of_active_with}

All-weaken_id : (m : ℕ) (jobs : List Job) → All (λ j. j.id < m) jobs → All (λ j. j.id < m + 1) jobs
All-weaken_id m [] h = tt
All-weaken_id m (j ∷ jobs) h = (omega arith, All-weaken_id m jobs h.1)

fresh_id :
    (m : ℕ) (j : Job) (jobs : List Job)
    → j.id ≡ m
    → All (λ k. k.id < m) jobs
    → any (same_id j) jobs ≡ false
fresh_id m j [] e h = refl
fresh_id m j (k ∷ jobs) e h = ground (arith, fresh_id m j jobs e h.1)

-- A row that breaks no unique index, with the next number, may be added.
pub insert-IsValid :
    (t : JobsTable) (j : Job)
    → j.id ≡ t.next_id
    → violates t.rows j ≡ false
    → IsValid t
    → IsValid (insert_row t j)
insert-IsValid t j e h v = record {
  ids =
      Apart-append_one same_id same_id_comm j t.rows v.ids (fresh_id t.next_id j t.rows e v.below);
  below =
      All-append (λ k. k.id < t.next_id + 1) (j ∷ []) (omega arith, tt) t.rows
        (All-weaken_id t.next_id t.rows v.below);
  slots = Apart-append_one same_slot same_slot_comm j t.rows v.slots (ground arith);
  externals = Apart-append_one same_external same_external_comm j t.rows v.externals (ground arith);
}

pub skip-IsValid : (t : JobsTable) → IsValid t → IsValid (skip_number t)
skip-IsValid t v = record {
  ids = v.ids;
  below = All-weaken_id t.next_id t.rows v.below;
  slots = v.slots;
  externals = v.externals;
}

-- What a reply of `enqueue` says of the table that it leaves.
abbrev pub Answers : Request → Enqueued × JobsTable → Type 0
Answers req (added j, t) =
    In j t.rows
    × (j.type_ ≡ req.type_)
    × (j.dedupe_key ≡ req.dedupe_key)
    × (j.payload ≡ req.payload)
    × (j.status ≡ Status.queued)
Answers req (duplicate_dedupe i, t) =
    (j : Job) × In j t.rows × (j.id ≡ i) × (active_with req.type_ req.dedupe_key j ≡ true)
Answers req (unique_violation, t) = any (active_with req.type_ req.dedupe_key) t.rows ≡ false

-- Of a valid table the row that the SELECT of `enqueue` finds is determined.
pub find_active-eq :
    (req : Request) (t : JobsTable) (k : Job)
    → IsValid t
    → In k t.rows
    → active_with req.type_ req.dedupe_key k ≡ true
    → find_active req t ≡ some k
find_active-eq req t k v m h =
    let p = active_with req.type_ req.dedupe_key in
    let (r, f) = find_first-of_any p t.rows (In-any p t.rows m h) in
    let c = same_slot-of_active_with req.type_ req.dedupe_key r k (find_first-test p t.rows f) h in
    rw f
      (ap some (Apart-same same_slot same_slot_comm t.rows v.slots (find_first-In p t.rows f) m c))

module _ (req : Request) where
  duplicate-Answers :
      (t : JobsTable) (j : Job)
      → find_active req t ≡ some j
      → Answers req (duplicate_dedupe j.id, t)
  duplicate-Answers t j e = (
    j,
    find_first-In (active_with req.type_ req.dedupe_key) t.rows e,
    refl,
    find_first-test (active_with req.type_ req.dedupe_key) t.rows e,
  )

  violation-Answers : (t : JobsTable) → Answers req (after_violation req t)
  violation-Answers t = elim (Option-cases (find_active req t)) [
    | inl e ↦ rw e (find_first-none (active_with req.type_ req.dedupe_key) t.rows e)
    | inr (j, e) ↦ rw e (duplicate-Answers t j e)
  ]

  violation-IsValid : (t : JobsTable) → IsValid t → IsValid (after_violation req t).1
  violation-IsValid t v = elim (Option-cases (find_active req t)) [
    | inl e ↦ rw e v
    | inr (j, e) ↦ rw e v
  ]

module _ (between after : JobsTable → JobsTable)
    (between_valid : (t : JobsTable) → IsValid t → IsValid (between t))
    (after_valid : (t : JobsTable) → IsValid t → IsValid (after t)) (now : ℕ) (external_id : String)
    (req : Request) where
  try_insert-IsValid :
      (t : JobsTable)
      → IsValid t
      → IsValid (try_insert after now external_id req t).1
        × Answers req (try_insert after now external_id req t)
  unfolding try_insert
  try_insert-IsValid t v =
      elim (Bool-cases (violates t.rows (new_row now t.next_id external_id req))) [
        | inl e ↦ rw e (
          violation-IsValid req (after (skip_number t)) (after_valid _ (skip-IsValid t v)),
          violation-Answers req (after (skip_number t)),
        )
        | inr e ↦ rw e (
          insert-IsValid t (new_row now t.next_id external_id req) refl e v,
          (In-append_end _ t.rows, refl, refl, refl, refl),
        )
      ]

  -- Whatever sessions that keep the table valid do between the statements of `enqueue`, the table
  -- stays valid, and the reply is true of it: the row was added and waits, or an active row with the
  -- same type and dedupe key is there under the number given, or none is and the INSERT was refused.
  pub enqueue_lem :
      (t : JobsTable)
      → IsValid t
      → IsValid (enqueue between after now external_id req t).1
        × Answers req (enqueue between after now external_id req t)
  unfolding enqueue
  enqueue_lem t v = elim (Option-cases (find_active req t)) [
    | inl e ↦ rw e (try_insert-IsValid (between t) (between_valid t v))
    | inr (j, e) ↦ rw e (v, duplicate-Answers req t j e)
  ]
