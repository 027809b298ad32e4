-- ===== src/Jobs/Index.antt =====
-- The unique indexes of the jobs table (docker/db/init.sql, backend/core/db.py): the primary key,
-- idx_jobs_external_id and idx_jobs_active_dedupe, as an invariant of all statements.
use robodata.Prelude.{
  ℕ, ◌<◌, String, true, ◌≡◌, refl, List, Option, none, some, arith, Apart, All, str_eq, eq_iff,
}
use robodata.Table.{Rows, Apart-Rows, All-Rows}
use robodata.Jobs.{JobType, Status, Job, same_type, same_text, is_active}
use robodata.Jobs.Repo.{JobsTable, same_slot, same_external, active_with}
use robodata.Jobs.Moves.{Moves, Edge}
use robodata.Jobs.Moves
use robodata.Jobs.History.{Statement, update, update-Rows, same_id}

pub record IsValid (t : JobsTable) : Type 0 where
  pub ids : Apart same_id t.rows
  pub below : All (λ j. j.id < t.next_id) t.rows
  pub slots : Apart same_slot t.rows
  pub externals : Apart same_external t.rows

-- No edge leads from a finished job back to an active one.
Edge-active : {s t : Status} → Edge s t → is_active t ≡ true → is_active s ≡ true
Edge-active Moves.stay h = h
Edge-active Moves.claim h = refl
Edge-active Moves.cancel_waiting h = refl
Edge-active Moves.give_back h = refl
Edge-active Moves.ask_cancel h = refl
Edge-active Moves.succeed h = refl
Edge-active Moves.break_off h = refl
Edge-active Moves.give_up h = refl
Edge-active Moves.obey h = refl

same_type_comm : (a b : JobType) → same_type a b ≡ same_type b a
unfolding same_type
same_type_comm a b = ground arith

str_eq_comm : (x y : String) → str_eq x y ≡ str_eq y x
str_eq_comm x y = ground (arith, eq_iff x y, eq_iff y x)

same_text_comm : (a b : Option String) → same_text a b ≡ same_text b a
same_text_comm none none = refl
same_text_comm none (some y) = refl
same_text_comm (some x) none = refl
same_text_comm (some x) (some y) = str_eq_comm x y

pub same_slot_comm : (a b : Job) → same_slot a b ≡ same_slot b a
same_slot_comm a b =
    ground (arith, same_type_comm a.type_ b.type_, same_text_comm a.dedupe_key b.dedupe_key)

pub same_external_comm : (a b : Job) → same_external a b ≡ same_external b a
same_external_comm a b = str_eq_comm a.external_id b.external_id

same_type_share :
    (a b t : JobType) → same_type a t ≡ true → same_type b t ≡ true → same_type b a ≡ true
unfolding same_type
same_type_share a b t h k = ground arith

same_text_share :
    (a b c : Option String) → same_text a c ≡ true → same_text b c ≡ true → same_text b a ≡ true
same_text_share none b c h k = cc
same_text_share (some x) none c h k = cc
same_text_share (some x) (some y) none h k = cc
same_text_share (some x) (some y) (some z) h k = ground (arith, eq_iff x z, eq_iff y z, eq_iff y x)

-- Two rows that one request would find take the same slot.
pub same_slot-of_active_with :
    (t : JobType) (key : Option String) (r k : Job)
    → active_with t key r ≡ true
    → active_with t key k ≡ true
    → same_slot r k ≡ true
same_slot-of_active_with t key r k h g =
    ground (arith, same_type_share r.type_ k.type_ t, same_text_share r.dedupe_key k.dedupe_key key)

keeps_id : (x x' y y' : Job) → Moves x x' → Moves y y' → same_id x' y' ≡ true → same_id x y ≡ true
keeps_id x x' y y' m n h = ground (arith, m.same.id, n.same.id)

keeps_external :
    (x x' y y' : Job)
    → Moves x x'
    → Moves y y'
    → same_external x' y' ≡ true
    → same_external x y ≡ true
keeps_external x x' y y' m n h = rw (m.same.external_id, n.same.external_id) h

keeps_slot :
    (x x' y y' : Job) → Moves x x' → Moves y y' → same_slot x' y' ≡ true → same_slot x y ≡ true
keeps_slot x x' y y' m n h =
    rw (m.same.type_, m.same.dedupe_key, n.same.type_, n.same.dedupe_key)
      (ground (arith, Edge-active m.edge, Edge-active n.edge))

-- The rows of a table that every statement keeps apart.
Rows-IsValid :
    (t : JobsTable) (rows : List Job)
    → Rows Moves t.rows rows
    → IsValid t
    → IsValid (record t { rows = rows })
Rows-IsValid t rows r v = record {
  ids = Apart-Rows Moves same_id keeps_id t.rows rows r v.ids;
  below =
      All-Rows Moves (λ j. j.id < t.next_id) (λ x y m h. rw (← m.same.id) h) t.rows rows r v.below;
  slots = Apart-Rows Moves same_slot keeps_slot t.rows rows r v.slots;
  externals = Apart-Rows Moves same_external keeps_external t.rows rows r v.externals;
}

-- No statement of the lifecycle breaks a unique index.
pub update-IsValid :
    (now : ℕ) (s : Statement) (t : JobsTable)
    → IsValid t
    → IsValid (record t { rows = update now s t.rows })
update-IsValid now s t v = Rows-IsValid t _ (update-Rows now s t.rows v.ids) v
