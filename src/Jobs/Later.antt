-- ===== src/Jobs/Later.antt =====
-- The jobs table after any sequence of statements, from any sessions.
use robodata.Prelude.{
  ℕ, String, true, ◌≡◌, refl, ◌∙◌, List, [], ◌∷◌, arith, In, Bool-cases, inl, inr, if◌then◌else◌,
}
use robodata.Table.{
  Rows, Extends, Extends-refl, Extends-append, Extends-of_Rows, Extends-trans, Extends-In,
  Rows-refl,
}
use robodata.Jobs.{Status, Job, is_terminal, is_active}
use robodata.Jobs.Repo.{
  JobsTable, Request, duplicate_dedupe, active_with, violates, new_row, insert_row, skip_number,
  enqueue,
}
use robodata.Jobs.Moves.{Edge, SameJob, SameOutcome, Moves}
use robodata.Jobs.History.{Statement, update, update-Rows}
use robodata.Jobs.Index.{IsValid, update-IsValid}
use robodata.Jobs.Enqueue.{insert-IsValid, skip-IsValid, find_active-eq}

pub data Event : Type 0 where
  updates : Statement → Event
  inserts : String → Request → Event

-- The INSERT of `enqueue`, as one statement.
abbrev pub insert : ℕ → String → Request → JobsTable → JobsTable
insert now external_id req t =
    let row = new_row now t.next_id external_id req in
    if violates t.rows row then skip_number t else insert_row t row

unfoldable pub exec : ℕ → Event → JobsTable → JobsTable
exec now (updates s) t = record t { rows = update now s t.rows }
exec now (inserts external_id req) t = insert now external_id req t

unfoldable pub run : List (ℕ × Event) → JobsTable → JobsTable
run [] t = t
run ((now, e) ∷ es) t = run es (exec now e t)

pub data Reaches (s : Status) : Status → Type 0 where
  done : Reaches s s
  next : {t u : Status} → Reaches s t → Edge t u → Reaches s u

Reaches-trans : {s t u : Status} → Reaches s t → Reaches t u → Reaches s u
Reaches-trans p done = p
Reaches-trans p (next q e) = next (Reaches-trans p q) e

-- A row at some time, and the same row later.
pub record Later (j k : Job) : Type 0 where
  pub same : SameJob j k
  pub path : Reaches j.status k.status
  pub final : is_terminal j.status ≡ true → SameOutcome j k

Later-of_Moves : (j k : Job) → Moves j k → Later j k
Later-of_Moves j k m = record { same = m.same; path = next done m.edge; final = m.final }

SameJob-trans : (i j k : Job) → SameJob i j → SameJob j k → SameJob i k
SameJob-trans i j k a b = record {
  id = a.id ∙ b.id;
  external_id = a.external_id ∙ b.external_id;
  type_ = a.type_ ∙ b.type_;
  payload = a.payload ∙ b.payload;
  dedupe_key = a.dedupe_key ∙ b.dedupe_key;
  created_at = a.created_at ∙ b.created_at;
}

SameOutcome-trans : (i j k : Job) → SameOutcome i j → SameOutcome j k → SameOutcome i k
SameOutcome-trans i j k a b = record {
  status = a.status ∙ b.status;
  progress = a.progress ∙ b.progress;
  result = a.result ∙ b.result;
  error = a.error ∙ b.error;
  finished_at = a.finished_at ∙ b.finished_at;
}

Later-trans : (i j k : Job) → Later i j → Later j k → Later i k
Later-trans i j k a b = record {
  same = SameJob-trans i j k a.same b.same;
  path = Reaches-trans a.path b.path;
  final = λ t. let o = a.final t in SameOutcome-trans i j k o (b.final (rw (← o.status) t));
}

Later-refl : (j : Job) → Later j j
Later-refl j = record { same = ground arith; path = done; final = λ t. ground arith }

Rows-Later : (xs ys : List Job) → Rows Moves xs ys → Rows Later xs ys
Rows-Later [] [] h = tt
Rows-Later [] (y ∷ ys) h = absurd h
Rows-Later (x ∷ xs) [] h = absurd h
Rows-Later (x ∷ xs) (y ∷ ys) h = (Later-of_Moves x y h.0, Rows-Later xs ys h.1)

pub exec-Later :
    (now : ℕ) (e : Event) (t : JobsTable)
    → IsValid t
    → Extends Later t.rows (exec now e t).rows × IsValid (exec now e t)
unfolding exec
exec-Later now (updates s) t v = (
  Extends-of_Rows Later t.rows _ (Rows-Later t.rows _ (update-Rows now s t.rows v.ids)),
  update-IsValid now s t v,
)
exec-Later now (inserts external_id req) t v =
    elim (Bool-cases (violates t.rows (new_row now t.next_id external_id req))) [
      | inl e ↦ rw e (Extends-refl Later Later-refl t.rows, skip-IsValid t v)
      | inr e ↦ rw e (
        Extends-append Later t.rows t.rows _ (Rows-refl Later Later-refl t.rows),
        insert-IsValid t (new_row now t.next_id external_id req) refl e v,
      )
    ]

-- Under any statements of any sessions, in any order, the table stays valid (no statement breaks a
-- unique index), and each row remains: it names the same job, its status has moved along edges of the
-- lifecycle, and if it was finished it has the same outcome.
pub run-Later :
    (es : List (ℕ × Event)) (t : JobsTable)
    → IsValid t
    → Extends Later t.rows (run es t).rows × IsValid (run es t)
unfolding run
run-Later [] t v = (Extends-refl Later Later-refl t.rows, v)
run-Later ((now, e) ∷ es) t v =
    let (step, w) = exec-Later now e t v in
    let (rest, u) = run-Later es (exec now e t) w in
    (Extends-trans Later Later-trans t.rows _ _ step rest, u)

slot-Later :
    (req : Request) (j k : Job)
    → active_with req.type_ req.dedupe_key j ≡ true
    → Later j k
    → is_active k.status ≡ true
    → active_with req.type_ req.dedupe_key k ≡ true
slot-Later req j k h l a = rw (← l.same.type_, ← l.same.dedupe_key, a) (ground arith)

-- A row with a dedupe key, and any later table in which it is still active: a request with its type and
-- key is refused under the row's number and changes nothing, whatever else the table holds.
pub active_refuses :
    (es : List (ℕ × Event)) (t : JobsTable) (j : Job) (req : Request)
    → IsValid t
    → In j t.rows
    → ((k : Job) → In k (run es t).rows → j.id ≡ k.id → is_active k.status ≡ true)
    → active_with req.type_ req.dedupe_key j ≡ true
    → (between after : JobsTable → JobsTable) (now : ℕ) (external_id : String)
    → enqueue between after now external_id req (run es t) ≡ (duplicate_dedupe j.id, run es t)
unfolding enqueue
active_refuses es t j req v m active slot between after now external_id =
    let (rows, w) = run-Later es t v in
    let (k, n, l) = Extends-In Later t.rows (run es t).rows rows m in
    rw (
      find_active-eq req (run es t) k w n (slot-Later req j k slot l (active k n l.same.id)),
      l.same.id,
    )
