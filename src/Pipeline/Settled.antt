-- ===== src/Pipeline/Settled.antt =====
-- What a batch of backend/datasets/services/bronze_silver_pipeline.py does to the rows of
-- episode_curation_states.
use robodata.Prelude.{
  ℕ, ◌+◌, String, Bool, true, false, ◌≡◌, refl, ap, ◌∙◌, inl, inr, List, [], ◌∷◌, Option, none,
  some, str_eq, any, length, find_first, Bool-cases, arith,
}
use robodata.Prelude.Checked.{Checked, rejected, passed}
use robodata.Table.{update_where, updated, Rows, Rows-refl}
use robodata.Pipeline.{
  CurationState, silver_ready, silver_failed, CurationRow, CurationTables, has_serial, fail_row,
}
use robodata.Pipeline.Batch.{
  Disk, Progress, mark_processing, mark_ready, processing_row, begun, ready_row, registered,
  ensure_silver_dataset_registered, process_episode_files, settle, process_row, process_rows,
  has_path,
}

abbrev pub is_settled : CurationState → Bool
is_settled silver_ready = true
is_settled silver_failed = true
is_settled _ = false

-- One of the rows has the serial number of this one.
abbrev pub touched : List CurationRow → CurationRow → Bool
touched rs x = any (λ r. has_serial r.serial_number x) rs

-- A row that the processing of some rows does not touch stays; each other one is ready or failed.
abbrev pub Settles : List CurationRow → CurationRow → CurationRow → Type 0
Settles rs x y =
    (y.serial_number ≡ x.serial_number)
    × (touched rs x ≡ false → y ≡ x)
    × (touched rs x ≡ true → is_settled y.state ≡ true)

module _ {R Q T : CurationRow → CurationRow → Type 0}
    (after : (x y z : CurationRow) → R x y → Q y z → T x z) where
  pub Rows-trans : (xs ys zs : List CurationRow) → Rows R xs ys → Rows Q ys zs → Rows T xs zs
  Rows-trans [] [] [] h k = tt
  Rows-trans [] [] (z ∷ zs) h k = k
  Rows-trans [] (y ∷ ys) zs h k = absurd h
  Rows-trans (x ∷ xs) [] zs h k = absurd h
  Rows-trans (x ∷ xs) (y ∷ ys) [] h k = k
  Rows-trans (x ∷ xs) (y ∷ ys) (z ∷ zs) h k = (after x y z h.0 k.0, Rows-trans xs ys zs h.1 k.1)

Settles-nil : (x : CurationRow) → Settles [] x x
Settles-nil x = (refl, λ h. refl, λ h. cc)

touched-same :
    (rs : List CurationRow) (x y : CurationRow)
    → y.serial_number ≡ x.serial_number
    → touched rs y ≡ touched rs x
touched-same rs x y e = ap (λ s. any (λ r. str_eq r.serial_number s) rs) e

Settles-cons :
    (r : CurationRow) (rs : List CurationRow) (x y z : CurationRow)
    → Settles (r ∷ []) x y
    → Settles rs y z
    → Settles (r ∷ rs) x z
Settles-cons r rs x y z (e, same, ends) (e', same', ends') =
    let t = touched-same rs x y e in
    (
      e' ∙ e,
      λ h. same' (t ∙ ground arith) ∙ same (ground arith),
      λ h. elim (Bool-cases (touched rs y)) [
        | inl i ↦ ends' i
        | inr o ↦ ap (λ w. is_settled w.state) (same' o) ∙ ends (ground (arith, t))
      ],
    )

-- Two UPDATEs of the rows of one serial number, of which the second ends them.
ended-Settles :
    (r x : CurationRow) (f g : CurationRow → CurationRow)
    → ((y : CurationRow) → (f y).serial_number ≡ y.serial_number)
    → ((y : CurationRow) → (g y).serial_number ≡ y.serial_number)
    → ((y : CurationRow) → is_settled (g y).state ≡ true)
    → Settles
        (r ∷ [])
        x
        (updated (has_serial r.serial_number) g (updated (has_serial r.serial_number) f x))
ended-Settles r x f g fs gs ends = elim (Bool-cases (has_serial r.serial_number x)) [
  | inl h ↦
      let k : has_serial r.serial_number (f x) ≡ true = ap (str_eq r.serial_number) (fs x) ∙ h in
      rw (h, k) (gs (f x) ∙ fs x, λ o. cc, λ i. ends (f x))
  | inr h ↦ rw (h, h) (refl, λ o. refl, λ i. cc)
]

ended-Rows :
    (r : CurationRow) (f g : CurationRow → CurationRow)
    → ((y : CurationRow) → (f y).serial_number ≡ y.serial_number)
    → ((y : CurationRow) → (g y).serial_number ≡ y.serial_number)
    → ((y : CurationRow) → is_settled (g y).state ≡ true)
    → (rows : List CurationRow)
    → Rows (Settles (r ∷ [])) rows (
        update_where
          (has_serial r.serial_number)
          g
          (update_where (has_serial r.serial_number) f rows))
ended-Rows r f g fs gs ends [] = tt
ended-Rows r f g fs gs ends (x ∷ rows) =
    (ended-Settles r x f g fs gs ends, ended-Rows r f g fs gs ends rows)

Settles-refl : (rows : List CurationRow) → Rows (Settles []) rows rows
Settles-refl = Rows-refl (Settles []) Settles-nil

module _ {S D : Type 0} (disk : Disk S D) (now : ℕ) (cut : String → String) where
  registered-states :
      (t : CurationTables) (r : CurationRow) (o : Option _) → (registered t r o).1.states ≡ t.states
  registered-states t r none = refl
  registered-states t r (some d) = refl

  mark_ready-states :
      (r : CurationRow) (t : CurationTables)
      → (mark_ready now r t).states
        ≡ update_where (has_serial r.serial_number) (ready_row now) t.states
  unfolding mark_ready ensure_silver_dataset_registered
  mark_ready-states r t =
      ap (update_where (has_serial r.serial_number) (ready_row now))
        (registered-states t r (find_first (has_path r.silver_path) t.datasets))

  settle-Rows :
      (r : CurationRow) (q : Progress S) (rows : List CurationRow) (o : Checked String Unit × S)
      → q.tables.states ≡ mark_processing now r.serial_number rows
      → Rows (Settles (r ∷ [])) rows (settle disk now cut r q o).tables.states
        × ((settle disk now cut r q o).processed + (settle disk now cut r q o).failed
            ≡ q.processed + q.failed + 1)
  settle-Rows r q rows (rejected x, s) e = (
    rw e (
        ended-Rows r (processing_row now) (fail_row now (cut x)) (λ y. refl) (λ y. refl) (λ y. refl)
          rows),
    omega arith,
  )
  settle-Rows r q rows (passed u, s) e = (
    rw (mark_ready-states r q.tables, e)
        (ended-Rows r (processing_row now) (ready_row now) (λ y. refl) (λ y. refl) (λ y. refl)
          rows),
    omega arith,
  )

  process_row-Rows :
      (r : CurationRow) (p : Progress S)
      → Rows (Settles (r ∷ [])) p.tables.states (process_row disk now cut r p).tables.states
        × ((process_row disk now cut r p).processed + (process_row disk now cut r p).failed
            ≡ p.processed + p.failed + 1)
  unfolding process_row
  process_row-Rows r p =
      settle-Rows r (begun disk now cut r p) p.tables.states (process_episode_files disk r p.files)
        refl

  -- Processing ends every row of the list, touches no other, and counts each one of the list once.
  pub process_rows-Rows :
      (rs : List CurationRow) (p : Progress S)
      → Rows (Settles rs) p.tables.states (process_rows disk now cut rs p).tables.states
        × ((process_rows disk now cut rs p).processed + (process_rows disk now cut rs p).failed
            ≡ p.processed + p.failed + length rs)
  unfolding process_rows process_row
  process_rows-Rows [] p = (Settles-refl p.tables.states, omega arith)
  process_rows-Rows (r ∷ rs) p =
      let (h, n) = process_row-Rows r p in
      let (k, m) = process_rows-Rows rs (process_row disk now cut r p) in
      (Rows-trans (Settles-cons r rs) _ _ _ h k, omega (arith, n, m))
