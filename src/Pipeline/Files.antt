-- ===== src/Pipeline/Files.antt =====
-- What a batch of backend/datasets/services/bronze_silver_pipeline.py reaches: every detected episode, when
-- it has no limit, and the silver directory of every episode that it calls ready.
use robodata.Prelude.{
  ℕ, String, Bool, true, false, ◌≡◌, refl, sym, ap, ◌∙◌, inl, inr, List, [], ◌∷◌, Option, none,
  some, is_some, Bool-cases, Option-cases, arith, In, In-cons, here, there, In-any, keep-In, All,
  eq_refl,
}
use robodata.Prelude.Checked.{Checked, rejected, passed}
use robodata.Table.{Rows}
use robodata.Paths.{ResolvedPath}
use robodata.Pipeline.{
  CurationState, CurationRow, CurationTables, Recording, has_serial, is_detected, place_row,
  row_before, sort_rows, eligible_episodes,
}
use robodata.Pipeline.Batch.{
  Disk, detected, run_bronze_to_silver_batch, process_episode_files, move_unless_there,
}
use robodata.Pipeline.Settled.{is_settled, touched, Settles, process_rows-Rows}

place_row-In :
    (text_before : String → String → Bool) (r : CurationRow) (qs : List CurationRow)
    {x : CurationRow}
    → In x (r ∷ qs)
    → In x (place_row text_before r qs)
unfolding place_row
place_row-In text_before r [] m = m
place_row-In text_before r (q ∷ qs) {x} m = elim (Bool-cases (row_before text_before q r)) [
  | inl b ↦ rw b (elim (In-cons m) [
    | inl e ↦ there (place_row-In text_before r qs (rw e here))
    | inr k ↦ elim (In-cons k) [
      | inl e ↦ rw e here
      | inr i ↦ there (place_row-In text_before r qs (there i))
    ]
  ])
  | inr b ↦ rw b m
]

sort_rows-In :
    (text_before : String → String → Bool) (rs : List CurationRow) {x : CurationRow}
    → In x rs
    → In x (sort_rows text_before rs)
unfolding sort_rows
sort_rows-In text_before [] m = m
sort_rows-In text_before (r ∷ rs) m = elim (In-cons m) [
  | inl e ↦ place_row-In text_before r _ (rw e here)
  | inr k ↦ place_row-In text_before r _ (there (sort_rows-In text_before rs k))
]

In-touched : (es : List CurationRow) (x : CurationRow) → In x es → touched es x ≡ true
In-touched es x m = In-any (λ r. has_serial r.serial_number x) es m (eq_refl x.serial_number)

settled-undetected : (st : CurationState) → is_settled st ≡ true → is_detected st ≡ false
settled-undetected st h = ground arith

untouched :
    (es : List CurationRow) (x : CurationRow)
    → touched es x ≡ false
    → (is_detected x.state ≡ true → In x es)
    → is_detected x.state ≡ false
untouched es x t f = elim (Bool-cases (is_detected x.state)) [
  | inl d ↦ cc (In-touched es x (f d), t)
  | inr d ↦ d
]

none_left :
    (es : List CurationRow) (xs ys : List CurationRow)
    → ((x : CurationRow) → In x xs → is_detected x.state ≡ true → In x es)
    → Rows (Settles es) xs ys
    → All (λ y. is_detected y.state ≡ false) ys
none_left es [] [] f h = tt
none_left es [] (y ∷ ys) f h = absurd h
none_left es (x ∷ xs) [] f h = tt
none_left es (x ∷ xs) (y ∷ ys) f ((e, same, ends), k) = (
  elim (Bool-cases (touched es x)) [
    | inl t ↦ settled-undetected y.state (ends t)
    | inr t ↦ ap (λ w. is_detected w.state) (same t) ∙ untouched es x t (f x here)
  ],
  none_left es xs ys (λ z m. f z (there m)) k,
)

module _ {S D : Type 0} (disk : Disk S D) (now : ℕ) (cut : String → String) where
  -- After a batch that holds the lock and has no limit, no episode is left as detected.
  pub unlimited_batch_lem :
      (text_before : String → String → Bool) (timeout : ℕ) (root : ResolvedPath)
      (recordings : Option (List Recording)) (t : CurationTables) (s : S)
      → All
          (λ y. is_detected y.state ≡ false)
          (run_bronze_to_silver_batch disk now cut text_before true timeout none root recordings t
            s).1.states
  unfolding run_bronze_to_silver_batch eligible_episodes
  unlimited_batch_lem text_before timeout root recordings t s =
      let rows = (detected now timeout root recordings t).states in
      let eligible = eligible_episodes text_before none rows in
      none_left eligible rows _
        (λ x m d. sort_rows-In text_before _ (keep-In (λ r. is_detected r.state) rows m d))
        (process_rows-Rows disk now cut eligible (record {
          tables = detected now timeout root recordings t;
          files = s;
          processed = 0;
          failed = 0;
        })).0

-- The files of one episode: what mkdir keeps, and what shutil.move does if nothing stands at its
-- destination and it does not raise.
module _ {S D : Type 0} (disk : Disk S D) (r : CurationRow)
    (mkdir_bronze : (s : S)
      → disk.look r.bronze_path (disk.mkdir_parent r.silver_path s).1 ≡ disk.look r.bronze_path s)
    (mkdir_silver : (s : S)
      → disk.look r.silver_path (disk.mkdir_parent r.silver_path s).1 ≡ disk.look r.silver_path s)
    (moves : (s : S) (u : Unit)
      → disk.look r.silver_path s ≡ none
      → (disk.move r.bronze_path r.silver_path s).0 ≡ passed u
      → (disk.look r.silver_path (disk.move r.bronze_path r.silver_path s).1
          ≡ disk.look r.bronze_path s)
        × (disk.look r.bronze_path (disk.move r.bronze_path r.silver_path s).1 ≡ none)) where
  abbrev pub FilesSpec : S → Checked String Unit × S → Type 0
  FilesSpec s x =
      ((u : Unit)
        → x.0 ≡ passed u
        → (disk.look r.bronze_path x.1 ≡ none)
          × (is_some (disk.look r.silver_path x.1) ≡ true)
          × ((d : D)
              → disk.look r.bronze_path s ≡ some d
              → (disk.look r.silver_path s ≡ none) × (disk.look r.silver_path x.1 ≡ some d)))
      × ((d : D)
          → disk.look r.silver_path s ≡ some d
          → (disk.look r.silver_path x.1 ≡ some d)
            × (disk.look r.bronze_path x.1 ≡ disk.look r.bronze_path s))

  move-FilesSpec :
      (s : S) (d : D) (m : Checked String Unit × S)
      → disk.look r.bronze_path s ≡ some d
      → disk.look r.bronze_path m.1 ≡ disk.look r.bronze_path s
      → disk.look r.silver_path m.1 ≡ disk.look r.silver_path s
      → FilesSpec s (move_unless_there disk r m)
  move-FilesSpec s d (rejected e, s') b p q = (λ u h. cc, λ c h. (q ∙ h, p))
  move-FilesSpec s d (passed u, s') b p q = elim (Option-cases (disk.look r.silver_path s')) [
    | inl e ↦ rw e (
      λ v h.
          let (k, l) = moves s' v e h in (l, ap is_some (k ∙ p ∙ b), λ c f. (sym q ∙ e, k ∙ p ∙ f)),
      λ c h. cc (e, q, h),
    )
    | inr (c, e) ↦ rw e (λ v h. cc, λ x h. (q ∙ h, p))
  ]

  -- If mkdir keeps both paths as they are, and shutil.move to a free path moves what it returns from: a file
  -- step that succeeds leaves the episode's recording under its silver path and nothing under the
  -- bronze one; what stands under the silver path before is never overwritten, and then the recording stays
  -- under the bronze path too.
  pub process_episode_files_lem : (s : S) → FilesSpec s (process_episode_files disk r s)
  unfolding process_episode_files
  process_episode_files_lem s = elim (Option-cases (disk.look r.bronze_path s)) [
    | inr (d, b) ↦
        let there_is : is_some (disk.look r.bronze_path s) ≡ true = ap is_some b in
        rw there_is (
          move-FilesSpec s d (disk.mkdir_parent r.silver_path s) b (mkdir_bronze s)
            (mkdir_silver s))
    | inl b ↦
        let gone : is_some (disk.look r.bronze_path s) ≡ false = ap is_some b in
        elim (Option-cases (disk.look r.silver_path s)) [
          | inl e ↦
              let empty : is_some (disk.look r.silver_path s) ≡ false = ap is_some e in
              rw (gone, empty) (λ v h. cc, λ x h. (h, refl))
          | inr (c, e) ↦
              let there_is : is_some (disk.look r.silver_path s) ≡ true = ap is_some e in
              rw (gone, there_is) (λ v h. (b, ap is_some e, λ d f. cc (f, b)), λ x h. (h, refl))
        ]
  ]
