-- ===== src/Converter/Progress.antt =====
-- What a conversion of backend/converter/queue_adapter.py that returns has gone through.
use robodata.Prelude.{
  ◌≤◌, ◌<◌, Bool, true, false, ◌||◌, ◌≡◌, refl, ◌⊎◌, inl, inr, List, [], ◌∷◌, none, some, ltb, ◌==◌,
  arith, length, Bool-cases, Option-cases, All, String,
}
use robodata.Prelude.Checked.{Checked, rejected, passed}
use robodata.Converter.{
  ConvertError, mem, Converter, returned, failed, unresolved, is_idle, unless_unresolved,
  progress_error, after_convert, after_pending, convert_tasks,
}

none_unresolved : (task : String) (us : List String) → unless_unresolved task us ≡ none → us ≡ []
none_unresolved task [] h = refl
none_unresolved task (u ∷ us) h = cc

either_flag : (a b : Bool) → (a || b) ≡ true → (a ≡ true) ⊎ (b ≡ true)
either_flag true b h = inl refl
either_flag false b h = inr h

module _ {S : Type 0} (converter : Converter S) where
  -- The recording is in the task's output, or has failed for good.
  abbrev pub IsResolved : String → S → String → Type 0
  IsResolved task s r =
      (mem r (converter.output_serials task s) ≡ true)
      ⊎ (mem r (converter.failed_serials task s) ≡ true)

  -- The count of converted recordings has not fallen, and it or the output has grown, or nothing is left.
  abbrev pub Progressed : String → List String → S → S → Type 0
  Progressed task recordings s s' =
      (converter.converted_count task s ≤ converter.converted_count task s')
      × ((converter.converted_count task s < converter.converted_count task s')
          ⊎ (length (converter.output_serials task s) < length (converter.output_serials task s'))
          ⊎ All (IsResolved task s') recordings)

  -- A run over the tasks in which each one has had nothing to do, or has progressed, up to the end or to
  -- the place where the job was stopped: before a task by a cancellation, or after a conversion by a
  -- cancellation or the shutdown event.
  pub data Runs : List String → S → S → Type 0 where
    over : {s : S} → Runs [] s s
    cancelled :
        {task : String} {tasks : List String} {s : S}
        → converter.is_cancelled s ≡ true
        → Runs (task ∷ tasks) s (converter.set_shutdown s)
    stopped :
        {task : String} {tasks recordings : List String} {mount_ok : Bool} {s s' s'' : S}
        → converter.pending_recordings task s ≡ (passed recordings, s')
        → converter.convert_task task recordings s' ≡ (mount_ok, s'')
        → (converter.is_cancelled s'' ≡ true) ⊎ (converter.is_shutdown s'' ≡ true)
        → Runs (task ∷ tasks) s s''
    nothing :
        {task : String} {tasks : List String} {s s' t : S}
        → converter.pending_recordings task s ≡ (passed [], s')
        → Runs tasks s' t
        → Runs (task ∷ tasks) s t
    worked :
        {task : String} {tasks recordings : List String} {s s' s'' t : S}
        → converter.pending_recordings task s ≡ (passed recordings, s')
        → converter.convert_task task recordings s' ≡ (true, s'')
        → Progressed task recordings s' s''
        → Runs tasks s'' t
        → Runs (task ∷ tasks) s t

  resolved :
      (task : String) (s : S) (rs : List String)
      → unresolved converter task rs s ≡ []
      → All (IsResolved task s) rs
  resolved task s [] h = tt
  resolved task s (r ∷ rs) h = elim (Bool-cases (mem r (converter.output_serials task s))) [
    | inl i ↦ (inl i, resolved task s rs (rw i at h))
    | inr i ↦ elim (Bool-cases (mem r (converter.failed_serials task s))) [
      | inl f ↦ (inr f, resolved task s rs (rw (i, f) at h))
      | inr f ↦ let k : r ∷ unresolved converter task rs s ≡ [] = rw (i, f) at h in cc k
    ]
  ]

  grown :
      (task : String) (rs : List String) (s s' : S)
      → ltb (converter.converted_count task s') (converter.converted_count task s) ≡ false
      → is_idle converter task s s' ≡ false
      → (converter.converted_count task s < converter.converted_count task s')
        ⊎ (length (converter.output_serials task s) < length (converter.output_serials task s'))
        ⊎ All (IsResolved task s') rs
  grown task rs s s' l i =
      elim (Bool-cases (converter.converted_count task s' == converter.converted_count task s)) [
        | inl e ↦ inr (inl (ground (arith, e, i)))
        | inr e ↦ inl (ground (arith, e, l))
      ]

  progressed :
      (task : String) (rs : List String) (m : Bool) (s s' : S)
      → progress_error converter task rs m s s' ≡ none
      → (m ≡ true) × Progressed task rs s s'
  unfolding progress_error
  progressed task rs false s s' h = cc
  progressed task rs true s s' h =
      elim (Bool-cases
        (ltb (converter.converted_count task s') (converter.converted_count task s))) [
          | inl l ↦ let k : some _ ≡ none = rw l at h in cc k
          | inr l ↦ elim (Bool-cases (is_idle converter task s s')) [
            | inl i ↦ (
              refl,
              (
                ground (arith, l),
                inr (inr (resolved task s' rs (none_unresolved task _ (rw (l, i) at h)))),
              ),
            )
            | inr i ↦ (refl, (ground (arith, l), grown task rs s s' l i))
          ]
        ]

  converted_run :
      (task : String) (tasks rs : List String) (s s' t : S) (r : Bool × S)
      → converter.pending_recordings task s ≡ (passed rs, s')
      → converter.convert_task task rs s' ≡ r
      → after_convert converter task rs s' (convert_tasks converter tasks) r ≡ returned t
      → ((u : S) → convert_tasks converter tasks u ≡ returned t → Runs tasks u t)
      → Runs (task ∷ tasks) s t
  converted_run task tasks rs s s' t (m, s'') p e h f =
      elim (Bool-cases (converter.is_cancelled s'' || converter.is_shutdown s'')) [
        | inl c ↦
            let k : returned s'' ≡ returned t = rw c at h in
            let q : s'' ≡ t = ground arith in rw (← q) (stopped p e (either_flag _ _ c))
        | inr c ↦ elim (Option-cases (progress_error converter task rs m s' s'')) [
          | inl n ↦
              let (d, g) = progressed task rs m s' s'' n in
              worked p (rw d at e) g (f s'' (rw (c, n) at h))
          | inr (x, n) ↦ let k : failed x s'' ≡ returned t = rw (c, n) at h in cc k
        ]
      ]

  pending_run :
      (task : String) (tasks : List String) (s t : S) (r : Checked ConvertError (List String) × S)
      → converter.pending_recordings task s ≡ r
      → after_pending converter task (convert_tasks converter tasks) r ≡ returned t
      → ((u : S) → convert_tasks converter tasks u ≡ returned t → Runs tasks u t)
      → Runs (task ∷ tasks) s t
  pending_run task tasks s t (rejected x, s') e h f = cc h
  pending_run task tasks s t (passed [], s') e h f = nothing e (f s' h)
  pending_run task tasks s t (passed (r ∷ rs), s') e h f =
      converted_run task tasks (r ∷ rs) s s' t (converter.convert_task task (r ∷ rs) s') e refl h f

  -- A conversion that returns without an error has gone through its tasks in order, up to the last one or to
  -- a task before which or after whose conversion it has found itself cancelled, or after it shut down. On
  -- each task up to there nothing waited, or the mount worked, the count of converted recordings has not
  -- fallen, and it or the output has grown or all the waiting recordings are resolved.
  pub convert_tasks_lem :
      (tasks : List String) (s t : S)
      → convert_tasks converter tasks s ≡ returned t
      → Runs tasks s t
  unfolding convert_tasks
  convert_tasks_lem [] s t h = let e : s ≡ t = ground arith in rw e over
  convert_tasks_lem (task ∷ tasks) s t h = elim (Bool-cases (converter.is_cancelled s)) [
    | inl c ↦
        let k : returned (converter.set_shutdown s) ≡ returned t = rw c at h in
        let q : converter.set_shutdown s ≡ t = ground arith in rw (← q) (cancelled c)
    | inr c ↦
        pending_run task tasks s t (converter.pending_recordings task s) refl (rw c at h)
          (λ u g. convert_tasks_lem tasks u t g)
  ]
