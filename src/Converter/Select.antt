-- ===== src/Converter/Select.antt =====
-- Which tasks a convert job of backend/converter/queue_adapter.py with a target works on.
use Prim.Native.String.{◌++◌ as str_append}
use text.Mathlib.TextBridge.{IsPrefix}
use text.Mathlib.TextEquality.{starts_with_iff}
use robodata.Prelude.{
  ◌≤◌, String, true, false, ◌≡◌, refl, ◌⊎◌, inl, inr, List, [], ◌∷◌, keep, arith, length,
  Bool-cases, In, In-cons, here, there, In-any, In-keep, keep-In, str_eq, eq_iff, eq_refl,
  find_first-of_any, find_first-In, find_first-test, ◌↔◌,
}
use robodata.Prelude.Checked.{Checked, rejected, passed}
use robodata.Converter.{
  ConvertError, no_recordings, mem, codes, is_slash, has_slash, is_task_of_cell, unless_empty,
  select_cell_tasks,
}

-- The task is wanted: it is the target; or the target is no task and has no slash (the number 47), and the
-- task's name goes on from the target and a slash.
abbrev pub IsWanted : String → List String → String → Type 0
IsWanted target tasks t =
    (In target tasks × (t ≡ target))
    ⊎ ((¬ In target tasks) × (¬ In 47 (codes target)) × IsPrefix (str_append target "/") t)

-- At least one task, and of the tasks those that are wanted; an error only where there is none.
abbrev pub SelectSpec : String → List String → Checked ConvertError (List String) → Type 0
SelectSpec target tasks (passed ts) =
    (1 ≤ length ts) × ((t : String) → In t ts ↔ (In t tasks × IsWanted target tasks t))
SelectSpec target tasks (rejected e) =
    (e ≡ no_recordings target) × ((t : String) → In t tasks → ¬ IsWanted target tasks t)

In-mem : (s : String) (ts : List String) → mem s ts ≡ true → In s ts
In-mem s [] h = cc
In-mem s (t ∷ ts) h = elim (Bool-cases (str_eq s t)) [
  | inl e ↦ let q : s ≡ t = ground (arith, eq_iff s t, e) in rw q here
  | inr e ↦ there (In-mem s ts (ground (arith, e, h)))
]

no_task : (s : String) (ts : List String) → mem s ts ≡ false → ¬ In s ts
no_task s ts h m = cc (In-any (str_eq s) ts m (eq_refl s), h)

no_slash : (s : String) → has_slash s ≡ false → ¬ In 47 (codes s)
unfolding has_slash
no_slash s h m = cc (In-any is_slash (codes s) m refl, h)

has_slash-In : (s : String) → has_slash s ≡ true → In 47 (codes s)
unfolding has_slash
has_slash-In s h =
    let (c, e) = find_first-of_any is_slash (codes s) h in
    let q : c ≡ 47 = ground (arith, find_first-test is_slash (codes s) e) in
    rw (← q) (find_first-In is_slash (codes s) e)

module _ (target : String) (tasks : List String) where
  the_target : mem target tasks ≡ true → SelectSpec target tasks (passed (target ∷ []))
  the_target h = (
    omega arith,
    λ t. (
      λ m. elim (In-cons m) [
        | inl q ↦ (rw q (In-mem target tasks h), inl (In-mem target tasks h, q))
        | inr k ↦ elim k [ ]
      ],
      λ w. elim w.1 [ inl k ↦ rw k.1 here | inr k ↦ absurd (k.0 (In-mem target tasks h)) ],
    ),
  )

  module _ (h : mem target tasks ≡ false) where
    none_wanted :
        has_slash target ≡ true → SelectSpec target tasks (rejected (no_recordings target))
    none_wanted s = (
      refl,
      λ t m w. elim w [ inl k ↦ no_task target tasks h k.0 | inr k ↦ k.1 (has_slash-In target s) ],
    )

    of_cell :
        has_slash target ≡ false
        → (t : String)
        → In t (keep (is_task_of_cell target) tasks) ↔ (In t tasks × IsWanted target tasks t)
    unfolding is_task_of_cell
    of_cell s t = (
      λ m.
          let (i, b) = In-keep (is_task_of_cell target) tasks m in
          (
            i,
            inr (
              no_task target tasks h,
              no_slash target s,
              (starts_with_iff t (str_append target "/")).0 b,
            ),
          ),
      λ w. elim w.1 [
        | inl k ↦ absurd (no_task target tasks h k.0)
        | inr k ↦
            keep-In (is_task_of_cell target) tasks w.0
              ((starts_with_iff t (str_append target "/")).1 k.2)
      ],
    )

    matched :
        (ts : List String)
        → ((t : String) → In t ts ↔ (In t tasks × IsWanted target tasks t))
        → SelectSpec target tasks (unless_empty target ts)
    matched [] f = (refl, λ t m w. elim ((f t).1 (m, w)) [ ])
    matched (t ∷ ts) f = (omega arith, f)

  -- A convert job works on the target, where that is a task, and otherwise on just the tasks of the cell that
  -- the target names; it fails only where there is no such task.
  pub select_cell_tasks_lem : SelectSpec target tasks (select_cell_tasks target tasks)
  unfolding select_cell_tasks
  select_cell_tasks_lem = elim (Bool-cases (mem target tasks)) [
    | inl m ↦ rw m (the_target m)
    | inr m ↦ elim (Bool-cases (has_slash target)) [
      | inl s ↦ rw (m, s) (none_wanted m s)
      | inr s ↦ rw (m, s) (matched m (keep (is_task_of_cell target) tasks) (of_cell m s))
    ]
  ]
