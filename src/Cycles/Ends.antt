-- ===== src/Cycles/Ends.antt =====
-- What the frames are that cycle detection (backend/datasets/services/cycle_stamp_service.py) finds.
use robodata.Prelude.{
  ℕ, ◌+◌, Bool, true, false, ◌≡◌, ◌≢◌, refl, subst, ap, ◌⊎◌, inl, inr, List, [], ◌∷◌, ◌++◌, some,
  arith, length, In, In-cons, here, there, All, In-append, In-append_left, In-append_right,
  Bool-cases,
}
use robodata.Cycles.{
  sorted_set, is_closed, is_open, scan, detect_arm_cycle_ends, column, merge_ends,
  detect_cycle_ends, left_gripper_idx, right_gripper_idx,
}
use robodata.Cycles.Ascending.{IsAscending, sorted_set-IsAscending, In-sorted_set, of_sorted_set}

module _ {V : Type 0} (below : V → V → Bool) (c o : V) where
  -- Some frame is closed, and no later one is open.
  pub data Armed : List V → Type 0 where
    closed_last :
        {v : V} {vs : List V}
        → is_closed below c o v ≡ true
        → All (λ w. is_open below c o w ≡ false) vs
        → Armed (v ∷ vs)
    later : {v : V} {vs : List V} → Armed vs → Armed (v ∷ vs)

  -- The frame is open, and the frames before it have closed since they were last open.
  abbrev pub IsCycleEnd : List V → ℕ → Type 0
  IsCycleEnd vs i =
      (before : List V) × (v : V) × (after : List V) × (vs ≡ before ++ v ∷ after)
      × (length before ≡ i)
      × (is_open below c o v ≡ true)
      × Armed before

  -- The same of a search that has begun before the frames.
  abbrev ArmedFrom : Bool → List V → Type 0
  ArmedFrom s before = ((s ≡ true) × All (λ w. is_open below c o w ≡ false) before) ⊎ Armed before

  abbrev EndsFrom : Bool → List V → ℕ → ℕ → Type 0
  EndsFrom s vs n i =
      (before : List V) × (v : V) × (after : List V) × (vs ≡ before ++ v ∷ after)
      × (n + length before ≡ i)
      × (is_open below c o v ≡ true)
      × ArmedFrom s before

  step_back :
      (s t : Bool) (v : V) (vs : List V) (n i : ℕ)
      → ((before : List V) → ArmedFrom t before → ArmedFrom s (v ∷ before))
      → EndsFrom t vs (n + 1) i
      → EndsFrom s (v ∷ vs) n i
  step_back s t v vs n i f (before, w, after, e, l, p, a) =
      (v ∷ before, w, after, ap (◌∷◌ v) e, omega arith, p, f before a)

  add_waiting :
      {v : V}
      → is_open below c o v ≡ false
      → (before : List V) → ArmedFrom true before
      → ArmedFrom true (v ∷ before)
  add_waiting p before (inl (e, q)) = inl (refl, (p, q))
  add_waiting p before (inr a) = inr (later a)

  add_closing :
      {v : V}
      → is_closed below c o v ≡ true
      → (before : List V) → ArmedFrom true before
      → ArmedFrom false (v ∷ before)
  add_closing p before (inl (e, q)) = inr (closed_last p q)
  add_closing p before (inr a) = inr (later a)

  add_idle :
      {v : V} (s : Bool) (before : List V) → ArmedFrom false before → ArmedFrom s (v ∷ before)
  add_idle s before (inl (e, q)) = cc
  add_idle s before (inr a) = inr (later a)

  In-head : {n i : ℕ} {ns : List ℕ} → i ≡ n → In i (n ∷ ns)
  In-head e = rw e here

  scan-EndsFrom :
      (s : Bool) (n : ℕ) (vs : List V) {i : ℕ} → In i (scan below c o s n vs) → EndsFrom s vs n i
  unfolding scan
  scan-EndsFrom s n [] m = elim m [ ]
  scan-EndsFrom true n (v ∷ vs) {i} m = elim (Bool-cases (is_open below c o v)) [
    | inl p ↦ elim (In-cons (rw p at m)) [
      | inl e ↦ ([], v, vs, refl, omega arith, p, inl (refl, tt))
      | inr m' ↦ step_back true false v vs n i (add_idle true) (scan-EndsFrom false (n + 1) vs m')
    ]
    | inr p ↦
        step_back true true v vs n i (add_waiting p) (scan-EndsFrom true (n + 1) vs (rw p at m))
  ]
  scan-EndsFrom false n (v ∷ vs) {i} m = elim (Bool-cases (is_closed below c o v)) [
    | inl p ↦
        step_back false true v vs n i (add_closing p) (scan-EndsFrom true (n + 1) vs (rw p at m))
    | inr p ↦
        step_back false false v vs n i (add_idle false) (scan-EndsFrom false (n + 1) vs (rw p at m))
  ]

  -- A value is never both below the one threshold and above the other.
  module _ (apart : (v : V) → is_closed below c o v ≡ true → is_open below c o v ≡ false) where
    drop_waiting : {v : V} {before : List V} → ArmedFrom true (v ∷ before) → ArmedFrom true before
    drop_waiting (inl (e, q)) = inl (refl, q.1)
    drop_waiting (inr (closed_last p q)) = inl (refl, q)
    drop_waiting (inr (later a)) = inr a

    drop_open :
        {v : V} {before : List V}
        → is_open below c o v ≡ true
        → ArmedFrom true (v ∷ before)
        → ArmedFrom false before
    drop_open p (inl (e, q)) = cc (p, q.0)
    drop_open {v} p (inr (closed_last h q)) = cc (p, apart v h)
    drop_open p (inr (later a)) = inr a

    drop_closing : {v : V} {before : List V} → ArmedFrom false (v ∷ before) → ArmedFrom true before
    drop_closing (inl (e, q)) = cc
    drop_closing (inr (closed_last h q)) = inl (refl, q)
    drop_closing (inr (later a)) = inr a

    drop_idle :
        {v : V} {before : List V}
        → is_closed below c o v ≡ false
        → ArmedFrom false (v ∷ before)
        → ArmedFrom false before
    drop_idle p (inl (e, q)) = cc
    drop_idle p (inr (closed_last h q)) = cc
    drop_idle p (inr (later a)) = inr a

    In-scan :
        (s : Bool) (n i : ℕ) (before : List V) (v : V) (after : List V)
        → n + length before ≡ i
        → is_open below c o v ≡ true
        → ArmedFrom s before
        → In i (scan below c o s n (before ++ v ∷ after))
    unfolding scan
    In-scan true n i [] v after l p a = rw p (In-head (omega arith))
    In-scan false n i [] v after l p (inl (e, q)) = cc
    In-scan false n i [] v after l p (inr a) = elim a [ ]
    In-scan true n i (w ∷ before) v after l p a = elim (Bool-cases (is_open below c o w)) [
      | inl h ↦
          rw h (there (In-scan false (n + 1) i before v after (omega arith) p (drop_open h a)))
      | inr h ↦ rw h (In-scan true (n + 1) i before v after (omega arith) p (drop_waiting a))
    ]
    In-scan false n i (w ∷ before) v after l p a = elim (Bool-cases (is_closed below c o w)) [
      | inl h ↦ rw h (In-scan true (n + 1) i before v after (omega arith) p (drop_closing a))
      | inr h ↦ rw h (In-scan false (n + 1) i before v after (omega arith) p (drop_idle h a))
    ]

    -- The first frame counts as before the search, which its own value begins.
    first_frame :
        (v w : V) (vs before after : List V)
        → v ∷ vs ≡ before ++ w ∷ after
        → is_open below c o w ≡ true
        → ArmedFrom (is_closed below c o v) before
        → Armed before
    first_frame v w vs before after e p (inr a) = a
    first_frame v w vs [] after e p (inl (s, q)) =
        let d : v ≡ w = ground arith in cc (apart v s, d, p)
    first_frame v w vs (x ∷ before) after e p (inl (s, q)) =
        let d : v ≡ x = ground arith in closed_last (rw (← d) s) q.1

    nil_is_shorter : (v : V) (after before : List V) → [] ≢ before ++ v ∷ after
    nil_is_shorter v after [] e = cc
    nil_is_shorter v after (w ∷ before) e = cc

    -- The frames that detection finds for a gripper are those where it is open and has been closed since it
    -- was last open, if no value is both below the threshold of a closed and above that of an open gripper.
    pub detect_arm_cycle_ends_iff :
        (vs : List V) (i : ℕ)
        → (In i (detect_arm_cycle_ends below c o vs) → IsCycleEnd vs i)
          × (IsCycleEnd vs i → In i (detect_arm_cycle_ends below c o vs))
    unfolding detect_arm_cycle_ends
    detect_arm_cycle_ends_iff [] i = (
      λ m. elim m [ ],
      λ (before, v, after, e, l, p, a). absurd (nil_is_shorter v after before e),
    )
    detect_arm_cycle_ends_iff (x ∷ vs) i = (
      λ m.
          let (before, v, after, e, l, p, a) = scan-EndsFrom (is_closed below c o x) 0 (x ∷ vs) m in
          (before, v, after, e, omega arith, p, first_frame x v vs before after e p a),
      λ (before, v, after, e, l, p, a).
          rw e (In-scan (is_closed below c o x) 0 i before v after (omega arith) p (inr a)),
    )

    merged :
        (left right : List V) (ends : List ℕ)
        → merge_ends below c o (some left) (some right) ≡ some ends
        → sorted_set (detect_arm_cycle_ends below c o left ++ detect_arm_cycle_ends below c o right)
          ≡ ends
    merged left right ends h = cc

    either_end :
        (left right : List V) (i : ℕ)
        → In i (detect_arm_cycle_ends below c o left ++ detect_arm_cycle_ends below c o right)
        → IsCycleEnd left i ⊎ IsCycleEnd right i
    either_end left right i m = elim (In-append _ (detect_arm_cycle_ends below c o right) m) [
      | inl k ↦ inl ((detect_arm_cycle_ends_iff left i).0 k)
      | inr k ↦ inr ((detect_arm_cycle_ends_iff right i).0 k)
    ]

    found_end :
        (left right : List V) (i : ℕ)
        → IsCycleEnd left i ⊎ IsCycleEnd right i
        → In i (detect_arm_cycle_ends below c o left ++ detect_arm_cycle_ends below c o right)
    found_end left right i (inl h) = In-append_left _ _ ((detect_arm_cycle_ends_iff left i).1 h)
    found_end left right i (inr h) = In-append_right _ _ ((detect_arm_cycle_ends_iff right i).1 h)

    -- The frames that are stamped as ends of a cycle, in ascending order: those of the left gripper and
    -- those of the right one.
    pub detect_cycle_ends_lem :
        (states : List (List V)) (left right : List V) (ends : List ℕ)
        → column left_gripper_idx states ≡ some left
        → column right_gripper_idx states ≡ some right
        → detect_cycle_ends below c o states ≡ some ends
        → IsAscending ends
          × ((i : ℕ) → In i ends → IsCycleEnd left i ⊎ IsCycleEnd right i)
          × ((i : ℕ) → IsCycleEnd left i ⊎ IsCycleEnd right i → In i ends)
    unfolding detect_cycle_ends
    detect_cycle_ends_lem states left right ends l r h =
        let found : List ℕ =
          detect_arm_cycle_ends below c o left ++ detect_arm_cycle_ends below c o right in
        let e : sorted_set found ≡ ends = merged left right ends (rw (l, r) at h) in
        (
          subst IsAscending e (sorted_set-IsAscending found),
          λ i m. either_end left right i (of_sorted_set found (rw (← e) at m)),
          λ i m. rw (← e) (In-sorted_set found (found_end left right i m)),
        )
