-- ===== src/Cycles.antt =====
-- backend/datasets/services/cycle_stamp_service.py: where a gripper ends a cycle from closed to open. A
-- gripper's value is of a type with a comparison, `below`, in place of numpy's float32.
pub mod Ascending
pub mod Ends
use robodata.Prelude.{
  ℕ, ◌+◌, Bool, true, false, List, [], ◌∷◌, ◌++◌, Option, none, some, get_elem?, ltb, ◌==◌,
  if◌then◌else◌,
}

abbrev pub left_gripper_idx : ℕ
left_gripper_idx = 7

abbrev pub right_gripper_idx : ℕ
right_gripper_idx = 15

-- A number in its place of an ascending list, once.
unfoldable pub place : ℕ → List ℕ → List ℕ
place n [] = n ∷ []
place n (m ∷ ms) =
    let rest = place n ms in if ltb n m then n ∷ m ∷ ms else if n == m then m ∷ ms else m ∷ rest

-- sorted(set(xs))
unfoldable pub sorted_set : List ℕ → List ℕ
unfolding place
sorted_set [] = []
sorted_set (n ∷ ns) = place n (sorted_set ns)

module _ {V : Type 0} where
  abbrev pub column_entry : Option V → Option (List V) → Option (List V)
  column_entry none rest = none
  column_entry (some v) none = none
  column_entry (some v) (some vs) = some (v ∷ vs)

  -- states[:, i]; `none` is numpy's IndexError.
  unfoldable pub column : ℕ → List (List V) → Option (List V)
  column i [] = some []
  column i (row ∷ rows) = column_entry (get_elem? row i) (column i rows)

module _ {V : Type 0} (below : V → V → Bool) (closed_threshold open_threshold : V) where
  abbrev pub is_closed : V → Bool
  is_closed v = below v closed_threshold

  abbrev pub is_open : V → Bool
  is_open v = below open_threshold v

  -- The loop, from a frame on, with `searching_for_open`.
  unfoldable pub scan : Bool → ℕ → List V → List ℕ
  scan searching i [] = []
  scan true i (v ∷ vs) =
      let found = scan false (i + 1) vs in
      let not_yet = scan true (i + 1) vs in if is_open v then i ∷ found else not_yet
  scan false i (v ∷ vs) =
      let closing = scan true (i + 1) vs in
      let idle = scan false (i + 1) vs in if is_closed v then closing else idle

  unfoldable pub detect_arm_cycle_ends : List V → List ℕ
  unfolding scan
  detect_arm_cycle_ends [] = []
  detect_arm_cycle_ends (v ∷ vs) = scan (is_closed v) 0 (v ∷ vs)

  abbrev pub merge_ends : Option (List V) → Option (List V) → Option (List ℕ)
  merge_ends none right = none
  merge_ends (some left) none = none
  merge_ends (some left) (some right) =
      some (sorted_set (detect_arm_cycle_ends left ++ detect_arm_cycle_ends right))

  unfoldable pub detect_cycle_ends : List (List V) → Option (List ℕ)
  unfolding column detect_arm_cycle_ends sorted_set
  detect_cycle_ends states =
      merge_ends (column left_gripper_idx states) (column right_gripper_idx states)
