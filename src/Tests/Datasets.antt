-- ===== src/Tests/Datasets.antt =====
-- Cycle detection on a gripper whose values are tenths, and the rewriting in place on a file system of two
-- paths, the target (`true`) and its backup (`false`).
use robodata.Prelude.{
  ℕ, Bool, true, false, ◌≡◌, refl, List, [], ◌∷◌, Option, none, some, ltb, arith, ◌⊎◌, In,
}
use robodata.Cycles.{column, detect_arm_cycle_ends, detect_cycle_ends, sorted_set, place}
use robodata.Cycles.Ascending.{IsAscending}
use robodata.Cycles.Ends.{IsCycleEnd, detect_arm_cycle_ends_iff, detect_cycle_ends_lem}
use robodata.Rollback.{
  Files, Body, failed, restored, run_in_place_with_rollback, run_in_place_with_rollback_lem, Moves,
}

abbrev with_grippers : ℕ → ℕ → List ℕ
with_grippers l r = 0 ∷ 0 ∷ 0 ∷ 0 ∷ 0 ∷ 0 ∷ 0 ∷ l ∷ 0 ∷ 0 ∷ 0 ∷ 0 ∷ 0 ∷ 0 ∷ 0 ∷ r ∷ []

abbrev states : List (List ℕ)
states =
    with_grippers 9 2
    ∷ with_grippers 3 6
    ∷ with_grippers 7 9
    ∷ with_grippers 9 9
    ∷ with_grippers 9 1
    ∷ with_grippers 2 9
    ∷ []

both_arms : detect_cycle_ends ltb 5 8 states ≡ some (2 ∷ 3 ∷ 5 ∷ [])
unfolding detect_cycle_ends column detect_arm_cycle_ends sorted_set place
both_arms = refl

apart : (v : ℕ) → ltb v 5 ≡ true → ltb 8 v ≡ false
apart v h = ground arith

detect_arm_cycle_ends_iff_example :
    (In 2 (detect_arm_cycle_ends ltb 5 8 (9 ∷ 3 ∷ 9 ∷ [])) → IsCycleEnd ltb 5 8 (9 ∷ 3 ∷ 9 ∷ []) 2)
    × (IsCycleEnd ltb 5 8 (9 ∷ 3 ∷ 9 ∷ []) 2
        → In 2 (detect_arm_cycle_ends ltb 5 8 (9 ∷ 3 ∷ 9 ∷ [])))
detect_arm_cycle_ends_iff_example = detect_arm_cycle_ends_iff ltb 5 8 apart (9 ∷ 3 ∷ 9 ∷ []) 2

detect_cycle_ends_lem_example :
    IsAscending (2 ∷ 3 ∷ 5 ∷ [])
    × ((i : ℕ)
        → In i (2 ∷ 3 ∷ 5 ∷ [])
        → IsCycleEnd ltb 5 8 (9 ∷ 3 ∷ 7 ∷ 9 ∷ 9 ∷ 2 ∷ []) i
          ⊎ IsCycleEnd ltb 5 8 (2 ∷ 6 ∷ 9 ∷ 9 ∷ 1 ∷ 9 ∷ []) i)
    × ((i : ℕ)
        → IsCycleEnd ltb 5 8 (9 ∷ 3 ∷ 7 ∷ 9 ∷ 9 ∷ 2 ∷ []) i
          ⊎ IsCycleEnd ltb 5 8 (2 ∷ 6 ∷ 9 ∷ 9 ∷ 1 ∷ 9 ∷ []) i
        → In i (2 ∷ 3 ∷ 5 ∷ []))
unfolding detect_cycle_ends column detect_arm_cycle_ends sorted_set place
detect_cycle_ends_lem_example =
    detect_cycle_ends_lem ltb 5 8 apart states (9 ∷ 3 ∷ 7 ∷ 9 ∷ 9 ∷ 2 ∷ [])
      (2 ∷ 6 ∷ 9 ∷ 9 ∷ 1 ∷ 9 ∷ []) (2 ∷ 3 ∷ 5 ∷ []) refl refl refl

abbrev Disk : Type 0
Disk = Option ℕ × Option ℕ

abbrev look_at : Bool → Disk → Option ℕ
look_at true s = s.0
look_at false s = s.1

abbrev move : Bool → Bool → Disk → Bool × Disk
move true false (some d, none) = (true, (none, some d))
move false true (none, some d) = (true, (some d, none))
move _ _ s = (false, s)

abbrev remove : Bool → Disk → Bool × Disk
remove true s = (true, (none, s.1))
remove false s = (true, (s.0, none))

abbrev disk : Files Bool Disk ℕ
disk = record { look = look_at; rename = move; rmtree = remove }

aside : Moves disk true false
aside (some d, none) = (λ h. refl, λ h. cc)
aside (some d, some e) = (λ h. cc, λ h. refl)
aside (none, none) = (λ h. cc, λ h. refl)
aside (none, some e) = (λ h. cc, λ h. refl)

back : Moves disk false true
back (none, some d) = (λ h. refl, λ h. cc)
back (some e, some d) = (λ h. cc, λ h. refl)
back (none, none) = (λ h. cc, λ h. refl)
back (some e, none) = (λ h. cc, λ h. refl)

-- It writes half of a dataset, and raises.
abbrev half_written : Disk → Body ℕ Unit × Disk
half_written s = (failed 500, (some 1, s.1))

half_written_restored :
    run_in_place_with_rollback disk false true half_written (some 7, none)
    ≡ (restored (some 500), (some 7, none))
unfolding run_in_place_with_rollback
half_written_restored = refl

run_in_place_with_rollback_lem_example :
    (run_in_place_with_rollback disk false true half_written (some 7, none)).1.0 ≡ some 7
unfolding run_in_place_with_rollback
run_in_place_with_rollback_lem_example =
    run_in_place_with_rollback_lem Unit disk false true aside back (λ s. (λ h. refl, refl))
      (λ s. (λ h. refl, refl)) half_written (some 7, none) (λ s. refl)
