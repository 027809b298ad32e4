-- ===== src/Rollback.antt =====
-- backend/jobs/runner_helpers.py: a dataset is rewritten in place, with the old one moved aside. The file
-- system is an argument: what it holds at a path, and its operations, each of which may raise.
use robodata.Prelude.{
  Bool, true, false, ◌≡◌, refl, ap, sym, ◌∙◌, Option, none, some, is_some, if◌then◌else◌,
  Bool-cases, inl, inr,
}

-- An operation's state after it, with `true` where it has not raised.
pub record Files (P S D : Type 0) : Type 0 where
  pub look : P → S → Option D
  pub rename : P → P → S → Bool × S
  pub rmtree : P → S → Bool × S

pub data Body (E T : Type 0) : Type 0 where
  finished : T → Body E T
  failed : E → Body E T

-- Why the run has raised: `some e` is the exception of `fn`, `none` that of removing the backup.
pub data Run (E T : Type 0) : Type 0 where
  returned : T → Run E T
  not_moved : Run E T
  restored : Option E → Run E T
  target_stuck : Option E → Run E T
  backup_stuck : Option E → Run E T

module _ {P S D : Type 0} (files : Files P S D) where
  -- A move carries what its path holds to the other path; one that raises leaves it.
  abbrev pub Moves : P → P → Type 0
  Moves p q =
      (s : S)
      → ((files.rename p q s).0 ≡ true → files.look q (files.rename p q s).1 ≡ files.look p s)
        × ((files.rename p q s).0 ≡ false → files.look p (files.rename p q s).1 ≡ files.look p s)

  -- A removal that does not raise leaves nothing at its path, and no removal touches the other path.
  abbrev pub Removes : P → P → Type 0
  Removes p q =
      (s : S)
      → ((files.rmtree p s).0 ≡ true → files.look p (files.rmtree p s).1 ≡ none)
        × (files.look q (files.rmtree p s).1 ≡ files.look q s)

module _ {P S D E T : Type 0} (files : Files P S D) (backup target : P) where
  abbrev pub renamed_back : Option E → Bool × S → Run E T × S
  renamed_back e (true, s) = (restored e, s)
  renamed_back e (false, s) = (backup_stuck e, s)

  abbrev pub removed_target : Option E → Bool × S → Run E T × S
  removed_target e (true, s) = renamed_back e (files.rename backup target s)
  removed_target e (false, s) = (target_stuck e, s)

  -- The `except` block.
  abbrev pub roll_back : Option E → S → Run E T × S
  roll_back e s =
      if is_some (files.look target s)
      then removed_target e (files.rmtree target s)
      else renamed_back e (files.rename backup target s)

  abbrev pub removed_backup : T → Bool × S → Run E T × S
  removed_backup x (true, s) = (returned x, s)
  removed_backup x (false, s) = roll_back none s

  abbrev pub after_body : Body E T × S → Run E T × S
  after_body (finished x, s) = removed_backup x (files.rmtree backup s)
  after_body (failed e, s) = roll_back (some e) s

  abbrev pub after_move : (S → Body E T × S) → Bool × S → Run E T × S
  after_move fn (false, s) = (not_moved, s)
  after_move fn (true, s) = after_body (fn s)

  -- `fn` is the call fn(backup, target).
  unfoldable pub run_in_place_with_rollback : (S → Body E T × S) → S → Run E T × S
  run_in_place_with_rollback fn s = after_move fn (files.rename target backup s)

module _ {P S D E : Type 0} (T : Type 0) (files : Files P S D) (backup target : P)
    (moves_aside : Moves files target backup) (moves_back : Moves files backup target)
    (removes_target : Removes files target backup)
    (removes_backup : Removes files backup target) where
  -- Where `old` is after a rollback, by how far that came.
  abbrev IsBack : Option E → Option D → Run E T × S → Type 0
  IsBack e old (returned x, s) = ⊥
  IsBack e old (not_moved, s) = ⊥
  IsBack e old (restored e', s) = (e' ≡ e) × (files.look target s ≡ old)
  IsBack e old (target_stuck e', s) = (e' ≡ e) × (files.look backup s ≡ old)
  IsBack e old (backup_stuck e', s) = (e' ≡ e) × (files.look backup s ≡ old)

  renamed_back-IsBack :
      (e : Option E) (old : Option D) (r : Bool × S)
      → (r.0 ≡ true → files.look target r.1 ≡ old)
      → (r.0 ≡ false → files.look backup r.1 ≡ old)
      → IsBack e old (renamed_back files backup target e r)
  renamed_back-IsBack e old (true, s) f g = (refl, f refl)
  renamed_back-IsBack e old (false, s) f g = (refl, g refl)

  renamed_again-IsBack :
      (e : Option E) (old : Option D) (s : S)
      → files.look backup s ≡ old
      → IsBack e old (renamed_back files backup target e (files.rename backup target s))
  renamed_again-IsBack e old s h =
      renamed_back-IsBack e old (files.rename backup target s) (λ r. (moves_back s).0 r ∙ h)
        (λ r. (moves_back s).1 r ∙ h)

  removed_target-IsBack :
      (e : Option E) (old : Option D) (r : Bool × S)
      → files.look backup r.1 ≡ old
      → IsBack e old (removed_target files backup target e r)
  removed_target-IsBack e old (true, s) h = renamed_again-IsBack e old s h
  removed_target-IsBack e old (false, s) h = (refl, h)

  roll_back-IsBack :
      (e : Option E) (old : Option D) (s : S)
      → files.look backup s ≡ old
      → IsBack e old (roll_back files backup target e s)
  roll_back-IsBack e old s h = elim (Bool-cases (is_some (files.look target s))) [
    | inl there ↦
        rw there (removed_target-IsBack e old (files.rmtree target s) ((removes_target s).1 ∙ h))
    | inr gone ↦ rw gone (renamed_again-IsBack e old s h)
  ]

  module _ (fn : S → Body E T × S) (s : S) where
    abbrev moved : S
    moved = (files.rename target backup s).1

    -- What the backup holds when the rollback begins: the old dataset if `fn` has raised, and otherwise what
    -- a removal that raised has left of it.
    abbrev left_of : Option E → Option D
    left_of (some e) = files.look target s
    left_of none = files.look backup (files.rmtree backup (fn moved).1).1

    abbrev pub RunSpec : Run E T × S → Type 0
    RunSpec (returned x, s') =
        ((fn moved).0 ≡ finished x)
        × (files.look target s' ≡ files.look target (fn moved).1)
        × (files.look backup s' ≡ none)
    RunSpec (not_moved, s') = files.look target s' ≡ files.look target s
    RunSpec (restored e, s') = files.look target s' ≡ left_of e
    RunSpec (target_stuck e, s') = files.look backup s' ≡ left_of e
    RunSpec (backup_stuck e, s') = files.look backup s' ≡ left_of e

    back-RunSpec : (e : Option E) (r : Run E T × S) → IsBack e (left_of e) r → RunSpec r
    back-RunSpec e (returned x, s') h = absurd h
    back-RunSpec e (not_moved, s') h = absurd h
    back-RunSpec e (restored e', s') h = rw h.0 h.1
    back-RunSpec e (target_stuck e', s') h = rw h.0 h.1
    back-RunSpec e (backup_stuck e', s') h = rw h.0 h.1

    removed_backup-RunSpec :
        (x : T) (r : Bool × S)
        → (fn moved).0 ≡ finished x
        → r ≡ files.rmtree backup (fn moved).1
        → RunSpec (removed_backup files backup target x r)
    removed_backup-RunSpec x (true, s') f e = (
      f,
      ap (λ q. files.look target q.1) e ∙ (removes_backup (fn moved).1).1,
      ap (λ q. files.look backup q.1) e ∙ (removes_backup (fn moved).1).0 (ap (λ q. q.0) (sym e)),
    )
    removed_backup-RunSpec x (false, s') f e =
        back-RunSpec none _
          (roll_back-IsBack none (left_of none) s' (ap (λ q. files.look backup q.1) e))

    after_body-RunSpec :
        (r : Body E T × S)
        → r ≡ fn moved
        → files.look backup r.1 ≡ files.look target s
        → RunSpec (after_body files backup target r)
    after_body-RunSpec (finished x, s') e k =
        removed_backup-RunSpec x (files.rmtree backup s') (ap (λ q. q.0) (sym e))
          (ap (λ q. files.rmtree backup q.1) e)
    after_body-RunSpec (failed e, s') q k =
        back-RunSpec (some e) _ (roll_back-IsBack (some e) (left_of (some e)) s' k)

    after_move-RunSpec :
        (r : Bool × S)
        → r ≡ files.rename target backup s
        → ((t : S) → files.look backup (fn t).1 ≡ files.look backup t)
        → RunSpec (after_move files backup target fn r)
    after_move-RunSpec (true, s') e keeps =
        after_body-RunSpec (fn s') (ap (λ q. fn q.1) e)
          (keeps s' ∙ ap (λ q. files.look backup q.1) e ∙ (moves_aside s).0 (ap (λ q. q.0) (sym e)))
    after_move-RunSpec (false, s') e keeps =
        ap (λ q. files.look target q.1) e ∙ (moves_aside s).1 (ap (λ q. q.0) (sym e))

    -- A dataset that is rewritten in place is not lost when the rewriting raises: if `fn` leaves the backup
    -- alone, the target is as it was, or, where the rollback raises too, the backup holds what it was. If
    -- `fn` returns, the target is what it made and the backup is gone. But if only the removal of the backup
    -- raises, the target becomes what that removal has left of the backup.
    pub run_in_place_with_rollback_lem :
        ((t : S) → files.look backup (fn t).1 ≡ files.look backup t)
        → RunSpec (run_in_place_with_rollback files backup target fn s)
    unfolding run_in_place_with_rollback
    run_in_place_with_rollback_lem = after_move-RunSpec (files.rename target backup s) refl
