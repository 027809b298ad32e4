-- ===== src/Agent/Reconcile.antt =====
-- .github/scripts/agent_control.py, AgentController.reconcile: what the scheduled run leaves of the project's items.
use robodata.Prelude.{
  ℕ, ◌≤◌, Bool, true, false, ◌&&◌, ◌≡◌, refl, inl, inr, List, [], ◌∷◌, Option, none, some, leb,
  Bool-cases, length, arith,
}
use robodata.Prelude.Checked.{Checked, passed}
use robodata.Table.{Rows}
use robodata.Agent.{ControlError, ClaimState, is_live, claim_from_fields}
use robodata.Agent.Controller.{Board, Effect, apply_effect, apply_effects, is_leased}
use robodata.Agent.Events.{Item, reconcile_item, reconcile, repair, expire_claim, changed}

both_true : (a b : Bool) → a ≡ true → b ≡ true → a && b ≡ true
both_true a b h k = ground arith

-- The item's claim fields can be read, and hold no claim or a live one.
abbrev pub IsSound : ℕ → Board → Type 0
IsSound now b =
    (o : Option ClaimState) × (claim_from_fields b.values ≡ passed o)
    × ((c : ClaimState) → o ≡ some c → is_live now c ≡ true)

-- An item in a lease status is sound.
abbrev pub Reconciled : ℕ → Item → Type 0
Reconciled now i = i.is_own ≡ true → is_leased i.board.values.status ≡ true → IsSound now i.board

-- The item stays as it is, where it is of another repository, in no lease status or sound.
abbrev pub Spared : ℕ → Item → Item → Type 0
Spared now i j =
    (j.is_own ≡ i.is_own)
    × (i.is_own && is_leased i.board.values.status ≡ false → j ≡ i)
    × (IsSound now i.board → j ≡ i)

-- What reconcile makes of an item.
abbrev pub Repaired : ℕ → Item → Item → Type 0
Repaired now i j = Spared now i j × Reconciled now j

module _ (now max_attempts : ℕ) where
  expired-leased :
      (b : Board) (c : ClaimState)
      → is_leased (apply_effects (expire_claim now max_attempts c) b).values.status ≡ false
  unfolding apply_effects apply_effect
  expired-leased b c = elim (Bool-cases (leb max_attempts c.attempt)) [
    | inl t ↦ rw t refl
    | inr t ↦ rw t refl
  ]

  repair-Reconciled :
      (b : Board) (own : Bool) (m : Checked ControlError (Option ClaimState))
      → claim_from_fields b.values ≡ m
      → Reconciled now
          (record { is_own = own; board = apply_effects (repair now max_attempts m) b })
  unfolding apply_effects apply_effect
  repair-Reconciled b own (Checked.rejected e) f o l = cc
  repair-Reconciled b own (passed none) f o l = (none, f, λ c e. cc)
  repair-Reconciled b own (passed (some c)) f o l = elim (Bool-cases (is_live now c)) [
    | inl t ↦
        let live : (d : ClaimState) → some c ≡ some d → is_live now d ≡ true =
          λ d e. let q : c ≡ d = cc in rw (← q) t in
        rw t (some c, f, live)
    | inr t ↦ let u = rw t at l in cc (expired-leased b c)
  ]

  repair_sound :
      (b : Board) → IsSound now b → repair now max_attempts (claim_from_fields b.values) ≡ []
  repair_sound b (none, f, l) = rw f refl
  repair_sound b (some c, f, l) = rw (f, l c refl) refl

  reconcile_item-Repaired :
      (i : Item)
      → Repaired now i
          (record i { board = apply_effects (reconcile_item now max_attempts i) i.board })
  unfolding reconcile_item apply_effects
  reconcile_item-Repaired i = elim (Bool-cases (i.is_own && is_leased i.board.values.status)) [
    | inl t ↦ rw t (
      (refl, λ f. cc, λ s. rw (repair_sound i.board s) refl),
      repair-Reconciled i.board i.is_own (claim_from_fields i.board.values) refl,
    )
    | inr t ↦ rw t (
      (refl, λ f. refl, λ s. refl),
      λ o l. cc (t, both_true i.is_own (is_leased i.board.values.status) o l),
    )
  ]

  changed-le : (es : List Effect) → changed es ≤ 1
  changed-le [] = omega arith
  changed-le (e ∷ es) = omega arith

  -- After reconcile, every item of the repository in a lease status has readable claim fields with no claim or a live
  -- one; the items of other repositories, those in no lease status and those that were so before are as they were; and
  -- the number that it returns is at most that of the items.
  pub reconcile-Repaired :
      (is : List Item)
      → Rows (Repaired now) is (reconcile now max_attempts is).1
        × ((reconcile now max_attempts is).0 ≤ length is)
  unfolding reconcile
  reconcile-Repaired [] = (tt, omega arith)
  reconcile-Repaired (i ∷ is) =
      let (h, n) = reconcile-Repaired is in
      (
        (reconcile_item-Repaired i, h),
        omega (arith, n, changed-le (reconcile_item now max_attempts i)),
      )
