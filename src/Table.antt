-- ===== src/Table.antt =====
-- A table of the Postgres database as its rows in the order of insertion, with the forms of SQL
-- statement that the backend sends: UPDATE … WHERE, and SELECT … ORDER BY … LIMIT 1.
use robodata.Prelude.{
  ℕ, ◌≤◌, ◌≡◌, Bool, List, [], ◌∷◌, ◌++◌, map, Option, none, some, arith, ltb, if◌then◌else◌, In,
  here, there, All, Apart, any, true, false, ◌⊎◌, refl, Bool-cases, Option-cases, inl, inr,
}

module _ {ℓ} {A : Type ℓ} where
  -- The row after UPDATE … SET f WHERE p.
  abbrev pub updated : (A → Bool) → (A → A) → A → A
  updated p f r = if p r then f r else r

  abbrev pub update_where : (A → Bool) → (A → A) → List A → List A
  update_where p f = map (updated p f)

  abbrev pub earlier : (A → ℕ) → A → Option A → Option A
  earlier key r none = some r
  earlier key r (some s) = if ltb (key s) (key r) then some s else some r

  -- The row that ORDER BY key LIMIT 1 returns; among equal keys the first inserted.
  unfoldable pub first_by : (A → ℕ) → List A → Option A
  first_by key [] = none
  first_by key (r ∷ rs) = earlier key r (first_by key rs)

  earlier_bounds :
      (key : A → ℕ) (s t r : A)
      → earlier key s (some t) ≡ some r
      → (key r ≤ key s) × (key r ≤ key t) × ((r ≡ s) ⊎ (r ≡ t))
  earlier_bounds key s t r h = elim (Bool-cases (ltb (key t) (key s))) [
    | inl b ↦ (ground arith, ground arith, inr (ground arith))
    | inr b ↦ (ground arith, ground arith, inl (ground arith))
  ]

  pub first_by-none : (key : A → ℕ) (rs : List A) → first_by key rs ≡ none → rs ≡ []
  unfolding first_by
  first_by-none key [] h = refl
  first_by-none key (r ∷ rs) h = ground arith

  All-weaken :
      (key : A → ℕ) (m n : ℕ)
      → m ≤ n
      → (rs : List A) → All (λ s. n ≤ key s) rs
      → All (λ s. m ≤ key s) rs
  All-weaken key m n h [] a = tt
  All-weaken key m n h (r ∷ rs) a = (omega arith, All-weaken key m n h rs a.1)

  -- The row that `first_by` returns has the least key.
  pub first_by-least :
      (key : A → ℕ) (rs : List A) {r : A} → first_by key rs ≡ some r → All (λ s. key r ≤ key s) rs
  unfolding first_by
  first_by-least key [] h = tt
  first_by-least key (s ∷ rs) {r} h = elim (Option-cases (first_by key rs)) [
    | inl e ↦ (ground arith, rw (first_by-none key rs e) tt)
    | inr (t, e) ↦
        let b = earlier_bounds key s t r (rw e at h) in
        (b.0, All-weaken key (key r) (key t) b.1 rs (first_by-least key rs e))
  ]

  -- It is one of the rows.
  pub first_by-In : (key : A → ℕ) (rs : List A) {r : A} → first_by key rs ≡ some r → In r rs
  unfolding first_by
  first_by-In key [] h = ground arith
  first_by-In key (s ∷ rs) {r} h = elim (Option-cases (first_by key rs)) [
    | inl e ↦ let q : s ≡ r = ground arith in rw (← q) here
    | inr (t, e) ↦ elim ((earlier_bounds key s t r (rw e at h)).2) [
      | inl q ↦ rw q here
      | inr q ↦ rw q (there (first_by-In key rs e))
    ]
  ]

-- Every row of the one table is related to the row at its place in the other.
module _ {ℓ} {A : Type ℓ} (R : A → A → Type 0) where
  abbrev pub Rows : List A → List A → Type 0
  Rows [] [] = Unit
  Rows [] (y ∷ ys) = ⊥
  Rows (x ∷ xs) [] = ⊥
  Rows (x ∷ xs) (y ∷ ys) = R x y × Rows xs ys

  -- The same, of a table that may have more rows at its end.
  abbrev pub Extends : List A → List A → Type 0
  Extends [] ys = Unit
  Extends (x ∷ xs) [] = ⊥
  Extends (x ∷ xs) (y ∷ ys) = R x y × Extends xs ys

  pub Rows-update_where :
      (p : A → Bool) (f : A → A) (xs : List A)
      → ((x : A) → In x xs → R x (updated p f x))
      → Rows xs (update_where p f xs)
  Rows-update_where p f [] r = tt
  Rows-update_where p f (x ∷ xs) r = (r x here, Rows-update_where p f xs (λ y m. r y (there m)))

  pub Rows-refl : ((x : A) → R x x) → (xs : List A) → Rows xs xs
  Rows-refl r [] = tt
  Rows-refl r (x ∷ xs) = (r x, Rows-refl r xs)

  pub Extends-append : (xs ys zs : List A) → Rows xs ys → Extends xs (ys ++ zs)
  Extends-append [] ys zs h = tt
  Extends-append (x ∷ xs) [] zs h = absurd h
  Extends-append (x ∷ xs) (y ∷ ys) zs h = (h.0, Extends-append xs ys zs h.1)

  pub Extends-of_Rows : (xs ys : List A) → Rows xs ys → Extends xs ys
  Extends-of_Rows [] ys h = tt
  Extends-of_Rows (x ∷ xs) [] h = h
  Extends-of_Rows (x ∷ xs) (y ∷ ys) h = (h.0, Extends-of_Rows xs ys h.1)

  pub Extends-refl : ((x : A) → R x x) → (xs : List A) → Extends xs xs
  Extends-refl r [] = tt
  Extends-refl r (x ∷ xs) = (r x, Extends-refl r xs)

  pub Extends-trans :
      ((x y z : A) → R x y → R y z → R x z)
      → (xs ys zs : List A) → Extends xs ys
      → Extends ys zs
      → Extends xs zs
  Extends-trans t [] ys zs h k = tt
  Extends-trans t (x ∷ xs) [] zs h k = absurd h
  Extends-trans t (x ∷ xs) (y ∷ ys) [] h k = absurd k
  Extends-trans t (x ∷ xs) (y ∷ ys) (z ∷ zs) h k =
      (t x y z h.0 k.0, Extends-trans t xs ys zs h.1 k.1)

  pub Extends-In : (xs ys : List A) {x : A} → Extends xs ys → In x xs → (y : A) × In y ys × R x y
  Extends-In [] ys h m = elim m [ ]
  Extends-In (z ∷ xs) [] h m = absurd h
  Extends-In (z ∷ xs) (y ∷ ys) h here = (y, here, h.0)
  Extends-In (z ∷ xs) (y ∷ ys) h (there m) =
      let (w, n, r) = Extends-In xs ys h.1 m in (w, there n, r)

  -- A property of a row that the relation carries over holds of all rows of the new table.
  pub All-Rows :
      (P : A → Type 0)
      → ((x y : A) → R x y → P x → P y)
      → (xs ys : List A) → Rows xs ys
      → All P xs
      → All P ys
  All-Rows P keeps [] [] h a = tt
  All-Rows P keeps [] (y ∷ ys) h a = absurd h
  All-Rows P keeps (x ∷ xs) [] h a = absurd h
  All-Rows P keeps (x ∷ xs) (y ∷ ys) h a = (keeps x y h.0 a.0, All-Rows P keeps xs ys h.1 a.1)

  -- Rows that change so that no two of them clash anew stay apart, as a unique index wants.
  module _ (clash : A → A → Bool)
      (keeps : (x x' y y' : A) → R x x' → R y y' → clash x' y' ≡ true → clash x y ≡ true) where
    any-Rows :
        (x x' : A) (xs ys : List A)
        → R x x'
        → Rows xs ys
        → any (clash x) xs ≡ false
        → any (clash x') ys ≡ false
    any-Rows x x' [] [] r h a = refl
    any-Rows x x' [] (y ∷ ys) r h a = absurd h
    any-Rows x x' (z ∷ xs) [] r h a = absurd h
    any-Rows x x' (z ∷ xs) (y ∷ ys) r h a =
        ground (arith, keeps x x' z y r h.0, any-Rows x x' xs ys r h.1)

    pub Apart-Rows : (xs ys : List A) → Rows xs ys → Apart clash xs → Apart clash ys
    Apart-Rows [] [] h a = tt
    Apart-Rows [] (y ∷ ys) h a = absurd h
    Apart-Rows (x ∷ xs) [] h a = absurd h
    Apart-Rows (x ∷ xs) (y ∷ ys) h a = (any-Rows x y xs ys h.0 h.1 a.0, Apart-Rows xs ys h.1 a.1)
