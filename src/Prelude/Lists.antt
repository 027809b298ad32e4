-- ===== src/Prelude/Lists.antt =====
-- Lists measured by native numbers, and predicates over their elements.
use Prim.Native.Nat.{ℕ, zero, suc, ◌+◌, ◌≤◌}
use mathlib.Core.Path.{◌≡◌, refl, ◌∙◌}
use mathlib.Core.Logic.{◌⊎◌, inl, inr}
use mathlib.Core.Bool.{Bool, true, false, ◌||◌, ◌&&◌}
use mathlib.Core.List.{List, [], ◌∷◌, ◌++◌, map}
use mathlib.Core.Option.{Option, none, some}
use robodata.Prelude.Tests.{Bool-cases}
use native.Mathlib.Omega.{arith}

module _ {ℓ} {A : Type ℓ} where
  abbrev pub length : List A → ℕ
  length [] = 0
  length (x ∷ xs) = suc (length xs)

  abbrev pub get_elem? : List A → ℕ → Option A
  get_elem? [] i = none
  get_elem? (x ∷ xs) zero = some x
  get_elem? (x ∷ xs) (suc i) = get_elem? xs i

  abbrev pub take : ℕ → List A → List A
  take zero xs = []
  take (suc n) [] = []
  take (suc n) (x ∷ xs) = x ∷ take n xs

  pub length-append : (xs ys : List A) → length (xs ++ ys) ≡ length xs + length ys
  length-append [] ys = omega arith
  length-append (x ∷ xs) ys = omega (arith, length-append xs ys)

  abbrev pub prepend_if : Bool → A → List A → List A
  prepend_if true x xs = x ∷ xs
  prepend_if false x xs = xs

  -- The elements that pass a test, in order.
  abbrev pub keep : (A → Bool) → List A → List A
  keep p [] = []
  keep p (x ∷ xs) = prepend_if (p x) x (keep p xs)

  abbrev pub any : (A → Bool) → List A → Bool
  any p [] = false
  any p (x ∷ xs) = p x || any p xs

  abbrev pub all : (A → Bool) → List A → Bool
  all p [] = true
  all p (x ∷ xs) = p x && all p xs

  -- The first element that passes a test.
  abbrev pub find_first : (A → Bool) → List A → Option A
  find_first p [] = none
  find_first p (x ∷ xs) = elim (p x) [ true ↦ some x | false ↦ find_first p xs ]

  -- Membership that a proof can match on.
  pub data In (x : A) : List A → Type ℓ where
    here : {xs : List A} → In x (x ∷ xs)
    there : {y : A} {xs : List A} → In x xs → In x (y ∷ xs)

  abbrev pub All {κ} : (A → Type κ) → List A → Type κ
  All P [] = Unit
  All P (x ∷ xs) = P x × All P xs

  -- The second list first, since the lemma recurses on the first one.
  pub All-append {κ} :
      (P : A → Type κ) (zs : List A) → All P zs → (bs : List A) → All P bs → All P (bs ++ zs)
  All-append P zs q [] r = q
  All-append P zs q (b ∷ bs) r = (r.0, All-append P zs q bs r.1)

  pub length-keep-le : (p : A → Bool) (xs : List A) → length (keep p xs) ≤ length xs
  length-keep-le p [] = omega arith
  length-keep-le p (x ∷ xs) = ground (arith, length-keep-le p xs)

  pub find_first-test : (p : A → Bool) (xs : List A) {x : A} → find_first p xs ≡ some x → p x ≡ true
  find_first-test p [] h = ground arith
  find_first-test p (y ∷ xs) {x} h = ground (arith, find_first-test p xs {x = x})

module _ {ℓ κ} {A : Type ℓ} (P : A → Type κ) where
  pub All-In : {x : A} (xs : List A) → All P xs → In x xs → P x
  All-In [] h m = elim m [ ]
  All-In (y ∷ xs) h here = h.0
  All-In (y ∷ xs) h (there m) = All-In xs h.1 m

  pub All-of_In : (xs : List A) → ((x : A) → In x xs → P x) → All P xs
  All-of_In [] f = tt
  All-of_In (x ∷ xs) f = (f x here, All-of_In xs (λ y m. f y (there m)))

module _ {ℓ} {A : Type ℓ} where
  In-prepend_if :
      (b : Bool) (y : A) (ks : List A) {x : A}
      → In x (prepend_if b y ks)
      → ((x ≡ y) × (b ≡ true)) ⊎ In x ks
  In-prepend_if true y ks here = inl (refl, refl)
  In-prepend_if true y ks (there m) = inr m
  In-prepend_if false y ks m = inr m

  pub In-keep : (p : A → Bool) (xs : List A) {x : A} → In x (keep p xs) → In x xs × (p x ≡ true)
  In-keep p [] m = elim m [ ]
  In-keep p (y ∷ xs) {x} m = elim (In-prepend_if (p y) y (keep p xs) m) [
    | inl (e, t) ↦ (rw e here, rw e t)
    | inr n ↦ let (i, t) = In-keep p xs n in (there i, t)
  ]

  pub In-map : {B : Type ℓ} (f : A → B) (xs : List A) {x : A} → In x xs → In (f x) (map f xs)
  In-map f [] m = elim m [ ]
  In-map f (y ∷ xs) here = here
  In-map f (y ∷ xs) (there m) = there (In-map f xs m)

  pub In-any : (p : A → Bool) (xs : List A) {x : A} → In x xs → p x ≡ true → any p xs ≡ true
  In-any p [] m h = elim m [ ]
  In-any p (y ∷ xs) here h = ground arith
  In-any p (y ∷ xs) (there m) h = ground (arith, In-any p xs m h)

  pub any-of_All : (p : A → Bool) (xs : List A) → All (λ x. p x ≡ false) xs → any p xs ≡ false
  any-of_All p [] h = refl
  any-of_All p (x ∷ xs) h = ground (arith, any-of_All p xs h.1)

  pub All-of_any : (p : A → Bool) (xs : List A) → any p xs ≡ false → All (λ x. p x ≡ false) xs
  All-of_any p [] h = tt
  All-of_any p (x ∷ xs) h = (ground arith, All-of_any p xs (ground arith))

module _ {ℓ} {A : Type ℓ} where
  pub find_first-In : (p : A → Bool) (xs : List A) {x : A} → find_first p xs ≡ some x → In x xs
  find_first-In p [] h = ground arith
  find_first-In p (y ∷ xs) {x} h = elim (Bool-cases (p y)) [
    | inl e ↦ let q : y ≡ x = ground arith in rw (← q) here
    | inr e ↦ there (find_first-In p xs (ground arith))
  ]

  pub keep-nil : (p : A → Bool) (xs : List A) → keep p xs ≡ [] → any p xs ≡ false
  keep-nil p [] h = refl
  keep-nil p (x ∷ xs) h = ground (arith, keep-nil p xs)

  pub keep-In : (p : A → Bool) (xs : List A) {x : A} → In x xs → p x ≡ true → In x (keep p xs)
  keep-In p [] m h = m
  keep-In p (y ∷ xs) here h = rw h here
  keep-In p (y ∷ xs) (there m) h = elim (Bool-cases (p y)) [
    | inl t ↦ rw t (there (keep-In p xs m h))
    | inr t ↦ rw t (keep-In p xs m h)
  ]

  pub map-eq_self : (f : A → A) (xs : List A) → ((x : A) → In x xs → f x ≡ x) → map f xs ≡ xs
  map-eq_self f [] h = refl
  map-eq_self f (x ∷ xs) h = cc (h x here, map-eq_self f xs (λ y m. h y (there m)))

  pub find_first-none : (p : A → Bool) (xs : List A) → find_first p xs ≡ none → any p xs ≡ false
  find_first-none p [] h = refl
  find_first-none p (x ∷ xs) h = ground (arith, find_first-none p xs)

  pub find_first-of_any :
      (p : A → Bool) (xs : List A) → any p xs ≡ true → (y : A) × (find_first p xs ≡ some y)
  find_first-of_any p [] h = cc
  find_first-of_any p (x ∷ xs) h = elim (Bool-cases (p x)) [
    | inl e ↦ (x, ground arith)
    | inr e ↦ let (y, f) = find_first-of_any p xs (ground arith) in (y, ground arith)
  ]

  pub In-append_left : {x : A} (xs ys : List A) → In x xs → In x (xs ++ ys)
  In-append_left [] ys m = elim m [ ]
  In-append_left (y ∷ xs) ys here = here
  In-append_left (y ∷ xs) ys (there m) = there (In-append_left xs ys m)

  pub In-cons : {x y : A} {xs : List A} → In x (y ∷ xs) → (x ≡ y) ⊎ In x xs
  In-cons here = inl refl
  In-cons (there m) = inr m

  pub In-append_right : {x : A} (xs ys : List A) → In x ys → In x (xs ++ ys)
  In-append_right [] ys m = m
  In-append_right (y ∷ xs) ys m = there (In-append_right xs ys m)

  pub In-append : {x : A} (xs ys : List A) → In x (xs ++ ys) → In x xs ⊎ In x ys
  In-append [] ys m = inr m
  In-append (y ∷ xs) ys here = inl here
  In-append (y ∷ xs) ys (there m) = elim (In-append xs ys m) [
    | inl k ↦ inl (there k)
    | inr k ↦ inr k
  ]

  pub In-append_end : (x : A) (xs : List A) → In x (xs ++ x ∷ [])
  In-append_end x [] = here
  In-append_end x (y ∷ xs) = there (In-append_end x xs)

module _ {ℓ κ} {A : Type ℓ} {B : Type κ} where
  pub map-eq_of_In :
      (f g : A → B) (xs : List A) → ((x : A) → In x xs → f x ≡ g x) → map f xs ≡ map g xs
  map-eq_of_In f g [] h = refl
  map-eq_of_In f g (x ∷ xs) h = cc (h x here, map-eq_of_In f g xs (λ y m. h y (there m)))

-- No two elements of the list, at different places, clash.
module _ {ℓ} {A : Type ℓ} (clash : A → A → Bool) where
  abbrev pub Apart : List A → Type 0
  Apart [] = Unit
  Apart (x ∷ xs) = (any (clash x) xs ≡ false) × Apart xs

  any-append_one :
      (x y : A) (xs : List A)
      → any (clash x) xs ≡ false
      → clash x y ≡ false
      → any (clash x) (xs ++ y ∷ []) ≡ false
  any-append_one x y [] h k = ground arith
  any-append_one x y (z ∷ xs) h k = ground (arith, any-append_one x y xs)

  -- An element that clashes with none may be added at the end.
  pub Apart-append_one :
      ((x y : A) → clash x y ≡ clash y x)
      → (y : A) (xs : List A) → Apart xs
      → any (clash y) xs ≡ false
      → Apart (xs ++ y ∷ [])
  Apart-append_one sym_clash y [] h k = (refl, tt)
  Apart-append_one sym_clash y (x ∷ xs) h k = (
    any-append_one x y xs h.0 (sym_clash x y ∙ ground arith),
    Apart-append_one sym_clash y xs h.1 (ground arith),
  )

  -- Of an apart list, elements that clash are one.
  pub Apart-same :
      ((x y : A) → clash x y ≡ clash y x)
      → (xs : List A) {x y : A} → Apart xs
      → In x xs
      → In y xs
      → clash x y ≡ true
      → x ≡ y
  Apart-same s [] h m n c = elim m [ ]
  Apart-same s (z ∷ xs) h here here c = refl
  Apart-same s (z ∷ xs) h here (there n) c = cc (In-any (clash z) xs n c, h.0)
  Apart-same s (z ∷ xs) {x} {y} h (there m) here c = cc (In-any (clash z) xs m (s z x ∙ c), h.0)
  Apart-same s (z ∷ xs) h (there m) (there n) c = Apart-same s xs h.1 m n c
