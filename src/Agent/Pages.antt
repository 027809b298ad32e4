-- ===== src/Agent/Pages.antt =====
-- .github/scripts/agent_control.py, GitHubClient.list_comments and has_open_pr: the loops over the pages of a listing.
-- `page` answers for one page; `none` is a failed request or a malformed answer.
use robodata.Prelude.{
  ℕ, zero, suc, ◌+◌, ◌*◌, ◌≤◌, ◌<◌, Bool, true, false, ◌||◌, ◌≡◌, refl, ap, sym, ◌∙◌, inl, inr,
  List, [], ◌∷◌, ◌++◌, Option, none, some, ltb, any, take, length, length-append, Bool-cases,
  ltb→lt, arith, if◌then◌else◌,
}
use mathlib.Core.List.{append_assoc}

-- How a loop ends: `unfinished` is out of fuel.
pub data Listing (A : Type 0) : Type 0 where
  failed unfinished : Listing A
  listed : A → Listing A

not_ltb : (a b : ℕ) → ltb a b ≡ false → b ≤ a
not_ltb a b h = ground arith

module _ {A : Type 0} where
  abbrev pub after_batch : List A → Option (List A) → (List A → Listing (List A)) → Listing (List A)
  after_batch comments none next = failed
  after_batch comments (some batch) next =
      let rest = next (comments ++ batch) in
      if ltb (length batch) 100 then listed (comments ++ batch) else rest

  unfoldable pub list_comments : ℕ → (ℕ → Option (List A)) → ℕ → List A → Listing (List A)
  list_comments zero page p comments = unfinished
  list_comments (suc fuel) page p comments =
      after_batch comments (page p) (λ cs. list_comments fuel page (p + 1) cs)

  abbrev pub after_pulls : (A → Bool) → Option (List A) → (Unit {0} → Listing Bool) → Listing Bool
  after_pulls closes none next = failed
  after_pulls closes (some pulls) next =
      let rest = next tt in
      if any closes pulls
      then listed true
      else if ltb (length pulls) 100
      then listed false
      else rest

  -- `closes` tells whether the body of a pull request closes the issue.
  unfoldable pub has_open_pr : ℕ → (A → Bool) → (ℕ → Option (List A)) → ℕ → Listing Bool
  has_open_pr zero closes page p = unfinished
  has_open_pr (suc fuel) closes page p =
      after_pulls closes (page p) (λ u. has_open_pr fuel closes page (p + 1))

  abbrev pub drop : ℕ → List A → List A
  drop zero xs = xs
  drop (suc n) [] = []
  drop (suc n) (x ∷ xs) = drop n xs

  -- GitHub's pages, from the first one, of a listing that does not change meanwhile.
  abbrev pub Serves : List A → (ℕ → Option (List A)) → Type 0
  Serves xs page = (n : ℕ) → page (n + 1) ≡ some (take 100 (drop (100 * n) xs))

  take-drop : (n : ℕ) (xs : List A) → take n xs ++ drop n xs ≡ xs
  take-drop zero xs = refl
  take-drop (suc n) [] = refl
  take-drop (suc n) (x ∷ xs) = ap (λ ys. x ∷ ys) (take-drop n xs)

  drop-nil : (n : ℕ) → drop n [] ≡ []
  drop-nil zero = refl
  drop-nil (suc n) = refl

  drop-drop : (m n : ℕ) (xs : List A) → drop (m + n) xs ≡ drop n (drop m xs)
  drop-drop zero n xs = let e : 0 + n ≡ n = omega arith in ap (λ k. drop k xs) e
  drop-drop (suc m) n [] =
      let e : suc m + n ≡ suc (m + n) = omega arith in ap (λ k. drop k []) e ∙ sym (drop-nil n)
  drop-drop (suc m) n (x ∷ xs) =
      let e : suc m + n ≡ suc (m + n) = omega arith in
      ap (λ k. drop k (x ∷ xs)) e ∙ drop-drop m n xs

  short_take : (n : ℕ) (xs : List A) → length (take n xs) < n → take n xs ≡ xs
  short_take zero xs h = absurd (omega arith)
  short_take (suc n) [] h = refl
  short_take (suc n) (x ∷ xs) h = ap (λ ys. x ∷ ys) (short_take n xs (omega (arith, h)))

  length-take-drop : (n : ℕ) (xs : List A) → length (take n xs) + length (drop n xs) ≡ length xs
  length-take-drop n xs = sym (length-append (take n xs) (drop n xs)) ∙ ap length (take-drop n xs)

  any-append : (p : A → Bool) (xs ys : List A) → any p (xs ++ ys) ≡ any p xs || any p ys
  any-append p [] ys = refl
  any-append p (x ∷ xs) ys = ground (arith, any-append p xs ys)

  next_page : (n : ℕ) (xs : List A) → drop (100 * (n + 1)) xs ≡ drop 100 (drop (100 * n) xs)
  next_page n xs =
      let e : 100 * (n + 1) ≡ 100 * n + 100 = omega arith in
      ap (λ k. drop k xs) e ∙ drop-drop (100 * n) 100 xs

  module _ (xs : List A) (page : ℕ → Option (List A)) (serves : Serves xs page) where
    less_left :
        (fuel n : ℕ)
        → length (drop (100 * n) xs) < 100 * suc fuel
        → ltb (length (take 100 (drop (100 * n) xs))) 100 ≡ false
        → length (drop (100 * (n + 1)) xs) < 100 * fuel
    less_left fuel n h t = rw (next_page n xs) (
        omega (
          arith,
          h,
          not_ltb (length (take 100 (drop (100 * n) xs))) 100 t,
          length-take-drop 100 (drop (100 * n) xs),
        ))

    list_comments-from :
        (fuel n : ℕ) (acc : List A)
        → acc ++ drop (100 * n) xs ≡ xs
        → length (drop (100 * n) xs) < 100 * fuel
        → list_comments fuel page (n + 1) acc ≡ listed xs
    unfolding list_comments
    list_comments-from zero n acc e h = absurd (omega (arith, h))
    list_comments-from (suc fuel) n acc e h =
        elim (Bool-cases (ltb (length (take 100 (drop (100 * n) xs))) 100)) [
          | inl t ↦
              let whole = short_take 100 (drop (100 * n) xs) (ltb→lt _ _ t) in
              rw (serves n, t) (ap listed (ap (λ zs. acc ++ zs) whole ∙ e))
          | inr t ↦
              let more : (acc ++ take 100 (drop (100 * n) xs)) ++ drop (100 * (n + 1)) xs ≡ xs =
                rw (next_page n xs) (
                  append_assoc acc (take 100 (drop (100 * n) xs)) (drop 100 (drop (100 * n) xs))
                  ∙ ap (λ zs. acc ++ zs) (take-drop 100 (drop (100 * n) xs))
                  ∙ e) in
              rw (serves n, t)
                (list_comments-from fuel (n + 1) (acc ++ take 100 (drop (100 * n) xs)) more
                  (less_left fuel n h t))
        ]

    -- If a listing of fewer than 100 times the fuel does not change, the loop of list_comments ends and returns all of it,
    -- in order.
    pub list_comments_lem :
        (fuel : ℕ) → length xs < 100 * fuel → list_comments fuel page 1 [] ≡ listed xs
    list_comments_lem fuel h = list_comments-from fuel 0 [] refl h

    has_open_pr-from :
        (closes : A → Bool) (fuel n : ℕ)
        → length (drop (100 * n) xs) < 100 * fuel
        → has_open_pr fuel closes page (n + 1) ≡ listed (any closes (drop (100 * n) xs))
    unfolding has_open_pr
    has_open_pr-from closes zero n h = absurd (omega (arith, h))
    has_open_pr-from closes (suc fuel) n h =
        let ys = drop (100 * n) xs in
        let halves : any closes ys ≡ any closes (take 100 ys) || any closes (drop 100 ys) =
          ap (any closes) (sym (take-drop 100 ys))
          ∙ any-append closes (take 100 ys) (drop 100 ys) in
        elim (Bool-cases (any closes (take 100 ys))) [
          | inl a ↦ rw (serves n, a) (ap listed (sym (rw a at halves)))
          | inr a ↦ elim (Bool-cases (ltb (length (take 100 ys)) 100)) [
            | inl t ↦
                let whole = short_take 100 ys (ltb→lt _ _ t) in
                rw (serves n, a, t) (ap listed (sym a ∙ ap (any closes) whole))
            | inr t ↦
                rw (serves n, a, t)
                  (has_open_pr-from closes fuel (n + 1) (less_left fuel n h t)
                    ∙ ap listed (ap (any closes) (next_page n xs) ∙ sym (rw a at halves)))
          ]
        ]

    -- If a listing of fewer than 100 times the fuel does not change, the loop of has_open_pr ends and tells whether a pull
    -- request on any of its pages closes the issue.
    pub has_open_pr_lem :
        (closes : A → Bool) (fuel : ℕ)
        → length xs < 100 * fuel
        → has_open_pr fuel closes page 1 ≡ listed (any closes xs)
    has_open_pr_lem closes fuel h = has_open_pr-from closes fuel 0 h
