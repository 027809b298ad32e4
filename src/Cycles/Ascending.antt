-- ===== src/Cycles/Ascending.antt =====
-- sorted(set(…)), as backend/datasets/services/cycle_stamp_service.py merges the ends of both grippers.
use robodata.Prelude.{
  ℕ, ◌<◌, ◌≡◌, inl, inr, List, [], ◌∷◌, arith, ltb, ◌==◌, In, here, there, All, All-In, All-of_In,
  Bool-cases,
}
use robodata.Cycles.{place, sorted_set}

-- Each number is smaller than those that follow.
abbrev pub IsAscending : List ℕ → Type 0
IsAscending [] = Unit
IsAscending (n ∷ ns) = All (λ m. n < m) ns × IsAscending ns

All-place : (P : ℕ → Type 0) (n : ℕ) (ns : List ℕ) → P n → All P ns → All P (place n ns)
unfolding place
All-place P n [] p h = (p, tt)
All-place P n (m ∷ ms) p h = elim (Bool-cases (ltb n m)) [
  | inl l ↦ rw l (p, (h.0, h.1))
  | inr l ↦ elim (Bool-cases (n == m)) [
    | inl e ↦ rw (l, e) (h.0, h.1)
    | inr e ↦ rw (l, e) (h.0, All-place P n ms p h.1)
  ]
]

All-above : (n m : ℕ) (ns : List ℕ) → n < m → All (λ k. m < k) ns → All (λ k. n < k) ns
All-above n m [] l h = tt
All-above n m (k ∷ ns) l h = (omega arith, All-above n m ns l h.1)

place-IsAscending : (n : ℕ) (ns : List ℕ) → IsAscending ns → IsAscending (place n ns)
unfolding place
place-IsAscending n [] h = (tt, tt)
place-IsAscending n (m ∷ ms) h = elim (Bool-cases (ltb n m)) [
  | inl l ↦ rw l ((ground arith, All-above n m ms (ground arith) h.0), h)
  | inr l ↦ elim (Bool-cases (n == m)) [
    | inl e ↦ rw (l, e) h
    | inr e ↦ rw (l, e) (All-place (λ k. m < k) n ms (ground arith) h.0, place-IsAscending n ms h.1)
  ]
]

pub sorted_set-IsAscending : (ns : List ℕ) → IsAscending (sorted_set ns)
unfolding sorted_set
sorted_set-IsAscending [] = tt
sorted_set-IsAscending (n ∷ ns) = place-IsAscending n (sorted_set ns) (sorted_set-IsAscending ns)

In-place : (n : ℕ) (ns : List ℕ) → In n (place n ns)
unfolding place
In-place n [] = here
In-place n (m ∷ ms) = elim (Bool-cases (ltb n m)) [
  | inl l ↦ rw l here
  | inr l ↦ elim (Bool-cases (n == m)) [
    | inl e ↦ let d : n ≡ m = ground arith in rw (l, e, d) here
    | inr e ↦ rw (l, e) (there (In-place n ms))
  ]
]

under_first :
    (n i k : ℕ) (ks : List ℕ)
    → In i (k ∷ ks)
    → (In i ks → In i (place n ks))
    → In i (k ∷ place n ks)
under_first n i k ks here f = here
under_first n i k ks (there m) f = there (f m)

In-place_old : (n : ℕ) (ns : List ℕ) {i : ℕ} → In i ns → In i (place n ns)
unfolding place
In-place_old n [] m = elim m [ ]
In-place_old n (k ∷ ks) {i} m = elim (Bool-cases (ltb n k)) [
  | inl l ↦ rw l (there m)
  | inr l ↦ elim (Bool-cases (n == k)) [
    | inl e ↦ rw (l, e) m
    | inr e ↦ rw (l, e) (under_first n i k ks m (In-place_old n ks))
  ]
]

pub In-sorted_set : (ns : List ℕ) {i : ℕ} → In i ns → In i (sorted_set ns)
unfolding sorted_set
In-sorted_set [] m = elim m [ ]
In-sorted_set (n ∷ ns) here = In-place n (sorted_set ns)
In-sorted_set (n ∷ ns) (there m) = In-place_old n (sorted_set ns) (In-sorted_set ns m)

pub of_sorted_set : (ns : List ℕ) {i : ℕ} → In i (sorted_set ns) → In i ns
unfolding sorted_set
of_sorted_set [] m = elim m [ ]
of_sorted_set (n ∷ ns) m =
    All-In (λ i. In i (n ∷ ns)) _
      (All-place (λ i. In i (n ∷ ns)) n (sorted_set ns) here
        (All-of_In (λ i. In i (n ∷ ns)) (sorted_set ns) (λ i k. there (of_sorted_set ns k))))
      m
