-- ===== src/Jobs/Listing.antt =====
-- What `list_jobs` of backend/jobs/repo.py returns.
use robodata.Prelude.{
  ℕ, zero, suc, ◌≤◌, String, true, ◌≡◌, refl, ◌⊎◌, inl, inr, List, [], ◌∷◌, Option, arith,
  Bool-cases, length, take, ltb, keep, In, In-cons, In-keep, keep-In, here, there, All, All-In,
}
use robodata.Json.{Json}
use robodata.Jobs.{Job}
use robodata.Jobs.Repo.{JobsTable, Filter, listed, place, by_id_desc, list_jobs}

-- Descending in the id.
abbrev pub IsDescending : List Job → Type 0
IsDescending [] = Unit
IsDescending (j ∷ js) = All (λ k. k.id ≤ j.id) js × IsDescending js

All-place : (P : Job → Type 0) (j : Job) (ks : List Job) → P j → All P ks → All P (place j ks)
unfolding place
All-place P j [] p h = (p, tt)
All-place P j (k ∷ ks) p h = elim (Bool-cases (ltb j.id k.id)) [
  | inl l ↦ rw l (h.0, All-place P j ks p h.1)
  | inr l ↦ rw l (p, h)
]

All-below : (m n : ℕ) (ks : List Job) → m ≤ n → All (λ k. k.id ≤ m) ks → All (λ k. k.id ≤ n) ks
All-below m n [] l h = tt
All-below m n (k ∷ ks) l h = (omega arith, All-below m n ks l h.1)

place-IsDescending : (j : Job) (ks : List Job) → IsDescending ks → IsDescending (place j ks)
unfolding place
place-IsDescending j [] h = (tt, tt)
place-IsDescending j (k ∷ ks) h = elim (Bool-cases (ltb j.id k.id)) [
  | inl l ↦
      rw l (All-place (λ x. x.id ≤ k.id) j ks (ground (arith, l)) h.0, place-IsDescending j ks h.1)
  | inr l ↦ rw l ((ground (arith, l), All-below k.id j.id ks (ground (arith, l)) h.0), h)
]

by_id_desc-IsDescending : (js : List Job) → IsDescending (by_id_desc js)
unfolding by_id_desc
by_id_desc-IsDescending [] = tt
by_id_desc-IsDescending (j ∷ js) = place-IsDescending j (by_id_desc js) (by_id_desc-IsDescending js)

In-place : (j : Job) (ks : List Job) {x : Job} → In x (place j ks) → In x (j ∷ ks)
unfolding place
In-place j [] m = m
In-place j (k ∷ ks) m = elim (Bool-cases (ltb j.id k.id)) [
  | inl l ↦ elim (In-cons (rw l at m)) [
    | inl e ↦ there (rw e here)
    | inr i ↦ elim (In-cons (In-place j ks i)) [ inl e ↦ rw e here | inr n ↦ there (there n) ]
  ]
  | inr l ↦ rw l at m
]

place-In : (j : Job) (ks : List Job) {x : Job} → In x (j ∷ ks) → In x (place j ks)
unfolding place
place-In j [] m = m
place-In j (k ∷ ks) m = elim (Bool-cases (ltb j.id k.id)) [
  | inl l ↦ rw l (elim (In-cons m) [
    | inl e ↦ there (place-In j ks (rw e here))
    | inr i ↦ elim (In-cons i) [ inl e ↦ rw e here | inr n ↦ there (place-In j ks (there n)) ]
  ])
  | inr l ↦ rw l m
]

In-by_id_desc : (js : List Job) {x : Job} → In x (by_id_desc js) → In x js
unfolding by_id_desc
In-by_id_desc [] m = m
In-by_id_desc (j ∷ js) m = elim (In-cons (In-place j (by_id_desc js) m)) [
  | inl e ↦ rw e here
  | inr i ↦ there (In-by_id_desc js i)
]

by_id_desc-In : (js : List Job) {x : Job} → In x js → In x (by_id_desc js)
unfolding by_id_desc
by_id_desc-In [] m = m
by_id_desc-In (j ∷ js) m = elim (In-cons m) [
  | inl e ↦ place-In j (by_id_desc js) (rw e here)
  | inr i ↦ place-In j (by_id_desc js) (there (by_id_desc-In js i))
]

take-In : (n : ℕ) (js : List Job) {x : Job} → In x (take n js) → In x js
take-In zero js m = elim m [ ]
take-In (suc n) [] m = m
take-In (suc n) (j ∷ js) here = here
take-In (suc n) (j ∷ js) (there m) = there (take-In n js m)

All-take : (P : Job → Type 0) (n : ℕ) (js : List Job) → All P js → All P (take n js)
All-take P zero js h = tt
All-take P (suc n) [] h = tt
All-take P (suc n) (j ∷ js) h = (h.0, All-take P n js h.1)

take-IsDescending : (n : ℕ) (js : List Job) → IsDescending js → IsDescending (take n js)
take-IsDescending zero js h = tt
take-IsDescending (suc n) [] h = tt
take-IsDescending (suc n) (j ∷ js) h =
    (All-take (λ k. k.id ≤ j.id) n js h.0, take-IsDescending n js h.1)

length-take-le : (n : ℕ) (js : List Job) → length (take n js) ≤ n
length-take-le zero js = omega arith
length-take-le (suc n) [] = omega arith
length-take-le (suc n) (j ∷ js) = omega (arith, length-take-le n js)

-- The id of a job that LIMIT cuts off exceeds none of those returned, and there are as many as the limit.
take-cut :
    (n : ℕ) (js : List Job) {x : Job}
    → IsDescending js
    → In x js
    → In x (take n js) ⊎ ((length (take n js) ≡ n) × All (λ k. x.id ≤ k.id) (take n js))
take-cut zero js h m = inr (refl, tt)
take-cut (suc n) [] h m = inl m
take-cut (suc n) (j ∷ js) h here = inl here
take-cut (suc n) (j ∷ js) h (there m) = elim (take-cut n js h.1 m) [
  | inl k ↦ inl (there k)
  | inr (l, a) ↦ inr (omega (arith, l), (All-In (λ k. k.id ≤ j.id) js h.0 m, a))
]

-- list_jobs returns jobs of the table that pass the filter, in descending order of their ids and no more
-- than the limit; if one that passes the filter is not returned, its id exceeds none of those that are, and
-- the limit is reached.
pub list_jobs_lem :
    (dataset_id : Json → Option String) (f : Filter) (limit : ℕ) (t : JobsTable)
    → let js = list_jobs dataset_id f limit t in
      IsDescending js
      × (length js ≤ limit)
      × ((j : Job) → In j js → In j t.rows × (listed dataset_id f j ≡ true))
      × ((j : Job)
          → In j t.rows
          → listed dataset_id f j ≡ true
          → In j js ⊎ ((length js ≡ limit) × All (λ k. j.id ≤ k.id) js))
unfolding list_jobs
list_jobs_lem dataset_id f limit t =
    let found = keep (listed dataset_id f) t.rows in
    (
      take-IsDescending limit (by_id_desc found) (by_id_desc-IsDescending found),
      length-take-le limit (by_id_desc found),
      λ j m.
          In-keep (listed dataset_id f) t.rows
            (In-by_id_desc found (take-In limit (by_id_desc found) m)),
      λ j m h.
          take-cut limit (by_id_desc found) (by_id_desc-IsDescending found)
            (by_id_desc-In found (keep-In (listed dataset_id f) t.rows m h)),
    )
