-- ===== src/Registry/Cache.antt =====
-- The well-formed caches of backend/datasets/services/dataset_registry.py, and what `invalidate` does.
use robodata.Prelude.{
  ℕ, String, ◌≢◌, In-keep, keep-In, ◌+◌, ◌≤◌, Bool, true, false, ◌≡◌, refl, sym, ◌∙◌, inl, inr,
  List, [], ◌∷◌, ◌++◌, none, leb, keep, arith, length, find_first, Bool-cases, any, In, In-any,
  length-keep-le, Apart, Apart-append_one, length-append,
}
use robodata.Paths.{ResolvedPath, same_path, same_path_refl, same_path-eq}
use robodata.Registry.{
  Context, Registry, at_path, elsewhere, lookup, put_last, evict, touch, key_elsewhere, invalidate,
}

same_path_comm : (p q : ResolvedPath) → same_path p q ≡ same_path q p
same_path_comm p q = elim (Bool-cases (same_path p q)) [
  | inl h ↦ let e = same_path-eq p q h in rw e refl
  | inr h ↦ elim (Bool-cases (same_path q p)) [
    | inl k ↦ cc (same_path-eq q p k, same_path_refl p, k)
    | inr k ↦ h ∙ sym k
  ]
]

other_key : (p : ResolvedPath) (e : String × ResolvedPath) → key_elsewhere p e ≡ true → p ≢ e.1
other_key p e h q =
    let s : same_path e.1 p ≡ true = rw (← q) (same_path_refl p) in ground (arith, s, h)

kept_key : (p : ResolvedPath) (e : String × ResolvedPath) → p ≢ e.1 → key_elsewhere p e ≡ true
kept_key p e n = elim (Bool-cases (same_path e.1 p)) [
  | inl h ↦ absurd (n (sym (same_path-eq e.1 p h)))
  | inr h ↦ ground (arith, h)
]

module _ {F C : Type 0} where
  abbrev pub same_dataset : Context F C → Context F C → Bool
  same_dataset c d = same_path c.dataset_path d.dataset_path

  -- One context for each path, and no more than the cache may hold.
  pub record IsCache (g : Registry F C) : Type 0 where
    pub paths : Apart same_dataset g.items
    pub size : length g.items ≤ g.max_size
    pub room : 1 ≤ g.max_size

  same_dataset_comm : (c d : Context F C) → same_dataset c d ≡ same_dataset d c
  same_dataset_comm c d = same_path_comm c.dataset_path d.dataset_path

  any-keep :
      (p : Context F C → Bool) (q : Context F C → Bool) (cs : List (Context F C))
      → any p cs ≡ false
      → any p (keep q cs) ≡ false
  any-keep p q [] h = refl
  any-keep p q (c ∷ cs) h = elim (Bool-cases (q c)) [
    | inl k ↦ rw k (ground (arith, any-keep p q cs))
    | inr k ↦ rw k (any-keep p q cs (ground arith))
  ]

  keep-Apart :
      (q : Context F C → Bool) (cs : List (Context F C))
      → Apart same_dataset cs
      → Apart same_dataset (keep q cs)
  keep-Apart q [] h = tt
  keep-Apart q (c ∷ cs) h = elim (Bool-cases (q c)) [
    | inl k ↦ rw k (any-keep (same_dataset c) q cs h.0, keep-Apart q cs h.1)
    | inr k ↦ rw k (keep-Apart q cs h.1)
  ]

  none_at :
      (p : ResolvedPath) (cs : List (Context F C)) → any (at_path p) (keep (elsewhere p) cs) ≡ false
  none_at p [] = refl
  none_at p (c ∷ cs) = elim (Bool-cases (at_path p c)) [
    | inl k ↦ rw k (none_at p cs)
    | inr k ↦ rw k (ground (arith, k, none_at p cs))
  ]

  pub put_last-Apart :
      (c : Context F C) (cs : List (Context F C))
      → Apart same_dataset cs
      → Apart same_dataset (put_last c cs)
  unfolding put_last
  put_last-Apart c cs h =
      Apart-append_one same_dataset same_dataset_comm c (keep (elsewhere c.dataset_path) cs)
        (keep-Apart (elsewhere c.dataset_path) cs h) (none_at c.dataset_path cs)

  pub evict-Apart :
      (n : ℕ) (cs : List (Context F C)) → Apart same_dataset cs → Apart same_dataset (evict n cs)
  unfolding evict
  evict-Apart n [] h = tt
  evict-Apart n (c ∷ cs) h = elim (Bool-cases (leb (length (c ∷ cs)) n)) [
    | inl k ↦ rw k h
    | inr k ↦ rw k (evict-Apart n cs h.1)
  ]

  pub length-evict : (n : ℕ) (cs : List (Context F C)) → length (evict n cs) ≤ n
  unfolding evict
  length-evict n [] = omega arith
  length-evict n (c ∷ cs) = elim (Bool-cases (leb (length (c ∷ cs)) n)) [
    | inl k ↦ rw k (ground (arith, k))
    | inr k ↦ rw k (length-evict n cs)
  ]

  -- The context is the most recently used one.
  abbrev pub IsLast : Context F C → List (Context F C) → Type 0
  IsLast c cs = (older : List (Context F C)) × (cs ≡ older ++ c ∷ [])

  pub evict-IsLast :
      (n : ℕ) (c : Context F C) (older : List (Context F C))
      → 1 ≤ n
      → IsLast c (evict n (older ++ c ∷ []))
  unfolding evict
  evict-IsLast n c [] h = let fits : leb 1 n ≡ true = ground (arith, h) in rw fits ([], refl)
  evict-IsLast n c (d ∷ older) h = elim (Bool-cases (leb (length (d ∷ older ++ c ∷ [])) n)) [
    | inl k ↦ rw k (d ∷ older, refl)
    | inr k ↦ rw k (evict-IsLast n c older h)
  ]

  length-without :
      (p : ResolvedPath) (cs : List (Context F C))
      → any (at_path p) cs ≡ true
      → length (keep (elsewhere p) cs) + 1 ≤ length cs
  length-without p [] h = cc
  length-without p (c ∷ cs) h = elim (Bool-cases (at_path p c)) [
    | inl k ↦ rw k (omega (arith, length-keep-le (elsewhere p) cs))
    | inr k ↦ rw k (omega (arith, length-without p cs (rw k at h)))
  ]

  In-at_path :
      (c : Context F C) (cs : List (Context F C)) → In c cs → any (at_path c.dataset_path) cs ≡ true
  In-at_path c cs m = In-any (at_path c.dataset_path) cs m (same_path_refl c.dataset_path)

  pub touch-IsCache :
      (c : Context F C) (g : Registry F C) → In c g.items → IsCache g → IsCache (touch c g)
  unfolding put_last
  touch-IsCache c g m v = record {
    paths = put_last-Apart c g.items v.paths;
    size = omega (
      arith,
      length-append (keep (elsewhere c.dataset_path) g.items) (c ∷ []),
      length-without c.dataset_path g.items (In-at_path c g.items m),
      v.size,
    );
    room = v.room;
  }

  pub put_last-IsLast : (c : Context F C) (cs : List (Context F C)) → IsLast c (put_last c cs)
  unfolding put_last
  put_last-IsLast c cs = (keep (elsewhere c.dataset_path) cs, refl)

  none_found :
      (t : Context F C → Bool) (cs : List (Context F C)) → any t cs ≡ false → find_first t cs ≡ none
  none_found t [] h = refl
  none_found t (c ∷ cs) h = ground (arith, h, none_found t cs)

  -- A path that is not the one invalidated is found as before.
  found_elsewhere :
      (p q : ResolvedPath) (cs : List (Context F C))
      → p ≢ q
      → find_first (at_path q) (keep (elsewhere p) cs) ≡ find_first (at_path q) cs
  found_elsewhere p q [] n = refl
  found_elsewhere p q (c ∷ cs) n = elim (Bool-cases (at_path p c)) [
    | inl k ↦ elim (Bool-cases (at_path q c)) [
      | inl l ↦ absurd (n (same_path-eq p c.dataset_path k ∙ sym (same_path-eq q c.dataset_path l)))
      | inr l ↦ rw k (ground (arith, l, found_elsewhere p q cs n))
    ]
    | inr k ↦ rw k (ground (arith, found_elsewhere p q cs n))
  ]

  -- What invalidation leaves: nothing of the path, and of everything else all.
  pub record Forgets (p : ResolvedPath) (g h : Registry F C) : Type 0 where
    pub no_context : lookup p h ≡ none
    pub other_contexts : (q : ResolvedPath) → p ≢ q → lookup q h ≡ lookup q g
    pub no_key : (e : String × ResolvedPath) → In e h.key_to_path → p ≢ e.1
    pub other_keys : (e : String × ResolvedPath) → p ≢ e.1 → In e g.key_to_path → In e h.key_to_path
    pub no_new_key : (e : String × ResolvedPath) → In e h.key_to_path → In e g.key_to_path

  -- Invalidation keeps the cache well formed and forgets the path: no context and no dataset key of it is
  -- left, while every other path has the context that it had, and the other dataset keys are the same.
  pub invalidate_lem :
      (p : ResolvedPath) (g : Registry F C)
      → IsCache g
      → IsCache (invalidate p g) × Forgets p g (invalidate p g)
  unfolding invalidate
  invalidate_lem p g v = (
    record {
      paths = keep-Apart (elsewhere p) g.items v.paths;
      size = omega (arith, length-keep-le (elsewhere p) g.items, v.size);
      room = v.room;
    },
    record {
      no_context = none_found (at_path p) _ (none_at p g.items);
      other_contexts = λ q n. found_elsewhere p q g.items n;
      no_key = λ e m. other_key p e (In-keep (key_elsewhere p) g.key_to_path m).1;
      other_keys = λ e n m. keep-In (key_elsewhere p) g.key_to_path m (kept_key p e n);
      no_new_key = λ e m. (In-keep (key_elsewhere p) g.key_to_path m).0;
    },
  )
