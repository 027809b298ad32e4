-- ===== src/Registry/Recency.antt =====
-- What `get` of backend/datasets/services/dataset_registry.py keep and return.
use robodata.Prelude.{
  String, Bool, true, false, ◌≡◌, refl, sym, ap, ◌∙◌, inl, inr, List, [], ◌∷◌, Option, none, some,
  ◌==◌, keep, arith, Bool-cases, any, In, here, there, ◌⊎◌, find_first-In, find_first-test,
}
use robodata.Prelude.Checked.{Checked, rejected, passed}
use robodata.Paths.{ResolvedPath, same_path-eq}
use robodata.Registry.{
  Context, Registry, RegistryError, metadata_changed, load_failed, settled, at_path, elsewhere,
  lookup, put_last, touch, Attempt, load_stable, publish, reuse, hit, loaded_or_raised, hit_or_load,
  get_resolved,
}
use robodata.Registry.Cache.{
  IsCache, IsLast, touch-IsCache, put_last-IsLast, put_last-Apart, evict-Apart, length-evict,
  evict-IsLast,
}

module _ {F C : Type 0} (same : F → F → Bool) (key_for : ResolvedPath → String)
    (p : ResolvedPath) where
  publish-IsCache :
      (a : F × C) (g : Registry F C) → IsCache g → IsCache (publish same key_for p a g).1
  publish-IsCache a g v = record {
    paths = evict-Apart g.max_size _ (put_last-Apart _ g.items v.paths);
    size = length-evict g.max_size _;
    room = v.room;
  }

  publish-IsLast :
      (a : F × C) (g : Registry F C)
      → IsCache g
      → IsLast (publish same key_for p a g).0 (publish same key_for p a g).1.items
  unfolding put_last
  publish-IsLast a g v = evict-IsLast g.max_size _ (keep (elsewhere p) g.items) v.room

  -- The context was read between two equal fingerprints, of which it has one.
  abbrev pub IsStable : List (Attempt F C) → Context F C → Type 0
  IsStable attempts c =
      (a : Attempt F C) × In a attempts
      × (same a.before a.after ≡ true)
      × (a.loaded ≡ passed c.content)
      × (c.fingerprint ≡ a.before)

  -- No attempt met equal fingerprints, or one of them raised.
  abbrev pub LoadError : List (Attempt F C) → RegistryError → Type 0
  LoadError attempts e =
      ((e ≡ metadata_changed p) × (any (λ a. same a.before a.after) attempts ≡ false))
      ⊎ ((x : String) × (a : Attempt F C) × (e ≡ load_failed x)
          × In a attempts
          × (a.loaded ≡ rejected x))

  abbrev pub GetSpec :
      F → List (Attempt F C) → Checked RegistryError (Context F C) × Registry F C → Type 0
  GetSpec current attempts (rejected e, g) = LoadError attempts e
  GetSpec current attempts (passed c, g) =
      (c.dataset_path ≡ p)
      × IsLast c g.items
      × ((same current c.fingerprint ≡ true) ⊎ IsStable attempts c)

  abbrev LoadSpec : List (Attempt F C) → Checked RegistryError (F × C) → Type 0
  LoadSpec attempts (rejected e) = LoadError attempts e
  LoadSpec attempts (passed (f, c)) =
      (a : Attempt F C) × In a attempts
      × (same a.before a.after ≡ true)
      × (a.loaded ≡ passed c)
      × (f ≡ a.before)

  later_LoadSpec :
      (a : Attempt F C) (rest : List (Attempt F C)) (r : Checked RegistryError (F × C))
      → same a.before a.after ≡ false
      → LoadSpec rest r
      → LoadSpec (a ∷ rest) r
  later_LoadSpec a rest (rejected e) h (inl (k, n)) = inl (k, ground (arith, h, n))
  later_LoadSpec a rest (rejected e) h (inr (x, b, k, m, l)) = inr (x, b, k, there m, l)
  later_LoadSpec a rest (passed (f, c)) h (b, m, k, l, q) = (b, there m, k, l, q)

  settled-LoadSpec :
      (a : Attempt F C) (rest : List (Attempt F C)) (r : Checked RegistryError (F × C))
      (l : Checked String C)
      → LoadSpec rest r
      → a.loaded ≡ l
      → LoadSpec (a ∷ rest) (settled same key_for a.before a.after r l)
  settled-LoadSpec a rest r (rejected x) k e = inr (x, a, refl, here, e)
  settled-LoadSpec a rest r (passed c) k e = elim (Bool-cases (same a.before a.after)) [
    | inl h ↦ rw h (a, here, h, e, refl)
    | inr h ↦ rw h (later_LoadSpec a rest r h k)
  ]

  load_stable-LoadSpec :
      (attempts : List (Attempt F C)) → LoadSpec attempts (load_stable same key_for p attempts)
  unfolding load_stable
  load_stable-LoadSpec [] = inl (refl, refl)
  load_stable-LoadSpec (a ∷ rest) =
      settled-LoadSpec a rest _ a.loaded (load_stable-LoadSpec rest) refl

  module _ (between during : Registry F C → Registry F C)
      (between_cache : (g : Registry F C) → IsCache g → IsCache (between g))
      (during_cache : (g : Registry F C) → IsCache g → IsCache (during g))
      (same_comm : (f h : F) → same f h ≡ same h f) (current : F)
      (attempts : List (Attempt F C)) where
    reused-GetSpec :
        (g : Registry F C) (c : Context F C)
        → lookup p g ≡ some c
        → same current c.fingerprint ≡ true
        → IsCache g
        → IsCache (touch c g) × GetSpec current attempts (passed c, touch c g)
    reused-GetSpec g c e f v = (
      touch-IsCache c g (find_first-In (at_path p) g.items e) v,
      (
        sym (same_path-eq p c.dataset_path (find_first-test (at_path p) g.items e)),
        put_last-IsLast c g.items,
        inl f,
      ),
    )

    raised_or_loaded :
        (g : Registry F C) (r : Checked RegistryError (F × C))
        → LoadSpec attempts r
        → IsCache g
        → let x = loaded_or_raised same key_for during p g r in
          IsCache x.1 × GetSpec current attempts x
    raised_or_loaded g (rejected e) k v = (during_cache g v, k)
    raised_or_loaded g (passed (f, c)) (a, m, s, l, b) v = (
      publish-IsCache (f, c) (during g) (during_cache g v),
      (refl, publish-IsLast (f, c) (during g) (during_cache g v), inr (a, m, s, l, b)),
    )

    loaded-GetSpec :
        (g : Registry F C)
        → IsCache g
        → let x = loaded_or_raised same key_for during p g (load_stable same key_for p attempts) in
          IsCache x.1 × GetSpec current attempts x
    loaded-GetSpec g v = raised_or_loaded g _ (load_stable-LoadSpec attempts) v

    abbrev IsAnswer : Checked RegistryError (Context F C) × Registry F C → Type 0
    IsAnswer x = IsCache x.1 × GetSpec current attempts x

    reuse-IsAnswer :
        (g : Registry F C) (c : Context F C) (o : Option (Context F C))
        → IsCache g
        → lookup p g ≡ o
        → same current c.fingerprint ≡ true
        → ((d : Context F C) → In d g.items → d.serial ≡ c.serial → d ≡ c)
        → IsAnswer
            (hit_or_load same key_for during p attempts (reuse same key_for current c.serial o g))
    reuse-IsAnswer g c none v e f same_object = loaded-GetSpec g v
    reuse-IsAnswer g c (some d) v e f same_object = elim (Bool-cases (d.serial == c.serial)) [
      | inl h ↦
          let q : d ≡ c = same_object d (find_first-In (at_path p) g.items e) (ground (arith, h)) in
          rw h (reused-GetSpec g d e (ap (λ x. same current x.fingerprint) q ∙ f) v)
      | inr h ↦ elim (Bool-cases (same d.fingerprint current)) [
        | inl k ↦ rw (h, k) (reused-GetSpec g d e (same_comm current d.fingerprint ∙ k) v)
        | inr k ↦ rw (h, k) (loaded-GetSpec g v)
      ]
    ]

    -- A context object that was in the cache is the same when it is seen again.
    abbrev pub KeepsIdentity : Registry F C → Type 0
    KeepsIdentity g =
        (c d : Context F C) → In c g.items → In d (between g).items → d.serial ≡ c.serial → d ≡ c

    hit-IsAnswer :
        (g : Registry F C)
        → KeepsIdentity g
        → (o : Option (Context F C)) → IsCache g
        → lookup p g ≡ o
        → IsAnswer
            (hit_or_load same key_for during p attempts (hit same key_for between p current o g))
    hit-IsAnswer g identity none v e = loaded-GetSpec g v
    hit-IsAnswer g identity (some c) v e = elim (Bool-cases (same current c.fingerprint)) [
      | inl h ↦ rw h (
          reuse-IsAnswer (between g) c (lookup p (between g)) (between_cache g v) refl h
            (λ d m q. identity c d (find_first-In (at_path p) g.items e) m q))
      | inr h ↦ rw h (loaded-GetSpec g v)
    ]

    -- `get` of a path that is resolved: Registry/Get has the whole.
    pub get_resolved_lem :
        (g : Registry F C)
        → KeepsIdentity g
        → IsCache g
        → IsCache (get_resolved same key_for between during p current attempts g).1
          × GetSpec current attempts (get_resolved same key_for between during p current attempts g)
    unfolding get_resolved
    get_resolved_lem g identity v = hit-IsAnswer g identity (lookup p g) v refl
