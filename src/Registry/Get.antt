-- ===== src/Registry/Get.antt =====
-- `get` of backend/datasets/services/dataset_registry.py, from the path as it came.
use robodata.Prelude.{
  String, Bool, true, false, ◌≡◌, refl, ◌⊎◌, inl, inr, List, [], ◌∷◌, map, Bool-cases, In,
}
use robodata.Prelude.Checked.{Checked, rejected, passed}
use robodata.Paths.{
  ResolvedPath, FileSystem, IsBelow, PathPolicy, contained, outside_allowed_roots, PolicySpec,
  require_contained_in_roots_lem,
}
use robodata.Registry.{
  Context, Registry, RegistryError, outside_roots, missing, not_directory, Attempt,
  existing_directory, resolve_and_validate, get_checked, get,
}
use robodata.Registry.Cache.{IsCache}
use robodata.Registry.Recency.{GetSpec, get_resolved_lem}

module _ (fs : FileSystem) (is_dir : ResolvedPath → Bool) (roots : List String)
    (path : String) where
  -- Below one of the allowed roots.
  abbrev pub IsAllowed : ResolvedPath → Type 0
  IsAllowed p = (root : ResolvedPath) × In root (map fs.resolve roots) × IsBelow p root

  -- The path is allowed, exists and is a directory; or the error names what is wrong with it.
  abbrev pub PathSpec : Checked RegistryError ResolvedPath → Type 0
  PathSpec (passed p) =
      (p ≡ fs.resolve path) × IsAllowed p × (fs.exists p ≡ true) × (is_dir p ≡ true)
  PathSpec (rejected (outside_roots p)) = (p ≡ fs.resolve path) × (¬ IsAllowed p)
  PathSpec (rejected (missing p)) = (p ≡ fs.resolve path) × IsAllowed p × (fs.exists p ≡ false)
  PathSpec (rejected (not_directory p)) =
      (p ≡ fs.resolve path) × IsAllowed p × (fs.exists p ≡ true) × (is_dir p ≡ false)
  PathSpec (rejected _) = ⊥

  existing_directory-PathSpec :
      (c : PathPolicy)
      → PolicySpec (fs.resolve path) (map fs.resolve roots) c
      → PathSpec (existing_directory fs is_dir roots c)
  existing_directory-PathSpec (outside_allowed_roots p rs) (e, n) =
      (e, λ (root, m, b). n root m (rw (← e) b))
  existing_directory-PathSpec (contained c) (e, m, b) = elim (Bool-cases (fs.exists c.path)) [
    | inr x ↦ rw x (e, (c.root, m, b), x)
    | inl x ↦ elim (Bool-cases (is_dir c.path)) [
      | inl d ↦ rw (x, d) (e, (c.root, m, b), x, d)
      | inr d ↦ rw (x, d) (e, (c.root, m, b), x, d)
    ]
  ]

  resolve_and_validate-PathSpec : PathSpec (resolve_and_validate fs is_dir roots path)
  unfolding resolve_and_validate
  resolve_and_validate-PathSpec =
      existing_directory-PathSpec _ (require_contained_in_roots_lem fs path roots)

module _ {F C : Type 0} (same : F → F → Bool) (key_for : ResolvedPath → String) (fs : FileSystem)
    (is_dir : ResolvedPath → Bool) (roots : List String) (path : String)
    (between during : Registry F C → Registry F C)
    (between_cache : (g : Registry F C) → IsCache g → IsCache (between g))
    (during_cache : (g : Registry F C) → IsCache g → IsCache (during g))
    (same_comm : (f h : F) → same f h ≡ same h f) (current : ResolvedPath → F)
    (attempts : ResolvedPath → Attempt F C × Attempt F C) (g : Registry F C) where
  abbrev tried : ResolvedPath → List (Attempt F C)
  tried p = let (a, b) = attempts p in a ∷ b ∷ []

  -- The path is refused, and the registry is as it was; or the path is good, and `GetSpec` holds of it.
  abbrev pub Answer : Checked RegistryError (Context F C) × Registry F C → Type 0
  Answer x =
      ((e : RegistryError) × PathSpec fs is_dir roots path (rejected e) × (x ≡ (rejected e, g)))
      ⊎ ((p : ResolvedPath) × PathSpec fs is_dir roots path (passed p)
          × GetSpec same key_for p (current p) (tried p) x)

  answered :
      (r : Checked RegistryError ResolvedPath)
      → PathSpec fs is_dir roots path r
      → ((c d : Context F C) → In c g.items → In d (between g).items → d.serial ≡ c.serial → d ≡ c)
      → IsCache g
      → let x = get_checked same key_for between during current attempts g r in
        IsCache x.1 × Answer x
  answered (rejected e) k identity v = (v, inl (e, k, refl))
  answered (passed p) k identity v =
      let (w, s) =
        get_resolved_lem same key_for p between during between_cache during_cache same_comm
          (current p) (tried p) g identity v in
      (w, inr (p, k, s))

  -- `get` keeps one context for each path and no more than the cache may hold, if what other threads do
  -- between its locked sections keeps this too, each context object stays as it is, and the comparison of
  -- fingerprints is symmetric. A path that is not below an allowed root, does not exist or is no directory
  -- is refused with that error, and the registry is left alone. Otherwise the context returned is that of
  -- the path, the most recently used one, and has the fingerprint that was read just before, or was loaded
  -- between two equal fingerprints; and an error means that neither attempt met equal fingerprints, or is
  -- one that the loading raised.
  pub get_lem :
      ((c d : Context F C) → In c g.items → In d (between g).items → d.serial ≡ c.serial → d ≡ c)
      → IsCache g
      → let x = get same key_for fs is_dir roots between during current attempts path g in
        IsCache x.1 × Answer x
  unfolding get
  get_lem identity v = answered _ (resolve_and_validate-PathSpec fs is_dir roots path) identity v
