-- ===== src/Jobs/Canonical.antt =====
-- What the validation of a Dataset Operation guarantees of the payload that it lets through
-- (backend/jobs/dataset_operation_validation.py).
use robodata.Prelude.{
  String, true, ◌≡◌, ◌≢◌, refl, ap, subst, sym, ◌∙◌, List, [], ◌∷◌, map, Option, none, some, arith,
  Bool-cases, inl, inr, In, find_first-of_any, find_first-In, find_first-test, if◌then◌else◌,
}
use robodata.Prelude.Int.{ℤ}
use robodata.Prelude.Checked.{Checked, rejected, passed, ◌>>=◌, bind-passed}
use robodata.Json.{Json}
use robodata.Paths.{
  ResolvedPath, FileSystem, same_path, contains, IsBelow, contains_iff, same_path_refl,
}
use robodata.Jobs.{JobType}
use robodata.Jobs.Operation.{
  ValidationError, Payload, split, merge, delete, sync_good_episodes, stamp_cycles,
  same_source_and_destination, allowed_path, canonical_path, existing, canonical_existing_source,
  canonical_optional_path, canonical_sources, canonical, Validated, validate_dataset_operation,
  dedupe_key,
}

module _ (fs : FileSystem) (roots : List String) where
  -- The path lies below an allowed root.
  abbrev pub IsAllowed : ResolvedPath → Type 0
  IsAllowed p = (root : ResolvedPath) × In root (map fs.resolve roots) × IsBelow p root

  -- The text is that of the resolved path, which is allowed; a source exists too.
  abbrev pub IsCanonical : String → String → Type 0
  IsCanonical s t = (t ≡ fs.show (fs.resolve s)) × IsAllowed (fs.resolve s)

  abbrev pub IsSource : String → String → Type 0
  IsSource s t = IsCanonical s t × (fs.exists (fs.resolve s) ≡ true)

  abbrev pub IsOptional : Option String → Option String → Type 0
  IsOptional none none = Unit
  IsOptional none (some t) = ⊥
  IsOptional (some s) none = ⊥
  IsOptional (some s) (some t) = IsCanonical s t

  abbrev pub AreSources : List String → List String → Type 0
  AreSources [] [] = Unit
  AreSources [] (t ∷ ts) = ⊥
  AreSources (s ∷ ss) [] = ⊥
  AreSources (s ∷ ss) (t ∷ ts) = IsSource s t × AreSources ss ts

  -- The payload that is stored, beside the one that was asked for.
  abbrev pub Canonical : Payload → Payload → Type 0
  Canonical (split s i t o) (split s' i' t' o') =
      IsSource s s' × (i' ≡ i) × (t' ≡ t) × IsOptional o o'
  Canonical (merge ss t o) (merge ss' t' o') = AreSources ss ss' × (t' ≡ t) × IsOptional o o'
  Canonical (delete s i o) (delete s' i' o') = IsSource s s' × (i' ≡ i) × IsOptional o o'
  Canonical (sync_good_episodes s i d) (sync_good_episodes s' i' d') =
      IsSource s s' × (i' ≡ i) × IsCanonical d d' × (fs.resolve s ≢ fs.resolve d)
  Canonical (stamp_cycles s o) (stamp_cycles s' o') = IsSource s s' × (o' ≡ o)
  Canonical _ _ = ⊥

  IsAllowed-allowed_path : (p : ResolvedPath) → allowed_path fs roots p ≡ true → IsAllowed p
  IsAllowed-allowed_path p h =
      let (r, e) = find_first-of_any (contains p) (map fs.resolve roots) h in
      (
        r,
        find_first-In (contains p) _ e,
        (contains_iff p r).0 (find_first-test (contains p) (map fs.resolve roots) e),
      )

  canonical_path-IsAllowed :
      (s : String) (p : ResolvedPath)
      → canonical_path fs roots s ≡ passed p
      → (p ≡ fs.resolve s) × IsAllowed (fs.resolve s)
  unfolding canonical_path
  canonical_path-IsAllowed s p h = elim (Bool-cases (allowed_path fs roots (fs.resolve s))) [
    | inl a ↦ (ground arith, IsAllowed-allowed_path (fs.resolve s) a)
    | inr a ↦ absurd (ground arith)
  ]

  canonical_existing_source-IsSource :
      (s : String) (p : ResolvedPath)
      → canonical_existing_source fs roots s ≡ passed p
      → IsSource s (fs.show p) × (p ≡ fs.resolve s)
  unfolding canonical_existing_source
  canonical_existing_source-IsSource s p h =
      let (q, e, g) = bind-passed (existing fs roots) (canonical_path fs roots s) h in
      let (r, a) = canonical_path-IsAllowed s q e in
      elim (Bool-cases (fs.exists q)) [
        | inl x ↦
            let pq : q ≡ p = ground arith in
            let e' : p ≡ fs.resolve s = sym pq ∙ r in
            (((ap fs.show e', a), ap fs.exists (sym r) ∙ x), e')
        | inr x ↦ absurd (ground arith)
      ]

  canonical_optional_path-IsOptional :
      (s t : Option String) → canonical_optional_path fs roots s ≡ passed t → IsOptional s t
  unfolding canonical_optional_path
  canonical_optional_path-IsOptional none none h = tt
  canonical_optional_path-IsOptional none (some t) h = cc
  canonical_optional_path-IsOptional (some s) none h =
      let (p, e, g) = bind-passed (λ p. passed (some (fs.show p))) (canonical_path fs roots s) h in
      cc g
  canonical_optional_path-IsOptional (some s) (some t) h =
      let (p, e, g) = bind-passed (λ p. passed (some (fs.show p))) (canonical_path fs roots s) h in
      let (r, a) = canonical_path-IsAllowed s p e in
      let q : t ≡ fs.show p = ground arith in (q ∙ ap fs.show r, a)

  canonical_sources-AreSources :
      (ss ts : List String) → canonical_sources fs roots ss ≡ passed ts → AreSources ss ts
  unfolding canonical_sources
  canonical_sources-AreSources [] [] h = tt
  canonical_sources-AreSources [] (t ∷ ts) h = cc
  canonical_sources-AreSources (s ∷ ss) ts h =
      let (p, e, g) =
        bind-passed (λ p. canonical_sources fs roots ss >>= λ ps. passed (fs.show p ∷ ps))
          (canonical_existing_source fs roots s) h in
      let (ps, d, k) =
        bind-passed (λ ps. passed (fs.show p ∷ ps)) (canonical_sources fs roots ss) g in
      let l : fs.show p ∷ ps ≡ ts = ground arith in
      subst (AreSources (s ∷ ss)) l
        ((canonical_existing_source-IsSource s p e).0, canonical_sources-AreSources ss ps d)

  IsSource-IsOptional :
      (s : String) (o : Option String) (f : ResolvedPath → Option String → Payload) {q : Payload}
      → (canonical_existing_source fs roots s >>= λ p.
          canonical_optional_path fs roots o >>= λ o'. passed (f p o'))
        ≡ passed q
      → (p : ResolvedPath) × (o' : Option String) × IsSource s (fs.show p)
        × IsOptional o o'
        × (f p o' ≡ q)
  IsSource-IsOptional s o f h =
      let (p, e, g) = bind-passed _ (canonical_existing_source fs roots s) h in
      let (o', d, k) = bind-passed (λ u. passed (f p u)) (canonical_optional_path fs roots o) g in
      (
        p,
        o',
        (canonical_existing_source-IsSource s p e).0,
        canonical_optional_path-IsOptional o o' d,
        ground arith,
      )

  distinct_paths :
      (s d : String) (p r : ResolvedPath) (i : List ℤ) {q : Payload}
      → p ≡ fs.resolve s
      → r ≡ fs.resolve d
      → (if same_path p r
          then rejected same_source_and_destination
          else passed (sync_good_episodes (fs.show p) i (fs.show r)))
        ≡ passed q
      → (fs.resolve s ≢ fs.resolve d) × (sync_good_episodes (fs.show p) i (fs.show r) ≡ q)
  distinct_paths s d p r i x y h = elim (Bool-cases (same_path p r)) [
    | inl e ↦ absurd (ground arith)
    | inr e ↦ (λ z. cc (ap (same_path p) (x ∙ z ∙ sym y), same_path_refl p, e), ground arith)
  ]

  -- A payload that validation lets through asks for what was asked, with every path resolved and below an
  -- allowed root, every source there, and the destination of a sync other than its source.
  pub canonical-Canonical : (p q : Payload) → canonical fs roots p ≡ passed q → Canonical p q
  unfolding canonical
  canonical-Canonical (split s i t o) q h =
      let (p, o', a, b, l) = IsSource-IsOptional s o (λ p u. split (fs.show p) i t u) h in
      subst (Canonical (split s i t o)) l (a, refl, refl, b)
  canonical-Canonical (merge ss t o) q h =
      let (ps, e, g) = bind-passed _ (canonical_sources fs roots ss) h in
      let (o', d, k) =
        bind-passed (λ u. passed (merge ps t u)) (canonical_optional_path fs roots o) g in
      let l : merge ps t o' ≡ q = ground arith in
      subst (Canonical (merge ss t o)) l
        (canonical_sources-AreSources ss ps e, refl, canonical_optional_path-IsOptional o o' d)
  canonical-Canonical (delete s i o) q h =
      let (p, o', a, b, l) = IsSource-IsOptional s o (λ p u. delete (fs.show p) i u) h in
      subst (Canonical (delete s i o)) l (a, refl, b)
  canonical-Canonical (sync_good_episodes s i d) q h =
      let (p, e, g) = bind-passed _ (canonical_existing_source fs roots s) h in
      let (r, f, k) = bind-passed _ (canonical_path fs roots d) g in
      let (a, x) = canonical_existing_source-IsSource s p e in
      let (y, b) = canonical_path-IsAllowed d r f in
      let (n, l) = distinct_paths s d p r i x y k in
      subst (Canonical (sync_good_episodes s i d)) l (a, refl, (ap fs.show y, b), n)
  canonical-Canonical (stamp_cycles s o) q h =
      let (p, e, g) =
        bind-passed (λ p. passed (stamp_cycles (fs.show p) o))
          (canonical_existing_source fs roots s) h in
      let l : stamp_cycles (fs.show p) o ≡ q = ground arith in
      subst (Canonical (stamp_cycles s o)) l ((canonical_existing_source-IsSource s p e).0, refl)

  -- A Dataset Operation that is validated was parsed to a payload, is stored with that payload's canonical
  -- form, and has the dedupe key of the canonical form.
  pub validate_dataset_operation_lem :
      (parse : JobType → Json → Checked ValidationError Payload) (show_int : ℤ → String)
      (t : JobType) (raw : Json) (v : Validated)
      → validate_dataset_operation fs roots parse show_int t raw ≡ passed v
      → (parsed : Payload) × (parse t raw ≡ passed parsed)
        × Canonical parsed v.payload
        × (v.key ≡ dedupe_key show_int v.payload)
  unfolding validate_dataset_operation
  validate_dataset_operation_lem parse show_int t raw v h =
      let (parsed, e, g) = bind-passed _ (parse t raw) h in
      let (q, f, k) =
        bind-passed (λ (q : Payload). passed (record { payload = q; key = dedupe_key show_int q }))
          (canonical fs roots parsed) g in
      let l : q ≡ v.payload = ground arith in
      let m : dedupe_key show_int q ≡ v.key = ground arith in
      (
        parsed,
        e,
        subst (Canonical parsed) l (canonical-Canonical parsed q f),
        sym m ∙ ap (dedupe_key show_int) l,
      )
