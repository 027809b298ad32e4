-- ===== src/Jobs/Located.antt =====
-- Which payload backend/datasets/services/operation_intake.py makes of a request.
use robodata.Prelude.{
  String, Bool, true, ◌≡◌, ◌≢◌, refl, ap, subst, List, [], ◌∷◌, Option, none, some, arith,
  Bool-cases, inl, inr, ◌↔◌,
}
use robodata.Prelude.Int.{ℤ}
use robodata.Prelude.Checked.{Checked, passed, ◌>>=◌, bind-passed}
use robodata.Paths.{ResolvedPath, FileSystem, same_path, same_path_refl, same_path-eq}
use robodata.Jobs.Operation.{Payload, split, merge, delete, sync_good_episodes, stamp_cycles}
use robodata.Jobs.Intake.{
  IntakeError, optional_path, require_source_exists, existing_source, existing_sources, unless_same,
  located, built, payload_of, has_fields,
}
use robodata.Jobs.Lengths.{HasFields, has_fields_iff}

module _ (fs : FileSystem) (validate_path : String → Checked IntakeError ResolvedPath) where
  -- The text is that of the path that the validation gives; a source exists too.
  abbrev pub IsPath : String → ResolvedPath → String → Type 0
  IsPath s p t = (validate_path s ≡ passed p) × (t ≡ fs.show p)

  abbrev pub IsSource : String → ResolvedPath → String → Type 0
  IsSource s p t = IsPath s p t × (fs.exists p ≡ true)

  abbrev pub IsOptional : Option String → Option String → Type 0
  IsOptional none none = Unit
  IsOptional none (some t) = ⊥
  IsOptional (some s) none = ⊥
  IsOptional (some s) (some t) = (p : ResolvedPath) × IsPath s p t

  abbrev pub AreSources : List String → List String → Type 0
  AreSources [] [] = Unit
  AreSources [] (t ∷ ts) = ⊥
  AreSources (s ∷ ss) [] = ⊥
  AreSources (s ∷ ss) (t ∷ ts) = ((p : ResolvedPath) × IsSource s p t) × AreSources ss ts

  -- The arguments of the payload's constructor, beside the request.
  pub data Located : Payload → Payload → Type 0 where
    as_split :
        {s s' t : String} {i : List ℤ} {o o' : Option String} (p : ResolvedPath)
        → IsSource s p s'
        → IsOptional o o'
        → Located (split s i t o) (split s' i t o')
    as_merge :
        {ss ss' : List String} {t : String} {o o' : Option String}
        → AreSources ss ss'
        → IsOptional o o'
        → Located (merge ss t o) (merge ss' t o')
    as_delete :
        {s s' : String} {i : List ℤ} {o o' : Option String} (p : ResolvedPath)
        → IsSource s p s'
        → IsOptional o o'
        → Located (delete s i o) (delete s' i o')
    as_sync :
        {s s' d d' : String} {i : List ℤ} (p r : ResolvedPath)
        → IsSource s p s'
        → IsPath d r d'
        → p ≢ r
        → Located (sync_good_episodes s i d) (sync_good_episodes s' i d')
    as_stamp_cycles :
        {s s' : String} {o : Bool} (p : ResolvedPath)
        → IsSource s p s'
        → Located (stamp_cycles s o) (stamp_cycles s' o)

  -- The payload that a request is taken as.
  abbrev pub Taken : Payload → Payload → Type 0
  Taken req p = Located req p × HasFields p

  optional_of :
      (o o' : Option String) → IsOptional o o' → optional_path fs validate_path o ≡ passed o'
  optional_of none none h = refl
  optional_of none (some t) h = absurd h
  optional_of (some s) none h = absurd h
  optional_of (some s) (some t) (p, (e, k)) = rw (e, k) refl

  sources_of :
      (ss ts : List String) → AreSources ss ts → existing_sources fs validate_path ss ≡ passed ts
  sources_of [] [] h = refl
  sources_of [] (t ∷ ts) h = absurd h
  sources_of (s ∷ ss) [] h = absurd h
  sources_of (s ∷ ss) (t ∷ ts) ((p, ((e, k), x)), h) = rw (e, x, sources_of ss ts h, k) refl

  -- What is located is what the checks make of the request.
  pub located_of : (req p : Payload) → Located req p → located fs validate_path req ≡ passed p
  unfolding located
  located_of _ _ (as_split {o = o} {o' = o'} p ((e, k), x) c) =
      rw (e, optional_of o o' c, x, k) refl
  located_of _ _ (as_delete {o = o} {o' = o'} p ((e, k), x) c) =
      rw (e, optional_of o o' c, x, k) refl
  located_of _ _ (as_merge {ss = ss} {ss' = ss'} {o = o} {o' = o'} a c) =
      rw (optional_of o o' c, sources_of ss ss' a) refl
  located_of _ _ (as_stamp_cycles p ((e, k), x)) = rw (e, x, k) refl
  located_of _ _ (as_sync p r ((e, k), x) (f, l) n) = elim (Bool-cases (same_path p r)) [
    | inl q ↦ absurd (n (same_path-eq p r q))
    | inr q ↦ rw (e, f, x, q, k, l) refl
  ]

  require_source_exists-IsSource :
      (s : String) (p q : ResolvedPath)
      → validate_path s ≡ passed p
      → require_source_exists fs validate_path p s ≡ passed q
      → IsSource s q (fs.show q) × (p ≡ q)
  require_source_exists-IsSource s p q e h = elim (Bool-cases (fs.exists p)) [
    | inl x ↦ let k : p ≡ q = ground arith in rw (← k) (((e, refl), x), refl)
    | inr x ↦ absurd (ground arith)
  ]

  existing_source-IsSource :
      (s : String) (q : ResolvedPath)
      → existing_source fs validate_path s ≡ passed q
      → IsSource s q (fs.show q)
  existing_source-IsSource s q h =
      let (p, e, k) =
        bind-passed (λ p. require_source_exists fs validate_path p s) (validate_path s) h in
      (require_source_exists-IsSource s p q e k).0

  optional_path-IsOptional :
      (o o' : Option String) → optional_path fs validate_path o ≡ passed o' → IsOptional o o'
  optional_path-IsOptional none none h = tt
  optional_path-IsOptional none (some t) h = cc
  optional_path-IsOptional (some s) none h =
      let (p, e, k) = bind-passed (λ p. passed (some (fs.show p))) (validate_path s) h in cc k
  optional_path-IsOptional (some s) (some t) h =
      let (p, e, k) = bind-passed (λ p. passed (some (fs.show p))) (validate_path s) h in
      (p, (e, ground (arith, k)))

  existing_sources-AreSources :
      (ss ts : List String) → existing_sources fs validate_path ss ≡ passed ts → AreSources ss ts
  existing_sources-AreSources [] [] h = tt
  existing_sources-AreSources [] (t ∷ ts) h = cc
  existing_sources-AreSources (s ∷ ss) ts h =
      let (p, e, g) =
        bind-passed (λ p. existing_sources fs validate_path ss >>= λ ps. passed (fs.show p ∷ ps))
          (existing_source fs validate_path s) h in
      let (ps, d, k) =
        bind-passed (λ ps. passed (fs.show p ∷ ps)) (existing_sources fs validate_path ss) g in
      let l : fs.show p ∷ ps ≡ ts = ground arith in
      subst (AreSources (s ∷ ss)) l
        ((p, existing_source-IsSource s p e), existing_sources-AreSources ss ps d)

  -- The checks of a request with an optional output directory.
  with_output :
      (s : String) (o : Option String) (f : ResolvedPath → Option String → Payload) {y : Payload}
      → (validate_path s >>= λ p. optional_path fs validate_path o >>= λ o'.
          require_source_exists fs validate_path p s >>= λ q. passed (f q o'))
        ≡ passed y
      → (q : ResolvedPath) × (o' : Option String) × IsSource s q (fs.show q)
        × IsOptional o o'
        × (f q o' ≡ y)
  with_output s o f h =
      let (p, e, g) = bind-passed _ (validate_path s) h in
      let (o', d, k) = bind-passed _ (optional_path fs validate_path o) g in
      let (q, x, l) =
        bind-passed (λ q. passed (f q o')) (require_source_exists fs validate_path p s) k in
      (
        q,
        o',
        (require_source_exists-IsSource s p q e x).0,
        optional_path-IsOptional o o' d,
        ground (arith, l),
      )

  distinct :
      (p r : ResolvedPath) (i : List ℤ) {y : Payload}
      → unless_same fs validate_path p r i ≡ passed y
      → (p ≢ r) × (sync_good_episodes (fs.show p) i (fs.show r) ≡ y)
  distinct p r i h = elim (Bool-cases (same_path p r)) [
    | inl e ↦ absurd (ground arith)
    | inr e ↦ (λ z. cc (ap (same_path p) z, same_path_refl p, e), ground arith)
  ]

  -- What the checks let through is located.
  pub located-Located : (req y : Payload) → located fs validate_path req ≡ passed y → Located req y
  unfolding located
  located-Located (split s i t o) y h =
      let (q, o', a, b, l) = with_output s o (λ q u. split (fs.show q) i t u) h in
      subst (Located (split s i t o)) l (as_split q a b)
  located-Located (delete s i o) y h =
      let (q, o', a, b, l) = with_output s o (λ q u. delete (fs.show q) i u) h in
      subst (Located (delete s i o)) l (as_delete q a b)
  located-Located (merge ss t o) y h =
      let (o', d, g) = bind-passed _ (optional_path fs validate_path o) h in
      let (ps, e, k) =
        bind-passed (λ ps. passed (merge ps t o')) (existing_sources fs validate_path ss) g in
      let l : merge ps t o' ≡ y = ground (arith, k) in
      subst (Located (merge ss t o)) l
        (as_merge (existing_sources-AreSources ss ps e) (optional_path-IsOptional o o' d))
  located-Located (sync_good_episodes s i d) y h =
      let (p, e, g) = bind-passed _ (validate_path s) h in
      let (r, f, k) = bind-passed _ (validate_path d) g in
      let (q, x, m) =
        bind-passed (λ q. unless_same fs validate_path q r i)
          (require_source_exists fs validate_path p s) k in
      let (n, l) = distinct q r i m in
      subst (Located (sync_good_episodes s i d)) l
        (as_sync q r (require_source_exists-IsSource s p q e x).0 (f, refl) n)
  located-Located (stamp_cycles s o) y h =
      let (p, e, k) =
        bind-passed (λ p. passed (stamp_cycles (fs.show p) o)) (existing_source fs validate_path s)
          h in
      let l : stamp_cycles (fs.show p) o ≡ y = ground (arith, k) in
      subst (Located (stamp_cycles s o)) l (as_stamp_cycles p (existing_source-IsSource s p e))

  -- The intake takes a request as the payload that its fields, paths and lengths determine, and refuses it
  -- just where there is none.
  pub payload_of-Taken :
      (req p : Payload) → (payload_of fs validate_path req ≡ passed p) ↔ Taken req p
  unfolding payload_of
  payload_of-Taken req p = (
    λ h.
        let (q, e, k) = bind-passed (built fs validate_path) (located fs validate_path req) h in
        elim (Bool-cases (has_fields q)) [
          | inl f ↦
              let l : q ≡ p = ground arith in
              subst (Taken req) l (located-Located req q e, (has_fields_iff q).0 f)
          | inr f ↦ absurd (ground arith)
        ],
    λ (l, f). rw (located_of req p l, (has_fields_iff p).1 f) refl,
  )
