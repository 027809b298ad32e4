-- ===== src/Paths.antt =====
-- backend/datasets/services/path_policy.py. A resolved path is the list of its parts, the root first; what
-- `Path.resolve` makes of a text, and which paths exist, is asked of the file system.
use robodata.Prelude.{
  String, Bool, true, false, ◌&&◌, ◌||◌, ◌≡◌, refl, ◌∙◌, List, [], ◌∷◌, ◌++◌, map, Option, none,
  some, str_eq, eq_iff, eq_refl, arith, Bool-cases, Option-cases, In-any, inl, inr, any, find_first,
  find_first-test, find_first-In, In, ap, find_first-none,
}

abbrev pub ResolvedPath : Type 0
ResolvedPath = List String

pub record FileSystem : Type 0 where
  pub resolve : String → ResolvedPath
  pub exists : ResolvedPath → Bool
  pub show : ResolvedPath → String

abbrev pub same_path : ResolvedPath → ResolvedPath → Bool
same_path [] [] = true
same_path [] (q ∷ qs) = false
same_path (p ∷ ps) [] = false
same_path (p ∷ ps) (q ∷ qs) = str_eq p q && same_path ps qs

-- path.is_relative_to(root): the parts of the root begin those of the path. The test of
-- dataset_operation_validation, path == root or root in path.parents, is the same.
abbrev pub is_relative_to : ResolvedPath → ResolvedPath → Bool
is_relative_to path [] = true
is_relative_to [] (r ∷ root) = false
is_relative_to (p ∷ path) (r ∷ root) = str_eq p r && is_relative_to path root

abbrev pub contains : ResolvedPath → ResolvedPath → Bool
contains candidate root = same_path candidate root || is_relative_to candidate root

pub record ContainedPath : Type 0 where
  pub path : ResolvedPath
  pub root : ResolvedPath

pub data PathPolicy : Type 0 where
  contained : ContainedPath → PathPolicy
  outside_allowed_roots : ResolvedPath → List ResolvedPath → PathPolicy

abbrev pub by_root : ResolvedPath → List ResolvedPath → Option ResolvedPath → PathPolicy
by_root candidate allowed none = outside_allowed_roots candidate allowed
by_root candidate allowed (some root) = contained (record { path = candidate; root = root })

module _ (fs : FileSystem) where
  abbrev pub normalize_roots : List String → List ResolvedPath
  normalize_roots roots = map fs.resolve roots

  unfoldable pub is_contained_in : String → String → Bool
  is_contained_in candidate root = contains (fs.resolve candidate) (fs.resolve root)

  -- The loop returns at the first root that contains the path.
  unfoldable pub require_contained_in_roots : String → List String → PathPolicy
  require_contained_in_roots path roots =
      let candidate = fs.resolve path in
      by_root candidate (normalize_roots roots)
        (find_first (contains candidate) (normalize_roots roots))

-- The path is the root, or lies below it.
abbrev pub IsBelow : ResolvedPath → ResolvedPath → Type 0
IsBelow path root = (rest : ResolvedPath) × (path ≡ root ++ rest)

pub same_path_refl : (p : ResolvedPath) → same_path p p ≡ true
same_path_refl [] = refl
same_path_refl (x ∷ p) = ground (arith, eq_refl x, same_path_refl p)

pub same_path-eq : (p q : ResolvedPath) → same_path p q ≡ true → p ≡ q
same_path-eq [] [] h = refl
same_path-eq [] (y ∷ q) h = cc
same_path-eq (x ∷ p) [] h = cc
same_path-eq (x ∷ p) (y ∷ q) h = ground (arith, eq_iff x y, same_path-eq p q)

is_relative_to-IsBelow :
    (path root : ResolvedPath) → is_relative_to path root ≡ true → IsBelow path root
is_relative_to-IsBelow path [] h = (path, refl)
is_relative_to-IsBelow [] (r ∷ root) h = cc
is_relative_to-IsBelow (p ∷ path) (r ∷ root) h =
    let (rest, e) = is_relative_to-IsBelow path root (ground arith) in
    (rest, ground (arith, eq_iff p r))

IsBelow-is_relative_to : (root rest : ResolvedPath) → is_relative_to (root ++ rest) root ≡ true
IsBelow-is_relative_to [] rest = refl
IsBelow-is_relative_to (r ∷ root) rest = ground (arith, eq_refl r, IsBelow-is_relative_to root rest)

append-nil' : (p : ResolvedPath) → p ≡ p ++ []
append-nil' [] = refl
append-nil' (x ∷ p) = ap (◌∷◌ x) (append-nil' p)

-- `contains` decides containment by whole parts: a sibling whose name begins alike is outside.
pub contains_iff :
    (path root : ResolvedPath)
    → (contains path root ≡ true → IsBelow path root)
      × (IsBelow path root → contains path root ≡ true)
contains_iff path root = (
  λ h. elim (Bool-cases (same_path path root)) [
    | inl e ↦ ([], same_path-eq path root e ∙ append-nil' root)
    | inr e ↦ is_relative_to-IsBelow path root (ground arith)
  ],
  λ (rest, e). rw e (ground (arith, IsBelow-is_relative_to root rest)),
)

abbrev pub PolicySpec : ResolvedPath → List ResolvedPath → PathPolicy → Type 0
PolicySpec candidate roots (contained c) =
    (c.path ≡ candidate) × In c.root roots × IsBelow c.path c.root
PolicySpec candidate roots (outside_allowed_roots p allowed) =
    (p ≡ candidate) × ((root : ResolvedPath) → In root roots → ¬ IsBelow candidate root)

none_contains :
    (candidate : ResolvedPath) (roots : List ResolvedPath) (root : ResolvedPath)
    → any (contains candidate) roots ≡ false
    → In root roots
    → ¬ IsBelow candidate root
none_contains candidate roots root h m b =
    cc (In-any (contains candidate) roots m ((contains_iff candidate root).1 b), h)

-- What `require_contained_in_roots` answers is right: the path lies below the root that it names, which is
-- one of the allowed ones, or it lies below none of them.
pub require_contained_in_roots_lem :
    (fs : FileSystem) (path : String) (roots : List String)
    → PolicySpec (fs.resolve path) (map fs.resolve roots) (require_contained_in_roots fs path roots)
unfolding require_contained_in_roots
require_contained_in_roots_lem fs path roots =
    let candidate = fs.resolve path in
    let allowed = map fs.resolve roots in
    elim (Option-cases (find_first (contains candidate) allowed)) [
      | inl e ↦ rw e (
        refl,
        λ root m.
            none_contains candidate allowed root (find_first-none (contains candidate) allowed e) m,
      )
      | inr (root, e) ↦ rw e (
        refl,
        find_first-In (contains candidate) allowed e,
        (contains_iff candidate root).0 (find_first-test (contains candidate) allowed e),
      )
    ]
