-- ===== src/Registry.antt =====
-- The cache of datasets of backend/datasets/services/dataset_registry.py. Its OrderedDict is the list of its
-- entries, the least recently used first. What a context holds beside its fingerprint is of a type of its
-- own, and `serial` tells one context object from another, as `is` does.
pub mod Cache
pub mod Recency
pub mod Get
use robodata.Prelude.{
  ℕ, ◌+◌, String, Bool, true, false, not, ◌&&◌, List, [], ◌∷◌, ◌++◌, map, Option, none, some, leb,
  ◌==◌, str_eq, keep, length, find_first, if◌then◌else◌,
}
use robodata.Prelude.Checked.{Checked, rejected, passed, ◌>>=◌}
use robodata.Paths.{
  ResolvedPath, FileSystem, PathPolicy, contained, outside_allowed_roots, same_path,
  require_contained_in_roots,
}

pub record Context (F C : Type 0) : Type 0 where
  pub dataset_path : ResolvedPath
  pub content : C
  pub fingerprint : F
  pub serial : ℕ

pub record Registry (F C : Type 0) : Type 0 where
  pub max_size : ℕ
  pub items : List (Context F C)
  pub key_to_path : List (String × ResolvedPath)
  pub next_serial : ℕ

pub data RegistryError : Type 0 where
  outside_roots : ResolvedPath → RegistryError
  missing : ResolvedPath → RegistryError
  not_directory : ResolvedPath → RegistryError
  metadata_changed : ResolvedPath → RegistryError
  -- What `_load` raises: info.json is missing or no JSON, or a parquet file cannot be read.
  load_failed : String → RegistryError
  unknown_key : String → RegistryError

module _ (fs : FileSystem) (is_dir : ResolvedPath → Bool) (roots : List String) where
  abbrev pub existing_directory : PathPolicy → Checked RegistryError ResolvedPath
  existing_directory (outside_allowed_roots p rs) = rejected (outside_roots p)
  existing_directory (contained c) =
      if not (fs.exists c.path)
      then rejected (missing c.path)
      else if not (is_dir c.path)
      then rejected (not_directory c.path)
      else passed c.path

  unfoldable pub resolve_and_validate : String → Checked RegistryError ResolvedPath
  resolve_and_validate path = existing_directory (require_contained_in_roots fs path roots)

module _ {F C : Type 0} where
  abbrev pub at_path : ResolvedPath → Context F C → Bool
  at_path p c = same_path p c.dataset_path

  abbrev pub elsewhere : ResolvedPath → Context F C → Bool
  elsewhere p c = not (at_path p c)

  abbrev pub lookup : ResolvedPath → Registry F C → Option (Context F C)
  lookup p g = find_first (at_path p) g.items

  -- items[path] = context; move_to_end
  unfoldable pub put_last : Context F C → List (Context F C) → List (Context F C)
  put_last c cs = keep (elsewhere c.dataset_path) cs ++ c ∷ []

  -- while len(items) > max_size: popitem(last=False)
  unfoldable pub evict : ℕ → List (Context F C) → List (Context F C)
  evict n [] = []
  evict n (c ∷ cs) = let rest = evict n cs in if leb (length (c ∷ cs)) n then c ∷ cs else rest

  abbrev pub touch : Context F C → Registry F C → Registry F C
  touch c g = record g { items = put_last c g.items }

-- key_to_path[k] = p
abbrev pub set_key :
    String → ResolvedPath → List (String × ResolvedPath) → List (String × ResolvedPath)
set_key k p es = (k, p) ∷ keep (λ e. not (str_eq k e.0)) es

-- if value != resolved
abbrev pub key_elsewhere : ResolvedPath → String × ResolvedPath → Bool
key_elsewhere p e = not (same_path e.1 p)

-- One attempt of a stable load: the fingerprints before and after, and what `_load` reads between them, or
-- raises.
pub record Attempt (F C : Type 0) : Type 0 where
  pub before : F
  pub loaded : Checked String C
  pub after : F

-- `same` compares two fingerprints, and `key_for` is dataset_key_for, a hash.
module _ {F C : Type 0} (same : F → F → Bool) (key_for : ResolvedPath → String) where
  -- What is loaded is kept with the fingerprint before it. An exception of `_load` is not caught.
  abbrev pub settled :
      F → F → Checked RegistryError (F × C) → Checked String C → Checked RegistryError (F × C)
  settled before after again (rejected e) = rejected (load_failed e)
  settled before after again (passed c) = if same before after then passed (before, c) else again

  -- The attempts that are left; the source makes two.
  unfoldable pub load_stable : ResolvedPath → List (Attempt F C) → Checked RegistryError (F × C)
  load_stable p [] = rejected (metadata_changed p)
  load_stable p (a ∷ rest) =
      let again = load_stable p rest in settled a.before a.after again a.loaded

  abbrev pub context_of : ResolvedPath → F × C → ℕ → Context F C
  context_of p (f, c) n = record { dataset_path = p; content = c; fingerprint = f; serial = n }

  -- The last locked section of `get`.
  abbrev pub publish : ResolvedPath → F × C → Registry F C → Context F C × Registry F C
  publish p a g = (
    context_of p a g.next_serial,
    record g {
      items = evict g.max_size (put_last (context_of p a g.next_serial) g.items);
      key_to_path = set_key (key_for p) p g.key_to_path;
      next_serial = g.next_serial + 1;
    },
  )

  -- The second locked section: the entry that is still the one of the first, or a newer one with the
  -- fingerprint that was just read.
  abbrev pub reuse :
      F → ℕ → Option (Context F C) → Registry F C → Option (Context F C) × Registry F C
  reuse current serial none g = (none, g)
  reuse current serial (some c) g =
      if c.serial == serial
      then (some c, touch c g)
      else if same c.fingerprint current
      then (some c, touch c g)
      else (none, g)

  abbrev pub hit :
      (Registry F C → Registry F C)
      → ResolvedPath
      → F
      → Option (Context F C)
      → Registry F C
      → Option (Context F C) × Registry F C
  hit between p current none g = (none, g)
  hit between p current (some c) g =
      let g' = between g in
      if same current c.fingerprint then reuse current c.serial (lookup p g') g' else (none, g)

  abbrev pub published :
      Context F C × Registry F C → Checked RegistryError (Context F C) × Registry F C
  published (c, g) = (passed c, g)

  abbrev pub loaded_or_raised :
      (Registry F C → Registry F C)
      → ResolvedPath
      → Registry F C
      → Checked RegistryError (F × C)
      → Checked RegistryError (Context F C) × Registry F C
  loaded_or_raised during p g (rejected e) = (rejected e, during g)
  loaded_or_raised during p g (passed a) = published (publish p a (during g))

  abbrev pub hit_or_load :
      (Registry F C → Registry F C)
      → ResolvedPath
      → List (Attempt F C)
      → Option (Context F C) × Registry F C
      → Checked RegistryError (Context F C) × Registry F C
  hit_or_load during p attempts (some c, g) = (passed c, g)
  hit_or_load during p attempts (none, g) = loaded_or_raised during p g (load_stable p attempts)

  -- `get` of a path that is resolved and validated. `current` is the fingerprint that the check of a hit
  -- reads; `between` and `during` are what other threads do to the registry between the locked sections.
  unfoldable pub get_resolved :
      (Registry F C → Registry F C)
      → (Registry F C → Registry F C)
      → ResolvedPath
      → F
      → List (Attempt F C)
      → Registry F C
      → Checked RegistryError (Context F C) × Registry F C
  unfolding load_stable
  get_resolved between during p current attempts g =
      hit_or_load during p attempts (hit between p current (lookup p g) g)

  abbrev pub get_checked :
      (Registry F C → Registry F C)
      → (Registry F C → Registry F C)
      → (ResolvedPath → F)
      → (ResolvedPath → Attempt F C × Attempt F C)
      → Registry F C
      → Checked RegistryError ResolvedPath
      → Checked RegistryError (Context F C) × Registry F C
  get_checked between during current attempts g (rejected e) = (rejected e, g)
  get_checked between during current attempts g (passed p) =
      let (a, b) = attempts p in get_resolved between during p (current p) (a ∷ b ∷ []) g

  -- `current` and `attempts` are what reading the files of a path gives during the call.
  unfoldable pub get :
      FileSystem
      → (ResolvedPath → Bool)
      → List String
      → (Registry F C → Registry F C)
      → (Registry F C → Registry F C)
      → (ResolvedPath → F)
      → (ResolvedPath → Attempt F C × Attempt F C)
      → String
      → Registry F C
      → Checked RegistryError (Context F C) × Registry F C
  unfolding resolve_and_validate get_resolved
  get fs is_dir roots between during current attempts path g =
      get_checked between during current attempts g (resolve_and_validate fs is_dir roots path)

module _ {F C : Type 0} where
  -- `invalidate` resolves its path, and validates nothing.
  unfoldable pub invalidate : ResolvedPath → Registry F C → Registry F C
  invalidate p g = record g {
    items = keep (elsewhere p) g.items;
    key_to_path = keep (key_elsewhere p) g.key_to_path;
  }
