-- ===== src/Tests/Registry.antt =====
-- A cache of at most two datasets, whose fingerprints and contents are numbers.
use robodata.Prelude.{
  str_eq, true, if◌then◌else◌, ℕ, String, ◌≡◌, refl, List, [], ◌∷◌, ◌==◌, arith, here, there, In,
}
use robodata.Prelude.Checked.{rejected, passed}
use robodata.Paths.{ResolvedPath, FileSystem}
use robodata.Registry.{
  Context, Registry, Attempt, get_resolved, invalidate, load_stable, put_last, evict, get,
  load_failed,
}
use robodata.Registry.Cache.{IsCache, Forgets, invalidate_lem}
use robodata.Registry.Get.{Answer, get_lem}

abbrev context : String → ℕ → ℕ → Context ℕ ℕ
context p f n = record { dataset_path = p ∷ []; content = 0; fingerprint = f; serial = n }

abbrev data_context : String → ℕ → ℕ → Context ℕ ℕ
data_context p f n = record {
  dataset_path = "data" ∷ p ∷ [];
  content = 0;
  fingerprint = f;
  serial = n;
}

abbrev two : Registry ℕ ℕ
two = record {
  max_size = 2;
  items = context "a" 5 0 ∷ context "b" 6 1 ∷ [];
  key_to_path = ("ka", "a" ∷ []) ∷ ("kb", "b" ∷ []) ∷ [];
  next_serial = 2;
}

abbrev key_for : ResolvedPath → String
key_for p = "key"

abbrev attempts : List (Attempt ℕ ℕ)
attempts =
    record { before = 1; loaded = passed 9; after = 2 }
    ∷ record { before = 2; loaded = passed 8; after = 2 }
    ∷ []

-- A third dataset is loaded at the second attempt, and takes the place of the oldest one.
evicts_oldest :
    (get_resolved ◌==◌ key_for (λ g. g) (λ g. g) ("c" ∷ []) 2 attempts two).1.items
    ≡ context "b" 6 1
      ∷ record { dataset_path = "c" ∷ []; content = 8; fingerprint = 2; serial = 2 }
      ∷ []
unfolding get_resolved load_stable put_last evict
evicts_oldest = refl

two-IsCache : IsCache two
two-IsCache = record { paths = (refl, (refl, tt)); size = omega arith; room = omega arith }

equal_comm : (f h : ℕ) → (f == h) ≡ (h == f)
equal_comm f h = ground arith

abbrev in_root : FileSystem
in_root = record {
  resolve = λ s. if str_eq s "root" then "data" ∷ [] else "data" ∷ s ∷ [];
  exists = λ p. true;
  show = λ p. "";
}

abbrev with_data : Registry ℕ ℕ
with_data = record two { items = data_context "a" 5 0 ∷ data_context "b" 6 1 ∷ [] }

with_data-IsCache : IsCache with_data
with_data-IsCache = record { paths = (refl, (refl, tt)); size = omega arith; room = omega arith }

one_object :
    (c d : Context ℕ ℕ) → In c with_data.items → In d with_data.items → d.serial ≡ c.serial → d ≡ c
one_object c d here here e = refl
one_object c d here (there here) e = ground (arith, e)
one_object c d (there here) here e = ground (arith, e)
one_object c d (there here) (there here) e = refl
one_object c d (there (there m)) n e = elim m [ ]
one_object c d m (there (there n)) e = elim n [ ]

abbrev loads : ResolvedPath → Attempt ℕ ℕ × Attempt ℕ ℕ
loads p = (
  record { before = 1; loaded = passed 9; after = 2 },
  record { before = 2; loaded = passed 8; after = 2 },
)

raises_at_once :
    load_stable ◌==◌ key_for
      ("a" ∷ [])
      (record { before = 1; loaded = rejected "no info.json"; after = 1 } ∷ attempts)
    ≡ rejected (load_failed "no info.json")
unfolding load_stable
raises_at_once = refl

get_lem_example :
    let x =
      get ◌==◌ key_for in_root
        (λ p. true)
        ("root" ∷ [])
        (λ g. g)
        (λ g. g)
        (λ p. 5)
        loads
        "a"
        with_data in
    IsCache x.1
    × Answer ◌==◌ key_for in_root
        (λ p. true)
        ("root" ∷ [])
        "a"
        (λ g. g)
        (λ g. g)
        (λ g v. v)
        (λ g v. v)
        equal_comm
        (λ p. 5)
        loads
        with_data
        x
get_lem_example =
    get_lem ◌==◌ key_for in_root (λ p. true) ("root" ∷ []) "a" (λ g. g) (λ g. g) (λ g v. v)
      (λ g v. v) equal_comm (λ p. 5) loads with_data one_object with_data-IsCache

invalidate_lem_example :
    IsCache (invalidate ("a" ∷ []) two) × Forgets ("a" ∷ []) two (invalidate ("a" ∷ []) two)
invalidate_lem_example = invalidate_lem ("a" ∷ []) two two-IsCache
