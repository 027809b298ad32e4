-- ===== src/Prelude/Checked.antt =====
-- The result of a check that stops at its first error: what Python raises is `rejected`.
use robodata.Prelude.{◌≡◌, refl}

pub data Checked (E A : Type 0) : Type 0 where
  rejected : E → Checked E A
  passed : A → Checked E A

infixl 5 ◌>>=◌
abbrev pub ◌>>=◌ : {E A B : Type 0} → Checked E A → (A → Checked E B) → Checked E B
rejected e >>= k = rejected e
passed x >>= k = k x

-- A chain that passes has passed its first check.
pub bind-passed :
    {E A B : Type 0} {y : B} (k : A → Checked E B) (r : Checked E A)
    → (r >>= k) ≡ passed y
    → (x : A) × (r ≡ passed x) × (k x ≡ passed y)
bind-passed k (rejected e) q = cc
bind-passed k (passed x) q = (x, refl, q)
