-- ===== src/Bytes/Chains.antt =====
-- Chains of reads that all succeed.
use zon_dpi.Prelude.{◌≡◌, refl, Bool, true, false, Option, some, if◌then◌else◌}
use zon_dpi.Bytes.{◌>>=◌}

abbrev pub Has {ℓ} : {A : Type ℓ} → Option A → Type ℓ
Has {A = A} o = (a : A) × (o ≡ some a)

-- A chain whose first link holds, and whose second one holds for every value.
pub then_has {ℓ κ} :
    {A : Type ℓ} {B : Type κ} (o : Option A) (f : A → Option B)
    → Has o
    → ((a : A) → Has (f a))
    → Has (o >>= f)
then_has o f (a, e) h = let (b, k) = h a in (b, rw e k)

pub has {ℓ} : {A : Type ℓ} (a : A) → Has (some a)
has a = (a, refl)

pub choose {ℓ} :
    {A : Type ℓ} (b : Bool) (x y : Option A)
    → (b ≡ true → Has x)
    → (b ≡ false → Has y)
    → Has (if b then x else y)
choose true x y h k = h refl
choose false x y h k = k refl
