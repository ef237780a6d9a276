-- ===== src/ByeDpi/Extend/Masks.antt =====
-- Masks of groups as lists of bits.
use zon_dpi.Prelude.{
  ℕ, zero, suc, ◌≡◌, ◌≢◌, ap, ◌≤◌, ◌<◌, refl, Bool, true, false, List, [], ◌∷◌, length, get_or, set,
  arith, if◌then◌else◌,
}

-- `get_or` and `set` on a mask.
pub get_or-set_self :
    (mask : List Bool) (i : ℕ) → i < length mask → get_or (set mask i true) i false ≡ true
get_or-set_self [] i lt = absurd (omega arith)
get_or-set_self (b ∷ bs) zero lt = refl
get_or-set_self (b ∷ bs) (suc i) lt = get_or-set_self bs i (omega arith)

pub get_or-set_ne :
    (mask : List Bool) (i k : ℕ) (b : Bool)
    → i ≢ k
    → get_or (set mask i b) k false ≡ get_or mask k false
get_or-set_ne [] i k b ne = refl
get_or-set_ne (x ∷ xs) zero zero b ne = absurd (ne refl)
get_or-set_ne (x ∷ xs) zero (suc k) b ne = refl
get_or-set_ne (x ∷ xs) (suc i) zero b ne = refl
get_or-set_ne (x ∷ xs) (suc i) (suc k) b ne = get_or-set_ne xs i k b (λ e. ne (ap suc e))

abbrev pub Grown : List Bool → List Bool → Type 0
Grown mask mask' = (i : ℕ) → get_or mask i false ≡ true → get_or mask' i false ≡ true

pub set-Grown : (mask : List Bool) (k : ℕ) → Grown mask (set mask k true)
set-Grown [] k i e = e
set-Grown (b ∷ bs) zero zero e = refl
set-Grown (b ∷ bs) zero (suc i) e = e
set-Grown (b ∷ bs) (suc k) zero e = e
set-Grown (b ∷ bs) (suc k) (suc i) e = set-Grown bs k i e

pub refused_bool : ¬ (false ≡ true)
refused_bool e = cc

-- The number of bits that are not set.
abbrev pub unset : List Bool → ℕ
unset [] = 0
unset (b ∷ bs) = if b then unset bs else suc (unset bs)

pub Grown-unset : (a b : List Bool) → length b ≡ length a → Grown a b → unset b ≤ unset a
Grown-unset [] [] e h = omega arith
Grown-unset [] (y ∷ ys) e h = absurd (omega arith)
Grown-unset (x ∷ xs) [] e h = absurd (omega arith)
Grown-unset (x ∷ xs) (y ∷ ys) e h =
    let rest = Grown-unset xs ys (omega arith) (λ i bit. h (suc i) bit) in
    let first = h 0 in heads x y first rest
  where
    heads :
        (x y : Bool) → (x ≡ true → y ≡ true) → unset ys ≤ unset xs → unset (y ∷ ys) ≤ unset (x ∷ xs)
    heads true true f r = omega arith
    heads true false f r = absurd (refused_bool (f refl))
    heads false true f r = omega arith
    heads false false f r = omega arith

-- A bit that is set in a mask that grows makes it have less bits that are not set.
pub Grown-fewer :
    (a b : List Bool) (i : ℕ)
    → length b ≡ length a
    → Grown a b
    → i < length a
    → get_or a i false ≡ false
    → get_or b i false ≡ true
    → unset b < unset a
Grown-fewer [] b i e h lt off on = absurd (omega arith)
Grown-fewer (x ∷ xs) [] i e h lt off on = absurd (omega arith)
Grown-fewer (x ∷ xs) (y ∷ ys) zero e h lt off on =
    rw (off, on) (omega (arith, Grown-unset xs ys (omega arith) (λ i bit. h (suc i) bit)))
Grown-fewer (x ∷ xs) (y ∷ ys) (suc i) e h lt off on =
    heads x y (h 0)
      (Grown-fewer xs ys i (omega arith) (λ k bit. h (suc k) bit) (omega arith) off on)
  where
    heads :
        (x y : Bool) → (x ≡ true → y ≡ true) → unset ys < unset xs → unset (y ∷ ys) < unset (x ∷ xs)
    heads true true f r = omega arith
    heads true false f r = absurd (refused_bool (f refl))
    heads false true f r = omega arith
    heads false false f r = omega arith
