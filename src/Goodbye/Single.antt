-- ===== src/Goodbye/Single.antt =====
-- Arithmetic of the C type `float`, single precision rounded to nearest, for the numbers that the
-- TTL of a fake packet is computed with: at least 2 ^ -8 and less than 2 ^ 24, or zero.
use zon_dpi.Prelude.{ℕ, zero, suc, ◌+◌, ◌*◌, ◌/◌, ◌%◌, ◌^◌, ◌≡◌, ltb, refl, if◌then◌else◌}

-- The number `mantissa / 2 ^ shift`.
pub record Single : Type 0 where
  pub mantissa : ℕ
  pub shift : ℕ

-- `p / q` rounded to an integer, and to an even one in the middle of two.
unfoldable pub nearest : ℕ → ℕ → ℕ
nearest p q =
    let whole = p / q in
    let twice = p % q * 2 in
    if ltb twice q then whole else if ltb q twice then whole + 1 else whole + whole % 2

-- The least shift from `k` on with which `p / q` has a mantissa of 24 bits.
unfoldable pub shift_from : ℕ → ℕ → ℕ → ℕ → ℕ
shift_from zero k p q = k
shift_from (suc fuel) k p q =
    let next = shift_from fuel (k + 1) p q in if ltb (p * 2 ^ k) (q * 2 ^ 23) then next else k

unfoldable pub single : ℕ → ℕ → Single
single p q = let k = shift_from 31 0 p q in record { mantissa = nearest (p * 2 ^ k) q; shift = k }

-- The product of an integer and a number.
unfoldable pub scaled : ℕ → Single → Single
scaled d x = single (d * x.mantissa) (2 ^ x.shift)

unfoldable pub trunc : Single → ℕ
trunc x = x.mantissa / 2 ^ x.shift

-- 7 / 10 is rounded down, and its product with 10 up to 7.
seven_tenths : scaled 10 (single 7 10) ≡ record { mantissa = 7 * 2 ^ 21; shift = 21 }
unfolding scaled single shift_from nearest
seven_tenths = refl
