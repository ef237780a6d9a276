-- ===== src/Bytes.antt =====
-- Byte buffers: `char *` with a length is a list of bytes, a read out of range is `none`.
-- The macros ANTOHS and SHTONA of engines/byedpi/upstream/packets.h, and memmove.
pub mod Laws
pub mod Chains
use zon_dpi.Prelude.{
  zero, suc, Bool, true, false, ◌==◌, ℕ, ◌+◌, ◌-◌, ◌*◌, ◌/◌, ◌%◌, Option, none, some, List, ◌++◌,
  get_elem?, set, take, drop, ltb, if◌then◌else◌,
}

-- A chain of reads: the first one out of range makes the whole chain a fault.
infixl 5 ◌>>=◌
abbrev pub ◌>>=◌ {ℓ κ} : {A : Type ℓ} {B : Type κ} → Option A → (A → Option B) → Option B
none >>= f = none
some a >>= f = f a

-- `(uint16_t)c` for a `char` that is signed: the sign is carried into the high byte.
abbrev pub widen : ℕ → ℕ
widen c = if ltb c 128 then c else 65280 + c

-- `ANTOHS(buf, i)` as the `int` that the macro computes.
unfoldable pub antohs : List ℕ → ℕ → Option ℕ
antohs buf i = get_elem? buf i >>= λ hi. get_elem? buf (i + 1) >>= λ lo. some (widen hi * 256 + lo)

-- The same stored into a `uint16_t`.
unfoldable pub antohs_u16 : List ℕ → ℕ → Option ℕ
antohs_u16 buf i = antohs buf i >>= λ v. some (v % 65536)

-- `SHTONA(buf, i, x)`; only `x` modulo 65536 is stored.
unfoldable pub shtona : List ℕ → ℕ → ℕ → List ℕ
shtona buf i x = set (set buf i (x / 256 % 256)) (i + 1) (x % 256)

-- `memmove(buf + to, buf + from, n)`, both ranges inside the buffer.
unfoldable pub memmove : List ℕ → ℕ → ℕ → ℕ → List ℕ
memmove buf to from n = take to buf ++ (take n (drop from buf) ++ drop (to + n) buf)

-- `memcmp(a + i, b + j, n) != 0`. All the bytes have to be inside the buffers.
unfoldable pub memcmp_ne : List ℕ → ℕ → List ℕ → ℕ → ℕ → Option Bool
memcmp_ne a i b j zero = some false
memcmp_ne a i b j (suc n) = get_elem? a i >>= λ x. get_elem? b j >>= λ y.
    memcmp_ne a (i + 1) b (j + 1) n >>= λ rest. if x == y then some rest else some true
