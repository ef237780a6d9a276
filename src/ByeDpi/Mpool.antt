-- ===== src/ByeDpi/Mpool.antt =====
-- Sets of byte strings, engines/byedpi/upstream/mpool.c: the three comparisons here, the
-- operations in Store.
pub mod Lists
pub mod Hosts
pub mod Store
mod Tests
use zon_dpi.Prelude.{
  ℕ, zero, suc, ◌+◌, ◌-◌, ◌*◌, ◌/◌, ◌%◌, ◌^◌, ◌==◌, ltb, leb, Bool, true, false, Option, none, some,
  List, [], ◌∷◌, get_elem?, if◌then◌else◌,
}
use zon_dpi.Prelude.Int.{ℤ, pos, negsuc}
use zon_dpi.Bytes.{◌>>=◌}

-- `len` and `data` of `struct elem`.
pub record Elem : Type 0 where
  pub len : ℕ
  pub bytes : List ℕ

-- -1 or 1, as after `!=`.
abbrev pub side : Bool → ℤ
side less = if less then negsuc 0 else pos 1

-- `memcmp`, by the unsigned bytes; of its value only the sign is known, which is what is given. A
-- read outside of a string is `none`.
unfoldable pub memcmp : List ℕ → List ℕ → ℕ → ℕ → Option ℤ
memcmp a b i zero = some (pos 0)
memcmp a b i (suc n) = get_elem? a i >>= λ x. get_elem? b i >>= λ y.
    let rest = memcmp a b (i + 1) n in if x == y then rest else some (side (ltb x y))

-- The test of a partial byte by `bit_cmp`.
unfoldable pub last_bits : Elem → Elem → ℕ → ℕ → Option ℤ
last_bits p q bytes df = get_elem? p.bytes bytes >>= λ c. get_elem? q.bytes bytes >>= λ d.
    let c1 = c / 2 ^ (8 - df) in
    let c2 = d / 2 ^ (8 - df) in some (if c1 == c2 then pos 0 else side (ltb c1 c2))

-- `e` as a truth value
abbrev pub is_nonzero : ℤ → Bool
is_nonzero (pos zero) = false
is_nonzero (pos (suc n)) = true
is_nonzero (negsuc n) = true

-- `q->len < p->len ? q->len : p->len`
abbrev pub shorter : Elem → Elem → ℕ
shorter p q = if ltb q.len p.len then q.len else p.len

unfoldable pub bit_cmp : Elem → Elem → Option ℤ
bit_cmp p q =
    let len = shorter p q in
    memcmp p.bytes q.bytes 0 (len / 8) >>= λ cmp.
    if is_nonzero cmp
    then some cmp
    else if len % 8 == 0
    then some cmp
    else last_bits p q (len / 8) (len % 8)

unfoldable pub byte_cmp : Elem → Elem → Option ℤ
byte_cmp p q =
    if p.len == q.len then memcmp p.bytes q.bytes 0 p.len else some (side (ltb p.len q.len))

-- `*pd < *qd`, for `char` values with a sign.
abbrev pub char_less : ℕ → ℕ → Bool
char_less x y = ltb ((x + 128) % 256) ((y + 128) % 256)

-- `while (len-- > 0)` of `host_cmp`, for `pd` at `i` and `qd` at `j`; `none` inside if no byte
-- differs.
unfoldable pub host_loop : List ℕ → ℕ → List ℕ → ℕ → ℕ → Option (Option ℤ)
host_loop ps i qs j zero = some none
host_loop ps i qs j (suc k) = get_elem? ps (i - 1) >>= λ x. get_elem? qs (j - 1) >>= λ y.
    let rest = host_loop ps (i - 1) qs (j - 1) k in
    if x == y then rest else some (some (side (char_less x y)))

-- `pd[-1] == '.'` for the longer one, of which `n` bytes are left.
abbrev pub dot_before : List ℕ → ℕ → ℤ → Option ℤ
dot_before longer n otherwise =
    get_elem? longer (n - 1) >>= λ c. some (if c == b'.' then pos 0 else otherwise)

abbrev pub host_end : Elem → Elem → Option ℤ → Option ℤ
host_end p q (some cmp) = some cmp
host_end p q none =
    if p.len == q.len
    then some (pos 0)
    else if ltb q.len p.len
    then dot_before p.bytes (p.len - q.len) (pos 1)
    else dot_before q.bytes (q.len - p.len) (negsuc 0)

unfoldable pub host_cmp : Elem → Elem → Option ℤ
host_cmp p q = host_loop p.bytes p.len q.bytes q.len (shorter p q) >>= host_end p q

abbrev pub cmp_bits : ℕ
cmp_bits = 1

abbrev pub cmp_host : ℕ
cmp_host = 2

unfoldable pub scmp : ℕ → Elem → Elem → Option ℤ
scmp cmp_type p q =
    if cmp_type == cmp_bits
    then bit_cmp p q
    else if cmp_type == cmp_host
    then host_cmp p q
    else byte_cmp p q
