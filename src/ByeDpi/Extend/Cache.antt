-- ===== src/ByeDpi/Extend/Cache.antt =====
-- The cache of addresses: `serialize_addr`, `eq_bitlen`, `cache_get` and `cache_add` of
-- engines/byedpi/upstream/extend.c. An element of the set holds the place where its fields are, as
-- they are written through pointers; memory is always had.
pub mod Found
pub mod Prefix
use zon_dpi.Prelude.{
  ℕ, zero, suc, ◌+◌, ◌-◌, ◌*◌, ◌/◌, ◌%◌, ◌^◌, ◌==◌, not, ◌&&◌, ltb, Bool, true, false, Option, none,
  some, List, [], ◌∷◌, ◌++◌, get_elem?, if◌then◌else◌,
}
use zon_dpi.Bytes.{◌>>=◌}
use zon_dpi.ByeDpi.Proxy.{Sockaddr, af_inet}
use zon_dpi.ByeDpi.Mpool.{Elem}
use zon_dpi.ByeDpi.Mpool.Store.{Entry, Kavl, Mphdr, mem_get, mem_add, mem_delete}

-- `ip` of the key.
abbrev pub key_ip : Sockaddr → List ℕ
key_ip dst = if dst.family == af_inet then dst.v4 else dst.v6

-- The bytes of the key; their number is what is returned.
unfoldable pub serialize_addr : Sockaddr → List ℕ × ℕ
serialize_addr dst = (
  (dst.family % 256) ∷ (dst.family / 256 % 256) ∷ (dst.port ++ key_ip dst),
  if dst.family == af_inet then 8 else 20,
)

-- The first loop of `eq_bitlen`, with `k` bytes left.
unfoldable pub eq_bytes : List ℕ → List ℕ → ℕ → ℕ → Option ℕ
eq_bytes a b by zero = some by
eq_bytes a b by (suc k) = get_elem? a by >>= λ x.
    get_elem? b by >>= λ y. let rest = eq_bytes a b (by + 1) k in if x == y then rest else some by

-- The second one, with `k` rounds left. Two `char` values with a sign that are shifted by less
-- than their width are equal when the bytes without a sign are.
unfoldable pub eq_bits : ℕ → ℕ → ℕ → ℕ → ℕ
eq_bits x y bi zero = bi
eq_bits x y bi (suc k) =
    let rest = eq_bits x y (bi + 1) k in if x / 2 ^ bi == y / 2 ^ bi then bi else rest

unfoldable pub eq_bitlen : List ℕ → List ℕ → ℕ → Option ℕ
eq_bitlen a b n = eq_bytes a b 0 n >>= λ by.
    if by == n
    then some (by * 8 + 8)
    else (get_elem? a by >>= λ x. get_elem? b by >>= λ y. some (by * 8 + 8 - eq_bits x y 0 8))

-- `struct elem_i` but for its key.
pub record ElemI : Type 0 where
  pub extra : Option (List ℕ)
  pub dp_mask : List Bool
  pub dp : Option ℕ
  pub detect : ℕ
  pub time : ℕ

-- What `calloc` gives.
abbrev pub zero_elem : ElemI
zero_elem = record { extra = none; dp_mask = []; dp = none; detect = 0; time = 0 }

abbrev pub written : (ℕ → ElemI) → ℕ → ElemI → ℕ → ElemI
written cells place x i = if i == place then x else cells i

-- `val->extra`
abbrev pub has_extra : Option (List ℕ) → Bool
has_extra none = false
has_extra (some e) = true

-- `if (!val->extra && *host)`; the element and `*host`.
abbrev pub with_host : ElemI → Option (List ℕ) → ElemI × Option (List ℕ)
with_host x none = (x, none)
with_host x (some host) =
    if has_extra x.extra then (x, some host) else (record x { extra = some host }, none)

module _ (K : Kavl ℕ) where
  -- The set, the elements at their places, and the place for the next one.
  pub record Cache : Type 0 where
    pub hdr : Mphdr K
    pub cells : ℕ → ElemI
    pub free : ℕ

  -- The place of the element found, or a null pointer; `cache_ttl` is the one of a group.
  unfoldable pub cache_get : (ℕ → ℕ) → ℕ → Sockaddr → Cache → Option (Option ℕ × Cache)
  cache_get cache_ttl t dst c =
      let key = serialize_addr dst in with_found (mem_get K c.hdr key.0 (key.1 * 8))
    where
      with_found : Option (Entry ℕ) → Option (Option ℕ × Cache)
      with_found none = some (none, c)
      with_found (some val) = (c.cells val.val).dp >>= λ dp.
          if not (cache_ttl dp == 0) && ltb ((c.cells val.val).time + cache_ttl dp) t
          then some (
            none,
            record c { hdr = mem_delete K c.hdr (serialize_addr dst).0 (serialize_addr dst).1 },
          )
          else some (some val.val, c)

  -- The length of the key in bits.
  abbrev pub cmp_len_for : List ℕ → ℕ → Option (Entry ℕ) → Option ℕ
  cmp_len_for key bytes none = some (bytes * 8)
  cmp_len_for key bytes (some val) = eq_bitlen key val.key.bytes bytes

  unfoldable pub cmp_len : ℕ → Sockaddr → Cache → Option ℕ
  cmp_len cache_pre dst c =
      let key = serialize_addr dst in
      if (dst.family == af_inet) && not (cache_pre == 0)
      then cmp_len_for key.0 key.1 (mem_get K c.hdr key.0 (key.1 * 8 - cache_pre))
      else some (key.1 * 8)

  -- The place of the element, what is left in `*host`, and the cache.
  pub record Added : Type 0 where
    pub place : ℕ
    pub host : Option (List ℕ)
    pub cache : Cache

  -- The lines behind `mem_add`.
  abbrev pub stamped : ℕ → Option (List ℕ) → (ℕ → ElemI) → ℕ → Entry ℕ × Mphdr K → Added
  stamped t host cells free (val, hdr) =
      let r = with_host (record (cells val.val) { time = t }) host in
      record {
        place = val.val;
        host = r.1;
        cache = record { hdr = hdr; cells = written cells val.val r.0; free = free };
      }

  -- The fuel is for `mem_add`.
  unfoldable pub cache_add : ℕ → ℕ → ℕ → Sockaddr → Option (List ℕ) → Cache → Option Added
  cache_add fuel cache_pre t dst host c = cmp_len cache_pre dst c >>= λ len.
      mem_add K fuel c.free c.hdr (serialize_addr dst).0 len >>= λ r.
      some (stamped t host (written c.cells c.free zero_elem) (c.free + 1) r)
