-- ===== src/ByeDpi/Extend/Cache/Found.antt =====
-- What is put into the cache for an address is found for it.
use zon_dpi.Prelude.{
  ℕ, zero, suc, ◌+◌, ◌*◌, ◌/◌, ◌%◌, ◌==◌, not, ◌&&◌, ltb, ◌≡◌, ◌≢◌, ◌≤◌, ◌<◌, ◌⊎◌, refl, ap, ◌∙◌,
  true, false, Bool-cases, inl, inr, Option, none, some, List, length, length-append, arith,
}
use zon_dpi.Prelude.Int.{pos}
use zon_dpi.Bytes.Laws.{get_elem?-some}
use zon_dpi.ByeDpi.Proxy.{Sockaddr, af_inet}
use zon_dpi.ByeDpi.Mpool.{memcmp, bit_cmp, scmp, cmp_bits}
use zon_dpi.ByeDpi.Mpool.Store.{Entry, Kavl, IsCounted, mem_get, mem_add-IsCounted}
use zon_dpi.ByeDpi.Mpool.Store.Found.{mem_get-mem_add}
use zon_dpi.ByeDpi.Extend.Cache.{
  serialize_addr, ElemI, zero_elem, written, Cache, cache_get, cmp_len, has_extra, with_host, Added,
  stamped, cache_add,
}

memcmp_self : (xs : List ℕ) (i n : ℕ) → i + n ≤ length xs → memcmp xs xs i n ≡ some (pos 0)
unfolding memcmp
memcmp_self xs i zero h = refl
memcmp_self xs i (suc n) h =
    let (x, e) = get_elem?-some xs i (omega arith) in
    let same : (x == x) ≡ true = ground arith in
    rw (e, same) (memcmp_self xs (i + 1) n (omega arith))

-- A key of whole bytes counts as the same as itself.
bit_cmp_self :
    (bs : List ℕ) (n : ℕ)
    → n ≤ length bs
    → bit_cmp (record { len = n * 8; bytes = bs }) (record { len = n * 8; bytes = bs })
      ≡ some (pos 0)
unfolding bit_cmp
bit_cmp_self bs n h =
    let whole : (n * 8 / 8) ≡ n = omega arith in
    let none_left : (n * 8 % 8) ≡ 0 = omega arith in
    let not_less : ltb (n * 8) (n * 8) ≡ false = ground arith in
    rw (not_less, whole, memcmp_self bs 0 n (omega arith), none_left) refl

-- The parts of an address have the sizes of the protocol.
abbrev pub IsAddr : Sockaddr → Type 0
IsAddr dst = (length dst.port ≡ 2) × (length dst.v4 ≡ 4) × (length dst.v6 ≡ 16)

serialize_addr-length :
    (dst : Sockaddr) → IsAddr dst → length (serialize_addr dst).0 ≡ (serialize_addr dst).1
unfolding serialize_addr
serialize_addr-length dst (port, v4, v6) = elim (Bool-cases (dst.family == af_inet)) [
  | inl inet ↦ rw inet (omega (arith, length-append dst.port dst.v4))
  | inr inet6 ↦ rw inet6 (omega (arith, length-append dst.port dst.v6))
]

written_self : (cells : ℕ → ElemI) (place : ℕ) (x : ElemI) → written cells place x place ≡ x
written_self cells place x = let same : (place == place) ≡ true = ground arith in rw same refl

with_host-time : (x : ElemI) (host : Option (List ℕ)) → ((with_host x host).0).time ≡ x.time
with_host-time x none = refl
with_host-time x (some host) = elim (Bool-cases (has_extra x.extra)) [
  | inl given ↦ rw given refl
  | inr blank ↦ rw blank refl
]

module _ (K : Kavl ℕ) where
  cmp_len-whole :
      (cache_pre : ℕ) (dst : Sockaddr) (c : Cache K)
      → (cache_pre ≡ 0) ⊎ (dst.family ≢ af_inet)
      → cmp_len K cache_pre dst c ≡ some ((serialize_addr dst).1 * 8)
  unfolding cmp_len
  cmp_len-whole cache_pre dst c off =
      let no : ((dst.family == af_inet) && not (cache_pre == 0)) ≡ false = ground arith in
      rw no refl

  -- `cache->dp = dp`
  abbrev pub saved : Cache K → ℕ → ℕ → Cache K
  saved c place d = record c {
    cells = written c.cells place (record (c.cells place) { dp = some d });
  }

  cache_get-hit :
      (cache_ttl : ℕ → ℕ) (t d : ℕ) (dst : Sockaddr) (c : Cache K) (v : Entry ℕ)
      → mem_get K c.hdr (serialize_addr dst).0 ((serialize_addr dst).1 * 8) ≡ some v
      → (c.cells v.val).dp ≡ some d
      → (cache_ttl d ≡ 0) ⊎ (t ≤ (c.cells v.val).time + cache_ttl d)
      → cache_get K cache_ttl t dst c ≡ some (some v.val, c)
  unfolding cache_get
  cache_get-hit cache_ttl t d dst c v found has_dp fresh =
      let young : (not (cache_ttl d == 0) && ltb ((c.cells v.val).time + cache_ttl d) t) ≡ false =
        ground arith in
      rw (found, has_dp, young) refl

  -- With whole addresses as keys, the cache adds an address at a time `now`, and the element it
  -- gives has that time; when a group has been written into it, `cache_get` finds it for the same
  -- address as long as the time of the group, if it has one, is not over.
  pub cache_get-cache_add :
      (fuel cache_pre now t d : ℕ) (cache_ttl : ℕ → ℕ) (dst : Sockaddr) (host : Option (List ℕ))
      (c : Cache K)
      → IsAddr dst
      → IsCounted K c.hdr
      → K.size c.hdr.root < fuel
      → c.hdr.cmp_type ≡ cmp_bits
      → (cache_pre ≡ 0) ⊎ (dst.family ≢ af_inet)
      → (cache_ttl d ≡ 0) ⊎ (t ≤ now + cache_ttl d)
      → (a : Added K) × (cache_add K fuel cache_pre now dst host c ≡ some a)
        × ((a.cache.cells a.place).time ≡ now)
        × (cache_get K cache_ttl t dst (saved a.cache a.place d)
            ≡ some (some a.place, saved a.cache a.place d))
  unfolding cache_add scmp
  cache_get-cache_add fuel cache_pre now t d cache_ttl dst host c ok counted enough bits off fresh =
      let key = serialize_addr dst in
      let self : scmp c.hdr.cmp_type (record { len = key.1 * 8; bytes = key.0 })
            (record { len = key.1 * 8; bytes = key.0 })
          ≡ some (pos 0) =
        rw bits (bit_cmp_self key.0 key.1 (omega (arith, serialize_addr-length dst ok))) in
      let (v, h, run, counted', ct, held) =
        mem_add-IsCounted K fuel c.free c.hdr key.0 (key.1 * 8) counted enough in
      let found = mem_get-mem_add K fuel c.free c.hdr key.0 (key.1 * 8) v h self run in
      let a = stamped K now host (written c.cells c.free zero_elem) (c.free + 1) (v, h) in
      let timed : (a.cache.cells a.place).time ≡ now =
        let cells = written c.cells c.free zero_elem in
        let stamp : ElemI = record (cells v.val) { time = now } in
        ap (λ x. x.time) (written_self cells v.val (with_host stamp host).0)
        ∙ with_host-time stamp host in
      let last = record (a.cache.cells a.place) { dp = some d } in
      let seen = written_self a.cache.cells a.place last in
      (
        a,
        rw (cmp_len-whole cache_pre dst c off, run) refl,
        timed,
        cache_get-hit cache_ttl t d dst (saved a.cache a.place d) v found (ap (λ x. x.dp) seen)
            (rw (ap (λ x. x.time) seen ∙ timed) fresh),
      )
