-- ===== src/ByeDpi/Proxy/Address/RoundTrip.antt =====
-- An address that is written is read back, and mapped addresses are mapped back.
use mathlib.Core.List.{append_assoc}
use zon_dpi.Prelude.{
  ℕ, ◌+◌, ◌-◌, ◌==◌, ◌≡◌, ◌≤◌, ◌⊎◌, refl, ap, Bool, true, false, inl, inr, ltb, some, List, [], ◌∷◌,
  ◌++◌, drop, length, length-append, arith, if◌then◌else◌,
}
use zon_dpi.Prelude.Int.{pos}
use zon_dpi.Bytes.Laws.{get_elem?-some}
use zon_dpi.ByeDpi.Proxy.{Sockaddr, Settings, af_inet, af_inet6, put}
use zon_dpi.ByeDpi.Proxy.Address.{
  map_fix, s5_get_addr, s5_size, s5_switch, s5_port, s5_set_addr, s5_start,
}
use zon_dpi.ByeDpi.Proxy.Address.Laws.{bytes-append, drop-put}

-- An address that fits into a request.
abbrev pub IsWhole : Settings → Sockaddr → Type 0
IsWhole s addr =
    (length addr.port ≡ 2)
    × (((addr.family ≡ af_inet) × (length addr.v4 ≡ 4))
        ⊎ ((addr.family ≡ af_inet6) × (length addr.v6 ≡ 16) × (s.ipv6 ≡ true)))

-- `old` with the family, the address and the port of `addr`.
abbrev pub received : Sockaddr → Sockaddr → Sockaddr
received addr old =
    if addr.family == af_inet
    then record old { family = af_inet; v4 = addr.v4; port = addr.port }
    else record old { family = af_inet6; v6 = addr.v6; port = addr.port }

module _ (s : Settings) (old : Sockaddr) (type a b c : ℕ) (port ys : List ℕ)
    (np : length port ≡ 2) where
  pub read_v4 :
      (ip : List ℕ)
      → length ip ≡ 4
      → s5_get_addr s (a ∷ b ∷ c ∷ 1 ∷ (ip ++ (port ++ ys))) 10 old type
        ≡ some
            (record { ret = pos 10; addr = record old { family = af_inet; v4 = ip; port = port } })
  unfolding s5_get_addr s5_size s5_switch s5_port
  read_v4 ip n =
      let buf = a ∷ b ∷ c ∷ 1 ∷ (ip ++ (port ++ ys)) in
      let (v, at) =
        get_elem?-some (ip ++ (port ++ ys)) 0 (omega (arith, n, length-append ip (port ++ ys))) in
      let ip_at =
        bytes-append (a ∷ b ∷ c ∷ 1 ∷ []) ip (port ++ ys) 4 4 (omega arith) (omega (arith, n)) in
      let port_at =
        bytes-append (a ∷ b ∷ c ∷ 1 ∷ ip) port ys 8 2 (omega (arith, n)) (omega (arith, np)) in
      rw (at, ip_at, port_at) refl

  pub read_v6 :
      (ip : List ℕ)
      → length ip ≡ 16
      → s.ipv6 ≡ true
      → s5_get_addr s (a ∷ b ∷ c ∷ 4 ∷ (ip ++ (port ++ ys))) 22 old type
        ≡ some
            (record { ret = pos 22; addr = record old { family = af_inet6; v6 = ip; port = port } })
  unfolding s5_get_addr s5_size s5_switch s5_port
  read_v6 ip n on =
      let (v, at) =
        get_elem?-some (ip ++ (port ++ ys)) 0 (omega (arith, n, length-append ip (port ++ ys))) in
      let ip_at =
        bytes-append (a ∷ b ∷ c ∷ 4 ∷ []) ip (port ++ ys) 4 16 (omega arith) (omega (arith, n)) in
      let port_at =
        bytes-append (a ∷ b ∷ c ∷ 4 ∷ ip) port ys 20 2 (omega (arith, n)) (omega (arith, np)) in
      rw (at, on, ip_at, port_at) refl

-- An address of either family that `s5_set_addr` writes, before or behind a place with room for
-- the larger size, is the address that `s5_get_addr` reads there, of the size that both return.
pub s5_get_addr-s5_set_addr :
    (s : Settings) (mem : List ℕ) (at n : ℕ) (addr old : Sockaddr) (end : Bool) (type : ℕ)
    → IsWhole s addr
    → 22 ≤ n
    → 22 ≤ at
    → at + 22 ≤ length mem
    → (o : ℕ) × ((s5_set_addr mem at n addr end).0 ≡ pos o)
      × (s5_get_addr s
            (drop (if end then at - o else at) (s5_set_addr mem at n addr end).1)
            o
            old
            type
          ≡ some (record { ret = pos o; addr = received addr old }))
unfolding s5_set_addr s5_start
s5_get_addr-s5_set_addr s mem at n addr old end type (np, inl (inet, n4)) room before behind =
    let r = s5_start at 10 end in
    let bs = 1 ∷ (addr.v4 ++ addr.port) in
    let (a, b, c, ys, e) = drop-put mem bs r (ground arith) in
    let family : (addr.family == af_inet) ≡ true = ground arith in
    let enough : ltb n 10 ≡ false = ground arith in
    let set : s5_set_addr mem at n addr end ≡ (pos 10, put mem (r + 3) bs) =
      rw (enough, family) refl in
    (
      10,
      ap (λ v. v.0) set,
      rw (set, e, append_assoc addr.v4 addr.port ys, family)
          (read_v4 s old type a b c addr.port ys np addr.v4 n4),
    )
s5_get_addr-s5_set_addr s mem at n addr old end type (np, inr (inet6, n6, on)) room before behind =
    let r = s5_start at 22 end in
    let bs = 4 ∷ (addr.v6 ++ addr.port) in
    let (a, b, c, ys, e) = drop-put mem bs r (ground arith) in
    let family : (addr.family == af_inet) ≡ false = ground arith in
    let enough : ltb n 10 ≡ false = ground arith in
    let enough6 : ltb n 22 ≡ false = ground arith in
    let set : s5_set_addr mem at n addr end ≡ (pos 22, put mem (r + 3) bs) =
      rw (enough, family, enough6) refl in
    (
      22,
      ap (λ v. v.0) set,
      rw (set, e, append_assoc addr.v6 addr.port ys, family)
          (read_v6 s old type a b c addr.port ys np addr.v6 n6 on),
    )

-- An IPv4 address that is mapped into IPv6 and back is the same address, whatever lay in the bytes
-- of the other family, and keeps its port.
pub map_fix-map_fix :
    (addr : Sockaddr)
    → addr.family ≡ af_inet
    → ((map_fix addr true).family ≡ af_inet6)
      × ((map_fix (map_fix addr true) false).family ≡ af_inet)
      × ((map_fix (map_fix addr true) false).v4 ≡ addr.v4)
      × ((map_fix (map_fix addr true) false).port ≡ addr.port)
unfolding map_fix
map_fix-map_fix addr inet =
    let family : (addr.family == af_inet) ≡ true = ground arith in
    rw family (refl, refl, refl, refl)
