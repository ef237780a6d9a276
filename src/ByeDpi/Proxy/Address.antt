-- ===== src/ByeDpi/Proxy/Address.antt =====
-- Addresses in the proxy protocols: `map_fix`, `addr_equ`, `s4_get_addr`, `s5_get_addr`,
-- `s5_set_addr`, `http_get_addr` and `tls_get_addr` of engines/byedpi/upstream/proxy.c. A read
-- outside the buffer is `none`.
pub mod Laws
pub mod RoundTrip
pub mod Safety
pub mod Names
use zon_dpi.Prelude.{
  ℕ, zero, suc, ◌+◌, ◌-◌, ◌*◌, ◌==◌, not, ◌&&◌, ◌||◌, leb, ltb, Bool, true, false, Option, none,
  some, List, [], ◌∷◌, ◌++◌, take, drop, length, replicate, get_elem?, if◌then◌else◌,
}
use zon_dpi.Prelude.Int.{ℤ, pos, negsuc}
use zon_dpi.Bytes.{◌>>=◌}
use zon_dpi.ByeDpi.Http.{parse_http}
use zon_dpi.ByeDpi.Tls.Hello.{parse_tls}
use zon_dpi.ByeDpi.Proxy.{
  Sockaddr, Answer, Settings, af_inet, af_inet6, s_cmd_conn, s_atp_i4, s_atp_id, s_atp_i6,
  s_size_min, s_size_i4, s_size_i6, s_size_id, bytes, put, htons, big_endian,
}

abbrev pub bytes_eq : List ℕ → List ℕ → Bool
bytes_eq [] [] = true
bytes_eq [] (b ∷ bs) = false
bytes_eq (a ∷ as_) [] = false
bytes_eq (a ∷ as_) (b ∷ bs) = (a == b) && bytes_eq as_ bs

-- `o64`, `o16` and `t16` of a mapped address
abbrev pub mapped_prefix : List ℕ
mapped_prefix = 0 ∷ 0 ∷ 0 ∷ 0 ∷ 0 ∷ 0 ∷ 0 ∷ 0 ∷ 0 ∷ 0 ∷ 255 ∷ 255 ∷ []

unfoldable pub map_fix : Sockaddr → Bool → Sockaddr
map_fix addr f6 =
    if (addr.family == af_inet) && f6
    then record addr { family = af_inet6; v6 = mapped_prefix ++ addr.v4 }
    else if bytes_eq (take 12 addr.v6) mapped_prefix && not f6
    then record addr { family = af_inet; v4 = drop 12 addr.v6 }
    else addr

unfoldable pub addr_equ : Sockaddr → Sockaddr → Bool
addr_equ a b = if a.family == af_inet then bytes_eq a.v4 b.v4 else bytes_eq a.v6 b.v6

abbrev pub answer : ℤ → Sockaddr → Option Answer
answer ret addr = some (record { ret = ret; addr = addr })

-- What follows a call of `resolve`: `fail` if it fails, else the address with the port.
abbrev pub resolved : ℤ → ℤ → List ℕ → Sockaddr → Option Sockaddr → Option Answer
resolved fail ok port dst none = answer fail dst
resolved fail ok port dst (some addr) = answer ok (record addr { port = port })

-- `strchr(s, 0)`, for the bytes behind `i` of them.
unfoldable pub find_zero : List ℕ → ℕ → Option ℕ
find_zero [] i = none
find_zero (x ∷ xs) i = let rest = find_zero xs (suc i) in if x == 0 then some i else rest

-- The branch of `s4_get_addr` for an address of the form 0.0.0.x.
unfoldable pub s4_by_name : Settings → List ℕ → ℕ → List ℕ → Sockaddr → Option Answer
s4_by_name s buff n port dst =
    if not s.may_resolve
    then answer (negsuc 0) dst
    else (get_elem? buff (n - 1) >>= λ last.
        if not (last == 0)
        then answer (negsuc 0) dst
        else (find_zero (drop 8 buff) 8 >>= λ id_end.
            let len = n - id_end - 2 in
            if ltb (n - id_end) 5 || ltb 255 len
            then answer (negsuc 0) dst
            else (bytes buff (id_end + 1) len >>= λ host.
                resolved (negsuc 0) (pos 0) port dst (s.resolve host 1 dst))))

unfoldable pub s4_get_addr : Settings → List ℕ → ℕ → Sockaddr → Option Answer
s4_get_addr s buff n dst =
    if ltb n 9
    then answer (negsuc 0) dst
    else (get_elem? buff 1 >>= λ cmd. bytes buff 2 2 >>= λ port. bytes buff 4 4 >>= λ i4.
        if not (cmd == s_cmd_conn)
        then answer (negsuc 0) dst
        else if leb (big_endian 0 i4) 255
        then s4_by_name s buff n port dst
        else answer (pos 0) (record dst { family = af_inet; v4 = i4; port = port }))

-- The size of a request, by its type of address and the byte behind that.
unfoldable pub s5_size : ℕ → ℕ → ℕ
s5_size atp id_len =
    if atp == s_atp_i4
    then s_size_i4
    else if atp == s_atp_id
    then id_len + s_size_id
    else if atp == s_atp_i6
    then s_size_i6
    else 0

-- The last two lines of `s5_get_addr`.
unfoldable pub s5_port : List ℕ → ℕ → Sockaddr → Option Answer
s5_port buffer o addr =
    if ltb o 2
    then none
    else (bytes buffer (o - 2) 2 >>= λ port. answer (pos o) (record addr { port = port }))

-- `if (resolve(...)) return -S_ER_HOST;`, and what follows.
abbrev pub s5_resolved : List ℕ → ℕ → Sockaddr → Option Sockaddr → Option Answer
s5_resolved buffer o addr none = answer (negsuc 3) addr
s5_resolved buffer o addr (some found) = s5_port buffer o found

-- `switch (r->atp)`
unfoldable pub s5_switch : Settings → List ℕ → ℕ → ℕ → ℕ → Sockaddr → ℕ → Option Answer
s5_switch s buffer atp id_len o addr type =
    if atp == s_atp_i4
    then (bytes buffer 4 4 >>= λ ip. s5_port buffer o (record addr { family = af_inet; v4 = ip }))
    else if atp == s_atp_id
    then (if not s.may_resolve
        then answer (negsuc 7) addr
        else if ltb id_len 3
        then answer (negsuc 3) addr
        else (bytes buffer 5 id_len >>= λ host.
            s5_resolved buffer o addr (s.resolve host type addr)))
    else if atp == s_atp_i6
    then (if not s.ipv6
        then answer (negsuc 7) addr
        else (bytes buffer 4 16 >>= λ ip.
            s5_port buffer o (record addr { family = af_inet6; v6 = ip })))
    else s5_port buffer o addr

unfoldable pub s5_get_addr : Settings → List ℕ → ℕ → Sockaddr → ℕ → Option Answer
s5_get_addr s buffer n addr type =
    if ltb n s_size_min
    then answer (negsuc 0) addr
    else (get_elem? buffer 3 >>= λ atp. get_elem? buffer 4 >>= λ id_len.
        if ltb n (s5_size atp id_len)
        then answer (negsuc 0) addr
        else s5_switch s buffer atp id_len (s5_size atp id_len) addr type)

-- `buffer` is `mem + at`; `r` is where the request starts.
unfoldable pub s5_start : ℕ → ℕ → Bool → ℕ
s5_start at size end = if end then at - size else at

-- The value returned and the memory.
unfoldable pub s5_set_addr : List ℕ → ℕ → ℕ → Sockaddr → Bool → ℤ × List ℕ
s5_set_addr mem at n addr end =
    if ltb n s_size_i4
    then (negsuc 0, mem)
    else if addr.family == af_inet
    then (
      pos s_size_i4,
      put mem (s5_start at s_size_i4 end + 3) (s_atp_i4 ∷ (addr.v4 ++ addr.port)),
    )
    else if ltb n s_size_i6
    then (negsuc 0, mem)
    else (
      pos s_size_i6,
      put mem (s5_start at s_size_i6 end + 3) (s_atp_i6 ∷ (addr.v6 ++ addr.port)),
    )

-- `host_len < 3 || host_len > 255`
abbrev pub bad_length : ℤ → Bool
bad_length (negsuc n) = true
bad_length (pos n) = ltb n 3 || ltb 255 n

abbrev pub length_of : ℤ → ℕ
length_of (negsuc n) = 0
length_of (pos n) = n

-- `*port` of a call that found none stays 0.
abbrev pub port_of : Option ℕ → ℕ
port_of none = 0
port_of (some p) = p

-- A pointer that was not set is null.
abbrev pub host_bytes : List ℕ → Option ℕ → ℕ → Option (List ℕ)
host_bytes buff none len = none
host_bytes buff (some hs) len = bytes buff hs len

unfoldable pub http_get_addr : Settings → List ℕ → ℕ → Sockaddr → Option Answer
http_get_addr s buff n dst = parse_http true buff n >>= λ found.
    if bad_length found.ret
    then answer (negsuc 0) dst
    else (host_bytes buff found.hs (length_of found.ret) >>= λ host.
        resolved (negsuc 0) (pos 0) (htons (port_of found.port)) dst (s.resolve host 1 dst))

unfoldable pub tls_get_addr : Settings → List ℕ → ℕ → Sockaddr → Option Answer
tls_get_addr s buff n dst = parse_tls buff n >>= λ found.
    if bad_length (pos found.ret)
    then answer (negsuc 0) dst
    else if s.may_resolve
    then (host_bytes buff found.hs found.ret >>= λ host.
        resolved (negsuc 0) (pos 0) (htons 443) dst (s.resolve host 1 dst))
    else answer (pos 0) (record dst { port = htons 443 })
