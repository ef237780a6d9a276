-- ===== src/ByeDpi/Proxy/Address/Names.antt =====
-- What the parsers of requests with a name read: `s4_get_addr`, `http_get_addr`, `tls_get_addr`.
use zon_dpi.Prelude.{
  ℕ, zero, suc, ◌+◌, ◌-◌, ◌==◌, ==_iff, ◌||◌, ◌≡◌, ◌≤◌, refl, sym, ap, ◌∙◌, true, false, Bool-cases,
  inl, inr, leb, ltb, Option, none, some, List, [], ◌∷◌, drop, length, get_elem?, arith,
}
use zon_dpi.Prelude.Int.{ℤ, pos, negsuc, pos_part, neg_part}
use zon_dpi.Bytes.Laws.{get_elem?-some, get_elem?-drop}
use zon_dpi.ByeDpi.Http.Bounds.{parse_http-EndsIn}
use zon_dpi.ByeDpi.Tls.Hello.Safety.{parse_tls-InBuffer}
use zon_dpi.ByeDpi.Proxy.{Sockaddr, Settings, s_cmd_conn, af_inet, bytes, htons, big_endian}
use zon_dpi.ByeDpi.Proxy.Address.{
  resolved, bad_length, length_of, port_of, s4_get_addr, s4_by_name, find_zero, http_get_addr,
  tls_get_addr,
}
use zon_dpi.ByeDpi.Proxy.Address.Laws.{bytes-some}
use zon_dpi.ByeDpi.Proxy.Address.Safety.{IsAnswer, refused}

resolved-IsAnswer :
    (port : List ℕ) (dst : Sockaddr) (found : Option Sockaddr)
    → IsAnswer 0 0 (resolved (negsuc 0) (pos 0) port dst found)
resolved-IsAnswer port dst none = refused 0 0 0 dst
resolved-IsAnswer port dst (some addr) = (
  record { ret = pos 0; addr = record addr { port = port } },
  refl,
  inr (0, refl, omega arith, omega arith),
)

find_zero-some :
    (xs : List ℕ) (i j : ℕ)
    → get_elem? xs j ≡ some 0
    → (k : ℕ) × (find_zero xs i ≡ some k) × (i ≤ k) × (k ≤ i + j)
unfolding find_zero
find_zero-some [] i j e = absurd (grind arith)
find_zero-some (x ∷ xs) i zero e =
    let here : (x == 0) ≡ true = ground arith in (i, rw here refl, omega arith, omega arith)
find_zero-some (x ∷ xs) i (suc j) e =
    let (k, found, lo, hi) = find_zero-some xs (suc i) j e in
    elim (Bool-cases (x == 0)) [
      | inl here ↦ (i, rw here refl, omega arith, omega arith)
      | inr later ↦ (k, rw later found, omega arith, omega arith)
    ]

s4_by_name-IsAnswer :
    (s : Settings) (buff : List ℕ) (n : ℕ) (port : List ℕ) (dst : Sockaddr)
    → 9 ≤ n
    → n ≤ length buff
    → IsAnswer 0 0 (s4_by_name s buff n port dst)
unfolding s4_by_name
s4_by_name-IsAnswer s buff n port dst long fits = elim (Bool-cases s.may_resolve) [
  | inr off ↦ rw off (refused 0 0 0 dst)
  | inl on ↦
      let (last, e) = get_elem?-some buff (n - 1) (omega arith) in
      elim (Bool-cases (last == 0)) [
        | inr open_ ↦ rw (on, e, open_) (refused 0 0 0 dst)
        | inl ends ↦
            let at_end : get_elem? (drop 8 buff) (n - 9) ≡ some 0 =
              get_elem?-drop buff 8 (n - 9)
              ∙ ap (get_elem? buff) {y = n - 1} (omega arith)
              ∙ e
              ∙ ap some ((==_iff last 0).0 ends) in
            let (id_end, found, lo, hi) = find_zero-some (drop 8 buff) 8 (n - 9) at_end in
            elim (Bool-cases (ltb (n - id_end) 5 || ltb 255 (n - id_end - 2))) [
              | inl bad ↦ rw (on, e, ends, found, bad) (refused 0 0 0 dst)
              | inr good ↦
                  let (host, eh, l) =
                    bytes-some buff (id_end + 1) (n - id_end - 2) (ground arith) in
                  rw (on, e, ends, found, good, eh)
                    (resolved-IsAnswer port dst (s.resolve host 1 dst))
            ]
      ]
]

-- `s4_get_addr` reads inside the buffer whatever its bytes are, and returns -1 or 0.
pub s4_get_addr-IsAnswer :
    (s : Settings) (buff : List ℕ) (n : ℕ) (dst : Sockaddr)
    → n ≤ length buff
    → IsAnswer 0 0 (s4_get_addr s buff n dst)
unfolding s4_get_addr
s4_get_addr-IsAnswer s buff n dst fits = elim (Bool-cases (ltb n 9)) [
  | inl short ↦ rw short (refused 0 0 0 dst)
  | inr long ↦
      let (cmd, ec) = get_elem?-some buff 1 (ground arith) in
      let (port, ep, lp) = bytes-some buff 2 2 (ground arith) in
      let (i4, ei, li) = bytes-some buff 4 4 (ground arith) in
      elim (Bool-cases (cmd == s_cmd_conn)) [
        | inr other ↦ rw (long, ec, ep, ei, other) (refused 0 0 0 dst)
        | inl conn ↦ elim (Bool-cases (leb (big_endian 0 i4) 255)) [
          | inl named ↦
              rw (long, ec, ep, ei, conn, named)
                (s4_by_name-IsAnswer s buff n port dst (ground arith) fits)
          | inr given ↦ (
            record { ret = pos 0; addr = record dst { family = af_inet; v4 = i4; port = port } },
            rw (long, ec, ep, ei, conn, given) refl,
            inr (0, refl, omega arith, omega arith),
          )
        ]
      ]
]

-- `tls_get_addr` reads inside the buffer whatever its bytes are, and returns -1 or 0.
pub tls_get_addr-IsAnswer :
    (s : Settings) (buff : List ℕ) (n : ℕ) (dst : Sockaddr)
    → n ≤ length buff
    → IsAnswer 0 0 (tls_get_addr s buff n dst)
unfolding tls_get_addr
tls_get_addr-IsAnswer s buff n dst fits =
    let (r, e, inside) = parse_tls-InBuffer buff n fits in
    elim (Bool-cases (bad_length (pos r.ret))) [
      | inl bad ↦ rw (e, bad) (refused 0 0 0 dst)
      | inr good ↦ elim (Bool-cases s.may_resolve) [
        | inr off ↦ (
          record { ret = pos 0; addr = record dst { port = htons 443 } },
          rw (e, good, off) refl,
          inr (0, refl, omega arith, omega arith),
        )
        | inl on ↦ elim inside [
          | inl (zero_, no_name) ↦ absurd (ground arith)
          | inr (at, name, lo, hi) ↦
              let (host, eh, l) = bytes-some buff at r.ret (omega arith) in
              rw (e, good, on, name, eh) (resolved-IsAnswer (htons 443) dst (s.resolve host 1 dst))
        ]
      ]
    ]

no_zero : bad_length (pos 0) ≡ false → ⊥
no_zero e = ground arith

host_in :
    (buff : List ℕ) (n host : ℕ) (ret : ℤ)
    → n ≤ length buff
    → host + pos_part ret ≤ n + neg_part ret
    → bad_length ret ≡ false
    → (bs : List ℕ) × (bytes buff host (length_of ret) ≡ some bs)
host_in buff n host (negsuc k) fits le good = absurd (ground arith)
host_in buff n host (pos k) fits le good =
    let (bs, e, l) = bytes-some buff host k (omega arith) in (bs, e)

-- `http_get_addr` reads inside the buffer whatever its bytes are, and returns -1 or 0.
pub http_get_addr-IsAnswer :
    (s : Settings) (buff : List ℕ) (n : ℕ) (dst : Sockaddr)
    → n ≤ length buff
    → IsAnswer 0 0 (http_get_addr s buff n dst)
unfolding http_get_addr
http_get_addr-IsAnswer s buff n dst fits =
    let (r, e, inside) = parse_http-EndsIn true buff n fits in
    elim (Bool-cases (bad_length r.ret)) [
      | inl bad ↦ rw (e, bad) (refused 0 0 0 dst)
      | inr good ↦ elim inside [
        | inl (no_name, zero_) ↦ absurd (no_zero (ap bad_length (sym zero_) ∙ good))
        | inr (at, name, lo, hi) ↦
            let (host, eh) = host_in buff n at r.ret fits hi good in
            rw (e, good, name, eh)
              (resolved-IsAnswer (htons (port_of r.port)) dst (s.resolve host 1 dst))
      ]
    ]
