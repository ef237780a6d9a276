-- ===== src/ByeDpi/Tls/Hello/Safety.antt =====
-- The reads of the hello parsers and the place of the name that they return.
use zon_dpi.Prelude.{
  ℕ, ◌+◌, ◌≤◌, ◌≡◌, ◌⊎◌, inl, inr, refl, Bool, false, none, some, List, length, arith, leb, ltb,
  ◌==◌, ◌||◌, Bool-cases,
}
use zon_dpi.Bytes.Laws.{antohs-some, antohs_u16-some, get_elem?-some}
use zon_dpi.ByeDpi.Tls.Ext.Safety.{find_tls_ext_offset-Found, find_ext_block-bounds}
use zon_dpi.ByeDpi.Tls.Hello.{hello_of_type, is_tls_chello, Parsed, no_host, parse_sni, parse_tls}

hello_of_type-total :
    (type : ℕ) (buf : List ℕ) (bsize : ℕ)
    → bsize ≤ length buf
    → (b : Bool) × (hello_of_type type buf bsize ≡ some b)
unfolding hello_of_type
hello_of_type-total type buf bsize h = elim (Bool-cases (leb bsize 5)) [
  | inl short ↦ (false, rw short)
  | inr long ↦
      let (v, ev) = antohs-some buf 0 (ground arith) in
      let (t, et) = get_elem?-some buf 5 (ground arith) in
      elim (Bool-cases (v == 0x1603)) [
        | inl handshake ↦ (t == type, rw (long, ev, handshake, et))
        | inr other ↦ (false, rw (long, ev, other))
      ]
]

pub is_tls_chello-total :
    (buf : List ℕ) (bsize : ℕ)
    → bsize ≤ length buf
    → (b : Bool) × (is_tls_chello buf bsize ≡ some b)
unfolding is_tls_chello
is_tls_chello-total = hello_of_type-total 1

-- What a parser may return: no host, or a host whose bytes stand inside the buffer.
abbrev pub InBuffer : ℕ → Parsed → Type 0
InBuffer bsize p =
    ((p.ret ≡ 0) × (p.hs ≡ none))
    ⊎ ((pos : ℕ) × (p.hs ≡ some pos) × (59 ≤ pos) × (pos + p.ret ≤ bsize))

parse_sni-InBuffer :
    (buf : List ℕ) (bsize sni_offs : ℕ)
    → bsize ≤ length buf
    → (sni_offs ≡ 0) ⊎ (50 ≤ sni_offs)
    → (p : Parsed) × (parse_sni buf bsize sni_offs ≡ some p) × InBuffer bsize p
unfolding parse_sni
parse_sni-InBuffer buf bsize sni_offs h place =
    elim (Bool-cases ((sni_offs == 0) || leb bsize (sni_offs + 12))) [
      | inl out ↦ (no_host, rw out, inl (refl, refl))
      | inr within ↦
          let (len, e, b) = antohs_u16-some buf (sni_offs + 7) (ground arith) in
          elim (Bool-cases (ltb bsize (sni_offs + 9 + len))) [
            | inl cut ↦ (no_host, rw (within, e, cut), inl (refl, refl))
            | inr whole ↦ (
              record { ret = len; hs = some (sni_offs + 9) },
              rw (within, e, whole),
              inr (sni_offs + 9, refl, ground arith, ground arith),
            )
          ]
    ]

-- `parse_tls` reads inside the buffer whatever its bytes are, and returns: either 0 with `*hs`
-- untouched, or a name that starts behind the fixed part of the hello and ends in the buffer.
pub parse_tls-InBuffer :
    (buf : List ℕ) (bsize : ℕ)
    → bsize ≤ length buf
    → (p : Parsed) × (parse_tls buf bsize ≡ some p) × InBuffer bsize p
unfolding parse_tls
parse_tls-InBuffer buf bsize h =
    let (hello, eh) = is_tls_chello-total buf bsize h in
    elim (Bool-cases hello) [
      | inr no_hello ↦ (no_host, rw (eh, no_hello), inl (refl, refl))
      | inl is_hello ↦
          let (skip, es, bs) = find_ext_block-bounds buf bsize h in
          elim (Bool-cases (skip == 0)) [
            | inl none_ ↦ (no_host, rw (eh, is_hello, es, none_), inl (refl, refl))
            | inr found ↦
                let (offs, eo, fo) = find_tls_ext_offset-Found 0 buf bsize skip h in
                let (p, ep, ip) = parse_sni-InBuffer buf bsize offs h (ground arith) in
                (p, rw (eh, is_hello, es, found, eo) ep, ip)
          ]
    ]
