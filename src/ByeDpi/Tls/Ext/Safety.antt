-- ===== src/ByeDpi/Tls/Ext/Safety.antt =====
-- The reads of the search, its end, and the place of what it finds.
use zon_dpi.Prelude.{
  ℕ, zero, suc, ◌+◌, ◌<◌, ◌≤◌, ◌≡◌, ◌⊎◌, inl, inr, refl, some, List, length, arith, ltb, leb, ◌==◌,
  Bool-cases, get_elem?,
}
use zon_dpi.Bytes.{antohs_u16}
use zon_dpi.Bytes.Laws.{antohs_u16-some, get_elem?-some}
use zon_dpi.ByeDpi.Tls.Ext.{ext_loop, ext_end, find_tls_ext_offset, find_ext_block}

-- The search returned `r`: nothing (0), or a place at or behind `from` where the two bytes of the
-- type stand and four header bytes and more fit below `size`.
abbrev pub Found : ℕ → List ℕ → ℕ → ℕ → ℕ → Type 0
Found type buf size from r =
    (r ≡ 0) ⊎ ((from ≤ r) × (r + 4 < size) × (antohs_u16 buf r ≡ some type))

pub ext_loop-Found :
    (fuel type : ℕ) (buf : List ℕ) (size skip : ℕ)
    → size ≤ length buf
    → 0 < fuel
    → size < fuel + skip
    → (r : ℕ) × (ext_loop fuel type buf size skip ≡ some r) × Found type buf size skip r
unfolding ext_loop
ext_loop-Found zero type buf size skip h p f = absurd (omega arith)
ext_loop-Found (suc fuel) type buf size skip h p f = elim (Bool-cases (ltb (skip + 4) size)) [
  | inr out ↦ (0, rw out, inl refl)
  | inl within ↦
      let (epyt, et, bt) = antohs_u16-some buf skip (ground arith) in
      let (len, el, bl) = antohs_u16-some buf (skip + 2) (ground arith) in
      elim (Bool-cases (type == epyt)) [
        | inl same ↦ (skip, rw (within, et, same), inr (omega arith, ground arith, ground arith))
        | inr other ↦
            let (r, er, fr) =
              ext_loop-Found fuel type buf size (skip + (len + 4)) h (ground arith) (omega arith) in
            (r, rw (within, et, other, el) er, ground arith)
      ]
]

-- Whatever the bytes are, the search of a buffer reads inside it only and ends; what it returns
-- is 0, or the offset, inside the buffer and behind the length of the block, of an extension
-- header that has the type searched for.
pub find_tls_ext_offset-Found :
    (type : ℕ) (buf : List ℕ) (size skip : ℕ)
    → size ≤ length buf
    → (r : ℕ) × (find_tls_ext_offset type buf size skip ≡ some r) × Found type buf size (skip + 2) r
unfolding find_tls_ext_offset
find_tls_ext_offset-Found type buf size skip h = elim (Bool-cases (leb size (skip + 2))) [
  | inl short ↦ (0, rw short, inl refl)
  | inr long ↦
      let (ext_len, e, b) = antohs_u16-some buf skip (ground arith) in
      let end : ext_end ext_len size (skip + 2) ≤ size = unfold ext_end in ground arith in
      let (r, er, fr) =
        ext_loop-Found (suc (ext_end ext_len size (skip + 2))) type buf
          (ext_end ext_len size (skip + 2)) (skip + 2) (omega arith) (omega arith) (omega arith) in
      (r, rw (long, e) er, ground arith)
]

-- `find_ext_block` reads inside the buffer only; what it returns is 0, or the end of the cipher
-- suites and compression methods, behind the fixed part of the hello and inside the buffer.
pub find_ext_block-bounds :
    (buf : List ℕ) (size : ℕ)
    → size ≤ length buf
    → (r : ℕ) × (find_ext_block buf size ≡ some r) × ((r ≡ 0) ⊎ ((48 ≤ r) × (r ≤ size)))
unfolding find_ext_block
find_ext_block-bounds buf size h = elim (Bool-cases (ltb size 44)) [
  | inl short ↦ (0, rw short, inl refl)
  | inr long ↦
      let (sid_len, es) = get_elem?-some buf 43 (ground arith) in
      elim (Bool-cases (ltb size (44 + sid_len + 2))) [
        | inl cut ↦ (0, rw (long, es, cut), inl refl)
        | inr whole ↦
            let (cip_len, ec, b) = antohs_u16-some buf (44 + sid_len) (ground arith) in
            elim (Bool-cases (ltb size (44 + sid_len + 2 + cip_len + 2))) [
              | inl past ↦ (0, rw (long, es, whole, ec, past), inl refl)
              | inr fits ↦ (
                44 + sid_len + 2 + cip_len + 2,
                rw (long, es, whole, ec, fits),
                inr (omega arith, ground arith),
              )
            ]
      ]
]

-- The block stands behind the session id and the cipher suites that the hello declares.
pub find_ext_block-at :
    (buf : List ℕ) (size sid_len cip_len : ℕ)
    → get_elem? buf 43 ≡ some sid_len
    → antohs_u16 buf (44 + sid_len) ≡ some cip_len
    → 48 + sid_len + cip_len ≤ size
    → find_ext_block buf size ≡ some (48 + sid_len + cip_len)
unfolding find_ext_block
find_ext_block-at buf size sid_len cip_len es ec h = rw (es, ec) (ground arith)
