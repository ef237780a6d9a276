-- ===== src/ByeDpi/Tls/Ext.antt =====
-- Where the extensions of a hello message stand: `find_tls_ext_offset` and `find_ext_block` of
-- engines/byedpi/upstream/packets.c. `none` is a read outside the buffer (or fuel that ran out),
-- the C value 0 is `some 0`. Offsets are `size_t` indices into a buffer and do not wrap.
pub mod Safety
pub mod Search
use zon_dpi.Prelude.{
  ℕ, zero, suc, ◌+◌, ◌-◌, Option, none, some, List, get_elem?, leb, ltb, ◌==◌, if◌then◌else◌,
}
use zon_dpi.Bytes.{◌>>=◌, antohs_u16}

-- `while ((skip + 4) < size)`, with fuel.
unfoldable pub ext_loop : ℕ → ℕ → List ℕ → ℕ → ℕ → Option ℕ
ext_loop zero type buf size skip = none
ext_loop (suc fuel) type buf size skip =
    if ltb (skip + 4) size
    then (antohs_u16 buf skip >>= λ epyt.
        if type == epyt
        then some skip
        else (antohs_u16 buf (skip + 2) >>= λ len. ext_loop fuel type buf size (skip + (len + 4))))
    else some 0

-- The end of the extensions: the length that the block declares, cut to the buffer.
unfoldable pub ext_end : ℕ → ℕ → ℕ → ℕ
ext_end ext_len size skip = if ltb ext_len (size - skip) then ext_len + skip else size

unfoldable pub find_tls_ext_offset : ℕ → List ℕ → ℕ → ℕ → Option ℕ
find_tls_ext_offset type buf size skip =
    if leb size (skip + 2)
    then some 0
    else (antohs_u16 buf skip >>= λ ext_len.
        let size' = ext_end ext_len size (skip + 2) in
        ext_loop (suc size') type buf size' (skip + 2))

-- `data[43]` is stored into a `uint8_t`, so it is the byte itself.
unfoldable pub find_ext_block : List ℕ → ℕ → Option ℕ
find_ext_block buf size =
    if ltb size 44
    then some 0
    else (get_elem? buf 43 >>= λ sid_len.
        if ltb size (44 + sid_len + 2)
        then some 0
        else (antohs_u16 buf (44 + sid_len) >>= λ cip_len.
            let skip = 44 + sid_len + 2 + cip_len + 2 in
            if ltb size skip then some 0 else some skip))
