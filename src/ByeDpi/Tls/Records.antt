-- ===== src/ByeDpi/Tls/Records.antt =====
-- Splitting a TLS record in two and joining records: `part_tls` and `merge_tls_records` of
-- engines/byedpi/upstream/packets.c.
pub mod Split
pub mod Rounds
pub mod Merge
pub mod Spin
use zon_dpi.Prelude.{
  ℕ, zero, suc, ◌+◌, ◌-◌, ◌*◌, ◌/◌, ◌%◌, ◌^◌, Bool, true, false, not, ◌||◌, Option, none, some,
  List, [], ◌∷◌, ◌++◌, get_elem?, leb, ltb, ◌==◌, if◌then◌else◌,
}
use zon_dpi.Prelude.Int.{ℤ, pos, negsuc}
use zon_dpi.Bytes.{◌>>=◌, antohs_u16, shtona, memmove}

-- What a function that edits the buffer in place returns and leaves.
pub record Edited : Type 0 where
  pub ret : ℕ
  pub out : List ℕ

-- The writes of `part_tls` behind its tests.
unfoldable pub cut_record : List ℕ → ℕ → ℕ → ℕ → List ℕ
cut_record buf n p r_sz =
    let moved = memmove buf (5 + p + 5) (5 + p) (n - (5 + p)) in
    let marked = memmove moved (5 + p) 0 3 in shtona (shtona marked 3 p) (5 + p + 3) (r_sz - p)

-- `bsize - n` is a `size_t`, so it wraps. A negative `n` or `pos` returns 0.
unfoldable pub part_tls : List ℕ → ℕ → ℤ → ℤ → Option Edited
part_tls buf bsize (negsuc n) p = some (record { ret = 0; out = buf })
part_tls buf bsize (pos n) (negsuc p) = some (record { ret = 0; out = buf })
part_tls buf bsize (pos n) (pos p) =
    if ltb n 3 || ltb ((bsize + 2 ^ 64 - n) % 2 ^ 64) 5 || ltb n (p + 5)
    then some (record { ret = 0; out = buf })
    else (antohs_u16 buf 3 >>= λ r_sz.
        if ltb r_sz p
        then some (record { ret = n; out = buf })
        else some (record { ret = 5; out = cut_record buf n p r_sz }))

-- What `while (1)` leaves: the buffer, `full_sz` and `i`.
pub record Merged : Type 0 where
  pub joined : List ℕ
  pub full_sz : ℕ
  pub count : ℕ

-- `while (1)` of `merge_tls_records`, with fuel. `full_sz` is a `uint16_t`; `n` is at least 5.
unfoldable pub merge_loop : ℕ → List ℕ → ℕ → ℕ → ℕ → ℕ → Option Merged
merge_loop zero buf n full r_sz i = none
merge_loop (suc fuel) buf n full r_sz i =
    let full' = (full + r_sz) % 65536 in
    let stop = some (record { joined = buf; full_sz = full'; count = i }) in
    if ltb (n - 5) (5 + full')
    then stop
    else (get_elem? buf (5 + full') >>= λ mark. get_elem? buf 0 >>= λ first.
        if not (mark == first)
        then stop
        else (antohs_u16 buf (5 + full' + 3) >>= λ r_sz'.
            if ltb n (full' + 10 + r_sz')
            then stop
            else merge_loop fuel (memmove buf (5 + full') (10 + full') (n - (10 + full'))) n full'
                r_sz' (i + 1)))

-- `full_sz - 4` is an `int`, and may be negative; two bytes of it are stored.
unfoldable pub finish_merge : Merged → Edited
finish_merge m = record {
  ret = m.count * 5;
  out = shtona (shtona m.joined 3 m.full_sz) 7 (m.full_sz + 65536 - 4);
}

unfoldable pub merge_tls_records : ℕ → List ℕ → ℕ → Option Edited
merge_tls_records fuel buf n =
    if ltb n 5
    then some (record { ret = 0; out = buf })
    else (antohs_u16 buf 3 >>= λ r_sz.
        merge_loop fuel buf n 0 r_sz 0 >>= λ m. some (finish_merge m))
