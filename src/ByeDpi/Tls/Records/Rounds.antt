-- ===== src/ByeDpi/Tls/Records/Rounds.antt =====
-- Two records in a buffer, and one round of the loop of `merge_tls_records`.
use mathlib.Core.List.{append_assoc}
use zon_dpi.Prelude.{
  ℕ, suc, ◌+◌, ◌-◌, ◌/◌, ◌%◌, ◌<◌, ◌≤◌, ◌≡◌, ◌≢◌, some, List, [], ◌∷◌, ◌++◌, length, length-append,
  drop, arith, get_elem?,
}
use zon_dpi.Bytes.{antohs_u16, memmove}
use zon_dpi.Bytes.Laws.{
  antohs_u16_at, take-append, drop-append, drop-append_less, get_elem?-append_right,
}
use zon_dpi.ByeDpi.Tls.Records.{merge_loop}
use zon_dpi.ByeDpi.Tls.Records.Split.{header}

-- Two records of one type and version, with `rest` behind them.
abbrev pub two_records : ℕ → ℕ → ℕ → List ℕ → List ℕ → List ℕ → List ℕ
two_records t major minor front back rest =
    header t major minor (length front)
    ++ (front ++ (header t major minor (length back) ++ (back ++ rest)))

-- The five bytes that stay behind the joined message: the end of the second record.
abbrev pub leftover : ℕ → ℕ → ℕ → List ℕ → List ℕ
leftover t major minor back = drop (length back) (header t major minor (length back) ++ back)

abbrev pub one_record : ℕ → ℕ → ℕ → List ℕ → List ℕ → List ℕ → List ℕ
one_record t major minor front back rest =
    header t major minor (length front)
    ++ (front ++ (back ++ (leftover t major minor back ++ rest)))

module _ (t major minor : ℕ) (front back rest : List ℕ) where
  abbrev pub len : ℕ
  len = length front + length back

  pub join_step :
      memmove
        (two_records t major minor front back rest)
        (5 + length front)
        (10 + length front)
        (10 + len - (10 + length front))
      ≡ one_record t major minor front back rest
  unfolding memmove
  join_step =
      rw
        (
          take-append opening behind (5 + length front) (omega arith),
          drop-append opening behind 5 (10 + length front) (omega arith),
          take-append back rest (10 + len - (10 + length front)) (omega arith),
          drop-append opening behind (length back)
              (5 + length front + (10 + len - (10 + length front))) (omega arith),
        )
        (rw
          (drop-append_less (header t major minor (length back) ++ back) rest (length back)
            (omega arith))
          (append_assoc (header t major minor (length front)) front
            (back ++ (leftover t major minor back ++ rest))))
    where
      opening : List ℕ
      opening = header t major minor (length front) ++ front

      behind : List ℕ
      behind = header t major minor (length back) ++ (back ++ rest)

  pub second_mark :
      get_elem? (two_records t major minor front back rest) (5 + length front) ≡ some t
  second_mark =
      get_elem?-append_right (header t major minor (length front) ++ front)
        (header t major minor (length back) ++ (back ++ rest)) 0 (5 + length front) (omega arith)

  pub second_length :
      length back < 65536
      → antohs_u16 (two_records t major minor front back rest) (5 + length front + 3)
        ≡ some (length back)
  second_length h = ground (
    arith,
    append_assoc (header t major minor (length front) ++ front) (t ∷ major ∷ minor ∷ [])
        (length back / 256 % 256 ∷ length back % 256 ∷ (back ++ rest)),
    length-append front (t ∷ major ∷ minor ∷ []),
    antohs_u16_at ((header t major minor (length front) ++ front) ++ (t ∷ major ∷ minor ∷ []))
        (back ++ rest) (length back / 256 % 256) (length back % 256) (5 + length front + 3),
  )

-- One round of the loop: it ends where the next byte is no record of the type, and it joins a
-- record that fits.
pub merge_loop-stop :
    (fuel : ℕ) (buf : List ℕ) (n full r_sz i full' mark first : ℕ)
    → full' ≡ (full + r_sz) % 65536
    → 10 + full' ≤ n
    → get_elem? buf (5 + full') ≡ some mark
    → get_elem? buf 0 ≡ some first
    → mark ≢ first
    → merge_loop (suc fuel) buf n full r_sz i
      ≡ some (record { joined = buf; full_sz = full'; count = i })
unfolding merge_loop
merge_loop-stop fuel buf n full r_sz i full' mark first ef room em e0 ne =
    rw (← ef, em, e0) (ground arith)

pub merge_loop-join :
    (fuel : ℕ) (buf : List ℕ) (n full r_sz i full' first r_sz' : ℕ)
    → full' ≡ (full + r_sz) % 65536
    → 10 + full' + r_sz' ≤ n
    → get_elem? buf (5 + full') ≡ some first
    → get_elem? buf 0 ≡ some first
    → antohs_u16 buf (5 + full' + 3) ≡ some r_sz'
    → merge_loop (suc fuel) buf n full r_sz i
      ≡ merge_loop fuel
          (memmove buf (5 + full') (10 + full') (n - (10 + full')))
          n
          full'
          r_sz'
          (i + 1)
unfolding merge_loop
merge_loop-join fuel buf n full r_sz i full' first r_sz' ef room em e0 er =
    rw (← ef, em, e0, er) (ground arith)
