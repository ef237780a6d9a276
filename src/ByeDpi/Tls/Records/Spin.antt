-- ===== src/ByeDpi/Tls/Records/Spin.antt =====
-- The loop of `merge_tls_records` on a message that ends in an empty record.
use zon_dpi.Prelude.{
  ℕ, zero, suc, ◌+◌, ◌-◌, ◌/◌, ◌%◌, ◌<◌, ◌≡◌, refl, ap, ◌∙◌, none, some, List, [], ◌∷◌, ◌++◌,
  length, arith,
}
use zon_dpi.Bytes.{antohs_u16, memmove}
use zon_dpi.Bytes.Laws.{antohs_u16_at, memmove-none}
use zon_dpi.ByeDpi.Tls.Records.{merge_loop, merge_tls_records}
use zon_dpi.ByeDpi.Tls.Records.Split.{header}
use zon_dpi.ByeDpi.Tls.Records.Rounds.{two_records, second_mark, second_length, merge_loop-join}

module _ (t major minor : ℕ) (front rest : List ℕ) (small : 10 + length front < 65536) where
  abbrev with_empty : List ℕ
  with_empty = two_records t major minor front [] rest

  spin_round :
      (fuel r_sz full i : ℕ)
      → length front ≡ (full + r_sz) % 65536
      → merge_loop (suc fuel) with_empty (10 + length front) full r_sz i
        ≡ merge_loop fuel with_empty (10 + length front) (length front) 0 (i + 1)
  unfolding memmove
  spin_round fuel r_sz full i e =
      merge_loop-join fuel with_empty (10 + length front) full r_sz i (length front) t 0 e
        (omega arith) (second_mark t major minor front [] rest) refl
        (second_length t major minor front [] rest (omega arith))
      ∙ ap (λ l. merge_loop fuel l (10 + length front) (length front) 0 (i + 1))
          (memmove-none with_empty (5 + length front) (10 + length front)
            (10 + length front - (10 + length front)) (omega arith))

  spins : (fuel i : ℕ) → merge_loop fuel with_empty (10 + length front) (length front) 0 i ≡ none
  unfolding merge_loop
  spins zero i = refl
  spins (suc fuel) i = spin_round fuel 0 (length front) i (omega arith) ∙ spins fuel (i + 1)

  first_length : antohs_u16 with_empty 3 ≡ some (length front)
  first_length = ground (
    arith,
    antohs_u16_at (t ∷ major ∷ minor ∷ []) (front ++ (header t major minor 0 ++ rest))
        (length front / 256 % 256) (length front % 256) 3,
  )

  never : (fuel : ℕ) → merge_tls_records fuel with_empty (10 + length front) ≡ none
  unfolding merge_tls_records merge_loop
  never zero = ground (arith, first_length)
  never (suc fuel) = ground (arith, first_length, spin_round fuel (length front) 0 0, spins fuel 1)

  -- On a message of two records of one type of which the second is empty, a round of the loop
  -- changes the count only, so the loop comes round for ever: no number of rounds makes
  -- `merge_tls_records` return.
  pub merge_tls_records-never_returns :
      (fuel : ℕ)
      → (merge_tls_records fuel with_empty (10 + length front) ≡ none)
        × ((i : ℕ)
            → merge_loop (suc fuel) with_empty (10 + length front) (length front) 0 i
              ≡ merge_loop fuel with_empty (10 + length front) (length front) 0 (i + 1))
  merge_tls_records-never_returns fuel =
      (never fuel, λ i. spin_round fuel 0 (length front) i (omega arith))
