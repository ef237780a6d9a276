-- ===== src/Goodbye/Ttl/Guess.antt =====
-- The TTL that `tcp_get_auto_ttl` of engines/goodbye/upstream/src/ttltrack.c guesses.
use zon_dpi.Prelude.{
  if◌then◌else◌, ℕ, zero, suc, ◌+◌, ◌-◌, ◌*◌, ◌/◌, ◌≤◌, ◌<◌, ◌≡◌, ◌⊎◌, Bool, true, Option, some,
  ◌==◌, leb, ltb, ◌&&◌,
}
use zon_dpi.Goodbye.Ttl.{portion}

-- For `n` hops the expression is what whole numbers give, for all differences less than `d`.
exact_row : ℕ → ℕ → Bool
exact_row n zero = true
exact_row n (suc d) = exact_row n d && (portion d n == d * n / 10)

-- The rows of all hops less than `n`.
exact_rows : ℕ → Bool
exact_rows zero = true
exact_rows (suc n) = exact_rows n && exact_row n 10

-- The TTL of a fake packet for a server at `n` hops, in whole numbers: `autottl2` is taken off, or
-- for a near server, where less than that would be left, `autottl1` and the part of their
-- difference that `n` is of ten, rounded towards zero.
abbrev pub whole_ttl : ℕ → ℕ → ℕ → ℕ
whole_ttl n autottl1 autottl2 =
    if ltb n (autottl2 + autottl2) && leb n 9
    then (if leb autottl1 autottl2
        then n - autottl1 - (autottl2 - autottl1) * n / 10
        else n - autottl1 + (autottl1 - autottl2) * n / 10)
    else n - autottl2

-- What is guessed for a server at `n` hops: nothing for one that is too near, and otherwise the
-- TTL in whole numbers or the bound, whichever is less, which is not more than the hops.
abbrev pub IsGuess : ℕ → ℕ → ℕ → ℕ → ℕ → Option ℕ → Type 0
IsGuess autottl1 autottl2 minhops maxttl n guess =
    (((n ≤ autottl1) ⊎ (n < minhops)) × (guess ≡ some 0))
    ⊎ ((autottl1 < n)
        × (minhops ≤ n)
        × (r : ℕ) × (guess ≡ some r)
        × (r ≤ n)
        × (((r ≡ whole_ttl n autottl1 autottl2) × ((maxttl ≡ 0) ⊎ (r ≤ maxttl)))
            ⊎ ((r ≡ maxttl) × (0 < maxttl) × (r < whole_ttl n autottl1 autottl2))))
