-- ===== src/ByeDpi/Extend/Cache/Prefix.antt =====
-- The length of the common prefix of two keys.
use zon_dpi.Prelude.{
  ℕ, zero, suc, ◌+◌, ◌-◌, ◌*◌, ◌/◌, ◌^◌, ◌==◌, ==_iff, ◌≡◌, ◌≢◌, ◌≤◌, ◌<◌, ◌⊎◌, refl, sym, ap, ◌∙◌,
  true, false, Bool-cases, inl, inr, some, List, length, get_elem?, arith,
}
use zon_dpi.Bytes.Laws.{get_elem?-some}
use zon_dpi.ByeDpi.Extend.Cache.{eq_bytes, eq_bits, eq_bitlen}

-- Two lists differ at an index.
abbrev pub Differ : List ℕ → List ℕ → ℕ → Type 0
Differ a b i = (x : ℕ) × (y : ℕ) × (get_elem? a i ≡ some x) × (get_elem? b i ≡ some y) × (x ≢ y)

eq_bytes-Differ :
    (a b : List ℕ) (by k : ℕ)
    → by + k ≤ length a
    → by + k ≤ length b
    → (s : ℕ) × (eq_bytes a b by k ≡ some s)
      × (by ≤ s)
      × ((i : ℕ) → by ≤ i → i < s → get_elem? a i ≡ get_elem? b i)
      × ((s ≡ by + k) ⊎ ((s < by + k) × Differ a b s))
unfolding eq_bytes
eq_bytes-Differ a b by zero ha hb =
    (by, refl, omega arith, (λ i lo hi. absurd (omega arith)), inl (omega arith))
eq_bytes-Differ a b by (suc k) ha hb =
    let (x, ex) = get_elem?-some a by (omega arith) in
    let (y, ey) = get_elem?-some b by (omega arith) in
    elim (Bool-cases (x == y)) [
      | inr differ ↦ (
        by,
        rw (ex, ey, differ) refl,
        omega arith,
        (λ i lo hi. absurd (omega arith)),
        inr (omega arith, (x, y, ex, ey, ground arith)),
      )
      | inl same ↦
          let (s, run, le, agree, last) =
            eq_bytes-Differ a b (by + 1) k (omega arith) (omega arith) in
          (
            s,
            rw (ex, ey, same) run,
            omega arith,
            (λ i lo hi. elim (Bool-cases (i == by)) [
              | inl here ↦
                  let is : i ≡ by = (==_iff i by).0 here in
                  rw is (ex ∙ ap some ((==_iff x y).0 same) ∙ sym ey)
              | inr later ↦ agree i (ground arith) hi
            ]),
            elim last [ inl whole ↦ inl (omega arith) | inr (less, d) ↦ inr (omega arith, d) ],
          )
    ]

eq_bits-first :
    (x y bi k : ℕ)
    → x / 2 ^ (bi + k) ≡ y / 2 ^ (bi + k)
    → (bi ≤ eq_bits x y bi k)
      × (eq_bits x y bi k ≤ bi + k)
      × (x / 2 ^ eq_bits x y bi k ≡ y / 2 ^ eq_bits x y bi k)
      × ((j : ℕ) → bi ≤ j → j < eq_bits x y bi k → x / 2 ^ j ≢ y / 2 ^ j)
unfolding eq_bits
eq_bits-first x y bi zero e = (
  omega arith,
  omega arith,
  ap (λ n. x / 2 ^ n) {y = bi + 0} (omega arith)
      ∙ e
      ∙ ap (λ n. y / 2 ^ n) {x = bi + 0} (omega arith),
  λ j lo hi. absurd (omega arith),
)
eq_bits-first x y bi (suc k) e =
    let next : x / 2 ^ (bi + 1 + k) ≡ y / 2 ^ (bi + 1 + k) =
      ap (λ n. x / 2 ^ n) {y = bi + suc k} (omega arith)
      ∙ e
      ∙ ap (λ n. y / 2 ^ n) {x = bi + suc k} (omega arith) in
    let (lo, hi, same, below) = eq_bits-first x y (bi + 1) k next in
    elim (Bool-cases (x / 2 ^ bi == y / 2 ^ bi)) [
      | inl here ↦ rw here (
        omega arith,
        omega arith,
        (==_iff (x / 2 ^ bi) (y / 2 ^ bi)).0 here,
        λ j l h. absurd (omega arith),
      )
      | inr later ↦ rw later (
        omega arith,
        omega arith,
        same,
        λ j l h. elim (Bool-cases (j == bi)) [
          | inl is ↦ let at : j ≡ bi = (==_iff j bi).0 is in rw at (λ q. absurd (grind arith))
          | inr other ↦ below j (ground arith) h
        ],
      )
    ]

by_one : (x : ℕ) → x / 2 ^ 0 ≡ x
by_one x = omega arith

-- The two bytes are the same without their last `bi` bits, and not with one more.
eq_bits-byte :
    (x y : ℕ)
    → x < 256
    → y < 256
    → x ≢ y
    → (bi : ℕ) × (eq_bits x y 0 8 ≡ bi)
      × (0 < bi)
      × (bi ≤ 8)
      × (x / 2 ^ bi ≡ y / 2 ^ bi)
      × (x / 2 ^ (bi - 1) ≢ y / 2 ^ (bi - 1))
eq_bits-byte x y bx by_ differ =
    let small : x / 2 ^ 8 ≡ y / 2 ^ 8 = omega arith in
    let (lo, hi, same, below) = eq_bits-first x y 0 8 small in
    pick (eq_bits x y 0 8) refl hi same below
  where
    pick :
        (bi : ℕ)
        → eq_bits x y 0 8 ≡ bi
        → bi ≤ 8
        → x / 2 ^ bi ≡ y / 2 ^ bi
        → ((j : ℕ) → 0 ≤ j → j < bi → x / 2 ^ j ≢ y / 2 ^ j)
        → (bi : ℕ) × (eq_bits x y 0 8 ≡ bi)
          × (0 < bi)
          × (bi ≤ 8)
          × (x / 2 ^ bi ≡ y / 2 ^ bi)
          × (x / 2 ^ (bi - 1) ≢ y / 2 ^ (bi - 1))
    pick zero e hi same below = absurd (differ (sym (by_one x) ∙ same ∙ by_one y))
    pick (suc k) e hi same below =
        (suc k, e, omega arith, hi, same, below (suc k - 1) (omega arith) (omega arith))

abbrev pub AreBytes : List ℕ → Type 0
AreBytes a = (i : ℕ) (x : ℕ) → get_elem? a i ≡ some x → x < 256

-- The keys agree in `n` bytes.
abbrev pub Agree : List ℕ → List ℕ → ℕ → Type 0
Agree a b n = (i : ℕ) → i < n → get_elem? a i ≡ get_elem? b i

-- The keys agree in `by` bytes and in the first `j` bits of the next one, but not in one bit more.
abbrev pub Splits : List ℕ → List ℕ → ℕ → ℕ → Type 0
Splits a b by j =
    Agree a b by
    × (j < 8)
    × (x : ℕ) × (y : ℕ) × (get_elem? a by ≡ some x)
    × (get_elem? b by ≡ some y)
    × (x / 2 ^ (8 - j) ≡ y / 2 ^ (8 - j))
    × (x / 2 ^ (7 - j) ≢ y / 2 ^ (7 - j))

-- `eq_bitlen` is the number of bits that two keys of `n` bytes have in common from the front, but
-- eight more than they have if they are the same.
pub eq_bitlen-Splits :
    (a b : List ℕ) (n : ℕ)
    → AreBytes a
    → AreBytes b
    → n ≤ length a
    → n ≤ length b
    → (r : ℕ) × (eq_bitlen a b n ≡ some r)
      × ((Agree a b n × (r ≡ n * 8 + 8))
          ⊎ ((by : ℕ) × (j : ℕ) × (by < n) × (r ≡ by * 8 + j) × Splits a b by j))
unfolding eq_bitlen
eq_bitlen-Splits a b n wa wb ha hb =
    let (s, run, le, agree, last) = eq_bytes-Differ a b 0 n (omega arith) (omega arith) in
    elim last [
      | inl whole ↦
          let end : (s == n) ≡ true = ground arith in
          (
            s * 8 + 8,
            rw (run, end) refl,
            inl ((λ i lt. agree i (omega arith) (omega arith)), omega arith),
          )
      | inr (less, (x, y, ex, ey, differ)) ↦
          let early : (s == n) ≡ false = ground arith in
          let (bi, bits, some_, most, same, apart) =
            eq_bits-byte x y (wa s x ex) (wb s y ey) differ in
          (
            s * 8 + 8 - bi,
            rw (run, early, ex, ey, bits) refl,
            inr (
              s,
              8 - bi,
              omega arith,
              omega arith,
              (
                (λ i lt. agree i (omega arith) lt),
                omega arith,
                x,
                y,
                ex,
                ey,
                ap (λ k. x / 2 ^ k) {y = bi} (omega arith)
                    ∙ same
                    ∙ ap (λ k. y / 2 ^ k) {x = bi} (omega arith),
                λ e. apart (
                    ap (λ k. x / 2 ^ k) {y = 7 - (8 - bi)} (omega arith)
                    ∙ e
                    ∙ ap (λ k. y / 2 ^ k) {y = bi - 1} (omega arith)),
              ),
            ),
          )
    ]
