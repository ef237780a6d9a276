-- ===== src/ByeDpi/Http/Scan.antt =====
-- What the scanning loops of the HTTP parser find.
use zon_dpi.Prelude.{
  ℕ, zero, suc, ◌+◌, ◌-◌, ◌*◌, ◌<◌, ◌≤◌, ◌≡◌, ◌⊎◌, inl, inr, refl, Bool, true, false, Option, none,
  some, List, [], ◌∷◌, get_elem?, length, ltb, ◌==◌, Bool-cases, Option-cases, ==_iff, arith, ap,
  ◌∙◌,
}
use zon_dpi.Bytes.Laws.{get_elem?-some}
use zon_dpi.ByeDpi.Http.{
  isspace, isdigit, tolower, matches_nocase, matches, memchr, strncasestr_from, skip_blanks,
  trim_back, digits_back, scan_digits, skip_spaces,
}

pub memchr-Found :
    (buf : List ℕ) (p c left : ℕ)
    → p + left ≤ length buf
    → (memchr buf p c left ≡ some none)
      ⊎ ((q : ℕ) × (memchr buf p c left ≡ some (some q))
          × (p ≤ q)
          × (q < p + left)
          × (get_elem? buf q ≡ some c))
unfolding memchr
memchr-Found buf p c zero h = inl refl
memchr-Found buf p c (suc left) h =
    let (x, ex) = get_elem?-some buf p (omega arith) in
    elim (Bool-cases (x == c)) [
      | inl same ↦ inr (p, rw (ex, same), omega arith, omega arith, ground arith)
      | inr other ↦
          rw (ex, other)
            (elim (memchr-Found buf (p + 1) c left (omega arith)) [
              | inl e ↦ inl e
              | inr (q, e, lo, hi, at) ↦ inr (q, e, omega arith, omega arith, at)
            ])
    ]

matches_nocase-total :
    (buf : List ℕ) (p : ℕ) (pat : List ℕ)
    → p + length pat ≤ length buf
    → (b : Bool) × (matches_nocase buf p pat ≡ some b)
unfolding matches_nocase
matches_nocase-total buf p [] h = (true, refl)
matches_nocase-total buf p (c ∷ pat) h =
    let (x, ex) = get_elem?-some buf p (omega arith) in
    elim (Bool-cases (tolower x == tolower c)) [
      | inl same ↦ rw (ex, same) (matches_nocase-total buf (p + 1) pat (omega arith))
      | inr other ↦ (false, rw (ex, other))
    ]

match-cons :
    (buf : List ℕ) (p d : ℕ) (pat : List ℕ)
    → matches_nocase buf p (d ∷ pat) ≡ some true
    → (x : ℕ) × (get_elem? buf p ≡ some x)
      × (tolower x ≡ tolower d)
      × (matches_nocase buf (p + 1) pat ≡ some true)
unfolding matches_nocase
match-cons buf p d pat m = elim (Option-cases (get_elem? buf p)) [
  | inl out ↦ absurd (cc (rw out at m))
  | inr (x, ex) ↦ elim (Bool-cases (tolower x == tolower d)) [
    | inl same ↦ (x, ex, (==_iff _ _).0 same, (rw (ex, same) at m))
    | inr other ↦ absurd (cc (rw (ex, other) at m))
  ]
]

-- A match shows each byte of the pattern up to its case.
pub matches_nocase-get :
    (buf : List ℕ) (p : ℕ) (pat : List ℕ) (i j c : ℕ)
    → matches_nocase buf p pat ≡ some true
    → get_elem? pat i ≡ some c
    → j ≡ p + i
    → (x : ℕ) × (get_elem? buf j ≡ some x) × (tolower x ≡ tolower c)
unfolding matches_nocase
matches_nocase-get buf p [] i j c m e ej = absurd (cc e)
matches_nocase-get buf p (d ∷ pat) zero j c m e ej =
    let (x, ex, same, rest) = match-cons buf p d pat m in
    (
      x,
      ap (get_elem? buf) {x = j} {y = p} (omega arith) ∙ ex,
      same ∙ ap tolower {x = d} {y = c} (cc e),
    )
matches_nocase-get buf p (d ∷ pat) (suc i) j c m e ej =
    let (x, ex, same, rest) = match-cons buf p d pat m in
    matches_nocase-get buf (p + 1) pat i j c rest e (omega arith)

pub strncasestr_from-Found :
    (buf : List ℕ) (size first : ℕ) (pat : List ℕ) (p left : ℕ)
    → size ≤ length buf
    → p + left ≡ size
    → (strncasestr_from buf size first pat p left ≡ some none)
      ⊎ ((q : ℕ) × (strncasestr_from buf size first pat p left ≡ some (some q))
          × (p ≤ q)
          × (q + (1 + length pat) ≤ size)
          × (matches_nocase buf q (first ∷ pat) ≡ some true))
unfolding strncasestr_from
strncasestr_from-Found buf size first pat p zero h e = inl refl
strncasestr_from-Found buf size first pat p (suc left) h e =
    let (x, ex) = get_elem?-some buf p (omega arith) in
    let later = strncasestr_from-Found buf size first pat (p + 1) left h (omega arith) in
    elim (Bool-cases (x == first)) [
      | inr other ↦ rw (ex, other) (weaken later)
      | inl same ↦ elim (Bool-cases (ltb size (p + (1 + length pat)))) [
        | inl past ↦ inl (rw (ex, same, past))
        | inr fits ↦
            let (b, eb) = matches_nocase-total buf p (first ∷ pat) (ground arith) in
            elim (Bool-cases b) [
              | inl yes_ ↦
                  inr
                    (p, rw (ex, same, fits, eb, yes_), omega arith, ground arith, eb ∙ ap some yes_)
              | inr no_ ↦ rw (ex, same, fits, eb, no_) (weaken later)
            ]
      ]
    ]
  where
    Later : Option (Option ℕ) → ℕ → Type 0
    Later r from =
        (r ≡ some none)
        ⊎ ((q : ℕ) × (r ≡ some (some q))
            × (from ≤ q)
            × (q + (1 + length pat) ≤ size)
            × (matches_nocase buf q (first ∷ pat) ≡ some true))

    weaken : {r : Option (Option ℕ)} → Later r (p + 1) → Later r p
    weaken (inl e') = inl e'
    weaken (inr (q, eq, lo, hi, m)) = inr (q, eq, omega arith, hi, m)

pub skip_blanks-Found :
    (buf : List ℕ) (p left : ℕ)
    → p + left ≤ length buf
    → (q : ℕ) × (skip_blanks buf p left ≡ some q) × (p ≤ q) × (q ≤ p + left)
unfolding skip_blanks
skip_blanks-Found buf p zero h = (p, refl, omega arith, omega arith)
skip_blanks-Found buf p (suc left) h =
    let (x, ex) = get_elem?-some buf p (omega arith) in
    elim (Bool-cases (x == 32)) [
      | inl blank ↦
          let (q, e, lo, hi) = skip_blanks-Found buf (p + 1) left (omega arith) in
          (q, rw (ex, blank) e, omega arith, omega arith)
      | inr other ↦ (p, rw (ex, other), omega arith, omega arith)
    ]

-- Scanning back stops behind a byte that is no space, at a byte that is one.
pub trim_back-Found :
    (buf : List ℕ) (j i c s : ℕ)
    → j < i
    → get_elem? buf j ≡ some c
    → isspace c ≡ false
    → get_elem? buf i ≡ some s
    → isspace s ≡ true
    → i < length buf
    → (r : ℕ) × (trim_back buf i ≡ some r)
      × (j < r)
      × (r ≤ i)
      × ((y : ℕ) × (get_elem? buf r ≡ some y) × (isspace y ≡ true))
      × ((z : ℕ) × (get_elem? buf (r - 1) ≡ some z) × (isspace z ≡ false))
unfolding trim_back
trim_back-Found buf j zero c s lt ec nc es ss h = absurd (omega arith)
trim_back-Found buf j (suc i) c s lt ec nc es ss h =
    let (x, ex) = get_elem?-some buf i (omega arith) in
    elim (Bool-cases (isspace x)) [
      | inl space ↦
          let lt' : j < i = ground arith in
          let (r, er, lo, hi, at, before) =
            trim_back-Found buf j i c x lt' ec nc ex space (omega arith) in
          (r, rw (ex, space) er, lo, omega arith, at, before)
      | inr other ↦ (
        suc i,
        rw (ex, other),
        lt,
        omega arith,
        (s, es, ss),
        (x, ap (get_elem? buf) {x = suc i - 1} {y = i} (omega arith) ∙ ex, other),
      )
    ]

pub digits_back-Found :
    (buf : List ℕ) (j i c : ℕ)
    → j < i
    → get_elem? buf j ≡ some c
    → isdigit c ≡ false
    → i ≤ length buf
    → (r : ℕ) × (digits_back buf i ≡ some r) × (j ≤ r) × (r < i)
unfolding digits_back
digits_back-Found buf j zero c lt ec nc h = absurd (omega arith)
digits_back-Found buf j (suc i) c lt ec nc h =
    let (x, ex) = get_elem?-some buf i (omega arith) in
    elim (Bool-cases (isdigit x)) [
      | inl digit ↦
          let lt' : j < i = ground arith in
          let (r, er, lo, hi) = digits_back-Found buf j i c lt' ec nc (omega arith) in
          (r, rw (ex, digit) er, lo, omega arith)
      | inr other ↦ (i, rw (ex, other), omega arith, omega arith)
    ]

-- The digits end at the latest at a byte that is none.
pub scan_digits-Found :
    (buf : List ℕ) (p acc left j c : ℕ)
    → p ≤ j
    → j < p + left
    → j < length buf
    → get_elem? buf j ≡ some c
    → isdigit c ≡ false
    → (v : ℕ) × (r : ℕ) × (scan_digits buf p acc left ≡ some (v, r)) × (p ≤ r) × (r ≤ j)
unfolding scan_digits
scan_digits-Found buf p acc zero j c le lt h ec nc = absurd (omega arith)
scan_digits-Found buf p acc (suc left) j c le lt h ec nc =
    let (x, ex) = get_elem?-some buf p (omega arith) in
    elim (Bool-cases (isdigit x)) [
      | inl digit ↦
          let le' : p + 1 ≤ j = ground arith in
          let (v, r, e, lo, hi) =
            scan_digits-Found buf (p + 1) (acc * 10 + (x - 48)) left j c le' (omega arith) h ec
              nc in
          (v, r, rw (ex, digit) e, omega arith, hi)
      | inr other ↦ (acc, p, rw (ex, other), omega arith, le)
    ]

pub skip_spaces-Found :
    (buf : List ℕ) (p left j c : ℕ)
    → p ≤ j
    → j < p + left
    → j < length buf
    → get_elem? buf j ≡ some c
    → isspace c ≡ false
    → (r : ℕ) × (skip_spaces buf p left ≡ some r) × (p ≤ r) × (r ≤ j)
unfolding skip_spaces
skip_spaces-Found buf p zero j c le lt h ec nc = absurd (omega arith)
skip_spaces-Found buf p (suc left) j c le lt h ec nc =
    let (x, ex) = get_elem?-some buf p (omega arith) in
    elim (Bool-cases (isspace x)) [
      | inl space ↦
          let le' : p + 1 ≤ j = ground arith in
          let (r, e, lo, hi) = skip_spaces-Found buf (p + 1) left j c le' (omega arith) h ec nc in
          (r, rw (ex, space) e, omega arith, hi)
      | inr other ↦ (p, rw (ex, other), omega arith, le)
    ]

-- Comparing a request with a fixed text stays inside a buffer that is long enough for it.
pub matches-total :
    (buf : List ℕ) (p : ℕ) (pat : List ℕ)
    → p + length pat ≤ length buf
    → (b : Bool) × (matches buf p pat ≡ some b)
unfolding matches
matches-total buf p [] h = (true, refl)
matches-total buf p (c ∷ pat) h =
    let (x, ex) = get_elem?-some buf p (omega arith) in
    elim (Bool-cases (x == c)) [
      | inl same ↦ rw (ex, same) (matches-total buf (p + 1) pat (omega arith))
      | inr other ↦ (false, rw (ex, other))
    ]
