-- ===== src/ByeDpi/Http/Codes.antt =====
-- The code of a reply, `get_http_code` of engines/byedpi/upstream/packets.c.
use zon_dpi.Prelude.{
  ℕ, zero, suc, ◌+◌, ◌-◌, ◌==◌, ==_iff, ltb, ◌≡◌, ◌≤◌, ◌<◌, ◌⊎◌, refl, sym, ap, ◌∙◌, Bool, true,
  false, Bool-cases, Option-cases, inl, inr, none, some, List, length, get_elem?, arith,
  if◌then◌else◌,
}
use zon_dpi.Prelude.Int.{ℤ, pos, negsuc, pos_part}
use zon_dpi.Bytes.Laws.{get_elem?-some, some_inv}
use zon_dpi.ByeDpi.Http.{
  isspace, newline, matches, memchr, skip_spaces, strtol, http_1, no_code, code_at, get_http_code,
}
use zon_dpi.ByeDpi.Http.Scan.{memchr-Found, matches-total}
use zon_dpi.ByeDpi.Http.Bounds.{strtol-total}

memchr-hit :
    (buf : List ℕ) (p c left k : ℕ)
    → p + left ≤ length buf
    → p ≤ k
    → k < p + left
    → get_elem? buf k ≡ some c
    → (q : ℕ) × (memchr buf p c left ≡ some (some q))
unfolding memchr
memchr-hit buf p c zero k h lo hi e = absurd (omega arith)
memchr-hit buf p c (suc left) k h lo hi e =
    let (x, ex) = get_elem?-some buf p (omega arith) in
    elim (Bool-cases (x == c)) [
      | inl here ↦ (p, rw (ex, here) refl)
      | inr later ↦ elim (Bool-cases (p == k)) [
        | inl at ↦
            let is : p ≡ k = (==_iff p k).0 at in
            absurd (clash x c (some_inv x c (sym ex ∙ ap (get_elem? buf) is ∙ e)) later)
        | inr other ↦
            let (q, found) =
              memchr-hit buf (p + 1) c left k (omega arith) (ground arith) (omega arith) e in
            (q, rw (ex, later) found)
      ]
    ]
  where
    clash : (x c : ℕ) → x ≡ c → (x == c) ≡ false → ⊥
    clash x c e ne = ground arith

-- From `p` on there are only spaces.
abbrev pub IsBlank : List ℕ → ℕ → Type 0
IsBlank buf p = (i c : ℕ) → p ≤ i → get_elem? buf i ≡ some c → isspace c ≡ true

skip_spaces-IsBlank : (buf : List ℕ) (p left : ℕ) → IsBlank buf p → skip_spaces buf p left ≡ none
unfolding skip_spaces
skip_spaces-IsBlank buf p zero blank = refl
skip_spaces-IsBlank buf p (suc left) blank = elim (Option-cases (get_elem? buf p)) [
  | inl out ↦ rw out refl
  | inr (c, e) ↦
      let space = blank p c (omega arith) e in
      rw (e, space) (skip_spaces-IsBlank buf (p + 1) left (λ i x le ex. blank i x (omega arith) ex))
]

-- A reply that begins like one and has a newline, but only spaces behind its version, makes
-- `get_http_code` read behind its end.
pub get_http_code-IsBlank :
    (b : List ℕ) (k : ℕ)
    → matches b 0 http_1 ≡ some true
    → IsBlank b 9
    → 12 ≤ k
    → get_elem? b k ≡ some newline
    → k < length b
    → get_http_code b (length b) ≡ none
unfolding get_http_code code_at strtol
get_http_code-IsBlank b k start blank far e inside =
    let long : ltb (length b) 13 ≡ false = ground arith in
    let (q, found) = memchr-hit b 12 newline (length b - 12) k (omega arith) far (omega arith) e in
    rw (long, start, found, skip_spaces-IsBlank b 9 (suc (length b)) blank) refl

-- A code, or 0 for none.
abbrev pub IsCode : ℕ → Type 0
IsCode r = (r ≡ 0) ⊎ ((100 ≤ r) × (r ≤ 511))

value_in_range :
    (v : ℤ) (space : Bool) → no_code v ≡ false → IsCode (if space then pos_part v else 0)
value_in_range (negsuc k) space e = absurd (ground arith)
value_in_range (pos k) true e = inr (ground arith, ground arith)
value_in_range (pos k) false e = inl refl

-- With a byte behind the version that is no space and a newline behind that byte, `get_http_code`
-- reads inside the reply, and returns 0 or a number between 100 and 511.
pub get_http_code-IsCode :
    (b : List ℕ) (n j d k : ℕ)
    → n ≤ length b
    → 9 ≤ j
    → j < k
    → get_elem? b j ≡ some d
    → isspace d ≡ false
    → k < n
    → get_elem? b k ≡ some newline
    → (r : ℕ) × (get_http_code b n ≡ some r) × IsCode r
unfolding get_http_code code_at
get_http_code-IsCode b n j d k fits from before ed solid inside ek = elim (Bool-cases (ltb n 13)) [
  | inl short ↦ (0, rw short refl, inl refl)
  | inr long ↦
      let (m, em) = matches-total b 0 http_1 (ground arith) in
      elim (Bool-cases m) [
        | inr other ↦ (0, rw (long, em, other) refl, inl refl)
        | inl same ↦ elim (memchr-Found b 12 newline (n - 12) (ground arith)) [
          | inl open_ ↦ (0, rw (long, em, same, open_) refl, inl refl)
          | inr (q, found, lo, hi, eq) ↦
              let (num, en, ends) =
                strtol-total b 9 k newline j d from before (omega arith) ek refl ed solid in
              elim (Bool-cases (no_code num.value)) [
                | inl bad ↦ (0, rw (long, em, same, found, en, bad) refl, inl refl)
                | inr good ↦
                    let (e, ee) = get_elem?-some b num.stop (omega arith) in
                    (
                      if isspace e then pos_part num.value else 0,
                      rw (long, em, same, found, en, good, ee) refl,
                      value_in_range num.value (isspace e) good,
                    )
              ]
        ]
      ]
]
