-- ===== src/ByeDpi/Mpool/Hosts.antt =====
-- When two names are the same for `host_cmp`.
use mathlib.Core.Path.{subst}
use zon_dpi.Prelude.{
  ℕ, zero, suc, ◌+◌, ◌-◌, ◌==◌, ==_iff, ltb, ◌≡◌, ◌≢◌, ◌≤◌, ◌<◌, ◌⊎◌, ◌↔◌, refl, sym, ap, ◌∙◌, Bool,
  true, false, Bool-cases, inl, inr, Option, none, some, List, ◌∷◌, ◌++◌, take, drop,
  take-append-drop, length, length-drop, length-append, get_elem?, arith,
}
use zon_dpi.Prelude.Int.{ℤ, pos, negsuc}
use zon_dpi.Bytes.Laws.{some_inv, get_elem?-drop, get_elem?-some, get_elem?-append_right}
use zon_dpi.ByeDpi.Mpool.{Elem, side, char_less, shorter, host_loop, dot_before, host_end, host_cmp}
use zon_dpi.ByeDpi.Mpool.Lists.{get_elem?-ext, drop-get}

-- The loop over `k` bytes finds a difference, or none.
abbrev Compared : List ℕ → ℕ → List ℕ → ℕ → ℕ → Option ℤ → Type 0
Compared ps i qs j k none = (m : ℕ) → m < k → get_elem? ps (i - k + m) ≡ get_elem? qs (j - k + m)
Compared ps i qs j k (some c) =
    (c ≢ pos 0) × ((m : ℕ) × (m < k) × (get_elem? ps (i - k + m) ≢ get_elem? qs (j - k + m)))

side_nonzero : (b : Bool) → side b ≢ pos 0
side_nonzero true e = absurd (grind arith)
side_nonzero false e = absurd (grind arith)

shifted : (ps : List ℕ) (i k m : ℕ) → get_elem? ps (i - suc k + m) ≡ get_elem? ps (i - 1 - k + m)
shifted ps i k m = ap (get_elem? ps) (omega arith)

last_at : (ps : List ℕ) (i k : ℕ) → suc k ≤ i → get_elem? ps (i - suc k + k) ≡ get_elem? ps (i - 1)
last_at ps i k le = ap (get_elem? ps) (omega arith)

Compared-suc :
    (ps : List ℕ) (i : ℕ) (qs : List ℕ) (j k : ℕ) (r : Option ℤ)
    → suc k ≤ i
    → suc k ≤ j
    → get_elem? ps (i - 1) ≡ get_elem? qs (j - 1)
    → Compared ps (i - 1) qs (j - 1) k r
    → Compared ps i qs j (suc k) r
Compared-suc ps i qs j k none ki kj same all = λ m lt. elim (Bool-cases (m == k)) [
  | inl e ↦
      subst (λ v. get_elem? ps (i - suc k + v) ≡ get_elem? qs (j - suc k + v))
        (sym ((==_iff m k).0 e)) (last_at ps i k ki ∙ same ∙ sym (last_at qs j k kj))
  | inr e ↦ shifted ps i k m ∙ all m (ground arith) ∙ sym (shifted qs j k m)
]
Compared-suc ps i qs j k (some c) ki kj same (n, (m, lt, ne)) =
    (n, (m, omega arith, λ e. ne (sym (shifted ps i k m) ∙ e ∙ shifted qs j k m)))

differs : (x y : ℕ) → (x == y) ≡ false → x ≢ y
differs x y e same = ground arith

host_loop-Compared :
    (ps : List ℕ) (i : ℕ) (qs : List ℕ) (j k : ℕ)
    → k ≤ i
    → i ≤ length ps
    → k ≤ j
    → j ≤ length qs
    → (r : Option ℤ) × (host_loop ps i qs j k ≡ some r) × Compared ps i qs j k r
unfolding host_loop
host_loop-Compared ps i qs j zero ki ip kj jq = (none, refl, λ m lt. absurd (omega arith))
host_loop-Compared ps i qs j (suc k) ki ip kj jq =
    let (x, ex) = get_elem?-some ps (i - 1) (omega arith) in
    let (y, ey) = get_elem?-some qs (j - 1) (omega arith) in
    let (r, run, cmp) =
      host_loop-Compared ps (i - 1) qs (j - 1) k (omega arith) (omega arith) (omega arith)
        (omega arith) in
    elim (Bool-cases (x == y)) [
      | inl same ↦ (
        r,
        rw (ex, ey, same) run,
        Compared-suc ps i qs j k r ki kj (ex ∙ ap some ((==_iff x y).0 same) ∙ sym ey) cmp,
      )
      | inr differ ↦ (
        some (side (char_less x y)),
        rw (ex, ey, differ) refl,
        (
          side_nonzero (char_less x y),
          (
            k,
            omega arith,
            λ e.
                differs x y differ
                  (some_inv x y (sym ex ∙ sym (last_at ps i k ki) ∙ e ∙ last_at qs j k kj ∙ ey)),
          ),
        ),
      )
    ]

-- `q` is a name below `p`: `p` with labels before it.
abbrev pub Below : List ℕ → List ℕ → Type 0
Below p q = (pre : List ℕ) × (q ≡ pre ++ (b'.' ∷ p))

-- The same name, or one below the other.
abbrev pub Related : List ℕ → List ℕ → Type 0
Related p q = (p ≡ q) ⊎ (Below q p ⊎ Below p q)

-- The whole of a string.
abbrev pub name : List ℕ → Elem
name bs = record { len = length bs; bytes = bs }

-- The last `length qs` bytes of `ps` are `qs`.
suffix_of :
    (ps qs : List ℕ)
    → length qs ≤ length ps
    → ((m : ℕ)
        → m < length qs
        → get_elem? ps (length ps - length qs + m) ≡ get_elem? qs (length qs - length qs + m))
    → drop (length ps - length qs) ps ≡ qs
suffix_of ps qs le all =
    let d = length ps - length qs in
    get_elem?-ext (drop d ps) qs (omega (arith, length-drop d ps)) λ m lt.
      get_elem?-drop ps d m
      ∙ all m (omega (arith, length-drop d ps))
      ∙ ap (get_elem? qs) {x = length qs - length qs + m} (omega arith)

-- With a dot before it.
split_at_dot :
    (ps qs : List ℕ)
    → length qs < length ps
    → drop (length ps - length qs) ps ≡ qs
    → get_elem? ps (length ps - length qs - 1) ≡ some b'.'
    → Below qs ps
split_at_dot ps qs lt tail dot =
    let d = length ps - length qs - 1 in
    (
      take d ps,
      sym (take-append-drop d ps)
          ∙ ap (λ l. take d ps ++ l)
              (drop-get ps d b'.' dot
                ∙ ap (λ n. b'.' ∷ drop n ps) {x = suc d} {y = length ps - length qs} (omega arith)
                ∙ ap (λ l. b'.' ∷ l) tail),
    )

-- The bytes of a name below `qs`, from the end.
suffix_at :
    (pre qs : List ℕ) (m : ℕ)
    → get_elem? (pre ++ (b'.' ∷ qs)) (length (pre ++ (b'.' ∷ qs)) - length qs + m) ≡ get_elem? qs m
suffix_at pre qs m =
    get_elem?-append_right pre (b'.' ∷ qs) (suc m) _ (omega (arith, length-append pre (b'.' ∷ qs)))

dot_at :
    (pre qs : List ℕ)
    → get_elem? (pre ++ (b'.' ∷ qs)) (length (pre ++ (b'.' ∷ qs)) - length qs - 1) ≡ some b'.'
dot_at pre qs =
    get_elem?-append_right pre (b'.' ∷ qs) 0 _ (omega (arith, length-append pre (b'.' ∷ qs)))

Compared-swap :
    (ps : List ℕ) (i : ℕ) (qs : List ℕ) (j k : ℕ) (r : Option ℤ)
    → Compared ps i qs j k r
    → Compared qs j ps i k r
Compared-swap ps i qs j k none all = λ m lt. sym (all m lt)
Compared-swap ps i qs j k (some c) (n, (m, lt, ne)) = (n, (m, lt, λ e. ne (sym e)))

-- What `host_cmp` makes of a longer name and a shorter one.
abbrev longer_end : List ℕ → List ℕ → ℤ → Option ℤ → Option ℤ
longer_end ps qs otherwise (some cmp) = some cmp
longer_end ps qs otherwise none = dot_before ps (length ps - length qs) otherwise

longer_end-Below :
    (ps qs : List ℕ) (otherwise : ℤ) (r : Option ℤ)
    → length qs < length ps
    → otherwise ≢ pos 0
    → Compared ps (length ps) qs (length qs) (length qs) r
    → (c : ℤ) × (longer_end ps qs otherwise r ≡ some c) × ((c ≡ pos 0) ↔ Below qs ps)
longer_end-Below ps qs otherwise (some c) lt nonzero (n, (m, le, ne)) = (
  c,
  refl,
  (
    λ e. absurd (n e),
    λ (pre, e). absurd (
        ne (
          ap (λ l. get_elem? l (length l - length qs + m)) e
          ∙ suffix_at pre qs m
          ∙ ap (get_elem? qs) {y = length qs - length qs + m} (omega arith))),
  ),
)
longer_end-Below ps qs otherwise none lt nonzero all =
    let tail = suffix_of ps qs (omega arith) all in
    let (x, e) = get_elem?-some ps (length ps - length qs - 1) (omega arith) in
    elim (Bool-cases (x == b'.')) [
      | inl dot ↦ (
        pos 0,
        rw (e, dot) refl,
        (λ z. split_at_dot ps qs lt tail (e ∙ ap some ((==_iff x b'.').0 dot)), λ b. refl),
      )
      | inr plain ↦ (
        otherwise,
        rw (e, plain) refl,
        (
          λ z. absurd (nonzero z),
          λ (pre, b). absurd (
              differs x b'.' plain (
                some_inv x b'.'
                  (sym e ∙ ap (λ l. get_elem? l (length l - length qs - 1)) b ∙ dot_at pre qs))),
        ),
      )
    ]

pub Below-length : (ps qs : List ℕ) → Below ps qs → length ps < length qs
Below-length ps qs (pre, e) = omega (arith, ap length e, length-append pre (b'.' ∷ ps))

-- The same name, for equal lengths.
equal_end :
    (ps qs : List ℕ) (r : Option ℤ)
    → length ps ≡ length qs
    → Compared ps (length ps) qs (length qs) (length ps) r
    → (c : ℤ) × (host_end (name ps) (name qs) r ≡ some c) × ((c ≡ pos 0) ↔ (ps ≡ qs))
equal_end ps qs (some c) n (nz, (m, lt, ne)) = (
  c,
  refl,
  (
    λ e. absurd (nz e),
    λ e. absurd (
        ne (
          ap (get_elem? ps) {y = m} (omega arith)
          ∙ ap (λ l. get_elem? l m) e
          ∙ ap (get_elem? qs) {y = length qs - length ps + m} (omega arith))),
  ),
)
equal_end ps qs none n all =
    let same : (length ps == length qs) ≡ true = ground arith in
    (
      pos 0,
      rw same refl,
      (
        λ z. get_elem?-ext ps qs n (λ m lt.
            ap (get_elem? ps) {x = m} {y = length ps - length ps + m} (omega arith)
            ∙ all m lt
            ∙ ap (get_elem? qs) {y = m} (omega arith)),
        λ e. refl,
      ),
    )

left_end :
    (ps qs : List ℕ) (r : Option ℤ)
    → length qs < length ps
    → host_end (name ps) (name qs) r ≡ longer_end ps qs (pos 1) r
left_end ps qs (some c) lt = refl
left_end ps qs none lt =
    let n : (length ps == length qs) ≡ false = ground arith in
    let l : ltb (length qs) (length ps) ≡ true = ground arith in rw (n, l) refl

right_end :
    (ps qs : List ℕ) (r : Option ℤ)
    → length ps < length qs
    → host_end (name ps) (name qs) r ≡ longer_end qs ps (negsuc 0) r
right_end ps qs (some c) lt = refl
right_end ps qs none lt =
    let n : (length ps == length qs) ≡ false = ground arith in
    let l : ltb (length qs) (length ps) ≡ false = ground arith in rw (n, l) refl

host_cmp-run :
    (ps qs : List ℕ) (k : ℕ) (r : Option ℤ)
    → shorter (name ps) (name qs) ≡ k
    → host_loop ps (length ps) qs (length qs) k ≡ some r
    → host_cmp (name ps) (name qs) ≡ host_end (name ps) (name qs) r
unfolding host_cmp
host_cmp-run ps qs k r e run = rw (e, run) refl

-- The three cases, by the lengths.
host_cmp-equal :
    (ps qs : List ℕ)
    → length ps ≡ length qs
    → (c : ℤ) × (host_cmp (name ps) (name qs) ≡ some c) × ((c ≡ pos 0) ↔ Related ps qs)
host_cmp-equal ps qs n =
    let (r, run, cmp) =
      host_loop-Compared ps (length ps) qs (length qs) (length ps) (omega arith) (omega arith)
        (omega arith) (omega arith) in
    let (c, e, iff) = equal_end ps qs r n cmp in
    (
      c,
      host_cmp-run ps qs (length ps) r (ground arith) run ∙ e,
      (
        λ z. inl (iff.0 z),
        λ h. elim h [
          | inl same ↦ iff.1 same
          | inr (inl b) ↦ absurd (omega (arith, Below-length qs ps b))
          | inr (inr b) ↦ absurd (omega (arith, Below-length ps qs b))
        ],
      ),
    )

host_cmp-left :
    (ps qs : List ℕ)
    → length qs < length ps
    → (c : ℤ) × (host_cmp (name ps) (name qs) ≡ some c) × ((c ≡ pos 0) ↔ Related ps qs)
host_cmp-left ps qs lt =
    let (r, run, cmp) =
      host_loop-Compared ps (length ps) qs (length qs) (length qs) (omega arith) (omega arith)
        (omega arith) (omega arith) in
    let (c, e, iff) = longer_end-Below ps qs (pos 1) r lt (side_nonzero false) cmp in
    (
      c,
      host_cmp-run ps qs (length qs) r (ground arith) run ∙ left_end ps qs r lt ∙ e,
      (
        λ z. inr (inl (iff.0 z)),
        λ h. elim h [
          | inl same ↦ absurd (omega (arith, ap length same))
          | inr (inl b) ↦ iff.1 b
          | inr (inr b) ↦ absurd (omega (arith, Below-length ps qs b))
        ],
      ),
    )

host_cmp-right :
    (ps qs : List ℕ)
    → length ps < length qs
    → (c : ℤ) × (host_cmp (name ps) (name qs) ≡ some c) × ((c ≡ pos 0) ↔ Related ps qs)
host_cmp-right ps qs lt =
    let (r, run, cmp) =
      host_loop-Compared ps (length ps) qs (length qs) (length ps) (omega arith) (omega arith)
        (omega arith) (omega arith) in
    let (c, e, iff) =
      longer_end-Below qs ps (negsuc 0) r lt (side_nonzero true)
        (Compared-swap ps (length ps) qs (length qs) (length ps) r cmp) in
    (
      c,
      host_cmp-run ps qs (length ps) r (ground arith) run ∙ right_end ps qs r lt ∙ e,
      (
        λ z. inr (inr (iff.0 z)),
        λ h. elim h [
          | inl same ↦ absurd (omega (arith, ap length same))
          | inr (inl b) ↦ absurd (omega (arith, Below-length qs ps b))
          | inr (inr b) ↦ iff.1 b
        ],
      ),
    )

-- `host_cmp` reads only inside the two names, and takes them for the same exactly when they are
-- equal or one of them is below the other, whichever that is.
pub host_cmp-Related :
    (ps qs : List ℕ)
    → (c : ℤ) × (host_cmp (name ps) (name qs) ≡ some c) × ((c ≡ pos 0) ↔ Related ps qs)
host_cmp-Related ps qs = elim (Bool-cases (length ps == length qs)) [
  | inl e ↦ host_cmp-equal ps qs (ground arith)
  | inr ne ↦ elim (Bool-cases (ltb (length ps) (length qs))) [
    | inl lt ↦ host_cmp-right ps qs (ground arith)
    | inr ge ↦ host_cmp-left ps qs (ground arith)
  ]
]
