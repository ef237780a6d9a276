-- ===== src/ByeDpi/Conev/Timers/Order.antt =====
-- The order of a queue of timers: lists of places with a deadline for each.
use zon_dpi.Prelude.{
  ℕ, suc, ◌≡◌, ◌≢◌, ◌≤◌, ◌<◌, refl, sym, Bool-cases, inl, inr, true, leb, List, [], ◌∷◌, arith,
  if◌then◌else◌, ◌==◌, ==_iff, false, length, ◌+◌, ◌⊎◌,
}

-- `rs` put before `zs`, in reverse.
unfoldable pub rotate : List ℕ → List ℕ → List ℕ
rotate [] zs = zs
rotate (x ∷ rs) zs = rotate rs (x ∷ zs)

abbrev pub Fresh : ℕ → List ℕ → Type 0
Fresh x [] = Unit {0}
Fresh x (y ∷ ys) = (x ≢ y) × Fresh x ys

abbrev pub Distinct : List ℕ → Type 0
Distinct [] = Unit {0}
Distinct (x ∷ xs) = Fresh x xs × Distinct xs

abbrev pub Apart : List ℕ → List ℕ → Type 0
Apart [] zs = Unit {0}
Apart (x ∷ rs) zs = Fresh x zs × Apart rs zs

pub Apart-head : (rs zs : List ℕ) (x : ℕ) → Apart rs (x ∷ zs) → Fresh x rs
Apart-head [] zs x a = tt
Apart-head (r ∷ rs) zs x a = (λ e. a.0.0 (sym e), Apart-head rs zs x a.1)

pub Apart-tail : (rs zs : List ℕ) (x : ℕ) → Apart rs (x ∷ zs) → Apart rs zs
Apart-tail [] zs x a = tt
Apart-tail (r ∷ rs) zs x a = (a.0.1, Apart-tail rs zs x a.1)

pub Apart-cons : (rs zs : List ℕ) (x : ℕ) → Fresh x rs → Apart rs zs → Apart rs (x ∷ zs)
Apart-cons [] zs x n a = tt
Apart-cons (r ∷ rs) zs x n a = ((λ e. n.0 (sym e), a.0), Apart-cons rs zs x n.1 a.1)

pub Distinct-parts :
    (rs zs : List ℕ) → Distinct (rotate rs zs) → Distinct rs × Distinct zs × Apart rs zs
unfolding rotate
Distinct-parts [] zs d = (tt, d, tt)
Distinct-parts (x ∷ rs) zs d =
    let (dr, dz, a) = Distinct-parts rs (x ∷ zs) d in
    ((Apart-head rs zs x a, dr), dz.1, (dz.0, Apart-tail rs zs x a))

pub Distinct-rotate :
    (rs zs : List ℕ) → Distinct rs → Distinct zs → Apart rs zs → Distinct (rotate rs zs)
unfolding rotate
Distinct-rotate [] zs dr dz a = dz
Distinct-rotate (x ∷ rs) zs dr dz a =
    Distinct-rotate rs (x ∷ zs) dr.1 (a.0, dz) (Apart-cons rs zs x dr.0 a.1)

pub Fresh-parts : (x : ℕ) (rs zs : List ℕ) → Fresh x (rotate rs zs) → Fresh x rs × Fresh x zs
unfolding rotate
Fresh-parts x [] zs n = (tt, n)
Fresh-parts x (r ∷ rs) zs n = let (nr, nz) = Fresh-parts x rs (r ∷ zs) n in ((nz.0, nr), nz.1)

pub Fresh-rotate : (x : ℕ) (rs zs : List ℕ) → Fresh x rs → Fresh x zs → Fresh x (rotate rs zs)
unfolding rotate
Fresh-rotate x [] zs nr nz = nz
Fresh-rotate x (r ∷ rs) zs nr nz = Fresh-rotate x rs (r ∷ zs) nr.1 (nr.0, nz)

pub rotate-rotate : (xs ys : List ℕ) → rotate (rotate xs ys) [] ≡ rotate ys xs
unfolding rotate
rotate-rotate [] ys = refl
rotate-rotate (x ∷ xs) ys = rotate-rotate xs (x ∷ ys)

pub length-rotate : (rs zs : List ℕ) → length (rotate rs zs) ≡ length rs + length zs
unfolding rotate
length-rotate [] zs = omega arith
length-rotate (r ∷ rs) zs = omega (arith, length-rotate rs (r ∷ zs))

-- A list without the places equal to `x`.
unfoldable pub remove : ℕ → List ℕ → List ℕ
remove x [] = []
remove x (y ∷ ys) = let rest = remove x ys in if x == y then rest else y ∷ rest

pub remove-Fresh : (x : ℕ) (xs : List ℕ) → Fresh x xs → remove x xs ≡ xs
unfolding remove
remove-Fresh x [] n = refl
remove-Fresh x (y ∷ ys) n = let e : (x == y) ≡ false = ground arith in rw (e, remove-Fresh x ys n.1)

pub remove-rotate :
    (x : ℕ) (rs zs : List ℕ) → Fresh x rs → remove x (rotate rs zs) ≡ rotate rs (remove x zs)
unfolding remove rotate
remove-rotate x [] zs n = refl
remove-rotate x (r ∷ rs) zs n =
    let e : (x == r) ≡ false = ground arith in rw (remove-rotate x rs (r ∷ zs) n.1, e)

-- A place is none of a list, or it stands somewhere in it.
pub Fresh-or_at :
    (x : ℕ) (rs xs : List ℕ)
    → Fresh x xs ⊎ ((ps : List ℕ) × (qs : List ℕ) × (rotate rs xs ≡ rotate ps (x ∷ qs)))
unfolding rotate
Fresh-or_at x rs [] = inl tt
Fresh-or_at x rs (y ∷ ys) = elim (Bool-cases (x == y)) [
  | inl e ↦ inr (rs, ys, rw ((==_iff x y).0 e))
  | inr e ↦ elim (Fresh-or_at x (y ∷ rs) ys) [
    | inl n ↦ inl ((ground arith), n)
    | inr found ↦ inr found
  ]
]

module _ (t : ℕ → ℕ) where
  -- No deadline of the list is before `v`.
  abbrev pub NotBefore : ℕ → List ℕ → Type 0
  NotBefore v [] = Unit {0}
  NotBefore v (x ∷ xs) = (v ≤ t x) × NotBefore v xs

  abbrev pub Before : ℕ → List ℕ → Type 0
  Before v [] = Unit {0}
  Before v (x ∷ xs) = (t x < v) × Before v xs

  -- Deadlines do not fall along the list.
  abbrev pub Sorted : List ℕ → Type 0
  Sorted [] = Unit {0}
  Sorted (x ∷ xs) = NotBefore (t x) xs × Sorted xs

  -- `x` with the deadline `v` before the first that is not earlier.
  unfoldable pub insert_by : ℕ → ℕ → List ℕ → List ℕ
  insert_by x v [] = x ∷ []
  insert_by x v (y ∷ ys) =
      let rest = insert_by x v ys in if leb v (t y) then x ∷ y ∷ ys else y ∷ rest

  pub insert_by-rotate :
      (x v : ℕ) (rs zs : List ℕ)
      → Before v rs
      → insert_by x v (rotate rs zs) ≡ rotate rs (insert_by x v zs)
  unfolding insert_by rotate
  insert_by-rotate x v [] zs b = refl
  insert_by-rotate x v (r ∷ rs) zs b =
      let e : leb v (t r) ≡ false = ground arith in rw (insert_by-rotate x v rs (r ∷ zs) b.1, e)

  pub insert_by-NotBefore : (x v : ℕ) (zs : List ℕ) → NotBefore v zs → insert_by x v zs ≡ x ∷ zs
  unfolding insert_by
  insert_by-NotBefore x v [] n = refl
  insert_by-NotBefore x v (z ∷ zs) n = let e : leb v (t z) ≡ true = ground arith in rw e

  NotBefore-trans : (u v : ℕ) (xs : List ℕ) → u ≤ v → NotBefore v xs → NotBefore u xs
  NotBefore-trans u v [] le n = tt
  NotBefore-trans u v (x ∷ xs) le n = (omega arith, NotBefore-trans u v xs le n.1)

  pub NotBefore-insert_by :
      (u x v : ℕ) (xs : List ℕ) → u ≤ t x → NotBefore u xs → NotBefore u (insert_by x v xs)
  unfolding insert_by
  NotBefore-insert_by u x v [] le n = (le, tt)
  NotBefore-insert_by u x v (y ∷ ys) le n = elim (Bool-cases (leb v (t y))) [
    | inl e ↦ rw e (le, n)
    | inr e ↦ rw e (n.0, NotBefore-insert_by u x v ys le n.1)
  ]

  -- Insertion keeps the order.
  pub Sorted-insert_by : (x : ℕ) (xs : List ℕ) → Sorted xs → Sorted (insert_by x (t x) xs)
  unfolding insert_by
  Sorted-insert_by x [] s = (tt, tt)
  Sorted-insert_by x (y ∷ ys) s = elim (Bool-cases (leb (t x) (t y))) [
    | inl e ↦
        let le : t x ≤ t y = ground arith in rw e ((le, NotBefore-trans (t x) (t y) ys le s.0), s)
    | inr e ↦
        rw e (NotBefore-insert_by (t y) x (t x) ys (ground arith) s.0, Sorted-insert_by x ys s.1)
  ]

  pub Before-trans : (u v : ℕ) (xs : List ℕ) → u ≤ v → Before u xs → Before v xs
  Before-trans u v [] le n = tt
  Before-trans u v (x ∷ xs) le n = (omega arith, Before-trans u v xs le n.1)

  pub NotBefore-remove : (v x : ℕ) (xs : List ℕ) → NotBefore v xs → NotBefore v (remove x xs)
  unfolding remove
  NotBefore-remove v x [] n = tt
  NotBefore-remove v x (y ∷ ys) n = elim (Bool-cases (x == y)) [
    | inl e ↦ rw e (NotBefore-remove v x ys n.1)
    | inr e ↦ rw e (n.0, NotBefore-remove v x ys n.1)
  ]

  pub Sorted-remove : (x : ℕ) (xs : List ℕ) → Sorted xs → Sorted (remove x xs)
  unfolding remove
  Sorted-remove x [] s = tt
  Sorted-remove x (y ∷ ys) s = elim (Bool-cases (x == y)) [
    | inl e ↦ rw e (Sorted-remove x ys s.1)
    | inr e ↦ rw e (NotBefore-remove (t y) x ys s.0, Sorted-remove x ys s.1)
  ]

  -- What is before the place, in reverse, falls.
  pub Sorted-parts :
      (rs zs : List ℕ) (x : ℕ)
      → Sorted (rotate (x ∷ rs) zs)
      → Sorted zs × NotBefore (t x) zs × Before (suc (t x)) rs
  unfolding rotate
  Sorted-parts [] zs x s = (s.1, s.0, tt)
  Sorted-parts (r ∷ rs) zs x s =
      let (sx, n, b) = Sorted-parts rs (x ∷ zs) r s in
      (sx.1, sx.0, (omega arith, Before-trans (suc (t r)) (suc (t x)) rs (omega arith) b))

-- Only the deadlines of the places matter.
module _ (t u : ℕ → ℕ) (x : ℕ) (agree : (y : ℕ) → x ≢ y → u y ≡ t y) where
  pub NotBefore-agree : (v : ℕ) (xs : List ℕ) → Fresh x xs → NotBefore t v xs → NotBefore u v xs
  NotBefore-agree v [] n b = tt
  NotBefore-agree v (y ∷ ys) n b = (rw (agree y n.0) b.0, NotBefore-agree v ys n.1 b.1)

  pub Sorted-agree : (xs : List ℕ) → Fresh x xs → Sorted t xs → Sorted u xs
  Sorted-agree [] n s = tt
  Sorted-agree (y ∷ ys) n s =
      (rw (agree y n.0) (NotBefore-agree (t y) ys n.1 s.0), Sorted-agree ys n.1 s.1)
