-- ===== src/ByeDpi/Conev/Timers/Chain.antt =====
-- A list of timers in memory, seen from a place in it: the ones before the place stand backwards
-- in `rs`, the ones behind it forwards in `zs`.
use mathlib.Core.Path.{subst}
use zon_dpi.Prelude.{
  sym, false, true, ℕ, ◌==◌, ◌≡◌, ◌≢◌, refl, Option, none, some, List, [], ◌∷◌, arith,
}
use zon_dpi.ByeDpi.Conev.Timers.Order.{rotate, Fresh}
use zon_dpi.ByeDpi.Conev.{Eval, Items, update, update_at}

-- From `first` on, behind `prev`, the pointers lead through `xs` to `last`, and on to `next`.
abbrev pub Forward : Items → Option ℕ → Option ℕ → List ℕ → Option ℕ → Option ℕ → Type 0
Forward it prev first [] last next = (first ≡ next) × (last ≡ prev)
Forward it prev first (x ∷ xs) last next =
    (first ≡ some x) × ((it x).tv_prev ≡ prev) × Forward it (some x) (it x).tv_next xs last next

-- The same backwards: from `last` on, before `next`, through `rs` to `first`.
abbrev pub Backward : Items → Option ℕ → List ℕ → Option ℕ → Option ℕ → Type 0
Backward it first [] last next = (first ≡ next) × (last ≡ none)
Backward it first (x ∷ rs) last next =
    (last ≡ some x) × ((it x).tv_next ≡ next) × Backward it first rs (it x).tv_prev (some x)

-- A queue of timers, in the order of the list.
abbrev pub Chain : Items → Option ℕ → List ℕ → Option ℕ → Type 0
Chain it first xs last = Forward it none first xs last none

-- From the middle to the front.
pub Chain-of_parts :
    (it : Items) (first last prev next : Option ℕ) (rs zs : List ℕ)
    → Backward it first rs prev next
    → Forward it prev next zs last none
    → Chain it first (rotate rs zs) last
unfolding rotate
Chain-of_parts it first last prev next [] zs b f =
    subst (λ q. Forward it q first zs last none) b.1
      (subst (λ q. Forward it prev q zs last none) (sym b.0) f)
Chain-of_parts it first last prev next (x ∷ rs) zs b f =
    Chain-of_parts it first last (it x).tv_prev (some x) rs (x ∷ zs) b.2 (
      refl,
      refl,
      subst (λ q. Forward it q (it x).tv_next zs last none) b.0
          (subst (λ q. Forward it prev q zs last none) (sym b.1) f),
    )

-- From the whole to a place in the middle.
pub parts-of_Chain :
    (it : Items) (first last : Option ℕ) (rs zs : List ℕ)
    → Chain it first (rotate rs zs) last
    → (prev : Option ℕ) × (next : Option ℕ) × Backward it first rs prev next
      × Forward it prev next zs last none
unfolding rotate
parts-of_Chain it first last [] zs c = (none, first, (refl, refl), c)
parts-of_Chain it first last (r ∷ rs) zs c =
    let (prev, next, b, f) = parts-of_Chain it first last rs (r ∷ zs) c in
    (
      some r,
      (it r).tv_next,
      (
        refl,
        refl,
        subst (λ q. Backward it first rs q (some r)) (sym f.1)
            (subst (λ q. Backward it first rs prev q) f.0 b),
      ),
      f.2,
    )

-- A write elsewhere.
pub Forward-update :
    (it : Items) (y : ℕ) (g : Eval → Eval) (prev first : Option ℕ) (xs : List ℕ)
    (last next : Option ℕ)
    → Fresh y xs
    → Forward it prev first xs last next
    → Forward (update it y g) prev first xs last next
Forward-update it y g prev first [] last next n f = f
Forward-update it y g prev first (x ∷ xs) last next n f =
    let e : (y == x) ≡ false = ground arith in
    rw e (f.0, f.1, Forward-update it y g (some x) (it x).tv_next xs last next n.1 f.2)

pub Backward-update :
    (it : Items) (y : ℕ) (g : Eval → Eval) (first : Option ℕ) (rs : List ℕ) (last next : Option ℕ)
    → Fresh y rs
    → Backward it first rs last next
    → Backward (update it y g) first rs last next
Backward-update it y g first [] last next n b = b
Backward-update it y g first (x ∷ rs) last next n b =
    let e : (y == x) ≡ false = ground arith in
    rw e (b.0, b.1, Backward-update it y g first rs (it x).tv_prev (some x) n.1 b.2)

-- A pointer to none of the places of a list.
abbrev pub FreshAt : Option ℕ → List ℕ → Type 0
FreshAt none xs = Unit {0}
FreshAt (some y) xs = Fresh y xs

pub Forward-update_at :
    (it : Items) (q : Option ℕ) (g : Eval → Eval) (prev first : Option ℕ) (xs : List ℕ)
    (last next : Option ℕ)
    → FreshAt q xs
    → Forward it prev first xs last next
    → Forward (update_at it q g) prev first xs last next
Forward-update_at it none g prev first xs last next n f = f
Forward-update_at it (some y) g prev first xs last next n f =
    Forward-update it y g prev first xs last next n f

pub Backward-update_at :
    (it : Items) (q : Option ℕ) (g : Eval → Eval) (first : Option ℕ) (rs : List ℕ)
    (last next : Option ℕ)
    → FreshAt q rs
    → Backward it first rs last next
    → Backward (update_at it q g) first rs last next
Backward-update_at it none g first rs last next n b = b
Backward-update_at it (some y) g first rs last next n b =
    Backward-update it y g first rs last next n b

pub update_self : (it : Items) (x : ℕ) (g : Eval → Eval) → update it x g x ≡ g (it x)
update_self it x g = let e : (x == x) ≡ true = ground arith in rw e

pub update-other : (it : Items) (x y : ℕ) (g : Eval → Eval) → x ≢ y → update it x g y ≡ it y
update-other it x y g n = let e : (x == y) ≡ false = ground arith in rw e

pub update_at-other :
    (it : Items) (q : Option ℕ) (y : ℕ) (g : Eval → Eval)
    → FreshAt q (y ∷ [])
    → update_at it q g y ≡ it y
update_at-other it none y g n = refl
update_at-other it (some x) y g n = update-other it x y g n.0

-- The first place of a list that is not empty is one of its places.
pub Backward-first :
    (it : Items) (first : Option ℕ) (r : ℕ) (rs : List ℕ) (last next : Option ℕ)
    → Backward it first (r ∷ rs) last next
    → (q : ℕ) × (first ≡ some q) × ((z : ℕ) → Fresh z (r ∷ rs) → z ≢ q)
Backward-first it first r [] last next b = (r, b.2.0, λ z n. n.0)
Backward-first it first r (s ∷ rs) last next b =
    let (q, e, out) = Backward-first it first s rs (it r).tv_prev (some r) b.2 in
    (q, e, λ z n. out z n.1)

pub Forward-last :
    (it : Items) (prev first : Option ℕ) (x : ℕ) (xs : List ℕ) (last next : Option ℕ)
    → Forward it prev first (x ∷ xs) last next
    → (q : ℕ) × (last ≡ some q) × ((z : ℕ) → Fresh z (x ∷ xs) → z ≢ q)
Forward-last it prev first x [] last next f = (x, f.2.1, λ z n. n.0)
Forward-last it prev first x (y ∷ xs) last next f =
    let (q, e, out) = Forward-last it (some x) (it x).tv_next y xs last next f.2 in
    (q, e, λ z n. out z n.1)
