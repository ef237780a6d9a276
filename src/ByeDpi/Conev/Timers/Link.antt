-- ===== src/ByeDpi/Conev/Timers/Link.antt =====
-- Putting a place in between two parts of a queue.
use mathlib.Core.Path.{subst}
use zon_dpi.Prelude.{
  ℕ, ◌≡◌, ◌≢◌, ◌||◌, refl, sym, ap, true, false, Option, none, some, List, [], ◌∷◌, arith,
  if◌then◌else◌,
}
use zon_dpi.ByeDpi.Conev.{Items, Pool, update, update_at, same}
use zon_dpi.ByeDpi.Conev.Timers.{with_next, with_prev, with_both, link}
use zon_dpi.ByeDpi.Conev.Timers.Order.{rotate, Fresh, Distinct, Apart, Apart-head}
use zon_dpi.ByeDpi.Conev.Timers.Chain.{
  Forward, Backward, Chain, Chain-of_parts, FreshAt, Forward-update, Backward-update,
  Forward-update_at, Backward-update_at, Backward-first, Forward-last,
}

pub same_refl : (q : Option ℕ) → same q q ≡ true
same_refl none = refl
same_refl (some x) = ground arith

same-ne : (x y : ℕ) → x ≢ y → same (some x) (some y) ≡ false
same-ne x y n = ground arith

-- No pointer to a fresh place or null points at `y`.
pub same-Fresh :
    (q : Option ℕ) (y : ℕ) (xs : List ℕ)
    → FreshAt q xs
    → ((z : ℕ) → Fresh z xs → z ≢ y)
    → same q (some y) ≡ false
same-Fresh none y xs n out = refl
same-Fresh (some x) y xs n out = same-ne x y (out x n)

-- What `link` makes of the items.
abbrev pub linked : Items → ℕ → Option ℕ → Option ℕ → Items
linked it x prev next =
    update_at (update_at (update it x (with_both prev next)) next (with_prev (some x))) prev
      (with_next (some x))

linked_self :
    (it : Items) (x : ℕ) (prev next : Option ℕ)
    → FreshAt prev (x ∷ [])
    → FreshAt next (x ∷ [])
    → linked it x prev next x ≡ record (it x) { tv_next = next; tv_prev = prev }
linked_self it x none none np nn = ground arith
linked_self it x none (some z) np nn = ground arith
linked_self it x (some y) none np nn = ground arith
linked_self it x (some y) (some z) np nn = ground arith

linked-prev :
    (it : Items) (x r : ℕ) (next : Option ℕ)
    → x ≢ r
    → FreshAt next (r ∷ [])
    → linked it x (some r) next r ≡ record (it r) { tv_next = some x }
linked-prev it x r none n nn = ground arith
linked-prev it x r (some z) n nn = ground arith

linked-next :
    (it : Items) (x z : ℕ) (prev : Option ℕ)
    → x ≢ z
    → FreshAt prev (z ∷ [])
    → linked it x prev (some z) z ≡ record (it z) { tv_prev = some x }
linked-next it x z none n np = ground arith
linked-next it x z (some y) n np = ground arith

Backward-linked :
    (it : Items) (x : ℕ) (prev next first : Option ℕ) (rs : List ℕ) (l n : Option ℕ)
    → Fresh x rs
    → FreshAt prev rs
    → FreshAt next rs
    → Backward it first rs l n
    → Backward (linked it x prev next) first rs l n
Backward-linked it x prev next first rs l n fx fp fn b =
    let placed = update it x (with_both prev next) in
    Backward-update_at (update_at placed next (with_prev (some x))) prev (with_next (some x)) first
      rs l n fp
      (Backward-update_at placed next (with_prev (some x)) first rs l n fn
        (Backward-update it x (with_both prev next) first rs l n fx b))

Forward-linked :
    (it : Items) (x : ℕ) (prev next p f : Option ℕ) (zs : List ℕ) (l n : Option ℕ)
    → Fresh x zs
    → FreshAt prev zs
    → FreshAt next zs
    → Forward it p f zs l n
    → Forward (linked it x prev next) p f zs l n
Forward-linked it x prev next p f zs l n fx fp fn w =
    let placed = update it x (with_both prev next) in
    Forward-update_at (update_at placed next (with_prev (some x))) prev (with_next (some x)) p f zs
      l n fp
      (Forward-update_at placed next (with_prev (some x)) p f zs l n fn
        (Forward-update it x (with_both prev next) p f zs l n fx w))

pub FreshAt-head : (q : Option ℕ) (x : ℕ) (xs : List ℕ) → FreshAt q (x ∷ xs) → FreshAt q (x ∷ [])
FreshAt-head none x xs n = tt
FreshAt-head (some y) x xs n = (n.0, tt)

pub FreshAt-tail : (q : Option ℕ) (x : ℕ) (xs : List ℕ) → FreshAt q (x ∷ xs) → FreshAt q xs
FreshAt-tail none x xs n = tt
FreshAt-tail (some y) x xs n = n.1

-- The places before the new timer, once the first of them is known to stay.
Backward-linked_cons :
    (it : Items) (x : ℕ) (first prev next : Option ℕ) (r : ℕ) (rs : List ℕ)
    → Backward it first (r ∷ rs) prev next
    → Fresh x (r ∷ rs)
    → Fresh r rs
    → FreshAt next (r ∷ rs)
    → Backward (linked it x prev next) first (r ∷ rs) prev (some x)
Backward-linked_cons it x first prev next r rs b n d nn =
    let l : linked it x prev next r ≡ record (it r) { tv_next = some x } =
      rw b.0 (linked-prev it x r next n.0 (FreshAt-head next r rs nn)) in
    let np : FreshAt prev rs = rw b.0 d in
    (
      b.0,
      ap (λ e. e.tv_next) l,
      rw (ap (λ e. e.tv_prev) l) (
          Backward-linked it x prev next first rs (it r).tv_prev (some r) n.1 np
            (FreshAt-tail next r rs nn) b.2),
    )

Forward-linked_cons :
    (it : Items) (x : ℕ) (last prev next : Option ℕ) (z : ℕ) (zs : List ℕ)
    → Forward it prev next (z ∷ zs) last none
    → Fresh x (z ∷ zs)
    → Fresh z zs
    → FreshAt prev (z ∷ zs)
    → Forward (linked it x prev next) (some x) next (z ∷ zs) last none
Forward-linked_cons it x last prev next z zs f n d np =
    let l : linked it x prev next z ≡ record (it z) { tv_prev = some x } =
      rw f.0 (linked-next it x z prev n.0 (FreshAt-head prev z zs np)) in
    let nn : FreshAt next zs = rw f.0 d in
    (
      f.0,
      ap (λ e. e.tv_prev) l,
      rw (ap (λ e. e.tv_next) l) (
          Forward-linked it x prev next (some z) (it z).tv_next zs last none n.1
            (FreshAt-tail prev z zs np) nn f.2),
    )

-- `pool->tv_start` behind `link`; `tv_end` is computed alike.
abbrev pub start_of : ℕ → Option ℕ → Option ℕ → Option ℕ
start_of x first next = if same first none || same next first then some x else first

link-back :
    (it : Items) (x : ℕ) (first prev next : Option ℕ) (rs : List ℕ)
    → Backward it first rs prev next
    → Fresh x rs
    → Distinct rs
    → FreshAt next rs
    → Backward (linked it x prev next) (start_of x first next) rs prev (some x)
link-back it x first prev next [] b n d nn =
    let e : (same first none || same next first) ≡ true = rw (b.0, same_refl next) (ground arith) in
    (rw e, b.1)
link-back it x first prev next (r ∷ rs) b n d nn =
    let (q, eq, out) = Backward-first it first r rs prev next b in
    let e : start_of x first next ≡ first = rw (eq, same-Fresh next q (r ∷ rs) nn out) in
    subst (λ s. Backward (linked it x prev next) s (r ∷ rs) prev (some x)) (sym e)
      (Backward-linked_cons it x first prev next r rs b n d.0 nn)

link-forth :
    (it : Items) (x : ℕ) (last prev next : Option ℕ) (zs : List ℕ)
    → Forward it prev next zs last none
    → Fresh x zs
    → Distinct zs
    → FreshAt prev zs
    → Forward (linked it x prev next) (some x) next zs (start_of x last prev) none
link-forth it x last prev next [] f n d np =
    let e : (same last none || same prev last) ≡ true = rw (f.1, same_refl prev) (ground arith) in
    (f.0, rw e)
link-forth it x last prev next (z ∷ zs) f n d np =
    let (q, eq, out) = Forward-last it prev next z zs last none f in
    let e : start_of x last prev ≡ last = rw (eq, same-Fresh prev q (z ∷ zs) np out) in
    subst (λ s. Forward (linked it x prev next) (some x) next (z ∷ zs) s none) (sym e)
      (Forward-linked_cons it x last prev next z zs f n d.0 np)

pub FreshAt-next :
    (it : Items) (prev next : Option ℕ) (rs zs : List ℕ) (last : Option ℕ)
    → Forward it prev next zs last none
    → Apart rs zs
    → FreshAt next rs
FreshAt-next it prev next rs [] last f a = rw f.0 tt
FreshAt-next it prev next rs (z ∷ zs) last f a = rw f.0 (Apart-head rs zs z a)

pub FreshAt-prev :
    (it : Items) (first prev next : Option ℕ) (rs zs : List ℕ)
    → Backward it first rs prev next
    → Apart rs zs
    → FreshAt prev zs
FreshAt-prev it first prev next [] zs b a = rw b.1 tt
FreshAt-prev it first prev next (r ∷ rs) zs b a = rw b.0 a.0

pub FreshAt-self :
    (it : Items) (first prev next : Option ℕ) (x : ℕ) (rs : List ℕ)
    → Backward it first rs prev next
    → Fresh x rs
    → FreshAt prev (x ∷ [])
FreshAt-self it first prev next x [] b n = rw b.1 tt
FreshAt-self it first prev next x (r ∷ rs) b n = rw b.0 ((λ e. n.0 (sym e)), tt)

pub FreshAt-self_next :
    (it : Items) (prev next last : Option ℕ) (x : ℕ) (zs : List ℕ)
    → Forward it prev next zs last none
    → Fresh x zs
    → FreshAt next (x ∷ [])
FreshAt-self_next it prev next last x [] f n = rw f.0 tt
FreshAt-self_next it prev next last x (z ∷ zs) f n = rw f.0 ((λ e. n.0 (sym e)), tt)

-- Linking a fresh place in between two parts of a queue makes the queue with it in between.
pub link-Chain :
    (x : ℕ) (prev next : Option ℕ) (p : Pool) (rs zs : List ℕ)
    → Backward p.items p.tv_start rs prev next
    → Forward p.items prev next zs p.tv_end none
    → Fresh x rs
    → Fresh x zs
    → Distinct rs
    → Distinct zs
    → Apart rs zs
    → Chain
        (link x prev next p).items
        (link x prev next p).tv_start
        (rotate rs (x ∷ zs))
        (link x prev next p).tv_end
unfolding link
link-Chain x prev next p rs zs b f nr nz dr dz a =
    let it = p.items in
    let l =
      linked_self it x prev next (FreshAt-self it p.tv_start prev next x rs b nr)
        (FreshAt-self_next it prev next p.tv_end x zs f nz) in
    Chain-of_parts (linked it x prev next) (start_of x p.tv_start next) (start_of x p.tv_end prev)
      prev (some x) rs (x ∷ zs)
      (link-back it x p.tv_start prev next rs b nr dr
        (FreshAt-next it prev next rs zs p.tv_end f a))
      (
        refl,
        ap (λ e. e.tv_prev) l,
        rw (ap (λ e. e.tv_next) l) (
            link-forth it x p.tv_end prev next zs f nz dz
              (FreshAt-prev it p.tv_start prev next rs zs b a)),
      )
