-- ===== src/ByeDpi/Conev/Timers/Remove.antt =====
-- What `remove_timer` does to a queue of timers.
use mathlib.Core.Path.{subst, fun_ext}
use zon_dpi.Prelude.{
  ℕ, ◌==◌, ◌≡◌, ◌≢◌, refl, sym, ap, ◌∙◌, true, false, ==_iff, Bool-cases, inl, inr, Option, none,
  some, List, [], ◌∷◌, arith, if◌then◌else◌,
}
use zon_dpi.ByeDpi.Conev.{Eval, Items, Pool, update, update_at, same}
use zon_dpi.ByeDpi.Conev.Timers.{remove_timer, with_prev, with_next, cleared}
use zon_dpi.ByeDpi.Conev.Timers.Order.{
  rotate, remove, remove-Fresh, remove-rotate, Fresh-or_at, Fresh, Distinct, Apart-head, Apart-tail,
  Distinct-parts, Distinct-rotate, Fresh-parts, Fresh-rotate, NotBefore-agree, Sorted-agree,
  Sorted-remove, NotBefore-remove,
}
use zon_dpi.ByeDpi.Conev.Timers.Chain.{
  Forward, Backward, Chain, Chain-of_parts, parts-of_Chain, FreshAt, Forward-update,
  Backward-update, Forward-update_at, Backward-update_at, update_self, update-other,
  update_at-other, Backward-first, Forward-last,
}
use zon_dpi.ByeDpi.Conev.Timers.Link.{
  same_refl, FreshAt-head, FreshAt-tail, FreshAt-next, FreshAt-prev, FreshAt-self,
  FreshAt-self_next,
}
use zon_dpi.ByeDpi.Conev.Timers.Queue.{IsQueue, deadline, update_at-deadline}

-- What `remove_timer` makes of the items, for the links of `x`.
abbrev unlinked : Items → ℕ → Option ℕ → Option ℕ → Items
unlinked it x prev next =
    update (update_at (update_at it prev (with_next next)) next (with_prev prev)) x cleared

unlinked_self :
    (it : Items) (x : ℕ) (prev next : Option ℕ)
    → ((unlinked it x prev next x).tv_ms ≡ 0)
      × ((unlinked it x prev next x).tv_next ≡ none)
      × ((unlinked it x prev next x).tv_prev ≡ none)
unlinked_self it x prev next =
    let e =
      update_self (update_at (update_at it prev (with_next next)) next (with_prev prev)) x
        cleared in
    (ap (λ e. e.tv_ms) e, ap (λ e. e.tv_next) e, ap (λ e. e.tv_prev) e)

unlinked-prev :
    (it : Items) (x r : ℕ) (next : Option ℕ)
    → x ≢ r
    → FreshAt next (r ∷ [])
    → unlinked it x (some r) next r ≡ record (it r) { tv_next = next }
unlinked-prev it x r none n nn = ground arith
unlinked-prev it x r (some z) n nn = ground arith

unlinked-next :
    (it : Items) (x z : ℕ) (prev : Option ℕ)
    → x ≢ z
    → FreshAt prev (z ∷ [])
    → unlinked it x prev (some z) z ≡ record (it z) { tv_prev = prev }
unlinked-next it x z none n np = ground arith
unlinked-next it x z (some y) n np = ground arith

unlinked-other :
    (it : Items) (x y : ℕ) (prev next : Option ℕ)
    → x ≢ y
    → FreshAt prev (y ∷ [])
    → FreshAt next (y ∷ [])
    → unlinked it x prev next y ≡ it y
unlinked-other it x y prev next n np nn =
    let behind = update_at it prev (with_next next) in
    update-other (update_at behind next (with_prev prev)) x y cleared n
    ∙ update_at-other behind next y (with_prev prev) nn
    ∙ update_at-other it prev y (with_next next) np

Backward-unlinked :
    (it : Items) (x : ℕ) (prev next first : Option ℕ) (rs : List ℕ) (l n : Option ℕ)
    → Fresh x rs
    → FreshAt prev rs
    → FreshAt next rs
    → Backward it first rs l n
    → Backward (unlinked it x prev next) first rs l n
Backward-unlinked it x prev next first rs l n fx fp fn b =
    let behind = update_at it prev (with_next next) in
    Backward-update (update_at behind next (with_prev prev)) x cleared first rs l n fx (
      Backward-update_at behind next (with_prev prev) first rs l n fn
        (Backward-update_at it prev (with_next next) first rs l n fp b))

Forward-unlinked :
    (it : Items) (x : ℕ) (prev next p f : Option ℕ) (zs : List ℕ) (l n : Option ℕ)
    → Fresh x zs
    → FreshAt prev zs
    → FreshAt next zs
    → Forward it p f zs l n
    → Forward (unlinked it x prev next) p f zs l n
Forward-unlinked it x prev next p f zs l n fx fp fn w =
    let behind = update_at it prev (with_next next) in
    Forward-update (update_at behind next (with_prev prev)) x cleared p f zs l n fx (
      Forward-update_at behind next (with_prev prev) p f zs l n fn
        (Forward-update_at it prev (with_next next) p f zs l n fp w))

-- `pool->tv_start` behind the removal of `x`; `tv_end` is computed alike.
abbrev start_without : ℕ → Option ℕ → Option ℕ → Option ℕ
start_without x first next = if same first (some x) then next else first

same_first : (q x : ℕ) → x ≢ q → same (some q) (some x) ≡ false
same_first q x n = ground arith

unlink-back :
    (it : Items) (x : ℕ) (first prev next : Option ℕ) (rs : List ℕ)
    → Backward it first rs prev (some x)
    → Fresh x rs
    → Distinct rs
    → FreshAt next rs
    → Backward (unlinked it x prev next) (start_without x first next) rs prev next
unlink-back it x first prev next [] b n d nn =
    let e : same first (some x) ≡ true = rw (b.0, same_refl (some x)) in (rw e, b.1)
unlink-back it x first prev next (r ∷ rs) b n d nn =
    let (q, eq, out) = Backward-first it first r rs prev (some x) b in
    let e : start_without x first next ≡ first =
      let ne : same first (some x) ≡ false = rw eq (same_first q x (out x n)) in rw ne in
    let l : unlinked it x prev next r ≡ record (it r) { tv_next = next } =
      rw b.0 (unlinked-prev it x r next n.0 (FreshAt-head next r rs nn)) in
    let np : FreshAt prev rs = rw b.0 d.0 in
    subst (λ s. Backward (unlinked it x prev next) s (r ∷ rs) prev next) (sym e)
      (
        b.0,
        ap (λ e. e.tv_next) l,
        rw (ap (λ e. e.tv_prev) l) (
            Backward-unlinked it x prev next first rs (it r).tv_prev (some r) n.1 np
              (FreshAt-tail next r rs nn) b.2),
      )

unlink-forth :
    (it : Items) (x : ℕ) (last prev next : Option ℕ) (zs : List ℕ)
    → Forward it (some x) next zs last none
    → Fresh x zs
    → Distinct zs
    → FreshAt prev zs
    → Forward (unlinked it x prev next) prev next zs (start_without x last prev) none
unlink-forth it x last prev next [] f n d np =
    let e : same last (some x) ≡ true = rw (f.1, same_refl (some x)) in (f.0, rw e)
unlink-forth it x last prev next (z ∷ zs) f n d np =
    let (q, eq, out) = Forward-last it (some x) next z zs last none f in
    let e : start_without x last prev ≡ last =
      let ne : same last (some x) ≡ false = rw eq (same_first q x (out x n)) in rw ne in
    let l : unlinked it x prev next z ≡ record (it z) { tv_prev = prev } =
      rw f.0 (unlinked-next it x z prev n.0 (FreshAt-head prev z zs np)) in
    let nn : FreshAt next zs = rw f.0 d.0 in
    subst (λ s. Forward (unlinked it x prev next) prev next (z ∷ zs) s none) (sym e)
      (
        f.0,
        ap (λ e. e.tv_prev) l,
        rw (ap (λ e. e.tv_next) l) (
            Forward-unlinked it x prev next (some z) (it z).tv_next zs last none n.1
              (FreshAt-tail prev z zs np) nn f.2),
      )

remove_timer-unlinked :
    (x : ℕ) (p : Pool)
    → FreshAt (p.items x).tv_prev (x ∷ [])
    → FreshAt (p.items x).tv_next (x ∷ [])
    → remove_timer x p ≡ record p {
      items = unlinked p.items x (p.items x).tv_prev (p.items x).tv_next;
      tv_start = start_without x p.tv_start (p.items x).tv_next;
      tv_end = start_without x p.tv_end (p.items x).tv_prev;
    }
unfolding remove_timer
remove_timer-unlinked x p np nn =
    let prev = (p.items x).tv_prev in
    let next = (p.items x).tv_next in
    let behind = update_at p.items prev (with_next next) in
    let e1 : behind x ≡ p.items x = update_at-other p.items prev x (with_next next) np in
    let e2 : update_at behind next (with_prev prev) x ≡ p.items x =
      update_at-other behind next x (with_prev prev) nn ∙ e1 in
    rw (e1, e2)

unlinked-deadline :
    (it : Items) (x y : ℕ) (prev next : Option ℕ)
    → x ≢ y
    → deadline (unlinked it x prev next) y ≡ deadline it y
unlinked-deadline it x y prev next n =
    let behind = update_at it prev (with_next next) in
    ap (λ e. e.tv_ms) (update-other (update_at behind next (with_prev prev)) x y cleared n)
    ∙ update_at-deadline behind next (with_prev prev) y (λ e. refl)
    ∙ update_at-deadline it prev (with_next next) y (λ e. refl)

-- Taking the middle place out of a queue leaves the queue without it.
remove-middle :
    (x : ℕ) (rs zs : List ℕ)
    → Fresh x rs
    → Fresh x zs
    → remove x (rotate rs (x ∷ zs)) ≡ rotate rs zs
unfolding remove
remove-middle x rs zs nr nz =
    let e : (x == x) ≡ true = ground arith in
    remove-rotate x rs (x ∷ zs) nr ∙ rw (e, remove-Fresh x zs nz)

ne_of : (x y : ℕ) → (x == y) ≡ false → x ≢ y
ne_of x y e h = ground arith

remove_timer-Chain :
    (x : ℕ) (p : Pool) (rs zs : List ℕ)
    → IsQueue p (rotate rs (x ∷ zs))
    → IsQueue (remove_timer x p) (rotate rs zs)
remove_timer-Chain x p rs zs q =
    let it = p.items in
    let (dr, dz, a) = Distinct-parts rs (x ∷ zs) q.distinct in
    let nr = Apart-head rs zs x a in
    let (prev, next, b, f) = parts-of_Chain it p.tv_start p.tv_end rs (x ∷ zs) q.chain in
    let here : Backward it p.tv_start rs (it x).tv_prev (some x) =
      subst (λ o. Backward it p.tv_start rs o (some x)) (sym f.1)
        (subst (λ o. Backward it p.tv_start rs prev o) f.0 b) in
    let there = f.2 in
    let apart = Apart-tail rs zs x a in
    let shorter : remove x (rotate rs (x ∷ zs)) ≡ rotate rs zs = remove-middle x rs zs nr dz.0 in
    let fresh = Fresh-rotate x rs zs nr dz.0 in
    let np = FreshAt-self it p.tv_start (it x).tv_prev (some x) x rs here nr in
    let nn = FreshAt-self_next it (some x) (it x).tv_next p.tv_end x zs there dz.0 in
    let agree = λ (y : ℕ) (ne : x ≢ y). unlinked-deadline it x y (it x).tv_prev (it x).tv_next ne in
    let it' = unlinked it x (it x).tv_prev (it x).tv_next in
    rw (remove_timer-unlinked x p np nn) (record {
      chain =
          Chain-of_parts it' (start_without x p.tv_start (it x).tv_next)
            (start_without x p.tv_end (it x).tv_prev) (it x).tv_prev (it x).tv_next rs zs
            (unlink-back it x p.tv_start (it x).tv_prev (it x).tv_next rs here nr dr
              (FreshAt-next it (some x) (it x).tv_next rs zs p.tv_end there apart))
            (unlink-forth it x p.tv_end (it x).tv_prev (it x).tv_next zs there dz.0 dz.1
              (FreshAt-prev it p.tv_start (it x).tv_prev (some x) rs zs here apart));
      distinct = Distinct-rotate rs zs dr dz.1 apart;
      sorted =
          Sorted-agree (deadline it) (deadline it') x agree (rotate rs zs) fresh
            (rw (← shorter) (Sorted-remove (deadline it) x (rotate rs (x ∷ zs)) q.sorted));
      armed =
          NotBefore-agree (deadline it) (deadline it') x agree 1 (rotate rs zs) fresh
            (rw (← shorter) (NotBefore-remove (deadline it) 1 x (rotate rs (x ∷ zs)) q.armed));
      idle = λ y out. elim (Bool-cases (x == y)) [
        | inl e ↦
            subst (λ z. ((it' z).tv_ms ≡ 0) × ((it' z).tv_next ≡ none) × ((it' z).tv_prev ≡ none))
              ((==_iff x y).0 e) (unlinked_self it x (it x).tv_prev (it x).tv_next)
        | inr e ↦
            let (yr, yz) = Fresh-parts y rs zs out in
            let ne : x ≢ y = λ h. (ne_of x y e) h in
            rw
              (unlinked-other it x y (it x).tv_prev (it x).tv_next ne
                (FreshAt-self it p.tv_start (it x).tv_prev (some x) y rs here yr)
                (FreshAt-self_next it (some x) (it x).tv_next p.tv_end y zs there yz))
              (q.idle y (Fresh-rotate y rs (x ∷ zs) yr ((λ h. ne (sym h)), yz)))
      ];
    })

cleared_idle : (e : Eval) → e.tv_ms ≡ 0 → e.tv_next ≡ none → e.tv_prev ≡ none → cleared e ≡ e
cleared_idle e ms next prev =
    λ i. record e { tv_ms = sym ms i; tv_next = sym next i; tv_prev = sym prev i }

start_kept :
    (it : Items) (x : ℕ) (first last : Option ℕ) (xs : List ℕ)
    → Chain it first xs last
    → Fresh x xs
    → start_without x first none ≡ first
start_kept it x first last [] c n = rw c.0
start_kept it x first last (y ∷ ys) c n =
    let e : same first (some x) ≡ false = rw c.0 (same_first y x n.0) in rw e

end_kept :
    (it : Items) (x : ℕ) (first last : Option ℕ) (xs : List ℕ)
    → Chain it first xs last
    → Fresh x xs
    → start_without x last none ≡ last
end_kept it x first last [] c n = rw c.1
end_kept it x first last (y ∷ ys) c n =
    let (q, eq, out) = Forward-last it none first y ys last none c in
    let e : same last (some x) ≡ false = rw eq (same_first q x (out x n)) in rw e

untouched :
    (it : Items) (x y : ℕ)
    → (it x).tv_ms ≡ 0
    → (it x).tv_next ≡ none
    → (it x).tv_prev ≡ none
    → unlinked it x none none y ≡ it y
untouched it x y ms next prev = elim (Bool-cases (x == y)) [
  | inl e ↦
      subst (λ z. unlinked it x none none z ≡ it z) ((==_iff x y).0 e)
        (update_self it x cleared ∙ cleared_idle (it x) ms next prev)
  | inr e ↦ rw e
]

-- A place with no timer set is left alone.
remove_timer-idle :
    (x : ℕ) (p : Pool) (xs : List ℕ) → IsQueue p xs → Fresh x xs → remove_timer x p ≡ p
remove_timer-idle x p xs q n =
    let (ms, next, prev) = q.idle x n in
    let np : FreshAt (p.items x).tv_prev (x ∷ []) = rw prev tt in
    let nn : FreshAt (p.items x).tv_next (x ∷ []) = rw next tt in
    let same_items : unlinked p.items x none none ≡ p.items =
      fun_ext λ y. untouched p.items x y ms next prev in
    let s : start_without x p.tv_start none ≡ p.tv_start =
      start_kept p.items x p.tv_start p.tv_end xs q.chain n in
    let e : start_without x p.tv_end none ≡ p.tv_end =
      end_kept p.items x p.tv_start p.tv_end xs q.chain n in
    remove_timer-unlinked x p np nn ∙ rw (prev, next, same_items, s, e)

-- `remove_timer` takes the timer of `x` out of the queue, if it is in it, and leaves the others in
-- their order.
pub remove_timer-remove :
    (x : ℕ) (p : Pool) (xs : List ℕ) → IsQueue p xs → IsQueue (remove_timer x p) (remove x xs)
unfolding rotate
remove_timer-remove x p xs q = elim (Fresh-or_at x [] xs) [
  | inl n ↦ rw (remove_timer-idle x p xs q n, remove-Fresh x xs n) q
  | inr (ps, qs, at) ↦
      let here : xs ≡ rotate ps (x ∷ qs) = at in
      let (dr, dz, a) = Distinct-parts ps (x ∷ qs) (subst Distinct here q.distinct) in
      subst (λ l. IsQueue (remove_timer x p) (remove x l)) (sym here)
        (rw (remove-middle x ps qs (Apart-head ps qs x a) dz.0)
          (remove_timer-Chain x p ps qs (subst (IsQueue p) here q)))
]
