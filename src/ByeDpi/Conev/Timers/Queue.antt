-- ===== src/ByeDpi/Conev/Timers/Queue.antt =====
-- What a queue of timers is, and what `set_timer` does to one.
use mathlib.Core.Path.{subst, fun_ext}
use zon_dpi.Prelude.{
  ℕ, zero, suc, ◌+◌, ◌==◌, ◌≡◌, ◌≢◌, ◌<◌, refl, sym, ap, ◌∙◌, Bool-cases, inl, inr, leb, Option,
  none, some, List, [], ◌∷◌, arith, length,
}
use zon_dpi.ByeDpi.Conev.{Eval, Items, Pool, update, update_at}
use zon_dpi.ByeDpi.Conev.Timers.{walk, link, set_timer, with_prev, with_next, with_both, with_ms}
use zon_dpi.ByeDpi.Conev.Timers.Order.{
  rotate, rotate-rotate, length-rotate, Fresh, Distinct, Apart-cons, Distinct-parts,
  Distinct-rotate, Fresh-parts, Fresh-rotate, NotBefore, Before, Sorted, insert_by,
  insert_by-rotate, insert_by-NotBefore, Sorted-insert_by, Sorted-parts, Before-trans,
  NotBefore-insert_by, NotBefore-agree, Sorted-agree,
}
use zon_dpi.ByeDpi.Conev.Timers.Chain.{
  Forward, Backward, Chain, parts-of_Chain, FreshAt, Forward-update, update_self, update-other,
  update_at-other,
}
use zon_dpi.ByeDpi.Conev.Timers.Link.{linked, link-Chain, FreshAt-self, FreshAt-self_next}

abbrev pub deadline : Items → ℕ → ℕ
deadline it x = (it x).tv_ms

-- The loop of `set_timer` ends at the place between the earlier deadlines and the others.
walk-parts :
    (fuel : ℕ) (it : Items) (v : ℕ) (first last prev next : Option ℕ) (rs zs : List ℕ)
    → length rs < fuel
    → Backward it first rs prev next
    → Forward it prev next zs last none
    → Sorted (deadline it) (rotate rs zs)
    → NotBefore (deadline it) v zs
    → (ps : List ℕ) × (qs : List ℕ) × (prev' : Option ℕ) × (next' : Option ℕ) × (walk fuel it v prev
          next
        ≡ some (prev', next'))
      × Backward it first ps prev' next'
      × Forward it prev' next' qs last none
      × (rotate ps qs ≡ rotate rs zs)
      × Before (deadline it) v ps
      × NotBefore (deadline it) v qs
unfolding walk rotate
walk-parts zero it v first last prev next rs zs h b f s n = absurd (omega arith)
walk-parts (suc fuel) it v first last prev next [] zs h b f s n =
    ([], zs, prev, next, rw b.1, b, f, refl, tt, n)
walk-parts (suc fuel) it v first last prev next (r ∷ rs) zs h b f s n =
    let (sz, nz, be) = Sorted-parts (deadline it) rs zs r s in
    elim (Bool-cases (leb v (it r).tv_ms)) [
      | inr early ↦ (
        r ∷ rs,
        zs,
        prev,
        next,
        rw (b.0, early),
        b,
        f,
        refl,
        (ground arith, Before-trans (deadline it) (suc (it r).tv_ms) v rs (ground arith) be),
        n,
      )
      | inl late ↦
          let (ps, qs, prev', next', e, b', f', same_list, be', n') =
            walk-parts fuel it v first last (it r).tv_prev (some r) rs (r ∷ zs) (omega arith) b.2
              (
                refl,
                refl,
                subst (λ q. Forward it q (it r).tv_next zs last none) b.0
                    (subst (λ q. Forward it prev q zs last none) (sym b.1) f),
              )
              s (ground arith, n) in
          (ps, qs, prev', next', rw (b.0, late) e, b', f', same_list, be', n')
    ]

-- The timers that are set, earliest first: linked both ways, each once, with deadlines that are not
-- 0; no other place has a deadline or a link.
pub record IsQueue (p : Pool) (xs : List ℕ) : Type 0 where
  pub chain : Chain p.items p.tv_start xs p.tv_end
  pub distinct : Distinct xs
  pub sorted : Sorted (deadline p.items) xs
  pub armed : NotBefore (deadline p.items) 1 xs
  pub idle :
      (y : ℕ)
      → Fresh y xs
      → ((p.items y).tv_ms ≡ 0) × ((p.items y).tv_next ≡ none) × ((p.items y).tv_prev ≡ none)

linked-other :
    (it : Items) (x y : ℕ) (prev next : Option ℕ)
    → x ≢ y
    → FreshAt prev (y ∷ [])
    → FreshAt next (y ∷ [])
    → linked it x prev next y ≡ it y
linked-other it x y prev next n np nn =
    let placed = update it x (with_both prev next) in
    update_at-other (update_at placed next (with_prev (some x))) prev y (with_next (some x)) np
    ∙ update_at-other placed next y (with_prev (some x)) nn
    ∙ update-other it x y (with_both prev next) n

pub update_at-deadline :
    (it : Items) (q : Option ℕ) (g : Eval → Eval) (y : ℕ)
    → ((e : Eval) → (g e).tv_ms ≡ e.tv_ms)
    → (update_at it q g y).tv_ms ≡ (it y).tv_ms
update_at-deadline it none g y h = refl
update_at-deadline it (some x) g y h = elim (Bool-cases (x == y)) [
  | inl e ↦ rw e (h (it y))
  | inr e ↦ rw e
]

linked-deadline :
    (it : Items) (x y : ℕ) (prev next : Option ℕ)
    → deadline (linked it x prev next) y ≡ deadline it y
linked-deadline it x y prev next =
    let placed = update it x (with_both prev next) in
    update_at-deadline (update_at placed next (with_prev (some x))) prev (with_next (some x)) y
      (λ e. refl)
    ∙ update_at-deadline placed next (with_prev (some x)) y (λ e. refl)
    ∙ update_at-deadline it (some x) (with_both prev next) y (λ e. refl)

rotated_back : (xs : List ℕ) → rotate (rotate xs []) [] ≡ xs
unfolding rotate
rotated_back xs = rotate-rotate xs []

-- The place that `walk` finds, used by `link`.
module _ (p : Pool) (x v : ℕ) (xs ps qs : List ℕ) (prev next : Option ℕ) (split : rotate ps qs ≡ xs)
    (b : Backward p.items p.tv_start ps prev next) (f : Forward p.items prev next qs p.tv_end none)
    (before : Before (deadline p.items) v ps) (behind : NotBefore (deadline p.items) v qs) where
  same_deadlines : deadline (link x prev next p).items ≡ deadline p.items
  unfolding link
  same_deadlines = fun_ext λ y. linked-deadline p.items x y prev next

  placed : insert_by (deadline p.items) x v xs ≡ rotate ps (x ∷ qs)
  placed = rw (← split) (
      insert_by-rotate (deadline p.items) x v ps qs before
      ∙ ap (rotate ps) (insert_by-NotBefore (deadline p.items) x v qs behind))

  link-IsQueue :
      Distinct xs
      → Sorted (deadline p.items) xs
      → NotBefore (deadline p.items) 1 xs
      → Fresh x xs
      → (p.items x).tv_ms ≡ v
      → 0 < v
      → ((y : ℕ)
          → x ≢ y
          → Fresh y xs
          → ((p.items y).tv_ms ≡ 0) × ((p.items y).tv_next ≡ none) × ((p.items y).tv_prev ≡ none))
      → IsQueue (link x prev next p) (insert_by (deadline p.items) x v xs)
  unfolding link
  link-IsQueue d s a n e late idle =
      let (dr, dq, ap_) = Distinct-parts ps qs (rw split d) in
      let (np, nq) = Fresh-parts x ps qs (rw split n) in
      record {
        chain = rw placed (link-Chain x prev next p ps qs b f np nq dr dq ap_);
        distinct = rw placed (Distinct-rotate ps (x ∷ qs) dr (nq, dq) (Apart-cons ps qs x np ap_));
        sorted = rw same_deadlines (rw (← e) (Sorted-insert_by (deadline p.items) x xs s));
        armed =
            rw same_deadlines
              (NotBefore-insert_by (deadline p.items) 1 x v xs (omega (arith, e)) a);
        idle = λ y out.
            let (yp, yq) = Fresh-parts y ps (x ∷ qs) (subst (Fresh y) placed out) in
            let ne : x ≢ y = λ h. yq.0 (sym h) in
            rw
              (linked-other p.items x y prev next ne
                (FreshAt-self p.items p.tv_start prev next y ps b yp)
                (FreshAt-self_next p.items prev next p.tv_end y qs f yq.1))
              (idle y ne (subst (Fresh y) split (Fresh-rotate y ps qs yp yq.1)));
      }

-- `set_timer` for a place whose timer is not set, with a deadline `now + ms` that is not 0,
-- puts it into the queue before the first timer that is not earlier, with that deadline, and
-- leaves the deadlines of the others as they were. More rounds of the loop than there are timers
-- are enough.
pub set_timer-insert_by :
    (fuel now x ms : ℕ) (p : Pool) (xs : List ℕ)
    → IsQueue p xs
    → Fresh x xs
    → 0 < now + ms
    → length xs < fuel
    → (p' : Pool) × (set_timer fuel now x ms p ≡ some p')
      × IsQueue p' (insert_by (deadline p'.items) x (now + ms) xs)
      × (deadline p'.items x ≡ now + ms)
      × ((y : ℕ) → x ≢ y → deadline p'.items y ≡ deadline p.items y)
unfolding set_timer
set_timer-insert_by fuel now x ms p xs q n late enough =
    let v = now + ms in
    let it = update p.items x (with_ms v) in
    let tp : Pool = record p { items = it } in
    let agree : (y : ℕ) → x ≢ y → deadline it y ≡ deadline p.items y =
      λ y ne. ap (λ e. e.tv_ms) (update-other p.items x y (with_ms v) ne) in
    let here : deadline it x ≡ v = ap (λ e. e.tv_ms) (update_self p.items x (with_ms v)) in
    let whole : rotate (rotate xs []) [] ≡ xs = rotated_back xs in
    let chained : Chain it p.tv_start xs p.tv_end =
      Forward-update p.items x (with_ms v) none p.tv_start xs p.tv_end none n q.chain in
    let sorted = Sorted-agree (deadline p.items) (deadline it) x agree xs n q.sorted in
    let (prev, next, b, f) =
      parts-of_Chain it p.tv_start p.tv_end (rotate xs []) [] (rw whole chained) in
    let back : Backward it p.tv_start (rotate xs []) p.tv_end none =
      subst (λ q. Backward it p.tv_start (rotate xs []) p.tv_end q) f.0
        (subst (λ q. Backward it p.tv_start (rotate xs []) q next) (sym f.1) b) in
    let (ps, qs, prev', next', found, b', f', split, before, behind) =
      walk-parts fuel it v p.tv_start p.tv_end p.tv_end none (rotate xs []) []
        (omega (arith, length-rotate xs [])) back (refl, refl) (rw whole sorted) tt in
    let kept : deadline (link x prev' next' tp).items ≡ deadline it =
      same_deadlines tp x v xs ps qs prev' next' (split ∙ whole) b' f' before behind in
    let made : IsQueue (link x prev' next' tp) (insert_by (deadline it) x v xs) =
      link-IsQueue tp x v xs ps qs prev' next' (split ∙ whole) b' f' before behind q.distinct sorted
        (NotBefore-agree (deadline p.items) (deadline it) x agree 1 xs n q.armed) n here late
        (λ y ne out. rw (update-other p.items x y (with_ms v) ne) (q.idle y out)) in
    (
      link x prev' next' tp,
      rw (q.idle x n).0 (rw found),
      rw kept made,
      rw kept here,
      λ y ne. ap (λ t. t y) kept ∙ agree y ne,
    )
