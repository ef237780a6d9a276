-- ===== src/ByeDpi/Conev/Events/Release.antt =====
-- Closing an event: what becomes of its place.
use mathlib.Core.Path.{subst}
use zon_dpi.Prelude.{
  ℕ, ◌-◌, ◌==◌, ==_iff, ◌≡◌, ◌≢◌, ◌<◌, ◌⊎◌, refl, sym, ap, ◌∙◌, true, false, Bool-cases, inl, inr,
  leb, Option, none, some, ◌∷◌, arith, if◌then◌else◌,
}
use zon_dpi.Prelude.Int.{negsuc}
use zon_dpi.ByeDpi.Conev.{Buffer, Eval, Items, Pool, update, update_at}
use zon_dpi.ByeDpi.Conev.Buffers.{buff_push}
use zon_dpi.ByeDpi.Conev.Timers.{remove_timer, with_next, with_prev, cleared}
use zon_dpi.ByeDpi.Conev.Timers.Chain.{update_self, update-other}
use zon_dpi.ByeDpi.Conev.Events.{emptied, with_index, is_closed, close_event, drop_slot}
use zon_dpi.ByeDpi.Conev.Events.Places.{IsPool, Live}

-- A field that a write does not touch.
module _ {ℓ} {A : Type ℓ} (f : Eval → A) where
  pub update-keeps :
      (it : Items) (x : ℕ) (g : Eval → Eval) (y : ℕ)
      → ((e : Eval) → f (g e) ≡ f e)
      → f (update it x g y) ≡ f (it y)
  update-keeps it x g y h = elim (Bool-cases (x == y)) [ inl e ↦ rw e (h (it y)) | inr e ↦ rw e ]

  update_at-keeps :
      (it : Items) (q : Option ℕ) (g : Eval → Eval) (y : ℕ)
      → ((e : Eval) → f (g e) ≡ f e)
      → f (update_at it q g y) ≡ f (it y)
  update_at-keeps it none g y h = refl
  update_at-keeps it (some x) g y h = update-keeps it x g y h

  remove_timer-keeps :
      (x : ℕ) (p : Pool) (y : ℕ)
      → ((o : Option ℕ) (e : Eval) → f (with_next o e) ≡ f e)
      → ((o : Option ℕ) (e : Eval) → f (with_prev o e) ≡ f e)
      → ((e : Eval) → f (cleared e) ≡ f e)
      → f ((remove_timer x p).items y) ≡ f (p.items y)
  unfolding remove_timer
  remove_timer-keeps x p y hn hp hc =
      let behind = update_at p.items (p.items x).tv_prev (with_next (p.items x).tv_next) in
      update-keeps (update_at behind (behind x).tv_next (with_prev (behind x).tv_prev)) x cleared y
        hc
      ∙ update_at-keeps behind (behind x).tv_next (with_prev (behind x).tv_prev) y
          (hp (behind x).tv_prev)
      ∙ update_at-keeps p.items (p.items x).tv_prev (with_next (p.items x).tv_next) y
          (hn (p.items x).tv_next)

-- What closing `x` leaves of the places, before it is taken off the links.
pub record Closed (p q : Pool) (x : ℕ) : Type 0 where
  pub count : q.count ≡ p.count
  pub max : q.max ≡ p.max
  pub links : q.links ≡ p.links
  pub index : (y : ℕ) → (q.items y).index ≡ (p.items y).index
  pub pair : (y : ℕ) → (q.items y).pair ≡ (p.items y).pair
  pub fd : (y : ℕ) → x ≢ y → (q.items y).fd ≡ (p.items y).fd
  pub shut : (q.items x).fd ≡ negsuc 0
  pub closed : q.closed ≡ (p.items x).fd ∷ p.closed

buff_push-keeps :
    (p : Pool) (b : Option Buffer)
    → ((buff_push p b).count ≡ p.count)
      × ((buff_push p b).max ≡ p.max)
      × ((buff_push p b).links ≡ p.links)
unfolding buff_push
buff_push-keeps p none = (refl, refl, refl)
buff_push-keeps p (some b) = elim (Bool-cases (leb 8 p.buff_count)) [
  | inl e ↦ rw e (refl, refl, refl)
  | inr e ↦ rw e (refl, refl, refl)
]

pub close_event-Closed : (x : ℕ) (p : Pool) → Closed p (close_event x p) x
unfolding close_event remove_timer
close_event-Closed x p =
    let first = buff_push p (p.items x).buff in
    let given = buff_push first (p.items x).sq_buff in
    let shut = record given {
      items = update p.items x (emptied p.iters);
      closed = (p.items x).fd ∷ p.closed;
    } in
    let (c1, m1, l1) = buff_push-keeps p (p.items x).buff in
    let (c2, m2, l2) = buff_push-keeps first (p.items x).sq_buff in
    record {
      count = c2 ∙ c1;
      max = m2 ∙ m1;
      links = l2 ∙ l1;
      index = λ y.
          remove_timer-keeps (λ e. e.index) x shut y (λ o e. refl) (λ o e. refl) (λ e. refl)
          ∙ update-keeps (λ e. e.index) p.items x (emptied p.iters) y (λ e. refl);
      pair = λ y.
          remove_timer-keeps (λ e. e.pair) x shut y (λ o e. refl) (λ o e. refl) (λ e. refl)
          ∙ update-keeps (λ e. e.pair) p.items x (emptied p.iters) y (λ e. refl);
      fd = λ y ne.
          remove_timer-keeps (λ e. e.fd) x shut y (λ o e. refl) (λ o e. refl) (λ e. refl)
          ∙ ap (λ e. e.fd) (update-other p.items x y (emptied p.iters) ne);
      shut =
          remove_timer-keeps (λ e. e.fd) x shut x (λ o e. refl) (λ o e. refl) (λ e. refl)
          ∙ ap (λ e. e.fd) (update_self p.items x (emptied p.iters));
      closed = refl;
    }

-- The links that `drop_slot` leaves: the hole and the last place change places.
abbrev swapped : ℕ → ℕ → ℕ → ℕ
swapped last index i = if i == last then index else if i == index then last else i

swapped-inj : (last index i j : ℕ) → swapped last index i ≡ swapped last index j → i ≡ j
swapped-inj last index i j e = ground arith

swapped-bound :
    (last index max i : ℕ) → last < max → index < max → i < max → swapped last index i < max
swapped-bound last index max i l x h = ground arith

ne_of_test : (a b : ℕ) → (a == b) ≡ false → a ≢ b
ne_of_test a b e same_place = ground arith

-- The two ways in which a place in use goes.
module _ (p q : Pool) (x : ℕ) (h : IsPool p) (live : Live p x) (c : Closed p q x) where
  abbrev pub last : ℕ
  last = p.count - 1

  abbrev pub hole : ℕ
  hole = (p.items x).index

  last_used : last < p.count
  last_used = omega (arith, live.0)

  others_differ : (i : ℕ) → i < p.count → i ≢ hole → x ≢ p.links i
  others_differ i le ne e =
      ne (sym (h.apart hole i (omega (arith, h.fits, live.0)) (omega (arith, h.fits)) (live.1 ∙ e)))

  -- The last place is the one that is closed.
  pub drop_last : p.links last ≡ x → IsPool (record q { count = last })
  drop_last e =
      let at : last ≡ hole =
        h.apart last hole (omega (arith, h.fits, live.0)) (omega (arith, h.fits, live.0))
          (e ∙ sym live.1) in
      record {
        fits = omega (arith, h.fits, c.max);
        apart = λ i j li lj same_link.
            h.apart i j (rw (← c.max) li) (rw (← c.max) lj)
              (ap (λ l. l i) (sym c.links) ∙ same_link ∙ ap (λ l. l j) c.links);
        slot = λ i li. rw c.links (c.index (p.links i) ∙ h.slot i (omega arith));
        open_ = λ i li. rw c.links (
            ap is_closed (c.fd (p.links i) (others_differ i (omega arith) (omega (arith, at))))
            ∙ h.open_ i (omega arith));
      }

  -- The last place moves into the hole.
  abbrev pub moved : Pool
  moved = record q {
    count = last;
    links = λ i. if i == last then x else if i == hole then p.links last else p.links i;
    items = update q.items (p.links last) (with_index hole);
  }

  moved-links : (i : ℕ) → moved.links i ≡ p.links (swapped last hole i)
  moved-links i = elim (Bool-cases (i == last)) [
    | inl e ↦ rw (e, live.1)
    | inr e ↦ elim (Bool-cases (i == hole)) [ inl at ↦ rw (e, at) | inr off ↦ rw (e, off) ]
  ]

  moved_used :
      (i : ℕ)
      → i < last
      → ((i ≡ hole) × (moved.links i ≡ p.links last))
        ⊎ ((i ≢ hole) × (p.links last ≢ p.links i) × (moved.links i ≡ p.links i))
  moved_used i li = elim (Bool-cases (i == hole)) [
    | inl at ↦ let e : (i == last) ≡ false = ground arith in inl ((==_iff i hole).0 at, rw (e, at))
    | inr off ↦
        let e : (i == last) ≡ false = ground arith in
        inr (
          ne_of_test i hole off,
          (λ same_link.
              let r =
                h.apart last i (omega (arith, h.fits, live.0)) (omega (arith, h.fits, live.0))
                  same_link in
              omega arith),
          rw (e, off),
        )
  ]

  pub moved-IsPool : p.links last ≢ x → IsPool moved
  moved-IsPool ne = record {
    fits = omega (arith, h.fits, c.max);
    apart = λ i j li lj same_link. swapped-inj last hole i j (
        h.apart (swapped last hole i) (swapped last hole j)
          (swapped-bound last hole p.max i (omega (arith, h.fits, live.0))
            (omega (arith, h.fits, live.0)) (rw (← c.max) li))
          (swapped-bound last hole p.max j (omega (arith, h.fits, live.0))
            (omega (arith, h.fits, live.0)) (rw (← c.max) lj))
          (sym (moved-links i) ∙ same_link ∙ moved-links j));
    slot = λ i li. elim (moved_used i li) [
      | inl (at, e) ↦
          rw e (ap (λ v. v.index) (update_self q.items (p.links last) (with_index hole)) ∙ sym at)
      | inr (off, other, e) ↦ rw e (
          ap (λ v. v.index)
            (update-other q.items (p.links last) (p.links i) (with_index hole) other)
          ∙ c.index (p.links i)
          ∙ h.slot i (omega arith))
    ];
    open_ = λ i li. elim (moved_used i li) [
      | inl (at, e) ↦ rw e (
          ap is_closed (
            update-keeps (λ v. v.fd) q.items (p.links last) (with_index hole) (p.links last)
              (λ v. refl)
            ∙ c.fd (p.links last) (λ s. ne (sym s)))
          ∙ h.open_ last last_used)
      | inr (off, other, e) ↦ rw e (
          ap is_closed (
            update-keeps (λ v. v.fd) q.items (p.links last) (with_index hole) (p.links i)
              (λ v. refl)
            ∙ c.fd (p.links i) (others_differ i (omega arith) off))
          ∙ h.open_ i (omega arith))
    ];
  }

  pub drop_slot_lem :
      ((p.links last ≡ x) × (drop_slot x q ≡ record q { count = last }))
      ⊎ ((p.links last ≢ x) × (drop_slot x q ≡ moved))
  unfolding drop_slot
  drop_slot_lem = elim (Bool-cases (p.links last == x)) [
    | inl e ↦ inl ((==_iff (p.links last) x).0 e, rw (c.count, c.links, c.index x, e))
    | inr e ↦ inr (ne_of_test (p.links last) x e, rw (c.count, c.links, c.index x, e))
  ]

  Live-at : (d : Pool) (y j : ℕ) → (d.items y).index ≡ j → j < d.count → d.links j ≡ y → Live d y
  Live-at d y j e lt l = (omega (arith, e), ap d.links e ∙ l)

  hole_below : p.links last ≢ x → hole < last
  hole_below ne =
      let off : hole ≢ last = λ e. ne (ap p.links (sym e) ∙ live.1) in omega (arith, live.0, off)

  pub moved-Live : p.links last ≢ x → (y : ℕ) → x ≢ y → Live p y → Live moved y
  moved-Live ne y other ly = elim (Bool-cases (p.links last == y)) [
    | inl e ↦
        let at = (==_iff (p.links last) y).0 e in
        let below = hole_below ne in
        let e1 : (hole == last) ≡ false = ground arith in
        let e2 : (hole == hole) ≡ true = ground arith in
        let there : moved.links hole ≡ p.links last = rw (e1, e2) in
        Live-at moved y hole
          (subst (λ z. (moved.items z).index ≡ hole) at
            (ap (λ v. v.index) (update_self q.items (p.links last) (with_index hole))))
          below (there ∙ at)
    | inr e ↦
        let off = ne_of_test (p.links last) y e in
        let j = (p.items y).index in
        let below : j < last =
          let not_last : j ≢ last = λ s. off (ap p.links (sym s) ∙ ly.1) in
          omega (arith, ly.0, not_last) in
        let not_hole : j ≢ hole = λ s. other (sym live.1 ∙ ap p.links (sym s) ∙ ly.1) in
        let e1 : (j == last) ≡ false = ground arith in
        let e2 : (j == hole) ≡ false = ground arith in
        let there : moved.links j ≡ p.links j = rw (e1, e2) in
        Live-at moved y j
          (ap (λ v. v.index) (update-other q.items (p.links last) y (with_index hole) off)
            ∙ c.index y)
          below (there ∙ ly.1)
  ]

  pub drop_last-Live :
      p.links last ≡ x → (y : ℕ) → x ≢ y → Live p y → Live (record q { count = last }) y
  drop_last-Live e y other ly =
      let j = (p.items y).index in
      let not_last : j ≢ last = λ s. other (sym e ∙ ap p.links (sym s) ∙ ly.1) in
      let there : q.links j ≡ p.links j = ap (λ l. l j) c.links in
      Live-at (record q { count = last }) y j (c.index y) (omega (arith, ly.0, not_last))
        (there ∙ ly.1)

  slot-Live : (i : ℕ) → i < p.count → Live p (p.links i)
  slot-Live i le = (omega (arith, h.slot i le), ap p.links (h.slot i le))

  pub moved_back : (y : ℕ) → Live moved y → Live p y
  moved_back y ly = elim (moved_used (moved.items y).index ly.0) [
    | inl (at, e) ↦ subst (Live p) (sym e ∙ ly.1) (slot-Live last last_used)
    | inr (off, other, e) ↦
        subst (Live p) (sym e ∙ ly.1) (slot-Live (moved.items y).index (omega (arith, ly.0)))
  ]

  pub drop_last_back : (y : ℕ) → Live (record q { count = last }) y → Live p y
  drop_last_back y ly =
      subst (Live p) (ap (λ l. l (q.items y).index) (sym c.links) ∙ ly.1)
        (slot-Live (q.items y).index (omega (arith, ly.0)))
