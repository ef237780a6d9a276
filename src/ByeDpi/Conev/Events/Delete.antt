-- ===== src/ByeDpi/Conev/Events/Delete.antt =====
-- What `del_event` does to the places in use.
use zon_dpi.Prelude.{
  ℕ, suc, ◌+◌, ◌==◌, ◌≡◌, ◌≢◌, refl, sym, ap, ◌∙◌, true, false, Bool-cases, inl, inr, none, some,
  ◌∷◌, arith,
}
use zon_dpi.Prelude.Int.{negsuc}
use zon_dpi.ByeDpi.Conev.{Eval, Items, Pool, update, same}
use zon_dpi.ByeDpi.Conev.Timers.Chain.{update_self, update-other}
use zon_dpi.ByeDpi.Conev.Events.{
  with_index, is_closed, close_event, drop_slot, unpair, alone, del_event,
}
use zon_dpi.ByeDpi.Conev.Events.Places.{IsPool, Live}
use zon_dpi.ByeDpi.Conev.Events.Release.{
  update-keeps, close_event-Closed, last, hole, drop_last, moved-IsPool, drop_slot_lem, moved-Live,
  drop_last-Live, moved_back, drop_last_back,
}

-- What `del_event` leaves behind when it has closed `x`.
pub record Released (p d : Pool) (x : ℕ) : Type 0 where
  pub pool : IsPool d
  pub count : d.count + 1 ≡ p.count
  pub live : (y : ℕ) → x ≢ y → Live p y → Live d y
  pub back : (y : ℕ) → Live d y → Live p y
  pub pair : (y : ℕ) → (d.items y).pair ≡ (p.items y).pair
  pub fd : (y : ℕ) → x ≢ y → (d.items y).fd ≡ (p.items y).fd
  pub shut : (d.items x).fd ≡ negsuc 0
  pub closed : d.closed ≡ (p.items x).fd ∷ p.closed

release : (p : Pool) (x : ℕ) → IsPool p → Live p x → Released p (drop_slot x (close_event x p)) x
release p x h live =
    let q = close_event x p in
    let c = close_event-Closed x p in
    elim (drop_slot_lem p q x h live c) [
      | inl (at, e) ↦ rw e (record {
        pool = drop_last p q x h live c at;
        count = omega (arith, live.0);
        live = drop_last-Live p q x h live c at;
        back = drop_last_back p q x h live c;
        pair = c.pair;
        fd = c.fd;
        shut = c.shut;
        closed = c.closed;
      })
      | inr (ne, e) ↦ rw e (record {
        pool = moved-IsPool p q x h live c ne;
        count = omega (arith, live.0);
        live = moved-Live p q x h live c ne;
        back = moved_back p q x h live c;
        pair = λ y.
            update-keeps (λ v. v.pair) q.items (p.links (last p q x h live c))
              (with_index (hole p q x h live c)) y (λ v. refl)
            ∙ c.pair y;
        fd = λ y other.
            update-keeps (λ v. v.fd) q.items (p.links (last p q x h live c))
              (with_index (hole p q x h live c)) y (λ v. refl)
            ∙ c.fd y other;
        shut =
            update-keeps (λ v. v.fd) q.items (p.links (last p q x h live c))
              (with_index (hole p q x h live c)) x (λ v. refl)
            ∙ c.shut;
        closed = c.closed;
      })
    ]

Live-open : (p : Pool) (x : ℕ) → IsPool p → Live p x → is_closed (p.items x).fd ≡ false
Live-open p x h live =
    ap (λ y. is_closed (p.items y).fd) (sym live.1) ∙ h.open_ (p.items x).index live.0

-- A pool whose places keep their numbers and descriptors.
regarded :
    (p : Pool) (it : Items)
    → ((y : ℕ) → (it y).index ≡ (p.items y).index)
    → ((y : ℕ) → (it y).fd ≡ (p.items y).fd)
    → IsPool p
    → IsPool (record p { items = it })
regarded p it index fd h = record {
  fits = h.fits;
  apart = h.apart;
  slot = λ i le. index (p.links i) ∙ h.slot i le;
  open_ = λ i le. ap is_closed (fd (p.links i)) ∙ h.open_ i le;
}

-- What `unpair` leaves of a place.
unpair-keeps {ℓ} :
    {A : Type ℓ} (f : Eval → A) (x e : ℕ) (p : Pool) (y : ℕ)
    → ((v : Eval) → f (alone v) ≡ f v)
    → f ((unpair x e p).items y) ≡ f (p.items y)
unfolding unpair
unpair-keeps f x e p y h = elim (Bool-cases (same (p.items e).pair (some x))) [
  | inl back ↦
      rw back
        (update-keeps f (update p.items e alone) x alone y h ∙ update-keeps f p.items e alone y h)
  | inr away ↦ rw away (update-keeps f p.items x alone y h)
]

same_place : (x : ℕ) → (x == x) ≡ true
same_place x = ground arith

alone_after : (it : Items) (x e : ℕ) → (it e).pair ≡ none → (update it x alone e).pair ≡ none
alone_after it x e h = elim (Bool-cases (x == e)) [ inl s ↦ rw s | inr s ↦ rw s h ]

unpair_both :
    (x e : ℕ) (p : Pool) → (p.items e).pair ≡ some x → ((unpair x e p).items e).pair ≡ none
unfolding unpair
unpair_both x e p back =
    let s : same (p.items e).pair (some x) ≡ true = rw back (same_place x) in
    rw s (alone_after (update p.items e alone) x e (ap (λ v. v.pair) (update_self p.items e alone)))

-- Deleting an event with no pair closes its descriptor, and only that one, takes its place out of
-- use, and leaves the other events and the order of the pool as they were.
pub del_event-alone :
    (fuel x : ℕ) (p : Pool)
    → IsPool p
    → Live p x
    → (p.items x).pair ≡ none
    → (d : Pool) × (del_event (suc fuel) x p ≡ some d) × Released p d x
unfolding del_event
del_event-alone fuel x p h live single =
    let r = release p x h live in
    (drop_slot x (close_event x p), rw (Live-open p x h live, r.pair x, single), r)

del_event-step :
    (fuel x e : ℕ) (p : Pool)
    → is_closed (p.items x).fd ≡ false
    → ((drop_slot x (close_event x p)).items x).pair ≡ some e
    → del_event (suc fuel) x p ≡ del_event fuel e (unpair x e (drop_slot x (close_event x p)))
unfolding del_event
del_event-step fuel x e p still pair = rw (still, pair)

unpair-other :
    (x e : ℕ) (p : Pool) (y : ℕ) → x ≢ y → e ≢ y → ((unpair x e p).items y).pair ≡ (p.items y).pair
unfolding unpair
unpair-other x e p y nx ny = elim (Bool-cases (same (p.items e).pair (some x))) [
  | inl back ↦ rw back (
      ap (λ v. v.pair)
        (update-other (update p.items e alone) x y alone nx ∙ update-other p.items e y alone ny))
  | inr away ↦ rw away (ap (λ v. v.pair) (update-other p.items x y alone nx))
]

unpair-IsPool : (x e : ℕ) (p : Pool) → IsPool p → IsPool (unpair x e p)
unfolding unpair
unpair-IsPool x e p h =
    regarded p (unpair x e p).items (λ y. unpair-keeps (λ v. v.index) x e p y (λ v. refl))
      (λ y. unpair-keeps (λ v. v.fd) x e p y (λ v. refl)) h

unpair-Live : (x e : ℕ) (p : Pool) (y : ℕ) → Live p y → Live (unpair x e p) y
unfolding unpair
unpair-Live x e p y live =
    let at = unpair-keeps (λ v. v.index) x e p y (λ v. refl) in
    (omega (arith, at, live.0), ap p.links at ∙ live.1)

unpair-Live_back : (x e : ℕ) (p : Pool) (y : ℕ) → Live (unpair x e p) y → Live p y
unfolding unpair
unpair-Live_back x e p y live =
    let at = unpair-keeps (λ v. v.index) x e p y (λ v. refl) in
    (omega (arith, at, live.0), ap p.links (sym at) ∙ live.1)

-- An event whose descriptor is -1 is in no place in use.
pub dead : (p : Pool) (x : ℕ) → IsPool p → (p.items x).fd ≡ negsuc 0 → ¬ Live p x
unfolding is_closed
dead p x h shut live =
    let still = Live-open p x h live in
    let gone : is_closed (p.items x).fd ≡ true = ap is_closed shut in cc

unpair-closed :
    (x e : ℕ) (p : Pool) → ((unpair x e p).closed ≡ p.closed) × ((unpair x e p).count ≡ p.count)
unfolding unpair
unpair-closed x e p = (refl, refl)

-- Deleting an event closes its pair as well, where the two are each other's pair: both
-- descriptors are closed, once each, both places go out of use, the pool stays in order, and
-- exactly the other events stay in use, with the pairs they had. Two calls are deep enough.
pub del_event-pair :
    (fuel x e : ℕ) (p : Pool)
    → IsPool p
    → Live p x
    → Live p e
    → x ≢ e
    → (p.items x).pair ≡ some e
    → (p.items e).pair ≡ some x
    → (d : Pool) × (del_event (suc (suc fuel)) x p ≡ some d)
      × IsPool d
      × (d.count + 2 ≡ p.count)
      × (d.closed ≡ (p.items e).fd ∷ (p.items x).fd ∷ p.closed)
      × ((y : ℕ) → x ≢ y → e ≢ y → Live p y → Live d y)
      × ((y : ℕ) → Live d y → Live p y)
      × ((y : ℕ) → x ≢ y → e ≢ y → (d.items y).pair ≡ (p.items y).pair)
      × (¬ Live d x)
      × (¬ Live d e)
del_event-pair fuel x e p h lx le ne px pe =
    let d = drop_slot x (close_event x p) in
    let r = release p x h lx in
    let u = unpair x e d in
    let fd_of = λ (y : ℕ). unpair-keeps (λ v. v.fd) x e d y (λ v. refl) in
    let (c0, n0) = unpair-closed x e d in
    let (d2, run, r2) =
      del_event-alone fuel e u (unpair-IsPool x e d r.pool) (unpair-Live x e d e (r.live e ne le))
        (unpair_both x e d (r.pair e ∙ pe)) in
    (
      d2,
      del_event-step (suc fuel) x e p (Live-open p x h lx) (r.pair x ∙ px) ∙ run,
      r2.pool,
      omega (arith, r.count, r2.count, n0),
      r2.closed ∙ rw (fd_of e, r.fd e ne, c0, r.closed),
      λ y nx ny ly. r2.live y ny (unpair-Live x e d y (r.live y nx ly)),
      λ y ly. r.back y (unpair-Live_back x e d y (r2.back y ly)),
      λ y nx ny. r2.pair y ∙ unpair-other x e d y nx ny ∙ r.pair y,
      dead d2 x r2.pool (r2.fd x (λ s. ne (sym s)) ∙ fd_of x ∙ r.shut),
      dead d2 e r2.pool r2.shut,
    )
