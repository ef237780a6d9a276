-- ===== src/ByeDpi/Conev/Events/Places.antt =====
-- The places in use and the free ones, and giving one out.
use zon_dpi.Prelude.{
  ℕ, ◌+◌, ◌==◌, ==_iff, ◌≡◌, ◌≤◌, ◌<◌, ◌⊎◌, refl, sym, ap, ◌∙◌, false, Bool-cases, inl, inr, leb,
  leb→le, none, some, arith,
}
use zon_dpi.Prelude.Int.{pos}
use zon_dpi.ByeDpi.Conev.{Eval, Pool, update}
use zon_dpi.ByeDpi.Conev.Timers.Chain.{update_self, update-other}
use zon_dpi.ByeDpi.Conev.Events.{blank, add_event, is_closed}

-- What is in use: the first `count` links, each to its own place, which knows its number and is
-- open.
pub record IsPool (p : Pool) : Type 0 where
  pub fits : p.count ≤ p.max
  pub apart : (i j : ℕ) → i < p.max → j < p.max → p.links i ≡ p.links j → i ≡ j
  pub slot : (i : ℕ) → i < p.count → (p.items (p.links i)).index ≡ i
  pub open_ : (i : ℕ) → i < p.count → is_closed (p.items (p.links i)).fd ≡ false

-- A place in use.
abbrev pub Live : Pool → ℕ → Type 0
Live p x = ((p.items x).index < p.count) × (p.links (p.items x).index ≡ x)

-- The `eval` that `add_event` makes.
abbrev made : Pool → ℕ → ℕ → Eval
made p cb fd = record blank { mod_iter = p.iters; fd = pos fd; index = p.count; cb = cb }

abbrev added : Pool → ℕ → ℕ → Pool
added p cb fd = record p {
  items = update p.items (p.links p.count) (λ e. made p cb fd);
  count = p.count + 1;
}

added-item :
    (p : Pool) (cb fd i : ℕ)
    → IsPool p
    → p.count < p.max
    → i < p.count + 1
    → ((i ≡ p.count) × ((added p cb fd).items (p.links i) ≡ made p cb fd))
      ⊎ ((i < p.count) × ((added p cb fd).items (p.links i) ≡ p.items (p.links i)))
added-item p cb fd i h room le = elim (Bool-cases (i == p.count)) [
  | inl e ↦
      let same_slot = (==_iff i p.count).0 e in
      inl (
        same_slot,
        rw (ap p.links same_slot) (update_self p.items (p.links p.count) (λ e. made p cb fd)),
      )
  | inr e ↦
      let less : i < p.count = ground arith in
      inr (
        less,
        update-other p.items (p.links p.count) (p.links i) (λ e. made p cb fd)
            (λ q. let r = h.apart p.count i room (omega (arith, h.fits)) q in omega arith),
      )
]

added-IsPool : (p : Pool) (cb fd : ℕ) → IsPool p → p.count < p.max → IsPool (added p cb fd)
unfolding is_closed
added-IsPool p cb fd h room = record {
  fits = omega arith;
  apart = h.apart;
  slot = λ i le. elim (added-item p cb fd i h room le) [
    | inl (at, e) ↦ ap (λ v. v.index) e ∙ sym at
    | inr (less, e) ↦ ap (λ v. v.index) e ∙ h.slot i less
  ];
  open_ = λ i le. elim (added-item p cb fd i h room le) [
    | inl (at, e) ↦ ap (λ v. is_closed v.fd) e
    | inr (less, e) ↦ ap (λ v. is_closed v.fd) e ∙ h.open_ i less
  ];
}

-- `add_event` on a pool that is not full gives out a place that was not in use, counts it, and
-- keeps the pool in order; a full pool stays as it is.
pub add_event-IsPool :
    (p : Pool) (cb fd : ℕ)
    → IsPool p
    → ((p.count ≡ p.max) × (add_event p cb fd ≡ (none, p)))
      ⊎ ((x : ℕ) × (p' : Pool) × (add_event p cb fd ≡ (some x, p'))
          × IsPool p'
          × Live p' x
          × (¬ Live p x)
          × (p'.count ≡ p.count + 1))
unfolding add_event
add_event-IsPool p cb fd h = elim (Bool-cases (leb p.max p.count)) [
  | inl full ↦ inl (omega (arith, h.fits, leb→le p.max p.count full), rw full)
  | inr free ↦
      let room : p.count < p.max = ground arith in
      let e = update_self p.items (p.links p.count) (λ e. made p cb fd) in
      let at = ap (λ v. v.index) e in
      inr (
        p.links p.count,
        added p cb fd,
        rw free,
        added-IsPool p cb fd h room,
        (omega (arith, at), ap p.links at),
        (λ live.
            let r =
              h.apart (p.items (p.links p.count)).index p.count (omega (arith, live.0, h.fits)) room
                live.1 in
            omega (arith, live.0)),
        refl,
      )
]
