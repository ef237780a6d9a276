-- ===== src/ByeDpi/Conev/Events/Destroy.antt =====
-- Deleting all events.
use mathlib.Core.Path.{subst}
use zon_dpi.Prelude.{
  ℕ, zero, suc, ◌==◌, ==_iff, ◌≡◌, ◌≢◌, ◌<◌, ◌⊎◌, refl, sym, ap, ◌∙◌, Bool-cases, inl, inr, Option,
  none, some, arith,
}
use zon_dpi.ByeDpi.Conev.{Items, Pool}
use zon_dpi.ByeDpi.Conev.Buffers.{IsBounded}
use zon_dpi.ByeDpi.Conev.Events.{init_pool, del_event, destroy_pool}
use zon_dpi.ByeDpi.Conev.Events.Places.{IsPool, Live}
use zon_dpi.ByeDpi.Conev.Events.Delete.{Released, dead, del_event-alone, del_event-pair}

-- Every event in use has no pair, or another event in use that has it for its pair.
abbrev pub IsPaired : Pool → Type 0
IsPaired p =
    (y : ℕ)
    → Live p y
    → ((p.items y).pair ≡ none)
      ⊎ ((e : ℕ) × ((p.items y).pair ≡ some e) × Live p e × (y ≢ e) × ((p.items e).pair ≡ some y))

no_self : (o : Option ℕ) (e : ℕ) → o ≡ none → o ≡ some e → ⊥
no_self o e a b = cc

some-inj : (o : Option ℕ) (a b : ℕ) → o ≡ some a → o ≡ some b → a ≡ b
some-inj o a b h k = cc

alone-IsPaired :
    (p d : Pool) (x : ℕ) → IsPaired p → Released p d x → (p.items x).pair ≡ none → IsPaired d
alone-IsPaired p d x h r single y ly = elim (h y (r.back y ly)) [
  | inl none_ ↦ inl (r.pair y ∙ none_)
  | inr (e, ye, le, ne, ey) ↦
      let nxe : x ≢ e =
        λ s. no_self (p.items x).pair y single (ap (λ z. (p.items z).pair) s ∙ ey) in
      inr (e, r.pair y ∙ ye, r.live e nxe le, ne, r.pair e ∙ ey)
]

-- A new pool is in order, its pairs are symmetric and its free buffers bounded, whatever the memory
-- held, and no event is in use.
pub init_pool-IsPool :
    (count : ℕ) (memory : Items)
    → IsPool (init_pool count memory)
      × IsPaired (init_pool count memory)
      × IsBounded (init_pool count memory)
      × ((x : ℕ) → ¬ Live (init_pool count memory) x)
unfolding init_pool
init_pool-IsPool count memory = (
  record {
    fits = omega arith;
    apart = λ i j le lt e. e;
    slot = λ i le. absurd (omega arith);
    open_ = λ i le. absurd (omega arith);
  },
  λ y live. absurd (omega (arith, live.0)),
  (refl, omega arith),
  λ x live. absurd (omega (arith, live.0)),
)

-- Deleting any event in use of a pool in order ends, keeps the pool in order and its pairs
-- symmetric, and leaves fewer events.
pub del_event-IsPaired :
    (fuel x : ℕ) (p : Pool)
    → IsPool p
    → IsPaired p
    → Live p x
    → (d : Pool) × (del_event (suc (suc fuel)) x p ≡ some d)
      × IsPool d
      × IsPaired d
      × (d.count < p.count)
      × (¬ Live d x)
del_event-IsPaired fuel x p h pairs live = elim (pairs x live) [
  | inl single ↦
      let (d, run, r) = del_event-alone (suc fuel) x p h live single in
      (
        d,
        run,
        r.pool,
        alone-IsPaired p d x pairs r single,
        omega (arith, r.count),
        dead d x r.pool r.shut,
      )
  | inr (e, xe, le, ne, ex) ↦
      let (d, run, pool, count, closed, others, back, kept, gone_x, gone_e) =
        del_event-pair fuel x e p h live le ne xe ex in
      (
        d,
        run,
        pool,
        λ y ly.
            let nx : x ≢ y = λ s. gone_x (subst (Live d) (sym s) ly) in
            let ny : e ≢ y = λ s. gone_e (subst (Live d) (sym s) ly) in
            elim (pairs y (back y ly)) [
              | inl none_ ↦ inl (kept y nx ny ∙ none_)
              | inr (z, yz, lz, nyz, zy) ↦
                  let nxz : x ≢ z = λ s.
                    ny (some-inj (p.items x).pair e y xe (ap (λ v. (p.items v).pair) s ∙ zy)) in
                  let nez : e ≢ z = λ s.
                    nx (some-inj (p.items e).pair x y ex (ap (λ v. (p.items v).pair) s ∙ zy)) in
                  inr (z, kept y nx ny ∙ yz, others z nxz nez lz, nyz, kept z nxz nez ∙ zy)
            ],
        omega (arith, count),
        gone_x,
      )
]

-- `destroy_pool` of a pool in order ends with no event in use, with as many rounds as there are
-- events and one, and two calls of `del_event` in each other.
pub destroy_pool-empties :
    (fuel depth : ℕ) (p : Pool)
    → IsPool p
    → IsPaired p
    → p.count < fuel
    → (d : Pool) × (destroy_pool fuel (suc (suc depth)) p ≡ some d) × (d.count ≡ 0)
unfolding destroy_pool
destroy_pool-empties zero depth p h pairs le = absurd (omega arith)
destroy_pool-empties (suc fuel) depth p h pairs le = elim (Bool-cases (p.count == 0)) [
  | inl e ↦ (p, rw e, (==_iff p.count 0).0 e)
  | inr e ↦
      let some_left : 0 < p.count = ground arith in
      let live : Live p (p.links 0) =
        (omega (arith, h.slot 0 some_left), ap p.links (h.slot 0 some_left)) in
      let (d, run, pool, pairs', fewer, gone) =
        del_event-IsPaired depth (p.links 0) p h pairs live in
      let (d', run', none_left) =
        destroy_pool-empties fuel depth d pool pairs' (omega (arith, fewer)) in
      (d', rw (e, run) run', none_left)
]
