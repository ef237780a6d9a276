-- ===== src/ByeDpi/Conev/Wait/Rounds.antt =====
-- The reports and timers that are handed out.
use mathlib.Core.Path.{subst}
use zon_dpi.Prelude.{
  ℕ, zero, suc, ◌+◌, ◌-◌, ◌==◌, ==_iff, ◌≡◌, ◌≢◌, ◌≤◌, ◌<◌, ◌⊎◌, refl, sym, ap, ◌∙◌, true, false,
  Bool-cases, inl, inr, ltb, Option, none, some, List, ◌∷◌, arith, if◌then◌else◌,
}
use zon_dpi.Prelude.Int.{ℤ, pos}
use zon_dpi.Bytes.Laws.{some_inv}
use zon_dpi.ByeDpi.Conev.{Pool}
use zon_dpi.ByeDpi.Conev.Timers.{remove_timer}
use zon_dpi.ByeDpi.Conev.Timers.Order.{remove, remove-Fresh}
use zon_dpi.ByeDpi.Conev.Timers.Queue.{IsQueue}
use zon_dpi.ByeDpi.Conev.Timers.Remove.{remove_timer-remove}
use zon_dpi.ByeDpi.Conev.Wait.{
  Report, waited, hand_out, Waited, interrupted, elapsed, ready, Next, scan, next_event,
  next_event_from, timed, next_event_tv,
}

without_first :
    (p : Pool) (x : ℕ) (xs : List ℕ) → IsQueue p (x ∷ xs) → IsQueue (remove_timer x p) xs
unfolding remove
without_first p x xs q =
    let same_place : (x == x) ≡ true = ground arith in
    subst (IsQueue (remove_timer x p)) (rw same_place (remove-Fresh x xs q.distinct.0))
      (remove_timer-remove x p (x ∷ xs) q)

-- A due timer is taken before any event: `next_event_tv` does not wait, returns the place whose
-- deadline is the earliest with the type of a timeout, and leaves the queue of the others.
pub next_event_tv-due :
    (fuel : ℕ) (wait : ℕ → ℤ → Waited) (now : ℕ) (p : Pool) (pevents : ℕ → Report) (left type x : ℕ)
    (xs : List ℕ)
    → IsQueue p (x ∷ xs)
    → (p.items x).tv_ms ≤ now
    → (r : Next) × (next_event_tv fuel wait now p pevents left type ≡ some r)
      × (r.val ≡ some x)
      × (r.type ≡ 0)
      × (r.left ≡ left)
      × IsQueue r.pool xs
unfolding next_event_tv
next_event_tv-due fuel wait now p pevents left type x xs q due =
    let late : ltb now (p.items x).tv_ms ≡ false = ground arith in
    let none_yet : Next = record {
      val = none;
      type = 0;
      left = left;
      pevents = pevents;
      pool = p;
    } in
    let r : Next = record {
      val = some x;
      type = 0;
      left = left;
      pevents = pevents;
      pool = remove_timer x p;
    } in
    (
      r,
      ap (λ s. next_event_from s fuel wait now p pevents left type) q.chain.0
          ∙ rw late (ap (λ s. some (timed none s none_yet)) q.chain.0),
      refl,
      refl,
      refl,
      without_first p x xs q,
    )

until_suc : (A : ℕ → Type 0) (i : ℕ) → ((j : ℕ) → j < i → A j) → A i → (j : ℕ) → j < suc i → A j
until_suc A i below here j lt = elim (Bool-cases (j == i)) [
  | inl e ↦ subst A (sym ((==_iff j i).0 e)) here
  | inr e ↦ below j (ground arith)
]

-- `scan`
scan_lem :
    (p : Pool) (pevents : ℕ → Report) (left : ℕ)
    → ((scan p pevents left ≡ none)
        × ((j : ℕ) → j < left → (p.items (pevents j).place).mod_iter ≡ p.iters))
      ⊎ ((i : ℕ) × (scan p pevents left ≡ some (pevents i, i))
          × (i < left)
          × ((p.items (pevents i).place).mod_iter ≢ p.iters)
          × ((j : ℕ) → i < j → j < left → (p.items (pevents j).place).mod_iter ≡ p.iters))
unfolding scan
scan_lem p pevents zero = inl (refl, λ j le. absurd (omega arith))
scan_lem p pevents (suc i) =
    let changed = (p.items (pevents i).place).mod_iter == p.iters in
    elim (Bool-cases changed) [
      | inr e ↦ inr (i, rw e, omega arith, ground arith, λ j lt lt'. absurd (omega arith))
      | inl e ↦ elim (scan_lem p pevents i) [
        | inl (none_left, all) ↦ inl (
          rw e none_left,
          until_suc (λ j. (p.items (pevents j).place).mod_iter ≡ p.iters) i all
              ((==_iff (p.items (pevents i).place).mod_iter p.iters).0 e),
        )
        | inr (k, found, lt, live, all) ↦ inr (
          k,
          rw e found,
          omega arith,
          live,
          λ j above lt'.
              until_suc (λ j. k < j → (p.items (pevents j).place).mod_iter ≡ p.iters) i
                (λ j lt above. all j above lt)
                (λ above. (==_iff (p.items (pevents i).place).mod_iter p.iters).0 e) j lt' above,
        )
      ]
    ]

abbrev pub Handed : Pool → Option Next → Type 0
Handed p o =
    (r : Next) × (o ≡ some r)
    × ((x : ℕ) → r.val ≡ some x → (r.pool.items x).mod_iter ≢ r.pool.iters)
    × (r.pool.items ≡ p.items)

none_val : {A : Type 0} (x : ℕ) → none ≡ some x → A
none_val x e = absurd (grind arith)

-- A report of a place that is unchanged is handed out.
hand_out-Handed :
    (p q : Pool) (pevents : ℕ → Report) (found : Option (Report × ℕ)) (i : ℕ)
    (otherwise : Option Next)
    → found ≡ some (pevents i, i)
    → (q.items (pevents i).place).mod_iter ≢ q.iters
    → q.items ≡ p.items
    → Handed p (hand_out q pevents found otherwise)
hand_out-Handed p q pevents found i otherwise e live kept = (
  record {
    val = some (pevents i).place;
    type = (pevents i).events;
    left = i;
    pevents = pevents;
    pool = q;
  },
  ap (λ o. hand_out q pevents o otherwise) e,
  λ x same_place.
      subst (λ y. (q.items y).mod_iter ≢ q.iters) (some_inv (pevents i).place x same_place) live,
  kept,
)

module _ (p : Pool) (bounded : (y : ℕ) → (p.items y).mod_iter ≤ p.iters) where
  -- The turn after `epoll_wait`.
  waited-Handed :
      (fuel : ℕ) (wait : ℕ → ℤ → Waited) (pevents : ℕ → Report) (type : ℕ) (ms : ℤ) (w : Waited)
      → Handed p (
          waited p pevents type w λ n reports.
            next_event (suc fuel) wait (record p { iters = p.iters + 1 }) reports (suc n) type ms)
  unfolding next_event
  waited-Handed fuel wait pevents type ms interrupted = (_, refl, λ x e. none_val x e, refl)
  waited-Handed fuel wait pevents type ms elapsed = (_, refl, λ x e. none_val x e, refl)
  waited-Handed fuel wait pevents type ms (ready n reports) =
      let next : Pool = record p { iters = p.iters + 1 } in
      elim (scan_lem next reports (suc n)) [
        | inl (all_changed, all) ↦
            absurd (omega (arith, all n (omega arith), bounded (reports n).place))
        | inr (k, found, lt, live, all) ↦ hand_out-Handed p next reports _ k _ found live refl
      ]

  -- When no place is marked for a round to come, two turns of the loop of `next_event` are enough:
  -- it returns, and an event it returns is of a place that has not been closed or added in the
  -- round of the report. The places stay as they are.
  pub next_event-Handed :
      (fuel : ℕ) (wait : ℕ → ℤ → Waited) (pevents : ℕ → Report) (left type : ℕ) (ms : ℤ)
      → Handed p (next_event (suc (suc fuel)) wait p pevents left type ms)
  unfolding next_event
  next_event-Handed fuel wait pevents left type ms = elim (scan_lem p pevents left) [
    | inl (none_left, all) ↦
        rw none_left (waited-Handed fuel wait pevents type ms (wait p.iters ms))
    | inr (k, found, lt, live, all) ↦ hand_out-Handed p p pevents _ k _ found live refl
  ]

-- A wait that a signal interrupts before the first deadline, with no report left: the timer of the
-- first place is taken, before it is due, when the type of the event before was a timeout, and
-- otherwise nothing is returned.
pub next_event_tv-interrupted :
    (fuel : ℕ) (wait : ℕ → ℤ → Waited) (now : ℕ) (p : Pool) (pevents : ℕ → Report) (type x : ℕ)
    (xs : List ℕ)
    → IsQueue p (x ∷ xs)
    → now < (p.items x).tv_ms
    → wait p.iters (pos ((p.items x).tv_ms - now)) ≡ interrupted
    → (r : Next) × (next_event_tv (suc fuel) wait now p pevents 0 type ≡ some r)
      × (r.val ≡ (if type == 0 then some x else none))
      × IsQueue r.pool (if type == 0 then xs else x ∷ xs)
unfolding next_event_tv next_event scan
next_event_tv-interrupted fuel wait now p pevents type x xs q early signal =
    let early : ltb now (p.items x).tv_ms ≡ true = ground arith in
    let stays : Next = record { val = none; type = type; left = 0; pevents = pevents; pool = p } in
    let computed : next_event_tv (suc fuel) wait now p pevents 0 type
        ≡ some (timed none (some x) stays) =
      ap (λ s. next_event_from s (suc fuel) wait now p pevents 0 type) q.chain.0
      ∙ rw (early, signal) (ap (λ s. some (timed none s stays)) q.chain.0) in
    elim (Bool-cases (type == 0)) [
      | inl e ↦ (
        record stays { val = some x; pool = remove_timer x p },
        computed ∙ rw e refl,
        rw e refl,
        rw e (without_first p x xs q),
      )
      | inr e ↦ (stays, computed ∙ rw e refl, rw e refl, rw e q)
    ]
