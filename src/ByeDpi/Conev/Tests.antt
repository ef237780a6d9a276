-- ===== src/ByeDpi/Conev/Tests.antt =====
-- Examples of the event loop: a client and a server, each other's pair, with a timer each.
use zon_dpi.Prelude.{
  ℕ, zero, suc, ◌+◌, ◌≡◌, ◌≢◌, ◌≤◌, ◌⊎◌, refl, inl, inr, none, some, [], ◌∷◌, arith, false,
}
use zon_dpi.Prelude.Int.{ℤ, pos, negsuc}
use zon_dpi.ByeDpi.Conev.{Eval, Pool}
use zon_dpi.ByeDpi.Conev.Timers.{set_timer, remove_timer}
use zon_dpi.ByeDpi.Conev.Timers.Order.{Fresh, insert_by, remove}
use zon_dpi.ByeDpi.Conev.Timers.Queue.{IsQueue, deadline, set_timer-insert_by}
use zon_dpi.ByeDpi.Conev.Timers.Remove.{remove_timer-remove}
use zon_dpi.ByeDpi.Conev.Buffers.{IsBounded}
use zon_dpi.ByeDpi.Conev.Events.{blank, is_closed, add_event, del_event, destroy_pool}
use zon_dpi.ByeDpi.Conev.Events.Places.{IsPool, Live, add_event-IsPool}
use zon_dpi.ByeDpi.Conev.Events.Delete.{del_event-pair}
use zon_dpi.ByeDpi.Conev.Events.Destroy.{destroy_pool-empties}
use zon_dpi.ByeDpi.Conev.Wait.{Report, Waited, interrupted, ready, Next, next_event, next_event_tv}
use zon_dpi.ByeDpi.Conev.Wait.Rounds.{
  Handed, next_event-Handed, next_event_tv-due, next_event_tv-interrupted,
}

abbrev two_items : ℕ → Eval
two_items zero = record blank { fd = pos 5; pair = some 1; tv_ms = 10; tv_next = some 1 }
two_items (suc zero) = record blank {
  fd = pos 6;
  index = 1;
  pair = some 0;
  tv_ms = 20;
  tv_prev = some 0;
}
two_items (suc (suc n)) = record blank { fd = pos 7; index = suc (suc n) }

abbrev two_events : Pool
two_events = record {
  max = 4;
  count = 2;
  links = λ i. i;
  items = two_items;
  iters = 3;
  tv_start = some 0;
  tv_end = some 1;
  free_buffs = record { size = 16; offset = 2; lock = pos 0 } ∷ [];
  buff_count = 1;
  closed = [];
}

two_events-idle :
    (y : ℕ)
    → Fresh y (0 ∷ 1 ∷ [])
    → ((two_items y).tv_ms ≡ 0) × ((two_items y).tv_next ≡ none) × ((two_items y).tv_prev ≡ none)
two_events-idle zero n = absurd (n.0 refl)
two_events-idle (suc zero) n = absurd (n.1.0 refl)
two_events-idle (suc (suc y)) n = (refl, refl, refl)

two_events-IsQueue : IsQueue two_events (0 ∷ 1 ∷ [])
two_events-IsQueue = record {
  chain = (refl, refl, (refl, refl, (refl, refl)));
  distinct = ((λ e. absurd (omega (arith, e)), tt), (tt, tt));
  sorted = ((omega arith, tt), (tt, tt));
  armed = (omega arith, (omega arith, tt));
  idle = two_events-idle;
}

slot_of : (i : ℕ) → (two_items i).index ≡ i
slot_of zero = refl
slot_of (suc zero) = refl
slot_of (suc (suc n)) = refl

open_at : (i : ℕ) → is_closed (two_items i).fd ≡ false
unfolding is_closed
open_at zero = refl
open_at (suc zero) = refl
open_at (suc (suc n)) = refl

two_events-IsPool : IsPool two_events
two_events-IsPool = record {
  fits = omega arith;
  apart = λ i j le lt e. e;
  slot = λ i le. slot_of i;
  open_ = λ i le. open_at i;
}

first-Live : Live two_events 0
first-Live = (omega arith, refl)

second-Live : Live two_events 1
second-Live = (omega arith, refl)

ends_apart : (two_events.items 0).index ≢ 1
ends_apart e = absurd (omega arith)

ends_apart_back : (two_events.items 1).index ≢ 0
ends_apart_back e = absurd (omega arith)

pairs_of :
    (y : ℕ)
    → Live two_events y
    → ((two_items y).pair ≡ none)
      ⊎ ((e : ℕ) × ((two_items y).pair ≡ some e)
          × Live two_events e
          × (y ≢ e)
          × ((two_items e).pair ≡ some y))
pairs_of zero live = inr (1, refl, second-Live, ends_apart, refl)
pairs_of (suc zero) live = inr (0, refl, first-Live, ends_apart_back, refl)
pairs_of (suc (suc n)) live = inl refl

two_events-IsBounded : IsBounded two_events
two_events-IsBounded = (refl, omega arith)

changed_before : (y : ℕ) → (two_items y).mod_iter ≤ 3
changed_before zero = omega arith
changed_before (suc zero) = omega arith
changed_before (suc (suc n)) = omega arith

abbrev signal : ℕ → ℤ → Waited
signal round ms = interrupted

abbrev one_report : ℕ → Report
one_report i = record { place = 1; events = 4 }

abbrev arrives : ℕ → ℤ → Waited
arrives round ms = ready 0 one_report

set_timer-insert_by_example :
    (p' : Pool) × (set_timer 3 5 2 10 two_events ≡ some p')
    × IsQueue p' (insert_by (deadline p'.items) 2 15 (0 ∷ 1 ∷ []))
    × (deadline p'.items 2 ≡ 15)
    × ((y : ℕ) → 2 ≢ y → deadline p'.items y ≡ deadline two_items y)
set_timer-insert_by_example =
    set_timer-insert_by 3 5 2 10 two_events (0 ∷ 1 ∷ []) two_events-IsQueue
      (λ e. absurd (omega (arith, e)), (λ e. absurd (omega (arith, e)), tt)) (omega arith)
      (omega arith)

remove_timer-remove_example : IsQueue (remove_timer 0 two_events) (remove 0 (0 ∷ 1 ∷ []))
remove_timer-remove_example = remove_timer-remove 0 two_events (0 ∷ 1 ∷ []) two_events-IsQueue

add_event-IsPool_example :
    ((two_events.count ≡ 4) × (add_event two_events 1 8 ≡ (none, two_events)))
    ⊎ ((x : ℕ) × (p' : Pool) × (add_event two_events 1 8 ≡ (some x, p'))
        × IsPool p'
        × Live p' x
        × (¬ Live two_events x)
        × (p'.count ≡ 3))
add_event-IsPool_example = add_event-IsPool two_events 1 8 two_events-IsPool

del_event-pair_example :
    (d : Pool) × (del_event 2 0 two_events ≡ some d)
    × IsPool d
    × (d.count + 2 ≡ 2)
    × (d.closed ≡ pos 6 ∷ pos 5 ∷ [])
    × ((y : ℕ) → 0 ≢ y → 1 ≢ y → Live two_events y → Live d y)
    × ((y : ℕ) → Live d y → Live two_events y)
    × ((y : ℕ) → 0 ≢ y → 1 ≢ y → (d.items y).pair ≡ (two_items y).pair)
    × (¬ Live d 0)
    × (¬ Live d 1)
del_event-pair_example =
    del_event-pair 0 0 1 two_events two_events-IsPool first-Live second-Live ends_apart refl refl

destroy_pool-empties_example : (d : Pool) × (destroy_pool 3 2 two_events ≡ some d) × (d.count ≡ 0)
destroy_pool-empties_example =
    destroy_pool-empties 3 0 two_events two_events-IsPool pairs_of (omega arith)

next_event_tv-due_example :
    (r : Next) × (next_event_tv 1 signal 12 two_events one_report 1 4 ≡ some r)
    × (r.val ≡ some 0)
    × (r.type ≡ 0)
    × (r.left ≡ 1)
    × IsQueue r.pool (1 ∷ [])
next_event_tv-due_example =
    next_event_tv-due 1 signal 12 two_events one_report 1 4 0 (1 ∷ []) two_events-IsQueue
      (omega arith)

next_event-Handed_example :
    Handed two_events (next_event 2 arrives two_events one_report 0 0 (negsuc 0))
next_event-Handed_example =
    next_event-Handed two_events changed_before 0 arrives one_report 0 0 (negsuc 0)

next_event_tv-interrupted_example :
    (r : Next) × (next_event_tv 1 signal 7 two_events one_report 0 0 ≡ some r)
    × (r.val ≡ some 0)
    × IsQueue r.pool (1 ∷ [])
next_event_tv-interrupted_example =
    next_event_tv-interrupted 0 signal 7 two_events one_report 0 0 (1 ∷ []) two_events-IsQueue
      (omega arith) refl
