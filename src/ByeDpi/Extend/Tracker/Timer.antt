-- ===== src/ByeDpi/Extend/Tracker/Timer.antt =====
-- What following a chunk does to the timers of the event loop.
use zon_dpi.Prelude.{
  ℕ, ◌+◌, ◌*◌, ◌==◌, not, ◌&&◌, ◌≡◌, ◌≤◌, ◌<◌, ◌⊎◌, refl, ap, ◌∙◌, ltb, false, Bool-cases, inl, inr,
  Option, none, some, List, [], ◌∷◌, length, arith, if◌then◌else◌,
}
use zon_dpi.Prelude.Int.{pos}
use zon_dpi.ByeDpi.Conev.{Pool}
use zon_dpi.ByeDpi.Conev.Timers.{remove_timer}
use zon_dpi.ByeDpi.Conev.Timers.Order.{Fresh, remove, insert_by}
use zon_dpi.ByeDpi.Conev.Timers.Queue.{IsQueue, deadline, set_timer-insert_by}
use zon_dpi.ByeDpi.Conev.Timers.Remove.{remove_timer-remove}
use zon_dpi.ByeDpi.Extend.Tracker.{
  Track, Tracked, broken, followed, Timed, restart_timer, try_set_tls_timer,
}
use zon_dpi.ByeDpi.Extend.Tracker.Steps.{seen, steps, track-steps}

remove-Fresh_self : (x : ℕ) (xs : List ℕ) → Fresh x (remove x xs)
unfolding remove
remove-Fresh_self x [] = tt
remove-Fresh_self x (y ∷ ys) = ground (arith, remove-Fresh_self x ys)

length-remove : (x : ℕ) (xs : List ℕ) → length (remove x xs) ≤ length xs
unfolding remove
length-remove x [] = omega arith
length-remove x (y ∷ ys) = ground (arith, length-remove x ys)

-- The timers behind a chunk that ends at `s`, if `xs` were set before.
abbrev pub timers_after : Pool → ℕ → ℕ → Track → List ℕ → List ℕ
timers_after p x late s xs =
    if s.at == s.size then remove x xs else insert_by (deadline p.items) x late (remove x xs)

restart_timer-IsQueue :
    (fuel now x ptimeout : ℕ) (s : Track) (p : Pool) (xs : List ℕ)
    → IsQueue p xs
    → 0 < ptimeout
    → length xs < fuel
    → (r : Timed) × (restart_timer fuel now x ptimeout s p ≡ some r)
      × (r.ret ≡ pos 0)
      × (r.rec_left ≡ s)
      × IsQueue r.pool (timers_after r.pool x (now + ptimeout) s xs)
unfolding restart_timer
restart_timer-IsQueue fuel now x ptimeout s p xs q on enough =
    let off : (ptimeout == 0) ≡ false = ground arith in
    let removed = remove_timer-remove x p xs q in
    elim (Bool-cases (s.at == s.size)) [
      | inl whole ↦ (
        record { ret = pos 0; rec_left = s; pool = remove_timer x p },
        rw (off, whole) refl,
        refl,
        refl,
        rw whole removed,
      )
      | inr part ↦
          let (p', run, q', late, rest) =
            set_timer-insert_by fuel now x ptimeout (remove_timer x p) (remove x xs) removed
              (remove-Fresh_self x xs) (omega arith) (omega (arith, length-remove x xs)) in
          (
            record { ret = pos 0; rec_left = s; pool = p' },
            rw (off, part, run) refl,
            refl,
            refl,
            rw part q',
          )
    ]

run_of : Track → Option Track → Tracked
run_of t none = broken t
run_of t (some s) = followed s

seen_followed : (o : Tracked) (s : Track) → seen o ≡ some s → o ≡ followed s
unfolding run_of
seen_followed (broken t) s e = absurd (grind arith)
seen_followed (followed t) s e = ap (run_of t) e

-- A chunk that is followed, with the limit on bytes off or not reached, restarts the timer of the
-- connection: inside a record the timer is set again, from now on and once, and at the end of a
-- record it is off; the other timers keep their order. What is followed is what the bytes make one
-- by one.
pub try_set_tls_timer-IsQueue :
    (turns_ fuel now x to_bytes_lim ptimeout recv_count : ℕ) (t s : Track) (bs : List ℕ) (p : Pool)
    (xs : List ℕ)
    → IsQueue p xs
    → (to_bytes_lim ≡ 0) ⊎ (recv_count ≤ to_bytes_lim)
    → 0 < ptimeout
    → 0 < length bs
    → 2 * length bs < turns_
    → length xs < fuel
    → steps t bs ≡ some s
    → (r : Timed) × (try_set_tls_timer turns_ fuel now x to_bytes_lim ptimeout recv_count t bs p
        ≡ some r)
      × (r.ret ≡ pos 0)
      × (r.rec_left ≡ s)
      × IsQueue r.pool (timers_after r.pool x (now + ptimeout) s xs)
unfolding try_set_tls_timer
try_set_tls_timer-IsQueue turns_ fuel now x to_bytes_lim ptimeout recv_count t s bs p xs q below on
      some_ enough fuel_enough good =
    let (o, run, same) = track-steps turns_ t bs some_ enough in
    let under : (not (to_bytes_lim == 0) && ltb to_bytes_lim recv_count) ≡ false = ground arith in
    rw (under, run, seen_followed o s (same ∙ good))
      (restart_timer-IsQueue fuel now x ptimeout s p xs q on fuel_enough)
