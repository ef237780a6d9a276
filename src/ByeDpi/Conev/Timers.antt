-- ===== src/ByeDpi/Conev/Timers.antt =====
-- The timers of the event loop, a list linked both ways: `set_timer`, `remove_timer` and the timer
-- half of `next_event_tv` in engines/byedpi/upstream/conev.c. The clock is an argument, in
-- milliseconds that are not negative.
pub mod Order
pub mod Chain
pub mod Link
pub mod Queue
pub mod Remove
use zon_dpi.Prelude.{
  ℕ, zero, suc, ◌+◌, ◌-◌, ◌==◌, not, ◌||◌, leb, ltb, Option, none, some, if◌then◌else◌, Bool,
}
use zon_dpi.Bytes.{◌>>=◌}
use zon_dpi.ByeDpi.Conev.{Eval, Items, Pool, update, update_at, same}

-- `while (prev && prev->tv_ms >= val->tv_ms)`, with fuel: where `prev` and `next` end.
unfoldable pub walk : ℕ → Items → ℕ → Option ℕ → Option ℕ → Option (Option ℕ × Option ℕ)
walk zero it t prev next = none
walk (suc fuel) it t none next = some (none, next)
walk (suc fuel) it t (some y) next =
    let rest = walk fuel it t (it y).tv_prev (some y) in
    if leb t (it y).tv_ms then rest else some (some y, next)

-- `e->tv_ms = v`
abbrev pub with_ms : ℕ → Eval → Eval
with_ms v e = record e { tv_ms = v }

-- `e->tv_next = q`
abbrev pub with_next : Option ℕ → Eval → Eval
with_next q e = record e { tv_next = q }

-- `e->tv_prev = q`
abbrev pub with_prev : Option ℕ → Eval → Eval
with_prev q e = record e { tv_prev = q }

-- `val->tv_next = next; val->tv_prev = prev;`
abbrev pub with_both : Option ℕ → Option ℕ → Eval → Eval
with_both prev next e = record e { tv_next = next; tv_prev = prev }

-- What `set_timer` does behind the loop.
unfoldable pub link : ℕ → Option ℕ → Option ℕ → Pool → Pool
link x prev next p =
    let placed = update p.items x (with_both prev next) in
    let before = update_at placed next (with_prev (some x)) in
    let behind = update_at before prev (with_next (some x)) in
    record p {
      items = behind;
      tv_start = if same p.tv_start none || same next p.tv_start then some x else p.tv_start;
      tv_end = if same p.tv_end none || same prev p.tv_end then some x else p.tv_end;
    }

-- `now` is what `time_ms()` returns.
unfoldable pub set_timer : ℕ → ℕ → ℕ → ℕ → Pool → Option Pool
set_timer fuel now x ms p =
    if not ((p.items x).tv_ms == 0)
    then some p
    else let timed = record p { items = update p.items x (with_ms (now + ms)) } in
      walk fuel timed.items (now + ms) p.tv_end none >>= λ place.
      some (link x place.0 place.1 timed)

-- `val->tv_ms = 0; val->tv_next = 0; val->tv_prev = 0;`
abbrev pub cleared : Eval → Eval
cleared e = record e { tv_ms = 0; tv_next = none; tv_prev = none }

unfoldable pub remove_timer : ℕ → Pool → Pool
remove_timer x p =
    let prev = (p.items x).tv_prev in
    let behind = update_at p.items prev (with_next (p.items x).tv_next) in
    let next = (behind x).tv_next in
    let before = update_at behind next (with_prev (behind x).tv_prev) in
    record p {
      items = update before x cleared;
      tv_start = if same p.tv_start (some x) then (before x).tv_next else p.tv_start;
      tv_end = if same p.tv_end (some x) then (before x).tv_prev else p.tv_end;
    }
