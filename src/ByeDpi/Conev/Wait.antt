-- ===== src/ByeDpi/Conev/Wait.antt =====
-- Waiting for events: `next_event` of the epoll branch and `next_event_tv` in
-- engines/byedpi/upstream/conev.c. `epoll_wait` is an argument, by the number of the round
-- (`iters`) and the time to wait. The counter `*offs`, an index or -1, is the number of reports
-- that are left, one more than it.
pub mod Rounds
use zon_dpi.Prelude.{
  ℕ, zero, suc, ◌+◌, ◌-◌, ◌==◌, ◌&&◌, ltb, Bool, true, false, Option, none, some, if◌then◌else◌,
}
use zon_dpi.Prelude.Int.{ℤ, pos, negsuc}
use zon_dpi.ByeDpi.Conev.{Eval, Pool}
use zon_dpi.ByeDpi.Conev.Timers.{remove_timer}

-- `struct epoll_event`: the place and the events.
pub record Report : Type 0 where
  pub place : ℕ
  pub events : ℕ

-- What `epoll_wait` returns: -1, 0, or a number of reports that is not 0, one more than `n`.
pub data Waited : Type 0 where
  interrupted elapsed : Waited
  ready : (n : ℕ) → (ℕ → Report) → Waited

-- What `next_event` returns and leaves.
pub record Next : Type 0 where
  pub val : Option ℕ
  pub type : ℕ
  pub left : ℕ
  pub pevents : ℕ → Report
  pub pool : Pool

-- The reports that are left, latest first, without those of places changed in this round.
unfoldable pub scan : Pool → (ℕ → Report) → ℕ → Option (Report × ℕ)
scan p pevents zero = none
scan p pevents (suc i) =
    let rest = scan p pevents i in
    if (p.items (pevents i).place).mod_iter == p.iters then rest else some (pevents i, i)

-- What `next_event` makes of the latest report that is left, if there is one.
abbrev pub hand_out : Pool → (ℕ → Report) → Option (Report × ℕ) → Option Next → Option Next
hand_out p pevents none otherwise = otherwise
hand_out p pevents (some (r, rest)) otherwise =
    some (record { val = some r.place; type = r.events; left = rest; pevents = pevents; pool = p })

-- What it makes of the value of `epoll_wait`; `again` is the next turn of the loop.
abbrev pub waited :
    Pool → (ℕ → Report) → ℕ → Waited → (ℕ → (ℕ → Report) → Option Next) → Option Next
waited p pevents type interrupted again =
    some (record { val = none; type = type; left = 0; pevents = pevents; pool = p })
waited p pevents type elapsed again =
    some (record { val = none; type = 0; left = 0; pevents = pevents; pool = p })
waited p pevents type (ready n reports) again = again n reports

-- `while (1)`, with fuel for the rounds. `pos ms` is waiting for `ms`, -1 is for ever.
unfoldable pub next_event : ℕ → (ℕ → ℤ → Waited) → Pool → (ℕ → Report) → ℕ → ℕ → ℤ → Option Next
next_event zero wait p pevents left type ms = none
next_event (suc fuel) wait p pevents left type ms = hand_out p pevents (scan p pevents left) (
    waited p pevents type (wait p.iters ms)
      λ n reports. next_event fuel wait (record p { iters = p.iters + 1 }) reports (suc n) type ms)

-- The timer that `next_event_tv` takes for the values of `val` and `tv_start`.
abbrev pub timed : Option ℕ → Option ℕ → Next → Next
timed (some y) start r = r
timed none none r = r
timed none (some x) r =
    if r.type == 0 then record r { val = some x; pool = remove_timer x r.pool } else r

abbrev pub fire : Option Next → Option Next
fire none = none
fire (some r) = some (timed r.val r.pool.tv_start r)

-- `next_event_tv` for the value of `tv_start`. `now` is what `time_ms()` returns.
abbrev pub next_event_from :
    Option ℕ → ℕ → (ℕ → ℤ → Waited) → ℕ → Pool → (ℕ → Report) → ℕ → ℕ → Option Next
next_event_from none fuel wait now p pevents left type =
    next_event fuel wait p pevents left type (negsuc 0)
next_event_from (some x) fuel wait now p pevents left type =
    let deadline = (p.items x).tv_ms in
    fire (
      if ltb now deadline
      then next_event fuel wait p pevents left type (pos (deadline - now))
      else some (record { val = none; type = 0; left = left; pevents = pevents; pool = p }))

unfoldable pub next_event_tv : ℕ → (ℕ → ℤ → Waited) → ℕ → Pool → (ℕ → Report) → ℕ → ℕ → Option Next
next_event_tv fuel wait now p = next_event_from p.tv_start fuel wait now p
