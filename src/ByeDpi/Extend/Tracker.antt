-- ===== src/ByeDpi/Extend/Tracker.antt =====
-- Following the TLS records of an answer to set a timer inside a record: `try_set_tls_timer` of
-- engines/byedpi/upstream/extend.c. It works on the timers of the event loop.
pub mod Steps
pub mod Streams
pub mod Timer
use zon_dpi.Prelude.{
  ℕ, zero, suc, ◌+◌, ◌-◌, ◌*◌, ◌==◌, not, ◌&&◌, ◌||◌, leb, ltb, Bool, Option, none, some, List, [],
  ◌∷◌, drop, length, set, get_or, replicate, if◌then◌else◌,
}
use zon_dpi.Prelude.Int.{ℤ, pos, negsuc}
use zon_dpi.Bytes.{◌>>=◌}
use zon_dpi.ByeDpi.Conev.{Pool}
use zon_dpi.ByeDpi.Conev.Timers.{set_timer, remove_timer}

-- `tls_rec`, `tls_rec_pos` and `tls_rec_size` of `struct eval`.
pub record Track : Type 0 where
  pub tls_rec : List ℕ
  pub at : ℕ
  pub size : ℕ

-- What a run over a chunk comes to: `return -1`, or the end of the chunk.
pub data Tracked : Type 0 where
  broken : Track → Tracked
  followed : Track → Tracked

-- `ANTOHS(val->tls_rec, 3) + 5`, of bytes without a sign
abbrev pub record_size : Track → ℕ
record_size t = get_or t.tls_rec 3 0 * 256 + get_or t.tls_rec 4 0 + 5

-- `val->tls_rec[val->tls_rec_pos] = buff[pos]; val->tls_rec_pos++;`
abbrev pub stored : Track → ℕ → Track
stored t b = record t { tls_rec = set t.tls_rec t.at b; at = t.at + 1 }

-- `t < 0x14 || t > 0x18`
abbrev pub bad_type : Track → Bool
bad_type t = ltb (get_or t.tls_rec 0 0) 20 || ltb 24 (get_or t.tls_rec 0 0)

-- What a turn of the loop leaves: the end, or the record and the bytes that are left.
pub data Turn : Type 0 where
  stops : Track → Turn
  turns : Track → List ℕ → Turn

-- From `ssize_t end` on.
unfoldable pub take_payload : Track → List ℕ → Turn
take_payload t rest =
    if leb t.size t.at
    then stops t
    else let left = t.size - t.at in
      let end = if ltb (length rest) left then length rest else left in
      turns (record t { at = t.at + end }) (drop end rest)

-- The body of the loop, for bytes that begin with `b`.
unfoldable pub turn : Track → ℕ → List ℕ → Turn
turn t b rest =
    if ltb t.at 5
    then turns (stored t b) rest
    else if t.at == 5
    then (if bad_type t
        then stops (record t { size = record_size t })
        else take_payload (record t { size = record_size t }) (b ∷ rest))
    else if t.at == t.size
    then turns (record t { at = 0; size = 0 }) (b ∷ rest)
    else take_payload t (b ∷ rest)

-- `while (pos < n)` behind a turn, with fuel for the turns to come.
unfoldable pub follow : ℕ → Turn → Option Tracked
follow fuel (stops t) = some (broken t)
follow fuel (turns t []) = some (followed t)
follow zero (turns t (b ∷ rest)) = none
follow (suc fuel) (turns t (b ∷ rest)) = follow fuel (turn t b rest)

-- The loop; reading a byte when there is none is `none`.
unfoldable pub track : ℕ → Track → List ℕ → Option Tracked
track fuel t [] = none
track fuel t (b ∷ rest) = follow fuel (turn t b rest)

-- What is returned, the record, and the event loop.
pub record Timed : Type 0 where
  pub ret : ℤ
  pub rec_left : Track
  pub pool : Pool

-- The lines behind the loop, for the timer of the place `x`; `now` is the time.
unfoldable pub restart_timer : ℕ → ℕ → ℕ → ℕ → Track → Pool → Option Timed
restart_timer fuel now x ptimeout t p =
    if ptimeout == 0
    then some (record { ret = pos 0; rec_left = t; pool = p })
    else let removed = remove_timer x p in
      if t.at == t.size
      then some (record { ret = pos 0; rec_left = t; pool = removed })
      else (set_timer fuel now x ptimeout removed >>= λ armed.
          some (record { ret = pos 0; rec_left = t; pool = armed }))

abbrev pub settled : ℕ → ℕ → ℕ → ℕ → Pool → Tracked → Option Timed
settled fuel now x ptimeout p (broken t) = some (record { ret = negsuc 0; rec_left = t; pool = p })
settled fuel now x ptimeout p (followed t) = restart_timer fuel now x ptimeout t p

-- `recv_count` counts the bytes received, these ones included. The first number is fuel for the loop
-- over the bytes, the second for the one of `set_timer`.
unfoldable pub try_set_tls_timer : ℕ → ℕ → ℕ → ℕ → ℕ → ℕ → ℕ → Track → List ℕ → Pool → Option Timed
try_set_tls_timer turns_ fuel now x to_bytes_lim ptimeout recv_count t buff p =
    if not (to_bytes_lim == 0) && ltb to_bytes_lim recv_count
    then some (record { ret = negsuc 0; rec_left = t; pool = remove_timer x p })
    else (track turns_ t buff >>= settled fuel now x ptimeout p)
