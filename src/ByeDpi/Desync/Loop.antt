-- ===== src/ByeDpi/Desync/Loop.antt =====
-- The loop of `desync` in engines/byedpi/upstream/desync.c, over the parts of a message. The
-- socket is an argument: it says of each part what sending it gives. What a mode does inside one
-- part (the fake packet, the out-of-band byte, the TTL) is in that answer.
use zon_dpi.Prelude.{
  ℕ, zero, suc, ◌+◌, ◌-◌, ◌*◌, Bool, true, false, not, ◌&&◌, ◌||◌, Option, none, some, List, [],
  ◌∷◌, ◌++◌, ltb, ◌==◌, if◌then◌else◌,
}
use zon_dpi.Prelude.Int.{ℤ, pos, negsuc, ◌+ℤ◌, ltb_ℤ, sub_ℕ, pos_part}
use zon_dpi.Bytes.{◌>>=◌}
use zon_dpi.ByeDpi.Desync.{Mode, Part, Info, has, offset_start, gen_offset}

-- What trying to send the bytes of a part gives: a count, EAGAIN, another error, ERR_WAIT, or no
-- memory for a fake packet.
pub data Sent : Type 0 where
  accepted : ℕ → Sent
  again failed wait_file no_packet : Sent

-- What happened to a range of the buffer: sent in a mode with an answer, found sent by an earlier
-- call, or handed to the last `send`.
pub data Event : Type 0 where
  part : Mode → ℕ → ℕ → Sent → Event
  resumed : ℕ → ℕ → Event
  rest : ℕ → ℕ → Sent → Event

-- The fields of `eval`, `params` and the buffer that the loop reads, and the socket: `answer` by
-- the number of the part (0 for the last send), `has_notsent` behind it, `rand` before it.
pub record Setting : Type 0 where
  pub buf : List ℕ
  pub size : ℕ
  pub offset : ℕ
  pub round_sent : ℕ
  pub part_skip : ℕ
  pub wait_send : Bool
  pub answer : ℕ → Sent
  pub has_notsent : ℕ → Bool
  pub rand : ℕ → ℕ

-- What `desync` returns and leaves: `*wait` (set with a timer), `part_sent`, and the events in
-- order.
pub record Run : Type 0 where
  pub ret : ℤ
  pub wait : Bool
  pub part_sent : ℕ
  pub events : List Event

-- The variables of the loop; `sent` is `val->pair->part_sent`.
pub record Vars : Type 0 where
  pub lp : ℕ
  pub curr : ℕ
  pub info : Info
  pub sent : ℕ

-- A run that has an event before those of `o`.
abbrev pub after : Event → Option Run → Option Run
after e none = none
after e (some r) = some (record r { events = e ∷ r.events })

abbrev pub stop : ℤ → Bool → Vars → Option Run
stop ret wait v = some (record { ret = ret; wait = wait; part_sent = v.sent; events = [] })

module _ (w : Setting) where
  -- What the code makes of the answer to the last `send`: a count is not looked at.
  unfoldable pub judge_rest : Vars → Sent → Option Run
  judge_rest v (accepted k) = stop (sub_ℕ w.size w.offset) false v
  judge_rest v again = stop (sub_ℕ v.lp w.offset) false v
  judge_rest v failed = stop (negsuc 0) false v
  judge_rest v wait_file = stop (negsuc 0) false v
  judge_rest v no_packet = stop (negsuc 0) false v

  -- `// send all/rest`
  unfoldable pub send_rest : Vars → Option Run
  send_rest v =
      if ltb v.lp w.size
      then after (rest v.lp w.size (w.answer 0)) (judge_rest v (w.answer 0))
      else stop (sub_ℕ w.size w.offset) false v

  -- The checks behind the sending of the part up to `to`; `next` is the rest of the loop.
  unfoldable pub judge : ℕ → Sent → Vars → (Vars → Option Run) → Option Run
  judge to wait_file v next = stop (sub_ℕ v.lp w.offset) true v
  judge to again v next = stop (sub_ℕ v.lp w.offset) false v
  judge to failed v next = stop (negsuc 0) false v
  judge to no_packet v next = stop (negsuc 0) false v
  judge to (accepted k) v next =
      if not (k == to - v.lp)
      then stop (sub_ℕ (v.lp + k) w.offset) false v
      else if w.has_notsent v.curr || (w.wait_send && ltb w.part_skip v.curr)
      then stop (sub_ℕ to w.offset) true v
      else next (record v { lp = to })

  -- With no packet the function returns before `part_sent` is set.
  unfoldable pub mark_sent : Sent → Vars → Vars
  mark_sent no_packet v = v
  mark_sent (accepted k) v = record v { sent = v.curr }
  mark_sent again v = record v { sent = v.curr }
  mark_sent failed v = record v { sent = v.curr }
  mark_sent wait_file v = record v { sent = v.curr }

  -- A part is sent, unless the earlier call that waited has sent it.
  unfoldable pub send_part : Mode → ℕ → Vars → (Vars → Option Run) → Option Run
  send_part m to v next =
      if v.curr == w.part_skip
      then after (resumed v.lp to)
          (judge to (accepted (to - v.lp)) (record v { sent = v.curr }) next)
      else after (part m v.lp to (w.answer v.curr))
          (judge to (w.answer v.curr) (mark_sent (w.answer v.curr) v) next)

  -- The three tests behind the offset of a part: it was done by an earlier call, it lies before
  -- the part of the buffer that is left, or it is no step forward.
  unfoldable pub place_part : Part → ℤ → Vars → (Vars → Option Run) → Option Run
  place_part p to v next =
      if ((not (w.round_sent == 0) && ltb_ℤ to (pos w.round_sent)) || ltb v.curr w.part_skip)
        && not (has p.flag offset_start)
      then next v
      else if not (w.offset == 0) && ltb_ℤ to (pos w.offset)
      then next v
      else if ltb_ℤ to (pos v.lp)
      then send_rest v
      else send_part p.m (if ltb w.size (pos_part to) then w.size else pos_part to) v next

  -- A round of the loop: `part` for the time `k` (that is `part.r - r`).
  unfoldable pub round : Part → ℕ → Vars → (Vars → Option Run) → Option Run
  round p k v next =
      let curr = v.curr + 1 in
      gen_offset (w.rand curr) p.at p.flag w.buf w.size v.lp v.info >>= λ r.
      place_part p (r.0 +ℤ pos (p.s * k)) (record v { curr = curr; info = r.1 }) next

  unfoldable pub loop : List (Part × ℕ) → Vars → Option Run
  loop [] v = send_rest v
  loop ((p, k) ∷ ps) v = round p k v (loop ps)

-- The parts in the order of the loop, with the time of each: a part comes once, or `r` times.
unfoldable pub times : Part → ℕ → ℕ → List (Part × ℕ)
times p k zero = []
times p k (suc n) = (p, k) ∷ times p (k + 1) n

unfoldable pub expand : List Part → List (Part × ℕ)
expand [] = []
expand (p ∷ ps) = times p 0 (if p.r == 0 then 1 else p.r) ++ expand ps

-- `desync` from `ssize_t n = *np` on: the buffer has been tampered with, if it had to be.
unfoldable pub desync_parts : Setting → List Part → Info → ℕ → Option Run
desync_parts w parts info sent =
    loop w (expand parts) (record { lp = w.offset; curr = 0; info = info; sent = sent })
