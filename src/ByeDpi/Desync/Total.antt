-- ===== src/ByeDpi/Desync/Total.antt =====
-- Whether `desync` returns, and what has been delivered when it does.
use mathlib.Core.Path.{subst}
use zon_dpi.Prelude.{
  ℕ, zero, suc, ◌+◌, ◌-◌, ◌*◌, ◌≤◌, ◌≡◌, inl, inr, refl, false, not, ◌&&◌, ◌||◌, Option, none, some,
  List, [], ◌∷◌, ◌++◌, length, ltb, ◌==◌, if◌then◌else◌, Bool-cases,
}
use zon_dpi.Prelude.Int.{ℤ, pos, ◌+ℤ◌, ltb_ℤ, pos_part}
use zon_dpi.ByeDpi.Desync.{Mode, Part, Info, has, offset_rand, offset_start}
use zon_dpi.ByeDpi.Desync.Loop.{
  Sent, accepted, again, failed, wait_file, no_packet, Event, Setting, Run, Vars, after, judge_rest,
  send_rest, judge, mark_sent, send_part, place_part, round, loop, expand, times, desync_parts,
}
use zon_dpi.ByeDpi.Desync.Coverage.{TakesRest, Delivers, Good, loop-Good}
use zon_dpi.ByeDpi.Desync.Offsets.{Fixed, gen_offset-total}

abbrev Returns : Option Run → Type 0
Returns none = ⊥
Returns (some r) = Unit {0}

after-Returns : (e : Event) (o : Option Run) → Returns o → Returns (after e o)
after-Returns e none h = h
after-Returns e (some r) h = tt

module _ (w : Setting) (inside : w.size ≤ length w.buf) where
  judge_rest-Returns : (v : Vars) (s : Sent) → Returns (judge_rest w v s)
  unfolding judge_rest
  judge_rest-Returns v (accepted k) = tt
  judge_rest-Returns v again = tt
  judge_rest-Returns v failed = tt
  judge_rest-Returns v wait_file = tt
  judge_rest-Returns v no_packet = tt

  send_rest-Returns : (v : Vars) → Returns (send_rest w v)
  unfolding send_rest
  send_rest-Returns v = elim (Bool-cases (ltb v.lp w.size)) [
    | inl more ↦ rw more (after-Returns _ _ (judge_rest-Returns v (w.answer 0)))
    | inr done ↦ rw done tt
  ]

  abbrev Goes : (Vars → Option Run) → Type 0
  Goes next = (v : Vars) → Returns (next v)

  judge-Returns :
      (to : ℕ) (s : Sent) (v : Vars) (next : Vars → Option Run)
      → Goes next
      → Returns (judge w to s v next)
  unfolding judge
  judge-Returns to (accepted k) v next g = elim (Bool-cases (k == to - v.lp)) [
    | inr short ↦ rw short tt
    | inl whole ↦
        elim (Bool-cases (w.has_notsent v.curr || (w.wait_send && ltb w.part_skip v.curr))) [
          | inl waits ↦ rw (whole, waits) tt
          | inr on ↦ rw (whole, on) (g (record v { lp = to }))
        ]
  ]
  judge-Returns to again v next g = tt
  judge-Returns to failed v next g = tt
  judge-Returns to wait_file v next g = tt
  judge-Returns to no_packet v next g = tt

  send_part-Returns :
      (m : Mode) (to : ℕ) (v : Vars) (next : Vars → Option Run)
      → Goes next
      → Returns (send_part w m to v next)
  unfolding send_part
  send_part-Returns m to v next g = elim (Bool-cases (v.curr == w.part_skip)) [
    | inl old ↦ rw old (
        after-Returns _ _
          (judge-Returns to (accepted (to - v.lp)) (record v { sent = v.curr }) next g))
    | inr new ↦ rw new (
        after-Returns _ _
          (judge-Returns to (w.answer v.curr) (mark_sent w (w.answer v.curr) v) next g))
  ]

  place_part-Returns :
      (p : Part) (to : ℤ) (v : Vars) (next : Vars → Option Run)
      → Goes next
      → Returns (place_part w p to v next)
  unfolding place_part
  place_part-Returns p to v next g =
      elim (Bool-cases (
        ((not (w.round_sent == 0) && ltb_ℤ to (pos w.round_sent)) || ltb v.curr w.part_skip)
        && not (has p.flag offset_start))) [
          | inl old ↦ rw old (g v)
          | inr new ↦ elim (Bool-cases (not (w.offset == 0) && ltb_ℤ to (pos w.offset))) [
            | inl behind ↦ rw (new, behind) (g v)
            | inr ahead ↦ elim (Bool-cases (ltb_ℤ to (pos v.lp))) [
              | inl back ↦ rw (new, ahead, back) (send_rest-Returns v)
              | inr forth ↦
                  rw (new, ahead, forth)
                    (send_part-Returns p.m
                      (if ltb w.size (pos_part to) then w.size else pos_part to) v next g)
            ]
          ]
        ]

  -- The flags of a list of parts with their times are fixed.
  abbrev FixedTimes : List (Part × ℕ) → Type 0
  FixedTimes [] = Unit {0}
  FixedTimes ((p, k) ∷ ps) = (has p.flag offset_rand ≡ false) × FixedTimes ps

  loop-Returns : (ps : List (Part × ℕ)) → FixedTimes ps → Goes (loop w ps)
  unfolding loop round
  loop-Returns [] f v = send_rest-Returns v
  loop-Returns ((p, k) ∷ ps) f v =
      let (r, e) =
        gen_offset-total (w.rand (v.curr + 1)) p.at p.flag w.buf w.size v.lp v.info inside f.0 in
      rw e (
        place_part-Returns p (r.0 +ℤ pos (p.s * k)) (record v { curr = v.curr + 1; info = r.1 })
          (loop w ps) (loop-Returns ps f.1))

  times-Fixed :
      (p : Part) (k n : ℕ) (ps : List (Part × ℕ))
      → has p.flag offset_rand ≡ false
      → FixedTimes ps
      → FixedTimes (times p k n ++ ps)
  unfolding times
  times-Fixed p k zero ps h f = f
  times-Fixed p k (suc n) ps h f = (h, times-Fixed p (k + 1) n ps h f)

  expand-Fixed : (ps : List Part) → Fixed ps → FixedTimes (expand ps)
  unfolding expand
  expand-Fixed [] f = tt
  expand-Fixed (p ∷ ps) f =
      times-Fixed p 0 (if p.r == 0 then 1 else p.r) (expand ps) f.0 (expand-Fixed ps f.1)

returned : (o : Option Run) → Returns o → (r : Run) × (o ≡ some r)
returned none h = absurd h
returned (some r) h = (r, refl)

-- `desync` returns on every message, cut by every list of parts with no random offset.
pub desync_parts-returns :
    (w : Setting) (parts : List Part) (info : Info) (sent : ℕ)
    → w.size ≤ length w.buf
    → Fixed parts
    → (r : Run) × (desync_parts w parts info sent ≡ some r)
unfolding desync_parts
desync_parts-returns w parts info sent inside fixed =
    let v : Vars = record { lp = w.offset; curr = 0; info = info; sent = sent } in
    returned (loop w (expand parts) v)
      (loop-Returns w inside (expand parts) (expand-Fixed w inside parts fixed) v)

-- `desync` returns on every message, cut by every list of parts with no random offset. If its
-- last `send`, in case one took bytes, took all of them, then either it returns -1, or the
-- ranges that the socket took lie end to end from `offset` on, in order and with no gap, and the
-- value returned is their total length.
pub desync_parts-Delivers :
    (w : Setting) (parts : List Part) (info : Info) (sent : ℕ)
    → w.offset ≤ w.size
    → w.size ≤ length w.buf
    → Fixed parts
    → (r : Run) × (desync_parts w parts info sent ≡ some r)
      × (TakesRest r.events → Delivers w.offset w.offset r)
unfolding desync_parts
desync_parts-Delivers w parts info sent h inside fixed =
    let v : Vars = record { lp = w.offset; curr = 0; info = info; sent = sent } in
    let (r, e) = desync_parts-returns w parts info sent inside fixed in
    (r, e, subst (Good w.offset w.offset w.offset) e (loop-Good w (expand parts) v h))
