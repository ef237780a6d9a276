-- ===== src/ByeDpi/Desync/Lost.antt =====
-- The count that the last `send` of `desync` gives, which is lost.
use mathlib.Core.Path.{subst}
use zon_dpi.Prelude.{
  ℕ, ◌+◌, ◌-◌, ◌*◌, ◌≤◌, ◌<◌, ◌≡◌, ◌⊎◌, inl, inr, refl, not, ◌&&◌, ◌||◌, Option, none, some, List,
  [], ◌∷◌, length, ltb, ◌==◌, if◌then◌else◌, Bool-cases, Option-cases, arith,
}
use zon_dpi.Prelude.Int.{ℤ, pos, ◌+ℤ◌, ltb_ℤ, sub_ℕ, pos_part}
use zon_dpi.ByeDpi.Desync.{Mode, Part, Info, gen_offset, has, offset_start}
use zon_dpi.ByeDpi.Desync.Loop.{
  Sent, accepted, again, failed, wait_file, no_packet, Event, part, resumed, rest, Setting, Run,
  Vars, after, judge_rest, send_rest, judge, send_part, place_part, round, loop, mark_sent, expand,
  desync_parts,
}
use zon_dpi.ByeDpi.Desync.Coverage.{taken, Tiles}
use zon_dpi.ByeDpi.Desync.Offsets.{Fixed}
use zon_dpi.ByeDpi.Desync.Total.{desync_parts-returns}

-- The last `send` was given the bytes between `from` and `to`, and took `k` of them.
abbrev pub Took : ℕ → ℕ → ℕ → List Event → Type 0
Took from to k [] = ⊥
Took from to k (part m a b s ∷ es) = Took from to k es
Took from to k (resumed a b ∷ es) = Took from to k es
Took from to k (rest a b (accepted j) ∷ es) = ((a ≡ from) × (b ≡ to) × (j ≡ k)) ⊎ Took from to k es
Took from to k (rest a b again ∷ es) = Took from to k es
Took from to k (rest a b failed ∷ es) = Took from to k es
Took from to k (rest a b wait_file ∷ es) = Took from to k es
Took from to k (rest a b no_packet ∷ es) = Took from to k es

module _ (w : Setting) where
  -- The bytes taken from `start` on end `k` behind `from`, but the value is that of all.
  abbrev pub Overstates : ℕ → ℕ → ℕ → ℕ → Run → Type 0
  Overstates start from to k r =
      (to ≡ w.size)
      × (from < to)
      × (r.ret ≡ sub_ℕ w.size w.offset)
      × Tiles start r.events (from + k)

  abbrev Lost : ℕ → Option Run → Type 0
  Lost start none = Unit {0}
  Lost start (some r) = (from to k : ℕ) → Took from to k r.events → Overstates start from to k r

  after_part :
      (m : Mode) (start to : ℕ) (s : Sent) (o : Option Run)
      → Lost (start + taken s) o
      → Lost start (after (part m start to s) o)
  after_part m start to s none g = tt
  after_part m start to s (some r) g =
      λ a b k t. let (whole, more, ret, tiles) = g a b k t in (whole, more, ret, (refl, tiles))

  after_resumed :
      (start to : ℕ) (o : Option Run)
      → Lost (start + (to - start)) o
      → Lost start (after (resumed start to) o)
  after_resumed start to none g = tt
  after_resumed start to (some r) g =
      λ a b k t. let (whole, more, ret, tiles) = g a b k t in (whole, more, ret, (refl, tiles))

  rest_answer :
      (v : Vars) (s : Sent)
      → v.lp < w.size
      → Lost v.lp (after (rest v.lp w.size s) (judge_rest w v s))
  unfolding judge_rest
  rest_answer v (accepted j) h = λ a b k t. elim t [
    | inl (at, end, same) ↦
        (omega (arith, end), omega (arith, at, end), refl, (refl, omega (arith, at, same)))
    | inr none_ ↦ absurd none_
  ]
  rest_answer v again h = λ a b k t. absurd t
  rest_answer v failed h = λ a b k t. absurd t
  rest_answer v wait_file h = λ a b k t. absurd t
  rest_answer v no_packet h = λ a b k t. absurd t

  send_rest-Lost : (v : Vars) → Lost v.lp (send_rest w v)
  unfolding send_rest
  send_rest-Lost v = elim (Bool-cases (ltb v.lp w.size)) [
    | inl more ↦ rw more (rest_answer v (w.answer 0) (ground arith))
    | inr done ↦ rw done (λ a b k t. absurd t)
  ]

  abbrev Next : (Vars → Option Run) → Type 0
  Next next = (v : Vars) → v.lp ≤ w.size → Lost v.lp (next v)

  judge-Lost :
      (to : ℕ) (s : Sent) (v : Vars) (next : Vars → Option Run)
      → v.lp ≤ to
      → to ≤ w.size
      → Next next
      → Lost (v.lp + taken s) (judge w to s v next)
  unfolding judge
  judge-Lost to (accepted j) v next lo hi good = elim (Bool-cases (j == to - v.lp)) [
    | inr short ↦ rw short (λ a b k t. absurd t)
    | inl whole ↦
        let sum : v.lp + j ≡ to = ground arith in
        elim (Bool-cases (w.has_notsent v.curr || (w.wait_send && ltb w.part_skip v.curr))) [
          | inl waits ↦ rw (whole, waits) (λ a b k t. absurd t)
          | inr on ↦ rw (whole, on, sum) (good (record v { lp = to }) hi)
        ]
  ]
  judge-Lost to again v next lo hi good = λ a b k t. absurd t
  judge-Lost to failed v next lo hi good = λ a b k t. absurd t
  judge-Lost to wait_file v next lo hi good = λ a b k t. absurd t
  judge-Lost to no_packet v next lo hi good = λ a b k t. absurd t

  mark_sent_lp : (s : Sent) (v : Vars) → (mark_sent w s v).lp ≡ v.lp
  unfolding mark_sent
  mark_sent_lp (accepted k) v = refl
  mark_sent_lp again v = refl
  mark_sent_lp failed v = refl
  mark_sent_lp wait_file v = refl
  mark_sent_lp no_packet v = refl

  send_part-Lost :
      (m : Mode) (to : ℕ) (v : Vars) (next : Vars → Option Run)
      → v.lp ≤ to
      → to ≤ w.size
      → Next next
      → Lost v.lp (send_part w m to v next)
  unfolding send_part
  send_part-Lost m to v next lo hi good = elim (Bool-cases (v.curr == w.part_skip)) [
    | inl old ↦ rw old (
        after_resumed v.lp to _
          (judge-Lost to (accepted (to - v.lp)) (record v { sent = v.curr }) next lo hi good))
    | inr new ↦
        let s = w.answer v.curr in
        let v' = mark_sent w s v in
        let same = mark_sent_lp s v in
        rw new (
          after_part m v.lp to s _ (
            subst (λ l. Lost (l + taken s) (judge w to s v' next)) same
              (judge-Lost to s v' next (omega (arith, same)) hi good)))
  ]

  place_part-Lost :
      (p : Part) (to : ℤ) (v : Vars) (next : Vars → Option Run)
      → v.lp ≤ w.size
      → Next next
      → Lost v.lp (place_part w p to v next)
  unfolding place_part
  place_part-Lost p to v next h good =
      elim (Bool-cases (
        ((not (w.round_sent == 0) && ltb_ℤ to (pos w.round_sent)) || ltb v.curr w.part_skip)
        && not (has p.flag offset_start))) [
          | inl old ↦ rw old (good v h)
          | inr new ↦ elim (Bool-cases (not (w.offset == 0) && ltb_ℤ to (pos w.offset))) [
            | inl behind ↦ rw (new, behind) (good v h)
            | inr ahead ↦ elim (Bool-cases (ltb_ℤ to (pos v.lp))) [
              | inl back ↦ rw (new, ahead, back) (send_rest-Lost v)
              | inr forth ↦
                  rw (new, ahead, forth)
                    (send_part-Lost p.m (if ltb w.size (pos_part to) then w.size else pos_part to) v
                      next (ground arith) (ground arith) good)
            ]
          ]
        ]

  loop-Lost : (ps : List (Part × ℕ)) → Next (loop w ps)
  unfolding loop round
  loop-Lost [] v h = send_rest-Lost v
  loop-Lost ((p, k) ∷ ps) v h =
      elim (Option-cases (gen_offset (w.rand (v.curr + 1)) p.at p.flag w.buf w.size v.lp v.info)) [
        | inl fault ↦ rw fault tt
        | inr (r, e) ↦ rw e (
            place_part-Lost p (r.0 +ℤ pos (p.s * k)) (record v { curr = v.curr + 1; info = r.1 })
              (loop w ps) h (loop-Lost ps))
      ]

-- `desync` returns on every message, cut by every list of parts with no random offset. When its last
-- `send` was given the bytes from `from` to `to` and took `k` of them, then `to` is the end of the
-- message and the bytes taken lie end to end from `offset` up to `from + k`, but the value returned
-- is the number of all bytes behind `offset`, whatever `k` is.
pub desync_parts-Overstates :
    (w : Setting) (parts : List Part) (info : Info) (sent : ℕ)
    → w.offset ≤ w.size
    → w.size ≤ length w.buf
    → Fixed parts
    → (r : Run) × (desync_parts w parts info sent ≡ some r)
      × ((from to k : ℕ) → Took from to k r.events → Overstates w w.offset from to k r)
unfolding desync_parts
desync_parts-Overstates w parts info sent h inside fixed =
    let (r, e) = desync_parts-returns w parts info sent inside fixed in
    let v : Vars = record { lp = w.offset; curr = 0; info = info; sent = sent } in
    (r, e, subst (Lost w w.offset) e (loop-Lost w (expand parts) v h))
