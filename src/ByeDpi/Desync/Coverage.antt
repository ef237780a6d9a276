-- ===== src/ByeDpi/Desync/Coverage.antt =====
-- What the socket has taken when `desync` returns.
use zon_dpi.Prelude.{
  ℕ, ◌+◌, ◌-◌, ◌*◌, ◌≤◌, ◌≡◌, ◌⊎◌, inl, inr, refl, not, ◌&&◌, ◌||◌, Option, none, some, List, [],
  ◌∷◌, ltb, ◌==◌, if◌then◌else◌, Bool-cases, Option-cases, arith,
}
use zon_dpi.Prelude.Int.{ℤ, pos, negsuc, ◌+ℤ◌, ltb_ℤ, sub_ℕ, pos_part}
use zon_dpi.ByeDpi.Desync.{Mode, Part, gen_offset, has, offset_start}
use zon_dpi.ByeDpi.Desync.Loop.{
  Sent, accepted, again, failed, wait_file, no_packet, Event, part, resumed, rest, Setting, Run,
  Vars, after, judge_rest, send_rest, judge, send_part, place_part, round, loop, mark_sent,
}

-- The bytes that the socket took of the range of an event, in this call or an earlier one.
abbrev pub taken : Sent → ℕ
taken (accepted k) = k
taken again = 0
taken failed = 0
taken wait_file = 0
taken no_packet = 0

-- The events lie end to end: each starts where the bytes taken so far end, and the last ends at
-- `end`.
abbrev pub Tiles : ℕ → List Event → ℕ → Type 0
Tiles lp [] end = lp ≡ end
Tiles lp (part m from to s ∷ es) end = (from ≡ lp) × Tiles (lp + taken s) es end
Tiles lp (resumed from to ∷ es) end = (from ≡ lp) × Tiles (lp + (to - from)) es end
Tiles lp (rest from to s ∷ es) end = (from ≡ lp) × Tiles (lp + taken s) es end

-- The last `send` takes all bytes that it is given, if it takes any.
abbrev pub TakesRest : List Event → Type 0
TakesRest [] = Unit {0}
TakesRest (part m from to s ∷ es) = TakesRest es
TakesRest (resumed from to ∷ es) = TakesRest es
TakesRest (rest from to (accepted k) ∷ es) = (k ≡ to - from) × TakesRest es
TakesRest (rest from to again ∷ es) = TakesRest es
TakesRest (rest from to failed ∷ es) = TakesRest es
TakesRest (rest from to wait_file ∷ es) = TakesRest es
TakesRest (rest from to no_packet ∷ es) = TakesRest es

-- Either the run failed, or it returns how far behind `offset` the bytes taken end.
abbrev pub Delivers : ℕ → ℕ → Run → Type 0
Delivers offset lp r =
    (r.ret ≡ negsuc 0)
    ⊎ ((end : ℕ) × (r.ret ≡ sub_ℕ end offset) × (lp ≤ end) × Tiles lp r.events end)

-- What a run does from `start` on, if it is one that takes the rest.
abbrev pub Good : ℕ → ℕ → ℕ → Option Run → Type 0
Good offset base start none = Unit {0}
Good offset base start (some r) =
    TakesRest r.events
    → (r.ret ≡ negsuc 0)
      ⊎ ((end : ℕ) × (r.ret ≡ sub_ℕ end offset) × (base ≤ end) × Tiles start r.events end)

module _ (offset base start : ℕ) where
  after_part :
      (m : Mode) (to : ℕ) (s : Sent) (o : Option Run)
      → Good offset base (start + taken s) o
      → Good offset base start (after (part m start to s) o)
  after_part m to s none g = tt
  after_part m to s (some r) g =
      λ t. elim (g t) [ inl e ↦ inl e | inr (end, e, le, tiles) ↦ inr (end, e, le, (refl, tiles)) ]

  after_resumed :
      (to : ℕ) (o : Option Run)
      → Good offset base (start + (to - start)) o
      → Good offset base start (after (resumed start to) o)
  after_resumed to none g = tt
  after_resumed to (some r) g =
      λ t. elim (g t) [ inl e ↦ inl e | inr (end, e, le, tiles) ↦ inr (end, e, le, (refl, tiles)) ]

module _ (w : Setting) where
  rest_answer :
      (v : Vars) (s : Sent)
      → v.lp ≤ w.size
      → Good w.offset v.lp v.lp (after (rest v.lp w.size s) (judge_rest w v s))
  unfolding judge_rest
  rest_answer v (accepted k) h = λ t. inr (w.size, refl, h, (refl, omega arith))
  rest_answer v again h = λ t. inr (v.lp, refl, omega arith, (refl, omega arith))
  rest_answer v failed h = λ t. inl refl
  rest_answer v wait_file h = λ t. inl refl
  rest_answer v no_packet h = λ t. inl refl

  send_rest-Good : (v : Vars) → v.lp ≤ w.size → Good w.offset v.lp v.lp (send_rest w v)
  unfolding send_rest
  send_rest-Good v h = elim (Bool-cases (ltb v.lp w.size)) [
    | inl more ↦ rw more (rest_answer v (w.answer 0) h)
    | inr done ↦ rw done (λ t. inr (w.size, refl, h, ground arith))
  ]

  weaken :
      (a b start : ℕ) (o : Option Run) → a ≤ b → Good w.offset b start o → Good w.offset a start o
  weaken a b start none h g = tt
  weaken a b start (some r) h g =
      λ t. elim (g t) [ inl e ↦ inl e | inr (end, e, le, tiles) ↦ inr (end, e, omega arith, tiles) ]

  abbrev pub Next : (Vars → Option Run) → Type 0
  Next next = (v : Vars) → v.lp ≤ w.size → Good w.offset v.lp v.lp (next v)

  judge-Good :
      (to : ℕ) (s : Sent) (v : Vars) (next : Vars → Option Run)
      → v.lp ≤ to
      → to ≤ w.size
      → Next next
      → Good w.offset v.lp (v.lp + taken s) (judge w to s v next)
  unfolding judge
  judge-Good to (accepted k) v next lo hi good = elim (Bool-cases (k == to - v.lp)) [
    | inr short ↦ rw short (λ t. inr (v.lp + k, refl, omega arith, refl))
    | inl whole ↦
        let sum : v.lp + k ≡ to = ground arith in
        elim (Bool-cases (w.has_notsent v.curr || (w.wait_send && ltb w.part_skip v.curr))) [
          | inl waits ↦ rw (whole, waits) (λ t. inr (to, refl, lo, sum))
          | inr on ↦
              rw (whole, on, sum)
                (weaken v.lp to to (next (record v { lp = to })) lo
                  (good (record v { lp = to }) hi))
        ]
  ]
  judge-Good to again v next lo hi good = λ t. inr (v.lp, refl, omega arith, omega arith)
  judge-Good to failed v next lo hi good = λ t. inl refl
  judge-Good to wait_file v next lo hi good = λ t. inr (v.lp, refl, omega arith, omega arith)
  judge-Good to no_packet v next lo hi good = λ t. inl refl

  send_part-Good :
      (m : Mode) (to : ℕ) (v : Vars) (next : Vars → Option Run)
      → v.lp ≤ to
      → to ≤ w.size
      → Next next
      → Good w.offset v.lp v.lp (send_part w m to v next)
  unfolding send_part mark_sent
  send_part-Good m to v next lo hi good = elim (Bool-cases (v.curr == w.part_skip)) [
    | inl old ↦ rw old (
        after_resumed w.offset v.lp v.lp to _
          (judge-Good to (accepted (to - v.lp)) (record v { sent = v.curr }) next lo hi good))
    | inr new ↦
        rw new (after_part w.offset v.lp v.lp m to (w.answer v.curr) _ (answered (w.answer v.curr)))
  ]
    where
      answered :
          (s : Sent) → Good w.offset v.lp (v.lp + taken s) (judge w to s (mark_sent w s v) next)
      answered (accepted k) =
          judge-Good to (accepted k) (record v { sent = v.curr }) next lo hi good
      answered again = judge-Good to again (record v { sent = v.curr }) next lo hi good
      answered failed = judge-Good to failed (record v { sent = v.curr }) next lo hi good
      answered wait_file = judge-Good to wait_file (record v { sent = v.curr }) next lo hi good
      answered no_packet = judge-Good to no_packet v next lo hi good

  place_part-Good :
      (p : Part) (to : ℤ) (v : Vars) (next : Vars → Option Run)
      → v.lp ≤ w.size
      → Next next
      → Good w.offset v.lp v.lp (place_part w p to v next)
  unfolding place_part
  place_part-Good p to v next h good =
      elim (Bool-cases (
        ((not (w.round_sent == 0) && ltb_ℤ to (pos w.round_sent)) || ltb v.curr w.part_skip)
        && not (has p.flag offset_start))) [
          | inl old ↦ rw old (good v h)
          | inr new ↦ elim (Bool-cases (not (w.offset == 0) && ltb_ℤ to (pos w.offset))) [
            | inl behind ↦ rw (new, behind) (good v h)
            | inr ahead ↦ elim (Bool-cases (ltb_ℤ to (pos v.lp))) [
              | inl back ↦ rw (new, ahead, back) (send_rest-Good v h)
              | inr forth ↦
                  rw (new, ahead, forth)
                    (send_part-Good p.m (if ltb w.size (pos_part to) then w.size else pos_part to) v
                      next (ground arith) (ground arith) good)
            ]
          ]
        ]

  round-Good :
      (p : Part) (k : ℕ) (v : Vars) (next : Vars → Option Run)
      → v.lp ≤ w.size
      → Next next
      → Good w.offset v.lp v.lp (round w p k v next)
  unfolding round
  round-Good p k v next h good =
      elim (Option-cases (gen_offset (w.rand (v.curr + 1)) p.at p.flag w.buf w.size v.lp v.info)) [
        | inl fault ↦ rw fault tt
        | inr (r, e) ↦ rw e (
            place_part-Good p (r.0 +ℤ pos (p.s * k)) (record v { curr = v.curr + 1; info = r.1 })
              next h good)
      ]

  pub loop-Good : (ps : List (Part × ℕ)) → Next (loop w ps)
  unfolding loop
  loop-Good [] v h = send_rest-Good v h
  loop-Good ((p, k) ∷ ps) v h = round-Good p k v (loop w ps) h (loop-Good ps)
