-- ===== src/ByeDpi/Extend/Tracker/Steps.antt =====
-- The loop over a chunk and a machine that takes one byte at a time.
use zon_dpi.Prelude.{
  ℕ, zero, suc, ◌+◌, ◌-◌, ◌*◌, ◌==◌, ==_iff, ◌&&◌, ◌||◌, ◌≡◌, ◌≢◌, ◌≤◌, ◌<◌, refl, sym, ap, ◌∙◌,
  leb, ltb, true, false, Bool-cases, inl, inr, ◌⊎◌, Option, none, some, List, [], ◌∷◌, drop, length,
  length-drop, arith, if◌then◌else◌,
}
use zon_dpi.Bytes.{◌>>=◌}
use zon_dpi.ByeDpi.Extend.Tracker.{
  Track, Tracked, broken, followed, record_size, stored, bad_type, Turn, stops, turns, take_payload,
  turn, follow, track,
}

-- Behind the last byte of a record, before the next one.
abbrev pub begun : Track → Track
begun t = if ltb 5 t.at && (t.at == t.size) then record t { at = 0; size = 0 } else t

-- The size is known from the fifth byte on.
abbrev pub measured : Track → Track
measured t = if t.at == 5 then record t { size = record_size t } else t

-- One byte: of a header, or of a payload; `none` for a bad header.
unfoldable pub step : Track → ℕ → Option Track
step t b =
    let s = begun t in
    let m = measured s in
    if ltb s.at 5
    then some (stored s b)
    else if ((s.at == 5) && bad_type s) || leb m.size m.at
    then none
    else some (record m { at = m.at + 1 })

unfoldable pub steps : Track → List ℕ → Option Track
steps t [] = some t
steps t (b ∷ bs) = step t b >>= λ s. steps s bs

-- What is seen of a run: the record that is being followed.
abbrev pub seen : Tracked → Option Track
seen (broken t) = none
seen (followed t) = some t

-- `t`, with `a` bytes of the record read.
abbrev pub placed : Track → ℕ → Track
placed t a = record t { at = a }

step-payload :
    (t : Track) (a b : ℕ) → 5 < a → a < t.size → step (placed t a) b ≡ some (placed t (a + 1))
unfolding step
step-payload t a b behind room =
    let e : (a == t.size) ≡ false = ground arith in
    let l : ltb a 5 ≡ false = ground arith in
    let m : (a == 5) ≡ false = ground arith in
    let n : leb t.size a ≡ false = ground arith in
    let o : ltb 5 a ≡ true = ground arith in rw (o, e, l, m, n) refl

pub steps-skip :
    (k : ℕ) (bs : List ℕ) (t : Track) (a : ℕ)
    → 5 < a
    → a + k ≤ t.size
    → k ≤ length bs
    → steps (placed t a) bs ≡ steps (placed t (a + k)) (drop k bs)
unfolding steps step
steps-skip zero bs t a behind room has = ap (λ n. steps (placed t n) bs) {y = a + 0} (omega arith)
steps-skip (suc k) [] t a behind room has = absurd (omega arith)
steps-skip (suc k) (b ∷ bs) t a behind room has =
    let here = step-payload t a b behind (omega arith) in
    rw here (
      steps-skip k bs t (a + 1) (omega arith) (omega arith) (omega arith)
      ∙ ap (λ n. steps (placed t n) (drop k bs)) {x = a + 1 + k} {y = a + suc k} (omega arith))

-- The payload that a turn takes at once is what the bytes make one by one.
take_payload-steps :
    (t : Track) (b : ℕ) (rest : List ℕ)
    → 5 < t.at
    → t.at < t.size
    → (s : Track) × (bs : List ℕ) × (take_payload t (b ∷ rest) ≡ turns s bs)
      × (length bs < length (b ∷ rest))
      × (steps t (b ∷ rest) ≡ steps s bs)
unfolding take_payload
take_payload-steps t b rest behind room =
    let open_ : leb t.size t.at ≡ false = ground arith in
    elim (Bool-cases (ltb (length (b ∷ rest)) (t.size - t.at))) [
      | inl all ↦
          let k = length (b ∷ rest) in
          (
            placed t (t.at + k),
            drop k (b ∷ rest),
            rw (open_, all) refl,
            omega (arith, length-drop k (b ∷ rest)),
            steps-skip k (b ∷ rest) t t.at behind (ground arith) (omega arith),
          )
      | inr part ↦
          let k = t.size - t.at in
          (
            placed t (t.at + k),
            drop k (b ∷ rest),
            rw (open_, part) refl,
            omega (arith, length-drop k (b ∷ rest)),
            steps-skip k (b ∷ rest) t t.at behind (omega arith) (ground arith),
          )
    ]

module _ (t : Track) (b : ℕ) where
  step-header : t.at < 5 → step t b ≡ some (stored t b)
  unfolding step
  step-header early =
      let o : ltb 5 t.at ≡ false = ground arith in
      let l : ltb t.at 5 ≡ true = ground arith in rw (o, l) refl

  step-bad : t.at ≡ 5 → (bad_type t || leb (record_size t) 5) ≡ true → step t b ≡ none
  unfolding step
  step-bad at bad =
      let o : ltb 5 t.at ≡ false = ground arith in
      let l : ltb t.at 5 ≡ false = ground arith in
      let f : (t.at == 5) ≡ true = ground arith in
      let g : leb (record_size t) t.at ≡ leb (record_size t) 5 = ap (leb (record_size t)) at in
      rw (o, l, f, g, bad) refl

  pub step-first :
      t.at ≡ 5
      → (bad_type t || leb (record_size t) 5) ≡ false
      → step t b ≡ some (placed (record t { size = record_size t }) 6)
  unfolding step
  step-first at good =
      let o : ltb 5 t.at ≡ false = ground arith in
      let l : ltb t.at 5 ≡ false = ground arith in
      let f : (t.at == 5) ≡ true = ground arith in
      let g : leb (record_size t) t.at ≡ leb (record_size t) 5 = ap (leb (record_size t)) at in
      rw (o, l, f, g, good)
        (ap (λ n. some (placed (record t { size = record_size t }) n)) {x = t.at + 1} {y = 6}
          (omega arith))

  step-over : 5 < t.at → t.size < t.at → step t b ≡ none
  unfolding step
  step-over behind over =
      let o : ltb 5 t.at ≡ true = ground arith in
      let e : (t.at == t.size) ≡ false = ground arith in
      let l : ltb t.at 5 ≡ false = ground arith in
      let m : (t.at == 5) ≡ false = ground arith in
      let n : leb t.size t.at ≡ true = ground arith in rw (o, e, l, m, n) refl

  pub step-begun : 5 < t.at → t.at ≡ t.size → step t b ≡ step (record t { at = 0; size = 0 }) b
  unfolding step
  step-begun behind whole =
      let o : ltb 5 t.at ≡ true = ground arith in
      let e : (t.at == t.size) ≡ true = ground arith in rw (o, e) refl

-- A turn that ends the loop for a bad header, or takes bytes as they make one by one.
abbrev Simulates : Turn → Track → ℕ → List ℕ → Type 0
Simulates r t b rest =
    ((s : Track) × (r ≡ stops s) × (step t b ≡ none))
    ⊎ ((s : Track) × (bs : List ℕ) × (r ≡ turns s bs)
        × (length bs ≤ length rest)
        × (steps t (b ∷ rest) ≡ steps s bs))

-- `k` bytes behind a header.
header-steps :
    (t : Track) (b : ℕ) (rest : List ℕ) (k : ℕ)
    → t.at ≡ 5
    → (bad_type t || leb (record_size t) 5) ≡ false
    → 0 < k
    → k ≤ record_size t - 5
    → k ≤ suc (length rest)
    → steps t (b ∷ rest)
      ≡ steps (record t { size = record_size t; at = t.at + k }) (drop k (b ∷ rest))
unfolding steps
header-steps t b rest zero five good some_ room has = absurd (omega arith)
header-steps t b rest (suc k) five good some_ room has =
    let m : Track = record t { size = record_size t } in
    rw (step-first t b five good) (
      steps-skip k rest m 6 (omega arith) (omega arith) (omega arith)
      ∙ ap (λ n. steps (placed m n) (drop k rest)) {x = 6 + k} {y = t.at + suc k} (omega arith))

header-Simulates :
    (t : Track) (b : ℕ) (rest : List ℕ) → t.at ≡ 5 → Simulates (turn t b rest) t b rest
unfolding turn take_payload
header-Simulates t b rest five =
    let m : Track = record t { size = record_size t } in
    let l : ltb t.at 5 ≡ false = ground arith in
    let f : (t.at == 5) ≡ true = ground arith in
    elim (Bool-cases (bad_type t)) [
      | inl bad ↦ inl (m, rw (l, f, bad) refl, step-bad t b five (rw bad refl))
      | inr good ↦ elim (Bool-cases (leb (record_size t) 5)) [
        | inl short ↦
            let g : leb (record_size t) t.at ≡ true = ground arith in
            inl (m, rw (l, f, good, g) refl, step-bad t b five (rw (good, short) refl))
        | inr long ↦
            let g : leb (record_size t) t.at ≡ false = ground arith in
            let valid : (bad_type t || leb (record_size t) 5) ≡ false = rw (good, long) refl in
            elim (Bool-cases (ltb (suc (length rest)) (record_size t - t.at))) [
              | inl all ↦
                  let k = suc (length rest) in
                  inr (
                    placed m (t.at + k),
                    drop k (b ∷ rest),
                    rw (l, f, good, g, all) refl,
                    omega (arith, length-drop k (b ∷ rest)),
                    header-steps t b rest k five valid (omega arith) (ground arith) (omega arith),
                  )
              | inr part ↦
                  let k = record_size t - t.at in
                  inr (
                    placed m (t.at + k),
                    drop k (b ∷ rest),
                    rw (l, f, good, g, part) refl,
                    ground (arith, length-drop k (b ∷ rest)),
                    header-steps t b rest k five valid (ground arith) (ground arith) (ground arith),
                  )
            ]
      ]
    ]

payload-Simulates :
    (t : Track) (b : ℕ) (rest : List ℕ)
    → 5 < t.at
    → t.at ≢ t.size
    → Simulates (turn t b rest) t b rest
unfolding turn take_payload
payload-Simulates t b rest behind open_ =
    let l : ltb t.at 5 ≡ false = ground arith in
    let f : (t.at == 5) ≡ false = ground arith in
    let e : (t.at == t.size) ≡ false = ground arith in
    elim (Bool-cases (leb t.size t.at)) [
      | inl over ↦ inl (t, rw (l, f, e, over) refl, step-over t b behind (ground arith))
      | inr room ↦
          let (s, bs, r, less, same) = take_payload-steps t b rest behind (ground arith) in
          inr (s, bs, rw (l, f, e) r, omega (arith, less), same)
    ]

turn-Simulates :
    (t : Track) (b : ℕ) (rest : List ℕ)
    → (t.at < 6) ⊎ (t.at ≢ t.size)
    → Simulates (turn t b rest) t b rest
unfolding turn steps
turn-Simulates t b rest live = elim (Bool-cases (ltb t.at 5)) [
  | inl header ↦
      inr (stored t b, rest, rw header refl, omega arith, rw (step-header t b (ground arith)) refl)
  | inr later ↦ elim (Bool-cases (t.at == 5)) [
    | inl five ↦ header-Simulates t b rest ((==_iff t.at 5).0 five)
    | inr behind ↦ payload-Simulates t b rest (ground arith) (ground arith)
  ]
]

turn-header :
    (t : Track) (b : ℕ) (rest : List ℕ) → t.at < 5 → turn t b rest ≡ turns (stored t b) rest
unfolding turn
turn-header t b rest early = let l : ltb t.at 5 ≡ true = ground arith in rw l refl

turn-begun :
    (t : Track) (b : ℕ) (rest : List ℕ)
    → 5 < t.at
    → t.at ≡ t.size
    → turn t b rest ≡ turns (record t { at = 0; size = 0 }) (b ∷ rest)
unfolding turn
turn-begun t b rest behind whole =
    let l : ltb t.at 5 ≡ false = ground arith in
    let f : (t.at == 5) ≡ false = ground arith in
    let e : (t.at == t.size) ≡ true = ground arith in rw (l, f, e) refl

-- With two turns for every byte, the loop over a chunk ends, and what it follows is what the bytes
-- make one by one.
follow-steps :
    (fuel : ℕ) (t : Track) (bs : List ℕ)
    → 2 * length bs ≤ fuel
    → (o : Tracked) × (follow fuel (turns t bs) ≡ some o) × (seen o ≡ steps t bs)
unfolding follow steps
follow-steps fuel t [] enough = (followed t, refl, refl)
follow-steps zero t (b ∷ rest) enough = absurd (omega arith)
follow-steps (suc zero) t (b ∷ rest) enough = absurd (omega arith)
follow-steps (suc (suc fuel)) t (b ∷ rest) enough =
    elim (Bool-cases (ltb 5 t.at && (t.at == t.size))) [
      | inl whole ↦
          let z : Track = record t { at = 0; size = 0 } in
          let (o, run, same) = follow-steps fuel (stored z b) rest (omega arith) in
          let next : step t b ≡ some (stored z b) =
            step-begun t b (ground arith) ((==_iff t.at t.size).0 (ground arith))
            ∙ step-header z b (omega arith) in
          let reset : turn t b rest ≡ turns z (b ∷ rest) =
            turn-begun t b rest (ground arith) (ground arith) in
          (
            o,
            ap (follow (suc fuel)) reset
                ∙ ap (follow fuel) (turn-header z b rest (omega arith))
                ∙ run,
            rw next same,
          )
      | inr live ↦ elim (turn-Simulates t b rest (ground arith)) [
        | inl (s, r, ends) ↦ (broken s, ap (follow (suc fuel)) r, rw ends refl)
        | inr (s, bs, r, less, same) ↦
            let (o, run, last) = follow-steps (suc fuel) s bs (omega arith) in
            (o, ap (follow (suc fuel)) r ∙ run, last ∙ sym same)
      ]
    ]

-- A run over a chunk that has a byte ends, with two turns for every byte, and what it follows is
-- what a machine makes that takes the bytes one by one: the size of the chunk has no part in it.
pub track-steps :
    (fuel : ℕ) (t : Track) (bs : List ℕ)
    → 0 < length bs
    → 2 * length bs < fuel
    → (o : Tracked) × (track fuel t bs ≡ some o) × (seen o ≡ steps t bs)
unfolding track follow
track-steps fuel t [] some_ enough = absurd (omega arith)
track-steps fuel t (b ∷ rest) some_ enough = follow-steps (suc fuel) t (b ∷ rest) (omega arith)
