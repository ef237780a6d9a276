-- ===== src/ByeDpi/Conev/Buffers.antt =====
-- The free buffers of the event loop: `buff_pop` and `buff_push` of
-- engines/byedpi/upstream/conev.c, and `buff_ppop` of conev.h. Memory is always had.
use zon_dpi.Prelude.{
  ℕ, suc, ◌+◌, ◌-◌, ◌≡◌, ◌≤◌, ◌⊎◌, refl, leb, leb→le, Option, none, some, List, [], ◌∷◌, arith,
  length, if◌then◌else◌, Bool-cases, inl, inr,
}
use zon_dpi.Prelude.Int.{pos}
use zon_dpi.ByeDpi.Conev.{Buffer, Pool}

abbrev pub max_buff_inp : ℕ
max_buff_inp = 8

-- `buff_pop` for a list of free buffers; a new one has no bytes locked and no offset.
unfoldable pub pop_free : ℕ → List Buffer → Pool → Buffer × Pool
pop_free size [] p = (record { size = size; offset = 0; lock = pos 0 }, p)
pop_free size (b ∷ bs) p = (b, record p { free_buffs = bs; buff_count = p.buff_count - 1 })

unfoldable pub buff_pop : Pool → ℕ → Buffer × Pool
buff_pop p size = pop_free size p.free_buffs p

-- `none` is a null pointer.
unfoldable pub buff_push : Pool → Option Buffer → Pool
buff_push p none = p
buff_push p (some b) = if leb max_buff_inp p.buff_count then p else record p {
  free_buffs = record b { lock = pos 0; offset = 0 } ∷ p.free_buffs;
  buff_count = p.buff_count + 1;
}

unfoldable pub buff_ppop : Pool → ℕ → Buffer × Pool
buff_ppop p size = let (b, rest) = buff_pop p size in (b, buff_push rest (some b))

-- The list of free buffers has the length counted, and at most `max_buff_inp`.
abbrev pub IsBounded : Pool → Type 0
IsBounded p = (length p.free_buffs ≡ p.buff_count) × (p.buff_count ≤ max_buff_inp)

pub buff_push-IsBounded : (p : Pool) (b : Option Buffer) → IsBounded p → IsBounded (buff_push p b)
unfolding buff_push
buff_push-IsBounded p none h = h
buff_push-IsBounded p (some b) h = elim (Bool-cases (leb max_buff_inp p.buff_count)) [
  | inl full ↦ rw full h
  | inr room ↦ rw room (omega (arith, h.0), ground arith)
]

pop_free-IsBounded :
    (size : ℕ) (bs : List Buffer) (p : Pool)
    → p.free_buffs ≡ bs
    → IsBounded p
    → IsBounded (pop_free size bs p).1
unfolding pop_free
pop_free-IsBounded size [] p e h = h
pop_free-IsBounded size (b ∷ bs) p e h =
    let n : length p.free_buffs ≡ suc (length bs) = rw e in
    (omega (arith, n, h.0), omega (arith, h.1))

-- `buff_pop` and `buff_ppop` keep the count and the bound of the free buffers, and a buffer given
-- back by `buff_push`, unless the list is full, is the one that the next `buff_pop` gives, with
-- nothing locked and no offset.
pub buff_pop-buff_push :
    (p : Pool) (size : ℕ) (b : Buffer)
    → IsBounded p
    → IsBounded (buff_pop p size).1
      × IsBounded (buff_ppop p size).1
      × ((p.buff_count ≡ max_buff_inp)
          ⊎ (buff_pop (buff_push p (some b)) size ≡ (record b { lock = pos 0; offset = 0 }, p)))
unfolding buff_pop buff_ppop pop_free buff_push
buff_pop-buff_push p size b h =
    let popped = pop_free-IsBounded size p.free_buffs p refl h in
    (
      popped,
      buff_push-IsBounded (pop_free size p.free_buffs p).1 (some (pop_free size p.free_buffs p).0)
          popped,
      elim (Bool-cases (leb max_buff_inp p.buff_count)) [
        | inl full ↦ inl (omega (arith, h.1, leb→le max_buff_inp p.buff_count full))
        | inr room ↦ inr (let e : p.buff_count + 1 - 1 ≡ p.buff_count = omega arith in rw (room, e))
      ],
    )
