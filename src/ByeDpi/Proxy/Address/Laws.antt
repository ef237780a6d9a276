-- ===== src/ByeDpi/Proxy/Address/Laws.antt =====
-- Reading what has been written at a place of a buffer.
use zon_dpi.Prelude.{
  ℕ, ◌+◌, ◌≡◌, ◌≤◌, refl, ap, ◌∙◌, true, leb, some, List, [], ◌∷◌, ◌++◌, take, drop, length,
  length-append, length-take, length-drop, arith,
}
use zon_dpi.Bytes.Laws.{drop-append, take-append, drop-append_less}
use zon_dpi.ByeDpi.Proxy.{bytes, put}

-- The bytes of the middle of three lists.
pub bytes-append :
    (xs ys zs : List ℕ) (i n : ℕ)
    → i ≡ length xs
    → n ≡ length ys
    → bytes (xs ++ (ys ++ zs)) i n ≡ some ys
unfolding bytes
bytes-append xs ys zs i n e k =
    let fits : leb (i + n) (length (xs ++ (ys ++ zs))) ≡ true =
      ground (arith, length-append xs (ys ++ zs), length-append ys zs) in
    rw (fits, drop-append xs (ys ++ zs) 0 i (omega arith), take-append ys zs n k) refl

pub bytes-some :
    (buf : List ℕ) (i n : ℕ)
    → i + n ≤ length buf
    → (bs : List ℕ) × (bytes buf i n ≡ some bs) × (length bs ≡ n)
unfolding bytes
bytes-some buf i n h =
    let fits : leb (i + n) (length buf) ≡ true = ground arith in
    (
      take n (drop i buf),
      rw fits refl,
      omega (arith, length-take n (drop i buf), length-drop i buf),
    )

three : (xs : List ℕ) → length xs ≡ 3 → (a : ℕ) × (b : ℕ) × (c : ℕ) × (xs ≡ a ∷ b ∷ c ∷ [])
three [] e = absurd (omega arith)
three (a ∷ []) e = absurd (omega arith)
three (a ∷ b ∷ []) e = absurd (omega arith)
three (a ∷ b ∷ c ∷ []) e = (a, b, c, refl)
three (a ∷ b ∷ c ∷ d ∷ xs) e = absurd (omega arith)

-- What bytes written at `r + 3` look like from `r` on.
pub drop-put :
    (mem bs : List ℕ) (r : ℕ)
    → r + 3 ≤ length mem
    → (a : ℕ) × (b : ℕ) × (c : ℕ) × (ys : List ℕ) × (drop r (put mem (r + 3) bs)
        ≡ a ∷ b ∷ c ∷ (bs ++ ys))
unfolding put
drop-put mem bs r h =
    let before = take (r + 3) mem in
    let n : length before ≡ r + 3 = omega (arith, length-take (r + 3) mem) in
    let (a, b, c, e) = three (drop r before) (omega (arith, n, length-drop r before)) in
    let behind = drop (r + 3 + length bs) mem in
    (
      a,
      b,
      c,
      behind,
      drop-append_less before (bs ++ behind) r (omega (arith, n)) ∙ ap (λ l. l ++ (bs ++ behind)) e,
    )
