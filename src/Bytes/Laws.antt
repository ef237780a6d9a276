-- ===== src/Bytes/Laws.antt =====
-- Reading, writing and moving bytes at a known place of a buffer. A place is any number that is
-- the length of what stands before it and an offset.
use native.Mathlib.Nat.{add-zero}
use zon_dpi.Prelude.{
  take-append-drop, ℕ, zero, suc, ◌+◌, ◌∙◌, ◌*◌, ◌/◌, ◌%◌, ◌<◌, ◌≤◌, ◌≡◌, refl, ap, Option, none,
  some, List, [], ◌∷◌, ◌++◌, get_elem?, set, take, drop, length, arith,
}
use zon_dpi.Bytes.{widen, antohs, antohs_u16, shtona, memmove}

module _ {ℓ} {A : Type ℓ} where
  pub get_elem?-append_right :
      (xs ys : List A) (i j : ℕ) → j ≡ length xs + i → get_elem? (xs ++ ys) j ≡ get_elem? ys i
  get_elem?-append_right [] ys i j e = ap (get_elem? ys) {y = i} (omega arith)
  get_elem?-append_right (x ∷ xs) ys i zero e = absurd (omega arith)
  get_elem?-append_right (x ∷ xs) ys i (suc j) e = get_elem?-append_right xs ys i j (omega arith)

  pub get_elem?-append_left :
      (xs ys : List A) (j : ℕ) → j < length xs → get_elem? (xs ++ ys) j ≡ get_elem? xs j
  get_elem?-append_left [] ys j h = absurd (omega arith)
  get_elem?-append_left (x ∷ xs) ys zero h = refl
  get_elem?-append_left (x ∷ xs) ys (suc j) h = get_elem?-append_left xs ys j (omega arith)

  pub set-append_right :
      (xs ys : List A) (i j : ℕ) (v : A) → j ≡ length xs + i → set (xs ++ ys) j v ≡ xs ++ set ys i v
  set-append_right [] ys i j v e = ap (λ k. set ys k v) {y = i} (omega arith)
  set-append_right (x ∷ xs) ys i zero v e = absurd (omega arith)
  set-append_right (x ∷ xs) ys i (suc j) v e =
      ap (λ l. x ∷ l) (set-append_right xs ys i j v (omega arith))

  pub take-append : (xs ys : List A) (n : ℕ) → n ≡ length xs → take n (xs ++ ys) ≡ xs
  take-append [] ys zero e = refl
  take-append [] ys (suc n) e = absurd (omega arith)
  take-append (x ∷ xs) ys zero e = absurd (omega arith)
  take-append (x ∷ xs) ys (suc n) e = ap (λ l. x ∷ l) (take-append xs ys n (omega arith))

  -- Beyond the first list, the rest is cut.
  pub take-append_more :
      (xs ys : List A) (i n : ℕ) → n ≡ length xs + i → take n (xs ++ ys) ≡ xs ++ take i ys
  take-append_more [] ys i n e = ap (λ k. take k ys) {y = i} (omega arith)
  take-append_more (x ∷ xs) ys i zero e = absurd (omega arith)
  take-append_more (x ∷ xs) ys i (suc n) e =
      ap (λ l. x ∷ l) (take-append_more xs ys i n (omega arith))

  pub drop-append : (xs ys : List A) (i n : ℕ) → n ≡ length xs + i → drop n (xs ++ ys) ≡ drop i ys
  drop-append [] ys i n e = ap (λ k. drop k ys) {y = i} (omega arith)
  drop-append (x ∷ xs) ys i zero e = absurd (omega arith)
  drop-append (x ∷ xs) ys i (suc n) e = drop-append xs ys i n (omega arith)

  -- A cut inside the first list.
  pub drop-append_less :
      (xs ys : List A) (n : ℕ) → n ≤ length xs → drop n (xs ++ ys) ≡ drop n xs ++ ys
  drop-append_less xs ys zero h = refl
  drop-append_less [] ys (suc n) h = absurd (omega arith)
  drop-append_less (x ∷ xs) ys (suc n) h = drop-append_less xs ys n (omega arith)

  pub get_elem?-some : (xs : List A) (i : ℕ) → i < length xs → (x : A) × (get_elem? xs i ≡ some x)
  get_elem?-some [] i h = absurd (omega arith)
  get_elem?-some (x ∷ xs) zero h = (x, refl)
  get_elem?-some (x ∷ xs) (suc i) h = get_elem?-some xs i (omega arith)

or_else {ℓ} : {A : Type ℓ} → A → Option A → A
or_else d none = d
or_else d (some a) = a

pub some_eq {ℓ} : {A : Type ℓ} (x y : A) → some x ≡ some y → x ≡ y
unfolding or_else
some_eq x y e = ap (or_else x) e

pub some_inv : (x y : ℕ) → some x ≡ some y → x ≡ y
some_inv x y e = grind arith

pub get_elem?-drop : (xs : List ℕ) (a j : ℕ) → get_elem? (drop a xs) j ≡ get_elem? xs (a + j)
get_elem?-drop xs zero j = ap (get_elem? xs) {y = 0 + j} (omega arith)
get_elem?-drop [] (suc a) j = refl
get_elem?-drop (x ∷ xs) (suc a) j =
    get_elem?-drop xs a j ∙ ap (get_elem? (x ∷ xs)) {x = suc (a + j)} (omega arith)

pub antohs-some : (buf : List ℕ) (i : ℕ) → i + 1 < length buf → (v : ℕ) × (antohs buf i ≡ some v)
unfolding antohs
antohs-some buf i h =
    let (hi, eh) = get_elem?-some buf i (omega arith) in
    let (lo, el) = get_elem?-some buf (i + 1) h in (widen hi * 256 + lo, rw (eh, el))

-- A read of two bytes inside the buffer gives a number of 16 bits.
pub antohs_u16-some :
    (buf : List ℕ) (i : ℕ)
    → i + 1 < length buf
    → (v : ℕ) × (antohs_u16 buf i ≡ some v) × (v < 65536)
unfolding antohs_u16 antohs
antohs_u16-some buf i h =
    let (hi, eh) = get_elem?-some buf i (omega arith) in
    let (lo, el) = get_elem?-some buf (i + 1) h in
    ((widen hi * 256 + lo) % 65536, rw (eh, el), omega arith)

-- In a `uint16_t` the sign of the high byte is gone.
pub antohs_u16_at :
    (xs ys : List ℕ) (hi lo j : ℕ)
    → hi < 256
    → lo < 256
    → j ≡ length xs
    → antohs_u16 (xs ++ (hi ∷ lo ∷ ys)) j ≡ some (hi * 256 + lo)
unfolding antohs_u16 antohs
antohs_u16_at xs ys hi lo j hh hl e = ground (
  arith,
  get_elem?-append_right xs (hi ∷ lo ∷ ys) 0 j,
  get_elem?-append_right xs (hi ∷ lo ∷ ys) 1 (j + 1),
)

-- What SHTONA stores.
pub shtona_at :
    (xs ys : List ℕ) (a b x j : ℕ)
    → j ≡ length xs
    → shtona (xs ++ (a ∷ b ∷ ys)) j x ≡ xs ++ (x / 256 % 256 ∷ x % 256 ∷ ys)
unfolding shtona
shtona_at xs ys a b x j e =
    rw (set-append_right xs (a ∷ b ∷ ys) 0 j (x / 256 % 256) (omega arith))
      (set-append_right xs (x / 256 % 256 ∷ b ∷ ys) 1 (j + 1) (x % 256) (omega arith))

-- Moving no byte changes nothing.
pub memmove-none : (buf : List ℕ) (to from n : ℕ) → n ≡ 0 → memmove buf to from n ≡ buf
unfolding memmove
memmove-none buf to from n e = rw (e, add-zero) (take-append-drop to buf)
