-- ===== src/ByeDpi/Mpool/Lists.antt =====
-- Lists that agree at every index.
use zon_dpi.Prelude.{
  ℕ, zero, suc, ◌≡◌, ◌<◌, refl, ap, ◌∙◌, some, List, [], ◌∷◌, drop, length, get_elem?, arith,
}
use zon_dpi.Bytes.Laws.{some_inv}

-- Lists of one length with the same elements are equal.
pub get_elem?-ext :
    (xs ys : List ℕ)
    → length xs ≡ length ys
    → ((m : ℕ) → m < length xs → get_elem? xs m ≡ get_elem? ys m)
    → xs ≡ ys
get_elem?-ext [] [] n h = refl
get_elem?-ext [] (y ∷ ys) n h = absurd (omega arith)
get_elem?-ext (x ∷ xs) [] n h = absurd (omega arith)
get_elem?-ext (x ∷ xs) (y ∷ ys) n h =
    let head : x ≡ y = some_inv x y (h 0 (omega arith)) in
    let tail = get_elem?-ext xs ys (omega arith) (λ m lt. h (suc m) (omega arith)) in
    ap (λ z. z ∷ xs) head ∙ ap (λ l. y ∷ l) tail

-- A list is what stands before an index, the element there and what stands behind.
pub drop-get : (xs : List ℕ) (i x : ℕ) → get_elem? xs i ≡ some x → drop i xs ≡ x ∷ drop (suc i) xs
drop-get [] i x e = absurd (grind arith)
drop-get (y ∷ ys) zero x e = ap (λ z. z ∷ ys) (some_inv y x e)
drop-get (y ∷ ys) (suc i) x e = drop-get ys i x e
