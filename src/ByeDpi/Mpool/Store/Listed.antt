-- ===== src/ByeDpi/Mpool/Store/Listed.antt =====
-- A list in place of the balanced tree has the laws of `Kavl`.
use zon_dpi.Prelude.{
  ℕ, zero, suc, ◌+◌, ◌&&◌, ◌≡◌, refl, sym, ap, ◌∙◌, Bool, true, false, Bool-cases, inl, inr, Option,
  none, some, List, [], ◌∷◌, length, arith, if◌then◌else◌,
}
use zon_dpi.Prelude.Int.{ℤ, pos, negsuc}
use zon_dpi.Bytes.Laws.{some_eq}
use zon_dpi.ByeDpi.Mpool.{Elem, scmp}
use zon_dpi.ByeDpi.Mpool.Store.{Entry, Kavl}

abbrev pub is_same : Option ℤ → Bool
is_same none = false
is_same (some (pos zero)) = true
is_same (some (pos (suc n))) = false
is_same (some (negsuc n)) = false

is_same_zero : (o : Option ℤ) → is_same o ≡ true → o ≡ some (pos 0)
is_same_zero none e = cc
is_same_zero (some (pos zero)) e = refl
is_same_zero (some (pos (suc n))) e = cc
is_same_zero (some (negsuc n)) e = cc

both_left : (a b : Bool) → (a && b) ≡ true → a ≡ true
both_left true b e = refl
both_left false b e = cc

both_right : (a b : Bool) → (a && b) ≡ true → b ≡ true
both_right true b e = e
both_right false b e = cc

both : {a b : Bool} → a ≡ true → b ≡ true → (a && b) ≡ true
both e f = rw (e, f) refl

opposite : (b : Bool) → b ≡ true → b ≡ false → ⊥
opposite b e f = cc

module _ {V : Type 0} where
  some_entry : (x : Entry V) → ¬ (some x ≡ none)
  some_entry x e = absurd (grind arith)

  -- Elements that are not the same as themselves are passed over.
  abbrev pub meets : ℕ → Elem → Entry V → Bool
  meets ct k e = is_same (scmp ct k e.key) && is_same (scmp ct e.key e.key)

  abbrev pub find_first : ℕ → List (Entry V) → Elem → Option (Entry V)
  find_first ct [] k = none
  find_first ct (e ∷ es) k = let rest = find_first ct es k in if meets ct k e then some e else rest

  abbrev pub without_first : ℕ → List (Entry V) → Elem → List (Entry V)
  without_first ct [] k = []
  without_first ct (e ∷ es) k =
      let rest = without_first ct es k in if meets ct k e then es else e ∷ rest

  abbrev pub put_first :
      ℕ → List (Entry V) → Entry V → Option (Entry V) → Option (Entry V) × List (Entry V)
  put_first ct t e none = (none, e ∷ t)
  put_first ct t e (some v) = (some v, t)

  abbrev pub insert_first : ℕ → List (Entry V) → Entry V → Option (Entry V) × List (Entry V)
  insert_first ct t e = put_first ct t e (find_first ct t e.key)

  abbrev pub erase_first : ℕ → List (Entry V) → Elem → Option (Entry V) × List (Entry V)
  erase_first ct t k = (find_first ct t k, without_first ct t k)

  pub find_first-same :
      (ct : ℕ) (t : List (Entry V)) (k : Elem) (e : Entry V)
      → find_first ct t k ≡ some e
      → (scmp ct k e.key ≡ some (pos 0)) × (is_same (scmp ct e.key e.key) ≡ true)
  find_first-same ct [] k e h = absurd (grind arith)
  find_first-same ct (x ∷ xs) k e h = elim (Bool-cases (meets ct k x)) [
    | inl m ↦
        let e' : x ≡ e = some_eq x e (rw m at h) in
        rw (← e') (is_same_zero (scmp ct k x.key) (both_left _ _ m), both_right _ _ m)
    | inr m ↦ find_first-same ct xs k e (rw m at h)
  ]

  pub find_first-length :
      (ct : ℕ) (t : List (Entry V)) (k : Elem) (e : Entry V)
      → find_first ct t k ≡ some e
      → length t ≡ length (without_first ct t k) + 1
  find_first-length ct [] k e h = absurd (grind arith)
  find_first-length ct (x ∷ xs) k e h = elim (Bool-cases (meets ct k x)) [
    | inl m ↦ rw m (omega arith)
    | inr m ↦ rw m (omega (arith, find_first-length ct xs k e (rw m at h)))
  ]

  pub find_first-none :
      (ct : ℕ) (t : List (Entry V)) (k : Elem)
      → find_first ct t k ≡ none
      → length (without_first ct t k) ≡ length t
  find_first-none ct [] k h = refl
  find_first-none ct (x ∷ xs) k h = elim (Bool-cases (meets ct k x)) [
    | inl m ↦ absurd (some_entry x (rw m at h))
    | inr m ↦ rw m (omega (arith, find_first-none ct xs k (rw m at h)))
  ]

  -- An element of the list that is the same as itself is found by its own key, or one before it.
  find_first-again :
      (ct : ℕ) (t : List (Entry V)) (k : Elem) (e : Entry V)
      → find_first ct t k ≡ some e
      → (w : Entry V) × (find_first ct t e.key ≡ some w)
  find_first-again ct [] k e h = absurd (grind arith)
  find_first-again ct (x ∷ xs) k e h = elim (Bool-cases (meets ct e.key x)) [
    | inl m ↦ (x, rw m refl)
    | inr m ↦ elim (Bool-cases (meets ct k x)) [
      | inl n ↦
          let e' : x ≡ e = some_eq x e (rw n at h) in
          let (zero_, self) = find_first-same ct (x ∷ xs) k e h in
          let meet : meets ct e.key x ≡ true = rw e' (both self self) in
          absurd (opposite (meets ct e.key x) meet m)
      | inr n ↦ let (w, f) = find_first-again ct xs k e (rw n at h) in (w, rw m f)
    ]
  ]

module _ {V : Type 0} (ct : ℕ) (t t' : List (Entry V)) (e : Entry V) where
  put_none : (o : Option (Entry V)) → put_first ct t e o ≡ (none, t') → (o ≡ none) × (t' ≡ e ∷ t)
  put_none none h = (refl, sym (ap (λ r. r.1) h))
  put_none (some v) h = absurd (some_entry v (ap (λ r. r.0) h))

  put_some :
      (v : Entry V) (o : Option (Entry V))
      → put_first ct t e o ≡ (some v, t')
      → (o ≡ some v) × (t' ≡ t)
  put_some v none h = absurd (some_entry v (sym (ap (λ r. r.0) h)))
  put_some v (some w) h = (ap (λ r. r.0) h, sym (ap (λ r. r.1) h))

  pub insert_first-none : insert_first ct t e ≡ (none, t') → length t' ≡ length t + 1
  insert_first-none h = omega (arith, ap length (put_none (find_first ct t e.key) h).1)

  pub insert_first-some :
      (v : Entry V)
      → insert_first ct t e ≡ (some v, t')
      → (length t' ≡ length t) × (scmp ct e.key v.key ≡ some (pos 0))
  insert_first-some v h =
      let (found, same) = put_some v (find_first ct t e.key) h in
      (ap length same, (find_first-same ct t e.key v found).0)

  pub insert_first-put :
      insert_first ct t e ≡ (none, t')
      → scmp ct e.key e.key ≡ some (pos 0)
      → find_first ct t' e.key ≡ some e
  insert_first-put h self =
      let (none_, same) = put_none (find_first ct t e.key) h in
      let met : meets ct e.key e ≡ true = rw self refl in rw same (rw met refl)

  pub insert_first-kept :
      (v : Entry V) → insert_first ct t e ≡ (some v, t') → find_first ct t' e.key ≡ some v
  insert_first-kept v h = let (found, same) = put_some v (find_first ct t e.key) h in rw same found

  pub erase_first-found :
      (v : Entry V)
      → insert_first ct t e ≡ (some v, t')
      → (w : Entry V) × (u : List (Entry V)) × (erase_first ct t' v.key ≡ (some w, u))
  erase_first-found v h =
      let (found, same) = put_some v (find_first ct t e.key) h in
      let (w, again) = find_first-again ct t e.key v found in
      (w, without_first ct t v.key, rw (same, again) refl)

abbrev pub listed : (V : Type 0) → Kavl V
listed V = record {
  T = List (Entry V);
  empty = [];
  size = length;
  find = find_first;
  insert = insert_first;
  erase = erase_first;
  size-empty = refl;
  find-some = λ ct t k e h. (find_first-same ct t k e h).0;
  insert-none = λ ct t t' e h. insert_first-none ct t t' e h;
  insert-some = λ ct t t' e v h. insert_first-some ct t t' e v h;
  find-put = λ ct t t' e h self. insert_first-put ct t t' e h self;
  find-kept = λ ct t t' e v h. insert_first-kept ct t t' e v h;
  erase-found = λ ct t t' e v h. erase_first-found ct t t' e v h;
  erase-some =
      λ ct t t' k w h. find_first-length ct t k w (ap (λ r. r.0) h) ∙ ap (λ r. length r.1 + 1) h;
  erase-none =
      λ ct t t' k h. sym (ap (λ r. length r.1) h) ∙ find_first-none ct t k (ap (λ r. r.0) h);
}
