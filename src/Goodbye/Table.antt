-- ===== src/Goodbye/Table.antt =====
-- What the connection trackers use of uthash: HASH_FIND_STR, HASH_ADD_STR, HASH_DEL, and
-- HASH_ITER with HASH_DEL in its body. The table is an argument of the models; an association
-- list shows that it can be had.
use zon_dpi.Prelude.{
  ℕ, ◌≡◌, ◌≢◌, refl, Bool, true, false, ◌&&◌, Option, none, some, List, [], ◌∷◌, ◌==◌,
  if◌then◌else◌, Bool-cases, inl, inr, arith, sym, ◌∙◌,
}

-- A key is the sequence of the words that are written into its bytes.
abbrev pub Key : Type 0
Key = List ℕ

pub record Table (V : Type 0) : Type 1 where
  pub T : Type 0
  pub empty : T
  pub find : Key → T → Option V
  pub add : Key → V → T → T
  pub del : Key → T → T
  -- Goes through all items and deletes those that the test does not keep.
  pub retain : (V → Bool) → T → T
  pub find-empty : (k : Key) → find k empty ≡ none
  pub find-add_self : (k : Key) (v : V) (t : T) → find k t ≡ none → find k (add k v t) ≡ some v
  pub find-add_other : (k j : Key) (v : V) (t : T) → k ≢ j → find j (add k v t) ≡ find j t
  pub find-del_self : (k : Key) (t : T) → find k (del k t) ≡ none
  pub find-del_other : (k j : Key) (t : T) → k ≢ j → find j (del k t) ≡ find j t
  pub find-retain_kept :
      (keep : V → Bool) (k : Key) (v : V) (t : T)
      → find k t ≡ some v
      → find k (retain keep t) ≡ (if keep v then some v else none)
  pub find-retain_none :
      (keep : V → Bool) (k : Key) (t : T) → find k t ≡ none → find k (retain keep t) ≡ none

abbrev pub key_eq : Key → Key → Bool
key_eq [] [] = true
key_eq [] (b ∷ bs) = false
key_eq (a ∷ as_) [] = false
key_eq (a ∷ as_) (b ∷ bs) = (a == b) && key_eq as_ bs

pub key_eq_sound : (j k : Key) → key_eq j k ≡ true → j ≡ k
key_eq_sound [] [] h = refl
key_eq_sound [] (b ∷ bs) h = cc
key_eq_sound (a ∷ as_) [] h = cc
key_eq_sound (a ∷ as_) (b ∷ bs) h = ground (arith, key_eq_sound as_ bs)

pub key_eq_refl : (k : Key) → key_eq k k ≡ true
key_eq_refl [] = refl
key_eq_refl (a ∷ as_) = ground (arith, key_eq_refl as_)

pub key_eq_ne : (j k : Key) → j ≢ k → key_eq j k ≡ false
key_eq_ne j k ne = elim (Bool-cases (key_eq j k)) [
  | inl e ↦ absurd (ne (key_eq_sound j k e))
  | inr e ↦ e
]

differs_of_key_eq : (j k : Key) → key_eq j k ≡ false → j ≢ k
differs_of_key_eq j k e same = let h = key_eq_refl k in cc

abbrev pub Entries : Type 0 → Type 0
Entries V = List (Key × V)

module _ {V : Type 0} where
  abbrev pub lookup : Key → Entries V → Option V
  lookup k [] = none
  lookup k ((j, v) ∷ t) = if key_eq j k then some v else lookup k t

  abbrev pub remove : Key → Entries V → Entries V
  remove k [] = []
  remove k ((j, v) ∷ t) = let rest = remove k t in if key_eq j k then rest else (j, v) ∷ rest

  -- A key has one item, so that the rest of the list loses what is left under the key.
  abbrev pub keep_all : (V → Bool) → Entries V → Entries V
  keep_all p [] = []
  keep_all p ((j, v) ∷ t) = let rest = keep_all p t in if p v then (j, v) ∷ rest else remove j rest

  pub lookup-remove_self : (k : Key) (t : Entries V) → lookup k (remove k t) ≡ none
  lookup-remove_self k [] = refl
  lookup-remove_self k ((j, v) ∷ t) = elim (Bool-cases (key_eq j k)) [
    | inl e ↦ rw (e, lookup-remove_self k t)
    | inr e ↦ rw (e, e, lookup-remove_self k t)
  ]

  pub lookup-remove_other : (k j : Key) (t : Entries V) → k ≢ j → lookup j (remove k t) ≡ lookup j t
  lookup-remove_other k j [] ne = refl
  lookup-remove_other k j ((i, v) ∷ t) ne = elim (Bool-cases (key_eq i k)) [
    | inl e ↦
        let same = key_eq_sound i k e in
        let off = key_eq_ne i j (λ q. ne (sym same ∙ q)) in
        rw (e, off, lookup-remove_other k j t ne)
    | inr e ↦ rw (e, lookup-remove_other k j t ne)
  ]

  abbrev pub kept : (V → Bool) → Option V → Option V
  kept p none = none
  kept p (some v) = if p v then some v else none

  pub lookup-keep_all :
      (p : V → Bool) (k : Key) (t : Entries V) → lookup k (keep_all p t) ≡ kept p (lookup k t)
  lookup-keep_all p k [] = refl
  lookup-keep_all p k ((i, w) ∷ t) = elim (Bool-cases (key_eq i k)) [
    | inl e ↦
        let same = key_eq_sound i k e in
        elim (Bool-cases (p w)) [
          | inl q ↦ rw (e, q, e)
          | inr q ↦ rw (e, q, same, lookup-remove_self k (keep_all p t))
        ]
    | inr e ↦ elim (Bool-cases (p w)) [
      | inl q ↦ rw (q, e, lookup-keep_all p k t)
      | inr q ↦ rw (
        e,
        q,
        lookup-remove_other i k (keep_all p t) (differs_of_key_eq i k e),
        lookup-keep_all p k t,
      )
    ]
  ]

abbrev pub assoc : (V : Type 0) → Table V
assoc V = record {
  T = Entries V;
  empty = [];
  find = lookup;
  add = λ k v t. (k, v) ∷ t;
  del = remove;
  retain = keep_all;
  find-empty = λ k. refl;
  find-add_self = λ k v t h. rw (key_eq_refl k);
  find-add_other = λ k j v t ne. rw (key_eq_ne k j ne);
  find-del_self = lookup-remove_self;
  find-del_other = lookup-remove_other;
  find-retain_kept = λ p k v t h. rw (lookup-keep_all p k t, h);
  find-retain_none = λ p k t h. rw (lookup-keep_all p k t, h);
}
