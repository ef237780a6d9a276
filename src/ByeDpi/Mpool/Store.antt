-- ===== src/ByeDpi/Mpool/Store.antt =====
-- The sets: `mem_pool`, `mem_get`, `mem_add` and `mem_delete` of engines/byedpi/upstream/mpool.c.
-- The balanced tree of kavl.h is an argument; `V` is what an element holds besides its key.
-- Memory is always had.
pub mod Listed
pub mod Found
use zon_dpi.Prelude.{
  ℕ, zero, suc, ◌+◌, ◌-◌, ◌≡◌, ◌≢◌, ◌≤◌, ◌<◌, ◌⊎◌, refl, sym, ap, ◌∙◌, ltb, Bool, true, false,
  Bool-cases, inl, inr, Option, none, some, List, arith, if◌then◌else◌,
}
use zon_dpi.Prelude.Int.{ℤ, pos}
use zon_dpi.ByeDpi.Mpool.{Elem, scmp}

pub record Entry (V : Type 0) : Type 0 where
  pub key : Elem
  pub val : V

-- `kavl_find`, `kavl_insert` and `kavl_erase` for a way of comparing. An insertion gives the element
-- that is there already, and `none` if it has put the new one in.
pub record Kavl (V : Type 0) : Type 1 where
  pub T : Type 0
  pub empty : T
  pub size : T → ℕ
  pub find : ℕ → T → Elem → Option (Entry V)
  pub insert : ℕ → T → Entry V → Option (Entry V) × T
  pub erase : ℕ → T → Elem → Option (Entry V) × T
  pub size-empty : size empty ≡ 0
  pub find-some :
      (ct : ℕ) (t : T) (k : Elem) (e : Entry V)
      → find ct t k ≡ some e
      → scmp ct k e.key ≡ some (pos 0)
  pub insert-none :
      (ct : ℕ) (t t' : T) (e : Entry V) → insert ct t e ≡ (none, t') → size t' ≡ size t + 1
  pub insert-some :
      (ct : ℕ) (t t' : T) (e v : Entry V)
      → insert ct t e ≡ (some v, t')
      → (size t' ≡ size t) × (scmp ct e.key v.key ≡ some (pos 0))
  -- What an insertion puts in or finds is found by the same key.
  pub find-put :
      (ct : ℕ) (t t' : T) (e : Entry V)
      → insert ct t e ≡ (none, t')
      → scmp ct e.key e.key ≡ some (pos 0)
      → find ct t' e.key ≡ some e
  pub find-kept :
      (ct : ℕ) (t t' : T) (e v : Entry V) → insert ct t e ≡ (some v, t') → find ct t' e.key ≡ some v
  -- What an insertion finds is there to be erased.
  pub erase-found :
      (ct : ℕ) (t t' : T) (e v : Entry V)
      → insert ct t e ≡ (some v, t')
      → (w : Entry V) × (u : T) × (erase ct t' v.key ≡ (some w, u))
  pub erase-some :
      (ct : ℕ) (t t' : T) (k : Elem) (w : Entry V)
      → erase ct t k ≡ (some w, t')
      → size t ≡ size t' + 1
  pub erase-none : (ct : ℕ) (t t' : T) (k : Elem) → erase ct t k ≡ (none, t') → size t' ≡ size t

module _ {V : Type 0} (K : Kavl V) where
  -- `struct mphdr`
  pub record Mphdr : Type 0 where
    pub flags : ℕ
    pub cmp_type : ℕ
    pub count : ℕ
    pub root : K.T

  unfoldable pub mem_pool : ℕ → ℕ → Mphdr
  mem_pool flags cmp_type = record { flags = flags; cmp_type = cmp_type; count = 0; root = K.empty }

  unfoldable pub mem_get : Mphdr → List ℕ → ℕ → Option (Entry V)
  mem_get hdr str len = K.find hdr.cmp_type hdr.root (record { len = len; bytes = str })

  -- What `mem_delete` does with the element erased.
  abbrev pub dropped : Mphdr → Option (Entry V) × K.T → Mphdr
  dropped hdr (none, t) = record hdr { root = t }
  dropped hdr (some e, t) = record hdr { root = t; count = hdr.count - 1 }

  unfoldable pub mem_delete : Mphdr → List ℕ → ℕ → Mphdr
  mem_delete hdr str len =
      dropped hdr (K.erase hdr.cmp_type hdr.root (record { len = len; bytes = str }))

  -- The loop of `mem_add` and what follows it, for the value of `kavl_insert`, with fuel.
  unfoldable pub settle : ℕ → Entry V → Mphdr → Option (Entry V) × K.T → Option (Entry V × Mphdr)
  settle fuel e hdr (none, t) = some (e, record hdr { root = t; count = hdr.count + 1 })
  settle zero e hdr (some v, t) = none
  settle (suc fuel) e hdr (some v, t) =
      let kept = record hdr { root = t } in
      let rest = mem_delete kept v.key.bytes v.key.len in
      let next = settle fuel e rest (K.insert rest.cmp_type rest.root e) in
      if ltb e.key.len v.key.len then next else some (v, kept)

  -- `fresh` is what `calloc` leaves of the other fields.
  unfoldable pub mem_add : ℕ → V → Mphdr → List ℕ → ℕ → Option (Entry V × Mphdr)
  mem_add fuel fresh hdr str len =
      let e : Entry V = record { key = record { len = len; bytes = str }; val = fresh } in
      settle fuel e hdr (K.insert hdr.cmp_type hdr.root e)

  -- `count` is the number of elements in the tree.
  abbrev pub IsCounted : Mphdr → Type 0
  IsCounted hdr = hdr.count ≡ K.size hdr.root

  dropped-IsCounted :
      (hdr : Mphdr) (k : Elem) (o : Option (Entry V)) (t : K.T)
      → IsCounted hdr
      → K.erase hdr.cmp_type hdr.root k ≡ (o, t)
      → IsCounted (dropped hdr (o, t))
  dropped-IsCounted hdr k none t h e = h ∙ sym (K.erase-none hdr.cmp_type hdr.root t k e)
  dropped-IsCounted hdr k (some w) t h e =
      omega (arith, h, K.erase-some hdr.cmp_type hdr.root t k w e)

  -- Deleting keeps the count right, whether the element is there or not.
  pub mem_delete-IsCounted :
      (hdr : Mphdr) (str : List ℕ) (len : ℕ) → IsCounted hdr → IsCounted (mem_delete hdr str len)
  unfolding mem_delete
  mem_delete-IsCounted hdr str len h =
      let k : Elem = record { len = len; bytes = str } in
      let r = K.erase hdr.cmp_type hdr.root k in dropped-IsCounted hdr k r.0 r.1 h refl

  -- The element that is there in the end: the new one, or one that counts as the same and is not
  -- longer.
  abbrev pub IsHeld : ℕ → Entry V → Entry V → Type 0
  IsHeld ct e v = (v ≡ e) ⊎ ((scmp ct e.key v.key ≡ some (pos 0)) × (v.key.len ≤ e.key.len))

  mem_delete-run :
      (hdr : Mphdr) (k : Elem) (w : Entry V) (u : K.T)
      → K.erase hdr.cmp_type hdr.root k ≡ (some w, u)
      → mem_delete hdr k.bytes k.len ≡ record hdr { root = u; count = hdr.count - 1 }
  unfolding mem_delete
  mem_delete-run hdr k w u e = ap (dropped hdr) e

  settle-IsCounted :
      (fuel : ℕ) (e : Entry V) (hdr : Mphdr) (o : Option (Entry V)) (t : K.T)
      → IsCounted hdr
      → K.insert hdr.cmp_type hdr.root e ≡ (o, t)
      → K.size hdr.root < fuel
      → (v : Entry V) × (h : Mphdr) × (settle fuel e hdr (o, t) ≡ some (v, h))
        × IsCounted h
        × (h.cmp_type ≡ hdr.cmp_type)
        × IsHeld hdr.cmp_type e v
  unfolding settle
  settle-IsCounted fuel e hdr none t h ins enough = (
    e,
    record hdr { root = t; count = hdr.count + 1 },
    refl,
    omega (arith, h, K.insert-none hdr.cmp_type hdr.root t e ins),
    refl,
    inl refl,
  )
  settle-IsCounted zero e hdr (some v) t h ins enough = absurd (omega arith)
  settle-IsCounted (suc fuel) e hdr (some v) t h ins enough =
      let (size, same) = K.insert-some hdr.cmp_type hdr.root t e v ins in
      let (w, u, er) = K.erase-found hdr.cmp_type hdr.root t e v ins in
      let less = K.erase-some hdr.cmp_type t u v.key w er in
      let kept : Mphdr = record hdr { root = t } in
      let rest : Mphdr = record hdr { root = u; count = hdr.count - 1 } in
      let deleted : mem_delete kept v.key.bytes v.key.len ≡ rest =
        mem_delete-run kept v.key w u er in
      elim (Bool-cases (ltb e.key.len v.key.len)) [
        | inr short ↦ (v, kept, rw short refl, h ∙ sym size, refl, inr (same, ground arith))
        | inl long ↦
            let r = K.insert hdr.cmp_type u e in
            let (v', h', run, counted, ct, held) =
              settle-IsCounted fuel e rest r.0 r.1 (omega (arith, h, size, less)) refl
                (omega (arith, size, less)) in
            (
              v',
              h',
              rw long (ap (λ m. settle fuel e m (K.insert m.cmp_type m.root e)) deleted ∙ run),
              counted,
              ct,
              held,
            )
      ]

  -- `mem_add` ends, with more rounds than there are elements, and keeps the count right; what it
  -- returns is the new element, or one that counts as the same and is not longer.
  pub mem_add-IsCounted :
      (fuel : ℕ) (fresh : V) (hdr : Mphdr) (str : List ℕ) (len : ℕ)
      → IsCounted hdr
      → K.size hdr.root < fuel
      → (v : Entry V) × (h : Mphdr) × (mem_add fuel fresh hdr str len ≡ some (v, h))
        × IsCounted h
        × (h.cmp_type ≡ hdr.cmp_type)
        × IsHeld hdr.cmp_type (record { key = record { len = len; bytes = str }; val = fresh }) v
  unfolding mem_add
  mem_add-IsCounted fuel fresh hdr str len h enough =
      let e : Entry V = record { key = record { len = len; bytes = str }; val = fresh } in
      let r = K.insert hdr.cmp_type hdr.root e in settle-IsCounted fuel e hdr r.0 r.1 h refl enough
