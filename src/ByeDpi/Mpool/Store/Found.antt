-- ===== src/ByeDpi/Mpool/Store/Found.antt =====
-- What has been added to a set is found in it.
use mathlib.Core.Path.{subst}
use zon_dpi.Prelude.{
  ℕ, zero, suc, ◌+◌, ◌≡◌, refl, sym, ltb, Bool-cases, inl, inr, Option, none, some, List, arith,
}
use zon_dpi.Prelude.Int.{pos}
use zon_dpi.Bytes.Laws.{some_eq}
use zon_dpi.ByeDpi.Mpool.{scmp}
use zon_dpi.ByeDpi.Mpool.Store.{Entry, Kavl, Mphdr, mem_get, dropped, mem_delete, settle, mem_add}

none_run {ℓ} : {A : Type ℓ} (x : A) → ¬ (none ≡ some x)
none_run x e = absurd (grind arith)

module _ {V : Type 0} (K : Kavl V) where
  dropped-cmp_type :
      (hdr : Mphdr K) (r : Option (Entry V) × K.T) → (dropped K hdr r).cmp_type ≡ hdr.cmp_type
  dropped-cmp_type hdr (none, t) = refl
  dropped-cmp_type hdr (some e, t) = refl

  settle-found :
      (fuel : ℕ) (e : Entry V) (hdr : Mphdr K) (o : Option (Entry V)) (t : K.T) (v : Entry V)
      (h : Mphdr K)
      → scmp hdr.cmp_type e.key e.key ≡ some (pos 0)
      → K.insert hdr.cmp_type hdr.root e ≡ (o, t)
      → settle K fuel e hdr (o, t) ≡ some (v, h)
      → K.find h.cmp_type h.root e.key ≡ some v
  unfolding settle mem_delete
  settle-found fuel e hdr none t v h self ins run =
      let kept : Mphdr K = record hdr { root = t; count = hdr.count + 1 } in
      subst (λ p. K.find p.1.cmp_type p.1.root e.key ≡ some p.0) (some_eq (e, kept) (v, h) run)
        (K.find-put hdr.cmp_type hdr.root t e ins self)
  settle-found zero e hdr (some w) t v h self ins run = absurd (none_run (v, h) run)
  settle-found (suc fuel) e hdr (some w) t v h self ins run =
      elim (Bool-cases (ltb e.key.len w.key.len)) [
        | inr short ↦
            let kept : Mphdr K = record hdr { root = t } in
            subst (λ p. K.find p.1.cmp_type p.1.root e.key ≡ some p.0)
              (some_eq (w, kept) (v, h) (rw short at run))
              (K.find-kept hdr.cmp_type hdr.root t e w ins)
        | inl long ↦
            let rest = mem_delete K (record hdr { root = t }) w.key.bytes w.key.len in
            let r = K.insert rest.cmp_type rest.root e in
            let same : rest.cmp_type ≡ hdr.cmp_type =
              dropped-cmp_type (record hdr { root = t }) (K.erase hdr.cmp_type t w.key) in
            settle-found fuel e rest r.0 r.1 v h
              (subst (λ ct. scmp ct e.key e.key ≡ some (pos 0)) (sym same) self) refl
              (rw long at run)
      ]

  -- What `mem_add` returns is what `mem_get` finds for the same string, if the string counts as the
  -- same as itself.
  pub mem_get-mem_add :
      (fuel : ℕ) (fresh : V) (hdr : Mphdr K) (str : List ℕ) (len : ℕ) (v : Entry V) (h : Mphdr K)
      → scmp hdr.cmp_type (record { len = len; bytes = str }) (record { len = len; bytes = str })
        ≡ some (pos 0)
      → mem_add K fuel fresh hdr str len ≡ some (v, h)
      → mem_get K h str len ≡ some v
  unfolding mem_add mem_get
  mem_get-mem_add fuel fresh hdr str len v h self run =
      let e : Entry V = record { key = record { len = len; bytes = str }; val = fresh } in
      let r = K.insert hdr.cmp_type hdr.root e in settle-found fuel e hdr r.0 r.1 v h self refl run
