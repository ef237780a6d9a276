-- ===== src/ByeDpi/Extend/Trigger/Marks.antt =====
-- The bits of the groups that the loop of `on_trigger` passes.
use zon_dpi.Prelude.{
  ℕ, suc, ◌==◌, ==_iff, ◌&&◌, ◌≡◌, refl, sym, ap, ◌∙◌, Bool, true, false, Bool-cases, inl, inr,
  Option, none, some, List, [], ◌∷◌, ◌++◌, length, length-set, get_elem?, get_or, set, arith,
}
use zon_dpi.Bytes.Laws.{some_eq}
use zon_dpi.ByeDpi.Mpool.Store.{Kavl}
use zon_dpi.ByeDpi.Extend.Groups.{Group}
use zon_dpi.ByeDpi.Extend.Masks.{refused_bool, get_or-set_ne, Grown, set-Grown}
use zon_dpi.ByeDpi.Extend.Trigger.{none_set, is_next, choose_next, wants_swop}

module _ {V : Type 0} (K : Kavl V) where
  -- The bits of groups, set or cleared one after the other.
  abbrev pub marked : Bool → List (Group K) → List Bool → List Bool
  marked b [] mask = mask
  marked b (g ∷ gs) mask = marked b gs (set mask g.id b)

  pub choose_next-split :
      (gs : List (Group K)) (mask unchecked : List Bool) (type : ℕ) (can : Bool)
      → (pre post : List (Group K)) × (gs ≡ pre ++ post)
        × ((choose_next K gs mask unchecked type can).mask ≡ marked true pre mask)
        × ((choose_next K gs mask unchecked type can).unchecked ≡ marked false pre unchecked)
        × ((g : Group K)
            → (choose_next K gs mask unchecked type can).next ≡ some g
            → (rest : List (Group K)) × (post ≡ g ∷ rest)
              × (is_next K g (marked true pre mask) type can ≡ true))
  unfolding choose_next
  choose_next-split [] mask unchecked type can =
      ([], [], refl, refl, refl, λ g e. absurd (grind arith))
  choose_next-split (g ∷ gs) mask unchecked type can =
      elim (Bool-cases (none_set unchecked && (g.detect == 0))) [
        | inl stop ↦ rw stop ([], g ∷ gs, refl, refl, refl, λ h e. absurd (no_group h e))
        | inr on ↦ elim (Bool-cases (is_next K g mask type can)) [
          | inl here ↦
              rw (on, here)
                (
                  [],
                  g ∷ gs,
                  refl,
                  refl,
                  refl,
                  λ h e. let same = some_eq g h e in (gs, rw same refl, rw (← same) here),
                )
          | inr later ↦
              let (pre, post, parts, m, u, n) =
                choose_next-split gs (set mask g.id true) (set unchecked g.id false) type can in
              rw (on, later) (g ∷ pre, post, ap (λ l. g ∷ l) parts, m, u, n)
        ]
      ]
    where
      no_group : (h : Group K) → ¬ (none ≡ some h)
      no_group h e = absurd (grind arith)

  -- A group with the id stands in the list.
  abbrev pub Present : ℕ → List (Group K) → Type 0
  Present id gs = (k : ℕ) × (g : Group K) × (get_elem? gs k ≡ some g) × (g.id ≡ id)

  pub Present-cons :
      (id : ℕ) (h : Group K) (gs : List (Group K)) → Present id gs → Present id (h ∷ gs)
  Present-cons id h gs (k, g, e, same) = (suc k, g, e, same)

  pub length-marked :
      (b : Bool) (pre : List (Group K)) (mask : List Bool)
      → length (marked b pre mask) ≡ length mask
  length-marked b [] mask = refl
  length-marked b (g ∷ gs) mask = length-marked b gs (set mask g.id b) ∙ length-set mask g.id b

  pub marked-Grown : (pre : List (Group K)) (mask : List Bool) → Grown mask (marked true pre mask)
  marked-Grown [] mask i bit = bit
  marked-Grown (g ∷ gs) mask i bit =
      marked-Grown gs (set mask g.id true) i (set-Grown mask g.id i bit)

  -- A bit that has been cleared is that of a group on the way.
  cleared-Present :
      (pre : List (Group K)) (mask : List Bool) (id : ℕ)
      → get_or mask id false ≡ true
      → get_or (marked false pre mask) id false ≡ false
      → Present id pre
  cleared-Present [] mask id on off = absurd (refused_bool (sym off ∙ on))
  cleared-Present (g ∷ gs) mask id on off = elim (Bool-cases (g.id == id)) [
    | inl same ↦ (0, g, refl, (==_iff g.id id).0 same)
    | inr other ↦ Present-cons id g gs (
        cleared-Present gs (set mask g.id false) id
          (get_or-set_ne mask g.id id false (ground arith) ∙ on) off)
  ]

  wants_swop-some :
      (o : Option (Group K)) (unchecked : List Bool) (dp pri : ℕ)
      → wants_swop K o unchecked dp pri ≡ true
      → (next : Group K) × (o ≡ some next) × (get_or unchecked dp false ≡ false)
  wants_swop-some none unchecked dp pri wants = absurd (refused_bool wants)
  wants_swop-some (some next) unchecked dp pri wants = (next, refl, ground arith)

  -- The bit of the client's group is set when the loop begins. Then two groups are only swopped if
  -- the client's group stands before the one that is chosen.
  pub wants_swop-Present :
      (gs : List (Group K)) (mask : List Bool) (type dp pri : ℕ) (can : Bool)
      → get_or mask dp false ≡ true
      → wants_swop K
          (choose_next K gs mask mask type can).next
          (choose_next K gs mask mask type can).unchecked
          dp
          pri
        ≡ true
      → (next : Group K) × (pre rest : List (Group K)) × ((choose_next K gs mask mask type can).next
          ≡ some next)
        × (gs ≡ pre ++ (next ∷ rest))
        × Present dp pre
  wants_swop-Present gs mask type dp pri can on wants =
      let (pre, post, parts, m, u, n) = choose_next-split gs mask mask type can in
      let c = choose_next K gs mask mask type can in
      let (next, found, off) = wants_swop-some c.next c.unchecked dp pri wants in
      let (rest, tail, good) = n next found in
      (
        next,
        pre,
        rest,
        found,
        parts ∙ ap (λ l. pre ++ l) tail,
        cleared-Present pre mask dp on (ap (λ l. get_or l dp false) (sym u) ∙ off),
      )
