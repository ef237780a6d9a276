-- ===== src/ByeDpi/Extend/Trigger/Next.antt =====
-- The group that a failure leads to.
use mathlib.Core.Path.{subst}
use zon_dpi.Prelude.{
  ℕ, zero, suc, ◌+◌, ◌==◌, ==_iff, not, ◌&&◌, ◌||◌, ◌≡◌, ◌<◌, ◌⊎◌, refl, sym, ap, ◌∙◌, Bool, true,
  false, Bool-cases, inl, inr, Option, none, some, List, [], ◌∷◌, ◌++◌, length, length-set,
  get_elem?, get_elem?-set_self, get_elem?-set_ne, get_or, set, arith,
}
use zon_dpi.Bytes.Laws.{some_eq}
use zon_dpi.ByeDpi.Desync.{has}
use zon_dpi.ByeDpi.Mpool.Store.{Kavl}
use zon_dpi.ByeDpi.Extend.Groups.{Group}
use zon_dpi.ByeDpi.Extend.Masks.{
  refused_bool, unset, Grown-fewer, Grown, set-Grown, get_or-set_self,
}
use zon_dpi.ByeDpi.Extend.Groups.Circle.{place-below}
use zon_dpi.ByeDpi.Extend.Trigger.{
  Lav, Cached, is_next, choose_next, place_of, group_of, raised, swop_groups, wants_swop, moved,
  Triggered, reorder, save, zero_mask, union, auto_noreconn, first_id, on_trigger,
}
use zon_dpi.ByeDpi.Extend.Trigger.Marks.{
  marked, choose_next-split, Present, Present-cons, length-marked, marked-Grown,
}

module _ {V : Type 0} (K : Kavl V) where
  Present-tail :
      (id : ℕ) (h : Group K) (gs : List (Group K))
      → (h.id == id) ≡ false
      → Present K id (h ∷ gs)
      → Present K id gs
  Present-tail id h gs other (zero, g, e, same) =
      let is_h : h ≡ g = some_eq h g e in absurd (ground (arith, ap (λ x. x.id) is_h))
  Present-tail id h gs other (suc k, g, e, same) = (k, g, e, same)

  place_of-some :
      (id : ℕ) (gs : List (Group K))
      → Present K id gs
      → (i : ℕ) × (h : Group K) × (place_of K id gs ≡ some i)
        × (get_elem? gs i ≡ some h)
        × (h.id ≡ id)
  place_of-some id [] (k, g, e, same) = absurd (grind arith)
  place_of-some id (h ∷ gs) p = elim (Bool-cases (h.id == id)) [
    | inl here ↦ (0, h, rw here refl, refl, (==_iff h.id id).0 here)
    | inr later ↦
        let (i, x, place, at, is) = place_of-some id gs (Present-tail id h gs later p) in
        (suc i, x, rw (later, place) refl, at, is)
  ]

  group_of-some :
      (id : ℕ) (gs : List (Group K)) → Present K id gs → (h : Group K) × (group_of K id gs ≡ some h)
  group_of-some id gs p = let (i, h, place, at, is) = place_of-some id gs p in (h, rw place at)

  raised-Present : (x id : ℕ) (gs : List (Group K)) → Present K id gs → Present K id (raised K x gs)
  raised-Present x id [] p = p
  raised-Present x id (h ∷ gs) (zero, g, e, same) =
      let is_h : h ≡ g = some_eq h g e in
      let same' : h.id ≡ id = ap (λ y. y.id) is_h ∙ same in
      elim (Bool-cases (h.id == x)) [
        | inl here ↦ rw here (0, record h { pri = h.pri + 1 }, refl, same')
        | inr later ↦ rw later (0, h, refl, same')
      ]
  raised-Present x id (h ∷ gs) (suc k, g, e, same) = elim (Bool-cases (h.id == x)) [
    | inl here ↦ rw here (suc k, g, e, same)
    | inr later ↦
        rw later (Present-cons K id h (raised K x gs) (raised-Present x id gs (k, g, e, same)))
  ]

  swop_groups-Present :
      (gs : List (Group K)) (dpc dpn : ℕ)
      → Present K dpc gs
      → Present K dpn gs
      → (gs' : List (Group K)) × (swop_groups K gs dpc dpn ≡ some gs') × Present K dpn gs'
  unfolding swop_groups
  swop_groups-Present gs dpc dpn pc pn =
      let (i, c, ic, ac, sc) = place_of-some dpc gs pc in
      let (j, n, jn, an, sn) = place_of-some dpn gs pn in
      let c' : Group K = record c { detect = n.detect; auto_level = n.auto_level } in
      let n' : Group K = record n { detect = c.detect; auto_level = c.auto_level } in
      let inside : i < length gs = place-below gs i c ac in
      (
        set (set gs i n') j c',
        rw (ic, jn, ac, an) refl,
        elim (Bool-cases (i == j)) [
          | inl one ↦
              let same : c ≡ n =
                some_eq c n (sym ac ∙ ap (get_elem? gs) {y = j} (ground arith) ∙ an) in
              (
                j,
                c',
                get_elem?-set_self (set gs i n') j c' (ground (arith, length-set gs i n')),
                ap (λ x. x.id) same ∙ sn,
              )
          | inr two ↦ (
            i,
            n',
            get_elem?-set_ne (set gs i n') c' (λ e. absurd (ground arith))
                ∙ get_elem?-set_self gs i n' inside,
            sn,
          )
        ],
      )

  -- A group that has to be there in the end: the next one, or the client's if there is none.
  abbrev wanted : Option (Group K) → ℕ → ℕ
  wanted none dp = dp
  wanted (some next) dp = next.id

  moved-Present :
      (next : Option (Group K)) (dp : ℕ) (gs : List (Group K))
      → Present K dp gs
      → Present K (wanted next dp) gs
      → (gs' : List (Group K)) × (moved K next dp gs ≡ some gs') × Present K (wanted next dp) gs'
  moved-Present none dp gs p q = (gs, refl, q)
  moved-Present (some next) dp gs p q = swop_groups-Present gs dp next.id p q

  reorder-Present :
      (gs : List (Group K)) (next : Option (Group K)) (unchecked : List Bool) (dp : ℕ)
      (cache : Cached)
      → Present K dp gs
      → Present K (wanted next dp) gs
      → (gs' : List (Group K)) × (reorder K gs next unchecked dp cache ≡ some gs')
        × Present K (wanted next dp) gs'
  unfolding reorder
  reorder-Present gs next unchecked dp cache p q =
      elim (Bool-cases (get_or cache.dp_mask dp false)) [
        | inl skip ↦ (gs, rw skip refl, q)
        | inr first ↦
            let (cur, ec) = group_of-some dp gs p in
            elim (Bool-cases (wants_swop K next unchecked dp cur.pri)) [
              | inl swops ↦
                  let (gs', run, r) = moved-Present next dp gs p q in
                  (
                    raised K dp gs',
                    rw (first, ec, swops, run) refl,
                    raised-Present dp (wanted next dp) gs' r,
                  )
              | inr stays ↦ (
                raised K dp gs,
                rw (first, ec, stays) refl,
                raised-Present dp (wanted next dp) gs q,
              )
            ]
      ]

  first_id-some :
      (id : ℕ) (gs : List (Group K)) → Present K id gs → (f : ℕ) × (first_id K gs ≡ some f)
  first_id-some id [] (k, g, e, same) = absurd (grind arith)
  first_id-some id (h ∷ gs) p = (h.id, refl)

  -- What `save` leaves.
  abbrev Saved : Option (Group K) → Lav → Bool → Triggered K → Type 0
  Saved next lav can r =
      (r.lav ≡ lav)
      × (r.reconnects ≡ true → (can ≡ true) × (g : Group K) × (next ≡ some g) × (r.cache.dp ≡ g.id))

  save-Saved :
      (next : Option (Group K)) (gs : List (Group K)) (dp : ℕ) (can : Bool) (lav : Lav)
      (cache : Cached)
      → Present K (wanted next dp) gs
      → (r : Triggered K) × (save K next gs can lav cache ≡ some r) × Saved next lav can r
  save-Saved none gs dp can lav cache p =
      let (f, e) = first_id-some dp gs p in
      (
        record {
          lav = lav;
          groups = gs;
          cache = record { dp_mask = zero_mask cache.dp_mask; dp = f; detect = 0 };
          reconnects = false;
        },
        rw e refl,
        (refl, λ on. absurd (refused_bool on)),
      )
  save-Saved (some next) gs dp can lav cache p =
      let (g, e) = group_of-some next.id gs p in
      (
        record {
          lav = lav;
          groups = gs;
          cache = record {
            dp_mask = union cache.dp_mask lav.dp_mask;
            dp = next.id;
            detect = lav.detect;
          };
          reconnects = not (has g.auto_level auto_noreconn) && can;
        },
        rw e refl,
        (refl, λ on. (ground arith, next, refl, refl)),
      )

  -- The group where a connection is tried again: one of the list that is for the failure, and
  -- whose bit is not set in the mask.
  abbrev pub IsRetry : List (Group K) → ℕ → Triggered K → Type 0
  IsRetry gs type r =
      (g : Group K) × Present K g.id gs
      × (r.cache.dp ≡ g.id)
      × (get_or r.lav.dp_mask g.id false ≡ false)
      × ((g.detect ≡ 0) ⊎ (has g.detect type ≡ true))

  Present-append : (pre rest : List (Group K)) (g : Group K) → Present K g.id (pre ++ (g ∷ rest))
  Present-append [] rest g = (0, g, refl, refl)
  Present-append (h ∷ pre) rest g =
      Present-cons K g.id h (pre ++ (g ∷ rest)) (Present-append pre rest g)

  wanted-Present :
      (next : Option (Group K)) (dp : ℕ) (gs : List (Group K))
      → Present K dp gs
      → ((g : Group K) → next ≡ some g → Present K g.id gs)
      → Present K (wanted next dp) gs
  wanted-Present none dp gs p h = p
  wanted-Present (some g) dp gs p h = h g refl

  is_next-parts :
      (g : Group K) (mask : List Bool) (type : ℕ) (can : Bool)
      → is_next K g mask type can ≡ true
      → (get_or mask g.id false ≡ false) × ((g.detect ≡ 0) ⊎ (has g.detect type ≡ true))
  is_next-parts g mask type can e = (ground arith, ground arith)

  -- The group of the client is in the list, and has a bit in its mask that is not set. Then
  -- `on_trigger` returns, the mask only grows and has less bits that are not set, so that a client
  -- has no more tries than there are groups; and where it tries again the cache holds a group that
  -- is for this failure and whose bit is not set.
  pub on_trigger-fewer :
      (type recv_count : ℕ) (client_alive : Bool) (lav : Lav) (gs : List (Group K)) (cache : Cached)
      → Present K lav.dp gs
      → lav.dp < length lav.dp_mask
      → get_or lav.dp_mask lav.dp false ≡ false
      → (r : Triggered K) × (on_trigger K type recv_count client_alive lav gs cache ≡ some r)
        × Grown lav.dp_mask r.lav.dp_mask
        × (unset r.lav.dp_mask < unset lav.dp_mask)
        × (r.reconnects ≡ true → IsRetry gs type r)
  unfolding on_trigger
  on_trigger-fewer type recv_count client_alive lav gs cache here inside off =
      let can = (lav.held || ((lav.recv_count == 0) && (recv_count == 0))) && client_alive in
      let mask = set lav.dp_mask lav.dp true in
      let c = choose_next K gs mask mask type can in
      let (pre, post, parts, m, u, n) = choose_next-split K gs mask mask type can in
      let listed : (g : Group K) → c.next ≡ some g → Present K g.id gs = λ g found.
        let (rest, tail, good) = n g found in
        subst (Present K g.id) (sym (parts ∙ ap (λ l. pre ++ l) tail))
          (Present-append pre rest g) in
      let (gs', run, q) =
        reorder-Present gs c.next c.unchecked lav.dp cache here
          (wanted-Present c.next lav.dp gs here listed) in
      let lav' : Lav = record lav { dp_mask = c.mask; detect = type } in
      let (r, saved, (same, retry)) = save-Saved c.next gs' lav.dp can lav' cache q in
      let grown : Grown mask c.mask = subst (Grown mask) (sym m) (marked-Grown K pre mask) in
      let grows : Grown lav.dp_mask c.mask =
        λ i bit. grown i (set-Grown lav.dp_mask lav.dp i bit) in
      (
        r,
        rw run saved,
        rw same grows,
        rw same (
            Grown-fewer lav.dp_mask c.mask lav.dp
              (ap length m ∙ length-marked K true pre mask ∙ length-set lav.dp_mask lav.dp true)
              grows inside off (grown lav.dp (get_or-set_self lav.dp_mask lav.dp inside))),
        λ on.
            let (can_on, g, found, at) = retry on in
            let (rest, tail, good) = n g found in
            let (free, fit) = is_next-parts g (marked K true pre mask) type can good in
            (g, listed g found, at, rw same (ap (λ l. get_or l g.id false) m ∙ free), fit),
      )
