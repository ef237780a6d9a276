-- ===== src/ByeDpi/Extend/Trigger.antt =====
-- What a failure of a connection sets off: `on_trigger` and `swop_groups` of
-- engines/byedpi/upstream/extend.c. The element that `cache_add` gives is an argument, and so the
-- call of `reconnect` is what is returned. A pointer to a group is its id, since `swop_groups`
-- moves groups; they have different ids.
pub mod Marks
pub mod Next
use zon_dpi.Prelude.{
  ℕ, zero, suc, ◌+◌, ◌==◌, not, ◌&&◌, ◌||◌, ltb, Bool, true, false, Option, none, some, List, [],
  ◌∷◌, get_elem?, get_or, set, if◌then◌else◌,
}
use zon_dpi.Bytes.{◌>>=◌}
use zon_dpi.ByeDpi.Desync.{has}
use zon_dpi.ByeDpi.Mpool.Store.{Kavl}
use zon_dpi.ByeDpi.Extend.Groups.{Group}

abbrev pub auto_onreconn : ℕ
auto_onreconn = 1

abbrev pub auto_noreconn : ℕ
auto_noreconn = 2

abbrev pub auto_sort : ℕ
auto_sort = 4

-- The fields of the client's `struct eval` that are used here; `held` is `sq_buff` as a truth value.
pub record Lav : Type 0 where
  pub held : Bool
  pub recv_count : ℕ
  pub dp : ℕ
  pub dp_mask : List Bool
  pub detect : ℕ

-- The fields of `struct elem_i` that are used here.
pub record Cached : Type 0 where
  pub dp_mask : List Bool
  pub dp : ℕ
  pub detect : ℕ

-- `!mask`
abbrev pub none_set : List Bool → Bool
none_set [] = true
none_set (b ∷ bs) = not b && none_set bs

-- `a | b`
abbrev pub union : List Bool → List Bool → List Bool
union [] bs = bs
union (a ∷ as_) [] = a ∷ as_
union (a ∷ as_) (b ∷ bs) = (a || b) ∷ union as_ bs

abbrev pub zero_mask : List Bool → List Bool
zero_mask [] = []
zero_mask (b ∷ bs) = false ∷ zero_mask bs

module _ {V : Type 0} (K : Kavl V) where
  -- What the loop over the groups leaves: `next`, the client's mask and `uncheked`.
  pub record Choice : Type 0 where
    pub next : Option (Group K)
    pub mask : List Bool
    pub unchecked : List Bool

  -- The test of the loop.
  abbrev pub is_next : Group K → List Bool → ℕ → Bool → Bool
  is_next g mask type can_reconn =
      not (get_or mask g.id false)
      && (((g.detect == 0) || has g.detect type)
          && (not (has g.auto_level auto_onreconn) || can_reconn))

  unfoldable pub choose_next : List (Group K) → List Bool → List Bool → ℕ → Bool → Choice
  choose_next [] mask unchecked type can_reconn = record {
    next = none;
    mask = mask;
    unchecked = unchecked;
  }
  choose_next (g ∷ gs) mask unchecked type can_reconn =
      let rest = choose_next gs (set mask g.id true) (set unchecked g.id false) type can_reconn in
      if none_set unchecked && (g.detect == 0)
      then record { next = none; mask = mask; unchecked = unchecked }
      else if is_next g mask type can_reconn
      then record { next = some g; mask = mask; unchecked = unchecked }
      else rest

  -- The place of a group.
  abbrev pub place_of : ℕ → List (Group K) → Option ℕ
  place_of id [] = none
  place_of id (g ∷ gs) =
      let rest = place_of id gs in if g.id == id then some 0 else (rest >>= λ i. some (suc i))

  -- `*g`
  abbrev pub group_of : ℕ → List (Group K) → Option (Group K)
  group_of id gs = place_of id gs >>= λ i. get_elem? gs i

  -- Two groups change their places in the list, but `detect` and `auto_level` stay there.
  unfoldable pub swop_groups : List (Group K) → ℕ → ℕ → Option (List (Group K))
  swop_groups gs dpc dpn = place_of dpc gs >>= λ i. place_of dpn gs >>= λ j. get_elem? gs i >>= λ c.
      get_elem? gs j >>= λ n. some (
        set (set gs i (record n { detect = c.detect; auto_level = c.auto_level })) j
          (record c { detect = n.detect; auto_level = n.auto_level }))

  -- `dp->pri++`
  abbrev pub raised : ℕ → List (Group K) → List (Group K)
  raised id [] = []
  raised id (g ∷ gs) =
      let rest = raised id gs in if g.id == id then record g { pri = g.pri + 1 } ∷ gs else g ∷ rest

  -- The test before `swop_groups`, for `next` and `uncheked`.
  abbrev pub wants_swop : Option (Group K) → List Bool → ℕ → ℕ → Bool
  wants_swop none unchecked dp pri = false
  wants_swop (some next) unchecked dp pri =
      has next.auto_level auto_sort && (ltb next.pri pri && not (get_or unchecked dp false))

  -- `params.dp`
  abbrev pub first_id : List (Group K) → Option ℕ
  first_id [] = none
  first_id (g ∷ gs) = some g.id

  -- The client, the groups and the element of the cache, and whether `reconnect` is called.
  pub record Triggered : Type 0 where
    pub lav : Lav
    pub groups : List (Group K)
    pub cache : Cached
    pub reconnects : Bool

  -- `swop_groups(lav->dp, next)`
  abbrev pub moved : Option (Group K) → ℕ → List (Group K) → Option (List (Group K))
  moved none dp gs = some gs
  moved (some next) dp gs = swop_groups gs dp next.id

  -- From `if (!(lav->dp->bit & cache->dp_mask))` to its end.
  unfoldable pub reorder :
      List (Group K) → Option (Group K) → List Bool → ℕ → Cached → Option (List (Group K))
  reorder gs next unchecked dp cache =
      if get_or cache.dp_mask dp false
      then some gs
      else (group_of dp gs >>= λ cur.
          (if wants_swop next unchecked dp cur.pri then moved next dp gs else some gs) >>= λ gs'.
          some (raised dp gs'))

  -- The end, for the groups as they stand then.
  abbrev pub save : Option (Group K) → List (Group K) → Bool → Lav → Cached → Option Triggered
  save none gs can_reconn lav cache = first_id gs >>= λ first. some (record {
    lav = lav;
    groups = gs;
    cache = record { dp_mask = zero_mask cache.dp_mask; dp = first; detect = 0 };
    reconnects = false;
  })
  save (some next) gs can_reconn lav cache = group_of next.id gs >>= λ g. some (record {
    lav = lav;
    groups = gs;
    cache = record { dp_mask = union cache.dp_mask lav.dp_mask; dp = next.id; detect = lav.detect };
    reconnects = not (has g.auto_level auto_noreconn) && can_reconn;
  })

  -- `recv_count` is that of `val`, and `cache` is what `cache_add` gives; without it -1 is returned at
  -- once. That `fail_count` is raised, which is only printed, is left out.
  unfoldable pub on_trigger : ℕ → ℕ → Bool → Lav → List (Group K) → Cached → Option Triggered
  on_trigger type recv_count client_alive lav gs cache =
      let before_req = (lav.recv_count == 0) && (recv_count == 0) in
      let can_reconn = (lav.held || before_req) && client_alive in
      let mask = set lav.dp_mask lav.dp true in
      let c = choose_next gs mask mask type can_reconn in
      reorder gs c.next c.unchecked lav.dp cache >>= λ gs'.
      save c.next gs' can_reconn (record lav { dp_mask = c.mask; detect = type }) cache
