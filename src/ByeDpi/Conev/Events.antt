-- ===== src/ByeDpi/Conev/Events.antt =====
-- The places of the event loop: `init_pool`, `add_event`, `del_event` and `destroy_pool` of
-- engines/byedpi/upstream/conev.c. The calls of epoll are taken to succeed.
pub mod Places
pub mod Release
pub mod Delete
pub mod Destroy
use zon_dpi.Prelude.{
  ℕ, zero, suc, ◌+◌, ◌-◌, ◌==◌, not, leb, Option, none, some, List, [], ◌∷◌, if◌then◌else◌, Bool,
  true, false,
}
use zon_dpi.Prelude.Int.{ℤ, pos, negsuc}
use zon_dpi.Bytes.{◌>>=◌}
use zon_dpi.ByeDpi.Conev.{Buffer, Eval, Items, Pool, update, update_at, same}
use zon_dpi.ByeDpi.Conev.Buffers.{buff_push}
use zon_dpi.ByeDpi.Conev.Timers.{remove_timer}

-- What `memset` leaves of an `eval`.
abbrev pub blank : Eval
blank = record {
  fd = pos 0;
  index = 0;
  mod_iter = 0;
  cb = 0;
  tv_ms = 0;
  tv_next = none;
  tv_prev = none;
  pair = none;
  buff = none;
  sq_buff = none;
  host = none;
  restore_fake = false;
}

-- `init_pool` for the memory that `malloc` gives: `memset` clears the first `eval` of it.
unfoldable pub init_pool : ℕ → Items → Pool
init_pool count memory = record {
  max = count;
  count = 0;
  links = λ i. i;
  items = update memory 0 (λ e. blank);
  iters = 0;
  tv_start = none;
  tv_end = none;
  free_buffs = [];
  buff_count = 0;
  closed = [];
}

-- The place given out, `none` for a full pool.
unfoldable pub add_event : Pool → ℕ → ℕ → Option ℕ × Pool
add_event p cb fd =
    if leb p.max p.count
    then (none, p)
    else let x = p.links p.count in
      (
        some x,
        record p {
          items =
              update p.items x
                (λ e. record blank { mod_iter = p.iters; fd = pos fd; index = p.count; cb = cb });
          count = p.count + 1;
        },
      )

-- `fd == -1`
unfoldable pub is_closed : ℤ → Bool
is_closed (pos n) = false
is_closed (negsuc n) = n == 0

-- The writes of `del_event` to the `eval` itself.
abbrev pub emptied : ℕ → Eval → Eval
emptied iters e = record e {
  buff = none;
  sq_buff = none;
  restore_fake = false;
  host = none;
  fd = negsuc 0;
  mod_iter = iters;
}

-- `del_event` from the buffers to `remove_timer`.
unfoldable pub close_event : ℕ → Pool → Pool
close_event x p =
    let given = buff_push (buff_push p (p.items x).buff) (p.items x).sq_buff in
    remove_timer x (record given {
      items = update p.items x (emptied p.iters);
      closed = (p.items x).fd ∷ p.closed;
    })

-- `e->index = index`
abbrev pub with_index : ℕ → Eval → Eval
with_index index e = record e { index = index }

-- `pool->count--`, and the last place in use moves into the hole.
unfoldable pub drop_slot : ℕ → Pool → Pool
drop_slot x p =
    let count = p.count - 1 in
    let ev = p.links count in
    let index = (p.items x).index in
    if ev == x then record p { count = count } else record p {
      count = count;
      links = λ i. if i == count then x else if i == index then ev else p.links i;
      items = update p.items ev (with_index index);
    }

-- `e->pair = 0`
abbrev pub alone : Eval → Eval
alone e = record e { pair = none }

-- `val->pair = 0`, and the way back if it leads to `val`.
unfoldable pub unpair : ℕ → ℕ → Pool → Pool
unpair x e p = record p {
  items =
      update (if same (p.items e).pair (some x) then update p.items e alone else p.items) x alone;
}

-- `if (val->pair) { ... }`
abbrev pub for_pair : Option ℕ → Pool → (ℕ → Option Pool) → Option Pool
for_pair none p next = some p
for_pair (some e) p next = next e

-- `del_event`, with fuel for the events that it closes.
unfoldable pub del_event : ℕ → ℕ → Pool → Option Pool
del_event zero x p = none
del_event (suc fuel) x p =
    if is_closed (p.items x).fd
    then some p
    else let dropped = drop_slot x (close_event x p) in
      for_pair (dropped.items x).pair dropped (λ e. del_event fuel e (unpair x e dropped))

-- `destroy_pool` up to the freeing of memory, with fuel for its loop and for `del_event`.
unfoldable pub destroy_pool : ℕ → ℕ → Pool → Option Pool
destroy_pool zero depth p = none
destroy_pool (suc fuel) depth p =
    if p.count == 0
    then some p
    else (del_event depth (p.links 0) p >>= λ rest. destroy_pool fuel depth rest)
