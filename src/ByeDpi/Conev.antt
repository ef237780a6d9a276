-- ===== src/ByeDpi/Conev.antt =====
-- The event loop of engines/byedpi/upstream/conev.c: `struct eval` and `struct poolhd` of conev.h.
-- An `eval` is a place in `items`, a pointer to one is the number of the place, and a null pointer
-- is `none`. `data` of a buffer, which this file only hands on, is left out.
pub mod Timers
pub mod Buffers
pub mod Events
pub mod Wait
mod Tests
use zon_dpi.Prelude.{ℕ, ◌==◌, Option, none, some, List, if◌then◌else◌, Bool, true, false}
use zon_dpi.Prelude.Int.{ℤ}

-- `struct buffer`, less the pointer `next` of the list of free ones and the bytes.
pub record Buffer : Type 0 where
  pub size : ℕ
  pub offset : ℕ
  pub lock : ℤ

-- The fields of `struct eval` that conev.c reads or writes; `cb` is the number of a callback.
pub record Eval : Type 0 where
  pub fd : ℤ
  pub index : ℕ
  pub mod_iter : ℕ
  pub cb : ℕ
  pub tv_ms : ℕ
  pub tv_next : Option ℕ
  pub tv_prev : Option ℕ
  pub pair : Option ℕ
  pub buff : Option Buffer
  pub sq_buff : Option Buffer
  pub host : Option (List ℕ)
  pub restore_fake : Bool

abbrev pub Items : Type 0
Items = ℕ → Eval

-- `struct poolhd`; the list that starts at `root_buff` is a list. `closed` is no field of it: it
-- holds the descriptors that have been closed, latest first.
pub record Pool : Type 0 where
  pub max : ℕ
  pub count : ℕ
  pub links : ℕ → ℕ
  pub items : Items
  pub iters : ℕ
  pub tv_start : Option ℕ
  pub tv_end : Option ℕ
  pub free_buffs : List Buffer
  pub buff_count : ℕ
  pub closed : List ℤ

-- A write to some fields of one `eval`.
abbrev pub update : Items → ℕ → (Eval → Eval) → Items
update it x f y = if x == y then f (it y) else it y

-- The same behind a pointer that may be null, under `if (p)`.
abbrev pub update_at : Items → Option ℕ → (Eval → Eval) → Items
update_at it none f = it
update_at it (some x) f = update it x f

-- `p == q` for pointers
abbrev pub same : Option ℕ → Option ℕ → Bool
same none none = true
same none (some y) = false
same (some x) none = false
same (some x) (some y) = x == y
