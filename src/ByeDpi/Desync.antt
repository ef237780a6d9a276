-- ===== src/ByeDpi/Desync.antt =====
-- Where the parts of a message end: `init_proto_info` and `gen_offset` of
-- engines/byedpi/upstream/desync.c, with `struct part` and the flags of params.h.
pub mod Loop
pub mod Coverage
pub mod Offsets
pub mod Total
pub mod Lost
mod Tests
use Prim.Native.Nat.{bit_and}
use zon_dpi.Prelude.{
  ℕ, zero, suc, ◌+◌, ◌-◌, ◌*◌, ◌/◌, ◌%◌, ◌^◌, Bool, true, false, not, ◌&&◌, ◌||◌, Option, none,
  some, List, [], ◌∷◌, ◌++◌, leb, ltb, ◌==◌, if◌then◌else◌,
}
use zon_dpi.Prelude.Int.{ℤ, pos, negsuc, ◌+ℤ◌, ltb_ℤ, sub_ℕ, pos_part, neg_part}
use zon_dpi.Bytes.{◌>>=◌}
use zon_dpi.ByeDpi.Tls.Hello.{parse_tls}
use zon_dpi.ByeDpi.Http.{parse_http}

abbrev pub offset_end : ℕ
offset_end = 1

abbrev pub offset_mid : ℕ
offset_mid = 2

abbrev pub offset_rand : ℕ
offset_rand = 4

abbrev pub offset_sni : ℕ
offset_sni = 8

abbrev pub offset_start : ℕ
offset_start = 32

-- `flag & mask`
unfoldable pub has : ℕ → ℕ → Bool
has flag mask = not (bit_and flag mask == 0)

-- `enum demode`
pub data Mode : Type 0 where
  desync_none desync_split desync_disorder desync_oob desync_disoob desync_fake : Mode

-- `struct part`; `parse_offset` lets no negative `r` or `s` through.
pub record Part : Type 0 where
  pub m : Mode
  pub flag : ℕ
  pub at : ℤ
  pub r : ℕ
  pub s : ℕ

abbrev pub is_http_type : ℕ
is_http_type = 4

abbrev pub is_https_type : ℕ
is_https_type = 8

-- `struct proto_info`
pub record Info : Type 0 where
  pub init : Bool
  pub type : ℕ
  pub host_len : ℤ
  pub host_pos : ℕ

abbrev pub no_info : Info
no_info = record { init = false; type = 0; host_len = pos 0; host_pos = 0 }

is_zero : ℤ → Bool
is_zero (pos zero) = true
is_zero (pos (suc n)) = false
is_zero (negsuc n) = false

-- The pointer `host` as an offset, 0 for a null pointer.
host_offset : Option ℕ → Option ℕ → ℕ
host_offset (some p) tls = p
host_offset none (some p) = p
host_offset none none = 0

unfoldable pub init_proto_info : List ℕ → ℕ → Info → Option Info
unfolding is_zero host_offset
init_proto_info buf n info =
    if info.init
    then some info
    else (parse_tls buf n >>= λ tls.
        if not (tls.ret == 0)
        then some (record {
          init = true;
          type = is_https_type;
          host_len = pos tls.ret;
          host_pos = host_offset none tls.hs;
        })
        else (parse_http false buf n >>= λ http. some (record {
          init = true;
          type = if is_zero http.ret then info.type else is_http_type;
          host_len = http.ret;
          host_pos = host_offset http.hs tls.hs;
        })))

-- `len / 2`, towards zero.
half : ℤ → ℤ
half (pos n) = pos (n / 2)
half (negsuc n) = sub_ℕ 0 (suc n / 2)

abbrev magnitude : ℤ → ℕ
magnitude a = pos_part a + neg_part a

-- `rand() % d`; a zero divisor is a fault.
rand_below : ℕ → ℕ → Option ℕ
rand_below rand d = if d == 0 then none else some (rand % d)

-- What a flag of the name adds behind the start of the host.
unfoldable pub in_host : ℕ → ℕ → ℤ → Option ℤ
unfolding half rand_below
in_host rand flag host_len =
    if has flag offset_end
    then some host_len
    else if has flag offset_mid
    then some (half host_len)
    else if has flag offset_rand
    then (rand_below rand (magnitude host_len) >>= λ k. some (pos k))
    else some (pos 0)

-- The offset without a name; `n - lp` is a `size_t`.
unfoldable pub in_message : ℕ → ℤ → ℕ → ℕ → ℕ → Option ℤ
unfolding rand_below
in_message rand at flag n lp =
    if has flag offset_rand
    then (rand_below rand ((n + 2 ^ 64 - lp) % 2 ^ 64) >>= λ k. some (at +ℤ pos (lp + k)))
    else if has flag offset_mid
    then some (at +ℤ pos (n / 2))
    else if ltb_ℤ at (pos 0) || has flag offset_end
    then some (at +ℤ pos n)
    else some at

-- The offset, or -1, and the protocol data. `rand` is what `rand()` returns.
unfoldable pub gen_offset : ℕ → ℤ → ℕ → List ℕ → ℕ → ℕ → Info → Option (ℤ × Info)
gen_offset rand at flag buf n lp info =
    if has flag 24
    then (init_proto_info buf n info >>= λ info'.
        if (info'.host_pos == 0) || (has flag offset_sni && not (info'.type == is_https_type))
        then some (negsuc 0, info')
        else (in_host rand flag info'.host_len >>= λ d.
            some (at +ℤ pos info'.host_pos +ℤ d, info')))
    else (in_message rand at flag n lp >>= λ p. some (p, info))
