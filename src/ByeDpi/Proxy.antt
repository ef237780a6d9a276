-- ===== src/ByeDpi/Proxy.antt =====
-- The proxy protocols of engines/byedpi/upstream/proxy.c: `union sockaddr_u`, the constants of
-- proxy.h, and `struct s4_req` and `struct s5_req`, which are read and written byte by byte.
pub mod Address
pub mod Session
mod Tests
use zon_dpi.Prelude.{
  Bool, ℕ, ◌+◌, ◌*◌, ◌/◌, ◌%◌, Option, none, some, List, [], ◌∷◌, ◌++◌, take, drop, length, leb,
  if◌then◌else◌,
}
use zon_dpi.Prelude.Int.{ℤ}

-- `union sockaddr_u`. `sin_port` and `sin6_port` are the same bytes; `sin_addr` lies over
-- `sin6_flowinfo`, so that `v4` and `v6` do not meet. Addresses and ports are bytes in network order.
pub record Sockaddr : Type 0 where
  pub family : ℕ
  pub port : List ℕ
  pub v4 : List ℕ
  pub v6 : List ℕ

abbrev pub af_inet : ℕ
af_inet = 2

abbrev pub af_inet6 : ℕ
af_inet6 = 10

-- What a function returns, and `*dst` after it.
pub record Answer : Type 0 where
  pub ret : ℤ
  pub addr : Sockaddr

-- The fields of `params` that the parsers read, and `resolve`, which calls `getaddrinfo`: `none`
-- for a failure, else `*addr` after it.
pub record Settings : Type 0 where
  pub resolve : List ℕ → ℕ → Sockaddr → Option Sockaddr
  pub may_resolve : Bool
  pub ipv6 : Bool

abbrev pub s_cmd_conn : ℕ
s_cmd_conn = 1

abbrev pub s_atp_i4 : ℕ
s_atp_i4 = 1

abbrev pub s_atp_id : ℕ
s_atp_id = 3

abbrev pub s_atp_i6 : ℕ
s_atp_i6 = 4

abbrev pub s_size_min : ℕ
s_size_min = 8

abbrev pub s_size_i4 : ℕ
s_size_i4 = 10

abbrev pub s_size_i6 : ℕ
s_size_i6 = 22

abbrev pub s_size_id : ℕ
s_size_id = 7

-- `n` bytes from `i` on, inside the buffer.
unfoldable pub bytes : List ℕ → ℕ → ℕ → Option (List ℕ)
bytes buf i n = if leb (i + n) (length buf) then some (take n (drop i buf)) else none

-- A write of `bs` from `i` on, inside the buffer.
unfoldable pub put : List ℕ → ℕ → List ℕ → List ℕ
put buf i bs = take i buf ++ (bs ++ drop (i + length bs) buf)

-- `htons`, as the two bytes.
abbrev pub htons : ℕ → List ℕ
htons p = p / 256 % 256 ∷ p % 256 ∷ []

-- A number of bytes in network order.
abbrev pub big_endian : ℕ → List ℕ → ℕ
big_endian acc [] = acc
big_endian acc (b ∷ bs) = big_endian (acc * 256 + b) bs
