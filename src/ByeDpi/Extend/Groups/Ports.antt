-- ===== src/ByeDpi/Extend/Groups/Ports.antt =====
-- Ranges of ports, which `check_l34` compares as numbers in network order.
use zon_dpi.Prelude.{ℕ, ◌%◌, ◌==◌, not, ◌&&◌, ◌||◌, ltb, ◌≡◌, ◌<◌, true, false, arith}
use zon_dpi.ByeDpi.Mpool.Store.{Kavl}
use zon_dpi.ByeDpi.Proxy.{Sockaddr, htons}
use zon_dpi.ByeDpi.Extend.Groups.{Group, raw_port, check_l34}

no_range : (x a b : ℕ) → b < a → 0 < a → (not (a == 0) && (ltb x a || ltb b x)) ≡ true
no_range x a b less some_ = ground arith

-- A group for the ports from `a` to `b`, set as main.c sets them, refuses every address when the
-- low byte of `b` is less than that of `a`.
pub check_l34-reversed :
    {V : Type 0} (K : Kavl V) (dp : Group K) (st a b : ℕ) (dst : Sockaddr)
    → b % 256 < a % 256
    → dp.pf0 ≡ raw_port (htons a)
    → dp.pf1 ≡ raw_port (htons b)
    → check_l34 K dp st dst ≡ false
unfolding check_l34
check_l34-reversed K dp st a b dst less low high =
    let t =
      no_range (raw_port dst.port) dp.pf0 dp.pf1 (omega (arith, low, high)) (omega (arith, low)) in
    rw t (ground arith)
