-- ===== src/Goodbye/Cleanup.antt =====
-- The state of a connection tracker and its clean-up, which dnsredir.c and ttltrack.c of
-- engines/goodbye/upstream/src write out alike: `dns_cleanup` and `tcp_cleanup`.
pub mod Laws
use zon_dpi.Prelude.{ℕ, ◌+◌, Bool, not, ◌==◌, leb, if◌then◌else◌, Option, none, some, true, false}
use zon_dpi.Goodbye.Table.{Table}

-- `last_cleanup` and `conntrack`
pub record Tracker (T : Type 0) : Type 0 where
  pub last_cleanup : ℕ
  pub conntrack : T

module _ {V : Type 0} where
  -- `check_get_udp_conntrack_key` and `check_get_tcp_conntrack_key` with no place for the record
  abbrev pub is_some : Option V → Bool
  is_some none = false
  is_some (some c) = true

  -- The test that keeps a record at the clean-up.
  abbrev pub is_recent : (V → ℕ) → ℕ → ℕ → V → Bool
  is_recent time_of interval now c = not (leb (time_of c + interval) now)

  -- A clean-up with the interval in seconds.
  unfoldable pub cleanup : (H : Table V) → (V → ℕ) → ℕ → ℕ → Tracker H.T → Tracker H.T
  cleanup H time_of interval now s =
      if s.last_cleanup == 0
      then record s { last_cleanup = now }
      else if leb (s.last_cleanup + interval) now
      then record {
        last_cleanup = now;
        conntrack = H.retain (is_recent time_of interval now) s.conntrack;
      }
      else s
