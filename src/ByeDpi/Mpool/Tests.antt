-- ===== src/ByeDpi/Mpool/Tests.antt =====
-- Examples of the sets: the host names "b" and "a.b".
use zon_dpi.Prelude.{ℕ, ◌≡◌, ◌↔◌, refl, some, List, [], ◌∷◌, arith}
use zon_dpi.Prelude.Int.{ℤ, pos}
use zon_dpi.ByeDpi.Mpool.{cmp_host, host_cmp}
use zon_dpi.ByeDpi.Mpool.Hosts.{name, Related, host_cmp-Related}
use zon_dpi.ByeDpi.Mpool.Store.{Entry, Mphdr, IsCounted, IsHeld, mem_add, mem_add-IsCounted}
use zon_dpi.ByeDpi.Mpool.Store.Listed.{listed}

abbrev parent : List ℕ
parent = b'b' ∷ []

abbrev child : List ℕ
child = b'a' ∷ b'.' ∷ b'b' ∷ []

host_cmp-Related_example :
    (c : ℤ) × (host_cmp (name child) (name parent) ≡ some c) × ((c ≡ pos 0) ↔ Related child parent)
host_cmp-Related_example = host_cmp-Related child parent

-- A list of one name.
abbrev children : Mphdr (listed ℕ)
children = record {
  flags = 0;
  cmp_type = cmp_host;
  count = 1;
  root = record { key = name child; val = 7 } ∷ [];
}

mem_add-IsCounted_example :
    (v : Entry ℕ) × (h : Mphdr (listed ℕ)) × (mem_add (listed ℕ) 2 0 children parent 1
      ≡ some (v, h))
    × IsCounted (listed ℕ) h
    × (h.cmp_type ≡ cmp_host)
    × IsHeld (listed ℕ) cmp_host (record { key = name parent; val = 0 }) v
mem_add-IsCounted_example = mem_add-IsCounted (listed ℕ) 2 0 children parent 1 refl (omega arith)
