-- ===== src/ByeDpi/Extend/Tests.antt =====
-- Examples of the strategies: records of TLS that come in pieces, two groups of options, and a cache.
use zon_dpi.Prelude.{
  ◌+◌, ◌*◌, ◌⊎◌, ◌++◌, ℕ, zero, suc, ◌≡◌, ◌<◌, refl, inl, inr, true, false, Bool-cases, none, some,
  List, [], ◌∷◌, length, get_elem?, replicate, arith,
}
use zon_dpi.Prelude.Int.{pos}
use zon_dpi.Bytes.{antohs}
use zon_dpi.Bytes.Laws.{some_inv, some_eq}
use zon_dpi.ByeDpi.Desync.{has}
use zon_dpi.ByeDpi.Conev.{Pool}
use zon_dpi.ByeDpi.Conev.Timers.Order.{remove}
use zon_dpi.ByeDpi.Conev.Timers.Queue.{IsQueue}
use zon_dpi.ByeDpi.Conev.Events.{blank}
use zon_dpi.ByeDpi.Http.{
  is_http, matches, starts_with_any, strncasestr_from, matches_nocase, memchr, skip_blanks,
  trim_back, digits_back, bracket, parse_port, parse_host, parse_http,
}
use zon_dpi.ByeDpi.Tls.Hello.{is_tls_chello, parse_tls}
use zon_dpi.ByeDpi.Proxy.{Sockaddr, htons, bytes}
use zon_dpi.ByeDpi.Mpool.{cmp_host, scmp, host_cmp, host_loop}
use zon_dpi.ByeDpi.Mpool.Hosts.{name}
use zon_dpi.ByeDpi.Mpool.Store.{Entry, Mphdr, mem_get}
use zon_dpi.ByeDpi.Mpool.Store.Listed.{listed, meets}
use zon_dpi.ByeDpi.Extend.Tracker.{Track, Timed, try_set_tls_timer}
use zon_dpi.ByeDpi.Extend.Tracker.Steps.{step, steps}
use zon_dpi.ByeDpi.Extend.Tracker.Timer.{timers_after, try_set_tls_timer-IsQueue}
use zon_dpi.ByeDpi.Extend.Tracker.Streams.{Rec, encode, IsIdle, try_set_tls_timer-records}
use zon_dpi.ByeDpi.Extend.Groups.{Group, raw_port, check_l34, check_host, host_in, find_dp}
use zon_dpi.ByeDpi.Extend.Groups.Ports.{check_l34-reversed}
use zon_dpi.ByeDpi.Extend.Groups.Hosts.{Named, Listed, check_host-Listed}
use zon_dpi.ByeDpi.Extend.Masks.{Grown, unset}
use zon_dpi.ByeDpi.Extend.Trigger.{Lav, Cached, Triggered, choose_next, wants_swop, on_trigger}
use zon_dpi.ByeDpi.Extend.Trigger.Marks.{Present, wants_swop-Present}
use zon_dpi.ByeDpi.Extend.Trigger.Next.{IsRetry, on_trigger-fewer}
use zon_dpi.ByeDpi.Mpool.{cmp_bits}
use zon_dpi.ByeDpi.Extend.Cache.{eq_bitlen, zero_elem, Cache, cache_get, Added, cache_add}
use zon_dpi.ByeDpi.Extend.Cache.Found.{saved, cache_get-cache_add}
use zon_dpi.ByeDpi.Extend.Cache.Prefix.{AreBytes, Agree, Splits, eq_bitlen-Splits}
use zon_dpi.ByeDpi.Extend.Groups.Circle.{Ends, find_dp-Ends}

-- No record has begun.
abbrev start : Track
start = record { tls_rec = replicate 5 0; at = 0; size = 0 }

-- A record of three bytes, and the header of the next one.
abbrev chunk : List ℕ
chunk = 22 ∷ 3 ∷ 3 ∷ 0 ∷ 3 ∷ 7 ∷ 8 ∷ 9 ∷ 23 ∷ 3 ∷ 3 ∷ []

abbrev behind : Track
behind = record { tls_rec = 23 ∷ 3 ∷ 3 ∷ 0 ∷ 3 ∷ []; at = 3; size = 0 }

-- No timer is set.
abbrev resting : Pool
resting = record {
  max = 4;
  count = 0;
  links = λ i. i;
  items = λ i. blank;
  iters = 0;
  tv_start = none;
  tv_end = none;
  free_buffs = [];
  buff_count = 0;
  closed = [];
}

resting-IsQueue : IsQueue resting []
resting-IsQueue = record {
  chain = (refl, refl);
  distinct = tt;
  sorted = tt;
  armed = tt;
  idle = λ y f. (refl, refl, refl);
}

chunk-steps : steps start chunk ≡ some behind
unfolding steps step
chunk-steps = refl

try_set_tls_timer-IsQueue_example :
    (r : Timed) × (try_set_tls_timer 23 1 100 2 0 50 11 start chunk resting ≡ some r)
    × (r.ret ≡ pos 0)
    × (r.rec_left ≡ behind)
    × IsQueue r.pool (timers_after r.pool 2 150 behind [])
try_set_tls_timer-IsQueue_example =
    try_set_tls_timer-IsQueue 23 1 100 2 0 50 11 start behind chunk resting [] resting-IsQueue
      (inl refl) (omega arith) (omega arith) (omega arith) (omega arith) chunk-steps

abbrev small : Rec
small = record { kind = 22; major = 3; minor = 3; hi = 0; lo = 2; payload = 5 ∷ 6 ∷ [] }

try_set_tls_timer-records_example :
    (d : Timed) × (try_set_tls_timer 29 1 100 2 0 50 14 start (encode (small ∷ small ∷ [])) resting
      ≡ some d)
    × (d.ret ≡ pos 0)
    × IsIdle d.rec_left
    × IsQueue d.pool (remove 2 [])
try_set_tls_timer-records_example =
    try_set_tls_timer-records 29 1 100 2 50 14 start small (small ∷ []) resting [] resting-IsQueue
      (
        (omega arith, omega arith, refl, omega arith),
        ((omega arith, omega arith, refl, omega arith), tt),
      )
      (refl, inl refl) (omega arith) (omega arith) (omega arith)

-- The server 1.2.3.4 and the port 80.
abbrev server : Sockaddr
server = record { family = 2; port = htons 80; v4 = 1 ∷ 2 ∷ 3 ∷ 4 ∷ []; v6 = replicate 16 0 }

-- A group for the ports from 80 to 256.
abbrev ranged : Group (listed ℕ)
ranged = record {
  id = 0;
  detect = 0;
  auto_level = 0;
  proto = 0;
  hosts = none;
  ipset = none;
  pf0 = raw_port (htons 80);
  pf1 = raw_port (htons 256);
  pri = 0;
}

check_l34-reversed_example : check_l34 (listed ℕ) ranged 1 server ≡ false
check_l34-reversed_example =
    check_l34-reversed (listed ℕ) ranged 1 80 256 server (omega arith) refl refl

-- A group for every address that is only for a connection after a failure.
abbrev fallback : Group (listed ℕ)
fallback = record ranged { id = 1; detect = 1; pf0 = 0; pf1 = 0 }

abbrev groups : List (Group (listed ℕ))
groups = ranged ∷ fallback ∷ []

every_id :
    (i : ℕ) → i < 2 → (k : ℕ) × (g : Group (listed ℕ)) × (get_elem? groups k ≡ some g) × (g.id ≡ i)
every_id zero lt = (0, ranged, refl, refl)
every_id (suc zero) lt = (1, fallback, refl, refl)
every_id (suc (suc i)) lt = absurd (omega arith)

find_dp-Ends_example :
    Ends
      (listed ℕ)
      groups
      0
      1
      none
      server
      (find_dp (listed ℕ) 5 groups 0 1 none none server (false ∷ false ∷ []))
      (false ∷ false ∷ [])
find_dp-Ends_example =
    find_dp-Ends (listed ℕ) 5 groups 0 1 none none server (false ∷ false ∷ []) tt (omega arith)
      (omega arith) every_id

-- "GET / HTTP/1.1", a new line, "Host: a.b" and a new line
abbrev request : List ℕ
request =
    b'G' ∷ b'E' ∷ b'T' ∷ b' ' ∷ b'/' ∷ b' ' ∷ b'H' ∷ b'T' ∷ b'T' ∷ b'P' ∷ b'/' ∷ b'1' ∷ b'.' ∷ b'1'
    ∷ 10 ∷ b'H' ∷ b'o' ∷ b's' ∷ b't' ∷ b':' ∷ b' ' ∷ b'a' ∷ b'.' ∷ b'b' ∷ 10 ∷ b'x' ∷ []

abbrev parent : Entry ℕ
parent = record { key = name (b'b' ∷ []); val = 0 }

abbrev hosts : Mphdr (listed ℕ)
hosts = record { flags = 0; cmp_type = cmp_host; count = 1; root = parent ∷ [] }

accepted : check_host (listed ℕ) hosts request 26 ≡ some true
unfolding check_host host_in is_http matches starts_with_any strncasestr_from matches_nocase memchr
    skip_blanks trim_back digits_back bracket parse_port parse_host parse_http is_tls_chello
    parse_tls bytes scmp host_cmp host_loop mem_get antohs
accepted = refl

no_entry : (v : Entry ℕ) → ¬ (none ≡ some v)
no_entry v e = absurd (grind arith)

parent-found :
    (k : List ℕ) (v : Entry ℕ)
    → mem_get (listed ℕ) hosts k (length k) ≡ some v
    → v.key ≡ name v.key.bytes
unfolding mem_get
parent-found k v e = elim (Bool-cases (meets cmp_host (name k) parent)) [
  | inl m ↦ let same = some_eq parent v (rw m at e) in rw (← same) refl
  | inr m ↦ absurd (no_entry v (rw m at e))
]

check_host-Listed_example : (h : List ℕ) × Named request 26 h × Listed (listed ℕ) hosts h
check_host-Listed_example =
    check_host-Listed (listed ℕ) hosts request 26 (refl, parent-found) accepted

-- A client whose first group has failed.
abbrev failing : Lav
failing = record { held = true; recv_count = 0; dp = 0; dp_mask = false ∷ false ∷ []; detect = 0 }

abbrev unknown : Cached
unknown = record { dp_mask = false ∷ false ∷ []; dp = 0; detect = 0 }

on_trigger-fewer_example :
    (r : Triggered (listed ℕ)) × (on_trigger (listed ℕ) 1 0 true failing groups unknown ≡ some r)
    × Grown (false ∷ false ∷ []) r.lav.dp_mask
    × (unset r.lav.dp_mask < 2)
    × (r.reconnects ≡ true → IsRetry (listed ℕ) groups 1 r)
on_trigger-fewer_example =
    on_trigger-fewer (listed ℕ) 1 0 true failing groups unknown (0, ranged, refl, refl)
      (omega arith) refl

-- The second group takes the place of the first when that one has failed more often.
abbrev sorting : List (Group (listed ℕ))
sorting = record ranged { pri = 1 } ∷ record fallback { auto_level = 4 } ∷ []

sorting-swops :
    wants_swop
      (listed ℕ)
      (choose_next (listed ℕ) sorting (true ∷ false ∷ []) (true ∷ false ∷ []) 1 true).next
      (choose_next (listed ℕ) sorting (true ∷ false ∷ []) (true ∷ false ∷ []) 1 true).unchecked
      0
      1
    ≡ true
unfolding choose_next has
sorting-swops = refl

wants_swop-Present_example :
    (next : Group (listed ℕ)) × (pre rest : List (Group (listed ℕ))) × ((choose_next
        (listed ℕ)
        sorting
        (true ∷ false ∷ [])
        (true ∷ false ∷ [])
        1
        true).next
      ≡ some next)
    × (sorting ≡ pre ++ (next ∷ rest))
    × Present (listed ℕ) 0 pre
wants_swop-Present_example =
    wants_swop-Present (listed ℕ) sorting (true ∷ false ∷ []) 1 0 1 true refl sorting-swops

-- The addresses 1.2.3.4 and 1.2.3.12
abbrev host_4 : List ℕ
host_4 = 1 ∷ 2 ∷ 3 ∷ 4 ∷ []

abbrev host_12 : List ℕ
host_12 = 1 ∷ 2 ∷ 3 ∷ 12 ∷ []

four-AreBytes :
    (a b c d : ℕ) → a < 256 → b < 256 → c < 256 → d < 256 → AreBytes (a ∷ b ∷ c ∷ d ∷ [])
four-AreBytes a b c d ha hb hc hd zero x e = omega (arith, some_inv a x e)
four-AreBytes a b c d ha hb hc hd (suc zero) x e = omega (arith, some_inv b x e)
four-AreBytes a b c d ha hb hc hd (suc (suc zero)) x e = omega (arith, some_inv c x e)
four-AreBytes a b c d ha hb hc hd (suc (suc (suc zero))) x e = omega (arith, some_inv d x e)
four-AreBytes a b c d ha hb hc hd (suc (suc (suc (suc i)))) x e = absurd (grind arith)

eq_bitlen-Splits_example :
    (r : ℕ) × (eq_bitlen host_4 host_12 4 ≡ some r)
    × ((Agree host_4 host_12 4 × (r ≡ 40))
        ⊎ ((by : ℕ) × (j : ℕ) × (by < 4) × (r ≡ by * 8 + j) × Splits host_4 host_12 by j))
eq_bitlen-Splits_example =
    eq_bitlen-Splits host_4 host_12 4
      (four-AreBytes 1 2 3 4 (omega arith) (omega arith) (omega arith) (omega arith))
      (four-AreBytes 1 2 3 12 (omega arith) (omega arith) (omega arith) (omega arith)) (omega arith)
      (omega arith)

abbrev no_cache : Cache (listed ℕ)
no_cache = record {
  hdr = record { flags = 2; cmp_type = cmp_bits; count = 0; root = [] };
  cells = λ i. zero_elem;
  free = 0;
}

cache_get-cache_add_example :
    (a : Added (listed ℕ)) × (cache_add (listed ℕ) 1 0 100 server none no_cache ≡ some a)
    × ((a.cache.cells a.place).time ≡ 100)
    × (cache_get (listed ℕ) (λ id. 60) 150 server (saved (listed ℕ) a.cache a.place 1)
        ≡ some (some a.place, saved (listed ℕ) a.cache a.place 1))
cache_get-cache_add_example =
    cache_get-cache_add (listed ℕ) 1 0 100 150 1 (λ id. 60) server none no_cache (refl, refl, refl)
      refl (omega arith) refl (inl refl) (inr (omega arith))
