-- ===== src/ByeDpi/Extend/Groups.antt =====
-- The groups of options and the choice among them: `check_host`, `check_ip`, `check_proto_tcp`,
-- `check_l34`, `check_round` and `find_dp` of engines/byedpi/upstream/extend.c. The groups stand in
-- the order of `next`; a pointer to one is its place, and the number of groups for a null pointer.
-- A mask of `1 << id` is the list of its bits, up to the number of groups.
pub mod Ports
pub mod Hosts
pub mod Circle
use zon_dpi.Prelude.{
  ℕ, zero, suc, ◌+◌, ◌-◌, ◌*◌, ◌==◌, not, ◌&&◌, ◌||◌, leb, ltb, Bool, true, false, Option, none,
  some, List, [], ◌∷◌, take, length, get_elem?, get_or, set, if◌then◌else◌,
}
use zon_dpi.Prelude.Int.{ℤ, pos, negsuc}
use zon_dpi.Bytes.{◌>>=◌}
use zon_dpi.ByeDpi.Desync.{has}
use zon_dpi.ByeDpi.Http.{is_http, parse_http}
use zon_dpi.ByeDpi.Tls.Hello.{is_tls_chello, parse_tls}
use zon_dpi.ByeDpi.Mpool.Store.{Entry, Kavl, Mphdr, mem_get}
use zon_dpi.ByeDpi.Proxy.{Sockaddr, af_inet, af_inet6, bytes}
use zon_dpi.ByeDpi.Proxy.Address.{bytes_eq, mapped_prefix, bad_length, length_of, host_bytes}

abbrev pub is_tcp : ℕ
is_tcp = 1

abbrev pub is_udp : ℕ
is_udp = 2

abbrev pub is_ipv4 : ℕ
is_ipv4 = 16

abbrev pub sock_stream : ℕ
sock_stream = 1

abbrev pub sock_dgram : ℕ
sock_dgram = 2

-- A `uint16_t` in network order, as the number that a little-endian machine reads.
abbrev pub raw_port : List ℕ → ℕ
raw_port bs = get_or bs 0 0 + get_or bs 1 0 * 256

unfoldable pub check_round : ℕ → ℕ → ℕ → Bool
check_round nr0 nr1 r = ((nr1 == 0) && leb r 1) || (leb nr0 r && leb r nr1)

-- `!(proto & ~IS_IPV4)`
abbrev pub only_ipv4 : ℕ → Bool
only_ipv4 proto = (proto == 0) || (proto == is_ipv4)

-- `if (test) return 1; else rest`, where the test is only made for `on`.
abbrev pub or_test : Bool → Option Bool → Option Bool → Option Bool
or_test on test rest = if on then (test >>= λ b. if b then some true else rest) else rest

unfoldable pub check_proto_tcp : ℕ → List ℕ → ℕ → Option Bool
check_proto_tcp proto buffer n =
    if only_ipv4 proto
    then some true
    else or_test (has proto 4) (is_http buffer n)
        (or_test (has proto 8) (is_tls_chello buffer n) (some false))

module _ {V : Type 0} (K : Kavl V) where
  -- The fields of `struct desync_params` that are read here.
  pub record Group : Type 0 where
    pub id : ℕ
    pub detect : ℕ
    pub auto_level : ℕ
    pub proto : ℕ
    pub hosts : Option (Mphdr K)
    pub ipset : Option (Mphdr K)
    pub pf0 : ℕ
    pub pf1 : ℕ
    pub pri : ℕ

  -- `v && v->len <= len`
  abbrev pub covers : ℕ → Option (Entry V) → Bool
  covers len none = false
  covers len (some v) = leb v.key.len len

  -- `check_host` for a name that has been parsed.
  unfoldable pub host_in : Mphdr K → List ℕ → ℤ → Option ℕ → Option Bool
  host_in hosts buffer (negsuc n) host = some false
  host_in hosts buffer (pos n) host =
      if n == 0
      then some false
      else (host_bytes buffer host n >>= λ h. some (covers n (mem_get K hosts h n)))

  unfoldable pub check_host : Mphdr K → List ℕ → ℕ → Option Bool
  check_host hosts buffer n = parse_tls buffer n >>= λ tls.
      if not (tls.ret == 0)
      then host_in hosts buffer (pos tls.ret) tls.hs
      else (parse_http false buffer n >>= λ http. host_in hosts buffer http.ret http.hs)

  abbrev pub is_found : Option (Entry V) → Bool
  is_found none = false
  is_found (some v) = true

  unfoldable pub check_ip : Mphdr K → Sockaddr → Bool
  check_ip ipset dst =
      is_found
        (if dst.family == af_inet6 then mem_get K ipset dst.v6 128 else mem_get K ipset dst.v4 32)

  -- `dp->ipset && !check_ip(dp->ipset, dst)`
  abbrev pub outside : Option (Mphdr K) → Sockaddr → Bool
  outside none dst = false
  outside (some ipset) dst = not (check_ip ipset dst)

  unfoldable pub check_l34 : Group → ℕ → Sockaddr → Bool
  check_l34 dp st dst =
      if has dp.proto is_udp && not (st == sock_dgram)
      then false
      else if has dp.proto is_tcp && not (st == sock_stream)
      then false
      else if has dp.proto is_ipv4
          && (not (dst.family == af_inet) && not (bytes_eq (take 12 dst.v6) mapped_prefix))
      then false
      else if not (dp.pf0 == 0)
          && (ltb (raw_port dst.port) dp.pf0 || ltb dp.pf1 (raw_port dst.port))
      then false
      else not (outside dp.ipset dst)

  -- A message with its length, if there is one.
  abbrev pub Message : Type 0
  Message = Option (List ℕ × ℕ)

  -- `!dp->proto || !buff || check_proto_tcp(...)`
  abbrev pub proto_fits : ℕ → Message → Option Bool
  proto_fits proto none = some true
  proto_fits proto (some (buff, n)) = if proto == 0 then some true else check_proto_tcp proto buff n

  -- `!dp->hosts || !buff || check_host(...)`
  abbrev pub hosts_fit : Option (Mphdr K) → Message → Option Bool
  hosts_fit none m = some true
  hosts_fit (some hosts) none = some true
  hosts_fit (some hosts) (some (buff, n)) = check_host hosts buff n

  -- `dp == init_dp || !dp->detect || (client->detect & dp->detect)`
  abbrev pub allowed : Group → Bool → ℕ → Bool
  allowed dp first detect = first || ((dp.detect == 0) || has detect dp.detect)

  -- The test of `find_dp`, from left to right.
  unfoldable pub suits : Group → Bool → List Bool → ℕ → Message → Sockaddr → Option Bool
  suits dp first mask detect m dst =
      if get_or mask dp.id false
        || (not (allowed dp first detect) || not (check_l34 dp sock_stream dst))
      then some false
      else (proto_fits dp.proto m >>= λ p. if p then hosts_fit dp.hosts m else some false)

  -- `dp_mask == dp_full_mask`
  abbrev pub all_set : List Bool → Bool
  all_set [] = true
  all_set (b ∷ bs) = b && all_set bs

  -- The loop of `find_dp` from the place `at`, with fuel; `init` is where it began. The place found
  -- and the mask.
  unfoldable pub find_loop :
      ℕ → List Group → ℕ → ℕ → Message → Sockaddr → ℕ → List Bool → Option (Option ℕ × List Bool)
  find_loop zero groups init detect m dst at mask = none
  find_loop (suc fuel) groups init detect m dst at mask =
      let here = if at == length groups then 0 else at in
      if all_set mask
      then some (none, mask)
      else (get_elem? groups here >>= λ dp. suits dp (here == init) mask detect m dst >>= λ fits.
          let next = find_loop fuel groups init detect m dst (here + 1) (set mask dp.id true) in
          if fits then some (some here, mask) else next)

  -- `if (!buff && client->buff)`
  abbrev pub message_of : Message → Message → Message
  message_of none buffered = buffered
  message_of (some m) buffered = some m

  unfoldable pub find_dp :
      ℕ
      → List Group
      → ℕ
      → ℕ
      → Message
      → Message
      → Sockaddr
      → List Bool
      → Option (Option ℕ × List Bool)
  find_dp fuel groups dp detect buffered m dst mask =
      find_loop fuel groups dp detect (message_of m buffered) dst dp mask
