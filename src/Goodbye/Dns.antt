-- ===== src/Goodbye/Dns.antt =====
-- The tracker of DNS requests, engines/goodbye/upstream/src/dnsredir.c with the copies of
-- addresses of dnsredir.h. A port is the 16-bit word as it stands in the packet, an address
-- four 32-bit words. `time(NULL)` is one argument of a handler: it is read once in a call.
-- Memory for a record is always had.
pub mod Conntrack
mod Tests
use zon_dpi.Prelude.{
  ℕ, ◌+◌, ◌*◌, ◌/◌, ◌%◌, ◌≡◌, Bool, true, false, ◌&&◌, ◌||◌, not, Option, none, some, List, [], ◌∷◌,
  ◌==◌, leb, ltb, length, if◌then◌else◌, get_elem?,
}
use zon_dpi.Goodbye.Table.{Key, Table}
use zon_dpi.Goodbye.Cleanup.{Tracker, is_some, cleanup}
use zon_dpi.Bytes.{◌>>=◌}

pub record Addr : Type 0 where
  pub w0 : ℕ
  pub w1 : ℕ
  pub w2 : ℕ
  pub w3 : ℕ

abbrev pub ipv4_copy_addr : Addr → Addr
ipv4_copy_addr a = record { w0 = a.w0; w1 = 0; w2 = 0; w3 = 0 }

abbrev pub ipv6_copy_addr : Addr → Addr
ipv6_copy_addr a = record { w0 = a.w0; w1 = a.w1; w2 = a.w2; w3 = a.w3 }

-- The copy that both branches of the tracker choose by the family.
abbrev pub copy_addr : Bool → Addr → Addr
copy_addr is_ipv6 a = if is_ipv6 then ipv6_copy_addr a else ipv4_copy_addr a

-- `udp_connrecord_t` less its key.
pub record Connrecord : Type 0 where
  pub time : ℕ
  pub dstip : Addr
  pub dstport : ℕ

pub record ConntrackInfo : Type 0 where
  pub is_ipv6 : Bool
  pub srcip : Addr
  pub srcport : ℕ
  pub dstip : Addr
  pub dstport : ℕ

-- `fill_key_data`: the characters '6' and '4' are 54 and 52.
unfoldable pub construct_key : Addr → ℕ → Bool → Key
construct_key srcip srcport is_ipv6 =
    let a = copy_addr is_ipv6 srcip in
    (if is_ipv6 then 54 else 52) ∷ a.w0 ∷ a.w1 ∷ a.w2 ∷ a.w3 ∷ srcport ∷ []

unfoldable pub dns_cleanup_interval_sec : ℕ
dns_cleanup_interval_sec = 30

-- `fill_data_from_key` and the rest of `deconstruct_key`; a key has six words.
unfoldable pub deconstruct_key : Key → Connrecord → Option ConntrackInfo
deconstruct_key key connrecord = get_elem? key 0 >>= λ tag. get_elem? key 1 >>= λ w0.
    get_elem? key 2 >>= λ w1. get_elem? key 3 >>= λ w2. get_elem? key 4 >>= λ w3.
    get_elem? key 5 >>= λ srcport.
    let six = tag == 54 in
    some record {
      is_ipv6 = six;
      srcip = copy_addr six (record { w0 = w0; w1 = w1; w2 = w2; w3 = w3 });
      srcport = srcport;
      dstip = copy_addr six connrecord.dstip;
      dstport = connrecord.dstport;
    }

abbrev pub be16 : List ℕ → ℕ → Option ℕ
be16 packet i = get_elem? packet i >>= λ hi. get_elem? packet (i + 1) >>= λ lo. some (hi * 256 + lo)

-- `packet_data` has `packet_dataLen` bytes. `& 0xFA00` is zero when the five high bits and bit 9
-- are; `& 0xF800` reads the five high bits. `ntohs` of the 32-bit word at 6 keeps only the
-- bytes 6 and 7.
unfoldable pub dns_is_dns_packet : List ℕ → Bool → Option Bool
dns_is_dns_packet packet outgoing =
    if ltb (length packet) 16
    then some false
    else be16 packet 2 >>= λ flags. be16 packet 6 >>= λ counts. some (
        if outgoing
        then (flags / 2048 == 0) && (flags / 512 % 2 == 0) && (counts == 0)
        else flags / 2048 == 16)

module _ (H : Table Connrecord) where
  unfoldable pub add_udp_conntrack :
      ℕ → Addr → ℕ → Addr → ℕ → Bool → Tracker H.T → Bool × Tracker H.T
  add_udp_conntrack now srcip srcport dstip dstport is_ipv6 s =
      if (srcport == 0) || (dstport == 0)
      then (false, s)
      else let key = construct_key srcip srcport is_ipv6 in
        let c : Connrecord = record {
          time = now;
          dstip = copy_addr is_ipv6 dstip;
          dstport = dstport;
        } in
        if is_some (H.find key s.conntrack)
        then (false, s)
        else (true, record s { conntrack = H.add key c s.conntrack })

  unfoldable pub dns_cleanup : ℕ → Tracker H.T → Tracker H.T
  dns_cleanup now s = cleanup H (λ c. c.time) dns_cleanup_interval_sec now s

  -- `none` is a read out of the packet, which `Conntrack` rules out.
  unfoldable pub dns_handle_outgoing :
      ℕ → Addr → ℕ → Addr → ℕ → List ℕ → Bool → Tracker H.T → Option (Bool × Tracker H.T)
  dns_handle_outgoing now srcip srcport dstip dstport packet is_ipv6 s =
      if ltb (length packet) 16
      then some (false, s)
      else let cleaned = dns_cleanup now s in
        dns_is_dns_packet packet true >>= λ is_dns. some (
          if is_dns
          then add_udp_conntrack now srcip srcport dstip dstport is_ipv6 cleaned
          else (false, cleaned))

  -- The record found, as `conn_info`; `none` in the pair is FALSE.
  unfoldable pub take_record :
      Key → Option Connrecord → Tracker H.T → Option (Option ConntrackInfo × Tracker H.T)
  take_record key none s = some (none, s)
  take_record key (some c) s = deconstruct_key key c >>= λ info.
      some (some info, record s { conntrack = H.del key s.conntrack })

  -- `conn_info` is not NULL.
  unfoldable pub dns_handle_incoming :
      ℕ → Addr → ℕ → List ℕ → Bool → Tracker H.T → Option (Option ConntrackInfo × Tracker H.T)
  dns_handle_incoming now srcip srcport packet is_ipv6 s =
      if ltb (length packet) 16
      then some (none, s)
      else let key = construct_key srcip srcport is_ipv6 in
        let cleaned = dns_cleanup now s in
        dns_is_dns_packet packet false >>= λ is_dns.
        if is_dns
        then take_record key (H.find key cleaned.conntrack) cleaned
        else some (none, cleaned)
