-- ===== src/Goodbye/Dns/Conntrack.antt =====
-- What the tracker of engines/goodbye/upstream/src/dnsredir.c promises to its callers.
use zon_dpi.Prelude.{
  ℕ, ◌+◌, ◌≤◌, ◌<◌, ◌≡◌, refl, Bool, true, false, none, some, List, ◌==◌, ltb, length, arith,
  Bool-cases, inl, inr, ◌∙◌,
}
use zon_dpi.Goodbye.Table.{Key, Table}
use zon_dpi.Goodbye.Cleanup.{Tracker}
use zon_dpi.Goodbye.Cleanup.Laws.{cleanup-kept, cleanup-none, cleanup-expired}
use zon_dpi.Goodbye.Dns.{
  Addr, Connrecord, construct_key, deconstruct_key, copy_addr, dns_is_dns_packet, add_udp_conntrack,
  dns_cleanup, dns_handle_outgoing, dns_handle_incoming, take_record, dns_cleanup_interval_sec,
}

-- `deconstruct_key` undoes `construct_key`: whatever the addresses and ports are, it gives back
-- the family, the source of the key with the words that the family uses, and the destination
-- of the record.
pub deconstruct_key-construct_key :
    (srcip : Addr) (srcport : ℕ) (is_ipv6 : Bool) (c : Connrecord)
    → deconstruct_key (construct_key srcip srcport is_ipv6) c
      ≡ some record {
        is_ipv6 = is_ipv6;
        srcip = copy_addr is_ipv6 srcip;
        srcport = srcport;
        dstip = copy_addr is_ipv6 c.dstip;
        dstport = c.dstport;
      }
unfolding deconstruct_key construct_key
deconstruct_key-construct_key srcip srcport true c = refl
deconstruct_key-construct_key srcip srcport false c = refl

copy_addr-copy_addr :
    (is_ipv6 : Bool) (a : Addr) → copy_addr is_ipv6 (copy_addr is_ipv6 a) ≡ copy_addr is_ipv6 a
copy_addr-copy_addr true a = refl
copy_addr-copy_addr false a = refl

module _ (H : Table Connrecord) where
  dns_cleanup-kept :
      (now : ℕ) (k : Key) (c : Connrecord) (s : Tracker H.T)
      → H.find k s.conntrack ≡ some c
      → now < c.time + 30
      → H.find k (dns_cleanup H now s).conntrack ≡ some c
  unfolding dns_cleanup dns_cleanup_interval_sec
  dns_cleanup-kept now k c s h young = cleanup-kept H (λ c. c.time) 30 now k c s h young

  dns_cleanup-none :
      (now : ℕ) (k : Key) (s : Tracker H.T)
      → H.find k s.conntrack ≡ none
      → H.find k (dns_cleanup H now s).conntrack ≡ none
  unfolding dns_cleanup
  dns_cleanup-none now k s h = cleanup-none H (λ c. c.time) dns_cleanup_interval_sec now k s h

  dns_cleanup-expired :
      (now : ℕ) (k : Key) (c : Connrecord) (s : Tracker H.T)
      → H.find k s.conntrack ≡ some c
      → 0 < s.last_cleanup
      → s.last_cleanup + 30 ≤ now
      → c.time + 30 ≤ now
      → H.find k (dns_cleanup H now s).conntrack ≡ none
  unfolding dns_cleanup dns_cleanup_interval_sec
  dns_cleanup-expired now k c s h set due old =
      cleanup-expired H (λ c. c.time) 30 now k c s h set due old

  long_enough :
      (packet : List ℕ) (outgoing : Bool)
      → dns_is_dns_packet packet outgoing ≡ some true
      → ltb (length packet) 16 ≡ false
  unfolding dns_is_dns_packet
  long_enough packet outgoing h = elim (Bool-cases (ltb (length packet) 16)) [
    | inl e ↦ let f : dns_is_dns_packet packet outgoing ≡ some false = rw e in cc
    | inr e ↦ e
  ]

  abbrev fresh : ℕ → Addr → ℕ → Bool → Connrecord
  fresh now dstip dstport is_ipv6 = record {
    time = now;
    dstip = copy_addr is_ipv6 dstip;
    dstport = dstport;
  }

  dns_handle_outgoing-fresh :
      (now : ℕ) (srcip : Addr) (srcport : ℕ) (dstip : Addr) (dstport : ℕ) (request : List ℕ)
      (is_ipv6 : Bool) (s : Tracker H.T)
      → H.find (construct_key srcip srcport is_ipv6) s.conntrack ≡ none
      → 0 < srcport
      → 0 < dstport
      → dns_is_dns_packet request true ≡ some true
      → (tracked : Tracker H.T) × (dns_handle_outgoing H now srcip srcport dstip dstport request
            is_ipv6 s
          ≡ some (true, tracked))
        × (H.find (construct_key srcip srcport is_ipv6) tracked.conntrack
            ≡ some (fresh now dstip dstport is_ipv6))
  unfolding dns_handle_outgoing add_udp_conntrack
  dns_handle_outgoing-fresh now srcip srcport dstip dstport request is_ipv6 s absent sp dp out =
      let key = construct_key srcip srcport is_ipv6 in
      let cleaned = dns_cleanup H now s in
      let gone = dns_cleanup-none now key s absent in
      let e1 : (srcport == 0) ≡ false = ground arith in
      let e2 : (dstport == 0) ≡ false = ground arith in
      (
        record cleaned {
          conntrack = H.add key (fresh now dstip dstport is_ipv6) cleaned.conntrack;
        },
        rw (long_enough request true out, out, e1, e2, gone),
        H.find-add_self key (fresh now dstip dstport is_ipv6) cleaned.conntrack gone,
      )

  dns_handle_incoming-found :
      (now : ℕ) (srcip : Addr) (srcport : ℕ) (reply : List ℕ) (is_ipv6 : Bool) (c : Connrecord)
      (s : Tracker H.T)
      → H.find (construct_key srcip srcport is_ipv6) s.conntrack ≡ some c
      → now < c.time + 30
      → dns_is_dns_packet reply false ≡ some true
      → (after : Tracker H.T) × (dns_handle_incoming H now srcip srcport reply is_ipv6 s
          ≡ some (
            some record {
              is_ipv6 = is_ipv6;
              srcip = copy_addr is_ipv6 srcip;
              srcport = srcport;
              dstip = copy_addr is_ipv6 c.dstip;
              dstport = c.dstport;
            },
            after,
          ))
        × (H.find (construct_key srcip srcport is_ipv6) after.conntrack ≡ none)
  unfolding dns_handle_incoming take_record
  dns_handle_incoming-found now srcip srcport reply is_ipv6 c s h young back =
      let key = construct_key srcip srcport is_ipv6 in
      let cleaned = dns_cleanup H now s in
      let still = dns_cleanup-kept now key c s h young in
      (
        record cleaned { conntrack = H.del key cleaned.conntrack },
        rw (
          long_enough reply false back,
          back,
          still,
          deconstruct_key-construct_key srcip srcport is_ipv6 c,
        ),
        H.find-del_self key cleaned.conntrack,
      )

  -- The reply of a request: from a table without the key, a request with ports that are not zero
  -- is tracked; a reply to the same address and port less than 30 s later is answered with the
  -- request's addresses and ports, and the record is gone after it.
  pub dns_handle_incoming-dns_handle_outgoing :
      (t0 t1 : ℕ) (srcip : Addr) (srcport : ℕ) (dstip : Addr) (dstport : ℕ) (request reply : List ℕ)
      (is_ipv6 : Bool) (s : Tracker H.T)
      → H.find (construct_key srcip srcport is_ipv6) s.conntrack ≡ none
      → 0 < srcport
      → 0 < dstport
      → t1 < t0 + 30
      → dns_is_dns_packet request true ≡ some true
      → dns_is_dns_packet reply false ≡ some true
      → (tracked : Tracker H.T) × (after : Tracker H.T) × (dns_handle_outgoing H t0 srcip srcport
            dstip dstport request is_ipv6 s
          ≡ some (true, tracked))
        × (dns_handle_incoming H t1 srcip srcport reply is_ipv6 tracked
            ≡ some (
              some record {
                is_ipv6 = is_ipv6;
                srcip = copy_addr is_ipv6 srcip;
                srcport = srcport;
                dstip = copy_addr is_ipv6 dstip;
                dstport = dstport;
              },
              after,
            ))
        × (H.find (construct_key srcip srcport is_ipv6) after.conntrack ≡ none)
  dns_handle_incoming-dns_handle_outgoing t0 t1 srcip srcport dstip dstport request reply is_ipv6 s
        absent sp dp soon out back =
      let (tracked, sent, there) =
        dns_handle_outgoing-fresh t0 srcip srcport dstip dstport request is_ipv6 s absent sp dp
          out in
      let (after, got, gone) =
        dns_handle_incoming-found t1 srcip srcport reply is_ipv6 (fresh t0 dstip dstport is_ipv6)
          tracked there soon back in
      (tracked, after, sent, got ∙ rw (copy_addr-copy_addr is_ipv6 dstip), gone)

  -- A record of 30 s or more is not used: when a clean-up is due, the reply finds nothing.
  pub dns_handle_incoming-expired :
      (now : ℕ) (srcip : Addr) (srcport : ℕ) (reply : List ℕ) (is_ipv6 : Bool) (c : Connrecord)
      (s : Tracker H.T)
      → H.find (construct_key srcip srcport is_ipv6) s.conntrack ≡ some c
      → 0 < s.last_cleanup
      → s.last_cleanup + 30 ≤ now
      → c.time + 30 ≤ now
      → dns_is_dns_packet reply false ≡ some true
      → dns_handle_incoming H now srcip srcport reply is_ipv6 s ≡ some (none, dns_cleanup H now s)
  unfolding dns_handle_incoming take_record
  dns_handle_incoming-expired now srcip srcport reply is_ipv6 c s h set due old back =
      let gone = dns_cleanup-expired now (construct_key srcip srcport is_ipv6) c s h set due old in
      rw (long_enough reply false back, back, gone)
