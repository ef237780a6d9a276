-- ===== src/Goodbye/Dns/Tests.antt =====
-- The tracker of DNS requests on concrete packets, with an association list for its table.
use zon_dpi.Prelude.{ℕ, ◌≡◌, refl, true, false, none, some, List, [], ◌∷◌, replicate, arith}
use zon_dpi.Goodbye.Table.{assoc}
use zon_dpi.Goodbye.Cleanup.{Tracker}
use zon_dpi.Goodbye.Dns.{
  Addr, Connrecord, construct_key, copy_addr, dns_is_dns_packet, dns_cleanup, dns_handle_outgoing,
  dns_handle_incoming,
}
use zon_dpi.Goodbye.Dns.Conntrack.{
  dns_handle_incoming-dns_handle_outgoing, dns_handle_incoming-expired,
}

abbrev client : Addr
client = record { w0 = 167772161; w1 = 0; w2 = 0; w3 = 0 }

abbrev resolver : Addr
resolver = record { w0 = 134744072; w1 = 0; w2 = 0; w3 = 0 }

-- A query with one question, and its answer: the flags are 0x0100 and 0x8180.
abbrev query : List ℕ
query = 7 ∷ 9 ∷ 1 ∷ 0 ∷ 0 ∷ 1 ∷ replicate 12 0

abbrev answer : List ℕ
answer = 7 ∷ 9 ∷ 129 ∷ 128 ∷ 0 ∷ 1 ∷ 0 ∷ 1 ∷ replicate 10 0

query_is_dns : dns_is_dns_packet query true ≡ some true
unfolding dns_is_dns_packet
query_is_dns = refl

answer_is_dns : dns_is_dns_packet answer false ≡ some true
unfolding dns_is_dns_packet
answer_is_dns = refl

abbrev start : Tracker (List (List ℕ × Connrecord))
start = record { last_cleanup = 0; conntrack = [] }

dns_handle_incoming-dns_handle_outgoing_example :
    (tracked : Tracker (List (List ℕ × Connrecord))) × (after : Tracker
      (List (List ℕ × Connrecord)))
    × (dns_handle_outgoing (assoc Connrecord) 100 client 4000 resolver 13568 query false start
        ≡ some (true, tracked))
    × (dns_handle_incoming (assoc Connrecord) 110 client 4000 answer false tracked
        ≡ some (
          some record {
            is_ipv6 = false;
            srcip = copy_addr false client;
            srcport = 4000;
            dstip = copy_addr false resolver;
            dstport = 13568;
          },
          after,
        ))
    × ((assoc Connrecord).find (construct_key client 4000 false) after.conntrack ≡ none)
dns_handle_incoming-dns_handle_outgoing_example =
    dns_handle_incoming-dns_handle_outgoing (assoc Connrecord) 100 110 client 4000 resolver 13568
      query answer false start refl (omega arith) (omega arith) (omega arith) query_is_dns
      answer_is_dns

abbrev held : Connrecord
held = record { time = 100; dstip = resolver; dstport = 13568 }

abbrev later : Tracker (List (List ℕ × Connrecord))
later = record { last_cleanup = 90; conntrack = (construct_key client 4000 false, held) ∷ [] }

is_held : (assoc Connrecord).find (construct_key client 4000 false) later.conntrack ≡ some held
unfolding construct_key
is_held = refl

dns_handle_incoming-expired_example :
    dns_handle_incoming (assoc Connrecord) 131 client 4000 answer false later
    ≡ some (none, dns_cleanup (assoc Connrecord) 131 later)
dns_handle_incoming-expired_example =
    dns_handle_incoming-expired (assoc Connrecord) 131 client 4000 answer false held later is_held
      (omega arith) (omega arith) (omega arith) answer_is_dns
