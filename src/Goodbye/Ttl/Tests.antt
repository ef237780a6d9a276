-- ===== src/Goodbye/Ttl/Tests.antt =====
-- The tracker of TTLs on concrete packets, with an association list for its table.
use zon_dpi.Prelude.{ℕ, ◌≡◌, refl, true, none, some, List, [], arith}
use zon_dpi.Goodbye.Table.{assoc}
use zon_dpi.Goodbye.Cleanup.{Tracker}
use zon_dpi.Goodbye.Dns.{Addr, copy_addr}
use zon_dpi.Goodbye.Single.{single, scaled, trunc, nearest, shift_from}
use zon_dpi.Goodbye.Ttl.{
  TcpConnrecord, tcp_construct_key, tcp_handle_incoming, tcp_handle_outgoing, hops, portion,
  near_ttl, fake_ttl, capped, ttl_for, tcp_get_auto_ttl,
}
use zon_dpi.Goodbye.Ttl.Conntrack.{tcp_handle_outgoing-tcp_handle_incoming}

abbrev server : Addr
server = record { w0 = 1; w1 = 2; w2 = 3; w3 = 4 }

abbrev client : Addr
client = record { w0 = 5; w1 = 6; w2 = 7; w3 = 8 }

abbrev start : Tracker (List (List ℕ × TcpConnrecord))
start = record { last_cleanup = 0; conntrack = [] }

tcp_handle_outgoing-tcp_handle_incoming_example :
    (tracked : Tracker (List (List ℕ × TcpConnrecord))) × (after : Tracker
      (List (List ℕ × TcpConnrecord)))
    × (tcp_handle_incoming (assoc TcpConnrecord) 100 server client 443 4000 true 52 start
        ≡ (true, tracked))
    × (tcp_handle_outgoing (assoc TcpConnrecord) 101 client server 4000 443 true tracked
        ≡ some (
          some (record {
            is_ipv6 = true;
            ttl = 52;
            srcip = copy_addr true server;
            srcport = 443;
            dstip = copy_addr true client;
            dstport = 4000;
          }),
          after,
        ))
    × ((assoc TcpConnrecord).find (tcp_construct_key server client 443 4000 true) after.conntrack
        ≡ none)
tcp_handle_outgoing-tcp_handle_incoming_example =
    tcp_handle_outgoing-tcp_handle_incoming (assoc TcpConnrecord) 100 101 server client 443 4000
      true 52 start refl (omega arith) (omega arith) (omega arith)

-- Of 9 hops, 1 is taken off and then the whole part of 3.6, as 5 would leave less than 5.
guessed : tcp_get_auto_ttl 55 1 5 3 10 ≡ some 5
unfolding tcp_get_auto_ttl ttl_for hops fake_ttl near_ttl portion capped scaled single trunc nearest
    shift_from
guessed = refl
