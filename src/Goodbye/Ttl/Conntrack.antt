-- ===== src/Goodbye/Ttl/Conntrack.antt =====
-- What the tracker of engines/goodbye/upstream/src/ttltrack.c promises to its callers.
use zon_dpi.Prelude.{ℕ, ◌+◌, ◌<◌, ◌≡◌, refl, Bool, true, false, none, some, ◌==◌, arith}
use zon_dpi.Goodbye.Table.{Table}
use zon_dpi.Goodbye.Cleanup.{Tracker}
use zon_dpi.Goodbye.Cleanup.Laws.{cleanup-kept, cleanup-none}
use zon_dpi.Goodbye.Dns.{Addr, copy_addr}
use zon_dpi.Goodbye.Ttl.{
  TcpConnrecord, tcp_construct_key, tcp_deconstruct_key, tcp_cleanup_interval_sec,
  add_tcp_conntrack, tcp_cleanup, tcp_handle_incoming, take_tcp_record, tcp_handle_outgoing,
}

tcp_deconstruct_key-tcp_construct_key :
    (srcip dstip : Addr) (srcport dstport : ℕ) (is_ipv6 : Bool) (c : TcpConnrecord)
    → tcp_deconstruct_key (tcp_construct_key srcip dstip srcport dstport is_ipv6) c
      ≡ some (record {
        is_ipv6 = is_ipv6;
        ttl = c.ttl;
        srcip = copy_addr is_ipv6 srcip;
        srcport = srcport;
        dstip = copy_addr is_ipv6 dstip;
        dstport = dstport;
      })
unfolding tcp_deconstruct_key tcp_construct_key
tcp_deconstruct_key-tcp_construct_key srcip dstip srcport dstport true c = refl
tcp_deconstruct_key-tcp_construct_key srcip dstip srcport dstport false c = refl

module _ (H : Table TcpConnrecord) where
  tcp_handle_incoming-fresh :
      (now : ℕ) (srcip dstip : Addr) (srcport dstport : ℕ) (is_ipv6 : Bool) (ttl : ℕ)
      (s : Tracker H.T)
      → H.find (tcp_construct_key srcip dstip srcport dstport is_ipv6) s.conntrack ≡ none
      → 0 < srcport
      → 0 < dstport
      → (tracked : Tracker H.T) × (tcp_handle_incoming H now srcip dstip srcport dstport is_ipv6 ttl
            s
          ≡ (true, tracked))
        × (H.find (tcp_construct_key srcip dstip srcport dstport is_ipv6) tracked.conntrack
            ≡ some (record { time = now; ttl = ttl }))
  unfolding tcp_handle_incoming add_tcp_conntrack tcp_cleanup
  tcp_handle_incoming-fresh now srcip dstip srcport dstport is_ipv6 ttl s absent sp dp =
      let key = tcp_construct_key srcip dstip srcport dstport is_ipv6 in
      let c : TcpConnrecord = record { time = now; ttl = ttl } in
      let cleaned = tcp_cleanup H now s in
      let gone = cleanup-none H (λ c. c.time) tcp_cleanup_interval_sec now key s absent in
      let e1 : (srcport == 0) ≡ false = ground arith in
      let e2 : (dstport == 0) ≡ false = ground arith in
      (
        record cleaned { conntrack = H.add key c cleaned.conntrack },
        rw (e1, e2, gone),
        H.find-add_self key c cleaned.conntrack gone,
      )

  tcp_handle_outgoing-found :
      (now : ℕ) (srcip dstip : Addr) (srcport dstport : ℕ) (is_ipv6 : Bool) (c : TcpConnrecord)
      (s : Tracker H.T)
      → H.find (tcp_construct_key dstip srcip dstport srcport is_ipv6) s.conntrack ≡ some c
      → now < c.time + 30
      → (after : Tracker H.T) × (tcp_handle_outgoing H now srcip dstip srcport dstport is_ipv6 s
          ≡ some (
            some (record {
              is_ipv6 = is_ipv6;
              ttl = c.ttl;
              srcip = copy_addr is_ipv6 dstip;
              srcport = dstport;
              dstip = copy_addr is_ipv6 srcip;
              dstport = srcport;
            }),
            after,
          ))
        × (H.find (tcp_construct_key dstip srcip dstport srcport is_ipv6) after.conntrack ≡ none)
  unfolding tcp_handle_outgoing take_tcp_record tcp_cleanup tcp_cleanup_interval_sec
  tcp_handle_outgoing-found now srcip dstip srcport dstport is_ipv6 c s h young =
      let key = tcp_construct_key dstip srcip dstport srcport is_ipv6 in
      let cleaned = tcp_cleanup H now s in
      let still = cleanup-kept H (λ c. c.time) 30 now key c s h young in
      (
        record cleaned { conntrack = H.del key cleaned.conntrack },
        rw (still, tcp_deconstruct_key-tcp_construct_key dstip srcip dstport srcport is_ipv6 c),
        H.find-del_self key cleaned.conntrack,
      )

  -- From a table without the connection, a packet of a server with ports that are not zero is
  -- tracked; a packet to that server from the same client less than 30 s later gets the TTL of
  -- the server's packet, and the record is gone after it.
  pub tcp_handle_outgoing-tcp_handle_incoming :
      (t0 t1 : ℕ) (server client : Addr) (server_port client_port : ℕ) (is_ipv6 : Bool) (ttl : ℕ)
      (s : Tracker H.T)
      → H.find (tcp_construct_key server client server_port client_port is_ipv6) s.conntrack ≡ none
      → 0 < server_port
      → 0 < client_port
      → t1 < t0 + 30
      → (tracked : Tracker H.T) × (after : Tracker H.T) × (tcp_handle_incoming H t0 server client
            server_port client_port is_ipv6 ttl s
          ≡ (true, tracked))
        × (tcp_handle_outgoing H t1 client server client_port server_port is_ipv6 tracked
            ≡ some (
              some (record {
                is_ipv6 = is_ipv6;
                ttl = ttl;
                srcip = copy_addr is_ipv6 server;
                srcport = server_port;
                dstip = copy_addr is_ipv6 client;
                dstport = client_port;
              }),
              after,
            ))
        × (H.find (tcp_construct_key server client server_port client_port is_ipv6) after.conntrack
            ≡ none)
  tcp_handle_outgoing-tcp_handle_incoming t0 t1 server client server_port client_port is_ipv6 ttl s
        absent sp dp soon =
      let (tracked, sent, there) =
        tcp_handle_incoming-fresh t0 server client server_port client_port is_ipv6 ttl s absent sp
          dp in
      let (after, got, gone) =
        tcp_handle_outgoing-found t1 client server client_port server_port is_ipv6
          (record { time = t0; ttl = ttl }) tracked there soon in
      (tracked, after, sent, got, gone)
