-- ===== src/Lib.antt =====
-- Verification of the two packet engines of this repository.
--
-- ZonDPI runs two engines written in C. ByeDPI (engines/byedpi/upstream) is a proxy that cuts and
-- alters the first messages of a connection, so that a filter does not recognise them: packets.c
-- parses and edits TLS and HTTP messages, desync.c uses it to say where a message is cut and sends
-- the parts; proxy.c speaks the proxy protocols, and conev.c is the event loop that calls it, with
-- the timers and buffers of all connections. extend.c stands between proxy.c and desync.c: it
-- chooses a group of options for a connection, and another one after a failure, with the sets of
-- mpool.c. GoodbyeDPI (engines/goodbye/upstream/src) filters
-- packets; dnsredir.c is its tracker of redirected DNS requests, ttltrack.c the one of the TTL of a
-- server.
--
-- The files and the code:
-- - Prelude and its children: numbers, integers and lists. Bytes: buffers, the macros ANTOHS and
--   SHTONA of packets.h, memmove and memcmp.
-- - ByeDpi/Tls/Ext: find_tls_ext_offset, find_ext_block of packets.c.
-- - ByeDpi/Tls/Hello: is_tls_chello, is_tls_shello, parse_tls, neq_tls_sid of packets.c.
-- - ByeDpi/Tls/Records: part_tls, merge_tls_records of packets.c.
-- - ByeDpi/Http: strncasestr, is_http, parse_http, get_http_code of packets.c.
-- - ByeDpi/Desync: init_proto_info and gen_offset of desync.c, with the flags of params.h.
-- - ByeDpi/Desync/Loop: the loop of desync, which calls gen_offset, which calls parse_tls and
--   parse_http.
-- - ByeDpi/Conev: the structs of conev.h. Conev/Timers: set_timer, remove_timer of conev.c;
--   Conev/Buffers: buff_pop, buff_push, buff_ppop; Conev/Events: init_pool, add_event, del_event,
--   destroy_pool; Conev/Wait: next_event, next_event_tv, which take timers off the list.
-- - ByeDpi/Proxy: sockaddr_u and proxy.h. Proxy/Address: map_fix, addr_equ, s4_get_addr,
--   s5_get_addr, s5_set_addr, http_get_addr, tls_get_addr of proxy.c, which call parse_http and
--   parse_tls. Proxy/Session: auth_socks5, resp_s5_error, resp_error, save_buffer, handle_s5 and
--   on_request, which chooses among those parsers.
-- - ByeDpi/Mpool: bit_cmp, byte_cmp, host_cmp, scmp of mpool.c. Mpool/Store: mem_pool, mem_get,
--   mem_add, mem_delete, over a balanced tree that is an argument; Store/Listed: a list in its place.
-- - ByeDpi/Extend/Groups: check_host, check_ip, check_proto_tcp, check_l34, check_round, find_dp of
--   extend.c, which use the parsers and the sets. Extend/Tracker: try_set_tls_timer, which sets the
--   timers of the event loop. Extend/Trigger: on_trigger, swop_groups, which choose another group
--   after a failure; Extend/Masks: lists of bits. Extend/Cache: serialize_addr, eq_bitlen, cache_get,
--   cache_add, over the sets.
-- - Goodbye/Table: what the trackers need of a hash table, with an association list that has it.
-- - Goodbye/Cleanup: the state and the clean-up that both trackers write out.
-- - Goodbye/Dns: the handlers of dnsredir.c. Goodbye/Ttl: those of ttltrack.c, tcp_get_auto_ttl, with
--   the arithmetic of `float` in Goodbye/Single.
-- A child of one of these files holds proofs about it, and Tests runs on concrete inputs.
--
-- How the code is modelled. A buffer is the list of its bytes, a pointer into it an index; a read
-- outside is `none`, and so is a division by zero, so that a theorem that gives `some` shows that
-- neither happens. A function that edits a buffer in place returns the new one. What is written
-- through a pointer is part of the result. `uint16_t` values are reduced modulo 65536 and signed
-- `char` values are widened with their sign where the code does; a `size_t` difference that can
-- wrap is written out modulo 2^64.
--
-- Fuel. `ext_loop` takes the size of the block and one as fuel, and each round goes four bytes or
-- more ahead. The searches of `parse_http` recurse on the bytes left. `merge_loop` takes its fuel
-- as an argument. The loop of `set_timer` needs one round more than there are timers, `del_event`
-- two calls in each other (an event and its pair), `destroy_pool` a round more than there are
-- events, `next_event` two turns. `mem_add` needs a round more than there are elements,
-- `try_set_tls_timer` more than two turns for every byte, and `find_dp` two laps of the groups and
-- one turn.
--
-- The event loop. A pointer to an `eval` is the number of its place in `items`, and a null pointer
-- is `none`; `closed` of a pool is the list of the descriptors closed so far. `epoll_wait` is a
-- function from the round and the time to wait to its result, and the clock is an argument.
--
-- The proxy. An address is a record of the family, the port and both kinds of address, as bytes in
-- network order. connect_hook, udp_associate, getaddrinfo, and whether the socket takes what is sent,
-- are arguments.
--
-- The groups of options. They are the list in the order of `next`, and a pointer to a group is its
-- place, or its id where groups move (Extend/Trigger); a mask of bits is a list of Booleans, of
-- which the bit of a group is the one at its id. The balanced tree of kavl.h is a record of
-- operations and laws, for any way of comparing.
--
-- The environment. The socket of `desync` is a function from the number of a part to what sending
-- the part gave, `rand()` one from the number of a part to a number; `time(NULL)` is an argument of
-- a handler. The functions of the C library are those of the C locale. `float` is single precision,
-- rounded to nearest after each operation.
--
-- Not modelled: the changes of the fake hello (change_tls_sni and its helpers), mod_http and
-- is_http_redirect of packets.c; tamp, the making and sending of fake packets and the socket
-- options of desync.c; loop_event, the calls of epoll_ctl and the branch for poll of conev.c; the
-- freeing of memory and the files of mpool.c; on_response and the calls of sockets of extend.c; the
-- sockets and tunnels of proxy.c and the options (main.c) of ByeDPI; all of GoodbyeDPI but
-- dnsredir.c (less flush_dns_cache, a call of a system library) and ttltrack.c. The Rust crates and
-- the user interface start the engines and talk to them, and hold none of their logic.
pub mod Prelude
pub mod Bytes
pub mod ByeDpi
pub mod Goodbye
