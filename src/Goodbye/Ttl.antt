-- ===== src/Goodbye/Ttl.antt =====
-- The tracker of the TTL of a server, engines/goodbye/upstream/src/ttltrack.c. A port is the
-- 16-bit word as it stands in the packet, `time(NULL)` one argument of a handler. Memory for a
-- record is always had.
pub mod Conntrack
pub mod Guess
mod Tests
use zon_dpi.Prelude.{
  ℕ, ◌+◌, ◌-◌, ◌%◌, Bool, true, false, ◌&&◌, ◌||◌, not, Option, none, some, List, [], ◌∷◌, ◌==◌,
  leb, ltb, if◌then◌else◌, get_elem?,
}
use zon_dpi.Goodbye.Single.{single, scaled, trunc}
use zon_dpi.Goodbye.Table.{Key, Table}
use zon_dpi.Goodbye.Cleanup.{Tracker, is_some, cleanup}
use zon_dpi.Goodbye.Dns.{Addr, copy_addr}
use zon_dpi.Bytes.{◌>>=◌}

-- `tcp_connrecord_t` less its key.
pub record TcpConnrecord : Type 0 where
  pub time : ℕ
  pub ttl : ℕ

pub record TcpConntrackInfo : Type 0 where
  pub is_ipv6 : Bool
  pub ttl : ℕ
  pub srcip : Addr
  pub srcport : ℕ
  pub dstip : Addr
  pub dstport : ℕ

-- `construct_key` and `fill_key_data`: the characters '6' and '4' are 54 and 52.
unfoldable pub tcp_construct_key : Addr → Addr → ℕ → ℕ → Bool → Key
tcp_construct_key srcip dstip srcport dstport is_ipv6 =
    let a = copy_addr is_ipv6 srcip in
    let b = copy_addr is_ipv6 dstip in
    (if is_ipv6 then 54 else 52)
    ∷ a.w0
    ∷ a.w1
    ∷ a.w2
    ∷ a.w3
    ∷ b.w0
    ∷ b.w1
    ∷ b.w2
    ∷ b.w3
    ∷ srcport
    ∷ dstport
    ∷ []

unfoldable pub tcp_cleanup_interval_sec : ℕ
tcp_cleanup_interval_sec = 30

-- Four words of a key from `i` on.
addr_at : Key → ℕ → Option Addr
addr_at key i = get_elem? key i >>= λ w0. get_elem? key (i + 1) >>= λ w1.
    get_elem? key (i + 2) >>= λ w2.
    get_elem? key (i + 3) >>= λ w3. some (record { w0 = w0; w1 = w1; w2 = w2; w3 = w3 })

-- `deconstruct_key` and `fill_data_from_key`; a key has eleven words.
unfoldable pub tcp_deconstruct_key : Key → TcpConnrecord → Option TcpConntrackInfo
unfolding addr_at
tcp_deconstruct_key key connrecord = get_elem? key 0 >>= λ tag. addr_at key 1 >>= λ srcip.
    addr_at key 5 >>= λ dstip. get_elem? key 9 >>= λ srcport. get_elem? key 10 >>= λ dstport.
    let six = tag == 54 in
    some record {
      is_ipv6 = six;
      ttl = connrecord.ttl;
      srcip = copy_addr six srcip;
      srcport = srcport;
      dstip = copy_addr six dstip;
      dstport = dstport;
    }

module _ (H : Table TcpConnrecord) where
  unfoldable pub add_tcp_conntrack :
      ℕ → Addr → Addr → ℕ → ℕ → Bool → ℕ → Tracker H.T → Bool × Tracker H.T
  add_tcp_conntrack now srcip dstip srcport dstport is_ipv6 ttl s =
      if (srcport == 0) || (dstport == 0)
      then (false, s)
      else let key = tcp_construct_key srcip dstip srcport dstport is_ipv6 in
        let c : TcpConnrecord = record { time = now; ttl = ttl } in
        if is_some (H.find key s.conntrack)
        then (false, s)
        else (true, record s { conntrack = H.add key c s.conntrack })

  unfoldable pub tcp_cleanup : ℕ → Tracker H.T → Tracker H.T
  tcp_cleanup now s = cleanup H (λ c. c.time) tcp_cleanup_interval_sec now s

  unfoldable pub tcp_handle_incoming :
      ℕ → Addr → Addr → ℕ → ℕ → Bool → ℕ → Tracker H.T → Bool × Tracker H.T
  tcp_handle_incoming now srcip dstip srcport dstport is_ipv6 ttl s =
      add_tcp_conntrack now srcip dstip srcport dstport is_ipv6 ttl (tcp_cleanup now s)

  -- The record found, as `conn_info`; `none` in the pair is FALSE.
  unfoldable pub take_tcp_record :
      Key → Option TcpConnrecord → Tracker H.T → Option (Option TcpConntrackInfo × Tracker H.T)
  take_tcp_record key none s = some (none, s)
  take_tcp_record key (some c) s = tcp_deconstruct_key key c >>= λ info.
      some (some info, record s { conntrack = H.del key s.conntrack })

  -- `conn_info` is not NULL. The key has the source and destination of the incoming packet.
  unfoldable pub tcp_handle_outgoing :
      ℕ → Addr → Addr → ℕ → ℕ → Bool → Tracker H.T → Option (Option TcpConntrackInfo × Tracker H.T)
  tcp_handle_outgoing now srcip dstip srcport dstport is_ipv6 s =
      let cleaned = tcp_cleanup now s in
      let key = tcp_construct_key dstip srcip dstport srcport is_ipv6 in
      take_tcp_record key (H.find key cleaned.conntrack) cleaned

-- The hops to a server whose TTL was 128 or 64 at the start; `none` is any other.
unfoldable pub hops : ℕ → Option ℕ
hops ttl =
    if ltb 98 ttl && ltb ttl 128
    then some (128 - ttl)
    else if ltb 34 ttl && ltb ttl 64
    then some (64 - ttl)
    else none

-- `trunc(diff * ((float)nhops/10))`, for a difference that is not negative.
unfoldable pub portion : ℕ → ℕ → ℕ
portion diff nhops = trunc (scaled diff (single nhops 10))

-- The floating point expression, where `autottl1` is less than `nhops`. To store a negative number
-- or one from 256 on in a `uint8_t` is undefined, which is `none`.
unfoldable pub near_ttl : ℕ → ℕ → ℕ → Option ℕ
near_ttl nhops autottl1 autottl2 =
    if leb autottl1 autottl2
    then (let less = portion (autottl2 - autottl1) nhops in
        if leb less (nhops - autottl1) then some (nhops - autottl1 - less) else none)
    else (let more = nhops - autottl1 + portion (autottl1 - autottl2) nhops in
        if ltb more 256 then some more else none)

-- The TTL of a fake packet before its upper bound, in a `uint8_t`.
unfoldable pub fake_ttl : ℕ → ℕ → ℕ → Option ℕ
fake_ttl nhops autottl1 autottl2 =
    let t = (nhops + 256 - autottl2) % 256 in
    if ltb t autottl2 && leb nhops 9 then near_ttl nhops autottl1 autottl2 else some t

-- `if (maxttl && ttl_of_fake_packet > maxttl)`
unfoldable pub capped : ℕ → ℕ → ℕ
capped maxttl t = if not (maxttl == 0) && ltb maxttl t then maxttl else t

-- The end of `tcp_get_auto_ttl`, for the hops found.
unfoldable pub ttl_for : ℕ → ℕ → ℕ → ℕ → Option ℕ → Option ℕ
ttl_for autottl1 autottl2 minhops maxttl none = some 0
ttl_for autottl1 autottl2 minhops maxttl (some nhops) =
    if leb nhops autottl1 || ltb nhops minhops
    then some 0
    else (fake_ttl nhops autottl1 autottl2 >>= λ t. some (capped maxttl t))

unfoldable pub tcp_get_auto_ttl : ℕ → ℕ → ℕ → ℕ → ℕ → Option ℕ
tcp_get_auto_ttl ttl autottl1 autottl2 minhops maxttl =
    ttl_for autottl1 autottl2 minhops maxttl (hops ttl)
