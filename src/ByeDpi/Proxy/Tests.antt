-- ===== src/ByeDpi/Proxy/Tests.antt =====
-- Examples of the proxy protocols: the address 10.0.0.1 and the port 443.
use zon_dpi.Prelude.{
  ℕ, ◌-◌, ◌≡◌, ◌⊎◌, refl, inl, inr, true, false, none, some, List, [], ◌∷◌, drop, replicate, arith,
}
use zon_dpi.Prelude.Int.{pos, negsuc}
use zon_dpi.Bytes.{◌>>=◌}
use zon_dpi.ByeDpi.Proxy.{Sockaddr, Settings}
use zon_dpi.ByeDpi.Proxy.Address.{s5_get_addr, s5_set_addr}
use zon_dpi.ByeDpi.Proxy.Address.RoundTrip.{received, s5_get_addr-s5_set_addr}
use zon_dpi.ByeDpi.Proxy.Address.Safety.{IsKnown}
use zon_dpi.ByeDpi.Proxy.Session.{Client, Env, Outcome, auth_socks5, on_request, offers, no_addr}
use zon_dpi.ByeDpi.Proxy.Session.Handshake.{
  greeting, connect_v4, IsMethod, IsAuth, auth_socks5-IsAuth, on_request-session,
}
use zon_dpi.ByeDpi.Proxy.Session.Requests.{HasKnownType, on_request-returns, on_request-unknown}

abbrev loopback : List ℕ
loopback = 10 ∷ 0 ∷ 0 ∷ 1 ∷ []

abbrev https : List ℕ
https = 1 ∷ 187 ∷ []

abbrev server : Sockaddr
server = record { family = 2; port = https; v4 = loopback; v6 = replicate 16 0 }

abbrev no_names : Settings
no_names = record { resolve = λ host type old. none; may_resolve = false; ipv6 = true }

abbrev client : Client
client = record {
  flag = 0;
  recv_count = 0;
  round_count = 0;
  buff = none;
  sq_buff = none;
  sent = [];
}

abbrev socks5 : Env
socks5 = record {
  settings = no_names;
  mode_socks5 = true;
  mode_socks4 = true;
  mode_http = true;
  mode_shadowsocks = false;
  mode_rawtls = false;
  mode_tcp = false;
  udp = true;
  auto_reconnect = true;
  takes = λ c bs. true;
  lingers = λ c. true;
  has_memory = λ c. true;
  connect_hook = λ c dst. (pos 0, c);
  udp_associate = λ c dst. (pos 0, c);
}

s5_get_addr-s5_set_addr_example :
    (o : ℕ) × ((s5_set_addr (replicate 48 0) 22 22 server true).0 ≡ pos o)
    × (s5_get_addr no_names
          (drop (22 - o) (s5_set_addr (replicate 48 0) 22 22 server true).1)
          o
          no_addr
          1
        ≡ some (record { ret = pos o; addr = received server no_addr }))
s5_get_addr-s5_set_addr_example =
    s5_get_addr-s5_set_addr no_names (replicate 48 0) 22 22 server no_addr true 1
      (refl, inl (refl, refl)) (omega arith) (omega arith) (omega arith)

abbrev request : List ℕ
request = connect_v4 loopback https []

auth_socks5-IsAuth_example :
    (m : ℕ) × IsMethod (2 ∷ 0 ∷ []) m
    × IsAuth socks5 client m (auth_socks5 socks5 client (greeting (2 ∷ 0 ∷ []) []) 4)
auth_socks5-IsAuth_example = auth_socks5-IsAuth socks5 client (2 ∷ 0 ∷ []) [] (omega arith)

abbrev accepted : Client
accepted = record {
  flag = 2;
  recv_count = 0;
  round_count = 0;
  buff = none;
  sq_buff = none;
  sent = (5 ∷ 0 ∷ []) ∷ [];
}

on_request-session_example :
    (on_request socks5 client (replicate 3 0) (greeting (0 ∷ []) []) (pos 3) >>= λ r.
    on_request socks5 r.1 (replicate 3 0) request (pos 10))
    ≡ some (pos 0, accepted)
unfolding offers
on_request-session_example =
    on_request-session socks5 client accepted (replicate 3 0) (0 ∷ []) loopback https [] [] refl
      (λ e. absurd (omega (arith, e))) (omega arith) refl refl refl refl refl

-- "CONNECT a.b:443 HTTP/1.1" and an empty line
abbrev connect : List ℕ
connect =
    b'C' ∷ b'O' ∷ b'N' ∷ b'N' ∷ b'E' ∷ b'C' ∷ b'T' ∷ b' ' ∷ b'a' ∷ b'.' ∷ b'b' ∷ b':' ∷ b'4' ∷ b'4'
    ∷ b'3' ∷ b' ' ∷ b'H' ∷ b'T' ∷ b'T' ∷ b'P' ∷ b'/' ∷ b'1' ∷ b'.' ∷ b'1' ∷ 13 ∷ 10 ∷ 13 ∷ 10 ∷ []

not_socks5 : HasKnownType socks5 client connect 28
not_socks5 cmd atp ready five ec which e = absurd (grind arith)

on_request-returns_example :
    (o : Outcome) × (on_request socks5 client (replicate 3 0) connect (pos 28) ≡ some o)
    × ((o.0 ≡ pos 0) ⊎ (o.0 ≡ negsuc 0))
on_request-returns_example =
    on_request-returns socks5 client (replicate 3 0) connect 28 (omega arith) not_socks5 refl

not_two : ¬ IsKnown 2
not_two (inl e) = absurd (omega (arith, e))
not_two (inr (inl e)) = absurd (omega (arith, e))
not_two (inr (inr e)) = absurd (omega (arith, e))

on_request-unknown_example :
    on_request socks5 accepted (replicate 3 0) (5 ∷ 1 ∷ 0 ∷ 2 ∷ replicate 6 0) (pos 10) ≡ none
on_request-unknown_example =
    on_request-unknown socks5 accepted (replicate 3 0) (replicate 6 0) 10 2 refl refl (omega arith)
      not_two
