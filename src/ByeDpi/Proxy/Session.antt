-- ===== src/ByeDpi/Proxy/Session.antt =====
-- The requests of a client: `auth_socks5`, `resp_s5_error`, `resp_error`, `save_buffer`,
-- `handle_s5` and `on_request` of engines/byedpi/upstream/proxy.c, on Linux. What the other parts and
-- the system do is an argument: `connect_hook`, `udp_associate`, sending, and the second buffer.
pub mod Handshake
pub mod Requests
use zon_dpi.Prelude.{
  ℕ, zero, suc, ◌+◌, ◌-◌, ◌*◌, ◌==◌, not, ◌&&◌, ◌||◌, leb, ltb, Bool, true, false, Option, none,
  some, List, [], ◌∷◌, ◌++◌, take, drop, length, replicate, get_elem?, if◌then◌else◌,
}
use zon_dpi.Prelude.Int.{ℤ, pos, negsuc}
use zon_dpi.Bytes.{◌>>=◌, memmove}
use zon_dpi.ByeDpi.Tls.Hello.{is_tls_chello}
use zon_dpi.ByeDpi.Proxy.{
  Sockaddr, Answer, Settings, s_cmd_conn, s_atp_i4, s_atp_i6, s_size_min, bytes,
}
use zon_dpi.ByeDpi.Proxy.Address.{bytes_eq, s4_get_addr, s5_get_addr, http_get_addr, tls_get_addr}

-- The fields of the client's `eval` that a request reads or writes. A buffer is the bytes in it up
-- to `lock`; `sent` holds what the socket has taken, latest first.
pub record Client : Type 0 where
  pub flag : ℕ
  pub recv_count : ℕ
  pub round_count : ℕ
  pub buff : Option (List ℕ)
  pub sq_buff : Option (List ℕ)
  pub sent : List (List ℕ)

abbrev pub flag_s4 : ℕ
flag_s4 = 1

abbrev pub flag_s5 : ℕ
flag_s5 = 2

abbrev pub flag_http : ℕ
flag_http = 8

-- What a function returns, and the client after it.
abbrev pub Outcome : Type 0
Outcome = ℤ × Client

-- The modes and switches of `params`, and what is outside: whether the socket takes bytes, whether
-- SO_LINGER can be set, whether there is memory for a buffer, and the two ways to go on.
pub record Env : Type 0 where
  pub settings : Settings
  pub mode_socks5 : Bool
  pub mode_socks4 : Bool
  pub mode_http : Bool
  pub mode_shadowsocks : Bool
  pub mode_rawtls : Bool
  pub mode_tcp : Bool
  pub udp : Bool
  pub auto_reconnect : Bool
  pub takes : Client → List ℕ → Bool
  pub lingers : Client → Bool
  pub has_memory : Client → Bool
  pub connect_hook : Client → Sockaddr → Outcome
  pub udp_associate : Client → Sockaddr → Outcome

-- `send`: 0 for a success, -1 for a failure.
unfoldable pub send : Env → Client → List ℕ → Outcome
send env c bs = if env.takes c bs then (pos 0, record c { sent = bs ∷ c.sent }) else (negsuc 0, c)

-- `e < 0`
abbrev pub is_negative : ℤ → Bool
is_negative (pos n) = false
is_negative (negsuc n) = true

abbrev pub is_zero : ℤ → Bool
is_zero (pos n) = n == 0
is_zero (negsuc n) = false

-- Whether `S_AUTH_NONE` is among the methods.
unfoldable pub offers : List ℕ → Bool
offers [] = false
offers (m ∷ ms) = (m == 0) || offers ms

-- The answer of `auth_socks5` with the method `c`.
unfoldable pub auth_reply : Env → Client → ℕ → Outcome
auth_reply env client c =
    let (r, next) = send env client (5 ∷ c ∷ []) in
    (if is_negative r then negsuc 0 else if not (c == 255) then pos 0 else negsuc 0, next)

unfoldable pub auth_socks5 : Env → Client → List ℕ → ℕ → Option Outcome
auth_socks5 env client buffer n =
    if leb n 2
    then some (negsuc 0, client)
    else (get_elem? buffer 1 >>= λ count.
        if not (count == n - 2)
        then some (negsuc 0, client)
        else (bytes buffer 2 (n - 2) >>= λ methods.
            some (auth_reply env client (if offers methods then 0 else 255))))

-- `struct s5_rep` with the code `e`.
abbrev pub s5_rep : ℕ → List ℕ
s5_rep e = 5 ∷ e ∷ 0 ∷ s_atp_i4 ∷ replicate 6 0

unfoldable pub resp_s5_error : Env → Client → ℕ → Outcome
resp_s5_error env c e = send env c (s5_rep e)

-- `switch (unie(e))`
abbrev pub s5_code : ℕ → ℕ
s5_code e =
    if e == 0
    then 0
    else if e == 111
    then 5
    else if (e == 113) || (e == 110)
    then 4
    else if e == 101
    then 3
    else 1

abbrev pub http_ok : List ℕ
http_ok =
    b'H' ∷ b'T' ∷ b'T' ∷ b'P' ∷ b'/' ∷ b'1' ∷ b'.' ∷ b'1' ∷ b' ' ∷ b'2' ∷ b'0' ∷ b'0' ∷ b' ' ∷ b'O'
    ∷ b'K' ∷ 13 ∷ 10 ∷ 13 ∷ 10 ∷ []

abbrev pub http_fail : List ℕ
http_fail =
    b'H' ∷ b'T' ∷ b'T' ∷ b'P' ∷ b'/' ∷ b'1' ∷ b'.' ∷ b'1' ∷ b' ' ∷ b'5' ∷ b'0' ∷ b'3' ∷ b' ' ∷ b'F'
    ∷ b'a' ∷ b'i' ∷ b'l' ∷ 13 ∷ 10 ∷ 13 ∷ 10 ∷ []

unfoldable pub resp_error : Env → Client → ℕ → ℕ → Outcome
resp_error env c e flag =
    if flag == flag_s4
    then send env c (0 ∷ (if e == 0 then 90 else 91) ∷ replicate 6 0)
    else if flag == flag_s5
    then resp_s5_error env c (s5_code e)
    else if flag == flag_http
    then send env c (if e == 0 then http_ok else http_fail)
    else (if (e == 0) || env.lingers c then pos 0 else negsuc 0, c)

-- `recvd` is what stands in the buffer, of which `n` bytes are kept.
unfoldable pub save_buffer : Env → Client → List ℕ → ℕ → Outcome
save_buffer env c recvd n =
    let saved : Client = record c {
      buff = some (take n recvd);
      recv_count = n;
      round_count = c.round_count + 1;
    } in
    if not env.auto_reconnect
    then (pos 0, saved)
    else if env.has_memory c
    then (pos 0, record saved { sq_buff = some (take n recvd) })
    else (negsuc 0, saved)

-- The end of `handle_s5`, with `-s5e`.
abbrev pub s5_failed : Env → Client → ℕ → Outcome
s5_failed env c e = let (r, next) = resp_s5_error env c e in (pos 1, next)

-- What `handle_s5` makes of the value of `s5_get_addr`.
abbrev pub s5_connect : Env → Client → (Client → Sockaddr → Outcome) → ℤ → Sockaddr → Outcome
s5_connect env c go (pos o) dst = go c dst
s5_connect env c go (negsuc e) dst = s5_failed env c (suc e)

-- `switch (r->cmd)`
unfoldable pub s5_command : Env → Client → List ℕ → ℕ → Sockaddr → ℕ → Option Outcome
s5_command env c buff n dst cmd =
    if cmd == s_cmd_conn
    then (s5_get_addr env.settings buff n dst 1 >>= λ a.
        some (s5_connect env c env.connect_hook a.ret a.addr))
    else if (cmd == 3) && env.udp
    then (s5_get_addr env.settings buff n dst 2 >>= λ a.
        some (s5_connect env c env.udp_associate a.ret a.addr))
    else some (s5_failed env c 7)

unfoldable pub handle_s5 : Env → Client → List ℕ → ℕ → Sockaddr → Option Outcome
handle_s5 env c buff n dst =
    if not (c.flag == flag_s5)
    then (auth_socks5 env c buff n >>= λ r.
        some (if is_zero r.0 then (pos 0, record r.1 { flag = flag_s5 }) else (negsuc 0, r.1)))
    else if ltb n s_size_min
    then some (negsuc 0, c)
    else (get_elem? buff 1 >>= λ cmd. s5_command env c buff n dst cmd)

-- The branch of `on_request` for Shadowsocks: the three bytes before the buffer stand in for the
-- head of a SOCKS5 request.
unfoldable pub ss_request : Env → Client → List ℕ → List ℕ → ℕ → Sockaddr → Option Answer
ss_request env c front recvd n dst = s5_get_addr env.settings (front ++ recvd) (n + 3) dst 1

-- What a branch leaves: the value to return at once, or `error`, `skip_conn` and `dst`.
pub data Branch : Type 0 where
  leaves : Client → Branch
  goes_on : (error : ℤ) (skip_conn : Bool) → Sockaddr → Client → Branch

-- The address of a parser, with the client as it is.
abbrev pub parsed : Client → Answer → Branch
parsed c a = goes_on a.ret false a.addr c

-- `if (save_buffer(...)) return -1;`
abbrev pub kept : ℤ → Sockaddr → Outcome → Branch
kept error dst (pos r, c) = goes_on error false dst c
kept error dst (negsuc r, c) = leaves c

abbrev pub ss_branch : Env → Client → List ℕ → ℕ → ℤ → Sockaddr → Branch
ss_branch env c recvd n (negsuc e) dst = leaves c
ss_branch env c recvd n (pos size) dst =
    let rest = n - (size - 3) in
    kept (pos 0) dst (save_buffer env c (memmove recvd 0 (size - 3) rest) rest)

abbrev pub s5_branch : Sockaddr → Outcome → Branch
s5_branch dst (pos zero, c) = goes_on (pos 0) true dst c
s5_branch dst (pos (suc e), c) = leaves c
s5_branch dst (negsuc e, c) = goes_on (negsuc e) true dst c

abbrev pub connect_word : List ℕ
connect_word = b'C' ∷ b'O' ∷ b'N' ∷ b'N' ∷ b'E' ∷ b'C' ∷ b'T' ∷ []

-- `*buff->data <= S_ATP_I6`, for a `char` with a sign.
abbrev pub is_ss_type : ℕ → Bool
is_ss_type b = leb b s_atp_i6 || leb 128 b

abbrev pub tls_branch : Env → Client → List ℕ → ℕ → Sockaddr → Option Branch
tls_branch env c recvd n dst = tls_get_addr env.settings recvd n dst >>= λ a.
    some (if is_zero a.ret then kept a.ret a.addr (save_buffer env c recvd n) else parsed c a)

-- The branches from `MODE_RAWTLS` on.
unfoldable pub raw_branch : Env → Client → List ℕ → ℕ → Sockaddr → Option Branch
raw_branch env c recvd n dst =
    (if env.mode_rawtls then is_tls_chello recvd n else some false) >>= λ hello.
    if hello
    then tls_branch env c recvd n dst
    else some (if env.mode_tcp then kept (pos 0) dst (save_buffer env c recvd n) else leaves c)

-- The chain of `if`s over the modes.
unfoldable pub pick_branch : Env → Client → List ℕ → List ℕ → ℕ → Sockaddr → Option Branch
pick_branch env c front recvd n dst = get_elem? recvd 0 >>= λ first.
    if env.mode_socks5 && (first == 5)
    then (handle_s5 env c recvd n dst >>= λ r. some (s5_branch dst r))
    else if env.mode_socks4 && (first == 4)
    then (s4_get_addr env.settings recvd n dst >>= λ a.
        some (parsed (record c { flag = flag_s4 }) a))
    else if env.mode_http && ltb 7 n && bytes_eq (take 7 recvd) connect_word
    then (http_get_addr env.settings recvd n dst >>= λ a.
        some (parsed (record c { flag = flag_http }) a))
    else if env.mode_shadowsocks && is_ss_type first
    then (ss_request env c front recvd n dst >>= λ a. some (ss_branch env c recvd n a.ret a.addr))
    else raw_branch env c recvd n dst

-- `if (error)` and the end; ENOENT is 2.
unfoldable pub settle : Env → Outcome → Outcome
settle env (error, c) =
    if is_zero error then (pos 0, c) else (negsuc 0, (resp_error env c 2 c.flag).1)

-- What follows the branches.
unfoldable pub finish : Env → Branch → Outcome
finish env (leaves c) = (negsuc 0, c)
finish env (goes_on error skip dst c) =
    settle env (if is_zero error && not skip then env.connect_hook c dst else (error, c))

-- `union sockaddr_u dst = { 0 };`
abbrev pub no_addr : Sockaddr
no_addr = record { family = 0; port = replicate 2 0; v4 = replicate 4 0; v6 = replicate 16 0 }

-- `recvd` is the whole buffer, of which `recv` has filled `n` bytes, and `front` the three bytes
-- before it. There is memory for the buffer.
unfoldable pub on_request : Env → Client → List ℕ → List ℕ → ℤ → Option Outcome
on_request env c front recvd (negsuc n) = some (negsuc 0, c)
on_request env c front recvd (pos n) =
    if n == 0
    then some (negsuc 0, c)
    else (pick_branch env c front recvd n no_addr >>= λ b. some (finish env b))
