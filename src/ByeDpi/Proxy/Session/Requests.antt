-- ===== src/ByeDpi/Proxy/Session/Requests.antt =====
-- What `on_request` returns for any request.
use zon_dpi.Prelude.{
  ℕ, ◌-◌, ◌==◌, not, ◌&&◌, ◌≡◌, ◌≢◌, ◌≤◌, ◌<◌, ◌⊎◌, refl, ap, ◌∙◌, Bool, true, false, Bool-cases,
  inl, inr, leb, ltb, Option, none, some, List, ◌∷◌, take, length, get_elem?, arith, if◌then◌else◌,
}
use zon_dpi.Prelude.Int.{pos, negsuc}
use zon_dpi.Bytes.Laws.{get_elem?-some}
use zon_dpi.Bytes.Chains.{Has, then_has, has, choose}
use zon_dpi.ByeDpi.Tls.Hello.{is_tls_chello}
use zon_dpi.ByeDpi.Tls.Hello.Safety.{is_tls_chello-total}
use zon_dpi.ByeDpi.Proxy.{Sockaddr, Answer, s_cmd_conn, bytes}
use zon_dpi.ByeDpi.Proxy.Address.{bytes_eq, s4_get_addr, s5_get_addr, http_get_addr, tls_get_addr}
use zon_dpi.ByeDpi.Proxy.Address.Laws.{bytes-some}
use zon_dpi.ByeDpi.Proxy.Address.Safety.{
  IsKnown, IsAnswer, s5_get_addr-IsAnswer, s5_get_addr-unknown,
}
use zon_dpi.ByeDpi.Proxy.Address.Names.{
  s4_get_addr-IsAnswer, http_get_addr-IsAnswer, tls_get_addr-IsAnswer,
}
use zon_dpi.ByeDpi.Proxy.Session.{
  Client, Env, Outcome, Branch, leaves, goes_on, send, s5_rep, resp_s5_error, auth_socks5,
  handle_s5, s5_command, is_zero, raw_branch, pick_branch, connect_word, is_ss_type, finish, settle,
  on_request, no_addr, flag_s5,
}

auth_has :
    (env : Env) (c : Client) (buffer : List ℕ) (n : ℕ)
    → n ≤ length buffer
    → Has (auth_socks5 env c buffer n)
unfolding auth_socks5
auth_has env c buffer n fits =
    choose (leb n 2) _ _ (λ e. has _)
      λ long. then_has (get_elem? buffer 1) _ (get_elem?-some buffer 1 (ground arith)) λ count.
        choose (not (count == n - 2)) _ _ (λ e. has _)
          λ e.
            let (ms, em, l) = bytes-some buffer 2 (n - 2) (ground arith) in
            then_has (bytes buffer 2 (n - 2)) _ (ms, em) λ methods. has _

answer_has : (least n : ℕ) (o : Option Answer) → IsAnswer least n o → Has o
answer_has least n o (r, e, b) = (r, e)

-- If a client that has been greeted sends a SOCKS5 request of eight bytes or more to connect or to
-- associate, the type of its address is one of the three. Of other requests nothing is asked.
abbrev pub HasKnownType : Env → Client → List ℕ → ℕ → Type 0
HasKnownType env c buff n =
    (cmd atp : ℕ)
    → (env.mode_socks5 ≡ true) × (c.flag ≡ flag_s5) × (8 ≤ n)
    → get_elem? buff 0 ≡ some 5
    → get_elem? buff 1 ≡ some cmd
    → (cmd ≡ 1) ⊎ (cmd ≡ 3)
    → get_elem? buff 3 ≡ some atp
    → IsKnown atp

module _ (env : Env) (recvd : List ℕ) (n : ℕ) (fits : n ≤ length recvd) where
  s5_has :
      (dst : Sockaddr) (type : ℕ)
      → 8 ≤ n
      → ((atp : ℕ) → get_elem? recvd 3 ≡ some atp → IsKnown atp)
      → Has (s5_get_addr env.settings recvd n dst type)
  s5_has dst type long known =
      let (atp, e) = get_elem?-some recvd 3 (omega arith) in
      answer_has 7 n _ (s5_get_addr-IsAnswer env.settings recvd n atp dst type fits e (known atp e))

  s5_command_has :
      (c : Client) (dst : Sockaddr) (cmd : ℕ)
      → 8 ≤ n
      → ((atp : ℕ) → (cmd ≡ 1) ⊎ (cmd ≡ 3) → get_elem? recvd 3 ≡ some atp → IsKnown atp)
      → Has (s5_command env c recvd n dst cmd)
  unfolding s5_command
  s5_command_has c dst cmd long known =
      choose (cmd == s_cmd_conn) _ _
        (λ conn.
          then_has _ _ (s5_has dst 1 long (λ atp e. known atp (inl (ground arith)) e)) λ a. has _)
        λ other.
          choose ((cmd == 3) && env.udp) _ _
            (λ udp.
              then_has _ _ (s5_has dst 2 long (λ atp e. known atp (inr (ground arith)) e))
                λ a. has _)
            λ none_. has _

  handle_s5_has :
      (c : Client) (dst : Sockaddr)
      → env.mode_socks5 ≡ true
      → get_elem? recvd 0 ≡ some 5
      → HasKnownType env c recvd n
      → Has (handle_s5 env c recvd n dst)
  unfolding handle_s5
  handle_s5_has c dst mode five known =
      choose (not (c.flag == flag_s5)) _ _
        (λ new. then_has (auth_socks5 env c recvd n) _ (auth_has env c recvd n fits) λ r. has _)
        λ greeted.
          choose (ltb n 8) _ _ (λ short. has _)
            λ long.
              let (cmd, ec) = get_elem?-some recvd 1 (ground arith) in
              let enough : 8 ≤ n = ground arith in
              let ready : c.flag ≡ flag_s5 = ground arith in
              let sure =
                s5_command_has c dst cmd enough
                  (λ atp which e. known cmd atp (mode, ready, enough) five ec which e) in
              rw ec sure

  raw_has : (c : Client) (dst : Sockaddr) → Has (raw_branch env c recvd n dst)
  unfolding raw_branch
  raw_has c dst =
      then_has (if env.mode_rawtls then is_tls_chello recvd n else some false) _
        (choose env.mode_rawtls _ _ (λ e. is_tls_chello-total recvd n fits) λ e. has _)
        λ hello.
          choose hello _ _
            (λ e.
              then_has (tls_get_addr env.settings recvd n dst) _
                (answer_has 0 0 _ (tls_get_addr-IsAnswer env.settings recvd n dst fits)) λ a. has _)
            λ e. has _

  both : (mode : Bool) (first : ℕ) → (mode && (first == 5)) ≡ true → (mode ≡ true) × (first ≡ 5)
  both true first e = (refl, ground arith)
  both false first e = absurd (ground arith)

  pick_has :
      (c : Client) (front : List ℕ) (dst : Sockaddr)
      → 0 < n
      → HasKnownType env c recvd n
      → env.mode_shadowsocks ≡ false
      → Has (pick_branch env c front recvd n dst)
  unfolding pick_branch
  pick_has c front dst some_ known off =
      let (first, e0) = get_elem?-some recvd 0 (omega arith) in
      rw e0 (
        choose (env.mode_socks5 && (first == 5)) _ _
          (λ s5.
            let (mode, five) = both env.mode_socks5 first s5 in
            then_has (handle_s5 env c recvd n dst) _
              (handle_s5_has c dst mode (e0 ∙ ap some five) known) λ r. has _)
          λ e.
            choose (env.mode_socks4 && (first == 4)) _ _
              (λ e.
                then_has (s4_get_addr env.settings recvd n dst) _
                  (answer_has 0 0 _ (s4_get_addr-IsAnswer env.settings recvd n dst fits))
                  λ a. has _)
              λ e.
                choose (env.mode_http && ltb 7 n && bytes_eq (take 7 recvd) connect_word) _ _
                  (λ e.
                    then_has (http_get_addr env.settings recvd n dst) _
                      (answer_has 0 0 _ (http_get_addr-IsAnswer env.settings recvd n dst fits))
                      λ a. has _)
                  λ e.
                    choose (env.mode_shadowsocks && is_ss_type first) _ _
                      (λ on. absurd (ground (arith, off, on))) λ e. raw_has c dst)

settle_ret : (env : Env) (o : Outcome) → ((settle env o).0 ≡ pos 0) ⊎ ((settle env o).0 ≡ negsuc 0)
unfolding settle
settle_ret env (e, c) = elim (Bool-cases (is_zero e)) [
  | inl y ↦ inl (rw y refl)
  | inr y ↦ inr (rw y refl)
]

finish_ret : (env : Env) (b : Branch) → ((finish env b).0 ≡ pos 0) ⊎ ((finish env b).0 ≡ negsuc 0)
unfolding finish
finish_ret env (leaves c) = inr refl
finish_ret env (goes_on error skip dst c) =
    settle_ret env (if is_zero error && not skip then env.connect_hook c dst else (error, c))

-- Without the mode for Shadowsocks, `on_request` reads only inside the buffer and returns 0 or -1,
-- for what a client has sent of SOCKS4, SOCKS5, HTTP or anything else; but if it is a SOCKS5 request
-- of eight bytes or more of a greeted client to connect or to associate, the type of its address
-- has to be one of the three.
pub on_request-returns :
    (env : Env) (c : Client) (front recvd : List ℕ) (n : ℕ)
    → n ≤ length recvd
    → HasKnownType env c recvd n
    → env.mode_shadowsocks ≡ false
    → (o : Outcome) × (on_request env c front recvd (pos n) ≡ some o)
      × ((o.0 ≡ pos 0) ⊎ (o.0 ≡ negsuc 0))
unfolding on_request
on_request-returns env c front recvd n fits known off = elim (Bool-cases (n == 0)) [
  | inl e ↦ ((negsuc 0, c), rw e refl, inr refl)
  | inr e ↦
      let (b, eb) = pick_has env recvd n fits c front no_addr (ground arith) known off in
      (finish env b, rw (e, eb) refl, finish_ret env b)
]

-- After the greeting, a SOCKS5 request to connect, of eight bytes or more, with any other type of
-- address makes `on_request` read outside the buffer.
pub on_request-unknown :
    (env : Env) (c : Client) (front rest : List ℕ) (n atp : ℕ)
    → env.mode_socks5 ≡ true
    → c.flag ≡ flag_s5
    → 8 ≤ n
    → ¬ IsKnown atp
    → on_request env c front (5 ∷ 1 ∷ 0 ∷ atp ∷ rest) (pos n) ≡ none
unfolding on_request pick_branch handle_s5 s5_command
on_request-unknown env c front rest n atp mode greeted long unknown =
    let ready : (c.flag == flag_s5) ≡ true = ground arith in
    let some_ : (n == 0) ≡ false = ground arith in
    let enough : ltb n 8 ≡ false = ground arith in
    let address =
      s5_get_addr-unknown env.settings (5 ∷ 1 ∷ 0 ∷ atp ∷ rest) n atp no_addr 1 long refl unknown in
    rw (some_, mode, ready, enough, address) refl

-- After the greeting, a SOCKS5 request with a command other than connect and associate is answered
-- with the code 7 and the client is closed, where the socket takes the answer.
pub on_request-command :
    (env : Env) (c : Client) (front rest : List ℕ) (n cmd : ℕ)
    → env.mode_socks5 ≡ true
    → c.flag ≡ flag_s5
    → 8 ≤ n
    → cmd ≢ 1
    → (cmd ≢ 3) ⊎ (env.udp ≡ false)
    → env.takes c (s5_rep 7) ≡ true
    → on_request env c front (5 ∷ cmd ∷ rest) (pos n)
      ≡ some (negsuc 0, record c { sent = s5_rep 7 ∷ c.sent })
unfolding on_request pick_branch handle_s5 s5_command resp_s5_error send finish
on_request-command env c front rest n cmd mode greeted long not_conn not_udp takes =
    let ready : (c.flag == flag_s5) ≡ true = ground arith in
    let some_ : (n == 0) ≡ false = ground arith in
    let enough : ltb n 8 ≡ false = ground arith in
    let other : (cmd == 1) ≡ false = ground arith in
    let no_udp : ((cmd == 3) && env.udp) ≡ false = ground arith in
    rw (some_, mode, ready, enough, other, no_udp, takes) refl
