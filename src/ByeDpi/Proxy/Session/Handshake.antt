-- ===== src/ByeDpi/Proxy/Session/Handshake.antt =====
-- A client that greets and then asks for a connection over SOCKS5.
use zon_dpi.Prelude.{
  ℕ, zero, suc, ◌+◌, ◌-◌, ◌==◌, ==_iff, ◌≡◌, ◌≢◌, ◌<◌, ◌⊎◌, refl, sym, ap, ◌∙◌, Option, get_elem?,
  true, false, Bool-cases, inl, inr, leb, some, List, [], ◌∷◌, ◌++◌, length, arith, if◌then◌else◌,
}
use zon_dpi.Prelude.Int.{pos, negsuc}
use zon_dpi.Bytes.{◌>>=◌}
use zon_dpi.Bytes.Laws.{some_inv}
use zon_dpi.ByeDpi.Proxy.{Sockaddr, af_inet, bytes}
use zon_dpi.ByeDpi.Proxy.Address.Laws.{bytes-append}
use zon_dpi.ByeDpi.Proxy.Address.RoundTrip.{read_v4}
use zon_dpi.ByeDpi.Proxy.Session.{
  Client, Env, Outcome, send, offers, auth_reply, auth_socks5, handle_s5, s5_command, pick_branch,
  finish, settle, on_request, no_addr, flag_s5,
}

-- The greeting of a client with the methods `ms`.
abbrev pub greeting : List ℕ → List ℕ → List ℕ
greeting ms rest = 5 ∷ length ms ∷ (ms ++ rest)

abbrev pub method_for : List ℕ → ℕ
method_for ms = if offers ms then 0 else 255

abbrev pub answered : Client → List ℕ → Client
answered c bs = record c { sent = bs ∷ c.sent }

auth_socks5-method :
    (env : Env) (c : Client) (ms rest : List ℕ)
    → 0 < length ms
    → env.takes c (5 ∷ method_for ms ∷ []) ≡ true
    → auth_socks5 env c (greeting ms rest) (length ms + 2)
      ≡ some (if offers ms then pos 0 else negsuc 0, answered c (5 ∷ method_for ms ∷ []))
unfolding auth_socks5 auth_reply send
auth_socks5-method env c ms rest some_ takes =
    let long : leb (length ms + 2) 2 ≡ false = ground arith in
    let size : length ms + 2 - 2 ≡ length ms = omega arith in
    let same : (length ms == length ms) ≡ true = ground arith in
    let at = bytes-append (5 ∷ length ms ∷ []) ms rest 2 (length ms) (omega arith) refl in
    rw (long, size, same, at, takes)
      (elim (Bool-cases (offers ms)) [ inl e ↦ rw e refl | inr e ↦ rw e refl ])

-- No authentication, the method 0, is one of `ms`.
abbrev pub HasNoAuth : List ℕ → Type 0
HasNoAuth ms = (k : ℕ) × (get_elem? ms k ≡ some 0)

offers-HasNoAuth : (ms : List ℕ) → offers ms ≡ true → HasNoAuth ms
unfolding offers
offers-HasNoAuth [] e = absurd (grind arith)
offers-HasNoAuth (m ∷ ms) e = elim (Bool-cases (m == 0)) [
  | inl here ↦ (0, ap some ((==_iff m 0).0 here))
  | inr later ↦ let (k, at) = offers-HasNoAuth ms (rw later at e) in (suc k, at)
]

HasNoAuth-offers : (ms : List ℕ) → HasNoAuth ms → offers ms ≡ true
unfolding offers
HasNoAuth-offers [] (k, e) = absurd (grind arith)
HasNoAuth-offers (m ∷ ms) (zero, e) = let is = some_inv m 0 e in rw is refl
HasNoAuth-offers (m ∷ ms) (suc k, e) = ground (arith, HasNoAuth-offers ms (k, e))

-- The method that a greeting is answered with: 0 when it is one of those offered, 255 when not.
abbrev pub IsMethod : List ℕ → ℕ → Type 0
IsMethod ms m = (HasNoAuth ms × (m ≡ 0)) ⊎ ((¬ HasNoAuth ms) × (m ≡ 255))

method_for-IsMethod : (ms : List ℕ) → IsMethod ms (method_for ms)
method_for-IsMethod ms = elim (Bool-cases (offers ms)) [
  | inl e ↦ rw e (inl (offers-HasNoAuth ms e, refl))
  | inr e ↦ rw e (inr (λ h. absurd (refused (sym e ∙ HasNoAuth-offers ms h)), refl))
]
  where
    refused : ¬ (false ≡ true)
    refused e = cc

-- What `auth_socks5` makes of a greeting that is answered with the method `m`: the client is told
-- the method, and accepted when it is 0; a client that cannot be told is refused.
abbrev pub IsAuth : Env → Client → ℕ → Option Outcome → Type 0
IsAuth env c m o =
    ((env.takes c (5 ∷ m ∷ []) ≡ false) × (o ≡ some (negsuc 0, c)))
    ⊎ ((env.takes c (5 ∷ m ∷ []) ≡ true)
        × (((m ≡ 0) × (o ≡ some (pos 0, answered c (5 ∷ m ∷ []))))
            ⊎ ((m ≢ 0) × (o ≡ some (negsuc 0, answered c (5 ∷ m ∷ []))))))

auth_socks5-untold :
    (env : Env) (c : Client) (ms rest : List ℕ)
    → 0 < length ms
    → env.takes c (5 ∷ method_for ms ∷ []) ≡ false
    → auth_socks5 env c (greeting ms rest) (length ms + 2) ≡ some (negsuc 0, c)
unfolding auth_socks5 auth_reply send
auth_socks5-untold env c ms rest some_ takes =
    let long : leb (length ms + 2) 2 ≡ false = ground arith in
    let size : length ms + 2 - 2 ≡ length ms = omega arith in
    let same : (length ms == length ms) ≡ true = ground arith in
    let at = bytes-append (5 ∷ length ms ∷ []) ms rest 2 (length ms) (omega arith) refl in
    rw (long, size, same, at, takes) refl

-- A greeting with one method or more is answered with the method 0 when that is one of those
-- offered, and with 255 otherwise. If the socket takes the answer, the client is accepted exactly
-- in the first case; if it does not, the client is refused.
pub auth_socks5-IsAuth :
    (env : Env) (c : Client) (ms rest : List ℕ)
    → 0 < length ms
    → (m : ℕ) × IsMethod ms m
      × IsAuth env c m (auth_socks5 env c (greeting ms rest) (length ms + 2))
auth_socks5-IsAuth env c ms rest some_ = (
  method_for ms,
  method_for-IsMethod ms,
  elim (Bool-cases (env.takes c (5 ∷ method_for ms ∷ []))) [
    | inr deaf ↦ inl (deaf, auth_socks5-untold env c ms rest some_ deaf)
    | inl told ↦
        let run = auth_socks5-method env c ms rest some_ told in
        inr (
          told,
          elim (Bool-cases (offers ms)) [
            | inl e ↦ inl (
              rw e refl,
              run
                  ∙ ap
                      (λ b.
                        some (if b then pos 0 else negsuc 0, answered c (5 ∷ method_for ms ∷ [])))
                      e,
            )
            | inr e ↦ inr (
              rw e (λ z. absurd (grind arith)),
              run
                  ∙ ap
                      (λ b.
                        some (if b then pos 0 else negsuc 0, answered c (5 ∷ method_for ms ∷ [])))
                      e,
            )
          ],
        )
  ],
)

-- A request for the IPv4 address `ip` and the port `port`.
abbrev pub connect_v4 : List ℕ → List ℕ → List ℕ → List ℕ
connect_v4 ip port rest = 5 ∷ 1 ∷ 0 ∷ 1 ∷ (ip ++ (port ++ rest))

abbrev pub asked : List ℕ → List ℕ → Sockaddr
asked ip port = record no_addr { family = af_inet; v4 = ip; port = port }

on_request-greeting :
    (env : Env) (c : Client) (front ms rest : List ℕ)
    → env.mode_socks5 ≡ true
    → c.flag ≢ flag_s5
    → 0 < length ms
    → offers ms ≡ true
    → env.takes c (5 ∷ 0 ∷ []) ≡ true
    → on_request env c front (greeting ms rest) (pos (length ms + 2))
      ≡ some (pos 0, record (answered c (5 ∷ 0 ∷ [])) { flag = flag_s5 })
unfolding on_request pick_branch handle_s5 finish settle auth_socks5 bytes auth_reply send
on_request-greeting env c front ms rest mode fresh some_ free takes =
    let new : (c.flag == flag_s5) ≡ false = ground arith in
    let method : method_for ms ≡ 0 = rw free refl in
    let n : (length ms + 2 == 0) ≡ false = ground arith in
    let auth = auth_socks5-method env c ms rest some_ (rw method takes) in
    rw (n, mode, new, auth, free) refl

on_request-connect :
    (env : Env) (c c' : Client) (front ip port rest : List ℕ)
    → env.mode_socks5 ≡ true
    → c.flag ≡ flag_s5
    → length ip ≡ 4
    → length port ≡ 2
    → env.connect_hook c (asked ip port) ≡ (pos 0, c')
    → on_request env c front (connect_v4 ip port rest) (pos 10) ≡ some (pos 0, c')
unfolding on_request pick_branch handle_s5 s5_command finish settle
on_request-connect env c c' front ip port rest mode greeted n4 n2 hook =
    let ready : (c.flag == flag_s5) ≡ true = ground arith in
    let address = read_v4 env.settings no_addr 1 5 1 0 port rest n2 ip n4 in
    rw (mode, ready, address, hook) refl

-- A client that offers no authentication and then asks for an IPv4 address is answered with the
-- accepted method, and the second request is the connection to that address and port: when it
-- can be made, `on_request` returns 0 both times. The socket takes the answer.
pub on_request-session :
    (env : Env) (c c' : Client) (front ms ip port rest rest' : List ℕ)
    → env.mode_socks5 ≡ true
    → c.flag ≢ flag_s5
    → 0 < length ms
    → offers ms ≡ true
    → env.takes c (5 ∷ 0 ∷ []) ≡ true
    → length ip ≡ 4
    → length port ≡ 2
    → env.connect_hook (record (answered c (5 ∷ 0 ∷ [])) { flag = flag_s5 }) (asked ip port)
      ≡ (pos 0, c')
    → ((on_request env c front (greeting ms rest) (pos (length ms + 2))) >>= λ r.
        on_request env r.1 front (connect_v4 ip port rest') (pos 10))
      ≡ some (pos 0, c')
on_request-session env c c' front ms ip port rest rest' mode fresh some_ free takes n4 n2 hook =
    rw (on_request-greeting env c front ms rest mode fresh some_ free takes) (
      on_request-connect env (record (answered c (5 ∷ 0 ∷ [])) { flag = flag_s5 }) c' front ip port
        rest' mode refl n4 n2 hook)
