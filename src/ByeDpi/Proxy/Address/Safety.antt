-- ===== src/ByeDpi/Proxy/Address/Safety.antt =====
-- What the parsers of addresses read.
use mathlib.Core.Path.{subst}
use zon_dpi.Prelude.{
  ℕ, ◌+◌, ◌-◌, ◌==◌, ◌≡◌, ◌≢◌, ◌≤◌, ◌⊎◌, refl, false, Bool-cases, Option-cases, inl, inr, ltb,
  Option, none, some, List, length, get_elem?, arith,
}
use zon_dpi.Prelude.Int.{pos, negsuc}
use zon_dpi.Bytes.Laws.{get_elem?-some}
use zon_dpi.ByeDpi.Proxy.{
  Sockaddr, Answer, Settings, af_inet, af_inet6, s_atp_i4, s_atp_id, s_atp_i6,
}
use zon_dpi.ByeDpi.Proxy.Address.{answer, s5_resolved, s5_get_addr, s5_size, s5_switch, s5_port}
use zon_dpi.ByeDpi.Proxy.Address.Laws.{bytes-some}

other_than : (a b : ℕ) → a ≢ b → (a == b) ≡ false
other_than a b n = ground arith

-- An answer that is an error, or a size between `least` and `n`.
abbrev pub IsAnswer : ℕ → ℕ → Option Answer → Type 0
IsAnswer least n o =
    (r : Answer) × (o ≡ some r)
    × (((e : ℕ) × (r.ret ≡ negsuc e)) ⊎ ((k : ℕ) × (r.ret ≡ pos k) × (least ≤ k) × (k ≤ n)))

pub refused : (least n e : ℕ) (addr : Sockaddr) → IsAnswer least n (answer (negsuc e) addr)
refused least n e addr = (_, refl, inl (e, refl))

module _ (buffer : List ℕ) (n o : ℕ) (fits : n ≤ length buffer) (size : 7 ≤ o) (whole : o ≤ n) where
  s5_port-IsAnswer : (addr : Sockaddr) → IsAnswer 7 n (s5_port buffer o addr)
  unfolding s5_port
  s5_port-IsAnswer addr =
      let enough : ltb o 2 ≡ false = ground arith in
      let (port, e, l) = bytes-some buffer (o - 2) 2 (omega arith) in
      (
        record { ret = pos o; addr = record addr { port = port } },
        rw (enough, e) refl,
        inr (o, refl, size, whole),
      )

  s5_resolved-IsAnswer :
      (addr : Sockaddr) (found : Option Sockaddr) → IsAnswer 7 n (s5_resolved buffer o addr found)
  s5_resolved-IsAnswer addr none = refused 7 n 3 addr
  s5_resolved-IsAnswer addr (some found) = s5_port-IsAnswer found

-- A type of address that the protocol knows.
abbrev pub IsKnown : ℕ → Type 0
IsKnown atp = (atp ≡ s_atp_i4) ⊎ ((atp ≡ s_atp_id) ⊎ (atp ≡ s_atp_i6))

module _ (s : Settings) (buffer : List ℕ) (n : ℕ) (addr : Sockaddr) (type id_len : ℕ)
    (fits : n ≤ length buffer) where
  switch_i4 : 10 ≤ n → IsAnswer 7 n (s5_switch s buffer s_atp_i4 id_len 10 addr type)
  unfolding s5_switch
  switch_i4 whole =
      let (ip, e, l) = bytes-some buffer 4 4 (omega arith) in
      rw e (
        s5_port-IsAnswer buffer n 10 fits (omega arith) whole
          (record addr { family = af_inet; v4 = ip }))

  switch_i6 : 22 ≤ n → IsAnswer 7 n (s5_switch s buffer s_atp_i6 id_len 22 addr type)
  unfolding s5_switch
  switch_i6 whole =
      let (ip, e, l) = bytes-some buffer 4 16 (omega arith) in
      elim (Bool-cases s.ipv6) [
        | inr off ↦ rw off (refused 7 n 7 addr)
        | inl on ↦
            rw (on, e)
              (s5_port-IsAnswer buffer n 22 fits (omega arith) whole
                (record addr { family = af_inet6; v6 = ip }))
      ]

  switch_id :
      id_len + 7 ≤ n → IsAnswer 7 n (s5_switch s buffer s_atp_id id_len (id_len + 7) addr type)
  unfolding s5_switch
  switch_id whole =
      let (host, e, l) = bytes-some buffer 5 id_len (omega arith) in
      elim (Bool-cases s.may_resolve) [
        | inr off ↦ rw off (refused 7 n 7 addr)
        | inl on ↦ elim (Bool-cases (ltb id_len 3)) [
          | inl short ↦ rw (on, short) (refused 7 n 3 addr)
          | inr long ↦
              rw (on, long, e)
                (s5_resolved-IsAnswer buffer n (id_len + 7) fits (omega arith) whole addr
                  (s.resolve host type addr))
        ]
      ]

  s5_switch-IsAnswer :
      (atp : ℕ)
      → IsKnown atp
      → s5_size atp id_len ≤ n
      → IsAnswer 7 n (s5_switch s buffer atp id_len (s5_size atp id_len) addr type)
  unfolding s5_size
  s5_switch-IsAnswer atp (inl e) whole =
      rw e (switch_i4 (subst (λ a. s5_size a id_len ≤ n) e whole))
  s5_switch-IsAnswer atp (inr (inl e)) whole =
      rw e (switch_id (subst (λ a. s5_size a id_len ≤ n) e whole))
  s5_switch-IsAnswer atp (inr (inr e)) whole =
      rw e (switch_i6 (subst (λ a. s5_size a id_len ≤ n) e whole))

-- For the three types of address that the protocol has, `s5_get_addr` reads only inside the buffer, and returns an error or a size of at most `n`.
pub s5_get_addr-IsAnswer :
    (s : Settings) (buffer : List ℕ) (n atp : ℕ) (addr : Sockaddr) (type : ℕ)
    → n ≤ length buffer
    → get_elem? buffer 3 ≡ some atp
    → IsKnown atp
    → IsAnswer 7 n (s5_get_addr s buffer n addr type)
unfolding s5_get_addr
s5_get_addr-IsAnswer s buffer n atp addr type fits at known = elim (Bool-cases (ltb n 8)) [
  | inl short ↦ rw short (refused 7 n 0 addr)
  | inr long ↦
      let (id_len, e) = get_elem?-some buffer 4 (ground arith) in
      elim (Bool-cases (ltb n (s5_size atp id_len))) [
        | inl cut ↦ rw (long, at, e, cut) (refused 7 n 0 addr)
        | inr whole ↦
            rw (long, at, e, whole)
              (s5_switch-IsAnswer s buffer n addr type id_len fits atp known (ground arith))
      ]
]

-- For any other type of address, in a request of eight bytes or more, `s5_get_addr` reads outside
-- the buffer: the port is taken from two bytes before it.
pub s5_get_addr-unknown :
    (s : Settings) (buffer : List ℕ) (n atp : ℕ) (addr : Sockaddr) (type : ℕ)
    → 8 ≤ n
    → get_elem? buffer 3 ≡ some atp
    → ¬ IsKnown atp
    → s5_get_addr s buffer n addr type ≡ none
unfolding s5_get_addr s5_size s5_switch s5_port
s5_get_addr-unknown s buffer n atp addr type long at unknown =
    let enough : ltb n 8 ≡ false = ground arith in
    let not_less : ltb n 0 ≡ false = ground arith in
    let not_i4 : (atp == 1) ≡ false = other_than atp 1 (λ e. unknown (inl e)) in
    let not_id : (atp == 3) ≡ false = other_than atp 3 (λ e. unknown (inr (inl e))) in
    let not_i6 : (atp == 4) ≡ false = other_than atp 4 (λ e. unknown (inr (inr e))) in
    elim (Option-cases (get_elem? buffer 4)) [
      | inl e ↦ rw (enough, at, e) refl
      | inr (id_len, e) ↦ rw (enough, at, e, not_i4, not_id, not_i6, not_less) refl
    ]
