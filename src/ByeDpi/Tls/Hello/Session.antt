-- ===== src/ByeDpi/Tls/Hello/Session.antt =====
-- Comparing the session ids of a client's and a server's hello.
use zon_dpi.Prelude.{
  ℕ, zero, suc, ◌+◌, ◌≤◌, ◌≡◌, inl, inr, refl, Bool, true, false, not, ◌||◌, some, List, length,
  arith, get_elem?, ltb, ◌==◌, Bool-cases,
}
use zon_dpi.Bytes.{memcmp_ne}
use zon_dpi.Bytes.Laws.{antohs-some, get_elem?-some}
use zon_dpi.ByeDpi.Tls.Ext.Safety.{Found, find_tls_ext_offset-Found}
use zon_dpi.ByeDpi.Tls.Hello.{neq_tls_sid}
use zon_dpi.ByeDpi.Tls.Hello.Safety.{is_tls_chello-total}

memcmp_ne-total :
    (a : List ℕ) (i : ℕ) (b : List ℕ) (j n : ℕ)
    → i + n ≤ length a
    → j + n ≤ length b
    → (r : Bool) × (memcmp_ne a i b j n ≡ some r)
unfolding memcmp_ne
memcmp_ne-total a i b j zero ha hb = (false, refl)
memcmp_ne-total a i b j (suc n) ha hb =
    let (x, ex) = get_elem?-some a i (omega arith) in
    let (y, ey) = get_elem?-some b j (omega arith) in
    let (r, er) = memcmp_ne-total a (i + 1) b (j + 1) n (omega arith) (omega arith) in
    elim (Bool-cases (x == y)) [
      | inl same ↦ (r, rw (ex, ey, er, same))
      | inr other ↦ (true, rw (ex, ey, er, other))
    ]

Found-fits :
    (type : ℕ) (buf : List ℕ) (size from sid_len r : ℕ)
    → 44 + sid_len ≤ from
    → size ≤ length buf
    → Found type buf size from r
    → (r == 0) ≡ false
    → 44 + sid_len ≤ length buf
Found-fits type buf size from sid_len r le h (inl absent) there = ground arith
Found-fits type buf size from sid_len r le h (inr (lo, fits, e)) there = omega arith

-- `neq_tls_sid` returns on all messages and reads inside the two buffers only, if the request's
-- buffer holds as many bytes behind byte 44 as byte 43 says: the session id is not bounded by
-- the length `qn` of the request.
pub neq_tls_sid-total :
    (req : List ℕ) (qn : ℕ) (resp : List ℕ) (sn sid_len : ℕ)
    → qn ≤ length req
    → sn ≤ length resp
    → get_elem? req 43 ≡ some sid_len
    → 44 + sid_len ≤ length req
    → (b : Bool) × (neq_tls_sid req qn resp sn ≡ some b)
unfolding neq_tls_sid
neq_tls_sid-total req qn resp sn sid_len hq hs sid holds =
    elim (Bool-cases (ltb qn 75 || ltb sn 75)) [
      | inl short ↦ (false, rw short)
      | inr long ↦
          let (hello, eh) = is_tls_chello-total req qn hq in
          let (head, ed) = antohs-some resp 0 (ground arith) in
          elim (Bool-cases (not hello || not (head == 0x1603))) [
            | inl other ↦ (false, rw (long, eh, ed, other))
            | inr both ↦
                let (offs, eo, found) =
                  find_tls_ext_offset-Found 0x2b resp sn (44 + sid_len + 3) hs in
                let (resp_len, er) = get_elem?-some resp 43 (ground arith) in
                elim (Bool-cases (offs == 0)) [
                  | inl none_found ↦ (false, rw (long, eh, ed, both, sid, eo, none_found))
                  | inr there ↦ elim (Bool-cases (not (sid_len == resp_len))) [
                    | inl differ ↦ (true, rw (long, eh, ed, both, sid, eo, there, er, differ))
                    | inr same ↦
                        let (r, ec) = memcmp_ne-total req 44 resp 44 sid_len holds (
                          Found-fits 0x2b resp sn (44 + sid_len + 3 + 2) sid_len offs (omega arith)
                            hs found there) in
                        (r, rw (long, eh, ed, both, sid, eo, there, er, same, ec))
                  ]
                ]
          ]
    ]
