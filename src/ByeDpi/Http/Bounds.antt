-- ===== src/ByeDpi/Http/Bounds.antt =====
-- The reads of the HTTP parser and the place of the host that it returns.
use zon_dpi.Prelude.{
  ℕ, zero, suc, ◌+◌, ◌-◌, ◌<◌, ◌≤◌, ◌≡◌, ◌⊎◌, inl, inr, refl, Bool, true, false, not, ◌||◌, Option,
  none, some, List, [], ◌∷◌, get_elem?, length, ltb, ◌==◌, Bool-cases, arith, if◌then◌else◌,
}
use zon_dpi.Prelude.Int.{ℤ, pos, negsuc, sub_ℕ, pos_part, neg_part}
use zon_dpi.Bytes.Laws.{get_elem?-some}
use zon_dpi.ByeDpi.Http.{
  isspace, isdigit, host_field, newline, methods, starts_with_any, is_http, Number, saturate,
  number_at, strtol, Request, no_request, bracket, parse_port, parse_host, parse_http,
}
use zon_dpi.ByeDpi.Http.Scan.{
  memchr-Found, matches_nocase-get, strncasestr_from-Found, skip_blanks-Found, trim_back-Found,
  digits_back-Found, scan_digits-Found, skip_spaces-Found, matches-total,
}

abbrev AllShort : List (List ℕ) → Type 0
AllShort [] = Unit {0}
AllShort (m ∷ ms) = (length m ≤ 16) × AllShort ms

starts_with_any-total :
    (buf : List ℕ) (ms : List (List ℕ))
    → 16 ≤ length buf
    → AllShort ms
    → (b : Bool) × (starts_with_any buf ms ≡ some b)
unfolding starts_with_any
starts_with_any-total buf [] h a = (false, refl)
starts_with_any-total buf (m ∷ ms) h a =
    let (b, eb) = matches-total buf 0 m (omega arith) in
    elim (Bool-cases b) [
      | inl same ↦ (true, rw (eb, same))
      | inr other ↦ rw (eb, other) (starts_with_any-total buf ms h a.1)
    ]

pub is_http-total :
    (buf : List ℕ) (bsize : ℕ) → bsize ≤ length buf → (b : Bool) × (is_http buf bsize ≡ some b)
unfolding is_http
is_http-total buf bsize h = elim (Bool-cases (ltb bsize 16)) [
  | inl short ↦ (false, rw short)
  | inr long ↦
      let (c, ec) = get_elem?-some buf 0 (ground arith) in
      elim (Bool-cases (ltb b'T' c || ltb c b'C')) [
        | inl out ↦ (false, rw (long, ec, out))
        | inr within ↦
            rw (long, ec, within) (starts_with_any-total buf methods (ground arith) (omega arith))
      ]
]

-- The host that a parser may return: none, or one that starts and ends in the buffer. Its length
-- may be negative, but its end does not lie behind the buffer.
abbrev pub EndsIn : ℕ → Request → Type 0
EndsIn size r =
    ((r.hs ≡ none) × (r.ret ≡ pos 0))
    ⊎ ((host : ℕ) × (r.hs ≡ some host)
        × (host ≤ size)
        × (host + pos_part r.ret ≤ size + neg_part r.ret))

bracket-EndsIn :
    (buf : List ℕ) (size host h_end : ℕ) (port : Option ℕ)
    → host < size
    → size ≤ length buf
    → 0 < h_end
    → h_end ≤ size
    → (r : Request) × (bracket buf host h_end port ≡ some r) × EndsIn size r
unfolding bracket
bracket-EndsIn buf size host zero port h hs p e = absurd (omega arith)
bracket-EndsIn buf size host (suc last) port h hs p e =
    let (c, ec) = get_elem?-some buf host (omega arith) in
    let (d, ed) = get_elem?-some buf last (omega arith) in
    elim (Bool-cases (c == b'[')) [
      | inr plain ↦ (
        record { ret = sub_ℕ (suc last) host; hs = some host; port = port },
        rw (ec, plain),
        inr (host, refl, omega arith, ground arith),
      )
      | inl opened ↦ elim (Bool-cases (d == b']')) [
        | inl closed ↦ (
          record { ret = sub_ℕ last (host + 1); hs = some (host + 1); port = port },
          rw (ec, opened, ed, closed),
          inr (host + 1, refl, omega arith, ground arith),
        )
        | inr open_ ↦ (
          record { ret = pos 0; hs = none; port = port },
          rw (ec, opened, ed, open_),
          inl (refl, refl),
        )
      ]
    ]

number_at-total :
    (buf : List ℕ) (start p j c : ℕ) (negative : Bool)
    → p ≤ j
    → j < length buf
    → get_elem? buf j ≡ some c
    → isdigit c ≡ false
    → start ≤ j
    → (n : Number) × (number_at buf start p negative ≡ some n) × (n.stop ≤ j)
unfolding number_at
number_at-total buf start p j c negative le h ec nc first =
    let (v, r, e, lo, hi) =
      scan_digits-Found buf p 0 (suc (length buf)) j c le (omega arith) h ec nc in
    elim (Bool-cases (r == p)) [
      | inl nothing ↦ (record { value = pos 0; stop = start }, rw (e, nothing) refl, first)
      | inr digits ↦ (
        record { value = if negative then sub_ℕ 0 (saturate v) else pos (saturate v); stop = r },
        rw (e, digits) refl,
        hi,
      )
    ]

-- `strtol` ends at the latest at a space behind a byte that is none.
pub strtol-total :
    (buf : List ℕ) (start j c k d : ℕ)
    → start ≤ k
    → k < j
    → j < length buf
    → get_elem? buf j ≡ some c
    → isspace c ≡ true
    → get_elem? buf k ≡ some d
    → isspace d ≡ false
    → (n : Number) × (strtol buf start ≡ some n) × (n.stop ≤ j)
unfolding strtol
strtol-total buf start j c k d le lt h ec sc ed nd =
    let (p, ep, lo, hi) =
      skip_spaces-Found buf start (suc (length buf)) k d le (omega arith) (omega arith) ed nd in
    let (x, ex) = get_elem?-some buf p (omega arith) in
    let nc : isdigit c ≡ false = ground arith in
    elim (Bool-cases (x == b'-')) [
      | inl minus ↦
          rw (ep, ex, minus)
            (number_at-total buf start (p + 1) j c true (omega arith) h ec nc (omega arith))
      | inr other ↦ elim (Bool-cases (x == b'+')) [
        | inl plus ↦
            rw (ep, ex, other, plus)
              (number_at-total buf start (p + 1) j c false (omega arith) h ec nc (omega arith))
        | inr digit ↦
            rw (ep, ex, other, digit)
              (number_at-total buf start p j c false (omega arith) h ec nc (omega arith))
      ]
    ]

parse_port-EndsIn :
    (want : Bool) (buf : List ℕ) (size host l_end colon c d : ℕ)
    → host < size
    → l_end < size
    → size ≤ length buf
    → colon + 2 ≤ l_end
    → 0 < colon
    → get_elem? buf l_end ≡ some c
    → isspace c ≡ true
    → get_elem? buf (l_end - 1) ≡ some d
    → isspace d ≡ false
    → (r : Request) × (parse_port want buf host l_end colon ≡ some r) × EndsIn size r
unfolding parse_port
parse_port-EndsIn want buf size host l_end colon c d hh hl hs near p ec sc ed nd =
    let (x, ex) = get_elem?-some buf colon (omega arith) in
    elim (Bool-cases (x == b':')) [
      | inr none_ ↦
          rw (ex, none_)
            (bracket-EndsIn buf size host l_end (if want then some 80 else none) hh hs (omega arith)
              (omega arith))
      | inl given ↦ elim (Bool-cases want) [
        | inr unwanted ↦
            rw (ex, given, unwanted) (bracket-EndsIn buf size host colon none hh hs p (omega arith))
        | inl wanted ↦
            let (num, en, ends) =
              strtol-total buf (colon + 1) l_end c (l_end - 1) d (omega arith) (omega arith)
                (omega arith) ec sc ed nd in
            rw (ex, given, wanted, en) (by_value num.value num.stop)
      ]
    ]
  where
    Result : Option Request → Type 0
    Result o = (r : Request) × (o ≡ some r) × EndsIn size r

    by_value :
        (v : ℤ) (stop : ℕ)
        → Result (elim v [
          | negsuc v ↦ some no_request
          | pos v ↦
              if (v == 0) || not (stop == l_end) || ltb 0xffff v
              then some no_request
              else bracket buf host colon (some v)
        ])
    by_value (negsuc v) stop = (no_request, refl, inl (refl, refl))
    by_value (pos v) stop = elim (Bool-cases ((v == 0) || not (stop == l_end) || ltb 0xffff v)) [
      | inl bad ↦ (no_request, rw bad, inl (refl, refl))
      | inr good ↦ rw good (bracket-EndsIn buf size host colon (some v) hh hs p (omega arith))
    ]

parse_host-EndsIn :
    (want : Bool) (buf : List ℕ) (size field_end t : ℕ)
    → 2 ≤ field_end
    → field_end ≤ size
    → size ≤ length buf
    → get_elem? buf (field_end - 1) ≡ some b':'
    → get_elem? buf (field_end - 2) ≡ some t
    → isdigit t ≡ false
    → 2 < field_end
    → (r : Request) × (parse_host want buf size field_end ≡ some r) × EndsIn size r
unfolding parse_host
parse_host-EndsIn want buf size f t two le hs colon et nt three =
    let (host, eh, lo, hi) = skip_blanks-Found buf f (size - f) (omega arith) in
    elim (memchr-Found buf host newline (size - host) (omega arith)) [
      | inl absent ↦ (no_request, rw (eh, absent), inl (refl, refl))
      | inr (eol, el, lo', hi', at) ↦
          let (l_end, et', above, below, (c, ec, sc), (d, ed, nd)) =
            trim_back-Found buf (f - 1) eol b':' newline (omega arith) colon refl at refl
              (omega arith) in
          let (k, ek, lo2, hi2) =
            digits_back-Found buf (f - 2) (l_end - 1) t (omega arith) et nt (omega arith) in
          rw (eh, el, et', ek)
            (parse_port-EndsIn want buf size host l_end k c d (omega arith) (omega arith) hs
              (omega arith) (omega arith) ec sc ed nd)
    ]

-- `parse_http` reads inside the buffer whatever its bytes are, and ends; the host that it stores
-- starts in the buffer and, where its length is not negative, ends in it. With no host stored it
-- returns 0.
pub parse_http-EndsIn :
    (want : Bool) (buf : List ℕ) (bsize : ℕ)
    → bsize ≤ length buf
    → (r : Request) × (parse_http want buf bsize ≡ some r) × EndsIn bsize r
unfolding parse_http
parse_http-EndsIn want buf bsize h =
    let (http, eh) = is_http-total buf bsize h in
    elim (Bool-cases http) [
      | inr other ↦ (no_request, rw (eh, other), inl (refl, refl))
      | inl is ↦
          elim (strncasestr_from-Found buf bsize newline host_field 0 bsize h (omega arith)) [
            | inl absent ↦ (no_request, rw (eh, is, absent), inl (refl, refl))
            | inr (q, e, lo, fits, m) ↦
                let (x, ex, sx) =
                  matches_nocase-get buf q (newline ∷ host_field) 5 (q + 5) b':' m refl refl in
                let (t, et, st) =
                  matches_nocase-get buf q (newline ∷ host_field) 4 (q + 4) b't' m refl refl in
                let colon : get_elem? buf (q + 6 - 1) ≡ some b':' = ground arith in
                let tee : get_elem? buf (q + 6 - 2) ≡ some t = ground arith in
                rw (eh, is, e)
                  (parse_host-EndsIn want buf bsize (q + 6) t (omega arith) (omega arith) h colon
                    tee (ground arith) (omega arith))
          ]
    ]
