-- ===== src/ByeDpi/Http.antt =====
-- HTTP requests: `strncasestr`, `is_http` and `parse_http` of engines/byedpi/upstream/packets.c,
-- with the functions of the C library that they call (in the C locale). A pointer into the buffer
-- is its index; `none` is a read outside the buffer.
pub mod Scan
pub mod Bounds
pub mod Codes
mod Tests
use zon_dpi.Prelude.{
  ℕ, zero, suc, ◌+◌, ◌-◌, ◌*◌, ◌^◌, Bool, true, false, not, ◌&&◌, ◌||◌, Option, none, some, List,
  [], ◌∷◌, get_elem?, length, leb, ltb, ◌==◌, if◌then◌else◌,
}
use zon_dpi.Prelude.Int.{pos_part, ℤ, pos, negsuc, sub_ℕ}
use zon_dpi.Bytes.{◌>>=◌}

abbrev pub isspace : ℕ → Bool
isspace c = (leb 9 c && leb c 13) || (c == 32)

abbrev pub isdigit : ℕ → Bool
isdigit c = leb 48 c && leb c 57

abbrev pub tolower : ℕ → ℕ
tolower c = if leb 65 c && leb c 90 then c + 32 else c

-- `strncasecmp(p, pat, n) == 0` for a pattern of `n` bytes none of which is 0.
unfoldable pub matches_nocase : List ℕ → ℕ → List ℕ → Option Bool
matches_nocase buf p [] = some true
matches_nocase buf p (c ∷ pat) = get_elem? buf p >>= λ x.
    if tolower x == tolower c then matches_nocase buf (p + 1) pat else some false

-- `strncmp(p, pat, strlen(pat)) == 0`.
unfoldable pub matches : List ℕ → ℕ → List ℕ → Option Bool
matches buf p [] = some true
matches buf p (c ∷ pat) =
    get_elem? buf p >>= λ x. if x == c then matches buf (p + 1) pat else some false

-- `memchr(buf + p, c, left)`.
unfoldable pub memchr : List ℕ → ℕ → ℕ → ℕ → Option (Option ℕ)
memchr buf p c zero = some none
memchr buf p c (suc left) =
    get_elem? buf p >>= λ x. if x == c then some (some p) else memchr buf (p + 1) c left

-- The loop of `strncasestr(buf, size, first ∷ pat, ...)` at `p`, with `left` bytes to `size`.
unfoldable pub strncasestr_from : List ℕ → ℕ → ℕ → List ℕ → ℕ → ℕ → Option (Option ℕ)
strncasestr_from buf size first pat p zero = some none
strncasestr_from buf size first pat p (suc left) =
    let rest = strncasestr_from buf size first pat (p + 1) left in
    get_elem? buf p >>= λ x.
    if not (x == first)
    then rest
    else if ltb size (p + (1 + length pat))
    then some none
    else (matches_nocase buf p (first ∷ pat) >>= λ same. if same then some (some p) else rest)

-- "\nHost:", without its first byte.
abbrev pub host_field : List ℕ
host_field = b'H' ∷ b'o' ∷ b's' ∷ b't' ∷ b':' ∷ []

abbrev pub newline : ℕ
newline = 10

abbrev pub methods : List (List ℕ)
methods =
    (b'H' ∷ b'E' ∷ b'A' ∷ b'D' ∷ [])
    ∷ (b'G' ∷ b'E' ∷ b'T' ∷ [])
    ∷ (b'P' ∷ b'O' ∷ b'S' ∷ b'T' ∷ [])
    ∷ (b'P' ∷ b'U' ∷ b'T' ∷ [])
    ∷ (b'D' ∷ b'E' ∷ b'L' ∷ b'E' ∷ b'T' ∷ b'E' ∷ [])
    ∷ (b'O' ∷ b'P' ∷ b'T' ∷ b'I' ∷ b'O' ∷ b'N' ∷ b'S' ∷ [])
    ∷ (b'C' ∷ b'O' ∷ b'N' ∷ b'N' ∷ b'E' ∷ b'C' ∷ b'T' ∷ [])
    ∷ (b'T' ∷ b'R' ∷ b'A' ∷ b'C' ∷ b'E' ∷ [])
    ∷ (b'P' ∷ b'A' ∷ b'T' ∷ b'C' ∷ b'H' ∷ [])
    ∷ []

unfoldable pub starts_with_any : List ℕ → List (List ℕ) → Option Bool
starts_with_any buf [] = some false
starts_with_any buf (m ∷ ms) =
    matches buf 0 m >>= λ same. if same then some true else starts_with_any buf ms

-- A byte of 128 or more is negative as a `char`, and fails the test against 'C'.
unfoldable pub is_http : List ℕ → ℕ → Option Bool
is_http buf bsize =
    if ltb bsize 16
    then some false
    else (get_elem? buf 0 >>= λ c.
        if ltb b'T' c || ltb c b'C' then some false else starts_with_any buf methods)

-- `for (; host < buff_end && *host == ' '; host++);` with `left` bytes to the end.
unfoldable pub skip_blanks : List ℕ → ℕ → ℕ → Option ℕ
skip_blanks buf p zero = some p
skip_blanks buf p (suc left) =
    get_elem? buf p >>= λ c. if c == 32 then skip_blanks buf (p + 1) left else some p

-- `for (; isspace(*(p - 1)); p--);`
unfoldable pub trim_back : List ℕ → ℕ → Option ℕ
trim_back buf zero = none
trim_back buf (suc p) = get_elem? buf p >>= λ c. if isspace c then trim_back buf p else some (suc p)

-- `while (isdigit(*--p));`
unfoldable pub digits_back : List ℕ → ℕ → Option ℕ
digits_back buf zero = none
digits_back buf (suc p) = get_elem? buf p >>= λ c. if isdigit c then digits_back buf p else some p

-- `strtol` in base 10: the value (saturated at 2^63 - 1 when positive) and where it stopped.
pub record Number : Type 0 where
  pub value : ℤ
  pub stop : ℕ

-- The digits from `p` on, `left` bytes being in the buffer; the text has to end in it.
unfoldable pub scan_digits : List ℕ → ℕ → ℕ → ℕ → Option (ℕ × ℕ)
scan_digits buf p acc zero = none
scan_digits buf p acc (suc left) = get_elem? buf p >>= λ c.
    if isdigit c then scan_digits buf (p + 1) (acc * 10 + (c - 48)) left else some (acc, p)

unfoldable pub skip_spaces : List ℕ → ℕ → ℕ → Option ℕ
skip_spaces buf p zero = none
skip_spaces buf p (suc left) =
    get_elem? buf p >>= λ c. if isspace c then skip_spaces buf (p + 1) left else some p

unfoldable pub saturate : ℕ → ℕ
saturate v = if ltb (2 ^ 63 - 1) v then 2 ^ 63 - 1 else v

-- Digits behind an optional sign; with no digit nothing is converted.
unfoldable pub number_at : List ℕ → ℕ → ℕ → Bool → Option Number
number_at buf start p negative = scan_digits buf p 0 (suc (length buf)) >>= λ r.
    let (v, stop) = r in
    if stop == p
    then some (record { value = pos 0; stop = start })
    else some (record {
      value = if negative then sub_ℕ 0 (saturate v) else pos (saturate v);
      stop = stop;
    })

unfoldable pub strtol : List ℕ → ℕ → Option Number
strtol buf start = skip_spaces buf start (suc (length buf)) >>= λ p. get_elem? buf p >>= λ c.
    if c == b'-'
    then number_at buf start (p + 1) true
    else if c == b'+'
    then number_at buf start (p + 1) false
    else number_at buf start p false

-- What `parse_http` returns and stores: the length of the host, `*hs` and `*port`.
pub record Request : Type 0 where
  pub ret : ℤ
  pub hs : Option ℕ
  pub port : Option ℕ

abbrev pub no_request : Request
no_request = record { ret = pos 0; hs = none; port = none }

-- The end of the function, from `if (*host == '[')` on.
unfoldable pub bracket : List ℕ → ℕ → ℕ → Option ℕ → Option Request
bracket buf host h_end port = get_elem? buf host >>= λ c.
    if c == b'['
    then (elim h_end [
      | zero ↦ none
      | suc last ↦ get_elem? buf last >>= λ d.
          if d == b']'
          then some (record { ret = sub_ℕ last (host + 1); hs = some (host + 1); port = port })
          else some (record { ret = pos 0; hs = none; port = port })
    ])
    else some (record { ret = sub_ℕ h_end host; hs = some host; port = port })

-- The port: `want` says whether the caller passes a pointer for it.
unfoldable pub parse_port : Bool → List ℕ → ℕ → ℕ → ℕ → Option Request
parse_port want buf host l_end colon = get_elem? buf colon >>= λ c.
    if not (c == b':')
    then bracket buf host l_end (if want then some 80 else none)
    else if not want
    then bracket buf host colon none
    else (strtol buf (colon + 1) >>= λ num. elim num.value [
      | negsuc v ↦ some no_request
      | pos v ↦
          if (v == 0) || not (num.stop == l_end) || ltb 0xffff v
          then some no_request
          else bracket buf host colon (some v)
    ])

-- From the place behind "\nHost:" on.
unfoldable pub parse_host : Bool → List ℕ → ℕ → ℕ → Option Request
parse_host want buf bsize field_end = skip_blanks buf field_end (bsize - field_end) >>= λ host.
    memchr buf host newline (bsize - host) >>= λ line_end. elim line_end [
      | none ↦ some no_request
      | some eol ↦ trim_back buf eol >>= λ l_end.
          digits_back buf (l_end - 1) >>= λ colon. parse_port want buf host l_end colon
    ]

unfoldable pub parse_http : Bool → List ℕ → ℕ → Option Request
parse_http want buf bsize = is_http buf bsize >>= λ http.
    if not http
    then some no_request
    else (strncasestr_from buf bsize newline host_field 0 bsize >>= λ found. elim found [
      | none ↦ some no_request
      | some p ↦ parse_host want buf bsize (p + 6)
    ])

-- "HTTP/1."
abbrev pub http_1 : List ℕ
http_1 = b'H' ∷ b'T' ∷ b'T' ∷ b'P' ∷ b'/' ∷ b'1' ∷ b'.' ∷ []

-- `num < 100 || num > 511`
abbrev pub no_code : ℤ → Bool
no_code (negsuc k) = true
no_code (pos k) = ltb k 100 || ltb 511 k

-- The lines of `get_http_code` from `strtol` on.
unfoldable pub code_at : List ℕ → Option ℕ
code_at b = strtol b 9 >>= λ num.
    if no_code num.value
    then some 0
    else (get_elem? b num.stop >>= λ e. some (if isspace e then pos_part num.value else 0))

abbrev pub code_of_line : List ℕ → Option ℕ → Option ℕ
code_of_line b none = some 0
code_of_line b (some l_end) = code_at b

unfoldable pub get_http_code : List ℕ → ℕ → Option ℕ
get_http_code b n =
    if ltb n 13
    then some 0
    else (matches b 0 http_1 >>= λ same.
        if not same then some 0 else (memchr b 12 newline (n - 12) >>= code_of_line b))
