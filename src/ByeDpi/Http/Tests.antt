-- ===== src/ByeDpi/Http/Tests.antt =====
-- Examples of `parse_http` on a small request and of `get_http_code` on small replies.
use zon_dpi.Prelude.{
  ℕ, zero, suc, ◌-◌, ◌≡◌, refl, ap, ◌∙◌, true, none, some, get_elem?, List, [], ◌∷◌, arith,
}
use zon_dpi.Bytes.Laws.{some_inv, get_elem?-drop}
use zon_dpi.ByeDpi.Http.{Request, parse_http, isspace, matches, http_1, get_http_code}
use zon_dpi.ByeDpi.Http.Bounds.{EndsIn, parse_http-EndsIn}
use zon_dpi.ByeDpi.Http.Codes.{IsBlank, IsCode, get_http_code-IsBlank, get_http_code-IsCode}

-- "GET / HTTP/1.1", a new line, "Host: ya.ru:81", a new line and "x"
abbrev request : List ℕ
request =
    b'G' ∷ b'E' ∷ b'T' ∷ b' ' ∷ b'/' ∷ b' ' ∷ b'H' ∷ b'T' ∷ b'T' ∷ b'P' ∷ b'/' ∷ b'1' ∷ b'.' ∷ b'1'
    ∷ 10 ∷ b'H' ∷ b'o' ∷ b's' ∷ b't' ∷ b':' ∷ b' ' ∷ b'y' ∷ b'a' ∷ b'.' ∷ b'r' ∷ b'u' ∷ b':' ∷ b'8'
    ∷ b'1' ∷ 10 ∷ b'x' ∷ []

parse_http-EndsIn_example : (r : Request) × (parse_http true request 31 ≡ some r) × EndsIn 31 r
parse_http-EndsIn_example = parse_http-EndsIn true request 31 (omega arith)

-- "HTTP/1.1 302 " and a new line
abbrev reply : List ℕ
reply =
    b'H' ∷ b'T' ∷ b'T' ∷ b'P' ∷ b'/' ∷ b'1' ∷ b'.' ∷ b'1' ∷ b' ' ∷ b'3' ∷ b'0' ∷ b'2' ∷ b' ' ∷ 10
    ∷ []

get_http_code-IsCode_example : (r : ℕ) × (get_http_code reply 14 ≡ some r) × IsCode r
get_http_code-IsCode_example =
    get_http_code-IsCode reply 14 9 b'3' 13 (omega arith) (omega arith) (omega arith) refl refl
      (omega arith) refl

-- "HTTP/1.1" and spaces
abbrev blank_reply : List ℕ
blank_reply =
    b'H' ∷ b'T' ∷ b'T' ∷ b'P' ∷ b'/' ∷ b'1' ∷ b'.' ∷ b'1' ∷ b' ' ∷ b' ' ∷ 13 ∷ 10 ∷ 10 ∷ []

blank_reply-matches : matches blank_reply 0 http_1 ≡ some true
unfolding matches
blank_reply-matches = refl

spaces : (m c : ℕ) → get_elem? (b' ' ∷ 13 ∷ 10 ∷ 10 ∷ []) m ≡ some c → isspace c ≡ true
spaces zero c e = let is = some_inv b' ' c e in rw (← is) refl
spaces (suc zero) c e = let is = some_inv 13 c e in rw (← is) refl
spaces (suc (suc zero)) c e = let is = some_inv 10 c e in rw (← is) refl
spaces (suc (suc (suc zero))) c e = let is = some_inv 10 c e in rw (← is) refl
spaces (suc (suc (suc (suc m)))) c e = absurd (grind arith)

blank_reply-IsBlank : IsBlank blank_reply 9
blank_reply-IsBlank i c le e =
    spaces (i - 9) c
      (get_elem?-drop blank_reply 9 (i - 9) ∙ ap (get_elem? blank_reply) {y = i} (omega arith) ∙ e)

get_http_code-IsBlank_example : get_http_code blank_reply 13 ≡ none
get_http_code-IsBlank_example =
    get_http_code-IsBlank blank_reply 12 blank_reply-matches blank_reply-IsBlank (omega arith) refl
      (omega arith)
