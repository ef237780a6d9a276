-- ===== src/ByeDpi/Tls/Tests.antt =====
-- Runs of the TLS functions on small messages, and the theorems at concrete inputs.
use zon_dpi.Prelude.{
  ℕ, ◌+◌, ◌<◌, ◌≤◌, ◌≡◌, refl, none, some, List, [], ◌∷◌, ◌++◌, length, replicate, take, drop,
  arith, get_elem?,
}
use zon_dpi.Prelude.Int.{pos}
use zon_dpi.Bytes.{antohs, antohs_u16}
use zon_dpi.ByeDpi.Tls.Ext.{find_tls_ext_offset, find_ext_block, ext_loop, ext_end}
use zon_dpi.ByeDpi.Tls.Ext.Search.{Extension, encode, locate, find_tls_ext_offset-eq-locate}
use zon_dpi.ByeDpi.Tls.Hello.{Parsed, parse_tls, parse_sni, is_tls_chello}
use zon_dpi.ByeDpi.Tls.Hello.Safety.{InBuffer, parse_tls-InBuffer}
use zon_dpi.ByeDpi.Tls.Hello.Names.{ClientHello, IsHello, encode_hello, parse_tls-encode_hello}
use zon_dpi.ByeDpi.Tls.Records.{part_tls, merge_tls_records, merge_loop}
use zon_dpi.ByeDpi.Tls.Records.Split.{header, part_tls-shape}
use zon_dpi.ByeDpi.Tls.Records.Rounds.{two_records}
use zon_dpi.ByeDpi.Tls.Records.Merge.{merge_tls_records-two_records}
use zon_dpi.ByeDpi.Tls.Records.Spin.{merge_tls_records-never_returns}

abbrev pub host : List ℕ
host = b'n' ∷ b'i' ∷ b'c' ∷ b'.' ∷ b't' ∷ b'r' ∷ []

abbrev pub padding : Extension
padding = record { kind = 0x15; body = 0 ∷ 0 ∷ [] }

abbrev pub hello : ClientHello
hello = record {
  minor = 1;
  len_hi = 0;
  len_lo = 80;
  mid = replicate 37 7;
  session_id = 9 ∷ [];
  ciphers = 0x13 ∷ 0x01 ∷ [];
  compression = 0;
  before = padding ∷ [];
  name = host;
  after = padding ∷ [];
}

pub hello-IsHello : IsHello hello
unfolding encode
hello-IsHello = omega arith

name_found :
    parse_tls (encode_hello hello) (length (encode_hello hello))
    ≡ some (record { ret = 6; hs = some 68 })
unfolding parse_tls parse_sni encode_hello encode is_tls_chello antohs antohs_u16 find_ext_block
    find_tls_ext_offset ext_loop ext_end
name_found = refl

find_tls_ext_offset-eq-locate_example :
    find_tls_ext_offset 0x15 (7 ∷ 0 ∷ 6 ∷ 0 ∷ 0x15 ∷ 0 ∷ 2 ∷ 0 ∷ 0 ∷ 3 ∷ []) 10 1
    ≡ some (locate 0x15 (padding ∷ []) 3)
unfolding encode
find_tls_ext_offset-eq-locate_example =
    find_tls_ext_offset-eq-locate 0x15 (7 ∷ []) (3 ∷ []) (padding ∷ []) (omega arith) (omega arith)

parse_tls-InBuffer_example :
    (p : Parsed) × (parse_tls (encode_hello hello) (length (encode_hello hello)) ≡ some p)
    × InBuffer (length (encode_hello hello)) p
parse_tls-InBuffer_example =
    parse_tls-InBuffer (encode_hello hello) (length (encode_hello hello)) (omega arith)

parse_tls-encode_hello_example :
    (at : ℕ) × (0 < at)
    × (parse_tls (encode_hello hello) (length (encode_hello hello))
        ≡ some (record { ret = 6; hs = some at }))
    × (take 6 (drop at (encode_hello hello)) ≡ host)
parse_tls-encode_hello_example = parse_tls-encode_hello hello hello-IsHello

part_tls-shape_example :
    part_tls (header 0x16 3 1 4 ++ (1 ∷ 0 ∷ 0 ∷ 0 ∷ 9 ∷ 9 ∷ 9 ∷ 9 ∷ 9 ∷ [])) 14 (pos 9) (pos 1)
    ≡ some (record { ret = 5; out = two_records 0x16 3 1 (1 ∷ []) (0 ∷ 0 ∷ 0 ∷ []) [] })
part_tls-shape_example =
    part_tls-shape 0x16 3 1 4 14 (1 ∷ []) (0 ∷ 0 ∷ 0 ∷ []) (9 ∷ 9 ∷ 9 ∷ 9 ∷ 9 ∷ []) [] refl
      (omega arith) (omega arith) (omega arith) (omega arith)

-- The length in the message, 9 and 9, is wrong.
merge_tls_records-two_records_example :
    merge_tls_records 2 (two_records 0x16 3 1 (1 ∷ []) (0 ∷ 9 ∷ 9 ∷ 7 ∷ []) []) 15
    ≡ some (record {
      ret = 5;
      out = 0x16 ∷ 3 ∷ 1 ∷ 0 ∷ 5 ∷ 1 ∷ 0 ∷ 0 ∷ 1 ∷ 7 ∷ 4 ∷ 0 ∷ 9 ∷ 9 ∷ 7 ∷ [];
    })
merge_tls_records-two_records_example =
    merge_tls_records-two_records 0x16 3 1 1 0 9 9 0 (1 ∷ []) (0 ∷ 9 ∷ 9 ∷ 7 ∷ []) [] (7 ∷ []) refl
      (omega arith) (ground arith)

merge_tls_records-never_returns_example :
    (merge_tls_records 9 (two_records 0x16 3 1 (1 ∷ 0 ∷ []) [] []) 12 ≡ none)
    × ((i : ℕ)
        → merge_loop 10 (two_records 0x16 3 1 (1 ∷ 0 ∷ []) [] []) 12 2 0 i
          ≡ merge_loop 9 (two_records 0x16 3 1 (1 ∷ 0 ∷ []) [] []) 12 2 0 (i + 1))
merge_tls_records-never_returns_example =
    merge_tls_records-never_returns 0x16 3 1 (1 ∷ 0 ∷ []) [] (omega arith) 9

-- A server's hello that gives back the session id of `hello`, with the version extension.
abbrev reply : List ℕ
reply =
    0x16
    ∷ 0x03
    ∷ 3
    ∷ 0
    ∷ 80
    ∷ 0x02
    ∷ (replicate 37 5
        ++ (1 ∷ 9 ∷ 0x13 ∷ 0x01 ∷ 0 ∷ 0 ∷ 6 ∷ 0 ∷ 0x2b ∷ 0 ∷ 2 ∷ 3 ∷ 4 ∷ replicate 24 0))

sid_of_hello : get_elem? (encode_hello hello) 43 ≡ some 1
unfolding encode_hello encode
sid_of_hello = refl

long_hello : 75 ≤ length (encode_hello hello)
unfolding encode_hello encode
long_hello = omega arith
