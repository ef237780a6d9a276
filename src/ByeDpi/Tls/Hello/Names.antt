-- ===== src/ByeDpi/Tls/Hello/Names.antt =====
-- The parser against an encoder of client hellos.
use mathlib.Core.List.{append_assoc}
use zon_dpi.Prelude.{
  ℕ, suc, ◌+◌, ◌/◌, ◌%◌, ◌<◌, ◌≤◌, ◌≡◌, refl, ap, ◌∙◌, sym, some, List, [], ◌∷◌, ◌++◌, length,
  length-append, take, drop, get_elem?, arith, true,
}
use zon_dpi.Bytes.{antohs, antohs_u16}
use zon_dpi.Bytes.Laws.{antohs_u16_at, get_elem?-append_right, take-append, drop-append}
use zon_dpi.ByeDpi.Tls.Ext.{find_tls_ext_offset, find_ext_block}
use zon_dpi.ByeDpi.Tls.Ext.Safety.{find_ext_block-at}
use zon_dpi.ByeDpi.Tls.Ext.Search.{Extension, encode, Fits, locate, find_tls_ext_offset-eq-locate}
use zon_dpi.ByeDpi.Tls.Hello.{hello_of_type, is_tls_chello, parse_sni, parse_tls}

-- The server name extension with one host name.
abbrev pub server_name : List ℕ → Extension
server_name name =
    let n = length name in
    record {
      kind = 0;
      body = (n + 3) / 256 % 256 ∷ (n + 3) % 256 ∷ 0 ∷ n / 256 % 256 ∷ n % 256 ∷ name;
    }

-- A client hello: `mid` stands for the handshake's length, version and random bytes.
pub record ClientHello : Type 0 where
  pub minor : ℕ
  pub len_hi : ℕ
  pub len_lo : ℕ
  pub mid : List ℕ
  pub session_id : List ℕ
  pub ciphers : List ℕ
  pub compression : ℕ
  pub before : List Extension
  pub name : List ℕ
  pub after : List Extension

abbrev pub extensions : ClientHello → List Extension
extensions h = h.before ++ (server_name h.name ∷ h.after)

abbrev tail_of : ClientHello → List ℕ
tail_of h =
    let n = length h.ciphers in
    h.session_id ++ (n / 256 % 256 ∷ n % 256 ∷ (h.ciphers ++ (1 ∷ h.compression ∷ [])))

-- All that stands before the extensions.
abbrev pub head_of : ClientHello → List ℕ
head_of h =
    0x16
    ∷ 0x03
    ∷ h.minor
    ∷ h.len_hi
    ∷ h.len_lo
    ∷ 0x01
    ∷ (h.mid ++ (length h.session_id ∷ tail_of h))

unfoldable pub encode_hello : ClientHello → List ℕ
encode_hello h =
    let n = length (encode (extensions h)) in
    head_of h ++ (n / 256 % 256 ∷ n % 256 ∷ (encode (extensions h) ++ []))

-- No extension of kind 0 stands in a list.
abbrev pub HasNoName : List Extension → Type 0
HasNoName [] = Unit {0}
HasNoName (e ∷ es) = (0 < e.kind) × HasNoName es

-- The fixed parts have their lengths, all lengths fit their fields, one name is given.
pub record IsHello (h : ClientHello) : Type 0 where
  pub mid_length : length h.mid ≡ 37
  pub sid_fits : length h.session_id < 256
  pub ciphers_fit : length h.ciphers < 65536
  pub exts_fit : Fits (extensions h)
  pub block_fits : length (encode (extensions h)) < 65536
  pub no_name_before : HasNoName h.before
  pub name_length : 3 < length h.name

length-head_of :
    (h : ClientHello) → IsHello h → length (head_of h) ≡ 48 + length h.session_id + length h.ciphers
length-head_of h v = omega (
  arith,
  length-append h.mid (length h.session_id ∷ tail_of h),
  length-append h.session_id (
      length h.ciphers / 256 % 256
      ∷ length h.ciphers % 256
      ∷ (h.ciphers ++ (1 ∷ h.compression ∷ []))),
  length-append h.ciphers (1 ∷ h.compression ∷ []),
)

find_ext_block-head_of :
    (h : ClientHello) (ys : List ℕ)
    → IsHello h
    → find_ext_block (head_of h ++ ys) (length (head_of h ++ ys)) ≡ some (length (head_of h))
find_ext_block-head_of h ys v = rw (length-head_of h v) (
    rw (← sums) (
      find_ext_block-at (head_of h ++ ys) (length (head_of h ++ ys)) s c sid_read cip_read
        (omega (arith, length-append (head_of h) ys, length-head_of h v))))
  where
    s : ℕ
    s = length h.session_id

    c : ℕ
    c = length h.ciphers

    fixed : List ℕ
    fixed = 0x16 ∷ 0x03 ∷ h.minor ∷ h.len_hi ∷ h.len_lo ∷ 0x01 ∷ h.mid

    rest : List ℕ
    rest = h.ciphers ++ (1 ∷ h.compression ∷ [])

    sums : 48 + s + c ≡ 48 + length h.session_id + length h.ciphers
    sums = refl

    split_sid : head_of h ++ ys ≡ fixed ++ (s ∷ (tail_of h ++ ys))
    split_sid = append_assoc fixed (s ∷ tail_of h) ys

    sid_read : get_elem? (head_of h ++ ys) 43 ≡ some s
    sid_read =
        rw split_sid
          (get_elem?-append_right fixed (s ∷ (tail_of h ++ ys)) 0 43 (omega (arith, v.mid_length)))

    split_cip :
        head_of h ++ ys ≡ (fixed ++ (s ∷ h.session_id)) ++ (c / 256 % 256 ∷ c % 256 ∷ (rest ++ ys))
    split_cip = simp append_assoc

    cip_read : antohs_u16 (head_of h ++ ys) (44 + s) ≡ some c
    cip_read = rw split_cip (
        ground (
          arith,
          v.mid_length,
          v.ciphers_fit,
          length-append fixed (s ∷ h.session_id),
          antohs_u16_at (fixed ++ (s ∷ h.session_id)) (rest ++ ys) (c / 256 % 256) (c % 256)
              (44 + s),
        ))

encode-append : (xs ys : List Extension) → encode (xs ++ ys) ≡ encode xs ++ encode ys
unfolding encode
encode-append [] ys = refl
encode-append (e ∷ es) ys = simp (encode-append es ys, append_assoc)

-- What the name is found by: no extension of kind 0 stands before it.
locate-name :
    (before after : List Extension) (name : List ℕ) (off : ℕ)
    → HasNoName before
    → locate 0 (before ++ (server_name name ∷ after)) off ≡ off + length (encode before)
unfolding locate encode
locate-name [] after name off h = ground arith
locate-name (e ∷ es) after name off h = ground (
  arith,
  encode-append es (server_name name ∷ after),
  length-append (encode es) (encode (server_name name ∷ after)),
  length-append e.body (encode (es ++ (server_name name ∷ after))),
  length-append e.body (encode es),
  locate-name es after name (off + (length e.body + 4)) h.1,
)

parse_sni-at :
    (buf : List ℕ) (size offs n : ℕ)
    → antohs_u16 buf (offs + 7) ≡ some n
    → 0 < offs
    → offs + 12 < size
    → offs + 9 + n ≤ size
    → parse_sni buf size offs ≡ some (record { ret = n; hs = some (offs + 9) })
unfolding parse_sni
parse_sni-at buf size offs n e p room fits = rw e (ground arith)

is_tls_chello-head_of :
    (h : ClientHello) (ys : List ℕ)
    → is_tls_chello (head_of h ++ ys) (length (head_of h ++ ys)) ≡ some true
unfolding is_tls_chello hello_of_type antohs
is_tls_chello-head_of h ys = ground arith

-- `parse_tls` of an encoded client hello with a name of four bytes or more, the first server
-- name extension wherever it stands among the others, returns the length of the name, and the
-- bytes at the place that it stores through `hs` are the name.
pub parse_tls-encode_hello :
    (h : ClientHello)
    → IsHello h
    → (pos : ℕ) × (0 < pos)
      × (parse_tls (encode_hello h) (length (encode_hello h))
          ≡ some (record { ret = length h.name; hs = some pos }))
      × (take (length h.name) (drop pos (encode_hello h)) ≡ h.name)
unfolding parse_tls encode_hello encode
parse_tls-encode_hello h v = (
  offs + 9,
  omega arith,
  rw (is_tls_chello-head_of h block, find_ext_block-head_of h block v, found)
      (ground (arith, read)),
  rw whole (
      rw
        (drop-append front (header ++ (h.name ++ ending)) 9 (offs + 9)
          (omega (arith, length_front)))
        (take-append h.name ending (length h.name) refl)),
)
  where
    es : List Extension
    es = extensions h

    n : ℕ
    n = length (encode es)

    block : List ℕ
    block = n / 256 % 256 ∷ n % 256 ∷ (encode es ++ [])

    offs : ℕ
    offs = length (head_of h) + 2 + length (encode h.before)

    found :
        find_tls_ext_offset 0
          (head_of h ++ block)
          (length (head_of h ++ block))
          (length (head_of h))
        ≡ some offs
    found =
        find_tls_ext_offset-eq-locate 0 (head_of h) [] es v.exts_fit v.block_fits
        ∙ ap some (locate-name h.before h.after h.name (length (head_of h) + 2) v.no_name_before)

    k : ℕ
    k = length h.name

    header : List ℕ
    header =
        0
        ∷ 0
        ∷ (k + 5) / 256 % 256
        ∷ (k + 5) % 256
        ∷ (k + 3) / 256 % 256
        ∷ (k + 3) % 256
        ∷ 0
        ∷ k / 256 % 256
        ∷ k % 256
        ∷ []

    front : List ℕ
    front = head_of h ++ (n / 256 % 256 ∷ n % 256 ∷ encode h.before)

    ending : List ℕ
    ending = encode h.after ++ []

    length_front : length front ≡ offs
    length_front =
        omega (arith, length-append (head_of h) (n / 256 % 256 ∷ n % 256 ∷ encode h.before))

    body_length : suc (suc (suc (suc (suc k)))) ≡ k + 5
    body_length = omega arith

    whole : head_of h ++ block ≡ front ++ (header ++ (h.name ++ ending))
    whole = simp (encode-append h.before (server_name h.name ∷ h.after), append_assoc, body_length)

    n_parts : n ≡ length (encode h.before) + (9 + (k + length (encode h.after)))
    n_parts = rw (encode-append h.before (server_name h.name ∷ h.after)) (
        omega (
          arith,
          length-append (encode h.before) (encode (server_name h.name ∷ h.after)),
          length-append h.name (encode h.after),
        ))

    size : length (head_of h ++ block) ≡ offs + 9 + (k + length (encode h.after))
    size = omega (arith, n_parts, length-append (head_of h) block, length-append (encode es) [])

    name_read : antohs_u16 (head_of h ++ block) (offs + 7) ≡ some k
    name_read =
        rw (whole ∙ sym (append_assoc front (take 7 header) (drop 7 header ++ (h.name ++ ending))))
          (ground (
            arith,
            n_parts,
            v.block_fits,
            length_front,
            length-append front (take 7 header),
            antohs_u16_at (front ++ take 7 header) (h.name ++ ending) (k / 256 % 256) (k % 256)
                (offs + 7),
          ))

    read :
        parse_sni (head_of h ++ block) (length (head_of h ++ block)) offs
        ≡ some (record { ret = k; hs = some (offs + 9) })
    read =
        parse_sni-at (head_of h ++ block) (length (head_of h ++ block)) offs k name_read
          (omega arith) (omega (arith, size, v.name_length)) (omega (arith, size))
