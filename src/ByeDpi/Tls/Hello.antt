-- ===== src/ByeDpi/Tls/Hello.antt =====
-- Recognising hello messages and finding the host name: `is_tls_chello`, `is_tls_shello`,
-- `parse_tls` and `neq_tls_sid` of engines/byedpi/upstream/packets.c.
pub mod Safety
pub mod Session
pub mod Names
use zon_dpi.Prelude.{
  ℕ, ◌+◌, ◌-◌, Bool, true, false, not, ◌||◌, Option, none, some, List, get_elem?, take, drop, leb,
  ltb, ◌==◌, if◌then◌else◌,
}
use zon_dpi.Bytes.{◌>>=◌, antohs, antohs_u16, memcmp_ne}
use zon_dpi.ByeDpi.Tls.Ext.{find_tls_ext_offset, find_ext_block}

-- A handshake record (0x1603) whose first message has the given type.
hello_of_type : ℕ → List ℕ → ℕ → Option Bool
hello_of_type type buf bsize =
    if leb bsize 5
    then some false
    else (antohs buf 0 >>= λ v.
        if v == 0x1603 then (get_elem? buf 5 >>= λ t. some (t == type)) else some false)

unfoldable pub is_tls_chello : List ℕ → ℕ → Option Bool
unfolding hello_of_type
is_tls_chello = hello_of_type 1

unfoldable pub is_tls_shello : List ℕ → ℕ → Option Bool
unfolding hello_of_type
is_tls_shello = hello_of_type 2

-- The value returned, and what is stored through `hs` if anything is.
pub record Parsed : Type 0 where
  pub ret : ℕ
  pub hs : Option ℕ

abbrev pub no_host : Parsed
no_host = record { ret = 0; hs = none }

-- The part behind the search for the server name extension.
unfoldable pub parse_sni : List ℕ → ℕ → ℕ → Option Parsed
parse_sni buf bsize sni_offs =
    if (sni_offs == 0) || leb bsize (sni_offs + 12)
    then some no_host
    else (antohs_u16 buf (sni_offs + 7) >>= λ len.
        if ltb bsize (sni_offs + 9 + len)
        then some no_host
        else some (record { ret = len; hs = some (sni_offs + 9) }))

unfoldable pub parse_tls : List ℕ → ℕ → Option Parsed
parse_tls buf bsize = is_tls_chello buf bsize >>= λ hello.
    if hello
    then (find_ext_block buf bsize >>= λ skip.
        if skip == 0
        then some no_host
        else (find_tls_ext_offset 0 buf bsize skip >>= λ sni_offs. parse_sni buf bsize sni_offs))
    else some no_host

-- `neq_tls_sid` compares bytes only, so both are `char` values of one sign convention.
unfoldable pub neq_tls_sid : List ℕ → ℕ → List ℕ → ℕ → Option Bool
neq_tls_sid req qn resp sn =
    if ltb qn 75 || ltb sn 75
    then some false
    else (is_tls_chello req qn >>= λ hello. antohs resp 0 >>= λ head.
        if not hello || not (head == 0x1603)
        then some false
        else (get_elem? req 43 >>= λ sid_len.
            find_tls_ext_offset 0x2b resp sn (44 + sid_len + 3) >>= λ offs.
            if offs == 0
            then some false
            else (get_elem? resp 43 >>= λ resp_len.
                if not (sid_len == resp_len) then some true else memcmp_ne req 44 resp 44 sid_len)))
