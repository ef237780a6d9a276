-- ===== src/ByeDpi/Desync/Offsets.antt =====
-- The offsets of `gen_offset`.
use zon_dpi.Prelude.{
  ℕ, ◌+◌, ◌/◌, ◌≤◌, ◌≡◌, inl, inr, true, false, not, ◌&&◌, ◌||◌, none, some, List, [], ◌∷◌, length,
  take, drop, ◌==◌, if◌then◌else◌, Bool-cases, arith,
}
use zon_dpi.Prelude.Int.{ℤ, pos, negsuc, ◌+ℤ◌, ltb_ℤ}
use zon_dpi.ByeDpi.Tls.Hello.Safety.{parse_tls-InBuffer}
use zon_dpi.ByeDpi.Tls.Hello.Names.{ClientHello, IsHello, encode_hello, parse_tls-encode_hello}
use zon_dpi.ByeDpi.Http.Bounds.{parse_http-EndsIn}
use zon_dpi.ByeDpi.Desync.{
  Part, Info, no_info, has, offset_end, offset_mid, offset_rand, offset_sni, is_https_type, is_zero,
  host_offset, half, init_proto_info, in_host, in_message, gen_offset,
}

init_proto_info-total :
    (buf : List ℕ) (n : ℕ) (info : Info)
    → n ≤ length buf
    → (i : Info) × (init_proto_info buf n info ≡ some i)
unfolding init_proto_info
init_proto_info-total buf n info h =
    let (tls, et, bt) = parse_tls-InBuffer buf n h in
    let (http, eh, bh) = parse_http-EndsIn false buf n h in
    elim (Bool-cases info.init) [
      | inl done ↦ (info, rw done)
      | inr fresh ↦ elim (Bool-cases (tls.ret == 0)) [
        | inr named ↦ (
          record {
            init = true;
            type = is_https_type;
            host_len = pos tls.ret;
            host_pos = host_offset none tls.hs;
          },
          rw (fresh, et, named),
        )
        | inl other ↦ (
          record {
            init = true;
            type = if is_zero http.ret then info.type else 4;
            host_len = http.ret;
            host_pos = host_offset http.hs tls.hs;
          },
          rw (fresh, et, other, eh),
        )
      ]
    ]

in_host-total :
    (rand flag : ℕ) (len : ℤ)
    → has flag offset_rand ≡ false
    → (d : ℤ) × (in_host rand flag len ≡ some d)
unfolding in_host
in_host-total rand flag len h = elim (Bool-cases (has flag offset_end)) [
  | inl e ↦ (len, rw e)
  | inr e ↦ elim (Bool-cases (has flag offset_mid)) [
    | inl m ↦ (half len, rw (e, m))
    | inr m ↦ (pos 0, rw (e, m, h))
  ]
]

in_message-total :
    (rand : ℕ) (at : ℤ) (flag n lp : ℕ)
    → has flag offset_rand ≡ false
    → (d : ℤ) × (in_message rand at flag n lp ≡ some d)
unfolding in_message
in_message-total rand at flag n lp h = elim (Bool-cases (has flag offset_mid)) [
  | inl m ↦ (at +ℤ pos (n / 2), rw (h, m))
  | inr m ↦ elim (Bool-cases (ltb_ℤ at (pos 0) || has flag offset_end)) [
    | inl e ↦ (at +ℤ pos n, rw (h, m, e))
    | inr e ↦ (at, rw (h, m, e))
  ]
]

-- Every part whose flag is not random has an offset, whatever the message holds.
pub gen_offset-total :
    (rand : ℕ) (at : ℤ) (flag : ℕ) (buf : List ℕ) (n lp : ℕ) (info : Info)
    → n ≤ length buf
    → has flag offset_rand ≡ false
    → (r : ℤ × Info) × (gen_offset rand at flag buf n lp info ≡ some r)
unfolding gen_offset
gen_offset-total rand at flag buf n lp info h fixed = elim (Bool-cases (has flag 24)) [
  | inr plain ↦ let (d, e) = in_message-total rand at flag n lp fixed in ((d, info), rw (plain, e))
  | inl named ↦
      let (info', ei) = init_proto_info-total buf n info h in
      elim (Bool-cases
        ((info'.host_pos == 0) || (has flag offset_sni && not (info'.type == is_https_type)))) [
          | inl absent ↦ ((negsuc 0, info'), rw (named, ei, absent))
          | inr there ↦
              let (d, e) = in_host-total rand flag info'.host_len fixed in
              ((at +ℤ pos info'.host_pos +ℤ d, info'), rw (named, ei, there, e))
        ]
]

-- A part at `k` with the flag of the server name ends `k` bytes into the name, for every client
-- hello that names a host (of at least four bytes), wherever the name stands.
pub gen_offset-server_name :
    (h : ClientHello) (rand k lp : ℕ)
    → IsHello h
    → (p : ℕ) × (info : Info) × (gen_offset rand
          (pos k)
          offset_sni
          (encode_hello h)
          (length (encode_hello h))
          lp
          no_info
        ≡ some (pos (k + p), info))
      × (take (length h.name) (drop p (encode_hello h)) ≡ h.name)
unfolding gen_offset init_proto_info in_host host_offset has ◌+ℤ◌
gen_offset-server_name h rand k lp v =
    let (p, positive, parsed, name) = parse_tls-encode_hello h v in
    let long : (length h.name == 0) ≡ false = ground (arith, v.name_length) in
    let here : (p == 0) ≡ false = ground arith in
    (
      p,
      record { init = true; type = is_https_type; host_len = pos (length h.name); host_pos = p },
      rw parsed (rw long (rw here (ground arith))),
      name,
    )

-- No part of a list has a random flag.
abbrev pub Fixed : List Part → Type 0
Fixed [] = Unit {0}
Fixed (p ∷ ps) = (has p.flag offset_rand ≡ false) × Fixed ps
