-- ===== src/ByeDpi/Tls/Ext/Search.antt =====
-- The search against a description of it: a block of extensions as a list of kinds and bodies,
-- encoded as a hello message has it.
use mathlib.Core.List.{append_assoc}
use zon_dpi.Prelude.{
  ℕ, zero, suc, ◌+◌, ◌/◌, ◌%◌, ◌<◌, ◌≡◌, refl, Bool-cases, inl, inr, some, List, [], ◌∷◌, ◌++◌,
  length, length-append, arith, ltb, leb, ◌==◌, if◌then◌else◌, ap, ◌∙◌, sym,
}
use zon_dpi.Bytes.{antohs_u16}
use zon_dpi.Bytes.Laws.{antohs_u16_at}
use zon_dpi.ByeDpi.Tls.Ext.{ext_loop, ext_end, find_tls_ext_offset}

pub record Extension : Type 0 where
  pub kind : ℕ
  pub body : List ℕ

-- The bytes of the extensions in order: kind and length in two bytes each, then the body.
unfoldable pub encode : List Extension → List ℕ
encode [] = []
encode (e ∷ es) =
    e.kind / 256 % 256
    ∷ e.kind % 256
    ∷ length e.body / 256 % 256
    ∷ length e.body % 256
    ∷ (e.body ++ encode es)

-- Kinds and lengths fit their two bytes.
abbrev pub Fits : List Extension → Type 0
Fits [] = Unit {0}
Fits (e ∷ es) = (e.kind < 65536) × (length e.body < 65536) × Fits es

-- The place of the first extension of a kind, for a block that starts at `off`, and 0 if there is
-- none. An extension with no body at the very end of the block counts as absent.
unfoldable pub locate : ℕ → List Extension → ℕ → ℕ
locate type [] off = 0
locate type (e ∷ es) off =
    let rest = locate type es (off + (length e.body + 4)) in
    if ltb 0 (length (e.body ++ encode es)) then (if type == e.kind then off else rest) else 0

ext_loop-eq-locate :
    (es : List Extension) (fuel type : ℕ) (buf pre post : List ℕ) (size skip : ℕ)
    → Fits es
    → buf ≡ pre ++ (encode es ++ post)
    → skip ≡ length pre
    → size ≡ skip + length (encode es)
    → length (encode es) < fuel
    → ext_loop fuel type buf size skip ≡ some (locate type es skip)
unfolding ext_loop locate encode
ext_loop-eq-locate es zero type buf pre post size skip fit eb es_ ez h = absurd (omega arith)
ext_loop-eq-locate [] (suc fuel) type buf pre post size skip fit eb es_ ez h = ground arith
ext_loop-eq-locate (e ∷ es) (suc fuel) type buf pre post size skip fit eb es_ ez h = ground (
  arith,
  kind_read,
  len_read,
  length-append e.body (encode es),
  ext_loop-eq-locate es fuel type buf (pre ++ (kind_bytes ++ (len_bytes ++ e.body))) post size
      (skip + (length e.body + 4)) fit.2 behind_header
      (omega (arith, length-append pre (kind_bytes ++ (len_bytes ++ e.body))))
      (omega (arith, length-append e.body (encode es)))
      (omega (arith, length-append e.body (encode es))),
)
  where
    rest : List ℕ
    rest = e.body ++ encode es

    kind_bytes : List ℕ
    kind_bytes = e.kind / 256 % 256 ∷ e.kind % 256 ∷ []

    len_bytes : List ℕ
    len_bytes = length e.body / 256 % 256 ∷ length e.body % 256 ∷ []

    behind_kind : buf ≡ (pre ++ kind_bytes) ++ (len_bytes ++ (rest ++ post))
    behind_kind = eb ∙ sym (append_assoc pre kind_bytes (len_bytes ++ (rest ++ post)))

    behind_header : buf ≡ (pre ++ (kind_bytes ++ (len_bytes ++ e.body))) ++ (encode es ++ post)
    behind_header = eb ∙ simp append_assoc

    kind_read : antohs_u16 buf skip ≡ some e.kind
    kind_read = rw eb (
        ground (
          arith,
          antohs_u16_at pre (len_bytes ++ (rest ++ post)) (e.kind / 256 % 256) (e.kind % 256) skip,
        ))

    len_read : antohs_u16 buf (skip + 2) ≡ some (length e.body)
    len_read = rw behind_kind (
        ground (
          arith,
          length-append pre kind_bytes,
          antohs_u16_at (pre ++ kind_bytes) (rest ++ post) (length e.body / 256 % 256)
              (length e.body % 256) (skip + 2),
        ))

locate_empty :
    (type : ℕ) (es : List Extension) (off : ℕ) → length (encode es) ≡ 0 → locate type es off ≡ 0
unfolding locate encode
locate_empty type [] off h = refl
locate_empty type (e ∷ es) off h = absurd (omega arith)

-- In a buffer whose extension block is well formed (two bytes of total length, then the encoded
-- extensions, kinds and lengths in 16 bits), the search returns the offset of the first extension
-- of the kind and 0 if there is none. An extension that ends the block with an empty body
-- counts as absent.
pub find_tls_ext_offset-eq-locate :
    (type : ℕ) (pre post : List ℕ) (es : List Extension)
    → Fits es
    → length (encode es) < 65536
    → let hi = length (encode es) / 256 % 256 in
      let lo = length (encode es) % 256 in
      let buf = pre ++ (hi ∷ lo ∷ (encode es ++ post)) in
      find_tls_ext_offset type buf (length buf) (length pre)
      ≡ some (locate type es (length pre + 2))
unfolding find_tls_ext_offset ext_end
find_tls_ext_offset-eq-locate type pre post es fit bound =
    elim (Bool-cases (leb (length buf) (length pre + 2))) [
      | inl short ↦
          rw short (ap some (sym (locate_empty type es (length pre + 2) (ground (arith, sizes)))))
      | inr long ↦ rw (long, length_read, end_of_block) search
    ]
  where
    total : ℕ
    total = length (encode es)

    length_bytes : List ℕ
    length_bytes = total / 256 % 256 ∷ total % 256 ∷ []

    buf : List ℕ
    buf = pre ++ (length_bytes ++ (encode es ++ post))

    sizes : length buf ≡ length pre + 2 + total + length post
    sizes = omega (
      arith,
      length-append pre (length_bytes ++ (encode es ++ post)),
      length-append (encode es) post,
    )

    length_read : antohs_u16 buf (length pre) ≡ some total
    length_read = ground (
      arith,
      antohs_u16_at pre (encode es ++ post) (total / 256 % 256) (total % 256) (length pre),
    )

    end_of_block : ext_end total (length buf) (length pre + 2) ≡ total + (length pre + 2)
    end_of_block = ground (arith, sizes)

    search :
        ext_loop
          (suc (total + (length pre + 2)))
          type
          buf
          (total + (length pre + 2))
          (length pre + 2)
        ≡ some (locate type es (length pre + 2))
    search =
        ext_loop-eq-locate es (suc (total + (length pre + 2))) type buf (pre ++ length_bytes) post
          (total + (length pre + 2)) (length pre + 2) fit
          (sym (append_assoc pre length_bytes (encode es ++ post)))
          (omega (arith, length-append pre length_bytes)) (omega arith) (omega arith)
