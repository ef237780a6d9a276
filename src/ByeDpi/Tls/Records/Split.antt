-- ===== src/ByeDpi/Tls/Records/Split.antt =====
-- What `part_tls` leaves in the buffer.
use mathlib.Core.List.{append_assoc}
use zon_dpi.Prelude.{
  ℕ, ◌+◌, ◌-◌, ◌/◌, ◌%◌, ◌^◌, ◌<◌, ◌≤◌, ◌≡◌, refl, ap, sym, some, List, [], ◌∷◌, ◌++◌, length,
  length-append, take, length-take, arith,
}
use zon_dpi.Prelude.Int.{pos}
use zon_dpi.Bytes.{antohs_u16, shtona, memmove}
use zon_dpi.Bytes.Laws.{antohs_u16_at, shtona_at, take-append, take-append_more, drop-append}
use zon_dpi.ByeDpi.Tls.Records.{cut_record, part_tls}

-- A record header: type, version, and the length in two bytes.
abbrev pub header : ℕ → ℕ → ℕ → ℕ → List ℕ
header t major minor len = t ∷ major ∷ minor ∷ len / 256 % 256 ∷ len % 256 ∷ []

five :
    (xs : List ℕ)
    → length xs ≡ 5
    → record { a : ℕ; b : ℕ; c : ℕ; d : ℕ; e : ℕ; shape : xs ≡ a ∷ b ∷ c ∷ d ∷ e ∷ [] }
five [] h = absurd (omega arith)
five (a ∷ []) h = absurd (omega arith)
five (a ∷ b ∷ []) h = absurd (omega arith)
five (a ∷ b ∷ c ∷ []) h = absurd (omega arith)
five (a ∷ b ∷ c ∷ d ∷ []) h = absurd (omega arith)
five (a ∷ b ∷ c ∷ d ∷ e ∷ []) h = record { a = a; b = b; c = c; d = d; e = e; shape = refl }
five (a ∷ b ∷ c ∷ d ∷ e ∷ f ∷ xs) h = absurd (omega arith)

-- Moving the bytes behind `xs` up by five uses the five slack bytes behind them.
memmove_up :
    (xs back slack rest : List ℕ) (to from n : ℕ)
    → length slack ≡ 5
    → to ≡ length xs + 5
    → from ≡ length xs
    → n ≡ length back
    → memmove (xs ++ (back ++ (slack ++ rest))) to from n
      ≡ xs ++ (take 5 (back ++ (slack ++ rest)) ++ (back ++ rest))
unfolding memmove
memmove_up xs back slack rest to from n hs et ef en =
    rw
      (
        take-append_more xs w 5 to et,
        drop-append xs w 0 from (omega arith),
        take-append back (slack ++ rest) n en,
        drop-append xs w (n + 5) (to + n) (omega arith),
        drop-append back (slack ++ rest) 5 (n + 5) (omega arith),
        drop-append slack rest 0 5 (omega arith),
      )
      (append_assoc xs (take 5 w) (back ++ rest))
  where
    w : List ℕ
    w = back ++ (slack ++ rest)

-- Copying the first three bytes over three others.
memmove_stamp :
    (a b c x y z : ℕ) (zs ys : List ℕ) (to : ℕ)
    → to ≡ 3 + length zs
    → memmove (a ∷ b ∷ c ∷ (zs ++ (x ∷ y ∷ z ∷ ys))) to 0 3 ≡ a ∷ b ∷ c ∷ (zs ++ (a ∷ b ∷ c ∷ ys))
unfolding memmove
memmove_stamp a b c x y z zs ys to e = rw (
  take-append (a ∷ b ∷ c ∷ zs) (x ∷ y ∷ z ∷ ys) to (omega arith),
  drop-append (a ∷ b ∷ c ∷ zs) (x ∷ y ∷ z ∷ ys) 3 (to + 3) (omega arith),
)

-- The five bytes at the cut become the header of the second record.
stamp_header :
    (t major minor len p q a b c d e : ℕ) (front ys : List ℕ)
    → p ≡ length front
    → shtona
        (shtona
          (memmove (header t major minor len ++ (front ++ (a ∷ b ∷ c ∷ d ∷ e ∷ ys))) (5 + p) 0 3)
          3
          p)
        (5 + p + 3)
        q
      ≡ header t major minor p ++ (front ++ (header t major minor q ++ ys))
stamp_header t major minor len p q a b c d e front ys ep =
    rw
      (
        memmove_stamp t major minor a b c (len / 256 % 256 ∷ len % 256 ∷ front) (d ∷ e ∷ ys) (5 + p)
            (omega arith),
        shtona_at (t ∷ major ∷ minor ∷ []) (front ++ (t ∷ major ∷ minor ∷ d ∷ e ∷ ys))
            (len / 256 % 256) (len % 256) p 3 refl,
        sym (append_assoc (header t major minor p ++ front) (t ∷ major ∷ minor ∷ []) (d ∷ e ∷ ys)),
      )
      (rw
        (shtona_at (header t major minor p ++ (front ++ (t ∷ major ∷ minor ∷ []))) ys d e q
          (5 + p + 3) (omega (arith, length-append front (t ∷ major ∷ minor ∷ []))))
        (ap (λ l. header t major minor p ++ l)
          (append_assoc front (t ∷ major ∷ minor ∷ []) (q / 256 % 256 ∷ q % 256 ∷ ys))))

cut_record-shape :
    (t major minor len r_sz : ℕ) (front back slack rest : List ℕ)
    → length slack ≡ 5
    → cut_record
        (header t major minor len ++ (front ++ (back ++ (slack ++ rest))))
        (5 + length front + length back)
        (length front)
        r_sz
      ≡ header t major minor (length front)
        ++ (front ++ (header t major minor (r_sz - length front) ++ (back ++ rest)))
unfolding cut_record
cut_record-shape t major minor len r_sz front back slack rest five_slack =
    rw
      (
        sym (append_assoc hd front (back ++ (slack ++ rest))),
        memmove_up (hd ++ front) back slack rest (5 + length front + 5) (5 + length front)
            (5 + length front + length back - (5 + length front)) five_slack (omega arith)
            (omega arith) (omega arith),
        over.shape,
      )
      (stamp_header t major minor len (length front) (r_sz - length front) over.a over.b over.c
        over.d over.e front (back ++ rest) refl)
  where
    hd : List ℕ
    hd = header t major minor len

    over : record {
      a : ℕ;
      b : ℕ;
      c : ℕ;
      d : ℕ;
      e : ℕ;
      shape : take 5 (back ++ (slack ++ rest)) ≡ a ∷ b ∷ c ∷ d ∷ e ∷ [];
    }
    over = five (take 5 (back ++ (slack ++ rest))) (
        omega (
          arith,
          length-take 5 (back ++ (slack ++ rest)),
          length-append back (slack ++ rest),
          length-append slack rest,
        ))

-- Splitting a record inside its payload, with five bytes of room behind the message: `part_tls`
-- returns 5 and leaves two records with the type and version of the one, whose lengths add up to
-- its length and whose payloads are its payload, cut at `pos`; what stands behind is kept.
pub part_tls-shape :
    (t major minor len bsize : ℕ) (front back slack rest : List ℕ)
    → length slack ≡ 5
    → len < 65536
    → length front ≤ len
    → 5 + length front + length back + 5 ≤ bsize
    → bsize < 2 ^ 63
    → part_tls
        (header t major minor len ++ (front ++ (back ++ (slack ++ rest))))
        bsize
        (pos (5 + length front + length back))
        (pos (length front))
      ≡ some (record {
        ret = 5;
        out =
            header t major minor (length front)
            ++ (front ++ (header t major minor (len - length front) ++ (back ++ rest)));
      })
unfolding part_tls
part_tls-shape t major minor len bsize front back slack rest hs hl hf room small =
    rw read (ground (arith, cut_record-shape t major minor len len front back slack rest hs))
  where
    read :
        antohs_u16 (header t major minor len ++ (front ++ (back ++ (slack ++ rest)))) 3 ≡ some len
    read = ground (
      arith,
      antohs_u16_at (t ∷ major ∷ minor ∷ []) (front ++ (back ++ (slack ++ rest))) (len / 256 % 256)
          (len % 256) 3,
    )
