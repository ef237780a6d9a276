-- ===== src/ByeDpi/Tls/Records/Merge.antt =====
-- `merge_tls_records` on a message of two records.
use mathlib.Core.List.{append_assoc}
use zon_dpi.Prelude.{
  ℕ, suc, ◌+◌, ◌-◌, ◌/◌, ◌%◌, ◌≤◌, ◌<◌, ◌≡◌, ◌≢◌, refl, ap, ◌∙◌, sym, some, List, [], ◌∷◌, ◌++◌,
  length, length-append, arith, get_elem?, length-drop,
}
use zon_dpi.Bytes.{antohs_u16}
use zon_dpi.Bytes.Laws.{
  antohs_u16_at, shtona_at, get_elem?-some, get_elem?-append_right, get_elem?-append_left,
}
use zon_dpi.ByeDpi.Tls.Records.{merge_loop, finish_merge, merge_tls_records}
use zon_dpi.ByeDpi.Tls.Records.Split.{header}
use zon_dpi.ByeDpi.Tls.Records.Rounds.{
  two_records, leftover, one_record, join_step, second_mark, second_length, merge_loop-stop,
  merge_loop-join,
}

-- A message with the length `len` in its third and fourth byte.
abbrev pub handshake : ℕ → ℕ → ℕ → List ℕ → List ℕ
handshake m0 m1 len more = m0 ∷ m1 ∷ len / 256 % 256 ∷ len % 256 ∷ more

one_record-opening :
    (t major minor : ℕ) (front back rest : List ℕ)
    → one_record t major minor front back rest
      ≡ header t major minor (length front)
        ++ ((front ++ back) ++ (leftover t major minor back ++ rest))
one_record-opening t major minor front back rest =
    ap (λ l. header t major minor (length front) ++ l)
      (sym (append_assoc front back (leftover t major minor back ++ rest)))

-- The lengths of the joined record are written over those of its first part and of the message,
-- whatever these are.
finish_merge-one_record :
    (t major minor m0 m1 x y : ℕ) (front back rest more : List ℕ)
    → front ++ back ≡ m0 ∷ m1 ∷ x ∷ y ∷ more
    → finish_merge (record {
      joined = one_record t major minor front back rest;
      full_sz = length front + length back;
      count = 1;
    })
      ≡ record {
        ret = 5;
        out =
            header t major minor (length front + length back)
            ++ (handshake m0 m1 (length front + length back - 4) more
                ++ (leftover t major minor back ++ rest));
      }
unfolding finish_merge
finish_merge-one_record t major minor m0 m1 x y front back rest more shape =
    let n = length front + length back in
    let tail = leftover t major minor back ++ rest in
    let some_ : 4 ≤ n = omega (arith, ap length shape, length-append front back) in
    let high : (n + 65536 - 4) / 256 % 256 ≡ (n - 4) / 256 % 256 = omega arith in
    let low : (n + 65536 - 4) % 256 ≡ (n - 4) % 256 = omega arith in
    rw (
      one_record-opening t major minor front back rest,
      shape,
      shtona_at (t ∷ major ∷ minor ∷ []) ((m0 ∷ m1 ∷ x ∷ y ∷ more) ++ tail)
          (length front / 256 % 256) (length front % 256) n 3 refl,
      shtona_at (header t major minor n ++ (m0 ∷ m1 ∷ [])) (more ++ tail) x y (n + 65536 - 4) 7
          refl,
      high,
      low,
    )

-- Joining two records of one type and version, whose payloads make up four bytes or more, gives one
-- record with the joined payload and its length, and returns 5. The length of the handshake message
-- in the payload is written too, whatever stood there: it is that of the payload less four. The
-- message must not have, five bytes before its end, a byte that is the type of the records, as it
-- would be taken for a further one; behind the joined record these five bytes are left as they were.
pub merge_tls_records-two_records :
    (t major minor m0 m1 x y fuel : ℕ) (front back rest more : List ℕ)
    → front ++ back ≡ m0 ∷ m1 ∷ x ∷ y ∷ more
    → 10 + (length front + length back) < 65536
    → get_elem? (leftover t major minor back) 0 ≢ some t
    → merge_tls_records
        (suc (suc fuel))
        (two_records t major minor front back rest)
        (10 + (length front + length back))
      ≡ some (record {
        ret = 5;
        out =
            header t major minor (length front + length back)
            ++ (handshake m0 m1 (length front + length back - 4) more
                ++ (leftover t major minor back ++ rest));
      })
unfolding merge_tls_records
merge_tls_records-two_records t major minor m0 m1 x y fuel front back rest more shape small other =
    ground (
      arith,
      first_length,
      loops,
      finish_merge-one_record t major minor m0 m1 x y front back rest more shape,
    )
  where
    n : ℕ
    n = length front + length back

    tail : List ℕ
    tail = leftover t major minor back

    five_left : length tail ≡ 5
    five_left =
        omega (arith, length-drop (length back) (header t major minor (length back) ++ back))

    first_length : antohs_u16 (two_records t major minor front back rest) 3 ≡ some (length front)
    first_length = ground (
      arith,
      antohs_u16_at (t ∷ major ∷ minor ∷ [])
          (front ++ (header t major minor (length back) ++ (back ++ rest)))
          (length front / 256 % 256) (length front % 256) 3,
    )

    opening : List ℕ
    opening = header t major minor (length front) ++ (front ++ back)

    stale : (get_elem? (one_record t major minor front back rest) (5 + n) ≡ get_elem? tail 0)
    stale = rw (one_record-opening t major minor front back rest) (
        get_elem?-append_right opening (tail ++ rest) 0 (5 + n)
          (omega (arith, length-append front back))
        ∙ get_elem?-append_left tail rest 0 (omega (arith, five_left)))

    second :
        merge_loop
          (suc fuel)
          (one_record t major minor front back rest)
          (10 + n)
          (length front)
          (length back)
          1
        ≡ some
            (record { joined = one_record t major minor front back rest; full_sz = n; count = 1 })
    second =
        let (x, e) = get_elem?-some tail 0 (omega (arith, five_left)) in
        merge_loop-stop fuel (one_record t major minor front back rest) (10 + n) (length front)
          (length back) 1 n x t (omega arith) (omega arith) (stale ∙ e) refl
          (λ same. other (e ∙ ap some same))

    loops :
        merge_loop
          (suc (suc fuel))
          (two_records t major minor front back rest)
          (10 + n)
          0
          (length front)
          0
        ≡ some
            (record { joined = one_record t major minor front back rest; full_sz = n; count = 1 })
    loops =
        merge_loop-join (suc fuel) (two_records t major minor front back rest) (10 + n) 0
          (length front) 0 (length front) t (length back) (omega arith) (omega arith)
          (second_mark t major minor front back rest) refl
          (second_length t major minor front back rest (omega arith))
        ∙ rw (join_step t major minor front back rest) second
