-- ===== src/ByeDpi/Extend/Tracker/Streams.antt =====
-- Following a stream of whole TLS records.
use zon_dpi.Prelude.{
  ℕ, suc, ◌+◌, ◌*◌, ◌==◌, ==_iff, ◌||◌, ◌≡◌, ◌≤◌, ◌<◌, ◌⊎◌, refl, ap, ◌∙◌, leb, true, false, inl,
  inr, some, List, [], ◌∷◌, ◌++◌, length, length-append, arith,
}
use zon_dpi.Prelude.Int.{pos}
use zon_dpi.Bytes.Laws.{drop-append}
use zon_dpi.ByeDpi.Conev.{Pool}
use zon_dpi.ByeDpi.Conev.Timers.Order.{remove}
use zon_dpi.ByeDpi.Conev.Timers.Queue.{IsQueue}
use zon_dpi.ByeDpi.Extend.Tracker.{Track, record_size, bad_type, Timed, try_set_tls_timer}
use zon_dpi.ByeDpi.Extend.Tracker.Steps.{placed, step, steps, step-first, step-begun, steps-skip}
use zon_dpi.ByeDpi.Extend.Tracker.Timer.{try_set_tls_timer-IsQueue}

-- A record of TLS, and its bytes.
pub record Rec : Type 0 where
  pub kind : ℕ
  pub major : ℕ
  pub minor : ℕ
  pub hi : ℕ
  pub lo : ℕ
  pub payload : List ℕ

abbrev pub header : Rec → List ℕ
header r = r.kind ∷ r.major ∷ r.minor ∷ r.hi ∷ r.lo ∷ []

abbrev pub IsRec : Rec → Type 0
IsRec r =
    (20 ≤ r.kind) × (r.kind ≤ 24) × (length r.payload ≡ r.hi * 256 + r.lo) × (0 < length r.payload)

-- The bytes of records, one behind the other.
abbrev pub encode : List Rec → List ℕ
encode [] = []
encode (r ∷ rs) = header r ++ (r.payload ++ encode rs)

abbrev pub AllRec : List Rec → Type 0
AllRec [] = Unit {0}
AllRec (r ∷ rs) = IsRec r × AllRec rs

-- Before the first record, or behind a whole one.
abbrev pub IsIdle : Track → Type 0
IsIdle t = (length t.tls_rec ≡ 5) × ((t.at ≡ 0) ⊎ ((5 < t.at) × (t.at ≡ t.size)))

abbrev done : Rec → Track
done r = record { tls_rec = header r; at = length r.payload + 5; size = length r.payload + 5 }

-- Behind the header of `r`.
abbrev headed : Rec → ℕ → Track
headed r size = record { tls_rec = header r; at = 5; size = size }

payload-steps :
    (r : Rec) (size : ℕ) (ps rest : List ℕ)
    → 20 ≤ r.kind
    → r.kind ≤ 24
    → length ps ≡ r.hi * 256 + r.lo
    → 0 < length ps
    → steps (headed r size) (ps ++ rest)
      ≡ steps (record { tls_rec = header r; at = length ps + 5; size = length ps + 5 }) rest
unfolding steps
payload-steps r size [] rest low high e some_ = absurd (omega arith)
payload-steps r size (b ∷ ps) rest low high e some_ =
    let t = headed r size in
    let n : record_size t ≡ suc (length ps) + 5 = omega (arith, e) in
    let good : (bad_type t || leb (record_size t) 5) ≡ false = ground arith in
    let fits : length ps ≤ length (ps ++ rest) = omega (arith, length-append ps rest) in
    rw (step-first t b refl good) (
      steps-skip (length ps) (ps ++ rest) (record t { size = record_size t }) 6 (omega arith)
        (omega arith) fits
      ∙ ap (λ l. steps (record t { size = record_size t; at = 6 + length ps }) l)
          (drop-append ps rest 0 (length ps) (omega arith))
      ∙ ap (λ s. steps (record { tls_rec = header r; at = 6 + length ps; size = s }) rest) n
      ∙ ap (λ a. steps (record { tls_rec = header r; at = a; size = suc (length ps) + 5 }) rest)
          {x = 6 + length ps} {y = suc (length ps) + 5} (omega arith))

-- Any five bytes of `tls_rec` are written over by a header.
five :
    (l : List ℕ)
    → length l ≡ 5
    → (a : ℕ) × (b : ℕ) × (c : ℕ) × (d : ℕ) × (e : ℕ) × (l ≡ a ∷ b ∷ c ∷ d ∷ e ∷ [])
five [] n = absurd (omega arith)
five (a ∷ []) n = absurd (omega arith)
five (a ∷ b ∷ []) n = absurd (omega arith)
five (a ∷ b ∷ c ∷ []) n = absurd (omega arith)
five (a ∷ b ∷ c ∷ d ∷ []) n = absurd (omega arith)
five (a ∷ b ∷ c ∷ d ∷ e ∷ []) n = (a, b, c, d, e, refl)
five (a ∷ b ∷ c ∷ d ∷ e ∷ f ∷ l) n = absurd (omega arith)

header-steps :
    (l : List ℕ) (size : ℕ) (r : Rec) (rest : List ℕ)
    → length l ≡ 5
    → steps (record { tls_rec = l; at = 0; size = size }) (header r ++ rest)
      ≡ steps (headed r size) rest
unfolding steps step
header-steps l size r rest n = let (a, b, c, d, e, k) = five l n in rw k refl

record-steps :
    (r : Rec) (t : Track) (rest : List ℕ)
    → IsRec r
    → IsIdle t
    → steps t (header r ++ (r.payload ++ rest)) ≡ steps (done r) rest
unfolding steps
record-steps r t rest (low, high, n, some_) (five_, inl start) =
    ap (λ a. steps (placed t a) (header r ++ (r.payload ++ rest))) start
    ∙ header-steps t.tls_rec t.size r (r.payload ++ rest) five_
    ∙ payload-steps r t.size r.payload rest low high n some_
record-steps r t rest (low, high, n, some_) (five_, inr (behind, whole)) =
    rw (step-begun t r.kind behind whole) (
      header-steps t.tls_rec 0 r (r.payload ++ rest) five_
      ∙ payload-steps r 0 r.payload rest low high n some_)

done-IsIdle : (r : Rec) → IsRec r → IsIdle (done r)
done-IsIdle r (low, high, n, some_) = (refl, inr (omega arith, refl))

records-steps :
    (r : Rec) (rs : List Rec) (t : Track)
    → AllRec (r ∷ rs)
    → IsIdle t
    → (s : Track) × (steps t (encode (r ∷ rs)) ≡ some s) × IsIdle s × (s.at ≡ s.size)
unfolding steps
records-steps r [] t (ok, oks) idle = (done r, record-steps r t [] ok idle, done-IsIdle r ok, refl)
records-steps r (q ∷ qs) t (ok, oks) idle =
    let (s, e, still, whole) = records-steps q qs (done r) oks (done-IsIdle r ok) in
    (s, record-steps r t (encode (q ∷ qs)) ok idle ∙ e, still, whole)

-- With the limit on bytes off and a timeout set, a chunk of whole records, all of a known type and
-- none empty, that begins where a record begins, is followed to its end and leaves the timer of the
-- connection off.
pub try_set_tls_timer-records :
    (turns_ fuel now x ptimeout recv_count : ℕ) (t : Track) (r : Rec) (rs : List Rec) (p : Pool)
    (xs : List ℕ)
    → IsQueue p xs
    → AllRec (r ∷ rs)
    → IsIdle t
    → 0 < ptimeout
    → 2 * length (encode (r ∷ rs)) < turns_
    → length xs < fuel
    → (d : Timed) × (try_set_tls_timer turns_ fuel now x 0 ptimeout recv_count t (encode (r ∷ rs)) p
        ≡ some d)
      × (d.ret ≡ pos 0)
      × IsIdle d.rec_left
      × IsQueue d.pool (remove x xs)
try_set_tls_timer-records turns_ fuel now x ptimeout recv_count t r rs p xs q ok idle on enough
      fuel_enough =
    let (s, e, still, whole) = records-steps r rs t ok idle in
    let (d, run, ret, at, q') =
      try_set_tls_timer-IsQueue turns_ fuel now x 0 ptimeout recv_count t s (encode (r ∷ rs)) p xs q
        (inl refl) on (omega arith) enough fuel_enough e in
    let ended : (s.at == s.size) ≡ true = (==_iff s.at s.size).1 whole in
    (d, run, ret, rw at still, (rw ended at q'))
