-- ===== src/ByeDpi/Extend/Groups/Hosts.antt =====
-- The messages that `check_host` accepts.
use mathlib.Core.Path.{subst}
use zon_dpi.Prelude.{
  ℕ, ◌+◌, ◌==◌, leb, leb→le, ◌≡◌, ◌⊎◌, refl, sym, ap, ◌∙◌, true, false, Bool-cases, Option-cases,
  inl, inr, Option, none, some, List, take, drop, length, length-take, length-drop, arith,
}
use zon_dpi.Prelude.Int.{ℤ, pos, negsuc, pos_part}
use zon_dpi.Bytes.Laws.{some_eq}
use zon_dpi.ByeDpi.Http.{Request, parse_http}
use zon_dpi.ByeDpi.Tls.Hello.{Parsed, parse_tls}
use zon_dpi.ByeDpi.Mpool.{scmp, cmp_host, host_cmp}
use zon_dpi.ByeDpi.Mpool.Hosts.{name, Below, Below-length, host_cmp-Related}
use zon_dpi.ByeDpi.Mpool.Store.{Entry, Kavl, Mphdr, mem_get}
use zon_dpi.ByeDpi.Proxy.{bytes}
use zon_dpi.ByeDpi.Proxy.Address.{host_bytes}
use zon_dpi.ByeDpi.Extend.Groups.{host_in, check_host, covers}

-- `h` is the name that the parsers find in a message.
abbrev pub Named : List ℕ → ℕ → List ℕ → Type 0
Named buffer n h =
    ((t : Parsed) × (parse_tls buffer n ≡ some t) × (host_bytes buffer t.hs t.ret ≡ some h))
    ⊎ ((r : Request) × (k : ℕ) × (parse_http false buffer n ≡ some r)
        × (r.ret ≡ pos k)
        × (host_bytes buffer r.hs k ≡ some h))

no_host_bytes : (h : List ℕ) → ¬ (none ≡ some h)
no_host_bytes h e = absurd (grind arith)

no_answer : ¬ (none ≡ some true)
no_answer e = absurd (grind arith)

refused_bool : ¬ (false ≡ true)
refused_bool e = cc

bytes-length : (buf : List ℕ) (i n : ℕ) (h : List ℕ) → bytes buf i n ≡ some h → length h ≡ n
unfolding bytes
bytes-length buf i n h e = elim (Bool-cases (leb (i + n) (length buf))) [
  | inl fits ↦
      let e' = some_eq (take n (drop i buf)) h (rw fits at e) in
      omega (
        arith,
        ap length e',
        length-take n (drop i buf),
        length-drop i buf,
        leb→le (i + n) (length buf) fits,
      )
  | inr out ↦ absurd (no_host_bytes h (rw out at e))
]

host_bytes-length :
    (buf : List ℕ) (o : Option ℕ) (n : ℕ) (h : List ℕ) → host_bytes buf o n ≡ some h → length h ≡ n
host_bytes-length buf none n h e = absurd (grind arith)
host_bytes-length buf (some i) n h e = bytes-length buf i n h e

module _ {V : Type 0} (K : Kavl V) (hosts : Mphdr K) where
  -- The list is one of names, each a whole string.
  abbrev pub IsHostList : Type 0
  IsHostList =
      (hosts.cmp_type ≡ cmp_host)
      × ((k : List ℕ) (v : Entry V)
          → mem_get K hosts k (length k) ≡ some v
          → v.key ≡ name v.key.bytes)

  -- What stands in the list for the name `h`: the name itself or one above it.
  abbrev pub Listed : List ℕ → Type 0
  Listed h =
      (v : Entry V) × (mem_get K hosts h (length h) ≡ some v)
      × ((h ≡ v.key.bytes) ⊎ Below v.key.bytes h)

  covers-Listed :
      (h : List ℕ) (o : Option (Entry V))
      → IsHostList
      → mem_get K hosts h (length h) ≡ o
      → covers K (length h) o ≡ true
      → Listed h
  unfolding mem_get scmp
  covers-Listed h none ok e c = cc
  covers-Listed h (some v) ok e c =
      let whole = ok.1 h v e in
      let zero_ = K.find-some hosts.cmp_type hosts.root (name h) v e in
      let cmp : host_cmp (name h) (name v.key.bytes) ≡ some (pos 0) =
        subst (λ x. host_cmp (name h) x ≡ some (pos 0)) whole
          (subst (λ ct. scmp ct (name h) v.key ≡ some (pos 0)) ok.0 zero_) in
      let (k, run, iff) = host_cmp-Related h v.key.bytes in
      elim (iff.0 (some_eq k (pos 0) (sym run ∙ cmp))) [
        | inl same ↦ (v, e, inl same)
        | inr (inl b) ↦ (v, e, inr b)
        | inr (inr b) ↦ absurd (
            omega (
              arith,
              Below-length h v.key.bytes b,
              ap (λ x. x.len) whole,
              leb→le v.key.len (length h) c,
            ))
      ]

  host_in-Listed :
      (buffer : List ℕ) (r : ℤ) (o : Option ℕ)
      → IsHostList
      → host_in K hosts buffer r o ≡ some true
      → (k : ℕ) × (h : List ℕ) × (r ≡ pos k) × (host_bytes buffer o k ≡ some h) × Listed h
  unfolding host_in
  host_in-Listed buffer (negsuc n) o ok e = absurd (refused_bool (some_eq false true e))
  host_in-Listed buffer (pos n) o ok e = elim (Bool-cases (n == 0)) [
    | inl z ↦ absurd (refused_bool (some_eq false true (rw z at e)))
    | inr z ↦ elim (Option-cases (host_bytes buffer o n)) [
      | inl m ↦ absurd (no_answer (rw (z, m) at e))
      | inr (h, m) ↦
          let c = some_eq (covers K n (mem_get K hosts h n)) true (rw (z, m) at e) in
          let size = host_bytes-length buffer o n h m in
          (
            n,
            h,
            refl,
            m,
            covers-Listed h (mem_get K hosts h (length h)) ok refl
                (subst (λ l. covers K l (mem_get K hosts h l) ≡ true) (sym size) c),
          )
    ]
  ]

  -- `check_host` accepts a message only for a name that the parsers find in it and that stands in
  -- the list itself or is below one that does.
  pub check_host-Listed :
      (buffer : List ℕ) (n : ℕ)
      → IsHostList
      → check_host K hosts buffer n ≡ some true
      → (h : List ℕ) × Named buffer n h × Listed h
  unfolding check_host
  check_host-Listed buffer n ok e = elim (Option-cases (parse_tls buffer n)) [
    | inl m ↦ absurd (no_answer (rw m at e))
    | inr (t, m) ↦ elim (Bool-cases (t.ret == 0)) [
      | inr tls ↦
          let (k, h, at, b, l) = host_in-Listed buffer (pos t.ret) t.hs ok (rw (m, tls) at e) in
          (
            h,
            inl (t, m, subst (λ j. host_bytes buffer t.hs j ≡ some h) (sym (ap pos_part at)) b),
            l,
          )
      | inl plain ↦ elim (Option-cases (parse_http false buffer n)) [
        | inl m' ↦ absurd (no_answer (rw (m, plain, m') at e))
        | inr (r, m') ↦
            let (k, h, at, b, l) = host_in-Listed buffer r.ret r.hs ok (rw (m, plain, m') at e) in
            (h, inr (r, k, m', at, b), l)
      ]
    ]
  ]
