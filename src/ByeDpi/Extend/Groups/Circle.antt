-- ===== src/ByeDpi/Extend/Groups/Circle.antt =====
-- The search for a group goes round the groups and ends.
use mathlib.Core.Path.{subst}
use zon_dpi.Prelude.{
  ℕ, zero, suc, ◌+◌, ◌-◌, ◌*◌, ◌==◌, not, ◌≡◌, ◌≤◌, ◌<◌, ◌⊎◌, refl, sym, ap, ◌∙◌, Bool, true, false,
  Bool-cases, inl, inr, Option, none, some, List, [], ◌∷◌, length, length-set, get_elem?, get_or,
  set, arith, if◌then◌else◌,
}
use zon_dpi.Prelude.Int.{ℤ, pos, negsuc, pos_part, neg_part}
use zon_dpi.Bytes.{◌>>=◌}
use zon_dpi.Bytes.Laws.{get_elem?-some, some_eq}
use zon_dpi.Bytes.Chains.{Has, then_has, has, choose}
use zon_dpi.ByeDpi.Http.Bounds.{is_http-total, parse_http-EndsIn}
use zon_dpi.ByeDpi.Tls.Hello.Safety.{is_tls_chello-total, parse_tls-InBuffer}
use zon_dpi.ByeDpi.Mpool.Store.{Kavl, Mphdr}
use zon_dpi.ByeDpi.Proxy.{Sockaddr}
use zon_dpi.ByeDpi.Proxy.Address.{host_bytes}
use zon_dpi.ByeDpi.Proxy.Address.Laws.{bytes-some}
use zon_dpi.ByeDpi.Extend.Masks.{get_or-set_self, Grown, set-Grown}
use zon_dpi.ByeDpi.Extend.Groups.{
  Group, message_of, only_ipv4, check_proto_tcp, or_test, host_in, check_host, proto_fits,
  hosts_fit, suits, all_set, find_loop, find_dp,
}

all_set-of_bits :
    {V : Type 0} (K : Kavl V) (mask : List Bool)
    → ((i : ℕ) → i < length mask → get_or mask i false ≡ true)
    → all_set K mask ≡ true
all_set-of_bits K [] h = refl
all_set-of_bits K (b ∷ bs) h =
    rw (h 0 (omega arith)) (all_set-of_bits K bs (λ i lt. h (suc i) (omega arith)))

-- The bytes of a message are there.
abbrev pub IsMessage : Option (List ℕ × ℕ) → Type 0
IsMessage none = Unit {0}
IsMessage (some (buff, n)) = n ≤ length buff

or_test_has :
    (on : Bool) (test rest : Option Bool) → Has test → Has rest → Has (or_test on test rest)
or_test_has on test rest t r =
    choose on _ _ (λ e. then_has test _ t λ b. choose b _ _ (λ e. has true) (λ e. r)) (λ e. r)

check_proto_tcp_has :
    (proto : ℕ) (buff : List ℕ) (n : ℕ) → n ≤ length buff → Has (check_proto_tcp proto buff n)
unfolding check_proto_tcp
check_proto_tcp_has proto buff n fits =
    choose (only_ipv4 proto) _ _ (λ e. has true)
      λ e.
        or_test_has _ _ _ (is_http-total buff n fits)
          (or_test_has _ _ _ (is_tls_chello-total buff n fits) (has false))

pub place-below {ℓ} :
    {A : Type ℓ} (xs : List A) (i : ℕ) (x : A) → get_elem? xs i ≡ some x → i < length xs
place-below [] i x e = absurd (grind arith)
place-below (y ∷ ys) zero x e = omega arith
place-below (y ∷ ys) (suc i) x e = omega (arith, place-below ys i x e)

-- `d` turns and the fuel after them.
more : ℕ → ℕ → ℕ
more zero fuel = fuel
more (suc d) fuel = suc (more d fuel)

more-sum : (d fuel : ℕ) → more d fuel ≡ d + fuel
unfolding more
more-sum zero fuel = omega arith
more-sum (suc d) fuel = omega (arith, more-sum d fuel)

either : (b : Bool) (n : ℕ) → (if b then n else n) ≡ n
either true n = refl
either false n = refl

module _ {V : Type 0} (K : Kavl V) where
  host_in_has :
      (hosts : Mphdr K) (buff : List ℕ) (r : ℤ) (o : Option ℕ)
      → ((k : ℕ) → r ≡ pos k → (k ≡ 0) ⊎ Has (host_bytes buff o k))
      → Has (host_in K hosts buff r o)
  unfolding host_in
  host_in_has hosts buff (negsuc n) o h = has false
  host_in_has hosts buff (pos n) o h =
      choose (n == 0) _ _ (λ e. has false)
        λ e. elim (h n refl) [ inl z ↦ absurd (ground arith) | inr b ↦ then_has _ _ b λ bs. has _ ]

  check_host_has :
      (hosts : Mphdr K) (buff : List ℕ) (n : ℕ) → n ≤ length buff → Has (check_host K hosts buff n)
  unfolding check_host
  check_host_has hosts buff n fits =
      let (t, et, inside) = parse_tls-InBuffer buff n fits in
      let (r, er, ends) = parse_http-EndsIn false buff n fits in
      rw et (
        choose (not (t.ret == 0)) _ _
          (λ e. host_in_has hosts buff (pos t.ret) t.hs (λ k at. elim inside [
            | inl (z, no_name) ↦ inl (sym (ap pos_part at) ∙ z)
            | inr (i, name, lo, hi) ↦ rw name (
                let (bs, eb, l) = bytes-some buff i k (omega (arith, ap pos_part at)) in
                inr (bs, eb))
          ]))
          (λ e. rw er (
            host_in_has hosts buff r.ret r.hs (λ k at. elim ends [
              | inl (no_name, z) ↦ inl (ap pos_part (sym at ∙ z))
              | inr (i, name, lo, hi) ↦ rw name (
                  let (bs, eb, l) =
                    bytes-some buff i k (omega (arith, ap pos_part at, ap neg_part at)) in
                  inr (bs, eb))
            ]))))

  proto_fits_has : (p : ℕ) (m : Option (List ℕ × ℕ)) → IsMessage m → Has (proto_fits K p m)
  proto_fits_has p none ok = has true
  proto_fits_has p (some (buff, n)) ok =
      choose (p == 0) _ _ (λ e. has true) λ e. check_proto_tcp_has p buff n ok

  hosts_fit_has :
      (h : Option (Mphdr K)) (m : Option (List ℕ × ℕ)) → IsMessage m → Has (hosts_fit K h m)
  hosts_fit_has none m ok = has true
  hosts_fit_has (some h) none ok = has true
  hosts_fit_has (some h) (some (buff, n)) ok = check_host_has h buff n ok

  suits_has :
      (g : Group K) (first : Bool) (mask : List Bool) (detect : ℕ) (m : Option (List ℕ × ℕ))
      (dst : Sockaddr)
      → IsMessage m
      → Has (suits K g first mask detect m dst)
  unfolding suits
  suits_has g first mask detect m dst ok =
      choose _ _ _ (λ e. has false)
        λ e.
          then_has _ _ (proto_fits_has g.proto m ok)
            λ p. choose p _ _ (λ e. hosts_fit_has g.hosts m ok) (λ e. has false)

  module _ (groups : List (Group K)) (init detect : ℕ) (m : Option (List ℕ × ℕ))
      (dst : Sockaddr) where
    -- The search returns at the place `at` and the mask `mask`: without a group when all bits are
    -- set, or with one that suits.
    abbrev Chosen : Option ℕ → List Bool → Type 0
    Chosen none mask = all_set K mask ≡ true
    Chosen (some at) mask =
        (g : Group K) × (get_elem? groups at ≡ some g)
        × (suits K g (at == init) mask detect m dst ≡ some true)

    abbrev pub Ends : Option (Option ℕ × List Bool) → List Bool → Type 0
    Ends run mask =
        (o : Option ℕ) × (mask' : List Bool) × (run ≡ some (o, mask'))
        × Chosen o mask'
        × Grown mask mask'

    loop-full :
        (fuel at : ℕ) (mask : List Bool)
        → all_set K mask ≡ true
        → find_loop K (suc fuel) groups init detect m dst at mask ≡ some (none, mask)
    unfolding find_loop
    loop-full fuel at mask full = rw full refl

    loop-step :
        (fuel at : ℕ) (mask : List Bool) (g : Group K) (b : Bool)
        → (at == length groups) ≡ false
        → all_set K mask ≡ false
        → get_elem? groups at ≡ some g
        → suits K g (at == init) mask detect m dst ≡ some b
        → find_loop K (suc fuel) groups init detect m dst at mask ≡ (
            if b
            then some (some at, mask)
            else find_loop K fuel groups init detect m dst (at + 1) (set mask g.id true))
    unfolding find_loop
    loop-step fuel at mask g b here part eg eb = rw (here, part, eg, eb) refl

    loop-round :
        (fuel : ℕ) (mask : List Bool)
        → find_loop K fuel groups init detect m dst (length groups) mask
          ≡ find_loop K fuel groups init detect m dst 0 mask
    unfolding find_loop
    loop-round zero mask = refl
    loop-round (suc fuel) mask =
        let turn : ℕ → Option (Option ℕ × List Bool) = λ here.
          if all_set K mask
          then some (none, mask)
          else (get_elem? groups here >>= λ dp.
              suits K dp (here == init) mask detect m dst >>= λ fits.
              if fits
              then some (some here, mask)
              else find_loop K fuel groups init detect m dst (here + 1) (set mask dp.id true)) in
        ap (λ end. turn (if end then 0 else length groups)) {x = length groups == length groups}
          {y = true} (ground arith)
        ∙ sym (ap turn (either (0 == length groups) 0))

    -- What a lap from `at` to the end leaves.
    abbrev pub Lap : Option (Option ℕ × List Bool) → ℕ → ℕ → List Bool → Type 0
    Lap run at fuel mask =
        Ends run mask
        ⊎ ((mask' : List Bool) × (run
              ≡ find_loop K fuel groups init detect m dst (length groups) mask')
            × (length mask' ≡ length mask)
            × Grown mask mask'
            × ((k : ℕ) (g : Group K)
                → at ≤ k
                → get_elem? groups k ≡ some g
                → g.id < length mask
                → get_or mask' g.id false ≡ true))

    module _ (ok : IsMessage m) where
      lap :
          (d fuel at : ℕ) (mask : List Bool)
          → at + d ≡ length groups
          → Lap (find_loop K (more d fuel) groups init detect m dst at mask) at fuel mask
      unfolding more
      lap zero fuel at mask e = inr (
        mask,
        ap (λ i. find_loop K fuel groups init detect m dst i mask) {y = length groups}
            (omega arith),
        refl,
        λ i b. b,
        λ k g le eg lt. absurd (omega (arith, place-below groups k g eg)),
      )
      lap (suc d) fuel at mask e =
          let (g, eg) = get_elem?-some groups at (omega arith) in
          let (b, eb) = suits_has g (at == init) mask detect m dst ok in
          let here : (at == length groups) ≡ false = ground arith in
          elim (Bool-cases (all_set K mask)) [
            | inl full ↦ inl (none, mask, loop-full (more d fuel) at mask full, full, λ i b. b)
            | inr part ↦
                let run = loop-step (more d fuel) at mask g b here part eg eb in
                elim (Bool-cases b) [
                  | inl fits ↦
                      inl (some at, mask, (rw fits at run), (g, eg, (rw fits at eb)), λ i b. b)
                  | inr unfit ↦
                      let run' = rw unfit at run in
                      elim (lap d fuel (at + 1) (set mask g.id true) (omega arith)) [
                        | inl (o, mask', back, good, grown) ↦ inl (
                          o,
                          mask',
                          run' ∙ back,
                          good,
                          λ i bit. grown i (set-Grown mask g.id i bit),
                        )
                        | inr (mask', back, size, grown, bits) ↦ inr (
                          mask',
                          run' ∙ back,
                          size ∙ length-set mask g.id true,
                          (λ i bit. grown i (set-Grown mask g.id i bit)),
                          λ k h le eh lt. elim (Bool-cases (k == at)) [
                            | inl here' ↦
                                let same =
                                  some_eq g h
                                    (sym eg ∙ ap (get_elem? groups) {y = k} (ground arith) ∙ eh) in
                                grown h.id (
                                  ap (λ x. get_or (set mask x.id true) h.id false) {x = g} {y = h}
                                    same
                                  ∙ get_or-set_self mask h.id lt)
                            | inr later ↦
                                bits k h (ground arith) eh
                                  (omega (arith, length-set mask g.id true))
                          ],
                        )
                      ]
                ]
          ]

      second_lap :
          (fuel : ℕ) (mask : List Bool)
          → length groups < fuel
          → ((i : ℕ)
              → i < length mask
              → (k : ℕ) × (g : Group K) × (get_elem? groups k ≡ some g) × (g.id ≡ i))
          → Ends (find_loop K fuel groups init detect m dst 0 mask) mask
      second_lap fuel mask enough ids =
          let left = fuel - length groups - 1 in
          let all_ : more (length groups) (suc left) ≡ fuel =
            omega (arith, more-sum (length groups) (suc left)) in
          elim (lap (length groups) (suc left) 0 mask (omega arith)) [
            | inl ends ↦
                subst (λ n. Ends (find_loop K n groups init detect m dst 0 mask) mask) all_ ends
            | inr (mask', run, size, grown, bits) ↦
                let full : all_set K mask' ≡ true = all_set-of_bits K mask' λ i lt.
                  let (k, g, eg, same) = ids i (omega (arith, size)) in
                  subst (λ j. get_or mask' j false ≡ true) same
                    (bits k g (omega arith) eg (omega (arith, same, size))) in
                (
                  none,
                  mask',
                  ap (λ n. find_loop K n groups init detect m dst 0 mask) (sym all_)
                      ∙ run
                      ∙ loop-full left (length groups) mask' full,
                  full,
                  grown,
                )
          ]

      find_loop-Ends :
          (fuel : ℕ) (mask : List Bool)
          → init < length groups
          → 2 * length groups < fuel
          → ((i : ℕ)
              → i < length mask
              → (k : ℕ) × (g : Group K) × (get_elem? groups k ≡ some g) × (g.id ≡ i))
          → Ends (find_loop K fuel groups init detect m dst init mask) mask
      find_loop-Ends fuel mask starts enough ids =
          let d = length groups - init in
          let all_ : more d (fuel - d) ≡ fuel = omega (arith, more-sum d (fuel - d)) in
          subst (λ n. Ends (find_loop K n groups init detect m dst init mask) mask) all_
            (elim (lap d (fuel - d) init mask (omega arith)) [
              | inl ends ↦ ends
              | inr (mask', run, size, grown, bits) ↦
                  let (o, mask'', back, good, grown') =
                    second_lap (fuel - d) mask' (omega arith)
                      (λ i lt. ids i (omega (arith, size))) in
                  (
                    o,
                    mask'',
                    run ∙ loop-round (fuel - d) mask' ∙ back,
                    good,
                    λ i bit. grown' i (grown i bit),
                  )
            ])

  -- The message and its length are those of the arguments or, without them, of the client's
  -- buffer, and its bytes are there; `dp` is a place of a group; every bit of the mask is the bit of
  -- a group; the fuel is for two laps. Then `find_dp` returns, either without a group when every
  -- bit of the mask is set, or with a group that passes all its tests with the mask as it is
  -- then. A bit that was set before stays set.
  pub find_dp-Ends :
      (fuel : ℕ) (groups : List (Group K)) (dp detect : ℕ) (buffered m : Option (List ℕ × ℕ))
      (dst : Sockaddr) (mask : List Bool)
      → IsMessage (message_of K m buffered)
      → dp < length groups
      → 2 * length groups < fuel
      → ((i : ℕ)
          → i < length mask
          → (k : ℕ) × (g : Group K) × (get_elem? groups k ≡ some g) × (g.id ≡ i))
      → Ends groups dp detect
          (message_of K m buffered)
          dst
          (find_dp K fuel groups dp detect buffered m dst mask)
          mask
  unfolding find_dp
  find_dp-Ends fuel groups dp detect buffered m dst mask ok =
      find_loop-Ends groups dp detect (message_of K m buffered) dst ok fuel mask
