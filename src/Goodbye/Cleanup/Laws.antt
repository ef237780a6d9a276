-- ===== src/Goodbye/Cleanup/Laws.antt =====
-- What a clean-up keeps and what it removes.
use zon_dpi.Prelude.{
  ℕ, ◌+◌, ◌≤◌, ◌<◌, ◌≡◌, Bool-cases, inl, inr, true, false, none, some, ◌==◌, leb, arith,
}
use zon_dpi.Goodbye.Table.{Key, Table}
use zon_dpi.Goodbye.Cleanup.{Tracker, is_recent, cleanup}

module _ {V : Type 0} (H : Table V) (time_of : V → ℕ) (interval now : ℕ) (k : Key) where
  -- A record younger than the interval stays.
  pub cleanup-kept :
      (c : V) (s : Tracker H.T)
      → H.find k s.conntrack ≡ some c
      → now < time_of c + interval
      → H.find k (cleanup H time_of interval now s).conntrack ≡ some c
  unfolding cleanup
  cleanup-kept c s h young =
      let recent : is_recent time_of interval now c ≡ true = ground arith in
      let r = H.find-retain_kept (is_recent time_of interval now) k c s.conntrack h in
      elim (Bool-cases (s.last_cleanup == 0)) [
        | inl e ↦ rw e h
        | inr e ↦ elim (Bool-cases (leb (s.last_cleanup + interval) now)) [
          | inl q ↦ rw (e, q, r, recent)
          | inr q ↦ rw (e, q) h
        ]
      ]

  -- No record appears.
  pub cleanup-none :
      (s : Tracker H.T)
      → H.find k s.conntrack ≡ none
      → H.find k (cleanup H time_of interval now s).conntrack ≡ none
  unfolding cleanup
  cleanup-none s h =
      let r = H.find-retain_none (is_recent time_of interval now) k s.conntrack h in
      elim (Bool-cases (s.last_cleanup == 0)) [
        | inl e ↦ rw e h
        | inr e ↦ elim (Bool-cases (leb (s.last_cleanup + interval) now)) [
          | inl q ↦ rw (e, q, r)
          | inr q ↦ rw (e, q) h
        ]
      ]

  -- When a clean-up is due, an old record goes.
  pub cleanup-expired :
      (c : V) (s : Tracker H.T)
      → H.find k s.conntrack ≡ some c
      → 0 < s.last_cleanup
      → s.last_cleanup + interval ≤ now
      → time_of c + interval ≤ now
      → H.find k (cleanup H time_of interval now s).conntrack ≡ none
  unfolding cleanup
  cleanup-expired c s h set due old =
      let gone : is_recent time_of interval now c ≡ false = ground arith in
      let r = H.find-retain_kept (is_recent time_of interval now) k c s.conntrack h in
      let e : (s.last_cleanup == 0) ≡ false = ground arith in
      let q : leb (s.last_cleanup + interval) now ≡ true = ground arith in rw (e, q, r, gone)
