-- ===== src/Store/Ledger/Run.antt =====
-- reserve.go: how far an acknowledgement lets the commit cursor move.
use diskqueue.Base.{
  ℕ, ◌≤◌, ◌<◌, ◌≡◌, refl, sym, subst, ap, true, false, List, [], ◌∷◌, ◌++◌, arith, All, ◌&&◌, ◌==◌,
  Bool-cases, inl, inr,
}
use diskqueue.Store.State.{Reservation}
use diskqueue.Store.Ledger.{acked_run}

-- The ledger is in read order and its records do not overlap, from `b` on.
abbrev pub Ascending : ℕ → List Reservation → Type 0
Ascending b [] = Unit {0}
Ascending b (r ∷ rs) = (b ≤ r.start) × (r.start < r.end) × Ascending r.end rs

-- Acknowledged entries, record by record, from `at` to `to`.
abbrev pub Contiguous : ℕ → List Reservation → ℕ → Type 0
Contiguous at [] to = at ≡ to
Contiguous at (r ∷ rs) to = (r.acked ≡ true) × (r.start ≡ at) × Contiguous r.end rs to

-- The run cannot go on: the next entry is not acknowledged, or leaves a hole.
abbrev pub Blocked : ℕ → List Reservation → Type 0
Blocked at [] = Unit {0}
Blocked at (r ∷ rs) = ¬ ((r.acked ≡ true) × (r.start ≡ at))

continues :
    (at : ℕ) (r : Reservation) → r.acked ≡ true → r.start ≡ at → (r.acked && r.start == at) ≡ true
continues at r a e = ground arith

taken :
    (at : ℕ) (r : Reservation)
    → (r.acked && r.start == at) ≡ true
    → (r.acked ≡ true) × (r.start ≡ at)
taken at r e = ground arith

-- `ackedRunEnd` is the end of the longest unbroken run of acknowledged records at the cursor: the
-- ledger splits into that run, contiguous from the cursor, and a rest that cannot continue it.
pub acked_run_longest :
    (at : ℕ) (rs : List Reservation)
    → (run : List Reservation) × (rest : List Reservation) × (rs ≡ run ++ rest)
      × Contiguous at run (acked_run at rs)
      × Blocked (acked_run at rs) rest
unfolding acked_run
acked_run_longest at [] = ([], [], refl, refl, tt)
acked_run_longest at (r ∷ rs) = elim (Bool-cases (r.acked && r.start == at)) [
  | inr stops ↦ rw stops ([], r ∷ rs, refl, refl, λ both. cc (continues at r both.0 both.1))
  | inl more ↦
      let (run, rest, e, c, b) = acked_run_longest r.end rs in
      let (acked, starts) = taken at r more in
      rw more (r ∷ run, rest, ap (◌∷◌ r) e, (acked, starts, c), b)
]

starts_above :
    (c b : ℕ) (rs : List Reservation)
    → c ≤ b
    → Ascending b rs
    → All (λ r. r.acked ≡ false → c ≤ r.start) rs
starts_above c b [] h a = tt
starts_above c b (r ∷ rs) h a = (λ e. omega arith, starts_above c r.end rs (omega arith) a.2)

acked_run_on :
    (at : ℕ) (r : Reservation) (rs : List Reservation)
    → (r.acked && r.start == at) ≡ true
    → acked_run at (r ∷ rs) ≡ acked_run r.end rs
unfolding acked_run
acked_run_on at r rs e = rw e

acked_run_stop :
    (at : ℕ) (r : Reservation) (rs : List Reservation)
    → (r.acked && r.start == at) ≡ false
    → acked_run at (r ∷ rs) ≡ at
unfolding acked_run
acked_run_stop at r rs e = rw e

acked_run-nil : (at : ℕ) → acked_run at [] ≡ at
unfolding acked_run
acked_run-nil at = refl

-- The cursor may move from `at` to `to`: forward, and not past an entry that is not acknowledged.
abbrev pub Held : ℕ → List Reservation → ℕ → Type 0
Held at rs to = (at ≤ to) × All (λ r. r.acked ≡ false → to ≤ r.start) rs

-- An acknowledgement never retires a record that another worker holds: the cursor stops at or before
-- the start of every entry that is not acknowledged.
pub acked_run-le-unacked :
    (at : ℕ) (rs : List Reservation) → Ascending at rs → Held at rs (acked_run at rs)
acked_run-le-unacked at [] a = (omega (arith, acked_run-nil at), tt)
acked_run-le-unacked at (r ∷ rs) a = elim (Bool-cases (r.acked && r.start == at)) [
  | inr stops ↦
      subst (Held at (r ∷ rs)) (sym (acked_run_stop at r rs stops))
        (omega arith, (λ e. a.0, starts_above at r.end rs (omega arith) a.2))
  | inl more ↦
      let (forward, held) = acked_run-le-unacked r.end rs a.2 in
      let acked = (taken at r more).0 in
      subst (Held at (r ∷ rs)) (sym (acked_run_on at r rs more))
        (omega (arith, forward), (λ e. cc, held))
]
