-- ===== src/Store/Segments/Search.antt =====
-- store.go, reserve.go: bisection finds the first index at which a monotone test holds.
use diskqueue.Base.{
  ℕ, zero, suc, ◌+◌, ◌-◌, ◌/◌, ◌≤◌, ◌<◌, ◌≡◌, Bool, true, false, arith, Bool-cases, inl, inr,
  lt→ltb, le→ltb, compare_cases,
}
use diskqueue.Store.Segments.{search_loop, search_first}

-- Once the test holds it holds at every later index below `n`.
abbrev pub Monotone : ℕ → (ℕ → Bool) → Type 0
Monotone n test = (i j : ℕ) → i ≤ j → j < n → test i ≡ true → test j ≡ true

-- `r` splits [lo, hi): the test fails below it and holds from it on.
abbrev pub Splits : ℕ → ℕ → (ℕ → Bool) → ℕ → Type 0
Splits lo hi test r =
    (lo ≤ r)
    × (r ≤ hi)
    × ((i : ℕ) → lo ≤ i → i < r → test i ≡ false)
    × ((i : ℕ) → r ≤ i → i < hi → test i ≡ true)

module _ (n : ℕ) (test : ℕ → Bool) (mono : Monotone n test) where
  fails_below : (i j : ℕ) → i ≤ j → j < n → test j ≡ false → test i ≡ false
  fails_below i j h b e = elim (Bool-cases (test i)) [ inl t ↦ cc (mono i j h b t) | inr f ↦ f ]

  go_left :
      (lo mid hi r : ℕ)
      → mid < hi
      → hi ≤ n
      → test mid ≡ true
      → Splits lo mid test r
      → Splits lo hi test r
  go_left lo mid hi r b c e s = (s.0, omega arith, s.2, above)
    where
      above : (i : ℕ) → r ≤ i → i < hi → test i ≡ true
      above i l h = elim (compare_cases i mid) [
        | inl below ↦ s.3 i l below
        | inr past ↦ mono mid i past (omega arith) e
      ]

  go_right :
      (lo mid hi r : ℕ)
      → lo ≤ mid
      → mid < hi
      → hi ≤ n
      → test mid ≡ false
      → Splits (mid + 1) hi test r
      → Splits lo hi test r
  go_right lo mid hi r a b c e s = (omega arith, s.1, below, s.3)
    where
      below : (i : ℕ) → lo ≤ i → i < r → test i ≡ false
      below i l h = elim (compare_cases mid i) [
        | inl past ↦ s.2 i (omega arith) h
        | inr up ↦ fails_below i mid up (omega arith) e
      ]

  pub search_loop-Splits :
      (fuel lo hi : ℕ)
      → hi - lo < fuel
      → lo ≤ hi
      → hi ≤ n
      → Splits lo hi test (search_loop fuel test lo hi)
  unfolding search_loop
  search_loop-Splits zero lo hi f h b = absurd (omega arith)
  search_loop-Splits (suc fuel) lo hi f h b = elim (compare_cases lo hi) [
    | inr done ↦
        rw (le→ltb lo hi done)
          (omega arith, omega arith, λ i p q. absurd (omega arith), λ i p q. absurd (omega arith))
    | inl more ↦ rw (lt→ltb lo hi more) (elim (Bool-cases (test ((lo + hi) / 2))) [
      | inl holds ↦ rw holds (
          go_left lo ((lo + hi) / 2) hi _ (omega arith) b holds
            (search_loop-Splits fuel lo ((lo + hi) / 2) (omega arith) (omega arith) (omega arith)))
      | inr not_yet ↦ rw not_yet (
          go_right lo ((lo + hi) / 2) hi _ (omega arith) (omega arith) b not_yet
            (search_loop-Splits fuel ((lo + hi) / 2 + 1) hi (omega arith) (omega arith) b))
    ])
  ]

  pub search_first-Splits : Splits 0 n test (search_first n test)
  unfolding search_first
  search_first-Splits = search_loop-Splits (suc n) 0 n (omega arith) (omega arith) (omega arith)
