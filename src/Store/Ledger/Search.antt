-- ===== src/Store/Ledger/Search.antt =====
-- reserve.go: the bisection of `findReserved`.
use diskqueue.Base.{
  get_elem?-some, get_elem?_lt, ℕ, zero, suc, ◌<◌, ◌≡◌, ◌↔◌, refl, sym, ◌∙◌, if◌then◌else◌, Bool,
  not, none, some, List, [], ◌∷◌, arith, ltb, ◌==◌, length, get_elem?, inl, inr, compare_cases,
  Option-cases,
}
use diskqueue.Store.State.{Reservation}
use diskqueue.Store.Segments.{search_loop}
use diskqueue.Store.Segments.Search.{Monotone, Splits, search_loop-Splits}
use diskqueue.Store.Ledger.{at_entry, find_reserved}
use diskqueue.Store.Ledger.Run.{Ascending}

-- Ends grow along the ledger.
end_above :
    (b : ℕ) (rs : List Reservation) (i : ℕ) (r : Reservation)
    → Ascending b rs
    → get_elem? rs i ≡ some r
    → b < r.end
end_above b [] i r a e = cc
end_above b (x ∷ rs) zero r a e = ground arith
end_above b (x ∷ rs) (suc i) r a e = let h = end_above x.end rs i r a.2 e in omega arith

ends_grow :
    (b : ℕ) (rs : List Reservation) (i j : ℕ) (r t : Reservation)
    → Ascending b rs
    → i < j
    → get_elem? rs i ≡ some r
    → get_elem? rs j ≡ some t
    → r.end < t.end
ends_grow b [] i j r t a h e f = cc
ends_grow b (x ∷ rs) i zero r t a h e f = absurd (omega arith)
ends_grow b (x ∷ rs) zero (suc j) r t a h e f = let g = end_above x.end rs j t a.2 f in ground arith
ends_grow b (x ∷ rs) (suc i) (suc j) r t a h e f = ends_grow x.end rs i j r t a.2 (omega arith) e f

-- The test of the bisection.
abbrev reaches : ℕ → List Reservation → ℕ → Bool
reaches end rs i = at_entry rs i (λ r. not (ltb r.end end))

reaches-Monotone :
    (b end : ℕ) (rs : List Reservation) → Ascending b rs → Monotone (length rs) (reaches end rs)
reaches-Monotone b end rs a i j h l t = elim (compare_cases i j) [
  | inr same ↦ let e : i ≡ j = omega arith in rw (← e) t
  | inl less ↦
      let (r, er) = get_elem?-some rs i (omega arith) in
      let (s, es) = get_elem?-some rs j l in ground (arith, ends_grow b rs i j r s a less er es)
]

-- The index that the bisection ends at.
bisected : ℕ → List Reservation → ℕ
bisected end rs = search_loop (suc (length rs)) (reaches end rs) 0 (length rs)

find_reserved_eq :
    (end : ℕ) (rs : List Reservation)
    → find_reserved end rs
      ≡ (if at_entry rs (bisected end rs) (λ r. r.end == end) then some (bisected end rs) else none)
unfolding find_reserved bisected
find_reserved_eq end rs = refl

entry_ends :
    (end : ℕ) (rs : List Reservation) (i k : ℕ)
    → (if at_entry rs k (λ r. r.end == end) then some k else none) ≡ some i
    → (r : Reservation) × (get_elem? rs i ≡ some r) × (r.end ≡ end)
entry_ends end rs i k e = elim (Option-cases (get_elem? rs k)) [
  | inl gone ↦ ground (arith, gone)
  | inr (r, found) ↦ (r, ground (arith, found), ground (arith, found))
]

-- The bisection cannot end anywhere but at the entry.
bisected_unique :
    (b end : ℕ) (rs : List Reservation) (i k : ℕ) (r : Reservation)
    → Ascending b rs
    → Splits 0 (length rs) (reaches end rs) k
    → get_elem? rs i ≡ some r
    → r.end ≡ end
    → k ≡ i
bisected_unique b end rs i k r a s er ee = elim (compare_cases i k) [
  | inl early ↦ let f = s.2 i (omega arith) early in ground (arith, er)
  | inr late ↦ elim (compare_cases k i) [
    | inr same ↦ omega arith
    | inl before ↦
        let (t, et) = get_elem?-some rs k (omega (arith, get_elem?_lt rs i r er)) in
        let f = s.3 k (omega arith) (omega (arith, get_elem?_lt rs i r er)) in
        ground (arith, ends_grow b rs k i t r a before et er, et)
  ]
]

-- On a ledger in read order, `findReserved` answers an index exactly when the entry at that index
-- ends at the offset; so it answers none exactly when no entry ends there.
pub find_reserved_iff :
    (b end : ℕ) (rs : List Reservation) (i : ℕ)
    → Ascending b rs
    → (find_reserved end rs ≡ some i)
      ↔ ((r : Reservation) × (get_elem? rs i ≡ some r) × (r.end ≡ end))
find_reserved_iff b end rs i a =
    (λ e. entry_ends end rs i (bisected end rs) (sym (find_reserved_eq end rs) ∙ e), complete)
  where
    splits : Splits 0 (length rs) (reaches end rs) (bisected end rs)
    splits =
        unfold bisected in
        search_loop-Splits (length rs) (reaches end rs) (reaches-Monotone b end rs a)
          (suc (length rs)) 0 (length rs) (omega arith) (omega arith) (omega arith)

    complete :
        (r : Reservation) × (get_elem? rs i ≡ some r) × (r.end ≡ end)
        → find_reserved end rs ≡ some i
    complete h =
        let same = bisected_unique b end rs i (bisected end rs) h.0 a splits h.1 h.2 in
        rw (find_reserved_eq end rs, same) (ground (arith, h.1, h.2))
