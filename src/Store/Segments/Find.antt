-- ===== src/Store/Segments/Find.antt =====
-- store.go: `fileForOffset` finds every offset when the live segments are in order.
use diskqueue.Base.{
  get_elem?-some, get_elem?_lt, ℕ, suc, ◌+◌, ◌≤◌, ◌<◌, ◌≡◌, sym, ap, ◌∙◌, zero, compare_cases,
  lt→ltb, Bool, false, Option, none, some, List, [], ◌∷◌, subst, arith, ltb, length, get_elem?, inl,
  inr,
}
use diskqueue.Store.State.{Store, DataFile}
use diskqueue.Store.Segments.Search.{Monotone, Splits, search_first-Splits}
use diskqueue.Store.Segments.{at_index, file_for_offset}
use diskqueue.Store.Segments.Offset.{Covers, index_for, file_for_offset_eq}

-- The live segments stand one behind the other, from `b` on.
abbrev pub InOrder : (ℕ → DataFile) → ℕ → List ℕ → Type 0
InOrder h b [] = Unit {0}
InOrder h b (n ∷ ns) = (b ≤ (h n).base) × InOrder h ((h n).base + (h n).size) ns

base_above :
    (h : ℕ → DataFile) (b : ℕ) (ns : List ℕ) (i n : ℕ)
    → InOrder h b ns
    → get_elem? ns i ≡ some n
    → b ≤ (h n).base
base_above h b [] i n o e = cc
base_above h b (x ∷ ns) zero n o e = let same : x ≡ n = cc in subst (λ k. b ≤ (h k).base) same o.0
base_above h b (x ∷ ns) (suc i) n o e =
    let up = base_above h ((h x).base + (h x).size) ns i n o.1 e in omega (arith, o.0)

ends_before :
    (h : ℕ → DataFile) (b : ℕ) (ns : List ℕ) (i j m n : ℕ)
    → InOrder h b ns
    → i < j
    → get_elem? ns i ≡ some m
    → get_elem? ns j ≡ some n
    → (h m).base + (h m).size ≤ (h n).base
ends_before h b [] i j m n o l e f = cc
ends_before h b (x ∷ ns) i zero m n o l e f = absurd (omega arith)
ends_before h b (x ∷ ns) zero (suc j) m n o l e f =
    let same : x ≡ m = cc in
    subst (λ k. (h k).base + (h k).size ≤ (h n).base) same
      (base_above h ((h x).base + (h x).size) ns j n o.1 f)
ends_before h b (x ∷ ns) (suc i) (suc j) m n o l e f =
    ends_before h ((h x).base + (h x).size) ns i j m n o.1 (omega arith) e f

-- The test of the bisection at a live segment.
ends_past : ℕ → Store → ℕ → Bool
ends_past off s i = at_index s i (λ df. ltb off (df.base + df.size))

ends_past_at :
    (off : ℕ) (s : Store) (i n : ℕ)
    → get_elem? s.files i ≡ some n
    → ends_past off s i ≡ ltb off ((s.heap n).base + (s.heap n).size)
unfolding ends_past
ends_past_at off s i n e =
    ap
      (λ (o : Option ℕ). elim o [
        | none ↦ false
        | some k ↦ ltb off ((s.heap k).base + (s.heap k).size)
      ])
      e

ends_past-Monotone :
    (off b : ℕ) (s : Store) → InOrder s.heap b s.files → Monotone (length s.files) (ends_past off s)
ends_past-Monotone off b s o i j h l t = elim (compare_cases i j) [
  | inr same ↦ let e : i ≡ j = omega arith in rw (← e) t
  | inl less ↦
      let (m, em) = get_elem?-some s.files i (omega arith) in
      let (n, en) = get_elem?-some s.files j l in
      let up = ends_before s.heap b s.files i j m n o less em en in
      let lower = sym (ends_past_at off s i m em) ∙ t in
      ends_past_at off s j n en ∙ lt→ltb off _ (ground (arith, up, lower))
]

index_for_at :
    (off b : ℕ) (s : Store) (i n : ℕ)
    → InOrder s.heap b s.files
    → get_elem? s.files i ≡ some n
    → Covers off (s.heap n)
    → (r : ℕ) → Splits 0 (length s.files) (ends_past off s) r
    → r ≡ i
index_for_at off b s i n o e c r splits = elim (compare_cases i r) [
  | inl early ↦
      let f = sym (ends_past_at off s i n e) ∙ splits.2 i (omega arith) early in ground (arith, c)
  | inr late ↦ elim (compare_cases r i) [
    | inr same ↦ omega arith
    | inl before ↦
        let short = get_elem?_lt s.files i n e in
        let (m, em) = get_elem?-some s.files r (omega arith) in
        let up = ends_before s.heap b s.files r i m n o before em e in
        let f = sym (ends_past_at off s r m em) ∙ splits.3 r (omega arith) (omega arith) in
        ground (arith, c, up)
  ]
]

index_for-Splits :
    (off b : ℕ) (s : Store)
    → InOrder s.heap b s.files
    → Splits 0 (length s.files) (ends_past off s) (index_for off s)
unfolding index_for ends_past
index_for-Splits off b s o =
    search_first-Splits (length s.files) (ends_past off s) (ends_past-Monotone off b s o)

-- When the live segments stand in order, `fileForOffset` answers the live segment that holds the
-- offset.
pub file_for_offset_finds :
    (off b : ℕ) (s : Store) (i n : ℕ)
    → InOrder s.heap b s.files
    → get_elem? s.files i ≡ some n
    → Covers off (s.heap n)
    → file_for_offset off s ≡ some n
file_for_offset_finds off b s i n o e c =
    let same = index_for_at off b s i n o e c (index_for off s) (index_for-Splits off b s o) in
    rw (file_for_offset_eq off s, same, e) (ground (arith, c))
