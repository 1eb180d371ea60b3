-- ===== src/Store/Segments/Offset.antt =====
-- store.go: what `fileForOffset` answers.
use diskqueue.Base.{
  ℕ, suc, ◌+◌, ◌≤◌, ◌<◌, ◌≡◌, refl, sym, ◌∙◌, zero, ◌/◌, ◌⊎◌, compare_cases, lt→ltb, le→ltb, Bool,
  true, false, Option, none, some, List, [], ◌∷◌, subst, arith, ltb, leb, length, get_elem?,
  Bool-cases, Option-cases, inl, inr, if◌then◌else◌,
}
use diskqueue.Store.State.{Store, DataFile}
use diskqueue.Store.Segments.{search_loop, search_first, at_index, file_for_offset}

-- `off` lies in the published bytes of the segment.
abbrev pub Covers : ℕ → DataFile → Type 0
Covers off df = (df.base ≤ off) × (off < df.base + df.size)

-- Bisection ends at its upper limit or at an index where the test holds, monotone or not.
search_loop_end :
    (test : ℕ → Bool) (fuel lo hi : ℕ)
    → hi < lo + fuel
    → lo ≤ hi
    → (search_loop fuel test lo hi ≡ hi) ⊎ (test (search_loop fuel test lo hi) ≡ true)
unfolding search_loop
search_loop_end test zero lo hi f h = absurd (omega arith)
search_loop_end test (suc fuel) lo hi f h = elim (compare_cases lo hi) [
  | inr done ↦ rw (le→ltb lo hi done) (inl (omega arith))
  | inl more ↦ rw (lt→ltb lo hi more) (elim (Bool-cases (test ((lo + hi) / 2))) [
    | inl holds ↦
        rw holds (elim (search_loop_end test fuel lo ((lo + hi) / 2) (omega arith) (omega arith)) [
          | inl e ↦ inr (rw e holds)
          | inr t ↦ inr t
        ])
    | inr fails ↦
        rw fails (search_loop_end test fuel ((lo + hi) / 2 + 1) hi (omega arith) (omega arith))
  ])
]

get_elem?-length : (ns : List ℕ) → get_elem? ns (length ns) ≡ none
get_elem?-length [] = refl
get_elem?-length (n ∷ ns) = get_elem?-length ns

-- The index that `fileForOffset` looks at.
unfoldable pub index_for : ℕ → Store → ℕ
index_for off s =
    search_first (length s.files) (λ i. at_index s i (λ df. ltb off (df.base + df.size)))

index_for_end :
    (off : ℕ) (s : Store)
    → (index_for off s ≡ length s.files)
      ⊎ (at_index s (index_for off s) (λ df. ltb off (df.base + df.size)) ≡ true)
unfolding index_for search_first
index_for_end off s =
    search_loop_end (λ i. at_index s i (λ df. ltb off (df.base + df.size))) (suc (length s.files)) 0
      (length s.files) (omega arith) (omega arith)

pub file_for_offset_eq :
    (off : ℕ) (s : Store)
    → file_for_offset off s ≡ (
        if at_index s (index_for off s) (λ df. leb df.base off)
        then get_elem? s.files (index_for off s)
        else none)
unfolding file_for_offset index_for
file_for_offset_eq off s = refl

covered_by :
    (off : ℕ) (s : Store) (o : Option ℕ) (num : ℕ)
    → elim o [ none ↦ false | some n ↦ ltb off ((s.heap n).base + (s.heap n).size) ] ≡ true
    → (if elim o [ none ↦ false | some n ↦ leb (s.heap n).base off ] then o else none) ≡ some num
    → Covers off (s.heap num)
covered_by off s none num b e = cc
covered_by off s (some n) num b e = elim (Bool-cases (leb (s.heap n).base off)) [
  | inr past ↦ ground (arith, past)
  | inl held ↦
      let same : n ≡ num = ground (arith, held) in
      subst (λ k. Covers off (s.heap k)) same (ground (arith, held), ground (arith, b))
]

covered_at :
    (off : ℕ) (s : Store) (i num : ℕ)
    → (i ≡ length s.files) ⊎ (at_index s i (λ df. ltb off (df.base + df.size)) ≡ true)
    → (if at_index s i (λ df. leb df.base off) then get_elem? s.files i else none) ≡ some num
    → Covers off (s.heap num)
covered_at off s i num (inr below) e = covered_by off s (get_elem? s.files i) num below e
covered_at off s i num (inl last) e = elim (Option-cases (get_elem? s.files i)) [
  | inl gone ↦ ground (arith, gone)
  | inr (n, found) ↦ absurd (cc (last, found, get_elem?-length s.files))
]

-- A segment that `fileForOffset` answers holds the offset, in whatever order the live segments are.
pub file_for_offset-Covers :
    (off : ℕ) (s : Store) (num : ℕ) → file_for_offset off s ≡ some num → Covers off (s.heap num)
file_for_offset-Covers off s num e =
    covered_at off s (index_for off s) num (index_for_end off s)
      (sym (file_for_offset_eq off s) ∙ e)
