-- ===== src/Header/Layout.antt =====
-- header.go: where each field of the header lies, and reading and writing one field.
use diskqueue.Base.{
  ℕ, ◌+◌, ◌^◌, ◌≤◌, ◌<◌, ◌≡◌, refl, sym, ap, ◌∙◌, inl, inr, Bool, true, false, List, arith,
  if◌then◌else◌, ◌==◌, length, take, slice, patch, le_bytes, from_le, length-le_bytes,
  from_le-le_bytes, length-patch, slice-patch_same, slice-patch_below, drop-patch_above,
  compare_cases, Bool-cases, ==_iff,
}

pub data Field : Type 0 where
  at_magic at_commit_cursor at_write_cursor at_written_count at_committed_count at_version at_flags
        at_capacity at_seg_size at_checksum :
      Field

abbrev pub offset : Field → ℕ
offset at_magic = 0
offset at_commit_cursor = 8
offset at_write_cursor = 16
offset at_written_count = 24
offset at_committed_count = 32
offset at_version = 40
offset at_flags = 41
offset at_capacity = 42
offset at_seg_size = 50
offset at_checksum = 56

-- `PutUint64` fields take eight bytes, the SegmentSize six.
abbrev pub width : Field → ℕ
width at_version = 1
width at_flags = 1
width at_seg_size = 6
width _ = 8

unfoldable pub get : Field → List ℕ → ℕ
get f h = from_le (slice (offset f) (width f) h)

unfoldable pub put : Field → ℕ → List ℕ → List ℕ
put f v h = patch (offset f) (le_bytes (width f) v) h

pub length-put : (f : Field) (v : ℕ) (h : List ℕ) → length (put f v h) ≡ length h
unfolding put
length-put f v h = length-patch (offset f) (le_bytes (width f) v) h

abbrev pub same : Field → Field → Bool
same f g = offset f == offset g

-- The header has 64 bytes.
inside : (f : Field) → offset f + width f ≤ 64
inside at_magic = omega arith
inside _ = omega arith

-- Fields do not overlap.
apart : (f g : Field) → offset f < offset g → offset f + width f ≤ offset g
apart f g h = ground arith

same_field : (f g : Field) → same f g ≡ true → f ≡ g
same_field f g h = ground arith

get-put_self :
    (f : Field) (v : ℕ) (h : List ℕ) → length h ≡ 64 → v < 256 ^ width f → get f (put f v h) ≡ v
unfolding get put
get-put_self f v h l b =
    let bs = le_bytes (width f) v in
    let e : length bs ≡ width f = length-le_bytes (width f) v in
    let r : slice (offset f) (length bs) (patch (offset f) bs h) ≡ bs =
      slice-patch_same (offset f) bs h (omega (arith, e, inside f, l)) in
    ap from_le (ap (λ k. slice (offset f) k (patch (offset f) bs h)) (sym e) ∙ r)
    ∙ from_le-le_bytes (width f) v b

get-put_ne : (f g : Field) (v : ℕ) (h : List ℕ) → same f g ≡ false → get f (put g v h) ≡ get f h
unfolding get put
get-put_ne f g v h e = elim (compare_cases (offset f) (offset g)) [
  | inl l ↦
      ap from_le
        (slice-patch_below (offset f) (width f) (offset g) (le_bytes (width g) v) h (apart f g l))
  | inr l ↦
      ap (λ t. from_le (take (width f) t))
        (drop-patch_above (offset f) (offset g) (le_bytes (width g) v) h
          (omega (arith, length-le_bytes (width g) v, apart g f (ground arith))))
]

-- A field reads what was written to it last; writing another field leaves it alone.
pub get-put :
    (f g : Field) (v : ℕ) (h : List ℕ)
    → length h ≡ 64
    → v < 256 ^ width g
    → get f (put g v h) ≡ (if same f g then v else get f h)
get-put f g v h l b = elim (Bool-cases (same f g)) [
  | inl e ↦
      rw (same_field f g e) (rw ((==_iff (offset g) (offset g)).1 refl) (get-put_self g v h l b))
  | inr e ↦ rw e (get-put_ne f g v h e)
]

-- The bytes under the checksum do not depend on it.
pub take-put_checksum : (v : ℕ) (h : List ℕ) → take 56 (put at_checksum v h) ≡ take 56 h
unfolding put
take-put_checksum v h = slice-patch_below 0 56 56 (le_bytes 8 v) h (omega arith)
