-- ===== src/Store/Log/Bytes.antt =====
-- header.go, record.go: what a write of a header and what a write of a record leave of a file.
use diskqueue.Base.{
  ℕ, zero, suc, ◌+◌, ◌-◌, ◌≤◌, ◌≡◌, refl, sym, ap, ◌∙◌, inl, inr, List, [], ◌∷◌, ◌++◌, arith,
  append-nil, length, take, drop, length-append, length-replicate, length-patch, replicate, slice,
  slice-patch_same, slice-patch_below, drop-patch_above, compare_cases, length-drop, take-append_le,
}
use diskqueue.Frame.{header_size}
use diskqueue.Store.Os.{extend, write_bytes}

drop-all : (n : ℕ) (xs : List ℕ) → length xs ≤ n → drop n xs ≡ []
drop-all zero [] h = refl
drop-all zero (x ∷ xs) h = absurd (omega arith)
drop-all (suc n) [] h = refl
drop-all (suc n) (x ∷ xs) h = drop-all n xs (omega arith)

drop-append_le : (n : ℕ) (xs ys : List ℕ) → n ≤ length xs → drop n (xs ++ ys) ≡ drop n xs ++ ys
drop-append_le zero xs ys h = refl
drop-append_le (suc n) [] ys h = absurd (omega arith)
drop-append_le (suc n) (x ∷ xs) ys h = drop-append_le n xs ys (omega arith)

length-extend : (n : ℕ) (h : List ℕ) → n ≤ length (extend n h)
length-extend n h =
    omega (
      arith,
      length-append h (replicate (n - length h) 0),
      length-replicate {A = ℕ} (n - length h) 0,
    )

extend_noop : (n : ℕ) (h : List ℕ) → n ≤ length h → extend n h ≡ h
extend_noop n h l =
    let e : n - length h ≡ 0 = omega arith in ap (λ k. h ++ replicate k 0) e ∙ append-nil h

-- A write into the header leaves the data region.
pub drop-write_header :
    (bs h : List ℕ)
    → length bs ≤ header_size
    → drop header_size (write_bytes 0 bs h) ≡ drop header_size h
drop-write_header bs h l =
    drop-patch_above header_size 0 bs (extend (0 + length bs) h) (omega (arith, l)) ∙ go
  where
    go : drop header_size (extend (0 + length bs) h) ≡ drop header_size h
    go = elim (compare_cases (length h) header_size) [
      | inl short ↦
          drop-all header_size (extend (0 + length bs) h) (
            omega (
              arith,
              length-append h (replicate (0 + length bs - length h) 0),
              length-replicate {A = ℕ} (0 + length bs - length h) 0,
              l,
              short,
            ))
          ∙ sym (drop-all header_size h (omega (arith, short)))
      | inr long ↦ ap (drop header_size) (extend_noop (0 + length bs) h (omega (arith, l, long)))
    ]

-- What is written is read back.
pub slice-write_same : (off : ℕ) (bs h : List ℕ) → slice off (length bs) (write_bytes off bs h) ≡ bs
slice-write_same off bs h =
    slice-patch_same off bs (extend (off + length bs) h) (length-extend (off + length bs) h)

-- A write leaves what lies below it.
pub slice-write_below :
    (at k off : ℕ) (bs h : List ℕ)
    → at + k ≤ off
    → off ≤ length h
    → slice at k (write_bytes off bs h) ≡ slice at k h
slice-write_below at k off bs h l there =
    let pad : List ℕ = replicate (off + length bs - length h) 0 in
    slice-patch_below at k off bs (extend (off + length bs) h) l
    ∙ ap (take k) (drop-append_le at h pad (omega (arith, l, there)))
    ∙ take-append_le k (drop at h) pad (omega (arith, length-drop at h, l, there))

pub length-write_bytes : (off : ℕ) (bs h : List ℕ) → off + length bs ≤ length (write_bytes off bs h)
length-write_bytes off bs h =
    omega
      (arith, length-patch off bs (extend (off + length bs) h), length-extend (off + length bs) h)

-- A file never shrinks under a write.
pub length-write_ge : (off : ℕ) (bs h : List ℕ) → length h ≤ length (write_bytes off bs h)
length-write_ge off bs h = omega (
  arith,
  length-patch off bs (extend (off + length bs) h),
  length-append h (replicate (off + length bs - length h) 0),
)
