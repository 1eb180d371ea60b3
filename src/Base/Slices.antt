-- ===== src/Base/Slices.antt =====
-- Slices of slices.
use Prim.Native.Nat.{ℕ, zero, suc, ◌+◌, ◌-◌, ◌≤◌}
use mathlib.Core.Path.{◌≡◌, sym, ap, ◌∙◌}
use mathlib.Core.List.{List, [], ◌∷◌, ◌++◌}
use native.Mathlib.Omega.{arith}
use diskqueue.Base.Lists.{
  length, take, drop, length-drop, length-take, drop-drop, drop-take, take-take, take-nil,
}
use diskqueue.Base.Bytes.{slice}

pub length-slice : (off n : ℕ) (h : List ℕ) → off + n ≤ length h → length (slice off n h) ≡ n
length-slice off n h l = length-take n (drop off h) (omega (arith, length-drop off h))

take-split : (a b : ℕ) (h : List ℕ) → take a h ++ take b (drop a h) ≡ take (a + b) h
take-split zero b h = let e : b ≡ zero + b = omega arith in ap (λ k. take k h) e
take-split (suc a) b [] = take-nil b ∙ sym (take-nil (suc a + b))
take-split (suc a) b (x ∷ h) =
    let e : suc (a + b) ≡ suc a + b = omega arith in
    ap (◌∷◌ x) (take-split a b h) ∙ ap (λ k. take k (x ∷ h)) e

-- Two adjacent slices are one.
pub slice-append :
    (off a b : ℕ) (h : List ℕ) → slice off a h ++ slice (off + a) b h ≡ slice off (a + b) h
slice-append off a b h =
    ap (λ t. slice off a h ++ take b t) (sym (drop-drop a off h)) ∙ take-split a b (drop off h)

-- A slice of a slice that holds it.
pub slice-slice :
    (i n off len : ℕ) (h : List ℕ) → i + n ≤ len → slice i n (slice off len h) ≡ slice (off + i) n h
slice-slice i n off len h l =
    ap (take n) (drop-take i len (drop off h) (omega arith))
    ∙ take-take n (len - i) (drop i (drop off h)) (omega arith)
    ∙ ap (take n) (drop-drop i off h)
