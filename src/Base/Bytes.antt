-- ===== src/Base/Bytes.antt =====
-- Little-endian words, and reads and writes inside a byte slice (encoding/binary, slices of Go).
use Prim.Native.Nat.{ℕ, zero, suc, ◌+◌, ◌*◌, ◌/◌, ◌%◌, ◌^◌, ◌≤◌, ◌<◌}
use mathlib.Core.Path.{◌≡◌, refl, ap}
use mathlib.Core.List.{List, [], ◌∷◌}
use native.Mathlib.Omega.{arith}
use native.Mathlib.Nat.{pow-succ'}
use diskqueue.Base.Lists.{length, take, drop}

abbrev pub IsByte : ℕ → Type 0
IsByte b = b < 256

-- `k` bytes of `v`, lowest first: `PutUint64` at k = 8.
abbrev pub le_bytes : ℕ → ℕ → List ℕ
le_bytes zero v = []
le_bytes (suc k) v = v % 256 ∷ le_bytes k (v / 256)

-- The number that the bytes spell: `Uint64` at eight of them.
abbrev pub from_le : List ℕ → ℕ
from_le [] = 0
from_le (b ∷ bs) = b + 256 * from_le bs

pub length-le_bytes : (k v : ℕ) → length (le_bytes k v) ≡ k
length-le_bytes zero v = refl
length-le_bytes (suc k) v = ap suc (length-le_bytes k (v / 256))

pub from_le-le_bytes : (k v : ℕ) → v < 256 ^ k → from_le (le_bytes k v) ≡ v
from_le-le_bytes zero v h = omega arith
from_le-le_bytes (suc k) v h =
    omega (arith, from_le-le_bytes k (v / 256) (omega (arith, h, pow-succ' 256 k)))

-- `h[off : off + k]`.
abbrev pub slice : ℕ → ℕ → List ℕ → List ℕ
slice off k h = take k (drop off h)

-- `copy(h, bs)`: what does not fit is dropped.
abbrev pub overwrite : List ℕ → List ℕ → List ℕ
overwrite [] h = h
overwrite (b ∷ bs) [] = []
overwrite (b ∷ bs) (x ∷ h) = b ∷ overwrite bs h

-- `copy(h[off:], bs)`.
abbrev pub patch : ℕ → List ℕ → List ℕ → List ℕ
patch zero bs h = overwrite bs h
patch (suc n) bs [] = []
patch (suc n) bs (x ∷ h) = x ∷ patch n bs h

pub length-overwrite : (bs h : List ℕ) → length (overwrite bs h) ≡ length h
length-overwrite [] h = refl
length-overwrite (b ∷ bs) [] = refl
length-overwrite (b ∷ bs) (x ∷ h) = ap suc (length-overwrite bs h)

pub length-patch : (off : ℕ) (bs h : List ℕ) → length (patch off bs h) ≡ length h
length-patch zero bs h = length-overwrite bs h
length-patch (suc n) bs [] = refl
length-patch (suc n) bs (x ∷ h) = ap suc (length-patch n bs h)

take-overwrite : (bs h : List ℕ) → length bs ≤ length h → take (length bs) (overwrite bs h) ≡ bs
take-overwrite [] h l = refl
take-overwrite (b ∷ bs) [] l = absurd (omega arith)
take-overwrite (b ∷ bs) (x ∷ h) l = ap (◌∷◌ b) (take-overwrite bs h (omega arith))

-- What was written is read back.
pub slice-patch_same :
    (off : ℕ) (bs h : List ℕ)
    → off + length bs ≤ length h
    → slice off (length bs) (patch off bs h) ≡ bs
slice-patch_same zero bs h l = take-overwrite bs h (omega arith)
slice-patch_same (suc n) bs [] l = absurd (omega arith)
slice-patch_same (suc n) bs (x ∷ h) l = slice-patch_same n bs h (omega arith)

-- Bytes below the write are untouched.
pub slice-patch_below :
    (at k off : ℕ) (bs h : List ℕ) → at + k ≤ off → slice at k (patch off bs h) ≡ slice at k h
slice-patch_below zero zero off bs h l = refl
slice-patch_below zero (suc k) zero bs h l = absurd (omega arith)
slice-patch_below zero (suc k) (suc n) bs [] l = refl
slice-patch_below zero (suc k) (suc n) bs (x ∷ h) l =
    ap (◌∷◌ x) (slice-patch_below zero k n bs h (omega arith))
slice-patch_below (suc at) k zero bs h l = absurd (omega arith)
slice-patch_below (suc at) k (suc n) bs [] l = refl
slice-patch_below (suc at) k (suc n) bs (x ∷ h) l = slice-patch_below at k n bs h (omega arith)

drop-overwrite : (at : ℕ) (bs h : List ℕ) → length bs ≤ at → drop at (overwrite bs h) ≡ drop at h
drop-overwrite at [] h l = refl
drop-overwrite zero (b ∷ bs) h l = absurd (omega arith)
drop-overwrite (suc at) (b ∷ bs) [] l = refl
drop-overwrite (suc at) (b ∷ bs) (x ∷ h) l = drop-overwrite at bs h (omega arith)

-- Bytes past the write are untouched.
pub drop-patch_above :
    (at off : ℕ) (bs h : List ℕ) → off + length bs ≤ at → drop at (patch off bs h) ≡ drop at h
drop-patch_above at zero bs h l = drop-overwrite at bs h (omega arith)
drop-patch_above zero (suc n) bs h l = absurd (omega arith)
drop-patch_above (suc at) (suc n) bs [] l = refl
drop-patch_above (suc at) (suc n) bs (x ∷ h) l = drop-patch_above at n bs h (omega arith)
