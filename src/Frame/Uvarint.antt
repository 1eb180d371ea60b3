-- ===== src/Frame/Uvarint.antt =====
-- The length prefix: `uvarintLen` counts what `PutUvarint` writes, and `Uvarint` reads it back.
use native.Mathlib.Nat.{pow-succ', div-add-mod}
use diskqueue.Base.{
  ℕ, zero, suc, ◌+◌, ◌*◌, ◌/◌, ◌%◌, ◌^◌, ◌≤◌, ◌<◌, ◌≡◌, refl, ap, inl, inr, some, List, [], ◌∷◌,
  ◌++◌, arith, Bool-cases, length, take, leb,
}
use diskqueue.Frame.{
  uvarint_len_loop, uvarint_len, put_uvarint_loop, put_uvarint, uvarint_at, uvarint,
}

len_loop-eq : (fuel x n : ℕ) → x < fuel → uvarint_len_loop fuel x n ≡ n + uvarint_len_loop fuel x 0
unfolding uvarint_len_loop
len_loop-eq zero x n h = absurd (omega arith)
len_loop-eq (suc fuel) x n h =
    ground (arith, len_loop-eq fuel (x / 128) (n + 1), len_loop-eq fuel (x / 128) 1)

length-put_loop :
    (fuel x n : ℕ)
    → x < fuel
    → uvarint_len_loop fuel x (n + 1) ≡ n + length (put_uvarint_loop fuel x)
unfolding uvarint_len_loop put_uvarint_loop
length-put_loop zero x n h = absurd (omega arith)
length-put_loop (suc fuel) x n h = ground (arith, length-put_loop fuel (x / 128) (n + 1))

-- `uvarintLen` is the number of bytes that `PutUvarint` writes.
pub uvarint_len-eq : (x : ℕ) → uvarint_len x ≡ length (put_uvarint x)
unfolding uvarint_len put_uvarint
uvarint_len-eq x = omega (arith, length-put_loop (suc x) x 0 (omega arith))

-- One byte more than the seven-bit groups of `x` above the first.
put_loop-le :
    (k fuel x : ℕ) → x < fuel → x < 128 * 128 ^ k → length (put_uvarint_loop fuel x) ≤ k + 1
unfolding put_uvarint_loop
put_loop-le k zero x h b = absurd (omega arith)
put_loop-le zero (suc fuel) x h b = ground arith
put_loop-le (suc k) (suc fuel) x h b = ground (arith, put_loop-le k fuel (x / 128), pow-succ' 128 k)

put_loop_pos : (fuel x : ℕ) → x < fuel → 1 ≤ length (put_uvarint_loop fuel x)
unfolding put_uvarint_loop
put_loop_pos zero x h = absurd (omega arith)
put_loop_pos (suc fuel) x h = ground arith

-- A uint64 takes one byte at least and ten at most.
pub length-put_uvarint :
    (x : ℕ) → x < 2 ^ 64 → (1 ≤ length (put_uvarint x)) × (length (put_uvarint x) ≤ 10)
unfolding put_uvarint
length-put_uvarint x h =
    (put_loop_pos (suc x) x (omega arith), put_loop-le 9 (suc x) x (omega arith) (omega arith))

-- The lowest group of `x` and the rest, both scaled by `p`.
split_group : (x p : ℕ) → x * p ≡ x % 128 * p + x / 128 * (p * 128)
split_group x p = omega (arith, ap (λ (t : ℕ). t * p) (div-add-mod x 128))

-- An inner byte moves the decoder on by one group.
inner_byte :
    (g i p acc : ℕ) (rest : List ℕ)
    → g < 128
    → i < 9
    → uvarint_at ((g + 128) ∷ rest) i p acc ≡ uvarint_at rest (i + 1) (p * 128) (acc + g * p)
unfolding uvarint_at
inner_byte g i p acc rest hg hi = let e : (g + 128) % 128 ≡ g = omega arith in rw e (ground arith)

-- The decoder at group `i`, where `x` still fits the groups that are left.
uvarint_at-put :
    (k i fuel x p acc : ℕ) (rest : List ℕ)
    → i + k ≡ 9
    → x < fuel
    → x < 2 * 128 ^ k
    → uvarint_at (put_uvarint_loop fuel x ++ rest) i p acc
      ≡ some (acc + x * p, i + length (put_uvarint_loop fuel x))
unfolding put_uvarint_loop uvarint_at
uvarint_at-put k i zero x p acc rest e h b = absurd (omega arith)
uvarint_at-put zero i (suc fuel) x p acc rest e h b = ground arith
uvarint_at-put (suc k) i (suc fuel) x p acc rest e h b = elim (Bool-cases (leb 128 x)) [
  | inr small ↦ rw small (ground arith)
  | inl large ↦
      rw
        (
          large,
          inner_byte (x % 128) i p acc (put_uvarint_loop fuel (x / 128) ++ rest) (omega arith)
              (omega arith),
        )
        (ground (
          arith,
          uvarint_at-put k (i + 1) fuel (x / 128) (p * 128) (acc + x % 128 * p) rest (omega arith)
              (ground arith) (ground (arith, pow-succ' 128 k)),
          split_group x p,
        ))
]

-- `Uvarint` gives back the uint64 that `PutUvarint` wrote, whatever follows it, and its width.
pub uvarint-put_uvarint :
    (x : ℕ) (rest : List ℕ)
    → x < 2 ^ 64
    → uvarint (put_uvarint x ++ rest) ≡ some (x, length (put_uvarint x))
unfolding uvarint put_uvarint
uvarint-put_uvarint x rest h =
    ground (arith, uvarint_at-put 9 0 (suc x) x 1 0 rest (omega arith) (omega arith) (omega arith))

-- The decoder looks at ten bytes at most.
uvarint_at-take :
    (k i p acc : ℕ) (bs : List ℕ)
    → i + k ≡ 10
    → uvarint_at (take k bs) i p acc ≡ uvarint_at bs i p acc
unfolding uvarint_at
uvarint_at-take zero i p acc [] e = refl
uvarint_at-take zero i p acc (b ∷ bs) e = ground arith
uvarint_at-take (suc k) i p acc [] e = refl
uvarint_at-take (suc k) i p acc (b ∷ bs) e =
    ground (arith, uvarint_at-take k (i + 1) (p * 128) (acc + b % 128 * p) bs (omega arith))

pub uvarint-take : (bs : List ℕ) → uvarint (take 10 bs) ≡ uvarint bs
unfolding uvarint
uvarint-take bs = uvarint_at-take 10 0 1 0 bs refl

-- A decoded width counts bytes that are there.
uvarint_at-width :
    (bs : List ℕ) (i p acc v n : ℕ)
    → uvarint_at bs i p acc ≡ some (v, n)
    → (i < n) × (n ≤ i + length bs) × (n ≤ 10)
unfolding uvarint_at
uvarint_at-width [] i p acc v n e = cc
uvarint_at-width (b ∷ bs) i p acc v n e =
    ground (arith, uvarint_at-width bs (i + 1) (p * 128) (acc + b % 128 * p) v n)

pub uvarint-width :
    (bs : List ℕ) (v n : ℕ) → uvarint bs ≡ some (v, n) → (1 ≤ n) × (n ≤ length bs) × (n ≤ 10)
unfolding uvarint
uvarint-width bs v n e = ground (arith, uvarint_at-width bs 0 1 0 v n e)
