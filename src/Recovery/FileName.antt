-- ===== src/Recovery/FileName.antt =====
-- store.go, recovery.go: the name of a segment file and the number that recovery reads from it.
use diskqueue.Base.{
  ℕ, zero, suc, ◌+◌, ◌-◌, ◌*◌, ◌/◌, ◌%◌, ◌^◌, ◌≤◌, ◌<◌, ◌≡◌, refl, sym, ap, ◌∙◌, subst, true, false,
  ◌&&◌, some, List, [], ◌∷◌, ◌++◌, ltb, arith, Bool-cases, inl, inr, length, replicate,
}
use diskqueue.Recovery.Names.{
  strip_prefix, is_digit, parse_digits, parse_uint, digits, file_name, entry_num,
}

parse_digits_more :
    (x k : ℕ) (bs : List ℕ)
    → k < 10
    → x * 10 + k < 2 ^ 64
    → parse_digits x ((k + 48) ∷ bs) ≡ parse_digits (x * 10 + k) bs
unfolding parse_digits
parse_digits_more x k bs small fits =
    let same : x * 10 + (k + 48 - 48) ≡ x * 10 + k = omega arith in
    let good : (is_digit (k + 48) && ltb (x * 10 + (k + 48 - 48)) (2 ^ 64)) ≡ true = ground arith in
    rw good (ap (λ (y : ℕ). parse_digits y bs) same)

parse_digits-digits :
    (fuel n : ℕ) (acc : List ℕ)
    → n < fuel
    → n < 2 ^ 64
    → parse_digits 0 (digits fuel n acc) ≡ parse_digits n acc
unfolding digits
parse_digits-digits zero n acc f h = absurd (omega arith)
parse_digits-digits (suc fuel) n acc f h = elim (Bool-cases (ltb n 10)) [
  | inl low ↦ rw low (
      parse_digits_more 0 n acc (ground (arith, low)) (omega arith)
      ∙ ap (λ (y : ℕ). parse_digits y acc) (omega arith))
  | inr high ↦
      let big : 10 ≤ n = ground (arith, high) in
      rw high (
        parse_digits-digits fuel (n / 10) ((n % 10 + 48) ∷ acc) (omega (arith, big)) (omega arith)
        ∙ parse_digits_more (n / 10) (n % 10) acc (omega arith) (omega arith)
        ∙ ap (λ (y : ℕ). parse_digits y acc) (omega arith))
]

digits_some :
    (fuel n : ℕ) (acc : List ℕ) → (b : ℕ) × (bs : List ℕ) × (digits (suc fuel) n acc ≡ b ∷ bs)
unfolding digits
digits_some zero n acc = elim (Bool-cases (ltb n 10)) [
  | inl low ↦ (n + 48, acc, rw low refl)
  | inr high ↦ (n % 10 + 48, acc, rw high refl)
]
digits_some (suc fuel) n acc = elim (Bool-cases (ltb n 10)) [
  | inl low ↦ (n + 48, acc, rw low refl)
  | inr high ↦
      let (b, bs, e) = digits_some fuel (n / 10) ((n % 10 + 48) ∷ acc) in (b, bs, rw high e)
]

-- Zeros in front change no number.
parse_uint-padded :
    (k : ℕ) (b : ℕ) (bs : List ℕ)
    → parse_uint (replicate k 48 ++ (b ∷ bs)) ≡ parse_digits 0 (b ∷ bs)
unfolding parse_uint
parse_uint-padded zero b bs = refl
parse_uint-padded (suc k) b bs = parse_digits_more 0 0 _ (omega arith) (omega arith) ∙ zeros k
  where
    zeros : (j : ℕ) → parse_digits 0 (replicate j 48 ++ (b ∷ bs)) ≡ parse_digits 0 (b ∷ bs)
    zeros zero = refl
    zeros (suc j) = parse_digits_more 0 0 _ (omega arith) (omega arith) ∙ zeros j

-- The file that the store writes for a number below 2^64 is the file that recovery reads that number
-- from: the name of `filePath` parses back to its segment number.
pub entry_num-file_name :
    (num : ℕ)
    → num < 2 ^ 64
    → entry_num (record { is_dir = false; name = file_name num }) ≡ some num
unfolding entry_num file_name strip_prefix parse_digits
entry_num-file_name num h =
    let (b, bs, e) = digits_some num num [] in
    let k = 8 - length (digits (suc num) num []) in
    let padded : parse_uint (replicate k 48 ++ digits (suc num) num [])
        ≡ parse_digits 0 (digits (suc num) num []) =
      subst (λ (ds : List ℕ). parse_uint (replicate k 48 ++ ds) ≡ parse_digits 0 ds) (sym e)
        (parse_uint-padded k b bs) in
    padded ∙ parse_digits-digits (suc num) num [] (omega arith) h ∙ last num
  where
    last : (n : ℕ) → parse_digits n [] ≡ some n
    last n = refl
