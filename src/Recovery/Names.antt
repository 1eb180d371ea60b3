-- ===== src/Recovery/Names.antt =====
-- recovery.go: the segment numbers that a directory listing names. A name is the list of its bytes.
use diskqueue.Base.{
  ℕ, zero, suc, ◌+◌, ◌-◌, ◌*◌, ◌/◌, ◌%◌, ◌^◌, Bool, true, false, ◌&&◌, Option, none, some, List, [],
  ◌∷◌, ◌++◌, ◌==◌, ltb, leb, if◌then◌else◌, length, replicate,
}

-- An `os.DirEntry`.
pub record DirEntry : Type 0 where
  pub is_dir : Bool
  pub name : List ℕ

-- `filePrefix`: "data.".
abbrev pub file_prefix : List ℕ
file_prefix = b'd' ∷ b'a' ∷ b't' ∷ b'a' ∷ b'.' ∷ []

-- The name without the prefix, if it has it.
unfoldable pub strip_prefix : List ℕ → List ℕ → Option (List ℕ)
strip_prefix [] ys = some ys
strip_prefix (x ∷ xs) [] = none
strip_prefix (x ∷ xs) (y ∷ ys) = let rest = strip_prefix xs ys in if x == y then rest else none

abbrev pub is_digit : ℕ → Bool
is_digit b = leb 48 b && leb b 57

-- `strconv.ParseUint(s, 10, 64)` behind the first digits, of value `x`: none is its error.
unfoldable pub parse_digits : ℕ → List ℕ → Option ℕ
parse_digits x [] = some x
parse_digits x (b ∷ bs) =
    let more = parse_digits (x * 10 + (b - 48)) bs in
    if is_digit b && ltb (x * 10 + (b - 48)) (2 ^ 64) then more else none

unfoldable pub parse_uint : List ℕ → Option ℕ
parse_uint [] = none
parse_uint (b ∷ bs) = parse_digits 0 (b ∷ bs)

-- The decimal digits of a number, in front of `acc`. The fuel is above the number.
unfoldable pub digits : ℕ → ℕ → List ℕ → List ℕ
digits zero x acc = acc
digits (suc fuel) x acc =
    let more = digits fuel (x / 10) ((x % 10 + 48) ∷ acc) in
    if ltb x 10 then (x + 48) ∷ acc else more

-- The last component of `filePath`: the prefix and the number, with zeros up to eight digits.
unfoldable pub file_name : ℕ → List ℕ
file_name num =
    let ds = digits (suc num) num [] in file_prefix ++ (replicate (8 - length ds) 48 ++ ds)

abbrev pub same_name : List ℕ → List ℕ → Bool
same_name [] [] = true
same_name [] (y ∷ ys) = false
same_name (x ∷ xs) [] = false
same_name (x ∷ xs) (y ∷ ys) = x == y && same_name xs ys

-- The number that an entry's name parses to.
unfoldable pub entry_num : DirEntry → Option ℕ
entry_num e =
    if e.is_dir
    then none
    else elim (strip_prefix file_prefix e.name) [ none ↦ none | some rest ↦ parse_uint rest ]

-- `slices.Sort`.
unfoldable pub insert : ℕ → List ℕ → List ℕ
insert n [] = n ∷ []
insert n (m ∷ ms) = let rest = insert n ms in if leb n m then n ∷ m ∷ ms else m ∷ rest

unfoldable pub sort : List ℕ → List ℕ
sort [] = []
sort (n ∷ ns) = insert n (sort ns)

-- `slices.Compact`: one of each run of equals; `n` is the last that was kept.
unfoldable pub compact_from : ℕ → List ℕ → List ℕ
compact_from n [] = []
compact_from n (m ∷ ms) =
    let skip = compact_from n ms in
    let keep = compact_from m ms in if n == m then skip else m ∷ keep

unfoldable pub compact : List ℕ → List ℕ
compact [] = []
compact (n ∷ ns) = n ∷ compact_from n ns
