-- ===== src/Frame.antt =====
-- record.go: the frame uvarint(len) || payload || xxhash64(payload), and the guards of its lengths.
-- A byte slice is a list of numbers below 256; a uint64, an int and an int64 are numbers, and what
-- would wrap is written out. `sum64` stands for xxhash.Sum64, a package of its own.
pub mod Uvarint
pub mod Bounds
pub mod RoundTrip
use Prim.Native.Nat.{min}
use diskqueue.Base.{
  ℕ, zero, suc, ◌+◌, ◌-◌, ◌*◌, ◌/◌, ◌%◌, ◌^◌, Bool, ◌&&◌, Option, none, some, List, [], ◌∷◌, ◌++◌,
  ltb, leb, if◌then◌else◌, length, take, drop, le_bytes, from_le,
}

-- `checksumSize`.
abbrev pub checksum_size : ℕ
checksum_size = 8

-- `headerSize`.
abbrev pub header_size : ℕ
header_size = 64

-- `binary.MaxVarintLen64`.
abbrev pub max_varint_len64 : ℕ
max_varint_len64 = 10

-- The greatest int of a 64-bit build: `maxInt` of `fitsInRecord`, and `maxFramedLen`.
abbrev pub max_int : ℕ
max_int = 2 ^ 63 - 1

-- The loop of `uvarintLen`: `n` counts the bytes so far. The fuel is above `x`.
pub uvarint_len_loop : ℕ → ℕ → ℕ → ℕ
uvarint_len_loop zero x n = n
uvarint_len_loop (suc fuel) x n =
    let more = uvarint_len_loop fuel (x / 128) (n + 1) in if leb 128 x then more else n

unfoldable pub uvarint_len : ℕ → ℕ
unfolding uvarint_len_loop
uvarint_len x = uvarint_len_loop (suc x) x 1

unfoldable pub framed_len : ℕ → ℕ
framed_len l = uvarint_len l + l + checksum_size

unfoldable pub framed_too_large : ℕ → ℕ → Bool
framed_too_large framed max_int = ltb max_int framed

-- `binary.PutUvarint`: seven bits a byte, lowest first, the top bit set on all but the last.
pub put_uvarint_loop : ℕ → ℕ → List ℕ
put_uvarint_loop zero x = []
put_uvarint_loop (suc fuel) x =
    let more = (x % 128 + 128) ∷ put_uvarint_loop fuel (x / 128) in
    if leb 128 x then more else x ∷ []

unfoldable pub put_uvarint : ℕ → List ℕ
unfolding put_uvarint_loop
put_uvarint x = put_uvarint_loop (suc x) x

-- `binary.Uvarint` at byte `i`, with `p = 2 ^ (7 * i)`; `none` is its n <= 0: the bytes end inside
-- the number, or it does not fit 64 bits.
pub uvarint_at : List ℕ → ℕ → ℕ → ℕ → Option (ℕ × ℕ)
uvarint_at [] i p x = none
uvarint_at (b ∷ bs) i p x =
    let more = uvarint_at bs (i + 1) (p * 128) (x + b % 128 * p) in
    if leb max_varint_len64 i
    then none
    else if ltb b 128
    then if leb 9 i && ltb 1 b then none else some (x + b * p, i + 1)
    else more

unfoldable pub uvarint : List ℕ → Option (ℕ × ℕ)
unfolding uvarint_at
uvarint buf = uvarint_at buf 0 1 0

-- `fitsWithin`: both sums are of uint64.
unfoldable pub fits_within : ℕ → ℕ → ℕ → ℕ → Bool
fits_within v n avail max_int =
    leb v avail && leb ((n + v + checksum_size) % 2 ^ 64) (min avail max_int)

unfoldable pub fits_in_record : ℕ → ℕ → ℕ → Bool
unfolding fits_within
fits_in_record v n avail = fits_within v n avail max_int

module _ (sum64 : List ℕ → ℕ) where
  -- The bytes that `writeRecord` lays down for a payload.
  unfoldable pub frame : List ℕ → List ℕ
  frame payload = put_uvarint (length payload) ++ (payload ++ le_bytes 8 (sum64 payload))

-- The guard of `frameHeader` on the decoded prefix: value `v` in `n` bytes.
unfoldable pub judge : ℕ → Option (ℕ × ℕ) → Option (ℕ × ℕ)
judge avail none = none
judge avail (some (v, n)) =
    if fits_in_record v n avail then some (n, n + v + checksum_size) else none

-- What `frameHeader` decides from the bytes at the record: the width of the prefix and the total
-- frame size, or none when the bytes cannot be trusted to frame a record in the `avail` bytes left.
unfoldable pub frame_header : List ℕ → ℕ → Option (ℕ × ℕ)
unfolding judge
frame_header bytes avail = judge avail (uvarint (take (min max_varint_len64 avail) bytes))

-- The slices of `recordAt` out of the frame's bytes.
unfoldable pub cut : List ℕ → Option (ℕ × ℕ) → Option (List ℕ × ℕ × ℕ)
cut bytes none = none
cut bytes (some (n, total)) =
    let l = total - n - checksum_size in
    some (take l (drop n bytes), from_le (take 8 (drop (n + l) bytes)), total)

-- What `recordAt` slices out of the bytes at the record: payload, stored checksum and frame size.
unfoldable pub decode : List ℕ → ℕ → Option (List ℕ × ℕ × ℕ)
unfolding cut
decode bytes avail = cut bytes (frame_header bytes avail)
