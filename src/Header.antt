-- ===== src/Header.antt =====
-- header.go: the 64-byte segment header, little-endian, as the list of its bytes (`dataFile.hdr`).
-- A field holds the bit pattern of its int64, which is the int64 itself below 2 ^ 63. `sum64` stands
-- for xxhash.Sum64. A setter returns a header modifier; `header` applies modifiers in order and then
-- rebuilds the checksum.
pub mod Layout
pub mod Fields
use diskqueue.Base.{ℕ, ◌^◌, Bool, not, List, [], ◌∷◌, ◌==◌, take, bit_and, bit_or, from_le}
use Layout.{
  Field, at_magic, at_commit_cursor, at_write_cursor, at_written_count, at_committed_count,
  at_version, at_flags, at_capacity, at_seg_size, at_checksum, get, put,
}

-- `formatVersion`, `flagOversized`, `hdrSumCovered`.
abbrev pub format_version : ℕ
format_version = 1

abbrev pub flag_oversized : ℕ
flag_oversized = 1

abbrev pub hdr_sum_covered : ℕ
hdr_sum_covered = 56

-- `headerMagic`: "WALGOseg" as a little-endian word.
abbrev pub header_magic : ℕ
header_magic = from_le (b'W' ∷ b'A' ∷ b'L' ∷ b'G' ∷ b'O' ∷ b's' ∷ b'e' ∷ b'g' ∷ [])

abbrev pub known_version : ℕ → Bool
known_version v = v == format_version

abbrev pub magic : List ℕ → ℕ
magic = get at_magic

abbrev pub version : List ℕ → ℕ
version = get at_version

abbrev pub oversized : List ℕ → Bool
oversized h = not (bit_and (get at_flags h) flag_oversized == 0)

abbrev pub commit_cursor : List ℕ → ℕ
commit_cursor = get at_commit_cursor

abbrev pub write_cursor : List ℕ → ℕ
write_cursor = get at_write_cursor

abbrev pub written_count : List ℕ → ℕ
written_count = get at_written_count

abbrev pub committed_count : List ℕ → ℕ
committed_count = get at_committed_count

abbrev pub hdr_capacity : List ℕ → ℕ
hdr_capacity = get at_capacity

abbrev pub hdr_seg_size : List ℕ → ℕ
hdr_seg_size = get at_seg_size

-- A header modifier.
abbrev pub Modifier : Type 0
Modifier = List ℕ → List ℕ

abbrev pub set_commit_cursor : ℕ → Modifier
set_commit_cursor = put at_commit_cursor

abbrev pub set_write_cursor : ℕ → Modifier
set_write_cursor = put at_write_cursor

abbrev pub set_written_count : ℕ → Modifier
set_written_count = put at_written_count

abbrev pub set_committed_count : ℕ → Modifier
set_committed_count = put at_committed_count

abbrev pub set_hdr_capacity : ℕ → Modifier
set_hdr_capacity = put at_capacity

abbrev pub set_hdr_seg_size : ℕ → Modifier
set_hdr_seg_size = put at_seg_size

abbrev pub set_oversized : Modifier
set_oversized h = put at_flags (bit_or (get at_flags h) flag_oversized) h

abbrev pub init_header : Modifier
init_header h = put at_version format_version (put at_magic header_magic h)

abbrev pub apply_all : List Modifier → Modifier
apply_all [] h = h
apply_all (m ∷ ms) h = apply_all ms (m h)

module _ (sum64 : List ℕ → ℕ) where
  unfoldable pub set_header_checksum : Modifier
  set_header_checksum h = put at_checksum (sum64 (take hdr_sum_covered h)) h

  unfoldable pub header_checksum_ok : List ℕ → Bool
  header_checksum_ok h = get at_checksum h == sum64 (take hdr_sum_covered h)

  unfoldable pub header : List Modifier → Modifier
  unfolding set_header_checksum
  header mods h = set_header_checksum (apply_all mods h)
