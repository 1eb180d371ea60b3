-- ===== src/Frame/Bounds.antt =====
-- The guards: no decoded length reaches past the bytes that are there, on any word size.
use diskqueue.Base.{
  ℕ, ◌+◌, ◌^◌, ◌≤◌, ◌<◌, min, ◌≡◌, ◌↔◌, refl, true, some, none, List, ◌++◌, arith, length,
  length-append, length-le_bytes, le_bytes, take, Option,
}
use diskqueue.Frame.{
  framed_len, put_uvarint, uvarint, fits_within, fits_in_record, frame, frame_header, judge,
  max_int, max_varint_len64,
}
use diskqueue.Frame.Uvarint.{uvarint_len-eq, uvarint-width}

-- `fitsWithin` is exact: it holds exactly when the frame of prefix width `n`, payload `v` and
-- checksum fits both the bytes left and the platform's int, for any uint64 `v`, any prefix of at
-- most ten bytes and any int64 `avail`; the sum of uint64 never wraps when it is compared.
pub fits_within_iff :
    (v n avail max_int : ℕ)
    → n ≤ 10
    → v < 2 ^ 64
    → avail < 2 ^ 63
    → (fits_within v n avail max_int ≡ true) ↔ ((n + v + 8 ≤ avail) × (n + v + 8 ≤ max_int))
unfolding fits_within
fits_within_iff v n avail max_int hn hv ha = ground arith

module _ (sum64 : List ℕ → ℕ) where
  -- `framedLen` of a payload's length is the number of bytes that `writeRecord` lays down for the
  -- payload, prefix and checksum included.
  pub length-frame : (payload : List ℕ) → length (frame sum64 payload) ≡ framed_len (length payload)
  unfolding frame framed_len
  length-frame payload = omega (
    arith,
    length-append (put_uvarint (length payload)) (payload ++ le_bytes 8 (sum64 payload)),
    length-append payload (le_bytes 8 (sum64 payload)),
    length-le_bytes 8 (sum64 payload),
    uvarint_len-eq (length payload),
  )

pub accepted :
    (bytes : List ℕ) (avail n total : ℕ) (p : Option (ℕ × ℕ))
    → avail < 2 ^ 63
    → uvarint bytes ≡ p
    → judge avail p ≡ some (n, total)
    → (1 ≤ n) × (n + 8 ≤ total) × (total ≤ avail)
unfolding judge fits_in_record fits_within
accepted bytes avail n total none ha u e = cc
accepted bytes avail n total (some (v, w)) ha u e = ground (arith, uvarint-width bytes v w u)

-- Whatever bytes are on disk, a frame that `frameHeader` accepts lies inside the `avail` bytes left
-- and holds its prefix and its checksum.
pub frame_header_bounds :
    (bytes : List ℕ) (avail n total : ℕ)
    → avail < 2 ^ 63
    → frame_header bytes avail ≡ some (n, total)
    → (1 ≤ n) × (n + 8 ≤ total) × (total ≤ avail)
unfolding frame_header
frame_header_bounds bytes avail n total ha e =
    accepted (take (min max_varint_len64 avail) bytes) avail n total _ ha refl e
