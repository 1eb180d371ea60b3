-- ===== src/Queue/Options.antt =====
-- diskqueue.go: how the options of `New` become the store's configuration. An int or int64 option is
-- a number with its sign: `ℤ`.
use diskqueue.Base.{ℕ, ◌+◌, ◌-◌, ◌*◌, ◌/◌, ◌%◌, ◌^◌, ◌≤◌, ◌<◌, ◌≡◌, ltb, ◌==◌, if◌then◌else◌, arith}

-- `negsuc n` is -(n + 1).
pub data ℤ : Type 0 where
  pos : ℕ → ℤ
  negsuc : ℕ → ℤ

-- `defaultMaxSegments`, `segmentAlign`.
abbrev pub default_max_segments : ℕ
default_max_segments = 32

abbrev pub segment_align : ℕ
segment_align = 4096

abbrev pub max_seg : ℕ
max_seg = 2 ^ 48 - segment_align

-- 0 stands for no bound.
unfoldable pub resolve_max_segments : ℤ → ℕ
resolve_max_segments (pos v) = if v == 0 then default_max_segments else v
resolve_max_segments (negsuc v) = 0

-- `c <= 0` selects 8 MiB.
abbrev pub requested : ℤ → ℕ
requested (pos c) = if c == 0 then 8 * 2 ^ 20 else c
requested (negsuc c) = 8 * 2 ^ 20

unfoldable pub segment_capacity : ℤ → ℕ
segment_capacity size =
    let asked = requested size in
    let c = if ltb asked segment_align then segment_align else asked in
    if ltb max_seg c
    then max_seg
    else if c % segment_align == 0
    then c
    else (c / segment_align + 1) * segment_align

-- `openStore`: a cap on open files below 3 is 3; 0 is no cap.
unfoldable pub open_files_cap : ℤ → ℕ
open_files_cap (pos n) = if n == 0 then 0 else if ltb n 3 then 3 else n
open_files_cap (negsuc n) = 3

-- The capacity of a segment is a multiple of 4096, at least 4096, below 2 ^ 48 (six bytes of the
-- header hold it), no smaller than what was asked for unless that is past the greatest capacity, and
-- less than a page above it.
pub segment_capacity_bounds :
    (size : ℤ)
    → (segment_capacity size % 4096 ≡ 0)
      × (4096 ≤ segment_capacity size)
      × (segment_capacity size < 2 ^ 48)
      × (requested size ≤ max_seg → requested size ≤ segment_capacity size)
      × (segment_capacity size < requested size + 4096)
unfolding segment_capacity
segment_capacity_bounds (pos c) = ground arith
segment_capacity_bounds (negsuc c) = ground arith
