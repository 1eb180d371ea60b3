-- ===== src/Store/Block.antt =====
-- record.go: reading records through the cached block of one segment.
pub mod Mirror
pub mod Steady
pub mod Fill
pub mod Lookup
use Prim.Native.Nat.{min, max}
use diskqueue.Base.{
  ℕ, ◌+◌, ◌-◌, ◌*◌, ◌^◌, Bool, not, ◌&&◌, ◌||◌, Option, none, some, List, [], ◌++◌, ◌==◌, ltb, leb,
  if◌then◌else◌, length, slice,
}
use diskqueue.Frame.{header_size, max_varint_len64, uvarint, judge, cut}
use diskqueue.Store.State.{Store, Env, Error, sentinel, join, errors_is, corrupt, short_read}
use diskqueue.Store.Action.{M, ok, err, ◌>>=◌, ◌>>◌, pure, fail, gets, modify, attempt, when}
use diskqueue.Store.Os.{os_read_at}
use diskqueue.Store.Files.{is_num}
use diskqueue.Store.Segments.{drop_block}

-- `readAhead`.
abbrev pub read_ahead : ℕ
read_ahead = 64 * 2 ^ 10

-- `blockHas` and `blockAt`.
unfoldable pub block_has : ℕ → ℕ → ℕ → Store → Bool
block_has num data_off n s =
    is_num num s.block.file
    && (leb s.block.off data_off && leb (data_off + n) (s.block.off + length s.block.bytes))

unfoldable pub block_at : ℕ → ℕ → Store → List ℕ
block_at data_off n s = slice (data_off - s.block.off) n s.block.bytes

-- `shortReadIsCorrupt`.
abbrev pub short_read_is_corrupt : Error → Error
short_read_is_corrupt e = if errors_is e short_read then join (sentinel corrupt) e else e

-- Whether the block starts at `data_off` of the segment: it can be extended in place.
unfoldable pub starts_at : ℕ → ℕ → Store → Bool
starts_at num data_off s = is_num num s.block.file && s.block.off == data_off

-- The frame at `off` with the offset past it in place of its size.
abbrev pub past : ℕ → Option (List ℕ × ℕ × ℕ) → Option (List ℕ × ℕ × ℕ)
past off none = none
past off (some (payload, sum, total)) = some (payload, sum, off + total)

module _ (env : Env) where
  unfoldable pub read_block : ℕ → ℕ → ℕ → M (Unit {0})
  read_block num data_off n = do
    same ← gets (starts_at num data_off)
    held ← gets (λ s. s.block.bytes)
    let have = if same then held else []
    if same && leb n (length held) then pure tt else (do
      when (length have == 0) drop_block
      tail ← os_read_at env num (header_size + data_off + length have) (n - length have)
      modify (λ s. record s {
        block = record { file = some num; off = data_off; bytes = have ++ tail };
      }))

  unfoldable pub fill_block : ℕ → ℕ → ℕ → ℕ → M (Unit {0})
  fill_block num data_off avail need =
      let want = min (max read_ahead need) avail in
      let narrowed = min need avail in
      do
        r ← attempt (read_block num data_off want)
        elim r [
          | ok _ ↦ pure tt
          | err e ↦
              if not (errors_is e short_read)
              then (do drop_block; fail e)
              else (if ltb narrowed want
                  then (do
                    r' ← attempt (read_block num data_off narrowed)
                    elim r' [
                      | ok _ ↦ pure tt
                      | err e' ↦ (do drop_block; fail (short_read_is_corrupt e'))
                    ])
                  else (do drop_block; fail (short_read_is_corrupt e)))
        ]

  -- `frameHeader`: the width of the prefix and the size of the frame at `data_off`.
  unfoldable pub frame_header_at : ℕ → ℕ → ℕ → M (Option (ℕ × ℕ))
  frame_header_at num data_off avail =
      let probe = min max_varint_len64 avail in
      do
        has ← gets (block_has num data_off probe)
        when (not has) (fill_block num data_off avail probe)
        bytes ← gets (block_at data_off probe)
        pure (judge avail (uvarint bytes))

  -- The part of `recordAt` behind `frameHeader`: the whole frame is fetched and sliced.
  unfoldable pub fetch_frame : ℕ → ℕ → ℕ → ℕ → ℕ → M (Option (List ℕ × ℕ × ℕ))
  fetch_frame num data_off avail n total = do
    has ← gets (block_has num data_off total)
    when (not has) (do
      fill_block num data_off avail total
      has' ← gets (block_has num data_off total)
      when (not has') (fail (short_read_is_corrupt (sentinel short_read))))
    bytes ← gets (block_at data_off total)
    pure (cut bytes (some (n, total)))

  -- `recordAt`: payload, stored checksum, and the offset past the record.
  unfoldable pub record_at : ℕ → ℕ → M (Option (List ℕ × ℕ × ℕ))
  record_at num off = do
    df ← gets (λ s. s.heap num)
    if ltb off df.base || leb df.size (off - df.base) then pure none else (do
      header ← frame_header_at num (off - df.base) (df.size - (off - df.base))
      elim header [
        | none ↦ pure none
        | some (n, total) ↦ (do
          frame ← fetch_frame num (off - df.base) (df.size - (off - df.base)) n total
          pure (past off frame))
      ])

  -- `recordLen`: the offset past the record.
  unfoldable pub record_len : ℕ → ℕ → M (Option ℕ)
  record_len num off = do
    df ← gets (λ s. s.heap num)
    if ltb off df.base || leb df.size (off - df.base) then pure none else (do
      header ← frame_header_at num (off - df.base) (df.size - (off - df.base))
      pure (elim header [ none ↦ none | some (n, total) ↦ some (off + total) ]))

  -- `frameEnd`: the boundary that the last read established, or `recordLen`.
  unfoldable pub frame_end : ℕ → ℕ → M (Option ℕ)
  frame_end num off = do
    s ← gets (λ s. s)
    if not (s.last_frame_end == 0) && s.last_frame_at == off
        then pure (some s.last_frame_end)
        else record_len num off
