-- ===== src/Recovery/Segment.antt =====
-- recovery.go: recovering one segment from its header, and dropping one that cannot be believed.
use Prim.Native.Nat.{min, max}
use diskqueue.Base.{
  ℕ, ◌+◌, ◌-◌, ◌^◌, Bool, true, false, not, ◌&&◌, Option, none, some, List, [], ◌∷◌, ◌==◌, ltb, leb,
  if◌then◌else◌, replicate,
}
use diskqueue.Frame.{header_size}
use diskqueue.Header.{
  header_magic, magic, version, known_version, header_checksum_ok, hdr_seg_size, hdr_capacity,
  write_cursor, commit_cursor, written_count, committed_count, init_header, set_commit_cursor,
  set_write_cursor, set_written_count, set_committed_count, set_hdr_capacity, set_hdr_seg_size,
  set_oversized, Modifier,
}
use diskqueue.Store.State.{
  DataFile, Env, sentinel, errors_is, corrupt, segment_size_mismatch, update,
}
use diskqueue.Store.Action.{
  M, Result, ok, err, ◌>>=◌, ◌>>◌, pure, fail, gets, modify, attempt, when,
}
use diskqueue.Store.Os.{os_stat}
use diskqueue.Store.Files.{change_file, lru_unlink}
use diskqueue.Store.Segments.{drop_block, modify_header}
use diskqueue.Recovery.Frames.{survive_count, count_verified}
use diskqueue.Recovery.Drop.{
  book_corruption, remove_file, drop_segment, read_header, aborted_create,
}

-- An int64 of the header, with 0 for a negative one; the code takes every negative one for a number
-- below the least that it allows.
abbrev pub nonneg : ℕ → ℕ
nonneg v = if ltb v (2 ^ 63) then v else 0

-- What the code concludes from a header image that it read: `foreign` is an unknown format.
pub data Verdict : Type 0 where
  bad_magic torn unknown foreign trusted : Verdict

-- A file as `loadFile` makes it.
abbrev pub loaded_file : List ℕ → List ℕ → ℕ → ℕ → ℕ → DataFile
loaded_file hdr disk_header base size capacity = record {
  hdr = hdr;
  disk_header = disk_header;
  base = base;
  size = size;
  capacity = capacity;
  written = 0;
  committed = 0;
  is_open = false;
  dirty = false;
  write_seq = 0;
  pins = 0;
  truncated = false;
  reset_commit = false;
}

abbrev pub set_file : ℕ → DataFile → M (Unit {0})
set_file num df = modify (λ s. record s { heap = update s.heap num df })

-- `headerSize+capacity` is past the greatest int64, so that the code has a negative number for it.
abbrev pub wraps : ℕ → Bool
wraps capacity = leb (2 ^ 63) (header_size + capacity)

-- `size < headerSize+capacity` of `loadFile`.
abbrev pub cut_short : ℕ → ℕ → Bool
cut_short capacity size = not (wraps capacity) && ltb size (header_size + capacity)

-- `w - headerSize` of `loadFile`: the write cursor within the header, the capacity and the file. Where
-- the sum wraps, `w` is that negative number, which no file is shorter than, and the header's size less
-- is the capacity again.
abbrev pub clamp_write : ℕ → ℕ → ℕ → ℕ
clamp_write w capacity size =
    if wraps capacity
    then capacity
    else min (min (max w header_size) (header_size + capacity)) size - header_size

-- The commit cursor within the published bytes. Where `headerSize+df.size` wraps, that is the negative
-- number, here as its two's complement.
abbrev pub clamp_commit : ℕ → ℕ → ℕ
clamp_commit cc size =
    if wraps size then header_size + size else min (max cc header_size) (header_size + size)

module _ (env : Env) where
  -- The switch of `loadFile` on the header.
  unfoldable pub judge_header : List ℕ → Verdict
  judge_header h =
      if not (magic h == header_magic)
      then bad_magic
      else if not (header_checksum_ok env.sum64 h)
      then if known_version (version h) then torn else unknown
      else if known_version (version h)
      then trusted
      else foreign

  -- A walk failed: its handle goes.
  unfoldable pub close_walked : ℕ → M (Unit {0})
  close_walked num = do
    df ← gets (λ s. s.heap num)
    when df.is_open (do change_file num (λ t. record t { is_open = false }); lru_unlink num)

  -- The header that `salvageTornHeader` builds.
  abbrev pub salvage_mods : ℕ → ℕ → ℕ → ℕ → List Modifier
  salvage_mods size written capacity segment_size =
      init_header
      ∷ set_commit_cursor header_size
      ∷ set_write_cursor (header_size + size)
      ∷ set_written_count written
      ∷ set_committed_count 0
      ∷ set_hdr_capacity capacity
      ∷ set_hdr_seg_size segment_size
      ∷ (if ltb segment_size capacity then set_oversized ∷ [] else [])

  -- What the walk of a torn segment proved: `n` records up to `end`.
  unfoldable pub salvage_walked : ℕ → ℕ → ℕ → ℕ → M ℕ
  salvage_walked num size n end = do
    change_file num (λ df. record df { size = end - df.base; written = n })
    drop_block
    segment_size ← gets (λ s. s.segment_size)
    let capacity = max (size - header_size) segment_size
    change_file num (λ df. record df { capacity = capacity })
    df ← gets (λ s. s.heap num)
    modify_header env num (salvage_mods df.size df.written capacity segment_size)
    change_file num (λ df. record df { truncated = true; reset_commit = true })
    book_corruption
    pure header_size

  unfoldable pub salvage_or_fail : ℕ → ℕ → Result (ℕ × ℕ) → M ℕ
  salvage_or_fail num size (ok (n, end)) = salvage_walked num size n end
  salvage_or_fail num size (err e) = do close_walked num; fail e

  -- `salvageTornHeader`: the answer is the commit cursor; it never answers that it gave up without
  -- an error.
  unfoldable pub salvage_torn_header : ℕ → ℕ → ℕ → M ℕ
  salvage_torn_header num base size = do
    set_file num (
        loaded_file (replicate header_size 0) (replicate header_size 0) base (size - header_size) 0)
    r ← attempt (count_verified env num)
    salvage_or_fail num size r

  -- What survives of a segment whose published tail is gone: `n` records up to `end`.
  unfoldable pub clamp_frames : ℕ → Result (ℕ × ℕ) → M (Unit {0})
  clamp_frames num (err e) = do close_walked num; drop_block; fail e
  clamp_frames num (ok (n, end)) = do
    df ← gets (λ s. s.heap num)
    modify (λ s. record s {
      counters = record (s.counters) {
        lost_records = s.lost_records + (df.written - n);
        discarded_bytes = s.discarded_bytes + (df.base + df.size - end);
      };
    })
    change_file num (λ t. record t { written = n })
    when (ltb end (df.base + df.size))
        (do change_file num (λ t. record t { size = end - t.base }); drop_block)

  -- The end of `loadFile`: the committed count and the commit cursor within what is published.
  unfoldable pub load_commit : ℕ → List ℕ → M ℕ
  load_commit num h = do
    change_file num (λ t. record t { committed = min (nonneg (committed_count h)) t.written })
    df ← gets (λ s. s.heap num)
    pure (clamp_commit (nonneg (commit_cursor h)) df.size)

  -- The part of `loadFile` for a header that can be believed; a walk only if the tail is gone.
  unfoldable pub load_trusted : ℕ → ℕ → ℕ → List ℕ → M ℕ
  load_trusted num base size h =
      let capacity = nonneg (hdr_capacity h) in
      let w = nonneg (write_cursor h) in
      let truncated = cut_short capacity size in
      let lost_tail = truncated && ltb size w in
      do
        when lost_tail (do
          modify (λ s. record s {
            counters = record (s.counters) { discarded_bytes = s.discarded_bytes + (w - size) };
          })
          book_corruption)
        set_file num (record (loaded_file h h base (clamp_write w capacity size) capacity) {
          truncated = truncated;
          written = nonneg (written_count h);
        })
        when lost_tail (do r ← attempt (survive_count env num); clamp_frames num r)
        load_commit num h

  -- The answers of the drops: no segment.
  unfoldable pub dropped : M (Unit {0}) → M (Option ℕ)
  dropped m = do m; pure none

  unfoldable pub kept : M ℕ → M (Option ℕ)
  kept m = do cc ← m; pure (some cc)

  -- A file whose header is no header of a segment.
  unfoldable pub load_unmarked : ℕ → ℕ → Bool → List ℕ → M (Option ℕ)
  load_unmarked num size tail h = do
    aborted ← (if tail then aborted_create env num size h else pure false)
    dropped (if aborted then remove_file env num else drop_segment env num size false)

  unfoldable pub load_judged : ℕ → ℕ → ℕ → Bool → List ℕ → Verdict → M (Option ℕ)
  load_judged num base size tail h bad_magic = load_unmarked num size tail h
  load_judged num base size tail h torn = kept (do
    cc ← salvage_torn_header num base size
    change_file num (λ df. record df { disk_header = h })
    pure cc)
  load_judged num base size tail h unknown = dropped (drop_segment env num size false)
  load_judged num base size tail h foreign = dropped (drop_segment env num size true)
  load_judged num base size tail h trusted = do
    segment_size ← gets (λ s. s.segment_size)
    if hdr_seg_size h == segment_size
        then kept (load_trusted num base size h)
        else fail (sentinel segment_size_mismatch)

  unfoldable pub load_read : ℕ → ℕ → ℕ → Bool → Result (List ℕ) → M (Option ℕ)
  load_read num base size tail (err e) =
      if errors_is e corrupt then dropped (drop_segment env num size false) else fail e
  load_read num base size tail (ok h) = load_judged num base size tail h (judge_header h)

  -- `loadFile`: the commit cursor of the segment, or none where it was dropped.
  unfoldable pub load_file : ℕ → ℕ → Bool → M (Option ℕ)
  load_file num base tail = do
    size ← os_stat env num
    if size == 0
        then dropped (if tail then remove_file env num else drop_segment env num size false)
        else (do r ← attempt (read_header env num); load_read num base size tail r)
