-- ===== src/Store/Commit.antt =====
-- store.go: the commit walk, and abandoning a damaged segment.
use Prim.Native.Nat.{min, max}
use diskqueue.Base.{
  ℕ, Option, ◌+◌, ◌-◌, Bool, true, not, ◌&&◌, none, some, List, [], ◌∷◌, ◌==◌, ltb, leb,
  if◌then◌else◌,
}
use diskqueue.Frame.{header_size}
use diskqueue.Header.{commit_cursor, committed_count, set_commit_cursor, set_committed_count}
use diskqueue.Store.State.{DataFile, Env, Error, errors_is, not_exist, per_op}
use diskqueue.Store.Action.{M, ok, err, ◌>>=◌, ◌>>◌, pure, fail, gets, modify, attempt, when}
use diskqueue.Store.Files.{change_file, ensure_open, flush_file}
use diskqueue.Store.Segments.{modify_header, write_header, file_for_offset}
use diskqueue.Store.Ledger.{drop_retired, push_reserved}

-- Every record of a file counts as committed: `abandoned` records more.
abbrev pub abandon : ℕ → ℕ → M (Unit {0})
abandon num abandoned = modify (λ s. record s {
  n_committed = s.n_committed + abandoned;
  n_committed_total = s.n_committed_total + abandoned;
})

abbrev pub book_loss : ℕ → ℕ → M (Unit {0})
book_loss bytes segments = modify (λ s. record s {
  counters = record (s.counters) {
    lost_bytes = s.lost_bytes + bytes;
    lost_segments = s.lost_segments + segments;
  };
})

abbrev pub count_corruption : M (Unit {0})
count_corruption =
    modify (λ s. record s { counters = record (s.counters) { corruptions = s.corruptions + 1 } })

module _ (env : Env) where
  -- `publishFullCommit`.
  unfoldable pub publish_full_commit : ℕ → M (Unit {0})
  publish_full_commit num = do
    opened ← attempt (ensure_open env num)
    elim opened [
      | err e ↦ if errors_is e not_exist then pure tt else fail e
      | ok _ ↦ (do
        df ← gets (λ s. s.heap num)
        modify_header env num
            (set_commit_cursor (header_size + df.size) ∷ set_committed_count df.written ∷ [])
        r ← attempt (write_header env num)
        elim r [
          | err e ↦ (do
            modify_header env num (
                set_commit_cursor (commit_cursor df.hdr)
                ∷ set_committed_count (committed_count df.hdr)
                ∷ [])
            fail e)
          | ok _ ↦ (do no_sync ← gets (λ s. s.no_sync); when (not no_sync) (flush_file env num))
        ])
    ]

  -- The loop of `forceCommitAll`.
  unfoldable pub force_files : List ℕ → M (Unit {0})
  force_files [] = pure tt
  force_files (n ∷ ns) = do
    df ← gets (λ s. s.heap n)
    if leb df.written df.committed && leb (header_size + df.size) (commit_cursor df.hdr)
        then force_files ns
        else (do
          publish_full_commit n
          abandon n (df.written - df.committed)
          change_file n (λ df. record df { committed = df.written })
          modify (λ s. record s { commit_off = max s.commit_off (df.base + df.size) })
          modify (λ s. record s { head_off = max s.head_off s.commit_off })
          force_files ns)

  unfoldable pub force_commit_all : M (Unit {0})
  force_commit_all = do
    files ← gets (λ s. s.files)
    force_files files
    modify (λ s. record s { n_committed = s.n_written })

  -- `skipCorruptSegment` where the offset lies in no live segment.
  unfoldable pub skip_to_tail : M (Unit {0})
  skip_to_tail = do
    head ← gets (λ s. s.head_off)
    force_commit_all
    count_corruption
    tail ← gets (λ s. s.write_off)
    book_loss (tail - head) 1
    modify (λ s. record s { head_off = s.write_off; commit_off = max s.commit_off s.write_off })

  -- The immediate retirement of the damage, where the commit cursor has reached it.
  unfoldable pub retire_segment : ℕ → M (Unit {0})
  retire_segment num = do
    publish_full_commit num
    df ← gets (λ s. s.heap num)
    when (ltb df.committed df.written) (do
      abandon num (df.written - df.committed)
      change_file num (λ df. record df { committed = df.written }))
    modify (λ s. record s { commit_off = max s.commit_off (df.base + df.size) })

  -- The rest of `skipCorruptSegment` for the segment `num`, which ends at `end`.
  unfoldable pub abandon_tail : ℕ → ℕ → ℕ → M (Unit {0})
  abandon_tail num off end = do
    s ← gets (λ s. s)
    when (ltb s.head_off end) (book_loss (end - s.head_off) 1)
    modify (λ s. record s { head_off = max s.head_off end })
    when (ltb s.commit_off end) (do
      drop_retired
      push_reserved (record {
        start = off;
        end = end;
        acked = true;
        corrupt = true;
        written = (s.heap num).written;
      }))
    count_corruption

  -- `skipCorruptSegment` behind `fileForOffset`.
  unfoldable pub skip_segment : ℕ → Option ℕ → M (Unit {0})
  skip_segment off none = skip_to_tail
  skip_segment off (some num) = do
    s ← gets (λ s. s)
    when (s.commit_off == off) (retire_segment num)
    abandon_tail num off ((s.heap num).base + (s.heap num).size)

  -- `skipCorruptSegment`.
  unfoldable pub skip_corrupt_segment : ℕ → M (Unit {0})
  skip_corrupt_segment off = do found ← gets (file_for_offset off); skip_segment off found

  -- `persistCommit` where the header could not be written: the cursor goes back to what `hdr` says.
  unfoldable pub revert_commit : ℕ → DataFile → Error → M (Unit {0})
  revert_commit num df e = do
    modify (λ s. record s {
      commit_off = df.base + commit_cursor df.hdr - header_size;
      n_committed = s.n_committed - (df.committed - committed_count df.hdr);
      n_committed_total = s.n_committed_total - (df.committed - committed_count df.hdr);
    })
    change_file num (λ t. record t { committed = committed_count df.hdr })
    modify_header env num (
        set_commit_cursor (commit_cursor df.hdr)
        ∷ set_committed_count (committed_count df.hdr)
        ∷ [])
    fail e

  -- `persistCommit`.
  unfoldable pub persist_commit : ℕ → Bool → M (Unit {0})
  persist_commit num per_op = do
    s ← gets (λ s. s)
    let df = s.heap num
    modify_header env num (
        set_commit_cursor (header_size + min (s.commit_off - df.base) df.size)
        ∷ set_committed_count df.committed
        ∷ [])
    r ← attempt (write_header env num)
    elim r [
      | ok _ ↦ when per_op (flush_file env num)
      | err e ↦ if errors_is e not_exist then pure tt else revert_commit num df e
    ]
