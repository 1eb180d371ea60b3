-- ===== src/Recovery/Load.antt =====
-- recovery.go: `load`, from the directory listing to the repaired headers.
use diskqueue.Base.{
  ℕ, ◌%◌, ◌^◌, ◌+◌, ◌-◌, Bool, true, false, not, ◌&&◌, ◌||◌, Option, none, some, List, [], ◌∷◌,
  ◌++◌, ◌==◌, ltb, leb, if◌then◌else◌,
}
use mathlib.Core.List.{reverse}
use diskqueue.Frame.{header_size}
use diskqueue.Header.{
  write_cursor, commit_cursor, written_count, committed_count, set_commit_cursor, set_write_cursor,
  set_written_count, set_committed_count,
}
use diskqueue.Store.State.{DataFile, Env, last?}
use diskqueue.Store.Action.{M, ok, err, ◌>>=◌, ◌>>◌, pure, gets, modify, attempt, when}
use diskqueue.Store.Os.{os_stat, os_read_dir, os_preallocate}
use diskqueue.Store.Files.{change_file, sync_dir, track_open, ensure_open, flush_file}
use diskqueue.Store.Segments.{modify_header, write_header, create_file}
use diskqueue.Store.Append.{active_file}
use diskqueue.Recovery.Names.{DirEntry, entry_num, file_name, same_name, sort, compact}
use diskqueue.Recovery.Segment.{load_file}

abbrev pub is_nil : List ℕ → Bool
is_nil [] = true
is_nil (n ∷ ns) = false

-- The commit cursor of the queue: at the first segment that is not committed to its end, or at the
-- tail. `ccs` are the segments' commit cursors.
unfoldable pub first_uncommitted : (ℕ → DataFile) → ℕ → List ℕ → List ℕ → ℕ
first_uncommitted heap tail [] ccs = tail
first_uncommitted heap tail (n ∷ ns) [] = tail
first_uncommitted heap tail (n ∷ ns) (cc ∷ ccs) =
    let rest = first_uncommitted heap tail ns ccs in
    if (heap n).reset_commit || ltb cc (header_size + (heap n).size)
    then (heap n).base + (cc - header_size)
    else rest

-- The committed count of a segment against the commit cursor of the queue.
abbrev pub reconciled : ℕ → DataFile → ℕ
reconciled commit df =
    if leb (df.base + df.size) commit
    then df.written
    else if leb commit df.base
    then 0
    else df.committed

-- The commit cursor that a segment has to publish.
abbrev pub repaired_commit : ℕ → DataFile → ℕ
repaired_commit commit df =
    if leb (df.base + df.size) commit
    then header_size + df.size
    else if ltb df.base commit
    then header_size + (commit - df.base)
    else header_size

-- Whether the header says it already.
abbrev pub agrees : ℕ → DataFile → Bool
agrees cc df =
    not df.truncated
    && (write_cursor df.hdr == header_size + df.size
        && (written_count df.hdr == df.written
            && (commit_cursor df.hdr == cc && committed_count df.hdr == df.committed)))

-- The pass over the counts.
unfoldable pub reconcile : List ℕ → M (Unit {0})
reconcile [] = pure tt
reconcile (n ∷ ns) = do
  s ← gets (λ s. s)
  change_file n (λ df. record df { committed = reconciled s.commit_off df })
  modify (λ t. record t { n_committed = t.n_committed + (t.heap n).committed })
  reconcile ns

-- The cursors of the queue, once every segment is loaded: the tail at `end`.
unfoldable pub place_cursors : ℕ → List ℕ → M (Unit {0})
place_cursors end ccs = do
  modify (λ s. record s { write_off = end })
  modify (λ s. record s { commit_off = first_uncommitted s.heap s.write_off s.files ccs })
  modify (λ s. record s { head_off = s.commit_off; n_committed = 0 })
  files ← gets (λ s. s.files)
  reconcile files

module _ (env : Env) where
  -- The segment numbers of the listing, unsorted: a name in another form counts only if the file of
  -- the usual form is there.
  unfoldable pub scan_entry : DirEntry → Option ℕ → M (List ℕ)
  scan_entry e none = pure []
  scan_entry e (some num) =
      if same_name e.name (file_name num)
      then pure (num ∷ [])
      else (do r ← attempt (os_stat env num); elim r [ ok _ ↦ pure (num ∷ []) | err _ ↦ pure [] ])

  unfoldable pub scan_entries : List DirEntry → M (List ℕ)
  scan_entries [] = pure []
  scan_entries (e ∷ es) = do
    ns ← scan_entry e (entry_num e)
    rest ← scan_entries es
    pure (ns ++ rest)

  -- `startFresh`.
  unfoldable pub start_fresh : ℕ → M (Unit {0})
  start_fresh num = do
    s ← gets (λ s. s)
    create_file env num s.write_off s.segment_size
    modify (λ t. record t {
      next_num = (num + 1) % 2 ^ 64;
      files = t.files ++ (num ∷ []);
      disk_bytes = t.disk_bytes + (header_size + (t.heap num).capacity);
    })
    track_open env num
    when (not s.no_sync) (sync_dir env)

  -- A loaded segment joins the live ones.
  unfoldable pub enlist : ℕ → M (Unit {0})
  enlist num = modify (λ s. record s {
    n_written = s.n_written + (s.heap num).written;
    files = s.files ++ (num ∷ []);
    disk_bytes = s.disk_bytes + (header_size + (s.heap num).capacity);
  })

  -- The loop over the segments from `base` on: the end of the last, and the commit cursors.
  unfoldable pub load_files : ℕ → List ℕ → M (ℕ × List ℕ)
  load_files base [] = pure (base, [])
  load_files base (n ∷ ns) = do
    r ← load_file env n base (is_nil ns)
    elim r [
      | none ↦ load_files base ns
      | some cc ↦ (do
        enlist n
        size ← gets (λ s. (s.heap n).size)
        rest ← load_files (base + size) ns
        pure (rest.0, cc ∷ rest.1))
    ]

  -- The aftercare of a truncated segment: best effort.
  unfoldable pub extend_truncated : ℕ → M (Unit {0})
  extend_truncated num = do
    df ← gets (λ s. s.heap num)
    when df.truncated (do
      _ ← attempt (os_preallocate env num (header_size + df.capacity))
      change_file num (λ t. record t { truncated = false }))

  -- One round of the repair.
  unfoldable pub repair_file : ℕ → M (Unit {0})
  repair_file num = do
    s ← gets (λ s. s)
    if agrees (repaired_commit s.commit_off (s.heap num)) (s.heap num) then pure tt else (do
      ensure_open env num
      modify_header env num (
          set_write_cursor (header_size + (s.heap num).size)
          ∷ set_written_count (s.heap num).written
          ∷ set_commit_cursor (repaired_commit s.commit_off (s.heap num))
          ∷ set_committed_count (s.heap num).committed
          ∷ [])
      write_header env num
      flush_file env num
      extend_truncated num)

  unfoldable pub repair_files : List ℕ → M (Unit {0})
  repair_files [] = pure tt
  repair_files (n ∷ ns) = do repair_file n; repair_files ns

  -- The active file is opened and reserved.
  unfoldable pub open_active : M (Unit {0})
  open_active = do
    af ← active_file
    ensure_open env af
    df ← gets (λ s. s.heap af)
    _ ← attempt (os_preallocate env af (header_size + df.capacity))
    pure tt

  -- `load` behind the loop over the segments.
  unfoldable pub settle_load : ℕ → List ℕ → List ℕ → M (Unit {0})
  settle_load end ccs [] = do next ← gets (λ s. s.next_num); start_fresh next
  settle_load end ccs (n ∷ ns) = do
    place_cursors end ccs
    repair_files (reverse (n ∷ ns))
    open_active

  unfoldable pub load_numbers : List ℕ → M (Unit {0})
  load_numbers [] = start_fresh 1
  load_numbers (n ∷ ns) = do
    modify (λ s. record s {
      next_num = elim (last? (n ∷ ns)) [ none ↦ 1 | some m ↦ (m + 1) % 2 ^ 64 ];
    })
    loaded ← load_files 0 (n ∷ ns)
    files ← gets (λ s. s.files)
    settle_load loaded.0 loaded.1 files

  -- `load`, given the entries that the listing answers.
  unfoldable pub load : List DirEntry → M (Unit {0})
  load entries = do os_read_dir env; nums ← scan_entries entries; load_numbers (compact (sort nums))
