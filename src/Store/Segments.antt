-- ===== src/Store/Segments.antt =====
-- store.go: writing a header, creating, cycling and reclaiming segments, and finding one by offset.
pub mod Search
pub mod Offset
pub mod Find
use diskqueue.Base.{
  ℕ, ◌%◌, ◌^◌, zero, suc, ◌+◌, ◌-◌, ◌/◌, ◌≤◌, min, max, Bool, true, false, not, ◌&&◌, ◌||◌, Option,
  none, some, List, [], ◌∷◌, ◌++◌, ◌==◌, ltb, leb, if◌then◌else◌, length, take, replicate,
  get_elem?,
}
use diskqueue.Frame.{header_size}
use diskqueue.Header.{
  Modifier, header, init_header, set_commit_cursor, set_write_cursor, set_hdr_capacity,
  set_hdr_seg_size, set_oversized,
}
use diskqueue.Store.State.{
  Store, DataFile, Block, Env, Error, Sentinel, sentinel, join, errors_is, full, num_exhausted,
  os_closed, not_exist, update,
}
use diskqueue.Store.Action.{
  M, Result, ok, err, ◌>>=◌, ◌>>◌, pure, fail, gets, modify, attempt, when, check_io,
}
use diskqueue.Store.Os.{os_touch, os_read_at, os_write_at, os_create, os_preallocate, os_remove}
use diskqueue.Store.Files.{
  change_file, latch, ensure_open, track_open, sync_dir, lru_unlink, is_num,
}

-- The loop of `restoreHeader`: the length of the shortest prefix past which the images agree.
abbrev pub changed_prefix : List ℕ → List ℕ → ℕ
changed_prefix [] ys = 0
changed_prefix (x ∷ xs) [] = suc (length xs)
changed_prefix (x ∷ xs) (y ∷ ys) =
    let n = changed_prefix xs ys in if n == 0 then (if x == y then 0 else 1) else suc n

-- Whether `os.Remove` took the file away, or it was gone already.
abbrev pub removed : Result (Unit {0}) → Bool
removed (ok _) = true
removed (err e) = errors_is e not_exist

-- `dropBlock`.
unfoldable pub drop_block : M (Unit {0})
drop_block = modify (λ s. record s { block = record { file = none; off = 0; bytes = [] } })

-- The end of a round of `dropCommitted`: a file that could not be unlinked survives and is counted,
-- a file that is gone leaves the counts.
unfoldable pub book_removal : DataFile → Bool → M Bool
book_removal df false = do
  modify (λ s. record s { counters = record (s.counters) { unreclaimed = s.unreclaimed + 1 } })
  pure true
book_removal df true = do
  modify (λ s. record s {
    n_written = s.n_written - df.written;
    n_committed = s.n_committed - df.committed;
    disk_bytes = s.disk_bytes - (header_size + df.capacity);
  })
  pure false

module _ (env : Env) where
  -- `restoreHeader`: put back the changed first bytes of a header whose overwrite failed.
  unfoldable pub restore_header : ℕ → M (Unit {0})
  restore_header num = do
    current ← os_read_at env num 0 header_size
    df ← gets (λ s. s.heap num)
    if changed_prefix current df.disk_header == 0 then pure tt else (do
      change_file num (λ df. record df { dirty = true; write_seq = df.write_seq + 1 })
      os_write_at env num 0 (take (changed_prefix current df.disk_header) df.disk_header)
      os_touch env num)

  -- `writeHeader`: the resident header goes to page 0 of the file, which is marked dirty.
  unfoldable pub write_header : ℕ → M (Unit {0})
  write_header num = do
    is_open ← gets (λ s. (s.heap num).is_open)
    when (not is_open) (ensure_open env num)
    check_io
    hdr ← gets (λ s. (s.heap num).hdr)
    r ← attempt (os_write_at env num 0 hdr)
    elim r [
      | ok _ ↦ (do
        change_file num
            (λ df. record df { disk_header = hdr; dirty = true; write_seq = df.write_seq + 1 })
        modify (λ s. record s {
          counters = record (s.counters) { n_header_writes = s.n_header_writes + 1 };
        }))
      | err e ↦ if errors_is e os_closed then fail e else (do
        restored ← attempt (restore_header num)
        elim restored [ ok _ ↦ fail e | err re ↦ (do latched ← latch re; fail (join e latched)) ])
    ]

  -- `df.header(mods...)`.
  unfoldable pub modify_header : ℕ → List Modifier → M (Unit {0})
  modify_header num mods = change_file num (λ df. record df { hdr = header env.sum64 mods df.hdr })

  -- What `createFile` stamps into a fresh header.
  abbrev pub fresh_mods : ℕ → ℕ → List Modifier
  fresh_mods capacity segment_size =
      init_header
      ∷ set_commit_cursor header_size
      ∷ set_write_cursor header_size
      ∷ set_hdr_capacity capacity
      ∷ set_hdr_seg_size segment_size
      ∷ (if ltb segment_size capacity then set_oversized ∷ [] else [])

  abbrev pub fresh_file : ℕ → ℕ → DataFile
  fresh_file base capacity = record {
    hdr = replicate header_size 0;
    disk_header = replicate header_size 0;
    base = base;
    size = 0;
    capacity = capacity;
    written = 0;
    committed = 0;
    is_open = true;
    dirty = false;
    write_seq = 0;
    pins = 0;
    truncated = false;
    reset_commit = false;
  }

  -- The steps of `createFile` after the file is linked; a failure unlinks it again.
  unfoldable pub prepare_file : ℕ → ℕ → ℕ → M (Unit {0})
  prepare_file num base capacity = do
    os_preallocate env num (header_size + capacity)
    modify (λ s. record s { heap = update s.heap num (fresh_file base capacity) })
    segment_size ← gets (λ s. s.segment_size)
    modify_header num (fresh_mods capacity segment_size)
    write_header num
    no_sync ← gets (λ s. s.no_sync)
    when (not no_sync) (do os_touch env num; change_file num (λ df. record df { dirty = false }))

  unfoldable pub create_file : ℕ → ℕ → ℕ → M (Unit {0})
  create_file num base capacity = if num == 0 then fail (sentinel num_exhausted) else (do
    os_create env num
    r ← attempt (prepare_file num base capacity)
    elim r [ ok _ ↦ pure tt | err e ↦ (do _ ← attempt (os_remove env num); fail e) ])

  -- One reclaimable segment: `some` if it survives.
  unfoldable pub drop_file : ℕ → M Bool
  drop_file num = do
    df ← gets (λ s. s.heap num)
    if ltb 0 df.pins then pure true else (do
      when df.is_open (do change_file num (λ df. record df { is_open = false }); lru_unlink num)
      r ← attempt (os_remove env num)
      book_removal df (removed r))

  -- The loop of `dropCommitted` over the reclaimable prefix: the files that stay.
  unfoldable pub drop_prefix : Option ℕ → List ℕ → M (List ℕ)
  drop_prefix keep [] = pure []
  drop_prefix keep (n ∷ ns) = do
    stop ← gets (λ s. is_num n keep || ltb s.commit_off ((s.heap n).base + (s.heap n).size))
    if stop then pure (n ∷ ns) else (do
      survives ← drop_file n
      rest ← drop_prefix keep ns
      pure (if survives then n ∷ rest else rest))

  unfoldable pub drop_committed : Option ℕ → M (Unit {0})
  drop_committed keep = do
    files ← gets (λ s. s.files)
    elim files [
      | [] ↦ pure tt
      | n ∷ ns ↦ (do
        stop ← gets (λ s. is_num n keep || ltb s.commit_off ((s.heap n).base + (s.heap n).size))
        if stop then pure tt else (do
          modify (λ s. record s { last_frame_at = 0; last_frame_end = 0 })
          drop_block
          survivors ← drop_prefix keep (n ∷ ns)
          modify (λ s. record s { files = survivors })))
    ]

  -- `cycle`: a fresh active segment with room for `need` record bytes at least.
  unfoldable pub cycle : ℕ → Bool → M (Unit {0})
  cycle need force = do
    drop_committed none
    s ← gets (λ s. s)
    when (not force && (ltb 0 s.max_segments && leb s.max_segments (length s.files)))
        (fail (sentinel full))
    create_file s.next_num s.write_off (max s.segment_size need)
    modify (λ t. record t {
      next_num = (t.next_num + 1) % 2 ^ 64;
      files = t.files ++ (s.next_num ∷ []);
      disk_bytes = t.disk_bytes + (header_size + (t.heap s.next_num).capacity);
    })
    track_open env s.next_num
    check_io
    when (not s.no_sync) (sync_dir env)

-- `sort.Search` on [lo, hi): the first index at which the test holds, if it fails below and holds
-- above. The fuel is above hi - lo.
unfoldable pub search_loop : ℕ → (ℕ → Bool) → ℕ → ℕ → ℕ
search_loop zero test lo hi = lo
search_loop (suc fuel) test lo hi =
    let mid = (lo + hi) / 2 in
    let right = search_loop fuel test (mid + 1) hi in
    let left = search_loop fuel test lo mid in
    if ltb lo hi then (if test mid then left else right) else lo

unfoldable pub search_first : ℕ → (ℕ → Bool) → ℕ
unfolding search_loop
search_first n test = search_loop (suc n) test 0 n

-- A test of the file at an index of the live files.
abbrev pub at_index : Store → ℕ → (DataFile → Bool) → Bool
at_index s i p = elim (get_elem? s.files i) [ none ↦ false | some n ↦ p (s.heap n) ]

-- `fileForOffset`.
unfoldable pub file_for_offset : ℕ → Store → Option ℕ
file_for_offset off s =
    let i = search_first (length s.files) (λ i. at_index s i (λ df. ltb off (df.base + df.size))) in
    if at_index s i (λ df. leb df.base off) then get_elem? s.files i else none
