-- ===== src/Queue/Sync.antt =====
-- diskqueue.go, store.go: `Sync`, whose fdatasyncs run off the queue's lock, and the close of the
-- store. `others k` is what the other goroutines do to the store while the lock is released for the
-- k-th last time in a chunk. A handle that is pinned is not closed, so that its fdatasync is the
-- call `os_touch` of the file.

pub mod Pins
pub mod Balance
pub mod Marks
pub mod Reports
pub mod Close
use diskqueue.Base.{
  ℕ, zero, suc, ◌+◌, ◌-◌, Bool, true, false, ◌&&◌, Option, none, some, List, [], ◌∷◌, ◌==◌, ltb,
  leb, if◌then◌else◌, length, take, drop, get_elem?,
}
use diskqueue.Store.State.{Store, Env, Error, sentinel, join, closed, flush_chunk_size}
use diskqueue.Store.Action.{
  M, Result, ok, err, ◌>>=◌, ◌>>◌, pure, fail, gets, modify, attempt, when, check_io,
}
use diskqueue.Store.Os.{os_touch}
use diskqueue.Store.Files.{change_file, latch, ensure_open, flush_file, sync_dir, lru_unlink}
use diskqueue.Store.Segments.{search_first}
use diskqueue.Queue.Batch.{error_of}

-- `live`: the first live file whose number is not below this one's is this one.
abbrev at_least : Option ℕ → ℕ → Bool
at_least none num = false
at_least (some n) num = leb num n

abbrev pub same_num : Option ℕ → ℕ → Bool
same_num none num = false
same_num (some n) num = n == num

unfoldable pub live : ℕ → Store → Bool
live num s =
    let i = search_first (length s.files) (λ i. at_least (get_elem? s.files i) num) in
    same_num (get_elem? s.files i) num

-- `target` of `flushChunk`: a pinned file and the number of its writes at the pin.
pub record Target : Type 0 where
  pub num : ℕ
  pub seq : ℕ

-- `errors.Join` of two errors that may be nil.
abbrev pub join_both : Option Error → Option Error → Option Error
join_both none es = es
join_both (some e) none = some e
join_both (some e) (some f) = some (join e f)

-- `df.pins++` and `df.pins--`.
abbrev pub pin : ℕ → M (Unit {0})
pin num = change_file num (λ df. record df { pins = df.pins + 1 })

abbrev pub unpin : ℕ → M (Unit {0})
unpin num = change_file num (λ df. record df { pins = df.pins - 1 })

-- The dirty files among the live ones, in their order.
abbrev pub dirty_files : Store → List ℕ → List ℕ
dirty_files s [] = []
dirty_files s (n ∷ ns) = let rest = dirty_files s ns in if (s.heap n).dirty then n ∷ rest else rest

-- One target is unpinned. A failed fdatasync latches; otherwise the file is clean if nothing was
-- written to it since the pin.
unfoldable pub settle_target : Target → Result (Unit {0}) → M (Option Error)
settle_target t (err e) = do unpin t.num; latched ← latch e; pure (some latched)
settle_target t (ok _) = do
  unpin t.num
  seq ← gets (λ s. (s.heap t.num).write_seq)
  when (seq == t.seq) (change_file t.num (λ df. record df { dirty = false }))
  pure none

unfoldable pub settle_targets : List (Target × Result (Unit {0})) → M (Option Error)
settle_targets [] = pure none
settle_targets ((t, r) ∷ ts) = do
  e ← settle_target t r
  es ← settle_targets ts
  pure (join_both e es)

-- `n` of the loop of `syncOffLock`: the next chunk's length.
abbrev pub chunk_len : ℕ → ℕ → ℕ
chunk_len size n = if ltb 0 size && ltb size n then size else n

module _ (env : Env) where
  -- The first part of `flushChunk`, under the lock: files that are gone or clean by now are skipped,
  -- the others are opened and pinned.
  unfoldable pub pin_chunk : List ℕ → M (List Target × Option Error)
  pin_chunk [] = pure ([], none)
  pin_chunk (n ∷ ns) = do
    wanted ← gets (λ s. live n s && (s.heap n).dirty)
    if wanted
        then (do
          r ← attempt (ensure_open env n)
          elim r [
            | err e ↦ (do rest ← pin_chunk ns; pure (rest.0, join_both (some e) rest.1))
            | ok _ ↦ (do
              pin n
              seq ← gets (λ s. (s.heap n).write_seq)
              rest ← pin_chunk ns
              pure (record { num = n; seq = seq } ∷ rest.0, rest.1))
          ])
        else pin_chunk ns

-- The tail of `syncOffLock`: the gauges lose what was unsynced at the start, unless a flush has
-- zeroed them since.
unfoldable pub settle_gauges : ℕ → ℕ → ℕ → M (Unit {0})
settle_gauges ops bytes epoch = modify (λ s.
    if s.flush_epoch == epoch
    then record s { unsynced = s.unsynced - ops; unsynced_bytes = s.unsynced_bytes - bytes }
    else s)

module _ (env : Env) (others : ℕ → M (Unit {0})) where
  -- The fdatasyncs, off the lock: the other goroutines run before and between them.
  unfoldable pub sync_targets : List Target → M (List (Target × Result (Unit {0})))
  sync_targets [] = do _ ← attempt (others 0); pure []
  sync_targets (t ∷ ts) = do
    _ ← attempt (others (suc (length ts)))
    r ← attempt (os_touch env t.num)
    rest ← sync_targets ts
    pure ((t, r) ∷ rest)

  unfoldable pub flush_chunk : List ℕ → M (Option Error)
  flush_chunk chunk = do
    pinned ← pin_chunk env chunk
    synced ← sync_targets pinned.0
    errs ← settle_targets synced
    pure (join_both pinned.1 errs)

  -- The loop of `syncOffLock` over the chunks. The fuel is the number of files.
  unfoldable pub flush_chunks : ℕ → List ℕ → M (Option Error)
  flush_chunks zero ds = pure none
  flush_chunks (suc fuel) [] = pure none
  flush_chunks (suc fuel) (d ∷ ds) = do
    size ← gets flush_chunk_size
    e ← flush_chunk (take (chunk_len size (length (d ∷ ds))) (d ∷ ds))
    es ← flush_chunks fuel (drop (chunk_len size (length (d ∷ ds))) (d ∷ ds))
    pure (join_both e es)

  -- `syncOffLock`: `quiesce` is what happens while `waitFlushQuiescedLocked` waits, and
  -- `closed_after` whether the queue was closed meanwhile.
  unfoldable pub sync_off_lock : Bool → M (Unit {0}) → Bool → M (Unit {0})
  sync_off_lock closed_before quiesce closed_after =
      if closed_before then fail (sentinel closed) else (do
        _ ← attempt quiesce
        when closed_after (fail (sentinel closed))
        check_io
        s ← gets (λ s. s)
        errs ← flush_chunks (length s.files) (dirty_files s s.files)
        elim errs [ none ↦ pure tt | some e ↦ fail e ]
        check_io
        sync_dir env
        settle_gauges s.unsynced s.unsynced_bytes s.flush_epoch)

-- `first` of `store.close`: the first error seen.
abbrev pub first_error : Option Error → Result (Unit {0}) → Option Error
first_error (some e) r = some e
first_error none r = error_of r

module _ (env : Env) where
  -- One file of `store.close`: it is flushed unless the store is latched, and its handle closed.
  -- Closing the descriptor itself cannot lose data that was flushed; its error is `closing`.
  unfoldable pub close_file : (ℕ → Result (Unit {0})) → ℕ → Option Error → M (Option Error)
  close_file closing num first = do
    s ← gets (λ s. s)
    flushed ← attempt (elim s.io_err [ none ↦ flush_file env num | some e ↦ pure tt ])
    change_file num (λ df. record df { dirty = false })
    df ← gets (λ s. s.heap num)
    if df.is_open
        then (do
          lru_unlink num
          change_file num (λ df. record df { is_open = false })
          pure (first_error (first_error first flushed) (closing num)))
        else pure (first_error first flushed)

  unfoldable pub close_files : (ℕ → Result (Unit {0})) → List ℕ → Option Error → M (Option Error)
  close_files closing [] first = pure first
  close_files closing (n ∷ ns) first = do e ← close_file closing n first; close_files closing ns e

  -- `store.close`: `closing` says how the closes of the descriptors end, number 0 for the directory's.
  unfoldable pub close : (ℕ → Result (Unit {0})) → M (Unit {0})
  close closing = do
    s ← gets (λ s. s)
    first ← close_files closing s.files s.io_err
    synced ← attempt (elim first [ none ↦ sync_dir env | some e ↦ pure tt ])
    let last = first_error first synced
    when (elim last [ none ↦ true | some e ↦ false ])
        (modify (λ s. record s { unsynced = 0; unsynced_bytes = 0 }))
    modify (λ s. record s { lru = [] })
    elim (first_error last (closing 0)) [ none ↦ pure tt | some e ↦ fail e ]
