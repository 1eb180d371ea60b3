-- ===== src/Store/Files.antt =====
-- store.go: the open segment files, and flushing them.
use diskqueue.Base.{
  ℕ, zero, suc, ◌+◌, Bool, true, false, not, ◌&&◌, Option, none, some, List, [], ◌∷◌, ◌==◌, ltb,
  leb, if◌then◌else◌, length,
}
use mathlib.Core.List.{reverse}
use diskqueue.Store.State.{
  Store, DataFile, Env, Error, sentinel, join, errors_is, io, unsupported, update, active,
}
use diskqueue.Store.Action.{
  M, Result, ok, err, ◌>>=◌, ◌>>◌, pure, fail, gets, modify, attempt, when, check_io,
}
use diskqueue.Store.Os.{os_touch, os_sync_dir}

abbrev pub change_file : ℕ → (DataFile → DataFile) → M (Unit {0})
change_file num f = modify (λ s. record s { heap = update s.heap num (f (s.heap num)) })

-- `err := s.failIO(e); return err`: the first failure is latched and repeated.
unfoldable pub latch : Error → M Error
latch e s = elim s.io_err [
  | none ↦ (ok (join (sentinel io) e), record s { io_err = some (join (sentinel io) e) })
  | some first ↦ (ok first, s)
]

unfoldable pub fail_io : {A : Type 0} → Error → M A
fail_io e = do first ← latch e; fail first

abbrev pub remove_num : ℕ → List ℕ → List ℕ
remove_num n [] = []
remove_num n (m ∷ ms) = let rest = remove_num n ms in if m == n then rest else m ∷ rest

-- `lruPushMRU`, `lruUnlink`, `touchOpen`: the head is the most recently used.
unfoldable pub lru_push_mru : ℕ → M (Unit {0})
lru_push_mru num = modify (λ s. record s { lru = num ∷ s.lru })

unfoldable pub lru_unlink : ℕ → M (Unit {0})
lru_unlink num = modify (λ s. record s { lru = remove_num num s.lru })

unfoldable pub touch_open : ℕ → M (Unit {0})
touch_open num = do lru_unlink num; lru_push_mru num

abbrev pub is_num : ℕ → Option ℕ → Bool
is_num n none = false
is_num n (some m) = n == m

-- The file to evict: from the least recently used end, not the active one, not `keep`, not pinned.
pub victim : Store → ℕ → List ℕ → Option ℕ
victim s keep [] = none
victim s keep (n ∷ ns) =
    let rest = victim s keep ns in
    if not (is_num n (active s)) && (not (n == keep) && (s.heap n).pins == 0) then some n else rest

-- `errors.Join` of one more result: nil errors are left out.
abbrev pub join_result : Result (Unit {0}) → Option Error → Option Error
join_result (ok _) rest = rest
join_result (err e) none = some e
join_result (err e) (some f) = some (join e f)

module _ (env : Env) where
  -- The end of `flushFile`, with the handle open: fdatasync, and mark the file clean.
  unfoldable pub flush_open : ℕ → M (Unit {0})
  flush_open num = do
    check_io
    r ← attempt (os_touch env num)
    elim r [ ok _ ↦ change_file num (λ df. record df { dirty = false }) | err e ↦ fail_io e ]

  -- One round of `evictOpen`: flush a dirty victim (its handle is open, so `flushFile` does not
  -- reopen it), close it, unlink it.
  unfoldable pub evict_victim : ℕ → M (Unit {0})
  evict_victim num = do
    dirty ← gets (λ s. (s.heap num).dirty)
    no_sync ← gets (λ s. s.no_sync)
    _ ← attempt (when (not no_sync && dirty) (flush_open num))
    change_file num (λ df. record df { is_open = false })
    lru_unlink num

  -- The loop of `evictOpen`. Each round takes a file off the list, so its length is fuel enough.
  unfoldable pub evict_loop : ℕ → ℕ → M (Unit {0})
  evict_loop zero keep = pure tt
  evict_loop (suc fuel) keep = do
    more ← gets (λ s. ltb s.max_open_files (length s.lru))
    v ← gets (λ s. victim s keep (reverse s.lru))
    if more
        then elim v [ none ↦ pure tt | some n ↦ (do evict_victim n; evict_loop fuel keep) ]
        else pure tt

  unfoldable pub evict_open : ℕ → M (Unit {0})
  evict_open keep = do
    cap ← gets (λ s. s.max_open_files)
    open_count ← gets (λ s. length s.lru)
    if cap == 0 then pure tt else evict_loop open_count keep

  unfoldable pub track_open : ℕ → M (Unit {0})
  track_open num = do lru_push_mru num; evict_open num

  unfoldable pub ensure_open : ℕ → M (Unit {0})
  ensure_open num = do
    is_open ← gets (λ s. (s.heap num).is_open)
    if is_open then touch_open num else (do
      os_touch env num
      change_file num (λ df. record df { is_open = true })
      track_open num)

  unfoldable pub flush_file : ℕ → M (Unit {0})
  flush_file num = do
    df ← gets (λ s. s.heap num)
    if df.dirty then (do when (not df.is_open) (ensure_open num); flush_open num) else pure tt

  -- `syncDir`: a file system with no directory fsync is not a failure.
  unfoldable pub sync_dir : M (Unit {0})
  sync_dir = do
    r ← attempt (os_sync_dir env)
    elim r [ ok _ ↦ pure tt | err e ↦ if errors_is e unsupported then pure tt else fail_io e ]

  -- The loop of `flushBatch`: it keeps going past a file that cannot be flushed, and joins the
  -- errors.
  unfoldable pub flush_all : List ℕ → M (Option Error)
  flush_all [] = pure none
  flush_all (n ∷ ns) = do r ← attempt (flush_file n); rest ← flush_all ns; pure (join_result r rest)

  unfoldable pub flush_batch : M (Unit {0})
  flush_batch = do
    files ← gets (λ s. s.files)
    errs ← flush_all files
    elim errs [ none ↦ pure tt | some e ↦ fail e ]
    check_io
    sync_dir
    modify (λ s. record s { unsynced = 0; unsynced_bytes = 0; flush_epoch = s.flush_epoch + 1 })

  unfoldable pub record_ops : ℕ → M (Unit {0})
  record_ops n = do
    modify (λ s. record s { unsynced = s.unsynced + n })
    due ← gets (λ s. leb s.sync_every s.unsynced)
    when due flush_batch

  -- `sync`.
  unfoldable pub sync : M (Unit {0})
  sync = do check_io; flush_batch
