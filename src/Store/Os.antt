-- ===== src/Store/Os.antt =====
-- Package os as the store uses it: a call ends as `env.outcome` says, and a call that is done reads
-- or changes the bytes of one file. A segment number stands for the file of that name.
use diskqueue.Base.{
  ℕ, suc, ◌+◌, ◌-◌, none, some, List, [], ◌++◌, leb, if◌then◌else◌, length, take, replicate, slice,
  patch,
}
use diskqueue.Store.State.{
  Env, Outcome, done, fails, not_exist, short_read, os_error, sentinel, update,
}
use diskqueue.Store.Action.{M, ok, err, ◌>>=◌, ◌>>◌, pure, fail, gets, modify}

-- The file with zeros up to `n` bytes.
abbrev pub extend : ℕ → List ℕ → List ℕ
extend n h = h ++ replicate (n - length h) 0

abbrev pub write_bytes : ℕ → List ℕ → List ℕ → List ℕ
write_bytes off bs h = patch off bs (extend (off + length bs) h)

module _ (env : Env) where
  -- The outcome of the next call.
  unfoldable pub os_call : M Outcome
  os_call s = (ok (env.outcome s.calls), record s { calls = suc s.calls })

  abbrev pub file_bytes : ℕ → M (List ℕ)
  file_bytes num s = elim (s.disk num) [ none ↦ (err (sentinel not_exist), s) | some h ↦ (ok h, s) ]

  -- A call that changes no file: open, fsync, fdatasync.
  unfoldable pub os_touch : ℕ → M (Unit {0})
  os_touch num = do
    o ← os_call
    elim o [ done ↦ (do _ ← file_bytes num; pure tt) | fails e n ↦ fail (sentinel e) ]

  -- `f.ReadAt(buf[:n], off)`.
  unfoldable pub os_read_at : ℕ → ℕ → ℕ → M (List ℕ)
  os_read_at num off n = do
    o ← os_call
    elim o [
      | done ↦ (do
        h ← file_bytes num
        if leb (off + n) (length h) then pure (slice off n h) else fail (sentinel short_read))
      | fails e _ ↦ fail (sentinel e)
    ]

  -- `f.WriteAt(bs, off)`: a failed write may have written some first bytes.
  unfoldable pub os_write_at : ℕ → ℕ → List ℕ → M (Unit {0})
  os_write_at num off bs = do
    o ← os_call
    h ← file_bytes num
    elim o [
      | done ↦ modify (λ s. record s { disk = update s.disk num (some (write_bytes off bs h)) })
      | fails e n ↦ (do
        modify (λ s. record s { disk = update s.disk num (some (write_bytes off (take n bs) h)) })
        fail (sentinel e))
    ]

  -- `os.OpenFile(path, os.O_CREATE|os.O_EXCL)`: an empty file, if there was none.
  unfoldable pub os_create : ℕ → M (Unit {0})
  os_create num = do
    o ← os_call
    f ← gets (λ s. s.disk num)
    elim o [
      | done ↦ elim f [
        | none ↦ modify (λ s. record s { disk = update s.disk num (some []) })
        | some _ ↦ fail (sentinel os_error)
      ]
      | fails e n ↦ fail (sentinel e)
    ]

  -- `preallocate`: the file grows to `n` bytes.
  unfoldable pub os_preallocate : ℕ → ℕ → M (Unit {0})
  os_preallocate num n = do
    o ← os_call
    h ← file_bytes num
    elim o [
      | done ↦ modify (λ s. record s { disk = update s.disk num (some (extend n h)) })
      | fails e _ ↦ fail (sentinel e)
    ]

  -- `os.Remove`.
  unfoldable pub os_remove : ℕ → M (Unit {0})
  os_remove num = do
    o ← os_call
    elim o [
      | done ↦ (do _ ← file_bytes num; modify (λ s. record s { disk = update s.disk num none }))
      | fails e n ↦ fail (sentinel e)
    ]

  -- `f.Sync` on the directory, held open for the session.
  unfoldable pub os_sync_dir : M (Unit {0})
  os_sync_dir = do o ← os_call; elim o [ done ↦ pure tt | fails e n ↦ fail (sentinel e) ]

  -- `os.Stat(path).Size()`; `os.Lstat` of the same name fails where it fails.
  unfoldable pub os_stat : ℕ → M ℕ
  os_stat num = do
    o ← os_call
    elim o [ done ↦ (do h ← file_bytes num; pure (length h)) | fails e n ↦ fail (sentinel e) ]

  -- `f.ReadAt(buf[:n], off)` with what it read before the end of the file: fewer than `n` bytes are
  -- its short read.
  unfoldable pub os_read_some : ℕ → ℕ → ℕ → M (List ℕ)
  os_read_some num off n = do
    o ← os_call
    elim o [ done ↦ (do h ← file_bytes num; pure (slice off n h)) | fails e _ ↦ fail (sentinel e) ]

  -- `os.ReadDir(dir)`, whose entries are handed in.
  unfoldable pub os_read_dir : M (Unit {0})
  os_read_dir = do o ← os_call; elim o [ done ↦ pure tt | fails e n ↦ fail (sentinel e) ]
