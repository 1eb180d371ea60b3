-- ===== src/Tests/Sync.antt =====
-- The theorems on the flush off the lock and on the blocking calls, at concrete queues.
use diskqueue.Base.{ℕ, ◌≡◌, ◌+◌, true, false, not, Option, none, ◌&&◌, some, List, [], ◌∷◌}
use diskqueue.Store.State.{Error, sentinel, closed}
use diskqueue.Store.Action.{Result, ok, err, M, pure, check_io, attempt, ◌>>=◌}
use diskqueue.Store.Quiet.{pure-Keeps}
use diskqueue.Store.Os.{os_call, os_touch, os_sync_dir}
use diskqueue.Store.Files.{
  sync, lru_unlink, flush_batch, flush_all, flush_file, flush_open, sync_dir,
}
use diskqueue.Store.Clean.Flush.{AllClean, sync_cleans}
use diskqueue.Queue.Reader.{Queue, try_reserve, try_take}
use diskqueue.Queue.Blocking.{Wake, woken, reserve, take_blocking, polled, blocking-polled}
use diskqueue.Queue.Sync.{Target, settle_targets, sync_off_lock, close, close_files, close_file}
use diskqueue.Queue.Sync.Close.{close_reports}
use diskqueue.Queue.Sync.Pins.{pins_of}
use diskqueue.Queue.Sync.Balance.{pins-sync_off_lock}
use diskqueue.Queue.Sync.Marks.{flushed, settle_targets_marks}
use diskqueue.Queue.Sync.Reports.{Reported, settle_targets_reports}
use diskqueue.Tests.{calm, blank}
use diskqueue.Tests.Log.{logged}

abbrev no_others : ℕ → M (Unit {0})
no_others k = pure tt

pins-sync_off_lock_example :
    pins_of (sync_off_lock calm no_others false (pure tt) false logged).1 1 ≡ pins_of logged 1
pins-sync_off_lock_example =
    pins-sync_off_lock calm no_others false false (pure tt) logged 1 (λ k. pure-Keeps tt)
      (pure-Keeps tt)

abbrev synced : List (Target × Result (Unit {0}))
synced = (record { num = 1; seq = 0 }, ok tt) ∷ []

settle_targets_marks_example :
    let t = (settle_targets synced logged).1 in
    ((t.heap 1).dirty ≡ ((logged.heap 1).dirty && not (flushed 1 (logged.heap 1).write_seq synced)))
    × ((t.heap 1).write_seq ≡ (logged.heap 1).write_seq)
settle_targets_marks_example = settle_targets_marks synced logged 1

-- The fdatasync of a second file fails.
abbrev half_synced : List (Target × Result (Unit {0}))
half_synced =
    (record { num = 1; seq = 0 }, ok tt) ∷ (record { num = 2; seq = 0 }, err (sentinel closed)) ∷ []

settle_targets_reports_example :
    (r : Option Error) × ((settle_targets half_synced logged).0 ≡ ok r)
    × Reported true logged r (settle_targets half_synced logged).1
settle_targets_reports_example = settle_targets_reports half_synced logged

-- An empty queue, and the wake-up that brings a record.
abbrev waiting : Queue
waiting = record { st = blank; is_closed = false }

abbrev filled : List Wake
filled = woken (λ q. record q { st = logged }) ∷ []

blocking-polled_example :
    (reserve calm false some filled waiting ≡ polled (try_reserve calm false some) filled waiting)
    × (take_blocking calm false some filled waiting
        ≡ polled (try_take calm false some) filled waiting)
blocking-polled_example = blocking-polled calm false some filled waiting

sync_cleans_example :
    let t = (sync calm logged).1 in
    AllClean (1 ∷ []) t
    × (t.unsynced ≡ 0)
    × (t.unsynced_bytes ≡ 0)
    × (t.flush_epoch ≡ logged.flush_epoch + 1)
unfolding sync check_io ◌>>=◌ flush_batch flush_all flush_file flush_open os_touch os_call attempt
    sync_dir os_sync_dir
sync_cleans_example = sync_cleans calm logged

close_reports_example :
    let t = (close calm (λ n. ok tt) logged).1 in
    (logged.io_err ≡ none) × (t.unsynced ≡ 0) × (t.unsynced_bytes ≡ 0) × (t.lru ≡ [])
unfolding close close_files close_file lru_unlink ◌>>=◌ flush_file flush_open check_io os_touch
    os_call attempt sync_dir os_sync_dir
close_reports_example = close_reports calm (λ n. ok tt) logged
