-- ===== src/Tests/Cycle.antt =====
-- store.go: a cycle that reclaims the tail and then fails, and an append behind it.
use diskqueue.Base.{ℕ, ◌≡◌, refl, List, [], ◌∷◌, Option, some, replicate, ◌==◌, if◌then◌else◌}
use diskqueue.Store.State.{Store, Env, done, fails, os_error, update, sentinel, corrupt}
use diskqueue.Store.Action.{M, Result, ok, err, ◌>>=◌, pure, attempt, gets}
use diskqueue.Store.Segments.{fresh_file, cycle}
use diskqueue.Store.Append.{append}
use diskqueue.Store.Consume.{peek_head}
use diskqueue.Tests.{weak_sum, calm, blank}
use diskqueue.Frame.{
  cut, fits_in_record, fits_within, frame, framed_len, framed_too_large, judge, put_uvarint,
  uvarint, uvarint_len,
}
use diskqueue.Header.{header, set_header_checksum}
use diskqueue.Store.Action.{check_io}
use diskqueue.Store.Append.{
  active_file, admit_record, advance, append_record, cycle_counted, needs_cycle, publish_or,
  retreat, rollback_append, settle_append, stamp_written, sync_data, write_record,
}
use diskqueue.Store.Block.{
  block_at, block_has, fetch_frame, fill_block, frame_header_at, read_block, record_at, starts_at,
}
use diskqueue.Store.Consume.{read, read_from, shown}
use diskqueue.Store.Files.{
  ensure_open, evict_loop, evict_open, evict_victim, fail_io, flush_all, flush_batch, flush_file,
  flush_open, latch, lru_push_mru, lru_unlink, record_ops, sync_dir, touch_open, track_open,
}
use diskqueue.Store.Os.{
  os_call, os_create, os_preallocate, os_read_at, os_remove, os_sync_dir, os_touch, os_write_at,
}
use diskqueue.Store.Segments.{
  book_removal, create_file, drop_block, drop_committed, drop_file, drop_prefix, file_for_offset,
  modify_header, prepare_file, restore_header, search_first, search_loop, write_header,
}
use diskqueue.Store.State.{active, batched, errors_is, per_op, size, staged_bytes}

-- The create of the next segment fails.
abbrev full_disk : Env
full_disk = record { outcome = λ n. if n == 1 then fails os_error 0 else done; sum64 = weak_sum }

-- Two segments that are committed to their ends. The first has room left, and a flush has it pinned.
abbrev reclaimable : Store
reclaimable = record blank {
  files = 1 ∷ 2 ∷ [];
  heap =
      update (update blank.heap 1 (record (fresh_file calm 0 64) { size = 50; pins = 1 })) 2
        (record (fresh_file calm 50 64) { size = 60 });
  disk = update (update blank.disk 1 (some (replicate 128 0))) 2 (some (replicate 128 0));
  next_num = 3;
  write_off = 110;
  head_off = 110;
  commit_off = 110;
}

two_appends : M (Result (Unit {0}) × Result (Unit {0}) × List ℕ × ℕ × Result (Option (List ℕ)))
two_appends = do
  a ← attempt (append full_disk (replicate 20 1))
  b ← attempt (append full_disk (7 ∷ []))
  fs ← gets (λ s. s.files)
  w ← gets (λ s. s.write_off)
  r ← attempt (peek_head full_disk)
  pure (a, b, fs, w, r)

outcome_of_two :
    Result (Result (Unit {0}) × Result (Unit {0}) × List ℕ × ℕ × Result (Option (List ℕ)))
outcome_of_two = (two_appends reclaimable).0

-- The first append fails and takes the tail segment along; the second one, of a smaller record,
-- succeeds, and reading that record answers that it is corrupt.
lost_record :
    outcome_of_two ≡ ok (err (sentinel os_error), ok tt, 1 ∷ [], 120, err (sentinel corrupt))
unfolding outcome_of_two two_appends ◌>>=◌ attempt append peek_head cut fits_in_record fits_within
    frame framed_len framed_too_large judge put_uvarint uvarint uvarint_len header
    set_header_checksum check_io active_file admit_record advance append_record cycle_counted
    needs_cycle publish_or retreat rollback_append settle_append stamp_written sync_data
    write_record block_at block_has fetch_frame fill_block frame_header_at read_block record_at
    starts_at read read_from shown ensure_open evict_loop evict_open evict_victim fail_io flush_all
    flush_batch flush_file flush_open latch lru_push_mru lru_unlink record_ops sync_dir touch_open
    track_open os_call os_create os_preallocate os_read_at os_remove os_sync_dir os_touch
    os_write_at book_removal create_file cycle drop_block drop_committed drop_file drop_prefix
    file_for_offset modify_header prepare_file restore_header search_first search_loop write_header
    active batched errors_is per_op size staged_bytes
lost_record = refl
