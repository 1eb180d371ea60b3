-- ===== src/Tests/Log.antt =====
-- The theorems on a segment's log, at a store with one record in a segment of 64 bytes.
use diskqueue.Base.{
  ℕ, ◌≡◌, refl, ap, subst, some-injective, true, false, some, List, [], ◌∷◌, ◌++◌, arith, replicate,
}
use diskqueue.Frame.{
  frame, framed_len, uvarint_len, put_uvarint, fits_in_record, fits_within, framed_too_large, judge,
  uvarint, cut,
}
use diskqueue.Store.State.{Store, update, active, staged_bytes, batched, errors_is, per_op, size}
use diskqueue.Store.Action.{ok, check_io, ◌>>=◌, attempt}
use diskqueue.Store.Segments.{
  fresh_file, book_removal, create_file, drop_block, drop_committed, drop_file, drop_prefix,
  modify_header, prepare_file, restore_header, write_header,
}
use diskqueue.Store.Append.{
  needs_cycle, append_record, active_file, admit_record, advance, cycle_counted, publish_or,
  retreat, rollback_append, settle_append, stamp_written, sync_data, write_record,
}
use diskqueue.Store.Block.{record_at, record_len, frame_header_at, block_has, block_at, fetch_frame}
use diskqueue.Store.Block.Mirror.{Repeats, Coherent}
use diskqueue.Store.Block.Lookup.{Looked, Measured, record_at_uncached}
use diskqueue.Store.Log.Refine.{Whole, Represents, LogAfter, OthersKept}
use diskqueue.Store.Log.Whole.{append_refines}
use diskqueue.Store.Log.ReadBack.{ReadsBack, record_at_log, append_read_back, offset_after}
use diskqueue.Store.Consume.{peek_head, read, read_from, shown, take_head}
use diskqueue.Store.Consume.Take.{handed_over}
use diskqueue.Store.Segments.{file_for_offset, search_first}
use diskqueue.Store.Log.Taking.{take_head_log}
use diskqueue.Tests.{calm, blank}
use diskqueue.Header.{header, set_header_checksum}
use diskqueue.Store.Files.{
  ensure_open, evict_loop, evict_open, evict_victim, fail_io, flush_all, flush_batch, flush_file,
  flush_open, latch, lru_push_mru, lru_unlink, record_ops, sync_dir, touch_open, track_open,
}
use diskqueue.Store.Os.{
  os_call, os_create, os_preallocate, os_read_at, os_remove, os_sync_dir, os_touch, os_write_at,
}

abbrev first_record : List ℕ
first_record = 5 ∷ 6 ∷ []

-- The frame of the record: its length, its bytes and its checksum.
abbrev first_frame : List ℕ
first_frame = 2 ∷ 5 ∷ 6 ∷ 6 ∷ 27 ∷ 0 ∷ 0 ∷ 0 ∷ 0 ∷ 0 ∷ 0 ∷ []

abbrev segment_file : List ℕ
segment_file = replicate 64 0 ++ (first_frame ++ replicate 53 0)

-- One record is published, and the cached block holds it.
abbrev pub logged : Store
logged = record blank {
  files = 1 ∷ [];
  heap =
      update blank.heap 1 (record (fresh_file calm 0 64) { size = 11; written = 1; dirty = true });
  disk = update blank.disk 1 (some segment_file);
  block = record { file = some 1; off = 0; bytes = first_frame };
  next_num = 2;
  write_off = 11;
  n_written = 1;
}

logged-Coherent : Coherent logged
logged-Coherent m e =
    subst
      (λ k. (h : List ℕ) × (logged.disk k ≡ some h) × Repeats logged.block (logged.heap k).size h)
      (some-injective e) (segment_file, refl, record { same_bytes = refl; within = omega arith })

logged-Whole : Whole 1 logged
logged-Whole = ((_, refl, omega arith), (refl, refl))

logged_log : Represents calm logged 1 (first_record ∷ [])
unfolding frame put_uvarint
logged_log = refl

record_at_uncached_example :
    Looked calm logged 1 segment_file refl
      (omega arith)
      0
      (record_at calm 1 0 logged).0
      (record_at calm 1 0 logged).1
    × Measured calm logged 1 segment_file refl
        (omega arith)
        0
        (record_len calm 1 0 logged).0
        (record_len calm 1 0 logged).1
record_at_uncached_example =
    record_at_uncached calm logged 1 0 segment_file refl (omega arith) (omega arith) logged-Coherent

append_refines_example :
    let (r, t) = append_record calm (9 ∷ []) false logged in
    LogAfter calm 1 (first_record ∷ []) (9 ∷ []) r t
    × OthersKept 1 logged t
    × Whole 1 t
    × Coherent t
unfolding active needs_cycle framed_len uvarint_len staged_bytes
append_refines_example =
    append_refines calm (9 ∷ []) false 1 logged (first_record ∷ []) refl refl logged-Whole
      logged_log logged-Coherent

record_at_log_example :
    let (r, t) = record_at calm 1 0 logged in ReadsBack calm logged first_record 0 r t
record_at_log_example =
    record_at_log calm logged 1 [] first_record [] logged_log logged-Whole (omega arith)
      (omega arith) logged-Coherent

-- The store behind an append of a second record.
abbrev appended : Store
appended = (append_record calm (9 ∷ []) false logged).1

-- The append succeeds, and the segment has the size of both records.
appended_result :
    ((append_record calm (9 ∷ []) false logged).0 ≡ ok tt) × ((appended.heap 1).size ≡ 21)
unfolding ◌>>=◌ attempt fits_in_record fits_within frame framed_len framed_too_large judge
    put_uvarint uvarint uvarint_len header set_header_checksum check_io active_file admit_record
    advance append_record cycle_counted needs_cycle publish_or retreat rollback_append settle_append
    stamp_written sync_data write_record ensure_open evict_loop evict_open evict_victim fail_io
    flush_all flush_batch flush_file flush_open latch lru_push_mru lru_unlink record_ops sync_dir
    touch_open track_open os_call os_create os_preallocate os_read_at os_remove os_sync_dir os_touch
    os_write_at book_removal create_file drop_block drop_committed drop_file drop_prefix
    modify_header prepare_file restore_header write_header active batched errors_is per_op size
    staged_bytes
appended_result = (refl, refl)

append_read_back_example :
    let (r, u) = record_at calm 1 (offset_after calm appended 1 (first_record ∷ [])) appended in
    ReadsBack calm appended (9 ∷ []) (offset_after calm appended 1 (first_record ∷ [])) r u
unfolding active needs_cycle framed_len uvarint_len staged_bytes
append_read_back_example =
    append_read_back calm (9 ∷ []) false 1 logged appended (first_record ∷ []) refl refl
      logged-Whole logged_log logged-Coherent (ap (λ r. (r, appended)) appended_result.0)
      (omega (arith, appended_result.1)) (omega arith)

logged_peek : peek_head calm logged ≡ (ok (some first_record), (peek_head calm logged).1)
unfolding peek_head ◌>>=◌ read read_from file_for_offset search_first attempt ensure_open touch_open
    lru_unlink lru_push_mru record_at frame_header_at block_has judge uvarint block_at
    fits_in_record fetch_frame cut shown
logged_peek = refl

take_head_log_example :
    (first_record ≡ first_record)
    × (take_head calm logged
        ≡ (ok (some (first_record, 11)), handed_over 11 (peek_head calm logged).1))
unfolding file_for_offset search_first framed_len uvarint_len
take_head_log_example =
    take_head_log calm 1 [] first_record [] first_record logged (peek_head calm logged).1 logged_log
      logged-Whole (omega arith) (omega arith) logged-Coherent refl refl (omega arith) refl
      logged_peek
