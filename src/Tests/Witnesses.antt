-- ===== src/Tests/Witnesses.antt =====
-- The theorems at concrete inputs.
use diskqueue.Base.{
  ℕ, ◌+◌, ◌%◌, ◌^◌, ◌≤◌, ◌<◌, ◌≡◌, ◌↔◌, refl, Bool, true, false, some, List, [], ◌∷◌, ◌++◌, arith,
  length, get_elem?, replicate,
}
use diskqueue.Frame.{
  frame, framed_len, uvarint_len, fits_in_record, decode, uvarint, put_uvarint, fits_within,
  frame_header,
}
use diskqueue.Frame.Bounds.{fits_within_iff, length-frame, frame_header_bounds}
use diskqueue.Frame.RoundTrip.{decode-frame}
use diskqueue.Header.{
  header, set_write_cursor, set_written_count, set_commit_cursor, set_committed_count,
  header_checksum_ok, write_cursor, written_count, commit_cursor, committed_count, magic, version,
  oversized, hdr_capacity, hdr_seg_size,
}
use diskqueue.Header.Fields.{header_publish, header_commit}
use diskqueue.Store.State.{Store, Reservation, update}
use diskqueue.Store.Segments.{fresh_file, file_for_offset, search_first, cycle}
use diskqueue.Store.Segments.Offset.{Covers, file_for_offset-Covers}
use diskqueue.Store.Segments.Find.{file_for_offset_finds}
use diskqueue.Store.Ledger.{find_reserved, acked_run}
use diskqueue.Store.Ledger.Run.{
  Ascending, Contiguous, Blocked, Held, acked_run_longest, acked_run-le-unacked,
}
use diskqueue.Store.Ledger.Search.{find_reserved_iff}
use diskqueue.Store.Quiet.{view, cursors}
use diskqueue.Store.Quiet.Segments.{cursors-cycle}
use diskqueue.Queue.Options.{pos, segment_capacity, requested, max_seg, segment_capacity_bounds}
use diskqueue.Queue.Reader.{Queue, try_peek}
use diskqueue.Queue.Peek.{view-try_peek}
use diskqueue.Tests.{weak_sum, calm, blank}
use diskqueue.Store.Action.{ok}
use diskqueue.Store.Append.{append_record}
use diskqueue.Store.Append.Outcome.{Outcome, append_outcome}
use diskqueue.Store.Walk.{walk_loop, start_walk}
use diskqueue.Store.Walk.Ends.{walk_loop_ends}
use diskqueue.Store.State.{Error}
use diskqueue.Store.Consume.{peek_head, take_head}
use diskqueue.Store.Consume.Take.{handed_over, take_head-peek_head}
use diskqueue.Queue.Batch.{Added, add_batch_locked}
use diskqueue.Queue.Tally.Items.{Served, add_batch_published}
use Prim.Native.Nat.{min}
use diskqueue.Store.Action.{◌>>=◌, attempt}
use diskqueue.Store.Consume.{read, read_from, shown}
use diskqueue.Store.Files.{ensure_open, touch_open, lru_unlink, lru_push_mru}
use diskqueue.Store.Block.{record_at, frame_header_at, block_has, block_at, fetch_frame}
use diskqueue.Frame.{judge, cut}
use diskqueue.Base.{suc, ◌-◌, Option}

weak_sum_small : (b : List ℕ) → weak_sum b < 2 ^ 64
weak_sum_small [] = omega arith
weak_sum_small (b ∷ bs) = omega arith

-- Three reservations back to back, the first and the third acknowledged.
abbrev entry : ℕ → ℕ → Bool → Reservation
entry start end acked = record {
  start = start;
  end = end;
  acked = acked;
  corrupt = false;
  written = 0;
}

abbrev ledger : List Reservation
ledger = entry 0 12 true ∷ entry 12 22 false ∷ entry 22 34 true ∷ []

ledger-Ascending : Ascending 0 ledger
ledger-Ascending =
    (omega arith, omega arith, (omega arith, omega arith, (omega arith, omega arith, tt)))

-- A live segment with 40 published bytes.
abbrev one_segment : Store
one_segment = record blank {
  files = 1 ∷ [];
  heap = update blank.heap 1 (record (fresh_file calm 0 64) { size = 40 });
  write_off = 40;
}

decode-frame_example :
    decode (frame weak_sum (1 ∷ 2 ∷ 3 ∷ []) ++ (9 ∷ [])) 20
    ≡ some (1 ∷ 2 ∷ 3 ∷ [], weak_sum (1 ∷ 2 ∷ 3 ∷ []), framed_len 3)
unfolding framed_len uvarint_len
decode-frame_example =
    decode-frame weak_sum (1 ∷ 2 ∷ 3 ∷ []) (9 ∷ []) 20 (omega arith) (omega arith) (omega arith)
      (omega arith)

fits_within_iff_example : (fits_within 3 1 12 20 ≡ true) ↔ ((1 + 3 + 8 ≤ 12) × (1 + 3 + 8 ≤ 20))
fits_within_iff_example = fits_within_iff 3 1 12 20 (omega arith) (omega arith) (omega arith)

length-frame_example : length (frame weak_sum (replicate 300 7)) ≡ framed_len 300
length-frame_example = length-frame weak_sum (replicate 300 7)

frame_header_bounds_example : (1 ≤ 1) × (1 + 8 ≤ 12) × (12 ≤ 20)
unfolding frame_header uvarint fits_in_record
frame_header_bounds_example = frame_header_bounds (3 ∷ 7 ∷ []) 20 1 12 (omega arith) refl

header_publish_example :
    let h' = header weak_sum (set_write_cursor 76 ∷ set_written_count 1 ∷ []) (replicate 64 0) in
    (write_cursor h' ≡ 76)
    × (written_count h' ≡ 1)
    × (commit_cursor h' ≡ commit_cursor (replicate 64 0))
    × (committed_count h' ≡ committed_count (replicate 64 0))
    × (magic h' ≡ magic (replicate 64 0))
    × (version h' ≡ version (replicate 64 0))
    × (oversized h' ≡ oversized (replicate 64 0))
    × (hdr_capacity h' ≡ hdr_capacity (replicate 64 0))
    × (hdr_seg_size h' ≡ hdr_seg_size (replicate 64 0))
    × (header_checksum_ok weak_sum h' ≡ true)
    × (length h' ≡ 64)
header_publish_example =
    header_publish weak_sum weak_sum_small 76 1 (replicate 64 0) refl (omega arith) (omega arith)

header_commit_example :
    let h' = header weak_sum (set_commit_cursor 76 ∷ set_committed_count 1 ∷ []) (replicate 64 0) in
    (commit_cursor h' ≡ 76)
    × (committed_count h' ≡ 1)
    × (write_cursor h' ≡ write_cursor (replicate 64 0))
    × (written_count h' ≡ written_count (replicate 64 0))
    × (magic h' ≡ magic (replicate 64 0))
    × (version h' ≡ version (replicate 64 0))
    × (oversized h' ≡ oversized (replicate 64 0))
    × (hdr_capacity h' ≡ hdr_capacity (replicate 64 0))
    × (hdr_seg_size h' ≡ hdr_seg_size (replicate 64 0))
    × (header_checksum_ok weak_sum h' ≡ true)
    × (length h' ≡ 64)
header_commit_example =
    header_commit weak_sum weak_sum_small 76 1 (replicate 64 0) refl (omega arith) (omega arith)

find_reserved_iff_example :
    (find_reserved 22 ledger ≡ some 1)
    ↔ ((r : Reservation) × (get_elem? ledger 1 ≡ some r) × (r.end ≡ 22))
find_reserved_iff_example = find_reserved_iff 0 22 ledger 1 ledger-Ascending

acked_run_longest_example :
    (run : List Reservation) × (rest : List Reservation) × (ledger ≡ run ++ rest)
    × Contiguous 0 run (acked_run 0 ledger)
    × Blocked (acked_run 0 ledger) rest
acked_run_longest_example = acked_run_longest 0 ledger

acked_run-le-unacked_example : Held 0 ledger (acked_run 0 ledger)
acked_run-le-unacked_example = acked_run-le-unacked 0 ledger ledger-Ascending

file_for_offset-Covers_example : Covers 12 (one_segment.heap 1)
unfolding file_for_offset search_first
file_for_offset-Covers_example = file_for_offset-Covers 12 one_segment 1 refl

cursors-cycle_example : cursors (cycle calm 12 false blank).1 ≡ cursors blank
cursors-cycle_example = cursors-cycle calm 12 false blank

view-try_peek_example :
    let q : Queue = record { st = one_segment; is_closed = false } in
    let q' = (try_peek calm false (λ bs. some bs) q).1 in
    (view q'.st ≡ view q.st) × (q'.is_closed ≡ q.is_closed)
view-try_peek_example =
    view-try_peek calm false (λ bs. some bs) (record { st = one_segment; is_closed = false })

segment_capacity_bounds_example :
    (segment_capacity (pos 5000) % 4096 ≡ 0)
    × (4096 ≤ segment_capacity (pos 5000))
    × (segment_capacity (pos 5000) < 2 ^ 48)
    × (requested (pos 5000) ≤ max_seg → requested (pos 5000) ≤ segment_capacity (pos 5000))
    × (segment_capacity (pos 5000) < requested (pos 5000) + 4096)
segment_capacity_bounds_example = segment_capacity_bounds (pos 5000)

append_outcome_example :
    Outcome
      (framed_len 3)
      (cursors blank)
      (append_record calm (1 ∷ 2 ∷ 3 ∷ []) false blank).0
      (append_record calm (1 ∷ 2 ∷ 3 ∷ []) false blank).1
append_outcome_example = append_outcome calm (1 ∷ 2 ∷ 3 ∷ []) false blank

-- The first record of the segment is handed out and acknowledged.
abbrev acknowledged : Store
acknowledged = record one_segment { reserved = entry 0 12 true ∷ [] }

walk_loop_ends_example :
    (x : Option ℕ × Option Error) × ((walk_loop calm
        (min 12 40)
        true
        (suc (min 12 40 - 0))
        start_walk
        acknowledged).0
      ≡ ok (some x))
walk_loop_ends_example = walk_loop_ends calm 12 true acknowledged (omega arith, tt)

add_batch_published_example :
    let (r, t) = add_batch_locked calm (some (1 ∷ 2 ∷ 3 ∷ []) ∷ some (4 ∷ []) ∷ []) blank in
    (a : Added) × (r ≡ ok a) × (t.n_added ≡ 0 + a.published) × Served 2 a t
add_batch_published_example =
    add_batch_published calm (some (1 ∷ 2 ∷ 3 ∷ []) ∷ some (4 ∷ []) ∷ []) blank refl

-- The segment's first record stands in the block.
abbrev cached : Store
cached = record one_segment {
  block = record { file = some 1; off = 0; bytes = frame weak_sum (1 ∷ 2 ∷ 3 ∷ []) };
}

cached_peek : peek_head calm cached ≡ (ok (some (1 ∷ 2 ∷ 3 ∷ [])), (peek_head calm cached).1)
unfolding peek_head ◌>>=◌ read read_from file_for_offset search_first attempt ensure_open touch_open
    lru_unlink lru_push_mru record_at frame_header_at block_has frame put_uvarint judge cut
    fits_in_record uvarint block_at fetch_frame shown
cached_peek = refl

take_head-peek_head_example :
    (sum next : ℕ) × ((read calm cached.head_off cached).0 ≡ ok (some (1 ∷ 2 ∷ 3 ∷ [], sum, next)))
    × (take_head calm cached
        ≡ (ok (some (1 ∷ 2 ∷ 3 ∷ [], next)), handed_over next (peek_head calm cached).1))
take_head-peek_head_example =
    take_head-peek_head calm cached (peek_head calm cached).1 (1 ∷ 2 ∷ 3 ∷ []) refl cached_peek

file_for_offset_finds_example : file_for_offset 12 one_segment ≡ some 1
file_for_offset_finds_example =
    file_for_offset_finds 12 0 one_segment 0 1 (omega arith, tt) refl (omega arith, omega arith)
