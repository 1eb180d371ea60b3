-- ===== src/Tests/Recovery.antt =====
-- Recovery's theorems at a directory with one damaged segment.
use diskqueue.Base.{false, ◌≡◌, refl, ℕ, arith, List, [], ◌∷◌, ◌++◌, some, replicate, true, ◌⊎◌}
use diskqueue.Frame.{frame, put_uvarint}
use diskqueue.Store.State.{Store, update}
use diskqueue.Store.Segments.{fresh_file}
use diskqueue.Store.Quiet.Disk.{on_disk}
use diskqueue.Recovery.FileName.{entry_num-file_name}
use diskqueue.Recovery.Names.{entry_num, file_name}
use diskqueue.Recovery.Delete.{Fate, load_file-deletes}
use diskqueue.Recovery.Frames.{walk_frames, verified_end}
use diskqueue.Store.Block.{record_len}
use diskqueue.Recovery.Walk.{Ended}
use diskqueue.Recovery.Count.{Tallied, walks_count}
use diskqueue.Recovery.Trusted.{Sound, Overflows}
use diskqueue.Recovery.Drop.{read_header}
use diskqueue.Store.Action.{◌>>=◌, attempt}
use diskqueue.Store.Os.{os_stat, os_call, os_touch, os_read_at}
use diskqueue.Store.Quiet.{extent}
use diskqueue.Header.Layout.{get, put}
use diskqueue.Header.{
  header, header_checksum_ok, init_header, set_commit_cursor, set_write_cursor, set_written_count,
  set_committed_count, set_hdr_capacity, set_hdr_seg_size,
}
use diskqueue.Recovery.Segment.{
  load_file, load_read, load_judged, judge_header, kept, load_trusted, load_commit,
}
use diskqueue.Recovery.Bounds.{load_file_bounds}
use diskqueue.Tests.{weak_sum, calm, blank}

-- A segment file with a record and nine zeros behind a header that was never written.
abbrev damaged : List ℕ
damaged = replicate 64 1 ++ (frame weak_sum (1 ∷ 2 ∷ 3 ∷ []) ++ replicate 9 0)

abbrev one_file : Store
one_file = record blank {
  files = 1 ∷ [];
  heap = update blank.heap 1 (record (fresh_file calm 0 64) { size = 21 });
  disk = update blank.disk 1 (some damaged);
}

walks_count_example :
    let (r, t) = walk_frames (record_len calm 1) 22 1 0 0 one_file in
    let (q, u) = walk_frames (verified_end calm 1) 22 1 0 0 one_file in
    (Ended 0 0 21 r × Tallied (record_len calm 1) 1 0 0 one_file r t)
    × (Ended 0 0 21 q × Tallied (verified_end calm 1) 1 0 0 one_file q u)
walks_count_example = walks_count calm 1 one_file (omega arith)

-- A segment file with one record of twelve bytes, published by a header that can be believed.
abbrev sound_header : List ℕ
sound_header =
    header weak_sum
      (init_header
        ∷ set_commit_cursor 64
        ∷ set_write_cursor 76
        ∷ set_written_count 1
        ∷ set_committed_count 0
        ∷ set_hdr_capacity 64
        ∷ set_hdr_seg_size 64
        ∷ [])
      (replicate 64 0)

abbrev sound_file : Store
sound_file = record blank {
  disk =
      update blank.disk 1
        (some (sound_header ++ (frame weak_sum (1 ∷ 2 ∷ 3 ∷ []) ++ replicate 52 0)));
}

load_file_bounds_example :
    Sound 0 128 (extent ((load_file calm 1 0 true sound_file).1.heap 1)) 64
    ⊎ Overflows (extent ((load_file calm 1 0 true sound_file).1.heap 1))
unfolding frame put_uvarint load_file ◌>>=◌ attempt os_stat os_call read_header load_read
    load_judged judge_header kept load_trusted load_commit header put get os_touch os_read_at
    header_checksum_ok
load_file_bounds_example = load_file_bounds calm 1 0 true sound_file (omega arith)

load_file-deletes_example :
    Fate calm (on_disk one_file) 1 damaged (load_file calm 1 0 true one_file).1
load_file-deletes_example = load_file-deletes calm 1 0 true one_file damaged (λ n. tt) refl

entry_num-file_name_example : entry_num (record { is_dir = false; name = file_name 42 }) ≡ some 42
entry_num-file_name_example = entry_num-file_name 42 (omega arith)
