-- ===== src/Tests.antt =====
-- A small queue that runs: segments of 64 bytes, and an operating system whose calls all succeed.
mod Witnesses
mod Recovery
mod Group
mod Cycle
mod Log
mod Sync
use diskqueue.Base.{
  ℕ, ◌+◌, ◌*◌, ◌%◌, ◌^◌, ◌≡◌, refl, Bool, true, false, Option, none, some, List, [], ◌∷◌,
  if◌then◌else◌, ◌==◌,
}
use diskqueue.Store.State.{
  Store, Env, Outcome, done, fails, os_error, DataFile, Config, update, size, count,
}
use diskqueue.Store.Action.{M, Result, ok, err, ◌>>=◌, ◌>>◌, pure, gets}
use diskqueue.Store.Segments.{cycle, fresh_file}
use diskqueue.Store.Append.{append}
use diskqueue.Store.Consume.{take_head}
use diskqueue.Store.Walk.{commit_durable}
use diskqueue.Queue.Reader.{Queue, try_take, skip, requeue, ack}

-- A checksum for the tests.
abbrev pub weak_sum : List ℕ → ℕ
weak_sum [] = 7
weak_sum (b ∷ bs) = (31 * weak_sum bs + b) % 2 ^ 64

abbrev pub calm : Env
calm = record { outcome = λ n. done; sum64 = weak_sum }

abbrev pub blank : Store
blank = record {
  config = record {
    segment_size = 64;
    max_segments = 0;
    max_bytes = 0;
    no_sync = false;
    sync_every = 0;
    max_open_files = 0;
  };
  io_err = none;
  heap = λ n. fresh_file calm 0 0;
  files = [];
  next_num = 1;
  disk_bytes = 0;
  lru = [];
  pending_bytes = 0;
  pending_recs = 0;
  in_flight = 0;
  in_flight_recs = 0;
  last_frame_at = 0;
  last_frame_end = 0;
  block = record { file = none; off = 0; bytes = [] };
  write_off = 0;
  head_off = 0;
  commit_off = 0;
  reserved = [];
  n_written = 0;
  n_committed = 0;
  n_added = 0;
  n_committed_total = 0;
  unsynced = 0;
  unsynced_bytes = 0;
  flush_epoch = 0;
  pending_corrupt = 0;
  counters = record {
    unreclaimed = 0;
    corruptions = 0;
    lost_bytes = 0;
    lost_records = 0;
    lost_segments = 0;
    foreign_segments = 0;
    foreign_bytes = 0;
    discarded_bytes = 0;
    n_header_writes = 0;
    n_delivered = 0;
    n_full = 0;
  };
  disk = λ n. none;
  calls = 0;
}

-- Two records go in, and come out in order.
two_in : M (Unit {0})
two_in = do append calm (1 ∷ 2 ∷ 3 ∷ []); append calm (9 ∷ [])

first_out : M (Option (List ℕ × ℕ))
unfolding two_in
first_out = do two_in; take_head calm

first_result : Result (Option (List ℕ × ℕ))
first_result = (first_out blank).0
