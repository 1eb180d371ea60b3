-- ===== src/Store/Append.antt =====
-- store.go, record.go: admission, the plain append, and the staged span.
pub mod Outcome
use diskqueue.Base.{
  ℕ, ◌+◌, ◌-◌, Bool, true, false, not, ◌&&◌, none, some, List, [], ◌∷◌, ltb, if◌then◌else◌, length,
}
use diskqueue.Frame.{header_size, max_int, framed_len, framed_too_large, frame}
use diskqueue.Header.{set_write_cursor, set_written_count}
use diskqueue.Store.State.{
  Store, Env, sentinel, errors_is, full, record_too_large, os_error, active, per_op, batched, size,
  staged_bytes,
}
use diskqueue.Store.Action.{
  M, ok, err, ◌>>=◌, ◌>>◌, pure, fail, gets, modify, attempt, when, check_io,
}
use diskqueue.Store.Os.{os_touch, os_write_at}
use diskqueue.Store.Files.{change_file, fail_io, ensure_open, record_ops}
use diskqueue.Store.Segments.{modify_header, write_header, cycle}

abbrev count_full : M (Unit {0})
count_full = modify (λ s. record s { counters = record (s.counters) { n_full = s.n_full + 1 } })

-- `admitRecord`: the platform's limit binds always, the byte cap unless forced; staged records count.
unfoldable pub admit_record : ℕ → Bool → M (Unit {0})
admit_record rec_len force = do
  s ← gets (λ s. s)
  when (framed_too_large rec_len max_int) (fail (sentinel record_too_large))
  when (not force && ltb 0 s.max_bytes) (do
    when (ltb s.max_bytes rec_len) (fail (sentinel record_too_large))
    when (ltb s.max_bytes (size s + staged_bytes s + rec_len))
        (do count_full; fail (sentinel full)))

-- `needsCycle`: the record does not fit the active file behind what is staged into it.
unfoldable pub needs_cycle : ℕ → Store → Bool
needs_cycle rec_len s = elim (active s) [
  | none ↦ true
  | some af ↦ ltb (s.heap af).capacity ((s.heap af).size + staged_bytes s + rec_len)
]

-- The active file; both callers have made sure that there is one.
unfoldable pub active_file : M ℕ
active_file s = elim (active s) [ none ↦ (err (sentinel os_error), s) | some af ↦ (ok af, s) ]

-- `takeSpan`.
unfoldable pub take_span : M (Unit {0})
take_span = modify (λ s. record s {
  in_flight = s.pending_bytes;
  in_flight_recs = s.pending_recs;
  pending_bytes = 0;
  pending_recs = 0;
})

-- `discardStaged`.
unfoldable pub discard_staged : M (Unit {0})
discard_staged =
    modify
      (λ s. record s { in_flight = 0; in_flight_recs = 0; pending_bytes = 0; pending_recs = 0 })

module _ (env : Env) where
  -- `cycle` as its callers run it: a refusal for want of space is counted.
  unfoldable pub cycle_counted : ℕ → Bool → M (Unit {0})
  cycle_counted rec_len force = do
    r ← attempt (cycle env rec_len force)
    elim r [ ok _ ↦ pure tt | err e ↦ (do when (errors_is e full) count_full; fail e) ]

  -- `writeRecord`: the frame goes down with one write at the data offset.
  unfoldable pub write_record : ℕ → ℕ → List ℕ → M (Unit {0})
  write_record num off payload = do
    when (framed_too_large (framed_len (length payload)) max_int) (fail (sentinel record_too_large))
    os_write_at env num (header_size + off) (frame env.sum64 payload)
    change_file num (λ df. record df { dirty = true; write_seq = df.write_seq + 1 })

  -- `af.header(setWriteCursor(headerSize+af.size), setWrittenCount(af.written))`.
  unfoldable pub stamp_written : ℕ → M (Unit {0})
  stamp_written num = do
    df ← gets (λ s. s.heap num)
    modify_header env num
        (set_write_cursor (header_size + df.size) ∷ set_written_count df.written ∷ [])

  -- The published extent moves on by `bytes` and `recs`.
  unfoldable pub advance : ℕ → ℕ → ℕ → M (Unit {0})
  advance num bytes recs = do
    change_file num (λ df. record df { size = df.size + bytes; written = df.written + recs })
    modify (λ s. record s {
      write_off = s.write_off + bytes;
      n_written = s.n_written + recs;
      n_added = s.n_added + recs;
    })
    stamp_written num

  -- And back again: `rollbackAppend`, and the first half of `unpublishSpan`.
  unfoldable pub retreat : ℕ → ℕ → ℕ → M (Unit {0})
  retreat num bytes recs = do
    change_file num (λ df. record df { size = df.size - bytes; written = df.written - recs })
    modify (λ s. record s {
      write_off = s.write_off - bytes;
      n_written = s.n_written - recs;
      n_added = s.n_added - recs;
    })
    stamp_written num

  unfoldable pub rollback_append : ℕ → ℕ → M (Unit {0})
  rollback_append num rec_len = retreat num rec_len 1

  -- The bookkeeping of `appendRecord` behind the header write: per the sync policy.
  unfoldable pub settle_append : ℕ → ℕ → M (Unit {0})
  settle_append num rec_len = do
    s ← gets (λ s. s)
    if s.no_sync
        then modify (λ s. record s { unsynced_bytes = s.unsynced_bytes + rec_len })
        else (if batched s
            then (do
              modify (λ s. record s { unsynced_bytes = s.unsynced_bytes + rec_len })
              record_ops env 1)
            else (do
              r ← attempt (os_touch env num)
              elim r [
                | ok _ ↦ change_file num (λ df. record df { dirty = false })
                | err e ↦ fail_io e
              ]))

  -- The data fsync of the per-op policy: a failure latches.
  unfoldable pub sync_data : ℕ → M (Unit {0})
  sync_data num = do r ← attempt (os_touch env num); elim r [ ok _ ↦ pure tt | err e ↦ fail_io e ]

  -- The header write that publishes; if it fails, the advance is rolled back.
  unfoldable pub publish_or : M (Unit {0}) → ℕ → M (Unit {0})
  publish_or undo num = do
    r ← attempt (write_header env num)
    elim r [ ok _ ↦ pure tt | err e ↦ (do undo; fail e) ]

  -- `appendRecord`.
  unfoldable pub append_record : List ℕ → Bool → M (Unit {0})
  append_record payload force =
      let rec_len = framed_len (length payload) in
      do
        check_io
        admit_record rec_len force
        cycles ← gets (needs_cycle rec_len)
        when cycles (cycle_counted rec_len force)
        af ← active_file
        ensure_open env af
        check_io
        size ← gets (λ s. (s.heap af).size)
        write_record af size payload
        per_op ← gets per_op
        when per_op (sync_data af)
        advance af rec_len 1
        publish_or (rollback_append af rec_len) af
        settle_append af rec_len

  -- `append`.
  unfoldable pub append : List ℕ → M (Unit {0})
  append payload = append_record payload false

  -- `stagePending`: the record goes behind everything staged; no header and no cursor moves.
  unfoldable pub stage_pending : List ℕ → M (Unit {0})
  stage_pending payload = do
    af ← active_file
    ensure_open env af
    check_io
    off ← gets (λ s. (s.heap af).size + staged_bytes s)
    write_record af off payload
    modify (λ s. record s {
      pending_bytes = s.pending_bytes + framed_len (length payload);
      pending_recs = s.pending_recs + 1;
    })

  unfoldable pub unpublish_span : ℕ → M (Unit {0})
  unpublish_span num = do
    s ← gets (λ s. s)
    retreat num s.in_flight s.in_flight_recs
    discard_staged

  -- `publishSpan`.
  unfoldable pub publish_span : M (Unit {0})
  publish_span = do
    af ← active_file
    s ← gets (λ s. s)
    advance af s.in_flight s.in_flight_recs
    publish_or (unpublish_span af) af
    modify (λ s. record s { in_flight = 0; in_flight_recs = 0 })
