-- ===== src/Store/Consume.antt =====
-- store.go, reserve.go: reading the head of the queue, and acknowledging what was read.
pub mod Take
use diskqueue.Base.{
  ℕ, ◌+◌, ◌-◌, Bool, true, false, not, Option, none, some, List, [], ◌==◌, ltb, leb, if◌then◌else◌,
}
use diskqueue.Store.State.{Env, Error, sentinel, join, errors_is, corrupt, not_exist}
use diskqueue.Store.Action.{
  Result, M, ok, err, ◌>>=◌, ◌>>◌, pure, fail, gets, modify, attempt, check_io,
}
use diskqueue.Store.Files.{ensure_open}
use diskqueue.Store.Segments.{file_for_offset}
use diskqueue.Store.Block.{record_at}
use diskqueue.Store.Ledger.{drop_retired, push_reserved, find_reserved, mark_acked, acked_run_end}
use diskqueue.Store.Commit.{skip_corrupt_segment}
use diskqueue.Store.Walk.{commit_durable}

module _ (env : Env) where
  -- `commitAckedRunDurable`.
  unfoldable pub commit_acked_run : Bool → M (Unit {0})
  commit_acked_run durable = do
    check_io
    s ← gets (λ s. s)
    if leb (acked_run_end s) s.commit_off then pure tt else (do
      r ← attempt (commit_durable env (acked_run_end s) durable)
      drop_retired
      elim r [ ok _ ↦ pure tt | err e ↦ fail e ])

  -- `ackTo`: false where `end` names no outstanding reservation.
  unfoldable pub ack_to : ℕ → M Bool
  ack_to end = do
    s ← gets (λ s. s)
    elim s.io_err [
      | some e ↦ fail e
      | none ↦ (do
        drop_retired
        t ← gets (λ t. t)
        if leb end t.commit_off then pure true else elim (find_reserved end t.reserved) [
          | none ↦ pure false
          | some i ↦ (do
            modify (λ t. record t { reserved = mark_acked i t.reserved })
            commit_acked_run true
            pure true)
        ])
    ]

  -- `retireFrameDurable`.
  unfoldable pub retire_frame : ℕ → ℕ → Bool → M (Unit {0})
  retire_frame start end durable = do
    drop_retired
    push_reserved (record { start = start; end = end; acked = true; corrupt = false; written = 0 })
    commit_acked_run durable

  -- The part of `read` behind `fileForOffset`.
  unfoldable pub read_from : ℕ → Option ℕ → M (Option (List ℕ × ℕ × ℕ))
  read_from off none = fail (sentinel corrupt)
  read_from off (some num) = do
    opened ← attempt (ensure_open env num)
    elim opened [
      | err e ↦ fail (if errors_is e not_exist then join (sentinel corrupt) e else e)
      | ok _ ↦ (do
        r ← record_at env num off
        elim r [ none ↦ fail (sentinel corrupt) | some x ↦ pure (some x) ])
    ]

  -- `read`: none at the tail.
  unfoldable pub read : ℕ → M (Option (List ℕ × ℕ × ℕ))
  read off = do
    s ← gets (λ s. s)
    if leb s.write_off off then pure none else read_from off (file_for_offset off s)

  -- `peekHead` behind the read.
  unfoldable pub shown : Option (List ℕ × ℕ × ℕ) → M (Option (List ℕ))
  shown none = pure none
  shown (some (payload, sum, next)) =
      if env.sum64 payload == sum then pure (some payload) else fail (sentinel corrupt)

  -- `peekHead`.
  unfoldable pub peek_head : M (Option (List ℕ))
  peek_head = do head ← gets (λ s. s.head_off); r ← read head; shown r

  -- The arm of `takeHead` for a failed read.
  unfoldable pub take_unreadable : Error → M (Option (List ℕ × ℕ))
  take_unreadable e = if not (errors_is e corrupt) then fail e else (do
    head ← gets (λ s. s.head_off)
    r ← attempt (skip_corrupt_segment env head)
    now ← gets (λ s. s.head_off)
    elim r [ ok _ ↦ fail e | err serr ↦ if now == head then fail serr else fail (join e serr) ])

  -- The arm of `takeHead` for a record whose checksum fails: one record is dropped.
  unfoldable pub take_damaged : ℕ → M (Option (List ℕ × ℕ))
  take_damaged next = do
    head ← gets (λ s. s.head_off)
    modify (λ s. record s {
      counters = record (s.counters) {
        lost_bytes = s.lost_bytes + (next - head);
        lost_records = s.lost_records + 1;
        corruptions = s.corruptions + 1;
      };
      head_off = next;
    })
    r ← attempt (retire_frame head next false)
    elim r [ ok _ ↦ fail (sentinel corrupt) | err e ↦ fail (join (sentinel corrupt) e) ]

  -- The arm of `takeHead` that hands a record over.
  unfoldable pub take_record : List ℕ → ℕ → M (Option (List ℕ × ℕ))
  take_record payload next = do
    modify (λ s. record s {
      last_frame_at = s.head_off;
      last_frame_end = next;
      head_off = next;
      counters = record (s.counters) { n_delivered = s.n_delivered + 1 };
    })
    pure (some (payload, next))

  -- `takeHead` behind the read.
  unfoldable pub taken : Result (Option (List ℕ × ℕ × ℕ)) → M (Option (List ℕ × ℕ))
  taken (err e) = take_unreadable e
  taken (ok none) = pure none
  taken (ok (some (payload, sum, next))) =
      if env.sum64 payload == sum then take_record payload next else take_damaged next

  -- `takeHead`: the payload and the offset past it; none when the queue is empty.
  unfoldable pub take_head : M (Option (List ℕ × ℕ))
  take_head = do
    s ← gets (λ s. s)
    if ltb 0 s.pending_corrupt
        then (do
          modify (λ s. record s { pending_corrupt = s.pending_corrupt - 1 })
          fail (sentinel corrupt))
        else (do r ← attempt (read s.head_off); taken r)

-- `rewindHead`: un-read a record that could not be handed over.
unfoldable pub rewind_head : ℕ → M (Unit {0})
rewind_head off = modify (λ s.
    if ltb off s.head_off
    then record s {
      head_off = off;
      counters = record (s.counters) { n_delivered = s.n_delivered - 1 };
    }
    else s)

-- `rewindToCommit`: the bytes made readable.
unfoldable pub rewind_to_commit : M ℕ
rewind_to_commit = do
  s ← gets (λ s. s)
  modify (λ s. record s { head_off = s.commit_off; reserved = [] })
  pure (s.head_off - s.commit_off)
