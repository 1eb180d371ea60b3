-- ===== src/Queue/Batch.antt =====
-- diskqueue.go: `AddBatch` under the lock, with nothing else staging. `marshal` is the caller's
-- MarshalFunc with the stamp in front: `none` is its error. A panic of the codec is not modelled.
use diskqueue.Base.{
  ℕ, ◌+◌, Bool, false, ◌&&◌, Option, none, some, List, [], ◌∷◌, ◌==◌, leb, if◌then◌else◌, length,
}
use diskqueue.Frame.{framed_len}
use diskqueue.Store.State.{Env, Error, sentinel, join, codec, per_op, batched}
use diskqueue.Store.Action.{
  M, Result, ok, err, ◌>>=◌, ◌>>◌, pure, gets, modify, attempt, when, check_io,
}
use diskqueue.Store.Os.{os_touch}
use diskqueue.Store.Files.{change_file, fail_io, record_ops}
use diskqueue.Store.Append.{
  admit_record, needs_cycle, cycle_counted, stage_pending, take_span, discard_staged, publish_span,
  active_file,
}

-- What `AddBatch` returns: how many items were published, and the error that stopped it.
pub record Added : Type 0 where
  pub published : ℕ
  pub error : Option Error

abbrev pub error_of : {A : Type 0} → Result A → Option Error
error_of (ok _) = none
error_of (err e) = some e

-- `errors.Join`, which leaves nil out.
abbrev pub join_errors : Error → Option Error → Error
join_errors e none = e
join_errors e (some f) = join e f

-- An error ends the batch; otherwise it goes on.
unfoldable pub on_error : Option Error → Added → M Added → M Added
on_error (some e) a m = pure a
on_error none a m = m

abbrev pub go_on_with : Added → M Added → M Added
go_on_with a m = on_error a.error a m

module _ (env : Env) where
  -- The fsync of the span's data; its failure discards what is staged and latches.
  unfoldable pub sync_span : ℕ → M (Unit {0})
  sync_span af = do
    r ← attempt (os_touch env af)
    elim r [ ok _ ↦ pure tt | err e ↦ (do discard_staged; fail_io e) ]

  -- The fsync of the header that was published.
  unfoldable pub sync_published : ℕ → M (Unit {0})
  sync_published af = do
    r ← attempt (os_touch env af)
    elim r [ ok _ ↦ change_file af (λ df. record df { dirty = false }) | err e ↦ fail_io e ]

  -- Behind the publication on a deferred policy.
  unfoldable pub defer_sync : ℕ → ℕ → M (Unit {0})
  defer_sync recs span = do
    modify (λ s. record s { unsynced_bytes = s.unsynced_bytes + span })
    b ← gets batched
    when b (record_ops env recs)

  -- The bookkeeping behind the publication, per the sync policy.
  unfoldable pub settle_batch : Bool → ℕ → ℕ → ℕ → M (Unit {0})
  settle_batch per_op af recs span = if per_op then sync_published af else defer_sync recs span

  -- `publishBatchLocked` for the span that was taken: `recs` records of `span` bytes.
  unfoldable pub publish_taken : ℕ → Bool → ℕ → ℕ → ℕ → M Added
  publish_taken published per_op recs span af = do
    before ← attempt (when per_op (sync_span af))
    elim before [
      | err e ↦ pure (record { published = published; error = some e })
      | ok _ ↦ (do
        r ← attempt (publish_span env)
        elim r [
          | err e ↦ pure (record { published = published; error = some e })
          | ok _ ↦ (do
            r' ← attempt (settle_batch per_op af recs span)
            pure (record { published = published + recs; error = error_of r' }))
        ])
    ]

  -- `publishBatchLocked`, given how many items were published before. Something is staged only into
  -- an active file, so that there is one.
  unfoldable pub publish_batch : ℕ → M Added
  publish_batch published = do
    s ← gets (λ s. s)
    if s.pending_bytes == 0 then pure (record { published = published; error = none }) else (do
      take_span
      af ← attempt active_file
      elim af [
        | err e ↦ pure (record { published = published; error = some e })
        | ok num ↦ publish_taken published (per_op s) s.pending_recs s.pending_bytes num
      ])

  -- An error stops the batch: what is staged is published, and the errors are joined.
  unfoldable pub stop_batch : ℕ → Error → M Added
  stop_batch published e = do
    r ← publish_batch published
    pure (record { published = r.published; error = some (join_errors e r.error) })

  -- The active file is full behind what is staged: publish that first, and cycle.
  unfoldable pub cycle_batch : ℕ → ℕ → M Added
  cycle_batch rec_len published = do
    r ← publish_batch published
    go_on_with r (do
      c ← attempt (cycle_counted env rec_len false)
      pure (record { published = r.published; error = error_of c }))

  -- A SyncEvery tick inside the batch.
  unfoldable pub tick_batch : ℕ → M Added
  tick_batch published = do
    s ← gets (λ s. s)
    if batched s && leb s.sync_every (s.unsynced + s.pending_recs)
        then publish_batch published
        else pure (record { published = published; error = none })

  -- One item, serialized: none in the field `error` lets the loop go on. A latched store and a failed
  -- cycle return at once; a refused or unwritable record publishes what is staged first.
  unfoldable pub add_item : ℕ → List ℕ → M Added
  add_item published payload =
      let rec_len = framed_len (length payload) in
      do
        live ← attempt check_io
        elim live [
          | err e ↦ (do discard_staged; pure (record { published = published; error = some e }))
          | ok _ ↦ (do
            admitted ← attempt (admit_record rec_len false)
            elim admitted [
              | err e ↦ stop_batch published e
              | ok _ ↦ (do
                cycles ← gets (needs_cycle rec_len)
                a ←
                    (if cycles
                      then cycle_batch rec_len published
                      else pure (record { published = published; error = none }))
                go_on_with a (do
                  staged ← attempt (stage_pending env payload)
                  elim staged [ err e ↦ stop_batch a.published e | ok _ ↦ tick_batch a.published ]))
            ])
        ]

  -- The loop of `addBatchLocked`. An item is what MarshalFunc made of it.
  unfoldable pub add_items : ℕ → List (Option (List ℕ)) → M Added
  add_items published [] = publish_batch published
  add_items published (none ∷ items) = stop_batch published (sentinel codec)
  add_items published (some payload ∷ items) = do
    a ← add_item published payload
    go_on_with a (add_items a.published items)

  unfoldable pub add_batch_locked : List (Option (List ℕ)) → M Added
  add_batch_locked items = do
    live ← attempt check_io
    elim live [ err e ↦ pure (record { published = 0; error = some e }) | ok _ ↦ add_items 0 items ]
