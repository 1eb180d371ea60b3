-- ===== src/Queue/Count.antt =====
-- diskqueue.go: the count that `AddBatch` returns, against the lifetime count of the store.
use diskqueue.Base.{
  ℕ, ◌+◌, ◌≡◌, refl, ap, subst, Bool, false, Option, none, some, List, [], ◌∷◌, ◌==◌, leb, ◌&&◌,
  arith, length, if◌then◌else◌,
}
use diskqueue.Frame.{framed_len}
use diskqueue.Store.State.{Store, Env, Error, per_op, batched}
use diskqueue.Store.Action.{M, Result, ok, err, ◌>>=◌, pure, gets, attempt}
use diskqueue.Store.Append.{needs_cycle, take_span, discard_staged, stage_pending}
use diskqueue.Store.Append.Outcome.{
  admit_record-Keeps, cycle_counted-Keeps, active_file-Keeps, write_record-Keeps,
}
use diskqueue.Store.Quiet.{
  Keeps, Quiet-cursors, bind-Keeps, gets-Keeps, if-Keeps, when-Keeps, modify-Keeps, attempt-Keeps,
  check_io-Keeps,
}
use diskqueue.Store.Quiet.Files.{fail_io-Quiet, os_touch-Quiet, ensure_open-Quiet, record_ops-Quiet}
use diskqueue.Store.Meets.{
  Meets, attempt_then, attempt-Meets, gets-Meets, modify-Meets, bind-Meets, either-Meets,
  weaken-Meets,
}
use diskqueue.Queue.Batch.{
  Added, sync_published, defer_sync, settle_batch, publish_taken, publish_batch, stop_batch,
  go_on_with, on_error, cycle_batch, tick_batch, add_item, add_items, add_batch_locked,
}
use diskqueue.Queue.Span.{
  added, spanned, Spanned, Synced, cursors-added, cursors-spanned, publish_span-Spanned,
  sync_span-Synced,
}

-- The published count grew by what entered the queue since it stood at `k` over `n` records.
abbrev Counted : ℕ → ℕ → Result Added → Store → Type 0
Counted k n (ok a) t = a.published + n ≡ k + t.n_added
Counted k n (err e) t = ⊥

abbrev Tried : {A : Type 0} → (Result A → Store → Type 0) → Result (Result A) → Store → Type 0
Tried Q (ok r) t = Q r t
Tried Q (err e) t = ⊥

module _ (env : Env) where
  settle_batch-Keeps : (b : Bool) (af recs span : ℕ) → Keeps added (settle_batch env b af recs span)
  unfolding settle_batch sync_published defer_sync
  settle_batch-Keeps b af recs span =
      if-Keeps b _ _
        (bind-Keeps _ _
          (attempt-Keeps _ (cursors-added _ (Quiet-cursors _ (os_touch-Quiet env af))))
          (elim [
            | ok _ ↦ modify-Keeps _ (λ s. refl)
            | err e ↦ cursors-added _ (Quiet-cursors _ (fail_io-Quiet e))
          ]))
        (bind-Keeps _ _ (modify-Keeps _ (λ s. refl)) (λ _.
          bind-Keeps _ _ (gets-Keeps _)
            (λ b'. when-Keeps _ _ (cursors-added _ (Quiet-cursors _ (record_ops-Quiet env recs))))))

  -- The rest of the batch, span by span.
  publish_taken-Counted :
      (k : ℕ) (per_op : Bool) (span af : ℕ) (s : Store)
      → Meets (publish_taken env k per_op s.in_flight_recs span af) s (Counted k s.n_added)
  unfolding publish_taken
  publish_taken-Counted k per_op span af s =
      bind-Meets {R = Tried (Synced (spanned s))} _ _ s
        (attempt-Meets _ s
          (either-Meets per_op _ _ s (sync_span-Synced env af s) (record { at = refl })))
        (elim [
          | err e ↦ λ t h. record { at = omega (arith, h) }
          | ok _ ↦ λ t h.
              bind-Meets {R = Tried (Spanned (spanned t))} _ _ t
                (attempt-Meets _ t (publish_span-Spanned env t))
                (elim [
                  | err e ↦ λ u x. record { at = omega (arith, x, ap (λ y. y.0) h) }
                  | ok _ ↦ λ u x.
                      attempt_then {p = added} _ _ u (settle_batch-Keeps per_op af _ span) (λ r v y.
                        record { at = omega (arith, y, x, ap (λ z. z.0) h, ap (λ z. z.1) h) })
                ])
                (λ e u x. x)
        ])
        (λ e t h. h)

  publish_batch-Counted : (k : ℕ) (s : Store) → Meets (publish_batch env k) s (Counted k s.n_added)
  unfolding publish_batch take_span
  publish_batch-Counted k s = gets-Meets _ _ s (
      either-Meets (s.pending_bytes == 0) _ _ s (record { at = refl })
        (modify-Meets _ _ s (
          attempt_then {p = spanned} _ _ _ (cursors-spanned _ (active_file-Keeps env)) (elim [
            | err e ↦ λ t h. record { at = omega (arith, ap (λ y. y.0) h) }
            | ok num ↦ λ t h.
                subst
                  (λ (x : ℕ × ℕ).
                    Meets (publish_taken env k (per_op s) x.1 s.pending_bytes num) t
                      (Counted k x.0))
                  h (publish_taken-Counted k (per_op s) s.pending_bytes num t)
          ]))))

  -- A step before the publication, which lets no record into the queue.
  still :
      {A : Type 0} (k : ℕ) (m : M A) (f : Result A → M Added) (s : Store)
      → Keeps added m
      → ((r : Result A) (t : Store) → Meets (f r) t (Counted k t.n_added))
      → Meets (attempt m >>= f) s (Counted k s.n_added)
  still k m f s q goes =
      attempt_then {p = added} m f s q
        (λ r t e. subst (λ (n : ℕ). Meets (f r) t (Counted k n)) e (goes r t))

  stop_batch-Counted :
      (k : ℕ) (e : Error) (s : Store) → Meets (stop_batch env k e) s (Counted k s.n_added)
  unfolding stop_batch
  stop_batch-Counted k e s =
      bind-Meets {R = Counted k s.n_added} _ _ s (publish_batch-Counted k s)
        (λ a t h. record { at = h }) (λ f t h. h)

  -- Where the batch goes on, the counts add up.
  go_on_with-Counted :
      (k n : ℕ) (a : Added) (m : M Added) (s : Store)
      → a.published + n ≡ k + s.n_added
      → Meets m s (Counted a.published s.n_added)
      → Meets (go_on_with a m) s (Counted k n)
  unfolding on_error
  go_on_with-Counted k n a m s h q = go a.error
    where
      go : (o : Option Error) → Meets (on_error o a m) s (Counted k n)
      go (some e) = record { at = h }
      go none = weaken-Meets _ s q (elim [ ok b ↦ λ t x. omega (arith, h, x) | err e ↦ λ t x. x ])

  cycle_batch-Counted : (n k : ℕ) (s : Store) → Meets (cycle_batch env n k) s (Counted k s.n_added)
  unfolding cycle_batch
  cycle_batch-Counted n k s =
      bind-Meets {R = Counted k s.n_added} _ _ s (publish_batch-Counted k s)
        (λ a t h. go_on_with-Counted k s.n_added a _ t h (
          still a.published _ _ t (cursors-added _ (cycle_counted-Keeps env n false))
            (λ r u. record { at = refl })))
        (λ e t h. h)

  tick_batch-Counted : (k : ℕ) (s : Store) → Meets (tick_batch env k) s (Counted k s.n_added)
  unfolding tick_batch
  tick_batch-Counted k s = gets-Meets _ _ s (
      either-Meets (batched s && leb s.sync_every (s.unsynced + s.pending_recs)) _ _ s
        (publish_batch-Counted k s) (record { at = refl }))

  stage_pending-Keeps : (payload : List ℕ) → Keeps added (stage_pending env payload)
  unfolding stage_pending
  stage_pending-Keeps payload = bind-Keeps _ _ (cursors-added _ (active_file-Keeps env)) (λ af.
      bind-Keeps _ _ (cursors-added _ (Quiet-cursors _ (ensure_open-Quiet env af))) (λ _.
        bind-Keeps _ _ check_io-Keeps (λ _. bind-Keeps _ _ (gets-Keeps _) (λ off.
          bind-Keeps _ _ (cursors-added _ (write_record-Keeps env af off payload))
            (λ _. modify-Keeps _ (λ s. refl))))))

  -- What the item leaves to do once it is admitted.
  place : ℕ → ℕ → List ℕ → M Added
  place n k payload = do
    cycles ← gets (needs_cycle n)
    a ← (if cycles then cycle_batch env n k else pure (record { published = k; error = none }))
    go_on_with a (do
      staged ← attempt (stage_pending env payload)
      elim staged [ err e ↦ stop_batch env a.published e | ok _ ↦ tick_batch env a.published ])

  place-Counted :
      (n k : ℕ) (payload : List ℕ) (s : Store) → Meets (place n k payload) s (Counted k s.n_added)
  unfolding place
  place-Counted n k payload s = gets-Meets _ _ s (
      bind-Meets {R = Counted k s.n_added} _ _ s
        (either-Meets (needs_cycle n s) _ _ s (cycle_batch-Counted n k s) (record { at = refl }))
        (λ a t h. go_on_with-Counted k s.n_added a _ t h (
          still a.published _ _ t (stage_pending-Keeps payload) (elim [
            | err e ↦ λ u. stop_batch-Counted a.published e u
            | ok _ ↦ λ u. tick_batch-Counted a.published u
          ])))
        (λ e t h. h))

  add_item-Counted :
      (k : ℕ) (payload : List ℕ) (s : Store)
      → Meets (add_item env k payload) s (Counted k s.n_added)
  unfolding add_item place discard_staged
  add_item-Counted k payload s =
      let n = framed_len (length payload) in
      still k _ _ s check_io-Keeps (elim [
        | err e ↦ λ t. modify-Meets _ _ t (record { at = refl })
        | ok _ ↦ λ t. still k _ _ t (cursors-added _ (admit_record-Keeps env n false)) (elim [
          | err e ↦ λ u. stop_batch-Counted k e u
          | ok _ ↦ λ u. place-Counted n k payload u
        ])
      ])

  add_items-Counted :
      (k : ℕ) (items : List (Option (List ℕ))) (s : Store)
      → Meets (add_items env k items) s (Counted k s.n_added)
  unfolding add_items
  add_items-Counted k [] s = publish_batch-Counted k s
  add_items-Counted k (none ∷ items) s = stop_batch-Counted k _ s
  add_items-Counted k (some payload ∷ items) s =
      bind-Meets {R = Counted k s.n_added} _ _ s (add_item-Counted k payload s)
        (λ a t h. go_on_with-Counted k s.n_added a _ t h (add_items-Counted a.published items t))
        (λ e t h. h)

  add_batch-Counted :
      (items : List (Option (List ℕ))) (s : Store)
      → Meets (add_batch_locked env items) s (Counted 0 s.n_added)
  unfolding add_batch_locked
  add_batch-Counted items s =
      still 0 _ _ s check_io-Keeps
        (elim [ err e ↦ λ t. record { at = refl } | ok _ ↦ λ t. add_items-Counted 0 items t ])

added_up :
    (n : ℕ) (r : Result Added) (t : Store)
    → Counted 0 n r t
    → (a : Added) × (r ≡ ok a) × (t.n_added ≡ n + a.published)
added_up n (ok a) t h = (a, refl, omega (arith, h))
added_up n (err e) t h = absurd h

-- `AddBatch` always answers with a count, and the count is the number of records that entered the
-- queue during the call: on success, and whatever refused, unencodable or unwritable item, failed
-- header write, flush or cycle stopped it, under every outcome of the calls to the file system.
pub add_batch_count :
    (env : Env) (items : List (Option (List ℕ))) (s : Store)
    → let (r, t) = add_batch_locked env items s in
      (a : Added) × (r ≡ ok a) × (t.n_added ≡ s.n_added + a.published)
add_batch_count env items s = added_up s.n_added _ _ (add_batch-Counted env items s).at
