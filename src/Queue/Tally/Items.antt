-- ===== src/Queue/Tally/Items.antt =====
-- diskqueue.go: the count that `AddBatch` returns, against the items that it was given.
use diskqueue.Base.{
  ℕ, ◌+◌, ◌≡◌, ◌≤◌, refl, ap, ◌∙◌, subst, false, Option, none, some, List, [], ◌∷◌, ◌⊎◌, inl, inr,
  arith, length, if◌then◌else◌,
}
use diskqueue.Frame.{framed_len}
use diskqueue.Store.State.{Store, Env, Error}
use diskqueue.Store.Action.{M, ok, err, ◌>>=◌, pure, gets, attempt}
use diskqueue.Store.Append.{needs_cycle, discard_staged, stage_pending}
use diskqueue.Store.Append.Outcome.{admit_record-Keeps}
use diskqueue.Store.Quiet.{check_io-Keeps}
use diskqueue.Store.Meets.{
  Meets, attempt_then, try-Meets, gets-Meets, modify-Meets, bind-Meets, either-Meets, pure-Meets,
  weaken-Meets,
}
use diskqueue.Queue.Batch.{
  Added, stop_batch, go_on_with, cycle_batch, tick_batch, add_item, add_items, add_batch_locked,
}
use diskqueue.Queue.Emptied.{pending, cursors-pending}
use diskqueue.Queue.Count.{add_batch_count}
use diskqueue.Queue.Tally.{
  Emptied, Tallied, EmptiedAt, go_on_with-Meets, stopped_tally, stopped_emptied,
  publish_batch-Emptied, stop_batch-Tallied, stop_batch-Emptied, cycle_batch-Tallied,
  tick_batch-Tallied, Staged, stage_pending-Staged,
}

module _ (env : Env) where
  place : ℕ → ℕ → List ℕ → M Added
  place n k payload = do
    cycles ← gets (needs_cycle n)
    a ← (if cycles then cycle_batch env n k else pure (record { published = k; error = none }))
    go_on_with a (do
      staged ← attempt (stage_pending env payload)
      elim staged [ err e ↦ stop_batch env a.published e | ok _ ↦ tick_batch env a.published ])

  place-Tallied :
      (n k : ℕ) (payload : List ℕ) (s : Store)
      → s.pending_recs ≤ s.pending_bytes
      → Meets (place n k payload) s (Tallied (k + s.pending_recs + 1))
  unfolding place
  place-Tallied n k payload s paired = gets-Meets _ _ s (
      bind-Meets {R = Tallied (k + s.pending_recs)} _ _ s
        (either-Meets (needs_cycle n s) _ _ s (cycle_batch-Tallied env n k s paired)
          (pure-Meets _ s (refl, paired)))
        (λ a t h.
          go_on_with-Meets (Tallied (k + s.pending_recs + 1)) _ a _ t h (stopped_tally _) (λ e low.
            try-Meets {R = Staged (pending t)} _ _ t (stage_pending-Staged env payload t) (elim [
              | err x ↦ λ u y. stop_batch-Tallied env _ a.published x u
              | ok _ ↦ λ u y.
                  subst (λ c. Meets (tick_batch env a.published) u (Tallied c))
                    (omega (arith, y.0, e))
                    (tick_batch-Tallied env a.published u (omega (arith, y, low)))
            ])))
        (λ e t h. tt))

  add_item-Tallied :
      (k : ℕ) (payload : List ℕ) (s : Store)
      → s.pending_recs ≤ s.pending_bytes
      → Meets (add_item env k payload) s (Tallied (k + s.pending_recs + 1))
  unfolding add_item place discard_staged
  add_item-Tallied k payload s paired =
      let n = framed_len (length payload) in
      attempt_then {p = pending} _ _ s check_io-Keeps (elim [
        | err e ↦ λ t h. modify-Meets _ _ t (pure-Meets _ _ tt)
        | ok _ ↦ λ t h.
            attempt_then {p = pending} _ _ t (cursors-pending _ (admit_record-Keeps env n false))
              (elim [
                | err e ↦ λ u l. stop_batch-Tallied env _ k e u
                | ok _ ↦ λ u l.
                    let bytes = ap (λ (x : ℕ × ℕ). x.0) (l ∙ h) in
                    let recs = ap (λ (x : ℕ × ℕ). x.1) (l ∙ h) in
                    subst (λ c. Meets (place n k payload) u (Tallied (k + c + 1))) recs
                      (place-Tallied n k payload u (omega (arith, bytes, recs, paired)))
              ])
      ])

  add_items-Emptied :
      (k : ℕ) (items : List (Option (List ℕ))) (s : Store)
      → s.pending_recs ≤ s.pending_bytes
      → Meets (add_items env k items) s (EmptiedAt (k + s.pending_recs + length items))
  unfolding add_items
  add_items-Emptied k [] s paired =
      weaken-Meets _ s (publish_batch-Emptied env k s paired)
        (λ r t h. subst (λ c. EmptiedAt c r t) (omega arith) h)
  add_items-Emptied k (none ∷ items) s paired = stop_batch-Emptied env _ k _ s
  add_items-Emptied k (some payload ∷ items) s paired =
      bind-Meets {R = Tallied (k + s.pending_recs + 1)} _ _ s (add_item-Tallied k payload s paired)
        (λ a t h. go_on_with-Meets (EmptiedAt _) _ a _ t h (stopped_emptied _) (λ e low.
          subst (λ c. Meets (add_items env a.published items) t (EmptiedAt c)) (omega (arith, e))
            (add_items-Emptied a.published items t low)))
        (λ e t h. tt)

  add_batch-Emptied :
      (items : List (Option (List ℕ))) (s : Store)
      → s.pending_recs ≡ 0
      → Meets (add_batch_locked env items) s (EmptiedAt (length items))
  unfolding add_batch_locked
  add_batch-Emptied items s idle = attempt_then {p = pending} _ _ s check_io-Keeps (elim [
    | err e ↦ λ t h. pure-Meets _ t tt
    | ok _ ↦ λ t h.
        let recs = ap (λ (x : ℕ × ℕ). x.1) h ∙ idle in
        subst (λ c. Meets (add_items env 0 items) t (EmptiedAt c)) (omega (arith, recs))
          (add_items-Emptied 0 items t (omega (arith, recs)))
  ])

-- Every item was published and nothing is left behind, or there is an error.
abbrev pub Served : ℕ → Added → Store → Type 0
Served n a t =
    ((a.error ≡ none) × (a.published ≡ n) × (t.pending_recs ≡ 0))
    ⊎ ((e : Error) × (a.error ≡ some e))

served :
    (n p : ℕ) (o : Option Error) (t : Store)
    → Emptied n o p t
    → ((o ≡ none) × (p ≡ n) × (t.pending_recs ≡ 0)) ⊎ ((e : Error) × (o ≡ some e))
served n p none t h = inl (refl, h.0, h.1)
served n p (some e) t h = inr (e, refl)

-- `AddBatch` with nothing staged always answers with a count, and the count is the number of records
-- that entered the queue during the call. Without an error it is the number of the items, and none of
-- them is left staged; whatever stopped the batch otherwise, a refused, unencodable or unwritable
-- item, a failed header write, flush or cycle, there is an error. So it is under every outcome of the
-- calls to the file system.
pub add_batch_published :
    (env : Env) (items : List (Option (List ℕ))) (s : Store)
    → s.pending_recs ≡ 0
    → let (r, t) = add_batch_locked env items s in
      (a : Added) × (r ≡ ok a) × (t.n_added ≡ s.n_added + a.published) × Served (length items) a t
add_batch_published env items s idle =
    let (a, e, k) = add_batch_count env items s in
    let h =
      subst (λ r. EmptiedAt (length items) r (add_batch_locked env items s).1) e
        (add_batch-Emptied env items s idle).at in
    (a, e, k, served (length items) a.published a.error _ h)
