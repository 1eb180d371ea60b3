-- ===== src/Queue/Tally.antt =====
-- diskqueue.go: what the steps of `AddBatch` publish and leave staged.
pub mod Items
use diskqueue.Base.{
  ℕ, ◌+◌, ◌≡◌, ◌≤◌, refl, sym, ap, ◌∙◌, subst, Bool, true, false, Option, none, some, List, [], ◌∷◌,
  ◌==◌, leb, ◌&&◌, ◌⊎◌, inl, inr, arith, length, if◌then◌else◌,
}
use diskqueue.Frame.{framed_len, checksum_size}
use diskqueue.Store.State.{Store, Env, Error, per_op, batched}
use diskqueue.Store.Action.{M, Result, ok, err, ◌>>=◌, pure, gets, attempt, when, check_io}
use diskqueue.Store.Append.{needs_cycle, take_span, discard_staged, stage_pending}
use diskqueue.Store.Append.Outcome.{
  admit_record-Keeps, cycle_counted-Keeps, active_file-Keeps, write_record-Keeps,
}
use diskqueue.Store.Quiet.{Keeps, Quiet-cursors, check_io-Keeps, gets-Keeps}
use diskqueue.Store.Quiet.Files.{ensure_open-Quiet}
use diskqueue.Store.Meets.{
  Meets, attempt_then, try-Meets, then-Meets, gets-Meets, modify-Meets, bind-Meets, if-Meets,
  either-Meets, pure-Meets, weaken-Meets, loose-Meets,
}
use diskqueue.Queue.Batch.{
  Added, error_of, settle_batch, sync_span, publish_taken, publish_batch, stop_batch, go_on_with,
  on_error, cycle_batch, tick_batch, add_item, add_items, add_batch_locked,
}
use diskqueue.Queue.Emptied.{
  pending, cursors-pending, sync_span-Idle, settle_batch-Idle, publish_span-Idle,
}
use diskqueue.Queue.Count.{add_batch_count}

-- Without an error: the records that are published and pending are `n`, and a pending record has a
-- byte at least.
abbrev pub Tally : ℕ → Option Error → ℕ → Store → Type 0
Tally n (some e) p t = Unit {0}
Tally n none p t = (p + t.pending_recs ≡ n) × (t.pending_recs ≤ t.pending_bytes)

-- And none is pending.
abbrev pub Emptied : ℕ → Option Error → ℕ → Store → Type 0
Emptied n (some e) p t = Unit {0}
Emptied n none p t = (p ≡ n) × (t.pending_recs ≡ 0)

abbrev pub Tallied : ℕ → Result Added → Store → Type 0
Tallied n (ok a) t = Tally n a.error a.published t
Tallied n (err e) t = Unit {0}

abbrev pub EmptiedAt : ℕ → Result Added → Store → Type 0
EmptiedAt n (ok a) t = Emptied n a.error a.published t
EmptiedAt n (err e) t = Unit {0}

Emptied-Tally : (n : ℕ) (e : Option Error) (p : ℕ) (t : Store) → Emptied n e p t → Tally n e p t
Emptied-Tally n none p t h = (omega (arith, h.0, h.1), omega (arith, h.1))
Emptied-Tally n (some e) p t h = tt

pub EmptiedAt-Tallied : (n : ℕ) (r : Result Added) (t : Store) → EmptiedAt n r t → Tallied n r t
EmptiedAt-Tallied n (ok a) t h = Emptied-Tally n a.error a.published t h
EmptiedAt-Tallied n (err e) t h = tt

-- One record more is pending, and its bytes, if it was staged.
abbrev pub Staged : ℕ × ℕ → Result (Unit {0}) → Store → Type 0
Staged x (ok _) t = (t.pending_recs ≡ x.1 + 1) × (x.0 + 1 ≤ t.pending_bytes)
Staged x (err e) t = Unit {0}

-- Where the batch goes on, nothing stopped it.
pub go_on_with-Meets :
    (Q : Result Added → Store → Type 0) (n : ℕ) (a : Added) (m : M Added) (s : Store)
    → Tally n a.error a.published s
    → ((e : Error) (u : Store) (b : Added) → b.error ≡ some e → Q (ok b) u)
    → (a.published + s.pending_recs ≡ n → s.pending_recs ≤ s.pending_bytes → Meets m s Q)
    → Meets (go_on_with a m) s Q
unfolding on_error
go_on_with-Meets Q n a m s h stops goes = go a.error refl h
  where
    go : (o : Option Error) → a.error ≡ o → Tally n o a.published s → Meets (on_error o a m) s Q
    go (some e) k x = record { at = stops e s a k }
    go none k x = goes x.0 x.1

pub stopped_tally :
    (n : ℕ) (e : Error) (u : Store) (b : Added) → b.error ≡ some e → Tallied n (ok b) u
stopped_tally n e u b k = subst (λ o. Tally n o b.published u) (sym k) tt

pub stopped_emptied :
    (n : ℕ) (e : Error) (u : Store) (b : Added) → b.error ≡ some e → EmptiedAt n (ok b) u
stopped_emptied n e u b k = subst (λ o. Emptied n o b.published u) (sym k) tt

module _ (env : Env) where
  publish_taken-Emptied :
      (k recs : ℕ) (per_op : Bool) (span af : ℕ) (s : Store)
      → s.pending_recs ≡ 0
      → Meets (publish_taken env k per_op recs span af) s (EmptiedAt (k + recs))
  unfolding publish_taken
  publish_taken-Emptied k recs per_op span af s z =
      try-Meets {R = λ r t. t.pending_recs ≡ 0} _ _ s (record { at = before per_op })
        (elim [
          | err e ↦ λ t h. pure-Meets _ t tt
          | ok _ ↦ λ t h.
              try-Meets {R = λ r u. u.pending_recs ≡ 0} _ _ t
                (record { at = (publish_span-Idle env).at t h })
                (elim [
                  | err e ↦ λ u h. pure-Meets _ u tt
                  | ok _ ↦ λ u h.
                      try-Meets {R = λ r v. v.pending_recs ≡ 0} _ _ u
                        (record { at = (settle_batch-Idle env per_op af recs span).at u h })
                        (λ r v h. pure-Meets _ v (done r v h))
                ])
        ])
    where
      before : (b : Bool) → (when b (sync_span env af) s).1.pending_recs ≡ 0
      before true = (sync_span-Idle env af).at s z
      before false = z

      done :
          (r : Result (Unit {0})) (v : Store)
          → v.pending_recs ≡ 0
          → Emptied (k + recs) (error_of r) (k + recs) v
      done (ok _) v h = (refl, h)
      done (err e) v h = tt

  pub publish_batch-Emptied :
      (k : ℕ) (s : Store)
      → s.pending_recs ≤ s.pending_bytes
      → Meets (publish_batch env k) s (EmptiedAt (k + s.pending_recs))
  unfolding publish_batch take_span
  publish_batch-Emptied k s paired = gets-Meets _ _ s (
      if-Meets (s.pending_bytes == 0) _ _ s
        (λ none_left. pure-Meets _ s (ground (arith, none_left), ground (arith, none_left)))
        (λ _. modify-Meets _ _ s (
          attempt_then {p = pending} _ _ _ (cursors-pending _ (active_file-Keeps env)) (elim [
            | err e ↦ λ t h. pure-Meets _ t tt
            | ok num ↦ λ t h.
                publish_taken-Emptied k s.pending_recs (per_op s) s.pending_bytes num t
                  (ap (λ (x : ℕ × ℕ). x.1) h)
          ]))))

  pub stop_batch-Tallied :
      (n k : ℕ) (e : Error) (s : Store) → Meets (stop_batch env k e) s (Tallied n)
  unfolding stop_batch
  stop_batch-Tallied n k e s = loose-Meets _ _ s (λ r t. pure-Meets _ t tt) (λ e' t. tt)

  pub stop_batch-Emptied :
      (n k : ℕ) (e : Error) (s : Store) → Meets (stop_batch env k e) s (EmptiedAt n)
  unfolding stop_batch
  stop_batch-Emptied n k e s = loose-Meets _ _ s (λ r t. pure-Meets _ t tt) (λ e' t. tt)

  pub cycle_batch-Tallied :
      (n k : ℕ) (s : Store)
      → s.pending_recs ≤ s.pending_bytes
      → Meets (cycle_batch env n k) s (Tallied (k + s.pending_recs))
  unfolding cycle_batch
  cycle_batch-Tallied n k s paired =
      bind-Meets {R = Tallied (k + s.pending_recs)} _ _ s
        (weaken-Meets _ s (publish_batch-Emptied k s paired) (EmptiedAt-Tallied _))
        (λ a t h.
          go_on_with-Meets (Tallied (k + s.pending_recs)) _ a _ t h (stopped_tally _) (λ e low.
            attempt_then {p = pending} _ _ t (cursors-pending _ (cycle_counted-Keeps env n false))
              (λ r u same. pure-Meets _ u (done a.published r t u same e low))))
        (λ e t h. tt)
    where
      done :
          (p : ℕ) (r : Result (Unit {0})) (t u : Store)
          → pending u ≡ pending t
          → p + t.pending_recs ≡ k + s.pending_recs
          → t.pending_recs ≤ t.pending_bytes
          → Tally (k + s.pending_recs) (error_of r) p u
      done p (err x) t u same e low = tt
      done p (ok _) t u same e low =
          let a = ap (λ (x : ℕ × ℕ). x.0) same in
          let b = ap (λ (x : ℕ × ℕ). x.1) same in (omega (arith, b, e), omega (arith, a, b, low))

  pub tick_batch-Tallied :
      (k : ℕ) (s : Store)
      → s.pending_recs ≤ s.pending_bytes
      → Meets (tick_batch env k) s (Tallied (k + s.pending_recs))
  unfolding tick_batch
  tick_batch-Tallied k s paired = gets-Meets _ _ s (
      either-Meets (batched s && leb s.sync_every (s.unsynced + s.pending_recs)) _ _ s
        (weaken-Meets _ s (publish_batch-Emptied k s paired) (EmptiedAt-Tallied _))
        (pure-Meets _ s (refl, paired)))

  pub stage_pending-Staged :
      (payload : List ℕ) (s : Store) → Meets (stage_pending env payload) s (Staged (pending s))
  unfolding stage_pending framed_len
  stage_pending-Staged payload s =
      then-Meets {p = pending} _ _ s (cursors-pending _ (active_file-Keeps env))
        (λ af t a.
          then-Meets {p = pending} _ _ t
            (cursors-pending _ (Quiet-cursors _ (ensure_open-Quiet env af)))
            (λ _ u b.
              then-Meets {p = pending} _ _ u check_io-Keeps
                (λ _ v c. gets-Meets _ _ v (
                  then-Meets {p = pending} _ _ v
                    (cursors-pending _ (write_record-Keeps env af _ payload))
                    (λ _ w d. record {
                      at =
                          let e = d ∙ c ∙ b ∙ a in
                          let bytes = ap (λ (x : ℕ × ℕ). x.0) e in
                          let recs = ap (λ (x : ℕ × ℕ). x.1) e in
                          (omega (arith, recs), omega (arith, bytes));
                    })
                    (λ e w d. tt)))
                (λ e v c. tt))
            (λ e u b. tt))
        (λ e t a. tt)
