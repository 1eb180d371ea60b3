-- ===== src/Queue/Emptied.antt =====
-- diskqueue.go, store.go: publishing a span leaves nothing staged.
use diskqueue.Base.{ℕ, ◌≡◌, refl, ap, ◌∙◌, Bool, true, false, if◌then◌else◌}
use diskqueue.Store.State.{Store, Env, Error}
use diskqueue.Store.Action.{M, Result, ok, err, ◌>>=◌, modify, attempt}
use diskqueue.Store.Os.{os_touch}
use diskqueue.Store.Files.{fail_io}
use diskqueue.Store.Segments.{modify_header}
use diskqueue.Store.Append.{
  discard_staged, advance, retreat, stamp_written, publish_or, unpublish_span, publish_span,
}
use diskqueue.Store.Append.Outcome.{active_file-Keeps}
use diskqueue.Store.Quiet.{Keeps, Cursors, cursors, Quiet-cursors, gets-Keeps}
use diskqueue.Store.Quiet.Files.{
  fail_io-Quiet, os_touch-Quiet, write_header-Quiet, record_ops-Quiet,
}
use diskqueue.Queue.Batch.{sync_span, sync_published, defer_sync, settle_batch}

-- What is staged and not being published: bytes and records.
abbrev pub pending : Store → ℕ × ℕ
pending s = (s.pending_bytes, s.pending_recs)

pub cursors-pending : {A : Type 0} (m : M A) → Keeps cursors m → Keeps pending m
cursors-pending m k = record {
  at = λ s. ap (λ (c : Cursors). (c.pending_bytes, c.pending_recs)) (k.at s);
}

-- Where no record is pending, none is behind `m`.
pub record Idle {A : Type 0} (m : M A) : Type 0 where
  pub at : (s : Store) → s.pending_recs ≡ 0 → (m s).1.pending_recs ≡ 0

module _ {A : Type 0} where
  kept-Idle : (m : M A) → Keeps cursors m → Idle m
  kept-Idle m k = record { at = λ s e. ap (λ (c : Cursors). c.pending_recs) (k.at s) ∙ e }

  attempt-Idle : (m : M A) → Idle m → Idle (attempt m)
  unfolding attempt
  attempt-Idle m q = record { at = λ s e. q.at s e }

module _ {A B : Type 0} where
  bind-Idle : (m : M A) (f : A → M B) → Idle m → ((a : A) → Idle (f a)) → Idle (m >>= f)
  unfolding ◌>>=◌
  bind-Idle m f k q = record { at = λ s e. go (m s).0 (m s).1 (k.at s e) }
    where
      go :
          (r : Result A) (s : Store)
          → s.pending_recs ≡ 0
          → (((λ t. (r, t)) >>= f) s).1.pending_recs ≡ 0
      go (ok a) s e = (q a).at s e
      go (err x) s e = e

if-Idle : (b : Bool) (m n : M (Unit {0})) → Idle m → Idle n → Idle (if b then m else n)
if-Idle true m n q r = q
if-Idle false m n q r = r

modify-Idle :
    (f : Store → Store)
    → ((s : Store) → s.pending_recs ≡ 0 → (f s).pending_recs ≡ 0)
    → Idle (modify f)
modify-Idle f h = record { at = h }

discard_staged-Idle : Idle discard_staged
unfolding discard_staged
discard_staged-Idle = record { at = λ s e. refl }

module _ (env : Env) where
  fail_io-Idle : {A : Type 0} (e : Error) → Idle (fail_io {A = A} e)
  fail_io-Idle e = kept-Idle _ (Quiet-cursors _ (fail_io-Quiet e))

  touch-Idle : (num : ℕ) → Idle (attempt (os_touch env num))
  touch-Idle num = attempt-Idle _ (kept-Idle _ (Quiet-cursors _ (os_touch-Quiet env num)))

  pub sync_span-Idle : (num : ℕ) → Idle (sync_span env num)
  unfolding sync_span
  sync_span-Idle num = bind-Idle _ _ (touch-Idle num) (elim [
    | ok _ ↦ record { at = λ s e. e }
    | err e ↦ bind-Idle _ _ discard_staged-Idle (λ _. fail_io-Idle e)
  ])

  pub settle_batch-Idle : (b : Bool) (af recs span : ℕ) → Idle (settle_batch env b af recs span)
  unfolding settle_batch sync_published defer_sync
  settle_batch-Idle b af recs span =
      if-Idle b _ _
        (bind-Idle _ _ (touch-Idle af)
          (elim [ ok _ ↦ modify-Idle _ (λ s e. e) | err e ↦ fail_io-Idle e ]))
        (bind-Idle _ _ (modify-Idle _ (λ s e. e)) (λ _.
          bind-Idle _ _ (kept-Idle _ (gets-Keeps _)) (λ b'.
            if-Idle b' _ _ (kept-Idle _ (Quiet-cursors _ (record_ops-Quiet env recs)))
              (record { at = λ s e. e }))))

  advance-Idle : (num bytes recs : ℕ) → Idle (advance env num bytes recs)
  unfolding advance stamp_written modify_header ◌>>=◌
  advance-Idle num bytes recs = record { at = λ s e. e }

  unpublish_span-Idle : (num : ℕ) → Idle (unpublish_span env num)
  unfolding unpublish_span retreat stamp_written modify_header discard_staged ◌>>=◌
  unpublish_span-Idle num = record { at = λ s e. refl }

  publish_or-Idle : (num : ℕ) → Idle (publish_or env (unpublish_span env num) num)
  unfolding publish_or
  publish_or-Idle num =
      bind-Idle _ _ (attempt-Idle _ (kept-Idle _ (Quiet-cursors _ (write_header-Quiet env num))))
        (elim [
          | ok _ ↦ record { at = λ s e. e }
          | err e ↦ bind-Idle _ _ (unpublish_span-Idle num) (λ _. record { at = λ s e. e })
        ])

  pub publish_span-Idle : Idle (publish_span env)
  unfolding publish_span
  publish_span-Idle = bind-Idle _ _ (kept-Idle _ (active_file-Keeps env)) (λ af.
      bind-Idle _ _ (kept-Idle _ (gets-Keeps _)) (λ s.
        bind-Idle _ _ (advance-Idle af _ _)
          (λ _. bind-Idle _ _ (publish_or-Idle af) (λ _. modify-Idle _ (λ t e. e)))))
