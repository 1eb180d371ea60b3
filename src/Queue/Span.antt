-- ===== src/Queue/Span.antt =====
-- store.go, diskqueue.go: how many records publishing a staged span lets into the queue.
use diskqueue.Base.{ℕ, ◌+◌, ◌≡◌, refl, ap, ◌∙◌, subst, arith}
use diskqueue.Store.State.{Store, Env, Error}
use diskqueue.Store.Action.{M, Result, ok, err, ◌>>=◌, ◌>>◌, fail, gets, modify}
use diskqueue.Store.Files.{fail_io}
use diskqueue.Store.Segments.{modify_header}
use diskqueue.Store.Append.{
  discard_staged, advance, retreat, stamp_written, publish_or, unpublish_span, publish_span,
}
use diskqueue.Store.Append.Outcome.{active_file-Keeps}
use diskqueue.Store.Quiet.{Keeps, Cursors, cursors, Quiet-cursors}
use diskqueue.Store.Quiet.Files.{latch-Quiet, os_touch-Quiet, write_header-Quiet}
use diskqueue.Store.Meets.{
  Meets, then-Meets, attempt_then, gets-Meets, modify-Meets, bind-Meets, pure-Meets, fail-Meets,
  weaken-Meets,
}
use diskqueue.Queue.Batch.{sync_span}

-- The records that ever entered the queue.
abbrev pub added : Store → ℕ
added s = s.n_added

-- Those, and the records of the span that is being published.
abbrev pub spanned : Store → ℕ × ℕ
spanned s = (s.n_added, s.in_flight_recs)

pub cursors-added : {A : Type 0} (m : M A) → Keeps cursors m → Keeps added m
cursors-added m k = record { at = λ s. ap (λ (c : Cursors). c.n_added) (k.at s) }

pub cursors-spanned : {A : Type 0} (m : M A) → Keeps cursors m → Keeps spanned m
cursors-spanned m k = record {
  at = λ s. ap (λ (c : Cursors). (c.n_added, c.in_flight_recs)) (k.at s);
}

abbrev pub Spanned : ℕ × ℕ → Result (Unit {0}) → Store → Type 0
Spanned (n, recs) (ok _) t = t.n_added ≡ n + recs
Spanned (n, recs) (err e) t = t.n_added ≡ n

abbrev pub Synced : ℕ × ℕ → Result (Unit {0}) → Store → Type 0
Synced x (ok _) t = spanned t ≡ x
Synced x (err e) t = t.n_added ≡ x.0

abbrev Grown : ℕ × ℕ → Result (Unit {0}) → Store → Type 0
Grown (n, recs) (ok _) t = (t.n_added ≡ n + recs) × (t.in_flight_recs ≡ recs)
Grown (n, recs) (err e) t = ⊥

-- It fails, and no record entered the queue.
abbrev Lost : ℕ → Result (Unit {0}) → Store → Type 0
Lost n (ok _) t = ⊥
Lost n (err e) t = t.n_added ≡ n

fail_io-Lost : (e : Error) (s : Store) → Meets (fail_io e) s (Lost s.n_added)
unfolding fail_io
fail_io-Lost e s =
    then-Meets {p = added} _ _ s (cursors-added _ (Quiet-cursors _ (latch-Quiet e)))
      (λ first t k. fail-Meets first t k) (λ f t k. k)

module _ (env : Env) where
  unpublish_span-added :
      (num n : ℕ) (e : Error) (s : Store)
      → s.n_added ≡ n + s.in_flight_recs
      → Meets (do unpublish_span env num; fail {A = Unit {0}} e) s (Spanned (n, s.in_flight_recs))
  unfolding unpublish_span retreat stamp_written modify_header discard_staged ◌>>=◌
  unpublish_span-added num n e s h = record { at = omega (arith, h) }

  publish_or-Spanned :
      (num n : ℕ) (s : Store)
      → s.n_added ≡ n + s.in_flight_recs
      → Meets (publish_or env (unpublish_span env num) num) s (Spanned (n, s.in_flight_recs))
  unfolding publish_or
  publish_or-Spanned num n s h =
      attempt_then {p = spanned} _ _ s
        (cursors-spanned _ (Quiet-cursors _ (write_header-Quiet env num)))
        (elim [
          | ok _ ↦ λ t k. pure-Meets tt t (ap (λ x. x.0) k ∙ h)
          | err e ↦ λ t k.
              let same = ap (λ x. x.1) k in
              subst
                (λ (r : ℕ).
                  Meets (do unpublish_span env num; fail {A = Unit {0}} e) t (Spanned (n, r)))
                same (unpublish_span-added num n e t (omega (arith, h, same, ap (λ x. x.0) k)))
        ])

  advance-Spanned :
      (num bytes : ℕ) (s : Store)
      → Meets (advance env num bytes s.in_flight_recs) s (Grown (spanned s))
  unfolding advance stamp_written modify_header
  advance-Spanned num bytes s =
      modify-Meets _ _ s (modify-Meets _ _ _ (gets-Meets _ _ _ (record { at = (refl, refl) })))

  publish_from : ℕ → M (Unit {0})
  publish_from af = do
    s ← gets (λ s. s)
    advance env af s.in_flight s.in_flight_recs
    publish_or env (unpublish_span env af) af
    modify (λ s. record s { in_flight = 0; in_flight_recs = 0 })

  publish_from-Spanned : (af : ℕ) (s : Store) → Meets (publish_from af) s (Spanned (spanned s))
  unfolding publish_from
  publish_from-Spanned af s = gets-Meets _ _ s (
      bind-Meets {R = Grown (spanned s)} _ _ s (advance-Spanned af _ s)
        (λ _ t k.
          bind-Meets {R = Spanned (s.n_added, t.in_flight_recs)} _ _ t
            (publish_or-Spanned af s.n_added t (omega (arith, k.0, k.1)))
            (λ _ u h. record { at = omega (arith, h, k.1) }) (λ e u h. h))
        (λ e t k. absurd k))

  pub publish_span-Spanned : (s : Store) → Meets (publish_span env) s (Spanned (spanned s))
  unfolding publish_span publish_from
  publish_span-Spanned s =
      then-Meets {p = spanned} _ _ s (cursors-spanned _ (active_file-Keeps env))
        (λ af t k.
          subst (λ (x : ℕ × ℕ). Meets (publish_from af) t (Spanned x)) k
            (publish_from-Spanned af t))
        (λ e t k. ap (λ x. x.0) k)

  discarded :
      (n : ℕ) (e : Error) (s : Store)
      → s.n_added ≡ n
      → Meets (do discard_staged; fail_io {A = Unit {0}} e) s (Lost n)
  unfolding discard_staged
  discarded n e s h =
      modify-Meets _ _ s
        (weaken-Meets _ _ (fail_io-Lost e _) (elim [ ok _ ↦ λ t x. x | err f ↦ λ t x. x ∙ h ]))

  pub sync_span-Synced : (num : ℕ) (s : Store) → Meets (sync_span env num) s (Synced (spanned s))
  unfolding sync_span
  sync_span-Synced num s =
      attempt_then {p = spanned} _ _ s
        (cursors-spanned _ (Quiet-cursors _ (os_touch-Quiet env num)))
        (elim [
          | ok _ ↦ λ t k. pure-Meets tt t k
          | err e ↦ λ t k.
              weaken-Meets _ t (discarded s.n_added e t (ap (λ x. x.0) k))
                (elim [ ok _ ↦ λ u x. absurd x | err f ↦ λ u x. x ])
        ])
