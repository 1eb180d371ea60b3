-- ===== src/Queue/Group/Marks.antt =====
-- store.go: what staging, taking and publishing a span do to the write cursor and the staged bytes.
use diskqueue.Base.{Bool, ℕ, ◌+◌, ◌≡◌, refl, ap, ◌∙◌, subst, arith, List, length}
use diskqueue.Frame.{framed_len}
use diskqueue.Store.State.{Store, Env, Error}
use diskqueue.Store.Action.{M, Result, ok, err, ◌>>=◌, ◌>>◌, fail, gets, modify}
use diskqueue.Store.Files.{latch}
use diskqueue.Store.Segments.{modify_header}
use diskqueue.Store.Append.{
  admit_record, cycle_counted, discard_staged, advance, retreat, stamp_written, publish_or,
  unpublish_span, publish_span, stage_pending,
}
use diskqueue.Store.Append.Outcome.{
  admit_record-Keeps, cycle_counted-Keeps, active_file-Keeps, write_record-Keeps,
}
use diskqueue.Store.Quiet.{Keeps, Cursors, cursors, Quiet-cursors, bind-Keeps, check_io-Keeps}
use diskqueue.Store.Quiet.Files.{latch-Quiet, os_touch-Quiet, write_header-Quiet, ensure_open-Quiet}
use diskqueue.Store.Meets.{
  Meets, then-Meets, attempt_then, gets-Meets, modify-Meets, bind-Meets, pure-Meets,
}
use diskqueue.Queue.Group.{sync_active}
use diskqueue.Queue.Group.System.{Marks, marks}

abbrev marks_of : Cursors → Marks
marks_of c = record {
  write_off = c.write_off;
  in_flight = c.in_flight;
  pending_bytes = c.pending_bytes;
}

-- What leaves the cursors alone leaves the marks alone.
pub cursors-marks : {A : Type 0} (m : M A) → Keeps cursors m → Keeps marks m
cursors-marks m k = record { at = λ s. ap marks_of (k.at s) }

-- The record is staged, or nothing is.
abbrev pub Staged : ℕ → Marks → Result (Unit {0}) → Store → Type 0
Staged n v (ok _) t = marks t ≡ record v { pending_bytes = v.pending_bytes + n }
Staged n v (err e) t = marks t ≡ v

-- The span is published, or the write cursor is where it was.
abbrev pub Sent : Marks → Result (Unit {0}) → Store → Type 0
Sent v (ok _) t =
    (t.write_off ≡ v.write_off + v.in_flight)
    × (t.in_flight ≡ 0)
    × (t.pending_bytes ≡ v.pending_bytes)
Sent v (err e) t = t.write_off ≡ v.write_off

-- Before the last step of the publication.
abbrev Moved : Marks → Result (Unit {0}) → Store → Type 0
Moved v (ok _) t = marks t ≡ record v { write_off = v.write_off + v.in_flight }
Moved v (err e) t = t.write_off ≡ v.write_off

pub latch-marks : (e : Error) → Keeps marks (latch e)
latch-marks e = cursors-marks _ (Quiet-cursors _ (latch-Quiet e))

module _ (env : Env) where
  pub sync_active-marks : Keeps marks (sync_active env)
  unfolding sync_active
  sync_active-marks =
      bind-Keeps _ _ (cursors-marks _ (active_file-Keeps env))
        (λ af. cursors-marks _ (Quiet-cursors _ (os_touch-Quiet env af)))

  pub admit_record-marks : (n : ℕ) (force : Bool) → Keeps marks (admit_record n force)
  admit_record-marks n force = cursors-marks _ (admit_record-Keeps env n force)

  pub cycle_counted-marks : (n : ℕ) (force : Bool) → Keeps marks (cycle_counted env n force)
  cycle_counted-marks n force = cursors-marks _ (cycle_counted-Keeps env n force)

  early :
      {A : Type 0} (n : ℕ) (m : M A) (f : A → M (Unit {0})) (s : Store)
      → Keeps cursors m
      → ((a : A) (t : Store) → Meets (f a) t (Staged n (marks t)))
      → Meets (m >>= f) s (Staged n (marks s))
  early n m f s k goes =
      then-Meets {p = marks} m f s (cursors-marks m k)
        (λ a t e. subst (λ (v : Marks). Meets (f a) t (Staged n v)) e (goes a t)) (λ e t h. h)

  pub stage_pending-Staged :
      (payload : List ℕ) (s : Store)
      → Meets (stage_pending env payload) s (Staged (framed_len (length payload)) (marks s))
  unfolding stage_pending
  stage_pending-Staged payload s =
      let n = framed_len (length payload) in
      early n _ _ s (active_file-Keeps env) (λ af s.
        early n _ _ s (Quiet-cursors _ (ensure_open-Quiet env af)) (λ _ s.
          early n _ _ s check_io-Keeps (λ _ s.
            gets-Meets _ _ s
              (early n _ _ s (write_record-Keeps env af _ payload) (λ _ s. record { at = refl })))))

  unpublish_span-Moved :
      (num : ℕ) (v : Marks) (e : Error) (s : Store)
      → marks s ≡ record v { write_off = v.write_off + v.in_flight }
      → Meets (do unpublish_span env num; fail {A = Unit {0}} e) s (Moved v)
  unfolding unpublish_span retreat stamp_written modify_header discard_staged ◌>>=◌
  unpublish_span-Moved num v e s h =
      let w = ap (λ (x : Marks). x.write_off) h in
      let f = ap (λ (x : Marks). x.in_flight) h in record { at = omega (arith, w, f) }

  publish_or-Moved :
      (num : ℕ) (v : Marks) (s : Store)
      → marks s ≡ record v { write_off = v.write_off + v.in_flight }
      → Meets (publish_or env (unpublish_span env num) num) s (Moved v)
  unfolding publish_or
  publish_or-Moved num v s h =
      attempt_then {p = marks} _ _ s
        (cursors-marks _ (Quiet-cursors _ (write_header-Quiet env num)))
        (elim [
          | ok _ ↦ λ t k. pure-Meets tt t (k ∙ h)
          | err e ↦ λ t k. unpublish_span-Moved num v e t (k ∙ h)
        ])

  publish_from : ℕ → M (Unit {0})
  publish_from af = do
    s ← gets (λ s. s)
    advance env af s.in_flight s.in_flight_recs
    publish_or env (unpublish_span env af) af
    modify (λ s. record s { in_flight = 0; in_flight_recs = 0 })

  advance-Moved :
      (num recs : ℕ) (s : Store) → Meets (advance env num s.in_flight recs) s (Moved (marks s))
  unfolding advance stamp_written modify_header
  advance-Moved num recs s =
      modify-Meets _ _ s (modify-Meets _ _ _ (gets-Meets _ _ _ (record { at = refl })))

  publish_from-Sent : (af : ℕ) (s : Store) → Meets (publish_from af) s (Sent (marks s))
  unfolding publish_from
  publish_from-Sent af s = gets-Meets _ _ s (
      bind-Meets {R = Moved (marks s)} _ _ s (advance-Moved af _ s)
        (λ _ t h.
          bind-Meets {R = Moved (marks s)} _ _ t (publish_or-Moved af (marks s) t h)
            (λ _ u k. record {
              at = (ap (λ (x : Marks). x.write_off) k, refl, ap (λ (x : Marks). x.pending_bytes) k);
            })
            (λ e u k. k))
        (λ e t k. k))

  pub publish_span-Sent : (s : Store) → Meets (publish_span env) s (Sent (marks s))
  unfolding publish_span publish_from
  publish_span-Sent s =
      then-Meets {p = marks} _ _ s (cursors-marks _ (active_file-Keeps env))
        (λ af t k.
          subst (λ (v : Marks). Meets (publish_from af) t (Sent v)) k (publish_from-Sent af t))
        (λ e t k. ap (λ (x : Marks). x.write_off) k)
