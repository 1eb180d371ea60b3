-- ===== src/Store/Walk/Progress.antt =====
-- store.go: each round of the commit walk ends it or moves the cursor on, so the walk ends.
use diskqueue.Base.{
  ℕ, zero, suc, ◌<◌, ◌≡◌, refl, ◌∙◌, Bool, Option, none, some, List, [], ◌∷◌, arith, get_elem?,
  Option-cases, inl, inr,
}
use diskqueue.Store.State.{Store, DataFile, Reservation, Env, Error}
use diskqueue.Store.Action.{Result, ok, err}
use diskqueue.Store.Commit.{revert_commit, persist_commit}
use diskqueue.Store.Quiet.{view, when-Keeps}
use diskqueue.Store.Quiet.Files.{flush_file-Quiet, modify_header-Quiet, write_header-Quiet}
use diskqueue.Store.Quiet.Reads.{frame_end-Quiet}
use diskqueue.Store.Meets.{
  Meets, then-Meets, attempt_then, attempt-Meets, gets-Meets, modify-Meets, bind-Meets, keeps-Meets,
  pure-Meets, fail-Meets, weaken-Meets, either-Meets,
}
use diskqueue.Store.Walk.{
  Walk, Round, halt, go_on, checked, entry_at_cursor, leave, retire_damage, meet_damage,
  retire_record, boundary, judged,
}
use diskqueue.Store.Walk.Skip.{Proper, Past, skip_corrupt_segment-Moved}

-- A round ends the walk, or the cursor is past `c`; it never fails of its own.
abbrev pub Ahead : ℕ → ℕ → Result Round → Store → Type 0
Ahead c tail (ok (halt cur e)) t = Unit {0}
Ahead c tail (ok (go_on w)) t = Past c tail t
Ahead c tail (err e) t = ⊥

-- The value does not matter and the store shows what it did.
abbrev pub Still : {A : Type 0} → Store → Result A → Store → Type 0
Still s (ok a) t = view t ≡ view s
Still s (err e) t = ⊥

-- So it is where the inner result is a success.
abbrev pub Tried : {A : Type 0} → Store → Result (Result A) → Store → Type 0
Tried s (ok (ok a)) t = view t ≡ view s
Tried s (ok (err e)) t = Unit {0}
Tried s (err e) t = ⊥

abbrev Skipped : ℕ → ℕ → Result (Result (Unit {0})) → Store → Type 0
Skipped c tail (ok (ok a)) t = Past c tail t
Skipped c tail (ok (err e)) t = Unit {0}
Skipped c tail (err e) t = ⊥

pub checked-further :
    (s : Store) (b : Result (Option ℕ)) (next : ℕ)
    → checked s b ≡ ok (some next)
    → s.commit_off < next
checked-further s (err e) next h = cc
checked-further s (ok none) next h = cc
checked-further s (ok (some n)) next h = ground arith

get_elem?-Proper :
    (rs : List Reservation) (i : ℕ) (r : Reservation)
    → Proper rs
    → get_elem? rs i ≡ some r
    → r.start < r.end
get_elem?-Proper [] i r p e = cc
get_elem?-Proper (x ∷ rs) zero r p e = let h = p.0 in ground arith
get_elem?-Proper (x ∷ rs) (suc i) r p e = get_elem?-Proper rs i r p.1 e

-- The entry that the walk takes stands at the cursor and spans a byte.
pub entry_at_cursor_lem :
    (i : ℕ) (s : Store) (r : Reservation)
    → Proper s.reserved
    → entry_at_cursor i s ≡ some r
    → (r.start ≡ s.commit_off) × (r.start < r.end)
unfolding entry_at_cursor
entry_at_cursor_lem i s r p e = elim (Option-cases (get_elem? s.reserved i)) [
  | inl gone ↦ ground (arith, gone)
  | inr (x, found) ↦
      let h = get_elem?-Proper s.reserved i x p found in
      (ground (arith, found), ground (arith, found))
]

module _ (env : Env) where
  revert_commit-Tried :
      (num : ℕ) (df : DataFile) (e : Error) (s t : Store)
      → Meets (revert_commit env num df e) t (λ r u. Tried s (ok r) u)
  unfolding revert_commit
  revert_commit-Tried num df e s t = modify-Meets _ _ t (
      modify-Meets _ _ _ (
        then-Meets {p = view} _ _ _ (modify_header-Quiet env num _) (λ _ u _. fail-Meets e u tt)
          (λ e u _. tt)))

  persist_commit-Tried :
      (num : ℕ) (per_op : Bool) (s : Store)
      → Meets (persist_commit env num per_op) s (λ r t. Tried s (ok r) t)
  unfolding persist_commit
  persist_commit-Tried num per_op s = gets-Meets _ _ s (
      then-Meets {p = view} _ _ s (modify_header-Quiet env num _)
        (λ _ t v. attempt_then {p = view} _ _ t (write_header-Quiet env num) (elim [
          | ok _ ↦ λ u w.
              keeps-Meets _ u (when-Keeps _ _ (flush_file-Quiet env num))
                (elim [ ok _ ↦ λ x k. k ∙ w ∙ v | err e ↦ λ x k. tt ])
          | err e ↦ λ u w.
              either-Meets _ _ _ u (pure-Meets tt u (w ∙ v))
                (revert_commit-Tried num (s.heap num) e s u)
        ]))
        (λ e t v. tt))

module _ (env : Env) (off : ℕ) (per_op : Bool) where
  pub leave-Tried :
      (cur : Option ℕ) (num : ℕ) (s : Store) → Meets (leave env off per_op cur num) s (Tried s)
  unfolding leave
  leave-Tried none num s = pure-Meets _ s refl
  leave-Tried (some p) num s = either-Meets _ _ _ s (pure-Meets _ s refl) (
      bind-Meets {R = Tried s} _ _ s (attempt-Meets _ s (persist_commit-Tried env p per_op s))
        (elim [ ok _ ↦ λ t v. pure-Meets _ t v | err e ↦ λ t v. pure-Meets _ t tt ]) (λ e t v. v))

  pub boundary-Still :
      (num : ℕ) (entry : Option Reservation) (opened : Result (Unit {0})) (s : Store)
      → Meets (boundary env off per_op num entry opened) s (Still s)
  unfolding boundary
  boundary-Still num entry (ok _) s =
      gets-Meets _ _ s
        (attempt-Meets _ s (keeps-Meets _ s (frame_end-Quiet env num _) (λ r t v. v)))
  boundary-Still num (some r) (err e) s = pure-Meets _ s refl
  boundary-Still num none (err e) s = pure-Meets _ s refl

  pub retire_damage-Ahead :
      (w : Walk) (num : ℕ) (r : Reservation) (s : Store)
      → (r.start ≡ s.commit_off) × (r.start < r.end)
      → Proper s.reserved
      → Meets (retire_damage env off per_op w num r) s (Ahead s.commit_off s.write_off)
  unfolding retire_damage
  retire_damage-Ahead w num r s h p = either-Meets _ _ _ s (pure-Meets _ s tt) (
      gets-Meets _ _ s (
        modify-Meets _ _ s (
          modify-Meets _ _ _ (
            modify-Meets _ _ _ (record {
              at = record { further = omega (arith, h); tail_kept = refl; proper = p };
            })))))

  retire_record-Ahead :
      (w : Walk) (num next : ℕ) (s : Store)
      → s.commit_off < next
      → Proper s.reserved
      → Meets (retire_record env off per_op w num next) s (Ahead s.commit_off s.write_off)
  unfolding retire_record
  retire_record-Ahead w num next s h p = either-Meets _ _ _ s (pure-Meets _ s tt) (
      modify-Meets _ _ s
        (modify-Meets _ _ _ (record { at = record { further = h; tail_kept = refl; proper = p } })))

  meet_damage-Ahead :
      (w : Walk) (num : ℕ) (e : Error) (s : Store)
      → s.commit_off < s.write_off
      → Proper s.reserved
      → Meets (meet_damage env off per_op w num e) s (Ahead s.commit_off s.write_off)
  unfolding meet_damage
  meet_damage-Ahead w num e s h p = gets-Meets _ _ s (
      either-Meets _ _ _ s (pure-Meets _ s tt) (
        bind-Meets {R = Skipped s.commit_off s.write_off} _ _ s
          (attempt-Meets _ s (
            weaken-Meets _ s (skip_corrupt_segment-Moved env s h p)
              (elim [ ok _ ↦ λ t x. x | err e ↦ λ t x. tt ])))
          (elim [
            | err e ↦ λ t x. pure-Meets _ t tt
            | ok _ ↦ λ t x. modify-Meets _ _ t (record {
              at = record { further = x.further; tail_kept = x.tail_kept; proper = x.proper };
            })
          ])
          (λ e t x. x)))

  pub judged-Ahead :
      (w : Walk) (num : ℕ) (b : Result (Option ℕ)) (s : Store)
      → ((next : ℕ) → b ≡ ok (some next) → s.commit_off < next)
      → s.commit_off < s.write_off
      → Proper s.reserved
      → Meets (judged env off per_op w num b) s (Ahead s.commit_off s.write_off)
  unfolding judged
  judged-Ahead w num (err e) s f h p = meet_damage-Ahead w num e s h p
  judged-Ahead w num (ok none) s f h p = meet_damage-Ahead w num _ s h p
  judged-Ahead w num (ok (some next)) s f h p = retire_record-Ahead w num next s (f next refl) p
