-- ===== src/Store/Append/Outcome.antt =====
-- store.go: what an append leaves behind, on every branch.
use diskqueue.Base.{
  ℕ, ◌+◌, ◌-◌, ◌≡◌, refl, ap, ◌∙◌, Bool, true, false, some, List, length, arith, Option-cases, not,
  ◌&&◌, ltb, subst, inl, inr, ◌⊎◌,
}
use diskqueue.Frame.{framed_len}
use diskqueue.Store.State.{Store, Env, Error, sentinel, join, io, batched}
use diskqueue.Store.Action.{M, Result, ok, err, ◌>>=◌, ◌>>◌, fail, modify, attempt}
use diskqueue.Store.Os.{os_touch}
use diskqueue.Store.Files.{record_ops, latch, fail_io, change_file}
use diskqueue.Store.Segments.{modify_header}
use diskqueue.Store.Append.{
  admit_record, active_file, cycle_counted, write_record, stamp_written, advance, retreat,
  rollback_append, settle_append, sync_data, publish_or, append_record,
}
use diskqueue.Store.Quiet.{
  Keeps, Cursors, cursors, Quiet-cursors, bind-Keeps, pure-Keeps, fail-Keeps, gets-Keeps,
  when-Keeps, modify-Keeps, attempt-Keeps, check_io-Keeps,
}
use diskqueue.Store.Quiet.Files.{
  latch-Quiet, fail_io-Quiet, os_touch-Quiet, os_write_at-Quiet, ensure_open-Quiet,
  write_header-Quiet, record_ops-Quiet,
}
use diskqueue.Store.Quiet.Segments.{cycle-Keeps}
use diskqueue.Store.Meets.{
  Meets, then-Meets, attempt_then, gets-Meets, modify-Meets, bind-Meets, if-Meets, either-Meets,
  pure-Meets, fail-Meets, keeps-Meets, weaken-Meets,
}

-- One record of `n` bytes more.
abbrev pub bump : ℕ → Cursors → Cursors
bump n c = record c { write_off = c.write_off + n; n_added = c.n_added + 1 }

-- The store holds a durability failure, which every later operation repeats.
abbrev pub Latched : Store → Type 0
Latched s = (e : Error) × (s.io_err ≡ some e)

-- A success is one record more; a failure is no change, or a record that is in the queue while its
-- durability failed.
abbrev pub Outcome : ℕ → Cursors → Result (Unit {0}) → Store → Type 0
Outcome n c (ok _) t = cursors t ≡ bump n c
Outcome n c (err e) t =
    (cursors t ≡ c) ⊎ ((cursors t ≡ bump n c) × ((batched t ≡ true) ⊎ Latched t))

abbrev Advanced : ℕ → Cursors → Result (Unit {0}) → Store → Type 0
Advanced n c (ok _) t = cursors t ≡ bump n c
Advanced n c (err e) t = ⊥

abbrev Published : ℕ → Cursors → Result (Unit {0}) → Store → Type 0
Published n c (ok _) t = cursors t ≡ bump n c
Published n c (err e) t = cursors t ≡ c

abbrev Settled : Cursors → Result (Unit {0}) → Store → Type 0
Settled c (ok _) t = cursors t ≡ c
Settled c (err e) t = (cursors t ≡ c) × ((batched t ≡ true) ⊎ Latched t)

undone :
    (n : ℕ) (c : Cursors)
    → record c { write_off = c.write_off + n - n; n_added = c.n_added + 1 - 1 } ≡ c
undone n c =
    let w : c.write_off + n - n ≡ c.write_off = omega arith in
    let a : c.n_added + 1 - 1 ≡ c.n_added = omega arith in
    ap (λ (x : ℕ). record c { write_off = x; n_added = c.n_added + 1 - 1 }) w
    ∙ ap (λ (x : ℕ). record c { n_added = x }) a

batched_kept : (s t : Store) → cursors t ≡ cursors s → batched t ≡ batched s
unfolding batched
batched_kept s t k = ap (λ (x : Cursors). not x.config.no_sync && ltb 1 x.config.sync_every) k

latch-Latched : (e : Error) (s : Store) → Latched (latch e s).1
unfolding latch
latch-Latched e s = elim (Option-cases s.io_err) [
  | inl free ↦ (join (sentinel io) e, ground (arith, free))
  | inr (x, found) ↦ (x, ground (arith, found))
]

abbrev Latching : Store → Result (Unit {0}) → Store → Type 0
Latching s (ok _) t = cursors t ≡ cursors s
Latching s (err e) t = (cursors t ≡ cursors s) × Latched t

fail_io-Latching : (e : Error) (s : Store) → Meets (fail_io e) s (Latching s)
unfolding fail_io
fail_io-Latching e s =
    bind-Meets {R = λ r t. (cursors t ≡ cursors s) × Latched t} _ _ s
      (record { at = ((Quiet-cursors _ (latch-Quiet e)).at s, latch-Latched e s) })
      (λ first t x. fail-Meets first t x) (λ e t x. x)

module _ (env : Env) where
  advance-Advanced :
      (num n : ℕ) (s : Store) → Meets (advance env num n 1) s (Advanced n (cursors s))
  unfolding advance stamp_written modify_header
  advance-Advanced num n s =
      modify-Meets _ _ s (modify-Meets _ _ _ (gets-Meets _ _ _ (record { at = refl })))

  retreat-back :
      (num n : ℕ) (c : Cursors) (e : Error) (s : Store)
      → cursors s ≡ bump n c
      → Meets (do rollback_append env num n; fail {A = Unit {0}} e) s (Published n c)
  unfolding rollback_append retreat stamp_written modify_header ◌>>=◌
  retreat-back num n c e s h = record {
    at =
        ap (λ (x : Cursors). record x { write_off = x.write_off - n; n_added = x.n_added - 1 }) h
        ∙ undone n c;
  }

  publish_or-Published :
      (num n : ℕ) (c : Cursors) (s : Store)
      → cursors s ≡ bump n c
      → Meets (publish_or env (rollback_append env num n) num) s (Published n c)
  unfolding publish_or
  publish_or-Published num n c s h =
      attempt_then {p = cursors} _ _ s (Quiet-cursors _ (write_header-Quiet env num)) (elim [
        | ok _ ↦ λ t k. pure-Meets tt t (k ∙ h)
        | err e ↦ λ t k. retreat-back num n c e t (k ∙ h)
      ])

  settle_append-Settled :
      (num n : ℕ) (s : Store) → Meets (settle_append env num n) s (Settled (cursors s))
  unfolding settle_append
  settle_append-Settled num n s = gets-Meets _ _ s (
      either-Meets s.no_sync (modify (λ t. record t { unsynced_bytes = t.unsynced_bytes + n })) _ s
        (record { at = refl })
        (if-Meets (batched s)
          (do modify (λ t. record t { unsynced_bytes = t.unsynced_bytes + n }); record_ops env 1)
          (do
            r ← attempt (os_touch env num)
            elim r [
              | ok _ ↦ change_file num (λ df. record df { dirty = false })
              | err e ↦ fail_io e
            ])
          s
          (λ lazy. modify-Meets _ _ s (
            keeps-Meets _ _ (Quiet-cursors _ (record_ops-Quiet env 1))
              (elim [ ok _ ↦ λ u k. k | err e ↦ λ u k. (k, inl (batched_kept s u k ∙ lazy)) ])))
          (λ _. attempt_then {p = cursors} _ _ s (Quiet-cursors _ (os_touch-Quiet env num)) (elim [
            | ok _ ↦ λ t k. record { at = k }
            | err e ↦ λ t k.
                weaken-Meets _ t (fail_io-Latching e t)
                  (elim [ ok _ ↦ λ u x. x ∙ k | err f ↦ λ u x. (x.0 ∙ k, inr x.1) ])
          ]))))

  pub admit_record-Keeps : (n : ℕ) (force : Bool) → Keeps cursors (admit_record n force)
  unfolding admit_record
  admit_record-Keeps n force = bind-Keeps _ _ (gets-Keeps _) (λ s.
      bind-Keeps _ _ (when-Keeps _ _ (fail-Keeps _)) (λ _. when-Keeps _ _ (
        bind-Keeps _ _ (when-Keeps _ _ (fail-Keeps _))
          (λ _. when-Keeps _ _ (bind-Keeps _ _ (modify-Keeps _ (λ t. refl)) (λ _. fail-Keeps _))))))

  pub cycle_counted-Keeps : (n : ℕ) (force : Bool) → Keeps cursors (cycle_counted env n force)
  unfolding cycle_counted
  cycle_counted-Keeps n force = bind-Keeps _ _ (attempt-Keeps _ (cycle-Keeps env n force)) (elim [
    | ok _ ↦ pure-Keeps tt
    | err e ↦ bind-Keeps _ _ (when-Keeps _ _ (modify-Keeps _ (λ t. refl))) (λ _. fail-Keeps e)
  ])

  pub active_file-Keeps : Keeps cursors active_file
  unfolding active_file
  active_file-Keeps = record { at = λ s. ground arith }

  pub write_record-Keeps :
      (num off : ℕ) (payload : List ℕ) → Keeps cursors (write_record env num off payload)
  unfolding write_record
  write_record-Keeps num off payload = bind-Keeps _ _ (when-Keeps _ _ (fail-Keeps _)) (λ _.
      bind-Keeps _ _ (Quiet-cursors _ (os_write_at-Quiet env num _ _))
        (λ _. modify-Keeps _ (λ t. refl)))

  sync_data-Keeps : (num : ℕ) → Keeps cursors (sync_data env num)
  unfolding sync_data
  sync_data-Keeps num =
      bind-Keeps _ _ (attempt-Keeps _ (Quiet-cursors _ (os_touch-Quiet env num)))
        (elim [ ok _ ↦ pure-Keeps tt | err e ↦ Quiet-cursors _ (fail_io-Quiet e) ])

  -- A step before the record is published keeps the outcome open.
  early :
      {A : Type 0} (n : ℕ) (m : M A) (f : A → M (Unit {0})) (s : Store)
      → Keeps cursors m
      → ((a : A) (t : Store) → Meets (f a) t (Outcome n (cursors t)))
      → Meets (m >>= f) s (Outcome n (cursors s))
  early n m f s k goes =
      then-Meets {p = cursors} m f s k
        (λ a t e. subst (λ (c : Cursors). Meets (f a) t (Outcome n c)) e (goes a t))
        (λ e t h. inl h)

  -- From the advance of the cursor on.
  publish-Outcome :
      (num n : ℕ) (s : Store)
      → Meets
          (do
            advance env num n 1
            publish_or env (rollback_append env num n) num
            settle_append env num n)
          s
          (Outcome n (cursors s))
  publish-Outcome num n s =
      bind-Meets {R = Advanced n (cursors s)} _ _ s (advance-Advanced num n s)
        (λ _ t h.
          bind-Meets {R = Published n (cursors s)} _ _ t
            (publish_or-Published num n (cursors s) t h)
            (λ _ u k.
              weaken-Meets _ u (settle_append-Settled num n u)
                (elim [ ok _ ↦ λ v x. x ∙ k | err e ↦ λ v x. inr (x.0 ∙ k, x.1) ]))
            (λ e u k. inl k))
        (λ e t h. absurd h)

  append_record-Outcome :
      (payload : List ℕ) (force : Bool) (s : Store)
      → Meets
          (append_record env payload force)
          s
          (Outcome (framed_len (length payload)) (cursors s))
  unfolding append_record
  append_record-Outcome payload force s =
      let n = framed_len (length payload) in
      early n _ _ s check_io-Keeps (λ _ s. early n _ _ s (admit_record-Keeps n force) (λ _ s.
        gets-Meets _ _ s (
          early n _ _ s (when-Keeps _ _ (cycle_counted-Keeps n force)) (λ _ s.
            early n _ _ s active_file-Keeps (λ af s.
              early n _ _ s (Quiet-cursors _ (ensure_open-Quiet env af)) (λ _ s.
                early n _ _ s check_io-Keeps (λ _ s. gets-Meets _ _ s (
                  early n _ _ s (write_record-Keeps af _ payload) (λ _ s. gets-Meets _ _ s (
                    early n _ _ s (when-Keeps _ _ (sync_data-Keeps af))
                      (λ _ s. publish-Outcome af n s)))))))))))

-- An append that succeeds adds one record of `framed_len` bytes and moves nothing else of the
-- cursors, the ledger, the staged span and the lifetime counts. One that fails changes none of them,
-- or the record is in the queue and its flush failed: then the store is latched, or the policy is
-- SyncEvery. So it is under every outcome of the calls to the file system.
pub append_outcome :
    (env : Env) (payload : List ℕ) (force : Bool) (s : Store)
    → Outcome
        (framed_len (length payload))
        (cursors s)
        (append_record env payload force s).0
        (append_record env payload force s).1
append_outcome env payload force s = (append_record-Outcome env payload force s).at
