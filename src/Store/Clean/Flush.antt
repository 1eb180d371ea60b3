-- ===== src/Store/Clean/Flush.antt =====
-- store.go: `flushBatch` and `sync`: the live files and the gauges behind a flush.
use diskqueue.Base.{ℕ, ◌+◌, ◌≡◌, refl, ap, false, Option, none, some, List, [], ◌∷◌, subst}
use diskqueue.Store.State.{Store, DataFile, Env, Error}
use diskqueue.Store.Action.{M, Result, ok, err, ◌>>=◌}
use diskqueue.Store.Files.{
  fail_io, flush_open, flush_file, join_result, flush_all, sync_dir, flush_batch, sync,
}
use diskqueue.Store.Quiet.{update_here, check_io_lem}
use diskqueue.Store.Meets.{
  Meets, bind-Meets, loose-Meets, try-Meets, if-Meets, gets-Meets, pure-Meets, fail-Meets,
}
use diskqueue.Store.Clean.{
  gauges, dirty_of, Settling, Settles, settled_then, settled_same, Keeps-Settles, pure-Settles,
  attempt-Settles, if-Settles, bind-Settles, fail_io-Settles, check_io-Settles, os_sync_dir-Kept,
  flush_file-Settles,
}

-- When the flush of a file returns, the file is clean.
abbrev CleanAt : {A : Type 0} → ℕ → Result A → Store → Type 0
CleanAt num (ok _) t = dirty_of t num ≡ false
CleanAt num (err e) t = Unit {0}

err-CleanAt :
    {A : Type 0} → (e : Error) (num : ℕ) (s : Store) → Meets (fail_io {A = A} e) s (CleanAt num)
unfolding fail_io
err-CleanAt e num s = loose-Meets _ _ s (λ first t. fail-Meets first t tt) (λ e t. tt)

module _ (env : Env) where
  flush_open-CleanAt : (num : ℕ) (s : Store) → Meets (flush_open env num) s (CleanAt num)
  unfolding flush_open
  flush_open-CleanAt num s =
      loose-Meets _ _ s
        (λ _ t.
          try-Meets {R = λ r u. Unit {0}} _ _ t (record { at = tt })
            (elim [
              | ok _ ↦
                  λ u k. record { at = ap (λ (df : DataFile). df.dirty) (update_here u.heap num _) }
              | err e ↦ λ u k. err-CleanAt e num u
            ]))
        (λ e t. tt)

  flush_file-CleanAt : (num : ℕ) (s : Store) → Meets (flush_file env num) s (CleanAt num)
  unfolding flush_file
  flush_file-CleanAt num s = gets-Meets _ _ s (
      if-Meets (s.heap num).dirty _ _ s
        (λ _. loose-Meets _ _ s (λ _ t. flush_open-CleanAt num t) (λ e t. tt))
        (λ clean. pure-Meets tt s clean))

-- Each of the files is clean.
abbrev pub AllClean : List ℕ → Store → Type 0
AllClean [] t = Unit {0}
AllClean (n ∷ ns) t = (dirty_of t n ≡ false) × AllClean ns t

-- The end of the loop of `flushBatch`.
abbrev Flushed : List ℕ → Store → Result (Option Error) → Store → Type 0
Flushed ns s (ok none) t = Settling s t × AllClean ns t
Flushed ns s (ok (some e)) t = Settling s t
Flushed ns s (err e) t = ⊥

-- All the live files of `s` are clean, the gauges zero and the flush counted; or there is an error,
-- and the gauges stand.
abbrev pub Synced : Store → Result (Unit {0}) → Store → Type 0
Synced s (ok _) t =
    AllClean s.files t
    × (t.unsynced ≡ 0)
    × (t.unsynced_bytes ≡ 0)
    × (t.flush_epoch ≡ s.flush_epoch + 1)
Synced s (err e) t = gauges t ≡ gauges s

-- The loop had an error.
abbrev Stopped : Store → Result (Unit {0}) → Store → Type 0
Stopped s (ok _) t = ⊥
Stopped s (err e) t = Settling s t

AllClean-still :
    (ns : List ℕ) (s t : Store)
    → ((n : ℕ) → dirty_of s n ≡ false → dirty_of t n ≡ false)
    → AllClean ns s
    → AllClean ns t
AllClean-still [] s t h k = tt
AllClean-still (n ∷ ns) s t h (c, k) = (h n c, AllClean-still ns s t h k)

joined :
    (n : ℕ) (ns : List ℕ) (s u t : Store) (r : Result (Unit {0})) (rest : Option Error)
    → Settling s u
    → CleanAt n r u
    → Flushed ns u (ok rest) t
    → Flushed (n ∷ ns) s (ok (join_result r rest)) t
joined n ns s u t (ok _) none h c k = (settled_then s u t h k.0, (k.0.1 n c, k.1))
joined n ns s u t (ok _) (some e) h c k = settled_then s u t h k
joined n ns s u t (err e) none h c k = settled_then s u t h k.0
joined n ns s u t (err e) (some f) h c k = settled_then s u t h k

module _ (env : Env) where
  flush_all-Flushed : (ns : List ℕ) (s : Store) → Meets (flush_all env ns) s (Flushed ns s)
  unfolding flush_all
  flush_all-Flushed [] s = pure-Meets none s (settled_same s s refl, tt)
  flush_all-Flushed (n ∷ ns) s =
      try-Meets {R = λ r u. Settling s u × CleanAt n r u} (flush_file env n) _ s
        (record { at = ((flush_file-Settles env n).at s, (flush_file-CleanAt env n s).at) })
        (λ r u h.
          bind-Meets {R = Flushed ns u} _ _ u (flush_all-Flushed ns u)
            (λ rest t k. pure-Meets _ t (joined n ns s u t r rest h.0 h.1 k)) (λ e t k. absurd k))

  pub sync_dir-Settles : Settles (sync_dir env)
  unfolding sync_dir
  sync_dir-Settles =
      bind-Settles _ _ (attempt-Settles _ (Keeps-Settles _ (os_sync_dir-Kept env))) (elim [
        | ok _ ↦ pure-Settles tt
        | err e ↦ if-Settles _ _ _ (pure-Settles tt) (fail_io-Settles e)
      ])

  -- One more step behind a loop without an error.
  step-Synced :
      (s u : Store) (m : M (Unit {0})) (f : (Unit {0}) → M (Unit {0}))
      → Settles m
      → Flushed s.files s (ok none) u
      → ((t : Store) → Flushed s.files s (ok none) t → Meets (f tt) t (Synced s))
      → Meets (m >>= f) u (Synced s)
  step-Synced s u m f q h goes =
      bind-Meets {R = λ r t. Flushed s.files s (ok none) t} m f u
        (let k = q.at u in
          record {
            at = (settled_then s u (m u).1 h.0 k, AllClean-still s.files u (m u).1 k.1 h.1);
          })
        (λ _ t k. goes t k) (λ e t k. k.0.0)

  flush_batch-Synced : (s : Store) → Meets (flush_batch env) s (Synced s)
  unfolding flush_batch
  flush_batch-Synced s = gets-Meets _ _ s (
      bind-Meets {R = Flushed s.files s} _ _ s (flush_all-Flushed s.files s)
        (elim [
          | none ↦ λ u h. step-Synced s u _ _ (pure-Settles tt) h (λ v k.
              step-Synced s v _ _ check_io-Settles k (λ w l.
                step-Synced s w _ _ sync_dir-Settles l (λ t r. record {
                  at = (
                    AllClean-still s.files t _ (λ n c. c) r.1,
                    refl,
                    refl,
                    ap (λ (g : ℕ × ℕ × ℕ). g.2 + 1) r.0.0,
                  );
                })))
          | some e ↦ λ u h.
              bind-Meets {R = Stopped s} _ _ u (fail-Meets e u h) (λ x t k. absurd k) (λ x t k. k.0)
        ])
        (λ e u h. absurd h))

  sync-Synced : (s : Store) → Meets (sync env) s (Synced s)
  unfolding sync
  sync-Synced s =
      bind-Meets {R = λ r t. t ≡ s} _ _ s (record { at = check_io_lem s })
        (λ _ t e. subst (λ x. Meets (flush_batch env) t (Synced x)) e (flush_batch-Synced t))
        (λ x t e. ap gauges e)

  -- When `sync` returns without an error, every segment that was live is clean, the gauges are zero and
  -- the flush is counted; when it returns an error, the gauges and the count are as they were.
  pub sync_cleans : (s : Store) → Synced s (sync env s).0 (sync env s).1
  sync_cleans s = (sync-Synced s).at
