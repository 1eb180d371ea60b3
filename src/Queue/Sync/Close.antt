-- ===== src/Queue/Sync/Close.antt =====
-- store.go: what the close of the store answers, and its gauges.
use diskqueue.Base.{
  some-injective, ℕ, ◌≡◌, if◌then◌else◌, refl, sym, ap, ◌∙◌, Bool, true, false, Option, none, some,
  List, [], ◌∷◌,
}
use diskqueue.Store.State.{Store, Env, Error}
use diskqueue.Store.Action.{Result, ok, err, pure, ◌>>=◌, ◌>>◌, when, modify, fail}
use diskqueue.Store.Files.{change_file, flush_file, lru_unlink, sync_dir}
use diskqueue.Store.Meets.{Meets, bind-Meets, try-Meets, gets-Meets, modify-Meets, pure-Meets}
use diskqueue.Store.Clean.{gauges, Settles, pure-Settles, flush_file-Settles}
use diskqueue.Store.Clean.Flush.{sync_dir-Settles}
use diskqueue.Queue.Sync.{first_error, close_file, close_files, close}

-- The gauges stand, and an error that was there stays the first.
abbrev Carried : Option Error → Store → Result (Option Error) → Store → Type 0
Carried first s (ok r) t = (gauges t ≡ gauges s) × ((x : Error) → first ≡ some x → r ≡ some x)
Carried first s (err e) t = ⊥

first_stays :
    (first : Option Error) (r : Result (Unit {0})) (x : Error)
    → first ≡ some x
    → first_error first r ≡ some x
first_stays first r x e = ap (λ o. first_error o r) e

-- The gauges of a closed store are zero if there is no error; an error that was latched is the one
-- that is answered, and then the gauges stand. No handle is tracked.
abbrev pub Closed : Store → Result (Unit {0}) → Store → Type 0
Closed s (ok _) t = (s.io_err ≡ none) × (t.unsynced ≡ 0) × (t.unsynced_bytes ≡ 0) × (t.lru ≡ [])
Closed s (err e) t =
    ((x : Error) → s.io_err ≡ some x → (e ≡ x) × (gauges t ≡ gauges s)) × (t.lru ≡ [])

module _ (env : Env) (closing : ℕ → Result (Unit {0})) where
  -- The end of a file's turn, whether its handle is open or not.
  handle-Carried :
      (num : ℕ) (first q : Option Error) (s : Store) (b : Bool) (t : Store)
      → gauges t ≡ gauges s
      → ((x : Error) → first ≡ some x → q ≡ some x)
      → Meets
          (if b
            then (do
              lru_unlink num
              change_file num (λ df. record df { is_open = false })
              pure (first_error q (closing num)))
            else pure q)
          t
          (Carried first s)
  unfolding lru_unlink
  handle-Carried num first q s true t k h = modify-Meets _ _ t (
      modify-Meets _ _ _ (
        pure-Meets (first_error q (closing num)) _
          (k, λ x e. first_stays q (closing num) x (h x e))))
  handle-Carried num first q s false t k h = pure-Meets q t (k, h)

  close_file-Carried :
      (num : ℕ) (first : Option Error) (s : Store)
      → Meets (close_file env closing num first) s (Carried first s)
  unfolding close_file lru_unlink
  close_file-Carried num first s = gets-Meets _ _ s (
      try-Meets {R = λ r t. gauges t ≡ gauges s} _ _ s
        (record { at = ((flushing s.io_err).at s).0 })
        (λ r t k. modify-Meets _ _ t (
          gets-Meets _ _ _ (
            handle-Carried num first (first_error first r) s _ _ k
              (λ x e. first_stays first r x e)))))
    where
      flushing :
          (o : Option Error) → Settles (elim o [ none ↦ flush_file env num | some e ↦ pure tt ])
      flushing none = flush_file-Settles env num
      flushing (some e) = pure-Settles tt

  close_files-Carried :
      (ns : List ℕ) (first : Option Error) (s : Store)
      → Meets (close_files env closing ns first) s (Carried first s)
  unfolding close_files
  close_files-Carried [] first s = pure-Meets first s (refl, λ x e. e)
  close_files-Carried (n ∷ ns) first s =
      bind-Meets {R = Carried first s} _ _ s (close_file-Carried n first s)
        (λ r u h. record {
          at =
              carried r u h (close_files env closing ns r u).0 (close_files env closing ns r u).1
                (close_files-Carried ns r u).at;
        })
        (λ e u h. absurd h)
    where
      carried :
          (r : Option Error) (u : Store)
          → Carried first s (ok r) u
          → (q : Result (Option Error)) (t : Store) → Carried r u q t
          → Carried first s q t
      carried r u h (ok q) t k = (k.0 ∙ h.0, λ x e. k.1 x (h.1 x e))
      carried r u h (err e) t k = absurd k

no_latch : (o : Option Error) → ((x : Error) → o ≡ some x → none ≡ some x) → o ≡ none
no_latch none h = refl
no_latch (some x) h = sym (h x refl)

-- The end of `close`: the gauges, the list of the open handles, and the close of the directory.
finish-Closed :
    (last : Option Error) (dir : Result (Unit {0})) (s v : Store)
    → gauges v ≡ gauges s
    → ((x : Error) → s.io_err ≡ some x → last ≡ some x)
    → Meets
        (do
          when
              (elim last [ none ↦ true | some e ↦ false ])
              (modify (λ s. record s { unsynced = 0; unsynced_bytes = 0 }))
          modify (λ s. record s { lru = [] })
          elim (first_error last dir) [ none ↦ pure tt | some e ↦ fail e ])
        v
        (Closed s)
unfolding ◌>>=◌
finish-Closed none (ok _) s v k h = record { at = (no_latch s.io_err h, refl, refl, refl) }
finish-Closed none (err e) s v k h = record {
  at = (λ x l. absurd (let d : none ≡ some x = h x l in cc), refl);
}
finish-Closed (some e) dir s v k h = record { at = (λ x l. (some-injective (h x l), k), refl) }

module _ (env : Env) (closing : ℕ → Result (Unit {0})) where
  close-Closed : (s : Store) → Meets (close env closing) s (Closed s)
  unfolding close
  close-Closed s = gets-Meets _ _ s (
      bind-Meets {R = Carried s.io_err s} _ _ s (close_files-Carried env closing s.files s.io_err s)
        (λ first u h.
          try-Meets {R = λ r t. gauges t ≡ gauges u} _ _ u
            (record { at = ((syncing first).at u).0 })
            (λ r v k.
              finish-Closed (first_error first r) (closing 0) s v (k ∙ h.0)
                (λ x l. first_stays first r x (h.1 x l))))
        (λ e u h. absurd h))
    where
      syncing : (o : Option Error) → Settles (elim o [ none ↦ sync_dir env | some e ↦ pure tt ])
      syncing none = sync_dir-Settles env
      syncing (some e) = pure-Settles tt

  -- The close of a store that is latched answers the latched error, and its gauges stand. When the
  -- close returns without an error, the store was not latched and the gauges are zero. Either way no
  -- handle is tracked as open.
  pub close_reports : (s : Store) → Closed s (close env closing s).0 (close env closing s).1
  close_reports s = (close-Closed s).at
