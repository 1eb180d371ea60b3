-- ===== src/Store/Log/Outcome.antt =====
-- store.go: an append to the active segment, from its guards to its bookkeeping.
use diskqueue.Base.{
  some-injective, ℕ, refl, sym, ◌≡◌, ap, ◌∙◌, ◌≤◌, inl, Bool, true, false, ltb, Option, none, some,
  List, ◌+◌, length, subst,
}
use diskqueue.Frame.{framed_len}
use diskqueue.Store.State.{Store, Env, active, staged_bytes, last?, per_op, sentinel, os_error}
use diskqueue.Store.Action.{M, Result, ok, err, ◌>>=◌, when, gets, check_io, ◌>>◌}
use diskqueue.Store.Append.{
  admit_record, needs_cycle, active_file, write_record, append_record, sync_data, advance,
  publish_or, rollback_append, settle_append,
}
use diskqueue.Store.Quiet.{
  Keeps, bind-Keeps, when-Keeps, fail-Keeps, modify-Keeps, gets-Keeps, check_io-Keeps,
}
use diskqueue.Store.Quiet.Handles.{ensure_open-Keeps}
use diskqueue.Store.Meets.{Meets, bind-Meets, then-Meets, gets-Meets}
use diskqueue.Store.Files.{ensure_open}
use diskqueue.Store.Log.{regions}
use diskqueue.Store.Log.Handling.{data-Handles}
use diskqueue.Store.Log.Write.{Facts, facts, Data-Facts}
use diskqueue.Store.Log.Header.{Fits}
use diskqueue.Store.Log.Append.{
  started, Written, Ended, write_record-Written, sync_data-Written, publish-Ended,
}

admit_record-Facts : (n : ℕ) (force : Bool) → Keeps facts (admit_record n force)
unfolding admit_record
admit_record-Facts n force = bind-Keeps _ _ (gets-Keeps _) (λ s.
    bind-Keeps _ _ (when-Keeps _ _ (fail-Keeps _)) (λ _. when-Keeps _ _ (
      bind-Keeps _ _ (when-Keeps _ _ (fail-Keeps _))
        (λ _. when-Keeps _ _ (bind-Keeps _ _ (modify-Keeps _ (λ t. refl)) (λ _. fail-Keeps _))))))

needs_cycle_kept : (n : ℕ) (s t : Store) → facts t ≡ facts s → needs_cycle n t ≡ needs_cycle n s
unfolding needs_cycle active staged_bytes
needs_cycle_kept n s t k =
    ap
      (λ (f : Facts). elim (last? f.shown.files) [
        | none ↦ true
        | some af ↦
            ltb (f.shown.extents af).capacity
              ((f.shown.extents af).size + (f.shown.in_flight + f.shown.pending_bytes) + n)
      ])
      k

active_kept : (s t : Store) → facts t ≡ facts s → active t ≡ active s
unfolding active
active_kept s t k = ap (λ (f : Facts). last? f.shown.files) k

-- The active file is `num`.
abbrev Found : ℕ → Store → Result ℕ → Store → Type 0
Found num s (ok af) t = (facts t ≡ facts s) × (af ≡ num)
Found num s (err e) t = facts t ≡ facts s

active_file-Found : (num : ℕ) (s : Store) → active s ≡ some num → Meets active_file s (Found num s)
unfolding active_file
active_file-Found num s e = record { at = go (active s) e }
  where
    answer : Option ℕ → Result ℕ × Store
    answer o = elim o [ none ↦ (err (sentinel os_error), s) | some af ↦ (ok af, s) ]

    go : (o : Option ℕ) → o ≡ some num → Found num s (answer o).0 (answer o).1
    go none f = refl
    go (some af) f = (refl, some-injective f)

-- What is not due is not done.
not_due : (due : Bool) (m : M (Unit {0})) → due ≡ false → Keeps facts (when due m)
not_due true m e = absurd (cc)
not_due false m e = record { at = λ s. refl }

module _ (env : Env) (payload : List ℕ) (force : Bool) (num : ℕ) (s0 : Store) (b : List ℕ)
    (here : regions s0 num ≡ some b) (room : (s0.heap num).size ≤ length b)
    (fit : Fits num s0) where
  abbrev End : Result (Unit {0}) → Store → Type 0
  End = Ended env payload num s0 b here room fit

  -- A step before the frame is written.
  early :
      {A : Type 0} (m : M A) (f : A → M (Unit {0})) (s : Store)
      → Keeps facts m
      → facts s ≡ facts s0
      → ((a : A) (t : Store) → facts t ≡ facts s0 → Meets (f a) t End)
      → Meets (m >>= f) s End
  early m f s k e goes =
      then-Meets {p = facts} m f s k (λ a t h. goes a t (h ∙ e))
        (λ x t h. inl (started env payload num s0 b here room fit t (h ∙ e)))

  -- `appendRecord` from the frame's write on.
  abbrev from_write : ℕ → ℕ → M (Unit {0})
  from_write af size = do
    write_record env af size payload
    per_op ← gets per_op
    when per_op (sync_data env af)
    advance env af (framed_len (length payload)) 1
    publish_or env (rollback_append env af (framed_len (length payload))) af
    settle_append env af (framed_len (length payload))

  from_write-Ended :
      (s : Store) → facts s ≡ facts s0 → Meets (from_write num (s0.heap num).size) s End
  from_write-Ended s e =
      bind-Meets {R = Written env payload num s0 b here room fit} _ _ s
        (write_record-Written env payload num s0 b here room fit s e)
        (λ _ t w. gets-Meets _ _ t (
          bind-Meets {R = Written env payload num s0 b here room fit} _ _ t
            (sync_data-Written env payload num s0 b here room fit (per_op t) t w)
            (λ _ u w. publish-Ended env payload num s0 b here room fit u w) (λ x u w. inl w)))
        (λ x t w. inl w)

  -- `appendRecord` from the choice of the file on.
  abbrev from_file : ℕ → M (Unit {0})
  from_file af = do
    ensure_open env af
    check_io
    size ← gets (λ s. (s.heap af).size)
    from_write af size

  from_file-Ended : (s : Store) → facts s ≡ facts s0 → Meets (from_file num) s End
  from_file-Ended s e =
      early _ _ s (Data-Facts _ (ensure_open-Keeps data-Handles env num)) e (λ _ s e.
        early _ _ s check_io-Keeps e (λ _ s e. gets-Meets _ _ s (
          let z = ap (λ (f : Facts). (f.shown.extents num).size) (sym e) in
          subst (λ k. Meets (from_write num k) s End) z (from_write-Ended s e))))

  pub append_record-Ended :
      active s0 ≡ some num
      → needs_cycle (framed_len (length payload)) s0 ≡ false
      → Meets (append_record env payload force) s0 End
  unfolding append_record
  append_record-Ended act stay =
      let n = framed_len (length payload) in
      early _ _ s0 check_io-Keeps refl (λ _ s e.
        early _ _ s (admit_record-Facts n force) e (λ _ s e. gets-Meets _ _ s (
          early _ _ s (not_due _ _ (needs_cycle_kept n s0 s e ∙ stay)) e (λ _ s e.
            bind-Meets {R = Found num s} _ _ s (active_file-Found num s (active_kept s0 s e ∙ act))
              (λ af t f.
                subst (λ k. Meets (from_file k) t End) (sym f.1) (from_file-Ended t (f.0 ∙ e)))
              (λ x t f. inl (started env payload num s0 b here room fit t (f ∙ e)))))))
