-- ===== src/Queue/Sync/Balance.antt =====
-- diskqueue.go: each pin of a flush off the lock is taken back.
use mathlib.Core.Path.{fun_ext}
use diskqueue.Base.{
  zero, suc, ℕ, ◌≡◌, refl, sym, ap, ◌∙◌, ◌+◌, ◌-◌, Bool, false, Option, none, some, List, [], ◌∷◌,
  arith, ◌==◌, subst, ◌&&◌,
}
use diskqueue.Store.State.{Store, Env, Error}
use diskqueue.Store.Action.{M, Result, ok, err, pure, fail}
use diskqueue.Store.Files.{change_file, latch}
use diskqueue.Store.Quiet.{
  fail-Keeps, if-Keeps, check_io-Keeps, Keeps, modify-Keeps, bind-Keeps, pure-Keeps, gets-Keeps,
  when-Keeps, attempt-Keeps,
}
use diskqueue.Store.Quiet.Handles.{ensure_open-Keeps, sync_dir-Keeps}
use diskqueue.Store.Meets.{
  when-Meets, Meets, bind-Meets, attempt_then, gets-Meets, modify-Meets, pure-Meets, if-Meets,
}
use diskqueue.Queue.Sync.{
  settle_gauges, sync_off_lock, Target, live, unpin, settle_target, settle_targets, pin_chunk,
  sync_targets, flush_chunk, flush_chunks,
}
use diskqueue.Queue.Sync.Pins.{
  pins_of, pins-Handles, os_touch-Pins, times, targets, PinnedOver, moved, update_pins, moved-times,
  unmoved-times, moved_ap,
}

module _ (env : Env) where
  abbrev Pinned : (ℕ → ℕ) → Result (List Target × Option Error) → Store → Type 0
  Pinned p (ok r) t = PinnedOver p r.0 t
  Pinned p (err e) t = ⊥

  pin_chunk-Pinned :
      (ns : List ℕ) (p : ℕ → ℕ) (s : Store)
      → ((n : ℕ) → pins_of s n ≡ p n)
      → Meets (pin_chunk env ns) s (Pinned p)
  unfolding pin_chunk
  pin_chunk-Pinned [] p s e = pure-Meets ([], none) s (λ n. omega (arith, e n))
  pin_chunk-Pinned (n ∷ ns) p s e = gets-Meets _ _ s (
      if-Meets (live n s && (s.heap n).dirty) _ _ s
        (λ _. attempt_then {p = pins_of} _ _ s (ensure_open-Keeps pins-Handles env n) (elim [
          | err x ↦ λ t k.
              bind-Meets {R = Pinned p} _ _ t
                (pin_chunk-Pinned ns p t (λ m. ap (λ (f : ℕ → ℕ). f m) k ∙ e m))
                (λ rest u h. pure-Meets _ u h) (λ x u h. absurd h)
          | ok _ ↦ λ t k. modify-Meets _ _ t (
              gets-Meets _ _ _ (
                bind-Meets {R = Pinned (moved (λ i. i + 1) n p)} _ _ _
                  (pin_chunk-Pinned ns (moved (λ i. i + 1) n p) _ (λ m.
                    update_pins (λ df. record df { pins = df.pins + 1 }) (λ i. i + 1) n t
                      (λ df. refl) m
                    ∙ moved_ap (λ i. i + 1) n (pins_of t) p m (ap (λ (f : ℕ → ℕ). f m) k ∙ e m)))
                  (λ rest u h.
                    pure-Meets _ u
                      (λ m. h m ∙ moved-times (record { num = n; seq = 0 }) rest.0 p m))
                  (λ x u h. absurd h)))
        ]))
        (λ _. pin_chunk-Pinned ns p s e))

-- The pins are those of `p`; the errors met are values.
abbrev Unpinned : (ℕ → ℕ) → Result (Option Error) → Store → Type 0
Unpinned p (ok r) t = (n : ℕ) → pins_of t n ≡ p n
Unpinned p (err e) t = ⊥

-- Nothing failed, and the pins are those of `s`.
abbrev Calm : {A : Type 0} → Store → Result A → Store → Type 0
Calm s (ok r) t = pins_of t ≡ pins_of s
Calm s (err e) t = ⊥

latch-Calm : (e : Error) (s : Store) → Meets (latch e) s (Calm s)
unfolding latch
latch-Calm e s = record { at = ground arith }

unpinned :
    (t : Target) (ts : List Target) (p : ℕ → ℕ) (s : Store)
    → PinnedOver p (t ∷ ts) s
    → (n : ℕ) → pins_of (unpin t.num s).1 n ≡ p n + times ts n
unpinned t ts p s h n =
    update_pins (λ df. record df { pins = df.pins - 1 }) (λ k. k - 1) t.num s (λ df. refl) n
    ∙ moved_ap (λ k. k - 1) t.num (pins_of s) (λ m. p m + times (t ∷ ts) m) n (h n)
    ∙ unmoved-times t ts p n

settle_target-Unpinned :
    (t : Target) (ts : List Target) (r : Result (Unit {0})) (p : ℕ → ℕ) (s : Store)
    → PinnedOver p (t ∷ ts) s
    → Meets (settle_target t r) s (Unpinned (λ n. p n + times ts n))
unfolding settle_target
settle_target-Unpinned t ts (err e) p s h =
    let u = (unpin t.num s).1 in
    modify-Meets _ _ s (
      bind-Meets {R = Calm u} _ _ u (latch-Calm e u)
        (λ latched v k. pure-Meets _ v (λ n. ap (λ (f : ℕ → ℕ). f n) k ∙ unpinned t ts p s h n))
        (λ x v k. absurd k))
settle_target-Unpinned t ts (ok _) p s h =
    let u = (unpin t.num s).1 in
    modify-Meets _ _ s (
      gets-Meets _ _ u (
        bind-Meets {R = Calm u} _ _ u
          (when-Meets ((u.heap t.num).write_seq == t.seq)
            (change_file t.num (λ df. record df { dirty = false })) u
            (record { at = (pins-Handles.set_dirty_kept t.num false).at u }) refl)
          (λ latched v k. pure-Meets _ v (λ n. ap (λ (f : ℕ → ℕ). f n) k ∙ unpinned t ts p s h n))
          (λ x v k. absurd k)))

settle_targets-Unpinned :
    (rs : List (Target × Result (Unit {0}))) (p : ℕ → ℕ) (s : Store)
    → PinnedOver p (targets rs) s
    → Meets (settle_targets rs) s (Unpinned p)
unfolding settle_targets
settle_targets-Unpinned [] p s h = pure-Meets none s (λ n. omega (arith, h n))
settle_targets-Unpinned ((t, r) ∷ rs) p s h =
    bind-Meets {R = Unpinned (λ n. p n + times (targets rs) n)} _ _ s
      (settle_target-Unpinned t (targets rs) r p s h)
      (λ e u k.
        bind-Meets {R = Unpinned p} _ _ u (settle_targets-Unpinned rs p u k)
          (λ es v l. pure-Meets _ v l) (λ x v l. l))
      (λ x u k. absurd k)

module _ (env : Env) (others : ℕ → M (Unit {0})) (kept : (k : ℕ) → Keeps pins_of (others k)) where
  -- The results are those of the targets, and the pins are those of `p` throughout.
  abbrev Synced : List Target → Store → Result (List (Target × Result (Unit {0}))) → Store → Type 0
  Synced ts s (ok rs) t = (pins_of t ≡ pins_of s) × (targets rs ≡ ts)
  Synced ts s (err e) t = ⊥

  sync_targets-Synced :
      (ts : List Target) (s : Store) → Meets (sync_targets env others ts) s (Synced ts s)
  unfolding sync_targets
  sync_targets-Synced [] s =
      attempt_then {p = pins_of} _ _ s (kept 0) (λ r t k. pure-Meets [] t (k, refl))
  sync_targets-Synced (t ∷ ts) s = attempt_then {p = pins_of} _ _ s (kept _) (λ r u k.
      attempt_then {p = pins_of} _ _ u (os_touch-Pins env t.num) (λ r' v l.
        bind-Meets {R = Synced ts v} _ _ v (sync_targets-Synced ts v)
          (λ rs w m. pure-Meets _ w (m.0 ∙ l ∙ k, ap (◌∷◌ t) m.1)) (λ x w m. absurd m)))

  flush_chunk-Unpinned :
      (chunk : List ℕ) (s : Store) → Meets (flush_chunk env others chunk) s (Unpinned (pins_of s))
  unfolding flush_chunk
  flush_chunk-Unpinned chunk s =
      bind-Meets {R = Pinned env (pins_of s)} _ _ s
        (pin_chunk-Pinned env chunk (pins_of s) s (λ n. refl))
        (λ pinned t h.
          bind-Meets {R = Synced pinned.0 t} _ _ t (sync_targets-Synced pinned.0 t)
            (λ rs u k.
              bind-Meets {R = Unpinned (pins_of s)} _ _ u
                (settle_targets-Unpinned rs (pins_of s) u (
                  subst (λ x. PinnedOver (pins_of s) x u) (sym k.1)
                    (λ n. ap (λ (f : ℕ → ℕ). f n) k.0 ∙ h n)))
                (λ errs v l. pure-Meets _ v l) (λ x v l. l))
            (λ x u k. absurd k))
        (λ x t h. absurd h)

  flush_chunk-Keeps : (chunk : List ℕ) → Keeps pins_of (flush_chunk env others chunk)
  flush_chunk-Keeps chunk = record {
    at = λ s. fun_ext (restored s _ _ (flush_chunk-Unpinned chunk s).at);
  }
    where
      restored :
          (s : Store) (r : Result (Option Error)) (t : Store)
          → Unpinned (pins_of s) r t
          → (n : ℕ) → pins_of t n ≡ pins_of s n
      restored s (ok r) t h = h
      restored s (err e) t h = absurd h

  flush_chunks-Keeps : (fuel : ℕ) (ds : List ℕ) → Keeps pins_of (flush_chunks env others fuel ds)
  unfolding flush_chunks
  flush_chunks-Keeps zero ds = pure-Keeps none
  flush_chunks-Keeps (suc fuel) [] = pure-Keeps none
  flush_chunks-Keeps (suc fuel) (d ∷ ds) = bind-Keeps _ _ (gets-Keeps _) (λ size.
      bind-Keeps _ _ (flush_chunk-Keeps _)
        (λ e. bind-Keeps _ _ (flush_chunks-Keeps fuel _) (λ es. pure-Keeps _)))

  settle_gauges-Keeps : (ops bytes epoch : ℕ) → Keeps pins_of (settle_gauges ops bytes epoch)
  unfolding settle_gauges
  settle_gauges-Keeps ops bytes epoch = modify-Keeps _ (λ s. ground arith)

  sync_off_lock-Keeps :
      (before after : Bool) (quiesce : M (Unit {0}))
      → Keeps pins_of quiesce
      → Keeps pins_of (sync_off_lock env others before quiesce after)
  unfolding sync_off_lock
  sync_off_lock-Keeps before after quiesce q = if-Keeps _ _ _ (fail-Keeps _) (
      bind-Keeps _ _ (attempt-Keeps _ q) (λ _. bind-Keeps _ _ (when-Keeps _ _ (fail-Keeps _)) (λ _.
        bind-Keeps _ _ check_io-Keeps (λ _. bind-Keeps _ _ (gets-Keeps _) (λ s.
          bind-Keeps _ _ (flush_chunks-Keeps _ _) (λ errs. bind-Keeps _ _ (reported errs) (λ _.
            bind-Keeps _ _ check_io-Keeps (λ _.
              bind-Keeps _ _ (sync_dir-Keeps pins-Handles env)
                (λ _. settle_gauges-Keeps _ _ _)))))))))
    where
      reported :
          (errs : Option Error)
          → Keeps pins_of (elim errs [ none ↦ pure tt | some e ↦ fail {A = Unit {0}} e ])
      reported none = pure-Keeps tt
      reported (some e) = fail-Keeps e

-- However a `Sync` ends, every file is pinned as often as it was before: each pin of a chunk is taken
-- back, for files that are listed twice, gone, clean or unopenable, and for fdatasyncs that fail. The
-- goroutines that run while the lock is released pin nothing, as only `Sync` does.
pub pins-sync_off_lock :
    (env : Env) (others : ℕ → M (Unit {0})) (before after : Bool) (quiesce : M (Unit {0}))
    (s : Store) (n : ℕ)
    → ((k : ℕ) → Keeps pins_of (others k))
    → Keeps pins_of quiesce
    → pins_of (sync_off_lock env others before quiesce after s).1 n ≡ pins_of s n
pins-sync_off_lock env others before after quiesce s n kept q =
    ap (λ (f : ℕ → ℕ). f n) ((sync_off_lock-Keeps env others kept before after quiesce q).at s)
