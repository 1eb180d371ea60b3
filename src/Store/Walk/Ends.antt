-- ===== src/Store/Walk/Ends.antt =====
-- store.go: the commit walk ends.
use Prim.Native.Nat.{min}
use diskqueue.Base.{
  ℕ, zero, suc, ◌-◌, ◌≤◌, ◌<◌, ◌≡◌, refl, sym, subst, Bool, Option, none, some, arith, leb,
}
use diskqueue.Store.State.{Store, Reservation, Env, Error}
use diskqueue.Store.Action.{M, Result, ok, err, pure}
use diskqueue.Store.Quiet.{View, view}
use diskqueue.Store.Quiet.Files.{ensure_open-Quiet}
use diskqueue.Store.Meets.{
  Meets, attempt_then, gets-Meets, bind-Meets, if-Meets, either-Meets, pure-Meets, weaken-Meets,
}
use diskqueue.Store.Walk.{
  Walk, Round, halt, go_on, start_walk, checked, file_at_cursor, examine_open, examine, meet_entry,
  at_file, in_file, round, walk_loop,
}
use diskqueue.Store.Walk.Skip.{Proper, Past}
use diskqueue.Store.Walk.Progress.{
  Ahead, Still, Tried, entry_at_cursor_lem, checked-further, leave-Tried, boundary-Still,
  retire_damage-Ahead, judged-Ahead,
}

-- The walk has somewhere to go, and the ledger is proper.
abbrev Ready : View → Type 0
Ready v = (v.commit_off < v.write_off) × Proper v.reserved

abbrev AheadOf : View → Result Round → Store → Type 0
AheadOf v = Ahead v.commit_off v.write_off

-- And where the round goes on, the target was ahead.
abbrev Onward : ℕ → View → Result Round → Store → Type 0
Onward off v (ok (halt cur e)) t = Unit {0}
Onward off v (ok (go_on w)) t = (v.commit_off < off) × Past v.commit_off v.write_off t
Onward off v (err e) t = ⊥

onward :
    (off : ℕ) (v : View)
    → v.commit_off < off
    → (r : Result Round) (t : Store) → AheadOf v r t
    → Onward off v r t
onward off v h (ok (halt cur e)) t x = tt
onward off v h (ok (go_on w)) t x = (h, x)
onward off v h (err e) t x = x

shift :
    (m : M Round) (s t : Store)
    → view t ≡ view s
    → Meets m t (AheadOf (view t))
    → Meets m t (AheadOf (view s))
shift m s t v h = subst (λ x. Meets m t (AheadOf x)) v h

module _ (env : Env) (off : ℕ) (per_op : Bool) where
  examine_open-Ahead :
      (w : Walk) (num : ℕ) (entry : Option Reservation) (opened : Result (Unit {0}))
      (stop : Option Error) (s : Store)
      → Ready (view s)
      → Meets (examine_open env off per_op w num entry opened stop) s (AheadOf (view s))
  unfolding examine_open
  examine_open-Ahead w num entry opened (some e) s h = pure-Meets _ s tt
  examine_open-Ahead w num entry opened none s h =
      bind-Meets {R = Still s} _ _ s (boundary-Still env off per_op num entry opened s)
        (λ b t v. gets-Meets _ _ t (
          shift _ s t v (
            let r = subst Ready (sym v) h in
            judged-Ahead env off per_op w num (checked t b) t (checked-further t b) r.0 r.1)))
        (λ e t v. v)

  examine-Ahead :
      (w : Walk) (num : ℕ) (entry : Option Reservation) (s : Store)
      → Ready (view s)
      → Meets (examine env off per_op w num entry) s (AheadOf (view s))
  unfolding examine
  examine-Ahead w num entry s h =
      attempt_then {p = view} _ _ s (ensure_open-Quiet env num) (λ opened t v.
        gets-Meets _ _ t
          (shift _ s t v (examine_open-Ahead w num entry opened _ t (subst Ready (sym v) h))))

  meet_entry-Ahead :
      (w : Walk) (num : ℕ) (entry : Option Reservation) (s : Store)
      → ((r : Reservation) → entry ≡ some r → (r.start ≡ s.commit_off) × (r.start < r.end))
      → Ready (view s)
      → Meets (meet_entry env off per_op w num entry) s (AheadOf (view s))
  unfolding meet_entry
  meet_entry-Ahead w num none s f h = examine-Ahead w num none s h
  meet_entry-Ahead w num (some r) s f h =
      either-Meets _ _ _ s (retire_damage-Ahead env off per_op w num r s (f r refl) h.1)
        (examine-Ahead w num (some r) s h)

  at_file-Ahead :
      (w : Walk) (num : ℕ) (s : Store)
      → Ready (view s)
      → Meets (at_file env off per_op w num) s (AheadOf (view s))
  unfolding at_file
  at_file-Ahead w num s h =
      bind-Meets {R = Tried s} _ _ s (leave-Tried env off per_op w.cur num s)
        (elim [
          | err e ↦ λ t v. pure-Meets _ t tt
          | ok cur ↦ λ t v.
              let r = subst Ready (sym v) h in
              gets-Meets _ _ t (
                shift _ s t v
                  (meet_entry-Ahead _ num _ t (λ x e. entry_at_cursor_lem _ t x r.1 e) r))
        ])
        (λ e t v. v)

  in_file-Ahead :
      (w : Walk) (found : Option ℕ) (s : Store)
      → Ready (view s)
      → Meets (in_file env off per_op w found) s (AheadOf (view s))
  unfolding in_file
  in_file-Ahead w none s h = pure-Meets _ s tt
  in_file-Ahead w (some num) s h = at_file-Ahead w num s h

  round-Ahead :
      (w : Walk) (s : Store)
      → off ≤ s.write_off
      → Proper s.reserved
      → Meets (round env off per_op w) s (Onward off (view s))
  unfolding round
  round-Ahead w s b p = gets-Meets _ _ s (
      if-Meets (leb off s.commit_off) (pure (halt w.cur none))
        (in_file env off per_op w (file_at_cursor w.carried s)) s (λ _. pure-Meets _ s tt)
        (λ short.
          let h : s.commit_off < off = ground arith in
          weaken-Meets _ s (in_file-Ahead w _ s (omega (arith, h), p)) (onward off (view s) h)))

  -- The walk ended, with the file to write out and the error that stopped it.
  abbrev Ended : Result (Option (Option ℕ × Option Error)) → Store → Type 0
  Ended r t = (x : Option ℕ × Option Error) × (r ≡ ok (some x))

  walk_loop-Ended :
      (fuel : ℕ) (w : Walk) (s : Store)
      → off - s.commit_off < fuel
      → off ≤ s.write_off
      → Proper s.reserved
      → Meets (walk_loop env off per_op fuel w) s Ended
  unfolding walk_loop
  walk_loop-Ended zero w s f b p = absurd (omega arith)
  walk_loop-Ended (suc fuel) w s f b p =
      bind-Meets {R = Onward off (view s)} _ _ s (round-Ahead w s b p)
        (elim [
          | halt cur e ↦ λ t x. pure-Meets _ t ((cur, e), refl)
          | go_on w' ↦ λ t x.
              walk_loop-Ended fuel w' t (omega (arith, x.0, x.1.further))
                (omega (arith, x.1.tail_kept)) x.1.proper
        ])
        (λ e t x. absurd x)

-- The loop of `commitDurable` ends, whatever the file system answers, when every reservation spans a
-- byte at least: the fuel that the model gives it, a round for each byte up to the target and one
-- more, is enough.
pub walk_loop_ends :
    (env : Env) (off : ℕ) (per_op : Bool) (s : Store)
    → Proper s.reserved
    → (x : Option ℕ × Option Error) × ((walk_loop env
          (min off s.write_off)
          per_op
          (suc (min off s.write_off - s.commit_off))
          start_walk
          s).0
        ≡ ok (some x))
walk_loop_ends env off per_op s p =
    (walk_loop-Ended env (min off s.write_off) per_op _ start_walk s (omega arith) (omega arith)
      p).at
