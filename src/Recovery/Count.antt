-- ===== src/Recovery/Count.antt =====
-- recovery.go: what the walks over the frames of a damaged segment count.
use diskqueue.Base.{
  ℕ, zero, suc, ◌+◌, ◌^◌, ◌<◌, ◌≡◌, refl, sym, true, false, Option, none, some, arith, leb,
  Bool-cases, if◌then◌else◌, inl, inr, subst,
}
use diskqueue.Store.State.{Store, Env, Error, corrupt, errors_is}
use diskqueue.Store.Action.{M, Result, ok, err, pure}
use diskqueue.Store.Block.{record_len}
use diskqueue.Store.Meets.{
  Meets, gets-Meets, try-Meets, if-Meets, pure-Meets, fail-Meets, weaken-Meets,
}
use diskqueue.Recovery.Frames.{verdict, verified_end, step_walk, walk_frames}
use diskqueue.Recovery.Walk.{Ended, walks_end}

-- From `off` on the probe answers `m` frames one behind the other, up to `at`.
pub data Frames (probe : ℕ → M (Option ℕ)) : Store → ℕ → ℕ → ℕ → Store → Type 0 where
  no_frame : {s : Store} {off : ℕ} → Frames probe s off 0 off s
  one_frame :
      {s t u : Store} {off next m at : ℕ}
      → probe off s ≡ (ok (some next), t)
      → Frames probe t next m at u
      → Frames probe s off (suc m) at u

-- At `at` the segment is at its end, or the probe answers no frame, or it finds damage.
pub data Stops (probe : ℕ → M (Option ℕ)) (num at : ℕ) (u : Store) : Store → Type 0 where
  at_end : leb ((u.heap num).base + (u.heap num).size) at ≡ true → Stops probe num at u u
  unframed : {t : Store} → probe at u ≡ (ok none, t) → Stops probe num at u t
  damaged :
      {t : Store} {e : Error}
      → probe at u ≡ (err e, t)
      → errors_is e corrupt ≡ true
      → Stops probe num at u t

-- The answer of a walk from `off` that has counted `n`: the frames up to where it stops, or an error of
-- the probe that is no damage. A walk that ran out of fuel is not looked at.
abbrev pub Tallied :
    (ℕ → M (Option ℕ)) → ℕ → ℕ → ℕ → Store → Result (Option (ℕ × ℕ)) → Store → Type 0
Tallied probe num n off s (ok none) t = Unit {0}
Tallied probe num n off s (ok (some (c, at))) t =
    (m : ℕ) × (u : Store) × (c ≡ n + m) × Frames probe s off m at u × Stops probe num at u t
Tallied probe num n off s (err e) t =
    (m at : ℕ) × (u : Store) × Frames probe s off m at u
    × (probe at u ≡ (err e, t))
    × (errors_is e corrupt ≡ false)

further :
    (probe : ℕ → M (Option ℕ)) (num n off next : ℕ) (s t u : Store) (r : Result (Option (ℕ × ℕ)))
    → probe off s ≡ (ok (some next), t)
    → Tallied probe num (n + 1) next t r u
    → Tallied probe num n off s r u
further probe num n off next s t u (ok none) h x = tt
further probe num n off next s t u (ok (some (c, at))) h (m, v, e, fs, stop) =
    (suc m, v, omega (arith, e), one_frame h fs, stop)
further probe num n off next s t u (err e) h (m, at, v, fs, k, o) =
    (suc m, at, v, one_frame h fs, k, o)

step_walk-Tallied :
    (probe : ℕ → M (Option ℕ)) (go : ℕ → M (Option (ℕ × ℕ))) (num n off : ℕ) (s t : Store)
    (r : Result (Option ℕ))
    → probe off s ≡ (r, t)
    → ((next : ℕ) → Meets (go next) t (Tallied probe num (n + 1) next t))
    → Meets (step_walk n off go (verdict r)) t (Tallied probe num n off s)
unfolding step_walk
step_walk-Tallied probe go num n off s t (ok none) h ih =
    pure-Meets _ t (0, s, omega arith, no_frame, unframed h)
step_walk-Tallied probe go num n off s t (ok (some next)) h ih =
    weaken-Meets _ t (ih next) (λ r u x. further probe num n off next s t u r h x)
step_walk-Tallied probe go num n off s t (err e) h ih = elim (Bool-cases (errors_is e corrupt)) [
  | inl damage ↦
      subst
        (λ b.
          Meets (step_walk n off go (if b then ok none else err e)) t (Tallied probe num n off s))
        (sym damage) (pure-Meets _ t (0, s, omega arith, no_frame, damaged h damage))
  | inr other ↦
      subst
        (λ b.
          Meets (step_walk n off go (if b then ok none else err e)) t (Tallied probe num n off s))
        (sym other) (fail-Meets e t (0, off, s, no_frame, h, other))
]

walk_frames-Tallied :
    (probe : ℕ → M (Option ℕ)) (fuel num n off : ℕ) (s : Store)
    → Meets (walk_frames probe fuel num n off) s (Tallied probe num n off s)
unfolding walk_frames
walk_frames-Tallied probe zero num n off s = pure-Meets none s tt
walk_frames-Tallied probe (suc fuel) num n off s = gets-Meets _ _ s (
    if-Meets (leb ((s.heap num).base + (s.heap num).size) off) (pure (some (n, off))) _ s
      (λ end. pure-Meets _ s (0, s, omega arith, no_frame, at_end end))
      (λ _.
        try-Meets {R = λ r t. probe off s ≡ (r, t)} _ _ s (record { at = refl })
          (λ r t h.
            step_walk-Tallied probe _ num n off s t r h
              (λ next. walk_frames-Tallied probe fuel num (n + 1) next t))))

-- The loops of `surviveCount` and `countVerified` end, whatever the file holds and the file system
-- answers, for a segment below 2^63 bytes: a round for each of its bytes and one more is enough. What
-- they answer is the number of frames that the probe answered one behind the other from the start of
-- the segment, of nine bytes at least each, and the boundary inside the segment behind the last of
-- them, where the segment ends, or the probe found no frame or damage. They fail only with an error
-- of a probe that is no damage.
pub walks_count :
    (env : Env) (num : ℕ) (s : Store)
    → (s.heap num).size < 2 ^ 63
    → let base = (s.heap num).base in
      let end = base + (s.heap num).size in
      let fuel = suc (s.heap num).size in
      let (r, t) = walk_frames (record_len env num) fuel num 0 base s in
      let (q, u) = walk_frames (verified_end env num) fuel num 0 base s in
      (Ended 0 base end r × Tallied (record_len env num) num 0 base s r t)
      × (Ended 0 base end q × Tallied (verified_end env num) num 0 base s q u)
walks_count env num s small =
    let w = walks_end env num s small in
    (
      (w.0, (walk_frames-Tallied (record_len env num) _ num 0 _ s).at),
      (w.1, (walk_frames-Tallied (verified_end env num) _ num 0 _ s).at),
    )
