-- ===== src/Recovery/Walk.antt =====
-- recovery.go: the walks over the frames of a damaged segment end, inside it.
use diskqueue.Base.{
  subst, ℕ, zero, suc, ◌+◌, ◌*◌, ◌^◌, ◌≤◌, ◌<◌, ◌≡◌, refl, sym, ap, ◌∙◌, Option, none, some, arith,
  leb, if◌then◌else◌, Bool-cases, inl, inr,
}
use diskqueue.Store.State.{Store, Env, corrupt, errors_is}
use diskqueue.Store.Action.{M, Result, ok, err, pure}
use diskqueue.Store.Block.{record_len}
use diskqueue.Store.Quiet.{View, view}
use diskqueue.Store.Quiet.Files.{ensure_open-Quiet}
use diskqueue.Store.Meets.{
  Meets, then-Meets, attempt-Meets, gets-Meets, bind-Meets, if-Meets, pure-Meets, weaken-Meets,
  fail-Meets,
}
use diskqueue.Recovery.Frames.{
  verdict, verified_end, step_walk, walk_frames, walked, walk_segment, survive_count,
  count_verified,
}
use diskqueue.Recovery.Probe.{Probed, Advances, record_len-Advances, verified_end-Advances}

-- So it is where the outcome is in hand.
abbrev Tried : Store → ℕ → ℕ → Result (Result (Option ℕ)) → Store → Type 0
Tried s off end (ok r) t = Probed s off end r t
Tried s off end (err e) t = ⊥

-- The walk ended, at a boundary inside the segment, having counted frames of nine bytes at least.
abbrev pub Ended : ℕ → ℕ → ℕ → Result (Option (ℕ × ℕ)) → Type 0
Ended n off end (ok none) = ⊥
Ended n off end (ok (some (m, at))) = (off ≤ at) × (at ≤ end) × (9 * m + off ≤ 9 * n + at)
Ended n off end (err e) = Unit {0}

-- The walk ended as `Ended` says, and the store shows what it did.
abbrev pub Walked : View → ℕ → ℕ → ℕ → Result (Option (ℕ × ℕ)) → Store → Type 0
Walked v n off end r t = (view t ≡ v) × Ended n off end r

-- What a whole walk answers: a count and a boundary inside the segment.
abbrev pub Counted : View → ℕ → Result (ℕ × ℕ) → Store → Type 0
Counted v num (ok (m, at)) t =
    (view t ≡ v)
    × ((v.extents num).base ≤ at)
    × (at ≤ (v.extents num).base + (v.extents num).size)
    × (9 * m + (v.extents num).base ≤ at)
Counted v num (err e) t = view t ≡ v

module _ (env : Env) where
  further :
      (n off next end : ℕ) (r : Result (Option (ℕ × ℕ)))
      → off + 9 ≤ next
      → Ended (n + 1) next end r
      → Ended n off end r
  further n off next end (ok none) h x = x
  further n off next end (ok (some (m, at))) h x = (omega (arith, h, x), x.1, omega (arith, h, x))
  further n off next end (err e) h x = tt

  stay : (n off end : ℕ) → off ≤ end → Ended n off end (ok (some (n, off)))
  stay n off end h = (omega arith, h, omega arith)

  step_walk-Walked :
      (n off end : ℕ) (go : ℕ → M (Option (ℕ × ℕ))) (v : View) (s t : Store) (r : Result (Option ℕ))
      → view s ≡ v
      → off ≤ end
      → Probed s off end r t
      → ((next : ℕ)
          → view t ≡ v
          → off + 9 ≤ next
          → next ≤ end
          → Meets (go next) t (Walked v (n + 1) next end))
      → Meets (step_walk n off go (verdict r)) t (Walked v n off end)
  unfolding step_walk
  step_walk-Walked n off end go v s t (ok none) e inside x ih =
      pure-Meets _ t (x.0 ∙ e, stay n off end inside)
  step_walk-Walked n off end go v s t (ok (some next)) e inside x ih =
      weaken-Meets _ t (ih next (x.0 ∙ e) x.1.0 x.1.1)
        (λ r u y. (y.0, further n off next end r x.1.0 y.1))
  step_walk-Walked n off end go v s t (err e') e inside x ih =
      elim (Bool-cases (errors_is e' corrupt)) [
        | inl damage ↦
            subst
              (λ b.
                Meets (step_walk n off go (if b then ok none else err e')) t (Walked v n off end))
              (sym damage) (pure-Meets _ t (x ∙ e, stay n off end inside))
        | inr other ↦
            subst
              (λ b.
                Meets (step_walk n off go (if b then ok none else err e')) t (Walked v n off end))
              (sym other) (fail-Meets e' t (x ∙ e, tt))
      ]

  walk_frames-Walked :
      (probe : ℕ → M (Option ℕ)) (fuel num n off : ℕ) (v : View) (s : Store)
      → Advances num probe
      → view s ≡ v
      → (v.extents num).size < 2 ^ 63
      → off ≤ (v.extents num).base + (v.extents num).size
      → (v.extents num).base + (v.extents num).size < fuel + off
      → Meets
          (walk_frames probe fuel num n off)
          s
          (Walked v n off ((v.extents num).base + (v.extents num).size))
  unfolding walk_frames
  walk_frames-Walked probe zero num n off v s adv e small inside enough = absurd (omega arith)
  walk_frames-Walked probe (suc fuel) num n off v s adv e small inside enough =
      let end = (v.extents num).base + (v.extents num).size in
      let same : (s.heap num).base + (s.heap num).size ≡ end =
        ap (λ w. (w.extents num).base + (w.extents num).size) e in
      let small' : (s.heap num).size < 2 ^ 63 =
        subst (λ x. x < 2 ^ 63) (sym (ap (λ w. (w.extents num).size) e)) small in
      gets-Meets _ _ s (
        if-Meets (leb ((s.heap num).base + (s.heap num).size) off) (pure (some (n, off))) _ s
          (λ _. pure-Meets _ s (e, stay n off end inside))
          (λ _.
            bind-Meets {R = λ r t. Tried s off end r t} _ _ s
              (attempt-Meets _ s
                (subst (λ x. Meets (probe off) s (Probed s off x)) same (adv.at off s small')))
              (λ r t x. step_walk-Walked n off end _ v s t r e inside x (λ next w far within.
                walk_frames-Walked probe fuel num (n + 1) next v t adv w small within
                  (omega (arith, enough, far))))
              (λ e t x. absurd x)))

  walked-Counted :
      (v : View) (num : ℕ) (r : Option (ℕ × ℕ)) (t : Store)
      → Walked v 0 (v.extents num).base ((v.extents num).base + (v.extents num).size) (ok r) t
      → Meets (walked r) t (Counted v num)
  walked-Counted v num none t x = absurd x.1
  walked-Counted v num (some (m, at)) t x = pure-Meets _ t (x.0, x.1.0, x.1.1, omega (arith, x.1.2))

  walk_segment-Counted :
      (probe : ℕ → M (Option ℕ)) (num : ℕ) (s : Store)
      → Advances num probe
      → (s.heap num).size < 2 ^ 63
      → Meets (walk_segment env probe num) s (Counted (view s) num)
  unfolding walk_segment
  walk_segment-Counted probe num s adv small =
      then-Meets {p = view} _ _ s (ensure_open-Quiet env num)
        (λ _ t v. gets-Meets _ _ t (
          bind-Meets
            {R = Walked (view s) 0 ((view s).extents num).base
              (((view s).extents num).base + ((view s).extents num).size)}
            _ _ t
            (subst
              (λ w.
                Meets (walk_frames probe (suc (w.extents num).size) num 0 (w.extents num).base) t (
                  Walked (view s) 0 ((view s).extents num).base
                    (((view s).extents num).base + ((view s).extents num).size)))
              (sym v)
              (walk_frames-Walked probe _ num 0 _ (view s) t adv v small (omega arith)
                (omega arith)))
            (λ r u x. walked-Counted (view s) num r u x) (λ e u x. x.0)))
        (λ e t v. v)

  pub survive_count-Counted :
      (num : ℕ) (s : Store)
      → (s.heap num).size < 2 ^ 63
      → Meets (survive_count env num) s (Counted (view s) num)
  unfolding survive_count
  survive_count-Counted num s small =
      walk_segment-Counted _ num s (record_len-Advances env num) small

  pub count_verified-Counted :
      (num : ℕ) (s : Store)
      → (s.heap num).size < 2 ^ 63
      → Meets (count_verified env num) s (Counted (view s) num)
  unfolding count_verified
  count_verified-Counted num s small =
      walk_segment-Counted _ num s (verified_end-Advances env num) small

-- The loops of `surviveCount` and `countVerified` end with the model's fuel, and unless they fail, at a
-- boundary inside the segment, with a count that leaves nine bytes a frame.
pub walks_end :
    (env : Env) (num : ℕ) (s : Store)
    → (s.heap num).size < 2 ^ 63
    → Ended 0
        (s.heap num).base
        ((s.heap num).base + (s.heap num).size)
        (walk_frames (record_len env num) (suc (s.heap num).size) num 0 (s.heap num).base s).0
      × Ended 0
          (s.heap num).base
          ((s.heap num).base + (s.heap num).size)
          (walk_frames (verified_end env num) (suc (s.heap num).size) num 0 (s.heap num).base s).0
walks_end env num s small = (
  (walk_frames-Walked env _ _ num 0 _ (view s) s (record_len-Advances env num) refl small
      (omega arith) (omega arith)).at.1,
  (walk_frames-Walked env _ _ num 0 _ (view s) s (verified_end-Advances env num) refl small
      (omega arith) (omega arith)).at.1,
)
