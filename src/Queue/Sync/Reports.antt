-- ===== src/Queue/Sync/Reports.antt =====
-- diskqueue.go: what `flushChunk` answers and latches behind its fdatasyncs.
use diskqueue.Base.{
  ◌≡◌, refl, sym, ap, ◌∙◌, Bool, true, false, Option, none, some, List, [], ◌∷◌, ◌==◌, ◌||◌,
}
use diskqueue.Store.State.{Store, Error, sentinel, join, io}
use diskqueue.Store.Action.{Result, ok, err}
use diskqueue.Store.Files.{change_file, latch}
use diskqueue.Store.Meets.{Meets, bind-Meets, modify-Meets, gets-Meets, pure-Meets, when-Meets}
use diskqueue.Store.Append.Outcome.{Latched}
use diskqueue.Queue.Sync.{Target, join_both, unpin, settle_target, settle_targets}

-- Whether an fdatasync failed.
abbrev pub failed : Result (Unit {0}) → Bool
failed (ok _) = false
failed (err e) = true

abbrev pub any_failed : List (Target × Result (Unit {0})) → Bool
any_failed [] = false
any_failed ((t, r) ∷ rs) = let rest = any_failed rs in failed r || rest

-- The answer is an error, and the store is latched, if something failed; otherwise there is none,
-- and the latch is as it was.
abbrev pub Reported : Bool → Store → Option Error → Store → Type 0
Reported true s r t = Latched t × ((e : Error) × (r ≡ some e))
Reported false s r t = (t.io_err ≡ s.io_err) × (r ≡ none)

abbrev Answered : Bool → Store → Result (Option Error) → Store → Type 0
Answered b s (ok r) t = Reported b s r t
Answered b s (err e) t = ⊥

joined : (r r' q q' : Option Error) → r ≡ r' → q ≡ q' → join_both r q ≡ join_both r' q'
joined r r' q q' e f = ap (λ x. join_both x q) e ∙ ap (λ x. join_both r' x) f

both_Reported :
    (b c : Bool) (s u t : Store) (r q : Option Error)
    → Reported b s r u
    → Reported c u q t
    → Reported (b || c) s (join_both r q) t
both_Reported true true s u t r q (l, (e, p)) (m, (f, k)) =
    (m, (join e f, joined r (some e) q (some f) p k))
both_Reported true false s u t r q ((x, l), (e, p)) (same, k) =
    ((x, same ∙ l), (e, joined r (some e) q none p k))
both_Reported false true s u t r q (i, p) (m, (f, k)) = (m, (f, joined r none q (some f) p k))
both_Reported false false s u t r q (i, p) (j, k) = (j ∙ i, joined r none q none p k)

-- The answer of `latch` is an error, and the store is latched.
abbrev Latches : Result Error → Store → Type 0
Latches (ok e) t = Latched t
Latches (err e) t = ⊥

latch-Latches : (e : Error) (s : Store) → Meets (latch e) s Latches
unfolding latch
latch-Latches e s = record { at = latched s.io_err refl }
  where
    latched :
        (o : Option Error)
        → o ≡ s.io_err
        → let r : Result Error × Store = elim o [
          | none ↦ (ok (join (sentinel io) e), record s { io_err = some (join (sentinel io) e) })
          | some first ↦ (ok first, s)
        ] in
          Latches r.0 r.1
    latched none k = (join (sentinel io) e, refl)
    latched (some x) k = (x, sym k)

-- No error, and the latch is as it was.
abbrev Same : Store → Result (Unit {0}) → Store → Type 0
Same s (ok _) t = t.io_err ≡ s.io_err
Same s (err e) t = ⊥

settle_target-Answered :
    (t : Target) (r : Result (Unit {0})) (s : Store)
    → Meets (settle_target t r) s (Answered (failed r) s)
unfolding settle_target
settle_target-Answered t (err e) s = modify-Meets _ _ s (
    bind-Meets {R = Latches} _ _ _ (latch-Latches e _)
      (λ latched v l. pure-Meets _ v (l, (latched, refl))) (λ x v l. absurd l))
settle_target-Answered t (ok _) s = modify-Meets _ _ s (
    gets-Meets _ _ _ (
      bind-Meets {R = Same s} _ _ _
        (when-Meets (((unpin t.num s).1.heap t.num).write_seq == t.seq)
          (change_file t.num (λ df. record df { dirty = false })) _ (record { at = refl }) refl)
        (λ _ v k. pure-Meets none v (k, refl)) (λ x v k. absurd k)))

settle_targets-Answered :
    (rs : List (Target × Result (Unit {0}))) (s : Store)
    → Meets (settle_targets rs) s (Answered (any_failed rs) s)
unfolding settle_targets
settle_targets-Answered [] s = pure-Meets none s (refl, refl)
settle_targets-Answered ((t, r) ∷ rs) s =
    bind-Meets {R = Answered (failed r) s} _ _ s (settle_target-Answered t r s)
      (λ e u k.
        bind-Meets {R = Answered (any_failed rs) u} _ _ u (settle_targets-Answered rs u)
          (λ es v l. pure-Meets _ v (both_Reported (failed r) (any_failed rs) s u v e es k l))
          (λ x v l. absurd l))
      (λ x u k. absurd k)

-- The part of `flushChunk` behind its fdatasyncs adds an error to what the chunk answers exactly if one
-- of the fdatasyncs failed, and then the store is latched; otherwise the latch is as it was. What
-- `flushChunk` reports of files that it could not open comes from the part in front of them.
pub settle_targets_reports :
    (rs : List (Target × Result (Unit {0}))) (s : Store)
    → (r : Option Error) × ((settle_targets rs s).0 ≡ ok r)
      × Reported (any_failed rs) s r (settle_targets rs s).1
settle_targets_reports rs s = answered _ _ (settle_targets-Answered rs s).at
  where
    answered :
        (q : Result (Option Error)) (t : Store)
        → Answered (any_failed rs) s q t
        → (r : Option Error) × (q ≡ ok r) × Reported (any_failed rs) s r t
    answered (ok r) t h = (r, refl, h)
    answered (err e) t h = absurd h
