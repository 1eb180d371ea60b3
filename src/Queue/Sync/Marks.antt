-- ===== src/Queue/Sync/Marks.antt =====
-- diskqueue.go: which files a flush off the lock marks clean, and what a failed fdatasync does.
use mathlib.Core.Path.{fun_ext}
use diskqueue.Base.{
  ℕ, ◌≡◌, refl, sym, ap, ◌∙◌, ◌-◌, Bool, true, false, not, ◌&&◌, ◌||◌, Option, none, List, [], ◌∷◌,
  arith, ◌==◌, ==_iff, if◌then◌else◌, subst,
}
use diskqueue.Store.State.{Store, DataFile, Error}
use diskqueue.Store.Action.{Result, ok, err, pure}
use diskqueue.Store.Files.{change_file, latch}
use diskqueue.Store.Quiet.{shown-update}
use diskqueue.Store.Meets.{Meets, bind-Meets, modify-Meets, gets-Meets, pure-Meets, if-Meets}
use diskqueue.Store.Log.Core.{update-shown}
use diskqueue.Queue.Sync.{Target, unpin, settle_target, settle_targets}

-- The target is file `n`, its fdatasync was done, and `seq` is its number of writes at the pin.
abbrev pub hit : ℕ → ℕ → Target → Result (Unit {0}) → Bool
hit n seq t (ok _) = t.num == n && seq == t.seq
hit n seq t (err e) = false

abbrev pub flushed : ℕ → ℕ → List (Target × Result (Unit {0})) → Bool
flushed n seq [] = false
flushed n seq ((t, r) ∷ rs) = let rest = flushed n seq rs in hit n seq t r || rest

-- Whether a file has unsynced bytes, and the number of its writes.
abbrev marks : Store → ℕ → Bool × ℕ
marks s n = ((s.heap n).dirty, (s.heap n).write_seq)

-- File `n` is clean if it was or it was hit; its writes are as many.
abbrev Marked : {A : Type 0} → ℕ → Store → Bool → Result A → Store → Type 0
Marked n s b (ok r) t =
    ((t.heap n).dirty ≡ ((s.heap n).dirty && not b)) × ((t.heap n).write_seq ≡ (s.heap n).write_seq)
Marked n s b (err e) t = ⊥

unpin-marks : (num : ℕ) (s : Store) → marks (unpin num s).1 ≡ marks s
unpin-marks num s = fun_ext (
    shown-update (λ df. (df.dirty, df.write_seq)) s.heap num
      (λ df. record df { pins = df.pins - 1 }) (λ df. refl))

cleared : (a b d : Bool) → (a ≡ true → b ≡ true) → (if a then false else d) ≡ (d && not (a && b))
cleared true true true h = refl
cleared true true false h = refl
cleared true false d h = absurd (let x : false ≡ true = h refl in cc)
cleared false b true h = refl
cleared false b false h = refl

left_alone : (d : Bool) → d ≡ (d && not false)
left_alone true = refl
left_alone false = refl

missed : (a b d : Bool) → (a ≡ true → b ≡ false) → d ≡ (d && not (a && b))
missed true true d h = absurd (let x : true ≡ false = h refl in cc)
missed true false true h = refl
missed true false false h = refl
missed false b true h = refl
missed false b false h = refl

chained : (d a b : Bool) → ((d && not a) && not b) ≡ (d && not (a || b))
chained true true b = refl
chained true false b = refl
chained false a b = refl

clean_here :
    (num n seq : ℕ) (s : Store)
    → ((s.heap num).write_seq == seq) ≡ true
    → let u = (change_file num (λ df. record df { dirty = false }) s).1 in
      ((u.heap n).dirty ≡ ((s.heap n).dirty && not (num == n && (s.heap n).write_seq == seq)))
      × ((u.heap n).write_seq ≡ (s.heap n).write_seq)
clean_here num n seq s e =
    let f : DataFile → DataFile = λ df. record df { dirty = false } in
    (
      ap (λ (d : ℕ → Bool). d n)
            (update-shown (λ (df : DataFile). df.dirty) s.heap num (f (s.heap num)))
          ∙ cleared (num == n) ((s.heap n).write_seq == seq) (s.heap n).dirty
              (λ h. subst (λ k. ((s.heap k).write_seq == seq) ≡ true) ((==_iff num n).0 h) e),
      shown-update (λ df. df.write_seq) s.heap num f (λ df. refl) n,
    )

-- Nothing failed, and the marks are those of `s`.
abbrev Steadfast : {A : Type 0} → Store → Result A → Store → Type 0
Steadfast s (ok r) t = marks t ≡ marks s
Steadfast s (err e) t = ⊥

latch-Steadfast : (e : Error) (s : Store) → Meets (latch e) s (Steadfast s)
unfolding latch
latch-Steadfast e s = record { at = ground arith }

settle_target-Marked :
    (n : ℕ) (t : Target) (r : Result (Unit {0})) (s : Store)
    → Meets (settle_target t r) s (Marked n s (hit n (s.heap n).write_seq t r))
unfolding settle_target
settle_target-Marked n t (err e) s =
    let u = (unpin t.num s).1 in
    modify-Meets _ _ s (
      bind-Meets {R = Steadfast u} _ _ u (latch-Steadfast e u)
        (λ latched v k.
          let m = ap (λ (f : ℕ → Bool × ℕ). f n) (k ∙ unpin-marks t.num s) in
          pure-Meets _ v (ap (λ x. x.0) m ∙ left_alone (s.heap n).dirty, ap (λ x. x.1) m))
        (λ x v k. absurd k))
settle_target-Marked n t (ok _) s =
    let u = (unpin t.num s).1 in
    let m = ap (λ (f : ℕ → Bool × ℕ). f n) (unpin-marks t.num s) in
    modify-Meets _ _ s (
      gets-Meets _ _ u (
        bind-Meets {R = Marked n s (hit n (s.heap n).write_seq t (ok tt))} _ _ u
          (if-Meets ((u.heap t.num).write_seq == t.seq)
            (change_file t.num (λ df. record df { dirty = false })) (pure tt) u
            (λ e.
              let c = clean_here t.num n t.seq u e in
              record {
                at = (
                  c.0 ∙ ap (λ (x : Bool × ℕ). x.0 && not (t.num == n && x.1 == t.seq)) m,
                  c.1 ∙ ap (λ (x : Bool × ℕ). x.1) m,
                );
              })
            (λ e. pure-Meets tt u (
              ap (λ (x : Bool × ℕ). x.0) m
                  ∙ missed (t.num == n) ((s.heap n).write_seq == t.seq) (s.heap n).dirty (λ h.
                    ap (λ (x : Bool × ℕ). x.1 == t.seq) (sym m)
                    ∙ subst (λ k. ((u.heap k).write_seq == t.seq) ≡ false) ((==_iff t.num n).0 h)
                        e),
              ap (λ (x : Bool × ℕ). x.1) m,
            )))
          (λ _ v k. pure-Meets none v k) (λ x v k. absurd k)))

settle_targets-Marked :
    (n : ℕ) (rs : List (Target × Result (Unit {0}))) (s : Store)
    → Meets (settle_targets rs) s (Marked n s (flushed n (s.heap n).write_seq rs))
unfolding settle_targets
settle_targets-Marked n [] s = pure-Meets none s (left_alone (s.heap n).dirty, refl)
settle_targets-Marked n ((t, r) ∷ rs) s =
    let b = hit n (s.heap n).write_seq t r in
    bind-Meets {R = Marked n s b} _ _ s (settle_target-Marked n t r s)
      (λ e u k.
        bind-Meets {R = Marked n u (flushed n (u.heap n).write_seq rs)} _ _ u
          (settle_targets-Marked n rs u)
          (λ es v l. pure-Meets _ v (
            l.0
                ∙ ap (λ i. (u.heap n).dirty && not (flushed n i rs)) k.1
                ∙ ap (λ d. d && not (flushed n (s.heap n).write_seq rs)) k.0
                ∙ chained (s.heap n).dirty b (flushed n (s.heap n).write_seq rs),
            l.1 ∙ k.1,
          ))
          (λ x v l. absurd l))
      (λ x u k. absurd k)

-- The end of a chunk, `flushChunk` behind its fdatasyncs: a file is dirty behind it exactly if it was
-- and none of the targets is a done fdatasync of the file with no write since the pin; and the number
-- of writes is as it was.
pub settle_targets_marks :
    (rs : List (Target × Result (Unit {0}))) (s : Store) (n : ℕ)
    → let t = (settle_targets rs s).1 in
      ((t.heap n).dirty ≡ ((s.heap n).dirty && not (flushed n (s.heap n).write_seq rs)))
      × ((t.heap n).write_seq ≡ (s.heap n).write_seq)
settle_targets_marks rs s n = marked _ _ (settle_targets-Marked n rs s).at
  where
    marked :
        (r : Result (Option Error)) (t : Store)
        → Marked n s (flushed n (s.heap n).write_seq rs) r t
        → ((t.heap n).dirty ≡ ((s.heap n).dirty && not (flushed n (s.heap n).write_seq rs)))
          × ((t.heap n).write_seq ≡ (s.heap n).write_seq)
    marked (ok r) t h = h
    marked (err e) t h = absurd h
