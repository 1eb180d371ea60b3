-- ===== src/Store/Log/Append.antt =====
-- store.go: an append writes its frame behind the published extent of the active segment.
use diskqueue.Base.{
  some-injective, ℕ, refl, sym, ◌≡◌, ap, ◌∙◌, ◌≤◌, ◌⊎◌, inl, inr, Bool, false, Option, some, List,
  ◌++◌, arith, ◌+◌, ◌-◌, length, take, drop, take-take, take-append_le, length-take, subst,
}
use diskqueue.Frame.{header_size, framed_len, frame}
use diskqueue.Frame.Bounds.{length-frame}
use diskqueue.Store.State.{Store, Env, Error}
use diskqueue.Store.Action.{Result, ok, err, ◌>>◌, fail, when}
use diskqueue.Store.Os.{write_bytes}
use diskqueue.Store.Append.{
  write_record, sync_data, advance, publish_or, rollback_append, settle_append,
}
use diskqueue.Store.Quiet.{
  update_here, Keeps, bind-Keeps, attempt-Keeps, pure-Keeps, when-Keeps, fail-Keeps, modify-Keeps,
  if-Keeps, gets-Keeps,
}
use diskqueue.Store.Quiet.Handles.{fail_io-Keeps, record_ops-Keeps}
use diskqueue.Store.Meets.{
  Meets, bind-Meets, then-Meets, try-Meets, keeps-Meets, weaken-Meets, fail-Meets, pure-Meets,
}
use diskqueue.Store.Log.{region, regions}
use diskqueue.Store.Log.Handling.{Data, data_of, data-Handles, mark_written-Data}
use diskqueue.Store.Log.Write.{
  Facts, facts, facts_of_data, Data-Facts, put_on, Wrote, os_write_at-Wrote,
}
use diskqueue.Store.Log.Header.{Fit, Fits, Upheld, plain_of, facts-Upheld, write_header-Upheld}
use diskqueue.Store.Log.Core.{
  Core, core, core_of, laid, sized, laid_same, sized_back, update-shown, take-write_end,
  take-write_more,
}
use diskqueue.Store.Log.Advance.{Moved, advance-Moved, retreat-Moved}

core_of_data : Data → Core
core_of_data d = core_of (plain_of (facts_of_data d))

core-put_on :
    (d : Data) (num : ℕ) (h : List ℕ)
    → core_of_data (put_on d num h) ≡ laid (core_of_data d) num (drop header_size h)
unfolding core_of_data
core-put_on d num h =
    ap (λ (x : ℕ → Option (List ℕ)). record (core_of_data d) { regions_held = x })
      (update-shown region d.on num (some h))

module _ (env : Env) (payload : List ℕ) (num : ℕ) (s0 : Store) (b : List ℕ)
    (here : regions s0 num ≡ some b) (room : (s0.heap num).size ≤ length b)
    (fit : Fits num s0) where
  abbrev n : ℕ
  n = framed_len (length payload)

  abbrev z : ℕ
  z = (s0.heap num).size

  -- The region of the segment with the frame behind the published bytes.
  abbrev WithFrame : List ℕ → Type 0
  WithFrame b' = take (z + n) b' ≡ take z b ++ frame env.sum64 payload

  -- The published bytes are there; nothing else is said of the region.
  abbrev pub Unpublished : Store → Type 0
  Unpublished t =
      Fits num t × ((b' : List ℕ) × (take z b' ≡ take z b) × (core t ≡ laid (core s0) num b'))

  abbrev pub Laid : Store → Type 0
  Laid t = Fits num t × ((b' : List ℕ) × WithFrame b' × (core t ≡ laid (core s0) num b'))

  -- The frame is behind the published bytes and the extent holds it.
  abbrev pub Published : Store → Type 0
  Published t =
      Fits num t
      × ((b' : List ℕ) × WithFrame b' × (core t ≡ sized (laid (core s0) num b') num (z + n)))

  abbrev pub Ended : Result (Unit {0}) → Store → Type 0
  Ended (ok _) t = Published t
  Ended (err e) t = Unpublished t ⊎ Published t

  pub started : (t : Store) → facts t ≡ facts s0 → Unpublished t
  started t k = (
    (facts-Upheld {A = Unit {0}} num s0 t (ok tt) fit k).1,
    (b, refl, ap (λ f. core_of (plain_of f)) k ∙ sym (laid_same (core s0) num b here)),
  )

  pub below : (b' : List ℕ) → WithFrame b' → take z b' ≡ take z b
  below b' w =
      sym (take-take z (z + n) b' (omega arith))
      ∙ ap (take z) w
      ∙ take-append_le z (take z b) (frame env.sum64 payload) (omega (arith, length-take z b room))
      ∙ take-take z z b (omega arith)

  Laid-Unpublished : (t : Store) → Laid t → Unpublished t
  Laid-Unpublished t (f, (b', w, k)) = (f, (b', below b' w, k))

  Fits-on : (t u : Store) → facts u ≡ facts t → Fits num t → Fits num u
  Fits-on t u k f = (facts-Upheld {A = Unit {0}} num t u (ok tt) f k).1

  core_on : (t u : Store) → facts u ≡ facts t → core u ≡ core t
  core_on t u k = ap (λ f. core_of (plain_of f)) k

  Laid-on : (t u : Store) → facts u ≡ facts t → Laid t → Laid u
  Laid-on t u k (f, (b', w, c)) = (Fits-on t u k f, (b', w, core_on t u k ∙ c))

  Published-on : (t u : Store) → facts u ≡ facts t → Published t → Published u
  Published-on t u k (f, (b', w, c)) = (Fits-on t u k f, (b', w, core_on t u k ∙ c))

  abbrev pub Written : Result (Unit {0}) → Store → Type 0
  Written (ok _) t = Laid t
  Written (err e) t = Unpublished t

  -- One write to the file.
  one_write :
      (s t : Store) (h h' : List ℕ)
      → facts s ≡ facts s0
      → s.disk num ≡ some h
      → data_of t ≡ put_on (data_of s) num h'
      → Fits num t × (core t ≡ laid (core s0) num (drop header_size h')) × (drop header_size h ≡ b)
  unfolding core_of_data
  one_write s t h h' k there w = (
    subst (λ (x : ℕ → List ℕ × List ℕ). Fit (x num))
        (sym (ap (λ (d : Data). d.headers) w ∙ ap (λ (f : Facts). f.headers) k)) fit,
    ap core_of_data w
        ∙ core-put_on (data_of s) num h'
        ∙ ap (λ f. laid (core_of (plain_of f)) num (drop header_size h')) k,
    some-injective (sym (ap region there) ∙ ap (λ (f : Facts). f.bodies num) k ∙ here),
  )

  -- What the write of the frame makes of the region.
  Wrote-Written :
      (s t : Store) (r : Result (Unit {0}))
      → facts s ≡ facts s0
      → Wrote s num (header_size + z) (frame env.sum64 payload) r t
      → Written r t
  Wrote-Written s t (ok _) k (h, there, w) =
      let bs = frame env.sum64 payload in
      let h' = write_bytes (header_size + z) bs h in
      let (f, c, e) = one_write s t h h' k there w in
      let l : z ≤ length (drop header_size h) = omega (arith, ap length e, room) in
      (
        f,
        (
          drop header_size h',
          ap (λ m. take (z + m) (drop header_size h')) (sym (length-frame env.sum64 payload))
              ∙ take-write_more z bs h l
              ∙ ap (λ x. take z x ++ bs) e,
          c,
        ),
      )
  Wrote-Written s t (err e) k (inl w) = started t (ap facts_of_data w ∙ k)
  Wrote-Written s t (err e) k (inr (h, m, there, w)) =
      let bs = take m (frame env.sum64 payload) in
      let h' = write_bytes (header_size + z) bs h in
      let (f, c, e) = one_write s t h h' k there w in
      let l : z ≤ length (drop header_size h) = omega (arith, ap length e, room) in
      (f, (drop header_size h', take-write_end z bs h l ∙ ap (take z) e, c))

  pub write_record-Written :
      (s : Store) → facts s ≡ facts s0 → Meets (write_record env num z payload) s Written
  unfolding write_record
  write_record-Written s k =
      then-Meets {p = facts} _ _ s (when-Keeps _ _ (fail-Keeps _))
        (λ _ t l.
          bind-Meets {R = Written} _ _ t
            (weaken-Meets _ t
              (os_write_at-Wrote env num (header_size + z) (frame env.sum64 payload) t)
              (λ r u w. Wrote-Written t u r (l ∙ k) w))
            (λ _ u w. keeps-Meets {p = facts} _ u (Data-Facts _ (mark_written-Data num)) (elim [
              | ok _ ↦ λ v m. Laid-on u v m w
              | err e ↦ λ v m. Laid-Unpublished v (Laid-on u v m w)
            ]))
            (λ e u w. w))
        (λ e t l. started t (l ∙ k))

  pub sync_data-Written :
      (due : Bool) (t : Store) → Laid t → Meets (when due (sync_data env num)) t Written
  unfolding sync_data
  sync_data-Written due t l =
      keeps-Meets {p = facts} _ t
        (when-Keeps due _ (
          Data-Facts _ (
            bind-Keeps _ _ (attempt-Keeps _ (data-Handles.os_touch_kept env num))
              (elim [ ok _ ↦ pure-Keeps tt | err e ↦ fail_io-Keeps data-Handles env e ]))))
        (elim [
          | ok _ ↦ λ u k. Laid-on t u k l
          | err e ↦ λ u k. Laid-Unpublished u (Laid-on t u k l)
        ])

  settle_append-Facts : (m : ℕ) → Keeps facts (settle_append env num m)
  unfolding settle_append
  settle_append-Facts m = Data-Facts _ (
      bind-Keeps _ _ (gets-Keeps _) (λ s. if-Keeps _ _ _ (modify-Keeps _ (λ t. refl)) (
        if-Keeps _ _ _
          (bind-Keeps _ _ (modify-Keeps _ (λ t. refl)) (λ _. record_ops-Keeps data-Handles env 1))
          (bind-Keeps _ _ (attempt-Keeps _ (data-Handles.os_touch_kept env num)) (elim [
            | ok _ ↦ data-Handles.set_dirty_kept num false
            | err e ↦ fail_io-Keeps data-Handles env e
          ])))))

  grown_back :
      (t : Store) (b' : List ℕ)
      → core t ≡ sized (laid (core s0) num b') num (z + n)
      → sized (core t) num ((t.heap num).size - n) ≡ laid (core s0) num b'
  grown_back t b' c =
      let grown = sized (laid (core s0) num b') num (z + n) in
      let e : grown.sizes num - n ≡ z =
        omega (arith, update_here (laid (core s0) num b').sizes num (z + n)) in
      ap (λ (d : Core). sized d num (d.sizes num - n)) c
      ∙ ap (sized grown num) e
      ∙ sized_back (laid (core s0) num b') num z refl (z + n)

  -- The rollback: the frame is there, and no extent holds it.
  retreat-Ended :
      (e : Error) (t : Store)
      → Published t
      → Meets (do rollback_append env num n; fail {A = Unit {0}} e) t Ended
  unfolding rollback_append
  retreat-Ended e t (f, (b', w, c)) =
      bind-Meets {R = Moved num (sized (core t) num ((t.heap num).size - n))} _ _ t
        (retreat-Moved env num n 1 t f)
        (λ _ u m. fail-Meets e u (inl (m.1, (b', below b' w, m.0 ∙ grown_back t b' c))))
        (λ e u m. absurd m)

  pub publish-Ended :
      (t : Store)
      → Laid t
      → Meets
          (do
            advance env num n 1
            publish_or env (rollback_append env num n) num
            settle_append env num n)
          t
          Ended
  unfolding publish_or
  publish-Ended t (f, (b', w, c)) =
      bind-Meets {R = Moved num (sized (core t) num ((t.heap num).size + n))} _ _ t
        (advance-Moved env num n 1 t f)
        (λ _ u m.
          let p : Published u =
            (m.1, (b', w, m.0 ∙ ap (λ (d : Core). sized d num (d.sizes num + n)) c)) in
          bind-Meets {R = Ended} _ _ u
            (try-Meets {R = Upheld num u} _ _ u (write_header-Upheld env num u m.1) (elim [
              | ok _ ↦ λ v x. pure-Meets tt v (x.1, (b', w, ap core_of x.0 ∙ p.1.2))
              | err e ↦ λ v x. retreat-Ended e v (x.1, (b', w, ap core_of x.0 ∙ p.1.2))
            ]))
            (λ _ v q. keeps-Meets {p = facts} _ v (settle_append-Facts n) (elim [
              | ok _ ↦ λ x k. Published-on v x k q
              | err e ↦ λ x k. inr (Published-on v x k q)
            ]))
            (λ e v q. q))
        (λ e u m. absurd m)
