-- ===== src/Recovery/Trusted.antt =====
-- recovery.go: what `loadFile` makes of a header that can be believed.
use diskqueue.Base.{
  subst, ℕ, ◌+◌, ◌-◌, ◌^◌, ◌≤◌, ◌<◌, ◌≡◌, refl, sym, ap, ◌∙◌, List, arith, ltb, ◌⊎◌, inl, inr,
  Bool-cases, true, false, ◌&&◌,
}
use diskqueue.Frame.{header_size}
use diskqueue.Header.{commit_cursor, write_cursor, hdr_capacity, written_count}
use diskqueue.Store.State.{update, Store, DataFile, Env}
use diskqueue.Store.Action.{Result, ok, err}
use diskqueue.Store.Quiet.{View, view, Extent, extent, update_here}
use diskqueue.Store.Quiet.Files.{drop_block-Quiet}
use diskqueue.Store.Meets.{
  Meets, attempt-Meets, gets-Meets, modify-Meets, bind-Meets, when-Meets, if-Meets, fail-Meets,
  pure-Meets, weaken-Meets, keeps-Meets, loose-Meets,
}
use diskqueue.Recovery.Walk.{Counted, survive_count-Counted}
use diskqueue.Recovery.Segment.{
  loaded_file, wraps, cut_short, clamp_write, clamp_commit, clamp_frames, load_commit, load_trusted,
  nonneg,
}

-- The segment starts at `base` and its bytes are in its file, of `len` bytes.
pub record Fits (base len : ℕ) (x : Extent) : Type 0 where
  pub at_base : x.base ≡ base
  pub within : x.size ≤ len - header_size
  pub roomy : x.size ≤ x.capacity

-- So it does, with its counts and its commit cursor `cc` within it.
pub record Sound (base len : ℕ) (x : Extent) (cc : ℕ) : Type 0 where
  pub at_base : x.base ≡ base
  pub within : x.size ≤ len - header_size
  pub roomy : x.size ≤ x.capacity
  pub counted : x.committed ≤ x.written
  pub cursor_low : header_size ≤ cc
  pub cursor_high : cc ≤ header_size + x.size

-- The header states a capacity that `headerSize+capacity` overflows an int64 with.
abbrev pub Overflows : Extent → Type 0
Overflows x = 2 ^ 63 ≤ header_size + x.capacity

abbrev FitsAt : ℕ → ℕ → ℕ → Result (Unit {0}) → Store → Type 0
FitsAt base len num (ok a) t = Fits base len (extent (t.heap num)) ⊎ Overflows (extent (t.heap num))
FitsAt base len num (err e) t = Unit {0}

abbrev pub SoundAt : ℕ → ℕ → ℕ → Result ℕ → Store → Type 0
SoundAt base len num (ok cc) t =
    Sound base len (extent (t.heap num)) cc ⊎ Overflows (extent (t.heap num))
SoundAt base len num (err e) t = Unit {0}

-- What a walk counted, with its outcome in hand.
abbrev pub Walked : View → ℕ → Result (Result (ℕ × ℕ)) → Store → Type 0
Walked v num (ok r) t = Counted v num r t
Walked v num (err e) t = ⊥

pub Counted-view :
    (v : View) (num : ℕ) (r : Result (ℕ × ℕ)) (t : Store) → Counted v num r t → view t ≡ v
Counted-view v num (ok x) t c = c.0
Counted-view v num (err e) t c = c

-- What was counted of a view is so of the store that shows it.
pub recount :
    (v : View) (num : ℕ) (r : Result (ℕ × ℕ)) (t : Store)
    → Counted v num r t
    → Counted (view t) num r t
recount v num r t c = subst (λ w. Counted w num r t) (sym (Counted-view v num r t c)) c

module _ (env : Env) where
  load_commit-SoundAt :
      (base len num : ℕ) (h : List ℕ) (s : Store)
      → len < 2 ^ 63
      → Fits base len (extent (s.heap num)) ⊎ Overflows (extent (s.heap num))
      → Meets (load_commit env num h) s (SoundAt base len num)
  unfolding load_commit
  load_commit-SoundAt base len num h s small f = modify-Meets _ _ s (
      gets-Meets _ _ _ (
        pure-Meets _ _ (
          subst
            (λ d.
              Sound base len (extent d) (clamp_commit (nonneg (commit_cursor h)) d.size)
              ⊎ Overflows (extent d))
            (sym (update_here s.heap num _))
            (elim f [
              | inl f ↦
                  let low = f.within in
                  inl (record {
                    at_base = f.at_base;
                    within = f.within;
                    roomy = f.roomy;
                    counted = omega arith;
                    cursor_low = ground (arith, low, small);
                    cursor_high = ground (arith, low, small);
                  })
              | inr far ↦ inr far
            ]))))

  clamp_frames-FitsAt :
      (base len num : ℕ) (r : Result (ℕ × ℕ)) (s : Store)
      → Fits base len (extent (s.heap num))
      → Counted (view s) num r s
      → Meets (clamp_frames env num r) s (FitsAt base len num)
  unfolding clamp_frames
  clamp_frames-FitsAt base len num (err e) s f c =
      loose-Meets _ _ s (λ _ t. loose-Meets _ _ t (λ _ u. fail-Meets e u tt) (λ e' u. tt))
        (λ e' t. tt)
  clamp_frames-FitsAt base len num (ok (n, end)) s f c = gets-Meets _ _ s (
      modify-Meets _ _ s (
        modify-Meets _ _ _ (
          when-Meets _ _ _
            (modify-Meets _ _ _
              (keeps-Meets _ _ drop_block-Quiet (λ r t v. at_end r t (ap (λ w. w.extents num) v))))
            (inl (
              subst (λ d. Fits base len (extent d)) (sym (update_here s.heap num _))
                (record { at_base = f.at_base; within = f.within; roomy = f.roomy }))))))
    where
      cutoff : DataFile → DataFile
      cutoff d = record d { size = end - d.base }

      counted : ℕ → DataFile
      counted = update s.heap num (record (s.heap num) { written = n })

      at_end :
          (r : Result (Unit {0})) (t : Store)
          → extent (t.heap num) ≡ extent (update counted num (cutoff (counted num)) num)
          → FitsAt base len num r t
      at_end (err e) t v = tt
      at_end (ok _) t v = inl (
          subst (Fits base len)
            (sym (
              v
              ∙ ap extent (
                  update_here counted num (cutoff (counted num))
                  ∙ ap cutoff (update_here s.heap num (record (s.heap num) { written = n })))))
            (record {
              at_base = f.at_base;
              within = let h = f.within in let g = f.at_base in omega (arith, c);
              roomy = let h = f.roomy in omega (arith, c);
            }))

  pub load_trusted-SoundAt :
      (base len num : ℕ) (h : List ℕ) (s : Store)
      → len < 2 ^ 63
      → Meets (load_trusted env num base len h) s (SoundAt base len num)
  unfolding load_trusted
  load_trusted-SoundAt base len num h s small =
      loose-Meets _ _ s
        (λ _ t. modify-Meets _ _ t (
          bind-Meets {R = FitsAt base len num} _ _ _
            (if-Meets (cut_short capacity len && ltb len (nonneg (write_cursor h))) _ _ _
              (λ lost.
                bind-Meets {R = Walked (view (opened t)) num} _ _ _
                  (attempt-Meets _ _ (
                    weaken-Meets _ _
                      (survive_count-Counted env num (opened t)
                        (subst (λ d. d.size < 2 ^ 63) (sym (here t)) (short lost)))
                      (λ r u c. c)))
                  (λ r u c.
                    clamp_frames-FitsAt base len num r u
                      (subst (λ w. Fits base len (w.extents num)) (sym (Counted-view _ num r u c))
                        (subst (λ d. Fits base len (extent d)) (sym (here t)) (fresh (room lost))))
                      (recount _ num r u c))
                  (λ e u x. absurd x))
              (λ _. pure-Meets tt _ (
                subst (λ d. Fits base len (extent d) ⊎ Overflows (extent d)) (sym (here t))
                  (elim (Bool-cases (wraps capacity)) [
                    | inl far ↦ inr (ground (arith, far))
                    | inr near ↦ inl (fresh near)
                  ]))))
            (λ _ u f. load_commit-SoundAt base len num h u small f) (λ e u x. tt)))
        (λ e t. tt)
    where
      capacity : ℕ
      capacity = nonneg (hdr_capacity h)

      -- A tail is lost only where the sum does not wrap.
      room :
          (cut_short capacity len && ltb len (nonneg (write_cursor h))) ≡ true
          → wraps capacity ≡ false
      room lost = ground (arith, lost)

      file : DataFile
      file =
          record (loaded_file h h base (clamp_write (nonneg (write_cursor h)) capacity len)
            capacity) { truncated = cut_short capacity len; written = nonneg (written_count h) }

      opened : Store → Store
      opened t = record t { heap = update t.heap num file }

      here : (t : Store) → (opened t).heap num ≡ file
      here t = update_here t.heap num file

      fresh : wraps capacity ≡ false → Fits base len (extent file)
      fresh near = record {
        at_base = refl;
        within = ground (arith, near);
        roomy = ground (arith, near);
      }

      short :
          (cut_short capacity len && ltb len (nonneg (write_cursor h))) ≡ true → file.size < 2 ^ 63
      short lost = let x = (fresh (room lost)).within in omega (arith, x)
