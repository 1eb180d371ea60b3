-- ===== src/Recovery/Probe.antt =====
-- record.go, recovery.go: a frame that is found begins and ends inside the segment.
use diskqueue.Base.{
  ℕ, ◌+◌, ◌-◌, ◌^◌, ◌≤◌, ◌<◌, ◌≡◌, refl, ◌∙◌, Option, none, some, List, arith, leb, ltb, ◌||◌,
}
use diskqueue.Frame.{uvarint, judge, cut}
use diskqueue.Frame.Bounds.{accepted}
use diskqueue.Store.State.{Store, Env}
use diskqueue.Store.Action.{M, Result, ok, err, pure}
use diskqueue.Store.Block.{frame_header_at, fetch_frame, record_at, record_len, past}
use diskqueue.Store.Quiet.{view, when-Keeps, bind-Keeps, gets-Keeps, fail-Keeps}
use diskqueue.Store.Quiet.Silent.{fill_block-Keeps}
use diskqueue.Store.Quiet.Files.{view-Silent}
use diskqueue.Store.Meets.{Meets, then-Meets, gets-Meets, bind-Meets, if-Meets, pure-Meets}
use diskqueue.Recovery.Frames.{verified, verified_end}

-- The frame header was judged from some bytes, and the store shows what it did.
abbrev Judged : Store → ℕ → Result (Option (ℕ × ℕ)) → Store → Type 0
Judged s avail (ok h) t = (view t ≡ view s) × (bytes : List ℕ) × (judge avail (uvarint bytes) ≡ h)
Judged s avail (err e) t = view t ≡ view s

-- The next frame begins nine bytes on at least, and inside the segment.
abbrev Next : ℕ → ℕ → Option ℕ → Type 0
Next off end none = Unit {0}
Next off end (some next) = (off + 9 ≤ next) × (next ≤ end)

abbrev pub Probed : Store → ℕ → ℕ → Result (Option ℕ) → Store → Type 0
Probed s off end (ok next) t = (view t ≡ view s) × Next off end next
Probed s off end (err e) t = view t ≡ view s

-- Asked inside the segment, `probe` answers a later offset inside it.
pub record Advances (num : ℕ) (probe : ℕ → M (Option ℕ)) : Type 0 where
  pub at :
      (off : ℕ) (s : Store)
      → (s.heap num).size < 2 ^ 63
      → Meets (probe off) s (Probed s off ((s.heap num).base + (s.heap num).size))

-- The frame was sliced out of some bytes, and the store shows what it did.
abbrev Sliced : Store → ℕ → ℕ → Result (Option (List ℕ × ℕ × ℕ)) → Store → Type 0
Sliced s n total (ok f) t = (view t ≡ view s) × (bytes : List ℕ) × (cut bytes (some (n, total)) ≡ f)
Sliced s n total (err e) t = view t ≡ view s

module _ (env : Env) where
  frame_header_at-Judged :
      (num off avail : ℕ) (s : Store) → Meets (frame_header_at env num off avail) s (Judged s avail)
  unfolding frame_header_at
  frame_header_at-Judged num off avail s = gets-Meets _ _ s (
      then-Meets {p = view} _ _ s
        (when-Keeps _ _ (fill_block-Keeps view-Silent env num off avail _))
        (λ _ t v. gets-Meets _ _ t (pure-Meets _ t (v, _, refl))) (λ e t v. v))

  judged_next :
      (base size off avail : ℕ) (bytes : List ℕ) (n total : ℕ)
      → size < 2 ^ 63
      → base ≤ off
      → avail + (off - base) ≡ size
      → judge avail (uvarint bytes) ≡ some (n, total)
      → (off + 9 ≤ off + total) × (off + total ≤ base + size)
  judged_next base size off avail bytes n total small inside left e =
      let b = accepted bytes avail n total _ (omega arith) refl e in omega (arith, b)

  pub record_len-Advances : (num : ℕ) → Advances num (record_len env num)
  unfolding record_len
  record_len-Advances num = record {
    at = λ off s small. gets-Meets _ _ s (
        if-Meets (ltb off (s.heap num).base || leb (s.heap num).size (off - (s.heap num).base))
          (pure none) _ s (λ _. pure-Meets none s (refl, tt))
          (λ inside.
            bind-Meets {R = Judged s ((s.heap num).size - (off - (s.heap num).base))} _ _ s
              (frame_header_at-Judged num _ _ s)
              (elim [
                | none ↦ λ t j. pure-Meets none t (j.0, tt)
                | some (n, total) ↦ λ t j. pure-Meets _ t (
                  j.0,
                  judged_next (s.heap num).base (s.heap num).size off _ j.1 n total small
                      (ground arith) (ground arith) j.2,
                )
              ])
              (λ e t j. j)));
  }

  fetch_frame-Sliced :
      (num off avail n total : ℕ) (s : Store)
      → Meets (fetch_frame env num off avail n total) s (Sliced s n total)
  unfolding fetch_frame
  fetch_frame-Sliced num off avail n total s = gets-Meets _ _ s (
      then-Meets {p = view} _ _ s
        (when-Keeps _ _ (
          bind-Keeps _ _ (fill_block-Keeps view-Silent env num off avail total)
            (λ _. bind-Keeps _ _ (gets-Keeps _) (λ has'. when-Keeps _ _ (fail-Keeps _)))))
        (λ _ t v. gets-Meets _ _ t (pure-Meets _ t (v, _, refl))) (λ e t v. v))

  -- A frame that `recordAt` found, once verified, ends where `recordLen` says.
  abbrev Found : Store → ℕ → ℕ → Result (Option (List ℕ × ℕ × ℕ)) → Store → Type 0
  Found s off end (ok f) t = (view t ≡ view s) × Next off end (verified env.sum64 f)
  Found s off end (err e) t = view t ≡ view s

  sliced-Found :
      (off end n total : ℕ) (f : Option (List ℕ × ℕ × ℕ)) (bytes : List ℕ)
      → (off + 9 ≤ off + total) × (off + total ≤ end)
      → cut bytes (some (n, total)) ≡ f
      → Next off end (verified env.sum64 (past off f))
  unfolding cut
  sliced-Found off end n total none bytes b e = tt
  sliced-Found off end n total (some (payload, sum, w)) bytes b e = ground (arith, e)

  record_at-Found :
      (num off : ℕ) (s : Store)
      → (s.heap num).size < 2 ^ 63
      → Meets (record_at env num off) s (Found s off ((s.heap num).base + (s.heap num).size))
  unfolding record_at
  record_at-Found num off s small = gets-Meets _ _ s (
      if-Meets (ltb off (s.heap num).base || leb (s.heap num).size (off - (s.heap num).base))
        (pure none) _ s (λ _. pure-Meets none s (refl, tt))
        (λ inside.
          bind-Meets {R = Judged s ((s.heap num).size - (off - (s.heap num).base))} _ _ s
            (frame_header_at-Judged num _ _ s)
            (elim [
              | none ↦ λ t j. pure-Meets none t (j.0, tt)
              | some (n, total) ↦ λ t j.
                  bind-Meets {R = Sliced t n total} _ _ t (fetch_frame-Sliced num _ _ n total t)
                    (λ f u x. pure-Meets _ u (
                      x.0 ∙ j.0,
                      sliced-Found off _ n total f x.1
                          (judged_next (s.heap num).base (s.heap num).size off _ j.1 n total small
                            (ground arith) (ground arith) j.2)
                          x.2,
                    ))
                    (λ e u x. x ∙ j.0)
            ])
            (λ e t j. j)))

  pub verified_end-Advances : (num : ℕ) → Advances num (verified_end env num)
  unfolding verified_end
  verified_end-Advances num = record {
    at = λ off s small.
        bind-Meets {R = Found s off ((s.heap num).base + (s.heap num).size)} _ _ s
          (record_at-Found num off s small) (λ f t x. pure-Meets _ t x) (λ e t x. x);
  }
