-- ===== src/Recovery/Bounds.antt =====
-- recovery.go: where a segment that `loadFile` keeps lies in its file.
use Prim.Native.Nat.{max}
use diskqueue.Base.{
  subst, ℕ, ◌-◌, ◌^◌, ◌≤◌, ◌<◌, ◌≡◌, refl, sym, ap, ◌∙◌, Bool, true, Option, none, some, List,
  arith, replicate, ◌⊎◌, inl,
}
use diskqueue.Frame.{header_size}
use diskqueue.Store.State.{update, Store, DataFile, Env}
use diskqueue.Store.Action.{M, Result, ok, err}
use diskqueue.Store.Quiet.{view, Extent, extent, update_here, change_file-Quiet}
use diskqueue.Store.Quiet.Disk.{file_len, Sized, os_stat-Sized}
use diskqueue.Store.Quiet.Files.{drop_block-Quiet, modify_header-Quiet}
use diskqueue.Store.Meets.{
  Meets, then-Meets, attempt-Meets, gets-Meets, modify-Meets, bind-Meets, either-Meets, fail-Meets,
  pure-Meets, weaken-Meets, loose-Meets,
}
use diskqueue.Recovery.Walk.{Counted, count_verified-Counted}
use diskqueue.Recovery.Segment.{
  Verdict, bad_magic, torn, unknown, foreign, trusted, loaded_file, salvage_walked, salvage_or_fail,
  salvage_torn_header, dropped, kept, load_unmarked, load_judged, load_read, load_file,
}
use diskqueue.Recovery.Trusted.{
  Sound, Overflows, SoundAt, Walked, Counted-view, recount, load_trusted-SoundAt,
}

-- Where the segment is kept.
abbrev pub Kept : ℕ → ℕ → ℕ → Result (Option ℕ) → Store → Type 0
Kept base len num (ok none) t = Unit {0}
Kept base len num (ok (some cc)) t =
    Sound base len (extent (t.heap num)) cc ⊎ Overflows (extent (t.heap num))
Kept base len num (err e) t = Unit {0}

module _ (env : Env) where
  -- As `Fits`, without a capacity and with nothing committed.
  record Rough (base len : ℕ) (x : Extent) : Type 0 where
    at_base : x.base ≡ base
    within : x.size ≤ len - header_size
    none_committed : x.committed ≡ 0

  salvage_walked-SoundAt :
      (base len num n end : ℕ) (s : Store)
      → Rough base len (extent (s.heap num))
      → Counted (view s) num (ok (n, end)) s
      → Meets (salvage_walked env num len n end) s (SoundAt base len num)
  unfolding salvage_walked
  salvage_walked-SoundAt base len num n end s f c = modify-Meets _ _ s (
      then-Meets {p = view} _ _ _ drop_block-Quiet
        (λ _ t v. gets-Meets _ _ t (
          modify-Meets _ _ t (
            gets-Meets _ _ _ (
              then-Meets {p = view} _ _ _ (modify_header-Quiet env num _)
                (λ _ u w.
                  then-Meets {p = view} _ _ u
                    (change_file-Quiet num
                      (λ df. record df { truncated = true; reset_commit = true }) (λ df. refl))
                    (λ _ x w'.
                      then-Meets {p = λ s. extent (s.heap num)} _ _ x (record { at = λ s. refl })
                        (λ _ y w''. pure-Meets header_size y (
                          inl (
                            subst (λ e. Sound base len e header_size)
                              (sym (w'' ∙ ap (λ z. z.extents num) (w' ∙ w)))
                              (subst (λ d. Sound base len (extent d) header_size)
                                (sym (
                                  update_here t.heap num (record (t.heap num) {
                                    capacity = max (len - header_size) t.segment_size;
                                  })))
                                (salvaged (t.heap num) t.segment_size (
                                  subst (Rough base len) (sym (ap (λ z. z.extents num) v))
                                    first))))))
                        (λ e y _. tt))
                    (λ e x _. tt))
                (λ e u _. tt)))))
        (λ e t _. tt))
    where
      first : Rough base len (
          extent (
            update s.heap num
              (record (s.heap num) { size = end - (s.heap num).base; written = n })
              num))
      first =
          subst (λ d. Rough base len (extent d))
            (sym (
              update_here s.heap num
                (record (s.heap num) { size = end - (s.heap num).base; written = n })))
            (record {
              at_base = f.at_base;
              within = let h = f.within in omega (arith, c);
              none_committed = f.none_committed;
            })

      salvaged :
          (d : DataFile) (segment_size : ℕ)
          → Rough base len (extent d)
          → Sound base len
              (extent (record d { capacity = max (len - header_size) segment_size }))
              header_size
      salvaged d segment_size r = record {
        at_base = r.at_base;
        within = r.within;
        roomy = let h = r.within in omega arith;
        counted = let h = r.none_committed in omega arith;
        cursor_low = omega arith;
        cursor_high = omega arith;
      }

  salvage_or_fail-SoundAt :
      (base len num : ℕ) (r : Result (ℕ × ℕ)) (s : Store)
      → Rough base len (extent (s.heap num))
      → Counted (view s) num r s
      → Meets (salvage_or_fail env num len r) s (SoundAt base len num)
  unfolding salvage_or_fail
  salvage_or_fail-SoundAt base len num (ok (n, end)) s f c =
      salvage_walked-SoundAt base len num n end s f c
  salvage_or_fail-SoundAt base len num (err e) s f c =
      loose-Meets _ _ s (λ _ t. fail-Meets e t tt) (λ e' t. tt)

  salvage_torn_header-SoundAt :
      (base len num : ℕ) (s : Store)
      → len < 2 ^ 63
      → Meets (salvage_torn_header env num base len) s (SoundAt base len num)
  unfolding salvage_torn_header
  salvage_torn_header-SoundAt base len num s small = modify-Meets _ _ s (
      bind-Meets {R = Walked (view opened) num} _ _ _
        (attempt-Meets _ _ (
          weaken-Meets _ _
            (count_verified-Counted env num opened
              (subst (λ d. d.size < 2 ^ 63) (sym here) (omega arith)))
            (λ r u c. c)))
        (λ r u c.
          salvage_or_fail-SoundAt base len num r u
            (subst (λ w. Rough base len (w.extents num)) (sym (Counted-view _ num r u c))
              (subst (λ d. Rough base len (extent d)) (sym here)
                (record { at_base = refl; within = omega arith; none_committed = refl })))
            (recount _ num r u c))
        (λ e u x. absurd x))
    where
      file : DataFile
      file =
          loaded_file (replicate header_size 0) (replicate header_size 0) base (len - header_size) 0

      opened : Store
      opened = record s { heap = update s.heap num file }

      here : opened.heap num ≡ file
      here = update_here s.heap num file

  dropped-Kept :
      (base len num : ℕ) (m : M (Unit {0})) (s : Store)
      → Meets (dropped env m) s (Kept base len num)
  unfolding dropped
  dropped-Kept base len num m s = loose-Meets _ _ s (λ _ t. pure-Meets none t tt) (λ e t. tt)

  kept-Kept :
      (base len num : ℕ) (m : M ℕ) (s : Store)
      → Meets m s (SoundAt base len num)
      → Meets (kept env m) s (Kept base len num)
  unfolding kept
  kept-Kept base len num m s h =
      bind-Meets {R = SoundAt base len num} _ _ s h (λ cc t x. pure-Meets _ t x) (λ e t x. tt)

  load_judged-Kept :
      (base len num : ℕ) (tail : Bool) (h : List ℕ) (v : Verdict) (s : Store)
      → len < 2 ^ 63
      → Meets (load_judged env num base len tail h v) s (Kept base len num)
  unfolding load_judged load_unmarked
  load_judged-Kept base len num tail h bad_magic s small =
      loose-Meets _ _ s (λ b t. dropped-Kept base len num _ t) (λ e t. tt)
  load_judged-Kept base len num tail h torn s small = kept-Kept base len num _ s (
      bind-Meets {R = SoundAt base len num} _ _ s (salvage_torn_header-SoundAt base len num s small)
        (λ cc t x.
          then-Meets {p = view} _ _ t
            (change_file-Quiet num (λ df. record df { disk_header = h }) (λ df. refl))
            (λ _ u v. pure-Meets cc u (
              subst (λ w. Sound base len (w.extents num) cc ⊎ Overflows (w.extents num)) (sym v) x))
            (λ e u _. tt))
        (λ e t x. tt))
  load_judged-Kept base len num tail h unknown s small = dropped-Kept base len num _ s
  load_judged-Kept base len num tail h foreign s small = dropped-Kept base len num _ s
  load_judged-Kept base len num tail h trusted s small = gets-Meets _ _ s (
      either-Meets _ _ _ s
        (kept-Kept base len num _ s (load_trusted-SoundAt env base len num h s small))
        (fail-Meets _ s tt))

  load_read-Kept :
      (base len num : ℕ) (tail : Bool) (r : Result (List ℕ)) (s : Store)
      → len < 2 ^ 63
      → Meets (load_read env num base len tail r) s (Kept base len num)
  unfolding load_read
  load_read-Kept base len num tail (err e) s small =
      either-Meets _ _ _ s (dropped-Kept base len num _ s) (fail-Meets e s tt)
  load_read-Kept base len num tail (ok h) s small = load_judged-Kept base len num tail h _ s small

  pub load_file-Kept :
      (num base : ℕ) (tail : Bool) (s : Store)
      → file_len s num < 2 ^ 63
      → Meets (load_file env num base tail) s (Kept base (file_len s num) num)
  unfolding load_file
  load_file-Kept num base tail s small =
      bind-Meets {R = Sized s num} _ _ s (os_stat-Sized env num s)
        (λ len t e. either-Meets _ _ _ t (dropped-Kept base _ num _ t) (
          loose-Meets _ _ t
            (λ r u.
              subst (λ n. Meets (load_read env num base len tail r) u (Kept base n num)) e.1
                (load_read-Kept base len num tail r u (subst (λ n. n < 2 ^ 63) (sym e.1) small)))
            (λ e' u. tt)))
        (λ e t x. tt)

-- A segment that `loadFile` keeps lies inside its file, whatever is in its header and in its bytes,
-- and whatever the file system answers: it starts at the base it was given, its records end within
-- the file and its capacity, its commit cursor is within its records, and no more records are committed
-- than written. Or it has a header with a capacity that `headerSize+capacity` overflows an int64 with.
-- The file is below 2^63 bytes.
pub load_file_bounds :
    (env : Env) (num base : ℕ) (tail : Bool) (s : Store)
    → file_len s num < 2 ^ 63
    → Kept base
        (file_len s num)
        num
        (load_file env num base tail s).0
        (load_file env num base tail s).1
load_file_bounds env num base tail s small = (load_file-Kept env num base tail s small).at
