-- ===== src/Recovery/Silence.antt =====
-- recovery.go: what recovery does to a segment that it keeps changes no byte on disk.
use diskqueue.Base.{ℕ, zero, suc, ◌+◌, arith, refl, Bool, true, false, Option, none, some, List}
use diskqueue.Store.State.{Env}
use diskqueue.Store.Action.{M, Result, ok, err, ◌>>=◌}
use diskqueue.Store.Os.{os_read_some, os_call}
use diskqueue.Header.{Modifier}
use diskqueue.Store.Segments.{modify_header}
use diskqueue.Store.Quiet.{
  Keeps, pure-Keeps, fail-Keeps, gets-Keeps, attempt-Keeps, if-Keeps, bind-Keeps, when-Keeps,
  modify-Keeps,
}
use diskqueue.Store.Quiet.Silent.{record_at-Keeps, record_len-Keeps}
use diskqueue.Store.Quiet.Handles.{ensure_open-Keeps}
use diskqueue.Store.Quiet.Disk.{
  on_disk, disk-Silent, disk-Handles, os_touch-disk, drop_block-disk, lru_unlink-disk,
}
use diskqueue.Recovery.Frames.{
  verdict, step_walk, walk_frames, walked, verified_end, walk_segment, survive_count,
  count_verified,
}
use diskqueue.Recovery.Drop.{book_drop, zero_rounds, aborted_create}
use diskqueue.Recovery.Segment.{
  close_walked, salvage_walked, salvage_or_fail, salvage_torn_header, clamp_frames, load_commit,
  load_trusted,
}

step_walk-disk :
    (n off : ℕ) (go : ℕ → M (Option (ℕ × ℕ))) (v : Result (Option ℕ))
    → ((next : ℕ) → Keeps on_disk (go next))
    → Keeps on_disk (step_walk n off go v)
unfolding step_walk
step_walk-disk n off go (err e) k = fail-Keeps e
step_walk-disk n off go (ok none) k = pure-Keeps _
step_walk-disk n off go (ok (some next)) k = k next

walk_frames-disk :
    (probe : ℕ → M (Option ℕ)) (fuel num n off : ℕ)
    → ((at : ℕ) → Keeps on_disk (probe at))
    → Keeps on_disk (walk_frames probe fuel num n off)
unfolding walk_frames
walk_frames-disk probe zero num n off k = pure-Keeps none
walk_frames-disk probe (suc fuel) num n off k = bind-Keeps _ _ (gets-Keeps _) (λ df.
    if-Keeps _ _ _ (pure-Keeps _) (
      bind-Keeps _ _ (attempt-Keeps _ (k off)) (λ r.
        step_walk-disk n off _ (verdict r)
          (λ next. walk_frames-disk probe fuel num (n + 1) next k))))

walked-disk : (r : Option (ℕ × ℕ)) → Keeps on_disk (walked r)
walked-disk none = fail-Keeps _
walked-disk (some x) = pure-Keeps x

pub book_drop-disk : (payload : ℕ) (alien : Bool) → Keeps on_disk (book_drop payload alien)
unfolding book_drop
book_drop-disk payload true = modify-Keeps _ (λ s. refl)
book_drop-disk payload false =
    bind-Keeps _ _ (modify-Keeps _ (λ s. refl)) (λ _. modify-Keeps _ (λ s. refl))

module _ (env : Env) where
  walk_segment-disk :
      (probe : ℕ → M (Option ℕ)) (num : ℕ)
      → ((at : ℕ) → Keeps on_disk (probe at))
      → Keeps on_disk (walk_segment env probe num)
  unfolding walk_segment
  walk_segment-disk probe num k = bind-Keeps _ _ (ensure_open-Keeps disk-Handles env num) (λ _.
      bind-Keeps _ _ (gets-Keeps _)
        (λ df. bind-Keeps _ _ (walk_frames-disk probe _ num 0 _ k) (λ r. walked-disk r)))

  survive_count-disk : (num : ℕ) → Keeps on_disk (survive_count env num)
  unfolding survive_count
  survive_count-disk num = walk_segment-disk _ num (record_len-Keeps disk-Silent env num)

  count_verified-disk : (num : ℕ) → Keeps on_disk (count_verified env num)
  unfolding count_verified verified_end
  count_verified-disk num =
      walk_segment-disk _ num
        (λ at. bind-Keeps _ _ (record_at-Keeps disk-Silent env num at) (λ r. pure-Keeps _))

  close_walked-disk : (num : ℕ) → Keeps on_disk (close_walked env num)
  unfolding close_walked
  close_walked-disk num = bind-Keeps _ _ (gets-Keeps _) (λ df.
      when-Keeps _ _ (bind-Keeps _ _ (modify-Keeps _ (λ s. refl)) (λ _. lru_unlink-disk num)))

  modify_header-disk : (num : ℕ) (ms : List Modifier) → Keeps on_disk (modify_header env num ms)
  unfolding modify_header
  modify_header-disk num ms = modify-Keeps _ (λ s. refl)

  salvage_walked-disk : (num size n end : ℕ) → Keeps on_disk (salvage_walked env num size n end)
  unfolding salvage_walked
  salvage_walked-disk num size n end = bind-Keeps _ _ (modify-Keeps _ (λ s. refl)) (λ _.
      bind-Keeps _ _ drop_block-disk (λ _. bind-Keeps _ _ (gets-Keeps _) (λ segment_size.
        bind-Keeps _ _ (modify-Keeps _ (λ s. refl)) (λ _. bind-Keeps _ _ (gets-Keeps _) (λ df.
          bind-Keeps _ _ (modify_header-disk num _) (λ _.
            bind-Keeps _ _ (modify-Keeps _ (λ s. refl))
              (λ _. bind-Keeps _ _ (modify-Keeps _ (λ s. refl)) (λ _. pure-Keeps _))))))))

  salvage_or_fail-disk :
      (num size : ℕ) (r : Result (ℕ × ℕ)) → Keeps on_disk (salvage_or_fail env num size r)
  unfolding salvage_or_fail
  salvage_or_fail-disk num size (ok (n, end)) = salvage_walked-disk num size n end
  salvage_or_fail-disk num size (err e) = bind-Keeps _ _ (close_walked-disk num) (λ _. fail-Keeps e)

  pub salvage_torn_header-disk :
      (num base size : ℕ) → Keeps on_disk (salvage_torn_header env num base size)
  unfolding salvage_torn_header
  salvage_torn_header-disk num base size = bind-Keeps _ _ (modify-Keeps _ (λ s. refl)) (λ _.
      bind-Keeps _ _ (attempt-Keeps _ (count_verified-disk num))
        (λ r. salvage_or_fail-disk num size r))

  clamp_frames-disk : (num : ℕ) (r : Result (ℕ × ℕ)) → Keeps on_disk (clamp_frames env num r)
  unfolding clamp_frames
  clamp_frames-disk num (err e) =
      bind-Keeps _ _ (close_walked-disk num)
        (λ _. bind-Keeps _ _ drop_block-disk (λ _. fail-Keeps e))
  clamp_frames-disk num (ok (n, end)) = bind-Keeps _ _ (gets-Keeps _) (λ df.
      bind-Keeps _ _ (modify-Keeps _ (λ s. refl)) (λ _.
        bind-Keeps _ _ (modify-Keeps _ (λ s. refl)) (λ _.
          when-Keeps _ _ (bind-Keeps _ _ (modify-Keeps _ (λ s. refl)) (λ _. drop_block-disk)))))

  pub load_trusted-disk :
      (num base size : ℕ) (h : List ℕ) → Keeps on_disk (load_trusted env num base size h)
  unfolding load_trusted load_commit
  load_trusted-disk num base size h =
      bind-Keeps _ _
        (when-Keeps _ _
          (bind-Keeps _ _ (modify-Keeps _ (λ s. refl)) (λ _. modify-Keeps _ (λ s. refl))))
        (λ _. bind-Keeps _ _ (modify-Keeps _ (λ s. refl)) (λ _.
          bind-Keeps _ _
            (when-Keeps _ _ (
              bind-Keeps _ _ (attempt-Keeps _ (survive_count-disk num))
                (λ r. clamp_frames-disk num r)))
            (λ _.
              bind-Keeps _ _ (modify-Keeps _ (λ s. refl))
                (λ _. bind-Keeps _ _ (gets-Keeps _) (λ df. pure-Keeps _)))))

  os_read_some-disk : (num off n : ℕ) → Keeps on_disk (os_read_some env num off n)
  unfolding os_read_some os_call ◌>>=◌
  os_read_some-disk num off n = record { at = λ s. ground arith }

  zero_rounds-disk : (rounds num off size : ℕ) → Keeps on_disk (zero_rounds env rounds num off size)
  unfolding zero_rounds
  zero_rounds-disk zero num off size = pure-Keeps true
  zero_rounds-disk (suc rounds) num off size = bind-Keeps _ _ (os_read_some-disk num off _) (λ bs.
      if-Keeps _ _ _ (pure-Keeps false)
        (if-Keeps _ _ _ (pure-Keeps true) (zero_rounds-disk rounds num _ size)))

  pub aborted_create-disk :
      (num size : ℕ) (h : List ℕ) → Keeps on_disk (aborted_create env num size h)
  unfolding aborted_create
  aborted_create-disk num size h =
      if-Keeps _ _ _ (pure-Keeps false)
        (bind-Keeps _ _ (os_touch-disk env num) (λ _. zero_rounds-disk _ num _ size))
