-- ===== src/Store/Quiet/Segments.antt =====
-- Creating, cycling and reclaiming segments leave the cursors and the ledger alone.
use diskqueue.Base.{ℕ, ◌≡◌, refl, Bool, true, false, Option, none, List, [], ◌∷◌, arith}
use diskqueue.Store.State.{Store, DataFile, Env}
use diskqueue.Store.Action.{ok, err, ◌>>=◌}
use diskqueue.Store.Os.{os_call, os_create, os_preallocate, os_remove}
use diskqueue.Store.Segments.{
  prepare_file, create_file, drop_file, book_removal, removed, drop_prefix, drop_committed, cycle,
}
use diskqueue.Store.Quiet.{
  Keeps, cursors, Quiet-cursors, pure-Keeps, fail-Keeps, gets-Keeps, attempt-Keeps, if-Keeps,
  bind-Keeps, when-Keeps, modify-Keeps, check_io-Keeps,
}
use diskqueue.Store.Quiet.Files.{
  drop_block-Quiet, os_touch-Quiet, modify_header-Quiet, write_header-Quiet, lru_unlink-Quiet,
  track_open-Quiet, sync_dir-Quiet,
}

book_removal-Keeps : (df : DataFile) (b : Bool) → Keeps cursors (book_removal df b)
unfolding book_removal
book_removal-Keeps df false = bind-Keeps _ _ (modify-Keeps _ (λ s. refl)) (λ _. pure-Keeps true)
book_removal-Keeps df true = bind-Keeps _ _ (modify-Keeps _ (λ s. refl)) (λ _. pure-Keeps false)

module _ (env : Env) where
  os_create-Keeps : (num : ℕ) → Keeps cursors (os_create env num)
  unfolding os_create os_call ◌>>=◌
  os_create-Keeps num = record { at = λ s. ground arith }

  os_preallocate-Keeps : (num n : ℕ) → Keeps cursors (os_preallocate env num n)
  unfolding os_preallocate os_call ◌>>=◌
  os_preallocate-Keeps num n = record { at = λ s. ground arith }

  os_remove-Keeps : (num : ℕ) → Keeps cursors (os_remove env num)
  unfolding os_remove os_call ◌>>=◌
  os_remove-Keeps num = record { at = λ s. ground arith }

  prepare_file-Keeps : (num base capacity : ℕ) → Keeps cursors (prepare_file env num base capacity)
  unfolding prepare_file
  prepare_file-Keeps num base capacity = bind-Keeps _ _ (os_preallocate-Keeps num _) (λ _.
      bind-Keeps _ _ (modify-Keeps _ (λ s. refl)) (λ _.
        bind-Keeps _ _ (gets-Keeps _) (λ segment_size.
          bind-Keeps _ _ (Quiet-cursors _ (modify_header-Quiet env num _)) (λ _.
            bind-Keeps _ _ (Quiet-cursors _ (write_header-Quiet env num)) (λ _.
              bind-Keeps _ _ (gets-Keeps _) (λ no_sync. when-Keeps _ _ (
                bind-Keeps _ _ (Quiet-cursors _ (os_touch-Quiet env num))
                  (λ _. modify-Keeps _ (λ s. refl)))))))))

  create_file-Keeps : (num base capacity : ℕ) → Keeps cursors (create_file env num base capacity)
  unfolding create_file
  create_file-Keeps num base capacity = if-Keeps _ _ _ (fail-Keeps _) (
      bind-Keeps _ _ (os_create-Keeps num) (λ _.
        bind-Keeps _ _ (attempt-Keeps _ (prepare_file-Keeps num base capacity)) (elim [
          | ok _ ↦ pure-Keeps tt
          | err e ↦ bind-Keeps _ _ (attempt-Keeps _ (os_remove-Keeps num)) (λ _. fail-Keeps e)
        ])))

  drop_file-Keeps : (num : ℕ) → Keeps cursors (drop_file env num)
  unfolding drop_file
  drop_file-Keeps num = bind-Keeps _ _ (gets-Keeps _) (λ df. if-Keeps _ _ _ (pure-Keeps true) (
      bind-Keeps _ _
        (when-Keeps _ _ (
          bind-Keeps _ _ (modify-Keeps _ (λ s. refl))
            (λ _. Quiet-cursors _ (lru_unlink-Quiet num))))
        (λ _.
          bind-Keeps _ _ (attempt-Keeps _ (os_remove-Keeps num))
            (λ r. book_removal-Keeps df (removed r)))))

  drop_prefix-Keeps : (keep : Option ℕ) (ns : List ℕ) → Keeps cursors (drop_prefix env keep ns)
  unfolding drop_prefix
  drop_prefix-Keeps keep [] = pure-Keeps []
  drop_prefix-Keeps keep (n ∷ ns) = bind-Keeps _ _ (gets-Keeps _) (λ stop.
      if-Keeps stop _ _ (pure-Keeps _) (
        bind-Keeps _ _ (drop_file-Keeps n)
          (λ survives. bind-Keeps _ _ (drop_prefix-Keeps keep ns) (λ rest. pure-Keeps _))))

  pub drop_committed-Keeps : (keep : Option ℕ) → Keeps cursors (drop_committed env keep)
  unfolding drop_committed
  drop_committed-Keeps keep = bind-Keeps _ _ (gets-Keeps _) (elim [
    | [] ↦ pure-Keeps tt
    | n ∷ ns ↦ bind-Keeps _ _ (gets-Keeps _) (λ stop. if-Keeps stop _ _ (pure-Keeps tt) (
        bind-Keeps _ _ (modify-Keeps _ (λ s. refl)) (λ _.
          bind-Keeps _ _ (Quiet-cursors _ drop_block-Quiet) (λ _.
            bind-Keeps _ _ (drop_prefix-Keeps keep (n ∷ ns))
              (λ survivors. modify-Keeps _ (λ s. refl))))))
  ])

  pub cycle-Keeps : (need : ℕ) (force : Bool) → Keeps cursors (cycle env need force)
  unfolding cycle
  cycle-Keeps need force = bind-Keeps _ _ (drop_committed-Keeps none) (λ _.
      bind-Keeps _ _ (gets-Keeps _) (λ s. bind-Keeps _ _ (when-Keeps _ _ (fail-Keeps _)) (λ _.
        bind-Keeps _ _ (create_file-Keeps _ _ _) (λ _.
          bind-Keeps _ _ (modify-Keeps _ (λ s. refl)) (λ _.
            bind-Keeps _ _ (Quiet-cursors _ (track_open-Quiet env _)) (λ _.
              bind-Keeps _ _ check_io-Keeps
                (λ _. when-Keeps _ _ (Quiet-cursors _ (sync_dir-Quiet env)))))))))

  -- Cycling to a fresh segment moves no cursor: reclaiming drained segments and creating the new one
  -- leave the write, read and commit cursors, the ledger, the staged bytes and the lifetime counts
  -- alone, whether the cycle succeeds or fails.
  pub cursors-cycle :
      (need : ℕ) (force : Bool) (s : Store) → cursors (cycle env need force s).1 ≡ cursors s
  cursors-cycle need force s = (cycle-Keeps need force).at s
