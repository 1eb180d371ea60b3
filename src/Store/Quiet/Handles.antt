-- ===== src/Store/Quiet/Handles.antt =====
-- What opening, evicting and flushing keep, for whatever their smallest steps keep.
use diskqueue.Base.{ℕ, zero, suc, Bool, false, Option, none, some, List, [], ◌∷◌}
use diskqueue.Store.State.{Store, Env, Error}
use diskqueue.Store.Action.{ok, err, pure, fail, modify}
use diskqueue.Store.Os.{os_touch, os_sync_dir}
use diskqueue.Store.Files.{
  change_file, latch, fail_io, lru_push_mru, lru_unlink, touch_open, flush_open, evict_victim,
  evict_loop, evict_open, track_open, ensure_open, flush_file, sync_dir, flush_all, flush_batch,
  record_ops,
}
use diskqueue.Store.Quiet.{
  Keeps, pure-Keeps, fail-Keeps, gets-Keeps, attempt-Keeps, if-Keeps, bind-Keeps, when-Keeps,
  check_io-Keeps, quiet_rules,
}

-- The steps that opening and flushing are made of leave what `p` shows alone.
pub record Handles {X : Type 0} (p : Store → X) : Type 0 where
  pub os_touch_kept : (env : Env) (num : ℕ) → Keeps p (os_touch env num)
  pub os_sync_dir_kept : (env : Env) → Keeps p (os_sync_dir env)
  pub lru_push_mru_kept : (num : ℕ) → Keeps p (lru_push_mru num)
  pub lru_unlink_kept : (num : ℕ) → Keeps p (lru_unlink num)
  pub latch_kept : (e : Error) → Keeps p (latch e)
  pub set_dirty_kept :
      (num : ℕ) (b : Bool) → Keeps p (change_file num (λ df. record df { dirty = b }))
  pub set_open_kept :
      (num : ℕ) (b : Bool) → Keeps p (change_file num (λ df. record df { is_open = b }))
  pub set_gauges_kept :
      (ops bytes epoch : Store → ℕ)
      → Keeps p (
          modify
            (λ s. record s { unsynced = ops s; unsynced_bytes = bytes s; flush_epoch = epoch s }))

module _ {X : Type 0} {p : Store → X} (q : Handles p) (env : Env) where
  pub fail_io-Keeps : {A : Type 0} (e : Error) → Keeps p (fail_io {A = A} e)
  unfolding fail_io
  fail_io-Keeps e = bind-Keeps _ _ (q.latch_kept e) (λ first. fail-Keeps first)

  pub touch_open-Keeps : (num : ℕ) → Keeps p (touch_open num)
  unfolding touch_open
  touch_open-Keeps num = search (quiet_rules, q.lru_push_mru_kept, q.lru_unlink_kept)

  pub flush_open-Keeps : (num : ℕ) → Keeps p (flush_open env num)
  unfolding flush_open
  flush_open-Keeps num = bind-Keeps _ _ check_io-Keeps (λ _.
      bind-Keeps _ _ (attempt-Keeps _ (q.os_touch_kept env num))
        (elim [ ok _ ↦ q.set_dirty_kept num false | err e ↦ fail_io-Keeps e ]))

  evict_victim-Keeps : (num : ℕ) → Keeps p (evict_victim env num)
  unfolding evict_victim
  evict_victim-Keeps num =
      search (quiet_rules, flush_open-Keeps, q.lru_unlink_kept, q.set_open_kept) depth 12

  evict_loop-Keeps : (fuel keep : ℕ) → Keeps p (evict_loop env fuel keep)
  unfolding evict_loop
  evict_loop-Keeps zero keep = pure-Keeps tt
  evict_loop-Keeps (suc fuel) keep = bind-Keeps _ _ (gets-Keeps _) (λ more.
      bind-Keeps _ _ (gets-Keeps _) (elim [
        | none ↦ if-Keeps more _ _ (pure-Keeps tt) (pure-Keeps tt)
        | some n ↦
            if-Keeps more _ _
              (bind-Keeps _ _ (evict_victim-Keeps n) (λ _. evict_loop-Keeps fuel keep))
              (pure-Keeps tt)
      ]))

  evict_open-Keeps : (keep : ℕ) → Keeps p (evict_open env keep)
  unfolding evict_open
  evict_open-Keeps keep = search (quiet_rules, evict_loop-Keeps)

  pub track_open-Keeps : (num : ℕ) → Keeps p (track_open env num)
  unfolding track_open
  track_open-Keeps num = search (quiet_rules, q.lru_push_mru_kept, evict_open-Keeps)

  pub ensure_open-Keeps : (num : ℕ) → Keeps p (ensure_open env num)
  unfolding ensure_open
  ensure_open-Keeps num =
      search (quiet_rules, touch_open-Keeps, q.os_touch_kept env, q.set_open_kept, track_open-Keeps)
        depth 8

  pub flush_file-Keeps : (num : ℕ) → Keeps p (flush_file env num)
  unfolding flush_file
  flush_file-Keeps num = search (quiet_rules, ensure_open-Keeps, flush_open-Keeps) depth 8

  pub sync_dir-Keeps : Keeps p (sync_dir env)
  unfolding sync_dir
  sync_dir-Keeps =
      bind-Keeps _ _ (attempt-Keeps _ (q.os_sync_dir_kept env))
        (elim [ ok _ ↦ pure-Keeps tt | err e ↦ if-Keeps _ _ _ (pure-Keeps tt) (fail_io-Keeps e) ])

  flush_all-Keeps : (ns : List ℕ) → Keeps p (flush_all env ns)
  unfolding flush_all
  flush_all-Keeps [] = pure-Keeps none
  flush_all-Keeps (n ∷ ns) =
      bind-Keeps _ _ (attempt-Keeps _ (flush_file-Keeps n))
        (λ r. bind-Keeps _ _ (flush_all-Keeps ns) (λ rest. pure-Keeps _))

  pub flush_batch-Keeps : Keeps p (flush_batch env)
  unfolding flush_batch
  flush_batch-Keeps = bind-Keeps _ _ (gets-Keeps _) (λ files.
      bind-Keeps _ _ (flush_all-Keeps files) (λ errs. bind-Keeps _ _ (reported errs) (λ _.
        bind-Keeps _ _ check_io-Keeps
          (λ _. bind-Keeps _ _ sync_dir-Keeps (λ _. q.set_gauges_kept _ _ _)))))
    where
      reported : (errs : Option Error) → Keeps p (elim errs [ none ↦ pure tt | some e ↦ fail e ])
      reported none = pure-Keeps tt
      reported (some e) = fail-Keeps e

  pub record_ops-Keeps : (n : ℕ) → Keeps p (record_ops env n)
  unfolding record_ops
  record_ops-Keeps n =
      bind-Keeps _ _ (q.set_gauges_kept _ _ _)
        (λ _. bind-Keeps _ _ (gets-Keeps _) (λ due. when-Keeps due _ flush_batch-Keeps))
