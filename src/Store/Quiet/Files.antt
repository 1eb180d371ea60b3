-- ===== src/Store/Quiet/Files.antt =====
-- Opening, flushing and header writes leave contents and cursors alone.
use diskqueue.Base.{ℕ, ◌+◌, refl, Bool, true, List, arith, not}
use diskqueue.Store.State.{Env, Error, join}
use diskqueue.Store.Action.{Result, ok, err, ◌>>=◌, fail}
use diskqueue.Store.Os.{os_call, os_touch, os_read_at, os_write_at, os_sync_dir}
use diskqueue.Header.{Modifier, header}
use diskqueue.Store.Files.{
  change_file, latch, fail_io, lru_push_mru, lru_unlink, track_open, ensure_open, flush_file,
  record_ops, sync_dir,
}
use diskqueue.Store.Segments.{modify_header, write_header, restore_header, drop_block}
use diskqueue.Store.Quiet.Handles.{
  Handles, track_open-Keeps, ensure_open-Keeps, flush_file-Keeps, sync_dir-Keeps, record_ops-Keeps,
}
use diskqueue.Store.Quiet.Silent.{Silent}
use diskqueue.Store.Quiet.{
  view, Quiet, fail-Keeps, gets-Keeps, attempt-Keeps, if-Keeps, bind-Keeps, when-Keeps,
  modify-Keeps, check_io-Keeps, change_file-Quiet, quiet_rules,
}

pub latch-Quiet : (e : Error) → Quiet (latch e)
unfolding latch
latch-Quiet e = record { at = λ s. ground arith }

lru_push_mru-Quiet : (num : ℕ) → Quiet (lru_push_mru num)
unfolding lru_push_mru
lru_push_mru-Quiet num = record { at = λ s. refl }

pub lru_unlink-Quiet : (num : ℕ) → Quiet (lru_unlink num)
unfolding lru_unlink
lru_unlink-Quiet num = record { at = λ s. refl }

pub drop_block-Quiet : Quiet drop_block
unfolding drop_block
drop_block-Quiet = record { at = λ s. refl }

pub set_dirty-Quiet : (num : ℕ) (b : Bool) → Quiet (change_file num (λ df. record df { dirty = b }))
set_dirty-Quiet num b = change_file-Quiet num (λ df. record df { dirty = b }) (λ df. refl)

set_open-Quiet : (num : ℕ) (b : Bool) → Quiet (change_file num (λ df. record df { is_open = b }))
set_open-Quiet num b = change_file-Quiet num (λ df. record df { is_open = b }) (λ df. refl)

pub mark_written-Quiet :
    (num : ℕ)
    → Quiet (change_file num (λ df. record df { dirty = true; write_seq = df.write_seq + 1 }))
mark_written-Quiet num =
    change_file-Quiet num (λ df. record df { dirty = true; write_seq = df.write_seq + 1 })
      (λ df. refl)

set_disk_header-Quiet :
    (num : ℕ) (h : List ℕ)
    → Quiet (
        change_file num
          (λ df. record df { disk_header = h; dirty = true; write_seq = df.write_seq + 1 }))
set_disk_header-Quiet num h =
    change_file-Quiet num
      (λ df. record df { disk_header = h; dirty = true; write_seq = df.write_seq + 1 }) (λ df. refl)

module _ (env : Env) where
  os_call-Quiet : Quiet (os_call env)
  unfolding os_call
  os_call-Quiet = record { at = λ s. refl }

  pub os_touch-Quiet : (num : ℕ) → Quiet (os_touch env num)
  unfolding os_touch os_call ◌>>=◌
  os_touch-Quiet num = record { at = λ s. ground arith }

  pub os_read_at-Quiet : (num off n : ℕ) → Quiet (os_read_at env num off n)
  unfolding os_read_at os_call ◌>>=◌
  os_read_at-Quiet num off n = record { at = λ s. ground arith }

  pub os_write_at-Quiet : (num off : ℕ) (bs : List ℕ) → Quiet (os_write_at env num off bs)
  unfolding os_write_at os_call ◌>>=◌
  os_write_at-Quiet num off bs = record { at = λ s. ground arith }

  os_sync_dir-Quiet : Quiet (os_sync_dir env)
  unfolding os_sync_dir os_call ◌>>=◌
  os_sync_dir-Quiet = record { at = λ s. ground arith }

-- Opening, flushing and reading leave contents and cursors alone.
pub view-Handles : Handles view
view-Handles = record {
  os_touch_kept = os_touch-Quiet;
  os_sync_dir_kept = os_sync_dir-Quiet;
  lru_push_mru_kept = lru_push_mru-Quiet;
  lru_unlink_kept = lru_unlink-Quiet;
  latch_kept = latch-Quiet;
  set_dirty_kept = set_dirty-Quiet;
  set_open_kept = set_open-Quiet;
  set_gauges_kept = λ ops bytes epoch. modify-Keeps _ (λ s. refl);
}

pub view-Silent : Silent view
view-Silent = record {
  os_read_at_kept = os_read_at-Quiet;
  drop_block_kept = drop_block-Quiet;
  set_block_kept = λ f. modify-Keeps _ (λ s. refl);
}

pub fail_io-Quiet : {A : Type 0} (e : Error) → Quiet (fail_io {A = A} e)
unfolding fail_io
fail_io-Quiet e = bind-Keeps _ _ (latch-Quiet e) (λ first. fail-Keeps first)

module _ (env : Env) where
  pub track_open-Quiet : (num : ℕ) → Quiet (track_open env num)
  track_open-Quiet num = track_open-Keeps view-Handles env num

  pub ensure_open-Quiet : (num : ℕ) → Quiet (ensure_open env num)
  ensure_open-Quiet num = ensure_open-Keeps view-Handles env num

  pub flush_file-Quiet : (num : ℕ) → Quiet (flush_file env num)
  flush_file-Quiet num = flush_file-Keeps view-Handles env num

  pub sync_dir-Quiet : Quiet (sync_dir env)
  sync_dir-Quiet = sync_dir-Keeps view-Handles env

  pub record_ops-Quiet : (n : ℕ) → Quiet (record_ops env n)
  record_ops-Quiet n = record_ops-Keeps view-Handles env n

  pub modify_header-Quiet : (num : ℕ) (ms : List Modifier) → Quiet (modify_header env num ms)
  unfolding modify_header
  modify_header-Quiet num ms =
      change_file-Quiet num (λ df. record df { hdr = header env.sum64 ms df.hdr }) (λ df. refl)

  restore_header-Quiet : (num : ℕ) → Quiet (restore_header env num)
  unfolding restore_header
  restore_header-Quiet num =
      search
        (
          quiet_rules,
          os_read_at-Quiet env,
          os_write_at-Quiet env,
          os_touch-Quiet env,
          mark_written-Quiet,
        )
        depth 10

  repaired-Quiet :
      (e : Error) (r : Result (Unit {0}))
      → Quiet {A = Unit {0}}
          (elim r [ ok _ ↦ fail e | err re ↦ (do latched ← latch re; fail (join e latched)) ])
  repaired-Quiet e (ok _) = fail-Keeps e
  repaired-Quiet e (err re) =
      bind-Keeps _ _ (latch-Quiet re) (λ latched. fail-Keeps (join e latched))

  pub write_header-Quiet : (num : ℕ) → Quiet (write_header env num)
  unfolding write_header
  write_header-Quiet num = bind-Keeps _ _ (gets-Keeps _) (λ is_open.
      bind-Keeps _ _ (when-Keeps (not is_open) _ (ensure_open-Quiet num)) (λ _.
        bind-Keeps _ _ check_io-Keeps (λ _. bind-Keeps _ _ (gets-Keeps _) (λ hdr.
          bind-Keeps _ _ (attempt-Keeps _ (os_write_at-Quiet env num 0 hdr)) (elim [
            | ok _ ↦
                bind-Keeps _ _ (set_disk_header-Quiet num hdr) (λ _. modify-Keeps _ (λ s. refl))
            | err e ↦
                if-Keeps _ _ _ (fail-Keeps e)
                  (bind-Keeps _ _ (attempt-Keeps _ (restore_header-Quiet num)) (repaired-Quiet e))
          ])))))
