-- ===== src/Store/Quiet/Disk.antt =====
-- Opening, evicting, flushing and reading change no byte on disk.
use diskqueue.Base.{length, ◌≡◌, sym, ap, ◌∙◌, ℕ, arith, refl, List, Option, none, some}
use diskqueue.Store.State.{Store, Env, Error, done, fails, sentinel, not_exist}
use diskqueue.Store.Action.{Result, ok, err, ◌>>=◌}
use diskqueue.Store.Os.{os_touch, os_read_at, os_call, os_sync_dir, os_stat, file_bytes}
use diskqueue.Store.Files.{latch, lru_push_mru, lru_unlink, sync_dir}
use diskqueue.Store.Segments.{drop_block}
use diskqueue.Store.Quiet.{Keeps, modify-Keeps}
use diskqueue.Store.Meets.{Meets, then-Meets, bind-Meets, pure-Meets, fail-Meets}
use diskqueue.Store.Quiet.Handles.{Handles, sync_dir-Keeps}
use diskqueue.Store.Quiet.Silent.{Silent}

abbrev pub on_disk : Store → ℕ → Option (List ℕ)
on_disk s = s.disk

pub os_touch-disk : (env : Env) (num : ℕ) → Keeps on_disk (os_touch env num)
unfolding os_touch os_call ◌>>=◌
os_touch-disk env num = record { at = λ s. ground arith }

os_read_at-disk : (env : Env) (num off n : ℕ) → Keeps on_disk (os_read_at env num off n)
unfolding os_read_at os_call ◌>>=◌
os_read_at-disk env num off n = record { at = λ s. ground arith }

os_sync_dir-disk : (env : Env) → Keeps on_disk (os_sync_dir env)
unfolding os_sync_dir os_call ◌>>=◌
os_sync_dir-disk env = record { at = λ s. ground arith }

latch-disk : (e : Error) → Keeps on_disk (latch e)
unfolding latch
latch-disk e = record { at = λ s. ground arith }

lru_push_mru-disk : (num : ℕ) → Keeps on_disk (lru_push_mru num)
unfolding lru_push_mru
lru_push_mru-disk num = record { at = λ s. refl }

pub lru_unlink-disk : (num : ℕ) → Keeps on_disk (lru_unlink num)
unfolding lru_unlink
lru_unlink-disk num = record { at = λ s. refl }

pub drop_block-disk : Keeps on_disk drop_block
unfolding drop_block
drop_block-disk = record { at = λ s. refl }

pub disk-Handles : Handles on_disk
disk-Handles = record {
  os_touch_kept = os_touch-disk;
  os_sync_dir_kept = os_sync_dir-disk;
  lru_push_mru_kept = lru_push_mru-disk;
  lru_unlink_kept = lru_unlink-disk;
  latch_kept = latch-disk;
  set_dirty_kept = λ num b. modify-Keeps _ (λ s. refl);
  set_open_kept = λ num b. modify-Keeps _ (λ s. refl);
  set_gauges_kept = λ ops bytes epoch. modify-Keeps _ (λ s. refl);
}

pub disk-Silent : Silent on_disk
disk-Silent = record {
  os_read_at_kept = os_read_at-disk;
  drop_block_kept = drop_block-disk;
  set_block_kept = λ f. modify-Keeps _ (λ s. refl);
}

pub sync_dir-disk : (env : Env) → Keeps on_disk (sync_dir env)
sync_dir-disk env = sync_dir-Keeps disk-Handles env

-- The length of a file, 0 where there is none.
abbrev pub file_len : Store → ℕ → ℕ
file_len s num = elim (s.disk num) [ none ↦ 0 | some h ↦ length h ]

-- A file was there.
abbrev pub Present : Store → ℕ → Result (List ℕ) → Store → Type 0
Present s num (ok h) t = (on_disk t ≡ on_disk s) × (s.disk num ≡ some h)
Present s num (err e) t = on_disk t ≡ on_disk s

-- Its length was answered.
abbrev pub Sized : Store → ℕ → Result ℕ → Store → Type 0
Sized s num (ok len) t = (on_disk t ≡ on_disk s) × (len ≡ file_len s num)
Sized s num (err e) t = on_disk t ≡ on_disk s

pub present-file_len :
    (s : Store) (num : ℕ) (h : List ℕ) → s.disk num ≡ some h → length h ≡ file_len s num
present-file_len s num h e =
    sym (ap (λ (o : Option (List ℕ)). elim o [ none ↦ 0 | some h ↦ length h ]) e)

module _ (env : Env) where
  pub os_call-disk : Keeps on_disk (os_call env)
  unfolding os_call
  os_call-disk = record { at = λ s. refl }

  pub file_bytes-Present :
      (num : ℕ) (s t : Store) → on_disk t ≡ on_disk s → Meets (file_bytes env num) t (Present s num)
  file_bytes-Present num s t e = record { at = go (t.disk num) refl }
    where
      answer : Option (List ℕ) → Result (List ℕ) × Store
      answer o = elim o [ none ↦ (err (sentinel not_exist), t) | some h ↦ (ok h, t) ]

      go : (o : Option (List ℕ)) → t.disk num ≡ o → Present s num (answer o).0 (answer o).1
      go none f = e
      go (some h) f = (e, sym (ap (λ d. d num) e) ∙ f)

  pub os_stat-Sized : (num : ℕ) (s : Store) → Meets (os_stat env num) s (Sized s num)
  unfolding os_stat
  os_stat-Sized num s =
      then-Meets {p = on_disk} _ _ s os_call-disk
        (elim [
          | done ↦ λ t e.
              bind-Meets {R = Present s num} _ _ t (file_bytes-Present num s t e)
                (λ h u x. pure-Meets (length h) u (x.0, present-file_len s num h x.1)) (λ e' u x. x)
          | fails e' n ↦ λ t e. fail-Meets (sentinel e') t e
        ])
        (λ e t x. x)
