-- ===== src/Store/Log/Handling.antt =====
-- store.go: opening, evicting and flushing files change no byte, no header, no extent and no block.
use mathlib.Core.Path.{fun_ext}
use diskqueue.Base.{ℕ, refl, ◌≡◌, ap, ◌∙◌, true, Option, List, arith, ◌+◌}
use diskqueue.Store.State.{Store, DataFile, Block, Env, Error, update}
use diskqueue.Store.Action.{◌>>=◌}
use diskqueue.Store.Os.{os_call, os_touch, os_sync_dir}
use diskqueue.Store.Files.{change_file, latch, lru_push_mru, lru_unlink}
use diskqueue.Store.Quiet.{Keeps, modify-Keeps, View, view, Extent, extent, shown-update}
use diskqueue.Store.Quiet.Handles.{Handles}

-- The header of a file, in memory and as it was last written.
abbrev pub images : DataFile → List ℕ × List ℕ
images df = (df.hdr, df.disk_header)

pub record Data : Type 0 where
  pub on : ℕ → Option (List ℕ)
  pub shown : View
  pub cached : Block
  pub headers : ℕ → List ℕ × List ℕ

abbrev pub data_of : Store → Data
data_of s = record {
  on = s.disk;
  shown = view s;
  cached = s.block;
  headers = λ n. images (s.heap n);
}

pub change_file-Data :
    (num : ℕ) (f : DataFile → DataFile)
    → ((df : DataFile) → extent (f df) ≡ extent df)
    → ((df : DataFile) → images (f df) ≡ images df)
    → Keeps data_of (change_file num f)
change_file-Data num f k l = record {
  at = λ s.
      ap
        (λ (x : ℕ → Extent). record (data_of s) {
          shown = record (view s) { extents = x };
          headers = λ n. images (update s.heap num (f (s.heap num)) n);
        })
        (fun_ext (shown-update extent s.heap num f k))
      ∙ ap (λ (x : ℕ → List ℕ × List ℕ). record (data_of s) { headers = x })
          (fun_ext (shown-update images s.heap num f l));
}

pub os_call-Data : (env : Env) → Keeps data_of (os_call env)
unfolding os_call
os_call-Data env = record { at = λ s. refl }

os_touch-Data : (env : Env) (num : ℕ) → Keeps data_of (os_touch env num)
unfolding os_touch os_call ◌>>=◌
os_touch-Data env num = record { at = λ s. ground arith }

os_sync_dir-Data : (env : Env) → Keeps data_of (os_sync_dir env)
unfolding os_sync_dir os_call ◌>>=◌
os_sync_dir-Data env = record { at = λ s. ground arith }

latch-Data : (e : Error) → Keeps data_of (latch e)
unfolding latch
latch-Data e = record { at = λ s. ground arith }

lru_push_mru-Data : (num : ℕ) → Keeps data_of (lru_push_mru num)
unfolding lru_push_mru
lru_push_mru-Data num = record { at = λ s. refl }

lru_unlink-Data : (num : ℕ) → Keeps data_of (lru_unlink num)
unfolding lru_unlink
lru_unlink-Data num = record { at = λ s. refl }

pub data-Handles : Handles data_of
data-Handles = record {
  os_touch_kept = os_touch-Data;
  os_sync_dir_kept = os_sync_dir-Data;
  lru_push_mru_kept = lru_push_mru-Data;
  lru_unlink_kept = lru_unlink-Data;
  latch_kept = latch-Data;
  set_dirty_kept =
      λ num b. change_file-Data num (λ df. record df { dirty = b }) (λ df. refl) (λ df. refl);
  set_open_kept =
      λ num b. change_file-Data num (λ df. record df { is_open = b }) (λ df. refl) (λ df. refl);
  set_gauges_kept = λ ops bytes epoch. modify-Keeps _ (λ s. refl);
}

pub mark_written-Data :
    (num : ℕ)
    → Keeps data_of
        (change_file num (λ df. record df { dirty = true; write_seq = df.write_seq + 1 }))
mark_written-Data num =
    change_file-Data num (λ df. record df { dirty = true; write_seq = df.write_seq + 1 })
      (λ df. refl) (λ df. refl)
