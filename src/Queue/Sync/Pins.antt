-- ===== src/Queue/Sync/Pins.antt =====
-- diskqueue.go: the pins of the files, and what leaves them alone.
use mathlib.Core.Path.{fun_ext}
use diskqueue.Base.{
  ℕ, ◌≡◌, refl, sym, ap, ◌∙◌, ◌+◌, ◌-◌, true, List, [], ◌∷◌, arith, ◌==◌, ==_iff, subst, Bool-cases,
  inl, inr, if◌then◌else◌,
}
use diskqueue.Store.State.{Store, DataFile, Env, Error}
use diskqueue.Store.Action.{Result, ◌>>=◌}
use diskqueue.Store.Os.{os_call, os_touch, os_sync_dir}
use diskqueue.Store.Files.{change_file, latch, lru_push_mru, lru_unlink}
use diskqueue.Store.Quiet.{Keeps, modify-Keeps, shown-update, update_here}
use diskqueue.Store.Quiet.Handles.{Handles}
use diskqueue.Queue.Sync.{Target}

abbrev pub pins_of : Store → ℕ → ℕ
pins_of s n = (s.heap n).pins

change_file-Pins :
    (num : ℕ) (f : DataFile → DataFile)
    → ((df : DataFile) → (f df).pins ≡ df.pins)
    → Keeps pins_of (change_file num f)
change_file-Pins num f k = record {
  at = λ s. fun_ext (shown-update (λ df. df.pins) s.heap num f k);
}

pub os_touch-Pins : (env : Env) (num : ℕ) → Keeps pins_of (os_touch env num)
unfolding os_touch os_call ◌>>=◌
os_touch-Pins env num = record { at = λ s. ground arith }

os_sync_dir-Pins : (env : Env) → Keeps pins_of (os_sync_dir env)
unfolding os_sync_dir os_call ◌>>=◌
os_sync_dir-Pins env = record { at = λ s. ground arith }

pub latch-Pins : (e : Error) → Keeps pins_of (latch e)
unfolding latch
latch-Pins e = record { at = λ s. ground arith }

lru_push_mru-Pins : (num : ℕ) → Keeps pins_of (lru_push_mru num)
unfolding lru_push_mru
lru_push_mru-Pins num = record { at = λ s. refl }

lru_unlink-Pins : (num : ℕ) → Keeps pins_of (lru_unlink num)
unfolding lru_unlink
lru_unlink-Pins num = record { at = λ s. refl }

pub pins-Handles : Handles pins_of
pins-Handles = record {
  os_touch_kept = os_touch-Pins;
  os_sync_dir_kept = os_sync_dir-Pins;
  lru_push_mru_kept = lru_push_mru-Pins;
  lru_unlink_kept = lru_unlink-Pins;
  latch_kept = latch-Pins;
  set_dirty_kept = λ num b. change_file-Pins num (λ df. record df { dirty = b }) (λ df. refl);
  set_open_kept = λ num b. change_file-Pins num (λ df. record df { is_open = b }) (λ df. refl);
  set_gauges_kept = λ ops bytes epoch. modify-Keeps _ (λ s. refl);
}

-- How often a file is among the targets.
abbrev pub times : List Target → ℕ → ℕ
times [] n = 0
times (t ∷ ts) n = let rest = times ts n in if t.num == n then rest + 1 else rest

-- The targets of the results.
abbrev pub targets : List (Target × Result (Unit {0})) → List Target
targets [] = []
targets ((t, r) ∷ ts) = t ∷ targets ts

-- Each file has the pins of `p`, and one for each time it is among the targets.
abbrev pub PinnedOver : (ℕ → ℕ) → List Target → Store → Type 0
PinnedOver p ts t = (n : ℕ) → pins_of t n ≡ p n + times ts n

-- The pins of one file move by `g`.
unfoldable pub moved : (g : ℕ → ℕ) → ℕ → (ℕ → ℕ) → ℕ → ℕ
moved g num p n = if num == n then g (p n) else p n

pub update_pins :
    (f : DataFile → DataFile) (g : ℕ → ℕ) (num : ℕ) (s : Store)
    → ((df : DataFile) → (f df).pins ≡ g df.pins)
    → (n : ℕ) → pins_of (change_file num f s).1 n ≡ moved g num (pins_of s) n
unfolding moved
update_pins f g num s k n = elim (Bool-cases (num == n)) [
  | inl e ↦
      let q = (==_iff num n).0 e in
      subst (λ m. pins_of (change_file num f s).1 m ≡ moved g num (pins_of s) m) q
        (ap (λ (df : DataFile). df.pins) (update_here s.heap num (f (s.heap num)))
          ∙ k (s.heap num)
          ∙ sym (chosen num ((==_iff num num).1 refl)))
  | inr e ↦
      ap (λ b. (if b then f (s.heap num) else s.heap n).pins) e
      ∙ sym (ap (λ b. if b then g (pins_of s n) else pins_of s n) e)
]
  where
    chosen :
        (m : ℕ)
        → (num == m) ≡ true
        → (if num == m then g (pins_of s m) else pins_of s m) ≡ g (pins_of s m)
    chosen m e = rw e refl

pub moved-times :
    (t : Target) (ts : List Target) (p : ℕ → ℕ) (n : ℕ)
    → moved (λ k. k + 1) t.num p n + times ts n ≡ p n + times (t ∷ ts) n
unfolding moved
moved-times t ts p n = ground arith

pub unmoved-times :
    (t : Target) (ts : List Target) (p : ℕ → ℕ) (n : ℕ)
    → moved (λ k. k - 1) t.num (λ m. p m + times (t ∷ ts) m) n ≡ p n + times ts n
unfolding moved
unmoved-times t ts p n = ground arith

pub moved_ap :
    (g : ℕ → ℕ) (num : ℕ) (p q : ℕ → ℕ) (n : ℕ) → p n ≡ q n → moved g num p n ≡ moved g num q n
unfolding moved
moved_ap g num p q n e = rw e refl
