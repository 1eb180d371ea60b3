-- ===== src/Store/Clean.antt =====
-- store.go: what opening, evicting and flushing files do to the dirty marks and the gauges.
pub mod Flush
use mathlib.Core.Path.{fun_ext}
use diskqueue.Base.{
  ℕ, zero, suc, ◌+◌, ◌≡◌, refl, sym, ap, ◌∙◌, Bool, true, false, not, ◌&&◌, ◌==◌, Option, none,
  some, List, [], ◌∷◌, arith, if◌then◌else◌, Bool-cases, inl, inr, subst,
}
use diskqueue.Store.State.{Store, DataFile, Env, Error, update}
use diskqueue.Store.Action.{
  gets, M, Result, ok, err, ◌>>=◌, ◌>>◌, attempt, when, pure, fail, check_io,
}
use diskqueue.Store.Os.{os_call, os_touch, os_sync_dir}
use diskqueue.Store.Files.{
  change_file, latch, fail_io, lru_push_mru, lru_unlink, touch_open, flush_open, evict_victim,
  evict_loop, evict_open, track_open, ensure_open, flush_file, join_result, flush_all, sync_dir,
  flush_batch, sync,
}
use diskqueue.Store.Quiet.{
  Keeps, modify-Keeps, bind-Keeps, attempt-Keeps, fail-Keeps, pure-Keeps, gets-Keeps,
  check_io-Keeps, if-Keeps, shown-update, update_here, check_io_lem,
}
use diskqueue.Store.Meets.{
  Meets, bind-Meets, loose-Meets, try-Meets, if-Meets, modify-Meets, gets-Meets, pure-Meets,
  fail-Meets, keeps-Meets, weaken-Meets, then-Meets,
}

-- The power-loss exposure, and the number of flushes.
abbrev pub gauges : Store → ℕ × ℕ × ℕ
gauges s = (s.unsynced, s.unsynced_bytes, s.flush_epoch)

abbrev pub dirty_of : Store → ℕ → Bool
dirty_of s n = (s.heap n).dirty

abbrev pub shown : Store → (ℕ × ℕ × ℕ) × (ℕ → Bool)
shown s = (gauges s, dirty_of s)

-- From the one store to the other no clean file gets dirty, and the gauges stand.
abbrev pub Settling : Store → Store → Type 0
Settling s t = (gauges t ≡ gauges s) × ((n : ℕ) → dirty_of s n ≡ false → dirty_of t n ≡ false)

pub record Settles {A : Type 0} (m : M A) : Type 0 where
  pub at : (s : Store) → Settling s (m s).1

pub settled_then : (s t u : Store) → Settling s t → Settling t u → Settling s u
settled_then s t u h k = (k.0 ∙ h.0, λ n c. k.1 n (h.1 n c))

pub settled_same : (s t : Store) → shown t ≡ shown s → Settling s t
settled_same s t e = (
  ap (λ (x : (ℕ × ℕ × ℕ) × (ℕ → Bool)). x.0) e,
  λ n c. ap (λ (x : (ℕ × ℕ × ℕ) × (ℕ → Bool)). x.1 n) e ∙ c,
)

module _ {A : Type 0} where
  pub Keeps-Settles : (m : M A) → Keeps shown m → Settles m
  Keeps-Settles m k = record { at = λ s. settled_same s (m s).1 (k.at s) }

  pub pure-Settles : (a : A) → Settles (pure a)
  pure-Settles a = record { at = λ s. settled_same s s refl }

  pub attempt-Settles : (m : M A) → Settles m → Settles (attempt m)
  unfolding attempt
  attempt-Settles m q = record { at = λ s. q.at s }

  pub if-Settles : (b : Bool) (m n : M A) → Settles m → Settles n → Settles (if b then m else n)
  if-Settles true m n q r = q
  if-Settles false m n q r = r

when-Settles : (b : Bool) (m : M (Unit {0})) → Settles m → Settles (when b m)
when-Settles true m q = q
when-Settles false m q = record { at = λ s. settled_same s s refl }

module _ {A B : Type 0} where
  pub bind-Settles :
      (m : M A) (f : A → M B) → Settles m → ((a : A) → Settles (f a)) → Settles (m >>= f)
  unfolding ◌>>=◌
  bind-Settles m f k q = record {
    at = λ s. let h = k.at s in let g = go (m s).0 (m s).1 in (g.0 ∙ h.0, λ n c. g.1 n (h.1 n c));
  }
    where
      go : (r : Result A) (s : Store) → Settling s (((λ t. (r, t)) >>= f) s).1
      go (ok a) s = (q a).at s
      go (err e) s = settled_same s s refl

os_touch-Kept : (env : Env) (num : ℕ) → Keeps shown (os_touch env num)
unfolding os_touch os_call ◌>>=◌
os_touch-Kept env num = record { at = λ s. ground arith }

pub os_sync_dir-Kept : (env : Env) → Keeps shown (os_sync_dir env)
unfolding os_sync_dir os_call ◌>>=◌
os_sync_dir-Kept env = record { at = λ s. ground arith }

latch-Kept : (e : Error) → Keeps shown (latch e)
unfolding latch
latch-Kept e = record { at = λ s. ground arith }

pub fail_io-Settles : {A : Type 0} (e : Error) → Settles (fail_io {A = A} e)
unfolding fail_io
fail_io-Settles e = Keeps-Settles _ (bind-Keeps _ _ (latch-Kept e) (λ first. fail-Keeps first))

lru_push_mru-Settles : (num : ℕ) → Settles (lru_push_mru num)
unfolding lru_push_mru
lru_push_mru-Settles num = record { at = λ s. (refl, λ n c. c) }

lru_unlink-Settles : (num : ℕ) → Settles (lru_unlink num)
unfolding lru_unlink
lru_unlink-Settles num = record { at = λ s. (refl, λ n c. c) }

set_open-Settles :
    (num : ℕ) (b : Bool) → Settles (change_file num (λ df. record df { is_open = b }))
set_open-Settles num b = record {
  at = λ s. (
    refl,
    λ n c.
        shown-update (λ df. df.dirty) s.heap num (λ df. record df { is_open = b }) (λ df. refl) n
        ∙ c,
  );
}

cleaned :
    (h : ℕ → DataFile) (num n : ℕ)
    → (h n).dirty ≡ false
    → (update h num (record (h num) { dirty = false }) n).dirty ≡ false
cleaned h num n c = elim (Bool-cases (num == n)) [ inl e ↦ rw e | inr e ↦ rw (e, c) ]

set_clean-Settles : (num : ℕ) → Settles (change_file num (λ df. record df { dirty = false }))
set_clean-Settles num = record { at = λ s. (refl, λ n c. cleaned s.heap num n c) }

pub check_io-Settles : Settles check_io
check_io-Settles = Keeps-Settles check_io check_io-Keeps

gets-Settles : {A : Type 0} (f : Store → A) → Settles (gets f)
gets-Settles f = Keeps-Settles (gets f) (gets-Keeps f)

ruleset settle_rules = (
  pure-Settles, gets-Settles, attempt-Settles, if-Settles, bind-Settles, when-Settles,
  check_io-Settles, lru_push_mru-Settles, lru_unlink-Settles, set_open-Settles,
)

module _ (env : Env) where
  os_touch-Settles : (num : ℕ) → Settles (os_touch env num)
  os_touch-Settles num = Keeps-Settles (os_touch env num) (os_touch-Kept env num)

  touch_open-Settles : (num : ℕ) → Settles (touch_open num)
  unfolding touch_open
  touch_open-Settles num = search (settle_rules)

  flush_open-Settles : (num : ℕ) → Settles (flush_open env num)
  unfolding flush_open
  flush_open-Settles num = bind-Settles _ _ check_io-Settles (λ _.
      bind-Settles _ _ (attempt-Settles _ (os_touch-Settles num))
        (elim [ ok _ ↦ set_clean-Settles num | err e ↦ fail_io-Settles e ]))

  evict_victim-Settles : (num : ℕ) → Settles (evict_victim env num)
  unfolding evict_victim
  evict_victim-Settles num = search (settle_rules, flush_open-Settles) depth 12

  evict_loop-Settles : (fuel keep : ℕ) → Settles (evict_loop env fuel keep)
  unfolding evict_loop
  evict_loop-Settles zero keep = pure-Settles tt
  evict_loop-Settles (suc fuel) keep = bind-Settles _ _ (gets-Settles _) (λ more.
      bind-Settles _ _ (gets-Settles _) (elim [
        | none ↦ if-Settles more _ _ (pure-Settles tt) (pure-Settles tt)
        | some n ↦
            if-Settles more _ _
              (bind-Settles _ _ (evict_victim-Settles n) (λ _. evict_loop-Settles fuel keep))
              (pure-Settles tt)
      ]))

  evict_open-Settles : (keep : ℕ) → Settles (evict_open env keep)
  unfolding evict_open
  evict_open-Settles keep = search (settle_rules, evict_loop-Settles)

  ensure_open-Settles : (num : ℕ) → Settles (ensure_open env num)
  unfolding ensure_open track_open
  ensure_open-Settles num =
      search (settle_rules, touch_open-Settles, os_touch-Settles, evict_open-Settles) depth 10

  pub flush_file-Settles : (num : ℕ) → Settles (flush_file env num)
  unfolding flush_file
  flush_file-Settles num = search (settle_rules, ensure_open-Settles, flush_open-Settles) depth 8
