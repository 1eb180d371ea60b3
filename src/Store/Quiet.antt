-- ===== src/Store/Quiet.antt =====
-- What the queue's contents and cursors are made of, and the rules for actions that leave all of it
-- alone: opening, flushing, reading and writing bytes are such actions.
pub mod Handles
pub mod Silent
pub mod Disk
pub mod Files
pub mod Reads
pub mod Segments
use mathlib.Core.Path.{fun_ext}
use diskqueue.Base.{
  ℕ, ◌≡◌, refl, sym, ap, ◌∙◌, Bool, true, false, Option, none, some, List, ◌==◌, if◌then◌else◌,
  ==_iff, Bool-cases, inl, inr, arith,
}
use diskqueue.Store.State.{Store, DataFile, Config, Reservation, Error, Env, update}
use diskqueue.Store.Action.{
  M, Result, ok, err, ◌>>=◌, ◌>>◌, pure, fail, gets, modify, attempt, when, check_io,
}
use diskqueue.Store.Files.{change_file}

pub record Extent : Type 0 where
  pub base : ℕ
  pub size : ℕ
  pub capacity : ℕ
  pub written : ℕ
  pub committed : ℕ

abbrev pub extent : DataFile → Extent
extent df = record {
  base = df.base;
  size = df.size;
  capacity = df.capacity;
  written = df.written;
  committed = df.committed;
}

pub record View : Type 0 where
  pub config : Config
  pub extents : ℕ → Extent
  pub files : List ℕ
  pub pending_bytes : ℕ
  pub pending_recs : ℕ
  pub in_flight : ℕ
  pub in_flight_recs : ℕ
  pub write_off : ℕ
  pub head_off : ℕ
  pub commit_off : ℕ
  pub reserved : List Reservation
  pub n_written : ℕ
  pub n_committed : ℕ
  pub n_added : ℕ
  pub n_committed_total : ℕ
  pub pending_corrupt : ℕ

abbrev pub view : Store → View
view s = record {
  config = s.config;
  extents = λ n. extent (s.heap n);
  files = s.files;
  pending_bytes = s.pending_bytes;
  pending_recs = s.pending_recs;
  in_flight = s.in_flight;
  in_flight_recs = s.in_flight_recs;
  write_off = s.write_off;
  head_off = s.head_off;
  commit_off = s.commit_off;
  reserved = s.reserved;
  n_written = s.n_written;
  n_committed = s.n_committed;
  n_added = s.n_added;
  n_committed_total = s.n_committed_total;
  pending_corrupt = s.pending_corrupt;
}

-- `m` leaves what `p` shows of the store alone, whether it returns or fails.
pub record Keeps {X A : Type 0} (p : Store → X) (m : M A) : Type 0 where
  pub at : (s : Store) → p (m s).1 ≡ p s

-- `m` leaves contents and cursors alone.
abbrev pub Quiet : {A : Type 0} → M A → Type 0
Quiet m = Keeps view m

module _ {X A : Type 0} {p : Store → X} where
  pub pure-Keeps : (a : A) → Keeps p (pure a)
  pure-Keeps a = record { at = λ s. refl }

  pub fail-Keeps : (e : Error) → Keeps p (fail {A = A} e)
  fail-Keeps e = record { at = λ s. refl }

  pub gets-Keeps : (f : Store → A) → Keeps p (gets f)
  gets-Keeps f = record { at = λ s. refl }

  pub attempt-Keeps : (m : M A) → Keeps p m → Keeps p (attempt m)
  unfolding attempt
  attempt-Keeps m q = record { at = λ s. q.at s }

  pub if-Keeps : (b : Bool) (m n : M A) → Keeps p m → Keeps p n → Keeps p (if b then m else n)
  if-Keeps true m n q r = q
  if-Keeps false m n q r = r

module _ {X A B : Type 0} {p : Store → X} where
  pub bind-Keeps :
      (m : M A) (f : A → M B) → Keeps p m → ((a : A) → Keeps p (f a)) → Keeps p (m >>= f)
  unfolding ◌>>=◌
  bind-Keeps m f k q = record { at = λ s. go (m s).0 (m s).1 ∙ k.at s }
    where
      go : (r : Result A) (s : Store) → p (((λ t. (r, t)) >>= f) s).1 ≡ p s
      go (ok a) s = (q a).at s
      go (err e) s = refl

pub check_io_lem : (s : Store) → (check_io s).1 ≡ s
unfolding check_io
check_io_lem s = ground arith

module _ {X : Type 0} {p : Store → X} where
  pub when-Keeps : (b : Bool) (m : M (Unit {0})) → Keeps p m → Keeps p (when b m)
  when-Keeps true m q = q
  when-Keeps false m q = record { at = λ s. refl }

  pub modify-Keeps : (f : Store → Store) → ((s : Store) → p (f s) ≡ p s) → Keeps p (modify f)
  modify-Keeps f h = record { at = h }

  pub check_io-Keeps : Keeps p check_io
  check_io-Keeps = record { at = λ s. ap p (check_io_lem s) }

pub update_here {ℓ} : {A : Type ℓ} → (f : ℕ → A) (p : ℕ) (v : A) → update f p v p ≡ v
update_here f p v = rw ((==_iff p p).1 refl)

-- What `g` shows of the files outlives a change that it does not see.
pub shown-update :
    {X : Type 0} (g : DataFile → X) (h : ℕ → DataFile) (num : ℕ) (f : DataFile → DataFile)
    → ((df : DataFile) → g (f df) ≡ g df)
    → (n : ℕ) → g (update h num (f (h num)) n) ≡ g (h n)
shown-update g h num f k n = elim (Bool-cases (num == n)) [
  | inl e ↦ rw e (k (h num) ∙ ap (λ i. g (h i)) ((==_iff num n).0 e))
  | inr e ↦ rw e
]

pub change_file-Quiet :
    (num : ℕ) (f : DataFile → DataFile)
    → ((df : DataFile) → extent (f df) ≡ extent df)
    → Quiet (change_file num f)
change_file-Quiet num f k = record {
  at = λ s.
      ap (λ (x : ℕ → Extent). record (view s) { extents = x })
        (fun_ext (shown-update extent s.heap num f k));
}

-- What an append and a commit share: the cursors, the ledger and the lifetime counts.
pub record Cursors : Type 0 where
  pub config : Config
  pub pending_bytes : ℕ
  pub pending_recs : ℕ
  pub in_flight : ℕ
  pub in_flight_recs : ℕ
  pub write_off : ℕ
  pub head_off : ℕ
  pub commit_off : ℕ
  pub reserved : List Reservation
  pub n_added : ℕ
  pub n_committed_total : ℕ
  pub pending_corrupt : ℕ

abbrev of_view : View → Cursors
of_view v = record {
  config = v.config;
  pending_bytes = v.pending_bytes;
  pending_recs = v.pending_recs;
  in_flight = v.in_flight;
  in_flight_recs = v.in_flight_recs;
  write_off = v.write_off;
  head_off = v.head_off;
  commit_off = v.commit_off;
  reserved = v.reserved;
  n_added = v.n_added;
  n_committed_total = v.n_committed_total;
  pending_corrupt = v.pending_corrupt;
}

abbrev pub cursors : Store → Cursors
cursors s = of_view (view s)

pub Quiet-cursors : {A : Type 0} (m : M A) → Quiet m → Keeps cursors m
Quiet-cursors m q = record { at = λ s. ap of_view (q.at s) }

pub ruleset quiet_rules = (
  pure-Keeps, fail-Keeps, gets-Keeps, attempt-Keeps, if-Keeps, bind-Keeps, when-Keeps,
  check_io-Keeps,
)
