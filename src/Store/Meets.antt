-- ===== src/Store/Meets.antt =====
-- What one run of an action ends in: its result and the store that it leaves.
use diskqueue.Base.{◌≡◌, refl, Bool, true, false, if◌then◌else◌}
use diskqueue.Store.State.{Store, Error}
use diskqueue.Store.Action.{M, Result, ok, err, ◌>>=◌, attempt, modify, gets, pure, fail, when}
use diskqueue.Store.Quiet.{Keeps}

-- The run of `m` from `s` ends as `Q` says.
pub record Meets {A : Type 0} (m : M A) (s : Store) (Q : Result A → Store → Type 0) : Type 0 where
  pub at : Q (m s).0 (m s).1

module _ {A B : Type 0} where
  pub bind-Meets :
      {R : Result A → Store → Type 0} {Q : Result B → Store → Type 0} (m : M A) (f : A → M B)
      (s : Store)
      → Meets m s R
      → ((a : A) (t : Store) → R (ok a) t → Meets (f a) t Q)
      → ((e : Error) (t : Store) → R (err e) t → Q (err e) t)
      → Meets (m >>= f) s Q
  unfolding ◌>>=◌
  bind-Meets {R = R} {Q = Q} m f s h goes stops = record { at = go (m s).0 (m s).1 h.at }
    where
      go :
          (r : Result A) (t : Store)
          → R r t
          → Q (((λ u. (r, t)) >>= f) s).0 (((λ u. (r, t)) >>= f) s).1
      go (ok a) t x = (goes a t x).at
      go (err e) t x = stops e t x

module _ {A B : Type 0} {Q : Result B → Store → Type 0} where
  -- Whatever the first action did.
  pub loose-Meets :
      (m : M A) (f : A → M B) (s : Store)
      → ((a : A) (t : Store) → Meets (f a) t Q)
      → ((e : Error) (t : Store) → Q (err e) t)
      → Meets (m >>= f) s Q
  loose-Meets m f s goes stops =
      bind-Meets {R = λ r t. Unit {0}} m f s (record { at = tt }) (λ a t _. goes a t)
        (λ e t _. stops e t)

module _ {A B : Type 0} {Q : Result B → Store → Type 0} where
  -- An action whose error is looked at.
  pub try-Meets :
      {R : Result A → Store → Type 0} (m : M A) (f : Result A → M B) (s : Store)
      → Meets m s R
      → ((r : Result A) (t : Store) → R r t → Meets (f r) t Q)
      → Meets (attempt m >>= f) s Q
  unfolding ◌>>=◌ attempt
  try-Meets m f s h goes = record { at = (goes _ _ h.at).at }

module _ {A B X : Type 0} {p : Store → X} {Q : Result B → Store → Type 0} where
  -- What `p` shows outlives an action that leaves it alone.
  pub then-Meets :
      (m : M A) (f : A → M B) (s : Store)
      → Keeps p m
      → ((a : A) (t : Store) → p t ≡ p s → Meets (f a) t Q)
      → ((e : Error) (t : Store) → p t ≡ p s → Q (err e) t)
      → Meets (m >>= f) s Q
  then-Meets m f s k goes stops =
      bind-Meets {R = λ r t. p t ≡ p s} m f s (record { at = k.at s }) goes stops

  pub attempt_then :
      (m : M A) (f : Result A → M B) (s : Store)
      → Keeps p m
      → ((r : Result A) (t : Store) → p t ≡ p s → Meets (f r) t Q)
      → Meets (attempt m >>= f) s Q
  unfolding ◌>>=◌ attempt
  attempt_then m f s k goes = record { at = (goes _ _ (k.at s)).at }

module _ {A : Type 0} {Q : Result A → Store → Type 0} where
  pub pure-Meets : (a : A) (s : Store) → Q (ok a) s → Meets (pure a) s Q
  pure-Meets a s q = record { at = q }

  pub fail-Meets : (e : Error) (s : Store) → Q (err e) s → Meets (fail e) s Q
  fail-Meets e s q = record { at = q }

  -- Reading the store hands over what is in it.
  pub gets-Meets :
      {B : Type 0} (f : Store → B) (k : B → M A) (s : Store)
      → Meets (k (f s)) s Q
      → Meets (gets f >>= k) s Q
  unfolding ◌>>=◌
  gets-Meets f k s h = record { at = h.at }

  pub modify-Meets :
      (f : Store → Store) (k : (Unit {0}) → M A) (s : Store)
      → Meets (k tt) (f s) Q
      → Meets (modify f >>= k) s Q
  unfolding ◌>>=◌
  modify-Meets f k s h = record { at = h.at }

  pub if-Meets :
      (b : Bool) (m n : M A) (s : Store)
      → (b ≡ true → Meets m s Q)
      → (b ≡ false → Meets n s Q)
      → Meets (if b then m else n) s Q
  if-Meets true m n s h k = h refl
  if-Meets false m n s h k = k refl

  pub either-Meets :
      (b : Bool) (m n : M A) (s : Store)
      → Meets m s Q
      → Meets n s Q
      → Meets (if b then m else n) s Q
  either-Meets true m n s h k = h
  either-Meets false m n s h k = k

  pub weaken-Meets :
      {R : Result A → Store → Type 0} (m : M A) (s : Store)
      → Meets m s R
      → ((r : Result A) (t : Store) → R r t → Q r t)
      → Meets m s Q
  weaken-Meets m s h k = record { at = k _ _ h.at }

  pub keeps-Meets :
      {X : Type 0} {p : Store → X} (m : M A) (s : Store)
      → Keeps p m
      → ((r : Result A) (t : Store) → p t ≡ p s → Q r t)
      → Meets m s Q
  keeps-Meets m s k h = record { at = h _ _ (k.at s) }

module _ {A : Type 0} {Q : Result (Result A) → Store → Type 0} where
  pub attempt-Meets : (m : M A) (s : Store) → Meets m s (λ r t. Q (ok r) t) → Meets (attempt m) s Q
  unfolding attempt
  attempt-Meets m s h = record { at = h.at }

module _ {Q : Result (Unit {0}) → Store → Type 0} where
  pub when-Meets :
      (b : Bool) (m : M (Unit {0})) (s : Store) → Meets m s Q → Q (ok tt) s → Meets (when b m) s Q
  when-Meets true m s h q = h
  when-Meets false m s h q = record { at = q }
