-- ===== src/Store/Action.antt =====
-- A method of the store changes it and may fail; what it changed before it failed stays changed.
use diskqueue.Base.{Bool, none, some, if◌then◌else◌}
use diskqueue.Store.State.{Store, Error}

pub data Result {ℓ} (A : Type ℓ) : Type ℓ where
  ok : A → Result A
  err : Error → Result A

abbrev pub M : Type 0 → Type 0
M A = Store → Result A × Store

abbrev continue : {A B : Type 0} → Result A → (A → M B) → M B
continue (ok a) f s = f a s
continue (err e) f s = (err e, s)

infixl 5 ◌>>=◌ ◌>>◌
-- `if err := m(); err != nil { return err }`, and go on with the value.
unfoldable pub ◌>>=◌ : {A B : Type 0} → M A → (A → M B) → M B
◌>>=◌ m f s = let (r, s') = m s in continue r f s'

abbrev pub ◌>>◌ : {B : Type 0} → M (Unit {0}) → M B → M B
m >> k = m >>= λ _. k

abbrev pub pure : {A : Type 0} → A → M A
pure a s = (ok a, s)

abbrev pub fail : {A : Type 0} → Error → M A
fail e s = (err e, s)

abbrev pub gets : {A : Type 0} → (Store → A) → M A
gets f s = (ok (f s), s)

abbrev pub modify : (Store → Store) → M (Unit {0})
modify f s = (ok tt, f s)

-- `err := m()`, with the error in hand.
unfoldable pub attempt : {A : Type 0} → M A → M (Result A)
attempt m s = let (r, s') = m s in (ok r, s')

abbrev pub when : Bool → M (Unit {0}) → M (Unit {0})
when b m = if b then m else pure tt

-- `if s.ioErr != nil { return s.ioErr }`.
unfoldable pub check_io : M (Unit {0})
check_io s = elim s.io_err [ none ↦ (ok tt, s) | some e ↦ (err e, s) ]
