-- ===== src/Go.antt =====
-- Go's error values and results, and calls that change the state of the outside world. A function of
-- the driver that returns `(T, error)` is an `M S T`: it gives a value or an error, and a new state.
pub mod Path
pub mod Laws
use csi_gcs.Base.{String, Bool, true, false, if◌then◌else◌}

-- The gRPC codes that the driver uses.
pub data Code : Type 0 where
  invalid_argument internal not_found already_exists permission_denied unimplemented : Code

-- An error of the outside world: its text, and what `os.IsNotExist` and `os.IsPermission` say of it.
pub record Fault : Type 0 where
  pub text : String
  pub not_exist : Bool
  pub permission : Bool

pub data Error : Type 0 where
  status : Code → String → Error
  fault : Fault → Error

-- `fmt.Errorf`, which wraps nothing
abbrev pub errorf : String → Error
errorf text = fault (record { text = text; not_exist = false; permission = false })

abbrev pub is_not_exist : Error → Bool
is_not_exist (status code text) = false
is_not_exist (fault f) = f.not_exist

abbrev pub is_permission : Error → Bool
is_permission (status code text) = false
is_permission (fault f) = f.permission

pub data Outcome (A : Type 0) : Type 0 where
  ok : A → Outcome A
  err : Error → Outcome A

abbrev pub M : Type 0 → Type 0 → Type 0
M S A = S → Outcome A × S

module _ {S : Type 0} where
  abbrev pub pure : {A : Type 0} → A → M S A
  pure a s = (ok a, s)

  abbrev pub throw : {A : Type 0} → Error → M S A
  throw e s = (err e, s)

  -- `if test { return nil, e }`
  unfoldable pub reject : Bool → Error → M S (Unit {0})
  reject true e s = (err e, s)
  reject false e s = (ok tt, s)

  -- What follows a call: an error leaves at once.
  unfoldable pub bind : {A B : Type 0} → Outcome A × S → (A → M S B) → Outcome B × S
  bind (ok a, s) f = f a s
  bind (err e, s) f = (err e, s)

  infixl 5 ◌>>=◌ ◌>>◌
  abbrev pub ◌>>=◌ : {A B : Type 0} → M S A → (A → M S B) → M S B
  ◌>>=◌ m f s = bind (m s) f

  abbrev pub ◌>>◌ : {B : Type 0} → M S (Unit {0}) → M S B → M S B
  ◌>>◌ m k s = bind (m s) (λ _. k)

  -- A call whose error the caller looks at.
  abbrev pub attempt : {A : Type 0} → M S A → M S (Outcome A)
  attempt m s = (ok (m s).0, (m s).1)

  unfoldable pub relabel : {A : Type 0} → (Error → Error) → Outcome A × S → Outcome A × S
  relabel f (ok a, s) = (ok a, s)
  relabel f (err e, s) = (err (f e), s)

  -- `if err != nil { return nil, f(err) }`
  abbrev pub on_error : {A : Type 0} → (Error → Error) → M S A → M S A
  on_error f m s = relabel f (m s)

  -- `defer cleanup`: the cleanup runs on every way out, and its own error is dropped.
  abbrev pub deferring : {A : Type 0} → (S → S) → M S A → M S A
  deferring cleanup m s = ((m s).0, cleanup (m s).1)
