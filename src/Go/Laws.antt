-- ===== src/Go/Laws.antt =====
-- Rules for calls in a row: what holds on every way out of each part holds of the whole.
use csi_gcs.Base.{◌≡◌, refl, subst, ◌⊎◌, inl, inr, Bool, true, false}
use csi_gcs.Go.{Error, Outcome, ok, err, M, bind, relabel, reject}

pub Outcome-cases :
    {A : Type 0} (r : Outcome A) → ((a : A) × (r ≡ ok a)) ⊎ ((e : Error) × (r ≡ err e))
Outcome-cases (ok a) = inl (a, refl)
Outcome-cases (err e) = inr (e, refl)

-- What holds of one result holds of the same result.
pub of_ok : {A : Type 0} (P : A → Type 0) {a b : A} → ◌≡◌ {A = Outcome A} (ok a) (ok b) → P a → P b
of_ok P {a} {b} e p = let same : a ≡ b = cc in subst P same p

module _ {S A B : Type 0} where
  -- A call and what follows it if there was no error.
  pub bind_post :
      (P : Outcome B × S → Type 0) (r : Outcome A × S) (f : A → M S B)
      → ((a : A) → r.0 ≡ ok a → P (f a r.1))
      → ((e : Error) → r.0 ≡ err e → P (err e, r.1))
      → P (bind r f)
  unfolding bind
  bind_post P (ok a, s) f good bad = good a refl
  bind_post P (err e, s) f good bad = bad e refl

module _ {S A B : Type 0} where
  -- A call whose error is given another text, and what follows it.
  pub call_post :
      (P : Outcome B × S → Type 0) (h : Error → Error) (r : Outcome A × S) (f : A → M S B)
      → ((a : A) → r.0 ≡ ok a → P (f a r.1))
      → ((e : Error) → r.0 ≡ err e → P (err (h e), r.1))
      → P (bind (relabel h r) f)
  unfolding bind relabel
  call_post P h (ok a, s) f good bad = good a refl
  call_post P h (err e, s) f good bad = bad e refl

module _ {S A : Type 0} where
  pub relabel_post :
      (P : Outcome A × S → Type 0) (f : Error → Error) (r : Outcome A × S)
      → ((a : A) → r.0 ≡ ok a → P (ok a, r.1))
      → ((e : Error) → r.0 ≡ err e → P (err (f e), r.1))
      → P (relabel f r)
  unfolding relabel
  relabel_post P f (ok a, s) good bad = good a refl
  relabel_post P f (err e, s) good bad = bad e refl

  pub relabel_state : (f : Error → Error) (r : Outcome A × S) → (relabel f r).1 ≡ r.1
  unfolding relabel
  relabel_state f (ok a, s) = refl
  relabel_state f (err e, s) = refl

  pub relabel_ok :
      (f : Error → Error) (r : Outcome A × S) {a : A} → (relabel f r).0 ≡ ok a → r.0 ≡ ok a
  unfolding relabel
  relabel_ok f (ok b, s) h = h
  relabel_ok f (err e, s) h = cc

  -- An `if` that leaves with an error.
  pub reject_post :
      (P : Outcome A × S → Type 0) (test : Bool) (e : Error) (s : S) (f : Unit {0} → M S A)
      → (test ≡ true → P (err e, s))
      → (test ≡ false → P (f tt s))
      → P (bind (reject test e s) f)
  unfolding bind reject
  reject_post P true e s f bad good = bad refl
  reject_post P false e s f bad good = good refl

module _ {S K V : Type 0} (view : S → K → V) (k : K) (v : V) where
  pub bind_keeps :
      {A B : Type 0} (r : Outcome A × S) (f : A → M S B)
      → view r.1 k ≡ v
      → ((a : A) (t : S) → view t k ≡ v → view (f a t).1 k ≡ v)
      → view (bind r f).1 k ≡ v
  unfolding bind
  bind_keeps (ok a, s) f h g = g a s h
  bind_keeps (err e, s) f h g = h

  pub relabel_keeps :
      {A : Type 0} (f : Error → Error) (r : Outcome A × S)
      → view r.1 k ≡ v
      → view (relabel f r).1 k ≡ v
  unfolding relabel
  relabel_keeps f (ok a, s) h = h
  relabel_keeps f (err e, s) h = h

module _ {S A : Type 0} where
  -- Calls that succeed one after the other.
  pub bind_ok :
      {B : Type 0} {a : A} {b : B} (r : Outcome A × S) (f : A → M S B)
      → r.0 ≡ ok a
      → (f a r.1).0 ≡ ok b
      → (bind r f).0 ≡ ok b
  unfolding bind
  bind_ok {b = b} (ok a', s) f e h = let same : a' ≡ _ = cc in rw same h
  bind_ok (err e', s) f e h = cc

  pub relabel_ok_of :
      {a : A} (f : Error → Error) (r : Outcome A × S) → r.0 ≡ ok a → (relabel f r).0 ≡ ok a
  unfolding relabel
  relabel_ok_of f (ok a', s) e = e
  relabel_ok_of f (err e', s) e = cc
