-- ===== src/Call.antt =====
-- A call of a method that changes its object and returns a value or throws. What was written before
-- a throw stays written.
use sql_handler.Outcome.{Error, Result, ok, err}
use sql_handler.Prelude.{Bool, true, false}

abbrev pub Call : Type 0 → Type 0 → Type 0
Call S A = S → S × Result A

module _ {S : Type 0} where
  -- What follows a call.
  abbrev pub resume : {A B : Type 0} → S × Result A → (A → Call S B) → S × Result B
  resume (s, err e) f = (s, err e)
  resume (s, ok a) f = f a s

  infixl 5 ◌>>=◌ ◌>>◌
  abbrev pub ◌>>=◌ : {A B : Type 0} → Call S A → (A → Call S B) → Call S B
  ◌>>=◌ m f s = resume (m s) f

  abbrev pub ◌>>◌ : {B : Type 0} → Call S (Unit {0}) → Call S B → Call S B
  ◌>>◌ m k s = resume (m s) λ u. k

  abbrev pub return : {A : Type 0} → A → Call S A
  return a s = (s, ok a)

  abbrev pub throw : {A : Type 0} → Error → Call S A
  throw e s = (s, err e)

  abbrev pub get : Call S S
  get s = (s, ok s)

  abbrev pub modify : (S → S) → Call S (Unit {0})
  modify f s = (f s, ok tt)

  -- `if (!b) throw`
  abbrev pub check_that : Bool → Error → Call S (Unit {0})
  check_that true e s = (s, ok tt)
  check_that false e s = (s, err e)
