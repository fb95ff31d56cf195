-- ===== src/Outcome.antt =====
-- How a call ends. The exceptions of the program are told apart by class; their messages are not
-- modelled.
use sql_handler.Prelude.{◌≡◌, refl, Bool, true, false, Option, none, some, if◌then◌else◌}

pub data Error : Type 0 where
  -- `BESInternalError`, `BESInternalFatalError`
  internal internal_fatal : Error
  -- `BESError` of type `BES_SYNTAX_USER_ERROR`
  syntax_user : Error
  -- `SQLInternalError`, `SQLInternalFatalError`
  sql_internal sql_internal_fatal : Error
  -- `std::out_of_range`
  out_of_range : Error
  -- The C++ standard leaves the behaviour undefined.
  undefined : Error
  -- An exception left a function whose specification does not have it: `std::unexpected` ends the
  -- program.
  terminated : Error
  -- A loop of the model had too little fuel.
  out_of_fuel : Error

-- A call that returns a value or throws.
pub data Result {ℓ} (A : Type ℓ) : Type ℓ where
  err : Error → Result A
  ok : A → Result A

module _ {ℓ κ} {A : Type ℓ} {B : Type κ} where
  infixl 5 ◌>>=◌
  abbrev pub ◌>>=◌ : Result A → (A → Result B) → Result B
  err x >>= next = err x
  ok value >>= next = next value

  pub >>=-eq-ok :
      (first : Result A) (next : A → Result B) {r : B}
      → (first >>= next) ≡ ok r
      → (value : A) × (first ≡ ok value) × (next value ≡ ok r)
  >>=-eq-ok (err x) next e = cc
  >>=-eq-ok (ok value) next e = (value, refl, e)

pub ok-injective {ℓ} : {A : Type ℓ} {v w : A} → ok v ≡ ok w → v ≡ w
ok-injective e = cc

-- A call that changes an object: what was written before a throw stays written.
pub data Outcome {ℓ} (S : Type ℓ) : Type ℓ where
  done : S → Outcome S
  raised : Error → S → Outcome S

-- The rest of a block.
abbrev pub then_do {ℓ} : {S : Type ℓ} → Outcome S → (S → Outcome S) → Outcome S
then_do (done s) f = f s
then_do (raised e s) f = raised e s

-- The object that a call leaves, thrown out of or not.
abbrev pub state_of {ℓ} : {S : Type ℓ} → Outcome S → S
state_of (done s) = s
state_of (raised e s) = s

-- A statement of the object that a call returns with.
abbrev pub Ensures {ℓ κ} : {S : Type ℓ} → (S → Type κ) → Outcome S → Type κ
Ensures P (done s) = P s
Ensures P (raised e s) = Unit

module _ {ℓ κ} {S : Type ℓ} (P : S → Type κ) where
  pub Ensures-then_do {κ'} :
      (Q : S → Type κ') (o : Outcome S) (f : S → Outcome S)
      → Ensures P o
      → ((s : S) → P s → Ensures Q (f s))
      → Ensures Q (then_do o f)
  Ensures-then_do Q (done s) f h k = k s h
  Ensures-then_do Q (raised e s) f h k = tt

  pub Ensures-if :
      (b : Bool) (m n : Outcome S)
      → (b ≡ true → Ensures P m)
      → (b ≡ false → Ensures P n)
      → Ensures P (if b then m else n)
  Ensures-if true m n h k = h refl
  Ensures-if false m n h k = k refl

  pub Ensures-elim {μ} :
      {B : Type μ} (o : Option B) (m : Outcome S) (f : B → Outcome S)
      → Ensures P m
      → ((b : B) → Ensures P (f b))
      → Ensures P (elim o [ none ↦ m | some b ↦ f b ])
  Ensures-elim none m f h k = h
  Ensures-elim (some b) m f h k = k b
