-- ===== src/Odbc/Arrays.antt =====
-- The arrays that keep the attributes of the columns.
use sql_handler.Odbc.Columns.{replicate, set, set_in, entry}
use sql_handler.Outcome.{ok}
use sql_handler.Prelude.{
  ℕ, zero, suc, ◌<◌, ◌≡◌, refl, ap, ◌∙◌, Bool, true, false, Option, none, some, List, [], ◌∷◌,
  length, arith,
}

-- An array of `n` values, if there is one; `there` says that there is.
abbrev pub Sized {ℓ} : {A : Type ℓ} → ℕ → Bool → Option (List A) → Type 0
Sized n true none = ⊥
Sized n false none = Unit
Sized n there (some xs) = length xs ≡ n

pub length-replicate {ℓ} : {A : Type ℓ} (n : ℕ) (a : A) → length (replicate n a) ≡ n
length-replicate zero a = refl
length-replicate (suc n) a = ap suc (length-replicate n a)

pub length-set {ℓ} : {A : Type ℓ} (xs : List A) (i : ℕ) (v : A) → length (set xs i v) ≡ length xs
length-set [] i v = refl
length-set (x ∷ xs) zero v = refl
length-set (x ∷ xs) (suc i) v = ap suc (length-set xs i v)

pub Sized-set_in {ℓ} :
    {A : Type ℓ} (n : ℕ) (there : Bool) (a : Option (List A)) (i : ℕ) (x : A)
    → Sized n there a
    → Sized n there (set_in a i x)
Sized-set_in n true none i x h = absurd h
Sized-set_in n false none i x h = tt
Sized-set_in n true (some xs) i x h = length-set xs i x ∙ h
Sized-set_in n false (some xs) i x h = length-set xs i x ∙ h

pub Sized-maybe {ℓ} :
    {A : Type ℓ} (n : ℕ) (there : Bool) (a : Option (List A)) → Sized n there a → Sized n false a
Sized-maybe n true none h = absurd h
Sized-maybe n false none h = h
Sized-maybe n true (some xs) h = h
Sized-maybe n false (some xs) h = h

pub entry_in :
    {S A : Type 0} (xs : List A) (i : ℕ) (s : S)
    → i < length xs
    → (a : A) × (entry xs i s ≡ (s, ok a))
entry_in [] i s h = absurd (omega arith)
entry_in (x ∷ xs) zero s h = (x, refl)
entry_in (x ∷ xs) (suc i) s h = entry_in xs i s (omega arith)
