-- ===== src/Odbc/Filled.antt =====
-- unixODBC/ODBCConnector.cc: the arrays of the columns, filled from the first column on.
use mathlib.Core.Path.{subst}
use sql_handler.Odbc.Arrays.{length-set, length-replicate}
use sql_handler.Odbc.Columns.{replicate, set, set_in, entry}
use sql_handler.Outcome.{Result, ok, err, undefined}
use sql_handler.Prelude.{
  ℕ, zero, suc, ◌<◌, ◌≡◌, ◌⊎◌, inl, inr, refl, sym, ap, ◌∙◌, Option, none, some, List, [], ◌∷◌,
  length, get_elem?, ltb, true, false, ◌≤◌, arith,
}

-- An array of `n` values, the first `k` of which are those of `f`.
abbrev pub Filled : {A : Type 0} → (ℕ → A) → ℕ → ℕ → Option (List A) → Type 0
Filled f k n none = ⊥
Filled f k n (some xs) = (length xs ≡ n) × ((j : ℕ) → j < k → get_elem? xs j ≡ some (f j))

get_elem?-set {ℓ} :
    {A : Type ℓ} (xs : List A) (i : ℕ) (v : A) → i < length xs → get_elem? (set xs i v) i ≡ some v
get_elem?-set [] i v h = absurd (omega arith)
get_elem?-set (x ∷ xs) zero v h = refl
get_elem?-set (x ∷ xs) (suc i) v h = get_elem?-set xs i v (omega arith)

get_elem?-set_after {ℓ} :
    {A : Type ℓ} (xs : List A) (i j : ℕ) (v : A) → j < i → get_elem? (set xs i v) j ≡ get_elem? xs j
get_elem?-set_after [] i j v h = refl
get_elem?-set_after (x ∷ xs) zero j v h = absurd (omega arith)
get_elem?-set_after (x ∷ xs) (suc i) zero v h = refl
get_elem?-set_after (x ∷ xs) (suc i) (suc j) v h = get_elem?-set_after xs i j v (omega arith)

last_or_before : (j k : ℕ) → j < suc k → (j < k) ⊎ (j ≡ k)
last_or_before j k h = grind arith

pub Filled-set_in :
    {A : Type 0} (f : ℕ → A) (k n : ℕ) (a : Option (List A))
    → k < n
    → Filled f k n a
    → Filled f (suc k) n (set_in a k (f k))
Filled-set_in f k n none h g = absurd g
Filled-set_in f k n (some xs) h g = (
  length-set xs k (f k) ∙ g.0,
  λ j l. elim (last_or_before j k l) [
    | inl b ↦ get_elem?-set_after xs k j (f k) b ∙ g.1 j b
    | inr e ↦
        subst (λ i. get_elem? (set xs k (f k)) i ≡ some (f i)) (sym e)
          (get_elem?-set xs k (f k) (omega (arith, h, g.0)))
  ],
)

pub Filled-replicate :
    {A : Type 0} (f : ℕ → A) (n : ℕ) (a : A) → Filled f 0 n (some (replicate n a))
Filled-replicate f n a = (length-replicate n a, λ j h. absurd (omega arith))

-- What an array that is full gives for a column.
pub entry-Filled :
    {S A : Type 0} (f : ℕ → A) (n : ℕ) (xs : List A) (c : ℕ) (s : S)
    → Filled f n n (some xs)
    → c < n
    → entry xs c s ≡ (s, ok (f c))
entry-Filled {S} {A} f n xs c s g h =
    ap (λ m. elim m as (λ y. S × Result A) [ none ↦ (s, err undefined) | some a ↦ (s, ok a) ])
      (g.1 c h)

pub below : (c m : ℕ) → c < m → ltb c m ≡ true
below c m h = ground arith

pub beyond : (c m : ℕ) → m ≤ c → ltb c m ≡ false
beyond c m h = ground arith
