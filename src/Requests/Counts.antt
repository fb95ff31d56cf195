-- ===== src/Requests/Counts.antt =====
-- What the calls do to `_theWrapCount`.
use sql_handler.Requests.{Method, wrapper, update_wrap_count}
use sql_handler.Cursor.{size_mod}
use sql_handler.Outcome.{Result, ok, err}
use sql_handler.Prelude.{
  ℕ, zero, suc, ◌+◌, ◌-◌, ◌%◌, ◌≡◌, refl, Bool, true, false, Option, none, some, List, [], ◌∷◌,
  Text, lookup, lookup-put, lookup-insert_new, lookup-without, text_eq, text_eq_refl, TextMap,
  insert_new, put, without, ◌≤◌, Option-cases, inl, inr, ◌==◌, if◌then◌else◌, arith,
}

-- A call of `add_sql_wrapper` or of `remove_sql_wrapper`.
pub data Call : Type 0 where
  wrap unwrap : Text → Call

-- How often a command stays wrapped; there is nothing to unwrap at zero.
unfoldable pub level : Text → List Call → ℕ → ℕ
level c [] n = n
level c (wrap d ∷ calls) n = level c calls (if text_eq d c then n + 1 else n)
level c (unwrap d ∷ calls) n = level c calls (if text_eq d c then n - 1 else n)

abbrev pub counted_as : ℕ → Option ℕ
counted_as zero = none
counted_as (suc n) = some (suc n)

abbrev pub offered : ℕ → Option Method
offered zero = none
offered (suc n) = some wrapper

abbrev pub bump : Text → ℕ → TextMap ℕ → TextMap ℕ
bump c zero m = insert_new c 1 m
bump c (suc n) m = put c (suc n + 1) m

abbrev pub shrink : Text → ℕ → TextMap ℕ → TextMap ℕ
shrink c zero m = without c m
shrink c (suc n) m = put c (suc n) m

pub suc_minus : (n : ℕ) → suc n - 1 ≡ n
suc_minus n = omega arith

pub lookup-bump :
    (c : Text) (n : ℕ) (m : TextMap ℕ)
    → lookup c m ≡ counted_as n
    → lookup c (bump c n m) ≡ counted_as (n + 1)
lookup-bump c zero m h = ground (arith, lookup-insert_new c c 1 m, text_eq_refl c, h)
lookup-bump c (suc n) m h = ground (arith, lookup-put c c (suc n + 1) m, text_eq_refl c)

pub lookup-shrink : (c : Text) (n : ℕ) (m : TextMap ℕ) → lookup c (shrink c n m) ≡ counted_as n
lookup-shrink c zero m = ground (arith, lookup-without c c m, text_eq_refl c)
lookup-shrink c (suc n) m = ground (arith, lookup-put c c (suc n) m, text_eq_refl c)

pub level_first :
    (c : Text) (call : Call) (calls : List Call) (n : ℕ)
    → (level c (call ∷ calls) n ≡ level c calls (level c (call ∷ []) n))
      × (level c (call ∷ []) n ≤ n + 1)
unfolding level
level_first c (wrap d) calls n = (refl, ground arith)
level_first c (unwrap d) calls n = (refl, ground arith)

-- What an update says of another command.
abbrev pub Keeps : Text → TextMap ℕ → Result (TextMap ℕ × Bool) → Type 0
Keeps c m (ok (m', b)) = lookup c m' ≡ lookup c m
Keeps c m (err e) = Unit

pub Keeps-if :
    (c : Text) (m : TextMap ℕ) (b : Bool) (x y : Result (TextMap ℕ × Bool))
    → Keeps c m x
    → Keeps c m y
    → Keeps c m (if b then x else y)
Keeps-if c m true x y h k = h
Keeps-if c m false x y h k = k

pub update-Keeps :
    (c d : Text) (add : Bool) (m : TextMap ℕ)
    → text_eq d c ≡ false
    → Keeps c m (update_wrap_count m d add)
unfolding update_wrap_count
update-Keeps c d add m ne = elim (Option-cases (lookup d m)) [
  | inl e ↦
      rw (update_wrap_count, e)
        (Keeps-if c m add _ _ (ground (arith, lookup-insert_new d c 1 m, ne)) tt)
  | inr (n, e) ↦
      rw (update_wrap_count, e)
        (Keeps-if c m add _ _ (ground (arith, lookup-put d c ((n + 1) % size_mod) m, ne)) (
          Keeps-if c m ((n + size_mod - 1) % size_mod == 0) _ _
            (ground (arith, lookup-without d c m, ne))
            (ground (arith, lookup-put d c ((n + size_mod - 1) % size_mod) m, ne))))
]
