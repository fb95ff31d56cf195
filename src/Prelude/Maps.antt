-- ===== src/Prelude/Maps.antt =====
-- `std::map<string, V>` as an association list. The order of its entries is not modelled:
-- where the program iterates over such a map, what it does holds for any order.
use mathlib.Core.List.{List, [], ◌∷◌}
use mathlib.Core.Option.{Option, none, some}
use mathlib.Core.Path.{◌≡◌, refl}
use native.Mathlib.Omega.{arith}
use sql_handler.Prelude.Tests.{Text, text_eq, text_eq_iff, if◌then◌else◌}

abbrev pub TextMap {ℓ} : Type ℓ → Type ℓ
TextMap V = List (Text × V)

module _ {ℓ} {V : Type ℓ} where
  -- `m.find(k)`
  unfoldable pub lookup : Text → TextMap V → Option V
  lookup k [] = none
  lookup k ((j, v) ∷ m) = if text_eq j k then some v else lookup k m

  -- `m.insert(make_pair(k, v))`: a key that is there keeps its value.
  unfoldable pub insert_new : Text → V → TextMap V → TextMap V
  insert_new k v [] = (k, v) ∷ []
  insert_new k v ((j, w) ∷ m) = if text_eq j k then (j, w) ∷ m else (j, w) ∷ insert_new k v m

  -- An assignment through an iterator to the entry of `k`, or a new entry.
  unfoldable pub put : Text → V → TextMap V → TextMap V
  put k v [] = (k, v) ∷ []
  put k v ((j, w) ∷ m) = if text_eq j k then (k, v) ∷ m else (j, w) ∷ put k v m

  -- `m.erase(m.find(k))`
  unfoldable pub without : Text → TextMap V → TextMap V
  without k [] = []
  without k ((j, v) ∷ m) = let rest = without k m in if text_eq j k then rest else (j, v) ∷ rest

  pub lookup-insert_new :
      (k j : Text) (v : V) (m : TextMap V)
      → lookup j (insert_new k v m) ≡ (
          if text_eq k j
          then (elim (lookup k m) [ none ↦ some v | some w ↦ some w ])
          else lookup j m)
  unfolding lookup insert_new
  lookup-insert_new k j v [] = refl
  lookup-insert_new k j v ((i, w) ∷ m) =
      ground (arith, text_eq_iff k j, text_eq_iff i k, text_eq_iff i j, lookup-insert_new k j v m)

  pub lookup-put :
      (k j : Text) (v : V) (m : TextMap V)
      → lookup j (put k v m) ≡ (if text_eq k j then some v else lookup j m)
  unfolding lookup put
  lookup-put k j v [] = refl
  lookup-put k j v ((i, w) ∷ m) =
      ground (arith, text_eq_iff k j, text_eq_iff i k, text_eq_iff i j, lookup-put k j v m)

  pub lookup-without :
      (k j : Text) (m : TextMap V)
      → lookup j (without k m) ≡ (if text_eq k j then none else lookup j m)
  unfolding lookup without
  lookup-without k j [] = ground arith
  lookup-without k j ((i, v) ∷ m) =
      ground (arith, text_eq_iff k j, text_eq_iff i k, text_eq_iff i j, lookup-without k j m)
