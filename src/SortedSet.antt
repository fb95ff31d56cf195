-- ===== src/SortedSet.antt =====
-- `std::set` with a comparator, as the list of its elements in order.
pub mod Laws
use sql_handler.Prelude.{
  Bool, true, false, not, ◌&&◌, Option, none, some, List, [], ◌∷◌, if◌then◌else◌,
}

module _ {ℓ} {A : Type ℓ} (lt : A → A → Bool) where
  -- `s.insert(x)`: an element that neither precedes nor follows `x` stays in its place.
  unfoldable pub insert : A → List A → List A
  insert x [] = x ∷ []
  insert x (y ∷ ys) =
      let rest = insert x ys in if lt x y then x ∷ y ∷ ys else if lt y x then y ∷ rest else y ∷ ys

  -- `s.find(x)`
  unfoldable pub find : A → List A → Option A
  find x [] = none
  find x (y ∷ ys) = if not (lt x y) && not (lt y x) then some y else find x ys
