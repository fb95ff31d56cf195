-- ===== src/Actions/Dynamic.antt =====
-- action/SQLDynamicActionList.h and action/SQLDynamicActionFactory.h, with the parts of utils/SmartList.h
-- and utils/SmartMap.h that they use: the lists of actions that are added for each code.
pub mod Left
pub mod Codes
pub mod Added
use sql_handler.Actions.{Action}
use sql_handler.Actions.Lists.{ListClass}
use sql_handler.Call.{Call}
use sql_handler.Outcome.{Result, ok, err, sql_internal, undefined}
use sql_handler.Prelude.{
  ℕ, suc, Bool, true, false, not, ◌&&◌, Option, none, some, List, [], ◌∷◌, ◌++◌, ltb, length,
  get_elem?, if◌then◌else◌,
}

-- An iterator of a `std::list`: it stays where it is when an action is pushed back, also behind the
-- last one.
pub data Position : Type 0 where
  unset past_end : Position
  at_element : ℕ → Position

-- `SQLDynamicActionList`
pub record DynamicList (W Args Out : Type 0) : Type 0 where
  pub actions : List (Action W Args Out)
  pub iterator : Position

module _ {W Args Out : Type 0} where
  -- The constructor leaves the iterator as it is made.
  unfoldable pub new_dynamic_list : DynamicList W Args Out
  new_dynamic_list = record { actions = []; iterator = unset }

  -- `SmartList::push_back`
  unfoldable pub push_back : Action W Args Out → DynamicList W Args Out → DynamicList W Args Out
  push_back a l = record l { actions = l.actions ++ a ∷ [] }

  -- `begin`
  unfoldable pub begin_of : List (Action W Args Out) → Position
  begin_of [] = past_end
  begin_of (a ∷ rest) = at_element 0

  -- The iterator behind the element `i`.
  unfoldable pub position_behind : ℕ → List (Action W Args Out) → Position
  position_behind i actions' =
      if ltb (suc i) (length actions') then at_element (suc i) else past_end

  -- `reset`
  unfoldable pub reset_dynamic : DynamicList W Args Out → DynamicList W Args Out
  unfolding begin_of
  reset_dynamic l = record l { iterator = begin_of l.actions }

  unfoldable pub has_next_dynamic : DynamicList W Args Out → Result Bool
  has_next_dynamic l = elim l.iterator [
    | unset ↦ err undefined
    | past_end ↦ ok false
    | at_element i ↦ ok true
  ]

  -- The action at an element; there is none in an empty list.
  unfoldable pub act_at : ℕ → Option Args → List (Action W Args Out) → W → W × Result (Option Out)
  act_at i args actions' w = elim (get_elem? actions' i) [
    | none ↦ (w, err undefined)
    | some a ↦ a args w
  ]

  -- `doNext`: from the end it resets the list and runs the first action, without a step behind it.
  unfoldable pub do_next_dynamic :
      Option Args → DynamicList W Args Out → W → DynamicList W Args Out × (W × Result (Option Out))
  unfolding act_at position_behind reset_dynamic
  do_next_dynamic args l w = elim l.iterator [
    | unset ↦ (l, (w, err undefined))
    | at_element i ↦
        (record l { iterator = position_behind i l.actions }, act_at i args l.actions w)
    | past_end ↦ (reset_dynamic l, act_at 0 args l.actions w)
  ]

  abbrev pub dynamic_class : ListClass (DynamicList W Args Out) W Args Out
  dynamic_class = record {
    has_next = has_next_dynamic;
    do_next = do_next_dynamic;
    get_size = λ l. length l.actions;
    reset = reset_dynamic;
  }

-- `_action_map`, in any order.
abbrev pub ActionMap : Type 0 → Type 0 → Type 0 → Type 0 → Type 0
ActionMap Code W Args Out = List (Code × DynamicList W Args Out)

-- The codes that `std::map` takes for one.
abbrev pub same_code : {Code : Type 0} → (Code → Code → Bool) → Code → Code → Bool
same_code less a b = not (less a b) && not (less b a)

module _ {Code W Args Out : Type 0} (less : Code → Code → Bool) where
  -- `SmartValueMap::find`
  unfoldable pub find_list : Code → ActionMap Code W Args Out → Option (DynamicList W Args Out)
  find_list code [] = none
  find_list code ((c, l) ∷ m) = if same_code less c code then some l else find_list code m

  -- The map when the list of a code has changed, or is inserted.
  unfoldable pub put_list :
      Code → DynamicList W Args Out → ActionMap Code W Args Out → ActionMap Code W Args Out
  put_list code l [] = (code, l) ∷ []
  put_list code l ((c, k) ∷ m) =
      if same_code less c code then (c, l) ∷ m else (c, k) ∷ put_list code l m

  -- `getActions`: the list that it gives, which stays in the map.
  unfoldable pub get_dynamic : Code → Call (ActionMap Code W Args Out) (DynamicList W Args Out)
  unfolding reset_dynamic
  get_dynamic code m = elim (find_list code m) [
    | none ↦ (m, err sql_internal)
    | some l ↦ (put_list code (reset_dynamic l) m, ok (reset_dynamic l))
  ]

  -- `addAction`, of a pointer that may be null.
  unfoldable pub add_action :
      Code → Option (Action W Args Out) → Call (ActionMap Code W Args Out) (Unit {0})
  unfolding push_back new_dynamic_list
  add_action code none m = (m, err sql_internal)
  add_action code (some a) m = elim (find_list code m) [
    | none ↦ (put_list code (push_back a new_dynamic_list) m, ok tt)
    | some l ↦ (put_list code (push_back a l) m, ok tt)
  ]
