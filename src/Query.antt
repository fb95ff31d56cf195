-- ===== src/Query.antt =====
-- container/SQLQuery.h and container/SQLQuery.cc: the SELECT, FROM and WHERE parts of a section.
pub mod Attributes
pub mod Constraints
pub mod Select
use Attributes.{Attribute, name_less, position_less, new_attribute}
use Constraints.{Constraint, Placement, insert_constraint, new_constraint}
use sql_handler.Outcome.{Result, ok, err, undefined, ◌>>=◌}
use sql_handler.Prelude.{
  ℕ, zero, suc, Bool, true, false, Option, none, some, List, [], ◌∷◌, ◌++◌, Text, codes,
  if◌then◌else◌,
}
use sql_handler.Regex.{Regex, cont_reg_attr, cont_reg_constr_base}
use sql_handler.SortedSet
use sql_handler.StringMatch.{Matches, match_vectors}

-- `select` is a set ordered by name.
pub record Query : Type 0 where
  pub select : List Attribute
  pub from_part : Text
  pub where_set : List Constraint

-- The constructor.
unfoldable pub new_query : Query
new_query = record { select = []; from_part = []; where_set = [] }

-- `addFrom`
unfoldable pub add_from : Query → Text → Query
add_from q s = record q { from_part = q.from_part ++ s }

-- `setFrom`
unfoldable set_from : Query → Text → Query
set_from q f = record q { from_part = f }

-- `addSelect`
unfoldable add_select : Query → Attribute → Query
add_select q s = record q { select = SortedSet.insert name_less s q.select }

-- `setSelect`
unfoldable pub set_select : Query → List Attribute → Query
set_select q s = record q { select = s }

-- `setWhere`
unfoldable pub set_where : Query → List Constraint → Query
set_where q c = record q { where_set = c }

-- The loop that takes the whole list of the dataset.
unfoldable pub select_dataset : List Attribute → List Attribute → List Attribute
select_dataset [] attr = attr
select_dataset (d ∷ rest) attr = select_dataset rest (SortedSet.insert position_less d attr)

abbrev pub or_dataset : List Attribute → List Attribute → List Attribute
or_dataset dataset [] = select_dataset dataset []
or_dataset dataset (a ∷ attr) = a ∷ attr

abbrev pub is_found : Option Attribute → Bool
is_found none = false
is_found (some a) = true

module _ (rx : Regex) where
  -- The loop of `loadAttributes` from match `i` on.
  unfoldable pub insert_attributes : ℕ → List (List Text) → List Attribute → Result (List Attribute)
  insert_attributes i [] ret = ok ret
  insert_attributes i ([] ∷ rest) ret = err undefined
  insert_attributes i ((first_matched ∷ _) ∷ rest) ret = do
    sql_attr ← new_attribute rx first_matched i
    insert_attributes (suc i) rest (SortedSet.insert name_less sql_attr ret)

  -- `loadAttributes`: the set, and what is left of the argument, which is a reference.
  unfoldable pub load_attributes : Text → Result (List Attribute) × Text
  unfolding insert_attributes
  load_attributes attr = elim (match_vectors rx cont_reg_attr (2 ∷ []) attr) [
    | err e ↦ (err e, attr)
    | ok (l, rest) ↦ (insert_attributes 0 l [], rest)
  ]

  module _ (place : Placement) where
    -- The loop of `loadConstraints`.
    unfoldable pub insert_constraints :
        List (List Text) → List Constraint → Result (List Constraint)
    insert_constraints [] ret = ok ret
    insert_constraints ((attr ∷ comp ∷ val ∷ _) ∷ rest) ret = do
      c ← new_constraint rx attr comp val
      insert_constraints rest (insert_constraint place c ret)
    insert_constraints (_ ∷ rest) ret = err undefined

    -- `loadConstraints`
    unfoldable pub load_constraints : Text → Result (List Constraint) × Text
    unfolding insert_constraints
    load_constraints where_text =
        elim (match_vectors rx cont_reg_constr_base (1 ∷ 4 ∷ 5 ∷ []) where_text) [
          | err e ↦ (err e, where_text)
          | ok (l, rest) ↦ (insert_constraints l [], rest)
        ]

  -- One attribute of the request, in the loop of `attrToSelect`.
  unfoldable pub select_one :
      Bool → List Attribute → Attribute → List Attribute → Result (List Attribute)
  select_one true dataset a attr = do
    plain ← new_attribute rx a.name a.position
    ok (SortedSet.insert position_less plain attr)
  select_one false dataset a attr = elim (SortedSet.find name_less a dataset) [
    | none ↦ ok attr
    | some d ↦ ok (SortedSet.insert position_less d attr)
  ]

  -- The loop over the attributes of the request.
  unfoldable pub select_each :
      Bool → List Attribute → List Attribute → List Attribute → Result (List Attribute)
  unfolding select_one
  select_each all dataset [] attr = ok attr
  select_each all dataset (a ∷ rest) attr = do
    attr' ← select_one all dataset a attr
    select_each all dataset rest attr'

  -- `attrToSelect`: the attributes, ordered by position.
  unfoldable pub attr_to_select : Query → Text → Result (List Attribute)
  unfolding load_attributes select_each select_dataset
  attr_to_select q on_the_fly = do
    on_the_fly_attr ← (load_attributes on_the_fly).0
    star ← new_attribute rx (codes "*") 0
    let all = is_found (SortedSet.find name_less star q.select)
    attr ← select_each all q.select on_the_fly_attr []
    ok (or_dataset q.select attr)
