-- ===== src/Query/Constraints.antt =====
-- container/SQLConstraint.h: a constraint, and the sets of constraints.

use sql_handler.Outcome.{Result, ok, ◌>>=◌}
use sql_handler.Prelude.{
  ℕ, Bool, true, false, ◌&&◌, List, [], ◌∷◌, ◌++◌, Text, text_lt, is_empty, take, drop,
  if◌then◌else◌,
}
use sql_handler.Query.Attributes.{Attribute, new_attribute}
use sql_handler.Regex.{Regex}

pub record Constraint : Type 0 where
  pub attribute : Attribute
  pub comparator : Text
  pub substitute : Text
  pub value : Text

-- `operator<`
unfoldable pub constraint_less : Constraint → Constraint → Bool
constraint_less a c =
    if text_lt c.attribute.attribute a.attribute.attribute
      && text_lt c.comparator a.comparator
      && text_lt c.value a.value
    then false
    else true

-- The substitute if there is one, else the comparator.
abbrev pub sql_comparator : Constraint → Text
sql_comparator c = if is_empty c.substitute then c.comparator else c.substitute

-- `toString`
unfoldable pub to_string : Constraint → Text
to_string c = c.attribute.attribute ++ sql_comparator c ++ c.value

-- `setSubstitute`
unfoldable pub set_substitute : Constraint → Text → Constraint
set_substitute c subst = record c { substitute = subst }

-- `setAttribute`
unfoldable set_attribute : Constraint → Attribute → Constraint
set_attribute c attr = record c { attribute = attr }

-- `setVal`
unfoldable set_constraint_value : Constraint → Text → Constraint
set_constraint_value c val = record c { value = val }

-- `setComparator`
unfoldable set_comparator : Constraint → Text → Constraint
set_comparator c comp = record c { comparator = comp }

-- The constructor from an attribute.
unfoldable constraint_of : Attribute → Text → Text → Text → Constraint
constraint_of attr comp val subst = record {
  attribute = attr;
  comparator = comp;
  substitute = subst;
  value = val;
}

-- The constructor from three strings.
unfoldable pub new_constraint : Regex → Text → Text → Text → Result Constraint
new_constraint rx attr comp val = do
  a ← new_attribute rx attr 0
  ok (record { attribute = a; comparator = comp; substitute = []; value = val })

-- `operator<` is no strict order, as `std::set` asks, so the C++ library leaves open where in the
-- set it puts a constraint. The place is a parameter of the model.
abbrev pub Placement : Type 0
Placement = Constraint → List Constraint → ℕ

-- `s.insert(c)`. No two constraints are equivalent under `operator<`, so none is left out.
unfoldable pub insert_constraint : Placement → Constraint → List Constraint → List Constraint
insert_constraint place c s = take (place c s) s ++ (c ∷ drop (place c s) s)
