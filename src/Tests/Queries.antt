-- ===== src/Tests/Queries.antt =====
-- Runs for the SQL text: a section with two columns and one condition.
use mathlib.Core.List.{Mem, map}
use mathlib.Core.Path.{subst}
use sql_handler.Dataset.Parts.{Section}
use sql_handler.Outcome.{ok, raised, undefined, ok-injective}
use sql_handler.Prelude.{
  ◌⊎◌, ◌≡◌, refl, sym, ◌∙◌, true, false, List, [], ◌∷◌, ◌++◌, codes, All, has_any, text_eq, text_lt,
  lookup,
}
use sql_handler.Query.{Query, attr_to_select, is_found, load_constraints}
use sql_handler.Query.Attributes.{Attribute, position_less, name_less, new_attribute}
use sql_handler.Query.Constraints.{
  Constraint, Placement, set_substitute, to_string, new_constraint, insert_constraint,
}
use sql_handler.Query.Select.{HasNoStar, attr_to_select_sound}
use sql_handler.StringMatch.{match_vectors, match_set, map_test, get_match}
use sql_handler.SortedSet.{insert, find}
use sql_handler.SortedSet.Laws.{IsSorted}
use sql_handler.Sql.{build_query, substituted, get_other, comparator_subst, where_text}
use sql_handler.Sql.Shape.{build_query_shape}
use sql_handler.Sql.Where.{join, conditions}
use sql_handler.Tests.Sample.{sample}

abbrev id_column : Attribute
id_column = record {
  name = codes "id";
  full_name = codes "t.id";
  attribute = codes "t.id";
  position = 0;
}

abbrev name_column : Attribute
name_column = record {
  name = codes "name";
  full_name = codes "t.name";
  attribute = codes "t.name";
  position = 1;
}

abbrev positive : Constraint
positive = record {
  attribute = id_column;
  comparator = codes ">";
  substitute = [];
  value = codes "0";
}

abbrev named : Constraint
named = record {
  attribute = name_column;
  comparator = codes "!=";
  substitute = [];
  value = codes "x";
}

abbrev columns : Query
columns = record {
  select = id_column ∷ name_column ∷ [];
  from_part = codes " t";
  where_set = positive ∷ [];
}

abbrev stations : Section
stations = record {
  api = codes "odbc";
  server = codes "db";
  port = [];
  dbname = [];
  user = [];
  pass = [];
  query = columns;
  other = [];
}

abbrev at_front : Placement
at_front c s = 0

abbrev star_column : Attribute
star_column = record { name = codes "*"; full_name = []; attribute = codes "*"; position = 0 }

star_is : new_attribute sample (codes "*") 0 ≡ ok star_column
unfolding new_attribute match_set map_test get_match text_eq
star_is = refl

no_star : is_found (find name_less star_column columns.select) ≡ false
unfolding find name_less text_lt
no_star = refl

columns-HasNoStar : HasNoStar sample columns
columns-HasNoStar star h =
    subst (λ a. is_found (find name_less a columns.select) ≡ false) (ok-injective (sym star_is ∙ h))
      no_star

attr_to_select_sound_example :
    All (λ a. Mem a columns.select) (name_column ∷ [])
    × IsSorted position_less (name_column ∷ [])
    × ((has_any columns.select ≡ false) ⊎ (has_any (name_column ∷ []) ≡ true))
unfolding attr_to_select match_vectors new_attribute match_set text_eq map_test get_match insert
    find name_less text_lt
attr_to_select_sound_example =
    attr_to_select_sound sample columns (codes "name") (name_column ∷ []) columns-HasNoStar refl

build_query_shape_example :
    (columns : List Attribute) × (requested : List Constraint) × All
      (λ a. Mem a stations.query.select)
      columns
    × IsSorted position_less columns
    × ((load_constraints sample at_front (codes "id=7")).0 ≡ ok requested)
    × (codes "SELECT t.name FROM  t WHERE t.id>0 AND t.id=7;"
        ≡ codes "SELECT "
          ++ join (codes ",") (map (λ a. a.attribute) columns)
          ++ codes " FROM "
          ++ stations.query.from_part
          ++ where_text (
              join
                (codes " AND ")
                (conditions stations.query.select stations.query.where_set requested))
          ++ codes ";")
unfolding attr_to_select match_vectors new_attribute match_set text_eq map_test get_match insert
    find name_less text_lt to_string build_query lookup load_constraints new_constraint
    insert_constraint
build_query_shape_example =
    build_query_shape sample at_front stations (codes "name&id=7")
      (codes "SELECT t.name FROM  t WHERE t.id>0 AND t.id=7;") columns-HasNoStar (refl, tt) refl

abbrev unequal : Constraint
unequal = record positive { comparator = codes "!=" }

-- The set when the iterator is incremented: the new constraint is in it.
substitutes :
    comparator_subst at_front stations [] (positive ∷ unequal ∷ [])
    ≡ raised undefined (record unequal { substitute = codes "<>" } ∷ positive ∷ [])
unfolding comparator_subst substituted get_other lookup text_eq set_substitute insert_constraint
substitutes = refl
