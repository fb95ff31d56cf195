-- ===== src/Sql.antt =====
-- The query half of container/SQLTextContainer.cc: the SQL text for the section in use, and the
-- constraint of the request.
pub mod Comparators
pub mod Where
pub mod Shape
use sql_handler.Dataset.Parts.{Section}
use sql_handler.Outcome.{Result, ok, err, Outcome, done, raised, internal_fatal, undefined, ◌>>=◌}
use sql_handler.Prelude.{
  ℕ, suc, Bool, Option, none, some, List, [], ◌∷◌, ◌++◌, Text, TextMap, codes, text_eq, lookup,
  take, drop, is_empty, ◌==◌, if◌then◌else◌,
}
use sql_handler.Query.{Query, attr_to_select, load_constraints}
use sql_handler.Query.Attributes.{Attribute, name_less}
use sql_handler.Query.Constraints.{
  Constraint, Placement, insert_constraint, set_substitute, sql_comparator, to_string,
}
use sql_handler.Regex.{Regex}
use sql_handler.SortedSet

-- `getOther(buf)`: the value under a key of the [other] part.
unfoldable pub get_other : Section → Text → Option Text
get_other s buf = lookup buf s.other

-- The constraint with its substitute, where `comparatorSubst` makes one.
unfoldable pub substituted : Section → Constraint → Option Constraint
unfolding get_other set_substitute
substituted s c = elim (get_other s c.comparator) [
  | some comparator ↦ some (set_substitute c (codes " " ++ comparator ++ codes " "))
  | none ↦
      if text_eq c.comparator (codes "!=")
      then some (set_substitute c (codes "<>"))
      else if text_eq c.comparator (codes "~=")
      then some (set_substitute c (codes " LIKE "))
      else none
]

-- `comparatorSubst`, on a set whose constraints in front of the iterator are `passed`. Where it makes
-- a substitute it erases the element that the iterator stands on, inserts the new one, and then
-- increments the iterator, which is undefined.
unfoldable pub comparator_subst :
    Placement → Section → List Constraint → List Constraint → Outcome (List Constraint)
unfolding substituted
comparator_subst place s passed [] = done passed
comparator_subst place s passed (c ∷ cs) = elim (substituted s c) [
  | some c' ↦ raised undefined (insert_constraint place c' (passed ++ cs))
  | none ↦ comparator_subst place s (passed ++ c ∷ []) cs
]

-- The set that a call leaves, unless it does not return.
abbrev pub set_left : Outcome (List Constraint) → Result (List Constraint)
set_left (done s) = ok s
set_left (raised e s) = err e

-- `buf.find("&")`
unfoldable pub find_amp : Text → Option ℕ
find_amp [] = none
find_amp (c ∷ s) =
    let later : Option ℕ = elim (find_amp s) [ none ↦ none | some i ↦ some (suc i) ] in
    if c == b'&' then some 0 else later

-- The attributes and the constraints of a request.
unfoldable pub split_request : Text → Text × Text
unfolding find_amp
split_request buf = elim (find_amp buf) [
  | none ↦ (buf, [])
  | some split ↦ if split == 0 then ([], buf) else (take split buf, drop (suc split) buf)
]

-- The attributes behind the first one.
unfoldable pub join_rest : List Attribute → Text
join_rest [] = []
join_rest (a ∷ rest) = (codes "," ++ a.attribute) ++ join_rest rest

-- The attributes, joined.
unfoldable pub select_clause : List Attribute → Text
unfolding join_rest
select_clause [] = []
select_clause (a ∷ rest) = a.attribute ++ join_rest rest

-- The dataset's constraints behind the first one.
unfoldable pub where_rest : List Constraint → Text
unfolding to_string
where_rest [] = []
where_rest (c ∷ rest) = (codes " AND " ++ to_string c) ++ where_rest rest

-- The dataset's constraints, joined.
unfoldable pub where_clause : List Constraint → Text
unfolding where_rest
where_clause [] = []
where_clause (c ∷ rest) = to_string c ++ where_rest rest

-- One constraint of the request: the attribute's full name, if the dataset has the attribute, and
-- nothing in its place if not.
unfoldable pub request_constraint : List Attribute → Constraint → Text
unfolding to_string
request_constraint select c =
    elim (SortedSet.find name_less c.attribute select) [ none ↦ [] | some a ↦ a.full_name ]
    ++ sql_comparator c
    ++ c.value

-- The loop over the constraints of the request, behind the text `buf`.
unfoldable pub append_constraints : List Attribute → Text → List Constraint → Text
unfolding request_constraint
append_constraints select buf [] = buf
append_constraints select buf (c ∷ rest) =
    append_constraints select
      ((if is_empty buf then buf else buf ++ codes " AND ") ++ request_constraint select c) rest

-- `if (!buf.empty()) query += " WHERE " + buf`
abbrev pub where_text : Text → Text
where_text buf = if is_empty buf then [] else codes " WHERE " ++ buf

-- The constraints of the request behind `buf`, once they are loaded.
unfoldable pub request_where : Placement → Section → Result (List Constraint) → Text → Result Text
unfolding comparator_subst append_constraints
request_where place s loaded buf = do
  in_constr ← loaded
  in_constr' ← set_left (comparator_subst place s [] in_constr)
  ok (append_constraints s.query.select buf in_constr')

module _ (rx : Regex) (place : Placement) where
  -- The WHERE part of `buildQuery`, from the constraints of the request.
  unfoldable pub build_where : Section → Text → Result Text
  unfolding comparator_subst where_clause request_where
  build_where s constraints = do
    where_set ← set_left (comparator_subst place s [] s.query.where_set)
    let buf = where_clause where_set
    if is_empty constraints
        then ok buf
        else request_where place s (load_constraints rx place constraints).0 buf

  -- The end of `buildQuery`, from the SELECT clause on.
  unfoldable pub finish_query : Section → Text → Text → Result Text
  unfolding build_where
  finish_query s columns constraints = do
    text ← build_where s constraints
    ok (
        codes "SELECT "
        ++ columns
        ++ codes " FROM "
        ++ s.query.from_part
        ++ where_text text
        ++ codes ";")

  -- `buildQuery` for the section in use, and the request once `BESUtil::www2id` has unescaped it.
  unfoldable pub build_query : Section → Text → Result Text
  unfolding split_request select_clause finish_query
  build_query s buf = do
    attrs ← attr_to_select rx s.query (split_request buf).0
    if is_empty (select_clause attrs)
        then err internal_fatal
        else finish_query s (select_clause attrs) (split_request buf).1

  -- The WHERE part of `buildCountQuery`. `loadConstraints` takes its matches out of the string, and
  -- what is left of it stays in front.
  unfoldable pub count_where : Section → Result Text
  unfolding comparator_subst where_clause request_where
  count_where s = do
    where_set ← set_left (comparator_subst place s [] s.query.where_set)
    let constraints = where_clause where_set
    let loaded = load_constraints rx place constraints
    if is_empty constraints then ok constraints else request_where place s loaded.0 loaded.1

  -- `buildCountQuery` reads nothing of the request.
  unfoldable pub build_count_query : Section → Result Text
  unfolding count_where
  build_count_query s = do
    constraints ← count_where s
    ok (codes "SELECT COUNT(*) FROM " ++ s.query.from_part ++ where_text constraints ++ codes ";")
