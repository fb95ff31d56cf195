-- ===== src/Query/Attributes.antt =====
-- container/SQLAttribute.h: an attribute, that is a column with its alias, and its two orders.
use sql_handler.Outcome.{Result, ok, err, internal, ◌>>=◌}
use sql_handler.Prelude.{ℕ, Bool, List, [], ◌∷◌, Text, text_lt, ltb, if◌then◌else◌}
use sql_handler.Regex.{Regex, reg_attr}
use sql_handler.StringMatch.{Matched, map_test, get_match, match_set}

-- `full_name` holds what stands in front of the name too.
pub record Attribute : Type 0 where
  pub name : Text
  pub full_name : Text
  pub attribute : Text
  pub position : ℕ

-- `setName`
unfoldable set_name : Attribute → Text → Attribute
set_name a n = record a { name = n }

-- `setFullName`
unfoldable set_full_name : Attribute → Text → Attribute
set_full_name a n = record a { full_name = n }

-- `setPosition`
unfoldable set_position : Attribute → ℕ → Attribute
set_position a pos = record a { position = pos }

-- `SQLAttrNameComp`
unfoldable pub name_less : Attribute → Attribute → Bool
name_less a1 a2 = text_lt a1.name a2.name

-- `SQLAttrAttrComp`
unfoldable pub attribute_less : Attribute → Attribute → Bool
attribute_less a1 a2 = text_lt a1.attribute a2.attribute

-- `SQLAttrPosComp`
unfoldable pub position_less : Attribute → Attribute → Bool
position_less a1 a2 = ltb a1.position a2.position

-- The groups of `_SQLH_REG_ATTR` that `loadAttribute` asks for.
abbrev pub attribute_groups : List ℕ
attribute_groups = 1 ∷ 3 ∷ 4 ∷ 8 ∷ 9 ∷ []

-- The prefix, and the index behind it in the array of matched strings.
unfoldable pub load_full_name : Matched → Result (Text × ℕ)
load_full_name m =
    if map_test m.map 1
    then (do s ← get_match m 0; ok (s, 1))
    else if map_test m.map 4
    then (do s ← get_match m 0; ok (s, 1))
    else ok ([], 0)

unfoldable pub load_name : Matched → ℕ → Result Text
load_name m i_matched =
    if map_test m.map 3
    then get_match m i_matched
    else if map_test m.map 8
    then get_match m i_matched
    else if map_test m.map 9
    then get_match m i_matched
    else err internal

-- The full name and the name of the one match.
unfoldable pub load_matched : List Matched → Result (Text × Text)
unfolding load_full_name load_name
load_matched [] = err internal
load_matched (m ∷ n ∷ rest) = err internal
load_matched (m ∷ []) = do
  (full_name, i_matched) ← load_full_name m
  name ← load_name m i_matched
  ok (full_name, name)

module _ (rx : Regex) where
  -- `loadAttribute`
  unfoldable pub load_attribute : Text → Result (Text × Text)
  unfolding load_matched
  load_attribute attr = do (l, _) ← match_set rx reg_attr attribute_groups attr; load_matched l

  -- The constructor.
  unfoldable pub new_attribute : Text → ℕ → Result Attribute
  unfolding load_attribute
  new_attribute attr pos = do
    (full_name, name) ← load_attribute attr
    ok (record { name = name; full_name = full_name; attribute = attr; position = pos })
