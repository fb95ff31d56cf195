-- ===== src/Dataset/Rows.antt =====
-- What a row of a dataset file adds to the section that is read: the part of
-- container/SQLTextContainer.cc that needs no regular expression.
use sql_handler.Dataset.Parts.{
  Part, Section, section_tag, api, server, port, dbname, user, pass, select_tag, from_tag,
  where_tag, other_tag, set_part, test_part,
}
use sql_handler.Dataset.State.{Reader}
use sql_handler.Outcome.{Result, ok, err, Outcome, done, raised, internal, syntax_user, undefined}
use sql_handler.Prelude.{
  ◌-◌, true, Option, none, some, ◌++◌, Text, TextMap, codes, text_eq, take, lookup, insert_new,
  if◌then◌else◌,
}
use sql_handler.Query.{add_from}
use sql_handler.Regex.{Span, span_text, substr}

-- `_where += " " + row`
unfoldable pub append_where : Reader → Text → Reader
append_where r row = record r {
  members = record r.members { where_buffer = r.where_buffer ++ codes " " ++ row };
  complete = set_part where_tag true r.complete;
}

-- `_attribute += " " + row`
unfoldable pub append_attribute : Reader → Text → Reader
append_attribute r row = record r {
  members = record r.members { attribute_buffer = r.attribute_buffer ++ codes " " ++ row };
  complete = set_part select_tag true r.complete;
}

-- `new_section.query.addFrom(" " + row)`
unfoldable pub append_from : Reader → Text → Reader
unfolding add_from
append_from r row = record r {
  section = record r.section { query = add_from r.section.query (codes " " ++ row) };
  complete = set_part from_tag true r.complete;
}

-- The branches of `addFreeForm`.
unfoldable pub free_form : Part → Reader → Text → Outcome Reader
unfolding append_where append_attribute append_from
free_form Part.section_tag r row = raised syntax_user r
free_form Part.select_tag r row = done (append_attribute r row)
free_form Part.from_tag r row = done (append_from r row)
free_form Part.where_tag r row = done (append_where r row)
free_form _ r row = done r

-- `addFreeForm`; it reads `reading_part`, set or not.
unfoldable pub add_free_form : Reader → Text → Outcome Reader
unfolding free_form
add_free_form r row = elim r.reading_part [ none ↦ raised undefined r | some p ↦ free_form p r row ]

-- `complete.set(part, true)` for a key of the section part.
abbrev key_found : Part → Section → Reader → Reader
key_found p s r = record r { section = s; complete = set_part p true r.complete }

-- `if (complete.test(part)) complete.set(section_tag, true)`
abbrev section_if : Part → Reader → Reader
section_if p r =
    if test_part p r.complete
    then record r { complete = set_part section_tag true r.complete }
    else r

-- A key and its value in the section part.
unfoldable pub section_key : Reader → Text → Text → Outcome Reader
section_key r key val =
    if text_eq key (codes "api")
    then done (section_if server (key_found api (record r.section { api = val }) r))
    else if text_eq key (codes "server")
    then done (section_if api (key_found server (record r.section { server = val }) r))
    else if text_eq key (codes "port")
    then done (key_found port (record r.section { port = val }) r)
    else if text_eq key (codes "dbname")
    then done (key_found dbname (record r.section { dbname = val }) r)
    else if text_eq key (codes "user")
    then done (key_found user (record r.section { user = val }) r)
    else if text_eq key (codes "pass")
    then done (key_found pass (record r.section { pass = val }) r)
    else raised syntax_user r

-- The branches of `addKeyValue`.
unfoldable pub key_value : Part → Reader → Text → Text → Text → Outcome Reader
unfolding section_key append_where append_attribute append_from
key_value Part.section_tag r row key val = section_key r key val
key_value Part.other_tag r row key val =
    done (key_found other_tag (record r.section { other = insert_new key val r.section.other }) r)
key_value Part.select_tag r row key val = done (append_attribute r row)
key_value Part.from_tag r row key val = done (append_from r row)
key_value Part.where_tag r row key val = done (append_where r row)
key_value _ r row key val = done r

-- `addKeyValue`
unfoldable pub add_key_value : Reader → Text → Option Span → Option Span → Outcome Reader
unfolding key_value
add_key_value r row none val = raised internal r
add_key_value r row (some k) none = raised internal r
add_key_value r row (some k) (some v) = elim r.reading_part [
  | none ↦ raised undefined r
  | some p ↦ key_value p r row (span_text row k) (span_text row v)
]

-- `defineVariable`: the first definition of a variable stays.
unfoldable pub define_variable : Reader → Text → Option Span → Option Span → Outcome Reader
define_variable r row none val = raised internal r
define_variable r row (some k) none = raised internal r
define_variable r row (some k) (some v) =
    let var = span_text row k in
    let value = span_text row v in
    if text_eq var value
    then raised syntax_user r
    else done (record r { vars = insert_new var value r.vars })

-- `variableSubstitution`: the new row. Behind the value it takes over as many characters of the
-- row as the variable had.
unfoldable pub variable_substitution : TextMap Text → Text → Option Span → Result Text
variable_substitution vars row none = err internal
variable_substitution vars row (some (so, eo)) = elim (lookup (span_text row (so, eo)) vars) [
  | none ↦ err internal
  | some value ↦ ok (take so row ++ value ++ substr row eo (eo - so))
]
