-- ===== src/Dataset/Complete.antt =====
-- What `read` guarantees of the sections that it stores, and of its two buffers.
use sql_handler.Dataset.Parts.{Part, Section, set_part, test_part, requirements}
use sql_handler.Dataset.State.{Reader}
use sql_handler.Dataset.Rows.{
  append_where, append_attribute, append_from, free_form, add_free_form, section_key, key_value,
  add_key_value, define_variable,
}
use sql_handler.Outcome.{undefined, raised, Ensures, Ensures-elim}
use sql_handler.Prelude.{
  ◌≡◌, true, false, Option, none, some, [], Text, All, has_any, has_any-append, arith,
}
use sql_handler.Query.{add_from}
use sql_handler.Regex.{Span}

-- A section that a query can be built from.
pub record IsFilled (s : Section) : Type 0 where
  pub selects : has_any s.query.select ≡ true
  pub has_from : has_any s.query.from_part ≡ true

-- Between two rows: text waits in a buffer only if its part is in the diary, and a [from] part in
-- the diary has its text.
pub record Inv (r : Reader) : Type 0 where
  pub where_clean : r.complete.where_tag ≡ false → r.where_buffer ≡ []
  pub attribute_clean : r.complete.select_tag ≡ false → r.attribute_buffer ≡ []
  pub from_found : r.complete.from_tag ≡ true → has_any r.section.query.from_part ≡ true
  pub asked : r.required ≡ requirements
  pub filled : All IsFilled r.dataset

append_where-Inv : (r : Reader) (row : Text) → Inv r → Inv (append_where r row)
unfolding append_where set_part
append_where-Inv r row v = record {
  where_clean = λ e. cc;
  attribute_clean = v.attribute_clean;
  from_found = v.from_found;
  asked = v.asked;
  filled = v.filled;
}

append_attribute-Inv : (r : Reader) (row : Text) → Inv r → Inv (append_attribute r row)
unfolding append_attribute set_part
append_attribute-Inv r row v = record {
  attribute_clean = λ e. cc;
  where_clean = v.where_clean;
  from_found = v.from_found;
  asked = v.asked;
  filled = v.filled;
}

append_from-Inv : (r : Reader) (row : Text) → Inv r → Inv (append_from r row)
unfolding append_from set_part add_from
append_from-Inv r row v = record {
  where_clean = v.where_clean;
  attribute_clean = v.attribute_clean;
  from_found = λ e. has_any-append _ _ _;
  asked = v.asked;
  filled = v.filled;
}

free_form-Inv : (p : Part) (r : Reader) (row : Text) → Inv r → Ensures Inv (free_form p r row)
unfolding free_form
free_form-Inv Part.section_tag r row v = tt
free_form-Inv Part.select_tag r row v = append_attribute-Inv r row v
free_form-Inv Part.from_tag r row v = append_from-Inv r row v
free_form-Inv Part.where_tag r row v = append_where-Inv r row v
free_form-Inv _ r row v = v

section_key-Inv : (r : Reader) (key val : Text) → Inv r → Ensures Inv (section_key r key val)
unfolding section_key set_part test_part
section_key-Inv r key val v = ground arith

key_value-Inv :
    (p : Part) (r : Reader) (row key val : Text) → Inv r → Ensures Inv (key_value p r row key val)
unfolding key_value set_part
key_value-Inv Part.section_tag r row key val v = section_key-Inv r key val v
key_value-Inv Part.select_tag r row key val v = append_attribute-Inv r row v
key_value-Inv Part.from_tag r row key val v = append_from-Inv r row v
key_value-Inv Part.where_tag r row key val v = append_where-Inv r row v
key_value-Inv Part.other_tag r row key val v = record {
  where_clean = v.where_clean;
  attribute_clean = v.attribute_clean;
  from_found = v.from_found;
  asked = v.asked;
  filled = v.filled;
}
key_value-Inv _ r row key val v = v

pub add_free_form-Inv : (r : Reader) (row : Text) → Inv r → Ensures Inv (add_free_form r row)
unfolding add_free_form
add_free_form-Inv r row v = go r.reading_part
  where
    go :
        (o : Option Part)
        → Ensures Inv (elim o [ none ↦ raised undefined r | some p ↦ free_form p r row ])
    go none = tt
    go (some p) = free_form-Inv p r row v

pub add_key_value-Inv :
    (r : Reader) (row : Text) (k v : Option Span) → Inv r → Ensures Inv (add_key_value r row k v)
unfolding add_key_value
add_key_value-Inv r row none v h = tt
add_key_value-Inv r row (some k) none h = tt
add_key_value-Inv r row (some k) (some v) h =
    Ensures-elim Inv r.reading_part _ _ tt λ p. key_value-Inv p r row _ _ h

pub define_variable-Inv :
    (r : Reader) (row : Text) (k v : Option Span) → Inv r → Ensures Inv (define_variable r row k v)
unfolding define_variable
define_variable-Inv r row none v h = tt
define_variable-Inv r row (some k) none h = tt
define_variable-Inv r row (some k) (some v) h = ground arith
