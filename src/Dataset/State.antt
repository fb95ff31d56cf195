-- ===== src/Dataset/State.antt =====
-- What `SQLTextContainer::read` works on: three members of the container, and its local variables.
use sql_handler.Dataset.Parts.{Part, Diary, Section, no_parts, new_section, requirements}
use sql_handler.Prelude.{Bool, true, Option, none, List, [], Text, TextMap}

-- The members `_dataset`, `_where` and `_attribute`.
pub record Members : Type 0 where
  pub dataset : List Section
  pub where_buffer : Text
  pub attribute_buffer : Text

-- `reading_part` is not initialised in the source: `none`.
pub record Reader : Type 0 where
  pub members : Members
  pub open members use *
  pub start : Bool
  pub section : Section
  pub required : Diary
  pub complete : Diary
  pub reading_part : Option Part
  pub vars : TextMap Text

-- The local variables at the head of the loop.
unfoldable pub start_reading : Members → Reader
unfolding requirements new_section no_parts
start_reading m = record {
  members = m;
  start = true;
  section = new_section;
  required = requirements;
  complete = no_parts;
  reading_part = none;
  vars = [];
}
