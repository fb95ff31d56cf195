-- ===== src/Tests/Rows.antt =====
-- Runs for rows of text: the cursor, the matching loops, and the reading of a dataset file.
use sql_handler.Cursor.{Cursor, set_next, reset}
use sql_handler.Cursor.Advance.{at_cell, set_next-cell}
use sql_handler.Cursor.Moves.{InBounds}
use sql_handler.Cursor.Past.{Ends, set_next_past}
use sql_handler.Cursor.Walk.{steps, HasCells, steps_visit_cells, steps_past_cells}
use sql_handler.Dataset.{read}
use sql_handler.Dataset.Reading.{read-IsFilled}
use sql_handler.Dataset.Rows.{variable_substitution}
use sql_handler.Dataset.State.{Members}
use sql_handler.Dataset.Substitution.{variable_substitution_exact}
use sql_handler.Outcome.{ok, state_of}
use sql_handler.Prelude.{
  All, has_any, ℕ, ◌≤◌, ◌≡◌, ◌↔◌, refl, true, false, some, List, [], ◌∷◌, ◌++◌, Text, TextMap,
  codes, lookup, text_eq, text_lt, arith,
}
use sql_handler.Query.Constraints.{Placement}
use sql_handler.Regex.{cont_reg_attr}
use sql_handler.Dataset.Complete.{IsFilled}
use sql_handler.Dataset.Parts.{test_part, meets}
use sql_handler.Query.{load_attributes}
use sql_handler.Query.Attributes.{new_attribute, name_less}
use sql_handler.SortedSet.{insert}
use sql_handler.StringMatch.{match_vectors, match_set, map_test, get_match}
use sql_handler.StringMatch.Ends.{Consumed, match_vectors-Consumed, match_set-Consumed}
use sql_handler.Tests.Sample.{sample, sample-FindsText}

-- Three rows of four columns, on the second cell of the first row.
abbrev second_cell : Cursor
second_cell = record {
  rows = 3;
  columns = 4;
  row_position = 0;
  column_position = 1;
  not_end = true;
}

second_cell-InBounds : InBounds second_cell
second_cell-InBounds = record { row_in = omega arith; col_in = omega arith; fits = omega arith }

second_cell-HasCells : HasCells second_cell
second_cell-HasCells = record {
  some_column = omega arith;
  some_row = omega arith;
  fits = omega arith;
}

set_next-cell_example : set_next second_cell 6 ≡ some (at_cell second_cell 7, 1)
set_next-cell_example = set_next-cell second_cell 6 second_cell-InBounds (omega arith)

set_next_past_example : (r : Cursor × ℕ) × (set_next second_cell 11 ≡ some r) × Ends second_cell r
set_next_past_example =
    set_next_past second_cell 11 second_cell-InBounds (omega arith) (omega arith)

steps_visit_cells_example :
    (steps (reset second_cell) 7 ≡ some (at_cell (reset second_cell) 7))
    × ((at_cell (reset second_cell) 7).not_end ≡ true)
steps_visit_cells_example = steps_visit_cells second_cell 7 second_cell-HasCells (omega arith)

steps_past_cells_example :
    (d : Cursor) × (steps (reset second_cell) 12 ≡ some d)
    × (d.not_end ≡ false)
    × (d.row_position ≡ 3)
steps_past_cells_example = steps_past_cells second_cell second_cell-HasCells

abbrev items : Text
items = codes "id,name,city"

match_vectors-Consumed_example :
    Consumed sample cont_reg_attr items (match_vectors sample cont_reg_attr (2 ∷ []) items)
match_vectors-Consumed_example =
    match_vectors-Consumed sample cont_reg_attr (2 ∷ []) sample-FindsText items refl

match_set-Consumed_example :
    Consumed sample cont_reg_attr items (match_set sample cont_reg_attr (2 ∷ []) items)
match_set-Consumed_example =
    match_set-Consumed sample cont_reg_attr (2 ∷ []) sample-FindsText items refl

abbrev host : TextMap Text
host = (codes "$host$", codes "db") ∷ []

-- The variable ends at 13, and so does the row.
variable_substitution_exact_example :
    (variable_substitution host (codes "server=$host$") (some (7, 13))
      ≡ ok (codes "server=" ++ codes "db" ++ []))
    ↔ (0 ≤ 6)
unfolding lookup text_eq
variable_substitution_exact_example =
    variable_substitution_exact host (codes "server=$host$") 7 13 (codes "db")
      (omega arith, omega arith) refl

abbrev first_place : Placement
first_place c s = 0

abbrev nothing_read : Members
nothing_read = record { dataset = []; where_buffer = []; attribute_buffer = [] }

-- A dataset file of one section.
abbrev file : List Text
file =
    codes "# stations"
    ∷ codes "[section]"
    ∷ codes "api=odbc"
    ∷ codes "server=db"
    ∷ codes "[select]"
    ∷ codes "id,name"
    ∷ codes "[from]"
    ∷ codes "stations"
    ∷ []

abbrev after_reading : Members
after_reading = (state_of (read sample first_place nothing_read (some file))).0

read-IsFilled_example :
    (after_reading.where_buffer ≡ [])
    × (after_reading.attribute_buffer ≡ [])
    × All IsFilled after_reading.dataset
    × (has_any after_reading.dataset ≡ true)
unfolding read text_eq test_part load_attributes match_vectors new_attribute match_set map_test
    get_match meets insert name_less text_lt
read-IsFilled_example =
    read-IsFilled sample first_place nothing_read after_reading (some file) refl refl tt refl
