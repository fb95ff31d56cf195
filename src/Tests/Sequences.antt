-- ===== src/Tests/Sequences.antt =====
-- Runs for the variables and the sequence of a response, over the result of the ODBC connector.
use mathlib.Core.List.{map}
use sql_handler.Cursor.{set_next}
use sql_handler.Odbc.Rows.{pointers, cursor_on}
use sql_handler.Odbc.Calls
use sql_handler.Odbc.Reads.{Behind}
use sql_handler.Odbc.State.{Connector, new_connector}
use sql_handler.Odbc.Stream.{Streams}
use sql_handler.Odbc.Types.{c_long, c_char, varchar, get_c_type}
use sql_handler.Outcome.{ok, err, sql_internal}
use sql_handler.Prelude.{
  ℕ, ◌≡◌, refl, inl, true, false, none, some, List, [], ◌∷◌, Text, codes, arith,
}
use sql_handler.Sequence.{Sequence, put_variables, read_sequence, first_sequence}
use sql_handler.Sequence.Failures.{read_sequence-closes}
use sql_handler.Sequence.Rows.{filled, after_read, at_row, read_sequence-row}
use sql_handler.Sequence.Sharing.{left, copied, dropped, run_uses, shared_by, run_uses-shared_by}
use sql_handler.Tests.Connectors.{grid, library, library-Fetches, grid-IsReadable, connected}
use sql_handler.Values.{Dap, int32, Heap, Variable}
use sql_handler.Values.Factory.{make_type}
use sql_handler.Values.Kinds.{text, buffer_of, HasColumn, made_of, make_type-kind_of, kind_of}
use sql_handler.Values.Reads.{Takes, Column, as_variable, HeapKept}

-- A value is the text that it was set to; a null pointer leads nowhere.
abbrev texts : Dap Text
texts = record {
  blank = [];
  set_value = λ s w. s;
  val2buf = λ t s w. elim s [ none ↦ err sql_internal | some u ↦ ok u ];
}

texts-Takes : Takes texts
texts-Takes = record { taken = λ t s w. s; val2buf_takes = λ t s w. refl }

abbrev wide : Connector ℕ
wide = record connected {
  cursor = cursor_on grid 1;
  types = some (c_long ∷ c_char ∷ []);
  names = some (codes "id" ∷ codes "city" ∷ []);
}

wide-HasColumn : HasColumn library texts wide (codes "city") varchar
unfolding new_connector get_c_type
wide-HasColumn = record {
  types = c_long ∷ c_char ∷ [];
  names = codes "id" ∷ codes "city" ∷ [];
  has_types = refl;
  has_names = refl;
  in_columns = omega arith;
  typed = refl;
  named = refl;
}

make_type-kind_of_example :
    make_type library texts wide ≡ (wide, made_of library texts (codes "city") 1 (kind_of varchar))
unfolding new_connector
make_type-kind_of_example =
    make_type-kind_of library texts wide (codes "city") varchar wide-HasColumn

abbrev in_front : Connector ℕ
in_front = record connected {
  ready = true;
  cursor = cursor_on grid 0;
  buffers = pointers 0 2;
  contents = [] ∷ [] ∷ [];
  to_fetch_rows = 1;
}

in_front-Streams : Streams library grid library-Fetches in_front 0
unfolding new_connector library-Fetches
in_front-Streams = record {
  is_ready = refl;
  on_cell = refl;
  bound = refl;
  room = refl;
  ahead = refl;
  filled = inl refl;
}

abbrev no_strings : Heap
no_strings = record { next = 1; string = λ p. none }

abbrev id_column : Column Text
id_column = record {
  name = codes "id";
  kind = buffer_of int32;
  col = 0;
  send_p = true;
  in_selection = false;
  last = none;
  value = [];
}

abbrev city_column : Column Text
city_column = record id_column { name = codes "city"; kind = text; col = 1 }

abbrev spare_column : Column Text
spare_column = record id_column { name = codes "spare"; send_p = false }

abbrev two_of_three : List (Column Text)
two_of_three = id_column ∷ spare_column ∷ city_column ∷ []

abbrev empty_sequence : Sequence ℕ Text
empty_sequence = record {
  world = record { connector = in_front; heap = no_strings };
  variables = [];
  read_p = false;
  unsent_data = true;
  row_number_reset = false;
}

-- The first row, read by the two variables that are wanted.
read_sequence-row_example :
    (o' : Connector ℕ) × (h' : Heap) × (read_sequence library texts false (
        at_row library texts texts-Takes grid library-Fetches grid-IsReadable in_front no_strings
          two_of_three empty_sequence)
      ≡ (
        put_variables
            (record { connector = o'; heap = h' })
            (map (after_read library texts texts-Takes grid library-Fetches grid-IsReadable) (
              filled library texts texts-Takes grid library-Fetches grid-IsReadable 0 two_of_three))
            empty_sequence,
        ok false,
      ))
    × HeapKept no_strings h'
    × Behind library grid library-Fetches grid-IsReadable o' 2
read_sequence-row_example =
    read_sequence-row library texts texts-Takes grid library-Fetches grid-IsReadable empty_sequence
      in_front no_strings two_of_three 0 (omega arith) refl refl (λ p l. refl) in_front-Streams

-- In front of the last cell, with two variables that want one.
abbrev too_many : Sequence ℕ Text
too_many = record empty_sequence {
  world = record {
    connector = record in_front {
      cursor = cursor_on grid 3;
      contents = codes "2" ∷ codes "Oslo" ∷ [];
      to_fetch_rows = 0;
    };
    heap = no_strings;
  };
  variables = as_variable false city_column ∷ as_variable false city_column ∷ [];
}

abbrev after_too_many : Sequence ℕ Text
after_too_many = (read_sequence library texts false too_many).0

read_sequence-closes_example :
    (sql_internal ≡ sql_internal)
    × ((o : Connector ℕ) × (after_too_many.world.connector ≡ (Calls.close library o).0))
    × (after_too_many.world.connector.ready ≡ false)
    × ((next : ℕ)
        → Calls.get_next library next after_too_many.world.connector
          ≡ (after_too_many.world.connector, err sql_internal))
unfolding new_connector read_sequence Calls.get_next set_next
read_sequence-closes_example =
    read_sequence-closes library texts false too_many after_too_many sql_internal refl refl

run_uses-shared_by_example :
    run_uses library (first_sequence in_front) (copied ∷ dropped ∷ dropped ∷ [])
    ≡ record { connector = shared_by library in_front 0; count = 0 }
unfolding new_connector left
run_uses-shared_by_example =
    run_uses-shared_by library in_front (copied ∷ dropped ∷ dropped ∷ []) 0 refl refl

abbrev values_of : List (Variable Text) → List Text
values_of [] = []
values_of (x ∷ xs) = x.value ∷ values_of xs

abbrev first_row : Sequence ℕ Text
first_row = record empty_sequence {
  variables = as_variable false id_column ∷ as_variable false city_column ∷ [];
}

first_row_values :
    values_of (read_sequence library texts false first_row).0.variables
    ≡ codes "1" ∷ codes "Bergen" ∷ []
unfolding new_connector read_sequence Calls.get_next set_next
first_row_values = refl

-- With debugging on each variable takes the cell behind its own.
first_row_debugged :
    values_of (read_sequence library texts true first_row).0.variables
    ≡ codes "Bergen" ∷ codes "Oslo" ∷ []
unfolding new_connector read_sequence Calls.get_next set_next
first_row_debugged = refl
