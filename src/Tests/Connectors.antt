-- ===== src/Tests/Connectors.antt =====
-- Runs for the ODBC connector on a library with one statement, whose result has two rows of two
-- columns, and for the actions on connectors.
use sql_handler.Actions.Errors.{ReturnCode, success, no_data, invalid_handle}
use sql_handler.Call.{Call}
use sql_handler.CheckPoint.{start}
use sql_handler.Connections.{Handler, connect, query, next_type}
use sql_handler.Connections.Failures.{Closes, closed, next_type_closes}
use sql_handler.Connections.Objects.{
  ActionObject, query_object, new_query_action, stopped, specified, run_object, object_action,
  next_action,
}
use sql_handler.Connections.Objects.Stops.{object_action-stops}
use sql_handler.Connections.Odbc.{odbc, query-get_next, connect-get_next}
use sql_handler.Odbc.Calls
use sql_handler.Odbc.Calls.{get_next}
use sql_handler.Odbc.Columns.{notify}
use sql_handler.Odbc.Messages.{SameData, notify-verdict, close-get_next}
use sql_handler.Odbc.Serves.{Serves}
use sql_handler.Odbc.Reads.{reads}
use sql_handler.Odbc.Result.{query-rows_of}
use sql_handler.Odbc.State.{Driver, Handle, Row, Params, Connector, new_connector}
use sql_handler.Odbc.Rows.{Fetches, IsReadable, cells}
use sql_handler.Odbc.Table.{Table, rows_of}
use sql_handler.Odbc.Types.{integer}
use sql_handler.Outcome.{
  Error, ok, err, internal, sql_internal, sql_internal_fatal, undefined, terminated, out_of_fuel,
}
use sql_handler.Prelude.{
  ℕ, zero, suc, ◌+◌, ◌<◌, ◌≡◌, ◌≢◌, ◌⊎◌, ◌↔◌, refl, inr, Bool, true, false, Option, none, some,
  List, [], ◌∷◌, Text, codes, length, ltb, if◌then◌else◌, arith,
}

abbrev grid_row : ℕ → List Text
grid_row zero = codes "1" ∷ codes "Bergen" ∷ []
grid_row (suc r) = codes "2" ∷ codes "Oslo" ∷ []

pub grid_width : (r : ℕ) → length (grid_row r) ≡ 2
grid_width zero = refl
grid_width (suc r) = refl

abbrev pub grid : Table
grid = record { rows = 2; cols = 2; row = grid_row; width = grid_width }

abbrev executed : Handle → ℕ → ℕ
executed Handle.stmt w = 0
executed Handle.env w = w
executed Handle.conn w = w
executed Handle.counter w = w

abbrev fetched : Handle → ℕ → ℕ × ReturnCode × Option Row
fetched Handle.stmt w =
    if ltb w 2 then (suc w, success, some (cells (grid_row w))) else (w, no_data, none)
fetched Handle.env w = (w, invalid_handle, none)
fetched Handle.conn w = (w, invalid_handle, none)
fetched Handle.counter w = (w, success, none)

-- The state is the number of rows fetched.
abbrev pub library : Driver ℕ
library = record {
  alloc_handle = λ h w. (w, success);
  set_version = λ w. (w, success);
  connect_to = λ server user pass w. (w, success);
  exec_direct = λ h q w. (executed h w, success);
  fetch_row = fetched;
  get_long = λ h w. (w, success, some 2);
  num_result_cols = λ w. (w, success, 2);
  col_type = λ c w. (w, success, integer);
  col_measure = λ m c w. (w, success, 8);
  col_name = λ c w. (w, success, codes "city");
  bind_col = λ c k n w. (w, success);
  get_diag = λ h n w. some (codes "08001");
  close_cursor = λ w. w;
  free_handle = λ h w. w;
  disconnect = λ w. w;
  roll_back = λ w. w;
}

pub below_two : (w : ℕ) → w < 2 → ltb w 2 ≡ true
below_two w h = ground arith

unfoldable pub library-Fetches : Fetches library grid
library-Fetches = record {
  position = λ w. w;
  next_row = λ w h. (suc w, success, rw (below_two w h) refl, refl);
}

library-Serves : Serves library grid
unfolding library-Fetches
library-Serves = record {
  reading = library-Fetches;
  executes = λ q w. refl;
  at_start = λ q w. refl;
  counts = λ q w. refl;
  count_row = λ w. refl;
  count_rc = λ w. refl;
  count_value = λ w. refl;
  width_rc = λ w. refl;
  width_value = λ w. refl;
  width_keeps = λ w. refl;
  type_rc = λ c w. refl;
  type_keeps = λ c w. refl;
  size_rc = λ c w. refl;
  size_keeps = λ c w. refl;
  bind_rc = λ c k n w. refl;
  bind_keeps = λ c k n w. refl;
}

pub grid-IsReadable : IsReadable grid
grid-IsReadable = record {
  some_column = omega arith;
  some_row = omega arith;
  fits = omega arith;
  in_status = omega arith;
}

abbrev cities : Params
cities = record {
  server = codes "db";
  user = codes "u";
  pass = codes "p";
  count_query = ok (codes "SELECT COUNT(*) FROM cities;");
  query_text = ok (codes "SELECT id,city FROM cities;");
}

abbrev pub connected : Connector ℕ
connected = record (new_connector 0 start) { params = some cities; has_factory = true }

query-rows_of_example :
    (o1 : Connector ℕ) × (o2 : Connector ℕ) × (Calls.query library connected ≡ (o1, ok true))
    × (reads library 4 o1 ≡ (o2, ok (rows_of grid 2)))
    × ((next : ℕ) → get_next library next o2 ≡ (o2, err sql_internal))
unfolding new_connector
query-rows_of_example =
    query-rows_of library grid library-Serves grid-IsReadable cities
      (codes "SELECT COUNT(*) FROM cities;") (codes "SELECT id,city FROM cities;") refl refl
      connected refl (inr (refl, refl))

-- The texts that the reads give.
grid_rows : rows_of grid 2 ≡ codes "1" ∷ codes "Bergen" ∷ codes "2" ∷ codes "Oslo" ∷ []
unfolding rows_of
grid_rows = refl

abbrev broken : Connector ℕ
broken = record connected { rc = ReturnCode.error }

notify-verdict_example :
    ((notify library 0 broken).1 ≡ err sql_internal_fatal)
    × SameData broken (notify library 0 broken).0
notify-verdict_example = notify-verdict library broken refl

close-get_next_example :
    (o' : Connector ℕ) × (Calls.close library connected ≡ (o', ok true))
    × (o'.ready ≡ false)
    × (o'.buffers ≡ [])
    × (o'.types ≡ none)
    × (o'.sizes ≡ none)
    × (o'.descs ≡ none)
    × (o'.names ≡ none)
    × (o'.cursor.row_position ≡ 0)
    × (o'.cursor.column_position ≡ 0)
    × (get_next library 1 o' ≡ (o', err sql_internal))
close-get_next_example = close-get_next library connected 1

fatal_exception :
    (sql_internal_fatal ≢ undefined)
    × (sql_internal_fatal ≢ terminated)
    × (sql_internal_fatal ≢ out_of_fuel)
fatal_exception = ((λ e. cc), (λ e. cc), λ e. cc)

-- No value is made of a column.
abbrev no_value : Call (Connector ℕ) (Option ℕ)
no_value o = (o, ok none)

abbrev std : Error → Bool
std e = true

-- Nothing to connect to.
abbrev idle : Connector ℕ
idle = new_connector 0 start

abbrev idle_odbc : Handler (Connector ℕ) (Option Params) ℕ
idle_odbc = odbc library no_value std false

query-get_next_example :
    ((sql_internal_fatal ≡ sql_internal) ⊎ (sql_internal_fatal ≡ sql_internal_fatal))
    × ((query idle_odbc false idle).0.ready ≡ false)
    × ((next : ℕ)
        → get_next library next (query idle_odbc false idle).0
          ≡ ((query idle_odbc false idle).0, err sql_internal))
unfolding new_connector query Calls.query Calls.close
query-get_next_example =
    query-get_next library no_value std false false idle (query idle_odbc false idle).0
      sql_internal_fatal (λ x. refl) refl fatal_exception

connect-get_next_example :
    (sql_internal_fatal ≡ sql_internal_fatal)
    × ((connect idle_odbc none false idle).0.ready ≡ false)
    × ((next : ℕ)
        → get_next library next (connect idle_odbc none false idle).0
          ≡ ((connect idle_odbc none false idle).0, err sql_internal))
unfolding new_connector connect Calls.connect_with Calls.close
connect-get_next_example =
    connect-get_next library no_value std false none false idle
      (connect idle_odbc none false idle).0 sql_internal_fatal refl fatal_exception

-- A connector that counts how often it is closed, and that cannot make a value.
abbrev counting : Handler ℕ ℕ ℕ
counting = record {
  connect = λ c w. (w, err internal);
  query = λ w. (w, err sql_internal);
  close = λ w. (w + 1, ok true);
  set_next = λ w. (w, ok 0);
  not_end = λ w. true;
  make_type = λ w. (w, err internal);
  has_factory = false;
  trigger = λ point w. (w, ok none);
  is_std = std;
}

counting-Closes : Closes counting
counting-Closes w = (true, refl)

-- A query that throws `SQLInternalError`, through an object of the query action.
object_action-stops_example :
    ((o : ActionObject ℕ)
      → (object_action counting o 0 ≡ (1, stopped)) ↔ (
          ((force : Bool) × (o ≡ query_object force)
            × (query counting force 0 ≡ (1, err sql_internal)))
          ⊎ (run_object counting o 0 ≡ (1, err terminated))))
    × ((force : Bool)
        → (next_action counting force 0 ≡ (1, stopped))
          ↔ (next_type counting force 0 ≡ (1, err terminated)))
object_action-stops_example = object_action-stops counting 0 1 counting-Closes λ x. refl

-- The two sides hold for the query action's object.
counting_stops : object_action counting (new_query_action true) 0 ≡ (1, stopped)
unfolding object_action run_object specified query
counting_stops = refl

counting_throws : query counting true 0 ≡ (1, err sql_internal)
unfolding query
counting_throws = refl

next_type_closes_example :
    (sql_internal_fatal ≡ sql_internal_fatal) × ((v : ℕ) × (1 ≡ closed counting v))
unfolding next_type
next_type_closes_example =
    next_type_closes counting false 0 1 sql_internal_fatal counting-Closes refl fatal_exception
