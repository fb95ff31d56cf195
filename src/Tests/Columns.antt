-- ===== src/Tests/Columns.antt =====
-- Runs for the attributes of the columns of an ODBC connector.
use sql_handler.Actions.Errors.{success}
use sql_handler.Odbc.Columns.{get_col_name, get_col_size}
use sql_handler.Odbc.Names.{get_col_name-names}
use sql_handler.Odbc.Sizes.{get_col_size-total}
use sql_handler.Odbc.State.{Driver, Connector, new_connector}
use sql_handler.Outcome.{ok, err, sql_internal, sql_internal_fatal}
use sql_handler.Prelude.{ℕ, zero, suc, ◌<◌, ◌≤◌, ◌≡◌, refl, [], Text, codes, arith}
use sql_handler.Tests.Connectors.{library, connected}

abbrev column_title : ℕ → Text
column_title zero = codes "id"
column_title (suc c) = codes "city"

abbrev titled : ℕ → Text
titled zero = []
titled (suc c) = column_title c

abbrev titling : Driver ℕ
titling = record library { col_name = λ c w. (w, success, titled c) }

-- A query with two columns is open.
abbrev opened : Connector ℕ
opened = record connected { cursor = record connected.cursor { columns = 2 } }

get_col_name-names_example :
    (o' : Connector ℕ) × (get_col_name titling 1 opened ≡ (o', ok (codes "city")))
    × ((c : ℕ) → c < 2 → get_col_name titling c o' ≡ (o', ok (column_title c)))
    × ((c : ℕ) → 2 ≤ c → get_col_name titling c o' ≡ (o', err sql_internal_fatal))
unfolding new_connector
get_col_name-names_example =
    get_col_name-names titling column_title (λ c w. refl) (λ c w. refl) opened 1 refl (omega arith)

abbrev column_length : ℕ → ℕ
column_length zero = 11
column_length (suc c) = 30

abbrev measured : ℕ → ℕ
measured zero = 0
measured (suc c) = column_length c

abbrev measuring : Driver ℕ
measuring = record library { col_measure = λ m c w. (w, success, measured c) }

get_col_size-total_example :
    (o' : Connector ℕ) × (get_col_size measuring 2 opened ≡ get_col_size measuring 2 o')
    × ((c : ℕ) → c < 2 → get_col_size measuring c o' ≡ (o', ok (column_length c)))
    × (get_col_size measuring 2 o' ≡ (o', ok 41))
    × ((c : ℕ) → 2 < c → get_col_size measuring c o' ≡ (o', err sql_internal))
unfolding new_connector
get_col_size-total_example =
    get_col_size-total measuring column_length (λ c w. refl) (λ c w. refl) opened 2 refl refl
      (omega arith) (omega arith)
