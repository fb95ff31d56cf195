-- ===== src/Odbc/Serves.antt =====
-- What the connector relies on in the ODBC library when a query succeeds.
use sql_handler.Actions.Errors.{success}
use sql_handler.Odbc.State.{Driver, length_of, stmt, counter}
use sql_handler.Odbc.Rows.{Fetches}
use sql_handler.Odbc.Table.{Table}
use sql_handler.Odbc.Types.{CType}
use sql_handler.Prelude.{ℕ, ◌≡◌, some, Text}

-- The documented behaviour of the ODBC library when a query succeeds whose result is the table `t`:
-- each call that the connector makes for it returns SQL_SUCCESS, the count is the number of rows, and
-- what is asked about the columns leaves the statement in front of its first row.
pub record Serves {W : Type 0} (d : Driver W) (t : Table) : Type 0 where
  pub reading : Fetches d t
  pub executes : (q : Text) (w : W) → (d.exec_direct stmt q w).1 ≡ success
  pub at_start : (q : Text) (w : W) → reading.position (d.exec_direct stmt q w).0 ≡ 0
  pub counts : (q : Text) (w : W) → (d.exec_direct counter q w).1 ≡ success
  pub count_row : (w : W) → (d.fetch_row counter w).1 ≡ success
  pub count_rc : (w : W) → (d.get_long counter w).1 ≡ success
  pub count_value : (w : W) → (d.get_long counter w).2 ≡ some t.rows
  pub width_rc : (w : W) → (d.num_result_cols w).1 ≡ success
  pub width_value : (w : W) → (d.num_result_cols w).2 ≡ t.cols
  pub width_keeps : (w : W) → reading.position (d.num_result_cols w).0 ≡ reading.position w
  pub type_rc : (c : ℕ) (w : W) → (d.col_type c w).1 ≡ success
  pub type_keeps : (c : ℕ) (w : W) → reading.position (d.col_type c w).0 ≡ reading.position w
  pub size_rc : (c : ℕ) (w : W) → (d.col_measure length_of c w).1 ≡ success
  pub size_keeps :
      (c : ℕ) (w : W) → reading.position (d.col_measure length_of c w).0 ≡ reading.position w
  pub bind_rc : (c : ℕ) (k : CType) (n : ℕ) (w : W) → (d.bind_col c k n w).1 ≡ success
  pub bind_keeps :
      (c : ℕ) (k : CType) (n : ℕ) (w : W)
      → reading.position (d.bind_col c k n w).0 ≡ reading.position w
