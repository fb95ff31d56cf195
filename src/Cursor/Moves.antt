-- ===== src/Cursor/Moves.antt =====
-- What `setRow` and `nextCol` of the cursor do on each branch.
use native.Mathlib.Nat.{mul-add-div_right}
use sql_handler.Prelude.{ℕ, ◌+◌, ◌-◌, ◌*◌, ◌/◌, ◌%◌, ◌<◌, ◌≤◌, ◌≡◌, false, arith}
use sql_handler.Cursor.{Cursor, size_mod, set_row, enter_row, next_column}

pub div_mod_unique : (q r d : ℕ) → r < d → ((q * d + r) / d ≡ q) × ((q * d + r) % d ≡ r)
div_mod_unique q r d h = (grind (arith, mul-add-div_right), grind arith)

-- What the cursor relies on: it stands on a cell, and the numbers fit.
pub record InBounds (c : Cursor) : Type 0 where
  pub row_in : c.row_position < c.rows
  pub col_in : c.column_position < c.columns
  pub fits : c.rows * c.columns + 1 < size_mod

-- The number of the cell in row-major order.
abbrev pub cell : Cursor → ℕ
cell c = c.row_position * c.columns + c.column_position

abbrev pub ended : Cursor → Cursor
ended c = record c { row_position = c.rows; column_position = c.columns; not_end = false }

pub rows_le_cells : (c : Cursor) → 0 < c.columns → c.rows ≤ c.rows * c.columns
rows_le_cells c h = grind arith

pub cols_le_cells : (c : Cursor) → 0 < c.rows → c.columns ≤ c.rows * c.columns
cols_le_cells c h = grind arith

pub set_row_moves :
    (c : Cursor) (n : ℕ)
    → c.row_position + n < c.rows
    → c.rows < size_mod
    → set_row c n ≡ (record c { row_position = c.row_position + n }, n)
unfolding set_row
set_row_moves c n h k = ground arith

pub set_row_ends :
    (c : Cursor) (n : ℕ)
    → c.rows ≤ c.row_position + n
    → c.row_position + n < size_mod
    → set_row c n ≡ (ended c, c.rows)
unfolding set_row
set_row_ends c n h k = ground arith

pub next_column_same :
    (c : Cursor) (n moved : ℕ)
    → c.column_position + n < c.columns
    → c.columns < size_mod
    → next_column c n moved ≡ (record c { column_position = c.column_position + n }, moved)
unfolding next_column
next_column_same c n moved h k = ground arith

pub next_column_wraps :
    (c : Cursor) (n moved : ℕ)
    → c.columns ≤ c.column_position + n
    → c.row_position + 1 < c.rows
    → c.rows < size_mod
    → c.column_position + n < size_mod
    → next_column c n moved ≡ (
      record c {
        row_position = c.row_position + 1;
        column_position = c.column_position + n - c.columns;
      },
      moved + 1,
    )
unfolding next_column enter_row
next_column_wraps c n moved h0 h h' k = ground (arith, set_row_moves c 1)

pub next_column_ends :
    (c : Cursor) (n moved : ℕ)
    → c.columns ≤ c.column_position + n
    → c.rows ≤ c.row_position + 1
    → c.row_position + 1 < size_mod
    → c.column_position + n < size_mod
    → next_column c n moved ≡ (ended c, c.rows)
unfolding next_column enter_row
next_column_ends c n moved h0 h h' k = ground (arith, set_row_ends c 1)
