-- ===== src/Cursor.antt =====
-- connector/SQLTypeConnector.h: the position of a connector in its result set, column by column
-- along each row. `size_t` has 64 bits and wraps.
pub mod Moves
pub mod Advance
pub mod Past
pub mod Walk
use sql_handler.Prelude.{
  ℕ, ◌+◌, ◌-◌, ◌*◌, ◌/◌, ◌%◌, ◌^◌, Bool, true, false, ◌&&◌, Option, none, some, ltb, ◌==◌,
  if◌then◌else◌,
}

abbrev pub size_mod : ℕ
size_mod = 2 ^ 64

pub record Cursor : Type 0 where
  pub column_position : ℕ
  pub row_position : ℕ
  pub columns : ℕ
  pub rows : ℕ
  pub not_end : Bool

-- The constructor.
unfoldable pub new_cursor : Cursor
new_cursor = record { column_position = 0; row_position = 0; columns = 0; rows = 0; not_end = true }

unfoldable pub reset : Cursor → Cursor
reset c = record c {
  row_position = 0;
  column_position = 0;
  not_end = if c.rows == 0 && c.columns == 0 then false else true;
}

-- `setRow`: the new state, and the value returned.
unfoldable pub set_row : Cursor → ℕ → Cursor × ℕ
set_row c increment =
    let sum = (c.row_position + increment) % size_mod in
    if ltb sum c.rows
    then (record c { row_position = sum }, increment)
    else (record c { row_position = c.rows; column_position = c.columns; not_end = false }, c.rows)

-- The columns left to go, once `moved` says how many rows `setRow` reported.
unfoldable pub left_after : Cursor → ℕ → ℕ → ℕ
left_after c increment moved = (increment + size_mod - (c.columns * moved) % size_mod) % size_mod

-- The end of `setNext`, after its last `setRow(1)` returned `stepped`.
unfoldable pub enter_row : Cursor × ℕ → ℕ → ℕ → Cursor × ℕ
enter_row (c, stepped) sum moved =
    if stepped == c.rows
    then (c, c.rows)
    else (record c { column_position = sum - c.columns }, moved + 1)

-- `setNext` from the line after its first `if`: `increment` columns, `moved` rows so far.
unfoldable pub next_column : Cursor → ℕ → ℕ → Cursor × ℕ
unfolding set_row enter_row
next_column c increment moved =
    let sum = (c.column_position + increment) % size_mod in
    if ltb sum c.columns
    then (record c { column_position = sum }, moved)
    else enter_row (set_row c 1) sum moved

-- The first `if` of `setNext`: whole rows.
unfoldable pub next_rows : Cursor → ℕ → Cursor × ℕ
unfolding set_row left_after next_column
next_rows c increment =
    let (c', moved) = set_row c (increment / c.columns) in
    next_column c' (left_after c' increment moved) moved

-- `setNext`; `none` is the division by a column count of zero.
unfoldable pub set_next : Cursor → ℕ → Option (Cursor × ℕ)
unfolding next_rows next_column
set_next c increment =
    if ltb c.columns increment
    then if c.columns == 0 then none else some (next_rows c increment)
    else some (next_column c increment 0)
