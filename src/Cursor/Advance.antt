-- ===== src/Cursor/Advance.antt =====
-- `setNext` while it stays in the result set.
use native.Mathlib.Nat.{le-div_iff_mul-le, mod-lt, div-add-mod, div-le_self, div-add-mod'}
use native.Mathlib.Decide.{dec_lt}
use sql_handler.Prelude.{ℕ, ◌+◌, ◌-◌, ◌*◌, ◌/◌, ◌%◌, ◌<◌, ◌≤◌, ◌≡◌, some, arith}
use sql_handler.Cursor.{Cursor, size_mod, left_after, next_column, next_rows, set_next}
use sql_handler.Cursor.Moves.{
  InBounds, cell, div_mod_unique, rows_le_cells, cols_le_cells, set_row_moves, next_column_same,
  next_column_wraps,
}

abbrev pub at_cell : Cursor → ℕ → Cursor
at_cell c p = record c { row_position = p / c.columns; column_position = p % c.columns }

at_cell_of :
    (c : Cursor) (p r k : ℕ)
    → p ≡ r * c.columns + k
    → k < c.columns
    → (p / c.columns ≡ r) × (p % c.columns ≡ k)
at_cell_of c p r k e h = rw e (div_mod_unique r k c.columns h)

pub mul_mono : (a b k : ℕ) → a ≤ b → a * k ≤ b * k
mul_mono a b k h = grind arith

next_row_in :
    (c : Cursor) (n : ℕ)
    → c.columns ≤ c.column_position + n
    → cell c + n < c.rows * c.columns
    → c.row_position + 1 < c.rows
next_row_in c n h k = elim (dec_lt (c.row_position + 1) c.rows) [
  | yes p ↦ p
  | no p ↦ absurd (omega (arith, mul_mono c.rows (c.row_position + 1) c.columns (omega arith)))
]

next_column_lem :
    (c : Cursor) (n moved : ℕ)
    → InBounds c
    → n ≤ c.columns
    → cell c + n < c.rows * c.columns
    → next_column c n moved
      ≡ (at_cell c (cell c + n), moved + ((cell c + n) / c.columns - c.row_position))
next_column_lem c n moved v h k = elim (dec_lt (c.column_position + n) c.columns) [
  | yes p ↦ ground (
    arith,
    next_column_same c n moved,
    cols_le_cells c,
    at_cell_of c (cell c + n) c.row_position (c.column_position + n),
    v.fits,
    v.row_in,
    v.col_in,
  )
  | no p ↦ ground (
    arith,
    next_column_wraps c n moved,
    rows_le_cells c,
    cols_le_cells c,
    next_row_in c n,
    at_cell_of c (cell c + n) (c.row_position + 1) (c.column_position + n - c.columns),
    v.fits,
    v.row_in,
    v.col_in,
  )
]

pub left_after_lem :
    (c : Cursor) (n : ℕ) → n < size_mod → left_after c n (n / c.columns) ≡ n % c.columns
unfolding left_after
left_after_lem c n k = omega (arith, div-add-mod n c.columns)

-- The cursor after `n / c.columns` whole rows.
abbrev pub down : Cursor → ℕ → Cursor
down c n = record c { row_position = c.row_position + n / c.columns }

pub cell-down : (c : Cursor) (n : ℕ) → cell (down c n) + n % c.columns ≡ cell c + n
cell-down c n = grind (arith, div-add-mod' n c.columns)

down_row_in :
    (c : Cursor) (n : ℕ) → cell c + n < c.rows * c.columns → c.row_position + n / c.columns < c.rows
down_row_in c n h = elim (dec_lt (c.row_position + n / c.columns) c.rows) [
  | yes p ↦ p
  | no p ↦ absurd (
      omega (
        arith,
        cell-down c n,
        mul_mono c.rows (c.row_position + n / c.columns) c.columns (omega arith),
      ))
]

down-InBounds :
    (c : Cursor) (n : ℕ) → InBounds c → cell c + n < c.rows * c.columns → InBounds (down c n)
down-InBounds c n v h = record { row_in = down_row_in c n h; col_in = v.col_in; fits = v.fits }

down_le :
    (c : Cursor) (n : ℕ) → InBounds c → c.row_position + n / c.columns ≤ (cell c + n) / c.columns
down_le c n v =
    (le-div_iff_mul-le {k = c.columns} (omega (arith, v.col_in))).1 (omega (arith, cell-down c n))

next_rows_lem :
    (c : Cursor) (n : ℕ)
    → InBounds c
    → cell c + n < c.rows * c.columns
    → next_rows c n ≡ (at_cell c (cell c + n), (cell c + n) / c.columns - c.row_position)
unfolding next_rows
next_rows_lem c n v h =
    rw
      (
        set_row_moves c (n / c.columns) (down_row_in c n h)
            (omega (arith, rows_le_cells c, v.fits, v.col_in)),
        next_rows,
        left_after_lem (down c n) n (omega (arith, v.fits)),
        next_column_lem (down c n) (n % c.columns) (n / c.columns) (down-InBounds c n v h)
            (omega (arith, mod-lt n {m = c.columns} (omega (arith, v.col_in))))
            (omega (arith, cell-down c n)),
        cell-down c n,
      )
      (ground (arith, down_le c n v))

le-mul : (a b : ℕ) → 0 < b → a ≤ a * b
le-mul a b h = grind arith

pub rows_mod : (c : Cursor) (n : ℕ) → InBounds c → c.row_position + n / c.columns < cell c + n + 1
rows_mod c n v =
    omega
      (arith, div-le_self n c.columns, le-mul c.row_position c.columns (omega (arith, v.col_in)))

-- From a cell of a result set whose numbers fit in 64 bits, `setNext(n)` goes `n` cells on in
-- row-major order, while there is such a cell, and returns the number of rows that it went down.
pub set_next-cell :
    (c : Cursor) (n : ℕ)
    → InBounds c
    → cell c + n < c.rows * c.columns
    → set_next c n ≡ some (at_cell c (cell c + n), (cell c + n) / c.columns - c.row_position)
unfolding set_next
set_next-cell c n v h = elim (dec_lt c.columns n) [
  | yes p ↦ ground (arith, next_rows_lem c n v h, v.col_in)
  | no p ↦ ground (arith, next_column_lem c n 0 v, v.col_in)
]
