-- ===== src/Cursor/Past.antt =====
-- `setNext` past the last cell.
use native.Mathlib.Nat.{mod-lt}
use native.Mathlib.Decide.{dec_lt}
use sql_handler.Prelude.{ℕ, ◌+◌, ◌*◌, ◌/◌, ◌%◌, ◌<◌, ◌≤◌, ◌≡◌, refl, false, some, arith}
use sql_handler.Cursor.{Cursor, size_mod, left_after, enter_row, next_column, next_rows, set_next}
use sql_handler.Cursor.Moves.{
  InBounds, cell, ended, rows_le_cells, set_row_moves, set_row_ends, next_column_ends,
}
use sql_handler.Cursor.Advance.{mul_mono, left_after_lem, down, cell-down, rows_mod}

-- What is left of a cursor that has passed the last cell.
abbrev pub Ends : Cursor → Cursor × ℕ → Type 0
Ends c (c', moved) =
    (moved ≡ c.rows)
    × (c'.not_end ≡ false)
    × (c'.row_position ≡ c.rows)
    × (c'.rows ≡ c.rows)
    × (c'.columns ≡ c.columns)

last_row :
    (c : Cursor) (n : ℕ)
    → InBounds c
    → n ≤ c.columns
    → c.rows * c.columns ≤ cell c + n
    → (c.columns ≤ c.column_position + n) × (c.rows ≤ c.row_position + 1)
last_row c n v h k = (
  elim (dec_lt (c.column_position + n) c.columns) [
    | yes p ↦
        absurd
          (omega (arith, mul_mono (c.row_position + 1) c.rows c.columns (omega (arith, v.row_in))))
    | no p ↦ omega arith
  ],
  elim (dec_lt (c.row_position + 1) c.rows) [
    | yes p ↦
        absurd
          (omega (arith, v.col_in, mul_mono (c.row_position + 2) c.rows c.columns (omega arith)))
    | no p ↦ omega arith
  ],
)

next_column-Ends :
    (c : Cursor) (n moved : ℕ)
    → InBounds c
    → n ≤ c.columns
    → c.rows * c.columns ≤ cell c + n
    → cell c + n < size_mod
    → Ends c (next_column c n moved)
next_column-Ends c n moved v h k l =
    rw
      (next_column_ends c n moved (last_row c n v h k).0 (last_row c n v h k).1
        (omega (arith, v.row_in, rows_le_cells c (omega (arith, v.col_in)), v.fits)) (omega arith))
      (refl, refl, refl, refl, refl)

next_column-ended :
    (c : Cursor) (n : ℕ) → c.rows + 1 < size_mod → Ends c (next_column (ended c) n c.rows)
unfolding next_column enter_row
next_column-ended c n h = ground (arith, set_row_ends (ended c) 1)

past_rows :
    (c : Cursor) (n : ℕ)
    → InBounds c
    → c.rows * c.columns ≤ cell c + n
    → cell c + n < size_mod
    → Ends c (next_rows c n)
unfolding next_rows
past_rows c n v k l = elim (dec_lt (c.row_position + n / c.columns) c.rows) [
  | yes p ↦
      rw
        (
          set_row_moves c (n / c.columns) p (omega (arith, rows_le_cells c, v.fits, v.col_in)),
          next_rows,
          left_after_lem (down c n) n (omega arith),
        )
        (next_column-Ends (down c n) (n % c.columns) (n / c.columns)
          (record { row_in = p; col_in = v.col_in; fits = v.fits })
          (omega (arith, mod-lt n {m = c.columns} (omega (arith, v.col_in))))
          (omega (arith, cell-down c n)) (omega (arith, cell-down c n)))
  | no p ↦
      rw (set_row_ends c (n / c.columns) (omega arith) (omega (arith, rows_mod c n v)), next_rows)
        (next_column-ended c (left_after (ended c) n c.rows)
          (omega (arith, rows_le_cells c, v.fits, v.col_in)))
]

-- From a cell of a result set whose numbers fit in 64 bits, where `n` more cells, also a number of
-- 64 bits, lead past the last one, `setNext(n)` puts the cursor on the row after the last, clears
-- the flag that `notEnd` returns, and returns the number of rows.
pub set_next_past :
    (c : Cursor) (n : ℕ)
    → InBounds c
    → c.rows * c.columns ≤ cell c + n
    → cell c + n < size_mod
    → (r : Cursor × ℕ) × (set_next c n ≡ some r) × Ends c r
unfolding set_next
set_next_past c n v h k = elim (dec_lt c.columns n) [
  | yes p ↦ (next_rows c n, ground (arith, v.col_in), past_rows c n v h k)
  | no p ↦ (next_column c n 0, ground (arith, v.col_in), next_column-Ends c n 0 v (omega arith) h k)
]
