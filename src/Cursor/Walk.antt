-- ===== src/Cursor/Walk.antt =====
-- From `reset()`, repeated `setNext()` visits every cell of the result set once, in order, and ends.
use native.Mathlib.Nat.{div-lt_iff_lt-mul, mod-lt, div-add-mod'}
use mathlib.Core.Path.{subst}
use sql_handler.Prelude.{
  ℕ, zero, suc, ◌+◌, ◌-◌, ◌*◌, ◌<◌, ◌≡◌, refl, ap, true, false, Option, none, some, arith,
}
use sql_handler.Cursor.{Cursor, size_mod, set_next, reset}
use sql_handler.Cursor.Moves.{InBounds, cell}
use sql_handler.Cursor.Advance.{at_cell, set_next-cell}
use sql_handler.Cursor.Past.{set_next_past}

-- The cursor after `setNext()` has been called `n` times; `none` after a division by zero.
unfoldable pub steps : Cursor → ℕ → Option Cursor
steps c zero = some c
steps c (suc n) = elim (steps c n) [
  | none ↦ none
  | some c' ↦ elim (set_next c' 1) [ none ↦ none | some (d, _) ↦ some d ]
]

-- The result set has a cell, and the numbers fit.
pub record HasCells (c : Cursor) : Type 0 where
  pub some_column : 0 < c.columns
  pub some_row : 0 < c.rows
  pub fits : c.rows * c.columns + 1 < size_mod

cell-at_cell : (c : Cursor) (n : ℕ) → cell (at_cell c n) ≡ n
cell-at_cell c n = div-add-mod' n c.columns

at_cell-InBounds :
    (c : Cursor) (n : ℕ) → HasCells c → n < c.rows * c.columns → InBounds (at_cell c n)
at_cell-InBounds c n v h = record {
  row_in = (div-lt_iff_lt-mul v.some_column).1 h;
  col_in = mod-lt n v.some_column;
  fits = v.fits;
}

step_at :
    (c : Cursor) (n : ℕ)
    → HasCells c
    → suc n < c.rows * c.columns
    → (m : ℕ) × (set_next (at_cell c n) 1 ≡ some (at_cell c (suc n), m))
step_at c n v h =
    subst (λ p. (m : ℕ) × (set_next (at_cell c n) 1 ≡ some (at_cell c p, m)))
      (omega (arith, cell-at_cell c n))
      (
        _,
        set_next-cell (at_cell c n) 1 (at_cell-InBounds c n v (omega arith))
            (omega (arith, cell-at_cell c n)),
      )

reset-HasCells : (c : Cursor) → HasCells c → HasCells (reset c)
unfolding reset
reset-HasCells c v = record { some_column = v.some_column; some_row = v.some_row; fits = v.fits }

not_end-reset : (c : Cursor) → HasCells c → (reset c).not_end ≡ true
unfolding reset
not_end-reset c v = ground (arith, v.some_row)

cell_zero : (c : Cursor) → HasCells c → reset c ≡ at_cell (reset c) 0
unfolding reset
cell_zero c v = ground (arith, v.some_column)

-- Before the end, `n` steps lead to cell `n`.
steps-at_cell :
    (c : Cursor) (n : ℕ)
    → HasCells c
    → n < c.rows * c.columns
    → steps (reset c) n ≡ some (at_cell (reset c) n)
unfolding steps
steps-at_cell c zero v h = ap some (cell_zero c v)
steps-at_cell c (suc n) v h =
    rw (steps-at_cell c n v (omega arith), steps)
      (let (m, e) = step_at (reset c) n (reset-HasCells c v) (unfold reset in h) in rw e refl)

size_reset : (c : Cursor) → (reset c).rows * (reset c).columns ≡ c.rows * c.columns
unfolding reset
size_reset c = refl

steps_end :
    (c : Cursor) (n : ℕ)
    → HasCells c
    → suc n ≡ c.rows * c.columns
    → (d : Cursor) × (steps (reset c) (suc n) ≡ some d)
      × (d.not_end ≡ false)
      × (d.row_position ≡ c.rows)
unfolding steps reset
steps_end c n v h =
    let (r, e, (m, ended, row, _, _)) =
      set_next_past (at_cell (reset c) n) 1
        (at_cell-InBounds (reset c) n (reset-HasCells c v) (omega (arith, size_reset c)))
        (omega (arith, size_reset c, cell-at_cell (reset c) n))
        (omega (arith, cell-at_cell (reset c) n, v.fits)) in
    (r.0, rw (steps-at_cell c n v (omega arith), steps) (rw e refl), ended, row)

last_step : (c : Cursor) → HasCells c → suc (c.rows * c.columns - 1) ≡ c.rows * c.columns
last_step c v = grind (arith, v.some_column, v.some_row)

-- For a result set that has a cell, and whose numbers fit in 64 bits: from `reset()`, `n` calls of
-- `setNext()` put the cursor on cell `n` of the row-major order with `notEnd` true, for each cell `n`.
pub steps_visit_cells :
    (c : Cursor) (n : ℕ)
    → HasCells c
    → n < c.rows * c.columns
    → (steps (reset c) n ≡ some (at_cell (reset c) n)) × ((at_cell (reset c) n).not_end ≡ true)
steps_visit_cells c n v h = (steps-at_cell c n v h, not_end-reset c v)

-- For a result set that has a cell, and whose numbers fit in 64 bits: from `reset()`, as many calls
-- of `setNext()` as there are cells put the cursor behind the last row, with `notEnd` false.
pub steps_past_cells :
    (c : Cursor)
    → HasCells c
    → (d : Cursor) × (steps (reset c) (c.rows * c.columns) ≡ some d)
      × (d.not_end ≡ false)
      × (d.row_position ≡ c.rows)
steps_past_cells c v =
    subst
      (λ k.
        (d : Cursor) × (steps (reset c) k ≡ some d)
        × (d.not_end ≡ false)
        × (d.row_position ≡ c.rows))
      (last_step c v) (steps_end c (c.rows * c.columns - 1) v (last_step c v))
