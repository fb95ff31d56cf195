-- ===== src/Odbc/Rows.antt =====
-- Rows in the bound buffers, and the documented fetch of a row.
use native.Mathlib.Nat.{mod-lt, div-add-mod'}
use native.Mathlib.Decide.{dec_lt}
use sql_handler.Cursor.{Cursor, size_mod}
use sql_handler.Cursor.Moves.{div_mod_unique}
use sql_handler.Odbc.Calls.{written, indicators, stray_nulls}
use sql_handler.Odbc.State.{Driver, Row, Pointer, column_buffer, status_size, stmt}
use sql_handler.Odbc.Table.{Table}
use sql_handler.Actions.Errors.{ReturnCode}
use sql_handler.Prelude.{
  ℕ, zero, suc, ◌+◌, ◌*◌, ◌/◌, ◌%◌, ◌<◌, ◌≤◌, ◌≡◌, ◌⊎◌, inl, inr, refl, ap, ◌∙◌, true, some, List,
  [], ◌∷◌, Text, length, get_elem?, arith,
}

-- A row without nulls.
abbrev pub cells : List Text → Row
cells [] = []
cells (v ∷ vs) = some v ∷ cells vs

-- The buffers of `n` columns, from column `i` on.
abbrev pub pointers : ℕ → ℕ → List Pointer
pointers i zero = []
pointers i (suc n) = column_buffer i ∷ pointers (suc i) n

-- The documented behaviour of `SQLFetch` on a statement whose result is the table `t`, none of whose
-- values is null: it writes the next row, while there is one.
pub record Fetches {W : Type 0} (d : Driver W) (t : Table) : Type 0 where
  pub position : W → ℕ
  pub next_row :
      (w : W)
      → position w < t.rows
      → (w' : W) × (r : ReturnCode) × (d.fetch_row stmt w
          ≡ (w', r, some (cells (t.row (position w)))))
        × (position w' ≡ suc (position w))

-- The result set has a cell, the numbers fit in 64 bits, and the columns in `d_status`.
pub record IsReadable (t : Table) : Type 0 where
  pub some_column : 0 < t.cols
  pub some_row : 0 < t.rows
  pub fits : t.rows * t.cols + 1 < size_mod
  pub in_status : t.cols ≤ status_size

-- The cursor on cell `n` of the table.
abbrev pub cursor_on : Table → ℕ → Cursor
cursor_on t n = record {
  column_position = n % t.cols;
  row_position = n / t.cols;
  columns = t.cols;
  rows = t.rows;
  not_end = true;
}

pub written-cells : (ts vs : List Text) → length ts ≡ length vs → written ts (cells vs) ≡ vs
unfolding written
written-cells [] [] h = refl
written-cells [] (v ∷ vs) h = absurd (omega arith)
written-cells (t ∷ ts) [] h = absurd (omega arith)
written-cells (t ∷ ts) (v ∷ vs) h =
    ap (λ (l : List Text). v ∷ l) (written-cells ts vs (omega arith))

pub stray_nulls-cells :
    (vs : List Text) (ps : List Pointer) → stray_nulls (indicators (cells vs)) ps ≡ ps
unfolding indicators stray_nulls
stray_nulls-cells [] ps = refl
stray_nulls-cells (v ∷ vs) [] = refl
stray_nulls-cells (v ∷ vs) (p ∷ ps) = ap (λ (l : List Pointer). p ∷ l) (stray_nulls-cells vs ps)

get_elem?-pointers : (i n k : ℕ) → k < n → get_elem? (pointers i n) k ≡ some (column_buffer (i + k))
get_elem?-pointers i zero k h = absurd (omega arith)
get_elem?-pointers i (suc n) zero h = ground arith
get_elem?-pointers i (suc n) (suc k) h =
    let e : i + suc k ≡ suc i + k = omega arith in
    rw e (get_elem?-pointers (suc i) n k (omega arith))

pub get_elem?-pointers_start :
    (n k : ℕ) → k < n → get_elem? (pointers 0 n) k ≡ some (column_buffer k)
get_elem?-pointers_start n k h =
    let e : 0 + k ≡ k = omega arith in
    get_elem?-pointers 0 n k h ∙ ap (λ (j : ℕ). some (column_buffer j)) e

-- The next cell is in the same row, or in the next.
pub row_step : (n c : ℕ) → 0 < c → (suc n / c ≡ n / c) ⊎ (suc n / c ≡ suc (n / c))
row_step n c h = elim (dec_lt (suc (n % c)) c) [
  | yes p ↦ inl (at_row (n / c) (suc (n % c)) p (omega (arith, div-add-mod' n c)))
  | no p ↦ inr (at_row (suc (n / c)) 0 h (omega (arith, div-add-mod' n c, mod-lt n h)))
]
  where
    at_row : (q r : ℕ) → r < c → suc n ≡ q * c + r → suc n / c ≡ q
    at_row q r k e = rw e (div_mod_unique q r c k).0
