-- ===== src/Odbc/Table.antt =====
-- The abstract view of a query's result: a table of texts, read cell by cell.
use sql_handler.Cursor.Moves.{div_mod_unique}
use sql_handler.Prelude.{
  ℕ, zero, suc, ◌+◌, ◌*◌, ◌/◌, ◌%◌, ◌≡◌, refl, sym, none, some, List, [], ◌∷◌, ◌++◌, Text, length,
  get_elem?, drop, arith,
}

-- A result set of `rows` rows of `cols` texts.
pub record Table : Type 0 where
  pub rows : ℕ
  pub cols : ℕ
  pub row : ℕ → List Text
  pub width : (r : ℕ) → length (row r) ≡ cols

-- A list at an index, the empty text behind its end.
abbrev pub text_at : List Text → ℕ → Text
text_at ts i = elim (get_elem? ts i) [ none ↦ [] | some t ↦ t ]

-- Cell `n` in row-major order.
abbrev pub cell_text : Table → ℕ → Text
cell_text t n = text_at (t.row (n / t.cols)) (n % t.cols)

-- `k` cells from cell `n` on.
unfoldable pub cells_from : Table → ℕ → ℕ → List Text
cells_from t n zero = []
cells_from t n (suc k) = cell_text t n ∷ cells_from t (suc n) k

-- The first rows of the table, one after the other.
unfoldable pub rows_of : Table → ℕ → List Text
rows_of t zero = []
rows_of t (suc r) = rows_of t r ++ t.row r

cells_from-add :
    (t : Table) (n j k : ℕ) → cells_from t n (j + k) ≡ cells_from t n j ++ cells_from t (n + j) k
unfolding cells_from
cells_from-add t n zero k = ground arith
cells_from-add t n (suc j) k =
    let size : suc j + k ≡ suc (j + k) = omega arith in
    let start : n + suc j ≡ suc n + j = omega arith in
    rw (size, start, cells_from-add t (suc n) j k) refl

drop_text :
    (ts : List Text) (i j : ℕ) → i + suc j ≡ length ts → drop i ts ≡ text_at ts i ∷ drop (suc i) ts
drop_text [] i j h = absurd (omega arith)
drop_text (x ∷ ts) zero j h = refl
drop_text (x ∷ ts) (suc i) j h = drop_text ts i j (omega arith)

drop-length : (ts : List Text) (i : ℕ) → i ≡ length ts → drop i ts ≡ []
drop-length ts zero h = empty ts h
  where
    empty : (ts : List Text) → 0 ≡ length ts → ts ≡ []
    empty [] h = refl
    empty (x ∷ ts) h = absurd (omega arith)
drop-length [] (suc i) h = refl
drop-length (x ∷ ts) (suc i) h = drop-length ts i (omega arith)

-- The cells of the rest of a row.
row_rest :
    (t : Table) (r i k : ℕ) → i + k ≡ t.cols → cells_from t (r * t.cols + i) k ≡ drop i (t.row r)
unfolding cells_from
row_rest t r i zero h = sym (drop-length (t.row r) i (omega (arith, t.width r)))
row_rest t r i (suc k) h =
    let (q, m) = div_mod_unique r i t.cols (omega arith) in
    let next : suc (r * t.cols + i) ≡ r * t.cols + suc i = omega arith in
    let ih = row_rest t r (suc i) k (omega arith) in
    rw (q, m, next, ih) (sym (drop_text (t.row r) i k (omega (arith, t.width r))))

pub cells_from-rows_of : (t : Table) (r : ℕ) → cells_from t 0 (r * t.cols) ≡ rows_of t r
unfolding rows_of cells_from
cells_from-rows_of t zero = ground arith
cells_from-rows_of t (suc r) =
    let row = row_rest t r 0 t.cols (omega arith) in
    let size : suc r * t.cols ≡ r * t.cols + t.cols = omega arith in
    let start : 0 + r * t.cols ≡ r * t.cols + 0 = omega arith in
    rw (size, cells_from-add t 0 (r * t.cols) t.cols, cells_from-rows_of t r, start, row) refl
