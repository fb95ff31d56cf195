-- ===== src/Odbc/Stream.antt =====
-- Reading a result set through the connector: each `getNext()` gives the next cell of the table.
use native.Mathlib.Nat.{div-lt_iff_lt-mul, mod-lt, div-add-mod'}
use sql_handler.Call.{resume}
use sql_handler.Cursor.{Cursor, set_next}
use sql_handler.Cursor.Moves.{InBounds, cell}
use sql_handler.Cursor.Advance.{set_next-cell}
use sql_handler.Cursor.Past.{set_next_past}
use sql_handler.Odbc.Calls.{fetched, fetch, fetches, move_on}
use sql_handler.Odbc.State.{Driver, Connector, Row, column_buffer, status_size}
use sql_handler.Odbc.Table.{Table}
use sql_handler.Actions.Errors.{ReturnCode}
use sql_handler.Outcome.{ok, err, undefined}
use sql_handler.Prelude.{
  ℕ, suc, ◌+◌, ◌-◌, ◌*◌, ◌/◌, ◌%◌, ◌<◌, ◌≡◌, ◌⊎◌, inl, inr, refl, sym, ap, ◌∙◌, Bool, true, false,
  Option, some, ltb, if◌then◌else◌, length, get_elem?, arith,
}
use sql_handler.Odbc.Rows.{
  pointers, Fetches, IsReadable, cursor_on, written-cells, stray_nulls-cells,
  get_elem?-pointers_start, row_step,
}

module _ {W : Type 0} (d : Driver W) (t : Table) (f : Fetches d t) where
  -- The connector in front of cell `n`, whose row may still have to be fetched.
  pub record Streams (o : Connector W) (n : ℕ) : Type 0 where
    pub is_ready : o.ready ≡ true
    pub on_cell : o.cursor ≡ cursor_on t n
    pub bound : o.buffers ≡ pointers 0 t.cols
    pub room : length o.contents ≡ t.cols
    pub ahead : f.position o.driver + o.to_fetch_rows ≡ suc (n / t.cols)
    pub filled : (o.to_fetch_rows ≡ 1) ⊎ ((o.to_fetch_rows ≡ 0) × (o.contents ≡ t.row (n / t.cols)))

  -- The same once the row is in the buffers.
  pub record Holds (o : Connector W) (n : ℕ) : Type 0 where
    pub is_ready : o.ready ≡ true
    pub on_cell : o.cursor ≡ cursor_on t n
    pub bound : o.buffers ≡ pointers 0 t.cols
    pub row_in : o.contents ≡ t.row (n / t.cols)
    pub behind : f.position o.driver ≡ suc (n / t.cols)

  row_below : (n : ℕ) → IsReadable t → n < t.rows * t.cols → n / t.cols < t.rows
  row_below n v h = (div-lt_iff_lt-mul v.some_column).1 h

  on-InBounds : (n : ℕ) → IsReadable t → n < t.rows * t.cols → InBounds (cursor_on t n)
  on-InBounds n v h = record {
    row_in = row_below n v h;
    col_in = mod-lt n v.some_column;
    fits = v.fits;
  }

  fetch-Holds :
      (o : Connector W) (n : ℕ)
      → IsReadable t
      → n < t.rows * t.cols
      → Streams o n
      → o.to_fetch_rows ≡ 1
      → Holds (fetched d o) n
  unfolding fetched
  fetch-Holds o n v h s e =
      let at_row : f.position o.driver ≡ n / t.cols = omega (arith, s.ahead) in
      let (w', r, q, p) = f.next_row o.driver (omega (arith, row_below n v h)) in
      rw (q, fetched)
        (record {
          is_ready = s.is_ready;
          on_cell = s.on_cell;
          bound = rw (stray_nulls-cells (t.row (f.position o.driver)) o.buffers) s.bound;
          row_in = rw at_row (
              written-cells o.contents (t.row (n / t.cols))
                (omega (arith, s.room, t.width (n / t.cols))));
          behind = ap (λ (x : W × ReturnCode × Option Row). f.position x.0) q ∙ p ∙ ap suc at_row;
        })

  fetch-fetched :
      (o : Connector W) (n : ℕ) → IsReadable t → Streams o n → fetch d o ≡ (fetched d o, ok tt)
  unfolding fetch
  fetch-fetched o n v s =
      let e : ltb status_size o.cursor.columns ≡ false =
        ground (arith, ap (λ (c : Cursor). c.columns) s.on_cell, v.in_status) in
      ap (λ (b : Bool). if b then (o, err undefined) else (fetched d o, ok tt)) e

  -- The rows that are still to be fetched.
  pub fetches-Holds :
      (o : Connector W) (n : ℕ)
      → IsReadable t
      → n < t.rows * t.cols
      → Streams o n
      → (o' : Connector W) × (fetches d o.to_fetch_rows o ≡ (o', ok tt))
        × Holds (record o' { to_fetch_rows = 0 }) n
  unfolding fetches
  fetches-Holds o n v h s = elim s.filled [
    | inl one ↦
        let k = fetch-Holds o n v h s one in
        (
          fetched d o,
          ap (λ m. fetches d m o) one ∙ ap (λ x. resume x λ u. fetches d 0) (fetch-fetched o n v s),
          record {
            is_ready = k.is_ready;
            on_cell = k.on_cell;
            bound = k.bound;
            row_in = k.row_in;
            behind = k.behind;
          },
        )
    | inr (none_left, row_in) ↦ (
      o,
      ap (λ m. fetches d m o) none_left,
      record {
        is_ready = s.is_ready;
        on_cell = s.on_cell;
        bound = s.bound;
        row_in = row_in;
        behind = omega (arith, s.ahead, none_left);
      },
    )
  ]

  -- The pointer of a call of `getNext()` in front of cell `n`.
  next_pointer :
      (o : Connector W) (n : ℕ)
      → IsReadable t
      → n < t.rows * t.cols
      → Holds o n
      → get_elem? o.buffers o.cursor.column_position ≡ some (column_buffer (n % t.cols))
  next_pointer o n v h k =
      rw (k.bound, k.on_cell)
        (get_elem?-pointers_start t.cols (n % t.cols) (mod-lt n v.some_column))

  set_next_on :
      (n : ℕ)
      → IsReadable t
      → suc n < t.rows * t.cols
      → set_next (cursor_on t n) 1 ≡ some (cursor_on t (suc n), suc n / t.cols - n / t.cols)
  set_next_on n v h =
      let here : cell (cursor_on t n) + 1 ≡ suc n = omega (arith, div-add-mod' n t.cols) in
      rw (set_next-cell (cursor_on t n) 1 (on-InBounds n v (omega arith)) (omega (arith, here)))
        (rw here refl)

  moved-Streams :
      (o : Connector W) (n : ℕ)
      → IsReadable t
      → Holds o n
      → Streams
          (record o { cursor = cursor_on t (suc n); to_fetch_rows = suc n / t.cols - n / t.cols })
          (suc n)
  moved-Streams o n v k = record {
    is_ready = k.is_ready;
    on_cell = refl;
    bound = k.bound;
    room = omega (arith, ap length k.row_in, t.width (n / t.cols));
    ahead = omega (arith, k.behind, row_step n t.cols v.some_column);
    filled = elim (row_step n t.cols v.some_column) [
      | inl same ↦ inr (omega (arith, same), k.row_in ∙ ap t.row (sym same))
      | inr below ↦ inl (omega (arith, below))
    ];
  }

  pub move_on-next :
      (o : Connector W) (n : ℕ)
      → IsReadable t
      → suc n < t.rows * t.cols
      → Holds o n
      → (o' : Connector W) × (move_on d 1 o ≡ (o', ok (column_buffer (n % t.cols))))
        × (o'.contents ≡ t.row (n / t.cols))
        × Streams o' (suc n)
  unfolding move_on
  move_on-next o n v h k = (
    _,
    rw (next_pointer o n v (omega arith) k, move_on, k.on_cell, set_next_on n v h) refl,
    k.row_in,
    moved-Streams o n v k,
  )

  pub move_on-last :
      (o : Connector W) (n : ℕ)
      → IsReadable t
      → suc n ≡ t.rows * t.cols
      → Holds o n
      → (o' : Connector W) × (move_on d 1 o ≡ (o', ok (column_buffer (n % t.cols))))
        × (o'.contents ≡ t.row (n / t.cols))
        × (o'.cursor.not_end ≡ false)
        × (o'.ready ≡ true)
  unfolding move_on
  move_on-last o n v h k =
      let here : cell (cursor_on t n) + 1 ≡ suc n = omega (arith, div-add-mod' n t.cols) in
      let ((c, m), e, ends) =
        set_next_past (cursor_on t n) 1 (on-InBounds n v (omega arith)) (omega (arith, here))
          (omega (arith, here, v.fits)) in
      (
        record o { cursor = c; to_fetch_rows = m },
        rw (next_pointer o n v (omega arith) k, move_on, k.on_cell, e) refl,
        k.row_in,
        ends.1,
        k.is_ready,
      )
