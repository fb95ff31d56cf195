-- ===== src/Odbc/Result.antt =====
-- `query()` followed by reads: the result that the library has is what the connector gives.
use mathlib.Core.Path.{subst}
use sql_handler.Call.{Call, resume}
use sql_handler.Odbc.Calls.{
  open_columns, get_row_count, counted, query, clean_if_ready, asked, get_next,
}
use sql_handler.Odbc.Serves.{Serves}
use sql_handler.Odbc.Reads.{reads, reads-cells_from, get_next_refused}
use sql_handler.Odbc.State.{Driver, Connector, Params, clean, counter, stmt}
use sql_handler.Odbc.Stream.{Streams}
use sql_handler.Odbc.Rows.{IsReadable}
use sql_handler.Odbc.Success.{demanded, open_columns-Streams}
use sql_handler.Odbc.Table.{Table, rows_of, cells_from, cells_from-rows_of}
use sql_handler.Outcome.{Result, ok, err, internal, sql_internal}
use sql_handler.Prelude.{
  ℕ, suc, ◌*◌, ◌-◌, ◌≡◌, ◌⊎◌, refl, sym, ap, ◌∙◌, Bool, true, false, ◌&&◌, none, some, Text, inl,
  inr, if◌then◌else◌, arith,
}

and_false : (a b : Bool) → b ≡ false → (a && b) ≡ false
and_false a b h = ground arith

-- The caches of the columns are to be filled: the connector is ready, and so will be cleaned, or has
-- none.
abbrev pub IsFresh : {W : Type 0} → Connector W → Type 0
IsFresh o = (o.ready ≡ true) ⊎ ((o.types ≡ none) × (o.sizes ≡ none))

module _ {W : Type 0} where
  cleaned :
      (o : Connector W)
      → IsFresh o
      → ((clean_if_ready o).types ≡ none)
        × ((clean_if_ready o).sizes ≡ none)
        × ((clean_if_ready o).params ≡ o.params)
  unfolding clean
  cleaned o h = go o.ready refl
    where
      go :
          (b : Bool)
          → o.ready ≡ b
          → ((if b then clean o else o).types ≡ none)
            × ((if b then clean o else o).sizes ≡ none)
            × ((if b then clean o else o).params ≡ o.params)
      go true e = (refl, refl, refl)
      go false e = elim h [ inl ready ↦ cc | inr (no_types, no_sizes) ↦ (no_types, no_sizes, refl) ]

  -- What is asked of the parameters.
  asked_lem :
      {A B : Type 0} (P : Connector W × Result B → Type 0) (f : Params → Result A) (o : Connector W)
      (k : A → Call (Connector W) B) (p : Params) (a : A)
      → o.params ≡ some p
      → f p ≡ ok a
      → P (k a o)
      → P (resume (asked f o) k)
  asked_lem P f o k p a e q h =
      subst (λ m. P (resume (elim m [ none ↦ (o, err internal) | some p' ↦ (o, f p') ]) k)) (sym e)
        (subst (λ r. P (resume (o, r) k)) (sym q) h)

module _ {W : Type 0} (d : Driver W) (t : Table) (v : Serves d t) (r : IsReadable t) (p : Params)
    (count_stmt text : Text) (count_known : p.count_query ≡ ok count_stmt)
    (text_known : p.query_text ≡ ok text) where
  -- The row count, and what follows it.
  counted_rows :
      {B : Type 0} (P : Connector W × Result B → Type 0) (o : Connector W)
      (k : ℕ → Call (Connector W) B)
      → o.params ≡ some p
      → ((o' : Connector W)
          → o'.params ≡ some p
          → o'.types ≡ o.types
          → o'.sizes ≡ o.sizes
          → P (k t.rows o'))
      → P (resume (get_row_count d o) k)
  unfolding get_row_count counted
  counted_rows {B} P o k e h =
      let w1 = (d.alloc_handle counter o.driver).0 in
      let w2 = (d.exec_direct counter count_stmt w1).0 in
      let w3 = (d.fetch_row counter w2).0 in
      let (w4, rc, n) = d.get_long counter w3 in
      let P' : Connector W × Result ℕ → Type 0 = λ x. P (resume x k) in
      asked_lem P' (λ q. q.count_query) (record o { driver = w1 }) _ p count_stmt e count_known
        (demanded P' (record o { driver = w2; rc = (d.exec_direct counter count_stmt w1).1 }) _
          (v.counts count_stmt w1)
          (demanded P' (record o { driver = w3; rc = (d.fetch_row counter w2).1 }) _
            (v.count_row w2)
            (demanded P' (record o { driver = w4; rc = rc }) _ (v.count_rc w3)
              (subst (λ m. P' (counted d m (record o { driver = w4; rc = rc })))
                (sym (v.count_value w3))
                (h (record o { driver = d.free_handle counter w4; rc = rc }) e refl refl)))))

  -- For a query that the container can build, on a library that answers: `query()` returns true and
  -- leaves the connector in front of the first cell.
  pub query-Streams :
      (o : Connector W)
      → o.params ≡ some p
      → IsFresh o
      → (o' : Connector W) × (query d o ≡ (o', ok true)) × Streams d t v.reading o' 0
  unfolding query
  query-Streams o e fresh =
      let (no_types, no_sizes, kept) = cleaned o fresh in
      counted_rows Goal (clean_if_ready o) _ (kept ∙ e) λ o1 e1 types1 sizes1.
        let w1 = (d.alloc_handle stmt o1.driver).0 in
        let w2 = (d.exec_direct stmt text w1).0 in
        let (w3, rc, n) = d.num_result_cols w2 in
        let o2 : Connector W = record o1 {
          driver = w1;
          cursor = record o1.cursor { rows = t.rows };
        } in
        let o3 : Connector W = record o2 { driver = w3; rc = rc } in
        asked_lem Goal (λ q. q.query_text) o2 _ p text e1 text_known
          (demanded Goal (record o2 { driver = w2; rc = (d.exec_direct stmt text w1).1 }) _
            (v.executes text w1)
            (demanded Goal o3 _ (v.width_rc w2) (
              subst
                (λ m.
                  Goal (open_columns d m (record o3 { cursor = record o3.cursor { columns = m } })))
                (sym (v.width_value w2))
                (open_columns-Streams d t v
                  (record o3 { cursor = record o3.cursor { columns = t.cols } }) r (v.width_rc w2)
                  refl refl (v.width_keeps w2 ∙ v.at_start text w1) (types1 ∙ no_types)
                  (sizes1 ∙ no_sizes)))))
    where
      Goal : Connector W × Result Bool → Type 0
      Goal x = (o' : Connector W) × (x ≡ (o', ok true)) × Streams d t v.reading o' 0

  last_cell : suc (t.rows * t.cols - 1) ≡ t.rows * t.cols
  last_cell = grind (arith, r.some_row, r.some_column)

  -- For a query that the container can build, whose result has a cell, no more than 1024 columns, no
  -- null, and numbers that fit in 64 bits, on an ODBC library that serves it and answers each call with
  -- SQL_SUCCESS, and for a connector that is ready or holds no attributes of columns: `query()` returns
  -- true; as many calls of `getNext()` as there are cells then give the rows of the result, one after
  -- the other, each from its first to its last column; and any call of `getNext` after that throws
  -- `SQLInternalError` and changes nothing.
  pub query-rows_of :
      (o : Connector W)
      → o.params ≡ some p
      → IsFresh o
      → (o1 : Connector W) × (o2 : Connector W) × (query d o ≡ (o1, ok true))
        × (reads d (t.rows * t.cols) o1 ≡ (o2, ok (rows_of t t.rows)))
        × ((next : ℕ) → get_next d next o2 ≡ (o2, err sql_internal))
  query-rows_of o e fresh =
      let (o1, opened, s) = query-Streams o e fresh in
      let (o2, read, end) =
        reads-cells_from d t v.reading r o1 0 (t.rows * t.cols - 1) (omega (arith, last_cell)) s in
      (
        o1,
        o2,
        opened,
        subst (λ n. reads d n o1 ≡ (o2, ok (rows_of t t.rows))) last_cell
            (read
              ∙ ap (λ n. (o2, ok n)) (ap (cells_from t 0) last_cell ∙ cells_from-rows_of t t.rows)),
        λ next. get_next_refused d next o2 (and_false o2.ready o2.cursor.not_end end),
      )
