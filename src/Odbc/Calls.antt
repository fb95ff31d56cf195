-- ===== src/Odbc/Calls.antt =====
-- unixODBC/ODBCConnector.cc: connect, query, read and close.
use sql_handler.Actions.Errors.{ReturnCode}
use sql_handler.Call.{Call, ◌>>=◌, ◌>>◌, return, modify}
use sql_handler.Cursor.{reset, set_next}
use sql_handler.Odbc.Columns.{replicate, set, notify, get_type, get_col_size}
use sql_handler.Odbc.State.{
  Driver, Connector, Params, Row, Pointer, no_buffer, column_buffer, stray, status_size, stmt,
  counter, env, conn, succeeded, clean,
}
use sql_handler.Outcome.{Result, ok, err, internal, sql_internal, undefined}
use sql_handler.Prelude.{
  ℕ, zero, suc, Bool, true, false, ◌&&◌, Option, none, some, List, [], ◌∷◌, Text, get_elem?, ltb,
  if◌then◌else◌,
}

module _ {W : Type 0} where
  -- `getParams()`, and what is asked of it.
  abbrev pub asked : {A : Type 0} → (Params → Result A) → Call (Connector W) A
  asked f o = elim o.params [ none ↦ (o, err internal) | some p ↦ (o, f p) ]

  -- `if (!SQL_SUCCEEDED(rc)) throw BESInternalError`
  abbrev pub demand_success : Call (Connector W) (Unit {0})
  demand_success o = if succeeded o.rc then (o, ok tt) else (o, err internal)

  -- `d_status[i]`, where the array has it.
  abbrev pub in_status : ℕ → Call (Connector W) (Unit {0})
  in_status i o = if ltb i status_size then (o, ok tt) else (o, err undefined)

  -- What `connect()` and `query()` start with.
  abbrev pub clean_if_ready : Connector W → Connector W
  clean_if_ready o = if o.ready then clean o else o

  abbrev pub set_rows : ℕ → Connector W → Connector W
  set_rows n o = record o { cursor = record o.cursor { rows = n } }

  abbrev pub set_cols : ℕ → Connector W → Connector W
  set_cols n o = record o { cursor = record o.cursor { columns = n } }

-- What a row leaves in the bound buffers, and in the indicators.
unfoldable pub written : List Text → Row → List Text
written [] row = []
written (t ∷ ts) [] = t ∷ ts
written (t ∷ ts) (none ∷ row) = t ∷ written ts row
written (t ∷ ts) (some v ∷ row) = v ∷ written ts row

unfoldable pub indicators : Row → List Bool
indicators [] = []
indicators (none ∷ row) = true ∷ indicators row
indicators (some v ∷ row) = false ∷ indicators row

-- The loop of `fetch`: the pointer of a null column becomes the character '0'.
unfoldable pub stray_nulls : List Bool → List Pointer → List Pointer
stray_nulls [] ps = ps
stray_nulls (b ∷ bs) [] = []
stray_nulls (true ∷ bs) (p ∷ ps) = stray ∷ stray_nulls bs ps
stray_nulls (false ∷ bs) (p ∷ ps) = p ∷ stray_nulls bs ps

module _ {W : Type 0} (d : Driver W) where
  -- A call of the library that only changes its state, and one that also sets `rc`.
  abbrev pub tell : (W → W) → Connector W → Connector W
  tell f o = record o { driver = f o.driver }

  abbrev pub told : (W → W × ReturnCode) → Connector W → Connector W
  told f o = let (w, r) = f o.driver in record o { driver = w; rc = r }

  -- `connect()`
  unfoldable pub connect : Call (Connector W) Bool
  unfolding clean
  connect = do
    modify clean_if_ready
    modify (told (d.alloc_handle env))
    modify (told d.set_version)
    modify (told (d.alloc_handle conn))
    server ← asked λ p. ok p.server
    user ← asked λ p. ok p.user
    pass ← asked λ p. ok p.pass
    modify (told (d.connect_to server user pass))
    return true

  -- `connect(SQLContainer *)`
  unfoldable pub connect_with : Option Params → Call (Connector W) Bool
  unfolding connect
  connect_with c o = connect (record o { params = c })

  -- `SQLGetData` of the row count
  abbrev pub take_count : Call (Connector W) (Option ℕ)
  take_count o =
      let (w, r, n) = d.get_long counter o.driver in (record o { driver = w; rc = r }, ok n)

  -- `SQLNumResultCols`
  abbrev pub take_cols : Call (Connector W) ℕ
  take_cols o =
      let (w, r, n) = d.num_result_cols o.driver in (record o { driver = w; rc = r }, ok n)

  -- `SQLFetch` of the count; its row stays with the library.
  abbrev pub fetch_count : Connector W → Connector W
  fetch_count o = let (w, r, row) = d.fetch_row counter o.driver in record o { driver = w; rc = r }

  -- The end of `getRowCount`
  unfoldable pub counted : Option ℕ → Call (Connector W) ℕ
  counted none o = (o, err internal)
  counted (some n) o = (tell (d.free_handle counter) o, ok n)

  -- `getRowCount`
  unfoldable pub get_row_count : Call (Connector W) ℕ
  unfolding counted
  get_row_count = do
    modify (tell λ w. (d.alloc_handle counter w).0)
    count_stmt ← asked λ p. p.count_query
    modify (told (d.exec_direct counter count_stmt))
    demand_success
    modify fetch_count
    demand_success
    n ← take_count
    demand_success
    counted n

  -- The loop that allocates the buffers: `n` columns from `c` on. The size is how many bytes the
  -- buffer has.
  unfoldable pub allocate : ℕ → ℕ → Call (Connector W) (Unit {0})
  unfolding get_col_size
  allocate zero c = return tt
  allocate (suc n) c = do
    size ← get_col_size d c
    modify λ o. record o {
      buffers = set o.buffers c (column_buffer c);
      contents = set o.contents c [];
    }
    allocate n (suc c)

  -- The loop that binds them. The arguments of the call are read from the left to the right.
  unfoldable pub bind_columns : ℕ → ℕ → Call (Connector W) (Unit {0})
  unfolding get_type get_col_size
  bind_columns zero i = return tt
  bind_columns (suc n) i = do
    type ← get_type d i
    size ← get_col_size d i
    in_status i
    modify (told (d.bind_col (suc i) type size))
    demand_success
    bind_columns n (suc i)

  -- The end of `query()`.
  abbrev pub set_ready : Connector W → Connector W
  set_ready o = record o { to_fetch_rows = 1; cursor = reset o.cursor; ready = true }

  -- From `calloc` of the pointers on.
  unfoldable pub open_columns : ℕ → Call (Connector W) Bool
  unfolding allocate bind_columns notify reset
  open_columns cols = do
    modify λ o. record o { buffers = replicate cols no_buffer; contents = replicate cols [] }
    allocate cols 0
    bind_columns cols 0
    notify d 0
    modify set_ready
    return true

  -- `query()`
  unfoldable pub query : Call (Connector W) Bool
  unfolding get_row_count open_columns clean
  query = do
    modify clean_if_ready
    rows ← get_row_count
    modify (set_rows rows)
    modify (tell λ w. (d.alloc_handle stmt w).0)
    text ← asked λ p. p.query_text
    modify (told (d.exec_direct stmt text))
    demand_success
    cols ← take_cols
    demand_success
    modify (set_cols cols)
    open_columns cols

  -- `fetch()`, whose loop stays inside `d_status`.
  unfoldable pub fetched : Connector W → Connector W
  unfolding written indicators stray_nulls
  fetched o =
      let (w, r, row) = d.fetch_row stmt o.driver in
      elim row [
        | none ↦ record o { driver = w; rc = r; buffers = stray_nulls o.nulls o.buffers }
        | some cells ↦ record o {
          driver = w;
          rc = r;
          contents = written o.contents cells;
          nulls = indicators cells;
          buffers = stray_nulls (indicators cells) o.buffers;
        }
      ]

  -- `fetch()`: `d_status` is read for each column.
  unfoldable pub fetch : Call (Connector W) (Unit {0})
  unfolding fetched
  fetch o = if ltb status_size o.cursor.columns then (o, err undefined) else (fetched o, ok tt)

  -- The loop of `getNext`.
  unfoldable pub fetches : ℕ → Call (Connector W) (Unit {0})
  unfolding fetch
  fetches zero = return tt
  fetches (suc n) = do fetch; fetches n

  -- The end of `getNext`: `ret` is read before the cursor moves on.
  unfoldable pub move_on : ℕ → Call (Connector W) Pointer
  move_on next o = elim (get_elem? o.buffers o.cursor.column_position) [
    | none ↦ (o, err undefined)
    | some ret ↦ elim (set_next o.cursor next) [
      | none ↦ (o, err undefined)
      | some (c, moved) ↦ (record o { cursor = c; to_fetch_rows = moved }, ok ret)
    ]
  ]

  -- `getNext`
  unfoldable pub get_next : ℕ → Call (Connector W) Pointer
  unfolding fetches move_on
  get_next next o =
      if o.ready && o.cursor.not_end
      then (do fetches o.to_fetch_rows; modify λ o. record o { to_fetch_rows = 0 }; move_on next) o
      else (o, err sql_internal)

  -- `close()`
  unfoldable pub close : Call (Connector W) Bool
  unfolding clean
  close = do
    modify (tell d.close_cursor)
    modify (tell (d.free_handle stmt))
    modify (tell d.disconnect)
    modify (tell (d.free_handle conn))
    modify (tell d.roll_back)
    modify (tell (d.free_handle env))
    modify clean
    return true
