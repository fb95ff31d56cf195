-- ===== src/Odbc/Columns.antt =====
-- unixODBC/ODBCConnector.cc: the attributes of the columns, each asked for once and then kept in an
-- array.
use sql_handler.Actions.Errors.{error_factory, trigger}
use sql_handler.Call.{Call, ◌>>=◌, ◌>>◌, return, modify}
use sql_handler.CheckPoint.{CheckPoint}
use sql_handler.Odbc.State.{Driver, Connector, length_of, precision_of, as_error_connector}
use sql_handler.Odbc.Types.{CType, unset, get_c_type}
use sql_handler.Outcome.{Result, ok, err, Error, sql_internal, sql_internal_fatal, undefined}
use sql_handler.Prelude.{
  ℕ, zero, suc, ◌+◌, Option, none, some, List, [], ◌∷◌, ◌++◌, Text, codes, get_elem?, ltb, ◌==◌,
  if◌then◌else◌,
}

-- A new array of `n` values.
abbrev pub replicate {ℓ} : {A : Type ℓ} → ℕ → A → List A
replicate zero a = []
replicate (suc n) a = a ∷ replicate n a

-- `a[i] = v`
abbrev pub set {ℓ} : {A : Type ℓ} → List A → ℕ → A → List A
set [] i v = []
set (x ∷ xs) zero v = v ∷ xs
set (x ∷ xs) (suc i) v = x ∷ set xs i v

abbrev pub set_in {ℓ} : {A : Type ℓ} → Option (List A) → ℕ → A → Option (List A)
set_in none i v = none
set_in (some xs) i v = some (set xs i v)

-- `a[column]`, behind the test against the number of columns.
abbrev pub entry : {S A : Type 0} → List A → ℕ → Call S A
entry xs column s = elim (get_elem? xs column) [ none ↦ (s, err undefined) | some a ↦ (s, ok a) ]

-- What a trigger leaves behind.
abbrev pub notified :
    {W : Type 0}
    → CheckPoint × (Connector W × Result (Option (Unit {0})))
    → Connector W × Result (Unit {0})
notified (c, (o, err e)) = (record o { check_point = c }, err e)
notified (c, (o, ok a)) = (record o { check_point = c }, ok tt)

module _ {W : Type 0} (d : Driver W) where
  -- `if (sef) SQLErrorManager<void>::trigger(point, *sef)`, on the fuel of one round.
  unfoldable pub notify : ℕ → Call (Connector W) (Unit {0})
  unfolding trigger
  notify point o =
      if o.has_factory
      then notified (trigger (error_factory (as_error_connector d)) 1 o.check_point point o)
      else (o, ok tt)

  -- `rc = SQLColAttribute(stmt, col + 1, ...)`
  unfoldable pub ask_type : ℕ → Call (Connector W) CType
  ask_type col o =
      let (w, r, t) = d.col_type (suc col) o.driver in
      (record o { driver = w; rc = r }, ok (get_c_type t))

  unfoldable pub ask_length : ℕ → Call (Connector W) ℕ
  ask_length col o =
      let (w, r, n) = d.col_measure length_of (suc col) o.driver in
      (record o { driver = w; rc = r }, ok n)

  unfoldable pub ask_precision : ℕ → Call (Connector W) ℕ
  ask_precision col o =
      let (w, r, n) = d.col_measure precision_of (suc col) o.driver in
      (record o { driver = w; rc = r }, ok n)

  unfoldable pub ask_name : ℕ → Call (Connector W) Text
  ask_name col o =
      let (w, r, n) = d.col_name (suc col) o.driver in (record o { driver = w; rc = r }, ok n)

  -- The loop of `getType`: `n` columns from `col` on.
  unfoldable pub load_types : ℕ → ℕ → Call (Connector W) (Unit {0})
  unfolding ask_type notify
  load_types zero col = return tt
  load_types (suc n) col = do
    t ← ask_type col
    notify 0
    modify λ o. record o { types = set_in o.types col t }
    load_types n (suc col)

  -- The branch of `getType` for an array that is there.
  unfoldable pub kept_type : ℕ → Call (Connector W) CType
  kept_type column o = elim o.types [
    | none ↦ (o, err undefined)
    | some ts ↦ if ltb column o.cursor.columns then entry ts column o else (o, err sql_internal)
  ]

  -- A new array, filled.
  unfoldable pub fill_types : ℕ → Call (Connector W) CType
  unfolding load_types kept_type
  fill_types column o =
      (do load_types o.cursor.columns 0; kept_type column)
        (record o { types = some (replicate o.cursor.columns unset) })

  -- `getType`, which calls itself once the array is filled.
  unfoldable pub get_type : ℕ → Call (Connector W) CType
  unfolding fill_types kept_type
  get_type column o = elim o.types [
    | some ts ↦ kept_type column o
    | none ↦ if ltb 0 o.cursor.columns then fill_types column o else (o, err sql_internal)
  ]

  -- The loop of `getColSize`. The lengths and the row's size are of type SQLLEN; a sum that leaves it
  -- is undefined in the source, and is not modelled.
  unfoldable pub load_sizes : ℕ → ℕ → Call (Connector W) (Unit {0})
  unfolding ask_length notify
  load_sizes zero col = return tt
  load_sizes (suc n) col = do
    size ← ask_length col
    notify 0
    modify λ o. record o { sizes = set_in o.sizes col size; row_size = o.row_size + size }
    load_sizes n (suc col)

  unfoldable pub kept_size : ℕ → Call (Connector W) ℕ
  kept_size column o = elim o.sizes [
    | none ↦ (o, err undefined)
    | some sizes ↦
        if column == o.cursor.columns
        then (o, ok o.row_size)
        else if ltb column o.cursor.columns
        then entry sizes column o
        else (o, err sql_internal)
  ]

  -- A new array, filled.
  unfoldable pub fill_sizes : ℕ → Call (Connector W) ℕ
  unfolding load_sizes kept_size
  fill_sizes column o =
      (do load_sizes o.cursor.columns 0; kept_size column)
        (record o { sizes = some (replicate o.cursor.columns 0) })

  -- `getColSize`
  unfoldable pub get_col_size : ℕ → Call (Connector W) ℕ
  unfolding fill_sizes kept_size
  get_col_size column o = elim o.sizes [
    | some sizes ↦ kept_size column o
    | none ↦ if ltb 0 o.cursor.columns then fill_sizes column o else (o, err sql_internal)
  ]

  -- The loop of `getColName`.
  unfoldable pub load_names : ℕ → ℕ → Call (Connector W) (Unit {0})
  unfolding ask_name notify
  load_names zero col = return tt
  load_names (suc n) col = do
    name ← ask_name col
    notify 0
    modify λ o. record o { names = set_in o.names col name }
    load_names n (suc col)

  unfoldable pub kept_name : ℕ → Call (Connector W) Text
  kept_name column o = elim o.names [
    | none ↦ (o, err undefined)
    | some ns ↦
        if ltb column o.cursor.columns then entry ns column o else (o, err sql_internal_fatal)
  ]

  -- A new array, filled.
  unfoldable pub fill_names : ℕ → Call (Connector W) Text
  unfolding load_names kept_name
  fill_names column o =
      (do load_names o.cursor.columns 0; kept_name column)
        (record o { names = some (replicate o.cursor.columns []) })

  -- `getColName`
  unfoldable pub get_col_name : ℕ → Call (Connector W) Text
  unfolding fill_names kept_name
  get_col_name column o = elim o.names [
    | some ns ↦ kept_name column o
    | none ↦ if ltb 0 o.cursor.columns then fill_names column o else (o, err sql_internal_fatal)
  ]

-- `"Using precision: " + o.str()`
abbrev pub precision_text : Text → Text
precision_text digits = codes "Using precision: " ++ digits

-- The handler in the loop of `getColDesc`: a `SQLInternalError` leaves an empty description.
abbrev pub described : {A : Type 0} → Text → Result A → Result Text
described t (ok a) = ok t
described t (err Error.sql_internal) = ok []
described t (err e) = err e

module _ {W : Type 0} (d : Driver W) (print : ℕ → Text) where
  -- The trigger and its handler.
  unfoldable pub describe : ℕ → Call (Connector W) Text
  unfolding notify
  describe len o = let (o', r) = notify d 4 o in (o', described (precision_text (print len)) r)

  -- The loop of `getColDesc`; `print` is the output of a number to a stream.
  unfoldable pub load_descs : ℕ → ℕ → Call (Connector W) (Unit {0})
  unfolding ask_precision describe
  load_descs zero col = return tt
  load_descs (suc n) col = do
    len ← ask_precision d col
    desc ← describe len
    modify λ o. record o { descs = set_in o.descs col desc }
    load_descs n (suc col)

  unfoldable pub kept_desc : ℕ → Call (Connector W) Text
  kept_desc column o = elim o.descs [
    | none ↦ (o, err undefined)
    | some ds ↦
        if ltb column o.cursor.columns then entry ds column o else (o, err sql_internal_fatal)
  ]

  -- A new array, filled.
  unfoldable pub fill_descs : ℕ → Call (Connector W) Text
  unfolding load_descs kept_desc
  fill_descs column o =
      (do load_descs o.cursor.columns 0; kept_desc column)
        (record o { descs = some (replicate o.cursor.columns []) })

  -- `getColDesc`
  unfoldable pub get_col_desc : ℕ → Call (Connector W) Text
  unfolding fill_descs kept_desc
  get_col_desc column o = elim o.descs [
    | some ds ↦ kept_desc column o
    | none ↦ if ltb 0 o.cursor.columns then fill_descs column o else (o, err sql_internal_fatal)
  ]
