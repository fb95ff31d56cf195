-- ===== src/Values/Kinds.antt =====
-- Which variable a column gets.
use sql_handler.Odbc.Columns.{kept_type, kept_name, get_type, get_col_name}
use sql_handler.Odbc.State.{Driver, Connector}
use sql_handler.Odbc.Types.{
  SqlType, char, varchar, longvarchar, wchar, wvarchar, wlongvarchar, decimal, numeric, bit,
  tinyint, smallint, integer, bigint, real, float, double, binary, varbinary, longvarbinary,
  type_date, type_time, guid, other_type, CType, get_c_type,
}
use sql_handler.Outcome.{Error, Result, ok, err, sql_internal_fatal}
use sql_handler.Prelude.{
  ℕ, ◌<◌, ◌≡◌, refl, ap, ◌∙◌, true, false, Option, none, some, List, [], ◌∷◌, Text, get_elem?,
  arith,
}
use sql_handler.Values.{
  DapType, str, int16, int32, float32, float64, simple, simple_void, cast_func, cast_string,
  Variable, Dap,
}
use sql_handler.Actions.{do_actions, try_next, uncaught, run_actions, end_round}
use sql_handler.Actions.Errors.{latest}
use sql_handler.Values.Factory.{type_action, type_factory, make_type, by_type, new_variable}

-- What a column of a SQL type becomes: text, for which a string is made for each value, or a type that
-- is read from the buffer in place. There is nothing for wide characters.
pub data Kind : Type 0 where
  text : Kind
  buffer_of : DapType → Kind

unfoldable pub kind_of : SqlType → Option Kind
kind_of wchar = none
kind_of wvarchar = none
kind_of wlongvarchar = none
kind_of decimal = some (buffer_of int32)
kind_of numeric = some (buffer_of int32)
kind_of integer = some (buffer_of int32)
kind_of bigint = some (buffer_of int32)
kind_of smallint = some (buffer_of int16)
kind_of tinyint = some (buffer_of int16)
kind_of bit = some (buffer_of int16)
kind_of binary = some (buffer_of int16)
kind_of varbinary = some (buffer_of int16)
kind_of longvarbinary = some (buffer_of int16)
kind_of real = some (buffer_of float32)
kind_of float = some (buffer_of float64)
kind_of double = some (buffer_of float64)
kind_of type_date = some (buffer_of str)
kind_of type_time = some (buffer_of str)
kind_of char = some text
kind_of varchar = some text
kind_of longvarchar = some text
kind_of guid = some text
kind_of other_type = some text

module _ {W V : Type 0} (d : Driver W) (lib : Dap V) where
  -- The variable of a kind.
  abbrev pub variable_of : Text → ℕ → Kind → Variable V
  variable_of name col text = record {
    name = name;
    form = simple;
    dap = str;
    col = col;
    action = record { cast = cast_string; val = none; reuse = false };
    reuse = false;
    read_p = false;
    send_p = false;
    in_selection = false;
    value = lib.blank;
  }
  variable_of name col (buffer_of t) = record {
    name = name;
    form = simple_void;
    dap = t;
    col = col;
    action = record { cast = cast_func; val = none; reuse = true };
    reuse = true;
    read_p = false;
    send_p = false;
    in_selection = false;
    value = lib.blank;
  }

  abbrev pub made_of : Text → ℕ → Option Kind → Result (Option (Variable V))
  made_of name col none = err sql_internal_fatal
  made_of name col (some k) = ok (some (variable_of name col k))

  module _ (o : Connector W) (name : Text)
      (named : get_col_name d o.cursor.column_position o ≡ (o, ok name)) where
    new_text :
        new_variable d lib simple str cast_string false false o
        ≡ (o, made_of name o.cursor.column_position (some text))
    unfolding new_variable
    new_text = rw named refl

    new_buffer :
        (t : DapType)
        → new_variable d lib simple_void t cast_func true true o
          ≡ (o, made_of name o.cursor.column_position (some (buffer_of t)))
    unfolding new_variable
    new_buffer t = rw named refl

    by_type-made :
        (s : SqlType)
        → by_type d lib (get_c_type s) o ≡ (o, made_of name o.cursor.column_position (kind_of s))
    unfolding by_type get_c_type kind_of
    by_type-made wchar = refl
    by_type-made wvarchar = refl
    by_type-made wlongvarchar = refl
    by_type-made decimal = new_buffer int32
    by_type-made numeric = new_buffer int32
    by_type-made integer = new_buffer int32
    by_type-made bigint = new_buffer int32
    by_type-made smallint = new_buffer int16
    by_type-made tinyint = new_buffer int16
    by_type-made bit = new_buffer int16
    by_type-made binary = new_buffer int16
    by_type-made varbinary = new_buffer int16
    by_type-made longvarbinary = new_buffer int16
    by_type-made real = new_buffer float32
    by_type-made float = new_buffer float64
    by_type-made double = new_buffer float64
    by_type-made type_date = new_buffer str
    by_type-made type_time = new_buffer str
    by_type-made char = new_text
    by_type-made varchar = new_text
    by_type-made longvarchar = new_text
    by_type-made guid = new_text
    by_type-made other_type = new_text

    -- What the actions of the factory leave.
    abbrev after : Option Kind → Connector W × Option (Variable V) × Option Error
    after none = (o, none, some sql_internal_fatal)
    after (some k) = (o, some (variable_of name o.cursor.column_position k), none)

    run_type :
        (t : CType) (k : Option Kind)
        → by_type d lib t o ≡ (o, made_of name o.cursor.column_position k)
        → run_actions
            (type_factory d lib)
            latest
            latest
            false
            t
            true
            none
            (type_action d lib ∷ [])
            none
            o
          ≡ after k
    unfolding run_actions type_factory type_action try_next
    run_type t none e =
        rw (run_actions, e) (ap (λ (x : Connector W × Result (Option (Variable V))). threw x.0) e)
      where
        threw : Connector W → Connector W × Option (Variable V) × Option Error
        threw o' = (o', none, some sql_internal_fatal)
    run_type t (some k) e =
        rw (run_actions, e) (ap (λ (x : Connector W × Result (Option (Variable V))). made x.0) e)
      where
        made : Connector W → Connector W × Option (Variable V) × Option Error
        made o' = (o', some (variable_of name o.cursor.column_position k), none)

    ended :
        (again : Option (Variable V) → Connector W → Connector W × Result (Option (Variable V)))
        (t : CType) (k : Option Kind)
        → end_round (type_factory d lib) latest latest false again t none (after k)
          ≡ (o, made_of name o.cursor.column_position k)
    unfolding end_round type_factory uncaught
    ended again t none = refl
    ended again t (some k) = refl

    make_type-made :
        (s : SqlType)
        → get_type d o.cursor.column_position o ≡ (o, ok (get_c_type s))
        → make_type d lib o ≡ (o, made_of name o.cursor.column_position (kind_of s))
    unfolding make_type type_factory do_actions
    make_type-made s typed = rw typed (
        ap
          (end_round (type_factory d lib) latest latest false
            (do_actions (type_factory d lib) latest latest false 0) (get_c_type s) none)
          (run_type (get_c_type s) (kind_of s) (by_type-made s))
        ∙ ended (do_actions (type_factory d lib) latest latest false 0) (get_c_type s) (kind_of s))

  -- The arrays of the columns are there, which `query()` and the first `getColName` fill.
  pub record HasColumn (o : Connector W) (name : Text) (s : SqlType) : Type 0 where
    pub types : List CType
    pub names : List Text
    pub has_types : o.types ≡ some types
    pub has_names : o.names ≡ some names
    pub in_columns : o.cursor.column_position < o.cursor.columns
    pub typed : get_elem? types o.cursor.column_position ≡ some (get_c_type s)
    pub named : get_elem? names o.cursor.column_position ≡ some name

  kept_name_lem :
      (o : Connector W) (c : ℕ) (ns : List Text) (name : Text)
      → o.names ≡ some ns
      → c < o.cursor.columns
      → get_elem? ns c ≡ some name
      → get_col_name d c o ≡ (o, ok name)
  unfolding get_col_name kept_name
  kept_name_lem o c ns name e h q = ground (arith, e, q)

  kept_type_lem :
      (o : Connector W) (c : ℕ) (ts : List CType) (t : CType)
      → o.types ≡ some ts
      → c < o.cursor.columns
      → get_elem? ts c ≡ some t
      → get_type d c o ≡ (o, ok t)
  unfolding get_type kept_type
  kept_type_lem o c ts t e h q = ground (arith, e, q)

  -- For a connector whose arrays of types and names are there, on a column of the SQL type `s`: for the
  -- three types of wide characters the type manager throws `SQLInternalFatalError`; for any other it
  -- makes one variable, which has the name and the number of the column and the type of the response
  -- that belongs to `s`, takes a string that is made for each value if `s` becomes text and reads the
  -- buffer in place if not, and is not read yet. The connector stays as it is.
  pub make_type-kind_of :
      (o : Connector W) (name : Text) (s : SqlType)
      → HasColumn o name s
      → make_type d lib o ≡ (o, made_of name o.cursor.column_position (kind_of s))
  make_type-kind_of o name s v =
      make_type-made o name
        (kept_name_lem o o.cursor.column_position v.names name v.has_names v.in_columns v.named) s
        (kept_type_lem o o.cursor.column_position v.types (get_c_type s) v.has_types v.in_columns
          v.typed)
