-- ===== src/Values/Factory.antt =====
-- unixODBC/ODBCTypeFactoryComponent.{h,cc}, DTM/SQLObjectTypeFactory.h and DTM/SQLTypeManager.h: the
-- variable that is made for the column under the cursor.
use sql_handler.Actions.{Action, ActionFactory, do_actions}
use sql_handler.Actions.Errors.{latest}
use sql_handler.Call.{Call, ◌>>=◌, return, throw}
use sql_handler.Odbc.Columns.{get_type, get_col_name}
use sql_handler.Odbc.State.{Driver, Connector}
use sql_handler.Odbc.Types.{
  CType, unset, c_char, c_wchar, c_long, c_bit, c_tinyint, c_short, c_sbigint, c_float, c_double,
  c_binary, c_type_date, c_type_time,
}
use sql_handler.Outcome.{ok, err, sql_internal_fatal, undefined}
use sql_handler.Prelude.{Bool, true, false, Option, none, some, [], ◌∷◌}
use sql_handler.Values.{
  Cast, cast_func, cast_string, DapType, str, int16, int32, float32, float64, Form, simple,
  simple_void, Variable, Dap, new_cast,
}

module _ {W V : Type 0} (d : Driver W) (lib : Dap V) where
  -- The constructors of `SQLSimpleType` and `SQLBaseType`. `kept` is the flag `_reuse` of the
  -- variable, and `reuse` the one of its cast; libdap starts with the other flags false.
  unfoldable pub new_variable :
      Form → DapType → Cast → Bool → Bool → Call (Connector W) (Option (Variable V))
  unfolding new_cast get_col_name
  new_variable form dap cast kept reuse = do
    name ← λ o. get_col_name d o.cursor.column_position o
    action ← λ o. (o, new_cast (some cast) reuse)
    λ o. (
      o,
      ok (
          some (record {
            name = name;
            form = form;
            dap = dap;
            col = o.cursor.column_position;
            action = action;
            reuse = kept;
            read_p = false;
            send_p = false;
            in_selection = false;
            value = lib.blank;
          })),
    )

  -- Of a type that is set by `set_value`, and of one that is set through a pointer to `void`, whose
  -- cast always has the flag.
  abbrev pub new_simple : DapType → Cast → Bool → Call (Connector W) (Option (Variable V))
  new_simple dap cast reuse = new_variable simple dap cast reuse reuse

  abbrev pub new_simple_void : DapType → Cast → Bool → Call (Connector W) (Option (Variable V))
  new_simple_void dap cast reuse = new_variable simple_void dap cast reuse true

  -- The `switch` of `action`, for the C types that the connector gives a column.
  unfoldable pub by_type : CType → Call (Connector W) (Option (Variable V))
  unfolding new_variable
  by_type c_char = new_simple str cast_string false
  by_type c_long = new_simple_void int32 cast_func true
  by_type c_short = new_simple_void int16 cast_func true
  by_type c_float = new_simple_void float32 cast_func true
  by_type c_double = new_simple_void float64 cast_func true
  by_type c_type_date = new_simple_void str cast_func true
  by_type c_type_time = new_simple_void str cast_func true
  by_type c_binary = new_simple_void int16 cast_func true
  by_type c_bit = new_simple_void int16 cast_func true
  by_type c_sbigint = new_simple_void int32 cast_func true
  by_type c_tinyint = new_simple_void int16 cast_func true
  by_type c_wchar = throw sql_internal_fatal
  by_type unset = throw sql_internal_fatal

  -- `ODBCTypeFactoryComponent::action`; it takes the address of the type apart.
  unfoldable pub type_action : Action (Connector W) CType (Variable V)
  unfolding by_type
  type_action none o = (o, err undefined)
  type_action (some type) o = by_type type o

  -- `SQLObjectTypeFactory`, whose list is the one action, reset.
  unfoldable pub type_factory : ActionFactory (Connector W) CType CType (Variable V)
  unfolding type_action get_type
  type_factory = record {
    get_code = (do type ← (λ o. get_type d o.cursor.column_position o); return (some type));
    get_actions = λ code o. ok (type_action ∷ []);
    get_args = λ code o. (o, ok (some code));
    stop = λ code o. ok true;
  }

  -- `SQLTypeManager::doActions`; the factory stops after one round.
  unfoldable pub make_type : Call (Connector W) (Option (Variable V))
  unfolding type_factory do_actions
  make_type o = do_actions type_factory latest latest false 1 none o
