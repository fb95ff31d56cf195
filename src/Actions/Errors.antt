-- ===== src/Actions/Errors.antt =====
-- DEM/SQLErrorManager.h, DEM/SQLDefaultErrorAction.h and unixODBC/ODBCErrorFactoryComponent.{h,cc}:
-- what is done about the return code of a call of the ODBC library.
use sql_handler.Actions.{Action, ActionFactory, do_actions}
use sql_handler.CheckPoint.{CheckPoint, check}
use sql_handler.Outcome.{
  Error, Result, ok, err, internal_fatal, sql_internal, sql_internal_fatal, undefined, terminated,
  out_of_fuel,
}
use sql_handler.Prelude.{
  ℕ, Bool, true, false, Option, none, some, List, [], ◌∷◌, Text, ◌==◌, if◌then◌else◌,
}

-- The return codes of the ODBC library that the source names, and all others.
pub data ReturnCode : Type 0 where
  success success_with_info no_data error invalid_handle other : ReturnCode

-- `SQLErrorConnector`: `getError` gives the address of the code, and so is never null.
pub record ErrorConnector (W : Type 0) : Type 0 where
  pub get_error : W → ReturnCode
  pub get_msg : ReturnCode → W → W × Result (Option Text)

module _ {W : Type 0} where
  -- `fatalMethod`; it takes the address apart.
  abbrev pub fatal_method : Action W Text (Unit {0})
  fatal_method none w = (w, err undefined)
  fatal_method (some args) w = (w, err sql_internal_fatal)

  -- `debugMethod`
  abbrev pub debug_method : Action W Text (Unit {0})
  debug_method args w = (w, ok none)

  -- The five static lists and the `switch`.
  unfoldable pub get_actions : ReturnCode → Result (List (Action W Text (Unit {0})))
  get_actions ReturnCode.success = ok (debug_method ∷ [])
  get_actions ReturnCode.success_with_info = ok (debug_method ∷ [])
  get_actions ReturnCode.no_data = ok (debug_method ∷ [])
  get_actions ReturnCode.error = ok (fatal_method ∷ [])
  get_actions ReturnCode.invalid_handle = ok (fatal_method ∷ [])
  get_actions ReturnCode.other = err internal_fatal

-- `throw(SQLInternalError)` of `getActions`; the model's own errors are no exceptions.
unfoldable pub only_sql_internal {ℓ} : {A : Type ℓ} → Result A → Result A
only_sql_internal (ok a) = ok a
only_sql_internal (err Error.sql_internal) = err sql_internal
only_sql_internal (err Error.undefined) = err undefined
only_sql_internal (err Error.out_of_fuel) = err out_of_fuel
only_sql_internal (err _) = err terminated

-- `_stop`
unfoldable pub stop_code : ReturnCode → Bool
stop_code ReturnCode.success = true
stop_code ReturnCode.success_with_info = true
stop_code ReturnCode.no_data = true
stop_code _ = false

-- `SQLErrorFactory` over the functions of `ODBCErrorFactoryComponent`
unfoldable pub error_factory :
    {W : Type 0} → ErrorConnector W → ActionFactory W ReturnCode Text (Unit {0})
error_factory c = record {
  get_code = λ w. (w, ok (some (c.get_error w)));
  get_actions = λ code w. only_sql_internal (get_actions code);
  get_args = c.get_msg;
  stop = λ code w. ok (stop_code code);
}

-- `merge` and `join` of the error manager
abbrev pub latest {ℓ} : {A : Type ℓ} → Option A → Option A → Option A
latest prev actual = actual

-- `trigger`, at the point of the number `point`
unfoldable pub trigger :
    {W Code Args Out : Type 0}
    → ActionFactory W Code Args Out
    → ℕ
    → CheckPoint
    → ℕ
    → W
    → CheckPoint × (W × Result (Option Out))
unfolding do_actions check
trigger af fuel c point w =
    if point == 0
    then (c, do_actions af latest latest false fuel none w)
    else let (c', active) = check c point in
      elim active [
        | err e ↦ (c', (w, err e))
        | ok b ↦ elim b [
          | true ↦ (c', do_actions af latest latest false fuel none w)
          | false ↦ (c', (w, ok none))
        ]
      ]
