-- ===== src/Connections/Objects.antt =====
-- The objects of the four classes of handler/connector: each holds the arguments of its static
-- function, and its `action` is declared with `throw(SQLInternalFatalError)`. The connector and the
-- error factory that they point to are those of the handler.
pub mod Stops
use sql_handler.Connections.{Handler, connect, query, close, next_type}
use sql_handler.Outcome.{
  Error, Result, ok, err, internal, internal_fatal, syntax_user, sql_internal, sql_internal_fatal,
  out_of_range, undefined, out_of_fuel,
}
use sql_handler.Prelude.{Bool, true, false, Option}

-- An object of `SQLConnectAction`, `SQLQueryAction` or `SQLCloseAction`, with `_force`.
pub data ActionObject (C : Type 0) : Type 0 where
  connect_object : C → Bool → ActionObject C
  query_object close_object : Bool → ActionObject C

module _ {C : Type 0} where
  -- The constructor of `SQLConnectAction`.
  abbrev new_connect_action : C → Bool → ActionObject C
  new_connect_action container force = connect_object container force

  -- The constructor of `SQLQueryAction`.
  abbrev pub new_query_action : Bool → ActionObject C
  new_query_action force = query_object force

  -- The constructor of `SQLCloseAction`, which drops its argument.
  abbrev new_close_action : Bool → ActionObject C
  new_close_action force = close_object false

-- How a function with an exception specification ends: `stopped` is the end of the program, by
-- `std::unexpected` here or before.
pub data Ended (A : Type 0) : Type 0 where
  gave : A → Ended A
  left : Error → Ended A
  stopped : Ended A

-- `throw(SQLInternalFatalError)`; the model's own errors are no exceptions.
unfoldable pub specified : {W A : Type 0} → W × Result A → W × Ended A
specified (w, ok a) = (w, gave a)
specified (w, err Error.sql_internal_fatal) = (w, left sql_internal_fatal)
specified (w, err Error.undefined) = (w, left undefined)
specified (w, err Error.terminated) = (w, stopped)
specified (w, err Error.out_of_fuel) = (w, left out_of_fuel)
specified (w, err Error.internal) = (w, stopped)
specified (w, err Error.internal_fatal) = (w, stopped)
specified (w, err Error.syntax_user) = (w, stopped)
specified (w, err Error.sql_internal) = (w, stopped)
specified (w, err Error.out_of_range) = (w, stopped)

module _ {W C B : Type 0} (h : Handler W C B) where
  -- The methods `connect`, `query` and `close` of the objects.
  unfoldable pub run_object : ActionObject C → W → W × Result (Option (Unit {0}))
  unfolding connect query close
  run_object (connect_object container force) w = connect h container force w
  run_object (query_object force) w = query h force w
  run_object (close_object force) w = close h force w

  -- `action`
  unfoldable pub object_action : ActionObject C → W → W × Ended (Option (Unit {0}))
  unfolding run_object specified
  object_action o w = specified (run_object o w)

  -- `action` of `SQLNextTypeAction`
  unfoldable pub next_action : Bool → W → W × Ended (Option B)
  unfolding next_type specified
  next_action force w = specified (next_type h force w)
