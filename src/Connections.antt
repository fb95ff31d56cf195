-- ===== src/Connections.antt =====
-- handler/connector/SQLConnectAction.h, SQLQueryAction.h, SQLCloseAction.h and SQLNextTypeAction.h: a
-- call of a connector, the check for errors behind it, and what each class of exception becomes.
pub mod Failures
pub mod Objects
pub mod Odbc
use sql_handler.Call.{Call, ◌>>=◌, ◌>>◌, return}
use sql_handler.Outcome.{
  Error, Result, ok, err, internal, internal_fatal, syntax_user, sql_internal, sql_internal_fatal,
  out_of_range, undefined, terminated, out_of_fuel,
}
use sql_handler.Prelude.{ℕ, zero, suc, Bool, true, false, Option, none, some, if◌then◌else◌}

-- The numbers of the points at which errors are checked for.
abbrev on_always : ℕ
on_always = 0

abbrev on_connect : ℕ
on_connect = 1

abbrev on_close : ℕ
on_close = 2

abbrev on_query : ℕ
on_query = 3

abbrev on_get_next : ℕ
on_get_next = 4

abbrev on_next_row : ℕ
on_next_row = 5

-- `SQLHandleConnector`, with the part of `SQLSimpleConnector` that `nextType` uses; and the error
-- manager's `trigger` on its error factory, which may be null. `make_type` is `doActions` of the type
-- factory. `is_std` says which exceptions derive from `std::exception`.
pub record Handler (W C B : Type 0) : Type 0 where
  pub connect : C → Call W Bool
  pub query : Call W Bool
  pub close : Call W Bool
  pub set_next : Call W ℕ
  pub not_end : W → Bool
  pub make_type : Call W (Option B)
  pub has_factory : Bool
  pub trigger : ℕ → Call W (Option (Unit {0}))
  pub is_std : Error → Bool

module _ {W C B : Type 0} (h : Handler W C B) where
  -- `connector.close(); throw e;` in a handler: an exception of `close` takes the other's place.
  unfoldable pub close_and_throw : {A : Type 0} → Error → Call W A
  close_and_throw e w = let (w', r) = h.close w in (w', elim r [ err e' ↦ err e' | ok b ↦ err e ])

  -- What each handler does about an exception; the model's own errors are none.
  unfoldable pub connect_failed : {A : Type 0} → Error → Call W A
  unfolding close_and_throw
  connect_failed Error.undefined w = (w, err undefined)
  connect_failed Error.terminated w = (w, err terminated)
  connect_failed Error.out_of_fuel w = (w, err out_of_fuel)
  connect_failed e w = close_and_throw sql_internal_fatal w

  unfoldable pub query_failed : {A : Type 0} → Error → Call W A
  unfolding close_and_throw
  query_failed Error.undefined w = (w, err undefined)
  query_failed Error.terminated w = (w, err terminated)
  query_failed Error.out_of_fuel w = (w, err out_of_fuel)
  query_failed Error.sql_internal w = close_and_throw sql_internal w
  query_failed Error.sql_internal_fatal w = close_and_throw sql_internal_fatal w
  query_failed e w =
      if h.is_std e then close_and_throw sql_internal_fatal w else (w, err sql_internal_fatal)

  unfoldable pub close_failed : {A : Type 0} → Error → Call W A
  close_failed Error.undefined w = (w, err undefined)
  close_failed Error.terminated w = (w, err terminated)
  close_failed Error.out_of_fuel w = (w, err out_of_fuel)
  close_failed e w = (w, err sql_internal_fatal)

  unfoldable pub next_failed : Error → Call W (Option B)
  unfolding close_and_throw
  next_failed Error.undefined w = (w, err undefined)
  next_failed Error.terminated w = (w, err terminated)
  next_failed Error.out_of_fuel w = (w, err out_of_fuel)
  next_failed Error.sql_internal w = (w, ok none)
  next_failed e w = close_and_throw sql_internal_fatal w

  -- A block with a handler.
  abbrev pub caught : {A : Type 0} → (Error → Call W A) → W × Result A → W × Result A
  caught f (w, ok a) = (w, ok a)
  caught f (w, err e) = f e w

  -- `else if (!ret) throw SQLInternalFatalError`
  abbrev pub demand : Bool → Call W (Option (Unit {0}))
  demand true w = (w, ok none)
  demand false w = (w, err sql_internal_fatal)

  -- What stands behind the call of the connector, at the point of the action.
  unfoldable pub check_errors : ℕ → Bool → Bool → Call W (Option (Unit {0}))
  check_errors point force ret w =
      if h.has_factory then h.trigger (if force then on_always else point) w else demand ret w

  -- `SQLConnectAction::connect`
  unfoldable pub connect : C → Bool → Call W (Option (Unit {0}))
  unfolding check_errors connect_failed
  connect container force w =
      caught connect_failed ((do ret ← h.connect container; check_errors on_connect force ret) w)

  -- `SQLQueryAction::query`, which returns null.
  unfoldable pub query : Bool → Call W (Option (Unit {0}))
  unfolding check_errors query_failed
  query force w =
      caught query_failed ((do ret ← h.query; out ← check_errors on_query force ret; return none) w)

  -- `SQLCloseAction::close`, which returns null.
  unfoldable pub close : Bool → Call W (Option (Unit {0}))
  unfolding check_errors close_failed
  close force w =
      caught close_failed ((do ret ← h.close; out ← check_errors on_close force ret; return none) w)

  -- `while (rows-- > 0) trigger(_SQLH_ON_NEXT_ROW)`
  unfoldable pub each_row : ℕ → Call W (Unit {0})
  each_row zero = return tt
  each_row (suc rows) = do out ← h.trigger on_next_row; each_row rows

  -- The checks for errors of `nextType`.
  unfoldable pub check_next : Bool → ℕ → Call W (Option (Unit {0}))
  unfolding each_row
  check_next force rows w =
      if h.has_factory
      then (if force
          then h.trigger on_always w
          else (do each_row (if h.not_end w then rows else 0); h.trigger on_get_next) w)
      else (w, ok none)

  -- `SQLNextTypeAction::nextType`
  unfoldable pub next_type : Bool → Call W (Option B)
  unfolding check_next next_failed
  next_type force w =
      caught next_failed
        ((do bt ← h.make_type; rows ← h.set_next; out ← check_next force rows; return bt) w)
