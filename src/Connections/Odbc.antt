-- ===== src/Connections/Odbc.antt =====
-- The actions on the connector of the ODBC library.
use mathlib.Core.Path.{subst}
use sql_handler.Actions.Errors.{error_factory, trigger}
use sql_handler.Call.{Call}
use sql_handler.CheckPoint.{CheckPoint}
use sql_handler.Connections.{Handler, connect, query}
use sql_handler.Connections.Failures.{IsException, Closes, connect_closes, query_closes}
use sql_handler.Cursor.{set_next}
use sql_handler.Odbc.Calls
use sql_handler.Odbc.Calls.{close, connect_with, get_next}
use sql_handler.Odbc.Reads.{get_next_refused}
use sql_handler.Odbc.State.{Driver, Connector, Params, as_error_connector}
use sql_handler.Outcome.{Error, Result, ok, err, sql_internal, sql_internal_fatal, undefined}
use sql_handler.Prelude.{ℕ, ◌≡◌, ◌⊎◌, refl, sym, Bool, true, false, Option, none, some}

module _ {W : Type 0} where
  -- `setNext()` of the connector.
  abbrev pub next_cell : Call (Connector W) ℕ
  next_cell o = elim (set_next o.cursor 1) [
    | none ↦ (o, err undefined)
    | some (c, moved) ↦ (record o { cursor = c }, ok moved)
  ]

  abbrev pub with_point :
      CheckPoint × (Connector W × Result (Option (Unit {0})))
      → Connector W × Result (Option (Unit {0}))
  with_point (c, (o, r)) = (record o { check_point = c }, r)

  -- The ODBC connector, its error factory at hand or not.
  abbrev pub odbc :
      {B : Type 0}
      → Driver W
      → Call (Connector W) (Option B)
      → (Error → Bool)
      → Bool
      → Handler (Connector W) (Option Params) B
  odbc d make_type is_std has_factory = record {
    connect = connect_with d;
    query = Calls.query d;
    close = close d;
    set_next = next_cell;
    not_end = λ o. o.cursor.not_end;
    make_type = make_type;
    has_factory = has_factory;
    trigger = λ point o.
        with_point (trigger (error_factory (as_error_connector d)) 1 o.check_point point o);
    is_std = is_std;
  }

module _ {W B : Type 0} (d : Driver W) (make_type : Call (Connector W) (Option B))
    (is_std : Error → Bool) (has_factory : Bool) where
  closes : Closes (odbc d make_type is_std has_factory)
  unfolding close
  closes o = (true, refl)

  -- A connector that has been closed refuses each read.
  refuses :
      (o : Connector W)
      → ((close d o).0.ready ≡ false)
        × ((next : ℕ) → get_next d next (close d o).0 ≡ ((close d o).0, err sql_internal))
  unfolding close
  refuses o = (refl, λ next. get_next_refused d next (close d o).0 refl)

  refuses_of :
      (o o' : Connector W)
      → o' ≡ (close d o).0
      → (o'.ready ≡ false) × ((next : ℕ) → get_next d next o' ≡ (o', err sql_internal))
  refuses_of o o' e =
      subst (λ x. (x.ready ≡ false) × ((next : ℕ) → get_next d next x ≡ (x, err sql_internal)))
        (sym e) (refuses o)

  -- For the ODBC connector, where every exception derives from `std::exception`: an exception that
  -- leaves the query action is a `SQLInternalError` or a `SQLInternalFatalError`; it leaves the
  -- connector not ready, and every call of `getNext` on it throws `SQLInternalError` and changes
  -- nothing.
  pub query-get_next :
      (force : Bool) (o o' : Connector W) (e : Error)
      → ((x : Error) → is_std x ≡ true)
      → query (odbc d make_type is_std has_factory) force o ≡ (o', err e)
      → IsException e
      → ((e ≡ sql_internal) ⊎ (e ≡ sql_internal_fatal))
        × (o'.ready ≡ false)
        × ((next : ℕ) → get_next d next o' ≡ (o', err sql_internal))
  query-get_next force o o' e s q exc =
      let (class, (v, left)) =
        query_closes (odbc d make_type is_std has_factory) force o o' e closes s q exc in
      let (not_ready, refused) = refuses_of v o' left in (class, not_ready, refused)

  -- For the ODBC connector: an exception that leaves the connect action is a `SQLInternalFatalError`;
  -- it leaves the connector not ready, and every call of `getNext` on it throws `SQLInternalError` and
  -- changes nothing.
  pub connect-get_next :
      (container : Option Params) (force : Bool) (o o' : Connector W) (e : Error)
      → connect (odbc d make_type is_std has_factory) container force o ≡ (o', err e)
      → IsException e
      → (e ≡ sql_internal_fatal)
        × (o'.ready ≡ false)
        × ((next : ℕ) → get_next d next o' ≡ (o', err sql_internal))
  connect-get_next container force o o' e q exc =
      let (class, (v, left)) =
        connect_closes (odbc d make_type is_std has_factory) container force o o' e closes q exc in
      let (not_ready, refused) = refuses_of v o' left in (class, not_ready, refused)
