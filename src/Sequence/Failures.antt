-- ===== src/Sequence/Failures.antt =====
-- What a call of `read` leaves when it throws.
use mathlib.Core.Path.{subst}
use sql_handler.Odbc.Calls.{get_next, close}
use sql_handler.Odbc.Reads.{get_next_refused}
use sql_handler.Odbc.State.{Driver, Connector, clean}
use sql_handler.Outcome.{Error, Result, ok, err, sql_internal}
use sql_handler.Prelude.{ℕ, ◌≡◌, refl, Bool, true, false, List, if◌then◌else◌}
use sql_handler.Sequence.{
  Sequence, put_variables, read_variables, read_failed, row_read, read_sequence,
}
use sql_handler.Values.{World, Variable, Dap, is_bes_error}

module _ {W V : Type 0} (d : Driver W) (lib : Dap V) where
  -- A call that returns; that throws an exception that is no `BESError`; or that throws
  -- `SQLInternalError`, with the connector closed.
  abbrev pub Ends : Sequence W V × Result Bool → Type 0
  Ends (s, ok b) = Unit
  Ends (s, err e) =
      is_bes_error e ≡ true
      → (e ≡ sql_internal)
        × ((o : Connector W) × (s.world.connector ≡ (close d o).0))
        × (s.world.connector.ready ≡ false)
        × ((next : ℕ) → get_next d next s.world.connector ≡ (s.world.connector, err sql_internal))

  read_failed-Ends : (e : Error) (s : Sequence W V) → Ends (read_failed d lib e s)
  unfolding read_failed close clean
  read_failed-Ends e s = go (is_bes_error e) refl
    where
      go :
          (b : Bool)
          → is_bes_error e ≡ b
          → Ends (
              if b
              then (
                record s { world = record s.world { connector = (close d s.world.connector).0 } },
                err sql_internal,
              )
              else (s, err e))
      go true q =
          λ k. (refl, (s.world.connector, refl), refl, λ next. get_next_refused d next _ refl)
      go false q = λ k. cc

  row_read-Ends :
      (s : Sequence W V) (y : World W × List (Variable V) × Result (Unit {0}))
      → Ends (row_read d lib s y)
  unfolding row_read
  row_read-Ends s (w, xs, ok u) = tt
  row_read-Ends s (w, xs, err e) = read_failed-Ends e (put_variables w xs s)

  read_sequence-Ends : (debug : Bool) (s : Sequence W V) → Ends (read_sequence d lib debug s)
  unfolding read_sequence
  read_sequence-Ends debug s = go s.read_p s.world.connector.ready s.world.connector.cursor.not_end
    where
      go :
          (done ready more : Bool)
          → Ends (
              if done
              then (s, ok true)
              else if ready
              then (if more
                  then row_read d lib s (read_variables d lib debug s.variables s.world)
                  else (record s { unsent_data = false; row_number_reset = true }, ok true))
              else (s, ok true))
      go true ready more = tt
      go false false more = tt
      go false true false = tt
      go false true true = row_read-Ends s (read_variables d lib debug s.variables s.world)

  -- An exception of the framework that leaves `read`, with debugging on or off, is a
  -- `SQLInternalError`; the connector is then as `close()` leaves it, not ready, and `getNext` throws
  -- `SQLInternalError` and changes nothing.
  pub read_sequence-closes :
      (debug : Bool) (s s' : Sequence W V) (e : Error)
      → read_sequence d lib debug s ≡ (s', err e)
      → is_bes_error e ≡ true
      → (e ≡ sql_internal)
        × ((o : Connector W) × (s'.world.connector ≡ (close d o).0))
        × (s'.world.connector.ready ≡ false)
        × ((next : ℕ) → get_next d next s'.world.connector ≡ (s'.world.connector, err sql_internal))
  read_sequence-closes debug s s' e q bes = subst Ends q (read_sequence-Ends debug s) bes
