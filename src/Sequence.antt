-- ===== src/Sequence.antt =====
-- DTM/SQLSequence.h: the sequence of a response, which reads a row of the connector at a time. The
-- ODBC connector stands for the connector; a sequence without one is not modelled.
pub mod Rows
pub mod Failures
pub mod Sharing
use sql_handler.Call.{Call}
use sql_handler.Cursor.{reset}
use sql_handler.Odbc.Calls.{close}
use sql_handler.Odbc.State.{Driver, Connector}
use sql_handler.Outcome.{Error, Result, ok, err, sql_internal}
use sql_handler.Prelude.{ℕ, suc, ◌-◌, Bool, true, false, ◌||◌, List, [], ◌∷◌, ◌==◌, if◌then◌else◌}
use sql_handler.Values.{World, Variable, Dap, Reading, read_variable, is_bes_error}

-- `SQLSequence`, with what it has of libdap's `Sequence`. `row_number_reset` says that
-- `reset_row_number` was called last.
pub record Sequence (W V : Type 0) : Type 0 where
  pub world : World W
  pub variables : List (Variable V)
  pub read_p : Bool
  pub unsent_data : Bool
  pub row_number_reset : Bool

-- A connector that sequences share, and how many of them there are.
pub record Shared (W : Type 0) : Type 0 where
  pub connector : Connector W
  pub count : ℕ

module _ {W : Type 0} where
  abbrev pub reset_connector : Connector W → Connector W
  reset_connector o = record o { cursor = reset o.cursor }

  -- What both constructors do to the connector.
  unfoldable pub reset_if_ready : Connector W → Connector W
  unfolding reset
  reset_if_ready o = if o.ready then reset_connector o else o

  -- The constructor.
  unfoldable pub first_sequence : Connector W → Shared W
  unfolding reset_if_ready
  first_sequence o = record { connector = reset_if_ready o; count = 1 }

  -- The copy constructor, which `ptr_duplicate` calls.
  unfoldable pub copy_sequence : Shared W → Shared W
  unfolding reset_if_ready
  copy_sequence s = record { connector = reset_if_ready s.connector; count = suc s.count }

module _ {W : Type 0} (d : Driver W) where
  -- The destructor: the last sequence closes the connector.
  unfoldable pub drop_sequence : Shared W → Shared W
  unfolding close
  drop_sequence s = record {
    connector = if s.count == 1 then (close d s.connector).0 else s.connector;
    count = s.count - 1;
  }

module _ {V : Type 0} where
  -- `(*p)->send_p() || (*p)->is_in_selection()`
  abbrev pub is_wanted : Variable V → Bool
  is_wanted x = x.send_p || x.in_selection

module _ {W V : Type 0} where
  abbrev pub put_first :
      Variable V
      → World W × List (Variable V) × Result (Unit {0})
      → World W × List (Variable V) × Result (Unit {0})
  put_first x (w, xs, r) = (w, x ∷ xs, r)

  abbrev pub put_variables : World W → List (Variable V) → Sequence W V → Sequence W V
  put_variables w xs s = record s { world = w; variables = xs }

module _ {W V : Type 0} (d : Driver W) (lib : Dap V) where
  -- What follows a variable that is read.
  unfoldable pub go_on :
      (World W → World W × List (Variable V) × Result (Unit {0}))
      → List (Variable V)
      → Reading W V × Result Bool
      → World W × List (Variable V) × Result (Unit {0})
  go_on rest xs (r, err e) = (r.world, r.variable ∷ xs, err e)
  go_on rest xs (r, ok b) = put_first r.variable (rest r.world)

  -- The loop over the variables.
  unfoldable pub read_variables :
      Bool → List (Variable V) → World W → World W × List (Variable V) × Result (Unit {0})
  unfolding go_on read_variable
  read_variables debug [] w = (w, [], ok tt)
  read_variables debug (x ∷ xs) w = elim (is_wanted x) [
    | true ↦
        go_on (read_variables debug xs) xs
          (read_variable d lib debug (record { world = w; variable = x }))
    | false ↦ put_first x (read_variables debug xs w)
  ]

  -- The handler of `read`.
  unfoldable pub read_failed : Error → Call (Sequence W V) Bool
  unfolding close
  read_failed e s =
      if is_bes_error e
      then (
        record s { world = record s.world { connector = (close d s.world.connector).0 } },
        err sql_internal,
      )
      else (s, err e)

  -- The end of a row, or its exception.
  unfoldable pub row_read :
      Sequence W V → World W × List (Variable V) × Result (Unit {0}) → Sequence W V × Result Bool
  unfolding read_failed
  row_read s (w, xs, ok u) = (put_variables w xs s, ok false)
  row_read s (w, xs, err e) = read_failed e (put_variables w xs s)

  -- `read`
  unfoldable pub read_sequence : Bool → Call (Sequence W V) Bool
  unfolding row_read read_variables
  read_sequence debug s =
      if s.read_p
      then (s, ok true)
      else if s.world.connector.ready
      then (if s.world.connector.cursor.not_end
          then row_read s (read_variables debug s.variables s.world)
          else (record s { unsent_data = false; row_number_reset = true }, ok true))
      else (s, ok true)
