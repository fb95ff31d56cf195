-- ===== src/Odbc/Messages.antt =====
-- The connector and its error factory: what a failed call of the library leads to.
use sql_handler.Actions.Errors.{ReturnCode, success}
use sql_handler.Actions.Triggers.{outcome_of}
use mathlib.Core.Path.{subst}
use sql_handler.Call.{Call, resume}
use sql_handler.CheckPoint.{CheckPoint}
use sql_handler.Odbc.Columns.{notify, notified}
use sql_handler.Odbc.Opens.{notify-outcome_of}
use sql_handler.Odbc.Calls.{close, get_next}
use sql_handler.Odbc.Reads.{get_next_refused}
use sql_handler.Odbc.State.{
  Driver, Connector, get_msg, diagnose, env_record, stmt_record, conn_record, as_error_connector,
  conn, stmt, env, clean,
}
use sql_handler.Outcome.{Result, ok, err, terminated, sql_internal_fatal, sql_internal}
use sql_handler.Prelude.{
  ℕ, ◌≡◌, refl, sym, ap, ◌∙◌, Bool, true, false, Option, none, some, [], Text, if◌then◌else◌,
}

-- What a return code leads to.
abbrev pub verdict : ReturnCode → Result (Unit {0})
verdict ReturnCode.success = ok tt
verdict ReturnCode.success_with_info = ok tt
verdict ReturnCode.no_data = ok tt
verdict ReturnCode.error = err sql_internal_fatal
verdict ReturnCode.invalid_handle = err sql_internal_fatal
verdict ReturnCode.other = err terminated

module _ {W : Type 0} where
  -- Two connectors that differ in their messages at most.
  pub record SameData (o o' : Connector W) : Type 0 where
    pub driver : o'.driver ≡ o.driver
    pub params : o'.params ≡ o.params
    pub ready : o'.ready ≡ o.ready
    pub cursor : o'.cursor ≡ o.cursor
    pub rc : o'.rc ≡ o.rc
    pub to_fetch_rows : o'.to_fetch_rows ≡ o.to_fetch_rows
    pub buffers : o'.buffers ≡ o.buffers
    pub contents : o'.contents ≡ o.contents
    pub nulls : o'.nulls ≡ o.nulls
    pub types : o'.types ≡ o.types
    pub sizes : o'.sizes ≡ o.sizes
    pub row_size : o'.row_size ≡ o.row_size
    pub descs : o'.descs ≡ o.descs
    pub names : o'.names ≡ o.names

  with_messages :
      (o : Connector W) (env_seq conn_seq stmt_seq : ℕ) (m : Text) (c : CheckPoint)
      → SameData o (record o {
        msg_env_seq = env_seq;
        msg_conn_seq = conn_seq;
        msg_stmt_seq = stmt_seq;
        str_msg = m;
        check_point = c;
      })
  with_messages o env_seq conn_seq stmt_seq m c = record {
    driver = refl;
    params = refl;
    ready = refl;
    cursor = refl;
    rc = refl;
    to_fetch_rows = refl;
    buffers = refl;
    contents = refl;
    nulls = refl;
    types = refl;
    sizes = refl;
    row_size = refl;
    descs = refl;
    names = refl;
  }

  -- A check point that is put back.
  abbrev at_point : CheckPoint → Connector W → Connector W
  at_point c o = record o { check_point = c }

module _ {W : Type 0} (d : Driver W) (c : CheckPoint) where
  conn_record-SameData :
      (m : Option Text) (o : Connector W) → SameData o (at_point c (conn_record d m o).0)
  unfolding conn_record
  conn_record-SameData (some m) o = with_messages o _ _ _ _ c
  conn_record-SameData none o = stmt_case (d.get_diag stmt o.msg_stmt_seq o.driver) o
    where
      env_case : (m : Option Text) (o : Connector W) → SameData o (at_point c (env_record d m o).0)
      env_case (some m) o = with_messages o _ _ _ _ c
      env_case none o = with_messages o _ _ _ _ c

      stmt_case :
          (m : Option Text) (o : Connector W) → SameData o (at_point c (stmt_record d m o).0)
      stmt_case (some m) o = with_messages o _ _ _ _ c
      stmt_case none o = env_case (d.get_diag env o.msg_env_seq o.driver) o

  outcome-verdict :
      (rc : ReturnCode) (o : Connector W)
      → ((notified (c, outcome_of (as_error_connector d) rc o)).1 ≡ verdict rc)
        × SameData o (notified (c, outcome_of (as_error_connector d) rc o)).0
  unfolding outcome_of get_msg as_error_connector diagnose
  outcome-verdict ReturnCode.success o = (refl, with_messages o _ _ _ _ c)
  outcome-verdict ReturnCode.success_with_info o = (refl, with_messages o _ _ _ _ c)
  outcome-verdict ReturnCode.no_data o = (refl, with_messages o _ _ _ _ c)
  outcome-verdict ReturnCode.error o =
      (refl, conn_record-SameData (d.get_diag conn o.msg_conn_seq o.driver) o)
  outcome-verdict ReturnCode.invalid_handle o =
      (refl, conn_record-SameData (d.get_diag conn o.msg_conn_seq o.driver) o)
  outcome-verdict ReturnCode.other o = (refl, with_messages o _ _ _ _ c)

module _ {W : Type 0} (d : Driver W) where
  -- After a call that succeeds, whether there is a factory or not.
  notify_quiet :
      (o : Connector W) → o.rc ≡ success → ((notify d 0 o).1 ≡ ok tt) × SameData o (notify d 0 o).0
  notify_quiet o h =
      subst (λ (r : Connector W × Result (Unit {0})). (r.1 ≡ ok tt) × SameData o r.0)
        (sym (notify-outcome_of d o)) (by_factory o.has_factory)
    where
      by_factory :
          (b : Bool)
          → ((if b
                then notified (o.check_point, outcome_of (as_error_connector d) o.rc o)
                else (o, ok tt)).1
              ≡ ok tt)
            × SameData o
                (if b
                  then notified (o.check_point, outcome_of (as_error_connector d) o.rc o)
                  else (o, ok tt)).0
      by_factory true = let k = outcome-verdict d o.check_point o.rc o in (k.0 ∙ ap verdict h, k.1)
      by_factory false = (refl, with_messages o _ _ _ _ o.check_point)

  -- What follows a trigger after a success.
  pub past_notify :
      {B : Type 0} (P : Connector W × Result B → Type 0) (o : Connector W)
      (k : Call (Connector W) B)
      → o.rc ≡ success
      → ((o' : Connector W) → SameData o o' → P (k o'))
      → P (resume (notify d 0 o) λ u. k)
  past_notify {B} P o k h g = go (notify d 0 o) (notify_quiet o h)
    where
      go :
          (x : Connector W × Result (Unit {0}))
          → (x.1 ≡ ok tt) × SameData o x.0
          → P (resume x λ u. k)
      go (o', r) (e, same) = subst (λ r'. P (resume (o', r') λ u. k)) (sym e) (g o' same)

  -- At the point that is always checked, for a connector with an error factory: the trigger returns if
  -- the last return code is a success or the end of the data, throws `SQLInternalFatalError` if it is
  -- an error or an invalid handle, and ends the program if it is any other code; it changes the
  -- messages of the connector and nothing else of its data.
  pub notify-verdict :
      (o : Connector W)
      → o.has_factory ≡ true
      → ((notify d 0 o).1 ≡ verdict o.rc) × SameData o (notify d 0 o).0
  notify-verdict o h =
      subst (λ (r : Connector W × Result (Unit {0})). (r.1 ≡ verdict o.rc) × SameData o r.0)
        (sym (
          notify-outcome_of d o
          ∙ ap
              (λ b.
                if b
                then notified (o.check_point, outcome_of (as_error_connector d) o.rc o)
                else (o, ok tt))
              h))
        (outcome-verdict d o.check_point o.rc o)

  -- `close()` returns true and leaves the connector not ready, without a buffer and without the
  -- attributes of a column, at row 0 and column 0; after it every call of `getNext` throws
  -- `SQLInternalError` and changes nothing.
  pub close-get_next :
      (o : Connector W) (next : ℕ)
      → (o' : Connector W) × (close d o ≡ (o', ok true))
        × (o'.ready ≡ false)
        × (o'.buffers ≡ [])
        × (o'.types ≡ none)
        × (o'.sizes ≡ none)
        × (o'.descs ≡ none)
        × (o'.names ≡ none)
        × (o'.cursor.row_position ≡ 0)
        × (o'.cursor.column_position ≡ 0)
        × (get_next d next o' ≡ (o', err sql_internal))
  unfolding close clean
  close-get_next o next =
      (_, refl, refl, refl, refl, refl, refl, refl, refl, refl, get_next_refused d next _ refl)
