-- ===== src/Odbc/State.antt =====
-- unixODBC/ODBCConnector.h, connector/SQLHandleConnector.h: what the connector holds, the calls of
-- the ODBC library, and the messages.
use sql_handler.Actions.Errors.{ReturnCode, success, ErrorConnector}
use sql_handler.CheckPoint.{CheckPoint}
use sql_handler.Cursor.{Cursor, new_cursor, reset}
use sql_handler.Odbc.Types.{SqlType, CType}
use sql_handler.Outcome.{Result, ok}
use sql_handler.Prelude.{ℕ, ◌+◌, Bool, true, false, Option, none, some, List, [], Text, codes}

-- The handles that the connector works with, by the variables that hold them; `counter` is the
-- local statement of `getRowCount`.
pub data Handle : Type 0 where
  env conn stmt counter : Handle

-- The numeric attributes of a column that the connector asks for.
pub data Measure : Type 0 where
  length_of precision_of : Measure

-- A row as `SQLFetch` writes it into the bound buffers: `none` is SQL_NULL_DATA, which writes no text.
abbrev pub Row : Type 0
Row = List (Option Text)

-- The ODBC library, with a state of its own. `fetch` of a row that is not there gives no row.
pub record Driver (W : Type 0) : Type 0 where
  pub alloc_handle : Handle → W → W × ReturnCode
  pub set_version : W → W × ReturnCode
  pub connect_to : Text → Text → Text → W → W × ReturnCode
  pub exec_direct : Handle → Text → W → W × ReturnCode
  pub fetch_row : Handle → W → W × ReturnCode × Option Row
  -- The value is `none` for SQL_NULL_DATA, else the number as an `unsigned long`.
  pub get_long : Handle → W → W × ReturnCode × Option ℕ
  pub num_result_cols : W → W × ReturnCode × ℕ
  pub col_type : ℕ → W → W × ReturnCode × SqlType
  pub col_measure : Measure → ℕ → W → W × ReturnCode × ℕ
  pub col_name : ℕ → W → W × ReturnCode × Text
  pub bind_col : ℕ → CType → ℕ → W → W × ReturnCode
  -- A record of a handle's diagnostics, as the text that the connector makes of it.
  pub get_diag : Handle → ℕ → W → Option Text
  pub close_cursor : W → W
  pub free_handle : Handle → W → W
  pub disconnect : W → W
  pub roll_back : W → W

-- What the connector asks its container for.
pub record Params : Type 0 where
  pub server : Text
  pub user : Text
  pub pass : Text
  pub count_query : Result Text
  pub query_text : Result Text

-- `_buf_size`, the length of the array `d_status`.
abbrev pub status_size : ℕ
status_size = 1024

-- An entry of `d_buf`: null, the buffer that was bound to a column, or the address 48.
pub data Pointer : Type 0 where
  no_buffer : Pointer
  column_buffer : ℕ → Pointer
  stray : Pointer

-- `ODBCConnector`. `contents` is what the bound buffers hold, `nulls` the array `d_status`, where an
-- entry that no fetch has written counts as not null, and `check_point` the static members of
-- SQLCheckPoint.
pub record Connector (W : Type 0) : Type 0 where
  pub driver : W
  pub params : Option Params
  pub ready : Bool
  pub cursor : Cursor
  pub rc : ReturnCode
  pub to_fetch_rows : ℕ
  pub str_msg : Text
  pub msg_env_seq : ℕ
  pub msg_conn_seq : ℕ
  pub msg_stmt_seq : ℕ
  pub has_factory : Bool
  pub buffers : List Pointer
  pub contents : List Text
  pub nulls : List Bool
  pub types : Option (List CType)
  pub sizes : Option (List ℕ)
  pub row_size : ℕ
  pub descs : Option (List Text)
  pub names : Option (List Text)
  pub check_point : CheckPoint

-- SQL_SUCCEEDED
abbrev pub succeeded : ReturnCode → Bool
succeeded ReturnCode.success = true
succeeded ReturnCode.success_with_info = true
succeeded ReturnCode.no_data = false
succeeded ReturnCode.error = false
succeeded ReturnCode.invalid_handle = false
succeeded ReturnCode.other = false

module _ {W : Type 0} where
  -- The constructor.
  unfoldable pub new_connector : W → CheckPoint → Connector W
  unfolding new_cursor
  new_connector w c = record {
    driver = w;
    params = none;
    ready = false;
    cursor = new_cursor;
    rc = success;
    to_fetch_rows = 0;
    str_msg = [];
    msg_env_seq = 1;
    msg_conn_seq = 1;
    msg_stmt_seq = 1;
    has_factory = false;
    buffers = [];
    contents = [];
    nulls = [];
    types = none;
    sizes = none;
    row_size = 0;
    descs = none;
    names = none;
    check_point = c;
  }

  -- The three counters.
  abbrev pub restart_messages : Connector W → Connector W
  restart_messages o = record o { msg_env_seq = 1; msg_stmt_seq = 1; msg_conn_seq = 1 }

  -- `clean`
  unfoldable pub clean : Connector W → Connector W
  unfolding reset
  clean o = restart_messages (record o {
    ready = false;
    cursor = reset o.cursor;
    types = none;
    sizes = none;
    row_size = 0;
    descs = none;
    names = none;
    buffers = [];
  })

  -- `setErrorFactory`
  unfoldable pub set_error_factory : Connector W → Connector W
  set_error_factory o = record o { has_factory = true }

module _ {W : Type 0} (d : Driver W) where
  -- The last record of `getMsg`: the next one of the environment.
  unfoldable pub env_record : Option Text → Connector W → Connector W × Text
  env_record (some m) o = (record o { msg_env_seq = o.msg_env_seq + 1; str_msg = m }, m)
  env_record none o = (
    record o { str_msg = codes "Unable to get error message" },
    codes "Unable to get error message",
  )

  -- The one before it: the next of the statement.
  unfoldable pub stmt_record : Option Text → Connector W → Connector W × Text
  unfolding env_record
  stmt_record (some m) o = (record o { msg_stmt_seq = o.msg_stmt_seq + 1; str_msg = m }, m)
  stmt_record none o = env_record (d.get_diag env o.msg_env_seq o.driver) o

  -- The first: the next of the connection.
  unfoldable pub conn_record : Option Text → Connector W → Connector W × Text
  unfolding stmt_record
  conn_record (some m) o = (record o { msg_conn_seq = o.msg_conn_seq + 1; str_msg = m }, m)
  conn_record none o = stmt_record (d.get_diag stmt o.msg_stmt_seq o.driver) o

  -- The branch of `getMsg` for errors.
  unfoldable pub diagnose : Connector W → Connector W × Text
  unfolding conn_record
  diagnose o = conn_record (d.get_diag conn o.msg_conn_seq o.driver) o

  -- A message that resets the counters.
  abbrev pub plain_message : Text → Connector W → Connector W × Text
  plain_message m o = (record (restart_messages o) { str_msg = m }, m)

  -- `getMsg`. For SQL_NO_DATA the source prints an array that it has not written; here that part is
  -- empty.
  unfoldable pub get_msg : ReturnCode → Connector W → Connector W × Text
  unfolding diagnose
  get_msg ReturnCode.success o = plain_message (codes "No errors") o
  get_msg ReturnCode.success_with_info o = plain_message (codes "No errors") o
  get_msg ReturnCode.no_data o = plain_message (codes "0  No data") o
  get_msg ReturnCode.error o = diagnose o
  get_msg ReturnCode.invalid_handle o = diagnose o
  get_msg ReturnCode.other o = diagnose o

  -- The connector as the error factory sees it; `getMsg` returns the address of `strMsg`.
  unfoldable pub as_error_connector : ErrorConnector (Connector W)
  as_error_connector = record {
    get_error = λ o. o.rc;
    get_msg = λ code o. let (o', m) = get_msg code o in (o', ok (some m));
  }
