-- ===== src/Values.antt =====
-- DTM/SQLCastAction.h, action/SQLObjectAction.h, DTM/SQLBaseType.h, DTM/SQLSimpleType.h and
-- DTM/SQLDummySimpleType.h: a variable of a response, and how it reads the next value of the
-- connector. The variables of libdap are a parameter.
pub mod Factory
pub mod Kinds
pub mod Reads
pub mod Copies
use sql_handler.Call.{Call, ◌>>=◌, ◌>>◌, return, get, modify, check_that}
use sql_handler.Odbc.Calls.{get_next}
use sql_handler.Odbc.State.{Driver, Connector, Pointer, no_buffer, column_buffer, stray}
use sql_handler.Odbc.Table.{text_at}
use sql_handler.Outcome.{
  Error, Result, ok, err, internal, internal_fatal, syntax_user, sql_internal, sql_internal_fatal,
  out_of_range, undefined, out_of_fuel,
}
use sql_handler.Prelude.{ℕ, suc, Bool, true, false, Option, none, some, Text, ◌==◌, if◌then◌else◌}

-- The strings that `new` has made, by their addresses; `next` is the address of the next one.
pub record Heap : Type 0 where
  pub next : ℕ
  pub string : ℕ → Option Text

-- A connector, and the strings.
pub record World (W : Type 0) : Type 0 where
  pub connector : Connector W
  pub heap : Heap

-- What a cast gives, if it is not null: an entry of the connector's buffers, or a string.
pub data Address : Type 0 where
  in_buffers : Pointer → Address
  in_heap : ℕ → Address

-- The cast functions of the source: `cast_func`, `cast_string` and the builders' `dummy_cast`.
pub data Cast : Type 0 where
  cast_func cast_string : Cast
  dummy_cast : Text → Cast

-- `SQLCastAction`, with the members that it has of `SQLObjectAction`.
pub record CastAction : Type 0 where
  pub cast : Cast
  pub val : Option Address
  pub reuse : Bool

-- The types of libdap that the type factory uses.
pub data DapType : Type 0 where
  str int16 int32 float32 float64 : DapType

-- `SQLSimpleType` of a type that is set by `set_value`, its specialization for `void`, and
-- `SQLDummySimpleType`.
pub data Form : Type 0 where
  simple simple_void dummy : Form

-- A variable; `value` is what libdap keeps of it, and `read_p`, `send_p` and `in_selection` its flags.
pub record Variable (V : Type 0) : Type 0 where
  pub name : Text
  pub form : Form
  pub dap : DapType
  pub col : ℕ
  pub action : CastAction
  pub reuse : Bool
  pub read_p : Bool
  pub send_p : Bool
  pub in_selection : Bool
  pub value : V

-- What libdap does to the value of a variable. `val2buf` is given what the pointer leads to, nothing
-- for a null pointer.
pub record Dap (V : Type 0) : Type 0 where
  pub blank : V
  pub set_value : Text → V → V
  pub val2buf : DapType → Option Text → V → Result V

-- A variable that is read, and the world it reads from.
pub record Reading (W V : Type 0) : Type 0 where
  pub world : World W
  pub variable : Variable V

-- Does a handler for `BESError` catch it?
abbrev pub is_bes_error : Error → Bool
is_bes_error Error.internal = true
is_bes_error Error.internal_fatal = true
is_bes_error Error.syntax_user = true
is_bes_error Error.sql_internal = true
is_bes_error Error.sql_internal_fatal = true
is_bes_error Error.out_of_range = false
is_bes_error Error.undefined = false
is_bes_error Error.terminated = false
is_bes_error Error.out_of_fuel = false

-- The constructor of `SQLCastAction`.
unfoldable pub new_cast : Option Cast → Bool → Result CastAction
new_cast none reuse = err sql_internal_fatal
new_cast (some f) reuse = ok (record { cast = f; val = none; reuse = reuse })

abbrev pub put_string : Heap → ℕ → Option Text → Heap
put_string h p t = record h { string = λ q. if q == p then t else h.string q }

module _ {W : Type 0} where
  abbrev pub set_heap : Heap → World W → World W
  set_heap h w = record w { heap = h }

  -- `new string`
  abbrev pub new_string : Text → Call (World W) (Option Address)
  new_string t w = (
    set_heap (record (put_string w.heap w.heap.next (some t)) { next = suc w.heap.next }) w,
    ok (some (in_heap w.heap.next)),
  )

  -- `delete`; a buffer of the connector is not the action's to give back.
  unfoldable pub release : Address → Call (World W) (Unit {0})
  release (in_buffers p) w = (w, err undefined)
  release (in_heap p) w = elim (w.heap.string p) [
    | none ↦ (w, err undefined)
    | some t ↦ (set_heap (put_string w.heap p none) w, ok tt)
  ]

  -- What an address leads to.
  unfoldable pub content : Option Address → World W → Result (Option Text)
  content none w = ok none
  content (some (in_buffers no_buffer)) w = ok none
  content (some (in_buffers (column_buffer c))) w = ok (some (text_at w.connector.contents c))
  content (some (in_buffers stray)) w = err undefined
  content (some (in_heap p)) w = elim (w.heap.string p) [
    | none ↦ err undefined
    | some t ↦ ok (some t)
  ]

  -- A cast function at a pointer of `getNext`.
  unfoldable pub apply : Cast → Pointer → Call (World W) (Option Address)
  apply cast_func no_buffer w = (w, ok none)
  apply cast_func p w = (w, ok (some (in_buffers p)))
  apply cast_string (column_buffer c) w = new_string (text_at w.connector.contents c) w
  apply cast_string no_buffer w = (w, err undefined)
  apply cast_string stray w = (w, err undefined)
  apply (dummy_cast t) p w = new_string t w

module _ {W V : Type 0} where
  abbrev pub on_world : {A : Type 0} → Call (World W) A → Call (Reading W V) A
  on_world m r = let (w, a) = m r.world in (record r { world = w }, a)

  abbrev pub put_val : Option Address → Reading W V → Reading W V
  put_val v r = record r {
    variable = record r.variable { action = record r.variable.action { val = v } };
  }

  -- `setVal`
  unfoldable pub set_val : Option Address → Call (Reading W V) (Unit {0})
  unfolding release
  set_val v r = elim r.variable.action.val [
    | none ↦ (put_val v r, ok tt)
    | some old ↦
        if r.variable.action.reuse
        then (put_val v r, ok tt)
        else (do on_world (release old); modify (put_val v)) r
  ]

  -- `freeValue`
  unfoldable pub free_value : Call (Reading W V) (Unit {0})
  unfolding release
  free_value r = elim r.variable.action.val [
    | none ↦ (r, ok tt)
    | some old ↦ (do on_world (release old); modify (put_val none)) r
  ]

  -- `SQLCastAction::action`
  unfoldable pub run_cast : Pointer → Call (Reading W V) (Option Address)
  unfolding apply set_val
  run_cast p r = (do v ← on_world (apply r.variable.action.cast p); set_val v; return v) r

  -- `*cast()`
  unfoldable pub pointed_string : Option Address → Call (Reading W V) Text
  unfolding content
  pointed_string a r = elim (content a r.world) [
    | err e ↦ (r, err e)
    | ok t ↦ elim t [ none ↦ (r, err undefined) | some s ↦ (r, ok s) ]
  ]

  -- `set_read_p(true)`
  abbrev pub set_read : Reading W V → Reading W V
  set_read r = record r { variable = record r.variable { read_p = true } }

  unfoldable pub free_unless : Bool → Call (Reading W V) (Unit {0})
  unfolding free_value
  free_unless reuse r = if reuse then (r, ok tt) else free_value r

module _ {W V : Type 0} (d : Driver W) (lib : Dap V) where
  -- `getNext()` of the variable's connector.
  abbrev pub next_pointer : Call (Reading W V) Pointer
  next_pointer =
      on_world λ w. let (c, p) = get_next d 1 w.connector in (record w { connector = c }, p)

  -- `SQLBaseType::cast`
  unfoldable pub cast : Call (Reading W V) (Option Address)
  unfolding run_cast
  cast r = (do check_that r.world.connector.ready internal_fatal; p ← next_pointer; run_cast p) r

  -- `set_value`, which sets `read_p` too.
  abbrev pub set_value : Text → Reading W V → Reading W V
  set_value t r = record r {
    variable = record r.variable { value = lib.set_value t r.variable.value; read_p = true };
  }

  -- `val2buf`
  unfoldable pub val2buf : Option Address → Call (Reading W V) (Unit {0})
  unfolding content
  val2buf a r = elim (content a r.world) [
    | err e ↦ (r, err e)
    | ok t ↦ elim (lib.val2buf r.variable.dap t r.variable.value) [
      | err e ↦ (r, err e)
      | ok v ↦ (record r { variable = record r.variable { value = v } }, ok tt)
    ]
  ]

  -- The value itself, for each of the three classes.
  unfoldable pub read_simple : Call (Reading W V) (Unit {0})
  unfolding cast pointed_string free_unless
  read_simple r =
      (do a ← cast; s ← pointed_string a; modify (set_value s); free_unless r.variable.reuse) r

  unfoldable pub read_void : Call (Reading W V) (Unit {0})
  unfolding cast val2buf free_unless
  read_void r = (do a ← cast; val2buf a; free_unless r.variable.reuse; modify set_read) r

  unfoldable pub read_dummy : Call (Reading W V) (Unit {0})
  unfolding run_cast pointed_string free_unless
  read_dummy r =
      (do
        a ← run_cast no_buffer
        s ← pointed_string a
        modify (set_value s)
        free_unless r.variable.action.reuse)
        r

  unfoldable pub read_value : Form → Call (Reading W V) (Unit {0})
  unfolding read_simple read_void read_dummy
  read_value simple = read_simple
  read_value simple_void = read_void
  read_value dummy = read_dummy

  -- The arguments of BESDEBUG, which calls `cast()` where the debugging of the module is on.
  unfoldable pub debugged : Bool → Form → Call (Reading W V) (Unit {0})
  unfolding cast
  debugged false form = return tt
  debugged true dummy = return tt
  debugged true form = do a ← cast; return tt

  -- The handler of `read`.
  abbrev pub fatal_if_bes : {A : Type 0} → Reading W V × Result A → Reading W V × Result A
  fatal_if_bes (r, ok a) = (r, ok a)
  fatal_if_bes (r, err e) = (r, err (if is_bes_error e then internal_fatal else e))

  -- `read`; it always returns false.
  unfoldable pub read_variable : Bool → Call (Reading W V) Bool
  unfolding debugged read_value
  read_variable debug r =
      if r.variable.read_p
      then (r, ok false)
      else fatal_if_bes
          ((do debugged debug r.variable.form; read_value r.variable.form; return false) r)
