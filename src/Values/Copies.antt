-- ===== src/Values/Copies.antt =====
-- The copies of a variable, which `ptr_duplicate` makes, and the destructor of its cast.
pub mod Keeps
pub mod Drops
use sql_handler.Call.{Call}
use sql_handler.Prelude.{true, false, none, Bool}
use sql_handler.Values.{
  CastAction, Form, simple, simple_void, dummy, Variable, Dap, Reading, free_unless,
}

-- The copy constructors of `SQLCastAction` and `SQLObjectAction`: the pointer is shared.
unfoldable pub copy_cast : CastAction → CastAction
copy_cast a = record { cast = a.cast; val = a.val; reuse = a.reuse }

-- The copy constructors of the three classes. libdap copies the name, the value and the flags;
-- `SQLDummySimpleType` makes a new `Str` of the name.
unfoldable pub copy_of_form : {V : Type 0} → Dap V → Form → Variable V → Variable V
unfolding copy_cast
copy_of_form lib simple x = record x { action = copy_cast x.action }
copy_of_form lib simple_void x = record x { action = copy_cast x.action }
copy_of_form lib dummy x = record x {
  action = copy_cast x.action;
  read_p = false;
  send_p = false;
  in_selection = false;
  value = lib.blank;
}

-- `ptr_duplicate`
unfoldable pub copy_variable : {V : Type 0} → Dap V → Variable V → Variable V
unfolding copy_of_form
copy_variable lib x = copy_of_form lib x.form x

-- The destructor of `SQLObjectAction`, which that of a variable calls.
unfoldable pub drop_variable : {W V : Type 0} → Call (Reading W V) (Unit {0})
unfolding free_unless
drop_variable r = free_unless r.variable.action.reuse r
