-- ===== src/Actions/Triggers.antt =====
-- What a trigger does for each return code of the ODBC library.
use sql_handler.Actions.{do_actions, run_actions, end_round, try_next, uncaught}
use sql_handler.Actions.Errors.{
  ReturnCode, success, success_with_info, no_data, error, invalid_handle, ErrorConnector,
  get_actions, only_sql_internal, stop_code, error_factory, trigger, latest, debug_method,
  fatal_method,
}
use sql_handler.CheckPoint.{CheckPoint, check}
use sql_handler.Outcome.{Error, Result, ok, err, terminated, sql_internal_fatal}
use sql_handler.Prelude.{
  ℕ, suc, ◌≡◌, refl, ap, Bool, true, false, Option, none, some, Text, [], ◌∷◌, ◌==◌, if◌then◌else◌,
  arith,
}

-- The documented outcome: nothing for a success and for the end of the data, a fatal exception for
-- an error, and the end of the program for a code without a list.
unfoldable pub outcome_of :
    {W : Type 0} → ErrorConnector W → ReturnCode → W → W × Result (Option (Unit {0}))
outcome_of c ReturnCode.success w = ((c.get_msg success w).0, ok none)
outcome_of c ReturnCode.success_with_info w = ((c.get_msg success_with_info w).0, ok none)
outcome_of c ReturnCode.no_data w = ((c.get_msg no_data w).0, ok none)
outcome_of c ReturnCode.error w = ((c.get_msg error w).0, err sql_internal_fatal)
outcome_of c ReturnCode.invalid_handle w = ((c.get_msg invalid_handle w).0, err sql_internal_fatal)
outcome_of c ReturnCode.other w = (w, err terminated)

-- `getMsg` of the ODBC connector returns the address of its message on every path.
abbrev pub HasMessages : {W : Type 0} → ErrorConnector W → Type 0
HasMessages {W} c = (code : ReturnCode) (w : W) → (m : Text) × ((c.get_msg code w).1 ≡ ok (some m))

not_zero : (n : ℕ) → (suc n == 0) ≡ false
not_zero n = ground arith

module _ {W : Type 0} (conn : ErrorConnector W) (messages : HasMessages conn) where
  run_debug :
      (code : ReturnCode) (w : W)
      → run_actions
          (error_factory conn)
          latest
          latest
          false
          code
          true
          none
          (debug_method ∷ [])
          none
          w
        ≡ ((conn.get_msg code w).0, none, none)
  unfolding run_actions error_factory try_next
  run_debug code w = let (m, q) = messages code w in rw q refl

  run_fatal :
      (code : ReturnCode) (w : W)
      → run_actions
          (error_factory conn)
          latest
          latest
          false
          code
          true
          none
          (fatal_method ∷ [])
          none
          w
        ≡ ((conn.get_msg code w).0, none, some sql_internal_fatal)
  unfolding run_actions error_factory try_next
  run_fatal code w = let (m, q) = messages code w in rw q refl

  ended :
      (n : ℕ) (code : ReturnCode) {x y : W × Option (Unit {0}) × Option Error}
      → x ≡ y
      → end_round
          (error_factory conn)
          latest
          latest
          false
          (do_actions (error_factory conn) latest latest false n)
          code
          none
          x
        ≡ end_round
            (error_factory conn)
            latest
            latest
            false
            (do_actions (error_factory conn) latest latest false n)
            code
            none
            y
  ended n code h =
      ap
        (end_round (error_factory conn) latest latest false
          (do_actions (error_factory conn) latest latest false n) code none)
        h

  do_actions-eq :
      (n : ℕ) (w : W) (code : ReturnCode)
      → conn.get_error w ≡ code
      → do_actions (error_factory conn) latest latest false (suc n) none w ≡ outcome_of conn code w
  unfolding do_actions error_factory get_actions only_sql_internal stop_code outcome_of end_round
      uncaught
  do_actions-eq n w ReturnCode.success e = rw e (ended n (success) (run_debug success w))
  do_actions-eq n w ReturnCode.success_with_info e =
      rw e (ended n (success_with_info) (run_debug success_with_info w))
  do_actions-eq n w ReturnCode.no_data e = rw e (ended n (no_data) (run_debug no_data w))
  do_actions-eq n w ReturnCode.error e = rw e (ended n (error) (run_fatal error w))
  do_actions-eq n w ReturnCode.invalid_handle e =
      rw e (ended n (invalid_handle) (run_fatal invalid_handle w))
  do_actions-eq n w ReturnCode.other e = rw e refl

  -- The trigger over a connector of the ODBC library that has a message for each code, at any fuel
  -- but zero, so that one round is enough. At the point that is always checked, and at a point for
  -- which `check` returns true, it does what the return code asks for: nothing for a success and for
  -- the end of the data, a `SQLInternalFatalError` for an error and for an invalid handle, and
  -- the end of the program for any other code, whose `BESInternalFatalError` the exception
  -- specification of `getActions` does not have. At a point for which `check` returns false it does
  -- nothing.
  pub trigger-outcome_of :
      (n : ℕ) (c : CheckPoint) (point : ℕ) (active : Bool) (w : W)
      → (check c (suc point)).1 ≡ ok active
      → (trigger (error_factory conn) (suc n) c 0 w ≡ (c, outcome_of conn (conn.get_error w) w))
        × (trigger (error_factory conn) (suc n) c (suc point) w ≡ (
          (check c (suc point)).0,
          if active then outcome_of conn (conn.get_error w) w else (w, ok none),
        ))
  unfolding trigger
  trigger-outcome_of n c point active w h =
      (rw (do_actions-eq n w (conn.get_error w) refl) refl, when active h)
    where
      when :
          (b : Bool)
          → (check c (suc point)).1 ≡ ok b
          → trigger (error_factory conn) (suc n) c (suc point) w ≡ (
            (check c (suc point)).0,
            if b then outcome_of conn (conn.get_error w) w else (w, ok none),
          )
      when true k = rw (trigger, not_zero point, k, do_actions-eq n w (conn.get_error w) refl) refl
      when false k = rw (trigger, not_zero point, k) refl
