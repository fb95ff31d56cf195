-- ===== src/Actions.antt =====
-- action/SQLActionManager.h: run the actions that a factory gives for a code, until it says stop.
-- A pointer that may be null is an Option.
pub mod Errors
pub mod Triggers
pub mod Lists
pub mod Dynamic
use sql_handler.Outcome.{
  Error, Result, ok, err, internal, internal_fatal, syntax_user, sql_internal, sql_internal_fatal,
  out_of_range, undefined, terminated, out_of_fuel,
}
use sql_handler.Prelude.{
  ℕ, zero, suc, Bool, true, false, ◌||◌, Option, none, some, List, [], ◌∷◌, if◌then◌else◌,
}

-- An action reads and writes what the factory and its connector share, the state `W`.
abbrev pub Action : Type 0 → Type 0 → Type 0 → Type 0
Action W Args Out = Option Args → W → W × Result (Option Out)

-- `SQLActionFactory`; `get_actions` gives a list that is reset.
pub record ActionFactory (W Code Args Out : Type 0) : Type 0 where
  pub get_code : W → W × Result (Option Code)
  pub get_actions : Code → W → Result (List (Action W Args Out))
  pub get_args : Code → W → W × Result (Option Args)
  pub stop : Code → W → Result Bool

-- The handlers of `tryNext`: a `BESInternalError` becomes a null result, and any other exception of
-- the framework a `SQLInternalFatalError`.
unfoldable pub try_next {ℓ} : {A : Type ℓ} → Result (Option A) → Result (Option A)
try_next (ok o) = ok o
try_next (err Error.sql_internal) = err sql_internal
try_next (err Error.sql_internal_fatal) = err sql_internal_fatal
try_next (err Error.internal) = ok none
try_next (err Error.internal_fatal) = err sql_internal_fatal
try_next (err Error.syntax_user) = err sql_internal_fatal
try_next (err Error.out_of_range) = err out_of_range
try_next (err Error.undefined) = err undefined
try_next (err Error.terminated) = err terminated
try_next (err Error.out_of_fuel) = err out_of_fuel

-- The handler round the inner loop.
unfoldable pub uncaught : Option Error → Option Error
uncaught none = none
uncaught (some Error.sql_internal) = none
uncaught (some e) = some e

module _ {W Code Args Out : Type 0} (af : ActionFactory W Code Args Out)
    (merge_f join_f : Option Out → Option Out → Option Out) (multiple_args : Bool) where
  -- The inner loop: what was merged, and the exception that ended it.
  unfoldable pub run_actions :
      Code
      → Bool
      → Option Args
      → List (Action W Args Out)
      → Option Out
      → W
      → W × Option Out × Option Error
  unfolding try_next
  run_actions code first_time args [] merged w = (w, merged, none)
  run_actions code first_time args (a ∷ actions) merged w =
      let (w1, given) = if multiple_args || first_time then af.get_args code w else (w, ok args) in
      elim given [
        | err e ↦ (w1, merged, some e)
        | ok args' ↦
            let (w2, out) = a args' w1 in
            elim (try_next out) [
              | err e ↦ (w2, merged, some e)
              | ok o ↦ run_actions code false args' actions (merge_f merged o) w2
            ]
      ]

  -- The rest of a round behind the inner loop; `again` is the next round.
  unfoldable pub end_round :
      (Option Out → W → W × Result (Option Out))
      → Code
      → Option Out
      → W × Option Out × Option Error
      → W × Result (Option Out)
  unfolding uncaught
  end_round again code joined (w, merged, thrown) = elim (uncaught thrown) [
    | some e ↦ (w, err e)
    | none ↦
        let joined' = join_f joined merged in
        elim (af.stop code w) [
          | err e ↦ (w, err e)
          | ok b ↦ elim b [ true ↦ (w, ok joined') | false ↦ again joined' w ]
        ]
  ]

  -- One round.
  unfoldable pub round :
      (Option Out → W → W × Result (Option Out))
      → Option Out
      → W × Result (Option Code)
      → W × Result (Option Out)
  unfolding end_round run_actions
  round again joined (w, err e) = (w, err e)
  round again joined (w, ok none) = (w, ok joined)
  round again joined (w, ok (some code)) = elim (af.get_actions code w) [
    | err e ↦ (w, err e)
    | ok actions ↦ end_round again code joined (run_actions code true none actions none w)
  ]

  -- `doActions`, on fuel.
  unfoldable pub do_actions : ℕ → Option Out → W → W × Result (Option Out)
  unfolding round
  do_actions zero joined w = (w, err out_of_fuel)
  do_actions (suc n) joined w = round (do_actions n) joined (af.get_code w)
