-- ===== src/Tests/Points.antt =====
-- Runs for the check points: the configuration names 1 and 3 on one line, and 4 on another.
use mathlib.Core.List.{map}
use sql_handler.Actions.Errors.{ReturnCode, ErrorConnector, error_factory, trigger}
use sql_handler.Actions.Triggers.{HasMessages, outcome_of, trigger-outcome_of}
use sql_handler.CheckPoint.{check, CheckPoint, Parser, ℤ, pos, negsuc, start, init}
use sql_handler.CheckPoint.Bits.{run_checks, allows, all_allowed, configures, run_checks-init}
use sql_handler.Outcome.{ok, done}
use sql_handler.Prelude.{
  ℕ, ◌+◌, ◌-◌, none, ◌≡◌, refl, true, some, List, [], ◌∷◌, Text, codes, ◌==◌, if◌then◌else◌, arith,
}

abbrev put_first : ℕ → List Text → List Text
put_first c [] = (c ∷ []) ∷ []
put_first c (w ∷ ws) = (c ∷ w) ∷ ws

abbrev at_commas : Text → List Text
at_commas [] = [] ∷ []
at_commas (c ∷ s) = let rest = at_commas s in if c == b',' then [] ∷ rest else put_first c rest

abbrev digit : Text → ℤ
digit [] = pos 0
digit (c ∷ s) = if c == b'-' then negsuc 0 else pos (c - b'0')

abbrev digits : Parser
digits = record { explode = at_commas; atoi = digit }

abbrev configuration : List Text
configuration = codes "1,3" ∷ codes "4" ∷ []

run_checks-init_example :
    (c : CheckPoint) × (init digits start (some configuration) ≡ done c)
    × (run_checks c (3 ∷ 2 ∷ 3 ∷ [])
        ≡ map (λ t. ok (configures digits t configuration)) (3 ∷ 2 ∷ 3 ∷ []))
unfolding all_allowed allows
run_checks-init_example =
    run_checks-init digits configuration (3 ∷ 2 ∷ 3 ∷ []) refl
      (omega arith, (omega arith, (omega arith, tt)))

abbrev all_points : CheckPoint
all_points = record start { is_set = true; function = λ n. true }

-- A connector whose last call failed; its state counts the messages read.
abbrev failed : ErrorConnector ℕ
failed = record {
  get_error = λ w. ReturnCode.error;
  get_msg = λ code w. (w + 1, ok (some (codes "08001")));
}

failed-HasMessages : HasMessages failed
failed-HasMessages code w = (codes "08001", refl)

trigger-outcome_of_example :
    (trigger (error_factory failed) 1 all_points 0 0
      ≡ (all_points, outcome_of failed ReturnCode.error 0))
    × (trigger (error_factory failed) 1 all_points 1 0 ≡ (
      (check all_points 1).0,
      if true then outcome_of failed ReturnCode.error 0 else (0, ok none),
    ))
unfolding check start
trigger-outcome_of_example = trigger-outcome_of failed failed-HasMessages 0 all_points 0 true 0 refl
