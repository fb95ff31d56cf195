-- ===== src/Requests/Wrapping.antt =====
-- `wrapper` of SQLRequestHandler.h, the method of each command that the plugins offer, with the
-- constructor of container/SQLDataHandlerInterface.h.
use sql_handler.Containers.{Container, Files}
use sql_handler.Containers.Factory.{Requested, Factory, get_container}
use sql_handler.Dataset.Parts.{Section}
use sql_handler.Outcome.{Error, Result, ok, err, undefined}
use sql_handler.Prelude.{◌≡◌, ap, ◌∙◌, Bool, Option, none, some, List, [], Text, drop}
use sql_handler.Query.Constraints.{Placement}
use sql_handler.Regex.{Regex}
use sql_handler.Requests.{Registry, last_chance_runner}
use sql_handler.Requests.Runner.{first_success, last_chance_runner-eq}

-- The sections of a container from the actual one on.
abbrev pub sections_left : Container → List Section
sections_left c = elim c.actual_section [ none ↦ [] | some i ↦ drop i c.members.dataset ]

module _ {M W S : Type 0} (registry : Registry M W) (command : Text) where
  -- `lastChanceRunner` on the container of a `SQLDataHandlerInterface`; it follows a null pointer.
  unfoldable pub run_on : W → S × Result (Option Container) → S × (Result Bool × W)
  run_on w (s, err e) = (s, (err e, w))
  run_on w (s, ok none) = (s, (err undefined, w))
  run_on w (s, ok (some c)) =
      let (res, rest, w') = last_chance_runner registry command (sections_left c) w in
      (s, (res, w'))

module _ {M W S : Type 0} (rx : Regex) (place : Placement) (f : Files) (x : Factory S)
    (is_std : Error → Bool) (registry : Registry M W) (command : Text) where
  -- `wrapper`, of a request whose container may be null; `command` is its action.
  unfoldable pub wrapper_method : Option Requested → S → W → S × (Result Bool × W)
  unfolding get_container run_on
  wrapper_method requested s w =
      run_on registry command w (get_container rx place f x is_std requested s)

  -- A request for which the factory gives a container is answered by the first section, from the
  -- actual one on, whose plugin can.
  wrapper_method-first_success :
      (requested : Option Requested) (s s' : S) (w : W) (c : Container)
      → get_container rx place f x is_std requested s ≡ (s', ok (some c))
      → wrapper_method requested s w ≡ (
          let (res, rest, w') = first_success registry command (sections_left c) w in
          (s', (res, w')))
  unfolding wrapper_method run_on
  wrapper_method-first_success requested s s' w c e =
      ap (run_on registry command w) e
      ∙ ap (λ (y : Result Bool × List Section × W). (s', (y.0, y.2)))
          (last_chance_runner-eq registry command (sections_left c) w)
