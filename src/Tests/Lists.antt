-- ===== src/Tests/Lists.antt =====
-- Runs of the lists of actions: actions that write their name into a log, and one that fails.
use sql_handler.Actions.{Action, ActionFactory, run_actions}
use sql_handler.Actions.Dynamic.{
  push_back, new_dynamic_list, reset_dynamic, has_next_dynamic, do_next_dynamic, get_dynamic,
}
use sql_handler.Actions.Dynamic.Added.{added_for, add_calls, Runs, get_dynamic-added}
use sql_handler.Actions.Dynamic.Codes.{WeakOrder}
use sql_handler.Actions.Lists.{
  ArrayList, array_class, new_array_list, drop_static_list, run_list, reset_array,
}
use sql_handler.Actions.Lists.Arrays.{array_list-run_actions}
use sql_handler.Outcome.{ok, err, Error, undefined}
use sql_handler.Prelude.{
  ℕ, ◌≡◌, refl, true, false, Option, none, some, List, [], ◌∷◌, Text, codes, ltb, arith,
}

abbrev writes : Text → Action (List Text) Text Text
writes name args log = (name ∷ log, ok (some name))

abbrev fails : Action (List Text) Text Text
fails args log = (codes "failed" ∷ log, err Error.internal)

abbrev factory : ActionFactory (List Text) ℕ Text Text
factory = record {
  get_code = λ w. (w, ok (some 7));
  get_actions = λ code w. ok [];
  get_args = λ code w. (codes "args" ∷ w, ok (some (codes "x")));
  stop = λ code w. ok true;
}

abbrev last_of : Option Text → Option Text → Option Text
last_of old new = new

abbrev three : List (Action (List Text) Text Text)
three = writes (codes "a") ∷ fails ∷ writes (codes "b") ∷ []

array_list-run_actions_example :
    (l : ArrayList (List Text) Text Text) × (l' : ArrayList (List Text) Text Text)
    × (l'' : ArrayList (List Text) Text Text) × (new_array_list (some (false, three)) 3 ≡ ok l)
    × (run_list factory array_class last_of true 4 7 true none l none []
        ≡ (l', run_actions factory last_of last_of true 7 true none three none []))
    × (run_list factory array_class last_of true 4 7 true none (reset_array l') none []
        ≡ (l'', run_actions factory last_of last_of true 7 true none three none []))
array_list-run_actions_example =
    array_list-run_actions factory last_of last_of true false three 4 7 none [] [] (omega arith)
      (omega arith)

numbers-WeakOrder : WeakOrder ltb
numbers-WeakOrder = record {
  irrefl = λ a. ground arith;
  same_trans = λ a b c h k. ground (arith, h, k);
}

abbrev calls : List (ℕ × Action (List Text) Text Text)
calls =
    (7, writes (codes "a")) ∷ (8, writes (codes "c")) ∷ (7, fails) ∷ (7, writes (codes "b")) ∷ []

get_dynamic-added_example :
    Runs ltb numbers-WeakOrder factory last_of last_of true 4 7 none []
      (added_for ltb 7 calls)
      (get_dynamic ltb 7 (add_calls ltb numbers-WeakOrder calls [])).1
get_dynamic-added_example =
    get_dynamic-added ltb numbers-WeakOrder factory last_of last_of true calls 4 7 none []
      (omega arith)

-- Behind the end of a list that grows the first action runs, and the list still stands on it.
past_the_end :
    (let l = push_back (writes (codes "a")) (reset_dynamic new_dynamic_list) in
      let (l', r) = do_next_dynamic none l [] in has_next_dynamic l')
    ≡ ok true
unfolding push_back new_dynamic_list reset_dynamic do_next_dynamic has_next_dynamic
past_the_end = refl

-- The static list deletes an array of one action that it did not make.
static_one :
    (elim (new_array_list (some (false, writes (codes "a") ∷ [])) 1) [
      | err e ↦ err e
      | ok l ↦ drop_static_list l
    ])
    ≡ err undefined
unfolding new_array_list drop_static_list
static_one = refl
