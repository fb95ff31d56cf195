-- ===== src/Actions/Dynamic/Added.antt =====
-- A factory runs the actions that were added for a code, in the order in which they were added.
use sql_handler.Actions.{Action, ActionFactory, run_actions}
use sql_handler.Actions.Dynamic.{
  DynamicList, new_dynamic_list, push_back, reset_dynamic, dynamic_class, ActionMap, same_code,
  find_list, get_dynamic, add_action,
}
use sql_handler.Actions.Dynamic.Left.{dynamic_laws, reset_left}
use sql_handler.Actions.Lists.{run_list}
use sql_handler.Actions.Lists.Loop.{run_list-run_actions}
use sql_handler.Actions.Dynamic.Codes.{WeakOrder, lookup_put, find_same}
use sql_handler.Outcome.{Result, ok, err, sql_internal}
use mathlib.Core.List.{append_assoc, append-nil}
use sql_handler.Prelude.{
  ℕ, ◌<◌, ◌≡◌, refl, sym, ap, ◌∙◌, Bool, true, false, Option, none, some, List, [], ◌∷◌, ◌++◌,
  length, if◌then◌else◌, Option-cases, Bool-cases, inl, inr,
}

-- The actions that a list of calls adds for a code.
abbrev pub added_for :
    {Code W Args Out : Type 0}
    → (Code → Code → Bool)
    → Code
    → List (Code × Action W Args Out)
    → List (Action W Args Out)
added_for less code [] = []
added_for less code ((c, a) ∷ adds) =
    let rest = added_for less code adds in if same_code less c code then a ∷ rest else rest

abbrev actions_of :
    {W Args Out : Type 0} → Option (DynamicList W Args Out) → Option (List (Action W Args Out))
actions_of none = none
actions_of (some l) = some l.actions

-- A list that more is added to, if there is any.
abbrev joined : {A : Type 0} → Option (List A) → List A → Option (List A)
joined none [] = none
joined none (x ∷ xs) = some (x ∷ xs)
joined (some ys) xs = some (ys ++ xs)

joined_first :
    {A : Type 0} (o : Option (List A)) (x : A) (xs : List A)
    → joined (joined o (x ∷ [])) xs ≡ joined o (x ∷ xs)
joined_first none x xs = refl
joined_first (some ys) x xs = ap some (append_assoc ys (x ∷ []) xs)

joined_nil : {A : Type 0} (o : Option (List A)) → joined o [] ≡ o
joined_nil none = refl
joined_nil (some ys) = ap some (append-nil ys)

module _ {Code W Args Out : Type 0} (less : Code → Code → Bool) (order : WeakOrder less) where
  -- `addAction` for each of a list.
  unfoldable pub add_calls :
      List (Code × Action W Args Out) → ActionMap Code W Args Out → ActionMap Code W Args Out
  add_calls [] m = m
  add_calls ((c, a) ∷ adds) m = add_calls adds (add_action less c (some a) m).0

  add_one :
      (c d : Code) (a : Action W Args Out) (m : ActionMap Code W Args Out)
      → actions_of (find_list less c (add_action less d (some a) m).0)
        ≡ joined (actions_of (find_list less c m)) (if same_code less d c then a ∷ [] else [])
  unfolding add_action push_back new_dynamic_list
  add_one c d a m = elim (Bool-cases (same_code less d c)) [
    | inl h ↦ elim (Option-cases (find_list less d m)) [
      | inl e ↦
          rw (add_action, e, lookup_put less order c d, h, sym (find_same less order c d m h), e)
            refl
      | inr (l, e) ↦
          rw (add_action, e, lookup_put less order c d, h, sym (find_same less order c d m h), e)
            refl
    ]
    | inr h ↦ elim (Option-cases (find_list less d m)) [
      | inl e ↦ rw (add_action, e, lookup_put less order c d, h) (sym (joined_nil _))
      | inr (l, e) ↦ rw (add_action, e, lookup_put less order c d, h) (sym (joined_nil _))
    ]
  ]

  joined_if :
      (b : Bool) (o : Option (List (Action W Args Out))) (a : Action W Args Out)
      (rest : List (Action W Args Out))
      → joined (joined o (if b then a ∷ [] else [])) rest ≡ joined o (if b then a ∷ rest else rest)
  joined_if true o a rest = joined_first o a rest
  joined_if false o a rest = ap (λ o. joined o rest) (joined_nil o)

  add_calls-for :
      (c : Code) (adds : List (Code × Action W Args Out)) (m : ActionMap Code W Args Out)
      → actions_of (find_list less c (add_calls adds m))
        ≡ joined (actions_of (find_list less c m)) (added_for less c adds)
  unfolding add_calls
  add_calls-for c [] m = sym (joined_nil _)
  add_calls-for c ((d, a) ∷ adds) m =
      add_calls-for c adds (add_action less d (some a) m).0
      ∙ ap (λ o. joined o (added_for less c adds)) (add_one c d a m)
      ∙ joined_if (same_code less d c) (actions_of (find_list less c m)) a (added_for less c adds)

module _ {Code W Args Out : Type 0} (less : Code → Code → Bool) (order : WeakOrder less)
    (af : ActionFactory W Code Args Out) (merge_f join_f : Option Out → Option Out → Option Out)
    (multiple_args : Bool) where
  -- What the manager's inner loop does with what `getActions` gave.
  abbrev pub Runs :
      ℕ
      → Code
      → Option Out
      → W
      → List (Action W Args Out)
      → Result (DynamicList W Args Out)
      → Type 0
  Runs n code merged w [] r = r ≡ err sql_internal
  Runs n code merged w (a ∷ rest) (err e) = ⊥
  Runs n code merged w (a ∷ rest) (ok l) =
      (l' : DynamicList W Args Out) × (run_list af dynamic_class merge_f multiple_args n code true
          none l merged w
        ≡ (l', run_actions af merge_f join_f multiple_args code true none (a ∷ rest) merged w))

  found-Runs :
      (n : ℕ) (code : Code) (merged : Option Out) (w : W) (xs : List (Action W Args Out))
      (o : Option (DynamicList W Args Out)) (m : ActionMap Code W Args Out)
      → find_list less code m ≡ o
      → actions_of o ≡ joined none xs
      → length xs < n
      → Runs n code merged w xs (get_dynamic less code m).1
  unfolding get_dynamic
  found-Runs n code merged w [] none m e q h = rw (get_dynamic, e) refl
  found-Runs n code merged w [] (some l) m e q h = absurd (cc q)
  found-Runs n code merged w (a ∷ rest) none m e q h = absurd (cc q)
  found-Runs n code merged w (a ∷ rest) (some l) m e q h =
      let (d, v) = reset_left l in
      let (l', v', p, r) =
        run_list-run_actions af dynamic_class dynamic_laws merge_f join_f multiple_args n code true
          none (reset_dynamic l) (a ∷ rest) merged w v (d ∙ cc q) h in
      rw (get_dynamic, e) (l', r)

  -- Let the codes be in a strict weak order. After any calls of `addAction`, each with an action,
  -- `getActions` throws for a code that none of them is for, and for another it gives a list over
  -- which the inner loop of `doActions` runs the actions that were added for the code, in the order
  -- of the calls, and nothing else, if its fuel is more than their number.
  pub get_dynamic-added :
      (adds : List (Code × Action W Args Out)) (n : ℕ) (code : Code) (merged : Option Out) (w : W)
      → length (added_for less code adds) < n
      → Runs n code merged w
          (added_for less code adds)
          (get_dynamic less code (add_calls less order adds [])).1
  unfolding find_list
  get_dynamic-added adds n code merged w h =
      found-Runs n code merged w (added_for less code adds) _ (add_calls less order adds []) refl
        (add_calls-for less order code adds []) h
