-- ===== src/Actions/Dynamic/Left.antt =====
-- The laws of the lists that grow, when they have been reset.
use sql_handler.Actions.{Action}
use sql_handler.Actions.Dynamic.{
  Position, unset, past_end, at_element, DynamicList, dynamic_class, begin_of, position_behind,
  reset_dynamic, has_next_dynamic, act_at, do_next_dynamic,
}
use sql_handler.Actions.Lists.Arrays.{none_left, first_left}
use sql_handler.Actions.Lists.Loop.{ListLaws}
use sql_handler.Outcome.{ok}
use sql_handler.Prelude.{
  ℕ, zero, suc, ◌<◌, ◌≤◌, ◌≡◌, refl, sym, ◌∙◌, true, false, Option, List, [], ◌∷◌, length, drop,
  Bool-cases, inl, inr, ltb, arith,
}

drop_all : {A : Type 0} (n : ℕ) (xs : List A) → length xs ≤ n → drop n xs ≡ []
drop_all zero [] h = refl
drop_all (suc n) [] h = refl
drop_all zero (x ∷ xs) h = absurd (omega arith)
drop_all (suc n) (x ∷ xs) h = drop_all n xs (omega arith)

module _ {W Args Out : Type 0} where
  abbrev pub left_at : Position → List (Action W Args Out) → List (Action W Args Out)
  left_at unset actions = []
  left_at past_end actions = []
  left_at (at_element i) actions = drop i actions

  -- The iterator is set, and it is on an element or at the end.
  abbrev pub SetIn : Position → List (Action W Args Out) → Type 0
  SetIn unset actions = ⊥
  SetIn past_end actions = Unit
  SetIn (at_element i) actions = i < length actions

  pub dynamic_ends :
      (p : Position) (actions : List (Action W Args Out))
      → SetIn p actions
      → left_at p actions ≡ []
      → has_next_dynamic (record { actions = actions; iterator = p }) ≡ ok false
  unfolding has_next_dynamic
  dynamic_ends unset actions v e = absurd v
  dynamic_ends past_end actions v e = refl
  dynamic_ends (at_element i) actions v e = absurd (omega (arith, none_left i actions e, v))

  pub dynamic_goes_on :
      (p : Position) (actions : List (Action W Args Out)) (a : Action W Args Out)
      (rest : List (Action W Args Out))
      → left_at p actions ≡ a ∷ rest
      → has_next_dynamic (record { actions = actions; iterator = p }) ≡ ok true
  unfolding has_next_dynamic
  dynamic_goes_on unset actions a rest e = absurd (cc e)
  dynamic_goes_on past_end actions a rest e = absurd (cc e)
  dynamic_goes_on (at_element i) actions a rest e = refl

  left_behind :
      (i : ℕ) (actions : List (Action W Args Out))
      → i < length actions
      → (left_at (position_behind i actions) actions ≡ drop (suc i) actions)
        × SetIn (position_behind i actions) actions
  unfolding position_behind
  left_behind i actions h = elim (Bool-cases (ltb (suc i) (length actions))) [
    | inl q ↦ rw (position_behind, q) (refl, ground (arith, q))
    | inr q ↦ rw (position_behind, q) (sym (drop_all (suc i) actions (ground (arith, q))), tt)
  ]

  pub dynamic_next :
      (p : Position) (actions : List (Action W Args Out)) (a : Action W Args Out)
      (rest : List (Action W Args Out)) (args : Option Args) (w : W)
      → left_at p actions ≡ a ∷ rest
      → (l' : DynamicList W Args Out) × (do_next_dynamic args
            (record { actions = actions; iterator = p })
            w
          ≡ (l', a args w))
        × (left_at l'.iterator l'.actions ≡ rest)
        × SetIn l'.iterator l'.actions
        × (l'.actions ≡ actions)
  unfolding do_next_dynamic act_at
  dynamic_next unset actions a rest args w e = absurd (cc e)
  dynamic_next past_end actions a rest args w e = absurd (cc e)
  dynamic_next (at_element i) actions a rest args w e =
      let (g, d, h) = first_left i actions a rest e in
      let (q, v) = left_behind i actions h in
      (
        record { actions = actions; iterator = position_behind i actions },
        rw (act_at, g) refl,
        q ∙ d,
        v,
        refl,
      )

  pub reset_left :
      (l : DynamicList W Args Out)
      → (left_at (reset_dynamic l).iterator (reset_dynamic l).actions ≡ l.actions)
        × SetIn (reset_dynamic l).iterator (reset_dynamic l).actions
  unfolding reset_dynamic begin_of
  reset_left l = at_begin l.actions
    where
      at_begin :
          (actions : List (Action W Args Out))
          → (left_at (begin_of actions) actions ≡ actions) × SetIn (begin_of actions) actions
      at_begin [] = (refl, tt)
      at_begin (a ∷ rest) = (refl, omega arith)

  abbrev pub dynamic_laws : ListLaws (dynamic_class {W = W} {Args = Args} {Out = Out})
  dynamic_laws = record {
    all_actions = λ l. l.actions;
    left = λ l. left_at l.iterator l.actions;
    IsValid = λ l. SetIn l.iterator l.actions;
    has_next-none = λ l v e. dynamic_ends l.iterator l.actions v e;
    has_next-some = λ l a rest v e. dynamic_goes_on l.iterator l.actions a rest e;
    do_next-some = λ l a rest args w v e. dynamic_next l.iterator l.actions a rest args w e;
    reset-all = λ l v. reset_left l;
  }
