-- ===== src/Actions/Lists/Arrays.antt =====
-- The laws of the lists over an array, whose size is that of the array.
use sql_handler.Actions.{Action, ActionFactory, run_actions}
use sql_handler.Actions.Lists.{
  ArrayList, new_array_list, run_list, array_class, has_next_array, do_next_array, reset_array,
}
use sql_handler.Actions.Lists.Loop.{ListLaws, run_list-run_actions}
use sql_handler.Cursor.{size_mod}
use sql_handler.Outcome.{ok}
use sql_handler.Prelude.{
  ℕ, zero, suc, ◌+◌, ◌%◌, ◌<◌, ◌≤◌, ◌≡◌, refl, ap, ◌∙◌, Bool, true, false, Option, none, some, List,
  [], ◌∷◌, length, drop, get_elem?, length-drop, arith,
}

pub none_left : {A : Type 0} (i : ℕ) (xs : List A) → drop i xs ≡ [] → length xs ≤ i
none_left i xs e = omega (arith, length-drop i xs, ap length e)

pub first_left :
    {A : Type 0} (i : ℕ) (xs : List A) (a : A) (rest : List A)
    → drop i xs ≡ a ∷ rest
    → (get_elem? xs i ≡ some a) × (drop (suc i) xs ≡ rest) × (i < length xs)
first_left zero [] a rest e = absurd (cc e)
first_left (suc i) [] a rest e = absurd (cc e)
first_left zero (x ∷ xs) a rest e = (cc e, cc e, omega arith)
first_left (suc i) (x ∷ xs) a rest e =
    let (g, d, h) = first_left i xs a rest e in (g, d, omega arith)

module _ {W Args Out : Type 0} where
  -- The size is that of the array, and the iterator is in it or at its end.
  pub record InArray (l : ArrayList W Args Out) : Type 0 where
    pub whole : l.size ≡ length l.list
    pub fits : l.size < size_mod
    pub inside : l.iterator ≤ l.size

  pub array_ends :
      (l : ArrayList W Args Out)
      → InArray l
      → drop l.iterator l.list ≡ []
      → has_next_array l ≡ ok false
  unfolding has_next_array
  array_ends l v e =
      let h : l.size ≤ l.iterator = omega (arith, none_left l.iterator l.list e, v.whole) in
      ground (arith, h)

  pub array_goes_on :
      (l : ArrayList W Args Out) (a : Action W Args Out) (rest : List (Action W Args Out))
      → InArray l
      → drop l.iterator l.list ≡ a ∷ rest
      → has_next_array l ≡ ok true
  unfolding has_next_array
  array_goes_on l a rest v e =
      let (g, d, i) = first_left l.iterator l.list a rest e in
      let h : l.iterator < l.size = omega (arith, i, v.whole) in ground (arith, h)

  pub array_next :
      (l : ArrayList W Args Out) (a : Action W Args Out) (rest : List (Action W Args Out))
      (args : Option Args) (w : W)
      → InArray l
      → drop l.iterator l.list ≡ a ∷ rest
      → (l' : ArrayList W Args Out) × (do_next_array args l w ≡ (l', a args w))
        × (drop l'.iterator l'.list ≡ rest)
        × InArray l'
        × (l'.list ≡ l.list)
  unfolding do_next_array
  array_next l a rest args w v e =
      let (g, d, i) = first_left l.iterator l.list a rest e in
      let q : (l.iterator + 1) % size_mod ≡ suc l.iterator = omega (arith, i, v.whole, v.fits) in
      (
        record l { iterator = (l.iterator + 1) % size_mod },
        rw (do_next_array, g) refl,
        rw q d,
        record { whole = v.whole; fits = v.fits; inside = omega (arith, q, i, v.whole) },
        refl,
      )

  pub array_reset :
      (l : ArrayList W Args Out)
      → InArray l
      → (drop (reset_array l).iterator (reset_array l).list ≡ l.list) × InArray (reset_array l)
  unfolding reset_array
  array_reset l v = (refl, record { whole = v.whole; fits = v.fits; inside = omega arith })

  abbrev pub array_laws : ListLaws (array_class {W = W} {Args = Args} {Out = Out})
  array_laws = record {
    all_actions = λ l. l.list;
    left = λ l. drop l.iterator l.list;
    IsValid = InArray;
    has_next-none = array_ends;
    has_next-some = array_goes_on;
    do_next-some = array_next;
    reset-all = array_reset;
  }

module _ {W Code Args Out : Type 0} (af : ActionFactory W Code Args Out)
    (merge_f join_f : Option Out → Option Out → Option Out) (multiple_args : Bool) where
  -- A list made from an array and its size, which is a `size_t`, is made; the inner loop of
  -- `doActions` runs the actions of the array over it, each once and in order, if its fuel is more
  -- than their number; and after a `reset` the loop runs them again.
  pub array_list-run_actions :
      (allocated : Bool) (actions : List (Action W Args Out)) (n : ℕ) (code : Code)
      (merged : Option Out) (w w' : W)
      → length actions < size_mod
      → length actions < n
      → (l : ArrayList W Args Out) × (l' : ArrayList W Args Out) × (l'' : ArrayList W Args Out)
        × (new_array_list (some (allocated, actions)) (length actions) ≡ ok l)
        × (run_list af array_class merge_f multiple_args n code true none l merged w
            ≡ (l', run_actions af merge_f join_f multiple_args code true none actions merged w))
        × (run_list af array_class merge_f multiple_args n code true none (reset_array l') merged w'
            ≡ (l'', run_actions af merge_f join_f multiple_args code true none actions merged w'))
  unfolding new_array_list reset_array
  array_list-run_actions allocated actions n code merged w w' h k =
      let l : ArrayList W Args Out = record {
        list = actions;
        allocated = allocated;
        size = length actions;
        iterator = 0;
      } in
      let (l', v, p, r) =
        run_list-run_actions af array_class array_laws merge_f join_f multiple_args n code true none
          l actions merged w (record { whole = refl; fits = h; inside = omega arith }) refl k in
      let (e, v') = array_reset l' v in
      let (l'', v'', p', r') =
        run_list-run_actions af array_class array_laws merge_f join_f multiple_args n code true none
          (reset_array l') actions merged w' v' (e ∙ p) k in
      (l, l', l'', refl, r, r')
