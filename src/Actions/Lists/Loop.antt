-- ===== src/Actions/Lists/Loop.antt =====
-- The loop over a list of a class runs the actions that are left in it.
use sql_handler.Actions.{Action, ActionFactory, try_next, run_actions}
use sql_handler.Actions.Lists.{ListClass, after_next, run_list}
use sql_handler.Outcome.{Error, Result, ok, err}
use sql_handler.Prelude.{
  ℕ, zero, suc, ◌<◌, ◌≡◌, refl, ap, ◌∙◌, Bool, true, false, ◌||◌, Option, List, [], ◌∷◌, length,
  if◌then◌else◌, arith, ◌⊎◌, inl, inr,
}

-- What a class of lists keeps: its actions and those that are left, in order, and the state in which
-- its functions are defined.
pub record ListLaws {L W Args Out : Type 0} (c : ListClass L W Args Out) : Type 1 where
  pub all_actions : L → List (Action W Args Out)
  pub left : L → List (Action W Args Out)
  pub IsValid : L → Type 0
  pub has_next-none : (l : L) → IsValid l → left l ≡ [] → c.has_next l ≡ ok false
  pub has_next-some :
      (l : L) (a : Action W Args Out) (rest : List (Action W Args Out))
      → IsValid l
      → left l ≡ a ∷ rest
      → c.has_next l ≡ ok true
  pub do_next-some :
      (l : L) (a : Action W Args Out) (rest : List (Action W Args Out)) (args : Option Args) (w : W)
      → IsValid l
      → left l ≡ a ∷ rest
      → (l' : L) × (c.do_next args l w ≡ (l', a args w))
        × (left l' ≡ rest)
        × IsValid l'
        × (all_actions l' ≡ all_actions l)
  pub reset-all : (l : L) → IsValid l → (left (c.reset l) ≡ all_actions l) × IsValid (c.reset l)

Result-cases : {A : Type 0} (r : Result A) → ((e : Error) × (r ≡ err e)) ⊎ ((a : A) × (r ≡ ok a))
Result-cases (err e) = inl (e, refl)
Result-cases (ok a) = inr (a, refl)

module _ {L W Code Args Out : Type 0} (af : ActionFactory W Code Args Out)
    (c : ListClass L W Args Out) (laws : ListLaws c)
    (merge_f join_f : Option Out → Option Out → Option Out) (multiple_args : Bool) where
  -- Over a list of a class that keeps the laws, in a state that its functions are defined for, the
  -- inner loop of `doActions` does what it does over the actions that are left in the list, if its
  -- fuel is more than their number.
  pub run_list-run_actions :
      (n : ℕ) (code : Code) (first_time : Bool) (args : Option Args) (l : L)
      (rest : List (Action W Args Out)) (merged : Option Out) (w : W)
      → laws.IsValid l
      → laws.left l ≡ rest
      → length rest < n
      → (l' : L) × laws.IsValid l'
        × (laws.all_actions l' ≡ laws.all_actions l)
        × (run_list af c merge_f multiple_args n code first_time args l merged w
            ≡ (l', run_actions af merge_f join_f multiple_args code first_time args rest merged w))
  unfolding run_list run_actions after_next
  run_list-run_actions zero code first_time args l rest merged w v e h = absurd (omega arith)
  run_list-run_actions (suc n) code first_time args l [] merged w v e h =
      (l, v, refl, rw (run_list, laws.has_next-none l v e) refl)
  run_list-run_actions (suc n) code first_time args l (a ∷ rest) merged w v e h =
      let g = if multiple_args || first_time then af.get_args code w else (w, ok args) in
      elim (Result-cases g.1) [
        | inl (x, q) ↦
            (l, v, refl, rw (run_list, laws.has_next-some l a rest v e, run_actions, q) refl)
        | inr (args', q) ↦
            let (l', d, e', v', p) = laws.do_next-some l a rest args' g.0 v e in
            let again = run_list af c merge_f multiple_args n code false args' in
            elim (Result-cases (try_next (a args' g.0).1)) [
              | inl (x, q') ↦ (
                l',
                v',
                p,
                rw (run_list, laws.has_next-some l a rest v e, run_actions, q)
                    (ap (after_next af c merge_f multiple_args again merged) d
                      ∙ rw (after_next, q') refl),
              )
              | inr (o, q') ↦
                  let (l'', v'', p', r) =
                    run_list-run_actions n code false args' l' rest (merge_f merged o)
                      (a args' g.0).0 v' e' (omega arith) in
                  (
                    l'',
                    v'',
                    p' ∙ p,
                    rw (run_list, laws.has_next-some l a rest v e, run_actions, q)
                        (ap (after_next af c merge_f multiple_args again merged) d
                          ∙ rw (after_next, q') r),
                  )
            ]
      ]
