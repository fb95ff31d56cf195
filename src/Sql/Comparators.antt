-- ===== src/Sql/Comparators.antt =====
-- What `comparatorSubst` leaves, and what `operator<` of constraints makes of two of them.
use sql_handler.Dataset.Parts.{Section}
use mathlib.Core.List.{append_assoc, append-nil}
use sql_handler.Outcome.{ok, Outcome, raised, undefined, ok-injective}
use sql_handler.Prelude.{
  ◌≡◌, sym, ◌∙◌, true, false, ◌||◌, Option, none, some, List, [], ◌∷◌, ◌++◌, Text, text_lt, arith,
  text_lt_irrefl, text_lt_trans, Bool-cases, inl, inr,
}
use sql_handler.Query.Constraints.{Constraint, Placement, insert_constraint, constraint_less}
use sql_handler.Sql.{substituted, comparator_subst, set_left}

-- A call that returns leaves the set as it is.
pub comparator_subst-done :
    (place : Placement) (s : Section) (passed cs ds : List Constraint)
    → set_left (comparator_subst place s passed cs) ≡ ok ds
    → passed ++ cs ≡ ds
unfolding comparator_subst
comparator_subst-done place s passed [] ds e = append-nil passed ∙ ok-injective e
comparator_subst-done place s passed (c ∷ cs) ds e =
    go (substituted s c) (comparator_subst-done place s (passed ++ c ∷ []) cs ds) e
  where
    go :
        (m : Option Constraint)
        → (set_left (comparator_subst place s (passed ++ c ∷ []) cs) ≡ ok ds
            → (passed ++ c ∷ []) ++ cs ≡ ds)
        → set_left (elim m as (λ y. Outcome (List Constraint)) [
          | some c' ↦ raised undefined (insert_constraint place c' (passed ++ cs))
          | none ↦ comparator_subst place s (passed ++ c ∷ []) cs
        ])
          ≡ ok ds
        → passed ++ c ∷ cs ≡ ds
    go (some c') k q = absurd (cc q)
    go none k q = sym (append_assoc passed (c ∷ []) cs) ∙ k q

text_lt_asymm : (s t : Text) → text_lt s t ≡ true → text_lt t s ≡ false
text_lt_asymm s t h = elim (Bool-cases (text_lt t s)) [
  | inl k ↦ cc (text_lt_trans s t s h k, text_lt_irrefl s)
  | inr k ↦ k
]

-- `operator<` holds between each constraint and itself, and of two constraints one is always less
-- than the other.
constraint_less_not_strict :
    (a c : Constraint)
    → (constraint_less a a ≡ true) × ((constraint_less a c || constraint_less c a) ≡ true)
unfolding constraint_less
constraint_less_not_strict a c =
    (ground (arith, text_lt_irrefl a.value), ground (arith, text_lt_asymm a.value c.value))
