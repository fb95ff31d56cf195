-- ===== src/Query/Select.antt =====
-- What `attrToSelect` lets through.
use mathlib.Core.List.{Mem}
use mathlib.Core.Path.{subst}
use sql_handler.Outcome.{ok, >>=-eq-ok, ok-injective}
use sql_handler.Prelude.{
  ◌⊎◌, inl, inr, Bool-cases, ◌≡◌, refl, true, false, Option, none, some, List, [], ◌∷◌, Text, codes,
  All, has_any, arith, text_lt_trans,
}
use sql_handler.Query.{
  Query, load_attributes, select_one, select_each, select_dataset, or_dataset, is_found,
  attr_to_select,
}
use sql_handler.Query.Attributes.{Attribute, name_less, position_less, new_attribute}
use sql_handler.Regex.{Regex}
use sql_handler.SortedSet.{insert, find}
use sql_handler.SortedSet.Laws.{
  IsSorted, All-insert, All-find, All-mem, insert-IsSorted, has_any-insert,
}

position_less_trans :
    (x y z : Attribute)
    → position_less x y ≡ true
    → position_less y z ≡ true
    → position_less x z ≡ true
unfolding position_less
position_less_trans x y z h k = ground arith

name_less_trans :
    (x y z : Attribute) → name_less x y ≡ true → name_less y z ≡ true → name_less x z ≡ true
unfolding name_less
name_less_trans x y z h k = text_lt_trans x.name y.name z.name h k

-- A set ordered by position, of attributes with a property.
abbrev Selected {κ} : (Attribute → Type κ) → List Attribute → Type κ
Selected P attrs = All P attrs × IsSorted position_less attrs

insert-Selected {κ} :
    (P : Attribute → Type κ) (a : Attribute) (attrs : List Attribute)
    → P a
    → Selected P attrs
    → Selected P (insert position_less a attrs)
insert-Selected P a attrs p (h, k) = (
  All-insert position_less P a attrs p h,
  insert-IsSorted position_less position_less_trans a attrs k,
)

select_dataset-Selected {κ} :
    (P : Attribute → Type κ) (ds attrs : List Attribute)
    → All P ds
    → Selected P attrs
    → Selected P (select_dataset ds attrs)
unfolding select_dataset
select_dataset-Selected P [] attrs h s = s
select_dataset-Selected P (d ∷ ds) attrs h s =
    select_dataset-Selected P ds _ h.1 (insert-Selected P d attrs h.0 s)

has_any-select_dataset :
    (ds attrs : List Attribute) → has_any attrs ≡ true → has_any (select_dataset ds attrs) ≡ true
unfolding select_dataset
has_any-select_dataset [] attrs h = h
has_any-select_dataset (d ∷ ds) attrs h =
    has_any-select_dataset ds _ (has_any-insert position_less d attrs)

has_any-or_dataset :
    (ds attrs : List Attribute) → has_any ds ≡ true → has_any (or_dataset ds attrs) ≡ true
unfolding select_dataset
has_any-or_dataset [] [] h = cc
has_any-or_dataset (d ∷ ds) [] h = has_any-select_dataset ds _ (has_any-insert position_less d [])
has_any-or_dataset ds (a ∷ attrs) h = refl

or_dataset-Selected {κ} :
    (P : Attribute → Type κ) (ds attrs : List Attribute)
    → All P ds
    → Selected P attrs
    → Selected P (or_dataset ds attrs)
or_dataset-Selected P ds [] h s = select_dataset-Selected P ds [] h (tt, tt)
or_dataset-Selected P ds (a ∷ attrs) h s = s

module _ (rx : Regex) where
  select_each-Selected {κ} :
      (P : Attribute → Type κ) (ds asked attrs : List Attribute) (result : List Attribute)
      → All P ds
      → Selected P attrs
      → select_each rx false ds asked attrs ≡ ok result
      → Selected P result
  unfolding select_each select_one
  select_each-Selected P ds [] attrs result h s e = subst (Selected P) (ok-injective e) s
  select_each-Selected P ds (a ∷ asked) attrs result h s e =
      let (attrs', e1, e2) = >>=-eq-ok (select_one rx false ds a attrs) _ e in
      select_each-Selected P ds asked attrs' result h (one attrs' (find name_less a ds) refl e1) e2
    where
      one :
          (attrs' : List Attribute) (o : Option Attribute)
          → find name_less a ds ≡ o
          → select_one rx false ds a attrs ≡ ok attrs'
          → Selected P attrs'
      one attrs' none f e1 =
          let q : ok attrs ≡ ok attrs' = ground arith in subst (Selected P) (ok-injective q) s
      one attrs' (some d) f e1 =
          let q : ok (insert position_less d attrs) ≡ ok attrs' = ground arith in
          subst (Selected P) (ok-injective q)
            (insert-Selected P d attrs (All-find name_less P a ds d h f) s)

  -- The dataset does not ask for all columns by a `*`.
  abbrev pub HasNoStar : Query → Type 0
  HasNoStar q =
      (star : Attribute)
      → new_attribute rx (codes "*") 0 ≡ ok star
      → is_found (find name_less star q.select) ≡ false

  -- For a dataset without `*`, whatever the request says, the attributes that `attrToSelect` returns
  -- are attributes of the dataset, each with a greater position than the one before; and the
  -- dataset has none, or there is one.
  pub attr_to_select_sound :
      (q : Query) (on_the_fly : Text) (attrs : List Attribute)
      → HasNoStar q
      → attr_to_select rx q on_the_fly ≡ ok attrs
      → All (λ a. Mem a q.select) attrs
        × IsSorted position_less attrs
        × ((has_any q.select ≡ false) ⊎ (has_any attrs ≡ true))
  unfolding attr_to_select
  attr_to_select_sound q on_the_fly attrs no_star e =
      let (asked, e1, r1) = >>=-eq-ok (load_attributes rx on_the_fly).0 _ e in
      let (star, e2, r2) = >>=-eq-ok (new_attribute rx (codes "*") 0) _ r1 in
      let (each, e3, r3) =
        >>=-eq-ok (select_each rx (is_found (find name_less star q.select)) q.select asked []) _
          r2 in
      let sel = or_dataset-Selected _ q.select each (All-mem q.select) (
        select_each-Selected _ q.select asked [] each (All-mem q.select) (tt, tt)
          (rw (no_star star e2) at e3)) in
      let (h, k) = subst (Selected _) (ok-injective r3) sel in
      (
        h,
        k,
        elim (Bool-cases (has_any q.select)) [
          | inl d ↦
              inr (
                subst (λ l. has_any l ≡ true) (ok-injective r3)
                  (has_any-or_dataset q.select each d))
          | inr n ↦ inl n
        ],
      )
