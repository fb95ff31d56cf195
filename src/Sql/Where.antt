-- ===== src/Sql/Where.antt =====
-- The WHERE clause as a join of conditions.
use mathlib.Core.List.{map, append_assoc, append-nil}
use sql_handler.Prelude.{
  if◌then◌else◌, ◌≡◌, refl, sym, ap, ◌∙◌, true, false, List, [], ◌∷◌, ◌++◌, Text, codes, All,
  is_empty, Bool-cases, inl, inr,
}
use sql_handler.Query.Attributes.{Attribute}
use sql_handler.Query.Constraints.{Constraint, to_string}
use sql_handler.Sql.{
  where_rest, where_clause, request_constraint, append_constraints, join_rest, select_clause,
}

-- The texts, with `sep` in front of each.
unfoldable pub prefix_each : Text → List Text → Text
prefix_each sep [] = []
prefix_each sep (t ∷ ts) = (sep ++ t) ++ prefix_each sep ts

-- The texts, with `sep` between them.
unfoldable pub join : Text → List Text → Text
unfolding prefix_each
join sep [] = []
join sep (t ∷ ts) = t ++ prefix_each sep ts

prefix_each-append :
    (sep : Text) (ts us : List Text)
    → prefix_each sep (ts ++ us) ≡ prefix_each sep ts ++ prefix_each sep us
unfolding prefix_each
prefix_each-append sep [] us = refl
prefix_each-append sep (t ∷ ts) us =
    rw (prefix_each-append sep ts us)
      (sym (append_assoc (sep ++ t) (prefix_each sep ts) (prefix_each sep us)))

where_rest-eq :
    (cs : List Constraint) → where_rest cs ≡ prefix_each (codes " AND ") (map to_string cs)
unfolding where_rest prefix_each
where_rest-eq [] = refl
where_rest-eq (c ∷ cs) = ap (λ t. (codes " AND " ++ to_string c) ++ t) (where_rest-eq cs)

pub where_clause-eq :
    (cs : List Constraint) → where_clause cs ≡ join (codes " AND ") (map to_string cs)
unfolding where_clause join
where_clause-eq [] = refl
where_clause-eq (c ∷ cs) = ap (λ t. to_string c ++ t) (where_rest-eq cs)

join_rest-eq :
    (cs : List Attribute) → join_rest cs ≡ prefix_each (codes ",") (map (λ a. a.attribute) cs)
unfolding join_rest prefix_each
join_rest-eq [] = refl
join_rest-eq (c ∷ cs) = ap (λ t. (codes "," ++ c.attribute) ++ t) (join_rest-eq cs)

pub select_clause-eq :
    (cs : List Attribute) → select_clause cs ≡ join (codes ",") (map (λ a. a.attribute) cs)
unfolding select_clause join
select_clause-eq [] = refl
select_clause-eq (c ∷ cs) = ap (λ t. c.attribute ++ t) (join_rest-eq cs)

is_empty-append : (s t : Text) → is_empty s ≡ false → is_empty (s ++ t) ≡ false
is_empty-append [] t h = cc
is_empty-append (c ∷ s) t h = refl

append_after :
    (select : List Attribute) (buf : Text) (cs : List Constraint)
    → is_empty buf ≡ false
    → append_constraints select buf cs
      ≡ buf ++ prefix_each (codes " AND ") (map (request_constraint select) cs)
unfolding append_constraints prefix_each
append_after select buf [] h = sym (append-nil buf)
append_after select buf (c ∷ cs) h =
    rw (h, append_constraints)
      (append_after select ((buf ++ codes " AND ") ++ request_constraint select c) cs (
          is_empty-append (buf ++ codes " AND ") (request_constraint select c)
            (is_empty-append buf (codes " AND ") h))
        ∙ simp append_assoc)

nil_of_empty : (t : Text) → is_empty t ≡ true → t ≡ []
nil_of_empty [] h = refl
nil_of_empty (x ∷ t) h = cc

-- Texts at the head that are empty leave no trace.
unfoldable pub skip_empty : List Text → List Text
skip_empty [] = []
skip_empty (t ∷ ts) = if is_empty t then skip_empty ts else t ∷ ts

-- What `buildQuery` joins: the dataset's conditions, and behind them those of the request.
abbrev pub conditions : List Attribute → List Constraint → List Constraint → List Text
conditions select [] cs = skip_empty (map (request_constraint select) cs)
conditions select (w ∷ ws) cs = map to_string (w ∷ ws) ++ map (request_constraint select) cs

append_first :
    (select : List Attribute) (cs : List Constraint)
    → append_constraints select [] cs
      ≡ join (codes " AND ") (skip_empty (map (request_constraint select) cs))
unfolding append_constraints join skip_empty
append_first select [] = refl
append_first select (c ∷ cs) = elim (Bool-cases (is_empty (request_constraint select c))) [
  | inl e ↦ rw (nil_of_empty _ e) (append_first select cs)
  | inr e ↦ rw e (append_after select _ cs e)
]

-- Behind the dataset's conditions, none of which is empty, stand those of the request.
pub append_constraints-join :
    (select : List Attribute) (ws cs : List Constraint)
    → All (λ c. is_empty (to_string c) ≡ false) ws
    → append_constraints select (where_clause ws) cs
      ≡ join (codes " AND ") (conditions select ws cs)
unfolding where_clause
append_constraints-join select [] cs h = append_first select cs
append_constraints-join select (w ∷ ws) cs h =
    append_after select (to_string w ++ where_rest ws) cs
      (is_empty-append (to_string w) (where_rest ws) h.0)
    ∙ (unfold join in
        rw
          (
            where_rest-eq ws,
            prefix_each-append (codes " AND ") (map to_string ws)
                (map (request_constraint select) cs),
          )
          (append_assoc (to_string w) _ _))

-- With no condition of the request, those of the dataset.
pub where_clause-conditions :
    (select : List Attribute) (ws : List Constraint)
    → where_clause ws ≡ join (codes " AND ") (conditions select ws [])
unfolding skip_empty
where_clause-conditions select [] = where_clause-eq []
where_clause-conditions select (w ∷ ws) =
    where_clause-eq (w ∷ ws) ∙ ap (join (codes " AND ")) (sym (append-nil (map to_string (w ∷ ws))))
