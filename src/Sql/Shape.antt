-- ===== src/Sql/Shape.antt =====
-- The query that `buildQuery` returns: columns of the dataset, its FROM text and all its conditions.
use mathlib.Core.List.{Mem, map}
use mathlib.Core.Path.{subst}
use sql_handler.Dataset.Parts.{Section}
use sql_handler.Outcome.{Result, ok, err, >>=-eq-ok, ok-injective, internal_fatal}
use sql_handler.Prelude.{
  ◌≡◌, refl, sym, ◌∙◌, Bool, true, false, List, [], ◌∷◌, ◌++◌, Text, codes, All, is_empty,
  if◌then◌else◌,
}
use sql_handler.Query.{attr_to_select, load_constraints}
use sql_handler.Query.Attributes.{Attribute, position_less}
use sql_handler.Query.Constraints.{Constraint, Placement, to_string}
use sql_handler.Query.Select.{HasNoStar, attr_to_select_sound}
use sql_handler.Regex.{Regex}
use sql_handler.SortedSet.Laws.{IsSorted}
use sql_handler.Sql.{
  where_clause, select_clause, where_text, request_where, build_where, finish_query, build_query,
  comparator_subst, set_left, split_request,
}
use sql_handler.Sql.Comparators.{comparator_subst-done}
use sql_handler.Sql.Where.{
  join, select_clause-eq, append_constraints-join, conditions, where_clause-conditions,
}

-- No condition of the dataset is the empty text.
abbrev pub HasTexts : List Constraint → Type 0
HasTexts ws = All (λ c. is_empty (to_string c) ≡ false) ws

-- The conditions of the request, out of the text behind its attributes.
abbrev pub AreRequested : Result (List Constraint) → Text → List Constraint → Type 0
AreRequested loaded [] rs = rs ≡ []
AreRequested loaded (c ∷ text) rs = loaded ≡ ok rs

-- A WHERE text of the dataset's conditions and the request's.
abbrev Extends : Section → List Constraint → Result (List Constraint) → Text → Text → Type 0
Extends s ws loaded constraints w =
    (rs : List Constraint) × AreRequested loaded constraints rs
    × (w ≡ join (codes " AND ") (conditions s.query.select ws rs))

request_where-Extends :
    (place : Placement) (s : Section) (ws : List Constraint) (loaded : Result (List Constraint))
    (w : Text)
    → HasTexts ws
    → request_where place s loaded (where_clause ws) ≡ ok w
    → (rs : List Constraint) × (loaded ≡ ok rs)
      × (w ≡ join (codes " AND ") (conditions s.query.select ws rs))
unfolding request_where
request_where-Extends place s ws loaded w h e =
    let (cs, e1, r1) = >>=-eq-ok loaded _ e in
    let (ds, e2, r2) = >>=-eq-ok (set_left (comparator_subst place s [] cs)) _ r1 in
    (
      cs,
      e1,
      sym (ok-injective r2)
          ∙ rw (comparator_subst-done place s [] cs ds e2)
              (append_constraints-join s.query.select ws ds h),
    )

module _ (rx : Regex) (place : Placement) where
  build_where-Extends :
      (s : Section) (constraints w : Text)
      → HasTexts s.query.where_set
      → build_where rx place s constraints ≡ ok w
      → Extends s s.query.where_set (load_constraints rx place constraints).0 constraints w
  unfolding build_where
  build_where-Extends s constraints w h e =
      let (ws, e1, r1) = >>=-eq-ok (set_left (comparator_subst place s [] s.query.where_set)) _ e in
      subst (λ l. Extends s l (load_constraints rx place constraints).0 constraints w)
        (sym (comparator_subst-done place s [] _ ws e1))
        (go ws (subst HasTexts (comparator_subst-done place s [] _ ws e1) h) constraints _ r1)
    where
      go :
          (ws : List Constraint)
          → HasTexts ws
          → (text : Text) (loaded : Result (List Constraint))
          → (if is_empty text
              then ok (where_clause ws)
              else request_where place s loaded (where_clause ws))
            ≡ ok w
          → Extends s ws loaded text w
      go ws h [] loaded r =
          ([], refl, sym (ok-injective r) ∙ where_clause-conditions s.query.select ws)
      go ws h (c ∷ text) loaded r = request_where-Extends place s ws loaded w h r

  -- For a section without `*` and with no empty condition, a query that `buildQuery` returns selects
  -- attributes of the section in the order of their positions, from its FROM text, under all of its
  -- conditions and behind them those that are read out of the request from its `&` on, joined by AND.
  pub build_query_shape :
      (s : Section) (buf t : Text)
      → HasNoStar rx s.query
      → HasTexts s.query.where_set
      → build_query rx place s buf ≡ ok t
      → (columns : List Attribute) × (requested : List Constraint) × All
          (λ a. Mem a s.query.select)
          columns
        × IsSorted position_less columns
        × AreRequested
            (load_constraints rx place (split_request buf).1).0
            (split_request buf).1
            requested
        × (t
            ≡ codes "SELECT "
              ++ join (codes ",") (map (λ a. a.attribute) columns)
              ++ codes " FROM "
              ++ s.query.from_part
              ++ where_text
                  (join (codes " AND ") (conditions s.query.select s.query.where_set requested))
              ++ codes ";")
  unfolding build_query finish_query
  build_query_shape s buf t no_star texts e =
      let (attrs, e1, r1) = >>=-eq-ok (attr_to_select rx s.query (split_request buf).0) _ e in
      let (mem, sorted, _) = attr_to_select_sound rx s.query _ attrs no_star e1 in
      let (w, e2, r2) =
        >>=-eq-ok (build_where rx place s (split_request buf).1) _
          (selected attrs (is_empty (select_clause attrs)) r1) in
      let (rs, asked, q) = build_where-Extends s _ w texts e2 in
      (attrs, rs, mem, sorted, asked, sym (ok-injective r2) ∙ rw (select_clause-eq attrs, q) refl)
    where
      selected :
          (attrs : List Attribute) (b : Bool)
          → (if b
              then err internal_fatal
              else finish_query rx place s (select_clause attrs) (split_request buf).1)
            ≡ ok t
          → finish_query rx place s (select_clause attrs) (split_request buf).1 ≡ ok t
      selected attrs true r = cc
      selected attrs false r = r
