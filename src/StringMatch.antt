-- ===== src/StringMatch.antt =====
-- utils/StringMatch.h and utils/StringMatch.cc: extract from a row, match after match, the groups
-- asked for. Each match is erased from the row, and the loop ends when nothing matches any more.
pub mod Ends
use sql_handler.Outcome.{
  Result, ok, err, internal, internal_fatal, out_of_range, out_of_fuel, ◌>>=◌,
}
use sql_handler.Prelude.{
  ℕ, zero, suc, ◌+◌, Bool, true, false, ◌||◌, Option, none, some, List, [], ◌∷◌, Text, length,
  get_elem?, ◌==◌, if◌then◌else◌,
}
use sql_handler.Regex.{Regex, Pattern, Groups, span_text, erase_span}

-- One group of a match; one that did not take part leaves the string empty.
abbrev pub group_text : Text → Groups → ℕ → Text
group_text row g i = elim (g i) [ none ↦ [] | some s ↦ span_text row s ]

-- The vector `group_vect`.
unfoldable pub group_vect : Text → Groups → List ℕ → List Text
group_vect row g [] = []
group_vect row g (i ∷ is) = group_text row g i ∷ group_vect row g is

-- The groups that were found, in order: the bits of `gr`.
unfoldable pub found_groups : Groups → List ℕ → List ℕ
found_groups g [] = []
found_groups g (i ∷ is) = elim (g i) [ none ↦ found_groups g is | some s ↦ i ∷ found_groups g is ]

-- `matched`: its `map`, as the bits that are set, and its array of as many strings.
pub record Matched : Type 0 where
  pub map : List ℕ
  pub match : List Text

-- `getMap().test(i)`
unfoldable pub map_test : List ℕ → ℕ → Bool
map_test [] i = false
map_test (j ∷ js) i = (j == i) || map_test js i

-- `getMatch(i)`
unfoldable pub get_match : Matched → ℕ → Result Text
get_match m i = elim (get_elem? m.match i) [ none ↦ err internal_fatal | some s ↦ ok s ]

-- `setMatch` for each bit of `gr`.
unfoldable pub new_matched : Text → Groups → List ℕ → Matched
unfolding found_groups group_vect
new_matched row g groups = record {
  map = found_groups g groups;
  match = group_vect row g (found_groups g groups);
}

-- Each loop keeps the row beside the matches, since `row` is a reference.
abbrev pub Matches {ℓ} : Type ℓ → Type ℓ
Matches A = List A × Text

-- A match in front of the later ones.
abbrev pub cons_match {ℓ} : {A : Type ℓ} → A → Result (Matches A) → Result (Matches A)
cons_match a (ok (l, row)) = ok (a ∷ l, row)
cons_match a (err e) = err e

-- `if (gr.any()) ret.push_back(m)`, for the bits of `gr`.
abbrev pub push_matched : List ℕ → Matched → Result (Matches Matched) → Result (Matches Matched)
push_matched [] m rest = rest
push_matched (i ∷ is) m rest = cons_match m rest

module _ (rx : Regex) (pattern' : Pattern) (groups : List ℕ) where
  -- The loop of the version over vectors, with fuel.
  unfoldable pub match_rows : ℕ → Text → Result (Matches (List Text))
  unfolding group_vect
  match_rows zero row = err out_of_fuel
  match_rows (suc fuel) row = elim (rx.exec pattern' row) [
    | none ↦ ok ([], row)
    | some g ↦ elim (g 0) [
      | none ↦ err out_of_range
      | some whole ↦ cons_match (group_vect row g groups) (match_rows fuel (erase_span row whole))
    ]
  ]

  -- `match(regex, n_groups, groups, row)`
  unfoldable pub match_vectors : Text → Result (Matches (List Text))
  unfolding match_rows
  match_vectors row =
      if rx.compiles pattern' then match_rows (suc (length row)) row else err internal

  -- The loop of the version over bit sets.
  unfoldable pub match_set_rows : ℕ → Text → Result (Matches Matched)
  unfolding new_matched
  match_set_rows zero row = err out_of_fuel
  match_set_rows (suc fuel) row = elim (rx.exec pattern' row) [
    | none ↦ ok ([], row)
    | some g ↦ elim (g 0) [
      | none ↦ err out_of_range
      | some whole ↦
          let m = new_matched row g groups in
          push_matched m.map m (match_set_rows fuel (erase_span row whole))
    ]
  ]

  -- `match(regex, groups, row)`
  unfoldable pub match_set : Text → Result (Matches Matched)
  unfolding match_set_rows
  match_set row =
      if rx.compiles pattern' then match_set_rows (suc (length row)) row else err internal
