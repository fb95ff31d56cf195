-- ===== src/StringMatch/Ends.antt =====
-- The matching loops end, and leave a row that the pattern does not match.
use sql_handler.Outcome.{Result, ok}
use sql_handler.Prelude.{
  ℕ, zero, suc, ◌+◌, ◌-◌, ◌≤◌, ◌<◌, ◌≡◌, refl, true, Option, none, some, List, [], ◌∷◌, Text,
  length, take, drop, length-append, length-take, length-drop, arith,
}
use sql_handler.Regex.{Regex, Pattern, Groups, Span, InText, erase_span}
use sql_handler.StringMatch.{
  Matches, Matched, group_vect, match_rows, match_vectors, new_matched, push_matched,
  match_set_rows, match_set,
}

-- What the C library documents of `regexec`, and what the source relies on: group 0 is the whole
-- match, it lies in the text, and these patterns match no empty text.
pub record FindsText (rx : Regex) (p : Pattern) : Type 0 where
  pub whole :
      (s : Text) (g : Groups)
      → rx.exec p s ≡ some g
      → (w : Span) × (g 0 ≡ some w) × InText s w × (w.0 < w.1)

length-erase_span :
    (s : Text) (w : Span) → InText s w → w.0 < w.1 → length (erase_span s w) < length s
length-erase_span s (so, eo) v h = omega (
  arith,
  length-append (take so s) (drop (so + (eo - so)) s),
  length-take so s,
  length-drop (so + (eo - so)) s,
)

-- The loop returned, with a remainder that the pattern does not match; every match took at least one
-- character.
abbrev pub Consumed {ℓ} : {A : Type ℓ} → Regex → Pattern → Text → Result (Matches A) → Type ℓ
Consumed {A} rx p row r =
    (l : List A) × (rest : Text) × (r ≡ ok (l, rest))
    × (rx.exec p rest ≡ none)
    × (length l + length rest ≤ length row)

push_Consumed :
    (rx : Regex) (p : Pattern) (is : List ℕ) (m : Matched) (row row' : Text)
    (r : Result (Matches Matched))
    → length row' < length row
    → Consumed rx p row' r
    → Consumed rx p row (push_matched is m r)
push_Consumed rx p [] m row row' r h (l, rest, eq, last, bound) = (l, rest, eq, last, omega arith)
push_Consumed rx p (i ∷ is) m row row' r h (l, rest, eq, last, bound) =
    (m ∷ l, rest, rw eq, last, omega arith)

module _ (rx : Regex) (p : Pattern) (groups : List ℕ) (finds : FindsText rx p) where
  match_rows-Consumed :
      (fuel : ℕ) (row : Text)
      → length row < fuel
      → Consumed rx p row (match_rows rx p groups fuel row)
  unfolding match_rows
  match_rows-Consumed zero row h = elim h [ ]
  match_rows-Consumed (suc fuel) row h =
      go (rx.exec p row) refl (λ row' k. match_rows-Consumed fuel row' (omega arith))
    where
      go :
          (o : Option Groups)
          → rx.exec p row ≡ o
          → ((row' : Text)
              → length row' < length row
              → Consumed rx p row' (match_rows rx p groups fuel row'))
          → Consumed rx p row (match_rows rx p groups (suc fuel) row)
      go none e ih = ([], row, rw (e, match_rows) refl, e, omega arith)
      go (some g) e ih =
          let (w, gw, v, pos) = finds.whole row g e in
          let short = length-erase_span row w v pos in
          let (l, rest, eq, last, bound) = ih (erase_span row w) short in
          (group_vect row g groups ∷ l, rest, rw (e, match_rows, gw, eq) refl, last, omega arith)

  -- For a pattern that compiles, that `regexec` finds only inside the text and never as an empty
  -- match, `match` over vectors returns: the fuel is enough. What it leaves of the row does not match
  -- the pattern, and is shorter than the row by at least one character for each match.
  pub match_vectors-Consumed :
      (row : Text) → rx.compiles p ≡ true → Consumed rx p row (match_vectors rx p groups row)
  unfolding match_vectors
  match_vectors-Consumed row c = rw c (match_rows-Consumed (suc (length row)) row (omega arith))

  match_set_rows-Consumed :
      (fuel : ℕ) (row : Text)
      → length row < fuel
      → Consumed rx p row (match_set_rows rx p groups fuel row)
  unfolding match_set_rows
  match_set_rows-Consumed zero row h = elim h [ ]
  match_set_rows-Consumed (suc fuel) row h =
      go (rx.exec p row) refl (λ row' k. match_set_rows-Consumed fuel row' (omega arith))
    where
      go :
          (o : Option Groups)
          → rx.exec p row ≡ o
          → ((row' : Text)
              → length row' < length row
              → Consumed rx p row' (match_set_rows rx p groups fuel row'))
          → Consumed rx p row (match_set_rows rx p groups (suc fuel) row)
      go none e ih = ([], row, rw (e, match_set_rows) refl, e, omega arith)
      go (some g) e ih =
          let (w, gw, v, pos) = finds.whole row g e in
          let short = length-erase_span row w v pos in
          rw (e, match_set_rows, gw)
            (let m = new_matched row g groups in
              push_Consumed rx p m.map m row (erase_span row w) _ short
                (ih (erase_span row w) short))

  -- For a pattern that compiles, that `regexec` finds only inside the text and never as an empty
  -- match, `match` over bit sets returns: the fuel is enough. What it leaves of the row does not match
  -- the pattern, and is shorter than the row by at least one character for each match in the list.
  pub match_set-Consumed :
      (row : Text) → rx.compiles p ≡ true → Consumed rx p row (match_set rx p groups row)
  unfolding match_set
  match_set-Consumed row c = rw c (match_set_rows-Consumed (suc (length row)) row (omega arith))
