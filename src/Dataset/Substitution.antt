-- ===== src/Dataset/Substitution.antt =====
-- `variableSubstitution`, and the loop of `read` that calls it.
use sql_handler.Dataset.Rows.{variable_substitution}
use sql_handler.Outcome.{Result, ok, err, internal}
use sql_handler.Prelude.{
  ℕ, zero, suc, ◌+◌, ◌-◌, ◌≤◌, ◌<◌, ◌≡◌, refl, ap, ◌↔◌, none, some, List, [], ◌∷◌, ◌++◌, Text,
  TextMap, take, drop, length, length-append, length-take, length-drop, lookup, arith, ◌==◌,
  if◌then◌else◌,
}
use sql_handler.Regex.{Regex, Groups, Span, InText, span_text, substr, reg_var}

take_all {ℓ} : {A : Type ℓ} (n : ℕ) (xs : List A) → length xs ≤ n → take n xs ≡ xs
take_all zero [] h = refl
take_all zero (x ∷ xs) h = absurd (omega arith)
take_all (suc n) [] h = refl
take_all (suc n) (x ∷ xs) h = ap (◌∷◌ x) (take_all n xs (omega arith))

length-spliced : (a b c : Text) → length (a ++ b ++ c) ≡ length a + length b + length c
length-spliced a b c = omega (arith, length-append (a ++ b) c, length-append a b)

abbrev text_length : Result Text → ℕ
text_length (ok t) = length t
text_length (err e) = 0

-- A variable that is defined is replaced by its value, and the text behind it is kept, exactly if
-- that text is no longer than the variable.
pub variable_substitution_exact :
    (vars : TextMap Text) (row : Text) (so eo : ℕ) (value : Text)
    → InText row (so, eo)
    → lookup (span_text row (so, eo)) vars ≡ some value
    → (variable_substitution vars row (some (so, eo)) ≡ ok (take so row ++ value ++ drop eo row))
      ↔ (length row - eo ≤ eo - so)
unfolding variable_substitution
variable_substitution_exact vars row so eo value v e = (
  λ q. omega (
    arith,
    ap text_length (rw (e, variable_substitution) at q),
    length-spliced (take so row) value (substr row eo (eo - so)),
    length-spliced (take so row) value (drop eo row),
    length-take (eo - so) (drop eo row),
    length-drop eo row,
  ),
  λ h.
      rw
        (
          e,
          variable_substitution,
          take_all (eo - so) (drop eo row) (omega (arith, length-drop eo row)),
        )
        refl,
)

-- How often `$` stands in a text.
unfoldable pub dollars : Text → ℕ
dollars [] = 0
dollars (c ∷ s) = if c == b'$' then suc (dollars s) else dollars s

-- No value of the map holds a `$`.
pub record ValuesArePlain (vars : TextMap Text) : Type 0 where
  pub plain : (k v : Text) → lookup k vars ≡ some v → dollars v ≡ 0

-- What the C library documents of `regexec` for the pattern `(\\$[A-z,0-9]*\\$)`: group 1 lies in the
-- text, and holds a `$`.
pub record FindsVariables (rx : Regex) : Type 0 where
  pub group :
      (s : Text) (g : Groups)
      → rx.exec reg_var s ≡ some g
      → (w : Span) × (g 1 ≡ some w) × InText s w × (0 < dollars (span_text s w))

-- No variable is left in the row; or one of them was not defined.
abbrev pub Resolves : Regex → Result Text → Type 0
Resolves rx (ok row) = rx.exec reg_var row ≡ none
Resolves rx (err e) = e ≡ internal
