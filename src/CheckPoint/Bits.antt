-- ===== src/CheckPoint/Bits.antt =====
-- `check` against the numbers of the configuration.
use sql_handler.CheckPoint.{
  CheckPoint, Parser, check_size, start, allowed, set_bit, set_values, set_lines, init, check,
}
use sql_handler.Outcome.{Result, ok, done}
use sql_handler.Prelude.{
  ℕ, suc, ◌<◌, ◌≡◌, refl, ap, ◌∙◌, Bool, true, false, ◌||◌, ◌&&◌, none, some, List, [], ◌∷◌, Text,
  All, ◌==◌, if◌then◌else◌, arith, Option-cases, Bool-cases, inl, inr,
}
use mathlib.Core.List.{map}

-- The results of a sequence of checks.
unfoldable pub run_checks : CheckPoint → List ℕ → List (Result Bool)
run_checks c [] = []
run_checks c (t ∷ types) = let (c', r) = check c t in r ∷ run_checks c' types

check_again :
    (c : CheckPoint) (t : ℕ) → (t == c.last_type_checked) ≡ true → check c t ≡ (c, ok c.last_status)
unfolding check
check_again c t e = ground (arith, e)

check_first :
    (c : CheckPoint) (t : ℕ)
    → (t == c.last_type_checked) ≡ false
    → t < check_size
    → check c t
      ≡ (record c { last_type_checked = t; last_status = c.function t }, ok (c.function t))
unfolding check
check_first c t e h = ground (arith, e)

-- What the first `init` works on behind its first assignments.
abbrev first_members : CheckPoint
first_members = record {
  is_set = false;
  function = λ n. false;
  last_type_checked = suc check_size;
  last_status = false;
}

module _ (parser : Parser) where
  -- All numbers of a line are allowed.
  unfoldable pub allows : List Text → Bool
  allows [] = true
  allows (j ∷ js) = elim (allowed (parser.atoi j)) [ none ↦ false | some v ↦ allows js ]

  unfoldable pub all_allowed : List Text → Bool
  all_allowed [] = true
  all_allowed (l ∷ lines) = allows (parser.explode l) && all_allowed lines

  -- A number stands in the line.
  unfoldable pub names : ℕ → List Text → Bool
  names t [] = false
  names t (j ∷ js) =
      let rest = names t js in
      elim (allowed (parser.atoi j)) [ none ↦ rest | some v ↦ (if t == v then true else rest) ]

  unfoldable pub configures : ℕ → List Text → Bool
  configures t [] = false
  configures t (l ∷ lines) = names t (parser.explode l) || configures t lines

  -- What a loop has done to the members.
  record SetsBits (c d : CheckPoint) (added : ℕ → Bool) : Type 0 where
    bits : (t : ℕ) → d.function t ≡ (c.function t || added t)
    same_type : d.last_type_checked ≡ c.last_type_checked

  set_values-SetsBits :
      (c : CheckPoint) (js : List Text)
      → allows js ≡ true
      → (d : CheckPoint) × (set_values parser c js ≡ done d) × SetsBits c d (λ t. names t js)
  unfolding set_values allows names
  set_values-SetsBits c [] h = (c, refl, record { bits = λ t. ground arith; same_type = refl })
  set_values-SetsBits c (j ∷ js) h = elim (Option-cases (allowed (parser.atoi j))) [
    | inl e ↦ absurd (ground (arith, e, h))
    | inr (v, e) ↦
        let (d, q, s) = set_values-SetsBits (set_bit v c) js (rw (allows, e) at h) in
        (
          d,
          rw (e, set_values) q,
          record { bits = λ t. ground (arith, e, s.bits t); same_type = s.same_type },
        )
  ]

  set_lines-SetsBits :
      (c : CheckPoint) (lines : List Text)
      → all_allowed lines ≡ true
      → (d : CheckPoint) × (set_lines parser c lines ≡ done d)
        × SetsBits c d (λ t. configures t lines)
  unfolding set_lines all_allowed configures
  set_lines-SetsBits c [] h = (c, refl, record { bits = λ t. ground arith; same_type = refl })
  set_lines-SetsBits c (l ∷ lines) h =
      let (d, q, s) = set_values-SetsBits c (parser.explode l) (ground (arith, h)) in
      let (d', q', s') = set_lines-SetsBits d lines (ground (arith, h)) in
      (
        d',
        rw (q, set_lines) q',
        record {
          bits = λ t. ground (arith, s.bits t, s'.bits t);
          same_type = s'.same_type ∙ s.same_type;
        },
      )

  -- The members hold the bits of the configuration, and the last answer is one of theirs.
  record Coherent (lines : List Text) (c : CheckPoint) : Type 0 where
    bits : (t : ℕ) → c.function t ≡ configures t lines
    answer : c.last_type_checked < check_size → c.last_status ≡ c.function c.last_type_checked

  check-Coherent :
      (lines : List Text) (c : CheckPoint) (t : ℕ)
      → t < check_size
      → Coherent lines c
      → Coherent lines (check c t).0 × ((check c t).1 ≡ ok (configures t lines))
  check-Coherent lines c t h v = elim (Bool-cases (t == c.last_type_checked)) [
    | inl e ↦
        let q : c.last_type_checked ≡ t = ground (arith, e) in
        rw (check_again c t e) (v, ap ok (v.answer (rw q h) ∙ ap c.function q ∙ v.bits t))
    | inr e ↦
        rw (check_first c t e h) (record { bits = v.bits; answer = λ l. refl }, ap ok (v.bits t))
  ]

  run_checks-eq :
      (lines : List Text) (c : CheckPoint) (types : List ℕ)
      → All (λ t. t < check_size) types
      → Coherent lines c
      → run_checks c types ≡ map (λ t. ok (configures t lines)) types
  unfolding run_checks
  run_checks-eq lines c [] h v = refl
  run_checks-eq lines c (t ∷ types) h v =
      let (w, q) = check-Coherent lines c t h.0 v in
      rw (q, run_checks-eq lines (check c t).0 types h.1 w) refl

  -- If all numbers of the configuration are allowed, which are those from 1 to 5, the first `init`
  -- returns, and then each check of a type below 6, in any sequence of them, returns whether the
  -- configuration names the type.
  pub run_checks-init :
      (lines : List Text) (types : List ℕ)
      → all_allowed lines ≡ true
      → All (λ t. t < check_size) types
      → (c : CheckPoint) × (init parser start (some lines) ≡ done c)
        × (run_checks c types ≡ map (λ t. ok (configures t lines)) types)
  unfolding init start
  run_checks-init lines types k h =
      let (d, q, s) = set_lines-SetsBits first_members lines k in
      (
        record d { is_set = true },
        rw (init, q) refl,
        run_checks-eq lines (record d { is_set = true }) types h
            (record { bits = s.bits; answer = λ l. absurd (omega (arith, l, s.same_type)) }),
      )
