-- ===== src/Tests/Sample.antt =====
-- A matcher for the tests that does of each pattern what short texts need.
use sql_handler.Dataset.Substitution.{FindsVariables, dollars}
use sql_handler.Prelude.{
  ℕ, zero, suc, ◌+◌, ◌-◌, ◌<◌, ◌≡◌, Bool, true, false, Option, none, some, List, [], ◌∷◌, Text,
  codes, take, drop, length, length-drop, text_eq, if◌then◌else◌, ◌==◌, ◌||◌, Bool-cases,
  Option-cases, inl, inr, ap, sym, arith,
}
use sql_handler.Regex.{Regex, Pattern, Groups, Span, InText, span_text, cont_reg_attr}
use sql_handler.StringMatch.Ends.{FindsText}

-- The first place of a character.
abbrev pub first_at : ℕ → Text → Option ℕ
first_at c [] = none
first_at c (x ∷ s) =
    if x == c then some 0 else elim (first_at c s) [ none ↦ none | some i ↦ some (suc i) ]

first_at_lem :
    (c : ℕ) (s : Text) (i : ℕ)
    → first_at c s ≡ some i
    → (i < length s) × (drop i s ≡ c ∷ drop (suc i) s)
first_at_lem c [] i h = cc
first_at_lem c (x ∷ s) zero h =
    let q : x ≡ c = elim (Bool-cases (x == c)) [
      | inl e ↦ ground (arith, e)
      | inr e ↦ absurd (elim (Option-cases (first_at c s)) [
        | inl k ↦ ground (arith, e, k, h)
        | inr (j, k) ↦ ground (arith, e, k, h)
      ])
    ] in
    (omega arith, ap (λ y. y ∷ s) q)
first_at_lem c (x ∷ s) (suc i) h =
    let q : first_at c s ≡ some i = elim (Option-cases (first_at c s)) [
      | inl k ↦ ground (arith, k, h)
      | inr (j, k) ↦ ground (arith, k, h)
    ] in
    let (a, b) = first_at_lem c s i q in (omega arith, b)

abbrev pub has : ℕ → List ℕ → Bool
has i [] = false
has i (j ∷ js) = (i == j) || has i js

-- A text that is not empty, whole, as the groups given.
abbrev pub whole : List ℕ → Text → Option Groups
whole is [] = none
whole is (c ∷ s) = some λ i. if has i is then some (0, length (c ∷ s)) else none

-- A text that starts with `c`, whole, as the groups 0 and 1.
abbrev pub marked : ℕ → Text → Option Groups
marked c [] = none
marked c (x ∷ s) = if x == c then whole (0 ∷ 1 ∷ []) (x ∷ s) else none

-- The first `$`, to the next.
abbrev pub variable_groups : Text → Option Groups
variable_groups s = elim (first_at b'$' s) [
  | none ↦ none
  | some i ↦ elim (first_at b'$' (drop (suc i) s)) [
    | none ↦ none
    | some j ↦ some λ k. if k == 0 || k == 1 then some (i, i + suc (suc j)) else none
  ]
]

-- Up to the first comma.
abbrev pub item_groups : Text → Option Groups
item_groups [] = none
item_groups (c ∷ s) = elim (first_at b',' (c ∷ s)) [
  | none ↦ some λ k. if k == 0 || k == 2 then some (0, length (c ∷ s)) else none
  | some i ↦ some λ k. if k == 0 then some (0, suc i) else if k == 2 then some (0, i) else none
]

-- What stands before and behind a `=`, as the groups `b` and `e`, and the `=` as group `m`.
abbrev pub equation : ℕ → ℕ → ℕ → Text → Option Groups
equation b m e s = elim (first_at b'=' s) [
  | none ↦ none
  | some i ↦ some λ k.
      if k == 0
      then some (0, length s)
      else if k == b
      then some (0, i)
      else if k == m
      then some (i, suc i)
      else if k == e
      then some (suc i, length s)
      else none
]

abbrev pub sample_exec : Pattern → Text → Option Groups
sample_exec Pattern.reg_var s = variable_groups s
sample_exec Pattern.reg_defvar s = none
sample_exec Pattern.reg_comments s = marked b'#' s
sample_exec Pattern.reg_tags s = marked b'[' s
sample_exec Pattern.reg_key_val s = equation 1 9 2 s
sample_exec Pattern.reg_attr s =
    if text_eq s (codes "*") then whole (0 ∷ 9 ∷ []) s else whole (0 ∷ 1 ∷ 3 ∷ []) s
sample_exec Pattern.cont_reg_attr s = item_groups s
sample_exec Pattern.cont_reg_constr_base s = equation 1 4 5 s

abbrev pub sample : Regex
sample = record { compiles = λ p. true; exec = sample_exec }

abbrev group_of : Option Groups → ℕ → Option Span
group_of none k = none
group_of (some g) k = g k

group_at : (o : Option Groups) (g : Groups) (k : ℕ) → o ≡ some g → g k ≡ group_of o k
group_at o g k h = ap (λ p. group_of p k) (sym h)

not_none {ℓ} : {P : Type ℓ} (g : Groups) → none ≡ some g → P
not_none g h = cc

pub sample-FindsText : FindsText sample cont_reg_attr
sample-FindsText = record { whole = go }
  where
    go :
        (s : Text) (g : Groups)
        → item_groups s ≡ some g
        → (w : Span) × (g 0 ≡ some w) × InText s w × (w.0 < w.1)
    go [] g h = cc
    go (c ∷ s) g h = elim (Option-cases (first_at b',' (c ∷ s))) [
      | inl e ↦ (
        (0, length (c ∷ s)),
        rw (group_of, item_groups, e) at (group_at (item_groups (c ∷ s)) g 0 h),
        (omega arith, omega arith),
        omega arith,
      )
      | inr (i, e) ↦ (
        (0, suc i),
        rw (group_of, item_groups, e) at (group_at (item_groups (c ∷ s)) g 0 h),
        (omega arith, omega (arith, (first_at_lem b',' (c ∷ s) i e).0)),
        omega arith,
      )
    ]

starts_dollar : (n : ℕ) (s : Text) → 0 < dollars (take (suc n) (b'$' ∷ s))
unfolding dollars
starts_dollar n s = omega arith

opening :
    (s : Text) (i j : ℕ)
    → drop i s ≡ b'$' ∷ drop (suc i) s
    → 0 < dollars (span_text s (i, i + suc (suc j)))
opening s i j h =
    let q : i + suc (suc j) - i ≡ suc (suc j) = omega arith in
    rw (span_text, q, h) (starts_dollar (suc j) (drop (suc i) s))

pub sample-FindsVariables : FindsVariables sample
sample-FindsVariables = record { group = go }
  where
    go :
        (s : Text) (g : Groups)
        → variable_groups s ≡ some g
        → (w : Span) × (g 1 ≡ some w) × InText s w × (0 < dollars (span_text s w))
    go s g h = elim (Option-cases (first_at b'$' s)) [
      | inl e ↦ not_none g (rw (variable_groups, e) at h)
      | inr (i, e) ↦ elim (Option-cases (first_at b'$' (drop (suc i) s))) [
        | inl k ↦ not_none g (rw (variable_groups, e, k) at h)
        | inr (j, k) ↦ (
          (i, i + suc (suc j)),
          rw (group_of, variable_groups, e, k) at (group_at (variable_groups s) g 1 h),
          (
            omega arith,
            omega (
              arith,
              (first_at_lem b'$' s i e).0,
              (first_at_lem b'$' (drop (suc i) s) j k).0,
              length-drop (suc i) s,
            ),
          ),
          opening s i j (first_at_lem b'$' s i e).1,
        )
      ]
    ]
