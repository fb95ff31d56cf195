-- ===== src/Containers/Sections.antt =====
-- The sections of a container, one after the other.
use mathlib.Core.Path.{subst}
use sql_handler.Containers.{Container, reset, end, begin, set_next, section_in_use}
use sql_handler.Dataset.Parts.{Section}
use sql_handler.Outcome.{Result, ok, err, undefined, out_of_fuel}
use sql_handler.Prelude.{
  ℕ, zero, suc, ◌+◌, ◌<◌, ◌≡◌, refl, ap, ◌∙◌, Bool, true, false, not, Option, none, some, List, [],
  ◌∷◌, length, get_elem?, drop, has_any, ltb, if◌then◌else◌, arith,
}

-- The section in use, in front of those that `more` gives.
abbrev pub add_section : Result Section → Result (List Section) → Result (List Section)
add_section (err e) more = err e
add_section (ok s) (err e) = err e
add_section (ok s) (ok rest) = ok (s ∷ rest)

-- What a round adds to the rest of the rounds.
abbrev pub one_more :
    Result Section → Container × Result (List Section) → Container × Result (List Section)
one_more s (c, rest) = (c, add_section s rest)

-- A round, with the rounds behind it.
abbrev pub turn :
    Result Section
    → (Container → Container × Result (List Section))
    → Container × Bool
    → Container × Result (List Section)
turn s next (c, true) = one_more s (next c)
turn s next (c, false) = (c, add_section s (ok []))

-- `do … while (setNext())`, at most `n` rounds: the sections that are in use, and the container behind
-- the loop.
unfoldable pub visit : ℕ → Container → Container × Result (List Section)
visit zero c = (c, err out_of_fuel)
visit (suc n) c = turn (section_in_use c) (visit n) (set_next c)

-- The container at section `i`.
abbrev at_section : Container → ℕ → Container
at_section c i = record c { actual_section = some i }

abbrev after_step : Container → Option ℕ → Container × Bool
after_step c m = (record c { actual_section = m }, not (end (record c { actual_section = m })))

set_next-inside :
    (c : Container) (i : ℕ)
    → suc i < length c.members.dataset
    → set_next (at_section c i) ≡ (at_section c (suc i), true)
unfolding set_next end
set_next-inside c i h = ap (after_step c) (step_inside (length c.members.dataset) h)
  where
    step_inside :
        (n : ℕ) → suc i < n → (if ltb (suc i) n then some (suc i) else none) ≡ some (suc i)
    step_inside n h = ground arith

set_next-last :
    (c : Container) (i : ℕ)
    → suc i ≡ length c.members.dataset
    → set_next (at_section c i) ≡ (record c { actual_section = none }, false)
unfolding set_next end
set_next-last c i h = ap (after_step c) (step_last (length c.members.dataset) h)
  where
    step_last : (n : ℕ) → suc i ≡ n → (if ltb (suc i) n then some (suc i) else none) ≡ none
    step_last n h = ground arith

elem_at :
    (xs : List Section) (i k : ℕ)
    → i + suc k ≡ length xs
    → (s : Section) × (get_elem? xs i ≡ some s) × (drop i xs ≡ s ∷ drop (suc i) xs)
elem_at [] i k h = absurd (omega arith)
elem_at (x ∷ xs) zero k h = (x, refl, refl)
elem_at (x ∷ xs) (suc i) k h = elem_at xs i k (omega arith)

drop_all : (xs : List Section) (i : ℕ) → i ≡ length xs → drop i xs ≡ []
drop_all [] zero h = refl
drop_all [] (suc i) h = refl
drop_all (x ∷ xs) zero h = absurd (omega arith)
drop_all (x ∷ xs) (suc i) h = drop_all xs i (omega arith)

in_use :
    (c : Container) (i : ℕ) (s : Section)
    → get_elem? c.members.dataset i ≡ some s
    → section_in_use (at_section c i) ≡ ok s
unfolding section_in_use
in_use c i s e =
    ap
      (λ (m : Option Section). elim m as (λ x. Result Section) [
        | none ↦ err undefined
        | some t ↦ ok t
      ])
      e

-- From section `i` on.
visit_from :
    (c : Container) (i k : ℕ)
    → i + suc k ≡ length c.members.dataset
    → visit (suc k) (at_section c i)
      ≡ (record c { actual_section = none }, ok (drop i c.members.dataset))
unfolding visit
visit_from c i zero h =
    let (s, e, d) = elem_at c.members.dataset i zero h in
    rw
      (
        in_use c i s e,
        set_next-last c i (omega arith),
        d,
        drop_all c.members.dataset (suc i) (omega arith),
      )
      refl
visit_from c i (suc k) h =
    let (s, e, d) = elem_at c.members.dataset i (suc k) h in
    rw (in_use c i s e, set_next-inside c i (omega arith), d)
      (ap (one_more (ok s)) (visit_from c (suc i) k (omega arith)))

first_section :
    (xs : List Section) → has_any xs ≡ true → (begin xs ≡ some 0) × ((k : ℕ) × (suc k ≡ length xs))
first_section [] h = (cc, absurd (no_section h))
  where
    no_section : false ≡ true → ⊥
    no_section e = cc
first_section (x ∷ xs) h = (refl, (length xs, refl))

-- From `reset()`, for a dataset with a section: a loop that uses the section and goes on while
-- `setNext()` returns true, of as many rounds as there are sections, uses each section of the dataset
-- once, in their order; behind it `end()` is true, and `setNext()` returns false and changes nothing.
pub visit-dataset :
    (c : Container)
    → has_any c.members.dataset ≡ true
    → (d : Container) × (visit (length c.members.dataset) (reset c) ≡ (d, ok c.members.dataset))
      × (end d ≡ true)
      × (set_next d ≡ (d, false))
unfolding reset set_next end
visit-dataset c h =
    let (first, (k, size)) = first_section c.members.dataset h in
    (
      record c { actual_section = none },
      subst (λ n. visit n (reset c) ≡ (record c { actual_section = none }, ok c.members.dataset))
          size
          (ap (λ (m : Option ℕ). visit (suc k) (record c { actual_section = m })) first
            ∙ visit_from c 0 k (omega (arith, size))),
      refl,
      refl,
    )
