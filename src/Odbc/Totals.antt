-- ===== src/Odbc/Totals.antt =====
-- unixODBC/ODBCConnector.cc: what `getColSize` gives for a number.
use sql_handler.Odbc.Filled.{below, beyond}
use sql_handler.Outcome.{Result, ok, err, sql_internal}
use sql_handler.Prelude.{
  ℕ, zero, suc, ◌+◌, ◌<◌, ◌≡◌, refl, ap, ◌∙◌, true, false, ◌==◌, ltb, if◌then◌else◌, arith,
}

-- The first `k` values together.
abbrev pub total : (ℕ → ℕ) → ℕ → ℕ
total f zero = 0
total f (suc k) = total f k + f k

equal : (c n : ℕ) → c ≡ n → (c == n) ≡ true
equal c n h = ground arith

unequal : (c n : ℕ) → c < n → (c == n) ≡ false
unequal c n h = ground arith

unequal_beyond : (c n : ℕ) → n < c → (c == n) ≡ false
unequal_beyond c n h = ground arith

module _ (sizes : ℕ → ℕ) (n : ℕ) where
  -- What the sizes give for a column, or behind the last one.
  abbrev pub sizes_answer : ℕ → Result ℕ
  sizes_answer c =
      if c == n then ok (total sizes n) else if ltb c n then ok (sizes c) else err sql_internal

  pub answer_inside : (c : ℕ) → c < n → sizes_answer c ≡ ok (sizes c)
  answer_inside c h =
      ap (λ b. if b then ok (total sizes n) else if ltb c n then ok (sizes c) else err sql_internal)
        (unequal c n h)
      ∙ ap (λ b. if b then ok (sizes c) else err sql_internal) (below c n h)

  pub answer_at : sizes_answer n ≡ ok (total sizes n)
  answer_at =
      ap (λ b. if b then ok (total sizes n) else if ltb n n then ok (sizes n) else err sql_internal)
        (equal n n refl)

  pub answer_beyond : (c : ℕ) → n < c → sizes_answer c ≡ err sql_internal
  answer_beyond c h =
      ap (λ b. if b then ok (total sizes n) else if ltb c n then ok (sizes c) else err sql_internal)
        (unequal_beyond c n h)
      ∙ ap (λ b. if b then ok (sizes c) else err sql_internal) (beyond c n (omega (arith, h)))
