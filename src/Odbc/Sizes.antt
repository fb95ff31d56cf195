-- ===== src/Odbc/Sizes.antt =====
-- unixODBC/ODBCConnector.cc: the sizes of the columns, and of a row.
use mathlib.Core.Path.{subst}
use sql_handler.Actions.Errors.{success}
use sql_handler.Call.{resume}
use sql_handler.Odbc.Columns.{
  replicate, set_in, entry, ask_length, load_sizes, kept_size, fill_sizes, get_col_size,
}
use sql_handler.Odbc.Filled.{Filled, below, Filled-set_in, Filled-replicate, entry-Filled}
use sql_handler.Odbc.Messages.{past_notify}
use sql_handler.Odbc.State.{Driver, Connector, length_of}
use sql_handler.Odbc.Totals.{total, sizes_answer, answer_inside, answer_at, answer_beyond}
use sql_handler.Outcome.{Result, ok, err, sql_internal, undefined}
use sql_handler.Prelude.{
  ℕ, zero, suc, ◌+◌, ◌^◌, ◌<◌, ◌≡◌, refl, sym, ap, ◌∙◌, true, false, Bool, Option, none, some, List,
  ◌==◌, ltb, if◌then◌else◌, arith,
}

module _ {W : Type 0} (d : Driver W) (sizes : ℕ → ℕ) (n : ℕ) where
  -- The sizes of the first `k` columns are there, and added up.
  abbrev Measured : ℕ → Connector W → Type 0
  Measured k o = (o.cursor.columns ≡ n) × Filled sizes k n o.sizes × (o.row_size ≡ total sizes k)

  -- A call that returns, with the sizes of all columns.
  abbrev MeasuresAll : Connector W × Result (Unit {0}) → Type 0
  MeasuresAll x = (o' : Connector W) × (x ≡ (o', ok tt)) × Measured n o'

  module _ (succeeds : (c : ℕ) (w : W) → (d.col_measure length_of (suc c) w).1 ≡ success)
      (is_size : (c : ℕ) (w : W) → (d.col_measure length_of (suc c) w).2 ≡ sizes c) where
    load_sizes-MeasuresAll :
        (m k : ℕ) (o : Connector W) → k + m ≡ n → Measured k o → MeasuresAll (load_sizes d m k o)
    unfolding load_sizes ask_length
    load_sizes-MeasuresAll zero k o h g =
        let e : k ≡ n = omega arith in (o, refl, subst (λ i. Measured i o) e g)
    load_sizes-MeasuresAll (suc m) k o h g =
        past_notify d MeasuresAll (ask_length d k o).0 _ (succeeds k o.driver) λ o' same.
          let size = (d.col_measure length_of (suc k) o.driver).2 in
          load_sizes-MeasuresAll m (suc k)
            (record o' { sizes = set_in o'.sizes k size; row_size = o'.row_size + size })
            (omega arith)
            (
              ap (λ c. c.columns) same.cursor ∙ g.0,
              subst (λ t. Filled sizes (suc k) n (set_in o'.sizes k t)) (sym (is_size k o.driver))
                  (Filled-set_in sizes k n o'.sizes (omega arith)
                    (subst (Filled sizes k n) (sym same.sizes) g.1)),
              omega (arith, same.row_size, g.2, is_size k o.driver),
            )

    kept_size-sizes :
        (c : ℕ) (o : Connector W) → Measured n o → kept_size d c o ≡ (o, sizes_answer sizes n c)
    unfolding kept_size
    kept_size-sizes c o g = go o.sizes g.1
      where
        among :
            (xs : List ℕ) (b : Bool)
            → ltb c n ≡ b
            → Filled sizes n n (some xs)
            → (if b then entry xs c o else (o, err sql_internal))
              ≡ (o, if b then ok (sizes c) else err sql_internal)
        among xs true e k = entry-Filled sizes n xs c o k (ground (arith, e))
        among xs false e k = refl

        by_row :
            (xs : List ℕ) (b : Bool)
            → Filled sizes n n (some xs)
            → (if b
                then (o, ok o.row_size)
                else if ltb c n
                then entry xs c o
                else (o, err sql_internal))
              ≡ (
                o,
                if b
                    then ok (total sizes n)
                    else if ltb c n
                    then ok (sizes c)
                    else err sql_internal,
              )
        by_row xs true k = ap (λ m. (o, ok m)) g.2
        by_row xs false k = among xs (ltb c n) refl k

        go :
            (a : Option (List ℕ))
            → Filled sizes n n a
            → (elim a as (λ y. Connector W × Result ℕ) [
              | none ↦ (o, err undefined)
              | some xs ↦
                  if c == o.cursor.columns
                  then (o, ok o.row_size)
                  else if ltb c o.cursor.columns
                  then entry xs c o
                  else (o, err sql_internal)
            ])
              ≡ (o, sizes_answer sizes n c)
        go none k = absurd k
        go (some xs) k =
            ap
              (λ m.
                if c == m
                then (o, ok o.row_size)
                else if ltb c m
                then entry xs c o
                else (o, err sql_internal))
              g.0
            ∙ by_row xs (c == n) k

    -- Once the sizes are there, the array answers.
    get_col_size-kept :
        (c : ℕ) (o : Connector W) → Measured n o → get_col_size d c o ≡ (o, sizes_answer sizes n c)
    unfolding get_col_size
    get_col_size-kept c o g = go o.sizes g.1 ∙ kept_size-sizes c o g
      where
        go :
            (a : Option (List ℕ))
            → Filled sizes n n a
            → (elim a as (λ y. Connector W × Result ℕ) [
              | some xs ↦ kept_size d c o
              | none ↦ if ltb 0 o.cursor.columns then fill_sizes d c o else (o, err sql_internal)
            ])
              ≡ kept_size d c o
        go none k = absurd k
        go (some xs) k = refl

    -- The first call fills the array.
    get_col_size-fills :
        (c : ℕ) (o : Connector W)
        → o.sizes ≡ none
        → o.row_size ≡ 0
        → 0 < n
        → o.cursor.columns ≡ n
        → (o' : Connector W) × (get_col_size d c o ≡ (o', sizes_answer sizes n c)) × Measured n o'
    unfolding get_col_size fill_sizes
    get_col_size-fills c o e z h hc =
        let start = record o { sizes = some (replicate o.cursor.columns 0) } in
        let fill : Connector W × Result (Unit {0}) = load_sizes d o.cursor.columns 0 start in
        let filled : MeasuresAll fill =
          load_sizes-MeasuresAll o.cursor.columns 0 start (omega (arith, hc)) (
            hc,
            subst (λ m. Filled sizes 0 m start.sizes) hc
                (Filled-replicate sizes o.cursor.columns 0),
            z,
          ) in
        (
          filled.0,
          ap
                (λ (m : Option (List ℕ)). elim m as (λ y. Connector W × Result ℕ) [
                  | some xs ↦ kept_size d c o
                  | none ↦
                      if ltb 0 o.cursor.columns then fill_sizes d c o else (o, err sql_internal)
                ])
                e
              ∙ ap (λ b. if b then fill_sizes d c o else (o, err sql_internal))
                  (below 0 o.cursor.columns (omega (arith, h, hc)))
              ∙ ap (λ x. resume x λ u. kept_size d c) filled.1
              ∙ kept_size-sizes c filled.0 filled.2,
          filled.2,
        )

-- Let the library give each column a length that is not negative, with SQL_SUCCESS, and let the sum
-- of the lengths be a number of SQLLEN, which has 64 bits. For a connector that has columns, no
-- sizes yet, and the row size 0: any first call of `getColSize` loads the sizes. From then on, and
-- for the first call too, it returns the library's length for each column, their sum for the number
-- of columns, and throws `SQLInternalError` for a greater number, without another call of the
-- library.
pub get_col_size-total :
    {W : Type 0} (d : Driver W) (sizes : ℕ → ℕ)
    → ((c : ℕ) (w : W) → (d.col_measure length_of (suc c) w).1 ≡ success)
    → ((c : ℕ) (w : W) → (d.col_measure length_of (suc c) w).2 ≡ sizes c)
    → (o : Connector W) (first : ℕ) → o.sizes ≡ none
    → o.row_size ≡ 0
    → 0 < o.cursor.columns
    → total sizes o.cursor.columns < 2 ^ 63
    → (o' : Connector W) × (get_col_size d first o ≡ get_col_size d first o')
      × ((c : ℕ) → c < o.cursor.columns → get_col_size d c o' ≡ (o', ok (sizes c)))
      × (get_col_size d o.cursor.columns o' ≡ (o', ok (total sizes o.cursor.columns)))
      × ((c : ℕ) → o.cursor.columns < c → get_col_size d c o' ≡ (o', err sql_internal))
get_col_size-total d sizes s i o first e z h fits =
    let n = o.cursor.columns in
    let (o', e', g) = get_col_size-fills d sizes n s i first o e z h refl in
    let kept = λ (c : ℕ). get_col_size-kept d sizes n s i c o' g in
    (
      o',
      e' ∙ sym (kept first),
      λ c l. kept c ∙ ap (λ r. (o', r)) (answer_inside sizes n c l),
      kept n ∙ ap (λ r. (o', r)) (answer_at sizes n),
      λ c l. kept c ∙ ap (λ r. (o', r)) (answer_beyond sizes n c l),
    )
