-- ===== src/Odbc/Names.antt =====
-- unixODBC/ODBCConnector.cc: the names of the columns, asked for once.
use mathlib.Core.Path.{subst}
use sql_handler.Actions.Errors.{success}
use sql_handler.Call.{resume}
use sql_handler.Odbc.Columns.{
  replicate, set_in, entry, ask_name, load_names, kept_name, fill_names, get_col_name,
}
use sql_handler.Odbc.Filled.{Filled, below, beyond, Filled-set_in, Filled-replicate, entry-Filled}
use sql_handler.Odbc.Messages.{past_notify}
use sql_handler.Odbc.State.{Driver, Connector}
use sql_handler.Outcome.{Result, ok, err, sql_internal_fatal, undefined}
use sql_handler.Prelude.{
  ℕ, zero, suc, ◌+◌, ◌<◌, ◌≤◌, ◌≡◌, refl, sym, ap, ◌∙◌, Option, none, some, List, [], Text, ltb,
  if◌then◌else◌, arith,
}

module _ {W : Type 0} (d : Driver W) (names : ℕ → Text) (n : ℕ) where
  -- The names of the first `k` columns are there.
  abbrev Named : ℕ → Connector W → Type 0
  Named k o = (o.cursor.columns ≡ n) × Filled names k n o.names

  -- A call that returns, with the names of all columns.
  abbrev NamesAll : Connector W × Result (Unit {0}) → Type 0
  NamesAll x = (o' : Connector W) × (x ≡ (o', ok tt)) × Named n o'

  module _ (succeeds : (c : ℕ) (w : W) → (d.col_name (suc c) w).1 ≡ success)
      (is_named : (c : ℕ) (w : W) → (d.col_name (suc c) w).2 ≡ names c) where
    load_names-NamesAll :
        (m k : ℕ) (o : Connector W) → k + m ≡ n → Named k o → NamesAll (load_names d m k o)
    unfolding load_names ask_name
    load_names-NamesAll zero k o h g =
        let e : k ≡ n = omega arith in (o, refl, subst (λ i. Named i o) e g)
    load_names-NamesAll (suc m) k o h g =
        past_notify d NamesAll (ask_name d k o).0 _ (succeeds k o.driver) λ o' same.
          load_names-NamesAll m (suc k)
            (record o' { names = set_in o'.names k (d.col_name (suc k) o.driver).2 }) (omega arith)
            (
              ap (λ c. c.columns) same.cursor ∙ g.0,
              subst (λ t. Filled names (suc k) n (set_in o'.names k t)) (sym (is_named k o.driver))
                  (Filled-set_in names k n o'.names (omega arith)
                    (subst (Filled names k n) (sym same.names) g.1)),
            )

    kept_name-inside :
        (c : ℕ) (o : Connector W) → c < n → Named n o → kept_name d c o ≡ (o, ok (names c))
    unfolding kept_name
    kept_name-inside c o h g = go o.names g.1
      where
        go :
            (a : Option (List Text))
            → Filled names n n a
            → (elim a as (λ y. Connector W × Result Text) [
              | none ↦ (o, err undefined)
              | some ns ↦
                  if ltb c o.cursor.columns then entry ns c o else (o, err sql_internal_fatal)
            ])
              ≡ (o, ok (names c))
        go none k = absurd k
        go (some ns) k =
            ap (λ b. if b then entry ns c o else (o, err sql_internal_fatal))
              (ap (ltb c) g.0 ∙ below c n h)
            ∙ entry-Filled names n ns c o k h

    kept_name-beyond :
        (c : ℕ) (o : Connector W)
        → n ≤ c
        → Named n o
        → kept_name d c o ≡ (o, err sql_internal_fatal)
    unfolding kept_name
    kept_name-beyond c o h g = go o.names g.1
      where
        go :
            (a : Option (List Text))
            → Filled names n n a
            → (elim a as (λ y. Connector W × Result Text) [
              | none ↦ (o, err undefined)
              | some ns ↦
                  if ltb c o.cursor.columns then entry ns c o else (o, err sql_internal_fatal)
            ])
              ≡ (o, err sql_internal_fatal)
        go none k = absurd k
        go (some ns) k =
            ap (λ b. if b then entry ns c o else (o, err sql_internal_fatal))
              (ap (ltb c) g.0 ∙ beyond c n h)

    -- Once the names are there, the array answers.
    get_col_name-kept : (c : ℕ) (o : Connector W) → Named n o → get_col_name d c o ≡ kept_name d c o
    unfolding get_col_name
    get_col_name-kept c o g = go o.names g.1
      where
        go :
            (a : Option (List Text))
            → Filled names n n a
            → (elim a as (λ y. Connector W × Result Text) [
              | some ns ↦ kept_name d c o
              | none ↦
                  if ltb 0 o.cursor.columns then fill_names d c o else (o, err sql_internal_fatal)
            ])
              ≡ kept_name d c o
        go none k = absurd k
        go (some ns) k = refl

    -- The first call fills the array.
    get_col_name-fills :
        (c : ℕ) (o : Connector W)
        → o.names ≡ none
        → c < n
        → o.cursor.columns ≡ n
        → (o' : Connector W) × (get_col_name d c o ≡ (o', ok (names c))) × Named n o'
    unfolding get_col_name fill_names
    get_col_name-fills c o e h hc =
        let start = record o { names = some (replicate o.cursor.columns []) } in
        let fill : Connector W × Result (Unit {0}) = load_names d o.cursor.columns 0 start in
        let filled : NamesAll fill =
          load_names-NamesAll o.cursor.columns 0 start (omega (arith, hc)) (
            hc,
            subst (λ m. Filled names 0 m start.names) hc
                (Filled-replicate names o.cursor.columns []),
          ) in
        (
          filled.0,
          ap
                (λ (m : Option (List Text)). elim m as (λ y. Connector W × Result Text) [
                  | some ns ↦ kept_name d c o
                  | none ↦
                      if ltb 0 o.cursor.columns
                      then fill_names d c o
                      else (o, err sql_internal_fatal)
                ])
                e
              ∙ ap (λ b. if b then fill_names d c o else (o, err sql_internal_fatal))
                  (below 0 o.cursor.columns (omega (arith, h, hc)))
              ∙ ap (λ x. resume x λ u. kept_name d c) filled.1
              ∙ kept_name-inside c filled.0 h filled.2,
          filled.2,
        )

-- Let the library give each column a name, with SQL_SUCCESS. For a connector that has no names yet,
-- and a column that it has: `getColName` returns the library's name of the column; and after that
-- it returns the library's name of every column, and throws `SQLInternalFatalError` behind the last
-- column, without another call of the library.
pub get_col_name-names :
    {W : Type 0} (d : Driver W) (names : ℕ → Text)
    → ((c : ℕ) (w : W) → (d.col_name (suc c) w).1 ≡ success)
    → ((c : ℕ) (w : W) → (d.col_name (suc c) w).2 ≡ names c)
    → (o : Connector W) (first : ℕ) → o.names ≡ none
    → first < o.cursor.columns
    → (o' : Connector W) × (get_col_name d first o ≡ (o', ok (names first)))
      × ((c : ℕ) → c < o.cursor.columns → get_col_name d c o' ≡ (o', ok (names c)))
      × ((c : ℕ) → o.cursor.columns ≤ c → get_col_name d c o' ≡ (o', err sql_internal_fatal))
get_col_name-names d names s i o first e h =
    let n = o.cursor.columns in
    let (o', e', g) = get_col_name-fills d names n s i first o e h refl in
    (
      o',
      e',
      λ c l. get_col_name-kept d names n s i c o' g ∙ kept_name-inside d names n s i c o' l g,
      λ c l. get_col_name-kept d names n s i c o' g ∙ kept_name-beyond d names n s i c o' l g,
    )
