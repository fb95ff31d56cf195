-- ===== src/Odbc/Opening.antt =====
-- A query that is opened on a library that answers: the connector stands in front of the first cell.
use mathlib.Core.Path.{subst}
use sql_handler.Odbc.Columns.{
  replicate, entry, load_types, load_sizes, fill_types, fill_sizes, kept_type, get_type, kept_size,
  get_col_size,
}
use sql_handler.Odbc.Opens.{Opens, Answers, resume-Answers, load_types-Answers, load_sizes-Answers}
use sql_handler.Odbc.Arrays.{Sized, Sized-maybe, entry_in, length-replicate}
use sql_handler.Odbc.Serves.{Serves}
use sql_handler.Odbc.State.{Driver, Connector, Pointer}
use sql_handler.Odbc.Table.{Table}
use sql_handler.Odbc.Types.{CType, unset}
use sql_handler.Outcome.{Result, ok, err, undefined, sql_internal}
use sql_handler.Prelude.{
  ℕ, ◌<◌, ◌≡◌, refl, sym, ◌∙◌, Bool, true, false, Option, none, some, List, if◌then◌else◌, ltb,
  ◌==◌, arith,
}

ltb-true : (a b n : ℕ) → a < n → b ≡ n → ltb a b ≡ true
ltb-true a b n h e = ground arith

ne_of_lt : (a b n : ℕ) → a < n → b ≡ n → (a == b) ≡ false
ne_of_lt a b n h e = ground arith

module _ {W : Type 0} (d : Driver W) (t : Table) (v : Serves d t) where
  weaken :
      {bufs : List Pointer} {b c : Bool} (o : Connector W)
      → Opens d t v bufs b c o
      → Opens d t v bufs false false o
  weaken {bufs} {b} {c} o k = record {
    succeeded = k.succeeded;
    columns = k.columns;
    rows = k.rows;
    bound = k.bound;
    room = k.room;
    at_start = k.at_start;
    types_fit = Sized-maybe t.cols b o.types k.types_fit;
    sizes_fit = Sized-maybe t.cols c o.sizes k.sizes_fit;
  }

  weaken-Answers :
      {A : Type 0} (bufs : List Pointer) (b c : Bool) (r : Connector W × Result A)
      → Answers d t v bufs b c r
      → Answers d t v bufs false false r
  weaken-Answers bufs b c r (o, a, e, k) = (o, a, e, weaken o k)

  module _ (bufs : List Pointer) (column : ℕ) (h : column < t.cols) where
    kept_type-Answers :
        (b : Bool) (o : Connector W)
        → Opens d t v bufs true b o
        → Answers d t v bufs true b (kept_type d column o)
    unfolding kept_type
    kept_type-Answers b o k = go o.types k.types_fit
      where
        go :
            (m : Option (List CType))
            → Sized t.cols true m
            → Answers d t v {A = CType} bufs true b (elim m [
              | none ↦ (o, err undefined)
              | some ts ↦
                  if ltb column o.cursor.columns then entry ts column o else (o, err sql_internal)
            ])
        go none f = absurd f
        go (some ts) f =
            let (a, q) = entry_in ts column o (omega (arith, f)) in
            (o, a, rw (ltb-true column o.cursor.columns t.cols h k.columns) q, k)

    kept_size-Answers :
        (b : Bool) (o : Connector W)
        → Opens d t v bufs b true o
        → Answers d t v bufs b true (kept_size d column o)
    unfolding kept_size
    kept_size-Answers b o k = go o.sizes k.sizes_fit
      where
        go :
            (m : Option (List ℕ))
            → Sized t.cols true m
            → Answers d t v {A = ℕ} bufs b true (elim m [
              | none ↦ (o, err undefined)
              | some sizes ↦
                  if column == o.cursor.columns
                  then (o, ok o.row_size)
                  else if ltb column o.cursor.columns
                  then entry sizes column o
                  else (o, err sql_internal)
            ])
        go none f = absurd f
        go (some ts) f =
            let (a, q) = entry_in ts column o (omega (arith, f)) in
            (
              o,
              a,
              rw
                  (
                    ne_of_lt column o.cursor.columns t.cols h k.columns,
                    ltb-true column o.cursor.columns t.cols h k.columns,
                  )
                  q,
              k,
            )

    pub get_type-Answers :
        (o : Connector W)
        → Opens d t v bufs false false o
        → Answers d t v bufs false false (get_type d column o)
    unfolding get_type fill_types
    get_type-Answers o k = go o.types refl
      where
        go :
            (m : Option (List CType))
            → o.types ≡ m
            → Answers d t v {A = CType} bufs false false (elim m [
              | some there ↦ kept_type d column o
              | none ↦
                  if ltb 0 o.cursor.columns then fill_types d column o else (o, err sql_internal)
            ])
        go (some xs) e = weaken-Answers bufs true false (kept_type d column o) (
            kept_type-Answers false o (record {
              succeeded = k.succeeded;
              columns = k.columns;
              rows = k.rows;
              bound = k.bound;
              room = k.room;
              at_start = k.at_start;
              types_fit =
                  subst (Sized t.cols true) (sym e) (subst (Sized t.cols false) e k.types_fit);
              sizes_fit = k.sizes_fit;
            }))
        go none e = rw (ltb-true 0 o.cursor.columns t.cols (omega arith) k.columns) (
            weaken-Answers bufs true false (fill_types d column o) (
              resume-Answers d t v bufs true false
                (load_types d o.cursor.columns 0
                  (record o { types = some (replicate o.cursor.columns unset) }))
                _
                (load_types-Answers d t v bufs true false o.cursor.columns 0
                  (record o { types = some (replicate o.cursor.columns unset) })
                  (record {
                    succeeded = k.succeeded;
                    columns = k.columns;
                    rows = k.rows;
                    bound = k.bound;
                    room = k.room;
                    at_start = k.at_start;
                    types_fit = length-replicate o.cursor.columns unset ∙ k.columns;
                    sizes_fit = k.sizes_fit;
                  }))
                λ u o1 k1. kept_type-Answers false o1 k1))

    pub get_col_size-Answers :
        (o : Connector W)
        → Opens d t v bufs false false o
        → Answers d t v bufs false false (get_col_size d column o)
    unfolding get_col_size fill_sizes
    get_col_size-Answers o k = go o.sizes refl
      where
        go :
            (m : Option (List ℕ))
            → o.sizes ≡ m
            → Answers d t v {A = ℕ} bufs false false (elim m [
              | some there ↦ kept_size d column o
              | none ↦
                  if ltb 0 o.cursor.columns then fill_sizes d column o else (o, err sql_internal)
            ])
        go (some xs) e = weaken-Answers bufs false true (kept_size d column o) (
            kept_size-Answers false o (record {
              succeeded = k.succeeded;
              columns = k.columns;
              rows = k.rows;
              bound = k.bound;
              room = k.room;
              at_start = k.at_start;
              sizes_fit =
                  subst (Sized t.cols true) (sym e) (subst (Sized t.cols false) e k.sizes_fit);
              types_fit = k.types_fit;
            }))
        go none e = rw (ltb-true 0 o.cursor.columns t.cols (omega arith) k.columns) (
            weaken-Answers bufs false true (fill_sizes d column o) (
              resume-Answers d t v bufs false true
                (load_sizes d o.cursor.columns 0
                  (record o { sizes = some (replicate o.cursor.columns 0) }))
                _
                (load_sizes-Answers d t v bufs false true o.cursor.columns 0
                  (record o { sizes = some (replicate o.cursor.columns 0) })
                  (record {
                    succeeded = k.succeeded;
                    columns = k.columns;
                    rows = k.rows;
                    bound = k.bound;
                    room = k.room;
                    at_start = k.at_start;
                    sizes_fit = length-replicate o.cursor.columns 0 ∙ k.columns;
                    types_fit = k.types_fit;
                  }))
                λ u o1 k1. kept_size-Answers false o1 k1))
