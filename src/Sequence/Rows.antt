-- ===== src/Sequence/Rows.antt =====
-- A call of `read` gives the variables the cells of a row.
use mathlib.Core.Path.{subst}
use mathlib.Core.List.{map}
use sql_handler.Cursor.{Cursor}
use sql_handler.Odbc.Reads.{Behind, get_next-Behind}
use sql_handler.Odbc.Rows.{Fetches, IsReadable}
use sql_handler.Odbc.State.{Driver, Connector}
use sql_handler.Odbc.Stream.{Streams}
use sql_handler.Odbc.Table.{Table, cell_text}
use sql_handler.Outcome.{Result, ok}
use sql_handler.Prelude.{
  ℕ, suc, ◌+◌, ◌*◌, ◌%◌, ◌<◌, ◌≤◌, ◌≡◌, refl, sym, ap, ◌∙◌, Bool, true, false, ◌||◌, List, [], ◌∷◌,
  arith, if◌then◌else◌,
}
use sql_handler.Sequence.{
  Sequence, is_wanted, put_first, put_variables, go_on, read_variables, row_read, read_sequence,
}
use sql_handler.Values.{World, Heap, Variable, Dap, read_variable}
use sql_handler.Values.Kinds.{Kind, text, buffer_of}
use sql_handler.Values.Reads.{
  Takes, Column, variable_for, as_variable, IsFresh, HeapKept, fill, reading, read-variable_for,
}

module _ {W V : Type 0} (d : Driver W) (lib : Dap V) (v : Takes lib) (t : Table) (f : Fetches d t)
    (z : IsReadable t) where
  -- How many of the columns are to be read.
  abbrev pub wanted : List (Column V) → ℕ
  wanted [] = 0
  wanted (c ∷ cs) = if c.send_p || c.in_selection then suc (wanted cs) else wanted cs

  -- The columns with the cells from cell `n` on; a column that is not wanted takes none.
  unfoldable pub filled : ℕ → List (Column V) → List (Column V)
  filled n [] = []
  filled n (c ∷ cs) =
      if c.send_p || c.in_selection
      then fill d lib v (n % t.cols) (cell_text t n) c ∷ filled (suc n) cs
      else c ∷ filled n cs

  -- A column is read if it is wanted.
  abbrev pub after_read : Column V → Variable V
  after_read c = as_variable (c.send_p || c.in_selection) c

  abbrev pub RowRead :
      ℕ → Heap → List (Column V) → World W × List (Variable V) × Result (Unit {0}) → Type 0
  RowRead n h cs y =
      (o' : Connector W) × (h' : Heap) × (y
        ≡ (record { connector = o'; heap = h' }, map after_read (filled n cs), ok tt))
      × HeapKept h h'
      × Behind d t f z o' (n + wanted cs)

  wanted_lem :
      (done : Bool) (k : Kind) (c : Column V)
      → is_wanted (variable_for done k c) ≡ (c.send_p || c.in_selection)
  wanted_lem done text c = refl
  wanted_lem done (buffer_of ty) c = refl

  -- What a step over a column leaves, by whether the column is wanted.
  abbrev Stepped : Bool → ℕ → Connector W → Heap → Column V → List (Column V) → Type 0
  Stepped b n o h c cs =
      (o' : Connector W) × (h' : Heap) × ((elim b
          as (λ y. World W × List (Variable V) × Result (Unit {0})) [
            | true ↦
                go_on d lib (read_variables d lib false (map (as_variable false) cs))
                  (map (as_variable false) cs)
                  (read_variable d lib false (reading d lib v o h (as_variable false c)))
            | false ↦ put_first (as_variable false c) (
                read_variables d lib false (map (as_variable false) cs)
                  (record { connector = o; heap = h }))
          ])
        ≡ (
          record { connector = o'; heap = h' },
          map after_read (
              if b
              then fill d lib v (n % t.cols) (cell_text t n) c ∷ filled (suc n) cs
              else c ∷ filled n cs),
          ok tt,
        ))
      × HeapKept h h'
      × Behind d t f z o' (n + (if b then suc (wanted cs) else wanted cs))

  step :
      (n : ℕ) (o : Connector W) (h : Heap) (c : Column V) (cs : List (Column V))
      → IsFresh h
      → Behind d t f z o n
      → ((m : ℕ) (u : Connector W) (g : Heap)
          → m + wanted cs ≤ t.rows * t.cols
          → IsFresh g
          → Behind d t f z u m
          → RowRead m g cs (
              read_variables d lib false
                (map (as_variable false) cs)
                (record { connector = u; heap = g })))
      → (w : Bool) → (c.send_p || c.in_selection) ≡ w
      → n + (if w then suc (wanted cs) else wanted cs) ≤ t.rows * t.cols
      → Stepped w n o h c cs
  unfolding go_on
  step n o h c cs fresh b ih true e l' =
      let (o1, en, value, b1) = get_next-Behind d t f z o n (omega arith) b in
      let (h1, er, kept) =
        read-variable_for d lib v o o1 (n % t.cols) (cell_text t n) h fresh b.0 en value c.kind c in
      let (o2, h2, e2, kept2, b2) = ih (suc n) o1 h1 (omega arith) kept.0 b1 in
      let size : suc n + wanted cs ≡ n + suc (wanted cs) = omega arith in
      let new = fill d lib v (n % t.cols) (cell_text t n) c in
      (
        o2,
        h2,
        ap
              (go_on d lib (read_variables d lib false (map (as_variable false) cs))
                (map (as_variable false) cs))
              er
            ∙ ap (put_first (as_variable true new)) e2
            ∙ ap
                (λ w. (
                  record { connector = o2; heap = h2 },
                  as_variable w new ∷ map after_read (filled (suc n) cs),
                  ok tt,
                ))
                (sym e),
        (kept2.0, λ p. kept2.1 p ∙ kept.1 p),
        subst (Behind d t f z o2) size b2,
      )
  step n o h c cs fresh b ih false e l' =
      let (o2, h2, e2, kept2, b2) = ih n o h l' fresh b in
      (
        o2,
        h2,
        ap (put_first (as_variable false c)) e2
            ∙ ap
                (λ w. (
                  record { connector = o2; heap = h2 },
                  as_variable w c ∷ map after_read (filled n cs),
                  ok tt,
                ))
                (sym e),
        kept2,
        b2,
      )

  read_variables-filled :
      (cs : List (Column V)) (n : ℕ) (o : Connector W) (h : Heap)
      → n + wanted cs ≤ t.rows * t.cols
      → IsFresh h
      → Behind d t f z o n
      → RowRead n h cs (
          read_variables d lib false
            (map (as_variable false) cs)
            (record { connector = o; heap = h }))
  unfolding read_variables filled
  read_variables-filled [] n o h l fresh b =
      let same : n ≡ n + 0 = omega arith in
      (o, h, refl, (fresh, λ p. refl), subst (Behind d t f z o) same b)
  read_variables-filled (c ∷ cs) n o h l fresh b =
      subst
        (λ w.
          (o' : Connector W) × (h' : Heap) × ((elim w
              as (λ y. World W × List (Variable V) × Result (Unit {0})) [
                | true ↦
                    go_on d lib (read_variables d lib false (map (as_variable false) cs))
                      (map (as_variable false) cs)
                      (read_variable d lib false (reading d lib v o h (as_variable false c)))
                | false ↦ put_first (as_variable false c) (
                    read_variables d lib false (map (as_variable false) cs)
                      (record { connector = o; heap = h }))
              ])
            ≡ (record { connector = o'; heap = h' }, map after_read (filled n (c ∷ cs)), ok tt))
          × HeapKept h h'
          × Behind d t f z o' (n + wanted (c ∷ cs)))
        (sym (wanted_lem false c.kind c))
        (step n o h c cs fresh b (λ m u g. read_variables-filled cs m u g)
          (c.send_p || c.in_selection) refl l)

  reading_row :
      (s : Sequence W V)
      → s.read_p ≡ false
      → s.world.connector.ready ≡ true
      → s.world.connector.cursor.not_end ≡ true
      → read_sequence d lib false s
        ≡ row_read d lib s (read_variables d lib false s.variables s.world)
  unfolding read_sequence
  reading_row s unread ready more = ground arith

  -- A sequence in front of cell `n`, none of whose variables is read.
  abbrev pub at_row : Connector W → Heap → List (Column V) → Sequence W V → Sequence W V
  at_row o h cs s =
      put_variables (record { connector = o; heap = h }) (map (as_variable false) cs) s

  row_cells : (r : ℕ) → r < t.rows → r * t.cols < t.rows * t.cols
  row_cells r h = grind (arith, z.some_column)

  row_ends : (r : ℕ) → r < t.rows → r * t.cols + t.cols ≤ t.rows * t.cols
  row_ends r h = grind arith

  -- Let the connector be in front of row `r` of a table of no more than 1024 columns, on a library that
  -- fetches its rows, with debugging off; and let as many variables be wanted as the table has columns, each as the type
  -- factory makes it and not read yet. Then `read` of the sequence returns false; it has given the
  -- wanted variables the cells of the row, in their order, and has left the others alone; the strings
  -- that it made are given back; and the connector is in front of the next row, or at the end behind
  -- the last.
  pub read_sequence-row :
      (s : Sequence W V) (o : Connector W) (h : Heap) (cs : List (Column V)) (r : ℕ)
      → r < t.rows
      → wanted cs ≡ t.cols
      → s.read_p ≡ false
      → IsFresh h
      → Streams d t f o (r * t.cols)
      → (o' : Connector W) × (h' : Heap) × (read_sequence d lib false (at_row o h cs s) ≡ (
        put_variables
            (record { connector = o'; heap = h' })
            (map after_read (filled (r * t.cols) cs))
            s,
        ok false,
      ))
        × HeapKept h h'
        × Behind d t f z o' (suc r * t.cols)
  unfolding row_read
  read_sequence-row s o h cs r l w unread fresh streams =
      let many : r * t.cols + wanted cs ≡ suc r * t.cols = omega (arith, w) in
      let (o', h', e, kept, b) =
        read_variables-filled cs (r * t.cols) o h (omega (arith, w, row_ends r l)) fresh
          (streams.is_ready, λ q. streams, λ q. absurd (omega (arith, q, row_cells r l))) in
      (
        o',
        h',
        reading_row (at_row o h cs s) unread streams.is_ready
              (ap (λ (c : Cursor). c.not_end) streams.on_cell)
            ∙ ap (row_read d lib (at_row o h cs s)) e,
        kept,
        subst (Behind d t f z o') many b,
      )
