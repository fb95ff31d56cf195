-- ===== src/Odbc/Reads.antt =====
-- The whole result, read through the connector: the cells of the table, one after the other.
use native.Mathlib.Decide.{dec_lt}
use sql_handler.Call.{resume}
use sql_handler.Cursor.{Cursor}
use sql_handler.Odbc.Calls.{fetches, move_on, get_next}
use sql_handler.Odbc.State.{Driver, Connector, Pointer, column_buffer, no_buffer, stray}
use sql_handler.Odbc.Stream.{Streams, fetches-Holds, move_on-next, move_on-last}
use sql_handler.Odbc.Rows.{Fetches, IsReadable}
use sql_handler.Odbc.Table.{Table, text_at, cell_text, cells_from}
use sql_handler.Outcome.{Result, ok, err, sql_internal}
use sql_handler.Prelude.{
  ℕ, zero, suc, ◌+◌, ◌*◌, ◌%◌, ◌<◌, ◌≡◌, refl, ap, ◌∙◌, Bool, true, false, if◌then◌else◌, ◌&&◌,
  List, [], ◌∷◌, Text, arith,
}

-- The text that a pointer of `getNext` leads to.
abbrev pub pointed : {W : Type 0} → Connector W → Pointer → Text
pointed o no_buffer = []
pointed o (column_buffer c) = text_at o.contents c
pointed o stray = []

module _ {W : Type 0} where
  abbrev pub put_first : Text → Connector W × Result (List Text) → Connector W × Result (List Text)
  put_first t (o, err e) = (o, err e)
  put_first t (o, ok ts) = (o, ok (t ∷ ts))

  abbrev pub read_on :
      (Connector W → Connector W × Result (List Text))
      → Connector W × Result Pointer
      → Connector W × Result (List Text)
  read_on rest (o, err e) = (o, err e)
  read_on rest (o, ok p) = put_first (pointed o p) (rest o)

module _ {W : Type 0} (d : Driver W) where
  -- `n` calls of `getNext()`, each value read before the next call.
  unfoldable pub reads : ℕ → Connector W → Connector W × Result (List Text)
  reads zero o = (o, ok [])
  reads (suc n) o = read_on (reads n) (get_next d 1 o)

  -- Not ready, or at the end.
  pub get_next_refused :
      (next : ℕ) (o : Connector W)
      → (o.ready && o.cursor.not_end) ≡ false
      → get_next d next o ≡ (o, err sql_internal)
  unfolding get_next
  get_next_refused next o h = rw h refl

  module _ (t : Table) (f : Fetches d t) (v : IsReadable t) where
    get_next-move_on :
        (o o' : Connector W) (n : ℕ)
        → Streams d t f o n
        → fetches d o.to_fetch_rows o ≡ (o', ok tt)
        → get_next d 1 o ≡ move_on d 1 (record o' { to_fetch_rows = 0 })
    unfolding get_next
    get_next-move_on o o' n s e =
        let more : (o.ready && o.cursor.not_end) ≡ true =
          rw (s.is_ready, ap (λ (c : Cursor). c.not_end) s.on_cell) refl in
        ap
          (λ (b : Bool). if b then next_of (fetches d o.to_fetch_rows o) else (o, err sql_internal))
          more
        ∙ ap next_of e
      where
        next_of : Connector W × Result (Unit {0}) → Connector W × Result Pointer
        next_of x = resume x λ u s. move_on d 1 (record s { to_fetch_rows = 0 })

    -- A call of `getNext()` in front of cell `n`, then in front of the last.
    pub get_next-cell :
        (o : Connector W) (n : ℕ)
        → suc n < t.rows * t.cols
        → Streams d t f o n
        → (o' : Connector W) × (get_next d 1 o ≡ (o', ok (column_buffer (n % t.cols))))
          × (pointed o' (column_buffer (n % t.cols)) ≡ cell_text t n)
          × Streams d t f o' (suc n)
    get_next-cell o n h s =
        let (o0, read, k) = fetches-Holds d t f o n v (omega arith) s in
        let (o', e, held, next) = move_on-next d t f (record o0 { to_fetch_rows = 0 }) n v h k in
        (o', get_next-move_on o o0 n s read ∙ e, rw held refl, next)

    get_next-last_cell :
        (o : Connector W) (n : ℕ)
        → suc n ≡ t.rows * t.cols
        → Streams d t f o n
        → (o' : Connector W) × (get_next d 1 o ≡ (o', ok (column_buffer (n % t.cols))))
          × (pointed o' (column_buffer (n % t.cols)) ≡ cell_text t n)
          × (o'.cursor.not_end ≡ false)
          × (o'.ready ≡ true)
    get_next-last_cell o n h s =
        let (o0, read, k) = fetches-Holds d t f o n v (omega arith) s in
        let (o', e, held, end, ready) =
          move_on-last d t f (record o0 { to_fetch_rows = 0 }) n v h k in
        (o', get_next-move_on o o0 n s read ∙ e, rw held refl, end, ready)

    -- In front of cell `n`, or behind the last one.
    abbrev pub Behind : Connector W → ℕ → Type 0
    Behind o n =
        (o.ready ≡ true)
        × (n < t.rows * t.cols → Streams d t f o n)
        × (n ≡ t.rows * t.cols → o.cursor.not_end ≡ false)

    pub get_next-Behind :
        (o : Connector W) (n : ℕ)
        → n < t.rows * t.cols
        → Behind o n
        → (o' : Connector W) × (get_next d 1 o ≡ (o', ok (column_buffer (n % t.cols))))
          × (pointed o' (column_buffer (n % t.cols)) ≡ cell_text t n)
          × Behind o' (suc n)
    get_next-Behind o n h s = elim (dec_lt (suc n) (t.rows * t.cols)) [
      | yes below ↦
          let (o', e, value, next) = get_next-cell o n below (s.1 h) in
          (o', e, value, (next.is_ready, λ l. next, λ q. absurd (omega (arith, below, q))))
      | no above ↦
          let at_end : suc n ≡ t.rows * t.cols = omega (arith, h, above) in
          let (o', e, value, end, ready) = get_next-last_cell o n at_end (s.1 h) in
          (o', e, value, (ready, λ l. absurd (omega (arith, at_end, l)), λ q. end))
    ]

    -- From cell `n` to the end.
    pub reads-cells_from :
        (o : Connector W) (n k : ℕ)
        → n + suc k ≡ t.rows * t.cols
        → Streams d t f o n
        → (o' : Connector W) × (reads (suc k) o ≡ (o', ok (cells_from t n (suc k))))
          × (o'.cursor.not_end ≡ false)
    unfolding reads cells_from
    reads-cells_from o n zero h s =
        let (o', e, value, end, ready) = get_next-last_cell o n (omega arith) s in
        (o', rw e (rw value refl), end)
    reads-cells_from o n (suc k) h s =
        let (o1, e, value, next) = get_next-cell o n (omega arith) s in
        let (o2, rest, end) = reads-cells_from o1 (suc n) k (omega arith) next in
        (o2, rw e (rw (rest, value) refl), end)
