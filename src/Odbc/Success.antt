-- ===== src/Odbc/Success.antt =====
-- `query()` on a library that answers: it returns, with the connector in front of the first cell.
use mathlib.Core.Path.{subst}
use mathlib.Core.List.{append-nil}
use sql_handler.Actions.Errors.{success}
use sql_handler.Call.{Call, resume}
use sql_handler.Cursor.{Cursor, reset}
use sql_handler.Odbc.Calls.{demand_success, in_status, allocate, bind_columns, open_columns}
use sql_handler.Odbc.Columns.{replicate, set, notify, get_type, get_col_size}
use sql_handler.Odbc.Opening.{get_type-Answers, get_col_size-Answers}
use sql_handler.Odbc.Opens.{Opens, Answers, resume_with, notify-Answers}
use sql_handler.Odbc.Arrays.{Sized, length-replicate, length-set}
use sql_handler.Odbc.Serves.{Serves}
use sql_handler.Odbc.State.{
  Driver, Connector, Pointer, no_buffer, column_buffer, status_size, succeeded,
}
use sql_handler.Odbc.Stream.{Streams}
use sql_handler.Odbc.Rows.{IsReadable, cursor_on, pointers}
use sql_handler.Odbc.Table.{Table}
use sql_handler.Outcome.{Result, ok, err, internal, undefined}
use sql_handler.Prelude.{
  ℕ, zero, suc, ◌+◌, ◌<◌, ◌≤◌, ◌≡◌, ltb, refl, sym, ap, ◌∙◌, Bool, true, false, none, List, [], ◌∷◌,
  ◌++◌, inl, if◌then◌else◌, arith,
}

set-pointers :
    (i c n : ℕ)
    → set (pointers i c ++ replicate (suc n) no_buffer) c (column_buffer (i + c))
      ≡ pointers i (suc c) ++ replicate n no_buffer
set-pointers i zero n = ground arith
set-pointers i (suc c) n =
    let e : i + suc c ≡ suc i + c = omega arith in
    rw e (ap (λ (ps : List Pointer). column_buffer i ∷ ps) (set-pointers (suc i) c n))

set-pointers_start :
    (c n : ℕ)
    → set (pointers 0 c ++ replicate (suc n) no_buffer) c (column_buffer c)
      ≡ pointers 0 (suc c) ++ replicate n no_buffer
set-pointers_start c n =
    let e : 0 + c ≡ c = omega arith in
    subst
      (λ k.
        set (pointers 0 c ++ replicate (suc n) no_buffer) c (column_buffer k)
        ≡ pointers 0 (suc c) ++ replicate n no_buffer)
      e (set-pointers 0 c n)

-- A check that passes.
pub demanded :
    {W B : Type 0} (P : Connector W × Result B → Type 0) (o : Connector W)
    (f : Unit {0} → Call (Connector W) B)
    → o.rc ≡ success
    → P (f tt o)
    → P (resume (demand_success o) f)
demanded P o f e h =
    subst (λ r. P (resume (if succeeded r then (o, ok tt) else (o, err internal)) f)) (sym e) h

-- An entry that `d_status` has.
within :
    {W B : Type 0} (P : Connector W × Result B → Type 0) (i : ℕ) (o : Connector W)
    (f : Unit {0} → Call (Connector W) B)
    → i < status_size
    → P (f tt o)
    → P (resume (in_status i o) f)
within P i o f h p =
    let e : ltb i status_size ≡ true = ground arith in
    subst (λ b. P (resume (if b then (o, ok tt) else (o, err undefined)) f)) (sym e) p

module _ {W : Type 0} (d : Driver W) (t : Table) (v : Serves d t) where
  allocate-Answers :
      (n c : ℕ) (o : Connector W)
      → c + n ≡ t.cols
      → Opens d t v (pointers 0 c ++ replicate n no_buffer) false false o
      → Answers d t v (pointers 0 t.cols) false false (allocate d n c o)
  unfolding allocate
  allocate-Answers zero c o h k =
      let e : c ≡ t.cols = omega arith in
      (o, tt, refl, subst (λ ps. Opens d t v ps false false o) (append-nil _ ∙ ap (pointers 0) e) k)
  allocate-Answers (suc n) c o h k =
      resume_with d t v (pointers 0 c ++ replicate (suc n) no_buffer) false false
        (Answers d t v (pointers 0 t.cols) false false) (get_col_size d c o) _
        (get_col_size-Answers d t v (pointers 0 c ++ replicate (suc n) no_buffer) c (omega arith) o
          k)
        λ size o1 k1.
          allocate-Answers n (suc c)
            (record o1 {
              buffers = set o1.buffers c (column_buffer c);
              contents = set o1.contents c [];
            })
            (omega arith)
            (record {
              succeeded = k1.succeeded;
              columns = k1.columns;
              rows = k1.rows;
              bound =
                  ap (λ (ps : List Pointer). set ps c (column_buffer c)) k1.bound
                  ∙ set-pointers_start c n;
              room = length-set o1.contents c [] ∙ k1.room;
              at_start = k1.at_start;
              types_fit = k1.types_fit;
              sizes_fit = k1.sizes_fit;
            })

  module _ (bufs : List Pointer) (small : t.cols ≤ status_size) where
    bind_columns-Answers :
        (n i : ℕ) (o : Connector W)
        → i + n ≡ t.cols
        → Opens d t v bufs false false o
        → Answers d t v bufs false false (bind_columns d n i o)
    unfolding bind_columns
    bind_columns-Answers zero i o h k = (o, tt, refl, k)
    bind_columns-Answers (suc n) i o h k =
        resume_with d t v bufs false false (Answers d t v bufs false false) (get_type d i o) _
          (get_type-Answers d t v bufs i (omega arith) o k)
          λ type o1 k1.
            resume_with d t v bufs false false (Answers d t v bufs false false)
              (get_col_size d i o1) _ (get_col_size-Answers d t v bufs i (omega arith) o1 k1)
              λ size o2 k2.
                let (w, r) = d.bind_col (suc i) type size o2.driver in
                within (Answers d t v bufs false false) i o2 _ (omega (arith, h, small)) (
                  demanded (Answers d t v bufs false false) (record o2 { driver = w; rc = r }) _
                    (v.bind_rc (suc i) type size o2.driver)
                    (bind_columns-Answers n (suc i) (record o2 { driver = w; rc = r }) (omega arith)
                      (record {
                        succeeded = v.bind_rc (suc i) type size o2.driver;
                        columns = k2.columns;
                        rows = k2.rows;
                        bound = k2.bound;
                        room = k2.room;
                        at_start = v.bind_keeps (suc i) type size o2.driver ∙ k2.at_start;
                        types_fit = k2.types_fit;
                        sizes_fit = k2.sizes_fit;
                      })))

  -- The cursor in front of the first cell.
  reset-cursor_on :
      (c : Cursor) → IsReadable t → c.columns ≡ t.cols → c.rows ≡ t.rows → reset c ≡ cursor_on t 0
  unfolding reset
  reset-cursor_on c r hc hr = ground (arith, r.some_column, r.some_row)

  pub open_columns-Streams :
      (o : Connector W)
      → IsReadable t
      → o.rc ≡ success
      → o.cursor.columns ≡ t.cols
      → o.cursor.rows ≡ t.rows
      → v.reading.position o.driver ≡ 0
      → o.types ≡ none
      → o.sizes ≡ none
      → (o' : Connector W) × (open_columns d t.cols o ≡ (o', ok true)) × Streams d t v.reading o' 0
  unfolding open_columns
  open_columns-Streams o r ok_rc hc hr hp ht hs =
      resume_with d t v (pointers 0 t.cols) false false Goal (allocate d t.cols 0 _) _
        (allocate-Answers t.cols 0
          (record o { buffers = replicate t.cols no_buffer; contents = replicate t.cols [] })
          (omega arith)
          (record {
            succeeded = ok_rc;
            columns = hc;
            rows = hr;
            bound = refl;
            room = length-replicate t.cols [];
            at_start = hp;
            types_fit = subst (Sized t.cols false) (sym ht) tt;
            sizes_fit = subst (Sized t.cols false) (sym hs) tt;
          }))
        λ u o1 k1.
          resume_with d t v (pointers 0 t.cols) false false Goal (bind_columns d t.cols 0 o1) _
            (bind_columns-Answers (pointers 0 t.cols) r.in_status t.cols 0 o1 (omega arith) k1)
            λ u2 o2 k2.
              resume_with d t v (pointers 0 t.cols) false false Goal (notify d 0 o2) _
                (notify-Answers d t v (pointers 0 t.cols) false false o2 k2)
                λ u3 o3 k3. (
                  _,
                  refl,
                  record {
                    is_ready = refl;
                    on_cell = reset-cursor_on o3.cursor r k3.columns k3.rows;
                    bound = k3.bound;
                    room = k3.room;
                    ahead = ground (arith, k3.at_start, r.some_column);
                    filled = inl refl;
                  },
                )
    where
      Goal : Connector W × Result Bool → Type 0
      Goal x = (o' : Connector W) × (x ≡ (o', ok true)) × Streams d t v.reading o' 0
