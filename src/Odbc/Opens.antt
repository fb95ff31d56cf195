-- ===== src/Odbc/Opens.antt =====
-- The attributes of the columns while a query is opened: every call answers, and leaves the rest of
-- the connector alone.
use mathlib.Core.Path.{subst}
use sql_handler.Actions.Errors.{success}
use sql_handler.Actions.Triggers.{outcome_of, HasMessages, trigger-outcome_of}
use sql_handler.CheckPoint.{CheckPoint, check}
use sql_handler.Call.{Call, resume}
use sql_handler.Odbc.Columns.{
  set_in, notified, notify, ask_type, ask_length, load_types, load_sizes,
}
use sql_handler.Odbc.State.{Driver, Connector, length_of, Pointer, get_msg, as_error_connector}
use sql_handler.Odbc.Table.{Table}
use sql_handler.Odbc.Types.{get_c_type}
use sql_handler.Outcome.{Result, ok}
use sql_handler.Prelude.{
  ℕ, zero, suc, ◌+◌, ◌≡◌, refl, sym, ap, ◌∙◌, Bool, true, false, Option, List, length, Bool-cases,
  inl, inr, if◌then◌else◌, ◌==◌,
}
use sql_handler.Odbc.Serves.{Serves}
use sql_handler.Odbc.Arrays.{Sized, Sized-set_in}

-- `getMsg` returns the address of its message, for every code.
pub as_error_connector-HasMessages :
    {W : Type 0} (d : Driver W) → HasMessages (as_error_connector d)
unfolding as_error_connector
as_error_connector-HasMessages d code w = ((get_msg d code w).1, refl)

module _ {W : Type 0} (d : Driver W) where
  check_ok : (c : CheckPoint) → (b : Bool) × ((check c 1).1 ≡ ok b)
  unfolding check
  check_ok c = elim (Bool-cases (1 == c.last_type_checked)) [
    | inl e ↦ (c.last_status, rw e refl)
    | inr e ↦ (c.function 1, rw e refl)
  ]

  -- The trigger at the point that is always checked.
  pub notify-outcome_of :
      (o : Connector W)
      → notify d 0 o ≡ (
          if o.has_factory
          then notified (o.check_point, outcome_of (as_error_connector d) o.rc o)
          else (o, ok tt))
  unfolding notify as_error_connector
  notify-outcome_of o =
      let (b, active) = check_ok o.check_point in
      let (here, there) =
        trigger-outcome_of (as_error_connector d) (as_error_connector-HasMessages d) 0 o.check_point
          0 b o active in
      ap
        (λ (r : CheckPoint × (Connector W × Result (Option (Unit {0})))).
          if o.has_factory then notified r else (o, ok tt))
        here

module _ {W : Type 0} (d : Driver W) (t : Table) (v : Serves d t) where
  -- What holds from `setCols` to the end of `query()`, with the pointers `bufs`; `has_types` and
  -- `has_sizes` say which arrays are there.
  pub record Opens (bufs : List Pointer) (has_types has_sizes : Bool) (o : Connector W)
      : Type 0 where
    pub succeeded : o.rc ≡ success
    pub columns : o.cursor.columns ≡ t.cols
    pub rows : o.cursor.rows ≡ t.rows
    pub bound : o.buffers ≡ bufs
    pub room : length o.contents ≡ t.cols
    pub at_start : v.reading.position o.driver ≡ 0
    pub types_fit : Sized t.cols has_types o.types
    pub sizes_fit : Sized t.cols has_sizes o.sizes

  -- A call that answers and keeps this.
  abbrev pub Answers : {A : Type 0} → List Pointer → Bool → Bool → Connector W × Result A → Type 0
  Answers {A} bufs has_types has_sizes r =
      (o : Connector W) × (a : A) × (r ≡ (o, ok a)) × Opens bufs has_types has_sizes o

  module _ (bufs : List Pointer) (has_types has_sizes : Bool) where
    -- The calls one after the other.
    pub resume_with :
        {A B : Type 0} (P : Connector W × Result B → Type 0) (r : Connector W × Result A)
        (f : A → Call (Connector W) B)
        → Answers bufs has_types has_sizes r
        → ((a : A) (o : Connector W) → Opens bufs has_types has_sizes o → P (f a o))
        → P (resume r f)
    resume_with P r f (o, a, e, k) g = subst (λ x. P (resume x f)) (sym e) (g a o k)

    pub resume-Answers :
        {A B : Type 0} (r : Connector W × Result A) (f : A → Call (Connector W) B)
        → Answers bufs has_types has_sizes r
        → ((a : A) (o : Connector W)
            → Opens bufs has_types has_sizes o
            → Answers bufs has_types has_sizes (f a o))
        → Answers bufs has_types has_sizes (resume r f)
    resume-Answers = resume_with (Answers bufs has_types has_sizes)

    success-Opens :
        (o : Connector W)
        → Opens bufs has_types has_sizes o
        → Answers bufs has_types has_sizes
            (notified (o.check_point, outcome_of (as_error_connector d) success o))
    unfolding outcome_of get_msg as_error_connector
    success-Opens o k = (
      _,
      tt,
      refl,
      record {
        succeeded = k.succeeded;
        columns = k.columns;
        rows = k.rows;
        bound = k.bound;
        room = k.room;
        at_start = k.at_start;
        types_fit = k.types_fit;
        sizes_fit = k.sizes_fit;
      },
    )

    pub notify-Answers :
        (o : Connector W)
        → Opens bufs has_types has_sizes o
        → Answers bufs has_types has_sizes (notify d 0 o)
    notify-Answers o k = subst (Answers bufs has_types has_sizes) (sym (notify-outcome_of d o)) (
        by_factory o.has_factory (
          subst
            (λ r.
              Answers bufs has_types has_sizes
                (notified (o.check_point, outcome_of (as_error_connector d) r o)))
            (sym k.succeeded) (success-Opens o k)))
      where
        by_factory :
            (b : Bool) {r : Connector W × Result (Unit {0})}
            → Answers bufs has_types has_sizes r
            → Answers bufs has_types has_sizes (if b then r else (o, ok tt))
        by_factory true h = h
        by_factory false h = (o, tt, refl, k)

    pub load_sizes-Answers :
        (n col : ℕ) (o : Connector W)
        → Opens bufs has_types has_sizes o
        → Answers bufs has_types has_sizes (load_sizes d n col o)
    unfolding load_sizes ask_length
    load_sizes-Answers zero col o k = (o, tt, refl, k)
    load_sizes-Answers (suc n) col o k =
        let size = (d.col_measure length_of (suc col) o.driver).2 in
        resume-Answers (notify d 0 (ask_length d col o).0) _
          (notify-Answers (ask_length d col o).0 (record {
            succeeded = v.size_rc (suc col) o.driver;
            columns = k.columns;
            rows = k.rows;
            bound = k.bound;
            room = k.room;
            at_start = v.size_keeps (suc col) o.driver ∙ k.at_start;
            types_fit = k.types_fit;
            sizes_fit = k.sizes_fit;
          }))
          λ u o1 k1.
            load_sizes-Answers n (suc col)
              (record o1 { sizes = set_in o1.sizes col size; row_size = o1.row_size + size })
              (record {
                succeeded = k1.succeeded;
                columns = k1.columns;
                rows = k1.rows;
                bound = k1.bound;
                room = k1.room;
                at_start = k1.at_start;
                types_fit = k1.types_fit;
                sizes_fit = Sized-set_in t.cols has_sizes o1.sizes col size k1.sizes_fit;
              })

    pub load_types-Answers :
        (n col : ℕ) (o : Connector W)
        → Opens bufs has_types has_sizes o
        → Answers bufs has_types has_sizes (load_types d n col o)
    unfolding load_types ask_type
    load_types-Answers zero col o k = (o, tt, refl, k)
    load_types-Answers (suc n) col o k =
        let type = get_c_type (d.col_type (suc col) o.driver).2 in
        resume-Answers (notify d 0 (ask_type d col o).0) _
          (notify-Answers (ask_type d col o).0 (record {
            succeeded = v.type_rc (suc col) o.driver;
            columns = k.columns;
            rows = k.rows;
            bound = k.bound;
            room = k.room;
            at_start = v.type_keeps (suc col) o.driver ∙ k.at_start;
            types_fit = k.types_fit;
            sizes_fit = k.sizes_fit;
          }))
          λ u o1 k1.
            load_types-Answers n (suc col) (record o1 { types = set_in o1.types col type })
              (record {
                succeeded = k1.succeeded;
                columns = k1.columns;
                rows = k1.rows;
                bound = k1.bound;
                room = k1.room;
                at_start = k1.at_start;
                types_fit = Sized-set_in t.cols has_types o1.types col type k1.types_fit;
                sizes_fit = k1.sizes_fit;
              })
