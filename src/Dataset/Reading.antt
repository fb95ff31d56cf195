-- ===== src/Dataset/Reading.antt =====
-- What reading a file keeps true of the dataset and of the buffers.
use mathlib.Core.Path.{subst}
use sql_handler.Dataset.Complete.{
  Inv, IsFilled, add_free_form-Inv, add_key_value-Inv, define_variable-Inv,
}
use sql_handler.Dataset.Parts.{no_parts}
use sql_handler.Dataset.State.{Members, Reader, start_reading}
use sql_handler.Dataset.{
  add_new_section, track_section, part_tracking, add_row, plain_row, read_row, read_rows,
  end_reading, compiles_all, read_file, only_bes_errors, read,
}
use sql_handler.Outcome.{
  Result, ok, err, Outcome, done, raised, internal, Ensures, Ensures-if, Ensures-elim,
  Ensures-then_do,
}
use sql_handler.Prelude.{
  has_any, ◌≡◌, refl, Bool, true, false, Option, none, some, List, [], ◌∷◌, Text, All, is_empty,
  arith,
}
use sql_handler.Query.Constraints.{Placement}
use sql_handler.Regex.{Regex, Span, reg_key_val, reg_comments, reg_defvar, reg_tags}
use sql_handler.Dataset.Stored.{IsStored, add_new_section-IsStored}

module _ (rx : Regex) (place : Placement) where
  track_section-Inv : (r : Reader) → Inv r → Ensures Inv (track_section rx place r)
  unfolding track_section no_parts
  track_section-Inv r v =
      Ensures-if Inv r.start _ _
        (λ e. record {
          where_clean = v.where_clean;
          attribute_clean = v.attribute_clean;
          from_found = v.from_found;
          asked = v.asked;
          filled = v.filled;
        })
        (λ e. Ensures-then_do IsStored Inv _ _ (add_new_section-IsStored rx place r v) λ s w.
          record {
            where_clean = λ e'. w.where_empty;
            attribute_clean = λ e'. w.attribute_empty;
            from_found = λ e'. cc;
            asked = w.asked;
            filled = w.filled;
          })

  part_tracking-Inv :
      (r : Reader) (row : Text) (s : Option Span)
      → Inv r
      → Ensures Inv (part_tracking rx place r row s)
  unfolding part_tracking
  part_tracking-Inv r row none v = tt
  part_tracking-Inv r row (some s) v = ground (arith, track_section-Inv r v)

  add_row-Inv : (r : Reader) (row : Text) → Inv r → Ensures Inv (add_row rx r row)
  unfolding add_row
  add_row-Inv r row v =
      Ensures-elim Inv (rx.exec reg_key_val row) _ _ (add_free_form-Inv r row v)
        λ g. add_key_value-Inv r row (g 1) (g 2) v

  plain_row-Inv : (r : Reader) (x : Result Text) → Inv r → Ensures Inv (plain_row rx place r x)
  plain_row-Inv r (ok row) v = add_row-Inv r row v
  plain_row-Inv r (err e) v = tt

  read_row-Inv : (r : Reader) (row : Text) → Inv r → Ensures Inv (read_row rx place r row)
  unfolding read_row
  read_row-Inv r row v =
      Ensures-if Inv (is_empty row) _ _ (λ e. v)
        λ e.
          Ensures-elim Inv (rx.exec reg_comments row) _ _
            (Ensures-elim Inv (rx.exec reg_defvar row) _ _
              (Ensures-elim Inv (rx.exec reg_tags row) _ _ (plain_row-Inv r _ v)
                λ g. part_tracking-Inv r row (g 1) v)
              λ g. define_variable-Inv r row (g 1) (g 2) v)
            λ g. v

  read_rows-Inv : (r : Reader) (rows : List Text) → Inv r → Ensures Inv (read_rows rx place r rows)
  unfolding read_rows
  read_rows-Inv r [] v = v
  read_rows-Inv r (row ∷ rows) v =
      Ensures-then_do Inv Inv _ _ (read_row-Inv r row v) λ s w. read_rows-Inv s rows w

  start_reading-Inv :
      (m : Members)
      → m.where_buffer ≡ []
      → m.attribute_buffer ≡ []
      → All IsFilled m.dataset
      → Inv (start_reading m)
  unfolding start_reading no_parts
  start_reading-Inv m hw ha hf = record {
    where_clean = λ e. hw;
    attribute_clean = λ e. ha;
    from_found = λ e. cc;
    asked = refl;
    filled = hf;
  }

  abbrev Good : Members × Bool → Type 0
  Good (m, read_any) =
      read_any ≡ true
      → (m.where_buffer ≡ [])
        × (m.attribute_buffer ≡ [])
        × All IsFilled m.dataset
        × (has_any m.dataset ≡ true)

  end_reading-Good : (r : Reader) → Inv r → Ensures Good (end_reading rx place r)
  unfolding end_reading
  end_reading-Good r v =
      Ensures-if Good r.start _ _ (λ e e'. cc)
        λ e. go (add_new_section rx place r) (add_new_section-IsStored rx place r v)
    where
      go :
          (o : Outcome Reader)
          → Ensures IsStored o
          → Ensures Good (elim o [
            | done r' ↦ done (r'.members, true)
            | raised x r' ↦ raised x (r'.members, false)
          ])
      go (done r') w = λ e. (w.where_empty, w.attribute_empty, w.filled, w.has_section)
      go (raised x r') w = tt

  read_file-Good :
      (m : Members) (file : Option (List Text))
      → Inv (start_reading m)
      → Ensures Good (read_file rx place m file)
  unfolding read_file
  read_file-Good m file v = Ensures-elim Good file (raised internal (m, false)) _ tt λ rows.
      go (read_rows rx place (start_reading m) rows) (read_rows-Inv (start_reading m) rows v)
    where
      go :
          (o : Outcome Reader)
          → Ensures Inv o
          → Ensures Good (elim o [
            | done r ↦ end_reading rx place r
            | raised x r ↦ raised x (r.members, false)
          ])
      go (done r) w = end_reading-Good r w
      go (raised x r) w = tt

  only_bes_errors-Good :
      (x : Outcome (Members × Bool)) → Ensures Good x → Ensures Good (only_bes_errors x)
  unfolding only_bes_errors
  only_bes_errors-Good (done m) v = v
  only_bes_errors-Good (raised e m) v = tt

  read-Good :
      (m : Members) (file : Option (List Text))
      → m.where_buffer ≡ []
      → m.attribute_buffer ≡ []
      → All IsFilled m.dataset
      → Ensures Good (read rx place m file)
  unfolding read
  read-Good m file hw ha hf = only_bes_errors-Good _ (
      Ensures-if Good (compiles_all rx) (read_file rx place m file) (raised internal (m, false))
        (λ e. read_file-Good m file (start_reading-Inv m hw ha hf)) λ e. tt)

  -- Reading from empty buffers into a dataset whose sections each have a SELECT attribute and a FROM
  -- text: if `read` returns true, both buffers are empty again, the dataset is not, and every
  -- section of it has a SELECT attribute and a FROM text.
  pub read-IsFilled :
      (m m' : Members) (file : Option (List Text))
      → m.where_buffer ≡ []
      → m.attribute_buffer ≡ []
      → All IsFilled m.dataset
      → read rx place m file ≡ done (m', true)
      → (m'.where_buffer ≡ [])
        × (m'.attribute_buffer ≡ [])
        × All IsFilled m'.dataset
        × (has_any m'.dataset ≡ true)
  read-IsFilled m m' file hw ha hf e = subst (Ensures Good) e (read-Good m file hw ha hf) refl
