-- ===== src/Dataset.antt =====
-- container/SQLTextDefinitions.h and the reading half of container/SQLTextContainer.cc: a dataset
-- file is read row by row into sections.
pub mod Parts
pub mod State
pub mod Rows
pub mod Complete
pub mod Stored
pub mod Reading
pub mod Substitution
use Parts.{
  section_tag, select_tag, from_tag, where_tag, other_tag, set_part, test_part, no_parts,
  new_section, meets,
}
use Rows.{add_key_value, add_free_form, define_variable, variable_substitution}
use State.{Members, Reader, start_reading}
use sql_handler.Outcome.{
  Error, terminated, Result, ok, err, ◌>>=◌, Outcome, done, raised, then_do, internal, syntax_user,
  out_of_range, out_of_fuel,
}
use sql_handler.Prelude.{
  ℕ, zero, suc, Bool, true, false, ◌&&◌, Option, none, some, List, [], ◌∷◌, ◌++◌, Text, TextMap,
  codes, text_eq, is_empty, length, if◌then◌else◌,
}
use sql_handler.Query.{set_select, set_where, load_attributes, load_constraints}
use sql_handler.Query.Attributes.{Attribute}
use sql_handler.Query.Constraints.{Constraint, Placement}
use sql_handler.Regex.{
  Regex, Span, span_text, reg_var, reg_defvar, reg_comments, reg_tags, reg_key_val,
}

-- `throw(BESError)` of `read`, which `std::out_of_range` does not derive from.
abbrev pub bes_or_end : Error → Error
bes_or_end Error.out_of_range = terminated
bes_or_end e = e

unfoldable pub only_bes_errors : {A : Type 0} → Outcome A → Outcome A
only_bes_errors (done m) = done m
only_bes_errors (raised e m) = raised (bes_or_end e) m

module _ (rx : Regex) where
  -- The loop over the variables of a row, with fuel.
  unfoldable pub substitute_loop : ℕ → TextMap Text → Text → Result Text
  unfolding variable_substitution
  substitute_loop zero vars row = err out_of_fuel
  substitute_loop (suc fuel) vars row = elim (rx.exec reg_var row) [
    | none ↦ ok row
    | some g ↦ variable_substitution vars row (g 1) >>= λ row'. substitute_loop fuel vars row'
  ]

  unfoldable pub substitute : TextMap Text → Text → Result Text
  unfolding substitute_loop
  substitute vars row = substitute_loop (suc (length row)) vars row

  -- A row that is no comment, definition or tag, once its variables are replaced.
  unfoldable pub add_row : Reader → Text → Outcome Reader
  unfolding add_key_value add_free_form
  add_row r row = elim (rx.exec reg_key_val row) [
    | none ↦ add_free_form r row
    | some g ↦ add_key_value r row (g 1) (g 2)
  ]

  -- The five calls of `regcomp` that `read` begins with.
  unfoldable pub compiles_all : Bool
  compiles_all =
      rx.compiles reg_var
      && rx.compiles reg_comments
      && rx.compiles reg_tags
      && rx.compiles reg_key_val
      && rx.compiles reg_defvar

  module _ (place : Placement) where
    -- The [where] part of `addNewSection`. `loadConstraints` works on the buffer itself.
    unfoldable pub load_where : Reader → Result (List Constraint) × Text → Outcome Reader
    unfolding set_where
    load_where r (err e, rest) =
        raised e (record r { members = record r.members { where_buffer = rest } })
    load_where r (ok cs, rest) = done (record r {
      members = record r.members { where_buffer = [] };
      section = record r.section { query = set_where r.section.query cs };
      complete = elim cs [ [] ↦ set_part where_tag false r.complete | _ ∷ _ ↦ r.complete ];
    })

    -- The [select] part.
    unfoldable pub load_select : Reader → Result (List Attribute) × Text → Outcome Reader
    unfolding set_select
    load_select r (err e, rest) =
        raised e (record r { members = record r.members { attribute_buffer = rest } })
    load_select r (ok attrs, rest) = done (record r {
      members = record r.members { attribute_buffer = [] };
      section = record r.section { query = set_select r.section.query attrs };
      complete = elim attrs [ [] ↦ set_part select_tag false r.complete | _ ∷ _ ↦ r.complete ];
    })

    -- The end of `addNewSection`.
    unfoldable pub push_section : Reader → Outcome Reader
    push_section r =
        if meets r.required r.complete
        then done
            (record r { members = record r.members { dataset = r.dataset ++ r.section ∷ [] } })
        else raised syntax_user r

    -- `addNewSection`
    unfoldable pub add_new_section : Reader → Outcome Reader
    unfolding load_where load_select push_section
    add_new_section r =
        then_do
          (if test_part where_tag r.complete
            then load_where r (load_constraints rx place r.where_buffer)
            else done r)
          λ r1.
            then_do
              (if test_part select_tag r1.complete
                then load_select r1 (load_attributes rx r1.attribute_buffer)
                else done r1)
              push_section

    -- The [section] tag in `partTracking`.
    unfoldable pub track_section : Reader → Outcome Reader
    unfolding add_new_section
    track_section r =
        if r.start
        then done (record r { start = false; reading_part = some section_tag })
        else then_do (add_new_section r) λ r1. done (record r1 {
          complete = no_parts;
          section = new_section;
          reading_part = some section_tag;
        })

    -- `partTracking`; any other tag leaves the part as it is.
    unfoldable pub part_tracking : Reader → Text → Option Span → Outcome Reader
    unfolding track_section
    part_tracking r row none = raised out_of_range r
    part_tracking r row (some s) =
        let tag = span_text row s in
        if text_eq tag (codes "[section]")
        then track_section r
        else if text_eq tag (codes "[select]")
        then done (record r { reading_part = some select_tag })
        else if text_eq tag (codes "[from]")
        then done (record r { reading_part = some from_tag })
        else if text_eq tag (codes "[where]")
        then done (record r { reading_part = some where_tag })
        else if text_eq tag (codes "[other]")
        then done (record r { reading_part = some other_tag })
        else done r

    abbrev plain_row : Reader → Result Text → Outcome Reader
    plain_row r (ok row) = add_row r row
    plain_row r (err e) = raised e r

    -- One row of the file.
    unfoldable pub read_row : Reader → Text → Outcome Reader
    unfolding define_variable part_tracking substitute add_row
    read_row r row = if is_empty row then done r else elim (rx.exec reg_comments row) [
      | some g ↦ done r
      | none ↦ elim (rx.exec reg_defvar row) [
        | some g ↦ define_variable r row (g 1) (g 2)
        | none ↦ elim (rx.exec reg_tags row) [
          | some g ↦ part_tracking r row (g 1)
          | none ↦ plain_row r (substitute r.vars row)
        ]
      ]
    ]

    unfoldable pub read_rows : Reader → List Text → Outcome Reader
    unfolding read_row
    read_rows r [] = done r
    read_rows r (row ∷ rows) = then_do (read_row r row) λ r'. read_rows r' rows

    -- Behind the loop: the last section, and the value that `read` returns.
    unfoldable pub end_reading : Reader → Outcome (Members × Bool)
    unfolding add_new_section
    end_reading r = if r.start then done (r.members, false) else elim (add_new_section r) [
      | done r' ↦ done (r'.members, true)
      | raised e r' ↦ raised e (r'.members, false)
    ]

    -- `read` once the patterns are compiled: open the file, and read its rows.
    unfoldable pub read_file : Members → Option (List Text) → Outcome (Members × Bool)
    unfolding start_reading read_rows end_reading
    read_file m file = elim file [
      | none ↦ raised internal (m, false)
      | some rows ↦ elim (read_rows (start_reading m) rows) [
        | done r ↦ end_reading r
        | raised e r ↦ raised e (r.members, false)
      ]
    ]

    -- `SQLTextContainer::read`. The file is its rows as `getline` gives them, or `none` if it
    -- cannot be opened. The value beside the members has no meaning after a throw.
    unfoldable pub read : Members → Option (List Text) → Outcome (Members × Bool)
    unfolding compiles_all read_file only_bes_errors
    read m file =
        only_bes_errors (if compiles_all then read_file m file else raised internal (m, false))
