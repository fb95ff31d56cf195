-- ===== src/Dataset/Stored.antt =====
-- `addNewSection` stores filled sections only, and leaves both buffers empty.
use mathlib.Core.Path.{subst}
use sql_handler.Dataset.Complete.{Inv, IsFilled}
use sql_handler.Dataset.Parts.{Diary, set_part, test_part, no_parts, requirements, meets}
use sql_handler.Dataset.State.{Reader}
use sql_handler.Dataset.{load_where, load_select, push_section, add_new_section}
use sql_handler.Outcome.{Result, ok, err, Ensures, Ensures-if, Ensures-then_do}
use sql_handler.Prelude.{
  has_any, has_any-append, ◌≡◌, refl, inl, inr, true, false, List, [], ◌∷◌, Text, All, All-append,
  arith, Bool-cases,
}
use sql_handler.Query.{set_select, set_where}
use sql_handler.Query.Attributes.{Attribute}
use sql_handler.Query.Constraints.{Constraint, Placement}
use sql_handler.Regex.{Regex}

-- After the [where] part of `addNewSection`.
record Loaded (r : Reader) : Type 0 where
  where_empty : r.where_buffer ≡ []
  inv : Inv r

-- After the [select] part.
record Ready (r : Reader) : Type 0 where
  where_empty : r.where_buffer ≡ []
  attribute_empty : r.attribute_buffer ≡ []
  select_found : r.complete.select_tag ≡ true → has_any r.section.query.select ≡ true
  from_found : r.complete.from_tag ≡ true → has_any r.section.query.from_part ≡ true
  asked : r.required ≡ requirements
  filled : All IsFilled r.dataset

-- After `addNewSection`.
pub record IsStored (r : Reader) : Type 0 where
  pub where_empty : r.where_buffer ≡ []
  pub attribute_empty : r.attribute_buffer ≡ []
  pub asked : r.required ≡ requirements
  pub filled : All IsFilled r.dataset
  pub has_section : has_any r.dataset ≡ true

module _ (rx : Regex) (place : Placement) where
  load_where-Loaded :
      (r : Reader) (x : Result (List Constraint) × Text)
      → Inv r
      → Ensures Loaded (load_where rx place r x)
  unfolding load_where set_where set_part
  load_where-Loaded r (err e, rest) v = tt
  load_where-Loaded r (ok [], rest) v = record {
    where_empty = refl;
    inv = record {
      where_clean = λ e. refl;
      attribute_clean = v.attribute_clean;
      from_found = v.from_found;
      asked = v.asked;
      filled = v.filled;
    };
  }
  load_where-Loaded r (ok (c ∷ cs), rest) v = record {
    where_empty = refl;
    inv = record {
      where_clean = λ e. refl;
      attribute_clean = v.attribute_clean;
      from_found = v.from_found;
      asked = v.asked;
      filled = v.filled;
    };
  }

  load_select-Ready :
      (r : Reader) (x : Result (List Attribute) × Text)
      → Loaded r
      → Ensures Ready (load_select rx place r x)
  unfolding load_select set_select set_part
  load_select-Ready r (err e, rest) v = tt
  load_select-Ready r (ok [], rest) v = record {
    where_empty = v.where_empty;
    attribute_empty = refl;
    select_found = λ e. cc;
    from_found = v.inv.from_found;
    asked = v.inv.asked;
    filled = v.inv.filled;
  }
  load_select-Ready r (ok (a ∷ as'), rest) v = record {
    where_empty = v.where_empty;
    attribute_empty = refl;
    select_found = λ e. refl;
    from_found = v.inv.from_found;
    asked = v.inv.asked;
    filled = v.inv.filled;
  }

  meets_parts :
      (c : Diary) → meets requirements c ≡ true → (c.select_tag ≡ true) × (c.from_tag ≡ true)
  unfolding meets requirements set_part no_parts
  meets_parts c h = ground arith

  unselected : (r : Reader) → Loaded r → r.complete.select_tag ≡ false → Ready r
  unselected r v e = record {
    where_empty = v.where_empty;
    attribute_empty = v.inv.attribute_clean e;
    select_found = λ e'. cc;
    from_found = v.inv.from_found;
    asked = v.inv.asked;
    filled = v.inv.filled;
  }

  push_section-IsStored : (r : Reader) → Ready r → Ensures IsStored (push_section rx place r)
  unfolding push_section
  push_section-IsStored r v = elim (Bool-cases (meets r.required r.complete)) [
    | inl e ↦
        let (s, f) = meets_parts r.complete (subst (λ q. meets q r.complete ≡ true) v.asked e) in
        rw e (record {
          where_empty = v.where_empty;
          attribute_empty = v.attribute_empty;
          asked = v.asked;
          filled =
              All-append IsFilled r.dataset (r.section ∷ []) v.filled
                (record { selects = v.select_found s; has_from = v.from_found f }, tt);
          has_section = has_any-append r.dataset r.section [];
        })
    | inr e ↦ rw e tt
  ]

  pub add_new_section-IsStored :
      (r : Reader) → Inv r → Ensures IsStored (add_new_section rx place r)
  unfolding add_new_section test_part
  add_new_section-IsStored r v =
      Ensures-then_do Loaded IsStored _ _
        (Ensures-if Loaded r.complete.where_tag _ _ (λ e. load_where-Loaded r _ v)
          (λ e. record { where_empty = v.where_clean e; inv = v }))
        λ r1 v1.
          Ensures-then_do Ready IsStored _ _
            (Ensures-if Ready r1.complete.select_tag _ _ (λ e. load_select-Ready r1 _ v1)
              (λ e. unselected r1 v1 e))
            push_section-IsStored
