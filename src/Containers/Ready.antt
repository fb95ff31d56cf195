-- ===== src/Containers/Ready.antt =====
-- What a container that was set up offers, and what the factory returns.
use mathlib.Core.Path.{subst}
use sql_handler.Call.{Call, resume}
use sql_handler.Containers.{
  Container, Files, begin, clear, empty, emptied, reset, init, after_read, setup, demand_setup,
  constructed, unread, new_container,
}
use sql_handler.Containers.Factory.{make_ready}
use sql_handler.Dataset.Complete.{IsFilled}
use sql_handler.Dataset.Parts.{Section}
use sql_handler.Dataset.State.{Members}
use sql_handler.Dataset.Reading.{read-IsFilled}
use sql_handler.Outcome.{Error, Result, ok, err, ok-injective, Outcome, done, raised, internal}
use sql_handler.Prelude.{
  ◌≡◌, refl, sym, ap, ◌∙◌, Bool, true, false, not, some, List, [], ◌∷◌, Text, All, has_any,
  if◌then◌else◌,
}
use sql_handler.Query.Constraints.{Placement}
use sql_handler.Regex.{Regex}

-- A container in front of its first section, each section with a SELECT attribute and a FROM text.
pub record IsUsable (c : Container) : Type 0 where
  pub ready : c.is_ready ≡ true
  pub some_section : has_any c.members.dataset ≡ true
  pub on_first : c.actual_section ≡ some 0
  pub filled : All IsFilled c.members.dataset
  pub where_clean : c.members.where_buffer ≡ []
  pub attribute_clean : c.members.attribute_buffer ≡ []

begin-some : (xs : List Section) → has_any xs ≡ true → begin xs ≡ some 0
begin-some [] h = cc
begin-some (x ∷ xs) h = refl

no_section : (xs : List Section) → has_any xs ≡ false → xs ≡ []
no_section [] h = refl
no_section (x ∷ xs) h = cc

-- What `setup` reads into.
record IsEmptied (c d : Container) : Type 0 where
  no_sections : d.members.dataset ≡ []
  where_same : d.members.where_buffer ≡ c.members.where_buffer
  attribute_same : d.members.attribute_buffer ≡ c.members.attribute_buffer
  constraint_same : d.constraint ≡ c.constraint
  attributes_same : d.attributes ≡ c.attributes

emptied-IsEmptied : (c : Container) → IsEmptied c (emptied c)
unfolding emptied empty clear
emptied-IsEmptied c = go (has_any c.members.dataset) refl
  where
    go : (b : Bool) → has_any c.members.dataset ≡ b → IsEmptied c (if not b then c else clear c)
    go true e = record {
      no_sections = refl;
      where_same = refl;
      attribute_same = refl;
      constraint_same = refl;
      attributes_same = refl;
    }
    go false e = record {
      no_sections = no_section c.members.dataset e;
      where_same = refl;
      attribute_same = refl;
      constraint_same = refl;
      attributes_same = refl;
    }

module _ (rx : Regex) (place : Placement) (f : Files) where
  after_read-IsUsable :
      (c c' : Container) (x : Outcome (Members × Bool))
      → ((m : Members)
          → x ≡ done (m, true)
          → (m.where_buffer ≡ [])
            × (m.attribute_buffer ≡ [])
            × All IsFilled m.dataset
            × (has_any m.dataset ≡ true))
      → after_read rx place f c x ≡ (c', ok true)
      → IsUsable c'
  unfolding after_read init reset
  after_read-IsUsable c c' (done (m, true)) k e =
      let (hw, ha, hf, hs) = k m refl in
      subst IsUsable (ap (λ (y : Container × Result Bool). y.0) e) (record {
        ready = refl;
        some_section = hs;
        on_first = begin-some m.dataset hs;
        filled = hf;
        where_clean = hw;
        attribute_clean = ha;
      })
  after_read-IsUsable c c' (done (m, false)) k e =
      absurd (differ (ap (λ (y : Container × Result Bool). y.1) e))
    where
      differ : ok false ≡ ok true → ⊥
      differ e = cc
  after_read-IsUsable c c' (raised x y) k e =
      absurd (differ (ap (λ (y : Container × Result Bool). y.1) e))
    where
      differ : err x ≡ ok true → ⊥
      differ e = cc

  pub setup-IsUsable :
      (c c' : Container)
      → c.members.where_buffer ≡ []
      → c.members.attribute_buffer ≡ []
      → setup rx place f c ≡ (c', ok true)
      → IsUsable c'
  unfolding setup
  setup-IsUsable c c' hw ha e =
      let v = emptied-IsEmptied c in
      after_read-IsUsable (emptied c) c' _
        (λ m q.
          read-IsFilled rx place (emptied c).members m (f.rows (emptied c).real_name)
            (v.where_same ∙ hw) (v.attribute_same ∙ ha)
            (subst (All IsFilled) (sym v.no_sections) tt) q)
        e

  -- A call whose value, if it returns, has the property `P`.
  abbrev pub Yields : {S A : Type 0} → (A → Type 0) → S × Result A → Type 0
  Yields P (s, ok a) = P a
  Yields P (s, err e) = Unit

  pub Yields-resume :
      {S A B : Type 0} (P : A → Type 0) (Q : B → Type 0) (x : S × Result A) (k : A → Call S B)
      → Yields P x
      → ((a : A) (s : S) → P a → Yields Q (k a s))
      → Yields Q (resume x k)
  Yields-resume P Q (s, ok a) k h g = g a s h
  Yields-resume P Q (s, err e) k h g = tt

  -- `setup` and the test behind it: a ready container, with the request of `c`.
  abbrev pub ReadyFor : Container → Container → Type 0
  ReadyFor c c' =
      (c'.is_ready ≡ true) × (c'.constraint ≡ c.constraint) × (c'.attributes ≡ c.attributes)

  abbrev pub MadeReady : Container → Container × Result (Unit {0}) → Type 0
  MadeReady c (c', ok u) = ReadyFor c c'
  MadeReady c (c', err e) = Unit

  after_read-MadeReady :
      (c d : Container) (x : Outcome (Members × Bool))
      → IsEmptied c d
      → MadeReady c (demand_setup rx place f (after_read rx place f d x))
  unfolding after_read demand_setup init reset
  after_read-MadeReady c d (done (m, true)) v = (refl, v.constraint_same, v.attributes_same)
  after_read-MadeReady c d (done (m, false)) v = tt
  after_read-MadeReady c d (raised e (m, b)) v = tt

  pub make_ready-MadeReady : (c : Container) → MadeReady c (make_ready rx place f c)
  unfolding make_ready setup
  make_ready-MadeReady c = go c.is_ready refl
    where
      go :
          (b : Bool)
          → c.is_ready ≡ b
          → MadeReady c (if b then (c, ok tt) else demand_setup rx place f (setup rx place f c))
      go true e = (e, refl, refl)
      go false e = after_read-MadeReady c (emptied c) _ (emptied-IsEmptied c)

  -- A container that is made of the dataset file at `real_name`: if the constructor returns, the
  -- container is ready and on its first section, its dataset has a section, and every section of it
  -- has a SELECT attribute and a FROM text.
  pub new_container-IsUsable :
      (name real_name type : Text) (c : Container)
      → new_container rx place f name real_name type ≡ ok c
      → (c.is_ready ≡ true)
        × (c.actual_section ≡ some 0)
        × (has_any c.members.dataset ≡ true)
        × All IsFilled c.members.dataset
  unfolding new_container
  new_container-IsUsable name real_name type c e =
      go (setup rx place f (unread rx place f name real_name type)) refl e
    where
      thrown : (x : Error) → err x ≡ ok c → ⊥
      thrown x h = cc

      go :
          (x : Container × Result Bool)
          → setup rx place f (unread rx place f name real_name type) ≡ x
          → constructed rx place f (demand_setup rx place f x) ≡ ok c
          → (c.is_ready ≡ true)
            × (c.actual_section ≡ some 0)
            × (has_any c.members.dataset ≡ true)
            × All IsFilled c.members.dataset
      go (c', ok true) q h =
          let v = setup-IsUsable (unread rx place f name real_name type) c' refl refl q in
          subst
            (λ d.
              (d.is_ready ≡ true)
              × (d.actual_section ≡ some 0)
              × (has_any d.members.dataset ≡ true)
              × All IsFilled d.members.dataset)
            (ok-injective h) (v.ready, v.on_first, v.some_section, v.filled)
      go (c', ok false) q h = absurd (thrown internal h)
      go (c', err x) q h = absurd (thrown x h)
