-- ===== src/Values/Copies/Drops.antt =====
-- A variable that has been read and its copies give back no string twice.
use sql_handler.Call.{resume}
use sql_handler.Odbc.State.{Driver, no_buffer}
use sql_handler.Outcome.{Result, ok, err}
use sql_handler.Prelude.{
  ◌≡◌, refl, sym, ap, ◌∙◌, Bool, true, false, Option, none, some, inl, inr, if◌then◌else◌,
}
use sql_handler.Values.{
  Address, CastAction, Form, simple, simple_void, dummy, Variable, Dap, Reading, on_world, put_val,
  release, free_value, run_cast, pointed_string, free_unless, cast, set_value, val2buf, read_simple,
  read_void, read_dummy, read_value, debugged, fatal_if_bes, read_variable,
}
use sql_handler.Values.Copies.{copy_cast, copy_of_form, copy_variable, drop_variable}
use sql_handler.Values.Copies.Keeps.{
  After, After-resume, After-if, Reuses, Settled, run_cast-Reuses, pointed_string-Reuses,
  free_unless-Settled, free_unless-Reuses, cast-Reuses, val2buf-Reuses,
}

module _ {W V : Type 0} where
  Settled-drops : (r : Reading W V) → Settled r → drop_variable r ≡ (r, ok tt)
  unfolding drop_variable free_unless free_value
  Settled-drops r (inl e) = ap (λ (b : Bool). if b then (r, ok tt) else free_value r) e
  Settled-drops r (inr e) = either r.variable.action.reuse (nothing_to_free r e)
    where
      nothing_to_free : (s : Reading W V) → s.variable.action.val ≡ none → free_value s ≡ (s, ok tt)
      nothing_to_free s q =
          ap
            (λ (o : Option Address). elim o as (λ x. Reading W V × Result (Unit {0})) [
              | none ↦ (s, ok tt)
              | some old ↦ resume (on_world (release old) s) λ u s. (put_val none s, ok tt)
            ])
            q

      either : (b : Bool) {x y : Reading W V × Result (Unit {0})} → y ≡ x → (if b then x else y) ≡ x
      either true q = refl
      either false q = q

module _ {V : Type 0} (lib : Dap V) where
  copied_action : (f : Form) (x : Variable V) → (copy_of_form lib f x).action ≡ x.action
  unfolding copy_of_form copy_cast
  copied_action simple x = refl
  copied_action simple_void x = refl
  copied_action dummy x = refl

module _ {W V : Type 0} (lib : Dap V) where
  abbrev copied : Reading W V → Reading W V
  copied r = record r { variable = copy_variable lib r.variable }

  -- The destructors of the variable and of a copy of it give nothing back.
  abbrev pub Dropped : Reading W V → Type 0
  Dropped r = (drop_variable r ≡ (r, ok tt)) × (drop_variable (copied r) ≡ (copied r, ok tt))

  copied-Settled : (r : Reading W V) → Settled r → Settled (copied r)
  unfolding copy_variable
  copied-Settled r (inl e) =
      inl (ap (λ (a : CastAction). a.reuse) (copied_action lib r.variable.form r.variable) ∙ e)
  copied-Settled r (inr e) =
      inr (ap (λ (a : CastAction). a.val) (copied_action lib r.variable.form r.variable) ∙ e)

  Settled-Dropped : (r : Reading W V) → Settled r → Dropped r
  Settled-Dropped r h = (Settled-drops r h, Settled-drops (copied r) (copied-Settled r h))

module _ {W V : Type 0} (d : Driver W) (lib : Dap V) where
  simple-Settled :
      (r : Reading W V)
      → r.variable.action.reuse ≡ r.variable.reuse
      → After (λ u. Settled) (read_simple d lib r)
  unfolding read_simple
  simple-Settled r e =
      let b : Bool × Bool = (r.variable.reuse, r.variable.reuse) in
      After-resume (λ a. Reuses b) (λ u. Settled) (cast d lib r) _ (cast-Reuses d lib b r (e, refl))
        λ a s k.
          After-resume (λ t. Reuses b) (λ u. Settled) (pointed_string a s) _
            (pointed_string-Reuses b a s k)
            λ t s' k'. free_unless-Settled r.variable.reuse (set_value d lib t s') k'.0

  void-Settled :
      (r : Reading W V) → r.variable.action.reuse ≡ true → After (λ u. Settled) (read_void d lib r)
  unfolding read_void
  void-Settled r e =
      let b : Bool × Bool = (true, r.variable.reuse) in
      After-resume (λ a. Reuses b) (λ u. Settled) (cast d lib r) _ (cast-Reuses d lib b r (e, refl))
        λ a s k.
          After-resume (λ u. Reuses b) (λ u. Settled) (val2buf d lib a s) _
            (val2buf-Reuses d lib b a s k)
            λ u s' k'.
              After-resume (λ u. Reuses b) (λ u. Settled) (free_unless r.variable.reuse s') _
                (free_unless-Reuses b r.variable.reuse s' k') λ u s'' k''. inl k''.0

  dummy-Settled : (r : Reading W V) → After (λ u. Settled) (read_dummy d lib r)
  unfolding read_dummy
  dummy-Settled r =
      let b : Bool × Bool = (r.variable.action.reuse, r.variable.reuse) in
      After-resume (λ a. Reuses b) (λ u. Settled) (run_cast no_buffer r) _
        (run_cast-Reuses b no_buffer r (refl, refl))
        λ a s k.
          After-resume (λ t. Reuses b) (λ u. Settled) (pointed_string a s) _
            (pointed_string-Reuses b a s k)
            λ t s' k'. free_unless-Settled r.variable.action.reuse (set_value d lib t s') k'.0

  -- A variable as the type factory makes it, or one of the builders.
  abbrev pub Matched : Form → Variable V → Type 0
  Matched simple x = x.action.reuse ≡ x.reuse
  Matched simple_void x = x.action.reuse ≡ true
  Matched dummy x = Unit

  value-Settled :
      (f : Form) (r : Reading W V)
      → Matched f r.variable
      → After (λ u. Settled) (read_value d lib f r)
  unfolding read_value
  value-Settled simple r m = simple-Settled r m
  value-Settled simple_void r m = void-Settled r m
  value-Settled dummy r m = dummy-Settled r

  debugged-Reuses :
      (b : Bool × Bool) (debug : Bool) (f : Form) (r : Reading W V)
      → Reuses b r
      → After (λ u. Reuses b) (debugged d lib debug f r)
  unfolding debugged
  debugged-Reuses b false f r h = h
  debugged-Reuses b true dummy r h = h
  debugged-Reuses b true simple r h =
      After-resume (λ a. Reuses b) (λ u. Reuses b) (cast d lib r) _ (cast-Reuses d lib b r h)
        λ a s k. k
  debugged-Reuses b true simple_void r h =
      After-resume (λ a. Reuses b) (λ u. Reuses b) (cast d lib r) _ (cast-Reuses d lib b r h)
        λ a s k. k

  Reuses-Matched :
      (f : Form) (r s : Reading W V)
      → Reuses (r.variable.action.reuse, r.variable.reuse) s
      → Matched f r.variable
      → Matched f s.variable
  Reuses-Matched simple r s h m = h.0 ∙ m ∙ sym h.1
  Reuses-Matched simple_void r s h m = h.0 ∙ m
  Reuses-Matched dummy r s h m = tt

  -- Once a read has returned, the destructors of the variable and of a copy of it return and give
  -- nothing back, if the variable had nothing to give back before.
  read-drops :
      (debug : Bool) (r : Reading W V)
      → Matched r.variable.form r.variable
      → Settled r
      → After (λ b. Dropped lib) (read_variable d lib debug r)
  unfolding read_variable
  read-drops debug r m h =
      After-if (λ b. Dropped lib) r.variable.read_p _ _ (Settled-Dropped lib r h)
        (After-fatal _ (
          After-resume (λ u. Reuses (r.variable.action.reuse, r.variable.reuse)) (λ b. Dropped lib)
            (debugged d lib debug r.variable.form r) _
            (debugged-Reuses (r.variable.action.reuse, r.variable.reuse) debug r.variable.form r
              (refl, refl))
            λ u s k.
              After-resume (λ u. Settled) (λ b. Dropped lib) (read_value d lib r.variable.form s) _
                (value-Settled r.variable.form s (Reuses-Matched r.variable.form r s k m))
                λ u s' k'. Settled-Dropped lib s' k'))
    where
      After-fatal :
          (x : Reading W V × Result Bool)
          → After (λ b. Dropped lib) x
          → After (λ b. Dropped lib) (fatal_if_bes d lib x)
      After-fatal (s, ok a) h = h
      After-fatal (s, err e) h = tt
