-- ===== src/Values/Copies/Keeps.antt =====
-- What the steps of a read keep: the two flags of a variable that say whether its strings are kept.
use sql_handler.Call.{Call, resume, check_that}
use sql_handler.Odbc.Calls.{get_next}
use sql_handler.Odbc.State.{Driver, Pointer}
use sql_handler.Outcome.{Error, Result, ok, err, internal_fatal}
use sql_handler.Prelude.{
  ◌≡◌, refl, Bool, true, false, Option, none, some, ◌⊎◌, inl, inr, if◌then◌else◌,
}
use sql_handler.Values.{
  World, Address, Dap, Reading, on_world, put_val, release, set_val, free_value, apply, run_cast,
  pointed_string, free_unless, next_pointer, cast, val2buf, content,
}

-- If a call returns, `P` holds of the value and the object.
abbrev pub After : {S A : Type 0} → (A → S → Type 0) → S × Result A → Type 0
After P (s, ok a) = P a s
After P (s, err e) = Unit

pub After-resume :
    {S A B : Type 0} (P : A → S → Type 0) (Q : B → S → Type 0) (r : S × Result A) (k : A → Call S B)
    → After P r
    → ((a : A) (s : S) → P a s → After Q (k a s))
    → After Q (resume r k)
After-resume P Q (s, ok a) k h g = g a s h
After-resume P Q (s, err e) k h g = tt

After-state : {S A : Type 0} (P : S → Type 0) (s : S) (x : Result A) → P s → After (λ a. P) (s, x)
After-state P s (ok a) h = h
After-state P s (err e) h = tt

pub After-if :
    {S A : Type 0} (P : A → S → Type 0) (b : Bool) (x y : S × Result A)
    → After P x
    → After P y
    → After P (if b then x else y)
After-if P true x y h k = h
After-if P false x y h k = k

After-option :
    {S A B : Type 0} (P : A → S → Type 0) (o : Option B) (x : S × Result A) (f : B → S × Result A)
    → After P x
    → ((b : B) → After P (f b))
    → After P (elim o [ none ↦ x | some b ↦ f b ])
After-option P none x f h k = h
After-option P (some b) x f h k = k b

After-result :
    {S A B : Type 0} (P : A → S → Type 0) (o : Result B) (f : Error → S × Result A)
    (g : B → S × Result A)
    → ((e : Error) → After P (f e))
    → ((b : B) → After P (g b))
    → After P (elim o [ err e ↦ f e | ok b ↦ g b ])
After-result P (err e) f g h k = h e
After-result P (ok b) f g h k = k b

module _ {W V : Type 0} where
  -- Whether the cast of the variable, and the variable, keep the strings.
  abbrev pub Reuses : Bool × Bool → Reading W V → Type 0
  Reuses b r = (r.variable.action.reuse ≡ b.0) × (r.variable.reuse ≡ b.1)

  -- The destructor of the variable's cast has nothing to give back.
  abbrev pub Settled : Reading W V → Type 0
  Settled r = (r.variable.action.reuse ≡ true) ⊎ (r.variable.action.val ≡ none)

  on_world-Reuses :
      {A : Type 0} (b : Bool × Bool) (m : Call (World W) A) (r : Reading W V)
      → Reuses b r
      → After (λ a. Reuses b) (on_world m r)
  on_world-Reuses b m r h =
      After-state (Reuses b) (record r { world = (m r.world).0 }) (m r.world).1 h

  pub set_val-Reuses :
      (b : Bool × Bool) (v : Option Address) (r : Reading W V)
      → Reuses b r
      → After (λ a. Reuses b) (set_val v r)
  unfolding set_val
  set_val-Reuses b v r h =
      After-option (λ a. Reuses b) r.variable.action.val _ _ h
        λ old.
          After-if (λ a. Reuses b) r.variable.action.reuse _ _ h
            (After-resume (λ a. Reuses b) (λ a. Reuses b) (on_world (release old) r) _
              (on_world-Reuses b (release old) r h) λ a s k. k)

  pub run_cast-Reuses :
      (b : Bool × Bool) (p : Pointer) (r : Reading W V)
      → Reuses b r
      → After (λ a. Reuses b) (run_cast p r)
  unfolding run_cast
  run_cast-Reuses b p r h =
      After-resume (λ a. Reuses b) (λ a. Reuses b) (on_world (apply r.variable.action.cast p) r) _
        (on_world-Reuses b (apply r.variable.action.cast p) r h)
        λ v s k.
          After-resume (λ a. Reuses b) (λ a. Reuses b) (set_val v s) _ (set_val-Reuses b v s k)
            λ a s' k'. k'

  pub pointed_string-Reuses :
      (b : Bool × Bool) (a : Option Address) (r : Reading W V)
      → Reuses b r
      → After (λ t. Reuses b) (pointed_string a r)
  unfolding pointed_string
  pointed_string-Reuses b a r h =
      After-result (λ t. Reuses b) (content a r.world) _ _ (λ e. tt)
        λ t. After-option (λ t. Reuses b) t _ _ tt λ s. h

  -- The value is given back if it is not kept.
  pub free_unless-Settled :
      (b : Bool) (r : Reading W V)
      → r.variable.action.reuse ≡ b
      → After (λ a. Settled) (free_unless b r)
  unfolding free_unless free_value
  free_unless-Settled true r h = inl h
  free_unless-Settled false r h = go r.variable.action.val refl
    where
      go :
          (o : Option Address)
          → r.variable.action.val ≡ o
          → After
              (λ a. Settled)
              (elim o as (λ x. Reading W V × Result (Unit {0})) [
                | none ↦ (r, ok tt)
                | some old ↦ resume (on_world (release old) r) λ u s. (put_val none s, ok tt)
              ])
      go none e = inr e
      go (some old) e =
          After-resume (λ a s. Unit {0}) (λ a. Settled) (on_world (release old) r) _
            (After-state (λ s. Unit {0}) (record r { world = (release old r.world).0 })
              (release old r.world).1 tt)
            λ a s k. inr refl

  pub free_unless-Reuses :
      (b : Bool × Bool) (c : Bool) (r : Reading W V)
      → Reuses b r
      → After (λ a. Reuses b) (free_unless c r)
  unfolding free_unless free_value
  free_unless-Reuses b c r h =
      After-if (λ a. Reuses b) c _ _ h
        (After-option (λ a. Reuses b) r.variable.action.val _ _ h
          λ old.
            After-resume (λ a. Reuses b) (λ a. Reuses b) (on_world (release old) r) _
              (on_world-Reuses b (release old) r h) λ a s k. k)

  check_that-Reuses :
      (b : Bool × Bool) (c : Bool) (e : Error) (r : Reading W V)
      → Reuses b r
      → After (λ a. Reuses b) (check_that c e r)
  check_that-Reuses b true e r h = h
  check_that-Reuses b false e r h = tt

module _ {W V : Type 0} (d : Driver W) (lib : Dap V) where
  pub cast-Reuses :
      (b : Bool × Bool) (r : Reading W V) → Reuses b r → After (λ a. Reuses b) (cast d lib r)
  unfolding cast
  cast-Reuses b r h =
      After-resume (λ a. Reuses b) (λ a. Reuses b)
        (check_that r.world.connector.ready internal_fatal r) _
        (check_that-Reuses b r.world.connector.ready internal_fatal r h)
        λ u s k.
          After-resume (λ a. Reuses b) (λ a. Reuses b) (next_pointer d lib s) _
            (on_world-Reuses b
              (λ w. let (c, p) = get_next d 1 w.connector in (record w { connector = c }, p)) s k)
            λ p s' k'. run_cast-Reuses b p s' k'

  pub val2buf-Reuses :
      (b : Bool × Bool) (a : Option Address) (r : Reading W V)
      → Reuses b r
      → After (λ u. Reuses b) (val2buf d lib a r)
  unfolding val2buf
  val2buf-Reuses b a r h =
      After-result (λ u. Reuses b) (content a r.world) _ _ (λ e. tt)
        λ t.
          After-result (λ u. Reuses b) (lib.val2buf r.variable.dap t r.variable.value) _ _ (λ e. tt)
            λ v. h
