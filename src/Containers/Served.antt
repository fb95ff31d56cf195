-- ===== src/Containers/Served.antt =====
-- The container that the factory returns.
use mathlib.Core.Path.{subst}
use sql_handler.Call.{resume}
use sql_handler.Containers.{Container, Files, duplicate, with_request}
use sql_handler.Containers.Factory.{
  BesContainer, Requested, plain, sql, Storage, Factory, Select, make_ready, built, with_request_of,
  build_container, update, update_with, refresh, look_for, found_or_built, as_internal,
  only_internal, build_and_add, get_stored, as_bes, found_as, get_container,
}
use sql_handler.Containers.Ready.{MadeReady, make_ready-MadeReady, Yields, Yields-resume}
use sql_handler.Outcome.{Error, Result, ok, err}
use sql_handler.Prelude.{◌≡◌, refl, Bool, true, false, Option, none, some, Text, if◌then◌else◌}
use sql_handler.Query.Constraints.{Placement}
use sql_handler.Regex.{Regex}

module _ (rx : Regex) (place : Placement) (f : Files) where
  -- Ready, with the constraint and the attributes that are asked for.
  abbrev pub Serves : BesContainer → Container → Type 0
  Serves b c = (c.is_ready ≡ true) × (c.constraint ≡ b.constraint) × (c.attributes ≡ b.attributes)

  abbrev ServesAny : BesContainer → Result Container → Type 0
  ServesAny b (ok c) = Serves b c
  ServesAny b (err e) = Unit

  built-ServesAny :
      (b : BesContainer) (c : Container) (x : Container × Result (Unit {0}))
      → MadeReady rx place f (with_request b.attributes b.constraint c) x
      → ServesAny b (built rx place f x)
  built-ServesAny b c (c', ok u) m = m
  built-ServesAny b c (c', err e) m = tt

  only_internal-ServesAny :
      (b : BesContainer) (x : Result Container) → ServesAny b x → ServesAny b (only_internal x)
  only_internal-ServesAny b (ok c) h = h
  only_internal-ServesAny b (err e) h = tt

  build_container-ServesAny :
      (select : Select) (b : BesContainer) → ServesAny b (build_container rx place f select b)
  unfolding build_container
  build_container-ServesAny select b =
      only_internal-ServesAny b _ (go (select b.real_name b.real_name b.container_type))
    where
      go : (x : Result Container) → ServesAny b (with_request_of rx place f b x)
      go (ok c) =
          built-ServesAny b c _
            (make_ready-MadeReady rx place f (with_request b.attributes b.constraint c))
      go (err e) = tt

  module _ {S : Type 0} (storage : Storage S) where
    Yields-any : {A : Type 0} (x : S × Result A) → Yields rx place f (λ a. Unit {0}) x
    Yields-any (s, ok a) = tt
    Yields-any (s, err e) = tt

    update_with-Yields :
        (c : Container) (x : Container × Result (Unit {0})) (s : S)
        → MadeReady rx place f c x
        → Yields rx place f
            (λ d. MadeReady rx place f c (d, ok tt))
            (update_with rx place f storage x s)
    unfolding update_with
    update_with-Yields c (c', err e) s m = tt
    update_with-Yields c (c', ok u) s m =
        Yields-resume rx place f (λ b. Unit {0}) (λ d. MadeReady rx place f c (d, ok tt))
          (update rx place f storage (duplicate f c') s) _
          (Yields-any (update rx place f storage (duplicate f c') s)) λ b s' t. m

    OptionReady : Option Container → Type 0
    OptionReady none = Unit
    OptionReady (some c) = c.is_ready ≡ true

    refresh-Yields :
        (found : Option Container) (s : S)
        → Yields rx place f OptionReady (refresh rx place f storage found s)
    unfolding refresh OptionReady
    refresh-Yields none s = tt
    refresh-Yields (some c) s = go c.is_ready refl
      where
        go :
            (b : Bool)
            → c.is_ready ≡ b
            → Yields rx place f OptionReady (
                if b
                then (s, ok (some c))
                else resume
                    (update_with rx place f storage (make_ready rx place f c) s)
                    λ c' s'. (s', ok (some c')))
        go true e = e
        go false e =
            Yields-resume rx place f (λ d. MadeReady rx place f c (d, ok tt)) OptionReady
              (update_with rx place f storage (make_ready rx place f c) s)
              (λ c' s'. (s', ok (some c')))
              (update_with-Yields c _ s (make_ready-MadeReady rx place f c)) λ c' s' m. m.0

    look_for-Yields :
        (name : Text) (s : S) → Yields rx place f OptionReady (look_for rx place f storage name s)
    unfolding look_for
    look_for-Yields name s =
        Yields-resume rx place f (λ m. Unit {0}) OptionReady (storage.find name s)
          (refresh rx place f storage) (Yields-any (storage.find name s))
          λ found s' t. refresh-Yields found s'

    build_and_add-Yields :
        (select : Select) (b : BesContainer) (s : S)
        → Yields rx place f (Serves b) (build_and_add rx place f storage select b s)
    unfolding build_and_add
    build_and_add-Yields select b s =
        Yields-resume rx place f (Serves b) (Serves b) (s, build_container rx place f select b) _
          (go (build_container rx place f select b) (build_container-ServesAny select b))
          λ c s' h.
            Yields-resume rx place f (λ u. Unit {0}) (Serves b) (storage.add (duplicate f c) s') _
              (Yields-any (storage.add (duplicate f c) s')) λ u s'' t. h
      where
        go : (x : Result Container) → ServesAny b x → Yields rx place f (Serves b) (s, x)
        go (ok c) h = h
        go (err e) h = tt

    found_or_built-Yields :
        (is_std : Error → Bool) (select : Select) (b : BesContainer) (found : Option Container)
        (s : S)
        → OptionReady found
        → Yields rx place f (Serves b) (found_or_built rx place f storage is_std select b found s)
    unfolding found_or_built OptionReady
    found_or_built-Yields is_std select b (some c) s h = (h, refl, refl)
    found_or_built-Yields is_std select b none s h =
        go (build_and_add rx place f storage select b s) (build_and_add-Yields select b s)
      where
        go :
            (x : S × Result Container)
            → Yields rx place f (Serves b) x
            → Yields rx place f (Serves b) (as_internal rx place f storage is_std x)
        go (s', ok c) h = h
        go (s', err e) h = tt

    get_stored-Yields :
        (is_std : Error → Bool) (select : Select) (r : Requested) (s : S)
        → Yields rx place f
            (Serves (as_bes rx place f r))
            (get_stored rx place f storage is_std select r s)
    unfolding get_stored
    get_stored-Yields is_std select (sql c) s = go c.is_ready refl
      where
        go :
            (b : Bool)
            → c.is_ready ≡ b
            → Yields rx place f (Serves (as_bes rx place f (sql c))) (
                if b then (s, ok c) else update_with rx place f storage (make_ready rx place f c) s)
        go true e = (e, refl, refl)
        go false e = update_with-Yields c _ s (make_ready-MadeReady rx place f c)
    get_stored-Yields is_std select (plain b) s =
        Yields-resume rx place f OptionReady (Serves b) (look_for rx place f storage b.real_name s)
          (found_or_built rx place f storage is_std select b) (look_for-Yields b.real_name s)
          λ found s' h. found_or_built-Yields is_std select b found s' h

  -- The three ways out of the factory.
  abbrev AnswersTo : {S : Type 0} → BesContainer → S × Result (Option Container) → Type 0
  AnswersTo b (s, err e) = Unit
  AnswersTo b (s, ok none) = ⊥
  AnswersTo b (s, ok (some c)) = Serves b c

  found_as-AnswersTo :
      {S : Type 0} (b : BesContainer) (x : S × Result Container)
      → Yields rx place f (Serves b) x
      → AnswersTo b (found_as rx place f x)
  found_as-AnswersTo b (s, ok c) h = h
  found_as-AnswersTo b (s, err e) h = tt

  get_container-AnswersTo :
      {S : Type 0} (x : Factory S) (is_std : Error → Bool) (r : Requested) (s : S)
      → AnswersTo (as_bes rx place f r) (get_container rx place f x is_std (some r) s)
  unfolding get_container
  get_container-AnswersTo {S} x is_std r s = go x.storage
    where
      go :
          (m : Option (Storage S))
          → AnswersTo (as_bes rx place f r) (elim m as (λ y. S × Result (Option Container)) [
            | none ↦
                found_as rx place f (s, build_container rx place f x.select (as_bes rx place f r))
            | some storage ↦ found_as rx place f (get_stored rx place f storage is_std x.select r s)
          ])
      go none = found_as-AnswersTo (as_bes rx place f r) _ (
          built_yields (build_container rx place f x.select (as_bes rx place f r))
            (build_container-ServesAny x.select (as_bes rx place f r)))
        where
          built_yields :
              (y : Result Container)
              → ServesAny (as_bes rx place f r) y
              → Yields rx place f (Serves (as_bes rx place f r)) (s, y)
          built_yields (ok c) h = h
          built_yields (err e) h = tt
      go (some storage) =
          found_as-AnswersTo (as_bes rx place f r) _ (get_stored-Yields storage is_std x.select r s)

  -- Whatever the storage holds and the selector makes: where the factory returns for a container of the
  -- request, it returns a container, which is ready and has the constraint and the attributes of the
  -- one in the request.
  pub get_container-Serves :
      {S : Type 0} (x : Factory S) (is_std : Error → Bool) (r : Requested) (s s' : S)
      (found : Option Container)
      → get_container rx place f x is_std (some r) s ≡ (s', ok found)
      → (c : Container) × (found ≡ some c)
        × (c.is_ready ≡ true)
        × (c.constraint ≡ (as_bes rx place f r).constraint)
        × (c.attributes ≡ (as_bes rx place f r).attributes)
  get_container-Serves x is_std r s s' found e =
      go found (subst (AnswersTo (as_bes rx place f r)) e (get_container-AnswersTo x is_std r s))
    where
      go :
          (m : Option Container)
          → AnswersTo (as_bes rx place f r) (s', ok m)
          → (c : Container) × (m ≡ some c)
            × (c.is_ready ≡ true)
            × (c.constraint ≡ (as_bes rx place f r).constraint)
            × (c.attributes ≡ (as_bes rx place f r).attributes)
      go none h = absurd h
      go (some c) h = (c, refl, h.0, h.1, h.2)
