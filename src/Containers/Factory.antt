-- ===== src/Containers/Factory.antt =====
-- container/SQLContainerFactory.{h,cc} and container/SQLContainerStorageVolatile.cc: a container for a
-- request, taken from the storage or built.
use sql_handler.Call.{Call, resume, ◌>>=◌, ◌>>◌, return}
use sql_handler.Containers.{Container, Files, setup, demand_setup, duplicate, with_request}
use sql_handler.Outcome.{
  Error, Result, ok, err, internal, internal_fatal, undefined, terminated, out_of_fuel,
}
use sql_handler.Prelude.{Bool, Option, none, some, Text, if◌then◌else◌}
use sql_handler.Query.Constraints.{Placement}
use sql_handler.Regex.{Regex}

-- `BESContainer`, where it is no container of this program.
pub record BesContainer : Type 0 where
  pub symbolic_name : Text
  pub real_name : Text
  pub container_type : Text
  pub constraint : Text
  pub attributes : Text

-- `dhi.container`, by its class.
pub data Requested : Type 0 where
  plain : BesContainer → Requested
  sql : Container → Requested

-- The storage of the framework, with a state `S`: `find` is `look_for` and the cast.
pub record Storage (S : Type 0) : Type 0 where
  pub find : Text → Call S (Option Container)
  pub delete : Text → Call S Bool
  pub add : Container → Call S (Unit {0})

-- `getName`
abbrev pub get_name : BesContainer → Text
get_name b = b.real_name

-- The selector: from a name, a real name and a type.
abbrev pub Select : Type 0
Select = Text → Text → Text → Result Container

-- `throw(BESInternalError)` of both `buildContainer`; the model's own errors are no exceptions.
abbrev pub internal_or_end : Error → Error
internal_or_end Error.internal = internal
internal_or_end Error.undefined = undefined
internal_or_end Error.out_of_fuel = out_of_fuel
internal_or_end _ = terminated

abbrev pub only_internal : {A : Type 0} → Result A → Result A
only_internal (ok a) = ok a
only_internal (err e) = err (internal_or_end e)

-- The static members of the factory; `none` is a null storage.
pub record Factory (S : Type 0) : Type 0 where
  pub storage : Option (Storage S)
  pub select : Select

module _ {S : Type 0} where
  -- The constructor.
  unfoldable pub new_factory : Option (Storage S) → Option Select → Result (Factory S)
  new_factory storage none = err internal_fatal
  new_factory storage (some select) = ok (record { storage = storage; select = select })

  -- `setPersistence`: a null storage changes nothing.
  unfoldable pub set_persistence : Factory S → Option (Storage S) → Factory S
  set_persistence x none = x
  set_persistence x (some storage) = record x { storage = some storage }

  -- `setSelector`
  unfoldable pub set_selector : Factory S → Option Select → Result (Factory S)
  set_selector x none = err internal
  set_selector x (some select) = ok (record x { select = select })

module _ (rx : Regex) (place : Placement) (f : Files) where
  abbrev pub built : Container × Result (Unit {0}) → Result Container
  built (c, ok u) = ok c
  built (c, err e) = err e

  -- `if (!isReady() && !setup()) throw BESInternalError`
  unfoldable pub make_ready : Container → Container × Result (Unit {0})
  unfolding setup demand_setup
  make_ready c = if c.is_ready then (c, ok tt) else demand_setup rx place f (setup rx place f c)

  abbrev pub with_request_of : BesContainer → Result Container → Result Container
  with_request_of b (ok c) = built (make_ready (with_request b.attributes b.constraint c))
  with_request_of b (err e) = err e

  -- `buildContainer(BESContainer &)`
  unfoldable pub build_container : Select → BesContainer → Result Container
  unfolding make_ready
  build_container select b =
      only_internal (with_request_of b (select (get_name b) b.real_name b.container_type))

  -- `buildContainer(name, real_name, type)`
  unfoldable pub build_named : Select → Text → Text → Text → Result Container
  unfolding make_ready
  build_named select name real_name type =
      only_internal
        (elim (select real_name real_name type) [ err e ↦ err e | ok c ↦ built (make_ready c) ])

  module _ {S : Type 0} (storage : Storage S) where
    -- `update`: whether there was a container under the name.
    unfoldable pub update : Container → Call S Bool
    update c = do ret ← storage.delete c.symbolic_name; storage.add c; return ret

    -- A container that was set up anew takes its old place; the caller has the container itself.
    unfoldable pub update_with : Container × Result (Unit {0}) → Call S Container
    unfolding update duplicate
    update_with (c, err e) s = (s, err e)
    update_with (c, ok u) s = (do ret ← update (duplicate f c); return c) s

    -- What `look_for` does with what it finds.
    unfoldable pub refresh : Option Container → Call S (Option Container)
    unfolding update_with make_ready
    refresh none s = (s, ok none)
    refresh (some c) s =
        if c.is_ready
        then (s, ok (some c))
        else (do c' ← update_with (make_ready c); return (some c')) s

    -- `look_for`
    unfoldable pub look_for : Text → Call S (Option Container)
    unfolding refresh
    look_for name = do found ← storage.find name; refresh found

    -- The handler in `getContainer`: only exceptions that derive from `std::exception`.
    abbrev pub internal_if_std : (Error → Bool) → Error → Error
    internal_if_std is_std Error.undefined = undefined
    internal_if_std is_std Error.terminated = terminated
    internal_if_std is_std Error.out_of_fuel = out_of_fuel
    internal_if_std is_std e = if is_std e then internal else e

    abbrev pub as_internal : {A : Type 0} → (Error → Bool) → S × Result A → S × Result A
    as_internal is_std (s, ok a) = (s, ok a)
    as_internal is_std (s, err e) = (s, err (internal_if_std is_std e))

    abbrev pub of_result : {A : Type 0} → Result A → Call S A
    of_result r s = (s, r)

    -- A container that the storage lacks.
    unfoldable pub build_and_add : Select → BesContainer → Call S Container
    unfolding build_container duplicate
    build_and_add select b = do
      c ← of_result (build_container select b)
      storage.add (duplicate f c)
      return c

    -- The branches behind `look_for` in `getContainer`.
    unfoldable pub found_or_built :
        (Error → Bool) → Select → BesContainer → Option Container → Call S Container
    unfolding build_and_add
    found_or_built is_std select b (some c) s = (s, ok (with_request b.attributes b.constraint c))
    found_or_built is_std select b none s = as_internal is_std (build_and_add select b s)

    -- The branches of `getContainer` with a storage.
    unfoldable pub get_stored : (Error → Bool) → Select → Requested → Call S Container
    unfolding look_for update_with make_ready found_or_built
    get_stored is_std select (sql c) s =
        if c.is_ready then (s, ok c) else update_with (make_ready c) s
    get_stored is_std select (plain b) s =
        resume (look_for (get_name b) s) (found_or_built is_std select b)

  -- What `getContainer` reads of a container of either class.
  abbrev pub as_bes : Requested → BesContainer
  as_bes (plain b) = b
  as_bes (sql c) = record {
    symbolic_name = c.symbolic_name;
    real_name = c.real_name;
    container_type = c.container_type;
    constraint = c.constraint;
    attributes = c.attributes;
  }

  abbrev pub found_as : {S : Type 0} → S × Result Container → S × Result (Option Container)
  found_as (s, err e) = (s, err e)
  found_as (s, ok c) = (s, ok (some c))

  -- `getContainer`
  unfoldable pub get_container :
      {S : Type 0} → Factory S → (Error → Bool) → Option Requested → Call S (Option Container)
  unfolding get_stored build_container
  get_container x is_std none s = (s, ok none)
  get_container x is_std (some r) s = elim x.storage [
    | none ↦ found_as (s, build_container x.select (as_bes r))
    | some storage ↦ found_as (get_stored storage is_std x.select r s)
  ]
