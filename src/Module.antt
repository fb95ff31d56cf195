-- ===== src/Module.antt =====
-- SQLModule.{h,cc}: what the module adds to the lists of the framework and takes out of them, with
-- the single instance of SQLRequestHandler.cc.
pub mod Laws
pub mod Lists
pub mod Load
pub mod Unload
pub mod Reload
use sql_handler.Call.{Call, ◌>>=◌, ◌>>◌, return, modify, get}
use sql_handler.Outcome.{Result, ok, err, internal_fatal, undefined}
use sql_handler.Prelude.{
  ℕ, suc, Bool, true, false, ◌&&◌, Option, none, some, Text, codes, text_eq, ◌==◌, is_empty, List,
  [], ◌∷◌, if◌then◌else◌,
}
use sql_handler.Requests.{sql_name}

-- `_SQLH_STORAGE` and `_SQLH_CATALOG`
abbrev pub storage_name : Text
storage_name = codes "sqlstorage"

abbrev pub catalog_name : Text
catalog_name = codes "catalog"

-- `BESContainerStorageList` and `BESCatalogList`
pub data Kind : Type 0 where
  storages catalogs : Kind

abbrev pub kind_eq : Kind → Kind → Bool
kind_eq storages storages = true
kind_eq storages catalogs = false
kind_eq catalogs storages = false
kind_eq catalogs catalogs = true

-- The lists of the framework, which count how often an entry is referred to; an object is given by
-- its address. `ref`, `add` and `deref` are `ref_persistence`, `add_persistence` and
-- `deref_persistence`, or those for catalogs; `find_storage` is `find_persistence` and the cast.
-- `add_handler`, `remove_handler` and `find_handler` are those of `BESRequestHandlerList`.
pub record Framework (F : Type 0) : Type 0 where
  pub ref : Kind → Text → F → F × Bool
  pub add : Kind → Text → ℕ → F → F × Bool
  pub deref : Kind → Text → F → F × Bool
  pub find_storage : Text → F → Option ℕ
  pub add_handler : Text → ℕ → F → F × Bool
  pub remove_handler : Text → F → F × Option ℕ
  pub find_handler : Text → F → Option ℕ
  pub handle_dap_service : Text → F → F

-- The static members: `cs` and `rh` of `SQLModule`, `_rh` of `SQLRequestHandler`, and `cs` of
-- `SQLContainerFactory`; the objects that this program has made and not deleted, and the next address;
-- whether plugins are listed in the request handler; and whether
-- its static mutex is not destroyed.
pub record Statics (F : Type 0) : Type 0 where
  pub framework : F
  pub cs : Option ℕ
  pub rh : Option ℕ
  pub the_handler : Option ℕ
  pub factory_storage : Option ℕ
  pub live : ℕ → Bool
  pub next : ℕ
  pub has_plugins : Bool
  pub has_mutex : Bool

abbrev pub with_live : ℕ → Bool → (ℕ → Bool) → ℕ → Bool
with_live p b live q = if q == p then b else live q

module _ {F : Type 0} where
  -- `new`
  unfoldable pub new_object : Call (Statics F) ℕ
  new_object s = (record s { live = with_live s.next true s.live; next = suc s.next }, ok s.next)

  -- `delete` of an object of which nothing else is to be done.
  unfoldable pub delete_object : ℕ → Call (Statics F) (Unit {0})
  delete_object p s =
      if s.live p then (record s { live = with_live p false s.live }, ok tt) else (s, err undefined)

  -- What `theSQLRequestHandler` does under the lock.
  unfoldable pub the_locked_handler : Call (Statics F) ℕ
  unfolding new_object
  the_locked_handler s = elim s.the_handler [
    | some p ↦ (s, ok p)
    | none ↦ (do p ← new_object; modify (λ s. record s { the_handler = some p }); return p) s
  ]

  -- `theSQLRequestHandler`; to lock a mutex that is destroyed is undefined.
  unfoldable pub the_sql_request_handler : Call (Statics F) ℕ
  unfolding the_locked_handler
  the_sql_request_handler s = if s.has_mutex then the_locked_handler s else (s, err undefined)

  -- The destructor of `SQLRequestHandler`: `remove_sql_handlers` is undefined if a plugin is listed,
  -- and `DESTROY(&_mutex)` is its end.
  unfoldable pub delete_handler : ℕ → Call (Statics F) (Unit {0})
  unfolding delete_object
  delete_handler p s =
      if s.has_plugins
      then (s, err undefined)
      else (do delete_object p; modify (λ s. record s { has_mutex = false })) s

  -- `cs = new SQLContainerStorageVolatile(_SQLH_STORAGE)`
  unfoldable pub new_storage : Call (Statics F) ℕ
  unfolding new_object
  new_storage = do p ← new_object; modify (λ s. record s { cs = some p }); return p

  -- `cf.setPersistence(cs)`
  unfoldable pub give_storage : Call (Statics F) (Unit {0})
  give_storage s = (record s { factory_storage = s.cs }, ok tt)

module _ {F : Type 0} (b : Framework F) where
  -- A call of the framework.
  abbrev on_framework : {A : Type 0} → (F → F × A) → Call (Statics F) A
  on_framework f s = let (f', a) = f s.framework in (record s { framework = f' }, ok a)

  -- The container storage of the module.
  unfoldable pub add_storage : Bool → Call (Statics F) (Unit {0})
  unfolding new_storage
  add_storage false s =
      (do
        p ← new_storage
        added ← on_framework (b.add storages storage_name p)
        λ s. (s, if added then ok tt else err internal_fatal))
        s
  add_storage true s = elim (b.find_storage storage_name s.framework) [
    | some p ↦ (record s { cs = some p }, ok tt)
    | none ↦ (do p ← new_storage; return tt) s
  ]

  -- A new entry where the list did not have it.
  unfoldable pub add_unless : Kind → Bool → Call (Statics F) (Unit {0})
  unfolding new_object
  add_unless k true = return tt
  add_unless k false = do p ← new_object; added ← on_framework (b.add k catalog_name p); return tt

  -- `if (!rh) rh = SQLRequestHandler::theSQLRequestHandler(SQL_NAME)`; what follows takes `rh`.
  unfoldable pub take_handler : Call (Statics F) ℕ
  unfolding the_sql_request_handler
  take_handler s = elim s.rh [
    | some p ↦ (s, ok p)
    | none ↦ (do p ← the_sql_request_handler; modify (λ s. record s { rh = some p }); return p) s
  ]

  -- `initialize`
  unfoldable pub initialize_module : Text → Call (Statics F) (Unit {0})
  unfolding add_storage give_storage add_unless take_handler
  initialize_module modname = do
    known ← on_framework (b.ref storages storage_name)
    add_storage known
    give_storage
    listed ← on_framework (b.ref catalogs catalog_name)
    add_unless catalogs listed
    kept ← on_framework (b.ref storages catalog_name)
    add_unless storages kept
    p ← take_handler
    added ← on_framework (b.add_handler sql_name p)
    modify (λ s. record s { framework = b.handle_dap_service modname s.framework })

  -- `if (rh && remove_handler(SQL_NAME)) delete rh; rh = 0;`
  unfoldable pub drop_handler : Call (Statics F) (Unit {0})
  unfolding delete_handler
  drop_handler s = elim s.rh [
    | none ↦ (record s { rh = none }, ok tt)
    | some p ↦
        (do
          removed ← on_framework (b.remove_handler sql_name)
          elim removed [ none ↦ return tt | some q ↦ delete_handler p ]
          modify (λ s. record s { rh = none }))
          s
  ]

  -- `if (cs && !deref_persistence(_SQLH_STORAGE)) delete cs; cs = 0;`
  unfoldable pub drop_storage : Call (Statics F) (Unit {0})
  unfolding delete_object
  drop_storage s = elim s.cs [
    | none ↦ (s, ok tt)
    | some p ↦
        (do
          found ← on_framework (b.deref storages storage_name)
          elim found [ true ↦ return tt | false ↦ delete_object p ]
          modify (λ s. record s { cs = none }))
          s
  ]

  -- `terminate`
  unfoldable pub terminate_module : Call (Statics F) (Unit {0})
  unfolding drop_handler drop_storage
  terminate_module = do
    drop_handler
    drop_storage
    kept ← on_framework (b.deref storages catalog_name)
    listed ← on_framework (b.deref catalogs catalog_name)
    return tt
