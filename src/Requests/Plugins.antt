-- ===== src/Requests/Plugins.antt =====
-- SQLPlugin.{h,cc}, unixODBC/ODBCPlugin.h and unixODBC/ODBCPluginLoader.cc: a plugin offers its handlers
-- through the registry. Also the calls of SQLRequestHandler.cc that take plugins out of the registry.
pub mod Offers
pub mod Loads
pub mod Initialized
pub mod Removals
pub mod Terms
use sql_handler.Call.{Call, ◌>>=◌, ◌>>◌, return}
use sql_handler.Requests.{
  Handler, Plugin, Registry, MethodTable, find_handler, find_sql_handler, add_sql_handler,
  add_sql_wrapper, remove_sql_wrapper,
}
use sql_handler.Outcome.{
  Result, ok, err, Outcome, done, raised, internal, internal_fatal, undefined,
}
use sql_handler.Prelude.{
  Bool, true, false, Option, none, some, List, [], ◌∷◌, ◌++◌, Text, TextMap, codes, put, without,
  if◌then◌else◌,
}

-- A plugin, and the registry that it points to.
pub record Linked (M W : Type 0) : Type 0 where
  pub plugin : Plugin W
  pub registry : Registry M W

abbrev pub keys {ℓ} : {V : Type ℓ} → TextMap V → List Text
keys [] = []
keys ((k, v) ∷ m) = k ∷ keys m

-- The constructor; `has_list` says that the list of the request handlers has the module.
unfoldable pub new_plugin : {W : Type 0} → Bool → Text → Result (Plugin W)
new_plugin has_list name =
    if has_list then ok (record { name = name; handlers = [] }) else err internal_fatal

module _ {M W : Type 0} where
  abbrev pub linked : Plugin W → Registry M W → Linked M W
  linked p r = record { plugin = p; registry = r }

module _ {M W : Type 0} (t : MethodTable M) where
  -- What follows `_pl->add_sql_wrapper(command)`.
  unfoldable pub handler_added :
      Text → Handler W → Plugin W → Outcome (Registry M W × Bool) → Linked M W × Result Bool
  handler_added command f p (raised e (r, b)) = (linked p r, err e)
  handler_added command f p (done (r, true)) =
      (linked (record p { handlers = put command f p.handlers }) r, ok true)
  handler_added command f p (done (r, false)) = (linked p r, err internal_fatal)

  -- `add_handler`
  unfoldable pub add_handler : Text → Handler W → Call (Linked M W) Bool
  unfolding handler_added
  add_handler command f s = elim (find_handler s.plugin command) [
    | none ↦ handler_added command f s.plugin (add_sql_wrapper t s.registry command)
    | some g ↦ (s, ok false)
  ]

  -- What follows `_pl->remove_sql_wrapper(command)`, whose value is only logged.
  unfoldable pub handler_removed :
      Text → Plugin W → Outcome (Registry M W × Bool) → Linked M W × Result Bool
  handler_removed command p (raised e (r, b)) = (linked p r, err e)
  handler_removed command p (done (r, b)) =
      (linked (record p { handlers = without command p.handlers }) r, ok true)

  -- `remove_handler`
  unfoldable pub remove_handler : Text → Call (Linked M W) Bool
  unfolding handler_removed
  remove_handler command s = elim (find_handler s.plugin command) [
    | none ↦ (s, ok false)
    | some g ↦ handler_removed command s.plugin (remove_sql_wrapper t s.registry command)
  ]

  -- The loop of `remove_handlers`, over the keys, in any order: its iterator is moved on before the
  -- entry is erased.
  unfoldable pub remove_each : List Text → Call (Linked M W) (Unit {0})
  unfolding remove_handler
  remove_each [] = return tt
  remove_each (k ∷ ks) = do removed ← remove_handler k; remove_each ks

  -- `remove_handlers`
  unfoldable pub remove_handlers : Call (Linked M W) (Unit {0})
  unfolding remove_each
  remove_handlers s = remove_each (keys s.plugin.handlers) s

  -- What follows `remove_handlers` in `remove_sql_handler`.
  unfoldable pub handler_erased : Text → Linked M W × Result (Unit {0}) → Registry M W × Result Bool
  handler_erased name (s, err e) = (s.registry, err e)
  handler_erased name (s, ok u) =
      (record s.registry { plugins = without name s.registry.plugins }, ok true)

  -- `remove_sql_handler`
  unfoldable pub remove_sql_handler : Registry M W → Text → Registry M W × Result Bool
  unfolding remove_handlers handler_erased
  remove_sql_handler r name = elim (find_sql_handler r name) [
    | none ↦ (r, ok false)
    | some p ↦ handler_erased name (remove_handlers (linked p r))
  ]

  -- The loop of `remove_sql_handlers` increments the iterator of the element that it has erased.
  unfoldable pub first_erased :
      TextMap (Plugin W) → Linked M W × Result (Unit {0}) → Registry M W × Result (Unit {0})
  first_erased ps (s, err e) = (s.registry, err e)
  first_erased ps (s, ok u) = (record s.registry { plugins = ps }, err undefined)

  unfoldable pub remove_sql_handlers : Registry M W → Registry M W × Result (Unit {0})
  unfolding remove_handlers first_erased
  remove_sql_handlers r = elim r.plugins [
    | [] ↦ (r, ok tt)
    | (name, p) ∷ ps ↦ first_erased ps (remove_handlers (linked p r))
  ]

  -- The constructor of `ODBCPlugin`: the calls of `add_handler`, whose values it drops.
  unfoldable pub add_each : TextMap (Handler W) → Call (Linked M W) (Unit {0})
  unfolding add_handler
  add_each [] = return tt
  add_each ((command, f) ∷ hs) = do added ← add_handler command f; add_each hs

  -- What follows the construction in `initialize` of the loader.
  unfoldable pub plugin_loaded :
      Text → Linked M W × Result (Unit {0}) → Registry M W × Result (Unit {0})
  plugin_loaded modname (s, err e) = (s.registry, err e)
  plugin_loaded modname (s, ok u) =
      let (r, added) = add_sql_handler s.registry modname s.plugin in
      (r, if added then ok tt else err internal)

  -- `ODBCPluginLoader::initialize` behind `SQLCheckPoint::init`; `handlers` are the five commands of
  -- the ODBC plugin with their functions.
  unfoldable pub initialize :
      Bool → Text → TextMap (Handler W) → Registry M W → Registry M W × Result (Unit {0})
  unfolding add_each plugin_loaded new_plugin
  initialize has_list modname handlers r =
      if has_list
      then (elim (new_plugin has_list modname) [
        | err e ↦ (r, err e)
        | ok p ↦ plugin_loaded modname (add_each handlers (linked p r))
      ])
      else (r, ok tt)

  -- `ODBCPluginLoader::terminate`
  unfoldable pub terminate : Bool → Text → Registry M W → Registry M W × Result (Unit {0})
  unfolding remove_sql_handler
  terminate has_list modname r =
      if has_list
      then (let (r', removed) = remove_sql_handler r modname in
          (r', elim removed [ err e ↦ err e | ok b ↦ if b then ok tt else err internal ]))
      else (r, ok tt)
