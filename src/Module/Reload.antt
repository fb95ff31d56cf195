-- ===== src/Module/Reload.antt =====
-- The module is loaded, unloaded and loaded again.
use sql_handler.Module.{Framework, Statics, initialize_module, terminate_module}
use sql_handler.Module.Laws.{FrameworkLaws}
use sql_handler.Module.Load.{Loaded, CanTake, initialize-Loaded, initialize-destroyed}
use sql_handler.Outcome.{ok, err, undefined}
use sql_handler.Prelude.{ℕ, ◌<◌, ◌≡◌, true, false, none, some, Text}
use sql_handler.Requests.{sql_name}
use sql_handler.Module.Unload.{Unloaded, terminate-Unloaded}

module _ {F : Type 0} (b : Framework F) (laws : FrameworkLaws b) where
  -- Let the framework behave as documented, the single request handler live, no plugin and no other
  -- handler of the name be listed, and its mutex not be destroyed if the module has no handler. Then
  -- `initialize` returns, and the lists have three references more and the handler; `terminate`
  -- returns, and each list is as before, the handler is deleted, and each other object that was there
  -- is as before.
  pub terminate_module-initialize_module :
      (p : ℕ) (modname : Text) (s : Statics F)
      → s.the_handler ≡ some p
      → CanTake b laws p s
      → b.find_handler sql_name s.framework ≡ none
      → s.has_plugins ≡ false
      → s.live p ≡ true
      → p < s.next
      → (s' : Statics F) × (s'' : Statics F) × (initialize_module b modname s ≡ (s', ok tt))
        × Loaded b laws p s s'
        × (terminate_module b s' ≡ (s'', ok tt))
        × Unloaded b laws p s s''
  terminate_module-initialize_module p modname s e r h n l k =
      let (s', q, v) = initialize-Loaded b laws p modname s e r h in
      let (s'', q', v') = terminate-Unloaded b laws p s s' v h n l k in (s', s'', q, v, q', v')

  -- Let the framework behave as documented, the single request handler live, no plugin and no other
  -- handler of the name be listed, and its mutex not be destroyed if the module has no handler. Then
  -- the module can be loaded and unloaded; and the behaviour is undefined when it is loaded again.
  pub initialize_module-deleted :
      (p : ℕ) (modname : Text) (s : Statics F)
      → s.the_handler ≡ some p
      → CanTake b laws p s
      → b.find_handler sql_name s.framework ≡ none
      → s.has_plugins ≡ false
      → s.live p ≡ true
      → p < s.next
      → (s1 : Statics F) × (s2 : Statics F) × (initialize_module b modname s ≡ (s1, ok tt))
        × (terminate_module b s1 ≡ (s2, ok tt))
        × ((again : Text) → (initialize_module b again s2).1 ≡ err undefined)
  initialize_module-deleted p modname s e r h n l k =
      let (s1, q, v) = initialize-Loaded b laws p modname s e r h in
      let (s2, q', v') = terminate-Unloaded b laws p s s1 v h n l k in
      (s1, s2, q, q', λ again. initialize-destroyed b laws again s2 v'.rh v'.mutex)
