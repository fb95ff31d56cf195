-- ===== src/Requests/Plugins/Initialized.antt =====
-- What the initialization of a plugin's module does to the registry.
use mathlib.Core.Path.{subst}
use sql_handler.Cursor.{size_mod}
use sql_handler.Outcome.{ok}
use sql_handler.Prelude.{
  ℕ, ◌+◌, ◌<◌, ◌≡◌, refl, ap, ◌∙◌, true, false, Option, none, some, [], Text, TextMap, lookup,
  lookup-insert_new, insert_new, text_eq, if◌then◌else◌, arith,
}
use sql_handler.Requests.{
  Handler, Method, Plugin, Registry, MethodTable, MethodLaws, find_sql_handler, add_sql_handler,
}
use sql_handler.Requests.Plugins.{Linked, linked, new_plugin, plugin_loaded, initialize}
use sql_handler.Requests.Plugins.Loads.{Covers, after_adds, adds-plugins, add_each-after}
use sql_handler.Requests.Plugins.Offers.{Offers}
use sql_handler.Requests.Entries.{Counted, or_wrapper}

module _ {M W : Type 0} where
  unfoldable pub new_linked : Text → Registry M W → Linked M W
  new_linked modname r = linked (record { name = modname; handlers = [] }) r

  -- The plugin in the list of the registry.
  unfoldable pub listed : Text → Linked M W → Linked M W
  listed modname s =
      linked s.plugin
        (record s.registry { plugins = insert_new modname s.plugin s.registry.plugins })

  pub lookup-listed :
      (n modname : Text) (s : Linked M W)
      → lookup modname s.registry.plugins ≡ none
      → (lookup n (listed modname s).registry.plugins
          ≡ (if text_eq modname n then some s.plugin else lookup n s.registry.plugins))
  unfolding listed
  lookup-listed n modname s h =
      ground (arith, lookup-insert_new modname n s.plugin s.registry.plugins, h)

module _ {M W : Type 0} (t : MethodTable M) where
  -- The plugin and the registry that a module leaves when it has been loaded.
  unfoldable pub loaded : Text → TextMap (Handler W) → Registry M W → Linked M W
  loaded modname hs r = listed modname (after_adds t hs (new_linked modname r))

module _ {M W : Type 0} (t : MethodTable M) (laws : MethodLaws t) where
  pub with_plugins :
      (r : Registry M W) (ps : TextMap (Plugin W)) (c : Text) (n : ℕ) (m : Option Method)
      → Counted t laws c n m r
      → lookup c ps ≡ none
      → Counted t laws c n m (record r { plugins = ps })
  with_plugins r ps c n m v h = record { no_plugin = h; count = v.count; method = v.method }

module _ {M W : Type 0} (t : MethodTable M) (laws : MethodLaws t) (D : Text → Type 0)
    (others : Text → ℕ) where
  -- The registry before a plugin offers anything; `own` are the methods of the commands.
  pub record Before (own : Text → Option Method) (r : Registry M W) (modname : Text)
      (hs : TextMap (Handler W)) : Type 0 where
    pub entries : (c : Text) → D c → Counted t laws c (others c) (own c) r
    pub covers : Covers D hs
    pub unknown : find_sql_handler r modname ≡ none
    pub no_command : (c : Text) → D c → text_eq modname c ≡ false

module _ {M W : Type 0} (t : MethodTable M) (laws : MethodLaws t) (D : Text → Type 0)
    (others : Text → ℕ) (fits : (c : Text) → D c → others c + 2 < size_mod)
    (own : Text → Option Method) where
  -- While the plugin is in: `own` holds for the commands that it does not handle.
  abbrev pub Holds : Linked M W → Type 0
  Holds s = Offers t laws D D others (λ c. or_wrapper (own c)) own s

  Before-Holds :
      (r : Registry M W) (modname : Text) (hs : TextMap (Handler W))
      → Before t laws D others own r modname hs
      → Holds (new_linked modname r)
  unfolding lookup new_linked
  Before-Holds r modname hs v = record {
    counted = λ c d. subst (λ n. Counted t laws c n (own c) r) (omega arith) (v.entries c d);
    known = λ c f e. absurd (cc e);
  }

  listed-Holds :
      (modname : Text) (s : Linked M W)
      → lookup modname s.registry.plugins ≡ none
      → ((c : Text) → D c → text_eq modname c ≡ false)
      → Holds s
      → Holds (listed modname s)
  unfolding listed
  listed-Holds modname s h ne v = record {
    counted = λ c d.
        let w = v.counted c d in
        with_plugins t laws s.registry _ c _ _ w
          (ground (arith, lookup-listed c modname s h, ne c d, w.no_plugin));
    known = v.known;
  }

  pub initialize-loaded :
      (r : Registry M W) (modname : Text) (hs : TextMap (Handler W))
      → Before t laws D others own r modname hs
      → (initialize t true modname hs r ≡ ((loaded t modname hs r).registry, ok tt))
        × Holds (loaded t modname hs r)
  unfolding initialize new_plugin plugin_loaded add_sql_handler find_sql_handler loaded listed
      new_linked
  initialize-loaded r modname hs v =
      let s = new_linked modname r in
      let (q, v') =
        add_each-after t laws D D others fits (λ c d. d) (λ c. or_wrapper (own c)) own hs s
          (λ c. refl) (Before-Holds r modname hs v) v.covers in
      let e : lookup modname (after_adds t hs s).registry.plugins ≡ none =
        ap (lookup modname) (adds-plugins t hs s) ∙ v.unknown in
      (
        ap (plugin_loaded t modname) q
            ∙ rw (plugin_loaded, add_sql_handler, find_sql_handler, e) refl,
        listed-Holds modname (after_adds t hs s) e v.no_command v',
      )
