-- ===== src/Requests/Plugins/Removals.antt =====
-- What a plugin leaves behind in the registry when it takes its handlers out.
use mathlib.Core.Path.{subst}
use sql_handler.Cursor.{size_mod}
use sql_handler.Outcome.{ok}
use sql_handler.Prelude.{
  ℕ, ◌+◌, ◌<◌, ◌≡◌, refl, ap, true, Option, none, some, Text, lookup, lookup-without, without,
  text_eq_iff, text_eq_refl, arith,
}
use sql_handler.Requests.{Handler, Method, Registry, MethodTable, MethodLaws, find_sql_handler}
use sql_handler.Requests.Plugins.{
  Linked, keys, remove_handlers, handler_erased, remove_sql_handler, terminate,
}
use sql_handler.Requests.Plugins.Loads.{
  after_removes, removes-plugins, lookup-removes, remove_each-after,
}
use sql_handler.Requests.Plugins.Initialized.{listed, lookup-listed}
use sql_handler.Requests.Plugins.Offers.{Offers, Offered, Loses}
use sql_handler.Requests.Entries.{Counted}

module _ {M W : Type 0} (t : MethodTable M) (laws : MethodLaws t) (D K : Text → Type 0)
    (others : Text → ℕ) (fits : (c : Text) → D c → others c + 2 < size_mod)
    (dom : (c : Text) → K c → D c) (with_it without_it : Text → Option Method) where
  none-Offered :
      (c : Text) (o : Option (Handler W)) (r : Registry M W)
      → o ≡ none
      → Offered t laws D K others with_it without_it c o r
      → Counted t laws c (others c) (without_it c) r
  none-Offered c none r e v = subst (λ n. Counted t laws c n (without_it c) r) (omega arith) v
  none-Offered c (some f) r e v = absurd (cc e)

  -- From a plugin and a registry in which each command of `D` is counted once for the plugin if it
  -- handles it and besides as often as `others` says, `remove_handlers` returns; the plugin handles
  -- nothing then, each command of `D` is counted as often as `others` says, and the list of the
  -- plugins is as before.
  remove_handlers-unwraps :
      (s : Linked M W)
      → ((c : Text) → K c → Loses (others c) (with_it c) (without_it c))
      → Offers t laws D K others with_it without_it s
      → (s' : Linked M W) × (remove_handlers t s ≡ (s', ok tt))
        × ((c : Text) → lookup c s'.plugin.handlers ≡ none)
        × ((c : Text) → D c → Counted t laws c (others c) (without_it c) s'.registry)
        × (s'.registry.plugins ≡ s.registry.plugins)
  unfolding remove_handlers
  remove_handlers-unwraps s loses v =
      let ks = keys s.plugin.handlers in
      let (q, v') = remove_each-after t laws D K others fits dom with_it without_it ks s loses v in
      let e : (c : Text) → lookup c (after_removes t ks s).plugin.handlers ≡ none =
        λ c. lookup-removes t c s.plugin.handlers s λ d h. h in
      (
        after_removes t ks s,
        q,
        e,
        λ c d. none-Offered c _ _ (e c) (v'.counted c d),
        removes-plugins t ks s,
      )

module _ {M W : Type 0} where
  -- The registry behind `remove_sql_handler` of a plugin.
  unfoldable pub erased : Text → Linked M W → Registry M W
  erased modname s = record s.registry { plugins = without modname s.registry.plugins }

  listed_one :
      (modname : Text) (s : Linked M W)
      → lookup modname s.registry.plugins ≡ none
      → lookup modname (listed modname s).registry.plugins ≡ some s.plugin
  listed_one modname s h = ground (arith, lookup-listed modname modname s h, text_eq_refl modname)

  pub erased-plugins :
      (n modname : Text) (s s' : Linked M W)
      → lookup modname s.registry.plugins ≡ none
      → s'.registry.plugins ≡ (listed modname s).registry.plugins
      → lookup n (erased modname s').plugins ≡ lookup n s.registry.plugins
  unfolding erased
  erased-plugins n modname s s' h p = ground (
    arith,
    lookup-without modname n s'.registry.plugins,
    ap (lookup n) p,
    lookup-listed n modname s h,
    text_eq_iff modname n,
    h,
  )

module _ {M W : Type 0} (t : MethodTable M) (laws : MethodLaws t) (D K : Text → Type 0)
    (others : Text → ℕ) (fits : (c : Text) → D c → others c + 2 < size_mod)
    (dom : (c : Text) → K c → D c) (with_it without_it : Text → Option Method) where
  pub terminate-listed :
      (modname : Text) (s : Linked M W)
      → lookup modname s.registry.plugins ≡ none
      → ((c : Text) → K c → Loses (others c) (with_it c) (without_it c))
      → Offers t laws D K others with_it without_it (listed modname s)
      → (s' : Linked M W) × (terminate t true modname (listed modname s).registry
          ≡ (erased modname s', ok tt))
        × ((c : Text) → D c → Counted t laws c (others c) (without_it c) s'.registry)
        × (s'.registry.plugins ≡ (listed modname s).registry.plugins)
  unfolding terminate remove_sql_handler find_sql_handler handler_erased erased listed
      remove_handlers
  terminate-listed modname s h loses v =
      let l = listed modname s in
      let (s', q, e, w, p) =
        remove_handlers-unwraps t laws D K others fits dom with_it without_it l loses v in
      (s', rw (remove_sql_handler, find_sql_handler, listed_one modname s h, q) refl, w, p)
