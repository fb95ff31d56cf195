-- ===== src/Requests/Plugins/Loads.antt =====
-- Several handlers at once: a plugin that is loaded and taken out again.
use sql_handler.Call.{resume}
use sql_handler.Cursor.{size_mod}
use sql_handler.Outcome.{ok}
use sql_handler.Prelude.{
  ℕ, ◌+◌, ◌<◌, ◌≡◌, refl, ap, ◌∙◌, Option, none, some, List, [], ◌∷◌, Text, TextMap, lookup,
  lookup-put, lookup-without, text_eq, text_eq_iff, Option-cases, inl, inr, if◌then◌else◌, arith,
}
use sql_handler.Requests.{
  Handler, Method, Registry, MethodTable, MethodLaws, find_sql_handler, add_sql_wrapper,
  remove_sql_wrapper, counted, discounted,
}
use sql_handler.Requests.Entries.{or_wrapper}
use sql_handler.Requests.Plugins.{Linked, keys, remove_each, add_each}
use sql_handler.Requests.Plugins.Offers.{
  Offers, Loses, after_add, after_remove, add_handler-after, remove_handler-after, registry_of,
}

module _ {M W : Type 0} (t : MethodTable M) where
  add_plugins :
      (r : Registry M W) (c : Text) → (registry_of (add_sql_wrapper t r c)).plugins ≡ r.plugins
  unfolding add_sql_wrapper find_sql_handler counted
  add_plugins r c = ground arith

  remove_plugins :
      (r : Registry M W) (c : Text) → (registry_of (remove_sql_wrapper t r c)).plugins ≡ r.plugins
  unfolding remove_sql_wrapper discounted
  remove_plugins r c = ground arith

  add_handler-plugins :
      (c : Text) (f : Handler W) (s : Linked M W)
      → (after_add t c f s).registry.plugins ≡ s.registry.plugins
  unfolding after_add
  add_handler-plugins c f s = elim (Option-cases (lookup c s.plugin.handlers)) [
    | inl e ↦ rw (after_add, e) (add_plugins s.registry c)
    | inr (g, e) ↦ rw (after_add, e) refl
  ]

  remove_handler-plugins :
      (c : Text) (s : Linked M W) → (after_remove t c s).registry.plugins ≡ s.registry.plugins
  unfolding after_remove
  remove_handler-plugins c s = elim (Option-cases (lookup c s.plugin.handlers)) [
    | inl e ↦ rw (after_remove, e) refl
    | inr (g, e) ↦ rw (after_remove, e) (remove_plugins s.registry c)
  ]

  -- The first of two functions.
  abbrev or_else : Option (Handler W) → Option (Handler W) → Option (Handler W)
  or_else none o = o
  or_else (some f) o = some f

  lookup-after_add :
      (c d : Text) (f : Handler W) (s : Linked M W)
      → lookup d (after_add t c f s).plugin.handlers
        ≡ or_else (lookup d s.plugin.handlers) (if text_eq c d then some f else none)
  unfolding after_add
  lookup-after_add c d f s = elim (Option-cases (lookup c s.plugin.handlers)) [
    | inl e ↦
        rw (after_add, e) (ground (arith, lookup-put c d f s.plugin.handlers, text_eq_iff c d, e))
    | inr (g, e) ↦ rw (after_add, e) (ground (arith, text_eq_iff c d, e))
  ]

  lookup-after_remove :
      (c d : Text) (s : Linked M W)
      → lookup d (after_remove t c s).plugin.handlers
        ≡ (if text_eq c d then none else lookup d s.plugin.handlers)
  unfolding after_remove
  lookup-after_remove c d s = elim (Option-cases (lookup c s.plugin.handlers)) [
    | inl e ↦ rw (after_remove, e) (ground (arith, text_eq_iff c d, e))
    | inr (g, e) ↦
        rw (after_remove, e) (ground (arith, lookup-without c d s.plugin.handlers, text_eq_iff c d))
  ]

  unfoldable pub after_adds : TextMap (Handler W) → Linked M W → Linked M W
  after_adds [] s = s
  after_adds ((c, f) ∷ hs) s = after_adds hs (after_add t c f s)

  unfoldable pub after_removes : List Text → Linked M W → Linked M W
  after_removes [] s = s
  after_removes (c ∷ cs) s = after_removes cs (after_remove t c s)

  pub adds-plugins :
      (hs : TextMap (Handler W)) (s : Linked M W)
      → (after_adds hs s).registry.plugins ≡ s.registry.plugins
  unfolding after_adds
  adds-plugins [] s = refl
  adds-plugins ((c, f) ∷ hs) s = adds-plugins hs (after_add t c f s) ∙ add_handler-plugins c f s

  pub removes-plugins :
      (cs : List Text) (s : Linked M W) → (after_removes cs s).registry.plugins ≡ s.registry.plugins
  unfolding after_removes
  removes-plugins [] s = refl
  removes-plugins (c ∷ cs) s = removes-plugins cs (after_remove t c s) ∙ remove_handler-plugins c s

  pub lookup-adds :
      (d : Text) (hs : TextMap (Handler W)) (s : Linked M W)
      → lookup d (after_adds hs s).plugin.handlers
        ≡ or_else (lookup d s.plugin.handlers) (lookup d hs)
  unfolding after_adds lookup
  lookup-adds d [] s = ground arith
  lookup-adds d ((c, f) ∷ hs) s =
      ground (arith, lookup-adds d hs (after_add t c f s), lookup-after_add c d f s)

  -- What is taken out for each entry of a list that has all the plugin's commands.
  pub lookup-removes :
      (d : Text) (hs : TextMap (Handler W)) (s : Linked M W)
      → ((e : Text) → lookup e hs ≡ none → lookup e s.plugin.handlers ≡ none)
      → lookup d (after_removes (keys hs) s).plugin.handlers ≡ none
  unfolding after_removes lookup
  lookup-removes d [] s h = h d refl
  lookup-removes d ((c, f) ∷ hs) s h =
      lookup-removes d hs (after_remove t c s)
        λ e q. ground (arith, lookup-after_remove c e s, h e, q)

-- Each command of a list of handlers is one of `K`.
abbrev pub Covers : {W : Type 0} → (Text → Type 0) → TextMap (Handler W) → Type 0
Covers K [] = Unit
Covers K ((c, f) ∷ hs) = K c × Covers K hs

module _ {M W : Type 0} (t : MethodTable M) (laws : MethodLaws t) (D K : Text → Type 0)
    (others : Text → ℕ) (fits : (c : Text) → D c → others c + 2 < size_mod)
    (dom : (c : Text) → K c → D c) (with_it without_it : Text → Option Method) where
  pub add_each-after :
      (hs : TextMap (Handler W)) (s : Linked M W)
      → ((c : Text) → with_it c ≡ or_wrapper (without_it c))
      → Offers t laws D K others with_it without_it s
      → Covers K hs
      → (add_each t hs s ≡ (after_adds t hs s, ok tt))
        × Offers t laws D K others with_it without_it (after_adds t hs s)
  unfolding add_each after_adds
  add_each-after [] s adds v h = (refl, v)
  add_each-after ((c, f) ∷ hs) s adds v (k, h) =
      let (b, q, v') =
        add_handler-after t laws D K others fits dom with_it without_it s c f (adds c) v k in
      let (q', v'') = add_each-after hs (after_add t c f s) adds v' h in
      (ap (λ x. resume x λ b. add_each t hs) q ∙ q', v'')

  pub remove_each-after :
      (cs : List Text) (s : Linked M W)
      → ((c : Text) → K c → Loses (others c) (with_it c) (without_it c))
      → Offers t laws D K others with_it without_it s
      → (remove_each t cs s ≡ (after_removes t cs s, ok tt))
        × Offers t laws D K others with_it without_it (after_removes t cs s)
  unfolding remove_each after_removes
  remove_each-after [] s loses v = (refl, v)
  remove_each-after (c ∷ cs) s loses v =
      let (b, q, v') =
        remove_handler-after t laws D K others fits dom with_it without_it s c loses v in
      let (q', v'') = remove_each-after cs (after_remove t c s) loses v' in
      (ap (λ x. resume x λ b. remove_each t cs) q ∙ q', v'')
