-- ===== src/Requests/Plugins/Terms.antt =====
-- What a plugin leaves behind in the registry when it is taken out again.
use mathlib.Core.Path.{subst}
use sql_handler.Cursor.{size_mod}
use sql_handler.Outcome.{ok}
use sql_handler.Prelude.{
  ℕ, ◌+◌, ◌<◌, ◌≡◌, refl, ap, ◌∙◌, true, false, Option, none, some, Text, TextMap, lookup, text_eq,
  sym, Option-cases, inl, inr, ◌==◌, if◌then◌else◌,
}
use sql_handler.Requests.{
  Handler, Method, wrapper, Registry, MethodTable, MethodLaws, find_sql_handler,
}
use sql_handler.Requests.Plugins.{Linked, initialize, terminate}
use sql_handler.Requests.Plugins.Loads.{Covers, after_adds, adds-plugins, lookup-adds}
use sql_handler.Requests.Plugins.Initialized.{
  with_plugins, new_linked, listed, loaded, Holds, initialize-loaded,
}
use sql_handler.Requests.Plugins.Offers.{Offers, Loses, held, chosen}
use sql_handler.Requests.Entries.{Counted, or_wrapper}
use sql_handler.Requests.Plugins.Removals.{erased, erased-plugins, terminate-listed}

-- The method that a command of a plugin has behind the load and the unload of the plugin.
abbrev pub method_left : {W : Type 0} → ℕ → Option (Handler W) → Option Method → Option Method
method_left n none m = m
method_left n (some f) m = if n == 0 then none else or_wrapper m

method_left-Loses :
    {W : Type 0} (n : ℕ) (f : Handler W) (m : Option Method)
    → Loses n (or_wrapper m) (method_left n (some f) m)
method_left-Loses n f none = (wrapper, refl, refl)
method_left-Loses n f (some g) = (g, refl, refl)

module _ {M W : Type 0} (t : MethodTable M) (laws : MethodLaws t) (D : Text → Type 0)
    (others : Text → ℕ) (fits : (c : Text) → D c → others c + 2 < size_mod) where
  -- What the plugin handles.
  Handled : Linked M W → Text → Type 0
  Handled s c = (f : Handler W) × (lookup c s.plugin.handlers ≡ some f)

  Holds-Offers :
      (own : Text → Option Method) (hs : TextMap (Handler W)) (s : Linked M W)
      → ((c : Text) → lookup c s.plugin.handlers ≡ lookup c hs)
      → Holds t laws D others fits own s
      → Offers t laws D
          (Handled s)
          others
          (λ c. or_wrapper (own c))
          (λ c. method_left (others c) (lookup c hs) (own c))
          s
  unfolding Handled
  Holds-Offers own hs s e v = record {
    counted = λ c d.
        let at : (o : Option (Handler W)) → Type 0 = λ o.
          Counted t laws c (others c + held o)
            (chosen o (or_wrapper (own c)) (method_left (others c) (lookup c hs) (own c)))
            s.registry in
        elim (Option-cases (lookup c hs)) [
          | inl q ↦ subst at (sym (e c ∙ q)) (
              rw q (
                subst
                  (λ o.
                    Counted t laws c (others c + held o) (chosen o (or_wrapper (own c)) (own c))
                      s.registry)
                  (e c ∙ q) (v.counted c d)))
          | inr (f, q) ↦ subst at (sym (e c ∙ q)) (
              subst
                (λ o.
                  Counted t laws c (others c + held o) (chosen o (or_wrapper (own c)) (own c))
                    s.registry)
                (e c ∙ q) (v.counted c d))
        ];
    known = λ c f q. (f, q);
  }

  Handled-Loses :
      (own : Text → Option Method) (hs : TextMap (Handler W)) (s : Linked M W)
      → ((c : Text) → lookup c s.plugin.handlers ≡ lookup c hs)
      → (c : Text) → Handled s c
      → Loses (others c) (or_wrapper (own c)) (method_left (others c) (lookup c hs) (own c))
  unfolding Handled
  Handled-Loses own hs s e c (f, q) =
      subst (λ o. Loses (others c) (or_wrapper (own c)) (method_left (others c) o (own c)))
        (sym q ∙ e c) (method_left-Loses (others c) f (own c))

  -- Let the registry have no plugin of the module's name, let each command of a set be no plugin, not
  -- be the module's name, and be counted as often as `others` says, whatever method it has; and let
  -- the commands of the list be of the set; `others` is at least 3 below the numbers of a `size_t`.
  -- Then `initialize` of the module returns; each command of the set is counted once more if the
  -- list has it, and has then the wrapper if it had no method, and else the method that it had.
  -- `terminate` behind it returns; each command of the set is counted as before; it has no method
  -- if the list has it and nothing else counts it, as after `initialize` if the list has it and
  -- something else counts it, and as before if the list does not have it; and each name finds the
  -- plugin that it found before.
  pub terminate-initialize :
      (r : Registry M W) (modname : Text) (hs : TextMap (Handler W))
      → ((c : Text) → D c → Counted t laws c (others c) (t.find_method c r.methods) r)
      → Covers D hs
      → find_sql_handler r modname ≡ none
      → ((c : Text) → D c → text_eq modname c ≡ false)
      → (r' : Registry M W) × (r'' : Registry M W) × (initialize t true modname hs r ≡ (r', ok tt))
        × (terminate t true modname r' ≡ (r'', ok tt))
        × ((c : Text)
            → D c
            → Counted t laws c
                (others c + held (lookup c hs))
                (chosen
                  (lookup c hs)
                  (or_wrapper (t.find_method c r.methods))
                  (t.find_method c r.methods))
                r')
        × ((c : Text)
            → D c
            → Counted t laws c
                (others c)
                (method_left (others c) (lookup c hs) (t.find_method c r.methods))
                r'')
        × ((n : Text) → find_sql_handler r'' n ≡ find_sql_handler r n)
  unfolding find_sql_handler loaded new_linked lookup listed erased Handled
  terminate-initialize r modname hs entries covers unknown no_command =
      let own : Text → Option Method = λ c. t.find_method c r.methods in
      let s = after_adds t hs (new_linked modname r) in
      let l = listed modname s in
      let p : s.registry.plugins ≡ r.plugins = adds-plugins t hs (new_linked modname r) in
      let h : lookup modname s.registry.plugins ≡ none = ap (lookup modname) p ∙ unknown in
      let e : (c : Text) → lookup c l.plugin.handlers ≡ lookup c hs =
        λ c. lookup-adds t c hs (new_linked modname r) in
      let (q, v) = initialize-loaded t laws D others fits own r modname hs (record {
        entries = entries;
        covers = covers;
        unknown = unknown;
        no_command = no_command;
      }) in
      let (s', q', w, p') =
        terminate-listed t laws D (Handled l) others fits (λ c k. v.known c k.0 k.1)
          (λ c. or_wrapper (own c)) (λ c. method_left (others c) (lookup c hs) (own c)) modname s h
          (Handled-Loses own hs l e) (Holds-Offers own hs l e v) in
      (
        l.registry,
        erased modname s',
        q,
        q',
        λ c d.
            subst
              (λ o.
                Counted t laws c (others c + held o) (chosen o (or_wrapper (own c)) (own c))
                  l.registry)
              (e c) (v.counted c d),
        λ c d.
            with_plugins t laws s'.registry _ c _ _ (w c d)
              (erased-plugins c modname s s' h p' ∙ ap (lookup c) p ∙ (entries c d).no_plugin),
        λ n. erased-plugins n modname s s' h p' ∙ ap (lookup n) p,
      )
