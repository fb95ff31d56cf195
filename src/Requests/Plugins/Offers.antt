-- ===== src/Requests/Plugins/Offers.antt =====
-- The wrappers of the commands that a plugin handles.
use mathlib.Core.Path.{subst}
use sql_handler.Cursor.{size_mod}
use sql_handler.Outcome.{ok, Outcome, state_of}
use sql_handler.Prelude.{
  ℕ, suc, ◌+◌, ◌<◌, ◌≡◌, refl, sym, ap, ◌∙◌, Bool, true, false, Option, none, some, Text, TextMap,
  lookup, lookup-put, lookup-without, put, without, text_eq, text_eq_iff, Option-cases, Bool-cases,
  inl, inr, ◌==◌, if◌then◌else◌, arith,
}
use sql_handler.Requests.{
  Handler, Method, Registry, MethodTable, MethodLaws, find_handler, add_sql_wrapper,
  remove_sql_wrapper,
}
use sql_handler.Requests.Plugins.{
  Linked, linked, handler_added, add_handler, handler_removed, remove_handler,
}
use sql_handler.Requests.Entries.{
  Counted, or_wrapper, add_wraps, remove_unwraps, wrap-Counted, unwrap-Counted, other_wrap-Counted,
  other_unwrap-Counted,
}

module _ {M W : Type 0} where
  abbrev pub registry_of : Outcome (Registry M W × Bool) → Registry M W
  registry_of o = (state_of o).0

-- One for a command that is handled.
abbrev pub held : {W : Type 0} → Option (Handler W) → ℕ
held none = 0
held (some f) = 1

-- A command has the method `with_it`, and loses it behind `n` others if there are none.
abbrev pub Loses : ℕ → Option Method → Option Method → Type 0
Loses n with_it without_it =
    (f : Method) × (with_it ≡ some f) × (without_it ≡ (if n == 0 then none else some f))

-- The method of a command that is handled, or else the other.
abbrev pub chosen :
    {W : Type 0} → Option (Handler W) → Option Method → Option Method → Option Method
chosen none with_it without_it = without_it
chosen (some f) with_it without_it = with_it

module _ {M W : Type 0} (t : MethodTable M) where
  -- The plugin and the registry behind `add_handler`.
  unfoldable pub after_add : Text → Handler W → Linked M W → Linked M W
  after_add c f s = elim (lookup c s.plugin.handlers) [
    | none ↦
        linked (record s.plugin { handlers = put c f s.plugin.handlers })
          (registry_of (add_sql_wrapper t s.registry c))
    | some g ↦ s
  ]

  -- The plugin and the registry behind `remove_handler`.
  unfoldable pub after_remove : Text → Linked M W → Linked M W
  after_remove c s = elim (lookup c s.plugin.handlers) [
    | none ↦ s
    | some g ↦
        linked (record s.plugin { handlers = without c s.plugin.handlers })
          (registry_of (remove_sql_wrapper t s.registry c))
  ]

module _ {M W : Type 0} (t : MethodTable M) (laws : MethodLaws t) where
  Counted-eq :
      {c : Text} {n k : ℕ} {m0 m1 : Option Method} {r : Registry M W}
      → n ≡ k
      → m0 ≡ m1
      → Counted t laws c n m0 r
      → Counted t laws c k m1 r
  Counted-eq {c} {n} {k} {m0} {m1} {r} e q v =
      subst (λ m. Counted t laws c k m r) q (subst (λ i. Counted t laws c i m0 r) e v)

module _ {M W : Type 0} (t : MethodTable M) (laws : MethodLaws t) (D K : Text → Type 0)
    (others : Text → ℕ) (with_it without_it : Text → Option Method) where
  -- The command is counted once for a plugin whose function for it is `o` and besides as often as
  -- `others` says, and its method is `with_it` if the plugin handles it and else `without_it`.
  abbrev pub Offered : Text → Option (Handler W) → Registry M W → Type 0
  Offered c o r = Counted t laws c (others c + held o) (chosen o (with_it c) (without_it c)) r

  -- Each command of `D` is as `Offered` says, and the plugin handles commands of `K` only.
  pub record Offers (s : Linked M W) : Type 0 where
    pub counted : (c : Text) → D c → Offered c (lookup c s.plugin.handlers) s.registry
    pub known : (c : Text) (f : Handler W) → lookup c s.plugin.handlers ≡ some f → K c

  put_known :
      (c d : Text) (f g : Handler W) (m : TextMap (Handler W))
      → K c
      → (lookup d m ≡ some g → K d)
      → lookup d (put c f m) ≡ some g
      → K d
  put_known c d f g m dom k h = elim (Bool-cases (text_eq c d)) [
    | inl q ↦ subst K ((text_eq_iff c d).0 q) dom
    | inr q ↦ k (ground (arith, lookup-put c d f m, q))
  ]

  without_known :
      (c d : Text) (g : Handler W) (m : TextMap (Handler W))
      → (lookup d m ≡ some g → K d)
      → lookup d (without c m) ≡ some g
      → K d
  without_known c d g m k h = k (ground (arith, lookup-without c d m))

  wrapped-Offered :
      (r : Registry M W) (c d : Text) (f : Handler W) (m : TextMap (Handler W))
      → with_it c ≡ or_wrapper (without_it c)
      → others c + 2 < size_mod
      → Offered c none r
      → Offered d (lookup d m) r
      → Offered d (lookup d (put c f m)) (registry_of (add_sql_wrapper t r c))
  wrapped-Offered r c d f m adds fits vc vd =
      let r' = registry_of (add_sql_wrapper t r c) in
      elim (Bool-cases (text_eq c d)) [
        | inl q ↦
            let e : lookup d (put c f m) ≡ some f = ground (arith, lookup-put c d f m, q) in
            subst (λ o. Offered d o r') (sym e)
              (subst (λ x. Offered x (some f) r') ((text_eq_iff c d).0 q)
                (Counted-eq t laws (omega arith) (sym adds)
                  (wrap-Counted t laws r c (others c + 0) (without_it c) vc (omega arith))))
        | inr q ↦
            let e : lookup d (put c f m) ≡ lookup d m = ground (arith, lookup-put c d f m, q) in
            subst (λ o. Offered d o r') (sym e) (other_wrap-Counted t laws r d c _ _ q vd)
      ]

  unwrapped-Offered :
      (r : Registry M W) (c d : Text) (g : Handler W) (f : Method) (m : TextMap (Handler W))
      → with_it c ≡ some f
      → without_it c ≡ (if others c == 0 then none else some f)
      → others c + 2 < size_mod
      → Offered c (some g) r
      → Offered d (lookup d m) r
      → Offered d (lookup d (without c m)) (registry_of (remove_sql_wrapper t r c))
  unwrapped-Offered r c d g f m there left fits vc vd =
      let r' = registry_of (remove_sql_wrapper t r c) in
      elim (Bool-cases (text_eq c d)) [
        | inl q ↦
            let e : lookup d (without c m) ≡ none = ground (arith, lookup-without c d m, q) in
            subst (λ o. Offered d o r') (sym e)
              (subst (λ x. Offered x none r') ((text_eq_iff c d).0 q)
                (Counted-eq t laws (omega arith) (sym left) (
                  unwrap-Counted t laws r c (others c) f (Counted-eq t laws (omega arith) there vc)
                    (omega arith))))
        | inr q ↦
            let e : lookup d (without c m) ≡ lookup d m = ground (arith, lookup-without c d m, q) in
            subst (λ o. Offered d o r') (sym e) (other_unwrap-Counted t laws r d c _ _ q vd)
      ]

module _ {M W : Type 0} (t : MethodTable M) (laws : MethodLaws t) (D K : Text → Type 0)
    (others : Text → ℕ) (fits : (c : Text) → D c → others c + 2 < size_mod)
    (dom : (c : Text) → K c → D c) (with_it without_it : Text → Option Method) where
  pub add_handler-after :
      (s : Linked M W) (c : Text) (f : Handler W)
      → with_it c ≡ or_wrapper (without_it c)
      → Offers t laws D K others with_it without_it s
      → K c
      → (b : Bool) × (add_handler t c f s ≡ (after_add t c f s, ok b))
        × Offers t laws D K others with_it without_it (after_add t c f s)
  unfolding add_handler find_handler handler_added after_add
  add_handler-after s c f adds v k = elim (Option-cases (lookup c s.plugin.handlers)) [
    | inr (g, e) ↦ rw (add_handler, find_handler, after_add, e) (false, refl, v)
    | inl e ↦
        let m = s.plugin.handlers in
        let w : Offered t laws D K others with_it without_it c none s.registry =
          subst (λ o. Offered t laws D K others with_it without_it c o s.registry) e
            (v.counted c (dom c k)) in
        let h = fits c (dom c k) in
        let q = add_wraps t laws s.registry c (others c + 0) w.no_plugin w.count (omega arith) in
        rw (add_handler, find_handler, after_add, e)
          (
            true,
            ap (handler_added t c f s.plugin) q
                ∙ ap (λ r. (linked (record s.plugin { handlers = put c f m }) r, ok true))
                    (sym (ap registry_of q)),
            record {
              counted = λ d dd.
                  wrapped-Offered t laws D K others with_it without_it s.registry c d f m adds h w
                    (v.counted d dd);
              known = λ d g x.
                  put_known t laws D K others with_it without_it c d f g m k (v.known d g) x;
            },
          )
  ]

  pub remove_handler-after :
      (s : Linked M W) (c : Text)
      → ((d : Text) → K d → Loses (others d) (with_it d) (without_it d))
      → Offers t laws D K others with_it without_it s
      → (b : Bool) × (remove_handler t c s ≡ (after_remove t c s, ok b))
        × Offers t laws D K others with_it without_it (after_remove t c s)
  unfolding remove_handler find_handler handler_removed after_remove
  remove_handler-after s c loses v = elim (Option-cases (lookup c s.plugin.handlers)) [
    | inl e ↦ rw (remove_handler, find_handler, after_remove, e) (false, refl, v)
    | inr (g, e) ↦
        let m = s.plugin.handlers in
        let k = v.known c g e in
        let h = fits c (dom c k) in
        let (f, there, left) = loses c k in
        let w : Offered t laws D K others with_it without_it c (some g) s.registry =
          subst (λ o. Offered t laws D K others with_it without_it c o s.registry) e
            (v.counted c (dom c k)) in
        let u : Counted t laws c (suc (others c)) (some f) s.registry =
          Counted-eq t laws (omega arith) there w in
        let q = remove_unwraps t laws s.registry c (others c) u.method u.count (omega arith) in
        rw (remove_handler, find_handler, after_remove, e)
          (
            true,
            ap (handler_removed t c s.plugin) q
                ∙ ap (λ r. (linked (record s.plugin { handlers = without c m }) r, ok true))
                    (sym (ap registry_of q)),
            record {
              counted = λ d dd.
                  unwrapped-Offered t laws D K others with_it without_it s.registry c d g f m there
                    left h w (v.counted d dd);
              known = λ d y x.
                  without_known t laws D K others with_it without_it c d y m (v.known d y) x;
            },
          )
  ]
