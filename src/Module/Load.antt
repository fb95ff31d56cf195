-- ===== src/Module/Load.antt =====
-- What `initialize` leaves in the lists of the framework.
use sql_handler.Call.{resume}
use sql_handler.Module.{
  Kind, storages, catalogs, Framework, Statics, storage_name, catalog_name, new_object,
  the_locked_handler, the_sql_request_handler, give_storage, take_handler, initialize_module,
}
use sql_handler.Module.Laws.{FrameworkLaws, Entered, same_place}
use sql_handler.Module.Lists.{add_unless-Entered, add_storage-Entered}
use sql_handler.Outcome.{Result, ok, err, undefined}
use sql_handler.Prelude.{
  ℕ, ◌+◌, ◌<◌, ◌≤◌, ◌≡◌, refl, ap, ◌∙◌, Bool, true, false, Option, none, some, Text, text_eq, ◌⊎◌,
  inl, inr, if◌then◌else◌, arith,
}
use sql_handler.Requests.{sql_name}

module _ {F : Type 0} (b : Framework F) (laws : FrameworkLaws b) where
  -- The references that the module takes.
  abbrev gained : Kind → Text → ℕ
  gained j m =
      (if same_place storages storage_name j m then 1 else 0)
      + (if same_place catalogs catalog_name j m then 1 else 0)
      + (if same_place storages catalog_name j m then 1 else 0)

  -- The state behind `initialize`, with the request handler at `p`.
  pub record Loaded (p : ℕ) (s s' : Statics F) : Type 0 where
    pub counts :
        (j : Kind) (m : Text)
        → laws.count j m s'.framework ≡ laws.count j m s.framework + gained j m
    pub handlers :
        (m : Text)
        → b.find_handler m s'.framework
          ≡ (if text_eq sql_name m then some p else b.find_handler m s.framework)
    pub rh : s'.rh ≡ some p
    pub the_handler : s'.the_handler ≡ some p
    pub cs : (q : ℕ) × (s'.cs ≡ some q)
    pub plugins : s'.has_plugins ≡ s.has_plugins
    pub mutex : s'.has_mutex ≡ s.has_mutex
    pub old : (q : ℕ) → q < s.next → s'.live q ≡ s.live q
    pub next : s.next ≤ s'.next

  -- `take_handler` and `the_sql_request_handler` for a given pointer.
  given : Statics F → Option ℕ → Statics F × Result ℕ
  given s o = elim o [
    | some p ↦ (s, ok p)
    | none ↦ resume (the_sql_request_handler s) λ p s. (record s { rh = some p }, ok p)
  ]

  kept : Statics F → Option ℕ → Statics F × Result ℕ
  kept s o = elim o [
    | some p ↦ (s, ok p)
    | none ↦ resume (new_object s) λ p s. (record s { the_handler = some p }, ok p)
  ]

  -- Under the lock, or the mutex is destroyed.
  locked : Statics F → Bool → Statics F × Result ℕ
  locked s b = if b then the_locked_handler s else (s, err undefined)

  -- The module has the handler, or it has none and can lock the mutex.
  abbrev pub CanTake : ℕ → Statics F → Type 0
  CanTake p s = (s.rh ≡ some p) ⊎ ((s.rh ≡ none) × (s.has_mutex ≡ true))

  take-handler :
      (p : ℕ) (s : Statics F)
      → s.the_handler ≡ some p
      → CanTake p s
      → take_handler b s ≡ (record s { rh = some p }, ok p)
  unfolding take_handler the_sql_request_handler the_locked_handler given kept locked
  take-handler p s e (inl h) = ap (given s) h ∙ ap (λ (o : Option ℕ). (record s { rh = o }, ok p)) h
  take-handler p s e (inr (h, m)) =
      ap (given s) h
      ∙ ap (λ x. resume x λ p s. (record s { rh = some p }, ok p)) (ap (locked s) m ∙ ap (kept s) e)

  take-destroyed :
      (s : Statics F) → s.rh ≡ none → s.has_mutex ≡ false → take_handler b s ≡ (s, err undefined)
  unfolding take_handler the_sql_request_handler given locked
  take-destroyed s h m =
      ap (given s) h ∙ ap (λ x. resume x λ p s. (record s { rh = some p }, ok p)) (ap (locked s) m)

  counts_add :
      (j : Kind) (m : Text) (s s1 s2 s3 : Statics F)
      → Entered b laws storages storage_name s s1
      → Entered b laws catalogs catalog_name s1 s2
      → Entered b laws storages catalog_name s2 s3
      → laws.count j m s3.framework ≡ laws.count j m s.framework + gained j m
  counts_add j m s s1 s2 s3 u v w = ground (arith, u.counts j m, v.counts j m, w.counts j m)

  found :
      (p : ℕ) (m : Text) (o x y : Option ℕ)
      → o ≡ none
      → x ≡ y
      → (if text_eq sql_name m then (elim o [ none ↦ some p | some q ↦ some q ]) else x)
        ≡ (if text_eq sql_name m then some p else y)
  found p m o x y e q = ground (arith, e, q)

  pub initialize-Loaded :
      (p : ℕ) (modname : Text) (s : Statics F)
      → s.the_handler ≡ some p
      → CanTake p s
      → b.find_handler sql_name s.framework ≡ none
      → (s' : Statics F) × (initialize_module b modname s ≡ (s', ok tt)) × Loaded p s s'
  unfolding initialize_module give_storage
  initialize-Loaded p modname s e r h =
      let (s1, q1, u, c) = add_storage-Entered b laws s in
      let t1 : Statics F = record s1 { factory_storage = s1.cs } in
      let (s2, q2, v, c2) = add_unless-Entered b laws catalogs t1 in
      let (s3, q3, w, c3) = add_unless-Entered b laws storages s2 in
      let u' : Entered b laws storages storage_name s t1 = record {
        counts = u.counts;
        handlers = u.handlers;
        rh = u.rh;
        the_handler = u.the_handler;
        plugins = u.plugins;
        mutex = u.mutex;
        old = u.old;
        next = u.next;
      } in
      let same_rh : s3.rh ≡ s.rh = w.rh ∙ v.rh ∙ u.rh in
      let q4 = take-handler p s3 (w.the_handler ∙ v.the_handler ∙ u.the_handler ∙ e) (elim r [
        | inl x ↦ inl (same_rh ∙ x)
        | inr (x, m) ↦ inr (same_rh ∙ x, w.mutex ∙ v.mutex ∙ u.mutex ∙ m)
      ]) in
      let f = (b.add_handler sql_name p s3.framework).0 in
      (
        record s3 { rh = some p; framework = b.handle_dap_service modname f },
        rw (q1, q2, q3, q4) refl,
        record {
          counts = λ j m.
              laws.count-service j modname m f
              ∙ laws.count-add_handler j sql_name m p s3.framework
              ∙ counts_add j m s t1 s2 s3 u' v w;
          handlers = λ m.
              laws.find-service modname m f
              ∙ laws.find-add_handler sql_name m p s3.framework
              ∙ found p m (b.find_handler sql_name s3.framework) _ _
                  (w.handlers sql_name ∙ v.handlers sql_name ∙ u.handlers sql_name ∙ h)
                  (w.handlers m ∙ v.handlers m ∙ u.handlers m);
          rh = refl;
          the_handler = w.the_handler ∙ v.the_handler ∙ u.the_handler ∙ e;
          cs = (c.0, c3 ∙ c2 ∙ c.1);
          plugins = w.plugins ∙ v.plugins ∙ u.plugins;
          mutex = w.mutex ∙ v.mutex ∙ u.mutex;
          old = λ q k.
              w.old q (omega (arith, k, u.next, v.next))
              ∙ v.old q (omega (arith, k, u.next))
              ∙ u.old q k;
          next = omega (arith, u.next, v.next, w.next);
        },
      )

  -- Without a handler in the module and with a destroyed mutex.
  pub initialize-destroyed :
      (modname : Text) (s : Statics F)
      → s.rh ≡ none
      → s.has_mutex ≡ false
      → (initialize_module b modname s).1 ≡ err undefined
  unfolding initialize_module give_storage
  initialize-destroyed modname s r h =
      let (s1, q1, u, c) = add_storage-Entered b laws s in
      let t1 : Statics F = record s1 { factory_storage = s1.cs } in
      let (s2, q2, v, c2) = add_unless-Entered b laws catalogs t1 in
      let (s3, q3, w, c3) = add_unless-Entered b laws storages s2 in
      let q4 = take-destroyed s3 (w.rh ∙ v.rh ∙ u.rh ∙ r) (w.mutex ∙ v.mutex ∙ u.mutex ∙ h) in
      rw (q1, q2, q3, q4) refl
