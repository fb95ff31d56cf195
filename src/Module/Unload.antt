-- ===== src/Module/Unload.antt =====
-- What `terminate` leaves in the lists of the framework.
use sql_handler.Call.{resume}
use sql_handler.Module.{
  Kind, storages, catalogs, Framework, Statics, storage_name, catalog_name, with_live,
  delete_object, delete_handler, drop_handler, drop_storage, terminate_module,
}
use sql_handler.Module.Laws.{FrameworkLaws}
use sql_handler.Module.Load.{Loaded}
use sql_handler.Outcome.{Result, ok, err, undefined}
use sql_handler.Prelude.{
  ℕ, ◌<◌, ◌≤◌, ◌≡◌, ◌≢◌, refl, sym, ap, ◌∙◌, Bool, true, false, none, some, Text, text_eq,
  text_eq_refl, text_eq_sound, Bool-cases, inl, inr, if◌then◌else◌, arith,
}
use sql_handler.Requests.{sql_name}

module _ {F : Type 0} (b : Framework F) (laws : FrameworkLaws b) where
  -- The state behind `drop_handler` where the handler is in the list, and behind `drop_storage`.
  unfoldable without_handler : ℕ → Statics F → Statics F
  without_handler p s = record s {
    framework = (b.remove_handler sql_name s.framework).0;
    rh = none;
    live = with_live p false s.live;
    has_mutex = false;
  }

  unfoldable without_storage : Statics F → Statics F
  without_storage s = record s {
    framework = (b.deref storages storage_name s.framework).0;
    cs = none;
  }

  deletes :
      (p : ℕ) (s : Statics F)
      → s.has_plugins ≡ false
      → s.live p ≡ true
      → delete_handler p s
        ≡ (record s { live = with_live p false s.live; has_mutex = false }, ok tt)
  unfolding delete_handler delete_object
  deletes p s h l =
      ap (λ (x : Bool). if x then (s, err undefined) else resume (delete_object p s) destroyed) h
      ∙ ap
          (λ (x : Bool).
            resume
              (if x
                then (record s { live = with_live p false s.live }, ok tt)
                else (s, err undefined))
              destroyed)
          l
    where
      destroyed : Unit {0} → Statics F → Statics F × Result (Unit {0})
      destroyed u s = (record s { has_mutex = false }, ok tt)

  drop_handler-removes :
      (p q : ℕ) (s : Statics F)
      → s.rh ≡ some p
      → (b.remove_handler sql_name s.framework).1 ≡ some q
      → s.has_plugins ≡ false
      → s.live p ≡ true
      → drop_handler b s ≡ (without_handler p s, ok tt)
  unfolding drop_handler without_handler
  drop_handler-removes p q s r e h l =
      rw (drop_handler, r, e)
        (ap (λ x. resume x λ u s. (record s { rh = none }, ok tt))
          (deletes p (record s { framework = (b.remove_handler sql_name s.framework).0 }) h l))

  drop_storage-finds :
      (p : ℕ) (s : Statics F)
      → s.cs ≡ some p
      → (b.deref storages storage_name s.framework).1 ≡ true
      → drop_storage b s ≡ (without_storage s, ok tt)
  unfolding drop_storage without_storage
  drop_storage-finds p s c e = rw (drop_storage, c, e) refl

  -- The state behind `terminate`, of a request handler at `p`.
  pub record Unloaded (p : ℕ) (s s' : Statics F) : Type 0 where
    pub counts : (j : Kind) (m : Text) → laws.count j m s'.framework ≡ laws.count j m s.framework
    pub handlers : (m : Text) → b.find_handler m s'.framework ≡ b.find_handler m s.framework
    pub rh : s'.rh ≡ none
    pub cs : s'.cs ≡ none
    pub the_handler : s'.the_handler ≡ some p
    pub deleted : s'.live p ≡ false
    pub others : (q : ℕ) → q < s.next → q ≢ p → s'.live q ≡ s.live q
    pub next : s.next ≤ s'.next
    pub plugins : s'.has_plugins ≡ false
    pub mutex : s'.has_mutex ≡ false

  pub handler_listed :
      (p : ℕ) (s s' : Statics F)
      → Loaded b laws p s s'
      → b.find_handler sql_name s'.framework ≡ some p
  handler_listed p s s' v =
      v.handlers sql_name
      ∙ ap (λ (x : Bool). if x then some p else b.find_handler sql_name s.framework)
          (text_eq_refl sql_name)

  now_deleted : (p : ℕ) (live : ℕ → Bool) → with_live p false live p ≡ false
  now_deleted p live = ground arith

  still_there : (p q : ℕ) (live : ℕ → Bool) → q ≢ p → with_live p false live q ≡ live q
  still_there p q live ne = ground (arith, ne)

  module _ {p : ℕ} (s s' : Statics F) (v : Loaded b laws p s s') where
    has_reference :
        (b.deref storages storage_name (b.remove_handler sql_name s'.framework).0).1 ≡ true
    has_reference = ground (
      arith,
      laws.deref-found storages storage_name (b.remove_handler sql_name s'.framework).0,
      laws.count-remove_handler storages sql_name storage_name s'.framework,
      v.counts storages storage_name,
      text_eq_refl storage_name,
    )

    not_found :
        (m : Text)
        → b.find_handler sql_name s.framework ≡ none
        → b.find_handler m (b.remove_handler sql_name s'.framework).0 ≡ b.find_handler m s.framework
    not_found m h = elim (Bool-cases (text_eq sql_name m)) [
      | inl e ↦
          laws.find-remove_handler sql_name m s'.framework
          ∙ ap (λ (x : Bool). if x then none else b.find_handler m s'.framework) e
          ∙ sym h
          ∙ ap (λ n. b.find_handler n s.framework) (text_eq_sound sql_name m e)
      | inr e ↦ ground (arith, laws.find-remove_handler sql_name m s'.framework, v.handlers m, e)
    ]

    given_back :
        (j : Kind) (m : Text)
        → laws.count j m
            (b.deref catalogs catalog_name
              (b.deref storages catalog_name
                (b.deref storages storage_name (b.remove_handler sql_name s'.framework).0).0).0).0
          ≡ laws.count j m s.framework
    given_back j m =
        let f1 = (b.remove_handler sql_name s'.framework).0 in
        let f2 = (b.deref storages storage_name f1).0 in
        let f3 = (b.deref storages catalog_name f2).0 in
        ground (
          arith,
          laws.deref-count catalogs j catalog_name m f3,
          laws.deref-count storages j catalog_name m f2,
          laws.deref-count storages j storage_name m f1,
          laws.count-remove_handler j sql_name m s'.framework,
          v.counts j m,
        )

  pub terminate-Unloaded :
      (p : ℕ) (s s' : Statics F)
      → Loaded b laws p s s'
      → b.find_handler sql_name s.framework ≡ none
      → s.has_plugins ≡ false
      → s.live p ≡ true
      → p < s.next
      → (s'' : Statics F) × (terminate_module b s' ≡ (s'', ok tt)) × Unloaded p s s''
  unfolding terminate_module without_handler without_storage
  terminate-Unloaded p s s' v h n l k =
      let f0 = s'.framework in
      let f1 = (b.remove_handler sql_name f0).0 in
      let f2 = (b.deref storages storage_name f1).0 in
      let f3 = (b.deref storages catalog_name f2).0 in
      let f4 = (b.deref catalogs catalog_name f3).0 in
      let q1 =
        drop_handler-removes p p s' v.rh
          (laws.remove_handler-found sql_name f0 ∙ handler_listed p s s' v) (v.plugins ∙ n)
          (v.old p k ∙ l) in
      let t = without_handler p s' in
      let q2 = drop_storage-finds v.cs.0 t v.cs.1 (has_reference s s' v) in
      (
        record t { framework = f4; cs = none },
        rw (terminate_module, q1, q2) refl,
        record {
          counts = λ j m. given_back s s' v j m;
          handlers = λ m.
              laws.find-deref catalogs catalog_name m f3
              ∙ laws.find-deref storages catalog_name m f2
              ∙ laws.find-deref storages storage_name m f1
              ∙ not_found s s' v m h;
          rh = refl;
          cs = refl;
          the_handler = v.the_handler;
          deleted = now_deleted p s'.live;
          others = λ q g ne. still_there p q s'.live ne ∙ v.old q g;
          next = v.next;
          plugins = v.plugins ∙ n;
          mutex = refl;
        },
      )
