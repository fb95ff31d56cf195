-- ===== src/Module/Lists.antt =====
-- What the lists of the framework keep, and how the blocks of `initialize` change them.
use sql_handler.Module.{
  Kind, storages, Framework, Statics, storage_name, catalog_name, with_live, new_object,
  new_storage, add_storage, add_unless,
}
use sql_handler.Outcome.{Result, ok, err, internal_fatal}
use sql_handler.Prelude.{
  ℕ, suc, ◌<◌, ◌≤◌, ◌≡◌, refl, ap, ◌∙◌, Bool, true, false, not, Option, none, some, Text, ◌==◌,
  Bool-cases, Option-cases, inl, inr, if◌then◌else◌, arith,
}
use sql_handler.Module.Laws.{FrameworkLaws, Entered, ref_known, ref_unknown}

module _ {F : Type 0} (b : Framework F) (laws : FrameworkLaws b) where
  abbrev pub referred : Kind → Text → Statics F → Statics F
  referred k n s = record s { framework = (b.ref k n s.framework).0 }

  newer : (s : Statics F) (p : ℕ) → p < s.next → with_live s.next true s.live p ≡ s.live p
  newer s p h = ground (arith, h)

  -- A place that is known, and one that is added.
  known-Entered :
      (k : Kind) (n : Text) (s s' : Statics F)
      → (laws.count k n s.framework == 0) ≡ false
      → s'.framework ≡ (b.ref k n s.framework).0
      → s'.rh ≡ s.rh
      → s'.the_handler ≡ s.the_handler
      → s'.has_plugins ≡ s.has_plugins
      → s'.has_mutex ≡ s.has_mutex
      → ((p : ℕ) → p < s.next → s'.live p ≡ s.live p)
      → s.next ≤ s'.next
      → Entered b laws k n s s'
  known-Entered k n s s' z f r t l u o x = record {
    counts = λ j m. ap (laws.count j m) f ∙ ref_known b laws k j n m s.framework z;
    handlers = λ m. ap (b.find_handler m) f ∙ laws.find-ref k n m s.framework;
    rh = r;
    the_handler = t;
    plugins = l;
    mutex = u;
    old = o;
    next = x;
  }

  unknown-Entered :
      (k : Kind) (n : Text) (s s' : Statics F)
      → (laws.count k n s.framework == 0) ≡ true
      → s'.framework ≡ (b.add k n s.next (b.ref k n s.framework).0).0
      → s'.rh ≡ s.rh
      → s'.the_handler ≡ s.the_handler
      → s'.has_plugins ≡ s.has_plugins
      → s'.has_mutex ≡ s.has_mutex
      → s'.live ≡ with_live s.next true s.live
      → s'.next ≡ suc s.next
      → Entered b laws k n s s'
  unknown-Entered k n s s' z f r t l u o x = record {
    counts = λ j m. ap (laws.count j m) f ∙ ref_unknown b laws k j n m s.next s.framework z;
    handlers = λ m.
        ap (b.find_handler m) f
        ∙ laws.find-add k n m s.next (b.ref k n s.framework).0
        ∙ laws.find-ref k n m s.framework;
    rh = r;
    the_handler = t;
    plugins = l;
    mutex = u;
    old = λ p h. ap (λ (g : ℕ → Bool). g p) o ∙ newer s p h;
    next = omega (arith, x);
  }

  pub add_unless-Entered :
      (k : Kind) (s : Statics F)
      → (s' : Statics F) × (add_unless b k
            (b.ref k catalog_name s.framework).1
            (referred k catalog_name s)
          ≡ (s', ok tt))
        × Entered b laws k catalog_name s s'
        × (s'.cs ≡ s.cs)
  unfolding add_unless new_object
  add_unless-Entered k s =
      let t = referred k catalog_name s in
      let q = laws.ref-found k catalog_name s.framework in
      elim (Bool-cases (laws.count k catalog_name s.framework == 0)) [
        | inl z ↦ (
          record t {
            framework = (b.add k catalog_name s.next t.framework).0;
            live = with_live s.next true s.live;
            next = suc s.next;
          },
          ap (λ x. add_unless b k x t) (q ∙ ap not z),
          unknown-Entered k catalog_name s _ z refl refl refl refl refl refl refl,
          refl,
        )
        | inr z ↦ (
          t,
          ap (λ x. add_unless b k x t) (q ∙ ap not z),
          known-Entered k catalog_name s _ z refl refl refl refl refl (λ p h. refl) (omega arith),
          refl,
        )
      ]

  unknown_stays :
      (k : Kind) (n : Text) (f : F)
      → (laws.count k n f == 0) ≡ true
      → laws.count k n (b.ref k n f).0 ≡ laws.count k n f
  unknown_stays k n f e = ground (arith, laws.ref-count k k n n f, e)

  pub add_storage-Entered :
      (s : Statics F)
      → (s' : Statics F) × (add_storage b
            (b.ref storages storage_name s.framework).1
            (referred storages storage_name s)
          ≡ (s', ok tt))
        × Entered b laws storages storage_name s s'
        × ((p : ℕ) × (s'.cs ≡ some p))
  unfolding add_storage new_storage new_object
  add_storage-Entered s =
      let t = referred storages storage_name s in
      let q = laws.ref-found storages storage_name s.framework in
      elim (Bool-cases (laws.count storages storage_name s.framework == 0)) [
        | inl z ↦
            let t' : Statics F = record t {
              framework = (b.add storages storage_name s.next t.framework).0;
              cs = some s.next;
              live = with_live s.next true s.live;
              next = suc s.next;
            } in
            let a : (b.add storages storage_name s.next t.framework).1 ≡ true =
              laws.add-added storages storage_name s.next t.framework
              ∙ ap (λ (x : ℕ). x == 0) (unknown_stays storages storage_name s.framework z)
              ∙ z in
            (
              t',
              ap (λ x. add_storage b x t) (q ∙ ap not z)
                  ∙ ap (λ (x : Bool). (t', if x then ok tt else err internal_fatal)) a,
              unknown-Entered storages storage_name s _ z refl refl refl refl refl refl refl,
              (s.next, refl),
            )
        | inr z ↦
            let made : Statics F = record t {
              cs = some s.next;
              live = with_live s.next true s.live;
              next = suc s.next;
            } in
            let found : Option ℕ → Statics F × Result (Unit {0}) =
              λ o. elim o [ some p ↦ (record t { cs = some p }, ok tt) | none ↦ (made, ok tt) ] in
            elim (Option-cases (b.find_storage storage_name t.framework)) [
              | inl e ↦ (
                made,
                ap (λ x. add_storage b x t) (q ∙ ap not z) ∙ ap found e,
                known-Entered storages storage_name s _ z refl refl refl refl refl (newer s)
                    (omega arith),
                (s.next, refl),
              )
              | inr (p, e) ↦ (
                record t { cs = some p },
                ap (λ x. add_storage b x t) (q ∙ ap not z) ∙ ap found e,
                known-Entered storages storage_name s _ z refl refl refl refl refl (λ p h. refl)
                    (omega arith),
                (p, refl),
              )
            ]
      ]
