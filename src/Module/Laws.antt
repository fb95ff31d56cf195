-- ===== src/Module/Laws.antt =====
-- The documented behaviour of the lists of the framework, and one place that gains a reference.

use sql_handler.Module.{Kind, storages, catalogs, kind_eq, Framework, Statics}
use sql_handler.Prelude.{
  ℕ, ◌+◌, ◌-◌, ◌<◌, ◌≤◌, ◌≡◌, refl, sym, ap, Bool, true, false, not, ◌&&◌, none, some, Text,
  text_eq, text_eq_sound, ◌==◌, Bool-cases, inl, inr, if◌then◌else◌, arith,
}

abbrev pub same_place : Kind → Text → Kind → Text → Bool
same_place k n j m = kind_eq k j && text_eq n m

-- The documented behaviour of the lists: an entry that is there gains or loses one reference, one
-- that is not is left alone; an entry that is added has one.
pub record FrameworkLaws {F : Type 0} (b : Framework F) : Type 0 where
  pub count : Kind → Text → F → ℕ
  pub ref-count :
      (k j : Kind) (n m : Text) (f : F)
      → count j m (b.ref k n f).0
        ≡ (if same_place k n j m && not (count k n f == 0) then count j m f + 1 else count j m f)
  pub ref-found : (k : Kind) (n : Text) (f : F) → (b.ref k n f).1 ≡ not (count k n f == 0)
  pub add-count :
      (k j : Kind) (n m : Text) (p : ℕ) (f : F)
      → count j m (b.add k n p f).0
        ≡ (if same_place k n j m && (count k n f == 0) then 1 else count j m f)
  pub add-added : (k : Kind) (n : Text) (p : ℕ) (f : F) → (b.add k n p f).1 ≡ (count k n f == 0)
  pub deref-count :
      (k j : Kind) (n m : Text) (f : F)
      → count j m (b.deref k n f).0 ≡ (if same_place k n j m then count j m f - 1 else count j m f)
  pub deref-found : (k : Kind) (n : Text) (f : F) → (b.deref k n f).1 ≡ not (count k n f == 0)
  pub find-ref :
      (k : Kind) (n m : Text) (f : F) → b.find_handler m (b.ref k n f).0 ≡ b.find_handler m f
  pub find-add :
      (k : Kind) (n m : Text) (p : ℕ) (f : F)
      → b.find_handler m (b.add k n p f).0 ≡ b.find_handler m f
  pub find-deref :
      (k : Kind) (n m : Text) (f : F) → b.find_handler m (b.deref k n f).0 ≡ b.find_handler m f
  pub find-add_handler :
      (n m : Text) (p : ℕ) (f : F)
      → b.find_handler m (b.add_handler n p f).0 ≡ (
          if text_eq n m
          then (elim (b.find_handler n f) [ none ↦ some p | some q ↦ some q ])
          else b.find_handler m f)
  pub find-remove_handler :
      (n m : Text) (f : F)
      → b.find_handler m (b.remove_handler n f).0
        ≡ (if text_eq n m then none else b.find_handler m f)
  pub remove_handler-found : (n : Text) (f : F) → (b.remove_handler n f).1 ≡ b.find_handler n f
  pub count-add_handler :
      (k : Kind) (n m : Text) (p : ℕ) (f : F) → count k m (b.add_handler n p f).0 ≡ count k m f
  pub count-remove_handler :
      (k : Kind) (n m : Text) (f : F) → count k m (b.remove_handler n f).0 ≡ count k m f
  pub count-service :
      (k : Kind) (n m : Text) (f : F) → count k m (b.handle_dap_service n f) ≡ count k m f
  pub find-service :
      (n m : Text) (f : F) → b.find_handler m (b.handle_dap_service n f) ≡ b.find_handler m f

module _ {F : Type 0} (b : Framework F) (laws : FrameworkLaws b) where
  -- From one state to another a place gains a reference, and nothing else changes but new objects
  -- and the storage of the module.
  pub record Entered (k : Kind) (n : Text) (s s' : Statics F) : Type 0 where
    pub counts :
        (j : Kind) (m : Text)
        → laws.count j m s'.framework ≡ (
            if same_place k n j m
            then laws.count j m s.framework + 1
            else laws.count j m s.framework)
    pub handlers : (m : Text) → b.find_handler m s'.framework ≡ b.find_handler m s.framework
    pub rh : s'.rh ≡ s.rh
    pub the_handler : s'.the_handler ≡ s.the_handler
    pub plugins : s'.has_plugins ≡ s.has_plugins
    pub mutex : s'.has_mutex ≡ s.has_mutex
    pub old : (p : ℕ) → p < s.next → s'.live p ≡ s.live p
    pub next : s.next ≤ s'.next

  kind_eq_refl : (k : Kind) → kind_eq k k ≡ true
  kind_eq_refl storages = refl
  kind_eq_refl catalogs = refl

  -- A place that the list has gains a reference.
  pub ref_known :
      (k j : Kind) (n m : Text) (f : F)
      → (laws.count k n f == 0) ≡ false
      → laws.count j m (b.ref k n f).0
        ≡ (if same_place k n j m then laws.count j m f + 1 else laws.count j m f)
  ref_known k j n m f e = ground (arith, laws.ref-count k j n m f, e)

  same_place_sound : (k j : Kind) (n m : Text) → same_place k n j m ≡ true → (k ≡ j) × (n ≡ m)
  same_place_sound storages storages n m h = (refl, text_eq_sound n m h)
  same_place_sound catalogs catalogs n m h = (refl, text_eq_sound n m h)
  same_place_sound storages catalogs n m h = absurd (cc h)
  same_place_sound catalogs storages n m h = absurd (cc h)

  -- A place that the list does not have is added.
  pub ref_unknown :
      (k j : Kind) (n m : Text) (p : ℕ) (f : F)
      → (laws.count k n f == 0) ≡ true
      → laws.count j m (b.add k n p (b.ref k n f).0).0
        ≡ (if same_place k n j m then laws.count j m f + 1 else laws.count j m f)
  ref_unknown k j n m p f e = elim (Bool-cases (same_place k n j m)) [
    | inl h ↦
        let (q, r) = same_place_sound k j n m h in
        let at : laws.count j m f ≡ laws.count k n f =
          ap (λ (x : Kind × Text). laws.count x.0 x.1 f) (λ i. (sym q i, sym r i)) in
        ground (
          arith,
          laws.add-count k j n m p (b.ref k n f).0,
          laws.ref-count k j n m f,
          laws.ref-count k k n n f,
          e,
          h,
          at,
        )
    | inr h ↦
        ground (arith, laws.add-count k j n m p (b.ref k n f).0, laws.ref-count k j n m f, e, h)
  ]
