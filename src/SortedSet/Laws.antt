-- ===== src/SortedSet/Laws.antt =====
-- The laws of `std::set` for a comparator that is transitive.
use mathlib.Core.Path.{subst}
use mathlib.Core.List.{Mem, mem-cons_self, mem-cons_of_mem}
use sql_handler.Prelude.{
  ◌≡◌, refl, inl, inr, Bool, not, ◌&&◌, has_any, true, some, List, [], ◌∷◌, All, arith, Bool-cases,
}
use sql_handler.SortedSet.{insert, find}

All-map {ℓ κ μ} :
    {A : Type ℓ} (P : A → Type κ) (Q : A → Type μ) (xs : List A)
    → ((x : A) → P x → Q x)
    → All P xs
    → All Q xs
All-map P Q [] f h = tt
All-map P Q (x ∷ xs) f h = (f x h.0, All-map P Q xs f h.1)

pub All-mem {ℓ} : {A : Type ℓ} (xs : List A) → All (λ a. Mem a xs) xs
All-mem [] = tt
All-mem (x ∷ xs) = (mem-cons_self, All-map _ _ xs (λ a m. mem-cons_of_mem x m) (All-mem xs))

module _ {ℓ} {A : Type ℓ} (lt : A → A → Bool) where
  -- Every element precedes all that stand behind it.
  abbrev pub IsSorted : List A → Type ℓ
  IsSorted [] = Unit
  IsSorted (x ∷ xs) = All (λ y. lt x y ≡ true) xs × IsSorted xs

  pub All-insert {κ} :
      (P : A → Type κ) (x : A) (xs : List A) → P x → All P xs → All P (insert lt x xs)
  unfolding insert
  All-insert P x [] px h = (px, tt)
  All-insert P x (y ∷ ys) px h = elim (Bool-cases (lt x y)) [
    | inl e ↦ rw e (px, h)
    | inr e ↦ elim (Bool-cases (lt y x)) [
      | inl e' ↦ rw (e, e') (h.0, All-insert P x ys px h.1)
      | inr e' ↦ rw (e, e') h
    ]
  ]

  pub All-find {κ} :
      (P : A → Type κ) (x : A) (xs : List A) (y : A) → All P xs → find lt x xs ≡ some y → P y
  unfolding find
  All-find P x [] y h e = cc
  All-find P x (z ∷ zs) y h e = elim (Bool-cases (not (lt x z) && not (lt z x))) [
    | inl t ↦ (let q : z ≡ y = ground arith in subst P q h.0)
    | inr t ↦ (let q : find lt x zs ≡ some y = ground arith in All-find P x zs y h.1 q)
  ]

  pub has_any-insert : (x : A) (xs : List A) → has_any (insert lt x xs) ≡ true
  unfolding insert
  has_any-insert x [] = refl
  has_any-insert x (y ∷ ys) = ground arith

  pub insert-IsSorted :
      ((x y z : A) → lt x y ≡ true → lt y z ≡ true → lt x z ≡ true)
      → (x : A) (xs : List A) → IsSorted xs
      → IsSorted (insert lt x xs)
  unfolding insert
  insert-IsSorted trans x [] h = (tt, tt)
  insert-IsSorted trans x (y ∷ ys) h = elim (Bool-cases (lt x y)) [
    | inl e ↦ rw e ((e, All-map _ _ ys (λ z k. trans x y z e k) h.0), h)
    | inr e ↦ elim (Bool-cases (lt y x)) [
      | inl e' ↦ rw (e, e') (All-insert _ x ys e' h.0, insert-IsSorted trans x ys h.1)
      | inr e' ↦ rw (e, e') h
    ]
  ]
