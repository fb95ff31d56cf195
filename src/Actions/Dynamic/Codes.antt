-- ===== src/Actions/Dynamic/Codes.antt =====
-- The lists of a factory, by codes in a strict weak order.
use sql_handler.Actions.Dynamic.{DynamicList, ActionMap, same_code, find_list, put_list}
use sql_handler.Prelude.{
  ◌≡◌, refl, Bool, true, false, some, [], ◌∷◌, if◌then◌else◌, arith, Bool-cases, inl, inr,
}

-- A strict weak order of the codes.
pub record WeakOrder {Code : Type 0} (less : Code → Code → Bool) : Type 0 where
  pub irrefl : (a : Code) → less a a ≡ false
  pub same_trans :
      (a b c : Code)
      → same_code less a b ≡ true
      → same_code less b c ≡ true
      → same_code less a c ≡ true

module _ {Code : Type 0} (less : Code → Code → Bool) (order : WeakOrder less) where
  same_refl : (a : Code) → same_code less a a ≡ true
  same_refl a = rw (order.irrefl a) refl

  same_sym : (a b : Code) → same_code less a b ≡ same_code less b a
  same_sym a b = ground arith

  -- Codes that are the same as one are the same as the other.
  same_cong : (a b c : Code) → same_code less a b ≡ true → same_code less a c ≡ same_code less b c
  same_cong a b c h = ground (arith, same_sym a b, order.same_trans a b c, order.same_trans b a c)

  apart :
      (a b c : Code)
      → same_code less a b ≡ false
      → same_code less a c ≡ true
      → same_code less b c ≡ false
  apart a b c h k = ground (arith, same_sym b c, order.same_trans a c b k)

if_twice :
    {A : Type 0} (b : Bool) (x y z : A)
    → (if b then x else z) ≡ (if b then x else (if b then y else z))
if_twice true x y z = refl
if_twice false x y z = refl

if_swap :
    {A : Type 0} (b c : Bool) (x y z : A)
    → (b ≡ true → c ≡ false)
    → (if b then x else (if c then y else z)) ≡ (if c then y else (if b then x else z))
if_swap true c x y z h = rw (h refl) refl
if_swap false c x y z h = refl

module _ {Code W Args Out : Type 0} (less : Code → Code → Bool) (order : WeakOrder less) where
  pub lookup_put :
      (c d : Code) (l : DynamicList W Args Out) (m : ActionMap Code W Args Out)
      → find_list less c (put_list less d l m)
        ≡ (if same_code less d c then some l else find_list less c m)
  unfolding find_list put_list
  lookup_put c d l [] = refl
  lookup_put c d l ((i, k) ∷ m) = elim (Bool-cases (same_code less i d)) [
    | inl e ↦
        rw (put_list, e, find_list, same_cong less order i d c e)
          (if_twice (same_code less d c) (some l) (some k) (find_list less c m))
    | inr e ↦
        rw (put_list, e, find_list, lookup_put c d l m)
          (if_swap (same_code less i c) (same_code less d c) (some k) (some l) (find_list less c m)
            (apart less order i d c e))
  ]

  -- Codes that are the same find the same list.
  pub find_same :
      (c d : Code) (m : ActionMap Code W Args Out)
      → same_code less d c ≡ true
      → find_list less d m ≡ find_list less c m
  unfolding find_list
  find_same c d [] h = refl
  find_same c d ((i, k) ∷ m) h =
      rw
        (
          find_list,
          find_same c d m h,
          same_sym less order i d,
          same_sym less order i c,
          same_cong less order d c i h,
        )
        refl
