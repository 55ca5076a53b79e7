-- ===== src/Base/Sets.antt =====
-- Python's `in` on lists, and `frozenset` as a list that is only asked for membership.
use mathlib.Core.Path.{◌≡◌, refl}
use mathlib.Core.Bool.{Bool, true, false, ◌&&◌, ◌||◌}
use mathlib.Core.List.{List, [], ◌∷◌, ◌++◌}
use native.Mathlib.Omega.{arith}
use pact_passport.Base.Tests.{Eq}

module _ {ℓ} {A : Type ℓ} ⦃e : Eq A⦄ where
  unfoldable pub contains : List A → A → Bool
  contains [] a = false
  contains (x ∷ xs) a = e.beq a x || contains xs a

  -- `set(xs) <= set(ys)`
  unfoldable pub is_subset : List A → List A → Bool
  is_subset [] ys = true
  is_subset (x ∷ xs) ys = contains ys x && is_subset xs ys

  -- `set(xs) == set(ys)`
  unfoldable pub same_set : List A → List A → Bool
  same_set xs ys = is_subset xs ys && is_subset ys xs

  abbrev pub Subset : List A → List A → Type ℓ
  Subset xs ys = (a : A) → contains xs a ≡ true → contains ys a ≡ true

  pub contains-subset :
      (xs ys : List A) (a : A)
      → is_subset xs ys ≡ true
      → contains xs a ≡ true
      → contains ys a ≡ true
  unfolding contains is_subset
  contains-subset [] ys a h m = ground arith
  contains-subset (x ∷ xs) ys a h m = ground (arith, e.beq_iff a x, contains-subset xs ys a)

  -- `is_subset` finds whatever is a subset.
  pub subset_of : (xs ys : List A) → Subset xs ys → is_subset xs ys ≡ true
  unfolding contains is_subset
  subset_of [] ys h = refl
  subset_of (x ∷ xs) ys h =
      ground
        (arith, h x (ground (arith, e.beq_iff x x)), subset_of xs ys (λ a m. h a (ground arith)))

  pub contains-append_left :
      (xs ys : List A) (a : A) → contains xs a ≡ true → contains (xs ++ ys) a ≡ true
  unfolding contains
  contains-append_left [] ys a h = ground arith
  contains-append_left (x ∷ xs) ys a h = ground (arith, contains-append_left xs ys a)

  pub contains-nil : (a : A) → contains [] a ≡ true → ⊥
  unfolding contains
  contains-nil a h = cc

  pub contains-append_right :
      (xs ys : List A) (a : A) → contains ys a ≡ true → contains (xs ++ ys) a ≡ true
  unfolding contains
  contains-append_right [] ys a h = h
  contains-append_right (x ∷ xs) ys a h = ground (arith, contains-append_right xs ys a)

  pub is_subset_refl : (xs : List A) → is_subset xs xs ≡ true
  is_subset_refl xs = subset_of xs xs (λ a m. m)

  pub is_subset_trans :
      (xs ys zs : List A) → is_subset xs ys ≡ true → is_subset ys zs ≡ true → is_subset xs zs ≡ true
  is_subset_trans xs ys zs h k =
      subset_of xs zs (λ a m. contains-subset ys zs a k (contains-subset xs ys a h m))

  pub same_set_refl : (xs : List A) → same_set xs xs ≡ true
  unfolding same_set
  same_set_refl xs = ground (arith, is_subset_refl xs)

  pub is_subset-append_left : (xs ys : List A) → is_subset xs (xs ++ ys) ≡ true
  is_subset-append_left xs ys = subset_of xs (xs ++ ys) (λ a m. contains-append_left xs ys a m)
