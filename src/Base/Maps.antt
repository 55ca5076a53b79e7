-- ===== src/Base/Maps.antt =====
-- Python's `dict` with text keys as an association list in the order of insertion, and a directory of
-- files as one in the order of their names.
use Prim.Native.String.{String}
use mathlib.Core.Path.{◌≡◌, refl}
use mathlib.Core.Option.{Option, none, some}
use mathlib.Core.List.{List, [], ◌∷◌}
use native.Mathlib.Omega.{arith}
use text.Mathlib.TextEquality.{eq_iff}
use pact_passport.Base.Tests.{if◌then◌else◌, ◌==◌, string_eq}
use pact_passport.Base.Texts.{text_le}

module _ {ℓ} {A : Type ℓ} where
  -- d.get(k)
  unfoldable pub find : List (String × A) → String → Option A
  find [] k = none
  find ((j, a) ∷ m) k = if j == k then some a else find m k

  -- d[k] = a
  unfoldable pub put : List (String × A) → String → A → List (String × A)
  put [] k a = (k, a) ∷ []
  put ((j, b) ∷ m) k a = if j == k then (j, a) ∷ m else (j, b) ∷ put m k a

  -- del d[k], the key being there
  unfoldable pub remove : List (String × A) → String → List (String × A)
  remove [] k = []
  remove ((j, b) ∷ m) k = let rest = remove m k in if j == k then rest else (j, b) ∷ rest

  -- A file is written over, or takes its place in the order of the names.
  unfoldable pub write_file : List (String × A) → String → A → List (String × A)
  write_file [] k a = (k, a) ∷ []
  write_file ((j, b) ∷ m) k a =
      if j == k
      then (k, a) ∷ m
      else if text_le k j
      then (k, a) ∷ (j, b) ∷ m
      else (j, b) ∷ write_file m k a

  -- The contents of `sorted(dir.glob("*.json"))`
  unfoldable pub contents : List (String × A) → List A
  contents [] = []
  contents ((k, a) ∷ m) = a ∷ contents m

  pub find-put :
      (m : List (String × A)) (k : String) (a : A) (j : String)
      → find (put m k a) j ≡ (if k == j then some a else find m j)
  unfolding find put
  find-put [] k a j = refl
  find-put ((i, b) ∷ m) k a j = ground (arith, eq_iff i k, eq_iff i j, eq_iff k j, find-put m k a j)

  pub find-remove :
      (m : List (String × A)) (k j : String)
      → find (remove m k) j ≡ (if k == j then none else find m j)
  unfolding find remove
  find-remove [] k j = ground arith
  find-remove ((i, b) ∷ m) k j =
      ground (arith, eq_iff i k, eq_iff i j, eq_iff k j, find-remove m k j)

  pub find-write_file :
      (m : List (String × A)) (k : String) (a : A) (j : String)
      → find (write_file m k a) j ≡ (if k == j then some a else find m j)
  unfolding find write_file
  find-write_file [] k a j = refl
  find-write_file ((i, b) ∷ m) k a j =
      ground (arith, eq_iff i k, eq_iff i j, eq_iff k j, find-write_file m k a j)
