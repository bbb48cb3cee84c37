-- ===== src/Prelude/Sets.antt =====
-- `set(xs)`, by its elements in order of last occurrence, and the test `len(set(xs)) == len(xs)`.
use Prim.Native.Nat.{◌≤◌}
use mathlib.Core.Path.{◌≡◌, refl}
use mathlib.Core.Logic.{◌↔◌, inl, inr}
use mathlib.Core.List.{List, [], ◌∷◌}
use mathlib.Core.Bool.{Bool, false, ◌||◌}
use native.Mathlib.Omega.{arith}
use fenix_spoon.Prelude.Tests.{Eq, ◌==◌, if◌then◌else◌, Bool-cases}
use fenix_spoon.Prelude.Lists.{length}

module _ {ℓ} {A : Type ℓ} ⦃e : Eq A⦄ where
  -- `x in xs`
  unfoldable pub contains : A → List A → Bool
  contains a [] = false
  contains a (x ∷ xs) = a == x || contains a xs

  unfoldable pub set_of : List A → List A
  unfolding contains
  set_of [] = []
  set_of (x ∷ xs) = let rest = set_of xs in if contains x rest then rest else x ∷ rest

  -- No element occurs twice.
  abbrev pub AllDistinct : List A → Type 0
  AllDistinct [] = Unit
  AllDistinct (x ∷ xs) = (contains x xs ≡ false) × AllDistinct xs

  contains-set_of : (a : A) (xs : List A) → contains a (set_of xs) ≡ contains a xs
  unfolding set_of
  contains-set_of a [] = refl
  contains-set_of a (x ∷ xs) = elim (Bool-cases (contains x (set_of xs))) [
    | inl seen ↦ rw seen (elim (Bool-cases (a == x)) [
      | inl same ↦ ground (arith, (e.beq_iff a x).0 same, contains-set_of a xs, seen)
      | inr other ↦ ground (arith, contains-set_of a xs)
    ])
    | inr fresh ↦ rw fresh (ground (arith, contains-set_of a xs))
  ]

  length-set_of-le : (xs : List A) → length (set_of xs) ≤ length xs
  unfolding set_of
  length-set_of-le [] = omega arith
  length-set_of-le (x ∷ xs) = ground (arith, length-set_of-le xs)

  -- The length test passes exactly on lists with no repeated element.
  pub length-set_of_iff : (xs : List A) → (length (set_of xs) ≡ length xs) ↔ AllDistinct xs
  unfolding set_of
  length-set_of_iff [] = ((λ _. tt), (λ _. refl))
  length-set_of_iff (x ∷ xs) =
      let (there, back) = length-set_of_iff xs in
      let bound = length-set_of-le xs in
      let same = contains-set_of x xs in
      ((λ h. ground (arith, there)), (λ h. ground (arith, back h.1)))
