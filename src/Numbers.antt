-- ===== src/Numbers.antt =====
-- The floats that parameters and metrics are: an interface of the operations that the program uses.
use fenix_spoon.Prelude.{
  ◌≡◌, refl, subst, ◌⊎◌, inl, inr, ◌↔◌, ℕ, Bool, true, false, ◌&&◌, List, [], ◌∷◌, Eq, ◌==◌,
  if◌then◌else◌, contains, AllDistinct, arith, Bool-cases, ltb, nat_eq,
}

-- A float's comparison, on the floats that are numbers.
pub record Order {ℓ} (F : Type ℓ) : Type ℓ where
  pub below : F → F → Bool
  pub irreflexive : (x : F) → below x x ≡ false
  pub transitive : (x y z : F) → below x y ≡ true → below y z ≡ true → below x z ≡ true
  pub total : (x y : F) → (below x y ≡ true) ⊎ ((x ≡ y) ⊎ (below y x ≡ true))

instance abbrev pub nat_order : Order ℕ
nat_order = record {
  below = ltb;
  irreflexive = λ x. ground arith;
  transitive = λ x y z p q. ground (arith, p, q);
  total = λ x y. ground arith;
}

module _ {F : Type 0} ⦃e : Eq F⦄ ⦃o : Order F⦄ where
  -- `sorted(values)`
  unfoldable pub insert_sorted : F → List F → List F
  insert_sorted x [] = x ∷ []
  insert_sorted x (y ∷ ys) =
      let rest = insert_sorted x ys in if o.below y x then y ∷ rest else x ∷ y ∷ ys

  unfoldable pub sorted : List F → List F
  sorted [] = []
  sorted (x ∷ xs) = insert_sorted x (sorted xs)

  -- `==` on lists
  unfoldable pub list_beq : List F → List F → Bool
  list_beq [] [] = true
  list_beq [] (y ∷ ys) = false
  list_beq (x ∷ xs) [] = false
  list_beq (x ∷ xs) (y ∷ ys) = x == y && list_beq xs ys

  pub list_beq_iff : (xs ys : List F) → (list_beq xs ys ≡ true) ↔ (xs ≡ ys)
  unfolding list_beq
  list_beq_iff [] [] = ground arith
  list_beq_iff [] (y ∷ ys) = ground arith
  list_beq_iff (x ∷ xs) [] = ground arith
  list_beq_iff (x ∷ xs) (y ∷ ys) = ground (arith, e.beq_iff x y, list_beq_iff xs ys)

  -- Each value is below the next.
  abbrev pub Before : F → List F → Type 0
  Before x [] = Unit
  Before x (y ∷ ys) = o.below x y ≡ true

  abbrev pub Ascending : List F → Type 0
  Ascending [] = Unit
  Ascending (x ∷ xs) = Before x xs × Ascending xs

  abbrev NotAfter : F → List F → Type 0
  NotAfter x [] = Unit
  NotAfter x (y ∷ ys) = o.below y x ≡ false

  abbrev Weakly : List F → Type 0
  Weakly [] = Unit
  Weakly (x ∷ xs) = NotAfter x xs × Weakly xs

  asymmetric : (x y : F) → o.below x y ≡ true → o.below y x ≡ false
  asymmetric x y h = elim (Bool-cases (o.below y x)) [
    | inl back ↦ absurd (ground (arith, o.transitive x y x h back, o.irreflexive x))
    | inr ahead ↦ ahead
  ]

  insert_sorted-Weakly : (x : F) (ys : List F) → Weakly ys → Weakly (insert_sorted x ys)
  unfolding insert_sorted
  insert_sorted-Weakly x [] h = (tt, tt)
  insert_sorted-Weakly x (y ∷ []) h = ground (arith, asymmetric y x)
  insert_sorted-Weakly x (y ∷ z ∷ ys) h =
      ground (arith, asymmetric y x, insert_sorted-Weakly x (z ∷ ys) h.1)

  sorted-Weakly : (xs : List F) → Weakly (sorted xs)
  unfolding sorted
  sorted-Weakly [] = tt
  sorted-Weakly (x ∷ xs) = insert_sorted-Weakly x (sorted xs) (sorted-Weakly xs)

  Weakly-Ascending : (xs : List F) → Weakly xs → AllDistinct xs → Ascending xs
  unfolding contains
  Weakly-Ascending [] w d = tt
  Weakly-Ascending (x ∷ []) w d = (tt, tt)
  Weakly-Ascending (x ∷ y ∷ ys) w d =
      ground (arith, o.total x y, e.beq_iff x y, Weakly-Ascending (y ∷ ys) w.1 d.1)

  -- A value below the first of an ascending list is none of them.
  Ascending-contains : (x : F) (xs : List F) → Before x xs → Ascending xs → contains x xs ≡ false
  unfolding contains
  Ascending-contains x [] b a = refl
  Ascending-contains x (y ∷ []) b a = ground (arith, e.beq_iff x y, o.irreflexive x)
  Ascending-contains x (y ∷ z ∷ ys) b a = ground (
    arith,
    e.beq_iff x y,
    o.irreflexive x,
    o.transitive x y z b a.0,
    Ascending-contains x (z ∷ ys) (o.transitive x y z b a.0) a.1,
  )

  Ascending-AllDistinct : (xs : List F) → Ascending xs → AllDistinct xs
  Ascending-AllDistinct [] a = tt
  Ascending-AllDistinct (x ∷ xs) a = (Ascending-contains x xs a.0 a.1, Ascending-AllDistinct xs a.1)

  Ascending-sorted : (xs : List F) → Ascending xs → sorted xs ≡ xs
  unfolding sorted insert_sorted
  Ascending-sorted [] a = refl
  Ascending-sorted (x ∷ []) a = refl
  Ascending-sorted (x ∷ y ∷ ys) a =
      ground (arith, Ascending-sorted (y ∷ ys) a.1, asymmetric x y a.0)

  -- A list passes the tests for distinct and for sorted values exactly when it ascends.
  pub sorted_iff : (xs : List F) → (AllDistinct xs × (sorted xs ≡ xs)) ↔ Ascending xs
  sorted_iff xs = (
    (λ h. Weakly-Ascending xs (subst Weakly h.1 (sorted-Weakly xs)) h.0),
    (λ a. (Ascending-AllDistinct xs a, Ascending-sorted xs a)),
  )

-- The arithmetic of floats, as the language gives it: no law of it is used.
pub record Arithmetic (F : Type 0) : Type 0 where
  pub nought : F
  pub minus : F → F → F
  pub plus : F → F → F
  pub times : F → F → F
  pub divide : F → F → F
  pub magnitude : F → F
  pub negate : F → F
