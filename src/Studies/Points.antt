-- ===== src/Studies/Points.antt =====
-- No two points that a sweep enumerates are the same (server/fenixspoon/core/studies.py).
use fenix_spoon.Prelude.{
  ◌≡◌, ◌≢◌, refl, ◌<◌, ◌⊎◌, inl, inr, String, true, false, not, List, [], ◌∷◌, ◌++◌, map, Eq, ok,
  length, length-set_of_iff, AllDistinct, contains, arith, nat_eq, string_eq, All, All-append,
  All-map, All-weaken, All-always, if◌then◌else◌,
}
use fenix_spoon.Dict.{keys, lookup}
use fenix_spoon.Numbers.{Order, Ascending, sorted_iff}
use fenix_spoon.Studies.{
  SweepAxis, SweepBody, Variation, with_each, product, zip, axis_parameters, axis_values,
  variations_of, sweep_variations, all, sets, same_point, has_repeat, check_points, check_grid,
  check_sweep, is_empty,
}
use fenix_spoon.Studies.Grid.{check_sweep_bounds}

-- Any two elements of a list, in their order, are related.
abbrev pub Apart : {A : Type 0} → (A → A → Type 0) → List A → Type 0
Apart R [] = Unit
Apart R (x ∷ xs) = All (R x) xs × Apart R xs

Apart-append :
    {A : Type 0} (R : A → A → Type 0) (xs ys : List A)
    → Apart R xs
    → Apart R ys
    → All (λ x. All (R x) ys) xs
    → Apart R (xs ++ ys)
Apart-append R [] ys p q h = q
Apart-append R (x ∷ xs) ys p q h = (All-append (R x) xs ys p.0 h.0, Apart-append R xs ys p.1 q h.1)

Apart-map :
    {A B : Type 0} (R : A → A → Type 0) (S : B → B → Type 0) (f : A → B)
    (keep_apart : (x y : A) → R x y → S (f x) (f y)) (xs : List A)
    → Apart R xs
    → Apart S (map f xs)
Apart-map R S f keep_apart [] h = tt
Apart-map R S f keep_apart (x ∷ xs) h = (
  All-map (S (f x)) f xs (All-weaken (R x) (λ y. S (f x) (f y)) (keep_apart x) xs h.0),
  Apart-map R S f keep_apart xs h.1,
)

module _ {F : Type 0} where
  -- Two rows differ at a place that has a name.
  abbrev Differ : List String → List F → List F → Type 0
  Differ [] xs ys = ⊥
  Differ (n ∷ ns) [] ys = ⊥
  Differ (n ∷ ns) (x ∷ xs) [] = ⊥
  Differ (n ∷ ns) (x ∷ xs) (y ∷ ys) = (x ≢ y) ⊎ Differ ns xs ys

module _ {F : Type 0} ⦃e : Eq F⦄ where
  with_each-new :
      (n : String) (ns : List String) (x : F) (xs : List F) (row : List F) (rows : List (List F))
      → contains x xs ≡ false
      → All (Differ (n ∷ ns) (x ∷ row)) (with_each xs rows)
  unfolding with_each contains
  with_each-new n ns x [] row rows new = tt
  with_each-new n ns x (y ∷ ys) row rows new =
      All-append (Differ (n ∷ ns) (x ∷ row)) (map (λ r. y ∷ r) rows) (with_each ys rows)
        (All-map (Differ (n ∷ ns) (x ∷ row)) (λ r. y ∷ r) rows
          (All-always (λ r. Differ (n ∷ ns) (x ∷ row) (y ∷ r))
            (λ r. inl (λ same. ground (arith, new, same, e.beq_iff x y))) rows))
        (with_each-new n ns x ys row rows (ground (arith, new)))

  with_each-Apart :
      (n : String) (ns : List String) (xs : List F) (rows : List (List F))
      → AllDistinct xs
      → Apart (Differ ns) rows
      → Apart (Differ (n ∷ ns)) (with_each xs rows)
  unfolding with_each
  with_each-Apart n ns [] rows d h = tt
  with_each-Apart n ns (x ∷ xs) rows d h =
      Apart-append (Differ (n ∷ ns)) (map (λ r. x ∷ r) rows) (with_each xs rows)
        (Apart-map (Differ ns) (Differ (n ∷ ns)) (λ r. x ∷ r) (λ r s apart. inr apart) rows h)
        (with_each-Apart n ns xs rows d.1 h)
        (All-map (λ row. All (Differ (n ∷ ns) row) (with_each xs rows)) (λ r. x ∷ r) rows
          (All-always _ (λ r. with_each-new n ns x xs r rows d.0) rows))

  product-Apart :
      (axes : List (SweepAxis F))
      → All (λ (a : SweepAxis F). AllDistinct a.values) axes
      → Apart (Differ (axis_parameters axes)) (product (axis_values axes))
  unfolding product
  product-Apart [] h = (tt, tt)
  product-Apart (a ∷ axes) h =
      with_each-Apart a.parameter (axis_parameters axes) a.values (product (axis_values axes)) h.0
        (product-Apart axes h.1)

  keys-zip :
      (n : String) (ns : List String) (xs : List F)
      → contains n ns ≡ false
      → contains n (keys (zip ns xs)) ≡ false
  unfolding zip contains
  keys-zip n [] xs h = refl
  keys-zip n (m ∷ ns) [] h = refl
  keys-zip n (m ∷ ns) (x ∷ xs) h = ground (arith, h, keys-zip n ns xs)

  -- An entry under another name makes no difference.
  all-sets_other :
      (n : String) (y : F) (q p : Variation F)
      → contains n (keys p) ≡ false
      → all (sets ((n, y) ∷ q)) p ≡ all (sets q) p
  unfolding all sets lookup contains
  all-sets_other n y q [] h = refl
  all-sets_other n y q ((k, v) ∷ p) h =
      ground (arith, h, all-sets_other n y q p, string_eq.beq_iff n k)

  all-sets-Differ :
      (ns : List String) (xs ys : List F)
      → AllDistinct ns
      → Differ ns xs ys
      → all (sets (zip ns ys)) (zip ns xs) ≡ false
  unfolding all sets lookup zip
  all-sets-Differ [] xs ys d h = absurd h
  all-sets-Differ (n ∷ ns) [] ys d h = absurd h
  all-sets-Differ (n ∷ ns) (x ∷ xs) [] d h = absurd h
  all-sets-Differ (n ∷ ns) (x ∷ xs) (y ∷ ys) d (inl apart) =
      ground (arith, apart, e.beq_iff y x, string_eq.beq_iff n n)
  all-sets-Differ (n ∷ ns) (x ∷ xs) (y ∷ ys) d (inr later) = ground (
    arith,
    all-sets_other n y (zip ns ys) (zip ns xs) (keys-zip n ns xs d.0),
    all-sets-Differ ns xs ys d.1 later,
  )

  all_apart :
      (p : Variation F) (ps : List (Variation F))
      → All (λ q. same_point p q ≡ false) ps
      → all (λ q. not (same_point p q)) ps ≡ true
  unfolding all
  all_apart p [] h = refl
  all_apart p (q ∷ ps) h = ground (arith, h, all_apart p ps h.1)

  same_point-Differ :
      (ns : List String) (xs ys : List F)
      → AllDistinct ns
      → Differ ns xs ys
      → same_point (zip ns xs) (zip ns ys) ≡ false
  unfolding same_point
  same_point-Differ ns xs ys d h = ground (arith, all-sets-Differ ns xs ys d h)

  has_repeat_none :
      (ps : List (Variation F)) → Apart (λ p q. same_point p q ≡ false) ps → has_repeat ps ≡ false
  unfolding has_repeat
  has_repeat_none [] h = refl
  has_repeat_none (p ∷ ps) h = ground (arith, all_apart p ps h.0, has_repeat_none ps h.1)

module _ {F : Type 0} ⦃e : Eq F⦄ ⦃o : Order F⦄ where
  all_distinct :
      (axes : List (SweepAxis F))
      → All (λ (a : SweepAxis F). (0 < length a.values) × Ascending a.values) axes
      → All (λ (a : SweepAxis F). AllDistinct a.values) axes
  all_distinct [] h = tt
  all_distinct (a ∷ axes) h = (((sorted_iff a.values).1 h.0.1).0, all_distinct axes h.1)

  variations_of-distinct :
      (axes : List (SweepAxis F)) (points : List (Variation F))
      → All (λ (a : SweepAxis F). (0 < length a.values) × Ascending a.values) axes
      → (if is_empty axes then check_points points else check_grid axes) ≡ ok tt
      → has_repeat (variations_of axes points) ≡ false
  unfolding variations_of check_points check_grid
  variations_of-distinct [] [] legal h = ground (arith, h)
  variations_of-distinct [] (p ∷ ps) legal h = ground (arith, h)
  variations_of-distinct (a ∷ axes) points legal h =
      let names = axis_parameters (a ∷ axes) in
      let named : AllDistinct names = ground (arith, h, length-set_of_iff names) in
      has_repeat_none (map (zip names) (product (axis_values (a ∷ axes)))) (
        Apart-map (Differ names) (λ p q. same_point p q ≡ false) (zip names)
          (λ xs ys apart. same_point-Differ names xs ys named apart)
          (product (axis_values (a ∷ axes)))
          (product-Apart (a ∷ axes) (all_distinct (a ∷ axes) legal)))

  -- An accepted sweep never asks for the same solve twice.
  pub sweep_variations_distinct :
      (b : SweepBody F) → check_sweep b ≡ ok tt → has_repeat (sweep_variations b) ≡ false
  unfolding sweep_variations
  sweep_variations_distinct b h =
      let (legal, branch, _) = check_sweep_bounds b h in
      variations_of-distinct b.axes b.points legal branch
