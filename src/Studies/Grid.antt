-- ===== src/Studies/Grid.antt =====
-- The solves that a sweep implies: as many as were counted, no more than the cap, no two the same.
use native.Mathlib.Nat.{suc-mul}
use fenix_spoon.Prelude.{
  ◌≡◌, refl, ap, ◌∙◌, ◌≤◌, ◌<◌, ℕ, zero, suc, ◌+◌, ◌*◌, not, List, [], ◌∷◌, map, Eq, ◌==◌, ok,
  length, length-append, length-map, arith, nat_eq, string_eq, bool_eq, All, >>=-eq-ok,
  if◌then◌else◌, guard,
}
use fenix_spoon.Numbers.{Order, Ascending}
use fenix_spoon.Studies.{
  SweepAxis, SweepBody, Variation, with_each, product, prod, zip, axis_parameters, axis_values,
  total_points, sweep_variations, variations_of, check_points, check_grid, check_sweep,
  check_sweep_axes, is_empty, axes_or_points,
}
use fenix_spoon.Studies.Ladder.{check_sweep_axes_iff}

mul_pos : (m n : ℕ) → 0 < m → 0 < n → 0 < m * n
mul_pos zero n p q = absurd (omega (arith, p))
mul_pos (suc m) n p q = omega (arith, suc-mul m n, q)

pub mul_ge : (m n : ℕ) → 2 ≤ m → 0 < n → n + n ≤ m * n
mul_ge zero n p q = absurd (omega (arith, p))
mul_ge (suc zero) n p q = absurd (omega (arith, p))
mul_ge (suc (suc m)) n p q = omega (arith, suc-mul (suc m) n, suc-mul m n)

length-with_each :
    {A : Type 0} (xs : List A) (rows : List (List A))
    → length (with_each xs rows) ≡ length xs * length rows
unfolding with_each
length-with_each [] rows = omega arith
length-with_each (x ∷ xs) rows = ground (
  arith,
  length-append (map (λ row. x ∷ row) rows) (with_each xs rows),
  length-map (λ row. x ∷ row) rows,
  length-with_each xs rows,
  suc-mul (length xs) (length rows),
)

pub length-product :
    {F : Type 0} (axes : List (SweepAxis F))
    → length (product (axis_values axes)) ≡ prod (map (λ a. length a.values) axes)
unfolding product prod
length-product [] = refl
length-product (a ∷ axes) =
    length-with_each a.values (product (axis_values axes))
    ∙ ap (λ n. length a.values * n) (length-product axes)

length-variations_of :
    {F : Type 0} (axes : List (SweepAxis F)) (points : List (Variation F))
    → length (variations_of axes points) ≡ total_points axes points
unfolding variations_of total_points
length-variations_of [] points = refl
length-variations_of (a ∷ axes) points =
    length-map (zip (axis_parameters (a ∷ axes))) (product (axis_values (a ∷ axes)))
    ∙ length-product (a ∷ axes)

prod_pos : (ns : List ℕ) → All (λ n. 0 < n) ns → 0 < prod ns
unfolding prod
prod_pos [] h = omega arith
prod_pos (n ∷ ns) h = mul_pos n (prod ns) h.0 (prod_pos ns h.1)

module _ {F : Type 0} ⦃e : Eq F⦄ ⦃o : Order F⦄ where
  axes_pos :
      (axes : List (SweepAxis F))
      → All (λ (a : SweepAxis F). (0 < length a.values) × Ascending a.values) axes
      → All (λ n. 0 < n) (map (λ (a : SweepAxis F). length a.values) axes)
  axes_pos [] h = tt
  axes_pos (a ∷ axes) h = (h.0.0, axes_pos axes h.1)

  total_points-ge_two :
      (axes : List (SweepAxis F)) (points : List (Variation F))
      → All (λ (a : SweepAxis F). (0 < length a.values) × Ascending a.values) axes
      → (if is_empty axes then check_points points else check_grid axes) ≡ ok tt
      → 2 ≤ total_points axes points
  unfolding total_points check_points check_grid prod
  total_points-ge_two [] [] legal h = ground (arith, h)
  total_points-ge_two [] (p ∷ []) legal h = ground (arith, h)
  total_points-ge_two [] (p ∷ q ∷ ps) legal h = omega arith
  total_points-ge_two (a ∷ axes) points legal h =
      let rest = map (λ (x : SweepAxis F). length x.values) axes in
      let others : 0 < prod rest = prod_pos rest (axes_pos axes legal.1) in
      let two : 2 ≤ length a.values = ground (arith, h) in
      omega (arith, mul_ge (length a.values) (prod rest) two others, others)

  -- What acceptance says of the two bounds.
  pub check_sweep_bounds :
      (b : SweepBody F)
      → check_sweep b ≡ ok tt
      → All (λ (a : SweepAxis F). (0 < length a.values) × Ascending a.values) b.axes
        × ((if is_empty b.axes then check_points b.points else check_grid b.axes) ≡ ok tt)
        × (total_points b.axes b.points ≤ 64)
  unfolding check_sweep
  check_sweep_bounds b h =
      let one = guard (not (is_empty b.axes == is_empty b.points)) axes_or_points in
      let branch = if is_empty b.axes then check_points b.points else check_grid b.axes in
      let (_, legal, h1) = >>=-eq-ok (check_sweep_axes b.axes) _ h in
      let (_, _, h2) = >>=-eq-ok one _ h1 in
      let (_, passed, h3) = >>=-eq-ok branch _ h2 in
      ((check_sweep_axes_iff b.axes).0 legal, passed, ground (arith, h3))

  -- An accepted sweep enumerates as many solves as the validator counted without enumerating
  -- them: two or more, and no more than the cap.
  pub length-sweep_variations :
      (b : SweepBody F)
      → check_sweep b ≡ ok tt
      → (length (sweep_variations b) ≡ total_points b.axes b.points)
        × (2 ≤ length (sweep_variations b))
        × (length (sweep_variations b) ≤ 64)
  unfolding check_sweep sweep_variations
  length-sweep_variations b h =
      let (legal, branch, capped) = check_sweep_bounds b h in
      let same = length-variations_of b.axes b.points in
      (
        same,
        omega (arith, same, total_points-ge_two b.axes b.points legal branch),
        omega (arith, same, capped),
      )
