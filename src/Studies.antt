-- ===== src/Studies.antt =====
-- server/fenixspoon/core/studies.py: what a study's body may say, and which solves it implies.
-- A float is a value of `F`. A body's `design` and `metrics` are kept as they are read.
pub mod Ladder
pub mod Grid
pub mod Convergence
pub mod Points
pub mod Curves
use fenix_spoon.Prelude.{
  bool_eq, ◌≡◌, ℕ, suc, ◌+◌, ◌*◌, String, Bool, true, false, not, ◌&&◌, ◌||◌, List, [], ◌∷◌, ◌++◌,
  map, Option, none, some, Eq, ◌==◌, nat_eq, string_eq, if◌then◌else◌, ltb, leb, length, set_of,
  contains, keep, drop, get_elem?, Result, ok, err, guard, ◌>>=◌, ◌>>◌,
}
use fenix_spoon.Dict.{Dict, keys, lookup}
use fenix_spoon.Objects.{Reference}
use fenix_spoon.Numbers.{Order, sorted, list_beq}

abbrev pub max_sweep_points : ℕ
max_sweep_points = 64

pub data StudyError : Type 0 where
  -- a ladder's
  too_few_values repeated_value unordered_values : StudyError
  -- an axis's
  axis_empty axis_repeats axis_unordered : String → StudyError
  -- a sweep's
  axes_or_points one_axis_per_parameter abscissa_too_short : StudyError
  one_point ragged_points empty_point repeated_point : StudyError
  too_many_points : ℕ → StudyError
  unknown_metric : List String → StudyError

pub record StudySpec : Type 0 where
  pub design : Reference
  pub metrics : Option (List String)

pub record MeshConvergenceBody (F : Type 0) : Type 0 where
  pub spec : StudySpec
  pub parameter : String
  pub values : List F
  pub tolerance : F

pub record SweepAxis (F : Type 0) : Type 0 where
  pub parameter : String
  pub values : List F

abbrev pub Variation : Type 0 → Type 0
Variation F = Dict String F

pub record SweepBody (F : Type 0) : Type 0 where
  pub spec : StudySpec
  pub axes : List (SweepAxis F)
  pub points : List (Variation F)

-- `_StudySpec.metrics` against what the capability declares: all of them, or those named
unfoldable pub tabulated_metrics : StudySpec → List String → Result StudyError (List String)
tabulated_metrics spec declared = elim spec.metrics [
  | none ↦ ok declared
  | some named ↦
      let unknown = keep (λ name. not (contains name declared)) named in
      guard (length unknown == 0) (unknown_metric unknown) >> ok named
]

abbrev pub is_empty : {A : Type 0} → List A → Bool
is_empty [] = true
is_empty (x ∷ xs) = false

-- every element passes
unfoldable pub all : {A : Type 0} → (A → Bool) → List A → Bool
all p [] = true
all p (x ∷ xs) = p x && all p xs

-- `itertools.product(*lists)`: the last list varies fastest
unfoldable pub with_each : {A : Type 0} → List A → List (List A) → List (List A)
with_each [] rows = []
with_each (x ∷ xs) rows = map (λ row. x ∷ row) rows ++ with_each xs rows

unfoldable pub product : {A : Type 0} → List (List A) → List (List A)
unfolding with_each
product [] = [] ∷ []
product (xs ∷ lists) = with_each xs (product lists)

-- `math.prod`
unfoldable pub prod : List ℕ → ℕ
prod [] = 1
prod (n ∷ ns) = n * prod ns

-- `dict(zip(names, combination, strict=True))` of names that differ, and as many
unfoldable pub zip : {A B : Type 0} → List A → List B → List (A × B)
zip [] ys = []
zip (x ∷ xs) [] = []
zip (x ∷ xs) (y ∷ ys) = (x, y) ∷ zip xs ys

module _ {F : Type 0} where
  abbrev pub axis_parameters : List (SweepAxis F) → List String
  axis_parameters = map (λ a. a.parameter)

  abbrev pub axis_values : List (SweepAxis F) → List (List F)
  axis_values = map (λ a. a.values)

  -- counted, and not enumerated
  unfoldable pub total_points : List (SweepAxis F) → List (Variation F) → ℕ
  total_points [] points = length points
  total_points (a ∷ axes) points = prod (map (λ x. length x.values) (a ∷ axes))

  unfoldable pub variations_of : List (SweepAxis F) → List (Variation F) → List (Variation F)
  variations_of [] points = points
  variations_of (a ∷ axes) points =
      map (zip (axis_parameters (a ∷ axes))) (product (axis_values (a ∷ axes)))

  -- `SweepBody.variations`
  unfoldable pub sweep_variations : SweepBody F → List (Variation F)
  unfolding variations_of
  sweep_variations b = variations_of b.axes b.points

  -- `MeshConvergenceBody.variations`
  unfoldable pub ladder_variations : MeshConvergenceBody F → List (Variation F)
  ladder_variations b = map (λ value. (b.parameter, value) ∷ []) b.values

module _ {F : Type 0} ⦃e : Eq F⦄ where
  -- Two points set the same parameters.
  unfoldable pub same_parameters : Variation F → Variation F → Bool
  same_parameters p q =
      all (λ k. contains k (keys q)) (keys p) && all (λ k. contains k (keys p)) (keys q)

  unfoldable pub sets : Variation F → String × F → Bool
  sets q (k, v) = elim (lookup k q) [ none ↦ false | some w ↦ w == v ]

  -- `tuple(sorted(p.items())) == tuple(sorted(q.items()))`
  unfoldable pub same_point : Variation F → Variation F → Bool
  unfolding sets
  same_point p q = all (sets q) p && all (sets p) q

  unfoldable pub has_repeat : List (Variation F) → Bool
  has_repeat [] = false
  has_repeat (p ∷ ps) = not (all (λ q. not (same_point p q)) ps) || has_repeat ps

  -- the branch of `SweepBody`'s validator for points given outright
  unfoldable pub check_points : List (Variation F) → Result StudyError (Unit {0})
  check_points [] = err one_point
  check_points (p ∷ ps) = do
    guard (not (is_empty ps)) one_point
    guard (all (same_parameters p) ps) ragged_points
    guard (not (is_empty p)) empty_point
    guard (not (has_repeat (p ∷ ps))) repeated_point

  -- and its branch for a grid
  unfoldable pub check_grid : List (SweepAxis F) → Result StudyError (Unit {0})
  check_grid [] = ok tt
  check_grid (a ∷ axes) = do
    guard (length (set_of (axis_parameters (a ∷ axes))) == length (axis_parameters (a ∷ axes)))
        one_axis_per_parameter
    guard (not (ltb (length a.values) 2)) abscissa_too_short

module _ {F : Type 0} ⦃e : Eq F⦄ ⦃o : Order F⦄ where
  -- `MeshConvergenceBody._a_ladder_not_a_list`
  unfoldable pub check_ladder : MeshConvergenceBody F → Result StudyError (Unit {0})
  check_ladder b = do
    guard (not (ltb (length b.values) 2)) too_few_values
    guard (length (set_of b.values) == length b.values) repeated_value
    guard (list_beq (sorted b.values) b.values) unordered_values

  -- `SweepAxis._an_axis_not_a_bag`
  unfoldable pub check_sweep_axis : SweepAxis F → Result StudyError (Unit {0})
  check_sweep_axis a = do
    guard (not (length a.values == 0)) (axis_empty a.parameter)
    guard (length (set_of a.values) == length a.values) (axis_repeats a.parameter)
    guard (list_beq (sorted a.values) a.values) (axis_unordered a.parameter)

  unfoldable pub check_sweep_axes : List (SweepAxis F) → Result StudyError (Unit {0})
  check_sweep_axes [] = ok tt
  check_sweep_axes (a ∷ axes) = check_sweep_axis a >> check_sweep_axes axes

  -- `SweepBody._a_sweep_not_a_guess`, after the axes that it is made of
  unfoldable pub check_sweep : SweepBody F → Result StudyError (Unit {0})
  check_sweep b = do
    check_sweep_axes b.axes
    guard (not (is_empty b.axes == is_empty b.points)) axes_or_points
    if is_empty b.axes then check_points b.points else check_grid b.axes
    let total = total_points b.axes b.points
    guard (leb total max_sweep_points) (too_many_points total)
