-- ===== src/Studies/Curves/Legal.antt =====
-- Whether a sweep's answer can be drawn: what `response_curves` makes passes the check of a curve.
use fenix_spoon.Prelude.{
  All-append, ◌≡◌, refl, sym, ap, subst, ◌≤◌, inl, inr, String, false, List, [], ◌∷◌, ◌++◌, map,
  none, some, Eq, ◌==◌, ok, length, length-map, AllDistinct, contains, arith, nat_eq, string_eq,
  All, All-map, All-weaken, All-always, Option-cases, Bool-cases, if◌then◌else◌,
}
use fenix_spoon.Dict.{Dict, lookup}
use fenix_spoon.Series.{SeriesTrace, Series1DData, trace_names}
use fenix_spoon.Series.Limits.{IsCurve, OwnAxis, Fits, abscissa, check_one_iff}
use fenix_spoon.Studies.{
  total_points, is_empty, check_points, check_grid, variations_of, sweep_variations, check_sweep,
  SweepBody, with_each, SweepAxis, Variation, product, zip, axis_parameters, axis_values, all, sets,
  prod,
}
use fenix_spoon.Numbers.{Order}
use fenix_spoon.Studies.Grid.{length-sweep_variations, check_sweep_bounds, mul_ge, length-product}
use fenix_spoon.Studies.Curves.{
  SweepPoint, drawn, trace_of, traces_of, curve_of, made, metric_curves, response_curves, or_blank,
}

module _ {F : Type 0} ⦃e : Eq F⦄ (trace_name : String → Variation F → String) where
  -- The point says where on the abscissa it stands.
  abbrev pub Placed : String → SweepPoint F → Type 0
  Placed at p = (v : F) × (lookup at p.values ≡ some v)

  drawn-Placed :
      (at metric : String) (held : Variation F) (points : List (SweepPoint F))
      → All (Placed at) points
      → (line : List (F × F)) × (drawn trace_name at metric held points ≡ ok line)
        × (length line ≤ length points)
  unfolding drawn
  drawn-Placed at metric held [] h = ([], refl, omega arith)
  drawn-Placed at metric held (p ∷ ps) h =
      let (rest, made, few) = drawn-Placed at metric held ps h.1 in
      elim (Option-cases (lookup metric p.answer.metrics)) [
        | inl blank ↦ (rest, ground (arith, blank, made), omega (arith, few))
        | inr (value, answered) ↦ elim (Bool-cases (all (sets p.values) held)) [
          | inl on ↦
              ((h.0.0, value) ∷ rest, ground (arith, answered, on, made, h.0.1), omega (arith, few))
          | inr off ↦ (rest, ground (arith, answered, off, made), omega (arith, few))
        ]
      ]

  -- What is asked of a trace that stands on its own.
  abbrev Drawable : SeriesTrace F → Type 0
  Drawable t = ((length t.values ≤ 4096) × OwnAxis t.x t.values) × Fits (abscissa none t.x) t.values

  trace_of-Drawable :
      (at metric unit : String) (held : Variation F) (d : F × F) (ds : List (F × F))
      → length (d ∷ ds) ≤ 4096
      → Drawable (trace_of trace_name at metric unit held (d ∷ ds))
  unfolding trace_of
  trace_of-Drawable at metric unit held d ds few =
      let xs = length-map (λ (p : F × F). p.0) (d ∷ ds) in
      let ys = length-map (λ (p : F × F). p.1) (d ∷ ds) in ground (arith, xs, ys, few)

  abbrev pub names_of : String → List String → List (List F) → List String
  names_of metric names combinations = map (λ c. trace_name metric (zip names c)) combinations

  -- The traces of a metric: each stands on its own, and they are some of the lines of the grid.
  record Traced (at metric unit : String) (names : List String) (combinations : List (List F))
      (points : List (SweepPoint F)) : Type 0 where
    traces : List (SeriesTrace F)
    gives : traces_of trace_name at metric unit names combinations points ≡ ok traces
    drawable : All Drawable traces
    few : length traces ≤ length combinations
    among :
        (n : String)
        → contains n (names_of metric names combinations) ≡ false
        → contains n (trace_names traces) ≡ false
    distinct : AllDistinct (names_of metric names combinations) → AllDistinct (trace_names traces)

  with_line :
      (at metric unit : String) (names : List String) (c : List F) (cs : List (List F))
      (points : List (SweepPoint F)) (line : List (F × F))
      → drawn trace_name at metric (zip names c) points ≡ ok line
      → length line ≤ 4096
      → Traced at metric unit names cs points
      → Traced at metric unit names (c ∷ cs) points
  unfolding traces_of names_of contains trace_of
  with_line at metric unit names c cs points [] line few later = record {
    traces = later.traces;
    gives = ground (arith, line, later.gives);
    drawable = later.drawable;
    few = omega (arith, later.few);
    among = λ n h. later.among n (ground (arith, h));
    distinct = λ h. later.distinct h.1;
  }
  with_line at metric unit names c cs points (d ∷ ds) line few later = record {
    traces = trace_of trace_name at metric unit (zip names c) (d ∷ ds) ∷ later.traces;
    gives = ground (arith, line, later.gives);
    drawable = (trace_of-Drawable at metric unit (zip names c) d ds few, later.drawable);
    few = omega (arith, later.few);
    among = λ n h. ground (arith, h, later.among n);
    distinct = λ h. (later.among (trace_name metric (zip names c)) h.0, later.distinct h.1);
  }

  traces_of-Traced :
      (at metric unit : String) (names : List String) (combinations : List (List F))
      (points : List (SweepPoint F))
      → All (Placed at) points
      → length points ≤ 4096
      → Traced at metric unit names combinations points
  unfolding traces_of names_of contains
  traces_of-Traced at metric unit names [] points placed short = record {
    traces = [];
    gives = refl;
    drawable = tt;
    few = omega arith;
    among = λ n h. refl;
    distinct = λ h. tt;
  }
  traces_of-Traced at metric unit names (c ∷ cs) points placed short =
      let (line, drawn, few) = drawn-Placed at metric (zip names c) points placed in
      with_line at metric unit names c cs points line drawn (omega (arith, few, short))
        (traces_of-Traced at metric unit names cs points placed short)

  made-IsCurve :
      (at metric : String) (traces : List (SeriesTrace F))
      → All Drawable traces
      → length traces ≤ 32
      → AllDistinct (trace_names traces)
      → (curves : List (Series1DData F)) × (made trace_name at metric traces ≡ ok curves)
        × All IsCurve curves
  unfolding made curve_of
  made-IsCurve at metric [] good few names = ([], refl, tt)
  made-IsCurve at metric (t ∷ ts) good few names =
      let curve : Series1DData F = curve_of trace_name at metric (t ∷ ts) in
      let fine : IsCurve curve = record {
        shared = tt;
        within = All-weaken Drawable _ (λ u d. d.0) (t ∷ ts) good;
        some_traces = omega arith;
        few_traces = few;
        names = names;
        drawable = All-weaken Drawable _ (λ u d. d.1) (t ∷ ts) good;
      } in
      (curve ∷ [], ground (arith, (check_one_iff curve).1 fine), (fine, tt))

  metric_curves-IsCurve :
      (a : SweepAxis F) (rest : List (SweepAxis F)) (points : List (SweepPoint F))
      (metrics : List String) (units : Dict String String)
      → All (Placed a.parameter) points
      → length points ≤ 4096
      → length (product (axis_values rest)) ≤ 32
      → ((metric : String)
          → AllDistinct (names_of metric (axis_parameters rest) (product (axis_values rest))))
      → (curves : List (Series1DData F)) × (metric_curves trace_name a rest points metrics units
          ≡ ok curves)
        × All IsCurve curves
  unfolding metric_curves
  metric_curves-IsCurve a rest points [] units placed short few names = ([], refl, tt)
  metric_curves-IsCurve a rest points (metric ∷ metrics) units placed short few names =
      let unit = or_blank (lookup metric units) in
      let t =
        traces_of-Traced a.parameter metric unit (axis_parameters rest) (product (axis_values rest))
          points placed short in
      let (curve, makes, fine) =
        made-IsCurve a.parameter metric t.traces t.drawable (omega (arith, t.few, few))
          (t.distinct (names metric)) in
      let (curves, rest_makes, rest_fine) =
        metric_curves-IsCurve a rest points metrics units placed short few names in
      (
        curve ++ curves,
        ground (arith, t.gives, makes, rest_makes),
        All-append IsCurve curve curves fine rest_fine,
      )

  -- Every row of a grid begins with a value of the first axis.
  with_each-headed :
      (n : String) (ns : List String) (xs : List F) (rows : List (List F))
      → All (λ row. (v : F) × (lookup n (zip (n ∷ ns) row) ≡ some v)) (with_each xs rows)
  unfolding with_each zip lookup
  with_each-headed n ns [] rows = tt
  with_each-headed n ns (x ∷ xs) rows =
      All-append _ (map (λ row. x ∷ row) rows) (with_each xs rows)
        (All-map _ (λ row. x ∷ row) rows
          (All-always _ (λ row. (x, ground (arith, string_eq.beq_iff n n))) rows))
        (with_each-headed n ns xs rows)

  Placed-by :
      (at : String) (points : List (SweepPoint F))
      → All (λ (v : Variation F). (x : F) × (lookup at v ≡ some x)) (map (λ p. p.values) points)
      → All (Placed at) points
  Placed-by at [] h = tt
  Placed-by at (p ∷ ps) h = (h.0, Placed-by at ps h.1)

  -- The names that the lines of a metric's curve set would be printed with.
  abbrev pub line_names : String → List (SweepAxis F) → List String
  line_names metric [] = []
  line_names metric (a ∷ rest) = names_of metric (axis_parameters rest) (product (axis_values rest))

module _ {F : Type 0} ⦃e : Eq F⦄ ⦃o : Order F⦄ (trace_name : String → Variation F → String) where
  few_lines :
      (a : SweepAxis F) (rest : List (SweepAxis F)) (points : List (Variation F))
      → check_grid (a ∷ rest) ≡ ok tt
      → total_points (a ∷ rest) points ≤ 64
      → length (product (axis_values rest)) ≤ 32
  unfolding check_grid total_points prod
  few_lines a rest points passed total =
      let many : 2 ≤ length a.values = ground (arith, passed) in
      let lines = length-product rest in
      let count = prod (map (λ (x : SweepAxis F). length x.values) rest) in
      elim (Bool-cases (0 == count)) [
        | inl blank ↦ ground (arith, blank, lines)
        | inr lined ↦
            omega (arith, lines, total, mul_ge (length a.values) count many (ground (arith, lined)))
      ]

  curves_drawable :
      (axes : List (SweepAxis F)) (given : List (Variation F)) (points : List (SweepPoint F))
      (metrics : List String) (units : Dict String String)
      → (if is_empty axes then check_points given else check_grid axes) ≡ ok tt
      → total_points axes given ≤ 64
      → length points ≤ 64
      → map (λ (p : SweepPoint F). p.values) points ≡ variations_of axes given
      → ((metric : String) → AllDistinct (line_names trace_name metric axes))
      → (curves : List (Series1DData F)) × (response_curves trace_name axes points metrics units
          ≡ ok curves)
        × All IsCurve curves
  unfolding response_curves variations_of product with_each
  curves_drawable [] given points metrics units branch total short same names = ([], refl, tt)
  curves_drawable (a ∷ rest) given points metrics units branch total short same names =
      let rows = product (axis_values (a ∷ rest)) in
      metric_curves-IsCurve trace_name a rest points metrics units
        (Placed-by trace_name a.parameter points (
          subst (All _) (sym same) (
            All-map _ (zip (axis_parameters (a ∷ rest))) rows (
              with_each-headed trace_name a.parameter (axis_parameters rest) a.values
                (product (axis_values rest))))))
        (omega (arith, short)) (few_lines a rest given branch total) names

  -- The answer of an accepted sweep can be drawn, whichever of its points have an answer: where no
  -- two lines of a metric are printed with one name, `response_curves` raises nothing, and each
  -- curve set it makes passes the check of a curve set.
  pub response_curves-IsCurve :
      (b : SweepBody F) (points : List (SweepPoint F)) (metrics : List String)
      (units : Dict String String)
      → check_sweep b ≡ ok tt
      → map (λ (p : SweepPoint F). p.values) points ≡ sweep_variations b
      → ((metric : String) → AllDistinct (line_names trace_name metric b.axes))
      → (curves : List (Series1DData F)) × (response_curves trace_name b.axes points metrics units
          ≡ ok curves)
        × All IsCurve curves
  unfolding sweep_variations
  response_curves-IsCurve b points metrics units accepted same names =
      let (_, branch, total) = check_sweep_bounds b accepted in
      let (_, _, capped) = length-sweep_variations b accepted in
      let as_many = length-map (λ (p : SweepPoint F). p.values) points in
      curves_drawable b.axes b.points points metrics units branch total
        (ground (arith, as_many, ap length same, capped)) same names
