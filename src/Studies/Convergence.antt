-- ===== src/Studies/Convergence.antt =====
-- Where a metric stops moving (`relative_changes`, `settled_value` and `convergence_of` of
-- server/fenixspoon/core/studies.py).
use fenix_spoon.Prelude.{
  ap, ◌≡◌, refl, ◌⊎◌, inl, inr, ℕ, suc, ◌-◌, String, Bool, true, false, not, ◌&&◌, List, [], ◌∷◌,
  map, Option, none, some, Eq, ◌==◌, ok, err, Result, length, drop, take, length-drop, ◌>>=◌,
  get_elem?, if◌then◌else◌, All, arith, Bool-cases,
}
use fenix_spoon.Dict.{Dict}
use fenix_spoon.Numbers.{Order, Arithmetic}

pub record MetricConvergence (F : Type 0) : Type 0 where
  pub metric : String
  pub values : List (Option F)
  pub relative_change : List (Option F)
  pub settled_at : Option F

-- `ladder[index + 1]` where there is no such rung
pub data LadderError : Type 0 where
  index_error : LadderError

module _ {F : Type 0} (op : Arithmetic F) ⦃e : Eq F⦄ ⦃o : Order F⦄ where
  unfoldable pub change : Option F → Option F → Option F
  change none current = none
  change (some previous) none = none
  change (some previous) (some current) =
      if previous == op.nought
      then none
      else some (op.divide (op.magnitude (op.minus current previous)) (op.magnitude previous))

  unfoldable pub relative_changes : List (Option F) → List (Option F)
  relative_changes [] = []
  relative_changes (x ∷ []) = []
  relative_changes (x ∷ y ∷ ys) = change x y ∷ relative_changes (y ∷ ys)

  -- the change is there, and no more than the tolerance
  unfoldable pub is_small : F → Option F → Bool
  is_small tolerance none = false
  is_small tolerance (some c) = not (o.below tolerance c)

  unfoldable pub all_small : F → List (Option F) → Bool
  all_small tolerance [] = true
  all_small tolerance (c ∷ cs) = is_small tolerance c && all_small tolerance cs

  -- the loop of `settled_value`, over the tails of the changes and the rungs after each
  unfoldable pub settle_from : F → List F → List (Option F) → Result LadderError (Option F)
  settle_from tolerance rungs [] = ok none
  settle_from tolerance [] (c ∷ cs) =
      let rest = settle_from tolerance [] cs in
      if all_small tolerance (c ∷ cs) then err index_error else rest
  settle_from tolerance (rung ∷ rungs) (c ∷ cs) =
      let rest = settle_from tolerance rungs cs in
      if all_small tolerance (c ∷ cs) then ok (some rung) else rest

  unfoldable pub settled_value : List F → List (Option F) → F → Result LadderError (Option F)
  settled_value ladder values tolerance =
      settle_from tolerance (drop 1 ladder) (relative_changes values)

  unfoldable pub convergence_of :
      List F → Dict String (List (Option F)) → F → Result LadderError (List (MetricConvergence F))
  convergence_of ladder [] tolerance = ok []
  convergence_of ladder ((metric, values) ∷ per_metric) tolerance =
      settled_value ladder values tolerance >>= λ settled.
      convergence_of ladder per_metric tolerance >>= λ rest. ok (
        record {
          metric = metric;
          values = values;
          relative_change = relative_changes values;
          settled_at = settled;
        }
        ∷ rest)

  pub length-relative_changes :
      (values : List (Option F)) → length (relative_changes values) ≡ length values - 1
  unfolding relative_changes
  length-relative_changes [] = omega arith
  length-relative_changes (x ∷ []) = omega arith
  length-relative_changes (x ∷ y ∷ ys) = omega (arith, length-relative_changes (y ∷ ys))

  abbrev pub tails : List (Option F) → List (List (Option F))
  tails [] = []
  tails (c ∷ cs) = (c ∷ cs) ∷ tails cs

  -- The rung after the first change from which every change is there and small.
  pub record Settles (tolerance : F) (rungs : List F) (changes : List (Option F)) (rung : F)
      : Type 0 where
    pub index : ℕ
    pub here : get_elem? rungs index ≡ some rung
    pub tail : List (Option F)
    pub after : get_elem? (tails changes) index ≡ some tail
    pub small : all_small tolerance tail ≡ true
    pub first : All (λ t. all_small tolerance t ≡ false) (take index (tails changes))

  settle_from_cases :
      (tolerance : F) (rungs : List F) (changes : List (Option F))
      → length rungs ≡ length changes
      → ((settle_from tolerance rungs changes ≡ ok none)
          × All (λ t. all_small tolerance t ≡ false) (tails changes))
        ⊎ ((rung : F) × (settle_from tolerance rungs changes ≡ ok (some rung))
            × Settles tolerance rungs changes rung)
  unfolding settle_from
  settle_from_cases tolerance rungs [] same = inl (refl, tt)
  settle_from_cases tolerance [] (c ∷ cs) same = absurd (omega (arith, same))
  settle_from_cases tolerance (rung ∷ rungs) (c ∷ cs) same =
      elim (Bool-cases (all_small tolerance (c ∷ cs))) [
        | inl settled ↦ inr (
          rung,
          ground (arith, settled),
          record {
            index = 0;
            here = refl;
            tail = c ∷ cs;
            after = refl;
            small = settled;
            first = tt;
          },
        )
        | inr moves ↦ elim (settle_from_cases tolerance rungs cs (omega (arith, same))) [
          | inl (nothing, never) ↦ inl (ground (arith, moves, nothing), (moves, never))
          | inr (x, found, s) ↦ inr (
            x,
            ground (arith, moves, found),
            record {
              index = suc s.index;
              here = s.here;
              tail = s.tail;
              after = s.after;
              small = s.small;
              first = (moves, s.first);
            },
          )
        ]
      ]

  -- A metric tabulated at every rung settles at the rung after the first change from which every
  -- change is there and within the tolerance; where there is no such change, it does not settle.
  pub settled_value_cases :
      (ladder : List F) (values : List (Option F)) (tolerance : F)
      → length values ≡ length ladder
      → ((settled_value ladder values tolerance ≡ ok none)
          × All (λ t. all_small tolerance t ≡ false) (tails (relative_changes values)))
        ⊎ ((rung : F) × (settled_value ladder values tolerance ≡ ok (some rung))
            × Settles tolerance (drop 1 ladder) (relative_changes values) rung)
  unfolding settled_value
  settled_value_cases ladder values tolerance same =
      settle_from_cases tolerance (drop 1 ladder) (relative_changes values)
        (omega (arith, length-drop 1 ladder, length-relative_changes values, same))

  settles :
      (ladder : List F) (values : List (Option F)) (tolerance : F)
      → length values ≡ length ladder
      → (s : Option F) × (settled_value ladder values tolerance ≡ ok s)
  settles ladder values tolerance same = elim (settled_value_cases ladder values tolerance same) [
    | inl (never, _) ↦ (none, never)
    | inr (rung, at, _) ↦ (some rung, at)
  ]

  -- Columns as long as the ladder settle or do not, and raise nothing.
  pub convergence_of-total :
      (ladder : List F) (columns : Dict String (List (Option F))) (tolerance : F)
      → All (λ (c : String × List (Option F)). length c.1 ≡ length ladder) columns
      → (rows : List (MetricConvergence F)) × (convergence_of ladder columns tolerance ≡ ok rows)
        × (map (λ (c : MetricConvergence F). c.metric) rows ≡ map (λ c. c.0) columns)
  unfolding convergence_of
  convergence_of-total ladder [] tolerance same = ([], refl, refl)
  convergence_of-total ladder ((metric, values) ∷ columns) tolerance same =
      let (rest, gives, named) = convergence_of-total ladder columns tolerance same.1 in
      let (settled, found) = settles ladder values tolerance same.0 in
      let row : MetricConvergence F = record {
        metric = metric;
        values = values;
        relative_change = relative_changes values;
        settled_at = settled;
      } in
      (row ∷ rest, ground (arith, found, gives), ap (λ l. metric ∷ l) named)
