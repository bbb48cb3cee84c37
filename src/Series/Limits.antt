-- ===== src/Series/Limits.antt =====
-- What the validators of a curve, and of a result's curves, accept.
use fenix_spoon.Prelude.{
  ◌≤◌, ◌<◌, ◌≡◌, refl, ◌↔◌, String, List, [], ◌∷◌, Option, none, some, ok, nat_eq, string_eq,
  length, All, AllDistinct, length-set_of_iff, arith, inl, inr, Option-cases,
}
use fenix_spoon.Series.{
  SeriesAxis, SeriesTrace, Series1DData, check_axis, check_axis?, aligned, check_trace,
  check_traces, shared_abscissa, check_abscissae, trace_names, series_names, check_one,
  total_points, check_series, model_validate, curves_of,
}

module _ {F : Type 0} where
  -- An axis has samples, and no more than the ceiling.
  abbrev pub IsAxis : SeriesAxis F → Type 0
  IsAxis a = (0 < length a.values) × (length a.values ≤ 4096)

  abbrev pub OwnAxis : Option (SeriesAxis F) → List F → Type 0
  OwnAxis none values = Unit
  OwnAxis (some a) values = IsAxis a × (length a.values ≡ length values)

  abbrev pub SharedAxis : Option (SeriesAxis F) → Type 0
  SharedAxis none = Unit
  SharedAxis (some a) = IsAxis a

  -- The axis that a trace is drawn against: its own, or else the shared one.
  abbrev pub abscissa : Option (SeriesAxis F) → Option (SeriesAxis F) → Option (SeriesAxis F)
  abscissa shared (some own) = some own
  abscissa shared none = shared

  -- There is an axis to draw against, with one sample for each value.
  abbrev pub Fits : Option (SeriesAxis F) → List F → Type 0
  Fits none values = ⊥
  Fits (some a) values = length a.values ≡ length values

  pub record IsCurve (s : Series1DData F) : Type 0 where
    pub shared : SharedAxis s.x
    pub within :
        All (λ (t : SeriesTrace F). (length t.values ≤ 4096) × OwnAxis t.x t.values) s.traces
    pub some_traces : 0 < length s.traces
    pub few_traces : length s.traces ≤ 32
    pub names : AllDistinct (trace_names s.traces)
    pub drawable : All (λ (t : SeriesTrace F). Fits (abscissa s.x t.x) t.values) s.traces

  check_axis_iff : (a : SeriesAxis F) → (check_axis a ≡ ok tt) ↔ IsAxis a
  unfolding check_axis
  check_axis_iff a = ground arith

  check_axis?_iff : (o : Option (SeriesAxis F)) → (check_axis? o ≡ ok tt) ↔ SharedAxis o
  unfolding check_axis?
  check_axis?_iff none = ((λ _. tt), (λ _. refl))
  check_axis?_iff (some a) = check_axis_iff a

  check_trace_iff :
      (t : SeriesTrace F)
      → (check_trace t ≡ ok tt) ↔ ((length t.values ≤ 4096) × OwnAxis t.x t.values)
  unfolding check_trace check_axis? check_axis aligned
  check_trace_iff t = ground arith

  check_traces_iff :
      (ts : List (SeriesTrace F))
      → (check_traces ts ≡ ok tt)
        ↔ All (λ (t : SeriesTrace F). (length t.values ≤ 4096) × OwnAxis t.x t.values) ts
  unfolding check_traces
  check_traces_iff [] = ((λ _. tt), (λ _. refl))
  check_traces_iff (t ∷ ts) = ground (arith, check_trace_iff t, check_traces_iff ts)

  check_abscissae_iff :
      (name : String) (shared : Option (SeriesAxis F)) (ts : List (SeriesTrace F))
      → All (λ (t : SeriesTrace F). (length t.values ≤ 4096) × OwnAxis t.x t.values) ts
      → (check_abscissae name shared ts ≡ ok tt)
        ↔ All (λ (t : SeriesTrace F). Fits (abscissa shared t.x) t.values) ts
  unfolding check_abscissae shared_abscissa
  check_abscissae_iff name shared [] h = ((λ _. tt), (λ _. refl))
  check_abscissae_iff name shared (t ∷ ts) h =
      ground (arith, check_abscissae_iff name shared ts h.1)

  -- A curve set is accepted exactly when it is a curve.
  pub check_one_iff : (s : Series1DData F) → (check_one s ≡ ok tt) ↔ IsCurve s
  unfolding check_one
  check_one_iff s = ground (
    arith,
    check_axis?_iff s.x,
    check_traces_iff s.traces,
    check_abscissae_iff s.name s.x s.traces,
    length-set_of_iff (trace_names s.traces),
  )

  -- The curves of a result pass the collective check exactly when their names differ, they are at
  -- most 32, and their points at most 8192.
  pub check_series_iff :
      (series : List (Series1DData F))
      → (check_series series ≡ ok tt)
        ↔ (AllDistinct (series_names series) × (length series ≤ 32) × (total_points series ≤ 8192))
  unfolding check_series
  check_series_iff series = ground (arith, length-set_of_iff (series_names series))

  -- Whichever place the kind puts them in, the curves that come out are curves.
  curves_of-IsCurve :
      {D : Type 0} (parse : D → Option (Series1DData F)) (kind : String) (raw : D)
      (series : List (Series1DData F)) {cs : List (Series1DData F)}
      → All IsCurve series
      → curves_of parse kind raw series ≡ ok cs
      → All IsCurve cs
  unfolding curves_of model_validate
  curves_of-IsCurve parse kind raw series h e = elim (Option-cases (parse raw)) [
    | inl missing ↦ ground (arith, missing)
    | inr (s, found) ↦ ground (arith, found, check_one_iff s)
  ]
