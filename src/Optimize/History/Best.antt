-- ===== src/Optimize/History/Best.antt =====
-- The best row of the report of a search (`_optimization_report` of
-- server/fenixspoon/core/service.py).
use fenix_spoon.Prelude.{
  ◌≡◌, refl, ◌∙◌, ◌⊎◌, inl, inr, ℕ, zero, suc, true, false, List, [], ◌∷◌, Option, none, some,
  get_elem?, take, arith, Option-cases, Bool-cases, All, sym, subst, ap,
}
use fenix_spoon.Numbers.{Order}
use fenix_spoon.Optimize.{Evaluation}
use fenix_spoon.Optimize.History.{Graded, with_objective, graded, least, best_graded, best_of}

module _ {F : Type 0} ⦃o : Order F⦄ where
  -- A row of a list that no row's objective lies below, and that lies below those before it.
  pub record Least (gs : List (Graded F)) (best : Graded F) : Type 0 where
    pub index : ℕ
    pub here : get_elem? gs index ≡ some best
    pub lowest : All (λ (g : Graded F). o.below g.objective best.objective ≡ false) gs
    pub first : All (λ (g : Graded F). o.below best.objective g.objective ≡ true) (take index gs)

  not_below_trans : (x y z : F) → o.below y x ≡ false → o.below z y ≡ false → o.below z x ≡ false
  not_below_trans x y z p q = elim (Bool-cases (o.below z x)) [
    | inr above ↦ above
    | inl under ↦ elim (o.total x y) [
      | inl less ↦ absurd (cc (o.transitive z x y under less, q))
      | inr (inl same) ↦ absurd (cc (same, under, q))
      | inr (inr more) ↦ absurd (cc (more, p))
    ]
  ]

  below_not_below : (x y z : F) → o.below x y ≡ true → o.below z y ≡ false → o.below x z ≡ true
  below_not_below x y z p q = elim (o.total y z) [
    | inl less ↦ o.transitive x y z p less
    | inr (inl same) ↦ cc (same, p)
    | inr (inr more) ↦ absurd (cc (more, q))
  ]

  not_below_below : (x y z : F) → o.below y x ≡ false → o.below y z ≡ true → o.below x z ≡ true
  not_below_below x y z p q = elim (o.total x y) [
    | inl less ↦ o.transitive x y z less q
    | inr (inl same) ↦ cc (same, q)
    | inr (inr more) ↦ absurd (cc (more, p))
  ]

  not_above : (x y : F) → o.below x y ≡ true → o.below y x ≡ false
  not_above x y p = elim (Bool-cases (o.below y x)) [
    | inr above ↦ above
    | inl under ↦ absurd (cc (o.transitive x y x p under, o.irreflexive x))
  ]

  -- A row that starts a list comes before a lower one that is best of the rest.
  Least-after :
      (best g : Graded F) (gs : List (Graded F)) (r : Graded F)
      → o.below g.objective best.objective ≡ true
      → Least (g ∷ gs) r
      → Least (best ∷ g ∷ gs) r
  Least-after best g gs r lower l =
      let below = not_below_below r.objective g.objective best.objective l.lowest.0 lower in
      record {
        index = suc l.index;
        here = l.here;
        lowest = (not_above r.objective best.objective below, l.lowest);
        first = (below, l.first);
      }

  Places : List (Graded F) → Graded F → Type 0
  Places gs r =
      (k : ℕ) × (get_elem? gs k ≡ some r)
      × All (λ (x : Graded F). o.below r.objective x.objective ≡ true) (take k gs)

  -- A row that does not lie below the first may stand behind it.
  place_behind :
      (best g : Graded F) (gs : List (Graded F)) (r : Graded F) (i : ℕ)
      → o.below g.objective best.objective ≡ false
      → get_elem? (best ∷ gs) i ≡ some r
      → All (λ (x : Graded F). o.below r.objective x.objective ≡ true) (take i (best ∷ gs))
      → Places (best ∷ g ∷ gs) r
  unfolding Places
  place_behind best g gs r zero kept here first = (0, here, tt)
  place_behind best g gs r (suc i) kept here first = (
    suc (suc i),
    here,
    (first.0, (below_not_below r.objective best.objective g.objective first.0 kept, first.1)),
  )

  Least-behind :
      (best g : Graded F) (gs : List (Graded F)) (r : Graded F)
      → o.below g.objective best.objective ≡ false
      → Least (best ∷ gs) r
      → Least (best ∷ g ∷ gs) r
  unfolding Places
  Least-behind best g gs r kept l =
      let (index, here, first) = place_behind best g gs r l.index kept l.here l.first in
      record {
        index = index;
        here = here;
        lowest = (
          l.lowest.0,
          (not_below_trans r.objective best.objective g.objective l.lowest.0 kept, l.lowest.1),
        );
        first = first;
      }

  least-Least : (best : Graded F) (gs : List (Graded F)) → Least (best ∷ gs) (least best gs)
  unfolding least
  least-Least best [] = record {
    index = 0;
    here = refl;
    lowest = (o.irreflexive best.objective, tt);
    first = tt;
  }
  least-Least best (g ∷ gs) = elim (Bool-cases (o.below g.objective best.objective)) [
    | inl lower ↦ rw lower (Least-after best g gs (least g gs) lower (least-Least g gs))
    | inr kept ↦ rw kept (Least-behind best g gs (least best gs) kept (least-Least best gs))
  ]

  -- An objective that is there does not lie below this one, and lies above it.
  abbrev pub NotUnder : F → Option F → Type 0
  NotUnder v none = Unit
  NotUnder v (some x) = o.below x v ≡ false

  abbrev pub Over : F → Option F → Type 0
  Over v none = Unit
  Over v (some x) = o.below v x ≡ true

  -- A row of a search with an objective that no row's lies below, and that lies below those of the
  -- rows before it.
  pub record Best (es : List (Evaluation F)) (best : Evaluation F) : Type 0 where
    pub index : ℕ
    pub here : get_elem? es index ≡ some best
    pub value : F
    pub has_value : best.objective ≡ some value
    pub lowest : All (λ (e : Evaluation F). NotUnder value e.objective) es
    pub first : All (λ (e : Evaluation F). Over value e.objective) (take index es)

  graded-none :
      (e : Evaluation F) (es : List (Evaluation F))
      → e.objective ≡ none
      → graded (e ∷ es) ≡ graded es
  unfolding graded with_objective
  graded-none e es missing = ground (arith, missing)

  graded-some :
      (e : Evaluation F) (es : List (Evaluation F)) (x : F)
      → e.objective ≡ some x
      → graded (e ∷ es) ≡ record { row = e; objective = x } ∷ graded es
  unfolding graded with_objective
  graded-some e es x there = ground (arith, there)

  abbrev Low : F → Graded F → Type 0
  Low v g = o.below g.objective v ≡ false

  abbrev High : F → Graded F → Type 0
  High v g = o.below v g.objective ≡ true

  lowest_row :
      (v : F) (es : List (Evaluation F))
      → All (Low v) (graded es)
      → All (λ (e : Evaluation F). NotUnder v e.objective) es
  lowest_row v [] low = tt
  lowest_row v (e ∷ es) low = elim (Option-cases e.objective) [
    | inl missing ↦ (
      subst (NotUnder v) (sym missing) tt,
      lowest_row v es (subst (All (Low v)) (graded-none e es missing) low),
    )
    | inr (x, there) ↦
        let here = subst (All (Low v)) (graded-some e es x there) low in
        (subst (NotUnder v) (sym there) here.0, lowest_row v es here.1)
  ]

  -- Where a graded row stands among all rows.
  PlaceOf : List (Evaluation F) → Graded F → Type 0
  PlaceOf es b =
      (i : ℕ) × (get_elem? es i ≡ some b.row)
      × (b.row.objective ≡ some b.objective)
      × All (λ (e : Evaluation F). Over b.objective e.objective) (take i es)

  place_at :
      (e : Evaluation F) (es : List (Evaluation F)) (b : Graded F) (x : F)
      → e.objective ≡ some x
      → (k : ℕ)
      → ((n : ℕ)
          → (get_elem? (graded es) n ≡ some b) × All (High b.objective) (take n (graded es))
          → PlaceOf es b)
      → (get_elem? (record { row = e; objective = x } ∷ graded es) k ≡ some b)
        × All (High b.objective) (take k (record { row = e; objective = x } ∷ graded es))
      → PlaceOf (e ∷ es) b
  unfolding PlaceOf
  place_at e es b x there zero later (here, first) =
      let same : record { row = e; objective = x } ≡ b = ground (arith, here) in
      (0, ap (λ g. some g.row) same, subst (λ g. g.row.objective ≡ some g.objective) same there, tt)
  place_at e es b x there (suc k) later (here, first) =
      let (i, at, value, over) = later k (here, first.1) in
      (suc i, at, value, (subst (Over b.objective) (sym there) first.0, over))

  place_of :
      (es : List (Evaluation F)) (b : Graded F) (k : ℕ)
      → (get_elem? (graded es) k ≡ some b) × All (High b.objective) (take k (graded es))
      → PlaceOf es b
  unfolding PlaceOf graded
  place_of [] b k (here, first) = absurd (ground (arith, here))
  place_of (e ∷ es) b k at = elim (Option-cases e.objective) [
    | inl missing ↦
        let (i, there, value, over) = place_of es b k (
          subst (λ l. (get_elem? l k ≡ some b) × All (High b.objective) (take k l))
            (graded-none e es missing) at) in
        (suc i, there, value, (subst (Over b.objective) (sym missing) tt, over))
    | inr (x, there) ↦ place_at e es b x there k (place_of es b) (
        subst (λ l. (get_elem? l k ≡ some b) × All (High b.objective) (take k l))
          (graded-some e es x there) at)
  ]

  ungraded :
      (es : List (Evaluation F))
      → graded es ≡ []
      → All (λ (e : Evaluation F). e.objective ≡ none) es
  ungraded [] h = tt
  ungraded (e ∷ es) h = elim (Option-cases e.objective) [
    | inl missing ↦ (missing, ungraded es (sym (graded-none e es missing) ∙ h))
    | inr (x, there) ↦ absurd (ground (arith, sym (graded-some e es x there) ∙ h))
  ]

  top_row-Best :
      (es : List (Evaluation F)) (g : Graded F) (gs : List (Graded F))
      → graded es ≡ g ∷ gs
      → Best es (least g gs).row
  unfolding PlaceOf
  top_row-Best es g gs is =
      let best = least g gs in
      let l = least-Least g gs in
      let (i, here, value, over) = place_of es best l.index (
        subst (λ x. (get_elem? x l.index ≡ some best) × All (High best.objective) (take l.index x))
          (sym is) (l.here, l.first)) in
      record {
        index = i;
        here = here;
        value = best.objective;
        has_value = value;
        lowest = lowest_row best.objective es (subst (All (Low best.objective)) (sym is) l.lowest);
        first = over;
      }

  best_graded_cases :
      (es : List (Evaluation F)) (gs : List (Graded F))
      → graded es ≡ gs
      → ((best_graded gs ≡ none) × All (λ (e : Evaluation F). e.objective ≡ none) es)
        ⊎ ((best : Evaluation F) × (best_graded gs ≡ some best) × Best es best)
  unfolding best_graded
  best_graded_cases es [] is = inl (refl, ungraded es is)
  best_graded_cases es (g ∷ gs) is = inr ((least g gs).row, refl, top_row-Best es g gs is)

  -- The best row of a search: either there is none, and no row has an objective, or it is
  -- a row with an objective: no row's objective lies below its own, and its own lies below those of the rows before it.
  pub best_of_cases :
      (es : List (Evaluation F))
      → ((best_of es ≡ none) × All (λ (e : Evaluation F). e.objective ≡ none) es)
        ⊎ ((best : Evaluation F) × (best_of es ≡ some best) × Best es best)
  unfolding best_of
  best_of_cases es = best_graded_cases es (graded es) refl
