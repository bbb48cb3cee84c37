-- ===== src/Studies/Ladder.antt =====
-- Which ladders, axes and sweeps the validators of server/fenixspoon/core/studies.py accept.
use fenix_spoon.Prelude.{
  ◌≡◌, ◌≤◌, ◌<◌, ◌↔◌, List, [], ◌∷◌, Eq, ok, length, length-set_of_iff, arith, nat_eq, All,
}
use fenix_spoon.Numbers.{Order, sorted, list_beq_iff, Ascending, sorted_iff}
use fenix_spoon.Studies.{
  MeshConvergenceBody, SweepAxis, check_ladder, check_sweep_axis, check_sweep_axes,
}

module _ {F : Type 0} ⦃e : Eq F⦄ ⦃o : Order F⦄ where
  -- A ladder is accepted exactly when it has two rungs or more, each above the one before.
  pub check_ladder_iff :
      (b : MeshConvergenceBody F)
      → (check_ladder b ≡ ok tt) ↔ ((2 ≤ length b.values) × Ascending b.values)
  unfolding check_ladder
  check_ladder_iff b = ground (
    arith,
    sorted_iff b.values,
    length-set_of_iff b.values,
    list_beq_iff (sorted b.values) b.values,
  )

  pub check_sweep_axis_iff :
      (a : SweepAxis F)
      → (check_sweep_axis a ≡ ok tt) ↔ ((0 < length a.values) × Ascending a.values)
  unfolding check_sweep_axis
  check_sweep_axis_iff a = ground (
    arith,
    sorted_iff a.values,
    length-set_of_iff a.values,
    list_beq_iff (sorted a.values) a.values,
  )

  pub check_sweep_axes_iff :
      (axes : List (SweepAxis F))
      → (check_sweep_axes axes ≡ ok tt)
        ↔ All (λ (a : SweepAxis F). (0 < length a.values) × Ascending a.values) axes
  unfolding check_sweep_axes
  check_sweep_axes_iff [] = ground arith
  check_sweep_axes_iff (a ∷ axes) =
      ground (arith, check_sweep_axis_iff a, check_sweep_axes_iff axes)
