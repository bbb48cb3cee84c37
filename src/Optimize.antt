-- ===== src/Optimize.antt =====
-- server/fenixspoon/core/optimize.py: what better means, and where a golden-section search looks
-- next. Floats are values of `F`, with the operations of the language; `invphi` is `INVPHI`.
-- `square` is Python's `** 2`, which may differ from a product in the last place.
pub mod Search
pub mod Replay
pub mod History
use fenix_spoon.Prelude.{
  ◌≡◌, ℕ, suc, ◌+◌, String, Bool, true, false, not, ◌&&◌, ◌||◌, List, [], ◌∷◌, ◌++◌, map, Option,
  none, some, Eq, ◌==◌, nat_eq, string_eq, if◌then◌else◌, ltb, leb, length, keep, Result, ok, err,
  guard, ◌>>=◌, ◌>>◌,
}
use Prim.Native.String.{◌++◌ as str_append}
use fenix_spoon.Dict.{Dict, lookup}
use fenix_spoon.Objects.{Reference}
use fenix_spoon.Numbers.{Order, Arithmetic}
use fenix_spoon.Store.{Status, done, ResultSummary}
use fenix_spoon.Studies.Curves.{RowStatus, of_job, refused}
use fenix_spoon.Jobs.{Job}

abbrev pub max_evaluations_cap : ℕ
max_evaluations_cap = 32

pub data Sense : Type 0 where
  minimize maximize target : Sense

-- `objective` as a body is written with it
pub record ObjectiveFields (F : Type 0) : Type 0 where
  pub metric : String
  pub sense : Sense
  pub aim : Option F

-- A sense, and the value to hit where it has one: what the validator leaves of the two fields.
pub data Goal (F : Type 0) : Type 0 where
  minimum maximum : Goal F
  hit : F → Goal F

pub record Objective (F : Type 0) : Type 0 where
  pub metric : String
  pub goal : Goal F

pub data OptimizationError : Type 0 where
  target_missing target_unwanted : OptimizationError
  not_a_pair not_increasing : OptimizationError
  evaluations_range tolerance_range : OptimizationError

pub record BodyFields (F : Type 0) : Type 0 where
  pub design : Reference
  pub parameter : String
  pub bounds : List F
  pub objective : ObjectiveFields F
  pub max_evaluations : ℕ
  pub tolerance : F

-- A body that was read: its bounds are two.
pub record OptimizationBody (F : Type 0) : Type 0 where
  pub design : Reference
  pub parameter : String
  pub lower : F
  pub upper : F
  pub objective : Objective F
  pub max_evaluations : ℕ
  pub tolerance : F

-- One solve the search asked for, and what came back.
pub record Evaluation (F : Type 0) : Type 0 where
  pub iteration : ℕ
  pub value : F
  pub job_id : Option String
  pub status : RowStatus
  pub cached : Bool
  pub metric : Option F
  pub objective : Option F
  pub error : Option String

-- `unit_of`
abbrev pub squared_unit : String → String
squared_unit unit =
    if unit == "" || unit == "1" then unit else str_append "(" (str_append unit ")^2")

module _ {F : Type 0} where
  unfoldable pub unit_of : Goal F → String → String
  unit_of minimum unit = unit
  unit_of maximum unit = unit
  unit_of (hit t) unit = squared_unit unit

  -- `Objective._a_target_is_not_decoration`
  unfoldable pub goal_of : Sense → Option F → Result OptimizationError (Goal F)
  goal_of target none = err target_missing
  goal_of target (some t) = ok (hit t)
  goal_of minimize none = ok minimum
  goal_of minimize (some t) = err target_unwanted
  goal_of maximize none = ok maximum
  goal_of maximize (some t) = err target_unwanted

  unfoldable pub two_bounds : List F → Result OptimizationError (F × F)
  two_bounds [] = err not_a_pair
  two_bounds (x ∷ []) = err not_a_pair
  two_bounds (x ∷ y ∷ []) = ok (x, y)
  two_bounds (x ∷ y ∷ z ∷ rest) = err not_a_pair

module _ {F : Type 0} (op : Arithmetic F) (square : F → F) where
  -- the value that the method minimises
  unfoldable pub as_minimum : Goal F → F → F
  as_minimum minimum metric = metric
  as_minimum maximum metric = op.negate metric
  as_minimum (hit t) metric = square (op.minus metric t)

-- Python's `first or second` of a message: an empty one counts for none.
unfoldable pub message_or : Option String → Option String → Option String
message_or none second = second
message_or (some first) second = if first == "" then second else some first

module _ {F : Type 0} ⦃o : Order F⦄ (op : Arithmetic F) (one : F) where
  -- What reading a body gives, or the first thing wrong with it: the objective's validator, the
  -- limits of the fields, and then `OptimizationBody._a_bracket_not_a_pair`.
  unfoldable pub read_body : BodyFields F → Result OptimizationError (OptimizationBody F)
  unfolding goal_of two_bounds
  read_body b = do
    goal ← goal_of b.objective.sense b.objective.aim
    guard (leb 2 b.max_evaluations && leb b.max_evaluations max_evaluations_cap) evaluations_range
    guard (o.below op.nought b.tolerance && o.below b.tolerance one) tolerance_range
    (lower, upper) ← two_bounds b.bounds
    guard (o.below lower upper) not_increasing
    ok (record {
      design = b.design;
      parameter = b.parameter;
      lower = lower;
      upper = upper;
      objective = record { metric = b.objective.metric; goal = goal };
      max_evaluations = b.max_evaluations;
      tolerance = b.tolerance;
    })

-- The bracket, its two interior points, and the values there.
pub record Walk (F : Type 0) : Type 0 where
  pub a : F
  pub b : F
  pub c : F
  pub d : F
  pub fc : F
  pub fd : F

module _ {F : Type 0} ⦃o : Order F⦄ (op : Arithmetic F) (invphi : F) where
  -- `b - INVPHI * (b - a)`, and `a + INVPHI * (b - a)`
  abbrev pub left_point : F → F → F
  left_point a b = op.minus b (op.times invphi (op.minus b a))

  abbrev pub right_point : F → F → F
  right_point a b = op.plus a (op.times invphi (op.minus b a))

  -- where an iteration of the loop looks: what is left of the bracket, and the new interior point
  unfoldable pub looks_at : Walk F → F × F × F
  looks_at s =
      if o.below s.fc s.fd then (s.a, s.d, left_point s.a s.d) else (s.c, s.b, right_point s.c s.b)

  -- and the loop's variables after that point's answer
  unfoldable pub narrowed : F → Walk F → Walk F
  narrowed x s =
      if o.below s.fc s.fd
      then (record { a = s.a; b = s.d; c = left_point s.a s.d; d = s.c; fc = x; fd = s.fc })
      else (record { a = s.c; b = s.b; c = s.d; d = right_point s.c s.b; fc = s.fd; fd = x })

  abbrev pub next_of : F × F × F → F × F × Option F
  next_of (a, b, x) = (a, b, some x)

  -- `(b - a) <= tolerance * span`
  unfoldable pub is_located : F → F → Walk F → Bool
  is_located tolerance span s = not (o.below (op.times tolerance span) (op.minus s.b s.a))

  -- the loop of `_replay`, over the answers that are left
  unfoldable pub narrow : F → F → Walk F → List F → F × F × Option F
  unfolding looks_at narrowed is_located
  narrow tolerance span s [] =
      if is_located tolerance span s then (s.a, s.b, none) else next_of (looks_at s)
  narrow tolerance span s (x ∷ xs) =
      let rest = narrow tolerance span (narrowed x s) xs in
      if is_located tolerance span s then (s.a, s.b, none) else rest

  -- `_replay`
  unfoldable pub replay : F → F → F → List F → F × F × Option F
  unfolding narrow
  replay lower upper tolerance [] = (lower, upper, some (left_point lower upper))
  replay lower upper tolerance (x ∷ []) = (lower, upper, some (right_point lower upper))
  replay lower upper tolerance (x ∷ y ∷ rest) =
      let s : Walk F = record {
        a = lower;
        b = upper;
        c = left_point lower upper;
        d = right_point lower upper;
        fc = x;
        fd = y;
      } in
      narrow tolerance (op.minus upper lower) s rest

  unfoldable pub next_point : F → F → F → List F → Option F
  next_point lower upper tolerance answered = (replay lower upper tolerance answered).2

  unfoldable pub bracket_of : F → F → List F → F × F
  bracket_of lower upper answered =
      let (a, b, next) = replay lower upper op.nought answered in (a, b)
