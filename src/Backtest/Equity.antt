-- ===== src/Backtest/Equity.antt =====
-- `parseEquityCurveTSV` of web/src/components/backtest/BacktestEquityChart.tsx. `parseFloat` is an argument,
-- `none` for NaN.
use bbgo_sass.Prelude.{◌+◌, ◌≤◌, List, [], ◌∷◌, Option, none, some, length, arith}
use bbgo_sass.Prelude.Int.{ℤ}
use bbgo_sass.Prelude.Text.{split}
use bbgo_sass.Backtest.{Text, trim}

pub record EquityPoint : Type 0 where
  pub time : Text
  pub value : ℤ

-- `points.push(...)`, where a line makes a point.
unfoldable pub with_point : Option EquityPoint → List EquityPoint → List EquityPoint
with_point none points = points
with_point (some point) points = point ∷ points

length-with_point :
    (p : Option EquityPoint) (points : List EquityPoint)
    → length (with_point p points) ≤ length points + 1
unfolding with_point
length-with_point none points = omega arith
length-with_point (some point) points = omega arith

module _ (parse_float : Text → Option ℤ) where
  -- The point of a time and a value that are not empty, if the value is a number.
  unfoldable pub point_of : (time value : Text) → Option EquityPoint
  point_of [] value = none
  point_of (c ∷ time) [] = none
  point_of (c ∷ time) (d ∷ value) = elim (parse_float (d ∷ value)) [
    | none ↦ none
    | some x ↦ some (record { time = c ∷ time; value = x })
  ]

  unfoldable pub point_of_parts : List Text → Option EquityPoint
  point_of_parts [] = none
  point_of_parts (time ∷ []) = none
  point_of_parts (time ∷ value ∷ parts) = point_of time value

  -- The loop over the lines after the first.
  unfoldable pub points_of : List Text → List EquityPoint
  points_of [] = []
  points_of (line ∷ lines) = with_point (point_of_parts (split 9 line)) (points_of lines)

  unfoldable pub points_after_header : List Text → List EquityPoint
  points_after_header [] = []
  points_after_header (header ∷ lines) = points_of lines

  unfoldable pub parse_equity_curve_tsv : Text → List EquityPoint
  parse_equity_curve_tsv tsv = points_after_header (split 10 (trim tsv))

  -- A line makes at most one point.
  pub length-points_of : (lines : List Text) → length (points_of lines) ≤ length lines
  unfolding points_of
  length-points_of [] = omega arith
  length-points_of (line ∷ lines) = omega (
    arith,
    length-points_of lines,
    length-with_point (point_of_parts (split 9 line)) (points_of lines),
  )
