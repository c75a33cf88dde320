-- ===== src/StrategyState.antt =====
-- web/src/lib/bbgo/strategy-state.ts: what is shown of the state of a running strategy. The state is a
-- value as in Strategies; numbers are in units of 1e-12, `parse_float` gives them of a text, none for NaN.
pub mod Grid
pub mod Details
mod Tests
use bbgo_sass.Prelude.{
  ℕ, zero, suc, ◌+◌, ◌*◌, ◌^◌, ◌/◌, Bool, true, false, not, ◌&&◌, ◌||◌, List, [], ◌∷◌, Option, none,
  some, ltb, ◌==◌, if◌then◌else◌,
}
use bbgo_sass.Prelude.Int.{ℤ, pos, ◌+ℤ◌, ◌-ℤ◌, ◌*ℤ◌, pos_part, neg_part}
use bbgo_sass.Prelude.Text.{codes, same_text}
use bbgo_sass.Numbers.{is_zero}
use bbgo_sass.Strategies.{
  Text, Value, undefined, null, boolean, number, text, object, Entries, empty, value_at,
}

-- The categories that `getStrategyCategory` tells apart.
pub data StrategyCategory : Type 0 where
  grid maker dca trend other : StrategyCategory

abbrev pub grid_strategies : List Text
grid_strategies = codes "grid2" ∷ codes "grid" ∷ codes "bollgrid" ∷ codes "xhedgegrid" ∷ []

abbrev pub maker_strategies : List Text
maker_strategies =
    codes "bollmaker"
    ∷ codes "fmaker"
    ∷ codes "fixedmaker"
    ∷ codes "scmaker"
    ∷ codes "audacitymaker"
    ∷ codes "linregmaker"
    ∷ codes "rsmaker"
    ∷ []

abbrev pub dca_strategies : List Text
dca_strategies = codes "dca" ∷ codes "dca2" ∷ codes "dca3" ∷ []

abbrev pub trend_strategies : List Text
trend_strategies =
    codes "supertrend"
    ∷ codes "emacross"
    ∷ codes "swing"
    ∷ codes "trendtrader"
    ∷ codes "elliottwave"
    ∷ codes "drift"
    ∷ codes "pivotshort"
    ∷ []

-- `set.has(id)`
unfoldable pub is_in : List Text → Text → Bool
is_in [] id = false
is_in (s ∷ ss) id = same_text s id || is_in ss id

unfoldable pub get_strategy_category : Text → StrategyCategory
get_strategy_category id =
    if is_in grid_strategies id
    then grid
    else if is_in maker_strategies id
    then maker
    else if is_in dca_strategies id
    then dca
    else if is_in trend_strategies id
    then trend
    else other

-- `numVal`, with NaN as 0.
abbrev pub or_zero : Option ℤ → ℤ
or_zero none = pos 0
or_zero (some n) = n

unfoldable pub num_val : (Text → Option ℤ) → Value → ℤ
num_val parse_float (number n) = n
num_val parse_float (text s) = or_zero (parse_float s)
num_val parse_float _ = pos 0

-- A text that is not empty, and an object.
abbrev pub text_of : Value → Option Text
text_of (text (c ∷ s)) = some (c ∷ s)
text_of _ = none

abbrev pub object_of : Value → Option Entries
object_of (object es) = some es
object_of _ = none

abbrev pub inner_of : Entries → Option Text → Option Entries
inner_of state none = none
inner_of state (some strategy) = object_of (value_at strategy state)

unfoldable pub get_inner_state : Entries → Option Entries
get_inner_state state = inner_of state (text_of (value_at (codes "strategy") state))

pub data LineColor : Type 0 where
  bound near far : LineColor

abbrev pub unit : ℕ
unit = 10 ^ 12

-- A line of the grid. A price is the quotient of its number by the number of grids, both in units.
pub record GridLine : Type 0 where
  pub price : ℤ
  pub color : LineColor

abbrev pub distance : ℤ → ℤ → ℕ
distance a b = let d = a -ℤ b in pos_part d + neg_part d

-- `isNearCurrent`, with both sides times twice the number of grids; a price of 0 is none.
unfoldable pub is_near : (upper lower : ℤ) (grids : ℕ) (price : ℤ) → Option ℤ → Bool
is_near upper lower grids price none = false
is_near upper lower grids price (some current) =
    if is_zero current
    then false
    else ltb (2 * distance price (current *ℤ pos grids) + neg_part (upper -ℤ lower) * unit)
        (pos_part (upper -ℤ lower) * unit)

-- `lowerPrice + step * i`, times the number of grids.
abbrev pub price_of : (upper lower : ℤ) (grids i : ℕ) → ℤ
price_of upper lower grids i = lower *ℤ pos grids +ℤ (upper -ℤ lower) *ℤ pos (i * unit)

unfoldable pub grid_line : (upper lower : ℤ) (grids : ℕ) (current : Option ℤ) (i : ℕ) → GridLine
grid_line upper lower grids current i =
    let price = price_of upper lower grids i in
    record {
      price = price;
      color =
          if i == 0 || i * unit == grids
          then bound
          else if is_near upper lower grids price current
          then near
          else far;
    }

-- The loop, for `left` more lines from the one of index `i` on.
unfoldable pub lines_from :
    (upper lower : ℤ) (grids : ℕ) (current : Option ℤ) (i left : ℕ) → List GridLine
lines_from upper lower grids current i zero = []
lines_from upper lower grids current i (suc left) =
    grid_line upper lower grids current i ∷ lines_from upper lower grids current (suc i) left

-- A number that is not 0.
abbrev pub nonzero_of : Value → Option ℤ
nonzero_of (number n) = if is_zero n then none else some n
nonzero_of _ = none

-- The lines of a grid whose bounds and number are there, up to the last whole index in its number.
unfoldable pub lines_of : (upper lower grids current : Option ℤ) → List GridLine
lines_of (some upper) (some lower) (some (pos grids)) current =
    lines_from upper lower grids current 0 (grids / unit + 1)
lines_of _ _ _ current = []

abbrev pub lines_in : Option Entries → Option ℤ → List GridLine
lines_in none current = []
lines_in (some grid2) current =
    lines_of (nonzero_of (value_at (codes "upperPrice") grid2))
      (nonzero_of (value_at (codes "lowerPrice") grid2))
      (nonzero_of (value_at (codes "gridNumber") grid2)) current

-- `extractGridLines`, without the labels of the lines.
unfoldable pub extract_grid_lines : Entries → (current_price : Option ℤ) → List GridLine
extract_grid_lines state current = lines_in (object_of (value_at (codes "grid2") state)) current
