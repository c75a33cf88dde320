-- ===== src/Backtest/Tests.antt =====
-- Runs of the readers and the search, and the theorems about them at inputs.
use bbgo_sass.Prelude.{
  ℕ, zero, suc, ◌<◌, ◌≡◌, refl, true, false, List, [], ◌∷◌, some, none, ◌-◌, ◌*◌, length, arith,
  Option, map,
}
use bbgo_sass.Prelude.Int.{ℤ, pos}
use bbgo_sass.Prelude.Text.{codes, same_text, split, split_from, includes}
use bbgo_sass.Backtest.{
  snap_to_candle, split_record, parse_orders_tsv, split_quoted, trim, trim_start, trim_end,
  orders_of_lines, orders_of, order_of, columns_of, index_of, index_of_from, or_else, all_columns,
  side_of, marker_of, seconds_of, raw_seconds, unit,
}
use bbgo_sass.Prelude.{if◌then◌else◌}
use bbgo_sass.Prelude.Text.{starts_with}
use bbgo_sass.Fifo.Symbols.{ends_with}
use bbgo_sass.Backtest.Equity.{
  with_point, point_of, point_of_parts, points_of, points_after_header, parse_equity_curve_tsv,
}
use bbgo_sass.Backtest.Panel.{
  has_quote, is_valid_trading_pair, filter_symbols, lists_symbol, first_symbol, chosen_symbol,
  bound_of,
}
use bbgo_sass.Trade.{buy}
use bbgo_sass.Numbers.{floor_div}
use bbgo_sass.Backtest.Snap.{◌!◌, IsAscending, IsNearest, snap_to_candle-IsNearest}
use bbgo_sass.Backtest.Records.{Part, joined, text_of, split_record-joined}

abbrev times : List ℕ
times = 10 ∷ 20 ∷ []

times-IsAscending : IsAscending times
times-IsAscending zero zero h k = omega arith
times-IsAscending zero (suc zero) h k = omega arith
times-IsAscending zero (suc (suc j)) h k = absurd (omega arith)
times-IsAscending (suc i) zero h k = elim h [ ]
times-IsAscending (suc zero) (suc zero) h k = omega arith
times-IsAscending (suc zero) (suc (suc j)) h k = absurd (omega arith)
times-IsAscending (suc (suc i)) (suc j) h k = absurd (omega arith)

times_positive : (i : ℕ) → i < length times → 0 < times ! i
times_positive zero h = omega arith
times_positive (suc zero) h = omega arith
times_positive (suc (suc i)) h = absurd (omega arith)

snap_to_candle-IsNearest_example : IsNearest times 17 (snap_to_candle 17 times)
snap_to_candle-IsNearest_example =
    snap_to_candle-IsNearest 17 times (omega arith) times-IsAscending times_positive

-- `"1,5"` in quotes, then `BUY`.
abbrev first : Part
first = (true, codes "1,5")

abbrev second : Part
second = (false, codes "BUY")

split_record-joined_example :
    split_record (joined first (second ∷ [])) b',' ≡ map text_of (first ∷ second ∷ [])
unfolding includes
split_record-joined_example =
    split_record-joined first (second ∷ []) first_lacks ((second_lacks, second_has_no_comma), tt)
  where
    first_lacks : includes (codes "1,5") b'"' ≡ false
    first_lacks = refl

    second_lacks : includes (codes "BUY") b'"' ≡ false
    second_lacks = refl

    second_has_no_comma : includes (codes "BUY") b',' ≡ false
    second_has_no_comma = refl

abbrev number : List ℕ → Option ℤ
number s = elim s [ [] ↦ none | c ∷ _ ↦ some (pos ((c - b'0') * 1000000000000)) ]

abbrev text : List ℕ
text = codes "Side,Price,Quantity,Time\nbuy,3,2,7\nhold,3,2,7\nsell,4\n"

-- A line that names no side is skipped, and one that is too short.
orders_run :
    parse_orders_tsv number (λ s. none) text
    ≡ record { time = pos 7; side = buy; price = pos (3 * unit); quantity = pos (2 * unit) } ∷ []
unfolding parse_orders_tsv split split_from split_record split_quoted trim trim_start trim_end
    orders_of_lines orders_of order_of columns_of index_of index_of_from or_else all_columns side_of
    marker_of seconds_of raw_seconds includes same_text floor_div
orders_run = refl

number_one : List ℕ → Option ℤ
number_one s = if same_text s (codes "1") then some (pos 1) else none

two_points :
    map
      (λ p. p.time)
      (parse_equity_curve_tsv number_one (codes "time\tvalue\na\t1\n\t1\nb\tx\nc\t1\n"))
    ≡ codes "a" ∷ codes "c" ∷ []
unfolding parse_equity_curve_tsv points_after_header points_of with_point point_of_parts point_of
    split split_from trim trim_start trim_end same_text number_one
two_points = refl

first_pair :
    chosen_symbol (some (codes "USDT" ∷ codes "ETHBTC" ∷ [])) (codes "USDT") ≡ codes "ETHBTC"
unfolding chosen_symbol filter_symbols is_valid_trading_pair has_quote lists_symbol first_symbol
    ends_with starts_with same_text
first_pair = refl

bounds_of_price : bound_of 12 1500000000000 ≡ pos 1800000000000
unfolding bound_of
bounds_of_price = refl
