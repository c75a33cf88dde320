-- ===== src/Reports/Positions/Tests.antt =====
-- Runs of the position functions, and the theorems about them at inputs.
use bbgo_sass.Prelude.{ltb, if◌then◌else◌, ◌≡◌, refl, List, [], ◌∷◌, some, arith}
use bbgo_sass.Prelude.Int.{◌*ℤ◌, pos, negsuc, pos_part}
use bbgo_sass.Prelude.Text.{codes, same_text}
use bbgo_sass.Prelude.Dict.{find_entry}
use bbgo_sass.Prelude.SumBy.{sum_by}
use bbgo_sass.Numbers.{round_to}
use bbgo_sass.Reports.Positions.{
  PositionRow, group_key, latest_by_group, latest_positions, unrealized_pnl, millionth,
  FuturesPositionRisk,
}
use bbgo_sass.Reports.Positions.Latest.{
  rows_of, first_open, chosen_after, chosen, latest_by_group-chosen,
}
use bbgo_sass.Reports.Positions.Realtime.{gain_of, row_cost, unrealized_pnl-latest}

-- A position closed and reopened at one time, and an older one.
abbrev closed_row : PositionRow
closed_row = record {
  exchange = codes "max";
  symbol = codes "BTCUSDT";
  strategy_instance_id = codes "grid";
  base = pos 0;
  average_cost = 0;
  traded_at = codes "2024-01-02";
}

abbrev open_row : PositionRow
open_row = record closed_row { base = negsuc 1; average_cost = 10 }

abbrev old_row : PositionRow
old_row = record closed_row { base = pos 3; traded_at = codes "2024-01-01" }

abbrev rows : List PositionRow
rows = closed_row ∷ old_row ∷ open_row ∷ []

takes_open : chosen rows ≡ some open_row
unfolding chosen_after first_open same_text
takes_open = refl

latest_by_group-chosen_example :
    find_entry same_text (group_key closed_row) (latest_by_group [] rows)
    ≡ chosen (rows_of (group_key closed_row) rows)
latest_by_group-chosen_example = latest_by_group-chosen (group_key closed_row) rows

abbrev risk : FuturesPositionRisk
risk = record {
  exchange = codes "max";
  symbol = codes "BTCUSDT";
  position_side = codes "BOTH";
  strategy_instance_id = codes "grid";
  position_amount = negsuc 1;
  entry_price = 100;
  mark_price = 90;
  liquidation_price = 200;
}

unrealized_pnl-latest_example :
    let latest = latest_by_group [] rows in
    let gained = sum_by (λ e. gain_of 8 e.1) latest in
    let cost = pos_part (sum_by (λ e. row_cost e.1) latest) in
    let result = unrealized_pnl (some 8) (latest_positions rows) in
    (result.0 ≡ round_to millionth gained)
    × (result.1 ≡ (if ltb 0 cost then round_to cost (gained *ℤ pos 10000) else pos 0))
unrealized_pnl-latest_example = unrealized_pnl-latest 8 rows (omega arith)
