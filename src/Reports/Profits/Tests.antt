-- ===== src/Reports/Profits/Tests.antt =====
-- Runs of `aggregateProfits`, and the theorems about it at inputs.
use bbgo_sass.Prelude.{ℕ, Bool, not, ◌*◌, ◌^◌, ◌≡◌, List, [], ◌∷◌, length}
use bbgo_sass.Prelude.Int.{pos, negsuc}
use bbgo_sass.Prelude.Text.{codes, lex_lt}
use bbgo_sass.Prelude.SumBy.{sum_by}
use bbgo_sass.Numbers.{round_to, zero_ℤ}
use bbgo_sass.Reports.Profits.{ProfitRow, hundredth, millionth, aggregate_profits}
use bbgo_sass.Reports.Profits.Account.{
  gain_of, loss_of, is_gain, is_loss, fee_of, aggregate_profits-figures,
}
use bbgo_sass.Reports.Profits.Days.{last_pnl, last_value, aggregate_profits-days}

-- A gain of 5, a loss of 2 on the next day, listed in the wrong order.
abbrev rows : List ProfitRow
rows =
    record {
      net_profit = negsuc 1999999999999;
      fee = pos (10 ^ 12);
      traded_at = codes "2024-01-02T00:00";
      time_ms = 86400000;
    }
    ∷ record {
      net_profit = pos (5 * 10 ^ 12);
      fee = negsuc 999999999999;
      traded_at = codes "2024-01-01T00:00";
      time_ms = 1500;
    }
    ∷ []

abbrev collate : List ℕ → List ℕ → Bool
collate a b = not (lex_lt b a)

aggregate_profits-figures_example :
    let a = aggregate_profits collate rows in
    (a.total_net_profit ≡ round_to millionth (sum_by (λ r. r.net_profit) rows))
    × (a.total_gross_profit ≡ round_to millionth (sum_by gain_of rows))
    × (a.total_gross_loss ≡ round_to millionth (sum_by loss_of rows))
    × (a.total_fees ≡ round_to millionth (sum_by fee_of rows))
    × (pos a.profit_count ≡ sum_by is_gain rows)
    × (pos a.loss_count ≡ sum_by is_loss rows)
    × (a.total_trades ≡ length rows)
aggregate_profits-figures_example = aggregate_profits-figures collate rows

aggregate_profits-days_example :
    let a = aggregate_profits collate rows in
    let total = round_to hundredth (sum_by (λ r. r.net_profit) rows) in
    (sum_by (λ d. pos d.trades) a.daily_breakdown ≡ pos (length rows))
    × (last_pnl zero_ℤ a.daily_breakdown ≡ total)
    × (last_value a.pnl_curve ≡ total)
aggregate_profits-days_example = aggregate_profits-days collate rows
