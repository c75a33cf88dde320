-- ===== src/PnlCurve/Tests.antt =====
-- Runs of the curve, and the theorems about it at inputs.
use bbgo_sass.Prelude.{ℕ, ◌*◌, ◌≡◌, refl, List, [], ◌∷◌, some, All, true, sum, take}
use bbgo_sass.Prelude.Int.{pos, negsuc, ◌+ℤ◌, ◌-ℤ◌, ◌*ℤ◌}
use bbgo_sass.Prelude.Sort.{sort}
use bbgo_sass.Numbers.{round_to}
use bbgo_sass.Fifo.{match, push, new_queue}
use bbgo_sass.Fifo.History.{opening, calls, bought}
use bbgo_sass.Trade.{Side, buy, sell}
use bbgo_sass.PnlCurve.{
  PnlTrade, one, start, curve_loop, by_time, compute_pnl_curve, curve_step, put_point, fee_in_quote,
  is_quote, sale_profit,
}
use bbgo_sass.PnlCurve.Ledger.{calls_of, earned, fees, curve_loop-ledger}
use bbgo_sass.PnlCurve.Points.{second, profit_at, IsAscending, has_time, compute_pnl_curve_lem}

abbrev trade : ℕ → Side → ℕ → ℕ → PnlTrade
trade time side price quantity = record {
  time = time;
  side = side;
  price = price * one;
  quantity = quantity * one;
  fee = some (pos one);
  fee_currency = some "USDT";
}

-- Out of order: two units at 10 and one at 20 are bought, and two are sold at 30.
abbrev trades : List PnlTrade
trades = trade 9000 sell 30 2 ∷ trade 1000 buy 10 2 ∷ trade 1500 buy 20 1 ∷ []

-- 60 - 20 less three fees of 1; values in cents.
curve_runs :
    compute_pnl_curve trades
    ≡ record { time = 1; value = negsuc 199 } ∷ record { time = 9; value = pos 3700 } ∷ []
unfolding compute_pnl_curve curve_loop curve_step put_point fee_in_quote is_quote sale_profit sort
    round_to match push new_queue ◌+ℤ◌ ◌-ℤ◌ ◌*ℤ◌
curve_runs = refl

curve_loop-ledger_example :
    ((curve_loop start trades).queue ≡ (calls opening (calls_of trades)).queue)
    × ((curve_loop start trades).cumulative
          +ℤ pos (sum (take (calls opening (calls_of trades)).sold (bought (calls_of trades))))
          +ℤ fees trades
        ≡ pos (earned opening trades))
curve_loop-ledger_example = curve_loop-ledger trades

compute_pnl_curve_lem_example :
    IsAscending 0 (compute_pnl_curve trades)
    × All (λ p. p.value ≡ profit_at (sort by_time trades) p.time) (compute_pnl_curve trades)
    × All (λ t. has_time (second t) (compute_pnl_curve trades) ≡ true) (sort by_time trades)
compute_pnl_curve_lem_example = compute_pnl_curve_lem trades
