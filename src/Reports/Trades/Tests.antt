-- ===== src/Reports/Trades/Tests.antt =====
-- Runs of `computePnLFromTrades`, and the theorems about it at inputs.
use bbgo_sass.Prelude.{Bool, not, ℕ, ◌≡◌, refl, ◌*◌, ◌^◌, List, [], ◌∷◌, some, All, map}
use bbgo_sass.Prelude.Int.{ℤ, pos, negsuc, ◌+ℤ◌, ◌-ℤ◌}
use bbgo_sass.Prelude.Text.{codes, lex_lt, same_text}
use bbgo_sass.Prelude.Sort.{sort, insert_sorted}
use bbgo_sass.Prelude.Dict.{find_entry, set_entry}
use bbgo_sass.Trade.{buy, sell}
use bbgo_sass.Fifo.{new_queue, push, match, match_loop}
use bbgo_sass.Reports.Trades.{
  BbgoTrade, add_to_group, by_symbol, book_day, matched_cost, book_buy, book_sell, book_side,
  book_trade, book_trades, SymbolPnl, add_symbol, add_symbols, report_of, compute_pnl,
}
use bbgo_sass.Reports.Trades.Account.{Accounts, compute_pnl-Accounts}
use bbgo_sass.Reports.Trades.Groups.{IsRowOf, compute_pnl-rows}

abbrev unit : ℕ
unit = 10 ^ 12

-- Two units bought at 10, then three sold at 12, one more than there are; and a buy of another symbol.
abbrev trades : List BbgoTrade
trades =
    record {
      symbol = codes "BTCUSDT";
      side = sell;
      price = 12 * unit;
      quantity = 3 * unit;
      fee = pos 1;
      traded_at = some (codes "2024-01-02T00:00");
    }
    ∷ record {
      symbol = codes "ETHUSDT";
      side = buy;
      price = 5 * unit;
      quantity = unit;
      fee = negsuc 0;
      traded_at = some (codes "2024-01-01T12:00");
    }
    ∷ record {
      symbol = codes "BTCUSDT";
      side = buy;
      price = 10 * unit;
      quantity = 2 * unit;
      fee = pos 2;
      traded_at = some (codes "2024-01-01T00:00");
    }
    ∷ []

abbrev midnight : List ℕ → ℕ
midnight date = 0

abbrev collate : List ℕ → List ℕ → Bool
collate a b = not (lex_lt b a)

compute_pnl-Accounts_example : Accounts trades (compute_pnl midnight collate trades)
compute_pnl-Accounts_example = compute_pnl-Accounts midnight collate trades

compute_pnl-rows_example :
    All (IsRowOf collate trades) (compute_pnl midnight collate trades).symbols
compute_pnl-rows_example = compute_pnl-rows midnight collate trades

-- The average price of the two units bought at 10 is 20.
bought :
    map {A = SymbolPnl} (λ s. s.avg_buy_price) (compute_pnl midnight collate trades).symbols
    ≡ record { dividend = 20 * unit * unit; divisor = 1 }
      ∷ record { dividend = 5 * unit * unit; divisor = 1 }
      ∷ []
unfolding compute_pnl report_of add_symbols add_symbol by_symbol add_to_group sort insert_sorted
    lex_lt same_text find_entry set_entry book_trades book_trade book_side book_buy book_sell
    book_day matched_cost push match match_loop ◌-ℤ◌ ◌+ℤ◌ new_queue
bought = refl

-- Nothing is open after the sale of three units, at a cost of -12.
short :
    map {A = SymbolPnl} {B = ℕ × ℤ}
      (λ s. (s.open_position, s.open_position_cost))
      (compute_pnl midnight collate trades).symbols
    ≡ (0, negsuc 11999999999999999999999999) ∷ (unit, pos (5 * unit * unit)) ∷ []
unfolding compute_pnl report_of add_symbols add_symbol by_symbol add_to_group sort insert_sorted
    lex_lt same_text find_entry set_entry book_trades book_trade book_side book_buy book_sell
    book_day matched_cost push match match_loop ◌-ℤ◌ ◌+ℤ◌ new_queue
short = refl
