-- ===== src/Reports/Trades.antt =====
-- `computePnLFromTrades` of web/src/lib/bbgo/supabase-queries.ts. Prices and quantities are in units of
-- 1e-12, amounts of money in units of 1e-24. A trade has the values of `parseFloat`. The first second of
-- a date is what `Date` says, an argument.
pub mod Books
pub mod Account
pub mod Groups
mod Tests
use bbgo_sass.Prelude.{
  ℕ, zero, suc, ◌+◌, ◌-◌, ◌*◌, ◌^◌, Bool, true, false, not, List, [], ◌∷◌, ◌++◌, Option, none, some,
  ltb, if◌then◌else◌, take,
}
use bbgo_sass.Prelude.Int.{ℤ, pos, ◌+ℤ◌, ◌-ℤ◌}
use bbgo_sass.Prelude.Sort.{sort}
use bbgo_sass.Prelude.Text.{lex_lt, same_text}
use bbgo_sass.Prelude.Dict.{find_entry, set_entry, value_or}
use bbgo_sass.Numbers.{zero_ℤ, round_to, is_positive, is_negative}
use bbgo_sass.Trade.{Side, buy, sell}
use bbgo_sass.Fifo.{FifoQueue, new_queue, push, match}
use bbgo_sass.Reports.Profits.{abs, Factor, finite, infinity, PnlCurvePoint, DailyPnl, win_rate}

-- Of a trade, what the report reads.
pub record BbgoTrade : Type 0 where
  pub symbol : List ℕ
  pub side : Side
  pub price : ℕ
  pub quantity : ℕ
  pub fee : ℤ
  pub traded_at : Option (List ℕ)

-- `tradedAt ?? ''`
abbrev pub time_of : BbgoTrade → List ℕ
time_of t = value_or same_text (λ s. s) [] t.traded_at

-- `localeCompare` is the runtime's: `collate a b` says that it does not put `b` before `a`.
abbrev pub by_time : (collate : List ℕ → List ℕ → Bool) → BbgoTrade → BbgoTrade → Bool
by_time collate a b = collate (time_of a) (time_of b)

-- The loop that fills `bySymbol`.
unfoldable pub add_to_group :
    BbgoTrade → List (List ℕ × List BbgoTrade) → List (List ℕ × List BbgoTrade)
add_to_group t m =
    let list = value_or same_text (λ l. l) [] (find_entry same_text t.symbol m) in
    set_entry same_text t.symbol (list ++ (t ∷ [])) m

unfoldable pub by_symbol :
    List (List ℕ × List BbgoTrade) → List BbgoTrade → List (List ℕ × List BbgoTrade)
by_symbol m [] = m
by_symbol m (t ∷ ts) = by_symbol (add_to_group t m) ts

pub record DayEntry : Type 0 where
  pub realized : ℤ
  pub fees : ℕ

-- The variables of one symbol, and the map of the days.
pub record Book : Type 0 where
  pub queue : FifoQueue
  pub sym_realized : ℤ
  pub sym_fees : ℕ
  pub buys : ℕ
  pub sells : ℕ
  pub buy_vol : ℕ
  pub sell_vol : ℕ
  pub sym_win : ℕ
  pub sym_lose : ℕ
  pub sym_count : ℕ
  pub open_qty : ℕ
  pub open_cost : ℤ
  pub daily_map : List (List ℕ × DayEntry)

abbrev pub new_book : List (List ℕ × DayEntry) → Book
new_book m = record {
  queue = new_queue;
  sym_realized = zero_ℤ;
  sym_fees = 0;
  buys = 0;
  sells = 0;
  buy_vol = 0;
  sell_vol = 0;
  sym_win = 0;
  sym_lose = 0;
  sym_count = 0;
  open_qty = 0;
  open_cost = zero_ℤ;
  daily_map = m;
}

-- `trade.tradedAt?.slice(0, 10) ?? ''`
abbrev pub day_of : BbgoTrade → List ℕ
day_of t = value_or same_text (take 10) [] t.traded_at

abbrev pub no_entry : DayEntry
no_entry = record { realized = zero_ℤ; fees = 0 }

-- `dayEntry` and `dailyMap.set`, for a trade that has realized `realized`.
unfoldable pub book_day : BbgoTrade → ℤ → List (List ℕ × DayEntry) → List (List ℕ × DayEntry)
book_day t realized m =
    let entry = value_or same_text (λ d. d) no_entry (find_entry same_text (day_of t) m) in
    set_entry same_text (day_of t)
      (record { realized = entry.realized +ℤ realized; fees = entry.fees + abs t.fee }) m

-- `matchedCost`: what is sold beyond the queue costs what it brings in.
unfoldable pub matched_cost : ℕ → (cost_basis remaining : ℕ) → ℕ
matched_cost price cost_basis remaining =
    if ltb 0 remaining then cost_basis + remaining * price else cost_basis

unfoldable pub book_buy : BbgoTrade → Book → Book
book_buy t b = record b {
  queue = push t.price t.quantity b.queue;
  buys = b.buys + 1;
  buy_vol = b.buy_vol + t.quantity * t.price;
  open_qty = b.open_qty + t.quantity;
  open_cost = b.open_cost +ℤ pos (t.quantity * t.price);
  daily_map = book_day t zero_ℤ b.daily_map;
}

unfoldable pub book_sell : BbgoTrade → Book → Book
book_sell t b =
    let (q, m) = match t.quantity b.queue in
    let cost = matched_cost t.price m.cost_basis m.remaining in
    let realized = pos (t.price * t.quantity) -ℤ pos cost in
    record b {
      queue = q;
      sym_realized = b.sym_realized +ℤ realized;
      sells = b.sells + 1;
      sell_vol = b.sell_vol + t.quantity * t.price;
      sym_win = if is_positive realized then b.sym_win + 1 else b.sym_win;
      sym_lose = if is_negative realized then b.sym_lose + 1 else b.sym_lose;
      open_qty = if ltb b.open_qty t.quantity then 0 else b.open_qty - t.quantity;
      open_cost = b.open_cost -ℤ pos cost;
      daily_map = book_day t realized b.daily_map;
    }

unfoldable pub book_side : Side → BbgoTrade → Book → Book
book_side buy t b = book_buy t b
book_side sell t b = book_sell t b

unfoldable pub book_trade : Book → BbgoTrade → Book
book_trade b t =
    book_side t.side t (record b { sym_fees = b.sym_fees + abs t.fee; sym_count = b.sym_count + 1 })

unfoldable pub book_trades : Book → List BbgoTrade → Book
book_trades b [] = b
book_trades b (t ∷ ts) = book_trades (book_trade b t) ts

-- A quotient, not computed.
pub record Quotient : Type 0 where
  pub dividend : ℕ
  pub divisor : ℕ

abbrev pub average : ℕ → ℕ → Quotient
average vol trades =
    if ltb 0 trades
    then record { dividend = vol; divisor = trades }
    else record { dividend = 0; divisor = 1 }

pub record SymbolPnl : Type 0 where
  pub symbol : List ℕ
  pub realized_pnl : ℤ
  pub total_buys : ℕ
  pub total_sells : ℕ
  pub buy_volume : ℕ
  pub sell_volume : ℕ
  pub total_fees : ℤ
  pub trade_count : ℕ
  pub winning_trades : ℕ
  pub losing_trades : ℕ
  pub avg_buy_price : Quotient
  pub avg_sell_price : Quotient
  pub open_position : ℕ
  pub open_position_cost : ℤ

-- 1e-2 and 1e-6 in units of 1e-24.
abbrev pub hundredth : ℕ
hundredth = 10 ^ 22

abbrev pub millionth : ℕ
millionth = 10 ^ 18

abbrev pub symbol_row : List ℕ → Book → SymbolPnl
symbol_row symbol b = record {
  symbol = symbol;
  realized_pnl = round_to millionth b.sym_realized;
  total_buys = b.buys;
  total_sells = b.sells;
  buy_volume = b.buy_vol;
  sell_volume = b.sell_vol;
  total_fees = round_to millionth (pos b.sym_fees);
  trade_count = b.sym_count;
  winning_trades = b.sym_win;
  losing_trades = b.sym_lose;
  avg_buy_price = average b.buy_vol b.buys;
  avg_sell_price = average b.sell_vol b.sells;
  open_position = b.open_qty;
  open_position_cost = b.open_cost;
}

-- The variables of the loop over the symbols.
pub record Totals : Type 0 where
  pub total_realized : ℤ
  pub total_fees : ℕ
  pub total_trades : ℕ
  pub winning : ℕ
  pub losing : ℕ
  pub symbols : List SymbolPnl
  pub daily_map : List (List ℕ × DayEntry)

abbrev pub no_totals : Totals
no_totals = record {
  total_realized = zero_ℤ;
  total_fees = 0;
  total_trades = 0;
  winning = 0;
  losing = 0;
  symbols = [];
  daily_map = [];
}

unfoldable pub add_symbol : Totals → List ℕ × List BbgoTrade → Totals
add_symbol t (symbol, trades) =
    let b = book_trades (new_book t.daily_map) trades in
    record {
      total_realized = t.total_realized +ℤ b.sym_realized;
      total_fees = t.total_fees + b.sym_fees;
      total_trades = t.total_trades + b.sym_count;
      winning = t.winning + b.sym_win;
      losing = t.losing + b.sym_lose;
      symbols = t.symbols ++ (symbol_row symbol b ∷ []);
      daily_map = b.daily_map;
    }

unfoldable pub add_symbols : Totals → List (List ℕ × List BbgoTrade) → Totals
add_symbols t [] = t
add_symbols t (g ∷ gs) = add_symbols (add_symbol t g) gs

-- The report, of which the fields that are always 0 are left out.
pub record PnlReport : Type 0 where
  pub total_realized_pnl : ℤ
  pub total_fees : ℤ
  pub total_trades : ℕ
  pub winning_trades : ℕ
  pub losing_trades : ℕ
  pub win_rate : ℤ
  pub profit_factor : Factor
  pub symbols : List SymbolPnl
  pub daily_breakdown : List DailyPnl
  pub pnl_curve : List PnlCurvePoint

-- `localeCompare` of dates, whose digits and dashes it orders by their code units.
abbrev pub by_date : List ℕ × DayEntry → List ℕ × DayEntry → Bool
by_date a b = not (lex_lt b.0 a.0)

unfoldable pub factor_of : ℤ → Factor
factor_of realized =
    if is_negative realized
    then finite zero_ℤ
    else if is_positive realized
    then infinity
    else finite zero_ℤ

module _ (second_of_date : List ℕ → ℕ) where
  -- The last loop, from a running profit on: the days, and the curve.
  unfoldable pub daily : ℤ → List (List ℕ × DayEntry) → List DailyPnl × List PnlCurvePoint
  daily running [] = ([], [])
  daily running ((date, entry) ∷ rest) =
      let sum = running +ℤ (entry.realized -ℤ pos entry.fees) in
      let (days, curve) = daily sum rest in
      (
        record {
          date = date;
          pnl = round_to hundredth sum;
          realized_pnl = round_to hundredth entry.realized;
          fees = round_to hundredth (pos entry.fees);
          trades = 0;
        }
            ∷ days,
        record { time = second_of_date date; value = round_to hundredth sum } ∷ curve,
      )

  unfoldable pub report_of : Totals → PnlReport
  report_of t =
      let (days, curve) = daily zero_ℤ (sort by_date t.daily_map) in
      record {
        total_realized_pnl = round_to millionth t.total_realized;
        total_fees = round_to millionth (pos t.total_fees);
        total_trades = t.total_trades;
        winning_trades = t.winning;
        losing_trades = t.losing;
        win_rate = win_rate t.winning t.total_trades;
        profit_factor = factor_of t.total_realized;
        symbols = t.symbols;
        daily_breakdown = days;
        pnl_curve = curve;
      }

  unfoldable pub compute_pnl : (collate : List ℕ → List ℕ → Bool) → List BbgoTrade → PnlReport
  compute_pnl collate [] = record {
    total_realized_pnl = zero_ℤ;
    total_fees = zero_ℤ;
    total_trades = 0;
    winning_trades = 0;
    losing_trades = 0;
    win_rate = zero_ℤ;
    profit_factor = finite zero_ℤ;
    symbols = [];
    daily_breakdown = [];
    pnl_curve = [];
  }
  compute_pnl collate (t ∷ ts) =
      report_of (add_symbols no_totals (by_symbol [] (sort (by_time collate) (t ∷ ts))))
