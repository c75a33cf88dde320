-- ===== src/Reports/Profits.antt =====
-- `aggregateProfits` of web/src/lib/bbgo/supabase-queries.ts. Amounts are in units of 1e-12. A row has the
-- values of `parseFloat`, and its time as the text and as the milliseconds of
-- `Date.getTime`.
pub mod Account
pub mod Days
mod Tests
use bbgo_sass.Prelude.{
  ℕ, zero, suc, ◌+◌, ◌*◌, ◌/◌, ◌^◌, Bool, true, false, not, ◌||◌, List, [], ◌∷◌, ◌++◌, Option, none,
  some, ltb, ◌==◌, if◌then◌else◌, take,
}
use bbgo_sass.Prelude.Int.{ℤ, pos, negsuc, pos_part, neg_part, ◌+ℤ◌}
use bbgo_sass.Prelude.Sort.{sort}
use bbgo_sass.Prelude.Text.{lex_lt, same_text}
use bbgo_sass.Prelude.Dict.{find_entry, set_entry, value_or}
use bbgo_sass.Numbers.{zero_ℤ, round_to, is_positive, is_negative, is_zero}

pub record ProfitRow : Type 0 where
  pub net_profit : ℤ
  pub fee : ℤ
  pub traded_at : List ℕ
  pub time_ms : ℕ

-- `Math.abs`
abbrev pub abs : ℤ → ℕ
abs x = pos_part x + neg_part x

pub record Day : Type 0 where
  pub net_profit : ℤ
  pub fees : ℕ
  pub trades : ℕ

pub record PnlCurvePoint : Type 0 where
  pub time : ℕ
  pub value : ℤ

-- The variables of the first loop.
pub record Totals : Type 0 where
  pub total_net_profit : ℤ
  pub total_gross_profit : ℤ
  pub total_gross_loss : ℤ
  pub total_fees : ℕ
  pub profit_count : ℕ
  pub loss_count : ℕ
  pub total_trades : ℕ
  pub daily_map : List (List ℕ × Day)
  pub cumulative : ℤ
  pub pnl_curve : List PnlCurvePoint
  pub seen_curve_times : List ℕ

abbrev pub no_totals : Totals
no_totals = record {
  total_net_profit = zero_ℤ;
  total_gross_profit = zero_ℤ;
  total_gross_loss = zero_ℤ;
  total_fees = 0;
  profit_count = 0;
  loss_count = 0;
  total_trades = 0;
  daily_map = [];
  cumulative = zero_ℤ;
  pnl_curve = [];
  seen_curve_times = [];
}

-- 1e-2 and 1e-6 in units of 1e-12.
abbrev pub hundredth : ℕ
hundredth = 10 ^ 10

abbrev pub millionth : ℕ
millionth = 10 ^ 6

unfoldable pub has : List ℕ → ℕ → Bool
has [] t = false
has (x ∷ xs) t = x == t || has xs t

-- `pnlCurve[pnlCurve.length - 1].value = value`
unfoldable pub set_last : List PnlCurvePoint → ℤ → List PnlCurvePoint
set_last [] value = []
set_last (p ∷ []) value = record p { value = value } ∷ []
set_last (p ∷ q ∷ ps) value = p ∷ set_last (q ∷ ps) value

abbrev pub no_day : Day
no_day = record { net_profit = zero_ℤ; fees = 0; trades = 0 }

-- `row.traded_at.slice(0, 10)`
abbrev pub day_of : ProfitRow → List ℕ
day_of row = take 10 row.traded_at

abbrev pub add_to_day : ProfitRow → Day → Day
add_to_day row d = record {
  net_profit = d.net_profit +ℤ row.net_profit;
  fees = d.fees + abs row.fee;
  trades = d.trades + 1;
}

unfoldable pub add_daily : ProfitRow → List (List ℕ × Day) → List (List ℕ × Day)
add_daily row m =
    let entry = value_or same_text (λ d. d) no_day (find_entry same_text (day_of row) m) in
    set_entry same_text (day_of row) (add_to_day row entry) m

-- The branches on the sign of the net profit.
unfoldable pub add_gross : ℤ → Totals → Totals
add_gross net t =
    if is_positive net
    then record t {
      profit_count = t.profit_count + 1;
      total_gross_profit = t.total_gross_profit +ℤ net;
    }
    else if is_negative net
    then record t { loss_count = t.loss_count + 1; total_gross_loss = t.total_gross_loss +ℤ net }
    else t

-- The end of a round: the point of the row's second.
unfoldable pub add_point : ℕ → Totals → Totals
add_point ts t =
    let value = round_to hundredth t.cumulative in
    if has t.seen_curve_times ts
    then record t { pnl_curve = set_last t.pnl_curve value }
    else record t {
      seen_curve_times = ts ∷ t.seen_curve_times;
      pnl_curve = t.pnl_curve ++ (record { time = ts; value = value } ∷ []);
    }

unfoldable pub add_row : Totals → ProfitRow → Totals
add_row t row =
    let counted = record t {
      total_net_profit = t.total_net_profit +ℤ row.net_profit;
      total_fees = t.total_fees + abs row.fee;
      total_trades = t.total_trades + 1;
    } in
    let split = add_gross row.net_profit counted in
    let booked = record split {
      daily_map = add_daily row split.daily_map;
      cumulative = split.cumulative +ℤ row.net_profit;
    } in
    add_point (row.time_ms / 1000) booked

unfoldable pub add_rows : Totals → List ProfitRow → Totals
add_rows t [] = t
add_rows t (row ∷ rows) = add_rows (add_row t row) rows

-- `localeCompare` is the runtime's: `collate a b` says that it does not put `b` before `a`.
abbrev pub by_traded_at : (collate : List ℕ → List ℕ → Bool) → ProfitRow → ProfitRow → Bool
by_traded_at collate a b = collate a.traded_at b.traded_at

-- `localeCompare` of dates, whose digits and dashes it orders by their code units.
abbrev pub by_date : List ℕ × Day → List ℕ × Day → Bool
by_date a b = not (lex_lt b.0 a.0)

pub record DailyPnl : Type 0 where
  pub date : List ℕ
  pub pnl : ℤ
  pub realized_pnl : ℤ
  pub fees : ℤ
  pub trades : ℕ

-- The second loop, from a running profit on.
unfoldable pub daily_breakdown : ℤ → List (List ℕ × Day) → List DailyPnl
daily_breakdown running [] = []
daily_breakdown running ((date, entry) ∷ rest) =
    let sum = running +ℤ entry.net_profit in
    record {
      date = date;
      pnl = round_to hundredth sum;
      realized_pnl = round_to hundredth entry.net_profit;
      fees = round_to hundredth (pos entry.fees);
      trades = entry.trades;
    }
    ∷ daily_breakdown sum rest

-- A number, or `Infinity`.
pub data Factor : Type 0 where
  finite : ℤ → Factor
  infinity : Factor

-- Amounts in units of 1e-6, the win rate in tenths of a percent, the profit factor in hundredths.
pub record ProfitAggregation : Type 0 where
  pub total_net_profit : ℤ
  pub total_gross_profit : ℤ
  pub total_gross_loss : ℤ
  pub total_fees : ℤ
  pub profit_count : ℕ
  pub loss_count : ℕ
  pub total_trades : ℕ
  pub win_rate : ℤ
  pub profit_factor : Factor
  pub pnl_curve : List PnlCurvePoint
  pub daily_breakdown : List DailyPnl

unfoldable pub win_rate : ℕ → ℕ → ℤ
win_rate wins trades = if ltb 0 trades then round_to trades (pos (wins * 1000)) else zero_ℤ

unfoldable pub profit_factor : ℤ → ℤ → Factor
profit_factor gross_profit gross_loss =
    if not (is_zero gross_loss)
    then finite (round_to (abs gross_loss) (pos (pos_part gross_profit * 100)))
    else if is_positive gross_profit
    then infinity
    else finite zero_ℤ

unfoldable pub aggregate_profits :
    (collate : List ℕ → List ℕ → Bool) → List ProfitRow → ProfitAggregation
aggregate_profits collate rows =
    let t = add_rows no_totals (sort (by_traded_at collate) rows) in
    record {
      total_net_profit = round_to millionth t.total_net_profit;
      total_gross_profit = round_to millionth t.total_gross_profit;
      total_gross_loss = round_to millionth t.total_gross_loss;
      total_fees = round_to millionth (pos t.total_fees);
      profit_count = t.profit_count;
      loss_count = t.loss_count;
      total_trades = t.total_trades;
      win_rate = win_rate t.profit_count t.total_trades;
      profit_factor = profit_factor t.total_gross_profit t.total_gross_loss;
      pnl_curve = t.pnl_curve;
      daily_breakdown = daily_breakdown zero_ℤ (sort by_date t.daily_map);
    }
