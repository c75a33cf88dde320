-- ===== src/Reports/Trades/Account.antt =====
-- The accounts of `computePnLFromTrades`.
use bbgo_sass.Prelude.{
  Bool, ℕ, ◌+◌, ◌≤◌, ◌≡◌, refl, List, [], ◌∷◌, ◌++◌, arith, length, ap, ◌∙◌, sym, All, All-append,
}
use bbgo_sass.Prelude.Int.{ℤ, pos, ◌+ℤ◌, ◌-ℤ◌, int_laws, parts_of}
use bbgo_sass.Prelude.Sort.{sort}
use bbgo_sass.Prelude.SumBy.{sum_by, sum_by-sort, sum_by-append}
use bbgo_sass.Prelude.Text.{same_text}
use bbgo_sass.Prelude.Dict.{sum_entries, sum_entries-update}
use bbgo_sass.Numbers.{zero_ℤ, round_to, floor_div}
use bbgo_sass.Reports.Trades.{
  BbgoTrade, by_time, add_to_group, by_symbol, DayEntry, Book, new_book, book_trades, SymbolPnl,
  symbol_row, hundredth, millionth, Totals, no_totals, add_symbol, add_symbols, by_date, daily,
  PnlReport, report_of, compute_pnl,
}
use bbgo_sass.Reports.Profits.Days.{last_pnl}
use bbgo_sass.Reports.Trades.Books.{
  realized_of, fees_of, fee_size, Balanced, new_book-Balanced, book_trades-Balanced, one_each,
  book_trades_sums,
}

-- What a symbol has gained, from the figures of its row.
abbrev pub gained : SymbolPnl → ℤ
gained s = (pos s.sell_volume +ℤ s.open_position_cost) -ℤ pos s.buy_volume

-- The figures of a row agree with each other.
pub record IsConsistent (s : SymbolPnl) : Type 0 where
  pub profit : s.realized_pnl ≡ round_to millionth (gained s)
  pub counts : s.total_buys + s.total_sells ≡ s.trade_count
  pub decided : s.winning_trades + s.losing_trades ≤ s.total_sells

symbol_row-IsConsistent :
    (m : List (List ℕ × DayEntry)) (symbol : List ℕ) (b : Book)
    → Balanced m b
    → IsConsistent (symbol_row symbol b)
symbol_row-IsConsistent m symbol b h = record {
  profit = ap (round_to millionth) (omega (int_laws, parts_of h.money));
  counts = h.counts;
  decided = h.decided;
}

abbrev fees_in : List BbgoTrade → ℤ
fees_in = sum_by fee_size

abbrev trades_in : List BbgoTrade → ℤ
trades_in = sum_by one_each

-- What the loop over the symbols keeps, for the groups that it has taken.
record Summed (t : Totals) (fees trades : ℤ) : Type 0 where
  money : t.total_realized ≡ sum_by gained t.symbols
  days : sum_entries same_text realized_of t.daily_map ≡ t.total_realized
  day_fees : sum_entries same_text fees_of t.daily_map ≡ pos t.total_fees
  fee_sum : pos t.total_fees ≡ fees
  trade_sum : pos t.total_trades ≡ trades
  rows : All IsConsistent t.symbols
  decided : t.winning + t.losing ≤ t.total_trades

add_symbol-Summed :
    (t : Totals) (fees trades : ℤ) (g : List ℕ × List BbgoTrade)
    → Summed t fees trades
    → Summed (add_symbol t g) (fees +ℤ fees_in g.1) (trades +ℤ trades_in g.1)
unfolding add_symbol sum_by
add_symbol-Summed t fees trades (symbol, ts) h =
    let b = book_trades (new_book t.daily_map) ts in
    let k =
      book_trades-Balanced t.daily_map (new_book t.daily_map) ts (new_book-Balanced t.daily_map) in
    let (fee_sum, count) = book_trades_sums (new_book t.daily_map) ts in
    let row = symbol_row symbol b in
    record {
      money = omega (
        int_laws,
        parts_of h.money,
        parts_of k.money,
        parts_of (sum_by-append gained t.symbols (row ∷ [])),
      );
      days = omega (int_laws, parts_of h.days, parts_of k.days);
      day_fees = omega (int_laws, parts_of h.day_fees, parts_of k.day_fees);
      fee_sum = omega (int_laws, parts_of h.fee_sum, parts_of fee_sum);
      trade_sum = omega (int_laws, parts_of h.trade_sum, parts_of count);
      rows =
          All-append IsConsistent t.symbols (row ∷ []) h.rows
            (symbol_row-IsConsistent t.daily_map symbol b k, tt);
      decided = omega (arith, h.decided, k.decided, k.counts);
    }

add_symbols-Summed :
    (t : Totals) (fees trades : ℤ) (gs : List (List ℕ × List BbgoTrade))
    → Summed t fees trades
    → Summed
        (add_symbols t gs)
        (fees +ℤ sum_entries same_text fees_in gs)
        (trades +ℤ sum_entries same_text trades_in gs)
unfolding add_symbols sum_entries
add_symbols-Summed t fees trades [] h = record {
  money = h.money;
  days = h.days;
  day_fees = h.day_fees;
  fee_sum = omega (int_laws, parts_of h.fee_sum);
  trade_sum = omega (int_laws, parts_of h.trade_sum);
  rows = h.rows;
  decided = h.decided;
}
add_symbols-Summed t fees trades (g ∷ gs) h =
    let k = add_symbols-Summed (add_symbol t g) _ _ gs (add_symbol-Summed t fees trades g h) in
    record {
      money = k.money;
      days = k.days;
      day_fees = k.day_fees;
      fee_sum = omega (int_laws, parts_of k.fee_sum);
      trade_sum = omega (int_laws, parts_of k.trade_sum);
      rows = k.rows;
      decided = k.decided;
    }

-- The groups hold what the trades hold, in sum.
by_symbol-sum :
    (f : BbgoTrade → ℤ) (m : List (List ℕ × List BbgoTrade)) (ts : List BbgoTrade)
    → sum_entries same_text (sum_by f) (by_symbol m ts)
      ≡ sum_entries same_text (sum_by f) m +ℤ sum_by f ts
unfolding by_symbol add_to_group sum_by
by_symbol-sum f m [] = omega int_laws
by_symbol-sum f m (t ∷ ts) =
    let one =
      sum_entries-update same_text (sum_by f) (λ l. l ++ (t ∷ [])) [] (f t) refl
        (λ l. sum_by-append f l (t ∷ []) ∙ omega int_laws) t.symbol m in
    omega (int_laws, parts_of one, parts_of (by_symbol-sum f (add_to_group t m) ts))

sum_by-one : (ts : List BbgoTrade) → sum_by one_each ts ≡ pos (length ts)
unfolding sum_by
sum_by-one [] = refl
sum_by-one (t ∷ ts) = omega (int_laws, parts_of (sum_by-one ts))

totals-Summed :
    (collate : List ℕ → List ℕ → Bool) (ts : List BbgoTrade)
    → Summed
        (add_symbols no_totals (by_symbol [] (sort (by_time collate) ts)))
        (fees_in ts)
        (pos (length ts))
unfolding sum_entries sum_by
totals-Summed collate ts =
    let sorted = sort (by_time collate) ts in
    let empty : Summed no_totals zero_ℤ zero_ℤ = record {
      money = refl;
      days = refl;
      day_fees = refl;
      fee_sum = refl;
      trade_sum = refl;
      rows = tt;
      decided = omega arith;
    } in
    let h = add_symbols-Summed no_totals zero_ℤ zero_ℤ (by_symbol [] sorted) empty in
    record {
      money = h.money;
      days = h.days;
      day_fees = h.day_fees;
      fee_sum = omega (
        int_laws,
        parts_of h.fee_sum,
        parts_of (by_symbol-sum fee_size [] sorted),
        parts_of (sum_by-sort fee_size (by_time collate) ts),
      );
      trade_sum = omega (
        int_laws,
        parts_of h.trade_sum,
        parts_of (by_symbol-sum one_each [] sorted),
        parts_of (sum_by-sort one_each (by_time collate) ts),
        parts_of (sum_by-one ts),
      );
      rows = h.rows;
      decided = h.decided;
    }

sum_entries_as_sum_by :
    (f : DayEntry → ℤ) (m : List (List ℕ × DayEntry))
    → sum_entries same_text f m ≡ sum_by (λ e. f e.1) m
unfolding sum_entries sum_by
sum_entries_as_sum_by f [] = refl
sum_entries_as_sum_by f ((k, d) ∷ m) = ap (λ x. f d +ℤ x) (sum_entries_as_sum_by f m)

sum_entries-sort :
    (f : DayEntry → ℤ) (m : List (List ℕ × DayEntry))
    → sum_entries same_text f (sort by_date m) ≡ sum_entries same_text f m
sum_entries-sort f m =
    sum_entries_as_sum_by f (sort by_date m)
    ∙ sum_by-sort (λ e. f e.1) by_date m
    ∙ sym (sum_entries_as_sum_by f m)

daily-last :
    (at : List ℕ → ℕ) (running : ℤ) (m : List (List ℕ × DayEntry))
    → last_pnl (round_to hundredth running) (daily at running m).0
      ≡ round_to hundredth
          ((running +ℤ sum_entries same_text realized_of m) -ℤ sum_entries same_text fees_of m)
unfolding daily sum_entries
daily-last at running [] = ap (round_to hundredth) (omega int_laws)
daily-last at running ((k, d) ∷ m) =
    daily-last at (running +ℤ (d.realized -ℤ pos d.fees)) m
    ∙ ap (round_to hundredth) (omega int_laws)

no_profit : round_to hundredth zero_ℤ ≡ zero_ℤ
unfolding round_to floor_div ◌+ℤ◌
no_profit = refl

-- What a report says of its trades.
pub record Accounts (ts : List BbgoTrade) (r : PnlReport) : Type 0 where
  pub rows : All IsConsistent r.symbols
  pub profit : r.total_realized_pnl ≡ round_to millionth (sum_by gained r.symbols)
  pub fees : r.total_fees ≡ round_to millionth (sum_by fee_size ts)
  pub trades : r.total_trades ≡ length ts
  pub decided : r.winning_trades + r.losing_trades ≤ r.total_trades
  pub last_day :
      last_pnl zero_ℤ r.daily_breakdown
      ≡ round_to hundredth (sum_by gained r.symbols -ℤ sum_by fee_size ts)

report_of-Accounts :
    (at : List ℕ → ℕ) (ts : List BbgoTrade) (t : Totals)
    → Summed t (fees_in ts) (pos (length ts))
    → Accounts ts (report_of at t)
unfolding report_of
report_of-Accounts at ts t h = record {
  rows = h.rows;
  profit = ap (round_to millionth) h.money;
  fees = ap (round_to millionth) h.fee_sum;
  trades = omega (int_laws, parts_of h.trade_sum);
  decided = h.decided;
  last_day =
      ap (λ z. last_pnl z (daily at zero_ℤ (sort by_date t.daily_map)).0) (sym no_profit)
      ∙ daily-last at zero_ℤ (sort by_date t.daily_map)
      ∙ ap (round_to hundredth) (
          omega (
            int_laws,
            parts_of (sum_entries-sort realized_of t.daily_map),
            parts_of (sum_entries-sort fees_of t.daily_map),
            parts_of h.days,
            parts_of h.day_fees,
            parts_of h.money,
            parts_of h.fee_sum,
          ));
}

no_rounding : round_to millionth zero_ℤ ≡ zero_ℤ
unfolding round_to floor_div ◌+ℤ◌
no_rounding = refl

empty_Accounts :
    (at : List ℕ → ℕ) (collate : List ℕ → List ℕ → Bool) → Accounts [] (compute_pnl at collate [])
unfolding compute_pnl sum_by ◌-ℤ◌
empty_Accounts at collate = record {
  rows = tt;
  profit = sym no_rounding;
  fees = sym no_rounding;
  trades = refl;
  decided = omega arith;
  last_day = sym no_profit;
}

-- The accounts of a report hold together. In each symbol's row the realized profit is what the sales
-- brought in and the open position still costs, less what was paid for all that was bought, rounded to
-- six places; the buys and the sells make up the trades; and no more sells have won or lost than there
-- are. The total profit is the rounded sum of the same over the symbols; the total fees are the rounded
-- sum of the sizes of the fees; every trade is counted once; and the last day's running profit, zero
-- without trades, is the total profit less all the fees, rounded to cents.
pub compute_pnl-Accounts :
    (at : List ℕ → ℕ) (collate : List ℕ → List ℕ → Bool) (ts : List BbgoTrade)
    → Accounts ts (compute_pnl at collate ts)
unfolding compute_pnl
compute_pnl-Accounts at collate [] = empty_Accounts at collate
compute_pnl-Accounts at collate (t ∷ ts) =
    report_of-Accounts at (t ∷ ts) _ (totals-Summed collate (t ∷ ts))
