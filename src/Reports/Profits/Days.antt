-- ===== src/Reports/Profits/Days.antt =====
-- The days and the curve of `aggregateProfits` against its totals.
use bbgo_sass.Prelude.{
  Bool, length-append, ℕ, suc, ◌+◌, ◌/◌, ◌≡◌, refl, true, List, [], ◌∷◌, ◌++◌, arith, Bool-cases,
  inl, inr, length, ap, ◌∙◌, sym,
}
use bbgo_sass.Prelude.Int.{ℤ, pos, ◌+ℤ◌, int_laws, parts_of}
use bbgo_sass.Prelude.Sort.{sort, length-sort}
use bbgo_sass.Prelude.SumBy.{sum_by, sum_by-sort}
use bbgo_sass.Prelude.Text.{same_text}
use bbgo_sass.Prelude.Dict.{sum_entries, sum_entries-update}
use bbgo_sass.Numbers.{zero_ℤ, round_to, floor_div}
use bbgo_sass.Reports.Profits.{
  ProfitRow, abs, Day, PnlCurvePoint, Totals, no_totals, no_day, day_of, add_to_day, add_daily,
  add_gross, add_point, add_row, add_rows, has, set_last, by_traded_at, by_date, DailyPnl,
  daily_breakdown, aggregate_profits, hundredth,
}
use bbgo_sass.Reports.Profits.Account.{add_rows-Adds}

abbrev net_of : Day → ℤ
net_of d = d.net_profit

abbrev trades_of : Day → ℤ
trades_of d = pos d.trades

-- What a row adds to a sum over the days.
add_daily_sum :
    (f : Day → ℤ) (row : ProfitRow) (v : ℤ)
    → f no_day ≡ pos 0
    → ((d : Day) → f (add_to_day row d) ≡ f d +ℤ v)
    → (m : List (List ℕ × Day))
    → sum_entries same_text f (add_daily row m) ≡ sum_entries same_text f m +ℤ v
unfolding add_daily
add_daily_sum f row v none_yet adds m =
    sum_entries-update same_text f (add_to_day row) no_day v none_yet adds (day_of row) m

abbrev pub last_value : List PnlCurvePoint → ℤ
last_value [] = zero_ℤ
last_value (p ∷ []) = p.value
last_value (p ∷ q ∷ ps) = last_value (q ∷ ps)

last_value-set_last :
    (p : PnlCurvePoint) (ps : List PnlCurvePoint) (v : ℤ) → last_value (set_last (p ∷ ps) v) ≡ v
unfolding set_last
last_value-set_last p [] v = refl
last_value-set_last p (q ∷ []) v = refl
last_value-set_last p (q ∷ r ∷ ps) v = last_value-set_last q (r ∷ ps) v

last_value-append :
    (ps : List PnlCurvePoint) (p : PnlCurvePoint) → last_value (ps ++ (p ∷ [])) ≡ p.value
last_value-append [] p = refl
last_value-append (q ∷ []) p = refl
last_value-append (q ∷ r ∷ ps) p = last_value-append (r ∷ ps) p

length-set_last : (ps : List PnlCurvePoint) (v : ℤ) → length (set_last ps v) ≡ length ps
unfolding set_last
length-set_last [] v = refl
length-set_last (p ∷ []) v = refl
length-set_last (p ∷ q ∷ ps) v = ap suc (length-set_last (q ∷ ps) v)

-- What the loop keeps between its totals, its days and its curve.
record Books (t : Totals) : Type 0 where
  net : t.total_net_profit ≡ t.cumulative
  day_net : sum_entries same_text net_of t.daily_map ≡ t.cumulative
  day_trades : sum_entries same_text trades_of t.daily_map ≡ pos t.total_trades
  last : last_value t.pnl_curve ≡ round_to hundredth t.cumulative
  times : length t.seen_curve_times ≡ length t.pnl_curve

empty_Books : Books no_totals
unfolding sum_entries round_to floor_div ◌+ℤ◌
empty_Books = record { net = refl; day_net = refl; day_trades = refl; last = refl; times = refl }

set_last-last :
    (ts : ℕ) (seen : List ℕ) (ps : List PnlCurvePoint) (v : ℤ)
    → has seen ts ≡ true
    → length seen ≡ length ps
    → last_value (set_last ps v) ≡ v
unfolding has
set_last-last ts [] ps v h e = ground arith
set_last-last ts (x ∷ seen) [] v h e = ground arith
set_last-last ts (x ∷ seen) (p ∷ ps) v h e = last_value-set_last p ps v

-- The point of a round makes the curve end at the cumulative profit.
add_point-Books :
    (ts : ℕ) (t : Totals)
    → t.total_net_profit ≡ t.cumulative
    → sum_entries same_text net_of t.daily_map ≡ t.cumulative
    → sum_entries same_text trades_of t.daily_map ≡ pos t.total_trades
    → length t.seen_curve_times ≡ length t.pnl_curve
    → Books (add_point ts t)
unfolding add_point
add_point-Books ts t n d k e = elim (Bool-cases (has t.seen_curve_times ts)) [
  | inl h ↦ rw h (record {
    net = n;
    day_net = d;
    day_trades = k;
    last = set_last-last ts t.seen_curve_times t.pnl_curve _ h e;
    times = e ∙ sym (length-set_last t.pnl_curve _);
  })
  | inr h ↦ rw h (record {
    net = n;
    day_net = d;
    day_trades = k;
    last = last_value-append t.pnl_curve _;
    times = omega (
      arith,
      e,
      length-append t.pnl_curve
          (record { time = ts; value = round_to hundredth t.cumulative } ∷ []),
    );
  })
]

add_gross_books :
    (net : ℤ) (t : Totals)
    → let u = add_gross net t in
      (u.total_net_profit ≡ t.total_net_profit)
      × (u.cumulative ≡ t.cumulative)
      × (u.daily_map ≡ t.daily_map)
      × (u.total_trades ≡ t.total_trades)
      × (u.seen_curve_times ≡ t.seen_curve_times)
      × (u.pnl_curve ≡ t.pnl_curve)
unfolding add_gross
add_gross_books net t = ground arith

add_row-Books : (t : Totals) (row : ProfitRow) → Books t → Books (add_row t row)
unfolding add_row
add_row-Books t row b =
    let counted = record t {
      total_net_profit = t.total_net_profit +ℤ row.net_profit;
      total_fees = t.total_fees + abs row.fee;
      total_trades = t.total_trades + 1;
    } in
    let (net, cum, days, trades, seen, curve) = add_gross_books row.net_profit counted in
    add_point-Books (row.time_ms / 1000) _ (net ∙ ap (λ c. c +ℤ row.net_profit) (b.net ∙ sym cum))
      (ap (λ m. sum_entries same_text net_of (add_daily row m)) days
        ∙ add_daily_sum net_of row row.net_profit refl (λ d. refl) t.daily_map
        ∙ ap (λ c. c +ℤ row.net_profit) (b.day_net ∙ sym cum))
      (ap (λ m. sum_entries same_text trades_of (add_daily row m)) days
        ∙ add_daily_sum trades_of row (pos 1) refl (λ d. omega int_laws) t.daily_map
        ∙ omega (int_laws, parts_of b.day_trades)
        ∙ ap pos (sym trades))
      (ap length seen ∙ b.times ∙ sym (ap length curve))

add_rows-Books : (t : Totals) (rows : List ProfitRow) → Books t → Books (add_rows t rows)
unfolding add_rows
add_rows-Books t [] b = b
add_rows-Books t (row ∷ rows) b = add_rows-Books (add_row t row) rows (add_row-Books t row b)

-- The running profit after the last of some days, or `d` without days.
abbrev pub last_pnl : ℤ → List DailyPnl → ℤ
last_pnl d [] = d
last_pnl d (x ∷ xs) = last_pnl x.pnl xs

sum_entries_as_sum_by :
    (f : Day → ℤ) (m : List (List ℕ × Day)) → sum_entries same_text f m ≡ sum_by (λ e. f e.1) m
unfolding sum_entries sum_by
sum_entries_as_sum_by f [] = refl
sum_entries_as_sum_by f ((k, d) ∷ m) = ap (λ x. f d +ℤ x) (sum_entries_as_sum_by f m)

sum_entries-sort :
    (f : Day → ℤ) (m : List (List ℕ × Day))
    → sum_entries same_text f (sort by_date m) ≡ sum_entries same_text f m
sum_entries-sort f m =
    sum_entries_as_sum_by f (sort by_date m)
    ∙ sum_by-sort (λ e. f e.1) by_date m
    ∙ sym (sum_entries_as_sum_by f m)

daily_breakdown-last :
    (running : ℤ) (m : List (List ℕ × Day))
    → last_pnl (round_to hundredth running) (daily_breakdown running m)
      ≡ round_to hundredth (running +ℤ sum_entries same_text net_of m)
unfolding daily_breakdown sum_entries
daily_breakdown-last running [] = ap (round_to hundredth) (omega int_laws)
daily_breakdown-last running ((k, d) ∷ m) =
    daily_breakdown-last (running +ℤ d.net_profit) m ∙ ap (round_to hundredth) (omega int_laws)

daily_breakdown-trades :
    (running : ℤ) (m : List (List ℕ × Day))
    → sum_by (λ d. pos d.trades) (daily_breakdown running m) ≡ sum_entries same_text trades_of m
unfolding daily_breakdown sum_entries sum_by
daily_breakdown-trades running [] = refl
daily_breakdown-trades running ((k, d) ∷ m) =
    ap (λ x. pos d.trades +ℤ x) (daily_breakdown-trades (running +ℤ d.net_profit) m)

no_profit : round_to hundredth zero_ℤ ≡ zero_ℤ
unfolding round_to floor_div ◌+ℤ◌
no_profit = refl

last_day :
    (rows : List ProfitRow) (t : Totals)
    → t.cumulative ≡ sum_by (λ r. r.net_profit) rows
    → sum_entries same_text net_of t.daily_map ≡ t.cumulative
    → last_pnl zero_ℤ (daily_breakdown zero_ℤ (sort by_date t.daily_map))
      ≡ round_to hundredth (sum_by (λ r. r.net_profit) rows)
last_day rows t c d =
    ap (λ z. last_pnl z (daily_breakdown zero_ℤ (sort by_date t.daily_map))) (sym no_profit)
    ∙ daily_breakdown-last zero_ℤ (sort by_date t.daily_map)
    ∙ ap (round_to hundredth)
        (omega (int_laws, parts_of (sum_entries-sort net_of t.daily_map), parts_of d, parts_of c))

-- The days and the curve of a report account for its rows: the trades of the days add up to the number
-- of the rows, and the last day's running profit and the curve's last value, zero without rows, are both
-- the sum of the net profits of all rows, rounded to cents.
pub aggregate_profits-days :
    (collate : List ℕ → List ℕ → Bool) (rows : List ProfitRow)
    → let a = aggregate_profits collate rows in
      let total = round_to hundredth (sum_by (λ r. r.net_profit) rows) in
      (sum_by (λ d. pos d.trades) a.daily_breakdown ≡ pos (length rows))
      × (last_pnl zero_ℤ a.daily_breakdown ≡ total)
      × (last_value a.pnl_curve ≡ total)
unfolding aggregate_profits
aggregate_profits-days collate rows =
    let sorted = sort (by_traded_at collate) rows in
    let t = add_rows no_totals sorted in
    let b = add_rows-Books no_totals sorted empty_Books in
    let adds = add_rows-Adds no_totals sorted in
    let figure = sum_by-sort (λ r. r.net_profit) (by_traded_at collate) rows in
    let total : t.cumulative ≡ sum_by (λ r. r.net_profit) rows =
      sym b.net ∙ omega (int_laws, parts_of adds.net, parts_of figure) in
    (
      daily_breakdown-trades zero_ℤ (sort by_date t.daily_map)
          ∙ sum_entries-sort trades_of t.daily_map
          ∙ b.day_trades
          ∙ ap pos (omega (arith, adds.trades, length-sort (by_traded_at collate) rows)),
      last_day rows t total b.day_net,
      b.last ∙ ap (round_to hundredth) total,
    )
