-- ===== src/Reports/Profits/Account.antt =====
-- The figures of `aggregateProfits` against the rows.
use bbgo_sass.Prelude.{
  Bool, ℕ, ◌+◌, ◌/◌, ◌≡◌, List, [], ◌∷◌, arith, if◌then◌else◌, Bool-cases, inl, inr, length, ap,
  ◌∙◌,
}
use bbgo_sass.Prelude.Int.{ℤ, pos, ◌+ℤ◌, int_laws, parts_of, +ℤ_zero}
use bbgo_sass.Prelude.Sort.{sort, length-sort}
use bbgo_sass.Prelude.SumBy.{sum_by, sum_by-sort}
use bbgo_sass.Numbers.{zero_ℤ, round_to, is_positive, is_negative}
use bbgo_sass.Reports.Profits.{
  ProfitRow, abs, Day, Totals, no_totals, add_gross, add_point, add_row, add_rows, has,
  by_traded_at, aggregate_profits, millionth,
}

-- What a row adds to each figure.
abbrev pub gain_of : ProfitRow → ℤ
gain_of r = if is_positive r.net_profit then r.net_profit else zero_ℤ

abbrev pub loss_of : ProfitRow → ℤ
loss_of r = if is_negative r.net_profit then r.net_profit else zero_ℤ

abbrev pub is_gain : ProfitRow → ℤ
is_gain r = if is_positive r.net_profit then pos 1 else zero_ℤ

abbrev pub is_loss : ProfitRow → ℤ
is_loss r = if is_negative r.net_profit then pos 1 else zero_ℤ

abbrev pub fee_of : ProfitRow → ℤ
fee_of r = pos (abs r.fee)

-- The figures after more rows, from those before.
pub record Adds (t u : Totals) (rows : List ProfitRow) : Type 0 where
  pub net : u.total_net_profit ≡ t.total_net_profit +ℤ sum_by (λ r. r.net_profit) rows
  pub gains : u.total_gross_profit ≡ t.total_gross_profit +ℤ sum_by gain_of rows
  pub losses : u.total_gross_loss ≡ t.total_gross_loss +ℤ sum_by loss_of rows
  pub fees : pos u.total_fees ≡ pos t.total_fees +ℤ sum_by fee_of rows
  pub wins : pos u.profit_count ≡ pos t.profit_count +ℤ sum_by is_gain rows
  pub defeats : pos u.loss_count ≡ pos t.loss_count +ℤ sum_by is_loss rows
  pub trades : u.total_trades ≡ t.total_trades + length rows

add_point-Adds :
    (ts : ℕ) (t u : Totals) (rows : List ProfitRow) → Adds t u rows → Adds t (add_point ts u) rows
unfolding add_point
add_point-Adds ts t u rows a = elim (Bool-cases (has u.seen_curve_times ts)) [
  | inl e ↦ rw e (record {
    net = a.net;
    gains = a.gains;
    losses = a.losses;
    fees = a.fees;
    wins = a.wins;
    defeats = a.defeats;
    trades = a.trades;
  })
  | inr e ↦ rw e (record {
    net = a.net;
    gains = a.gains;
    losses = a.losses;
    fees = a.fees;
    wins = a.wins;
    defeats = a.defeats;
    trades = a.trades;
  })
]

pos_suc : (n : ℕ) → pos (n + 1) ≡ pos n +ℤ pos 1
pos_suc n = omega int_laws

add_gross_figures :
    (row : ProfitRow) (t : Totals)
    → let u = add_gross row.net_profit t in
      (u.total_gross_profit ≡ t.total_gross_profit +ℤ gain_of row)
      × (u.total_gross_loss ≡ t.total_gross_loss +ℤ loss_of row)
      × (pos u.profit_count ≡ pos t.profit_count +ℤ is_gain row)
      × (pos u.loss_count ≡ pos t.loss_count +ℤ is_loss row)
unfolding add_gross
add_gross_figures row t = ground (
  arith,
  +ℤ_zero t.total_gross_profit,
  +ℤ_zero t.total_gross_loss,
  +ℤ_zero (pos t.profit_count),
  +ℤ_zero (pos t.loss_count),
  pos_suc t.profit_count,
  pos_suc t.loss_count,
)

add_gross_rest :
    (net : ℤ) (t : Totals)
    → let u = add_gross net t in
      (u.total_net_profit ≡ t.total_net_profit)
      × (u.total_fees ≡ t.total_fees)
      × (u.total_trades ≡ t.total_trades)
unfolding add_gross
add_gross_rest net t = ground arith

add_gross-Adds :
    (t : Totals) (row : ProfitRow) (m : List (List ℕ × Day)) (c : ℤ)
    → let counted = record t {
      total_net_profit = t.total_net_profit +ℤ row.net_profit;
      total_fees = t.total_fees + abs row.fee;
      total_trades = t.total_trades + 1;
    } in
      Adds t
        (record (add_gross row.net_profit counted) { daily_map = m; cumulative = c })
        (row ∷ [])
unfolding sum_by
add_gross-Adds t row m c =
    let counted = record t {
      total_net_profit = t.total_net_profit +ℤ row.net_profit;
      total_fees = t.total_fees + abs row.fee;
      total_trades = t.total_trades + 1;
    } in
    let (gains, losses, wins, defeats) = add_gross_figures row counted in
    let (net, fees, trades) = add_gross_rest row.net_profit counted in
    record {
      net = net ∙ omega int_laws;
      gains = gains ∙ omega int_laws;
      losses = losses ∙ omega int_laws;
      fees = ap pos fees ∙ omega int_laws;
      wins = wins ∙ omega int_laws;
      defeats = defeats ∙ omega int_laws;
      trades = trades;
    }

add_row-Adds : (t : Totals) (row : ProfitRow) → Adds t (add_row t row) (row ∷ [])
unfolding add_row
add_row-Adds t row = add_point-Adds (row.time_ms / 1000) t _ (row ∷ []) (add_gross-Adds t row _ _)

pub add_rows-Adds : (t : Totals) (rows : List ProfitRow) → Adds t (add_rows t rows) rows
unfolding add_rows sum_by
add_rows-Adds t [] = record {
  net = omega int_laws;
  gains = omega int_laws;
  losses = omega int_laws;
  fees = omega int_laws;
  wins = omega int_laws;
  defeats = omega int_laws;
  trades = omega arith;
}
add_rows-Adds t (row ∷ rows) =
    let one = add_row-Adds t row in
    let rest = add_rows-Adds (add_row t row) rows in
    record {
      net = omega (int_laws, parts_of one.net, parts_of rest.net);
      gains = omega (int_laws, parts_of one.gains, parts_of rest.gains);
      losses = omega (int_laws, parts_of one.losses, parts_of rest.losses);
      fees = omega (int_laws, parts_of one.fees, parts_of rest.fees);
      wins = omega (int_laws, parts_of one.wins, parts_of rest.wins);
      defeats = omega (int_laws, parts_of one.defeats, parts_of rest.defeats);
      trades = omega (arith, one.trades, rest.trades);
    }

-- Every figure of the report comes from the rows alone, whatever their order: the sum of the net
-- profits, of the positive and of the negative ones, and of the sizes of the fees, each rounded to six
-- places, and the numbers of the rows with a positive and with a negative net profit, and of all rows.
pub aggregate_profits-figures :
    (collate : List ℕ → List ℕ → Bool) (rows : List ProfitRow)
    → let a = aggregate_profits collate rows in
      (a.total_net_profit ≡ round_to millionth (sum_by (λ r. r.net_profit) rows))
      × (a.total_gross_profit ≡ round_to millionth (sum_by gain_of rows))
      × (a.total_gross_loss ≡ round_to millionth (sum_by loss_of rows))
      × (a.total_fees ≡ round_to millionth (sum_by fee_of rows))
      × (pos a.profit_count ≡ sum_by is_gain rows)
      × (pos a.loss_count ≡ sum_by is_loss rows)
      × (a.total_trades ≡ length rows)
unfolding aggregate_profits
aggregate_profits-figures collate rows =
    let sorted = sort (by_traded_at collate) rows in
    let a = add_rows-Adds no_totals sorted in
    let figure = λ (f : ProfitRow → ℤ). sum_by-sort f (by_traded_at collate) rows in
    (
      ap (round_to millionth)
          (omega (int_laws, parts_of a.net, parts_of (figure (λ r. r.net_profit)))),
      ap (round_to millionth) (omega (int_laws, parts_of a.gains, parts_of (figure gain_of))),
      ap (round_to millionth) (omega (int_laws, parts_of a.losses, parts_of (figure loss_of))),
      ap (round_to millionth) (omega (int_laws, parts_of a.fees, parts_of (figure fee_of))),
      omega (int_laws, parts_of a.wins, parts_of (figure is_gain)),
      omega (int_laws, parts_of a.defeats, parts_of (figure is_loss)),
      omega (arith, a.trades, length-sort (by_traded_at collate) rows),
    )
