-- ===== src/Reports/Trades/Books.antt =====
-- The book of one symbol in `computePnLFromTrades`.
use bbgo_sass.Prelude.{ℕ, ◌+◌, ◌*◌, ◌≤◌, ◌≡◌, refl, List, [], ◌∷◌, arith, if◌then◌else◌}
use bbgo_sass.Prelude.Int.{ℤ, pos, ◌+ℤ◌, ◌-ℤ◌, int_laws, parts_of}
use bbgo_sass.Prelude.SumBy.{sum_by}
use bbgo_sass.Prelude.Text.{same_text}
use bbgo_sass.Prelude.Dict.{sum_entries, sum_entries-update}
use bbgo_sass.Numbers.{zero_ℤ, is_positive, is_negative}
use bbgo_sass.Trade.{Side, buy, sell}
use bbgo_sass.Fifo.{match}
use bbgo_sass.Reports.Profits.{abs}
use bbgo_sass.Reports.Trades.{
  BbgoTrade, DayEntry, Book, new_book, day_of, no_entry, book_day, matched_cost, book_buy,
  book_sell, book_side, book_trade, book_trades,
}

abbrev pub realized_of : DayEntry → ℤ
realized_of d = d.realized

abbrev pub fees_of : DayEntry → ℤ
fees_of d = pos d.fees

abbrev pub fee_size : BbgoTrade → ℤ
fee_size t = pos (abs t.fee)

book_day-realized :
    (t : BbgoTrade) (v : ℤ) (m : List (List ℕ × DayEntry))
    → sum_entries same_text realized_of (book_day t v m) ≡ sum_entries same_text realized_of m +ℤ v
unfolding book_day
book_day-realized t v m =
    sum_entries-update same_text realized_of
      (λ d. record { realized = d.realized +ℤ v; fees = d.fees + abs t.fee }) no_entry v refl
      (λ d. refl) (day_of t) m

book_day-fees :
    (t : BbgoTrade) (v : ℤ) (m : List (List ℕ × DayEntry))
    → sum_entries same_text fees_of (book_day t v m) ≡ sum_entries same_text fees_of m +ℤ fee_size t
unfolding book_day
book_day-fees t v m =
    sum_entries-update same_text fees_of
      (λ d. record { realized = d.realized +ℤ v; fees = d.fees + abs t.fee }) no_entry (fee_size t)
      refl (λ d. omega int_laws) (day_of t) m

-- What the book of a symbol keeps, for the days before it.
pub record Balanced (m : List (List ℕ × DayEntry)) (b : Book) : Type 0 where
  pub money : b.sym_realized +ℤ pos b.buy_vol ≡ pos b.sell_vol +ℤ b.open_cost
  pub days :
      sum_entries same_text realized_of b.daily_map
      ≡ sum_entries same_text realized_of m +ℤ b.sym_realized
  pub day_fees :
      sum_entries same_text fees_of b.daily_map ≡ sum_entries same_text fees_of m +ℤ pos b.sym_fees
  pub counts : b.buys + b.sells ≡ b.sym_count
  pub decided : b.sym_win + b.sym_lose ≤ b.sells

pub new_book-Balanced : (m : List (List ℕ × DayEntry)) → Balanced m (new_book m)
new_book-Balanced m = record {
  money = omega int_laws;
  days = omega int_laws;
  day_fees = omega int_laws;
  counts = refl;
  decided = omega arith;
}

-- The start of a round: the fee and the count.
abbrev counted : Book → BbgoTrade → Book
counted b t = record b { sym_fees = b.sym_fees + abs t.fee; sym_count = b.sym_count + 1 }

book_buy-Balanced :
    (m : List (List ℕ × DayEntry)) (b : Book) (t : BbgoTrade)
    → Balanced m b
    → Balanced m (book_buy t (counted b t))
unfolding book_buy
book_buy-Balanced m b t h = record {
  money = omega (int_laws, parts_of h.money);
  days = omega (int_laws, parts_of h.days, parts_of (book_day-realized t zero_ℤ b.daily_map));
  day_fees = omega (int_laws, parts_of h.day_fees, parts_of (book_day-fees t zero_ℤ b.daily_map));
  counts = omega (arith, h.counts);
  decided = h.decided;
}

-- A sale is a gain, a loss or neither.
sale_decided :
    (v : ℤ) (wins losses sells : ℕ)
    → wins + losses ≤ sells
    → (if is_positive v then wins + 1 else wins) + (if is_negative v then losses + 1 else losses)
      ≤ sells + 1
sale_decided v wins losses sells h = ground arith

book_sell-Balanced :
    (m : List (List ℕ × DayEntry)) (b : Book) (t : BbgoTrade)
    → Balanced m b
    → Balanced m (book_sell t (counted b t))
unfolding book_sell
book_sell-Balanced m b t h =
    let r = match t.quantity b.queue in
    let cost = matched_cost t.price r.1.cost_basis r.1.remaining in
    let realized = pos (t.price * t.quantity) -ℤ pos cost in
    record {
      money = omega (int_laws, parts_of h.money);
      days = omega (int_laws, parts_of h.days, parts_of (book_day-realized t realized b.daily_map));
      day_fees =
          omega (int_laws, parts_of h.day_fees, parts_of (book_day-fees t realized b.daily_map));
      counts = omega (arith, h.counts);
      decided = sale_decided realized b.sym_win b.sym_lose b.sells h.decided;
    }

book_side-Balanced :
    (m : List (List ℕ × DayEntry)) (s : Side) (b : Book) (t : BbgoTrade)
    → Balanced m b
    → Balanced m (book_side s t (counted b t))
unfolding book_side
book_side-Balanced m buy b t h = book_buy-Balanced m b t h
book_side-Balanced m sell b t h = book_sell-Balanced m b t h

pub book_trades-Balanced :
    (m : List (List ℕ × DayEntry)) (b : Book) (ts : List BbgoTrade)
    → Balanced m b
    → Balanced m (book_trades b ts)
unfolding book_trades book_trade
book_trades-Balanced m b [] h = h
book_trades-Balanced m b (t ∷ ts) h =
    book_trades-Balanced m (book_trade b t) ts (book_side-Balanced m t.side b t h)

book_side_rest :
    (s : Side) (t : BbgoTrade) (b : Book)
    → ((book_side s t b).sym_fees ≡ b.sym_fees) × ((book_side s t b).sym_count ≡ b.sym_count)
unfolding book_side book_buy book_sell
book_side_rest buy t b = (refl, refl)
book_side_rest sell t b = (refl, refl)

abbrev pub one_each : BbgoTrade → ℤ
one_each t = pos 1

-- The fees and the number of the trades of a symbol.
pub book_trades_sums :
    (b : Book) (ts : List BbgoTrade)
    → let c = book_trades b ts in
      (pos c.sym_fees ≡ pos b.sym_fees +ℤ sum_by fee_size ts)
      × (pos c.sym_count ≡ pos b.sym_count +ℤ sum_by one_each ts)
unfolding book_trades book_trade sum_by
book_trades_sums b [] = (omega int_laws, omega int_laws)
book_trades_sums b (t ∷ ts) =
    let (fees, count) = book_trades_sums (book_trade b t) ts in
    let (same_fees, same_count) = book_side_rest t.side t (counted b t) in
    (omega (int_laws, parts_of fees, same_fees), omega (int_laws, parts_of count, same_count))
