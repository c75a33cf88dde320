-- ===== src/Reports/Positions.antt =====
-- The positions of web/src/lib/bbgo/supabase-queries.ts: the latest position of each group
-- (`useSupabaseLatestPositions`), their unrealized profit (`useUnrealizedPnL`), the latest futures
-- snapshots (`useSupabaseFuturesPositions`) and `computeFuturesRealtime`. Prices and quantities are in
-- units of 1e-12, amounts of money in units of 1e-24. Rows have the values of `parseFloat`, and come from
-- the database in the order of the query.
pub mod Latest
pub mod Realtime
mod Tests
use bbgo_sass.Prelude.{
  ℕ, ◌+◌, ◌*◌, ◌^◌, Bool, true, false, not, ◌&&◌, ◌||◌, List, [], ◌∷◌, ◌++◌, map, Option, none,
  some, ltb, ◌==◌, if◌then◌else◌,
}
use bbgo_sass.Prelude.Int.{ℤ, pos, pos_part, neg_part, ◌+ℤ◌, ◌-ℤ◌}
use bbgo_sass.Prelude.Text.{codes, same_text}
use bbgo_sass.Prelude.Dict.{find_entry, set_entry}
use bbgo_sass.Numbers.{zero_ℤ, round_to, is_positive, is_negative, is_zero}
use bbgo_sass.Reports.Profits.{abs}

pub record PositionRow : Type 0 where
  pub exchange : List ℕ
  pub symbol : List ℕ
  pub strategy_instance_id : List ℕ
  pub base : ℤ
  pub average_cost : ℕ
  pub traded_at : List ℕ

-- The key of a row's group.
abbrev pub group_key : PositionRow → List ℕ
group_key r = r.exchange ++ codes ":" ++ r.symbol ++ codes ":" ++ r.strategy_instance_id

-- A row whose base is not zero takes the place of one of the same time whose base is.
unfoldable pub replaces : (current row : PositionRow) → Bool
replaces current row =
    is_zero current.base && not (is_zero row.base) && same_text row.traded_at current.traded_at

-- A round of the loop over the rows.
unfoldable pub latest_step : List (List ℕ × PositionRow) → PositionRow → List (List ℕ × PositionRow)
latest_step m row = elim (find_entry same_text (group_key row) m) [
  | none ↦ set_entry same_text (group_key row) row m
  | some current ↦ if replaces current row then set_entry same_text (group_key row) row m else m
]

unfoldable pub latest_by_group :
    List (List ℕ × PositionRow) → List PositionRow → List (List ℕ × PositionRow)
latest_by_group m [] = m
latest_by_group m (row ∷ rows) = latest_by_group (latest_step m row) rows

-- Of `LatestPosition`, the fields that are not copies of text.
pub record LatestPosition : Type 0 where
  pub base : ℤ
  pub average_cost : ℕ
  pub is_long : Bool
  pub is_short : Bool
  pub is_closed : Bool

abbrev pub to_latest_position : PositionRow → LatestPosition
to_latest_position r = record {
  base = r.base;
  average_cost = r.average_cost;
  is_long = is_positive r.base;
  is_short = is_negative r.base;
  is_closed = is_zero r.base;
}

unfoldable pub open_ones : List LatestPosition → List LatestPosition
open_ones [] = []
open_ones (p ∷ ps) = if not p.is_closed then p ∷ open_ones ps else open_ones ps

unfoldable pub latest_positions : List PositionRow → List LatestPosition
latest_positions rows =
    open_ones
      (map {A = List ℕ × PositionRow} (λ e. to_latest_position e.1) (latest_by_group [] rows))

-- The profit of one position at a price: what a long one gained, and a short one lost.
unfoldable pub pnl_of : ℕ → LatestPosition → ℤ
pnl_of price p =
    let abs_base = abs p.base in
    if p.is_long
    then pos (price * abs_base) -ℤ pos (p.average_cost * abs_base)
    else pos (p.average_cost * abs_base) -ℤ pos (price * abs_base)

-- The loop: the total profit, and the total cost.
unfoldable pub unrealized_loop : ℕ → List LatestPosition → ℤ × ℕ → ℤ × ℕ
unrealized_loop price [] total = total
unrealized_loop price (p ∷ ps) (pnl, cost) =
    let open_one =
      unrealized_loop price ps (pnl +ℤ pnl_of price p, cost + p.average_cost * abs p.base) in
    let closed_one = unrealized_loop price ps (pnl, cost) in
    if p.is_closed then closed_one else open_one

-- 1e-6 in units of 1e-24, and 1e-2 in units of 1e-12.
abbrev pub millionth : ℕ
millionth = 10 ^ 18

abbrev pub hundredth : ℕ
hundredth = 10 ^ 10

-- `x * 1e4` for a percentage in hundredths.
abbrev pub ten_thousand : ℤ → ℤ
ten_thousand x = (pos (pos_part x * 10000)) -ℤ pos (neg_part x * 10000)

-- `Math.round((pnl / cost) * 100 * 100) / 100`, and 0 without cost.
unfoldable pub percent : ℤ → ℕ → ℤ
percent pnl cost = if ltb 0 cost then round_to cost (ten_thousand pnl) else zero_ℤ

-- The unrealized profit in units of 1e-6, and its percentage in hundredths. An absent price or the
-- price 0 is `none` here.
unfoldable pub unrealized_pnl : Option ℕ → List LatestPosition → ℤ × ℤ
unrealized_pnl none ps = (zero_ℤ, zero_ℤ)
unrealized_pnl (some price) [] = (zero_ℤ, zero_ℤ)
unrealized_pnl (some price) (p ∷ ps) =
    if price == 0
    then (zero_ℤ, zero_ℤ)
    else (let (pnl, cost) = unrealized_loop price (p ∷ ps) (zero_ℤ, 0) in
        (round_to millionth pnl, percent pnl cost))

-- Of a futures snapshot, what the code reads. Absent and malformed numbers are 0, as `num` has it.
pub record FuturesPositionRisk : Type 0 where
  pub exchange : List ℕ
  pub symbol : List ℕ
  pub position_side : List ℕ
  pub strategy_instance_id : List ℕ
  pub position_amount : ℤ
  pub entry_price : ℕ
  pub mark_price : ℕ
  pub liquidation_price : ℕ

abbrev pub risk_key : FuturesPositionRisk → List ℕ
risk_key r =
    r.exchange
    ++ codes ":"
    ++ r.symbol
    ++ codes ":"
    ++ r.position_side
    ++ codes ":"
    ++ r.strategy_instance_id

unfoldable pub has_key : List (List ℕ) → List ℕ → Bool
has_key [] k = false
has_key (j ∷ js) k = same_text j k || has_key js k

-- The loop that keeps the first snapshot of each key, with the keys that were seen.
unfoldable pub latest_risks : List (List ℕ) → List FuturesPositionRisk → List FuturesPositionRisk
latest_risks seen [] = []
latest_risks seen (r ∷ rs) =
    let new_one = latest_risks (risk_key r ∷ seen) rs in
    let old_one = latest_risks seen rs in
    if not (has_key seen (risk_key r)) then r ∷ new_one else old_one

-- The profit in units of 1e-6, the percentages in hundredths.
pub record FuturesRealtimeMetrics : Type 0 where
  pub mark_price : ℕ
  pub unrealized_pnl : ℤ
  pub unrealized_pnl_pct : ℤ
  pub liq_distance_pct : ℤ
  pub is_live : Bool

-- `typeof currentPrice === 'number' && currentPrice > 0`, and the rest of `isLive`.
unfoldable pub live_price : FuturesPositionRisk → Option ℕ → Option ℕ
live_price r none = none
live_price r (some price) =
    if ltb 0 price && ltb 0 r.entry_price && not (is_zero r.position_amount)
    then some price
    else none

unfoldable pub futures_pnl : FuturesPositionRisk → ℕ → ℤ
futures_pnl r mark =
    let size = abs r.position_amount in
    if ltb 0 r.entry_price && not (is_zero r.position_amount) && ltb 0 mark
    then (if is_positive r.position_amount
        then pos (mark * size) -ℤ pos (r.entry_price * size)
        else pos (r.entry_price * size) -ℤ pos (mark * size))
    else zero_ℤ

-- The distance to the liquidation price, in hundredths of a percent of the mark price.
unfoldable pub liq_distance : ℕ → ℕ → ℤ
liq_distance liq mark =
    if ltb 0 liq && ltb 0 mark
    then round_to mark (ten_thousand (pos (abs (pos mark -ℤ pos liq))))
    else zero_ℤ

-- `markPrice`, for the price at which the position is live.
unfoldable pub mark_of : FuturesPositionRisk → Option ℕ → ℕ
mark_of r none = r.mark_price
mark_of r (some price) = price

unfoldable pub is_some : Option ℕ → Bool
is_some none = false
is_some (some price) = true

unfoldable pub compute_futures_realtime : FuturesPositionRisk → Option ℕ → FuturesRealtimeMetrics
compute_futures_realtime r current =
    let live = live_price r current in
    let mark = mark_of r live in
    let pnl = futures_pnl r mark in
    record {
      mark_price = mark;
      unrealized_pnl = round_to millionth pnl;
      unrealized_pnl_pct = percent pnl (r.entry_price * abs r.position_amount);
      liq_distance_pct = liq_distance r.liquidation_price mark;
      is_live = is_some live;
    }
