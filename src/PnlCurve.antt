-- ===== src/PnlCurve.antt =====
-- web/src/lib/bbgo/pnl-curve.ts. A field of a trade is the value that `parseFloat` or `Date.getTime`
-- gives for the source's text: prices, quantities and fees in units of 1e-12, times in milliseconds.
-- Running profit is in units of 1e-24, and the values of the curve are in cents.
pub mod Ledger
pub mod Points
mod Tests
use text.Mathlib.Text.{◌==◌ as str_eq}
use bbgo_sass.Prelude.{
  ℕ, zero, suc, ◌+◌, ◌*◌, ◌/◌, ◌^◌, Bool, true, false, ◌||◌, List, [], ◌∷◌, ◌++◌, Option, none,
  some, String, ltb, leb, ◌==◌, if◌then◌else◌,
}
use bbgo_sass.Prelude.Int.{ℤ, pos, ◌+ℤ◌, ◌-ℤ◌, ◌*ℤ◌}
use bbgo_sass.Prelude.Sort.{sort}
use bbgo_sass.Numbers.{zero_ℤ, round_to}
use bbgo_sass.Trade.{Side, buy, sell}
use bbgo_sass.Fifo.{FifoQueue, new_queue, push, match}

pub record PnlPoint : Type 0 where
  pub time : ℕ
  pub value : ℤ

pub record PnlTrade : Type 0 where
  pub time : ℕ
  pub side : Side
  pub price : ℕ
  pub quantity : ℕ
  pub fee : Option ℤ
  pub fee_currency : Option String

-- 1 in units of 1e-12
abbrev pub one : ℕ
one = 10 ^ 12

-- A cent in units of 1e-24
abbrev pub cent : ℕ
cent = 10 ^ 22

abbrev contains : List String → String → Bool
contains [] s = false
contains (x ∷ xs) s = str_eq x s || contains xs s

abbrev pub quote_currencies : List String
quote_currencies = "USDT" ∷ "USDC" ∷ "BUSD" ∷ "TUSD" ∷ "DAI" ∷ "FDUSD" ∷ []

-- `!feeCurrency || QUOTE_CURRENCIES.has(feeCurrency)`
unfoldable pub is_quote : Option String → Bool
is_quote none = true
is_quote (some c) = str_eq c "" || contains quote_currencies c

-- The fee in units of 1e-24.
unfoldable pub fee_in_quote : ℤ → Option String → ℕ → ℤ
fee_in_quote fee currency trade_price =
    if is_quote currency
    then fee *ℤ pos one
    else if trade_price == 0
    then fee *ℤ pos one
    else fee *ℤ pos trade_price

-- `parseFloat(trade.fee || '0')`
abbrev pub fee_of : PnlTrade → ℤ
fee_of t = elim t.fee [ none ↦ zero_ℤ | some f ↦ f ]

-- The end of a round of the loop: the last point is overwritten if it has the same second.
unfoldable pub put_point : List PnlPoint → ℕ → ℤ → List PnlPoint
put_point [] ts value = record { time = ts; value = value } ∷ []
put_point (p ∷ []) ts value =
    if p.time == ts
    then record p { value = value } ∷ []
    else p ∷ record { time = ts; value = value } ∷ []
put_point (p ∷ q ∷ ps) ts value = p ∷ put_point (q ∷ ps) ts value

-- The variables of the loop.
pub record Curve : Type 0 where
  pub queue : FifoQueue
  pub cumulative : ℤ
  pub points : List PnlPoint

-- `price * qty - matchedCost` of a sale that matched `m` of its quantity.
unfoldable pub sale_profit : ℕ → ℕ → (cost_basis remaining : ℕ) → ℤ
sale_profit price quantity cost_basis remaining =
    let matched_cost = if ltb 0 remaining then cost_basis + remaining * price else cost_basis in
    pos (price * quantity) -ℤ pos matched_cost

-- The `if` on the side: the queue and the running profit before the fee.
unfoldable pub trade_side : Side → PnlTrade → FifoQueue → ℤ → FifoQueue × ℤ
trade_side buy t q cumulative = (push t.price t.quantity q, cumulative)
trade_side sell t q cumulative =
    let (q', m) = match t.quantity q in
    (q', cumulative +ℤ sale_profit t.price t.quantity m.cost_basis m.remaining)

unfoldable pub curve_step : Curve → PnlTrade → Curve
unfolding trade_side
curve_step c t =
    let (q, gained) = trade_side t.side t c.queue c.cumulative in
    let cumulative = gained -ℤ fee_in_quote (fee_of t) t.fee_currency t.price in
    record {
      queue = q;
      cumulative = cumulative;
      points = put_point c.points (t.time / 1000) (round_to cent cumulative);
    }

unfoldable pub curve_loop : Curve → List PnlTrade → Curve
curve_loop c [] = c
curve_loop c (t ∷ ts) = curve_loop (curve_step c t) ts

abbrev pub start : Curve
start = record { queue = new_queue; cumulative = zero_ℤ; points = [] }

abbrev pub by_time : PnlTrade → PnlTrade → Bool
by_time a b = leb a.time b.time

unfoldable pub compute_pnl_curve : List PnlTrade → List PnlPoint
compute_pnl_curve [] = []
compute_pnl_curve (t ∷ ts) = (curve_loop start (sort by_time (t ∷ ts))).points
