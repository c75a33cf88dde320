-- ===== src/Adapters/Tests.antt =====
-- Runs of the adapters, and the theorem about the keys at an input.
use bbgo_sass.Prelude.{
  ℕ, zero, suc, ◌≡◌, refl, true, [], ◌∷◌, Option, none, some, arith, ap, IsDistinct, length,
}
use bbgo_sass.Prelude.Text.{codes, same_text}
use bbgo_sass.Adapters.{Text, TradeRow, OrderRow, order_row_to_bbgo, trade_row_to_bbgo, order_key}
use bbgo_sass.Adapters.Keys.{HasNoDash, keys_from, keys_from-IsDistinct}

-- A number as so many letters.
abbrev unary : ℕ → Text
unary zero = []
unary (suc n) = b'i' ∷ unary n

unary-HasNoDash : (n : ℕ) → HasNoDash (unary n)
unary-HasNoDash zero = tt
unary-HasNoDash (suc n) = (ground arith, unary-HasNoDash n)

length-unary : (n : ℕ) → length (unary n) ≡ n
length-unary zero = refl
length-unary (suc n) = omega (arith, length-unary n)

unary_injective : (m n : ℕ) → unary m ≡ unary n → m ≡ n
unary_injective m n e =
    let same : length (unary m) ≡ length (unary n) = ap length e in
    omega (arith, length-unary m, length-unary n, same)

abbrev parse_int : Text → Option ℕ
parse_int t = some 7

abbrev blank : TradeRow
blank = record {
  trade_id = none;
  order_id = none;
  order_uuid = some [];
  exchange = none;
  symbol = none;
  side = some (codes "BUY");
  price = none;
  quantity = none;
  quote_quantity = none;
  is_buyer = none;
  is_maker = some true;
  traded_at = none;
  fee = none;
  fee_currency = none;
  strategy_instance_id = none;
  position_action = some [];
}

blank_run : (trade_row_to_bbgo parse_int unary blank 3).price ≡ codes "0"
unfolding trade_row_to_bbgo
blank_run = refl

keys_from-IsDistinct_example :
    IsDistinct (keys_from parse_int unary unary-HasNoDash unary_injective 0 (blank ∷ blank ∷ []))
keys_from-IsDistinct_example =
    keys_from-IsDistinct parse_int unary unary-HasNoDash unary_injective 0 (blank ∷ blank ∷ [])

abbrev order : OrderRow
order = record {
  order_id = none;
  order_uuid = none;
  client_order_id = none;
  exchange = none;
  symbol = none;
  side = none;
  order_type = none;
  price = none;
  quantity = none;
  executed_quantity = none;
  status = none;
  stop_price = some (codes "0");
  created_at = none;
  is_working = none;
  tag = none;
  strategy_instance_id = none;
  is_futures = none;
  position_action = none;
}

order_run : (order_row_to_bbgo parse_int unary order 2).stop_price ≡ none
unfolding order_row_to_bbgo same_text
order_run = refl

order_key_run :
    order_key parse_int unary (order_row_to_bbgo parse_int unary order 1) ≡ codes "iiiiiii-i"
unfolding order_row_to_bbgo order_key
order_key_run = refl
