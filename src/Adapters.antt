-- ===== src/Adapters.antt =====
-- The row adapters of web/src/lib/bbgo/supabase-adapters.ts. A column is its text, or none where it is null
-- or absent; `parse_int` is `parseInt(s, 10)`, none for NaN, and `number_text` is `String` of a number.
pub mod Keys
mod Tests
use bbgo_sass.Prelude.{
  ℕ, Bool, true, false, not, List, [], ◌∷◌, ◌++◌, Option, none, some, ◌==◌, if◌then◌else◌,
}
use bbgo_sass.Prelude.Text.{codes, same_text}

abbrev pub Text : Type 0
Text = List ℕ

-- `String(column ?? d)`
abbrev pub text_or : Text → Option Text → Text
text_or d none = d
text_or d (some t) = t

-- `column || undefined`
abbrev pub unless_blank : Option Text → Option Text
unless_blank none = none
unless_blank (some []) = none
unless_blank (some (c ∷ t)) = some (c ∷ t)

-- `Boolean(column)`
abbrev pub true_if : Option Bool → Bool
true_if none = false
true_if (some b) = b

-- `parseInt(...) || d`
abbrev pub number_or : ℕ → Option ℕ → ℕ
number_or d none = d
number_or d (some n) = if n == 0 then d else n

pub record TradeRow : Type 0 where
  pub trade_id : Option Text
  pub order_id : Option Text
  pub order_uuid : Option Text
  pub exchange : Option Text
  pub symbol : Option Text
  pub side : Option Text
  pub price : Option Text
  pub quantity : Option Text
  pub quote_quantity : Option Text
  pub is_buyer : Option Bool
  pub is_maker : Option Bool
  pub traded_at : Option Text
  pub fee : Option Text
  pub fee_currency : Option Text
  pub strategy_instance_id : Option Text
  pub position_action : Option Text

pub record BbgoTrade : Type 0 where
  pub gid : ℕ
  pub id : ℕ
  pub order_id : ℕ
  pub order_uuid : Option Text
  pub exchange : Text
  pub symbol : Text
  pub side : Text
  pub price : Text
  pub quantity : Text
  pub quote_quantity : Text
  pub is_buyer : Bool
  pub is_maker : Bool
  pub traded_at : Text
  pub fee : Text
  pub fee_currency : Text
  pub strategy_instance_id : Option Text
  pub position_action : Option Text

pub record OrderRow : Type 0 where
  pub order_id : Option Text
  pub order_uuid : Option Text
  pub client_order_id : Option Text
  pub exchange : Option Text
  pub symbol : Option Text
  pub side : Option Text
  pub order_type : Option Text
  pub price : Option Text
  pub quantity : Option Text
  pub executed_quantity : Option Text
  pub status : Option Text
  pub stop_price : Option Text
  pub created_at : Option Text
  pub is_working : Option Bool
  pub tag : Option Text
  pub strategy_instance_id : Option Text
  pub is_futures : Option Bool
  pub position_action : Option Text

pub record BbgoOrder : Type 0 where
  pub gid : ℕ
  pub order_id : ℕ
  pub uuid : Option Text
  pub client_order_id : Option Text
  pub exchange : Text
  pub symbol : Text
  pub side : Text
  pub order_type : Text
  pub price : Text
  pub quantity : Text
  pub executed_quantity : Text
  pub status : Text
  pub stop_price : Option Text
  pub creation_time : Text
  pub is_working : Bool
  pub tag : Option Text
  pub strategy_instance_id : Option Text
  pub is_futures : Bool
  pub position_action : Option Text

module _ (parse_int : Text → Option ℕ) (number_text : ℕ → Text) where
  -- `tradeRowToBBGo`
  unfoldable pub trade_row_to_bbgo : TradeRow → ℕ → BbgoTrade
  trade_row_to_bbgo row idx = record {
    gid = idx;
    id = number_or idx (parse_int (text_or (number_text idx) row.trade_id));
    order_id = number_or 0 (parse_int (text_or (number_text 0) row.order_id));
    order_uuid = unless_blank row.order_uuid;
    exchange = text_or [] row.exchange;
    symbol = text_or [] row.symbol;
    side = text_or [] row.side;
    price = text_or (codes "0") row.price;
    quantity = text_or (codes "0") row.quantity;
    quote_quantity = text_or (codes "0") row.quote_quantity;
    is_buyer = true_if row.is_buyer;
    is_maker = true_if row.is_maker;
    traded_at = text_or [] row.traded_at;
    fee = text_or (codes "0") row.fee;
    fee_currency = text_or [] row.fee_currency;
    strategy_instance_id = unless_blank row.strategy_instance_id;
    position_action = unless_blank row.position_action;
  }

  -- `orderRowToBBGo`
  unfoldable pub order_row_to_bbgo : OrderRow → ℕ → BbgoOrder
  order_row_to_bbgo row idx =
      let stop_price = text_or (codes "0") row.stop_price in
      record {
        gid = idx;
        order_id = number_or idx (parse_int (text_or (number_text idx) row.order_id));
        uuid = unless_blank row.order_uuid;
        client_order_id = unless_blank row.client_order_id;
        exchange = text_or [] row.exchange;
        symbol = text_or [] row.symbol;
        side = text_or [] row.side;
        order_type = text_or [] row.order_type;
        price = text_or (codes "0") row.price;
        quantity = text_or (codes "0") row.quantity;
        executed_quantity = text_or (codes "0") row.executed_quantity;
        status = text_or [] row.status;
        stop_price = if not (same_text stop_price (codes "0")) then some stop_price else none;
        creation_time = text_or [] row.created_at;
        is_working = true_if row.is_working;
        tag = unless_blank row.tag;
        strategy_instance_id = unless_blank row.strategy_instance_id;
        is_futures = true_if row.is_futures;
        position_action = unless_blank row.position_action;
      }

  -- `tradeKey` and `orderKey`.
  unfoldable pub trade_key : BbgoTrade → Text
  trade_key trade = number_text trade.id ++ b'-' ∷ number_text trade.gid

  unfoldable pub order_key : BbgoOrder → Text
  order_key order = text_or (number_text order.order_id ++ b'-' ∷ number_text order.gid) order.uuid
