-- ===== src/Markers.antt =====
-- The trade markers and order levels of a chart, web/src/lib/bbgo/trade-markers.ts. Prices and quantities
-- are the values that `parseFloat` gives, in units of 1e-12; `seconds` is the time of a text in seconds, and
-- `time_text` is `String` of such a time.
pub mod Sorted
mod Tests
use bbgo_sass.Prelude.{
  ℕ, Bool, true, false, not, ◌&&◌, ◌||◌, List, [], ◌∷◌, map, Option, none, some, String, leb,
  if◌then◌else◌, take,
}
use bbgo_sass.Prelude.Sort.{sort}
use bbgo_sass.Prelude.Text.{codes, same_text}
use bbgo_sass.Prelude.Dict.{find_entry}
use bbgo_sass.Trade.{Side, buy, sell}
use bbgo_sass.PositionTags.{
  Trade, Tag, opens, closes, adds, reduces, plain, PositionTag, FuturesTag, open_long, close_long,
  open_short, close_short, add_long, reduce_long, add_short, reduce_short, flip_long_to_short,
  flip_short_to_long, FuturesPositionTag, compute_position_tags, compute_futures_position_tags,
}
use bbgo_sass.Adapters.{Text, BbgoTrade, BbgoOrder}

pub record TradeMarker : Type 0 where
  pub time : ℕ
  pub side : Side
  pub price : ℕ
  pub quantity : ℕ
  pub position_action : Text

pub record OrderLevel : Type 0 where
  pub price : ℕ
  pub side : Side
  pub quantity : Text

-- `map` of `positionActionToTag`.
abbrev pub action_tags : List (Text × Text)
action_tags =
    (codes "OPEN", codes "open")
    ∷ (codes "ADD", codes "add")
    ∷ (codes "REDUCE", codes "reduce")
    ∷ (codes "CLOSE", codes "close")
    ∷ (codes "OPEN_LONG", codes "openLong")
    ∷ (codes "ADD_LONG", codes "addLong")
    ∷ (codes "REDUCE_LONG", codes "reduceLong")
    ∷ (codes "CLOSE_LONG", codes "closeLong")
    ∷ (codes "OPEN_SHORT", codes "openShort")
    ∷ (codes "ADD_SHORT", codes "addShort")
    ∷ (codes "REDUCE_SHORT", codes "reduceShort")
    ∷ (codes "CLOSE_SHORT", codes "closeShort")
    ∷ (codes "FLIP_LONG_TO_SHORT", codes "flipLongToShort")
    ∷ (codes "FLIP_SHORT_TO_LONG", codes "flipShortToLong")
    ∷ []

abbrev pub or_trade : Option Text → Text
or_trade none = codes "trade"
or_trade (some t) = t

unfoldable pub position_action_to_tag : Option Text → Text
position_action_to_tag none = codes "trade"
position_action_to_tag (some []) = codes "trade"
position_action_to_tag (some (c ∷ action)) =
    or_trade (find_entry same_text (c ∷ action) action_tags)

-- The source's names of the tags.
abbrev pub tag_text : Tag → Text
tag_text opens = codes "open"
tag_text closes = codes "close"
tag_text adds = codes "add"
tag_text reduces = codes "reduce"
tag_text plain = codes "trade"

abbrev pub futures_tag_text : FuturesTag → Text
futures_tag_text open_long = codes "openLong"
futures_tag_text close_long = codes "closeLong"
futures_tag_text open_short = codes "openShort"
futures_tag_text close_short = codes "closeShort"
futures_tag_text add_long = codes "addLong"
futures_tag_text reduce_long = codes "reduceLong"
futures_tag_text add_short = codes "addShort"
futures_tag_text reduce_short = codes "reduceShort"
futures_tag_text flip_long_to_short = codes "flipLongToShort"
futures_tag_text flip_short_to_long = codes "flipShortToLong"
futures_tag_text plain = codes "trade"

-- `!symbol || tr.symbol === symbol`, and the rows for which it holds.
abbrev pub is_of : Text → Text → Bool
is_of [] s = true
is_of (c ∷ symbol) s = same_text s (c ∷ symbol)

unfoldable pub trades_of : Text → List BbgoTrade → List BbgoTrade
trades_of symbol [] = []
trades_of symbol (t ∷ ts) =
    let rest = trades_of symbol ts in if is_of symbol t.symbol then t ∷ rest else rest

unfoldable pub orders_of : Text → List BbgoOrder → List BbgoOrder
orders_of symbol [] = []
orders_of symbol (o ∷ os) =
    let rest = orders_of symbol os in if is_of symbol o.symbol then o ∷ rest else rest

-- `side as 'BUY' | 'SELL'`, as the readers of a side test it.
abbrev pub side_of : Text → Side
side_of s = if same_text s (codes "BUY") then buy else sell

abbrev pub marker_le : TradeMarker → TradeMarker → Bool
marker_le a b = leb a.time b.time

-- `m.positionAction && m.positionAction !== 'trade'`
abbrev pub is_tagged : TradeMarker → Bool
is_tagged m =
    not (same_text m.position_action []) && not (same_text m.position_action (codes "trade"))

unfoldable pub has_server_pa : List TradeMarker → Bool
has_server_pa [] = false
has_server_pa (m ∷ ms) = is_tagged m || has_server_pa ms

-- The loop that writes the tags to the markers.
unfoldable pub write_tags : List (Option Text) → List TradeMarker → List TradeMarker
write_tags tags [] = []
write_tags [] (m ∷ ms) = m ∷ ms
write_tags (t ∷ tags) (m ∷ ms) = record m { position_action = or_trade t } ∷ write_tags tags ms

abbrev pub tag_texts {ℓ} : {A : Type ℓ} → (A → Text) → Option A → Option Text
tag_texts text none = none
tag_texts text (some x) = some (text x)

abbrev pub spot_tag : Option PositionTag → Option Text
spot_tag none = none
spot_tag (some t) = tag_texts tag_text t.tag

abbrev pub futures_tag_of : Option FuturesPositionTag → Option Text
futures_tag_of none = none
futures_tag_of (some t) = tag_texts futures_tag_text t.tag

module _ (parse_float : Text → ℕ) (seconds : Text → ℕ) (time_text : ℕ → String) where
  abbrev pub marker_of : BbgoTrade → TradeMarker
  marker_of t = record {
    time = seconds t.traded_at;
    side = side_of t.side;
    price = parse_float t.price;
    quantity = parse_float t.quantity;
    position_action = position_action_to_tag t.position_action;
  }

  -- `input`
  abbrev pub input_of : TradeMarker → Trade
  input_of m = record { side = m.side; quantity = m.quantity; traded_at = some (time_text m.time) }

  abbrev pub computed_tags : Bool → List TradeMarker → List (Option Text)
  computed_tags is_futures ms =
      let input = map {A = TradeMarker} input_of ms in
      if is_futures
      then map futures_tag_of (compute_futures_position_tags input)
      else map spot_tag (compute_position_tags input)

  -- The markers of the trades that are shown, in order of time.
  unfoldable pub sorted_markers : Text → List BbgoTrade → List TradeMarker
  sorted_markers symbol trades = sort marker_le (map marker_of (take 200 (trades_of symbol trades)))

  -- `buildTradeMarkers`, for `trades` that may be missing.
  unfoldable pub build_trade_markers :
      Option (List BbgoTrade) → Text → (is_futures : Bool) → List TradeMarker
  build_trade_markers none symbol is_futures = []
  build_trade_markers (some trades) symbol is_futures =
      let sorted = sorted_markers symbol trades in
      if has_server_pa sorted then sorted else write_tags (computed_tags is_futures sorted) sorted

  -- `buildOrderLevels`
  unfoldable pub build_order_levels : Option (List BbgoOrder) → Text → List OrderLevel
  build_order_levels none symbol = []
  build_order_levels (some orders) symbol =
      map {A = BbgoOrder}
        (λ o. record { price = parse_float o.price; side = side_of o.side; quantity = o.quantity })
        (orders_of symbol orders)
