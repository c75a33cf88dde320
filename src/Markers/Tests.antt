-- ===== src/Markers/Tests.antt =====
-- A run of the markers, and the theorem about them at an input.
use bbgo_sass.Prelude.{ℕ, ◌≡◌, refl, true, false, List, [], ◌∷◌, none, some, String, take, length}
use bbgo_sass.Prelude.Sort.{sort, insert_sorted}
use bbgo_sass.Prelude.Text.{codes, same_text}
use bbgo_sass.Prelude.Dict.{find_entry}
use bbgo_sass.Trade.{buy}
use bbgo_sass.Adapters.{Text, BbgoTrade}
use bbgo_sass.Markers.{
  trades_of, position_action_to_tag, has_server_pa, sorted_markers, build_trade_markers,
}
use bbgo_sass.Markers.Sorted.{AreMarkers, build_trade_markers-AreMarkers}

abbrev trade : Text → Text → BbgoTrade
trade traded_at action = record {
  gid = 0;
  id = 1;
  order_id = 2;
  order_uuid = none;
  exchange = codes "max";
  symbol = codes "BTC";
  side = codes "BUY";
  price = codes "5";
  quantity = codes "2";
  quote_quantity = codes "10";
  is_buyer = true;
  is_maker = false;
  traded_at = traded_at;
  fee = codes "0";
  fee_currency = [];
  strategy_instance_id = none;
  position_action = some action;
}

abbrev trades : List BbgoTrade
trades = trade (codes "ab") (codes "ADD_LONG") ∷ trade (codes "a") (codes "OPEN_LONG") ∷ []

abbrev parse : Text → ℕ
parse t = length t

abbrev time_text : ℕ → String
time_text n = "t"

markers_run :
    build_trade_markers parse parse time_text (some trades) (codes "BTC") true
    ≡ record { time = 1; side = buy; price = 1; quantity = 1; position_action = codes "openLong" }
      ∷ record { time = 2; side = buy; price = 1; quantity = 1; position_action = codes "addLong" }
      ∷ []
unfolding build_trade_markers sorted_markers trades_of has_server_pa position_action_to_tag
    find_entry same_text sort insert_sorted
markers_run = refl

build_trade_markers-AreMarkers_example :
    AreMarkers parse parse time_text
      (take 200 (trades_of (codes "BTC") trades))
      true
      (build_trade_markers parse parse time_text (some trades) (codes "BTC") true)
build_trade_markers-AreMarkers_example =
    build_trade_markers-AreMarkers parse parse time_text trades (codes "BTC") true
