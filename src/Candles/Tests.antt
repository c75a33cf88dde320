-- ===== src/Candles/Tests.antt =====
-- Runs of the cache, and the theorem about it at an input.
use bbgo_sass.Prelude.{List, none, ℕ, ◌≡◌, refl, true, [], ◌∷◌, some, arith}
use bbgo_sass.Prelude.Int.{pos}
use bbgo_sass.Prelude.Sort.{sort, insert_sorted}
use bbgo_sass.Prelude.Text.{codes, same_text}
use bbgo_sass.Prelude.Dict.{find_entry, set_entry}
use bbgo_sass.Candles.{
  KlineCandle, has_time, set_candle, set_candles, replace_candle, replace_data, Key, same_key,
  State, opened, data_of, fetched, Message, add_candle, hear, handle_ws_message, switch_key,
  RawKline, millis, parse_kline_raw,
}
use bbgo_sass.Candles.Sync.{here, step, fetches, hears, mounted, IsSynced, Reaches-IsSynced}

abbrev candle : ℕ → ℕ → KlineCandle
candle time price = record {
  time = time;
  open_price = pos price;
  high = pos price;
  low = pos price;
  close = pos price;
  volume = pos 1;
}

abbrev btc : Key
btc = (codes "max", codes "BTC")

abbrev eth : Key
eth = (codes "max", codes "ETH")

abbrev news : KlineCandle → Message
news k = record { is_market = true; exchange = codes "max"; symbol = codes "BTC"; kline = some k }

abbrev filled : State
filled = fetched (candle 10 5 ∷ candle 20 6 ∷ []) (opened btc [])

replaced_in_place :
    data_of (handle_ws_message (news (candle 10 7)) filled) ≡ some (candle 10 7 ∷ candle 20 6 ∷ [])
unfolding handle_ws_message hear add_candle replace_data replace_candle has_time set_candle
    set_candles fetched find_entry set_entry same_text
replaced_in_place = refl

-- Back at a symbol whose data are still in the cache, the map has the candles of the other symbol, and
-- the next candle brings them into the data.
mixed_up :
    data_of (
      handle_ws_message
        (news (candle 30 8))
        (switch_key btc (fetched (candle 20 2 ∷ []) (switch_key eth filled))))
    ≡ some (candle 20 2 ∷ candle 30 8 ∷ [])
unfolding handle_ws_message hear add_candle replace_data has_time set_candle set_candles fetched
    switch_key find_entry set_entry same_text sort insert_sorted
mixed_up = refl

abbrev raw : RawKline
raw = record {
  time = millis 12999;
  open_price = codes "1";
  high = codes "1";
  low = codes "1";
  close = codes "1";
  volume = [];
}

raw_time : (parse_kline_raw (λ s. pos 1) (λ s. 0) raw).time ≡ 12
unfolding parse_kline_raw
raw_time = refl

no_data : find_entry {V = List KlineCandle} same_key btc [] ≡ none
unfolding find_entry
no_data = refl

-- Mounted over data that are still in the cache, the chart keeps only the next candle of them.
data_lost :
    data_of (
      handle_ws_message
        (news (candle 30 8))
        (opened btc ((btc, candle 10 5 ∷ candle 20 6 ∷ []) ∷ [])))
    ≡ some (candle 30 8 ∷ [])
unfolding handle_ws_message hear add_candle has_time set_candle set_entry find_entry same_text sort
    insert_sorted
data_lost = refl

Reaches-IsSynced_example : IsSynced (handle_ws_message (news (candle 10 7)) filled)
unfolding same_text
Reaches-IsSynced_example = Reaches-IsSynced (mounted btc [] no_data) (
    step {t = filled}
      (step {t = opened btc []} here
        (fetches (candle 10 5 ∷ candle 20 6 ∷ []) refl ((omega arith, tt), (tt, tt))))
      (hears (news (candle 10 7))))
