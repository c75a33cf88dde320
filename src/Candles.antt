-- ===== src/Candles.antt =====
-- `useKlineData` of web/src/hooks/useKlineData.ts: the cache of candles of a chart. The query client is a
-- list of the data under each key, for an exchange and a symbol; the other parts of the key stay as they
-- are. Times are seconds; `number` is `parseFloat` of a price, `date` the milliseconds of a text.
pub mod Sorted
pub mod Sync
mod Tests
use bbgo_sass.Prelude.{
  ℕ, ◌-◌, ◌*◌, ◌/◌, Bool, true, false, not, ◌&&◌, ◌||◌, List, [], ◌∷◌, ◌++◌, map, Option, none,
  some, leb, ◌==◌, if◌then◌else◌,
}
use bbgo_sass.Prelude.Int.{ℤ}
use bbgo_sass.Prelude.Sort.{sort}
use bbgo_sass.Prelude.Text.{codes, same_text}
use bbgo_sass.Prelude.Dict.{find_entry, set_entry}

abbrev pub Text : Type 0
Text = List ℕ

pub record KlineCandle : Type 0 where
  pub time : ℕ
  pub open_price : ℤ
  pub high : ℤ
  pub low : ℤ
  pub close : ℤ
  pub volume : ℤ

pub data RawTime : Type 0 where
  date_text : Text → RawTime
  millis : ℕ → RawTime

pub record RawKline : Type 0 where
  pub time : RawTime
  pub open_price : Text
  pub high : Text
  pub low : Text
  pub close : Text
  pub volume : Text

-- `volume || '0'`
abbrev pub or_zero : Text → Text
or_zero [] = codes "0"
or_zero (c ∷ v) = c ∷ v

module _ (number : Text → ℤ) (date : Text → ℕ) where
  abbrev pub seconds : RawTime → ℕ
  seconds (date_text s) = date s / 1000
  seconds (millis ms) = ms / 1000

  -- `parseKlineRaw`, and `newCandle` of a message, whose time is a text.
  unfoldable pub parse_kline_raw : RawKline → KlineCandle
  parse_kline_raw k = record {
    time = seconds k.time;
    open_price = number k.open_price;
    high = number k.high;
    low = number k.low;
    close = number k.close;
    volume = number (or_zero k.volume);
  }

-- `wsCandlesRef.current.has(String(time))`, for the values of the map in order: a key is the time of its
-- value.
unfoldable pub has_time : ℕ → List KlineCandle → Bool
has_time t [] = false
has_time t (c ∷ cs) = c.time == t || has_time t cs

-- `wsCandlesRef.current.set(String(k.time), k)`
unfoldable pub set_candle : KlineCandle → List KlineCandle → List KlineCandle
set_candle k [] = k ∷ []
set_candle k (c ∷ cs) = if c.time == k.time then k ∷ cs else c ∷ set_candle k cs

unfoldable pub set_candles : List KlineCandle → List KlineCandle → List KlineCandle
set_candles [] m = m
set_candles (k ∷ ks) m = set_candles ks (set_candle k m)

abbrev pub time_le : KlineCandle → KlineCandle → Bool
time_le a b = leb a.time b.time

-- `sorted`
abbrev pub sorted : List KlineCandle → List KlineCandle
sorted = sort time_le

-- `next[idx] = newCandle` at the first candle of that time, if there is one.
unfoldable pub replace_candle : KlineCandle → List KlineCandle → List KlineCandle
replace_candle k [] = []
replace_candle k (c ∷ cs) = if c.time == k.time then k ∷ cs else c ∷ replace_candle k cs

abbrev pub Key : Type 0
Key = Text × Text

abbrev pub same_key : Key → Key → Bool
same_key a b = same_text a.0 b.0 && same_text a.1 b.1

pub record State : Type 0 where
  pub key : Key
  pub enabled : Bool
  pub candles : List KlineCandle
  pub earliest : Option ℕ
  pub loading_more : Bool
  pub cache : List (Key × List KlineCandle)

-- A chart that is mounted, over what the query client has in its cache.
abbrev pub opened : Key → List (Key × List KlineCandle) → State
opened key cache = record {
  key = key;
  enabled = true;
  candles = [];
  earliest = none;
  loading_more = false;
  cache = cache;
}

-- `queryClient.setQueryData(queryKey, ...)`, and the data of the query.
abbrev pub set_data : List KlineCandle → State → State
set_data ks s = record s { cache = set_entry same_key s.key ks s.cache }

abbrev pub data_of : State → Option (List KlineCandle)
data_of s = find_entry same_key s.key s.cache

-- `!exchange || !symbol`
abbrev pub is_blank : Key → Bool
is_blank ([], symbol) = true
is_blank (c ∷ ex, []) = true
is_blank (c ∷ ex, d ∷ symbol) = false

abbrev pub first_time : Option ℕ → List KlineCandle → Option ℕ
first_time earliest [] = earliest
first_time earliest (k ∷ ks) = some k.time

-- The end of `queryFn`, for the candles of the response; the query's data are what it returns. A response
-- that is not OK changes nothing.
unfoldable pub fetched : List KlineCandle → State → State
fetched klines s =
    if is_blank s.key
    then set_data [] s
    else set_data klines
        (record s { candles = set_candles klines []; earliest = first_time s.earliest klines })

-- The guard of `loadEarlierKlines`: there is nothing to do. The time 0 counts as none.
unfoldable pub cannot_load : State → Bool
cannot_load s =
    is_blank s.key
    || not s.enabled
    || s.loading_more
    || elim s.earliest as (λ e. Bool) [ none ↦ true | some t ↦ t == 0 ]

-- Its start, and the time up to which it asks for candles.
unfoldable pub load_started : State → State
load_started s = if cannot_load s then s else record s { loading_more = true }

abbrev pub end_time : ℕ → ℕ
end_time earliest = (earliest - 1) * 1000

-- The body of its `try` after the response, whose candles are `none` if it is not OK or fails.
unfoldable pub loaded_earlier : Option (List KlineCandle) → State → State
loaded_earlier none s = s
loaded_earlier (some []) s = s
loaded_earlier (some (k ∷ ks)) s =
    let candles = set_candles (k ∷ ks) s.candles in
    set_data (sorted candles) (record s { candles = candles; earliest = some k.time })

-- With its `finally`, while the key stays.
unfoldable pub load_ended : Option (List KlineCandle) → State → State
load_ended reply s = record (loaded_earlier reply s) { loading_more = false }

pub record Message : Type 0 where
  pub is_market : Bool
  pub exchange : Text
  pub symbol : Text
  pub kline : Option KlineCandle

-- The update of the data for a candle of a time that the map has: none stay none.
unfoldable pub replace_data : KlineCandle → Option (List KlineCandle) → State → State
replace_data k none s = s
replace_data k (some prev) s = set_data (replace_candle k prev) s

-- The end of `handleWSMessage`, for `newCandle`.
unfoldable pub add_candle : KlineCandle → State → State
add_candle k s =
    let candles = set_candle k s.candles in
    let t = record s { candles = candles } in
    if has_time k.time s.candles then replace_data k (data_of s) t else set_data (sorted candles) t

unfoldable pub hear : Message → Option KlineCandle → State → State
hear msg none s = s
hear msg (some k) s =
    if msg.is_market && same_key (msg.exchange, msg.symbol) s.key then add_candle k s else s

unfoldable pub handle_ws_message : Message → State → State
handle_ws_message msg s = hear msg msg.kline s

-- A render with another exchange or symbol: the refs keep what they hold.
unfoldable pub switch_key : Key → State → State
switch_key key s = record s { key = key }
