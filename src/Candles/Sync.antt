-- ===== src/Candles/Sync.antt =====
-- The data that the chart of web/src/hooks/useKlineData.ts shows, and the map of candles behind it.
use bbgo_sass.Prelude.{
  ◌≡◌, ◌⊎◌, refl, true, false, ◌&&◌, List, [], ◌∷◌, Option, none, some, arith, ap, ◌∙◌, sym,
  Bool-cases, inl, inr,
}
use bbgo_sass.Prelude.Text.{same_text_refl, eq_of_same_text}
use bbgo_sass.Prelude.Dict.{find_entry, find_entry-set_entry_self}
use bbgo_sass.Candles.{
  KlineCandle, has_time, set_candle, set_candles, sorted, replace_candle, Key, same_key, State,
  opened, set_data, data_of, is_blank, fetched, cannot_load, load_started, loaded_earlier,
  load_ended, Message, replace_data, add_candle, hear, handle_ws_message,
}
use bbgo_sass.Candles.Sorted.{
  HasDistinctTimes, IsAscending, sorted-set_candle, set_candle-HasDistinctTimes,
  set_candles-HasDistinctTimes, set_candles-IsAscending, sorted-IsAscending,
}

-- What can happen while the exchange and the symbol stay: the service answers the query, with candles in
-- ascending order of time; older candles are asked for, and come or do not; a message comes.
pub data Step (s : State) : State → Type 0 where
  fetches :
      (klines : List KlineCandle)
      → is_blank s.key ≡ false
      → IsAscending klines
      → Step s (fetched klines s)
  starts_load : Step s (load_started s)
  ends_load :
      (reply : Option (List KlineCandle)) → s.loading_more ≡ true → Step s (load_ended reply s)
  hears : (msg : Message) → Step s (handle_ws_message msg s)

pub data Reaches : State → State → Type 0 where
  here : {s : State} → Reaches s s
  step : {s t u : State} → Reaches s t → Step t u → Reaches s u

-- The map has one candle for each time, and the data, if there are any, are the map's candles in order.
pub record IsSynced (s : State) : Type 0 where
  pub distinct : HasDistinctTimes s.candles
  pub synced : (data_of s ≡ none) ⊎ (data_of s ≡ some (sorted s.candles))

same_key_refl : (k : Key) → same_key k k ≡ true
same_key_refl k = rw (same_text_refl k.0, same_text_refl k.1)

eq_of_same_key : (j k : Key) → same_key j k ≡ true → j ≡ k
eq_of_same_key j k h =
    let first : j.0 ≡ k.0 = eq_of_same_text j.0 k.0 (ground (arith, h)) in
    let second : j.1 ≡ k.1 = eq_of_same_text j.1 k.1 (ground (arith, h)) in cc

data_of-set_data : (ks : List KlineCandle) (s : State) → data_of (set_data ks s) ≡ some ks
data_of-set_data ks s =
    find_entry-set_entry_self same_key same_key_refl eq_of_same_key s.key ks s.cache

fetched-IsSynced :
    (ks : List KlineCandle) (s : State)
    → is_blank s.key ≡ false
    → IsAscending ks
    → IsSynced (fetched ks s)
unfolding fetched
fetched-IsSynced ks s b a = rw b (record {
  distinct = set_candles-HasDistinctTimes ks [] tt;
  synced = inr (
      data_of-set_data ks s
      ∙ ap some (sym (ap sorted (set_candles-IsAscending ks a) ∙ sorted-IsAscending ks a)));
})

loaded_earlier-IsSynced :
    (reply : Option (List KlineCandle)) (s : State) → IsSynced s → IsSynced (load_ended reply s)
unfolding loaded_earlier load_ended
loaded_earlier-IsSynced none s h = record { distinct = h.distinct; synced = h.synced }
loaded_earlier-IsSynced (some []) s h = record { distinct = h.distinct; synced = h.synced }
loaded_earlier-IsSynced (some (k ∷ ks)) s h = record {
  distinct = set_candles-HasDistinctTimes (k ∷ ks) s.candles h.distinct;
  synced = inr (data_of-set_data (sorted (set_candles (k ∷ ks) s.candles)) s);
}

replace_data-IsSynced :
    (k : KlineCandle) (s : State)
    → has_time k.time s.candles ≡ true
    → IsSynced s
    → (found : Option (List KlineCandle)) → data_of s ≡ found
    → IsSynced (replace_data k found (record s { candles = set_candle k s.candles }))
unfolding replace_data
replace_data-IsSynced k s has h none e = record {
  distinct = set_candle-HasDistinctTimes k s.candles h.distinct;
  synced = inl e;
}
replace_data-IsSynced k s has h (some prev) e =
    let same : prev ≡ sorted s.candles = elim h.synced [
      | inl no_data ↦ absurd cc
      | inr found ↦ cc
    ] in
    record {
      distinct = set_candle-HasDistinctTimes k s.candles h.distinct;
      synced = inr (
          data_of-set_data (replace_candle k prev) s
          ∙ ap some (ap (replace_candle k) same ∙ sorted-set_candle k s.candles has h.distinct));
    }

add_candle-IsSynced : (k : KlineCandle) (s : State) → IsSynced s → IsSynced (add_candle k s)
unfolding add_candle
add_candle-IsSynced k s h = elim (Bool-cases (has_time k.time s.candles)) [
  | inl e ↦ rw e (replace_data-IsSynced k s e h (data_of s) refl)
  | inr e ↦ rw e (record {
    distinct = set_candle-HasDistinctTimes k s.candles h.distinct;
    synced = inr (data_of-set_data (sorted (set_candle k s.candles)) s);
  })
]

hear-IsSynced :
    (msg : Message) (kline : Option KlineCandle) (s : State)
    → IsSynced s
    → IsSynced (hear msg kline s)
unfolding hear
hear-IsSynced msg none s h = h
hear-IsSynced msg (some k) s h =
    elim (Bool-cases (msg.is_market && same_key (msg.exchange, msg.symbol) s.key)) [
      | inl e ↦ rw e (add_candle-IsSynced k s h)
      | inr e ↦ rw e h
    ]

Step-IsSynced : {s t : State} → IsSynced s → Step s t → IsSynced t
unfolding load_started handle_ws_message
Step-IsSynced {s} h (fetches ks b a) = fetched-IsSynced ks s b a
Step-IsSynced {s} h starts_load = elim (Bool-cases (cannot_load s)) [
  | inl e ↦ rw e h
  | inr e ↦ rw e (record { distinct = h.distinct; synced = h.synced })
]
Step-IsSynced {s} h (ends_load reply e) = loaded_earlier-IsSynced reply s h
Step-IsSynced {s} h (hears msg) = hear-IsSynced msg msg.kline s h

-- From where the data are the map's: a chart is mounted while the cache has no data of its key, or a query
-- for an exchange and a symbol has just been answered, whatever the state was before.
pub data Starts : State → Type 0 where
  mounted :
      (key : Key) (cache : List (Key × List KlineCandle))
      → find_entry same_key key cache ≡ none
      → Starts (opened key cache)
  answered :
      (klines : List KlineCandle) (s : State)
      → is_blank s.key ≡ false
      → IsAscending klines
      → Starts (fetched klines s)

Starts-IsSynced : {s : State} → Starts s → IsSynced s
Starts-IsSynced (mounted key cache h) = record { distinct = tt; synced = inl h }
Starts-IsSynced (answered klines s b a) = fetched-IsSynced klines s b a

stays-IsSynced : {s t : State} → IsSynced s → Reaches s t → IsSynced t
stays-IsSynced h here = h
stays-IsSynced h (step r e) = Step-IsSynced (stays-IsSynced h r) e

-- From a chart that is mounted with no data of its key in the cache, or from the answer to a query in any
-- state, however the queries, the loads and the messages come in turn while the key stays, if the service
-- answers queries with candles in ascending order of time: the map keeps one candle for each time, and the
-- data of the query, once there are any, are exactly the candles of the map, sorted by time, also where a
-- message replaces a candle in place.
pub Reaches-IsSynced : {s t : State} → Starts s → Reaches s t → IsSynced t
Reaches-IsSynced h r = stays-IsSynced (Starts-IsSynced h) r
