-- ===== src/StrategyState/Details.antt =====
-- The fields that web/src/lib/bbgo/strategy-state.ts shows of a strategy. `to_fixed` and `to_locale` stand
-- for the formatting of numbers, and `number_text` for `String` of one.
use bbgo_sass.Prelude.{ℕ, ◌+◌, not, ◌||◌, List, [], ◌∷◌, ◌++◌, Option, none, some, if◌then◌else◌}
use bbgo_sass.Prelude.Int.{ℤ, pos, pos_part, neg_part}
use bbgo_sass.Prelude.Text.{codes, same_text}
use bbgo_sass.Numbers.{is_zero, is_positive, is_negative}
use bbgo_sass.Strategies.{Text, Value, boolean, number, text, Entries, empty, entry, value_at}
use bbgo_sass.StrategyState.{
  StrategyCategory, grid, maker, dca, trend, other, get_strategy_category, is_in, num_val, text_of,
  object_of, get_inner_state,
}

pub data FieldValue : Type 0 where
  text_value : Text → FieldValue
  number_value : ℤ → FieldValue

pub data Format : Type 0 where
  price_format number_format quantity_format raw_format no_format : Format

pub data Color : Type 0 where
  up down no_color : Color

pub record StrategyDetailField : Type 0 where
  pub key : Text
  pub label : Text
  pub value : FieldValue
  pub format : Format
  pub color : Color

abbrev pub Fields : Type 0
Fields = List StrategyDetailField

abbrev pub field : Text → Text → FieldValue → Format → StrategyDetailField
field key label value format = record {
  key = key;
  label = label;
  value = value;
  format = format;
  color = no_color;
}

-- `if (n > 0) fields.push(...)` of the number itself.
abbrev pub if_positive : Text → Text → Format → ℤ → Fields
if_positive key label format n =
    if is_positive n then field key label (number_value n) format ∷ [] else []

abbrev pub if_text : Text → Option Text → Fields
if_text key none = []
if_text key (some t) = field key key (text_value t) raw_format ∷ []

abbrev pub colored : Color → Fields → Fields
colored color [] = []
colored color (f ∷ fs) = record f { color = color } ∷ colored color fs

-- The keys that the default fields leave out.
abbrev pub skipped_keys : List Text
skipped_keys =
    codes "symbol"
    ∷ codes "Position"
    ∷ codes "ProfitStats"
    ∷ codes "TradeStats"
    ∷ codes "GridProfitStats"
    ∷ codes "ProfitStatsTracker"
    ∷ codes "strategyInstanceID"
    ∷ codes "StrategyController"
    ∷ []

pub record StrategyDetails : Type 0 where
  pub strategy : Text
  pub category : StrategyCategory
  pub fields : Fields

module _ (parse_float : Text → Option ℤ) (to_fixed : ℕ → ℤ → Text)
    (to_locale number_text : ℤ → Text) where
  -- `numVal(inner.key)`
  abbrev pub num_at : Text → Entries → ℤ
  num_at key inner = num_val parse_float (value_at key inner)

  abbrev pub text_at : Text → Entries → Option Text
  text_at key inner = text_of (value_at key inner)

  -- `${leverage}x`
  abbrev pub leverage_field : ℤ → Fields
  leverage_field n =
      if is_positive n
      then field (codes "leverage") (codes "leverage") (text_value (number_text n ++ codes "x"))
          raw_format
        ∷ []
      else []

  unfoldable pub extract_grid_fields : Entries → Fields
  extract_grid_fields inner =
      let upper = num_at (codes "upperPrice") inner in
      let lower = num_at (codes "lowerPrice") inner in
      (if is_positive upper || is_positive lower
        then field (codes "range") (codes "range")
            (text_value (to_locale lower ++ codes "–" ++ to_locale upper)) raw_format
          ∷ []
        else [])
      ++ if_positive (codes "gridNumber") (codes "grids") number_format
          (num_at (codes "gridNumber") inner)
      ++ if_positive (codes "quantity") (codes "qtyPerGrid") quantity_format
          (num_at (codes "quantity") inner)
      ++ colored down (
          if_positive (codes "stopLoss") (codes "stopLoss") price_format
            (num_at (codes "stopLossPrice") inner))
      ++ colored up (
          if_positive (codes "takeProfit") (codes "takeProfit") price_format
            (num_at (codes "takeProfitPrice") inner))

  abbrev pub quantity_field : Entries → Fields
  quantity_field inner =
      if_positive (codes "quantity") (codes "quantity") quantity_format
        (num_at (codes "quantity") inner)

  unfoldable pub extract_maker_fields : Entries → Fields
  extract_maker_fields inner =
      if_positive (codes "spread") (codes "spread") number_format (num_at (codes "spread") inner)
      ++ quantity_field inner
      ++ if_text (codes "interval") (text_at (codes "interval") inner)

  -- `budget || budgetQuota`
  abbrev pub or_else : ℤ → ℤ → ℤ
  or_else a b = if is_zero a then b else a

  unfoldable pub extract_dca_fields : Entries → Fields
  extract_dca_fields inner =
      if_positive (codes "budget") (codes "budget") price_format
        (or_else (num_at (codes "budget") inner) (num_at (codes "budgetQuota") inner))
      ++ if_text (codes "interval") (text_at (codes "interval") inner)
      ++ quantity_field inner
      ++ leverage_field (num_at (codes "leverage") inner)

  unfoldable pub extract_trend_fields : Entries → Text → Fields
  extract_trend_fields inner strategy =
      if_text (codes "interval") (text_at (codes "interval") inner)
      ++ quantity_field inner
      ++ leverage_field (num_at (codes "leverage") inner)
      ++ (if same_text strategy (codes "supertrend") || same_text strategy (codes "swing")
          then if_text (codes "maInterval") (text_at (codes "movingAverageInterval") inner)
          else [])
      ++ (if same_text strategy (codes "emacross")
          then if_positive (codes "fastLength") (codes "fastLength") number_format
              (num_at (codes "fastLength") inner)
            ++ if_positive (codes "slowLength") (codes "slowLength") number_format
                (num_at (codes "slowLength") inner)
          else [])

  -- The number of a value that is neither null nor an object, if it is finite.
  abbrev pub shown_number : Value → Option ℤ
  shown_number (number n) = some n
  shown_number (text s) = parse_float s
  shown_number (boolean b) = parse_float (if b then codes "true" else codes "false")
  shown_number _ = none

  abbrev pub default_field : Text → Option ℤ → Fields
  default_field key none = []
  default_field key (some n) =
      if is_zero n then [] else field key key (number_value n) number_format ∷ []

  unfoldable pub extract_default_fields : Entries → Fields
  extract_default_fields empty = []
  extract_default_fields (entry key value inner) =
      let rest = extract_default_fields inner in
      if is_in skipped_keys key then rest else default_field key (shown_number value) ++ rest

  -- The `switch` over the category.
  unfoldable pub category_fields : StrategyCategory → Entries → Text → Fields
  category_fields grid inner strategy = extract_grid_fields inner
  category_fields maker inner strategy = extract_maker_fields inner
  category_fields dca inner strategy = extract_dca_fields inner
  category_fields trend inner strategy = extract_trend_fields inner strategy
  category_fields other inner strategy = extract_default_fields inner

  abbrev pub absolute : ℤ → ℤ
  absolute n = pos (pos_part n + neg_part n)

  unfoldable pub position_fields : Option Entries → Fields
  position_fields none = []
  position_fields (some position) =
      let base = num_at (codes "base") position in
      let quote = num_at (codes "quote") position in
      let avg_cost = num_at (codes "averageCost") position in
      if not (is_zero base) || not (is_zero avg_cost)
      then field (codes "pos.base") (codes "holding") (text_value (to_fixed 6 (absolute base)))
          quantity_format
        ∷ field (codes "pos.avgCost") (codes "entryPrice") (number_value avg_cost) price_format
        ∷ (if is_zero quote
            then []
            else field (codes "pos.quote") (codes "invested")
                (text_value (to_fixed 2 (absolute quote))) raw_format
              ∷ [])
      else []

  unfoldable pub grid_profit_fields : Option Entries → Fields
  grid_profit_fields none = []
  grid_profit_fields (some stats) =
      let profit = num_at (codes "profit") stats in
      (if is_zero profit
        then []
        else colored (if is_negative profit then down else up) (
            field (codes "gridProfit") (codes "gridProfit") (number_value profit) number_format
            ∷ []))
      ++ if_positive (codes "totalArbitrage") (codes "totalArbitrage") number_format
          (num_at (codes "totalArbitrage") stats)

  unfoldable pub profit_fields : Option Entries → Fields
  profit_fields none = []
  profit_fields (some stats) =
      if_positive (codes "numTrades") (codes "numTrades") number_format
        (num_at (codes "numTrades") stats)

  abbrev pub object_at : Text → Entries → Option Entries
  object_at key inner = object_of (value_at key inner)

  -- The details, for the name of the strategy and its inner state, if there are both.
  unfoldable pub details_of : Option Text → Option Entries → Option StrategyDetails
  details_of (some strategy) (some inner) =
      let category = get_strategy_category strategy in
      some (record {
        strategy = strategy;
        category = category;
        fields =
            category_fields category inner strategy
            ++ position_fields (object_at (codes "Position") inner)
            ++ grid_profit_fields (object_at (codes "GridProfitStats") inner)
            ++ profit_fields (object_at (codes "ProfitStats") inner);
      })
  details_of _ _ = none

  unfoldable pub extract_strategy_details : Entries → Option StrategyDetails
  extract_strategy_details state =
      details_of (text_of (value_at (codes "strategy") state)) (get_inner_state state)
