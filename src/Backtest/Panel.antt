-- ===== src/Backtest/Panel.antt =====
-- The form of web/src/components/user/BacktestPanel.tsx: the choice of a strategy and a symbol, and what a
-- submission sends and does to the state. The times are texts, and the price of the ticker is in units of
-- 1e-12, not negative and calculated with exactly. The initial times and the download are left out.
use bbgo_sass.Prelude.{
  ℕ, ◌+◌, ◌*◌, ◌/◌, ◌≡◌, refl, Bool, true, false, ◌&&◌, ◌||◌, List, [], ◌∷◌, Option, none, some,
  if◌then◌else◌, ltb, length, arith, Bool-cases, inl, inr, ap, ◌∙◌, sym, ◌⊎◌,
}
use bbgo_sass.Prelude.Int.{ℤ, pos}
use bbgo_sass.Prelude.Text.{codes, same_text, eq_of_same_text}
use bbgo_sass.Fifo.Symbols.{ends_with}
use bbgo_sass.Strategies.{
  Text, number, text, Entries, put, FieldDef, StrategySchema, get_strategy_schema,
  get_strategy_defaults, ensure_types,
}

-- `QUOTE_CURRENCIES`
abbrev pub quote_currencies : List Text
quote_currencies =
    codes "USDT"
    ∷ codes "BUSD"
    ∷ codes "USDC"
    ∷ codes "TUSD"
    ∷ codes "FDUSD"
    ∷ codes "BTC"
    ∷ codes "ETH"
    ∷ codes "BNB"
    ∷ []

unfoldable pub has_quote : Text → List Text → Bool
has_quote symbol [] = false
has_quote symbol (q ∷ qs) =
    (ends_with symbol q && ltb (length q) (length symbol)) || has_quote symbol qs

unfoldable pub is_valid_trading_pair : Text → Bool
is_valid_trading_pair symbol = has_quote symbol quote_currencies

unfoldable pub filter_symbols : List Text → List Text
filter_symbols [] = []
filter_symbols (s ∷ symbols) =
    let rest = filter_symbols symbols in if is_valid_trading_pair s then s ∷ rest else rest

-- `filteredSymbols.includes(rawSymbol)`
unfoldable pub lists_symbol : List Text → Text → Bool
lists_symbol [] raw = false
lists_symbol (s ∷ symbols) raw = same_text s raw || lists_symbol symbols raw

-- `filteredSymbols[0] ?? ''`
unfoldable pub first_symbol : List Text → Text
first_symbol [] = []
first_symbol (s ∷ symbols) = s

-- `symbol`, for the symbols of the market, none while they are loaded.
unfoldable pub chosen_symbol : Option (List Text) → Text → Text
chosen_symbol none raw = []
chosen_symbol (some symbols) raw =
    let filtered = filter_symbols symbols in
    if lists_symbol filtered raw then raw else first_symbol filtered

pub data PanelMode : Type 0 where
  idle active : PanelMode

pub record Panel : Type 0 where
  pub strategy : Text
  pub exchange : Text
  pub raw_symbol : Text
  pub config : Entries
  pub start_time : Text
  pub end_time : Text
  pub active_job_id : Option Text
  pub submit_error : Option Text
  pub mode : PanelMode

unfoldable pub initial_panel : (start_time end_time : Text) → Panel
initial_panel start_time end_time = record {
  strategy = codes "grid2";
  exchange = codes "binance";
  raw_symbol = codes "BTCUSDT";
  config = get_strategy_defaults (codes "grid2") [];
  start_time = start_time;
  end_time = end_time;
  active_job_id = none;
  submit_error = none;
  mode = idle;
}

unfoldable pub handle_symbol_change : Text → Panel → Panel
handle_symbol_change symbol p = record {
  strategy = p.strategy;
  exchange = p.exchange;
  raw_symbol = symbol;
  config = put (codes "symbol") (text symbol) p.config;
  start_time = p.start_time;
  end_time = p.end_time;
  active_job_id = p.active_job_id;
  submit_error = p.submit_error;
  mode = p.mode;
}

unfoldable pub change_strategy : Text → List StrategySchema → Panel → Panel
change_strategy strategy registry p = record {
  strategy = strategy;
  exchange = p.exchange;
  raw_symbol = p.raw_symbol;
  config = get_strategy_defaults strategy registry;
  start_time = p.start_time;
  end_time = p.end_time;
  active_job_id = p.active_job_id;
  submit_error = p.submit_error;
  mode = p.mode;
}

-- `schema?.fields.some(...)`
unfoldable pub has_bounds : List FieldDef → Bool
has_bounds [] = false
has_bounds (f ∷ fields) =
    (same_text f.key (codes "upperPrice") || same_text f.key (codes "lowerPrice"))
    || has_bounds fields

unfoldable pub has_grid_bounds : Option StrategySchema → Bool
has_grid_bounds none = false
has_grid_bounds (some schema) = has_bounds schema.fields

-- `Math.round((close * f / 10) * 100) / 100`, for a price in units of 1e-12.
unfoldable pub bound_of : (tenths close : ℕ) → ℤ
bound_of tenths close =
    let cent : ℕ = 10000000000 in
    pos (((2 * (close * tenths) + 10 * cent) / (2 * (10 * cent))) * cent)

unfoldable pub with_bounds : ℕ → Entries → Entries
with_bounds close config =
    put (codes "lowerPrice") (number (bound_of 8 close))
      (put (codes "upperPrice") (number (bound_of 12 close)) config)

-- `effectiveConfig`, for the ticker's `close`, where there is one.
unfoldable pub effective_config : Text → Option ℕ → Option StrategySchema → Entries → Entries
effective_config symbol none schema config = config
effective_config symbol (some close) schema config =
    if (ltb 0 (length symbol) && ltb 0 close) && has_grid_bounds schema
    then with_bounds close config
    else config

pub record BacktestRequest : Type 0 where
  pub strategy : Text
  pub config : Entries
  pub exchange : Text
  pub symbol : Text
  pub start_time : Text
  pub end_time : Text

pub data SubmitAnswer : Type 0 where
  accepted rejected : Text → SubmitAnswer

unfoldable pub backtest_request :
    (Text → Option ℤ)
    → List StrategySchema
    → (symbols : Option (List Text)) → (close : Option ℕ) → Panel
    → BacktestRequest
backtest_request parse registry symbols close p =
    let schema = get_strategy_schema p.strategy registry in
    let symbol = chosen_symbol symbols p.raw_symbol in
    let typed = ensure_types parse schema (effective_config symbol close schema p.config) in
    record {
      strategy = p.strategy;
      config = put (codes "symbol") (text symbol) (put (codes "exchange") (text p.exchange) typed);
      exchange = p.exchange;
      symbol = symbol;
      start_time = p.start_time;
      end_time = p.end_time;
    }

-- The state with a job, an error and a mode.
unfoldable pub at_job : Option Text → Option Text → PanelMode → Panel → Panel
at_job job error mode p = record {
  strategy = p.strategy;
  exchange = p.exchange;
  raw_symbol = p.raw_symbol;
  config = p.config;
  start_time = p.start_time;
  end_time = p.end_time;
  active_job_id = job;
  submit_error = error;
  mode = mode;
}

-- The state after `handleSubmit`, for the answer to its request.
unfoldable pub after_submit : SubmitAnswer → Panel → Panel
after_submit (accepted job) p = at_job (some job) none active p
after_submit (rejected message) p = at_job p.active_job_id (some message) p.mode p

unfoldable pub handle_rerun : Panel → Panel
handle_rerun p = at_job none none idle p

-- A valid pair is longer than some quote currency, so it is not empty.
has_quote-positive :
    (symbol : Text) (qs : List Text) → has_quote symbol qs ≡ true → ltb 0 (length symbol) ≡ true
unfolding has_quote
has_quote-positive symbol [] h = absurd (ground arith)
has_quote-positive symbol (q ∷ qs) h = ground (arith, h, has_quote-positive symbol qs)

first_symbol-filter_symbols :
    (symbols : List Text)
    → (first_symbol (filter_symbols symbols) ≡ [])
      ⊎ (is_valid_trading_pair (first_symbol (filter_symbols symbols)) ≡ true)
unfolding filter_symbols first_symbol
first_symbol-filter_symbols [] = inl refl
first_symbol-filter_symbols (s ∷ symbols) = elim (Bool-cases (is_valid_trading_pair s)) [
  | inl valid ↦ rw valid (inr valid)
  | inr other ↦ rw other (first_symbol-filter_symbols symbols)
]

lists_symbol-filter_symbols :
    (symbols : List Text) (raw : Text)
    → lists_symbol (filter_symbols symbols) raw ≡ true
    → is_valid_trading_pair raw ≡ true
unfolding filter_symbols lists_symbol
lists_symbol-filter_symbols [] raw h = absurd (ground arith)
lists_symbol-filter_symbols (s ∷ symbols) raw h = elim (Bool-cases (is_valid_trading_pair s)) [
  | inr other ↦ lists_symbol-filter_symbols symbols raw (
      ap (λ c. lists_symbol (if c then s ∷ filter_symbols symbols else filter_symbols symbols) raw)
        (sym other)
      ∙ h)
  | inl valid ↦ elim (Bool-cases (same_text s raw)) [
    | inl same ↦ ap is_valid_trading_pair (sym (eq_of_same_text s raw same)) ∙ valid
    | inr differs ↦ lists_symbol-filter_symbols symbols raw (ground (arith, h, valid, differs))
  ]
]

-- The symbol that a submission names is empty or a valid trading pair, whatever symbol was chosen before.
pub chosen_symbol_lem :
    (symbols : Option (List Text)) (raw : Text)
    → (chosen_symbol symbols raw ≡ []) ⊎ (is_valid_trading_pair (chosen_symbol symbols raw) ≡ true)
unfolding chosen_symbol
chosen_symbol_lem none raw = inl refl
chosen_symbol_lem (some symbols) raw =
    elim (Bool-cases (lists_symbol (filter_symbols symbols) raw)) [
      | inl listed ↦ rw listed (inr (lists_symbol-filter_symbols symbols raw listed))
      | inr other ↦ rw other (first_symbol-filter_symbols symbols)
    ]
