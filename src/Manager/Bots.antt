-- ===== src/Manager/Bots.antt =====
-- The requests of web/src/lib/bbgo/manager.ts that the manager passes on to a user's bbgo container. Each
-- is its path and its parameters; `request_of` puts them together.
use bbgo_sass.Prelude.{ℕ, [], ◌∷◌, ◌++◌, Option, none, some}
use bbgo_sass.Prelude.Text.{codes}
use bbgo_sass.Prelude.Uri.{Params, set_param, set_if, query_text, encode_uri_component}
use bbgo_sass.Manager.{Text, Mode, mode_text, mode_params, session_params, Request, get_request}
use bbgo_sass.Manager.Users.{users, set_number}

-- A path and the parameters of its query.
pub record Query : Type 0 where
  pub base : Text
  pub params : Params

-- `request(base?params)`
abbrev pub request_of : Query → Request
request_of q = get_request (q.base ++ b'?' ∷ query_text q.params)

abbrev pub query : Text → Text → Params → Query
query user_id path params = record { base = users user_id ++ path; params = params }

unfoldable pub fetch_bot_ping : Text → Option Mode → Option Text → Query
fetch_bot_ping user_id mode instance_id =
    query user_id (codes "/bbgo/ping") (session_params mode instance_id)

unfoldable pub fetch_bot_sessions : Text → Option Mode → Option Text → Query
fetch_bot_sessions user_id mode instance_id =
    query user_id (codes "/bbgo/sessions") (session_params mode instance_id)

abbrev pub session_path : Text → Text → Text
session_path session part = codes "/bbgo/session/" ++ encode_uri_component session ++ part

unfoldable pub fetch_bot_session_trades :
    (user_id session : Text) → Option Mode → Option Text → Query
fetch_bot_session_trades user_id session mode instance_id =
    query user_id (session_path session (codes "/trades")) (session_params mode instance_id)

unfoldable pub fetch_bot_open_orders : (user_id session : Text) → Option Mode → Option Text → Query
fetch_bot_open_orders user_id session mode instance_id =
    query user_id (session_path session (codes "/open-orders")) (session_params mode instance_id)

unfoldable pub fetch_bot_session_balances :
    (user_id session : Text) → Option Mode → Option Text → Query
fetch_bot_session_balances user_id session mode instance_id =
    query user_id (session_path session (codes "/balances")) (session_params mode instance_id)

unfoldable pub fetch_bot_assets : Text → Option Mode → Option Text → Query
fetch_bot_assets user_id mode instance_id =
    query user_id (codes "/bbgo/assets") (session_params mode instance_id)

unfoldable pub fetch_bot_strategies : Text → Option Mode → Option Text → Query
fetch_bot_strategies user_id mode instance_id =
    query user_id (codes "/bbgo/strategies") (session_params mode instance_id)

-- The `opts` of `fetchBotTrades`; one that is missing has no fields.
pub record TradeOptions : Type 0 where
  pub since : Option Text
  pub until : Option Text
  pub limit : Option ℕ
  pub ordering : Option Text
  pub strategy : Option Text

-- `exchange`, `symbol` and `gid`, which three of the functions set after the mode.
abbrev pub filter_params :
    (number_text : ℕ → Text) (exchange symbol : Option Text) → Option ℕ → Option Mode → Params
filter_params number_text exchange symbol gid mode =
    set_number number_text (codes "gid") gid
      (set_if (codes "symbol") symbol (set_if (codes "exchange") exchange (mode_params mode)))

unfoldable pub fetch_bot_trades :
    (number_text : ℕ → Text) (user_id : Text) (exchange symbol : Option Text)
    → Option ℕ
    → Option Mode
    → TradeOptions
    → Query
fetch_bot_trades number_text user_id exchange symbol gid mode opts =
    query user_id (codes "/bbgo/trades") (
      set_if (codes "strategy") opts.strategy (
        set_if (codes "ordering") opts.ordering (
          set_number number_text (codes "limit") opts.limit (
            set_if (codes "until") opts.until (
              set_if (codes "since") opts.since
                (filter_params number_text exchange symbol gid mode))))))

-- The `opts` of `fetchBotTradeMarkers`.
pub record MarkerOptions : Type 0 where
  pub exchange : Option Text
  pub since : Option Text
  pub until : Option Text
  pub limit : Option ℕ
  pub mode : Option Mode
  pub strategy : Option Text

-- `if (mode) params.set('mode', mode)`
abbrev pub set_mode : Option Mode → Params → Params
set_mode none ps = ps
set_mode (some m) ps = set_param (codes "mode") (mode_text m) ps

unfoldable pub fetch_bot_trade_markers :
    (number_text : ℕ → Text) (user_id symbol : Text) → MarkerOptions → Query
fetch_bot_trade_markers number_text user_id symbol opts =
    query user_id (codes "/bbgo/trades/markers") (
      set_if (codes "strategy") opts.strategy (
        set_number number_text (codes "limit") opts.limit (
          set_if (codes "until") opts.until (
            set_if (codes "since") opts.since (
              set_if (codes "exchange") opts.exchange
                (set_mode opts.mode (set_param (codes "symbol") symbol [])))))))

unfoldable pub fetch_bot_closed_orders :
    (number_text : ℕ → Text) (user_id : Text) (exchange symbol : Option Text)
    → Option ℕ
    → Option Mode
    → Query
fetch_bot_closed_orders number_text user_id exchange symbol gid mode =
    query user_id (codes "/bbgo/orders/closed") (filter_params number_text exchange symbol gid mode)

unfoldable pub fetch_bot_trading_volume :
    Text → (period segment : Option Text) → Option Mode → Query
fetch_bot_trading_volume user_id period segment mode =
    query user_id (codes "/bbgo/trading-volume")
      (set_if (codes "segment") segment (set_if (codes "period") period (mode_params mode)))

unfoldable pub fetch_container_logs : Text → Option Text → Option Mode → Query
fetch_container_logs user_id tail mode =
    query user_id (codes "/logs") (set_if (codes "tail") tail (mode_params mode))

unfoldable pub fetch_bot_pnl :
    Text → (exchange symbol : Option Text) → Option Mode → (strategy : Option Text) → Query
fetch_bot_pnl user_id exchange symbol mode strategy = query user_id (codes "/bbgo/pnl") (
    set_if (codes "strategy") strategy
      (set_if (codes "symbol") symbol (set_if (codes "exchange") exchange (mode_params mode))))

unfoldable pub fetch_futures_positions : Text → Option Mode → Query
fetch_futures_positions user_id mode =
    query user_id (codes "/bbgo/futures/positions") (mode_params mode)

unfoldable pub fetch_margin_history : Text → Option Mode → Query
fetch_margin_history user_id mode = query user_id (codes "/bbgo/margin/history") (mode_params mode)
