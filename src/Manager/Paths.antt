-- ===== src/Manager/Paths.antt =====
-- What the requests of web/src/lib/bbgo/manager.ts carry: the mode, and an instance id in the path.
use bbgo_sass.Prelude.{
  ℕ, ◌≡◌, refl, false, [], ◌∷◌, Option, none, some, ◌∙◌, ◌==◌, Bool-cases, inl, inr,
}
use bbgo_sass.Prelude.Text.{codes, same_text, same_text_refl, eq_of_same_text}
use bbgo_sass.Prelude.Dict.{find_entry, find_entry-set_entry_ne, find_entry-set_entry_self}
use bbgo_sass.Prelude.Uri.{Params, set_if}
use bbgo_sass.Manager.{Text, Mode, mode_text, mode_or_live, mode_params, session_params}
use bbgo_sass.Manager.Users.{set_number}
use bbgo_sass.Manager.Bots.{
  Query, TradeOptions, filter_params, fetch_bot_ping, fetch_bot_sessions, fetch_bot_session_trades,
  fetch_bot_open_orders, fetch_bot_session_balances, fetch_bot_assets, fetch_bot_strategies,
  fetch_bot_trades, fetch_bot_closed_orders, fetch_bot_trading_volume, fetch_container_logs,
  fetch_bot_pnl, fetch_futures_positions, fetch_margin_history,
}

-- The calls that read of a bot with a mode that is `live` by default, with their other arguments. The bot
-- list and the trade markers have no default, and a start or a stop of a user writes the mode to its path.
pub data Call : Type 0 where
  ping sessions assets strategies : (user_id : Text) → Option Text → Call
  session_trades open_orders balances : (user_id session : Text) → Option Text → Call
  trades : (user_id : Text) (exchange symbol : Option Text) → Option ℕ → TradeOptions → Call
  closed_orders : (user_id : Text) (exchange symbol : Option Text) → Option ℕ → Call
  volume : (user_id : Text) (period segment : Option Text) → Call
  logs : (user_id : Text) → Option Text → Call
  pnl : (user_id : Text) (exchange symbol strategy : Option Text) → Call
  positions margin : (user_id : Text) → Call

module _ (number_text : ℕ → Text) (mode : Option Mode) where
  abbrev pub query_of : Call → Query
  query_of (ping u i) = fetch_bot_ping u mode i
  query_of (sessions u i) = fetch_bot_sessions u mode i
  query_of (assets u i) = fetch_bot_assets u mode i
  query_of (strategies u i) = fetch_bot_strategies u mode i
  query_of (session_trades u s i) = fetch_bot_session_trades u s mode i
  query_of (open_orders u s i) = fetch_bot_open_orders u s mode i
  query_of (balances u s i) = fetch_bot_session_balances u s mode i
  query_of (trades u ex sy gid opts) = fetch_bot_trades number_text u ex sy gid mode opts
  query_of (closed_orders u ex sy gid) = fetch_bot_closed_orders number_text u ex sy gid mode
  query_of (volume u p s) = fetch_bot_trading_volume u p s mode
  query_of (logs u tail) = fetch_container_logs u tail mode
  query_of (pnl u ex sy st) = fetch_bot_pnl u ex sy mode st
  query_of (positions u) = fetch_futures_positions u mode
  query_of (margin u) = fetch_margin_history u mode

  abbrev pub HasMode : Params → Type 0
  HasMode ps = find_entry same_text (codes "mode") ps ≡ some (mode_text (mode_or_live mode))

  -- Setting another parameter, if there is something to set, keeps the mode.
  HasMode-set_if :
      (k : Text) (v : Option Text) (ps : Params)
      → same_text k (codes "mode") ≡ false
      → HasMode ps
      → HasMode (set_if k v ps)
  HasMode-set_if k none ps h m = m
  HasMode-set_if k (some []) ps h m = m
  HasMode-set_if k (some (c ∷ v)) ps h m =
      find_entry-set_entry_ne same_text same_text_refl eq_of_same_text k (codes "mode") (c ∷ v) ps h
      ∙ m

  HasMode-set_number :
      (k : Text) (v : Option ℕ) (ps : Params)
      → same_text k (codes "mode") ≡ false
      → HasMode ps
      → HasMode (set_number number_text k v ps)
  HasMode-set_number k none ps h m = m
  HasMode-set_number k (some n) ps h m = elim (Bool-cases (n == 0)) [
    | inl z ↦ rw z m
    | inr p ↦ rw p (
        find_entry-set_entry_ne same_text same_text_refl eq_of_same_text k (codes "mode")
          (number_text n) ps h
        ∙ m)
  ]

  mode_params-HasMode : HasMode (mode_params mode)
  unfolding mode_params
  mode_params-HasMode =
      find_entry-set_entry_self same_text same_text_refl eq_of_same_text (codes "mode")
        (mode_text (mode_or_live mode)) []

  session_params-HasMode : (i : Option Text) → HasMode (session_params mode i)
  unfolding session_params same_text
  session_params-HasMode i =
      HasMode-set_if (codes "instanceID") i (mode_params mode) refl mode_params-HasMode

  filter_params-HasMode :
      (ex sy : Option Text) (gid : Option ℕ) → HasMode (filter_params number_text ex sy gid mode)
  unfolding same_text
  filter_params-HasMode ex sy gid =
      HasMode-set_number _ gid _ refl
        (HasMode-set_if _ sy _ refl (HasMode-set_if _ ex _ refl mode_params-HasMode))

  -- Each of the 14 calls of `Call`, which read of a bot and have `live` as their default mode, sends a mode with
  -- its query: the mode that it is given, or `live` without one, whatever its other parameters are.
  pub query_of-HasMode : (call : Call) → HasMode (query_of call).params
  unfolding fetch_bot_ping fetch_bot_sessions fetch_bot_session_trades fetch_bot_open_orders
      fetch_bot_session_balances fetch_bot_assets fetch_bot_strategies fetch_bot_trades
      fetch_bot_closed_orders fetch_bot_trading_volume fetch_container_logs fetch_bot_pnl
      fetch_futures_positions fetch_margin_history same_text
  query_of-HasMode (ping u i) = session_params-HasMode i
  query_of-HasMode (sessions u i) = session_params-HasMode i
  query_of-HasMode (assets u i) = session_params-HasMode i
  query_of-HasMode (strategies u i) = session_params-HasMode i
  query_of-HasMode (session_trades u s i) = session_params-HasMode i
  query_of-HasMode (open_orders u s i) = session_params-HasMode i
  query_of-HasMode (balances u s i) = session_params-HasMode i
  query_of-HasMode (trades u ex sy gid opts) = HasMode-set_if _ opts.strategy _ refl (
      HasMode-set_if _ opts.ordering _ refl (
        HasMode-set_number _ opts.limit _ refl (
          HasMode-set_if _ opts.until _ refl
            (HasMode-set_if _ opts.since _ refl (filter_params-HasMode ex sy gid)))))
  query_of-HasMode (closed_orders u ex sy gid) = filter_params-HasMode ex sy gid
  query_of-HasMode (volume u p s) =
      HasMode-set_if _ s _ refl (HasMode-set_if _ p _ refl mode_params-HasMode)
  query_of-HasMode (logs u tail) = HasMode-set_if _ tail _ refl mode_params-HasMode
  query_of-HasMode (pnl u ex sy st) =
      HasMode-set_if _ st _ refl
        (HasMode-set_if _ sy _ refl (HasMode-set_if _ ex _ refl mode_params-HasMode))
  query_of-HasMode (positions u) = mode_params-HasMode
  query_of-HasMode (margin u) = mode_params-HasMode
