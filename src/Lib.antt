-- ===== src/Lib.antt =====
-- The trading front end of the repository, the TypeScript under web/src, as a library of definitions and
-- theorems. The program shows and edits trading bots: it reads trades, orders and positions from a
-- Supabase database and from a manager service, computes profit and position views from them, and
-- guards its pages and its proxy by the user's session.
--
-- Parts, and how they interact:
-- - Fifo (web/src/lib/bbgo/fifo-pnl.ts): the queue of bought lots, `FifoQueue`. `push` and `match` are the
--   methods; `match_loop` is the `while` loop of `match`, on as much fuel as the queue has entries,
--   which is enough, since each round but the last moves `head` on. Fifo/Lots, Fifo/Units and
--   Fifo/History hold the open lots, the order of single units, and sequences of calls. Fifo/Symbols is
--   `extractBaseCurrency` of the same file.
-- - PnlCurve (web/src/lib/bbgo/pnl-curve.ts): `computePnlCurve` sorts the trades, books each one on a queue
--   of Fifo, and keeps one point for each second. PnlCurve/Ledger is about the money, PnlCurve/Points
--   about the points.
-- - PositionTags (web/src/lib/bbgo/position-tags.ts): `computePositionTags` and
--   `computeFuturesPositionTags`, which share one loop here (`tag_loop`), as their bodies differ only in
--   the entry that they store. PositionTags/Order is about the order of the trades, PositionTags/Net
--   about the entries, PositionTags/Spot and PositionTags/Futures about the tags.
-- - Pagination (web/src/hooks/usePagination.ts): the hook's state, its handlers, and the values that it
--   returns.
-- - Session (web/src/lib/supabase/middleware-auth.ts, web/src/proxy.ts, web/src/lib/routes.ts,
--   web/src/i18n/routing.ts): `proxy` and `updateSession`, with the cookies of the replies. What the
--   authentication service says is an argument, and so are the cookies on the reply of the locale routing,
--   which may be a redirection of its own and is otherwise handed on unchanged. Session/Guard is about
--   who gets which page, Session/Locales about locales in paths, Session/Cookies about the cookies.
-- - Reports (web/src/lib/bbgo/supabase-queries.ts): what the hooks compute from the rows that they have
--   read. Reports/Profits is `aggregateProfits`: its figures (Account), its days and its curve (Days).
--   Reports/Trades is `computePnLFromTrades`, which groups the trades by symbol and books each group on
--   a queue of Fifo: the book of a symbol (Books), the accounts of the report (Account), and which trades
--   make up a row (Groups). The `localeCompare` of times is an argument, `collate`. Reports/Positions is
--   about positions: `useSupabaseLatestPositions`, `useUnrealizedPnL`, the loop of
--   `useSupabaseFuturesPositions` and `computeFuturesRealtime`: the rows that are kept (Latest), the profits
--   (Realtime). Reports/Paged has the paged hooks, with `tableName` of
--   web/src/lib/bbgo/supabase-adapters.ts; the database is an argument, and so is the adapter of a row,
--   which gets the row and its index (Pages). Reports/Queries has the hooks that read whole lists,
--   Reports/Balances `useSupabaseBalances` and `useSupabaseTradingVolume` (Sums).
-- - Adapters (web/src/lib/bbgo/supabase-adapters.ts): the adapters of the rows, and their keys (Keys).
-- - Markers (web/src/lib/bbgo/trade-markers.ts): the markers of a chart over the adapted trades, with the tags
--   of PositionTags where the server gives none (Sorted).
-- - Realtime (web/src/lib/supabase/use-realtime.ts): the subscription of `useRealtimeTable`, its timer and
--   its cleanup, as a step relation with a clock in milliseconds. Realtime/Debounce is about the bursts.
-- - Manager (web/src/lib/bbgo/manager.ts): what `request` makes of a response (Replies), and the requests of
--   the functions: Users has those on strategies, users, backtests, credentials, notifications and markets,
--   Bots those that reach a user's container, as a path and the parameters of its query. Paths is about
--   the mode that they carry, Segments about ids in paths. Replies also follows the browser of an expired
--   session through the guard of Session.
-- - Routes (web/src/app/api/manager/[...path]/route.ts, web/src/app/api/ws-url/route.ts): the handlers of the
--   server, `handle_request` and `get_ws_url`; Routes/Actions has the forms of web/src/actions/auth.ts and
--   web/src/app/[locale]/auth/confirm/route.ts. Routes/Client is the client of Manager over this proxy.
-- - Strategies (web/src/lib/bbgo/strategies.ts): schemas, defaults and configurations; Nesting is about the
--   nested configuration, Typing about the types of its values. Strategies/Create is the form of
--   web/src/components/user/CreateStrategyDialog.tsx, with the check of LeverageEditor.tsx beside it: what
--   a submission sends (Submission) and the mode of the form (Live).
-- - StrategyState (web/src/lib/bbgo/strategy-state.ts): what is shown of the state of a running strategy: the
--   lines of a grid (Grid) and the fields of the details (Details).
-- - Candles (web/src/hooks/useKlineData.ts): the cache of candles of a chart and the data of its query, with
--   the queries, the loads and the messages as steps (Sync), and lists of candles by time (Sorted).
-- - Socket (web/src/lib/bbgo/useWebSocket.ts): the connection for market data as a machine of events;
--   Reconnect is about connecting again.
-- - Backtest (web/src/components/backtest/BacktestEquityChart.tsx): `snapToCandle` (Snap), whose loop has as
--   much fuel as there are candles, which is enough since each round shortens the range, and the reading of
--   delimited records (Records), of orders and of the equity curve (Equity). Backtest/Panel has the form of
--   web/src/components/user/BacktestPanel.tsx.
-- - Numbers, Trade: exact decimals with the roundings of JavaScript, and the sides of a trade.
-- - Prelude: shared names, lists, integers, stable sorting, texts, dictionaries, and the encodings of URLs
--   (Uri).
--
-- Numbers: a number of the program is a whole number of a unit that each part names (1e-12 for prices
-- and quantities, 1e-24 for their products, cents for the curve), so sums, products and comparisons are
-- exact. Rounding to 53 bits, NaN and infinities are not modelled. Where the program parses a text by
-- `parseFloat` or a date by `Date`, the model has the value. Prices and quantities are not negative;
-- fees and profits are integers.
--
-- Not modelled: React rendering and most of the chart and form components, network and database calls,
-- the manager service (Go), generated types, and the database migrations.
pub mod Prelude
pub mod Numbers
pub mod Trade
pub mod Adapters
pub mod Backtest
pub mod Candles
pub mod Fifo
pub mod Manager
pub mod Markers
pub mod Pagination
pub mod PnlCurve
pub mod PositionTags
pub mod Realtime
pub mod Reports
pub mod Routes
pub mod Session
pub mod Socket
pub mod Strategies
pub mod StrategyState
