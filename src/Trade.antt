-- ===== src/Trade.antt =====
-- The two sides of a trade, `'BUY' | 'SELL'` in web/src/lib/bbgo.
pub data Side : Type 0 where
  buy sell : Side
