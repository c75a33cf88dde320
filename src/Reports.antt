-- ===== src/Reports.antt =====
-- web/src/lib/bbgo/supabase-queries.ts: what the hooks compute from the rows that they have read.
pub mod Profits
pub mod Trades
pub mod Positions
pub mod Paged
pub mod Queries
pub mod Balances
