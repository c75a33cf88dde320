-- ===== src/Reports/Queries.antt =====
-- The hooks of web/src/lib/bbgo/supabase-queries.ts that read whole lists: `useSupabaseTrades`,
-- `useSupabaseClosedOrders`, `useSupabaseOpenOrders`, `useSupabasePositions`, `useSupabaseProfits` and
-- `useSupabaseMarginHistory`. What the database answers to a query is an argument.
use bbgo_sass.Prelude.{ℕ, Bool, false, List, [], ◌∷◌, ◌++◌, Option, none, some}
use bbgo_sass.Prelude.Text.{codes}
use bbgo_sass.Reports.Paged.{Text, Mode, table_name, Filter, eq, neq, gte, eq_if, adapt_from}

infixl 5 ◌>>=◌
-- The first error ends the body.
abbrev ◌>>=◌ {ℓ κ} : {A : Type ℓ} {B : Type κ} → Option A → (A → Option B) → Option B
◌>>=◌ none f = none
◌>>=◌ (some a) f = f a

-- A query: the table, its filters in order, the columns of its order, and the most rows that it takes.
pub record Listing : Type 0 where
  pub table : Text
  pub filters : List Filter
  pub order : List (Text × Bool)
  pub limit : Option ℕ

pub record QueryOpts : Type 0 where
  pub exchange : Option Text
  pub symbol : Option Text
  pub strategy_instance_id : Option Text
  pub mode : Option Mode
  pub limit : Option ℕ
  -- `opts?.order === 'asc'`, and `since`.
  pub ascending : Bool
  pub since : Option Text

-- `limit ?? n`
abbrev pub limit_or : ℕ → Option ℕ → Option ℕ
limit_or n none = some n
limit_or n (some m) = some m

abbrev pub of_user : Text → List Filter
of_user user_id = eq (codes "user_id") user_id ∷ []

abbrev pub symbol_filters : QueryOpts → List Filter
symbol_filters opts =
    eq_if (codes "symbol") opts.symbol
    ++ eq_if (codes "strategy_instance_id") opts.strategy_instance_id

abbrev pub exchange_filters : QueryOpts → List Filter
exchange_filters opts = eq_if (codes "exchange") opts.exchange ++ symbol_filters opts

abbrev pub since_filter : Option Text → List Filter
since_filter none = []
since_filter (some []) = []
since_filter (some (c ∷ t)) = gte (codes "traded_at") (c ∷ t) ∷ []

unfoldable pub trades_listing : Text → QueryOpts → Listing
trades_listing user_id opts = record {
  table = table_name (codes "trades") opts.mode;
  filters = of_user user_id ++ exchange_filters opts ++ since_filter opts.since;
  order = (codes "traded_at", opts.ascending) ∷ [];
  limit = limit_or 200 opts.limit;
}

unfoldable pub closed_orders_listing : Text → QueryOpts → Listing
closed_orders_listing user_id opts = record {
  table = table_name (codes "orders") opts.mode;
  filters =
      of_user user_id
      ++ (neq (codes "status") (codes "NEW") ∷ neq (codes "status") (codes "PARTIALLY_FILLED") ∷ [])
      ++ exchange_filters opts;
  order = (codes "created_at", false) ∷ [];
  limit = limit_or 200 opts.limit;
}

unfoldable pub open_orders_listing : Text → QueryOpts → Listing
open_orders_listing user_id opts = record {
  table = table_name (codes "orders") opts.mode;
  filters = of_user user_id ++ (eq (codes "status") (codes "NEW") ∷ []) ++ exchange_filters opts;
  order = (codes "created_at", false) ∷ [];
  limit = none;
}

unfoldable pub positions_listing : Text → QueryOpts → Listing
positions_listing user_id opts = record {
  table = table_name (codes "positions") opts.mode;
  filters = of_user user_id ++ symbol_filters opts;
  order = (codes "traded_at", false) ∷ (codes "created_at", false) ∷ [];
  limit = none;
}

unfoldable pub profits_listing : Text → QueryOpts → Listing
profits_listing user_id opts = record {
  table = table_name (codes "profits") opts.mode;
  filters = of_user user_id ++ symbol_filters opts;
  order = (codes "traded_at", false) ∷ [];
  limit = limit_or 500 opts.limit;
}

unfoldable pub margin_listing : Text → Text → Option Mode → Listing
margin_listing table user_id mode = record {
  table = table_name table mode;
  filters = of_user user_id;
  order = (codes "time", false) ∷ [];
  limit = none;
}

module _ {ℓ κ} {Row : Type ℓ} {T : Type κ} (adapt : Row → ℕ → T) where
  -- `if (error) throw error`, and the rows, each with its index; `none` for the error.
  unfoldable pub rows_of : Option (List Row) → Option (List T)
  rows_of none = none
  rows_of (some rows) = some (adapt_from adapt 0 rows)

module _ {ℓ κ} {Row : Type ℓ} {T : Type κ} (database : Listing → Option (List Row))
    (adapt : Row → ℕ → T) where
  unfoldable pub supabase_trades : Text → QueryOpts → Option (List T)
  supabase_trades user_id opts = rows_of adapt (database (trades_listing user_id opts))

  unfoldable pub supabase_closed_orders : Text → QueryOpts → Option (List T)
  supabase_closed_orders user_id opts =
      rows_of adapt (database (closed_orders_listing user_id opts))

  unfoldable pub supabase_open_orders : Text → QueryOpts → Option (List T)
  supabase_open_orders user_id opts = rows_of adapt (database (open_orders_listing user_id opts))

-- The rows of positions and of profits are passed on as they are.
module _ {ℓ} {Row : Type ℓ} (database : Listing → Option (List Row)) where
  unfoldable pub supabase_positions : Text → QueryOpts → Option (List Row)
  supabase_positions user_id opts = database (positions_listing user_id opts)

  unfoldable pub supabase_profits : Text → QueryOpts → Option (List Row)
  supabase_profits user_id opts = database (profits_listing user_id opts)

pub record MarginHistory {ℓ} (Row : Type ℓ) : Type ℓ where
  pub loans : List Row
  pub repays : List Row
  pub interests : List Row
  pub liquidations : List Row

-- `useSupabaseMarginHistory`: an error of any of the four queries is thrown.
unfoldable pub supabase_margin_history {ℓ} :
    {Row : Type ℓ} → (Listing → Option (List Row)) → Text → Option Mode → Option (MarginHistory Row)
supabase_margin_history database user_id mode = do
  loans ← database (margin_listing (codes "margin_loans") user_id mode)
  repays ← database (margin_listing (codes "margin_repays") user_id mode)
  interests ← database (margin_listing (codes "margin_interests") user_id mode)
  liquidations ← database (margin_listing (codes "margin_liquidations") user_id mode)
  some (record {
    loans = loans;
    repays = repays;
    interests = interests;
    liquidations = liquidations;
  })
