-- ===== src/Reports/Paged.antt =====
-- The paged hooks of web/src/lib/bbgo/supabase-queries.ts (`useSupabaseClosedOrdersPaged`,
-- `useSupabaseTradesPaged`, `useSupabaseProfitsPaged`), and `tableName` of
-- web/src/lib/bbgo/supabase-adapters.ts. The database is outside the repository: what it answers to a
-- query is an argument.
pub mod Pages
mod Tests
use bbgo_sass.Prelude.{
  ℕ, suc, ◌+◌, ◌-◌, ◌*◌, Bool, true, false, List, [], ◌∷◌, ◌++◌, Option, none, some, length,
}
use bbgo_sass.Prelude.Text.{codes}

abbrev pub Text : Type 0
Text = List ℕ

pub data Mode : Type 0 where
  live paper : Mode

-- `tableName`
unfoldable pub table_name : Text → Option Mode → Text
table_name base none = base
table_name base (some live) = base
table_name base (some paper) = codes "paper_" ++ base

-- `eq`, `neq` and `gte` of a query.
pub data Filter : Type 0 where
  eq neq gte : Text → Text → Filter

-- A query without its range: the table, the filters in their order, and the column of the descending
-- order.
pub record Selection : Type 0 where
  pub table : Text
  pub filters : List Filter
  pub order : Text

pub record PagedQueryOpts : Type 0 where
  pub exchange : Option Text
  pub symbol : Option Text
  pub strategy_instance_id : Option Text
  pub mode : Option Mode
  pub page : ℕ
  pub page_size : ℕ

-- `if (value) q = q.eq(column, value)`: neither an absent nor an empty value filters.
unfoldable pub eq_if : Text → Option Text → List Filter
eq_if column none = []
eq_if column (some []) = []
eq_if column (some (c ∷ value)) = eq column (c ∷ value) ∷ []

unfoldable pub optional_filters : PagedQueryOpts → List Filter
optional_filters opts =
    eq_if (codes "exchange") opts.exchange
    ++ eq_if (codes "symbol") opts.symbol
    ++ eq_if (codes "strategy_instance_id") opts.strategy_instance_id

unfoldable pub closed_orders_selection : Text → PagedQueryOpts → Selection
closed_orders_selection user_id opts = record {
  table = table_name (codes "orders") opts.mode;
  filters =
      (eq (codes "user_id") user_id
        ∷ neq (codes "status") (codes "NEW")
        ∷ neq (codes "status") (codes "PARTIALLY_FILLED")
        ∷ [])
      ++ optional_filters opts;
  order = codes "created_at";
}

unfoldable pub trades_selection : Text → PagedQueryOpts → Selection
trades_selection user_id opts = record {
  table = table_name (codes "trades") opts.mode;
  filters = (eq (codes "user_id") user_id ∷ []) ++ optional_filters opts;
  order = codes "traded_at";
}

unfoldable pub profits_selection : Text → PagedQueryOpts → Selection
profits_selection user_id opts = record {
  table = table_name (codes "profits") opts.mode;
  filters = (eq (codes "user_id") user_id ∷ []) ++ optional_filters opts;
  order = codes "traded_at";
}

-- The range of a page, from page 1 and size 1 on.
unfoldable pub from_of : PagedQueryOpts → ℕ
from_of opts = (opts.page - 1) * opts.page_size

unfoldable pub to_of : PagedQueryOpts → ℕ
to_of opts = from_of opts + opts.page_size - 1

pub record PagedResult {ℓ} (T : Type ℓ) : Type ℓ where
  pub rows : List T
  pub total : ℕ

-- `count ?? 0`
unfoldable pub count_or_zero : Option ℕ → ℕ
count_or_zero none = 0
count_or_zero (some n) = n

module _ {ℓ κ} {Row : Type ℓ} {T : Type κ} where
  -- `.map((row, i) => adapt(row, from + i))`, from the index `i` on.
  unfoldable pub adapt_from : (Row → ℕ → T) → ℕ → List Row → List T
  adapt_from adapt i [] = []
  adapt_from adapt i (r ∷ rs) = adapt r i ∷ adapt_from adapt (suc i) rs

  -- The body of a paged hook, for the answer of the database to a selection and a range: the rows, if
  -- it gives any, and the count, or `none` for an error, which the body throws.
  unfoldable pub paged :
      (Selection → ℕ → ℕ → Option (List Row × Option ℕ))
      → (Row → ℕ → T)
      → Selection
      → PagedQueryOpts
      → Option (PagedResult T)
  paged database adapt selection opts = elim (database selection (from_of opts) (to_of opts)) [
    | none ↦ none
    | some answer ↦
        some (record {
          rows = adapt_from adapt (from_of opts) answer.0;
          total = count_or_zero answer.1;
        })
  ]

  module _ (database : Selection → ℕ → ℕ → Option (List Row × Option ℕ)) (adapt : Row → ℕ → T) where
    unfoldable pub closed_orders_paged : Text → PagedQueryOpts → Option (PagedResult T)
    closed_orders_paged user_id opts =
        paged database adapt (closed_orders_selection user_id opts) opts

    unfoldable pub trades_paged : Text → PagedQueryOpts → Option (PagedResult T)
    trades_paged user_id opts = paged database adapt (trades_selection user_id opts) opts

module _ {ℓ} {Row : Type ℓ} (database : Selection → ℕ → ℕ → Option (List Row × Option ℕ)) where
  -- The rows of profits are passed on as they are.
  unfoldable pub profits_paged : Text → PagedQueryOpts → Option (PagedResult Row)
  profits_paged user_id opts = paged database (λ r i. r) (profits_selection user_id opts) opts
