-- ===== src/Reports/Balances.antt =====
-- `useSupabaseBalances` and `useSupabaseTradingVolume` of web/src/lib/bbgo/supabase-queries.ts. Amounts are
-- in units of 1e-12, volumes in units of 1e-24.
pub mod Sums
mod Tests
use bbgo_sass.Prelude.{
  ℕ, ◌+◌, ◌*◌, ◌^◌, Bool, true, false, List, [], ◌∷◌, ◌++◌, Option, none, some, ltb, leb, ◌==◌,
  if◌then◌else◌,
}
use bbgo_sass.Prelude.Int.{ℤ, pos, ◌+ℤ◌}
use bbgo_sass.Prelude.Sort.{sort}
use bbgo_sass.Prelude.Text.{codes, same_text}
use bbgo_sass.Prelude.Dict.{find_entry, set_entry}
use bbgo_sass.Numbers.{round_to}
use bbgo_sass.Reports.Paged.{Text, Mode, live, paper, Filter, eq, eq_if}
use bbgo_sass.Reports.Queries.{Listing, of_user}

-- A row of `paper_balances`, with `parseFloat(...) || 0` of its amounts.
pub record BalanceRow : Type 0 where
  pub currency : Text
  pub available : ℤ
  pub locked : ℤ

pub record Balance : Type 0 where
  pub currency : Text
  pub available : ℤ
  pub locked : ℤ

-- The balance of a currency with a row added to it.
unfoldable pub add_balance : BalanceRow → Option Balance → Balance
add_balance row none = record {
  currency = row.currency;
  available = row.available;
  locked = row.locked;
}
add_balance row (some b) = record b {
  available = b.available +ℤ row.available;
  locked = b.locked +ℤ row.locked;
}

unfoldable pub balance_step : BalanceRow → List (Text × Balance) → List (Text × Balance)
balance_step row balances =
    set_entry same_text row.currency (add_balance row (find_entry same_text row.currency balances))
      balances

-- The loop over the rows.
unfoldable pub balance_loop : List (Text × Balance) → List BalanceRow → List (Text × Balance)
balance_loop balances [] = balances
balance_loop balances (row ∷ rows) = balance_loop (balance_step row balances) rows

abbrev pub balances_listing : Text → Option Text → Listing
balances_listing user_id strategy_instance_id = record {
  table = codes "paper_balances";
  filters = of_user user_id ++ eq_if (codes "strategy_instance_id") strategy_instance_id;
  order = [];
  limit = none;
}

abbrev pub aggregated : Option (List BalanceRow) → Option (List (Text × Balance))
aggregated none = none
aggregated (some rows) = some (balance_loop [] rows)

-- The body of `useSupabaseBalances`; `none` for the error that it throws.
unfoldable pub supabase_balances :
    (Listing → Option (List BalanceRow))
    → Text
    → Option Mode
    → (strategy_instance_id : Option Text) → Option (List (Text × Balance))
supabase_balances database user_id (some paper) id =
    aggregated (database (balances_listing user_id id))
supabase_balances database user_id (some live) id = some []
supabase_balances database user_id none id = some []

-- Of a trade, its day, which is none if it has no time, and `qty * price`.
pub record VolumeTrade : Type 0 where
  pub day : Option Text
  pub volume : ℤ

abbrev pub volume_or_zero : Option ℤ → ℤ
volume_or_zero none = pos 0
volume_or_zero (some v) = v

-- The loop that fills `byDay`.
unfoldable pub volume_loop : List (Text × ℤ) → List VolumeTrade → List (Text × ℤ)
volume_loop by_day [] = by_day
volume_loop by_day (t ∷ ts) = elim t.day [
  | none ↦ volume_loop by_day ts
  | some day ↦
      volume_loop
        (set_entry same_text day (volume_or_zero (find_entry same_text day by_day) +ℤ t.volume)
          by_day)
        ts
]

-- `new Date(date)`, and its parts in local time.
pub record Date : Type 0 where
  pub millis : ℕ
  pub year : ℕ
  pub month : ℕ
  pub day : ℕ

pub record TradingVolumeEntry : Type 0 where
  pub year : ℕ
  pub month : ℕ
  pub day : ℕ
  pub quote_volume : ℤ

abbrev pub days_of : Text → ℕ
days_of period =
    if same_text period (codes "7d") then 7 else if same_text period (codes "year") then 365 else 30

-- The loop over `byDay`; a volume is in hundredths.
unfoldable pub recent_volumes :
    (date_of : Text → Date) (now days : ℕ) → List (Text × ℤ) → List TradingVolumeEntry
recent_volumes date_of now days [] = []
recent_volumes date_of now days ((date, vol) ∷ by_day) =
    let d = date_of date in
    let rest = recent_volumes date_of now days by_day in
    if ltb (d.millis + days * 86400000) now
    then rest
    else record {
      year = d.year;
      month = d.month;
      day = d.day;
      quote_volume = round_to (10 ^ 22) vol;
    }
      ∷ rest

-- The comparator: by year, then month, then day.
unfoldable pub volume_le : TradingVolumeEntry → TradingVolumeEntry → Bool
volume_le a b =
    if a.year == b.year
    then (if a.month == b.month then leb a.day b.day else leb a.month b.month)
    else leb a.year b.year

unfoldable pub trading_volumes :
    (date_of : Text → Date) (now : ℕ) (period : Text) → List VolumeTrade → List TradingVolumeEntry
trading_volumes date_of now period trades =
    sort volume_le (recent_volumes date_of now (days_of period) (volume_loop [] trades))
