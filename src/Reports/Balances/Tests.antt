-- ===== src/Reports/Balances/Tests.antt =====
-- Runs of the balances and the volumes, and the theorem about the balances at an input.
use bbgo_sass.Prelude.{ℕ, ◌*◌, ◌^◌, ◌≡◌, refl, List, [], ◌∷◌, none, some}
use bbgo_sass.Prelude.Int.{pos, ◌+ℤ◌}
use bbgo_sass.Prelude.Sort.{sort, insert_sorted}
use bbgo_sass.Prelude.SumBy.{sum_by}
use bbgo_sass.Prelude.Text.{codes, same_text}
use bbgo_sass.Prelude.Dict.{find_entry, set_entry, HasDistinctKeys}
use bbgo_sass.Numbers.{round_to}
use bbgo_sass.Reports.Paged.{Text, paper}
use bbgo_sass.Reports.Balances.{
  BalanceRow, add_balance, balance_step, balance_loop, supabase_balances, VolumeTrade, volume_loop,
  recent_volumes, trading_volumes, Date,
}
use bbgo_sass.Reports.Balances.Sums.{balance_of, figure, share, balance_loop_lem}

abbrev row : Text → ℕ → BalanceRow
row currency amount = record { currency = currency; available = pos amount; locked = pos 1 }

abbrev rows : List BalanceRow
rows = row (codes "USDT") 5 ∷ row (codes "BTC") 2 ∷ row (codes "USDT") 3 ∷ []

balances_run :
    supabase_balances (λ q. some rows) (codes "u") (some paper) none
    ≡ some (
        (codes "USDT", record { currency = codes "USDT"; available = pos 8; locked = pos 2 })
        ∷ (codes "BTC", record { currency = codes "BTC"; available = pos 2; locked = pos 1 })
        ∷ [])
unfolding supabase_balances balance_loop balance_step add_balance set_entry find_entry same_text
    ◌+ℤ◌
balances_run = refl

balance_loop_lem_example :
    HasDistinctKeys same_text (balance_loop [] rows)
    × ((currency : Text)
        → (figure currency (λ b. b.available) (balance_of currency (balance_loop [] rows))
            ≡ sum_by (share currency (λ r. r.available)) rows)
          × (figure currency (λ b. b.locked) (balance_of currency (balance_loop [] rows))
              ≡ sum_by (share currency (λ r. r.locked)) rows))
balance_loop_lem_example = balance_loop_lem rows

abbrev date_of : Text → Date
date_of t = record { millis = 86400000 * 40; year = 1970; month = 2; day = 10 }

abbrev bought : VolumeTrade
bought = record { day = some (codes "1970-02-10"); volume = pos (3 * 10 ^ 24) }

volumes_run :
    trading_volumes date_of (86400000 * 70) [] (bought ∷ bought ∷ [])
    ≡ record { year = 1970; month = 2; day = 10; quote_volume = pos 600 } ∷ []
unfolding trading_volumes recent_volumes volume_loop set_entry find_entry same_text ◌+ℤ◌ round_to
    sort insert_sorted
volumes_run = refl
