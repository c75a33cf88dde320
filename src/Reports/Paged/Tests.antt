-- ===== src/Reports/Paged/Tests.antt =====
-- The pages of a small table.
use bbgo_sass.Prelude.{
  inr, ltb, if◌then◌else◌, true, ◌⊎◌, ◌<◌, ℕ, suc, ◌-◌, ◌*◌, ◌≡◌, List, [], ◌∷◌, Option, some, none,
  arith, length, take, drop,
}
use bbgo_sass.Prelude.Text.{codes}
use bbgo_sass.Reports.Paged.{
  Selection, PagedQueryOpts, adapt_from, closed_orders_paged, closed_orders_selection, trades_paged,
  trades_selection, profits_paged, profits_selection,
}
use bbgo_sass.Reports.Paged.Pages.{pages_of, pages-all}

-- A database that has the rows 7, 8 and 9 for every selection, and gives an error past them.
abbrev table : Selection → List ℕ
table s = 7 ∷ 8 ∷ 9 ∷ []

abbrev serve : Selection → ℕ → ℕ → Option (List ℕ × Option ℕ)
serve s from to =
    if ltb from 3
    then some (take (suc to - from) (drop from (table s)), some (length (table s)))
    else none

serves :
    (s : Selection) (from to : ℕ)
    → (from ≡ 0) ⊎ (from < length (table s))
    → serve s from to ≡ some (take (suc to - from) (drop from (table s)), some (length (table s)))
serves s from to h = let inside : ltb from 3 ≡ true = ground (arith, h) in rw inside

abbrev opts : PagedQueryOpts
opts = record {
  exchange = some (codes "max");
  symbol = none;
  strategy_instance_id = none;
  mode = none;
  page = 1;
  page_size = 2;
}

abbrev numbered : ℕ → ℕ → ℕ × ℕ
numbered r i = (r, i)

pages-all_example :
    (pages_of (λ k. closed_orders_paged serve numbered (codes "u") (record opts { page = k })) 2
      ≡ some
          (adapt_from numbered 0 (take (2 * 2) (table (closed_orders_selection (codes "u") opts)))))
    × (pages_of (λ k. trades_paged serve numbered (codes "u") (record opts { page = k })) 2
        ≡ some (adapt_from numbered 0 (take (2 * 2) (table (trades_selection (codes "u") opts)))))
    × (pages_of (λ k. profits_paged serve (codes "u") (record opts { page = k })) 2
        ≡ some (take (2 * 2) (table (profits_selection (codes "u") opts))))
pages-all_example =
    pages-all serve table serves numbered numbered (codes "u") opts 2 (omega arith)
      (inr (omega arith)) (inr (omega arith)) (inr (omega arith))
