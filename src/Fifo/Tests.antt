-- ===== src/Fifo/Tests.antt =====
-- Runs of the queue, and the theorems about it at inputs.
use bbgo_sass.Prelude.{ℕ, ◌≡◌, refl, List, [], ◌∷◌, arith}
use bbgo_sass.Fifo.{Item, FifoQueue, match}
use bbgo_sass.Fifo.Lots.{lots, IsWellFormed, consume, match-consume}
use bbgo_sass.Fifo.Units.{units, TakesOldest, match-TakesOldest}
use bbgo_sass.Fifo.History.{
  Call, pushes, matches, opening, calls, bought, IsFifo, calls-opening-IsFifo,
}

abbrev item : ℕ → ℕ → Item
item price quantity = record { price = price; quantity = quantity }

-- Three lots, the first one used up.
abbrev two_open : FifoQueue
two_open = record { items = item 10 2 ∷ item 20 3 ∷ item 30 4 ∷ []; head = 1 }

two_open-IsWellFormed : IsWellFormed two_open
two_open-IsWellFormed = record { head_le = omega arith }

sells_across_lots : match 5 two_open ≡ (
  record { items = item 10 2 ∷ item 20 3 ∷ item 30 2 ∷ []; head = 2 },
  record { cost_basis = 120; remaining = 0 },
)
unfolding match
sells_across_lots = refl

sells_too_much : (match 9 two_open).1 ≡ record { cost_basis = 180; remaining = 2 }
unfolding match
sells_too_much = refl

match-consume_example :
    (lots (match 5 two_open).0 ≡ (consume (lots two_open) 5 0).0)
    × ((match 5 two_open).1 ≡ (consume (lots two_open) 5 0).1)
    × IsWellFormed (match 5 two_open).0
match-consume_example = match-consume 5 two_open two_open-IsWellFormed

match-TakesOldest_example :
    TakesOldest (units (lots two_open)) 5 0 (units (lots (match 5 two_open).0)) (match 5 two_open).1
match-TakesOldest_example = match-TakesOldest 5 two_open two_open-IsWellFormed

abbrev trading : List Call
trading = pushes 10 4 ∷ matches 3 ∷ pushes 20 5 ∷ matches 4 ∷ []

calls-opening-IsFifo_example : IsFifo (bought trading) (calls opening trading)
calls-opening-IsFifo_example = calls-opening-IsFifo trading
