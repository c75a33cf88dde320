-- ===== src/Fifo.antt =====
-- web/src/lib/bbgo/fifo-pnl.ts, the class `FifoQueue`. Quantities are whole numbers of 1e-12, prices
-- whole numbers of 1e-12 of the quote currency, and costs whole numbers of 1e-24.
pub mod Symbols
pub mod Lots
pub mod Units
pub mod History
mod Tests
use bbgo_sass.Prelude.{
  ℕ, zero, suc, ◌+◌, ◌-◌, ◌*◌, List, [], ◌∷◌, ◌++◌, none, some, ◌&&◌, ltb, leb, if◌then◌else◌,
  length, get_elem?, set,
}

pub record Item : Type 0 where
  pub price : ℕ
  pub quantity : ℕ

-- `items` with the entries before `head` used up.
pub record FifoQueue : Type 0 where
  pub items : List Item
  pub head : ℕ

-- The result of `match`.
pub record Matched : Type 0 where
  pub cost_basis : ℕ
  pub remaining : ℕ

-- 1e-12
abbrev pub dust : ℕ
dust = 1

unfoldable pub new_queue : FifoQueue
new_queue = record { items = []; head = 0 }

unfoldable pub push : ℕ → ℕ → FifoQueue → FifoQueue
push price quantity q = record q {
  items = q.items ++ (record { price = price; quantity = quantity } ∷ []);
}

-- The `while` loop of `match`. Each round but the last one advances `head`.
unfoldable pub match_loop : ℕ → FifoQueue → ℕ → ℕ → FifoQueue × Matched
match_loop zero q remaining cost = (q, record { cost_basis = cost; remaining = remaining })
match_loop (suc fuel) q remaining cost =
    let stop : FifoQueue × Matched = (q, record { cost_basis = cost; remaining = remaining }) in
    elim (get_elem? q.items q.head) [
      | none ↦ stop
      | some item ↦
          let whole =
            match_loop fuel (record q { head = suc q.head }) (remaining - item.quantity)
              (cost + item.quantity * item.price) in
          let part =
            match_loop fuel
              (record q {
                items = set q.items q.head (record item { quantity = item.quantity - remaining });
              })
              0 (cost + remaining * item.price) in
          if ltb dust remaining && ltb q.head (length q.items)
          then if leb item.quantity remaining then whole else part
          else stop
    ]

unfoldable pub match : ℕ → FifoQueue → FifoQueue × Matched
unfolding match_loop
match quantity q = match_loop (length q.items) q quantity 0
