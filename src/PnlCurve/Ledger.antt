-- ===== src/PnlCurve/Ledger.antt =====
-- The running profit against the units that the queue matched.
use bbgo_sass.Prelude.{
  ℕ, ◌+◌, ◌-◌, ◌*◌, ◌≡◌, refl, List, [], ◌∷◌, arith, sum, take, ltb, Bool-cases, inl, inr, ap,
}
use bbgo_sass.Prelude.Int.{ℤ, pos, ◌+ℤ◌, ◌-ℤ◌, int_laws, parts_of}
use bbgo_sass.Numbers.{zero_ℤ}
use bbgo_sass.Fifo.{FifoQueue, new_queue, match}
use bbgo_sass.Fifo.Units.{match-TakesOldest}
use bbgo_sass.Fifo.Lots.{IsWellFormed, match-consume, push-IsWellFormed}
use bbgo_sass.Fifo.History.{
  Call, pushes, matches, Account, opening, call, calls, bought, calls-opening-IsFifo,
}
use bbgo_sass.Trade.{Side, buy, sell}
use bbgo_sass.PnlCurve.{
  PnlTrade, Curve, start, fee_in_quote, fee_of, sale_profit, trade_side, curve_step, curve_loop,
}

-- What a trade asks of the queue.
call_side : Side → PnlTrade → Call
call_side buy t = pushes t.price t.quantity
call_side sell t = matches t.quantity

pub calls_of : List PnlTrade → List Call
unfolding call_side
calls_of [] = []
calls_of (t ∷ ts) = call_side t.side t ∷ calls_of ts

-- What the sales earn by the units that they match.
earned_by : Side → PnlTrade → FifoQueue → ℕ
earned_by buy t q = 0
earned_by sell t q = t.price * (t.quantity - (match t.quantity q).1.remaining)

pub earned : Account → List PnlTrade → ℕ
unfolding earned_by
earned a [] = 0
earned a (t ∷ ts) = earned_by t.side t a.queue + earned (call a (call_side t.side t)) ts

pub fees : List PnlTrade → ℤ
fees [] = zero_ℤ
fees (t ∷ ts) = fee_in_quote (fee_of t) t.fee_currency t.price +ℤ fees ts

sale_profit_lem :
    (price quantity matched cost remaining : ℕ)
    → quantity ≡ matched + remaining
    → sale_profit price quantity cost remaining ≡ pos (price * matched) -ℤ pos cost
unfolding sale_profit
sale_profit_lem price quantity matched cost remaining e = elim (Bool-cases (ltb 0 remaining)) [
  | inl more ↦ rw more (omega (int_laws, ap (λ (k : ℕ). price * k) e))
  | inr full ↦
      let all : remaining ≡ 0 = ground arith in
      let same : quantity ≡ matched = omega arith in rw (full, same) (omega int_laws)
]

-- The state of the loop beside the account of its queue.
record Agrees (c : Curve) (a : Account) : Type 0 where
  same_queue : c.queue ≡ a.queue
  well_formed : IsWellFormed a.queue

side-Agrees :
    (s : Side) (t : PnlTrade) (c : Curve) (a : Account)
    → Agrees c a
    → let r = trade_side s t c.queue c.cumulative in
      let b = call a (call_side s t) in
      (r.0 ≡ b.queue)
      × (r.1 +ℤ pos b.cost ≡ c.cumulative +ℤ pos a.cost +ℤ pos (earned_by s t a.queue))
      × IsWellFormed b.queue
unfolding trade_side call_side call earned_by
side-Agrees buy t c a g =
    rw g.same_queue
      (refl, omega int_laws, push-IsWellFormed t.price t.quantity a.queue g.well_formed)
side-Agrees sell t c a g =
    let m = (match t.quantity a.queue).1 in
    let oldest = match-TakesOldest t.quantity a.queue g.well_formed in
    let profit =
      sale_profit_lem t.price t.quantity (t.quantity - m.remaining) m.cost_basis m.remaining
        (omega (arith, oldest.remaining_le)) in
    rw g.same_queue
      (refl, rw profit (omega int_laws), (match-consume t.quantity a.queue g.well_formed).2)

loop-Agrees :
    (c : Curve) (a : Account) (ts : List PnlTrade)
    → Agrees c a
    → ((curve_loop c ts).queue ≡ (calls a (calls_of ts)).queue)
      × ((curve_loop c ts).cumulative +ℤ pos (calls a (calls_of ts)).cost +ℤ fees ts
          ≡ c.cumulative +ℤ pos a.cost +ℤ pos (earned a ts))
unfolding curve_loop curve_step calls calls_of fees earned
loop-Agrees c a [] g = (g.same_queue, omega int_laws)
loop-Agrees c a (t ∷ ts) g =
    let (queue, money, w) = side-Agrees t.side t c a g in
    let (last_queue, last_money) =
      loop-Agrees (curve_step c t) (call a (call_side t.side t)) ts
        (record { same_queue = queue; well_formed = w }) in
    (last_queue, omega (int_laws, parts_of money, parts_of last_money))

-- For trades in the order in which they are booked: the running profit is what the sales bring in for
-- the units that they match, less what just those units cost by first-in first-out, less all the fees;
-- and the queue is the one that the same calls make.
pub curve_loop-ledger :
    (ts : List PnlTrade)
    → let c = curve_loop start ts in
      let a = calls opening (calls_of ts) in
      (c.queue ≡ a.queue)
      × (c.cumulative +ℤ pos (sum (take a.sold (bought (calls_of ts)))) +ℤ fees ts
          ≡ pos (earned opening ts))
unfolding opening new_queue
curve_loop-ledger ts =
    let (queue, money) =
      loop-Agrees start opening ts
        (record { same_queue = refl; well_formed = record { head_le = omega arith } }) in
    let cost = (calls-opening-IsFifo (calls_of ts)).cost_of_sold in
    (queue, rw (← cost) (omega (int_laws, parts_of money)))
