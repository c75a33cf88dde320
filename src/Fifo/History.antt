-- ===== src/Fifo/History.antt =====
-- Any sequence of calls on a new queue.
use bbgo_sass.Prelude.{
  ℕ, zero, suc, ◌+◌, ◌-◌, ◌≤◌, ◌≡◌, refl, List, [], ◌∷◌, ◌++◌, arith, length, take, drop, replicate,
  sum, length-append, length-drop, append-nil, ap, append_assoc, ◌∙◌,
}
use bbgo_sass.Fifo.{FifoQueue, new_queue, push, match}
use bbgo_sass.Fifo.Lots.{lots, IsWellFormed, match-consume, lots-push, push-IsWellFormed}
use bbgo_sass.Fifo.Units.{units, units-append, match-TakesOldest}

-- A call, with its arguments.
pub data Call : Type 0 where
  pushes : ℕ → ℕ → Call
  matches : ℕ → Call

-- The queue with what its calls of `match` have matched so far.
pub record Account : Type 0 where
  pub queue : FifoQueue
  pub sold : ℕ
  pub cost : ℕ

unfoldable pub opening : Account
unfolding new_queue
opening = record { queue = new_queue; sold = 0; cost = 0 }

unfoldable pub call : Account → Call → Account
call a (pushes price quantity) = record a { queue = push price quantity a.queue }
call a (matches quantity) =
    let (q, m) = match quantity a.queue in
    record { queue = q; sold = a.sold + (quantity - m.remaining); cost = a.cost + m.cost_basis }

unfoldable pub calls : Account → List Call → Account
calls a [] = a
calls a (c ∷ cs) = calls (call a c) cs

-- The price of each unit that was ever pushed, oldest first.
unfoldable pub bought : List Call → List ℕ
bought [] = []
bought (pushes price quantity ∷ cs) = replicate quantity price ++ bought cs
bought (matches quantity ∷ cs) = bought cs

-- All that the queue and the account owe to the units `past`, pushed so far.
pub record IsFifo (past : List ℕ) (a : Account) : Type 0 where
  pub well_formed : IsWellFormed a.queue
  pub sold_le : a.sold ≤ length past
  pub open_units : units (lots a.queue) ≡ drop a.sold past
  pub cost_of_sold : a.cost ≡ sum (take a.sold past)

module _ {ℓ} {A : Type ℓ} where
  drop-drop : (n m k : ℕ) (xs : List A) → k ≡ n + m → drop m (drop n xs) ≡ drop k xs
  drop-drop zero m k xs e = let same : m ≡ k = omega arith in rw same
  drop-drop (suc n) m zero xs e = absurd (omega arith)
  drop-drop (suc n) zero (suc k) [] e = refl
  drop-drop (suc n) (suc m) (suc k) [] e = refl
  drop-drop (suc n) m (suc k) (x ∷ xs) e = drop-drop n m k xs (omega arith)

  drop-append_le : (xs ys : List A) (n : ℕ) → n ≤ length xs → drop n (xs ++ ys) ≡ drop n xs ++ ys
  drop-append_le xs ys zero h = refl
  drop-append_le [] ys (suc n) h = absurd (omega arith)
  drop-append_le (x ∷ xs) ys (suc n) h = drop-append_le xs ys n (omega arith)

  take-append_le : (xs ys : List A) (n : ℕ) → n ≤ length xs → take n (xs ++ ys) ≡ take n xs
  take-append_le xs ys zero h = refl
  take-append_le [] ys (suc n) h = absurd (omega arith)
  take-append_le (x ∷ xs) ys (suc n) h = ap (◌∷◌ x) (take-append_le xs ys n (omega arith))

sum-take :
    (n m k : ℕ) (xs : List ℕ)
    → k ≡ n + m
    → sum (take k xs) ≡ sum (take n xs) + sum (take m (drop n xs))
sum-take zero m k xs e = let same : k ≡ m = omega arith in rw same (omega arith)
sum-take (suc n) m zero xs e = absurd (omega arith)
sum-take (suc n) zero (suc k) [] e = omega arith
sum-take (suc n) (suc m) (suc k) [] e = omega arith
sum-take (suc n) m (suc k) (x ∷ xs) e = omega (arith, sum-take n m k xs)

pub push-IsFifo :
    (past : List ℕ) (a : Account) (price quantity : ℕ)
    → IsFifo past a
    → IsFifo (past ++ replicate quantity price) (call a (pushes price quantity))
unfolding call units
push-IsFifo past a price quantity f = record {
  well_formed = push-IsWellFormed price quantity a.queue f.well_formed;
  sold_le = omega (arith, f.sold_le, length-append past (replicate quantity price));
  open_units = rw (
    lots-push price quantity a.queue f.well_formed,
    units-append (lots a.queue),
    f.open_units,
    drop-append_le past (replicate quantity price) a.sold f.sold_le,
    append-nil (replicate quantity price),
  );
  cost_of_sold =
      rw (take-append_le past (replicate quantity price) a.sold f.sold_le) f.cost_of_sold;
}

pub match-IsFifo :
    (past : List ℕ) (a : Account) (quantity : ℕ)
    → IsFifo past a
    → IsFifo past (call a (matches quantity))
unfolding call
match-IsFifo past a quantity f =
    let t = match-TakesOldest quantity a.queue f.well_formed in
    let r = match quantity a.queue in
    let more = quantity - r.1.remaining in
    record {
      well_formed = (match-consume quantity a.queue f.well_formed).2;
      sold_le = omega (arith, f.sold_le, t.within, ap length f.open_units, length-drop a.sold past);
      open_units = t.kept ∙ (rw f.open_units (drop-drop a.sold more _ past refl));
      cost_of_sold = omega (
        arith,
        f.cost_of_sold,
        t.cost_of,
        sum-take a.sold more (a.sold + more) past refl,
        ap (λ us. sum (take more us)) f.open_units,
      );
    }

pub calls-IsFifo :
    (past : List ℕ) (a : Account) (cs : List Call)
    → IsFifo past a
    → IsFifo (past ++ bought cs) (calls a cs)
unfolding calls bought
calls-IsFifo past a [] f = rw (append-nil past) f
calls-IsFifo past a (pushes price quantity ∷ cs) f =
    rw (← append_assoc past (replicate quantity price) (bought cs))
      (calls-IsFifo (past ++ replicate quantity price) _ cs (push-IsFifo past a price quantity f))
calls-IsFifo past a (matches quantity ∷ cs) f =
    calls-IsFifo past _ cs (match-IsFifo past a quantity f)

-- After any sequence of calls on a new queue, what is open is all that was ever pushed less the units
-- sold, the oldest ones sold first, and the cost bases of all the sales add up to the price of just
-- the units sold; the queue stays well formed.
pub calls-opening-IsFifo : (cs : List Call) → IsFifo (bought cs) (calls opening cs)
unfolding opening new_queue units
calls-opening-IsFifo cs = calls-IsFifo [] opening cs (record {
  well_formed = record { head_le = omega arith };
  sold_le = omega arith;
  open_units = refl;
  cost_of_sold = refl;
})
