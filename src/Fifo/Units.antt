-- ===== src/Fifo/Units.antt =====
-- `match` against the first-in first-out order of single units.
use bbgo_sass.Prelude.{
  ℕ, zero, suc, ◌+◌, ◌-◌, ◌*◌, ◌≤◌, ◌<◌, ◌≡◌, refl, List, [], ◌∷◌, ◌++◌, arith, ltb, leb, length,
  inl, inr, ◌⊎◌, Bool-cases, take, drop, replicate, sum, sum-append, length-append,
  length-replicate, ap, append_assoc, ◌∙◌, sym, leb→le,
}
use bbgo_sass.Fifo.{Item, FifoQueue, Matched, dust, match}
use bbgo_sass.Fifo.Lots.{lots, IsWellFormed, consume, match-consume}

-- The price of each open unit, oldest first.
unfoldable pub units : List Item → List ℕ
units [] = []
units (i ∷ is) = replicate i.quantity i.price ++ units is

pub units-append : (xs ys : List Item) → units (xs ++ ys) ≡ units xs ++ units ys
unfolding units
units-append [] ys = refl
units-append (i ∷ is) ys =
    rw (units-append is ys)
      (sym (append_assoc (replicate i.quantity i.price) (units is) (units ys)))

-- Units off the front of a run of equal ones, and past it.
module _ {ℓ} {A : Type ℓ} where
  take-replicate :
      (n m : ℕ) (x : A) (ys : List A) → n ≤ m → take n (replicate m x ++ ys) ≡ replicate n x
  take-replicate zero m x ys h = refl
  take-replicate (suc n) zero x ys h = absurd (omega arith)
  take-replicate (suc n) (suc m) x ys h = ap (◌∷◌ x) (take-replicate n m x ys (omega arith))

  drop-replicate :
      (n m k : ℕ) (x : A) (ys : List A)
      → m ≡ n + k
      → drop n (replicate m x ++ ys) ≡ replicate k x ++ ys
  drop-replicate zero m k x ys e = let same : m ≡ k = omega arith in rw same
  drop-replicate (suc n) zero k x ys e = absurd (omega arith)
  drop-replicate (suc n) (suc m) k x ys e = drop-replicate n m k x ys (omega arith)

  take-append_past :
      (k n : ℕ) (xs ys : List A) → k ≡ length xs + n → take k (xs ++ ys) ≡ xs ++ take n ys
  take-append_past k n [] ys e = let same : k ≡ n = omega arith in rw same
  take-append_past zero n (x ∷ xs) ys e = absurd (omega arith)
  take-append_past (suc k) n (x ∷ xs) ys e = ap (◌∷◌ x) (take-append_past k n xs ys (omega arith))

  drop-append_past : (k n : ℕ) (xs ys : List A) → k ≡ length xs + n → drop k (xs ++ ys) ≡ drop n ys
  drop-append_past k n [] ys e = let same : k ≡ n = omega arith in rw same
  drop-append_past zero n (x ∷ xs) ys e = absurd (omega arith)
  drop-append_past (suc k) n (x ∷ xs) ys e = drop-append_past k n xs ys (omega arith)

sum-replicate : (n x : ℕ) → sum (replicate n x) ≡ n * x
sum-replicate zero x = omega arith
sum-replicate (suc n) x = omega (arith, sum-replicate n x)

-- What `consume` promises: it takes the oldest units, and the cost is theirs.
pub record TakesOldest (before : List ℕ) (quantity cost : ℕ) (after : List ℕ) (m : Matched)
    : Type 0 where
  pub remaining_le : m.remaining ≤ quantity
  pub kept : after ≡ drop (quantity - m.remaining) before
  pub cost_of : m.cost_basis ≡ cost + sum (take (quantity - m.remaining) before)
  pub filled : (m.remaining ≤ dust) ⊎ (after ≡ [])
  pub within : quantity - m.remaining ≤ length before

TakesOldest-none :
    (before : List ℕ) (quantity cost : ℕ)
    → (quantity ≤ dust) ⊎ (before ≡ [])
    → TakesOldest before quantity cost before (record { cost_basis = cost; remaining = quantity })
TakesOldest-none before quantity cost h =
    let nothing : quantity - quantity ≡ 0 = omega arith in
    record {
      remaining_le = omega arith;
      kept = rw nothing;
      cost_of = rw nothing (omega arith);
      filled = h;
      within = omega arith;
    }

module _ (i : Item) (rest : List ℕ) (quantity cost : ℕ) where
  -- The whole of the oldest lot is taken, and then `m` of the others.
  TakesOldest-whole :
      (after : List ℕ) (m : Matched)
      → i.quantity ≤ quantity
      → TakesOldest rest (quantity - i.quantity) (cost + i.quantity * i.price) after m
      → TakesOldest (replicate i.quantity i.price ++ rest) quantity cost after m
  TakesOldest-whole after m h t =
      let run = length-replicate i.quantity i.price in
      let split : quantity - m.remaining
          ≡ length (replicate i.quantity i.price) + (quantity - i.quantity - m.remaining) =
        omega (arith, run, t.remaining_le) in
      let tail = take (quantity - i.quantity - m.remaining) rest in
      record {
        remaining_le = omega (arith, t.remaining_le);
        kept = t.kept ∙ sym (drop-append_past _ _ (replicate i.quantity i.price) rest split);
        cost_of = rw (take-append_past _ _ (replicate i.quantity i.price) rest split) (
            omega (
              arith,
              t.cost_of,
              sum-append (replicate i.quantity i.price) tail,
              sum-replicate i.quantity i.price,
            ));
        filled = t.filled;
        within = omega (
          arith,
          t.within,
          t.remaining_le,
          run,
          length-append {0} (replicate i.quantity i.price) rest,
        );
      }

  -- The sale ends inside the oldest lot.
  TakesOldest-part :
      quantity < i.quantity
      → TakesOldest
          (replicate i.quantity i.price ++ rest)
          quantity
          cost
          (replicate (i.quantity - quantity) i.price ++ rest)
          (record { cost_basis = cost + quantity * i.price; remaining = 0 })
  TakesOldest-part h =
      let all : quantity - 0 ≡ quantity = omega arith in
      record {
        remaining_le = omega arith;
        kept = rw all (sym (drop-replicate quantity i.quantity _ i.price rest (omega arith)));
        cost_of =
            rw (all, take-replicate quantity i.quantity i.price rest (omega arith))
              (omega (arith, sum-replicate quantity i.price));
        filled = inl (omega arith);
        within = omega (
          arith,
          length-append {0} (replicate i.quantity i.price) rest,
          length-replicate i.quantity i.price,
        );
      }

consume-TakesOldest :
    (is : List Item) (quantity cost : ℕ)
    → let r = consume is quantity cost in TakesOldest (units is) quantity cost (units r.0) r.1
unfolding units consume
consume-TakesOldest [] quantity cost = TakesOldest-none [] quantity cost (inr refl)
consume-TakesOldest (i ∷ is) quantity cost = elim (Bool-cases (ltb dust quantity)) [
  | inl d ↦ elim (Bool-cases (leb i.quantity quantity)) [
    | inl l ↦
        rw (d, l)
          (TakesOldest-whole i (units is) quantity cost _ _ (leb→le _ _ l)
            (consume-TakesOldest is (quantity - i.quantity) (cost + i.quantity * i.price)))
    | inr l ↦ rw (d, l) (TakesOldest-part i (units is) quantity cost (ground arith))
  ]
  | inr d ↦ rw d (TakesOldest-none (units (i ∷ is)) quantity cost (inl (ground arith)))
]

-- On a queue that is well formed a sale takes the oldest units first: what it matches leaves the front
-- of the queue, the cost basis is the price of just those units, and quantity is left over only up to
-- the tolerance or when the queue has run empty.
pub match-TakesOldest :
    (quantity : ℕ) (q : FifoQueue)
    → IsWellFormed q
    → let r = match quantity q in TakesOldest (units (lots q)) quantity 0 (units (lots r.0)) r.1
match-TakesOldest quantity q w =
    let (kept, result, h) = match-consume quantity q w in
    rw (kept, result) (consume-TakesOldest (lots q) quantity 0)
