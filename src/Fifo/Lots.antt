-- ===== src/Fifo/Lots.antt =====
-- What the queue still holds, and `match` on that list.
use bbgo_sass.Prelude.{
  ℕ, zero, suc, ◌+◌, ◌-◌, ◌*◌, ◌≤◌, ◌<◌, ◌≡◌, refl, List, [], ◌∷◌, ◌++◌, none, some, arith, ltb,
  leb, if◌then◌else◌, length, get_elem?, set, drop, length-append, length-set, length-drop, inl,
  inr, true, false, Option-cases, Bool-cases, lt→ltb, ap,
}
use bbgo_sass.Fifo.{Item, FifoQueue, Matched, dust, push, match_loop, match}

-- The open lots, oldest first.
abbrev pub lots : FifoQueue → List Item
lots q = drop q.head q.items

pub record IsWellFormed (q : FifoQueue) : Type 0 where
  pub head_le : q.head ≤ length q.items

-- `match` as a recursion on the open lots.
unfoldable pub consume : List Item → ℕ → ℕ → List Item × Matched
consume [] remaining cost = ([], record { cost_basis = cost; remaining = remaining })
consume (i ∷ is) remaining cost =
    let stop : List Item × Matched =
      (i ∷ is, record { cost_basis = cost; remaining = remaining }) in
    let whole = consume is (remaining - i.quantity) (cost + i.quantity * i.price) in
    if ltb dust remaining
    then if leb i.quantity remaining then whole else (
      record i { quantity = i.quantity - remaining } ∷ is,
      record { cost_basis = cost + remaining * i.price; remaining = 0 },
    )
    else stop

module _ {ℓ} {A : Type ℓ} where
  drop_at :
      (xs : List A) (n : ℕ) (x : A) → get_elem? xs n ≡ some x → drop n xs ≡ x ∷ drop (suc n) xs
  drop_at [] n x e = ground arith
  drop_at (y ∷ ys) zero x e = ground arith
  drop_at (y ∷ ys) (suc n) x e = drop_at ys n x e

  drop_past : (xs : List A) (n : ℕ) → get_elem? xs n ≡ none → drop n xs ≡ []
  drop_past [] zero e = refl
  drop_past [] (suc n) e = refl
  drop_past (y ∷ ys) zero e = ground arith
  drop_past (y ∷ ys) (suc n) e = drop_past ys n e

  drop-set :
      (xs : List A) (n : ℕ) (v x : A)
      → get_elem? xs n ≡ some x
      → drop n (set xs n v) ≡ v ∷ drop (suc n) xs
  drop-set [] n v x e = ground arith
  drop-set (y ∷ ys) zero v x e = refl
  drop-set (y ∷ ys) (suc n) v x e = drop-set ys n v x e

  get_elem?-lt : (xs : List A) (n : ℕ) (x : A) → get_elem? xs n ≡ some x → n < length xs
  get_elem?-lt [] n x e = ground arith
  get_elem?-lt (y ∷ ys) zero x e = omega arith
  get_elem?-lt (y ∷ ys) (suc n) x e = omega (arith, get_elem?-lt ys n x e)

  nil_of_length : (xs : List A) → length xs ≤ 0 → xs ≡ []
  nil_of_length [] h = refl
  nil_of_length (x ∷ xs) h = absurd (omega arith)

  drop-append_le : (xs ys : List A) (n : ℕ) → n ≤ length xs → drop n (xs ++ ys) ≡ drop n xs ++ ys
  drop-append_le xs ys zero h = refl
  drop-append_le [] ys (suc n) h = absurd (omega arith)
  drop-append_le (x ∷ xs) ys (suc n) h = drop-append_le xs ys n (omega arith)

pub push-IsWellFormed :
    (price quantity : ℕ) (q : FifoQueue) → IsWellFormed q → IsWellFormed (push price quantity q)
unfolding push
push-IsWellFormed price quantity q w = record {
  head_le = omega (
    arith,
    w.head_le,
    length-append {0} q.items (record { price = price; quantity = quantity } ∷ []),
  );
}

-- A push adds the newest lot.
pub lots-push :
    (price quantity : ℕ) (q : FifoQueue)
    → IsWellFormed q
    → lots (push price quantity q) ≡ lots q ++ (record { price = price; quantity = quantity } ∷ [])
unfolding push
lots-push price quantity q w = drop-append_le q.items _ q.head w.head_le

-- What a run of the loop says of the queue `q` it starts from.
abbrev Refines : FifoQueue → ℕ → ℕ → FifoQueue × Matched → Type 0
Refines q remaining cost r =
    (lots r.0 ≡ (consume (lots q) remaining cost).0)
    × (r.1 ≡ (consume (lots q) remaining cost).1)
    × (r.0.head ≤ length r.0.items)

match_loop-idle :
    (fuel : ℕ) (q : FifoQueue) (cost : ℕ)
    → match_loop fuel q 0 cost ≡ (q, record { cost_basis = cost; remaining = 0 })
unfolding match_loop
match_loop-idle zero q cost = refl
match_loop-idle (suc fuel) q cost = elim (Option-cases (get_elem? q.items q.head)) [
  | inl e ↦ rw (e, match_loop)
  | inr (item, e) ↦ rw (e, match_loop)
]

module _ (fuel : ℕ) (q : FifoQueue) (remaining cost : ℕ) (item : Item)
    (e : get_elem? q.items q.head ≡ some item)
    (ih : (q' : FifoQueue) (remaining' cost' : ℕ)
      → length (lots q') ≤ fuel
      → q'.head ≤ length q'.items
      → Refines q' remaining' cost' (match_loop fuel q' remaining' cost'))
    (short : length (lots q) ≤ suc fuel) where
  open_lots : lots q ≡ item ∷ drop (suc q.head) q.items
  open_lots = drop_at q.items q.head item e

  room : q.head < length q.items
  room = get_elem?-lt q.items q.head item e

  stop_round :
      ltb dust remaining ≡ false → Refines q remaining cost (match_loop (suc fuel) q remaining cost)
  unfolding match_loop consume
  stop_round d = rw (e, match_loop) (rw (open_lots, d) (open_lots, refl, omega (arith, room)))

  whole_round :
      ltb dust remaining ≡ true
      → leb item.quantity remaining ≡ true
      → Refines q remaining cost (match_loop (suc fuel) q remaining cost)
  unfolding match_loop consume
  whole_round d l =
      rw (e, match_loop)
        (rw (open_lots, d, l, lt→ltb _ _ room)
          (ih (record q { head = suc q.head }) _ _ (omega (arith, ap length open_lots)) room))

  part_round :
      ltb dust remaining ≡ true
      → leb item.quantity remaining ≡ false
      → Refines q remaining cost (match_loop (suc fuel) q remaining cost)
  unfolding match_loop consume
  part_round d l =
      rw (e, match_loop)
        (rw (open_lots, d, l, lt→ltb _ _ room, match_loop-idle fuel)
          (
            drop-set q.items q.head _ item e,
            refl,
            rw (length-set q.items q.head) (omega (arith, room)),
          ))

loop-Refines :
    (fuel : ℕ) (q : FifoQueue) (remaining cost : ℕ)
    → length (lots q) ≤ fuel
    → q.head ≤ length q.items
    → Refines q remaining cost (match_loop fuel q remaining cost)
unfolding match_loop consume
loop-Refines zero q remaining cost short w = rw (nil_of_length (lots q) short) (refl, refl, w)
loop-Refines (suc fuel) q remaining cost short w = elim (Option-cases (get_elem? q.items q.head)) [
  | inl e ↦ rw (e, match_loop) (rw (drop_past q.items q.head e) (refl, refl, w))
  | inr (item, e) ↦
      let ih = loop-Refines fuel in
      elim (Bool-cases (ltb dust remaining)) [
        | inl d ↦ elim (Bool-cases (leb item.quantity remaining)) [
          | inl l ↦ whole_round fuel q remaining cost item e ih short d l
          | inr l ↦ part_round fuel q remaining cost item e ih short d l
        ]
        | inr d ↦ stop_round fuel q remaining cost item e ih short d
      ]
]

-- On a queue that is well formed `match` ends and does to the open lots what `consume` does, with the
-- same result, and leaves the queue well formed.
pub match-consume :
    (quantity : ℕ) (q : FifoQueue)
    → IsWellFormed q
    → let r = match quantity q in
      (lots r.0 ≡ (consume (lots q) quantity 0).0)
      × (r.1 ≡ (consume (lots q) quantity 0).1)
      × IsWellFormed r.0
unfolding match
match-consume quantity q w =
    let (kept, result, h) =
      loop-Refines (length q.items) q quantity 0 (omega (arith, length-drop q.head q.items))
        w.head_le in
    (kept, result, record { head_le = h })
