-- ===== src/PositionTags/Spot.antt =====
-- The spot tags, and the order in which the trades are taken.
use bbgo_sass.Prelude.{
  refl, ℕ, ◌<◌, ◌≡◌, ◌≢◌, ◌⊎◌, true, false, List, [], ◌∷◌, ◌++◌, Option, none, some, arith, All,
  Any, IsDistinct, length, get_elem?, subst, sym,
}
use bbgo_sass.Prelude.Int.{ℤ, pos, negsuc, ◌+ℤ◌}
use bbgo_sass.Prelude.Sort.{IsSorted}
use bbgo_sass.Prelude.Text.{text_lt}
use bbgo_sass.Numbers.{zero_ℤ}
use bbgo_sass.Trade.{Side, buy, sell}
use bbgo_sass.PositionTags.{
  Trade, Tag, opens, closes, adds, reduces, plain, PositionTag, traded_at, index_le, signed,
  sorted_indices, position_tag, compute_tags, compute_position_tags,
}
use bbgo_sass.PositionTags.Order.{
  sorted_indices-All, sorted_indices-Any, sorted_indices-IsDistinct, sorted_indices-IsSorted,
}
use bbgo_sass.PositionTags.Net.{net_of, compute_tags-HasEntry}

-- The moves of the net position that a tag stands for, by the side of the trade.
abbrev pub SpotMoves : Option Tag → Side → ℤ → ℤ → Type 0
SpotMoves (some opens) side prev net = (prev ≡ pos 0) × (net ≢ pos 0)
SpotMoves (some closes) side prev net = (prev ≢ pos 0) × (net ≡ pos 0)
SpotMoves (some adds) side prev net = (side ≡ buy) × (prev ≢ pos 0) × (net ≢ pos 0)
SpotMoves (some reduces) side prev net = (side ≡ sell) × (prev ≢ pos 0) × (net ≢ pos 0)
SpotMoves (some plain) side prev net = ⊥
SpotMoves none side prev net = (prev ≡ pos 0) × (net ≡ pos 0)

position_tag-SpotMoves :
    (side : Side) (qty prev net : ℤ) → SpotMoves (position_tag side qty prev net).tag side prev net
unfolding position_tag
position_tag-SpotMoves buy qty (pos m) (pos n) = ground arith
position_tag-SpotMoves buy qty (pos m) (negsuc n) = ground arith
position_tag-SpotMoves buy qty (negsuc m) (pos n) = ground arith
position_tag-SpotMoves buy qty (negsuc m) (negsuc n) = ground arith
position_tag-SpotMoves sell qty (pos m) (pos n) = ground arith
position_tag-SpotMoves sell qty (pos m) (negsuc n) = ground arith
position_tag-SpotMoves sell qty (negsuc m) (pos n) = ground arith
position_tag-SpotMoves sell qty (negsuc m) (negsuc n) = ground arith

position_tag-net : (side : Side) (qty prev net : ℤ) → (position_tag side qty prev net).net_pos ≡ net
unfolding position_tag
position_tag-net side qty prev net = refl

All-middle : (P : ℕ → Type 0) (js : List ℕ) (i : ℕ) (ks : List ℕ) → All P (js ++ (i ∷ ks)) → P i
All-middle P [] i ks h = h.0
All-middle P (j ∷ js) i ks h = All-middle P js i ks h.1

module _ (ts : List Trade) where
  -- The trade `a` is taken before `b`: it is earlier, or not later and further down the list.
  abbrev pub ComesBefore : ℕ → ℕ → Type 0
  ComesBefore a b =
      (text_lt (traded_at ts a) (traded_at ts b) ≡ true)
      ⊎ ((text_lt (traded_at ts b) (traded_at ts a) ≡ false) × (b < a))

  -- All the trades, each of them once, split at one: those before it, and those after it.
  pub record IsTaken (js : List ℕ) (i : ℕ) (ks : List ℕ) : Type 0 where
    pub inside : All (λ j. j < length ts) (js ++ (i ∷ ks))
    pub all_taken : (j : ℕ) → j < length ts → Any (λ k. k ≡ j) (js ++ (i ∷ ks))
    pub once : IsDistinct (js ++ (i ∷ ks))
    pub before : All (λ j. ComesBefore j i) js
    pub after : All (λ k. ComesBefore i k) ks

  index_le-ComesBefore : (a b : ℕ) → index_le ts a b ≡ true → a ≢ b → ComesBefore a b
  unfolding index_le
  index_le-ComesBefore a b h ne = ground (arith, h, ne)

  before_middle :
      (js : List ℕ) (i : ℕ) (ks : List ℕ)
      → IsSorted (index_le ts) (js ++ (i ∷ ks))
      → IsDistinct (js ++ (i ∷ ks))
      → All (λ j. ComesBefore j i) js × All (λ k. ComesBefore i k) ks
  before_middle [] i ks s d = (tt, after_all ks s.0 d.0)
    where
      after_all :
          (ks : List ℕ)
          → All (λ k. index_le ts i k ≡ true) ks
          → All (λ k. i ≢ k) ks
          → All (λ k. ComesBefore i k) ks
      after_all [] h n = tt
      after_all (k ∷ ks) h n = (index_le-ComesBefore i k h.0 n.0, after_all ks h.1 n.1)
  before_middle (j ∷ js) i ks s d =
      let rest = before_middle js i ks s.1 d.1 in
      (
        (
          index_le-ComesBefore j i (All-middle (λ k. index_le ts j k ≡ true) js i ks s.0)
              (All-middle (λ k. j ≢ k) js i ks d.0),
          rest.0,
        ),
        rest.1,
      )

  order-IsTaken :
      (js : List ℕ) (i : ℕ) (ks : List ℕ) → sorted_indices ts ≡ js ++ (i ∷ ks) → IsTaken js i ks
  order-IsTaken js i ks order =
      let distinct = subst IsDistinct order (sorted_indices-IsDistinct ts) in
      let (first, last) =
        before_middle js i ks
          (subst (λ is. IsSorted (index_le ts) is) order (sorted_indices-IsSorted ts)) distinct in
      record {
        inside = subst (λ is. All (λ j. j < length ts) is) order (sorted_indices-All ts);
        all_taken = λ j h. subst (λ is. Any (λ k. k ≡ j) is) order (sorted_indices-Any ts j h);
        once = distinct;
        before = first;
        after = last;
      }

  -- What `computePositionTags` returns for the trade `i`.
  abbrev pub HasTag : List (Option PositionTag) → ℕ → Type 0
  HasTag tags i =
      (js : List ℕ) × (ks : List ℕ) × (t : Trade) × (entry : PositionTag) × IsTaken js i ks
      × (get_elem? ts i ≡ some t)
      × (get_elem? tags i ≡ some (some entry))
      × (entry.net_pos ≡ net_of ts zero_ℤ js +ℤ signed t.side t.quantity)
      × SpotMoves entry.tag t.side (net_of ts zero_ℤ js) entry.net_pos

compute_tags-HasTag :
    (ts : List Trade) (i : ℕ)
    → i < length ts
    → (length (compute_tags position_tag ts) ≡ length ts)
      × HasTag ts (compute_tags position_tag ts) i
compute_tags-HasTag ts i h =
    let (len, (js, ks, t, order, e, at)) = compute_tags-HasEntry position_tag ts i h in
    let prev = net_of ts zero_ℤ js in
    let qty = signed t.side t.quantity in
    let net = prev +ℤ qty in
    let entry = position_tag t.side qty prev net in
    let same = position_tag-net t.side qty prev net in
    (
      len,
      (
        js,
        ks,
        t,
        entry,
        order-IsTaken ts js i ks order,
        e,
        at,
        same,
        subst (SpotMoves entry.tag t.side prev) (sym same)
            (position_tag-SpotMoves t.side qty prev net),
      ),
    )

-- `computePositionTags` returns one entry for each trade, with no slot left empty. The trades are taken
-- from the earlier to the later time, at one time the one further down the list first. A trade's entry has
-- the net position after it, the sum of the signed quantities of the trades taken before it and its own,
-- and the tag: `open` exactly if that sum leaves 0, `close` exactly if it comes back to 0, `add` for any
-- other buy and `reduce` for any other sell, and none if it stays at 0.
pub compute_position_tags-HasTag :
    (ts : List Trade) (i : ℕ)
    → i < length ts
    → (length (compute_position_tags ts) ≡ length ts) × HasTag ts (compute_position_tags ts) i
unfolding compute_position_tags
compute_position_tags-HasTag [] i h = absurd (omega arith)
compute_position_tags-HasTag (t ∷ ts) i h = compute_tags-HasTag (t ∷ ts) i h
