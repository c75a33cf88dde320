-- ===== src/Candles/Sorted.antt =====
-- Lists of candles of web/src/hooks/useKlineData.ts by their times: what they are sorted, and after a change.
use bbgo_sass.Prelude.{
  ℕ, ◌<◌, ◌≡◌, ◌≢◌, refl, true, false, List, [], ◌∷◌, ◌++◌, map, leb, ◌==◌, if◌then◌else◌, arith,
  ap, ◌∙◌, sym, subst, Bool-cases, inl, inr, All, All-append, All-map₂, IsDistinct, append_assoc,
  append-nil, All-intro,
}
use bbgo_sass.Prelude.Sort.{sort, insert_sorted, sort-map, sort-IsDistinct}
use bbgo_sass.Candles.{
  KlineCandle, has_time, set_candle, set_candles, time_le, sorted, replace_candle,
}

abbrev pub times : List KlineCandle → List ℕ
times = map {A = KlineCandle} (λ c. c.time)

-- No two candles have one time.
abbrev pub HasDistinctTimes : List KlineCandle → Type 0
HasDistinctTimes cs = IsDistinct (times cs)

-- The candle in place of one of its time.
abbrev pub swap : KlineCandle → KlineCandle → KlineCandle
swap k c = if c.time == k.time then k else c

time_swap : (k c : KlineCandle) → (swap k c).time ≡ c.time
time_swap k c = elim (Bool-cases (c.time == k.time)) [
  | inl e ↦ let same : k.time ≡ c.time = ground arith in rw e same
  | inr e ↦ rw e
]

map-swap_other :
    (k : KlineCandle) (t : ℕ) (cs : List KlineCandle)
    → t ≡ k.time
    → All (λ u. t ≢ u) (times cs)
    → map (swap k) cs ≡ cs
map-swap_other k t [] e h = refl
map-swap_other k t (c ∷ cs) e h =
    let other : (c.time == k.time) ≡ false = ground (arith, h.0) in
    rw other (ap (λ r. c ∷ r) (map-swap_other k t cs e h.1))

set_candle-map :
    (k : KlineCandle) (m : List KlineCandle)
    → has_time k.time m ≡ true
    → HasDistinctTimes m
    → set_candle k m ≡ map (swap k) m
unfolding set_candle has_time
set_candle-map k [] h d = absurd (ground arith)
set_candle-map k (c ∷ cs) h d = elim (Bool-cases (c.time == k.time)) [
  | inl e ↦
      let same : c.time ≡ k.time = ground arith in
      rw e (ap (λ r. k ∷ r) (sym (map-swap_other k c.time cs same d.0)))
  | inr e ↦
      let more : has_time k.time cs ≡ true = ground (arith, h, e) in
      rw e (ap (λ r. c ∷ r) (set_candle-map k cs more d.1))
]

replace_candle-map :
    (k : KlineCandle) (cs : List KlineCandle)
    → HasDistinctTimes cs
    → replace_candle k cs ≡ map (swap k) cs
unfolding replace_candle
replace_candle-map k [] d = refl
replace_candle-map k (c ∷ cs) d = elim (Bool-cases (c.time == k.time)) [
  | inl e ↦
      let same : c.time ≡ k.time = ground arith in
      rw e (ap (λ r. k ∷ r) (sym (map-swap_other k c.time cs same d.0)))
  | inr e ↦ rw e (ap (λ r. c ∷ r) (replace_candle-map k cs d.1))
]

sorted-HasDistinctTimes : (m : List KlineCandle) → HasDistinctTimes m → HasDistinctTimes (sorted m)
sorted-HasDistinctTimes m d =
    subst IsDistinct (sort-map time_le leb (λ c. c.time) (λ a b. refl) m)
      (sort-IsDistinct leb (times m) d)

-- A candle of a time that the map has: sorting what the map has then is replacing in what was sorted.
pub sorted-set_candle :
    (k : KlineCandle) (m : List KlineCandle)
    → has_time k.time m ≡ true
    → HasDistinctTimes m
    → replace_candle k (sorted m) ≡ sorted (set_candle k m)
sorted-set_candle k m h d =
    let agree : (a b : KlineCandle) → time_le (swap k a) (swap k b) ≡ time_le a b =
      λ a b. rw (time_swap k a, time_swap k b) in
    replace_candle-map k (sorted m) (sorted-HasDistinctTimes m d)
    ∙ sym (sort-map time_le time_le (swap k) agree m)
    ∙ ap sorted (sym (set_candle-map k m h d))

set_candle-All :
    (P : ℕ → Type 0) (k : KlineCandle) (m : List KlineCandle)
    → P k.time
    → All P (times m)
    → All P (times (set_candle k m))
unfolding set_candle
set_candle-All P k [] p h = (p, tt)
set_candle-All P k (c ∷ cs) p h = elim (Bool-cases (c.time == k.time)) [
  | inl e ↦ rw e (p, h.1)
  | inr e ↦ rw e (h.0, set_candle-All P k cs p h.1)
]

pub set_candle-HasDistinctTimes :
    (k : KlineCandle) (m : List KlineCandle)
    → HasDistinctTimes m
    → HasDistinctTimes (set_candle k m)
unfolding set_candle
set_candle-HasDistinctTimes k [] d = (tt, tt)
set_candle-HasDistinctTimes k (c ∷ cs) d = elim (Bool-cases (c.time == k.time)) [
  | inl e ↦
      let same : c.time ≡ k.time = ground arith in
      rw e (subst (λ t. All (λ u. t ≢ u) (times cs)) same d.0, d.1)
  | inr e ↦
      let other : c.time ≢ k.time = ground (arith, e) in
      rw e (set_candle-All (λ u. c.time ≢ u) k cs other d.0, set_candle-HasDistinctTimes k cs d.1)
]

pub set_candles-HasDistinctTimes :
    (ks m : List KlineCandle) → HasDistinctTimes m → HasDistinctTimes (set_candles ks m)
unfolding set_candles
set_candles-HasDistinctTimes [] m d = d
set_candles-HasDistinctTimes (k ∷ ks) m d =
    set_candles-HasDistinctTimes ks (set_candle k m) (set_candle-HasDistinctTimes k m d)

-- Strictly ascending in time.
abbrev pub IsAscending : List KlineCandle → Type 0
IsAscending [] = Unit
IsAscending (k ∷ ks) = All {A = KlineCandle} (λ c. k.time < c.time) ks × IsAscending ks

set_candle_new :
    (k : KlineCandle) (m : List KlineCandle)
    → All {A = KlineCandle} (λ c. c.time < k.time) m
    → set_candle k m ≡ m ++ (k ∷ [])
unfolding set_candle
set_candle_new k [] h = refl
set_candle_new k (c ∷ cs) h =
    let other : (c.time == k.time) ≡ false = ground (arith, h.0) in
    rw other (ap (λ r. c ∷ r) (set_candle_new k cs h.1))

-- Candles that come after those of the map, in order, are added to it as they are.
set_candles_new :
    (ks m : List KlineCandle)
    → IsAscending ks
    → All {A = KlineCandle} (λ k. All {A = KlineCandle} (λ c. c.time < k.time) m) ks
    → set_candles ks m ≡ m ++ ks
unfolding set_candles
set_candles_new [] m a h = sym (append-nil m)
set_candles_new (k ∷ ks) m a h = rw (set_candle_new k m h.0) (
    set_candles_new ks (m ++ (k ∷ [])) a.1 (
      All-map₂ (λ j before after. All-append (λ c. c.time < j.time) m (k ∷ []) before (after, tt))
        ks h.1 a.0)
    ∙ append_assoc m (k ∷ []) ks)

pub set_candles-IsAscending : (ks : List KlineCandle) → IsAscending ks → set_candles ks [] ≡ ks
set_candles-IsAscending ks a =
    set_candles_new ks [] a
      (All-intro (λ k. All {A = KlineCandle} (λ c. c.time < k.time) []) (λ k. tt) ks)

pub sorted-IsAscending : (ks : List KlineCandle) → IsAscending ks → sorted ks ≡ ks
unfolding sort insert_sorted
sorted-IsAscending [] a = refl
sorted-IsAscending (k ∷ []) a = refl
sorted-IsAscending (k ∷ j ∷ ks) a =
    let first : leb k.time j.time ≡ true = ground (arith, a.0) in
    ap (insert_sorted time_le k) (sorted-IsAscending (j ∷ ks) a.1) ∙ rw first refl
