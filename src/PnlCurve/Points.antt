-- ===== src/PnlCurve/Points.antt =====
-- The points of the curve against the running profit at the end of each second.
use bbgo_sass.Prelude.{
  ℕ, suc, ◌/◌, ◌≤◌, ◌<◌, ◌≡◌, refl, Bool, true, false, ◌||◌, List, [], ◌∷◌, ◌++◌, arith, leb, ◌==◌,
  if◌then◌else◌, Bool-cases, inl, inr, ap, sym, All, All-append, All-map, All-intro, append_assoc,
  append-nil, ==_iff, subst,
}
use bbgo_sass.Prelude.Int.{ℤ}
use bbgo_sass.Prelude.Sort.{sort, IsSorted, sort-IsSorted, sort-All}
use bbgo_sass.Numbers.{round_to}
use bbgo_sass.PnlCurve.{
  PnlPoint, PnlTrade, Curve, start, cent, put_point, curve_step, curve_loop, by_time,
  compute_pnl_curve,
}

abbrev pub second : PnlTrade → ℕ
second t = t.time / 1000

-- The trades up to the end of a second.
unfoldable pub until : ℕ → List PnlTrade → List PnlTrade
until s [] = []
until s (t ∷ ts) = if leb (second t) s then t ∷ until s ts else until s ts

-- The running profit after all the trades up to the end of a second, in cents.
unfoldable pub profit_at : List PnlTrade → ℕ → ℤ
profit_at ts s = round_to cent (curve_loop start (until s ts)).cumulative

-- The times rise strictly, from `lo` on.
abbrev pub IsAscending : ℕ → List PnlPoint → Type 0
IsAscending lo [] = Unit
IsAscending lo (p ∷ ps) = (lo ≤ p.time) × IsAscending (suc p.time) ps

unfoldable pub has_time : ℕ → List PnlPoint → Bool
has_time s [] = false
has_time s (p ∷ ps) = p.time == s || has_time s ps

put_point-IsAscending :
    (lo : ℕ) (ps : List PnlPoint) (s : ℕ) (v : ℤ)
    → lo ≤ s
    → All (λ p. p.time ≤ s) ps
    → IsAscending lo ps
    → IsAscending lo (put_point ps s v)
unfolding put_point
put_point-IsAscending lo [] s v h b a = (h, tt)
put_point-IsAscending lo (p ∷ []) s v h b a = ground arith
put_point-IsAscending lo (p ∷ q ∷ ps) s v h b a =
    (a.0, put_point-IsAscending (suc p.time) (q ∷ ps) s v (omega (arith, a.1.0, b.1.0)) b.1 a.1)

module _ (P Q : PnlPoint → Type 0) (s : ℕ) (v : ℤ) where
  put_point-All :
      (lo : ℕ) (ps : List PnlPoint)
      → IsAscending lo ps
      → All (λ p. p.time ≤ s) ps
      → All P ps
      → ((p : PnlPoint) → P p → p.time < s → Q p)
      → Q (record { time = s; value = v })
      → All Q (put_point ps s v)
  unfolding put_point
  put_point-All lo [] a b h keep new = (new, tt)
  put_point-All lo (p ∷ []) a b h keep new = elim (Bool-cases (p.time == s)) [
    | inl e ↦
        rw e (subst (λ k. Q (record { time = k; value = v })) (sym ((==_iff _ _).0 e)) new, tt)
    | inr e ↦ rw e (keep p h.0 (ground arith), (new, tt))
  ]
  put_point-All lo (p ∷ q ∷ ps) a b h keep new = (
    keep p h.0 (omega (arith, a.1.0, b.1.0)),
    put_point-All (suc p.time) (q ∷ ps) a.1 b.1 h.1 keep new,
  )

put_point-has_time : (ps : List PnlPoint) (s : ℕ) (v : ℤ) → has_time s (put_point ps s v) ≡ true
unfolding put_point has_time
put_point-has_time [] s v = ground arith
put_point-has_time (p ∷ []) s v = ground arith
put_point-has_time (p ∷ q ∷ ps) s v = ground (arith, put_point-has_time (q ∷ ps) s v)

put_point-keeps_time :
    (u : ℕ) (ps : List PnlPoint) (s : ℕ) (v : ℤ)
    → has_time u ps ≡ true
    → has_time u (put_point ps s v) ≡ true
unfolding put_point has_time
put_point-keeps_time u [] s v h = ground arith
put_point-keeps_time u (p ∷ []) s v h = ground arith
put_point-keeps_time u (p ∷ q ∷ ps) s v h = ground (arith, put_point-keeps_time u (q ∷ ps) s v)

until_all : (s : ℕ) (ts : List PnlTrade) → All (λ t. second t ≤ s) ts → until s ts ≡ ts
unfolding until
until_all s [] b = refl
until_all s (t ∷ ts) b = ground (arith, until_all s ts b.1)

until_later : (s : ℕ) (t : PnlTrade) → s < second t → until s (t ∷ []) ≡ []
unfolding until
until_later s t h = ground arith

until-append : (s : ℕ) (xs ys : List PnlTrade) → until s (xs ++ ys) ≡ until s xs ++ until s ys
unfolding until
until-append s [] ys = refl
until-append s (x ∷ xs) ys = ground (arith, until-append s xs ys)

curve_loop-append :
    (c : Curve) (xs ys : List PnlTrade) → curve_loop c (xs ++ ys) ≡ curve_loop (curve_loop c xs) ys
unfolding curve_loop
curve_loop-append c [] ys = refl
curve_loop-append c (x ∷ xs) ys = curve_loop-append (curve_step c x) xs ys

-- What the points say of the trades `past`, none of them later than the second `s`.
record IsCurve (past : List PnlTrade) (s : ℕ) (c : Curve) : Type 0 where
  reached : c ≡ curve_loop start past
  trades_le : All (λ t. second t ≤ s) past
  points_le : All (λ p. p.time ≤ s) c.points
  ascending : IsAscending 0 c.points
  values : All (λ p. p.value ≡ profit_at past p.time) c.points
  covers : All (λ t. has_time (second t) c.points ≡ true) past

module _ (past : List PnlTrade) (s : ℕ) (c : Curve) (t : PnlTrade) (later : s ≤ second t)
    (h : IsCurve past s c) where
  longer : List PnlTrade
  longer = past ++ (t ∷ [])

  booked : Curve
  booked = curve_step c t

  before : All (λ u. second u ≤ second t) past
  before = All-map (λ u e. omega arith) past h.trades_le

  points_before : All (λ p. p.time ≤ second t) c.points
  points_before = All-map (λ p e. omega arith) c.points h.points_le

  booked-reached : booked ≡ curve_loop start longer
  unfolding booked longer curve_loop
  booked-reached = rw (curve_loop-append start past, ← h.reached)

  value_kept :
      (p : PnlPoint)
      → p.value ≡ profit_at past p.time
      → p.time < second t
      → p.value ≡ profit_at longer p.time
  unfolding profit_at longer
  value_kept p e lt =
      rw
        (until-append p.time past (t ∷ []), until_later p.time t lt, append-nil (until p.time past))
        e

  value_new : round_to cent booked.cumulative ≡ profit_at longer (second t)
  unfolding profit_at longer
  value_new =
      rw (until_all (second t) (past ++ (t ∷ [])) (All-append _ past (t ∷ []) before (omega arith)))
        (ap (λ (k : Curve). round_to cent k.cumulative) booked-reached)

  step-IsCurve : IsCurve longer (second t) booked
  unfolding booked longer curve_step
  step-IsCurve =
      let v = round_to cent booked.cumulative in
      record {
        reached = booked-reached;
        trades_le = All-append _ past (t ∷ []) before (omega arith);
        points_le =
            put_point-All (λ p. p.time ≤ second t) (λ p. p.time ≤ second t) (second t) v 0 c.points
              h.ascending points_before points_before (λ p a b. a) (omega arith);
        ascending =
            put_point-IsAscending 0 c.points (second t) v (omega arith) points_before h.ascending;
        values =
            put_point-All (λ p. p.value ≡ profit_at past p.time)
              (λ p. p.value ≡ profit_at longer p.time) (second t) v 0 c.points h.ascending
              points_before h.values value_kept value_new;
        covers =
            All-append _ past (t ∷ [])
              (All-map (λ u. put_point-keeps_time (second u) c.points (second t) v) past h.covers)
              (put_point-has_time c.points (second t) v, tt);
      }

-- The whole loop, from a state that has booked `past`.
loop-IsCurve :
    (past : List PnlTrade) (s : ℕ) (c : Curve) (ts : List PnlTrade)
    → IsCurve past s c
    → All (λ t. s ≤ second t) ts
    → IsSorted by_time ts
    → (last : ℕ) × IsCurve (past ++ ts) last (curve_loop c ts)
unfolding curve_loop longer booked
loop-IsCurve past s c [] h later sorted = (s, rw (append-nil past) h)
loop-IsCurve past s c (t ∷ ts) h later sorted =
    let (last, whole) =
      loop-IsCurve (past ++ (t ∷ [])) (second t) (curve_step c t) ts
        (step-IsCurve past s c t later.0 h) (All-map (λ u e. ground arith) ts sorted.0) sorted.1 in
    (last, rw (← append_assoc past (t ∷ []) ts) whole)

by_time_total : (a b : PnlTrade) → by_time a b ≡ false → by_time b a ≡ true
by_time_total a b h = ground arith

by_time_trans : (a b c : PnlTrade) → by_time a b ≡ true → by_time b c ≡ true → by_time a c ≡ true
by_time_trans a b c h k = ground arith

-- The times of the curve rise strictly; each point's value is the running profit, rounded to cents,
-- after all the trades up to the end of its second, taken in the order of their times; and the second
-- of each trade has its point.
pub compute_pnl_curve_lem :
    (ts : List PnlTrade)
    → let sorted = sort by_time ts in
      let curve = compute_pnl_curve ts in
      IsAscending 0 curve
      × All (λ p. p.value ≡ profit_at sorted p.time) curve
      × All (λ t. has_time (second t) curve ≡ true) sorted
unfolding compute_pnl_curve curve_loop sort
compute_pnl_curve_lem [] = (tt, tt, tt)
compute_pnl_curve_lem (t ∷ ts) =
    let sorted = sort by_time (t ∷ ts) in
    let (last, h) =
      loop-IsCurve [] 0 start sorted
        (record {
          reached = refl;
          trades_le = tt;
          points_le = tt;
          ascending = tt;
          values = tt;
          covers = tt;
        })
        (sort-All by_time (λ u. 0 ≤ second u) (t ∷ ts) (All-intro _ (λ u. omega arith) (t ∷ ts)))
        (sort-IsSorted by_time by_time_total by_time_trans (t ∷ ts)) in
    (h.ascending, h.values, h.covers)
