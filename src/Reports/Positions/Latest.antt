-- ===== src/Reports/Positions/Latest.antt =====
-- Which rows are kept for a group.
use bbgo_sass.Prelude.{
  subst, ℕ, ◌≡◌, refl, true, false, not, ◌&&◌, List, [], ◌∷◌, Option, none, some, arith,
  if◌then◌else◌, Bool-cases, inl, inr, ap, ◌∙◌, sym, take,
}
use bbgo_sass.Prelude.Text.{same_text, same_text_refl, eq_of_same_text}
use bbgo_sass.Prelude.Dict.{
  find_entry, set_entry, find_entry-set_entry_self, find_entry-set_entry_ne,
}
use bbgo_sass.Numbers.{is_zero}
use bbgo_sass.Reports.Positions.{
  PositionRow, group_key, replaces, latest_step, latest_by_group, FuturesPositionRisk, risk_key,
  has_key, latest_risks,
}

-- The rows of a group, in their order.
unfoldable pub rows_of : List ℕ → List PositionRow → List PositionRow
rows_of k [] = []
rows_of k (r ∷ rs) = if same_text (group_key r) k then r ∷ rows_of k rs else rows_of k rs

-- The first row of a time with a base that is not zero.
unfoldable pub first_open : List ℕ → List PositionRow → Option PositionRow
first_open time [] = none
first_open time (r ∷ rs) =
    if not (is_zero r.base) && same_text r.traded_at time then some r else first_open time rs

-- The row that stands for a group: its first one, unless that is closed and another one of its time is
-- not.
unfoldable pub chosen_after : PositionRow → List PositionRow → PositionRow
chosen_after r rs =
    if is_zero r.base then elim (first_open r.traded_at rs) [ none ↦ r | some s ↦ s ] else r

abbrev pub chosen : List PositionRow → Option PositionRow
chosen [] = none
chosen (r ∷ rs) = some (chosen_after r rs)

-- What becomes of an entry when the rows of its group follow.
abbrev after : Option PositionRow → List PositionRow → Option PositionRow
after none rs = chosen rs
after (some c) rs = some (chosen_after c rs)

-- The entry of a group after one more row of it.
abbrev kept : Option PositionRow → PositionRow → PositionRow
kept none r = r
kept (some c) r = if replaces c r then r else c

chosen_after_nil : (c : PositionRow) → chosen_after c [] ≡ c
unfolding chosen_after first_open
chosen_after_nil c = ground arith

chosen_after_one :
    (c r : PositionRow) (rs : List PositionRow)
    → chosen_after (if replaces c r then r else c) rs ≡ chosen_after c (r ∷ rs)
unfolding chosen_after replaces first_open
chosen_after_one c r rs = elim (Bool-cases (is_zero c.base)) [
  | inr e ↦ rw (e, e)
  | inl e ↦ elim (Bool-cases (not (is_zero r.base) && same_text r.traded_at c.traded_at)) [
    | inl h ↦
        let hit : replaces c r ≡ true = ground (arith, e, h) in
        let left : chosen_after (if replaces c r then r else c) rs ≡ r =
          ap (λ b. chosen_after (if b then r else c) rs) hit ∙ open_base r h in
        let right : chosen_after c (r ∷ rs) ≡ r = rw (e, h) in left ∙ sym right
    | inr h ↦
        let kept_row : replaces c r ≡ false = ground (arith, e, h) in
        let right : chosen_after c rs ≡ chosen_after c (r ∷ rs) = rw h in
        ap (λ b. chosen_after (if b then r else c) rs) kept_row ∙ right
  ]
]
  where
    open_base :
        (r : PositionRow)
        → (not (is_zero r.base) && same_text r.traded_at c.traded_at) ≡ true
        → (if is_zero r.base
            then (elim (first_open r.traded_at rs) [ none ↦ r | some s ↦ s ])
            else r)
          ≡ r
    open_base r h = ground arith

kept-after :
    (o : Option PositionRow) (r : PositionRow) (rs : List PositionRow)
    → some (chosen_after (kept o r) rs) ≡ after o (r ∷ rs)
kept-after none r rs = refl
kept-after (some c) r rs = ap some (chosen_after_one c r rs)

after_nil : (o : Option PositionRow) → after o [] ≡ o
after_nil none = refl
after_nil (some c) = ap some (chosen_after_nil c)

-- A row changes the entry of its own group, and of no other.
latest_step_self :
    (m : List (List ℕ × PositionRow)) (r : PositionRow)
    → find_entry same_text (group_key r) (latest_step m r)
      ≡ some (kept (find_entry same_text (group_key r) m) r)
unfolding latest_step
latest_step_self m r = go (find_entry same_text (group_key r) m) refl
  where
    go :
        (o : Option PositionRow)
        → find_entry same_text (group_key r) m ≡ o
        → find_entry same_text (group_key r) (elim o [
          | none ↦ set_entry same_text (group_key r) r m
          | some current ↦ if replaces current r then set_entry same_text (group_key r) r m else m
        ])
          ≡ some (kept o r)
    go none e = find_entry-set_entry_self same_text same_text_refl eq_of_same_text (group_key r) r m
    go (some c) e = elim (Bool-cases (replaces c r)) [
      | inl h ↦
          rw h
            (find_entry-set_entry_self same_text same_text_refl eq_of_same_text (group_key r) r m)
      | inr h ↦ rw h e
    ]

latest_step_ne :
    (k : List ℕ) (m : List (List ℕ × PositionRow)) (r : PositionRow)
    → same_text (group_key r) k ≡ false
    → find_entry same_text k (latest_step m r) ≡ find_entry same_text k m
unfolding latest_step
latest_step_ne k m r e =
    ground (
      arith,
      find_entry-set_entry_ne same_text same_text_refl eq_of_same_text (group_key r) k r m e,
    )

latest_by_group-after :
    (k : List ℕ) (m : List (List ℕ × PositionRow)) (rows : List PositionRow)
    → find_entry same_text k (latest_by_group m rows)
      ≡ after (find_entry same_text k m) (rows_of k rows)
unfolding latest_by_group rows_of
latest_by_group-after k m [] = sym (after_nil (find_entry same_text k m))
latest_by_group-after k m (r ∷ rs) =
    let rest = latest_by_group-after k (latest_step m r) rs in
    elim (Bool-cases (same_text (group_key r) k)) [
      | inl e ↦
          let eq : group_key r ≡ k = eq_of_same_text (group_key r) k e in
          let step =
            subst
              (λ j.
                find_entry same_text j (latest_step m r) ≡ some (kept (find_entry same_text j m) r))
              eq (latest_step_self m r) in
          rw e (
            rest
            ∙ ap (λ o. after o (rows_of k rs)) step
            ∙ kept-after (find_entry same_text k m) r (rows_of k rs))
      | inr e ↦ rw e (rest ∙ ap (λ o. after o (rows_of k rs)) (latest_step_ne k m r e))
    ]

-- The row that stands for a group is the group's first one, the latest by the order of the query; but if
-- that one is closed and another row of the group and of the same time is not, the first such row. A
-- group without rows has none.
pub latest_by_group-chosen :
    (k : List ℕ) (rows : List PositionRow)
    → find_entry same_text k (latest_by_group [] rows) ≡ chosen (rows_of k rows)
unfolding find_entry
latest_by_group-chosen k rows = latest_by_group-after k [] rows

unfoldable pub risks_of : List ℕ → List FuturesPositionRisk → List FuturesPositionRisk
risks_of k [] = []
risks_of k (r ∷ rs) = if same_text (risk_key r) k then r ∷ risks_of k rs else risks_of k rs

risks_of-latest_risks :
    (k : List ℕ) (seen : List (List ℕ)) (rs : List FuturesPositionRisk)
    → risks_of k (latest_risks seen rs) ≡ (if has_key seen k then [] else take 1 (risks_of k rs))
unfolding risks_of latest_risks has_key
risks_of-latest_risks k seen [] = ground arith
risks_of-latest_risks k seen (r ∷ rs) = elim (Bool-cases (same_text (risk_key r) k)) [
  | inl e ↦
      let eq : risk_key r ≡ k = eq_of_same_text (risk_key r) k e in
      ground (
        arith,
        eq,
        e,
        ap (has_key seen) eq,
        risks_of-latest_risks k seen rs,
        risks_of-latest_risks k (risk_key r ∷ seen) rs,
      )
  | inr e ↦
      ground
        (arith, e, risks_of-latest_risks k seen rs, risks_of-latest_risks k (risk_key r ∷ seen) rs)
]

-- Of each group of futures snapshots just the first one is kept, the latest by the order of the query.
pub latest_risks-first :
    (k : List ℕ) (rs : List FuturesPositionRisk)
    → risks_of k (latest_risks [] rs) ≡ take 1 (risks_of k rs)
unfolding has_key
latest_risks-first k rs = risks_of-latest_risks k [] rs
