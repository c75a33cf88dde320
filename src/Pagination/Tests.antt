-- ===== src/Pagination/Tests.antt =====
-- Runs of the pager, and the theorems about it at inputs.
use bbgo_sass.Prelude.{ℕ, ◌+◌, ◌/◌, ◌≤◌, ◌≡◌, ◌↔◌, refl, [], ◌∷◌, none, arith}
use bbgo_sass.Prelude.Int.{pos, ◌-ℤ◌}
use bbgo_sass.Pagination.{
  Pager, init, pages, total_pages, next, prev, set_page, set_page_size, set_total, clamp_page,
  offset, end_index,
}
use bbgo_sass.Pagination.Range.{
  InRange, nexts, prevs, sets_total, call, calls, calls-InRange, set_page_size-InRange,
}
use bbgo_sass.Pagination.Windows.{offset_window}

-- The third of the five pages of 95 rows.
abbrev third : Pager
third = record { page = 3; page_size = 20; total = 95 }

third-InRange : InRange third
unfolding pages
third-InRange = record { page_pos = omega arith; page_le = omega arith }

starts :
    init (record { initial_page = none; initial_page_size = none; initial_total = none })
    ≡ record { page = 1; page_size = 20; total = 0 }
unfolding init
starts = refl

walks :
    calls (nexts ∷ nexts ∷ nexts ∷ sets_total (pos 21) ∷ prevs ∷ []) third
    ≡ record { page = 1; page_size = 20; total = 21 }
unfolding calls call next prev set_page set_total clamp_page pages ◌-ℤ◌
walks = refl

-- Page 3 of 95 rows, with 200 rows to a page.
resize_leaves_range : ¬ InRange (set_page_size 200 third)
unfolding set_page_size pages
resize_leaves_range v = absurd (omega (arith, v.page_le))

calls-InRange_example : InRange (calls (nexts ∷ sets_total (pos 21) ∷ []) third)
calls-InRange_example =
    calls-InRange (nexts ∷ sets_total (pos 21) ∷ []) third (refl, (refl, tt)) third-InRange

set_page_size-InRange_example :
    let t = set_page_size 200 third in
    (t.page ≡ 3) × (InRange t ↔ (3 ≤ pages 95 200)) × InRange (set_total t (pos 95) t)
set_page_size-InRange_example = set_page_size-InRange 200 (pos 95) third third-InRange

offset_window_example :
    (((offset third ≤ 47) × (47 ≤ end_index third)) ↔ (◌≡◌ {A = ℕ} 3 (47 / 20 + 1)))
    × (47 / 20 + 1 ≤ total_pages third)
offset_window_example = offset_window third 47 (omega arith) (omega arith) (omega arith)
