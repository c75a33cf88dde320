-- ===== src/Pagination/Windows.antt =====
-- The rows that a page asks for and shows.
use bbgo_sass.Prelude.{
  ℕ, zero, suc, ◌+◌, ◌-◌, ◌*◌, ◌/◌, ◌≤◌, ◌<◌, ◌≡◌, ◌↔◌, true, arith, ltb→lt, lt→ltb,
}
use bbgo_sass.Pagination.{
  Pager, pages, total_pages, has_next, offset, end_index, display_from, display_to,
}
use bbgo_sass.Pagination.Range.{InRange}

row_page-le :
    (s : Pager) (row : ℕ) → 0 < s.page_size → row < s.total → row / s.page_size + 1 ≤ total_pages s
unfolding pages
row_page-le s row h k = grind arith

-- With a positive page size, a row of the total lies in the range that a page from 1 on asks for exactly
-- if the page is the row's page, and that is one of the pages there are.
pub offset_window :
    (s : Pager) (row : ℕ)
    → 0 < s.page_size
    → 1 ≤ s.page
    → row < s.total
    → (((offset s ≤ row) × (row ≤ end_index s)) ↔ (s.page ≡ row / s.page_size + 1))
      × (row / s.page_size + 1 ≤ total_pages s)
unfolding offset end_index
offset_window s row h p k = (grind arith, row_page-le s row h k)

-- Pages before the last one are full.
lt-pages :
    (page total size : ℕ)
    → 0 < size
    → 0 < total
    → 1 ≤ page
    → (page < pages total size) ↔ (page * size < total)
unfolding pages
lt-pages page total size h k p = grind arith

le-pages :
    (page total size : ℕ)
    → 0 < size
    → 0 < total
    → 1 ≤ page
    → page ≤ pages total size
    → (page - 1) * size < total
unfolding pages
le-pages page total size h k p e = grind arith

page_end : (page size : ℕ) → 1 ≤ page → (page - 1) * size + size ≡ page * size
page_end zero size h = absurd (omega arith)
page_end (suc p) size h = let e : suc p - 1 ≡ p = omega arith in rw e (omega arith)

-- In range and with rows to show, the display shows the rows from the first of the page on, up to a full
-- page of them, none beyond the total, and at least one; it is short of the total exactly if there is a
-- next page.
pub display_window :
    (s : Pager)
    → 0 < s.page_size
    → 0 < s.total
    → InRange s
    → (display_from s ≡ offset s + 1)
      × (display_from s ≤ display_to s)
      × (display_to s ≤ s.total)
      × (display_to s ≤ end_index s + 1)
      × ((has_next s ≡ true) ↔ (display_to s < s.total))
unfolding display_from display_to end_index has_next offset pages
display_window s h k v =
    let start = le-pages s.page s.total s.page_size h k v.page_pos v.page_le in
    let full = page_end s.page s.page_size v.page_pos in
    let more = lt-pages s.page s.total s.page_size h k v.page_pos in
    (
      ground arith,
      ground (arith, start),
      omega arith,
      omega arith,
      (
        (λ e. omega (arith, more.0 (ltb→lt _ _ e), full)),
        (λ e. lt→ltb _ _ (more.1 (omega (arith, full)))),
      ),
    )
