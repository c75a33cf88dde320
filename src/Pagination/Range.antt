-- ===== src/Pagination/Range.antt =====
-- Which calls keep the page among the pages there are.
use bbgo_sass.Prelude.{
  ℕ, ◌+◌, ◌-◌, ◌≤◌, ◌<◌, ◌≡◌, ◌↔◌, Bool, true, false, List, [], ◌∷◌, arith, All, ltb→lt, ap,
}
use bbgo_sass.Prelude.Int.{ℤ, pos, pos_part, ◌-ℤ◌}
use bbgo_sass.Pagination.{
  Pager, pages, total_pages, clamp_page, set_page, next, prev, set_page_size, set_total, reset,
  has_next,
}

-- The page is one of the pages there are.
pub record InRange (s : Pager) : Type 0 where
  pub page_pos : 1 ≤ s.page
  pub page_le : s.page ≤ total_pages s

pub pages_pos : (total size : ℕ) → 1 ≤ pages total size
unfolding pages
pages_pos total size = ground arith

-- A call of a handler; `resizes` is the one of `setPageSize`.
pub data Call : Type 0 where
  sets_page : ℤ → Call
  nexts prevs resets : Call
  sets_total : ℤ → Call
  resizes : ℕ → Call

unfoldable pub call : Call → Pager → Pager → Pager
call (sets_page n) seen s = set_page seen n s
call nexts seen s = next seen s
call prevs seen s = prev seen s
call resets seen s = reset s
call (sets_total n) seen s = set_total seen n s
call (resizes size) seen s = set_page_size size s

-- Every call, also of a handler from an earlier render, leaves a page from 1 on.
pub call-page_pos : (c : Call) (seen s : Pager) → 1 ≤ s.page → 1 ≤ (call c seen s).page
unfolding call set_page next prev reset set_total set_page_size clamp_page
call-page_pos (sets_page n) seen s h = omega arith
call-page_pos nexts seen s h = omega arith
call-page_pos prevs seen s h = omega arith
call-page_pos resets seen s h = omega arith
call-page_pos (sets_total n) seen s h = ground (arith, pages_pos (pos_part n) seen.page_size)
call-page_pos (resizes size) seen s h = omega arith

abbrev pub keeps_size : Call → Bool
keeps_size (resizes size) = false
keeps_size (sets_page n) = true
keeps_size (sets_total n) = true
keeps_size _ = true

call-InRange : (c : Call) (s : Pager) → keeps_size c ≡ true → InRange s → InRange (call c s s)
unfolding call set_page next prev reset set_total clamp_page
call-InRange (sets_page n) s e v = omega (arith, pages_pos s.total s.page_size)
call-InRange nexts s e v = omega (arith, pages_pos s.total s.page_size)
call-InRange prevs s e v = omega (arith, pages_pos s.total s.page_size)
call-InRange resets s e v = omega (arith, pages_pos s.total s.page_size)
call-InRange (sets_total n) s e v = ground (arith, pages_pos (pos_part n) s.page_size, v.page_pos)
call-InRange (resizes size) s e v = ground arith

-- Calls one after the other, each of the handlers of the render before it.
unfoldable pub calls : List Call → Pager → Pager
calls [] s = s
calls (c ∷ cs) s = calls cs (call c s s)

-- From a page in range, any calls other than changes of the page size, each of the handlers of the
-- current render, lead to a page in range.
pub calls-InRange :
    (cs : List Call) (s : Pager)
    → All (λ c. keeps_size c ≡ true) cs
    → InRange s
    → InRange (calls cs s)
unfolding calls
calls-InRange [] s h v = v
calls-InRange (c ∷ cs) s h v = calls-InRange cs (call c s s) h.1 (call-InRange c s h.0 v)

-- A change of the page size from a page in range does not move the page, so the page stays in range
-- exactly if there are so many pages of the new size; the next `setTotal` brings it back in range.
pub set_page_size-InRange :
    (size : ℕ) (n : ℤ) (s : Pager)
    → InRange s
    → let t = set_page_size size s in
      (t.page ≡ s.page) × (InRange t ↔ (s.page ≤ pages s.total size)) × InRange (set_total t n t)
unfolding set_page_size set_total clamp_page
set_page_size-InRange size n s v = (
  omega (arith, v.page_pos),
  (
    λ w. omega (arith, w.page_le),
    λ h. record { page_pos = omega arith; page_le = omega (arith, v.page_pos) },
  ),
  ground (arith, pages_pos (pos_part n) size),
)

pos_part-pred : (n : ℕ) → pos_part (pos n -ℤ pos 1) ≡ n - 1
unfolding ◌-ℤ◌
pos_part-pred n = ground arith

-- Where there is a next page, going there and back ends where it began.
pub prev-next :
    (s : Pager)
    → InRange s
    → has_next s ≡ true
    → let t = next s s in (t.page ≡ s.page + 1) × (prev t t ≡ s)
unfolding next prev set_page has_next
prev-next s v h =
    let more : s.page < total_pages s = ltb→lt _ _ h in
    let here : (next s s).page ≡ s.page + 1 = omega (arith, v.page_pos) in
    let back : (prev (next s s) (next s s)).page ≡ s.page =
      omega (arith, here, pos_part-pred (next s s).page) in
    (here, ap (λ k. record s { page = k }) back)
