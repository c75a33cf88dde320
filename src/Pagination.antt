-- ===== src/Pagination.antt =====
-- web/src/hooks/usePagination.ts. A handler belongs to the render whose state `seen` it closes over, and
-- acts on the state of the moment when it runs. Page sizes are positive; sizes and totals are whole.
pub mod Range
pub mod Windows
mod Tests
use bbgo_sass.Prelude.{
  ℕ, suc, ◌+◌, ◌-◌, ◌*◌, ◌/◌, min, max, Bool, true, false, List, [], ◌∷◌, Option, none, some, ltb,
  ◌==◌, if◌then◌else◌,
}
use bbgo_sass.Prelude.Int.{ℤ, pos, negsuc, pos_part, ◌-ℤ◌}

-- The three `useState` cells.
pub record Pager : Type 0 where
  pub page : ℕ
  pub page_size : ℕ
  pub total : ℕ

pub record Options : Type 0 where
  pub initial_page : Option ℤ
  pub initial_page_size : Option ℕ
  pub initial_total : Option ℤ

-- `Math.max(1, x)` and `Math.max(0, x)`.
abbrev pub at_least_one : ℤ → ℕ
at_least_one x = max 1 (pos_part x)

abbrev or_default {ℓ} : {A : Type ℓ} → Option A → A → A
or_default none d = d
or_default (some a) d = a

unfoldable pub init : Options → Pager
init o = record {
  page = at_least_one (or_default o.initial_page (pos 1));
  page_size = or_default o.initial_page_size 20;
  total = pos_part (or_default o.initial_total (pos 0));
}

-- `Math.ceil(total / size)`
abbrev pub ceil_div : ℕ → ℕ → ℕ
ceil_div total size = (total + size - 1) / size

unfoldable pub pages : ℕ → ℕ → ℕ
pages total size = if ltb 0 total then max 1 (ceil_div total size) else 1

abbrev pub total_pages : Pager → ℕ
total_pages s = pages s.total s.page_size

unfoldable pub clamp_page : ℕ → ℕ → ℕ → ℕ
clamp_page next_total next_page_size prev_page =
    let tp = pages next_total next_page_size in if ltb tp prev_page then tp else prev_page

-- `Math.max(1, Math.min(next, totalPages))`, for a number of pages that is at least 1.
unfoldable pub set_page : Pager → ℤ → Pager → Pager
set_page seen n s = record s { page = max 1 (min (pos_part n) (total_pages seen)) }

unfoldable pub next : Pager → Pager → Pager
unfolding set_page
next seen s = set_page seen (pos (seen.page + 1)) s

unfoldable pub prev : Pager → Pager → Pager
unfolding set_page
prev seen s = set_page seen (pos seen.page -ℤ pos 1) s

unfoldable pub set_page_size : ℕ → Pager → Pager
set_page_size size s = record s { page_size = size; page = max 1 s.page }

unfoldable pub set_total : Pager → ℤ → Pager → Pager
set_total seen n s =
    let sanitized = pos_part n in
    record s { total = sanitized; page = clamp_page sanitized seen.page_size s.page }

unfoldable pub reset : Pager → Pager
reset s = record s { page = 1 }

-- What the hook returns besides the handlers.
unfoldable pub has_next : Pager → Bool
has_next s = ltb s.page (total_pages s)

unfoldable pub has_prev : Pager → Bool
has_prev s = ltb 1 s.page

unfoldable pub offset : Pager → ℕ
offset s = (s.page - 1) * s.page_size

unfoldable pub end_index : Pager → ℕ
end_index s = offset s + s.page_size - 1

unfoldable pub display_from : Pager → ℕ
display_from s = if s.total == 0 then 0 else offset s + 1

unfoldable pub display_to : Pager → ℕ
display_to s = min (offset s + s.page_size) s.total
