-- ===== src/Core/Pagination.antt =====
-- app/common/pagination.py
pub mod Bounds
use green_communuty_backend.Prelude.{
  ℕ, ◌+◌, ◌-◌, ◌*◌, ◌/◌, ◌≤◌, List, take, drop, ◌==◌, if◌then◌else◌,
}

pub record PageParams : Type 0 where
  pub page : ℕ
  pub size : ℕ

abbrev pub max_page_size : ℕ
max_page_size = 100

-- What `Query(ge=1)` and `Query(ge=1, le=MAX_PAGE_SIZE)` let through.
pub record IsAccepted (p : PageParams) : Type 0 where
  pub first_page : 1 ≤ p.page
  pub some_rows : 1 ≤ p.size
  pub bounded : p.size ≤ max_page_size

unfoldable pub offset : PageParams → ℕ
offset p = (p.page - 1) * p.size

unfoldable pub limit : PageParams → ℕ
limit p = p.size

-- `OFFSET offset LIMIT limit`, and Python's slice `[offset : offset + limit]`
unfoldable pub page_of {ℓ} : {A : Type ℓ} → PageParams → List A → List A
unfolding offset limit
page_of p rows = take (limit p) (drop (offset p) rows)

unfoldable pub total_pages : ℕ → PageParams → ℕ
total_pages total p = if total == 0 then 0 else (total + p.size - 1) / p.size

pub record PageResponse (A : Type 0) : Type 0 where
  pub items : List A
  pub total : ℕ
  pub page : ℕ
  pub size : ℕ
  pub total_pages : ℕ

unfoldable pub create : {A : Type 0} → List A → ℕ → PageParams → PageResponse A
create items total params = record {
  items = items;
  total = total;
  page = params.page;
  size = params.size;
  total_pages = total_pages total params;
}
