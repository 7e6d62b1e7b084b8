-- ===== src/Pagination.antt =====
-- internal/pagination/page.go: the window of a page, and the page that is answered.
pub mod Bounds
mod Tests
use ufo_observation_command.Base.{ℤ, pos, ltb_ℤ, leb_ℤ, if◌then◌else◌, List}

abbrev pub default_limit : ℤ
default_limit = pos 50

abbrev pub max_limit : ℤ
max_limit = pos 100

pub record Query : Type 0 where
  pub offset : ℤ
  pub limit : ℤ

abbrev at_least_zero : ℤ → ℤ
at_least_zero n = if ltb_ℤ n (pos 0) then pos 0 else n

abbrev or_default : ℤ → ℤ
or_default n = if leb_ℤ n (pos 0) then default_limit else n

abbrev at_most_max : ℤ → ℤ
at_most_max n = if ltb_ℤ max_limit n then max_limit else n

unfoldable pub normalize : ℤ → ℤ → Query
normalize offset limit = record {
  offset = at_least_zero offset;
  limit = at_most_max (or_default limit);
}

-- `Page`; a nil list of items and an empty one are the same list here.
pub record Page {ℓ} (T : Type ℓ) : Type ℓ where
  pub items : List T
  pub total : ℤ
  pub offset : ℤ
  pub limit : ℤ

unfoldable pub from {ℓ} : {T : Type ℓ} → List T → ℤ → Query → Page T
from items total query = record {
  items = items;
  total = total;
  offset = query.offset;
  limit = query.limit;
}
