-- ===== src/Sort.antt =====
-- Sorting by a comparison: Go's sort.Slice and sort.SliceStable, and ORDER BY. Insertion from the
-- right keeps the order of equal elements, as a stable sort must and any sort may.
pub mod Laws
use line_stock_alert.Common.{Bool, List, [], ◌∷◌, if◌then◌else◌}

module _ {A : Type 0} (le : A → A → Bool) where
  unfoldable pub insert_by : A → List A → List A
  insert_by a [] = a ∷ []
  insert_by a (b ∷ bs) = if le a b then a ∷ b ∷ bs else b ∷ insert_by a bs

  unfoldable pub sort_by : List A → List A
  unfolding insert_by
  sort_by [] = []
  sort_by (a ∷ rest) = insert_by a (sort_by rest)
