-- ===== src/Rows.antt =====
-- SQL statements on a table as a list of rows: UPDATE … WHERE, DELETE … WHERE, a primary key.
pub mod Laws
use line_stock_alert.Common.{
  ◌≡◌, Bool, true, false, not, List, [], ◌∷◌, map, if◌then◌else◌, filter, any,
}
use line_stock_alert.Text.{Text, text_eq}

module _ {A : Type 0} where
  abbrev pub update_if : (A → Bool) → (A → A) → A → A
  update_if p f r = if p r then f r else r

  abbrev pub update_where : (A → Bool) → (A → A) → List A → List A
  update_where p f [] = []
  update_where p f (r ∷ rs) = update_if p f r ∷ update_where p f rs

  abbrev pub delete_where : (A → Bool) → List A → List A
  delete_where p rs = filter (λ r. not (p r)) rs

  -- No two rows have the same key.
  abbrev pub UniqueKeys : (A → Text) → List A → Type 0
  UniqueKeys key [] = Unit
  UniqueKeys key (r ∷ rs) = (any (λ s. text_eq (key s) (key r)) rs ≡ false) × UniqueKeys key rs
