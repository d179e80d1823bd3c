-- ===== src/Sort/Laws.antt =====
-- Sorting keeps what is sorted.
use line_stock_alert.Common.{◌≡◌, refl, Bool, List, [], ◌∷◌, arith, map, count}
use line_stock_alert.Sort.{sort_by, insert_by}

module _ {A : Type 0} (p : A → Bool) (le : A → A → Bool) where
  count-insert_by : (a : A) (xs : List A) → count p (insert_by le a xs) ≡ count p (a ∷ xs)
  unfolding insert_by
  count-insert_by a [] = refl
  count-insert_by a (x ∷ xs) = ground (arith, count-insert_by a xs)

  pub count-sort_by : (xs : List A) → count p (sort_by le xs) ≡ count p xs
  unfolding sort_by
  count-sort_by [] = refl
  count-sort_by (x ∷ xs) = ground (arith, count-insert_by x (sort_by le xs), count-sort_by xs)

pub count-map :
    {A B : Type 0} (p : B → Bool) (f : A → B) (xs : List A)
    → count p (map f xs) ≡ count (λ x. p (f x)) xs
count-map p f [] = refl
count-map p f (x ∷ xs) = ground (arith, count-map p f xs)
