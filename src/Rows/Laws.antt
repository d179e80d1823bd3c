-- ===== src/Rows/Laws.antt =====
-- What an UPDATE by primary key does to a table: it changes the one row that it finds.
use line_stock_alert.Common.{
  ℕ, ◌+◌, ◌≤◌, ◌≡◌, refl, sym, inl, inr, Bool, true, false, some, List, [], ◌∷◌, arith, Bool-cases,
  find?, any, count, ◌∙◌,
}
use line_stock_alert.Text.{Text, text_eq}
use line_stock_alert.Text.Laws.{text_eq_iff}
use line_stock_alert.Rows.{update_where, update_if, UniqueKeys, delete_where}

-- 1 for a row that is counted.
abbrev pub tally : Bool → ℕ
tally true = 1
tally false = 0

module _ {A : Type 0} where
  pub find?-holds : (q : A → Bool) (rs : List A) (a : A) → find? q rs ≡ some a → q a ≡ true
  find?-holds q [] a e = cc
  find?-holds q (r ∷ rs) a e = elim (Bool-cases (q r)) [
    | inl h ↦ let e' : some r ≡ some a = rw h at e in cc
    | inr h ↦ find?-holds q rs a (rw h at e)
  ]

  pub any_of_find? : (q : A → Bool) (rs : List A) (a : A) → find? q rs ≡ some a → any q rs ≡ true
  any_of_find? q [] a e = cc
  any_of_find? q (r ∷ rs) a e = elim (Bool-cases (q r)) [
    | inl h ↦ rw h
    | inr h ↦ rw h (any_of_find? q rs a (rw h at e))
  ]

  pub delete_none : (q : A → Bool) (rs : List A) → any q rs ≡ false → delete_where q rs ≡ rs
  delete_none q [] e = refl
  delete_none q (r ∷ rs) e = ground (arith, delete_none q rs)

  pub delete_gone : (q : A → Bool) (rs : List A) → any q (delete_where q rs) ≡ false
  delete_gone q [] = refl
  delete_gone q (r ∷ rs) = ground (arith, delete_gone q rs)

  pub count-found :
      (p q : A → Bool) (rs : List A) (a : A) → find? p rs ≡ some a → q a ≡ true → 1 ≤ count q rs
  count-found p q [] a e h = cc
  count-found p q (r ∷ rs) a e h = ground (arith, count-found p q rs a)

  -- A search that an UPDATE does not disturb finds the updated row.
  pub find?-update :
      (p q : A → Bool) (f : A → A) (rs : List A) (a : A)
      → ((r : A) → p (f r) ≡ p r)
      → find? p rs ≡ some a
      → find? p (update_where q f rs) ≡ some (update_if q f a)
  find?-update p q f [] a h e = cc
  find?-update p q f (r ∷ rs) a h e = ground (arith, h r, find?-update p q f rs a h)

  any_of_any :
      (q p : A → Bool) (rs : List A)
      → ((r : A) → q r ≡ true → p r ≡ true)
      → any q rs ≡ true
      → any p rs ≡ true
  any_of_any q p [] h e = cc
  any_of_any q p (r ∷ rs) h e = ground (arith, h r, any_of_any q p rs h)

  -- A predicate that every row it accepts shares with one that no row has.
  pub update_none :
      (q p : A → Bool) (f : A → A) (rs : List A)
      → ((r : A) → q r ≡ true → p r ≡ true)
      → any p rs ≡ false
      → update_where q f rs ≡ rs
  update_none q p f [] h e = refl
  update_none q p f (r ∷ rs) h e = ground (arith, h r, update_none q p f rs h)

  module _ (key : A → Text) where
    abbrev has_key : Text → A → Bool
    has_key k r = text_eq (key r) k

    pub count-update :
        (p q : A → Bool) (f : A → A) (k : Text) (rs : List A) (a : A)
        → UniqueKeys key rs
        → ((r : A) → q r ≡ true → key r ≡ k)
        → find? q rs ≡ some a
        → count p (update_where q f rs) + tally (p a) ≡ count p rs + tally (p (f a))
    count-update p q f k [] a u h e = cc
    count-update p q f k (r ∷ rs) a u h e = elim (Bool-cases (q r)) [
      | inl hit ↦
          let e' : r ≡ a = ground arith in
          let same : update_where q f rs ≡ rs =
            update_none q (has_key (key r)) f rs
              (λ s hs. (text_eq_iff (key s) (key r)).1 (h s hs ∙ sym (h r hit))) u.0 in
          ground (arith, e', same)
      | inr miss ↦ ground (arith, count-update p q f k rs a u.1 h)
    ]

    no_row_with_key :
        (k : Text) (q : A → Bool) (rs : List A) (a : A)
        → ((r : A) → q r ≡ true → key r ≡ k)
        → any (has_key k) rs ≡ false
        → find? q rs ≡ some a
        → ⊥
    no_row_with_key k q rs a h none_has e = cc (
        any_of_any q (has_key k) rs (λ r hr. (text_eq_iff (key r) k).1 (h r hr))
          (any_of_find? q rs a e))

    -- Two searches for the row with one key find the same row.
    pub find?-unique :
        (p q : A → Bool) (k : Text) (rs : List A) (a b : A)
        → UniqueKeys key rs
        → ((r : A) → p r ≡ true → key r ≡ k)
        → ((r : A) → q r ≡ true → key r ≡ k)
        → find? p rs ≡ some a
        → find? q rs ≡ some b
        → a ≡ b
    find?-unique p q k [] a b u hp hq e f = cc
    find?-unique p q k (r ∷ rs) a b u hp hq e f = elim (Bool-cases (p r)) [
      | inl pr ↦ elim (Bool-cases (q r)) [
        | inl qr ↦ ground arith
        | inr qr ↦
            absurd
              (no_row_with_key (key r) q rs b (λ s hs. hq s hs ∙ sym (hp r pr)) u.0 (rw qr at f))
      ]
      | inr pr ↦ elim (Bool-cases (q r)) [
        | inl qr ↦
            absurd
              (no_row_with_key (key r) p rs a (λ s hs. hp s hs ∙ sym (hq r qr)) u.0 (rw pr at e))
        | inr qr ↦ find?-unique p q k rs a b u.1 hp hq (rw pr at e) (rw qr at f)
      ]
    ]
