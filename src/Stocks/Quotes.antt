-- ===== src/Stocks/Quotes.antt =====
-- StockService.Quotes of backend/internal/services/stock_service.go: every symbol asked for is answered
-- once.
use mathlib.Core.List.{reverse, reverse_aux}
use line_stock_alert.Common.{
  suc, ◌+◌, ◌≤◌, ◌≡◌, refl, ap, ◌∙◌, inl, inr, Bool, false, not, List, [], ◌∷◌, arith, length,
  count, any, ltb, Bool-cases, if◌then◌else◌, ◌||◌,
}
use line_stock_alert.Text.{Text, Unicode, text_eq, is_empty, split_from}
use line_stock_alert.Text.Laws.{text_eq_iff}
use line_stock_alert.Sort.{sort_by, insert_by}
use line_stock_alert.Errors.{Error}
use line_stock_alert.World.{World, Result, ok, err, StockQuote}
use line_stock_alert.World.Triples.{
  Post, Triple, ◌⟫◌, with_fact, return_rule, lift_rule, map_err_rule, read_clock_rule, ignore_rule,
}
use line_stock_alert.Models.{StockProvider, ProviderError}
use line_stock_alert.Symbols.{matches_symbol, normalize}
use line_stock_alert.Stocks.{
  Catalog, MultipleQuotesResult, unique_symbols, bounded_symbols, parse_symbols, supported,
  cached_quote, one_quote, add_outcome, collect, quotes,
}

module _ {A : Type 0} (le : A → A → Bool) where
  length-insert_by : (a : A) (xs : List A) → length (insert_by le a xs) ≡ suc (length xs)
  unfolding insert_by
  length-insert_by a [] = refl
  length-insert_by a (x ∷ xs) = ground (arith, length-insert_by a xs)

  length-sort_by : (xs : List A) → length (sort_by le xs) ≡ length xs
  unfolding sort_by
  length-sort_by [] = refl
  length-sort_by (x ∷ xs) = length-insert_by x (sort_by le xs) ∙ ap suc (length-sort_by xs)

module _ (provider : StockProvider) where
  add_outcome-counts :
      (symbol : Text) (o : Result ProviderError StockQuote) (r : MultipleQuotesResult)
      → length (add_outcome provider symbol o r).quotes
          + length (add_outcome provider symbol o r).errors
        ≡ suc (length r.quotes + length r.errors)
  add_outcome-counts symbol (ok q) r = omega arith
  add_outcome-counts symbol (err e) r = omega arith

  one_quote-ends :
      (catalog : Catalog) (symbol : Text)
      → Triple
          (λ _. Unit {0})
          (one_quote provider catalog symbol)
          (λ _ _. Unit {0})
          (λ _ _. Unit {0})
  one_quote-ends catalog symbol = elim (Bool-cases (supported catalog symbol)) [
    | inl e ↦ rw (e, one_quote) (ignore_rule (cached_quote provider symbol))
    | inr e ↦ rw (e, one_quote) (return_rule _ (λ w h. tt))
  ]

  collect-counts :
      (catalog : Catalog) (symbols : List Text)
      → Triple
          (λ _. Unit {0})
          (collect provider catalog symbols)
          (λ r _. length r.quotes + length r.errors ≡ length symbols)
          (λ _ _. Unit {0})
  unfolding collect
  collect-counts catalog [] = return_rule _ (λ w h. omega arith)
  collect-counts catalog (symbol ∷ symbols) = one_quote-ends catalog symbol ⟫ λ o.
      collect-counts catalog symbols ⟫ λ r.
      return_rule _ (λ w h. add_outcome-counts symbol o r ∙ ap suc h)

  -- An answer to a list of symbols has exactly as many quotes and errors as the parsed list has
  -- symbols.
  pub quotes_account :
      (u : Unicode) (before : Catalog) (raw_symbols : Text) (w : World)
      → Post
          (λ r _.
            (symbols : List Text) × (parse_symbols u raw_symbols ≡ ok symbols)
            × (length r.0.quotes + length r.0.errors ≡ length symbols))
          (λ _ _. Unit {0})
          (quotes provider u before raw_symbols w)
  unfolding quotes
  quotes_account u before raw_symbols w =
      (lift_rule {P = λ _. Unit {0}} (parse_symbols u raw_symbols) (λ _ _ _ _. tt) ⟫ λ symbols.
      with_fact λ parsed. read_clock_rule ⟫ λ now.
      map_err_rule _ (lift_rule _ (λ _ _ _ _. tt)) ⟫ λ catalog. with_fact λ _.
        map_err_rule _ (collect-counts catalog symbols) ⟫ λ r. return_rule _ (λ v h. (
          symbols,
          parsed,
          omega (arith, h, length-sort_by _ r.quotes, length-sort_by _ r.errors),
        ))).at
        w tt

module _ {A : Type 0} (p : A → Bool) where
  count-reverse_aux : (xs ys : List A) → count p (reverse_aux xs ys) ≡ count p xs + count p ys
  count-reverse_aux [] ys = omega arith
  count-reverse_aux (x ∷ xs) ys = ground (arith, count-reverse_aux xs (x ∷ ys))

  count-reverse : (xs : List A) → count p (reverse xs) ≡ count p xs
  count-reverse xs = omega (arith, count-reverse_aux xs [])

count_none : (s : Text) (xs : List Text) → any (text_eq s) xs ≡ false → count (text_eq s) xs ≡ 0
count_none s [] h = refl
count_none s (x ∷ xs) h = ground (arith, count_none s xs)

abbrev pub is_invalid : Text → Bool
is_invalid s = not (matches_symbol s)

-- Each text at most once, and every one a valid symbol.
pub record IsUnique (xs : List Text) : Type 0 where
  pub once : (t : Text) → count (text_eq t) xs ≤ 1
  pub valid : count is_invalid xs ≡ 0

IsUnique-cons :
    (s : Text) (seen : List Text)
    → IsUnique seen
    → is_invalid s ≡ false
    → any (text_eq s) seen ≡ false
    → IsUnique (s ∷ seen)
IsUnique-cons s seen h good new = record {
  once = λ t. elim (Bool-cases (text_eq t s)) [
    | inl e ↦
        let same : t ≡ s = (text_eq_iff t s).0 e in
        let none_yet : count (text_eq t) seen ≡ 0 =
          ap (λ x. count (text_eq x) seen) same ∙ count_none s seen new in
        ground (arith, e, none_yet)
    | inr e ↦ ground (arith, e, h.once t)
  ];
  valid = rw good h.valid;
}

IsUnique-seen :
    (s : Text) (seen : List Text)
    → IsUnique seen
    → is_invalid s ≡ false
    → IsUnique (if any (text_eq s) seen then seen else s ∷ seen)
IsUnique-seen s seen h good = elim (Bool-cases (any (text_eq s) seen)) [
  | inl e ↦ rw e h
  | inr e ↦ rw e (IsUnique-cons s seen h good e)
]

unique_symbols-IsUnique :
    (u : Unicode) (seen parts symbols : List Text)
    → IsUnique seen
    → unique_symbols u seen parts ≡ ok symbols
    → IsUnique symbols
unfolding unique_symbols
unique_symbols-IsUnique u seen [] symbols h e =
    let same : reverse seen ≡ symbols = cc in
    let r : IsUnique (reverse seen) = record {
      once = λ t. omega (arith, count-reverse (text_eq t) seen, h.once t);
      valid = count-reverse is_invalid seen ∙ h.valid;
    } in
    rw same at r
unique_symbols-IsUnique u seen (part ∷ parts) symbols h e =
    let s = normalize u part in
    elim (Bool-cases (is_invalid s)) [
      | inl bad ↦ ground (arith, bad, e)
      | inr good ↦
          unique_symbols-IsUnique u (if any (text_eq s) seen then seen else s ∷ seen) parts symbols
            (IsUnique-seen s seen h good) (rw (good, unique_symbols) at e)
    ]

bounded-IsUnique :
    (raw : Text) (r : Result Error (List Text)) (symbols : List Text)
    → ((xs : List Text) → r ≡ ok xs → IsUnique xs)
    → bounded_symbols raw r ≡ ok symbols
    → IsUnique symbols × (length symbols ≤ 50)
bounded-IsUnique raw (err x) symbols h e = ground (arith, e)
bounded-IsUnique raw (ok xs) symbols h e = elim (Bool-cases (is_empty raw || ltb 50 (length xs))) [
  | inl bad ↦ let e' : err _ ≡ ok symbols = rw bad at e in cc
  | inr good ↦
      let same : xs ≡ symbols = ground (arith, good, e) in
      let both : IsUnique xs × (length xs ≤ 50) = (h xs refl, ground (arith, good)) in
      rw same at both
]

-- A list of symbols that is accepted has at most 50 of them, every one a valid symbol, none twice.
pub parsed_symbols_unique :
    (u : Unicode) (raw : Text) (symbols : List Text)
    → parse_symbols u raw ≡ ok symbols
    → ((t : Text) → count (text_eq t) symbols ≤ 1)
      × (count (λ s. not (matches_symbol s)) symbols ≡ 0)
      × (length symbols ≤ 50)
unfolding parse_symbols
parsed_symbols_unique u raw symbols e =
    let empty : IsUnique [] = record { once = λ t. omega arith; valid = refl } in
    let both =
      bounded-IsUnique raw (unique_symbols u [] (split_from b',' [] raw)) symbols
        (λ xs got. unique_symbols-IsUnique u [] (split_from b',' [] raw) xs empty got) e in
    (both.0.once, both.0.valid, both.1)
