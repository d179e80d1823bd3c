-- ===== src/Stocks/Pages.antt =====
-- StockService.Search of backend/internal/services/stock_service.go: the slice of one page lies within the
-- list, and the pages together are the list.
use line_stock_alert.Text.Atoi.{atoi}
use line_stock_alert.Common.Int.{ℤ, pos, negsuc}
use line_stock_alert.Common.{
  ℕ, zero, suc, ◌+◌, ◌-◌, ◌*◌, ◌/◌, ◌<◌, ◌≤◌, ◌≡◌, refl, sym, ◌∙◌, inl, inr, true, false, List, [],
  ◌∷◌, ◌++◌, arith, length, take, drop, leb, ltb, Bool-cases, take-all, length-drop, leb→le, Option,
  none, some, ◌&&◌,
}
use native.Mathlib.Nat.{div-add-mod', mod-lt, mul-le-mul_right}
use line_stock_alert.Text.{Text, Unicode, is_empty}
use line_stock_alert.World.{ok}
use line_stock_alert.Models.{StockProvider}
use line_stock_alert.Symbols.{normalize}
use line_stock_alert.Stocks.{
  positive_int, positive, Catalog, StockPage, page_start, page_end, page_of, found, stock_catalog,
}

-- With a positive limit, the end of a page is not before its start, nor past the end of the list.
pub page_within :
    (total page limit : ℕ)
    → 0 < limit
    → (page_start total page limit ≤ page_end total page limit)
      × (page_end total page limit ≤ total)
page_within total page limit h = elim (Bool-cases (leb page (total / limit + 1))) [
  | inr late ↦ ground (arith, late)
  | inl early ↦
      let full : (page - 1) * limit ≤ total / limit * limit =
        mul-le-mul_right limit (omega (arith, leb→le page (total / limit + 1) early)) in
      let whole = div-add-mod' total limit in ground (arith, early, full, whole)
]

module _ {A : Type 0} where
  take-nil : (n : ℕ) → take {A = A} n [] ≡ []
  take-nil zero = refl
  take-nil (suc n) = refl

  take-append-take : (m n : ℕ) (xs : List A) → take m xs ++ take n (drop m xs) ≡ take (m + n) xs
  take-append-take zero n xs = let e : 0 + n ≡ n = omega arith in rw e refl
  take-append-take (suc m) n [] = let e : suc m + n ≡ suc (m + n) = omega arith in rw e (take-nil n)
  take-append-take (suc m) n (x ∷ xs) =
      let e : suc m + n ≡ suc (m + n) = omega arith in rw (e, take-append-take m n xs) refl

  -- A page that is not past the last is cut out at its place.
  page_of-early :
      (xs : List A) (k limit : ℕ)
      → leb (suc k) (length xs / limit + 1) ≡ true
      → page_of xs (suc k) limit ≡ take limit (drop (k * limit) xs)
  page_of-early xs k limit early =
      let one : suc k - 1 ≡ k = omega arith in
      elim (Bool-cases (ltb (length xs) (k * limit + limit))) [
        | inr room ↦
            let width : k * limit + limit - k * limit ≡ limit = omega arith in
            rw (early, one, room, width) refl
        | inl short ↦
            let n = length-drop (k * limit) xs in
            let fits : length (drop (k * limit) xs) ≤ length xs - k * limit = omega (arith, n) in
            let over : length (drop (k * limit) xs) ≤ limit = ground (arith, n, short) in
            rw (early, one, short)
              (take-all (length xs - k * limit) (drop (k * limit) xs) fits
                ∙ sym (take-all limit (drop (k * limit) xs) over))
      ]

  -- The first pages, one after the other.
  pub pages : ℕ → ℕ → List A → List A
  pages zero limit xs = []
  pages (suc k) limit xs = pages k limit xs ++ page_of xs (suc k) limit

  pages-take :
      (k limit : ℕ) (xs : List A)
      → k ≤ length xs / limit + 1
      → pages k limit xs ≡ take (k * limit) xs
  unfolding pages
  pages-take zero limit xs h = let e : 0 * limit ≡ 0 = omega arith in rw e refl
  pages-take (suc k) limit xs h =
      let e : suc k * limit ≡ k * limit + limit = grind arith in
      let early : leb (suc k) (length xs / limit + 1) ≡ true = ground (arith, h) in
      rw (e, pages-take k limit xs (omega (arith, h)), page_of-early xs k limit early)
        (take-append-take (k * limit) limit xs)

  -- With a positive limit, the pages up to the last one are together the whole list, in order; every
  -- page after it is empty.
  pub pages_cover :
      (limit : ℕ) (xs : List A) (beyond : ℕ)
      → 0 < limit
      → (pages (length xs / limit + 1) limit xs ≡ xs)
        × (page_of xs (length xs / limit + 2 + beyond) limit ≡ [])
  pages_cover limit xs beyond h =
      let q = length xs / limit in
      let e : (q + 1) * limit ≡ q * limit + limit = grind arith in
      let enough : length xs ≤ (q + 1) * limit =
        omega (arith, e, div-add-mod' (length xs) limit, mod-lt (length xs) {m = limit} h) in
      let late : leb (q + 2 + beyond) (q + 1) ≡ false = ground arith in
      let past : ltb (length xs) (length xs + limit) ≡ true = ground (arith, h) in
      let none_left : length xs - length xs ≡ 0 = omega arith in
      (
        pages-take (q + 1) limit xs (omega arith) ∙ take-all ((q + 1) * limit) xs enough,
        rw (late, past, none_left) refl,
      )

positive-bounds :
    (maximum : ℕ) (o : Option ℤ) (n : ℕ)
    → positive maximum o ≡ ok n
    → (1 ≤ n) × ((ltb 0 maximum && ltb maximum n) ≡ false)
positive-bounds maximum none n e = ground (arith, e)
positive-bounds maximum (some (negsuc k)) n e = ground (arith, e)
positive-bounds maximum (some (pos k)) n e = ground (arith, e)

pub positive_int-bounds :
    (value : Text) (fallback maximum n : ℕ)
    → 1 ≤ fallback
    → (ltb 0 maximum && ltb maximum fallback) ≡ false
    → positive_int value fallback maximum ≡ ok n
    → (1 ≤ n) × ((ltb 0 maximum && ltb maximum n) ≡ false)
unfolding positive_int
positive_int-bounds value fallback maximum n low high e = elim (Bool-cases (is_empty value)) [
  | inl h ↦ ground (arith, h, e, low, high)
  | inr h ↦ positive-bounds maximum (atoi value) n (rw h at e)
]

-- What a page of a search is.
pub record IsPage (u : Unicode) (provider : StockProvider) (now : ℕ) (before : Catalog)
    (search : Text) (p : StockPage) (after : Catalog) : Type 0 where
  pub page_positive : 1 ≤ p.page
  pub limit_positive : 1 ≤ p.limit
  pub limit_bounded : p.limit ≤ 100
  pub loaded : stock_catalog provider now before ≡ ok after
  pub counted : p.total ≡ length (found u (normalize u search) after.stocks)
  pub cut_out : p.stocks ≡ page_of (found u (normalize u search) after.stocks) p.page p.limit
  pub bounded : length p.stocks ≤ p.limit
