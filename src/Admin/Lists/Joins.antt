-- ===== src/Admin/Lists/Joins.antt =====
-- The joins of List in backend/internal/repositories/admin_alert_repository.go: how many rows they have.
use line_stock_alert.Common.{
  suc, ◌≡◌, refl, sym, ap, ◌∙◌, inl, inr, Bool, false, not, none, some, List, [], ◌∷◌, arith, find?,
  filter, count, length, leb, Bool-cases, Option-cases, is_some,
}
use line_stock_alert.Sort.{sort_by}
use line_stock_alert.Sort.Laws.{count-sort_by}
use line_stock_alert.World.{Db, AlertRow, StockRow}
use line_stock_alert.Repositories.Alerts.{stock_of}
use line_stock_alert.Repositories.Admin.{user_id_is}
use line_stock_alert.Repositories.AdminLists.{
  AdminAlertFilter, with_stocks, with_users, alert_passes, selected_alerts, count_alerts,
}

-- An alert whose user is not in the tables.
abbrev pub has_no_user : Db → AlertRow → Bool
has_no_user d a = not (is_some (find? (user_id_is a.user_id) d.users))

module _ (d : Db) where
  count-with_stocks :
      (p : AlertRow × StockRow → Bool) (q : AlertRow → Bool) (xs : List AlertRow)
      → ((a : AlertRow) (s : StockRow) → stock_of d a ≡ some s → p (a, s) ≡ q a)
      → ((a : AlertRow) → stock_of d a ≡ none → q a ≡ false)
      → count p (with_stocks d xs) ≡ count q xs
  unfolding with_stocks
  count-with_stocks p q [] found missing = refl
  count-with_stocks p q (a ∷ xs) found missing =
      let ih = count-with_stocks p q xs found missing in
      elim (Option-cases (stock_of d a)) [
        | inl h ↦ let off = missing a h in rw (h, with_stocks) (ground (arith, off, ih))
        | inr (s, h) ↦ let same = found a s h in rw (h, with_stocks) (ground (arith, same, ih))
      ]

  orphans-with_stocks :
      (p : AlertRow × StockRow → Bool) (xs : List AlertRow)
      → count (has_no_user d) xs ≡ 0
      → count (λ (r : AlertRow × StockRow). has_no_user d r.0) (filter p (with_stocks d xs)) ≡ 0
  unfolding with_stocks
  orphans-with_stocks p [] h = refl
  orphans-with_stocks p (a ∷ xs) h = elim (Bool-cases (has_no_user d a)) [
    | inl lost ↦ ground (arith, lost, h)
    | inr kept ↦
        let rest : count (has_no_user d) xs ≡ 0 = ground (arith, kept, h) in
        let ih = orphans-with_stocks p xs rest in
        elim (Option-cases (stock_of d a)) [
          | inl e ↦ rw (e, with_stocks) ih
          | inr (s, e) ↦ rw (e, with_stocks) (ground (arith, kept, ih))
        ]
  ]

  length-with_users :
      (rows : List (AlertRow × StockRow))
      → count (λ (r : AlertRow × StockRow). has_no_user d r.0) rows ≡ 0
      → length (with_users d rows) ≡ length rows
  unfolding with_users
  length-with_users [] h = refl
  length-with_users ((a, s) ∷ rows) h = elim (Option-cases (find? (user_id_is a.user_id) d.users)) [
    | inl e ↦ ground (arith, e, h)
    | inr (u, e) ↦
        let rest : count (λ (r : AlertRow × StockRow). has_no_user d r.0) rows ≡ 0 =
          ground (arith, e, h) in
        rw (e, with_users) (ap suc (length-with_users rows rest))
  ]

length-filter : {A : Type 0} (p : A → Bool) (xs : List A) → length (filter p xs) ≡ count p xs
length-filter p [] = refl
length-filter p (x ∷ xs) = ground (arith, length-filter p xs)

abbrev passes_joined : Db → (AlertRow × StockRow → Bool) → AlertRow → Bool
passes_joined d p a = elim (stock_of d a) [ none ↦ false | some s ↦ p (a, s) ]

passes_joined-some :
    (d : Db) (p : AlertRow × StockRow → Bool) (a : AlertRow) (s : StockRow)
    → stock_of d a ≡ some s
    → p (a, s) ≡ passes_joined d p a
passes_joined-some d p a s h = rw (h, passes_joined) refl

passes_joined-none :
    (d : Db) (p : AlertRow × StockRow → Bool) (a : AlertRow)
    → stock_of d a ≡ none
    → passes_joined d p a ≡ false
passes_joined-none d p a h = rw (h, passes_joined) refl

count-with_stocks-sort_by :
    (d : Db) (p : AlertRow × StockRow → Bool) (le : AlertRow → AlertRow → Bool) (xs : List AlertRow)
    → count p (with_stocks d (sort_by le xs)) ≡ count p (with_stocks d xs)
count-with_stocks-sort_by d p le xs =
    let found =
      λ (a : AlertRow) (s : StockRow) (h : stock_of d a ≡ some s). passes_joined-some d p a s h in
    let missing = passes_joined-none d p in
    count-with_stocks d p (passes_joined d p) (sort_by le xs) found missing
    ∙ count-sort_by (passes_joined d p) le xs
    ∙ sym (count-with_stocks d p (passes_joined d p) xs found missing)

-- Where every alert has its user, as the foreign key demands, the number that is counted is that of the
-- rows of all pages.
pub count_alerts-selected :
    (f : AdminAlertFilter) (d : Db)
    → count (has_no_user d) d.alerts ≡ 0
    → count_alerts f d ≡ length (selected_alerts f d)
unfolding count_alerts selected_alerts
count_alerts-selected f d owned =
    let newest = λ (a b : AlertRow). leb b.created_at a.created_at in
    let rows = with_stocks d (sort_by newest d.alerts) in
    let none_lost = count-sort_by (has_no_user d) newest d.alerts ∙ owned in
    sym (
      length-with_users d (filter (alert_passes f) rows)
        (orphans-with_stocks d (alert_passes f) (sort_by newest d.alerts) none_lost)
      ∙ length-filter (alert_passes f) rows
      ∙ count-with_stocks-sort_by d (alert_passes f) newest d.alerts)
