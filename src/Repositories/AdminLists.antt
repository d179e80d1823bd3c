-- ===== src/Repositories/AdminLists.antt =====
-- List and Get of backend/internal/repositories/admin_alert_repository.go and admin_stock_repository.go:
-- what administrators look at. Columns that nothing computes with are left out.
use line_stock_alert.Common.{
  ℕ, Bool, not, ◌&&◌, ◌||◌, Option, none, some, List, [], ◌∷◌, map, find?, filter, count, take,
  drop, leb,
}
use line_stock_alert.Common.Int.{ℤ}
use line_stock_alert.Text.{Text, Unicode, text, text_eq, text_lt, is_empty}
use line_stock_alert.Text.Like.{contains_like}
use line_stock_alert.World.{
  M, Db, read, external, ◌>>=◌, pure, AlertRow, StockRow, Standing, alert_is_active,
  alert_status_text,
}
use line_stock_alert.Sort.{sort_by}
use line_stock_alert.Models.{Alert}
use line_stock_alert.Repositories.Errors.{
  RepositoryError, failure, admin_alert_not_found, admin_stock_not_found,
}
use line_stock_alert.Repositories.Alerts.{stock_of, scan_alert}
use line_stock_alert.Repositories.Admin.{user_id_is, alert_id_is, symbol_is, one_or}
use line_stock_alert.Repositories.Auth.{or_empty}

pub record AdminAlertFilter : Type 0 where
  pub symbol : Text
  pub status : Text
  pub user_id : Text
  pub limit : ℕ
  pub offset : ℕ

pub record AdminAlert : Type 0 where
  pub alert : Alert
  pub user_id : Text
  pub user_email : Option Text

-- `LIMIT $4 OFFSET $5`
abbrev pub slice : {A : Type 0} → ℕ → ℕ → List A → List A
slice limit offset rows = take limit (drop offset rows)

-- `JOIN stocks s ON s.id=a.stock_id`, for every alert.
unfoldable pub with_stocks : Db → List AlertRow → List (AlertRow × StockRow)
with_stocks db [] = []
with_stocks db (a ∷ rest) =
    let joined = with_stocks db rest in
    elim (stock_of db a) [ none ↦ joined | some s ↦ (a, s) ∷ joined ]

-- `JOIN users u ON u.id=a.user_id`, for every one of these rows.
unfoldable pub with_users : Db → List (AlertRow × StockRow) → List AdminAlert
with_users db [] = []
with_users db ((a, s) ∷ rest) =
    let joined = with_users db rest in
    elim (find? (user_id_is a.user_id) db.users) [
      | none ↦ joined
      | some u ↦
          record { alert = scan_alert s.symbol a; user_id = a.user_id; user_email = u.email }
          ∷ joined
    ]

-- `($1='' OR s.symbol=$1) AND ($2='' OR a.status=$2) AND ($3='' OR a.user_id::text=$3)`
abbrev pub alert_passes : AdminAlertFilter → AlertRow × StockRow → Bool
alert_passes f (a, s) =
    (is_empty f.symbol || text_eq s.symbol f.symbol)
    && (is_empty f.status || text_eq (alert_status_text a.status) f.status)
    && (is_empty f.user_id || text_eq a.user_id f.user_id)

-- Every row of the query of List, without its LIMIT, by created_at from the newest.
unfoldable pub selected_alerts : AdminAlertFilter → Db → List AdminAlert
unfolding with_stocks with_users sort_by
selected_alerts f db = with_users db (
    filter (alert_passes f)
      (with_stocks db (sort_by (λ (a b : AlertRow). leb b.created_at a.created_at) db.alerts)))

-- The query that counts does not join the users.
unfoldable pub count_alerts : AdminAlertFilter → Db → ℕ
unfolding with_stocks
count_alerts f db = count (alert_passes f) (with_stocks db db.alerts)

unfoldable pub list_alerts : AdminAlertFilter → M RepositoryError (List AdminAlert × ℕ)
unfolding selected_alerts count_alerts
list_alerts f = do
  total ← external failure (read (count_alerts f))
  alerts ← external failure (read (λ db. slice f.limit f.offset (selected_alerts f db)))
  pure (alerts, total)

abbrev pub first : {A : Type 0} → List A → Option A
first [] = none
first (x ∷ xs) = some x

abbrev pub alert_rows_of : Text → Db → List AdminAlert
alert_rows_of id db = with_users db (with_stocks db (filter (alert_id_is id) db.alerts))

unfoldable pub get_alert : Text → M RepositoryError AdminAlert
unfolding with_stocks with_users
get_alert id =
    external failure (read (λ db. first (alert_rows_of id db)) >>= one_or admin_alert_not_found)

pub record AdminStockFilter : Type 0 where
  pub search : Text
  pub status : Text
  pub limit : ℕ
  pub offset : ℕ

pub record AdminStock : Type 0 where
  pub symbol : Text
  pub name : Text
  pub exchange : Text
  pub currency : Text
  pub status : Standing
  pub disabled_reason : Option Text
  pub disabled_at : Option ℕ
  pub alerts : ℕ
  pub active_alerts : ℕ
  pub last_quote_price : Option ℤ
  pub last_quote_at : Option ℕ

abbrev pub standing_text : Standing → Text
standing_text Standing.active = text "ACTIVE"
standing_text Standing.disabled = text "DISABLED"

-- COALESCE(s.currency,'USD')
abbrev pub or_dollars : Option Text → Text
or_dollars none = text "USD"
or_dollars (some t) = t

abbrev pub of_stock : StockRow → AlertRow → Bool
of_stock s a = text_eq a.stock_id s.id

abbrev pub admin_stock : Db → StockRow → AdminStock
admin_stock db s = record {
  symbol = s.symbol;
  name = or_empty s.name;
  exchange = or_empty s.exchange;
  currency = or_dollars s.currency;
  status = s.status;
  disabled_reason = s.disabled_reason;
  disabled_at = s.disabled_at;
  alerts = count (of_stock s) db.alerts;
  active_alerts = count (λ a. of_stock s a && alert_is_active a.status) db.alerts;
  last_quote_price = s.last_quote_price;
  last_quote_at = s.last_quote_at;
}

abbrev pub stock_passes : Unicode → AdminStockFilter → StockRow → Bool
stock_passes u f s =
    (is_empty f.search
      || contains_like u f.search s.symbol
      || contains_like u f.search (or_empty s.name))
    && (is_empty f.status || text_eq (standing_text s.status) f.status)

-- Every row of the query of List, without its LIMIT, by symbol.
unfoldable pub selected_stocks : Unicode → AdminStockFilter → Db → List AdminStock
unfolding sort_by
selected_stocks u f db = map (admin_stock db) (
    sort_by (λ (a b : StockRow). not (text_lt b.symbol a.symbol))
      (filter (stock_passes u f) db.stocks))

unfoldable pub list_stocks : Unicode → AdminStockFilter → M RepositoryError (List AdminStock × ℕ)
unfolding selected_stocks
list_stocks u f = do
  total ← external failure (read (λ db. count (stock_passes u f) db.stocks))
  stocks ← external failure (read (λ db. slice f.limit f.offset (selected_stocks u f db)))
  pure (stocks, total)

abbrev pub found_stock : Text → Db → Option AdminStock
found_stock symbol db = elim (find? (symbol_is symbol) db.stocks) [
  | none ↦ none
  | some s ↦ some (admin_stock db s)
]

unfoldable pub get_stock : Text → M RepositoryError AdminStock
get_stock symbol = external failure (read (found_stock symbol) >>= one_or admin_stock_not_found)
