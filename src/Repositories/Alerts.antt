-- ===== src/Repositories/Alerts.antt =====
-- backend/internal/repositories/alert_repository.go: the alerts of one user.
-- The ids are texts as in the queries (`a.id::text = $1`).
pub mod Queries
pub mod Counts
use line_stock_alert.Common.{
  ℕ, Bool, not, ◌&&◌, ◌||◌, Option, none, some, List, [], ◌∷◌, if◌then◌else◌, find?, any, filter,
  count, leb,
}
use line_stock_alert.Common.Int.{ℤ, pos, leb_ℤ, ◌==ℤ◌}
use line_stock_alert.Text.{Text, text, text_eq, is_empty}
use line_stock_alert.World.{
  M, Db, pure, raise, raise_if, read, write, read_clock, fresh_uuid, external, transaction, ◌>>=◌,
  ◌>>◌, AlertRow, AlertStatus, alert_is_active, alert_is_triggered, alert_status_text, StockRow,
  Standing, is_active,
}
use line_stock_alert.Sort.{sort_by}
use line_stock_alert.Rows.{update_where, delete_where}
use line_stock_alert.Models.{Alert, AlertFilter, StockMetadata}
use line_stock_alert.Repositories.Errors.{
  RepositoryError, failure, alert_already_exists, alert_not_found, alert_not_triggered,
  stock_disabled,
}

-- `WHERE a.id::text = $1 AND a.user_id = $2`
abbrev pub is_owned : Text → Text → AlertRow → Bool
is_owned alert_id user_id a = text_eq a.id alert_id && text_eq a.user_id user_id

abbrev pub is_active_of : Text → AlertRow → Bool
is_active_of user_id a = text_eq a.user_id user_id && alert_is_active a.status

-- `JOIN stocks s ON s.id = a.stock_id`
abbrev pub stock_of : Db → AlertRow → Option StockRow
stock_of db a = find? (λ s. text_eq s.id a.stock_id) db.stocks

abbrev pub scan_alert : Text → AlertRow → Alert
scan_alert symbol a = record {
  id = a.id;
  symbol = symbol;
  condition = a.condition;
  target_price = a.target_price;
  status = a.status;
  triggered_at = a.triggered_at;
  disabled_reason = a.disabled_reason;
  created_at = a.created_at;
  updated_at = a.updated_at;
}

-- One row of the result of a query that joins the stock.
abbrev pub join_stock : Db → Option AlertRow → Option (AlertRow × StockRow)
join_stock db none = none
join_stock db (some a) = elim (stock_of db a) [ none ↦ none | some s ↦ some (a, s) ]

-- The partial unique index uq_alerts_active_definition: another ACTIVE row has the definition.
abbrev pub same_definition : AlertRow → AlertRow → Bool
same_definition a b =
    text_eq a.user_id b.user_id
    && text_eq a.stock_id b.stock_id
    && text_eq a.condition b.condition
    && (a.target_price ==ℤ b.target_price)

unfoldable pub conflicts : AlertRow → List AlertRow → Bool
conflicts a rows =
    alert_is_active a.status
    && any (λ b. alert_is_active b.status && not (text_eq b.id a.id) && same_definition a b) rows

-- The CHECKs on the columns condition and target_price.
abbrev pub is_definition : Text → ℤ → Bool
is_definition condition price =
    (text_eq condition (text "ABOVE") || text_eq condition (text "BELOW"))
    && not (leb_ℤ price (pos 0))

-- `JOIN stocks s ON … WHERE`, with the predicate on both rows.
pub select_alerts : Db → (AlertRow → StockRow → Bool) → List AlertRow → List Alert
select_alerts db p [] = []
select_alerts db p (a ∷ rest) =
    let selected = select_alerts db p rest in
    elim (stock_of db a) [
      | none ↦ selected
      | some s ↦ if p a s then scan_alert s.symbol a ∷ selected else selected
    ]

-- `($2 = '' OR s.symbol = $2) AND ($3 = '' OR a.status = $3)`
abbrev pub passes : AlertFilter → AlertRow → StockRow → Bool
passes filter a s =
    (is_empty filter.symbol || text_eq s.symbol filter.symbol)
    && (is_empty filter.status || text_eq (alert_status_text a.status) filter.status)

-- ORDER BY a.created_at DESC
pub by_created_desc : List AlertRow → List AlertRow
unfolding sort_by
by_created_desc = sort_by (λ a b. leb b.created_at a.created_at)

unfoldable pub list : Text → AlertFilter → M RepositoryError (List Alert)
unfolding select_alerts by_created_desc
list user_id filter = external failure (
    read λ db.
      select_alerts db (λ a s. text_eq a.user_id user_id && passes filter a s)
        (by_created_desc db.alerts))

unfoldable pub count_active : Text → M RepositoryError ℕ
count_active user_id = external failure (read λ db. count (is_active_of user_id) db.alerts)

-- The row of the result of a query of one row, or pgx.ErrNoRows.
unfoldable pub one_row :
    RepositoryError → Option (AlertRow × StockRow) → M RepositoryError (AlertRow × StockRow)
one_row missing none = raise missing
one_row missing (some p) = pure p

unfoldable pub get : Text → Text → M RepositoryError Alert
get user_id alert_id = external failure (do
  rows ← read (λ db. join_stock db (find? (is_owned alert_id user_id) db.alerts))
  p ← one_row alert_not_found rows
  pure (scan_alert p.1.symbol p.0))

abbrev pub coalesce : Text → Option Text → Option Text
coalesce t old = if is_empty t then old else some t

abbrev pub new_stock : StockMetadata → Text → StockRow
new_stock m id = record {
  id = id;
  symbol = m.symbol;
  name = coalesce m.name none;
  exchange = coalesce m.exchange none;
  currency = coalesce m.currency none;
  status = Standing.active;
  disabled_reason = none;
  disabled_at = none;
  last_quote_price = none;
  last_quote_at = none;
}

abbrev pub merge_stock : StockMetadata → StockRow → StockRow
merge_stock m r = record r {
  name = coalesce m.name r.name;
  exchange = coalesce m.exchange r.exchange;
  currency = coalesce m.currency r.currency;
}

abbrev pub has_symbol : Text → StockRow → Bool
has_symbol symbol s = text_eq s.symbol symbol

abbrev has_stock_id : Text → Db → Bool
has_stock_id id db = any (λ s. text_eq s.id id) db.stocks

-- `ON CONFLICT (provider, symbol) DO UPDATE`
unfoldable pub insert_or_merge : StockMetadata → Option StockRow → M RepositoryError StockRow
insert_or_merge m none = do
  id ← fresh_uuid failure
  taken ← read (has_stock_id id)
  raise_if taken failure
  write (λ db. record db { stocks = new_stock m id ∷ db.stocks })
  pure (new_stock m id)
insert_or_merge m (some s) = do
  write (λ db. record db { stocks = update_where (has_symbol m.symbol) (merge_stock m) db.stocks })
  pure s

-- `INSERT INTO stocks … ON CONFLICT … RETURNING id::text, status`
unfoldable pub upsert_stock : StockMetadata → M RepositoryError StockRow
unfolding insert_or_merge
upsert_stock m = read (λ db. find? (has_symbol m.symbol) db.stocks) >>= insert_or_merge m

abbrev pub new_alert : Text → Text → Text → ℤ → Text → ℕ → AlertRow
new_alert user_id stock_id condition price id now = record {
  id = id;
  user_id = user_id;
  stock_id = stock_id;
  condition = condition;
  target_price = price;
  status = AlertStatus.active;
  triggered_at = none;
  disabled_reason = none;
  disabled_at = none;
  created_at = now;
  updated_at = now;
}

-- The unique index, or the primary key: both are reported under SQLSTATE 23505.
abbrev pub breaks_unique : AlertRow → Db → Bool
breaks_unique a db = any (λ r. text_eq r.id a.id) db.alerts || conflicts a db.alerts

-- `INSERT INTO alerts (user_id, stock_id, condition, target_price) VALUES … RETURNING …`
unfoldable pub insert_alert : Text → Text → Text → ℤ → M RepositoryError AlertRow
insert_alert user_id stock_id condition price = do
  id ← fresh_uuid failure
  now ← read_clock
  let a = new_alert user_id stock_id condition price id now
  raise_if (not (is_definition condition price)) failure
  taken ← read (breaks_unique a)
  raise_if taken alert_already_exists
  write (λ db. record db { alerts = a ∷ db.alerts })
  pure a

unfoldable pub create : Text → StockMetadata → Text → ℤ → M RepositoryError Alert
create user_id stock condition price = transaction failure (do
  s ← external failure (upsert_stock stock)
  raise_if (not (is_active s.status)) stock_disabled
  a ← external failure (insert_alert user_id s.id condition price)
  pure (scan_alert stock.symbol a))

-- `UPDATE alerts a SET … FROM stocks s WHERE … RETURNING …` of the one row that `q` finds: the row
-- with its stock, or the given error where no row is found.
unfoldable pub update_returning :
    RepositoryError → (AlertRow → Bool) → (AlertRow → AlertRow) → M RepositoryError Alert
update_returning missing q f = do
  rows ← read (λ db. join_stock db (find? q db.alerts))
  p ← one_row missing rows
  taken ← read (λ db. conflicts (f p.0) db.alerts)
  raise_if taken alert_already_exists
  write (λ db. record db { alerts = update_where q f db.alerts })
  pure (scan_alert p.1.symbol (f p.0))

-- `SET condition = $3, target_price = $4`, with the trigger alerts_set_updated_at
abbrev pub redefine : Text → ℤ → ℕ → AlertRow → AlertRow
redefine condition price now a = record a {
  condition = condition;
  target_price = price;
  updated_at = now;
}

unfoldable pub update : Text → Text → Text → ℤ → M RepositoryError Alert
update user_id alert_id condition price = external failure (do
  rows ← read (λ db. join_stock db (find? (is_owned alert_id user_id) db.alerts))
  one_row alert_not_found rows
  raise_if (not (is_definition condition price)) failure
  now ← read_clock
  update_returning alert_not_found (is_owned alert_id user_id) (redefine condition price now))

unfoldable pub delete : Text → Text → M RepositoryError (Unit {0})
delete user_id alert_id = external failure (do
  affected ← read (λ db. any (is_owned alert_id user_id) db.alerts)
  write (λ db. record db { alerts = delete_where (is_owned alert_id user_id) db.alerts })
  raise_if (not affected) alert_not_found)

-- `SET status = 'ACTIVE', triggered_at = NULL, disabled_reason = NULL, disabled_at = NULL`
abbrev pub reactivate : ℕ → AlertRow → AlertRow
reactivate now a = record a {
  status = AlertStatus.active;
  triggered_at = none;
  disabled_reason = none;
  disabled_at = none;
  updated_at = now;
}

abbrev pub is_rearmable : Text → Text → AlertRow → Bool
is_rearmable alert_id user_id a = is_owned alert_id user_id a && alert_is_triggered a.status

unfoldable pub rearm : Text → Text → M RepositoryError Alert
rearm user_id alert_id = external failure (do
  now ← read_clock
  update_returning alert_not_triggered (is_rearmable alert_id user_id) (reactivate now))
