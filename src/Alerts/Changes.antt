-- ===== src/Alerts/Changes.antt =====
-- AlertService.Update and Delete of backend/internal/services/alert_service.go: what a call leaves of
-- the tables, on every branch and whatever fails on the way.
use line_stock_alert.Common.{
  ℕ, ◌≡◌, refl, ◌⊎◌, inl, inr, Bool, true, false, ◌&&◌, some, arith, any, find?, Bool-cases,
}
use line_stock_alert.Common.Int.{ℤ, pos, leb_ℤ}
use line_stock_alert.Text.{Text, Unicode, text, text_eq, trim_space}
use line_stock_alert.Text.Laws.{text_eq_iff}
use line_stock_alert.World.{World, Db, AlertRow, StockRow, ok}
use line_stock_alert.World.Triples.{Post, ◌⟫◌, consequence, with_fact, map_err_rule, lift_rule}
use line_stock_alert.Rows.{update_where, delete_where}
use line_stock_alert.Rows.Laws.{delete_gone}
use line_stock_alert.Models.{Alert, StockProvider, UpdateAlertRequest}
use line_stock_alert.Symbols.{normalize}
use line_stock_alert.Repositories.Alerts.{is_owned, redefine}
use line_stock_alert.Repositories.Alerts.Queries.{
  IsUpdated, update-IsUpdated, delete-eq, row_found, stock_found,
}
use line_stock_alert.Alerts.{validate_alert, map_alert_repository_error, update, delete}

abbrev pub owned_by : Text → Text → AlertRow → Bool
owned_by user_id alert_id r = text_eq r.id alert_id && text_eq r.user_id user_id

-- The alert with the id that the user owns has the condition and the price from a time on, and every
-- other column, row and table is as in `d`. The alert returned is the new row's.
pub record HasRedefined (user_id alert_id condition : Text) (price : ℤ) (d : Db) (a : Alert)
    (db : Db) : Type 0 where
  pub one_condition : (condition ≡ text "ABOVE") ⊎ (condition ≡ text "BELOW")
  pub positive : leb_ℤ price (pos 0) ≡ false
  pub row : AlertRow
  pub stock : StockRow
  pub time : ℕ
  pub found : find? (owned_by user_id alert_id) d.alerts ≡ some row
  pub of_stock : find? (λ (s : StockRow). text_eq s.id row.stock_id) d.stocks ≡ some stock
  pub returned :
      (a.id ≡ row.id)
      × (a.symbol ≡ stock.symbol)
      × (a.condition ≡ condition)
      × (a.target_price ≡ price)
      × (a.status ≡ row.status)
  pub after : db ≡ record d {
    alerts =
        update_where
          (owned_by user_id alert_id)
          (λ (r : AlertRow). record r {
            condition = condition;
            target_price = price;
            updated_at = time;
          })
          d.alerts;
  }

valid_definition :
    (condition : Text) (price : ℤ)
    → validate_alert condition price ≡ ok tt
    → ((condition ≡ text "ABOVE") ⊎ (condition ≡ text "BELOW")) × (leb_ℤ price (pos 0) ≡ false)
unfolding validate_alert
valid_definition condition price h = elim (Bool-cases (text_eq condition (text "ABOVE"))) [
  | inl e ↦ (inl ((text_eq_iff condition (text "ABOVE")).0 e), ground (arith, h))
  | inr n ↦ (inr ((text_eq_iff condition (text "BELOW")).0 (ground (arith, h))), ground (arith, h))
]

updated-HasRedefined :
    (user_id alert_id condition : Text) (price : ℤ) (d : Db) (a : Alert) (db : Db)
    → validate_alert condition price ≡ ok tt
    → IsUpdated d (is_owned alert_id user_id) (redefine condition price) a db
    → HasRedefined user_id alert_id condition price d a db
updated-HasRedefined user_id alert_id condition price d a db valid h =
    let found = h.before.found in
    let o = find? (is_owned alert_id user_id) d.alerts in
    let same = h.before.scanned in
    record {
      one_condition = (valid_definition condition price valid).0;
      positive = (valid_definition condition price valid).1;
      row = h.before.row;
      stock = h.before.stock;
      time = h.time;
      found = row_found d o found;
      of_stock = stock_found d o found;
      returned = rw same (refl, refl, refl, refl, refl);
      after = h.after;
    }

module _ (u : Unicode) (provider : StockProvider) (limit : ℕ) where
  -- An Update that succeeds has a condition of ABOVE or BELOW and a positive price, and gives them, with
  -- a new time of update, to the alert with the id that the user owns; every other column, row and table
  -- is as it was, and the alert returned has the new condition and price. One that fails leaves every
  -- table as it was.
  pub update_redefines :
      (user_id raw_id : Text) (request : UpdateAlertRequest) (w : World)
      → Post
          (λ a w'.
            HasRedefined user_id
              (trim_space u raw_id)
              (normalize u request.condition)
              request.target_price
              w.db
              a
              w'.db)
          (λ _ w'. w'.db ≡ w.db)
          (update u provider limit user_id raw_id request w)
  unfolding update
  update_redefines user_id raw_id request w =
      (lift_rule {P = λ v. v.db ≡ w.db} _ (λ e v _ h. h) ⟫ λ _. with_fact λ valid.
          map_err_rule (map_alert_repository_error "Could not update the alert.") (
            consequence (λ v h. h)
              (λ a v h.
                updated-HasRedefined user_id (trim_space u raw_id) (normalize u request.condition)
                  request.target_price w.db a v.db valid h.0)
              (λ _ _ h. h)
              (update-IsUpdated user_id (trim_space u raw_id) (normalize u request.condition)
                request.target_price w.db))).at
        w refl

  -- A Delete that succeeds has found an alert with the id that the user owns; it takes the rows with
  -- that id and owner out, and no such row is left. One that fails leaves every table as it was.
  pub delete_removes :
      (user_id raw_id : Text) (w : World)
      → Post
          (λ _ w'.
            (any (is_owned (trim_space u raw_id) user_id) w.db.alerts ≡ true)
            × (w'.db ≡ record w.db {
              alerts = delete_where (is_owned (trim_space u raw_id) user_id) w.db.alerts;
            })
            × (any (is_owned (trim_space u raw_id) user_id) w'.db.alerts ≡ false))
          (λ _ w'. w'.db ≡ w.db)
          (delete u provider limit user_id raw_id w)
  unfolding delete
  delete_removes user_id raw_id w =
      let q = is_owned (trim_space u raw_id) user_id in
      (map_err_rule (map_alert_repository_error "Could not delete the alert.") (
          consequence (λ v h. h) (λ _ v h. (h.0, h.1, rw h.1 (delete_gone q w.db.alerts)))
            (λ _ _ h. h) (delete-eq user_id (trim_space u raw_id) w.db))).at
        w refl
