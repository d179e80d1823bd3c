-- ===== src/Repositories/Alerts/Queries.antt =====
-- Triples for the statements that read or update one alert.
use line_stock_alert.Rows.Laws.{delete_none}
use line_stock_alert.Common.{
  ℕ, ◌≡◌, refl, sym, ◌∙◌, Bool, true, not, arith, Option, none, some, count, find?, any, ap, List,
}
use line_stock_alert.Common.Int.{ℤ}
use line_stock_alert.Text.{Text}
use line_stock_alert.Rows.{update_where, delete_where}
use line_stock_alert.World.{Db, AlertRow, StockRow}
use line_stock_alert.World.Triples.{
  Triple, ◌⟫◌, consequence, with_fact, external_rule, read_rule, write_rule, raise_rule,
  raise_if_rule, return_rule, read_clock_rule,
}
use line_stock_alert.Models.{Alert}
use line_stock_alert.Repositories.Errors.{
  RepositoryError, failure, alert_not_found, alert_already_exists, alert_not_triggered,
}
use line_stock_alert.Repositories.Alerts.{
  is_active_of, is_owned, is_rearmable, is_definition, redefine, reactivate, conflicts, join_stock,
  stock_of, scan_alert, one_row, count_active, get, update_returning, update, delete, rearm,
}

pub count_active-eq :
    (user_id : Text) (d : Db)
    → Triple
        (λ w. w.db ≡ d)
        (count_active user_id)
        (λ n w. (n ≡ count (is_active_of user_id) d.alerts) × (w.db ≡ d))
        (λ _ w. w.db ≡ d)
unfolding count_active
count_active-eq user_id d =
    external_rule failure (λ w fs h. h) (λ w h. h)
      (read_rule (λ db. count (is_active_of user_id) db.alerts))

-- The alert that a query found: its row, with the row of its stock.
pub record IsFound (d : Db) (q : AlertRow → Bool) (f : AlertRow → AlertRow) (a : Alert)
    : Type 0 where
  pub row : AlertRow
  pub stock : StockRow
  pub found : join_stock d (find? q d.alerts) ≡ some (row, stock)
  pub scanned : a ≡ scan_alert stock.symbol (f row)

pub row_found :
    (d : Db) (o : Option AlertRow) {p : AlertRow × StockRow}
    → join_stock d o ≡ some p
    → o ≡ some p.0
row_found d none e = ground arith
row_found d (some a) e = ground arith

pub stock_found :
    (d : Db) (o : Option AlertRow) {p : AlertRow × StockRow}
    → join_stock d o ≡ some p
    → stock_of d p.0 ≡ some p.1
stock_found d none e = ground arith
stock_found d (some a) e = ground arith

one_row-eq :
    (missing : RepositoryError) (rows : Option (AlertRow × StockRow)) (d : Db)
    → Triple
        (λ w. w.db ≡ d)
        (one_row missing rows)
        (λ p w. (rows ≡ some p) × (w.db ≡ d))
        (λ _ w. w.db ≡ d)
unfolding one_row
one_row-eq missing none d = raise_rule _ missing (λ w h. h)
one_row-eq missing (some p) d = return_rule p (λ w h. (refl, h))

pub get-IsFound :
    (user_id alert_id : Text) (d : Db)
    → Triple
        (λ w. w.db ≡ d)
        (get user_id alert_id)
        (λ a w. IsFound d (is_owned alert_id user_id) (λ r. r) a × (w.db ≡ d))
        (λ _ w. w.db ≡ d)
unfolding get
get-IsFound user_id alert_id d =
    external_rule failure (λ w fs h. h) (λ w h. h)
      (read_rule (λ db. join_stock db (find? (is_owned alert_id user_id) db.alerts)) ⟫ λ rows.
        with_fact λ erows. one_row-eq alert_not_found rows d ⟫ λ p. with_fact λ ep.
          return_rule (scan_alert p.1.symbol p.0)
            (λ w h. (record { row = p.0; stock = p.1; found = sym erows ∙ ep; scanned = refl }, h)))

pub update_returning-IsFound :
    (missing : RepositoryError) (q : AlertRow → Bool) (f : AlertRow → AlertRow) (d : Db)
    → Triple
        (λ w. w.db ≡ d)
        (update_returning missing q f)
        (λ a w. IsFound d q f a × (w.db ≡ record d { alerts = update_where q f d.alerts }))
        (λ _ w. w.db ≡ d)
unfolding update_returning
update_returning-IsFound missing q f d =
    read_rule (λ db. join_stock db (find? q db.alerts)) ⟫ λ rows. with_fact λ erows.
      one_row-eq missing rows d ⟫ λ p. with_fact λ ep.
        read_rule (λ db. conflicts (f p.0) db.alerts) ⟫ λ taken. with_fact λ etaken.
          raise_if_rule taken alert_already_exists (λ w e h. h) ⟫ λ _. with_fact λ free.
            write_rule (λ db. record db { alerts = update_where q f db.alerts }) ⟫ λ _.
            return_rule (scan_alert p.1.symbol (f p.0)) (λ w h.
              (record { row = p.0; stock = p.1; found = sym erows ∙ ep; scanned = refl }, h))

-- One alert was changed by `f` at some time, and nothing else; the alert returned is the new one.
pub record IsUpdated (d : Db) (q : AlertRow → Bool) (f : ℕ → AlertRow → AlertRow) (a : Alert)
    (db : Db) : Type 0 where
  pub time : ℕ
  pub before : IsFound d q (f time) a
  pub after : db ≡ record d { alerts = update_where q (f time) d.alerts }

pub rearm-IsUpdated :
    (user_id alert_id : Text) (d : Db)
    → Triple
        (λ w. w.db ≡ d)
        (rearm user_id alert_id)
        (λ a w. IsUpdated d (is_rearmable alert_id user_id) reactivate a w.db)
        (λ _ w. w.db ≡ d)
unfolding rearm
rearm-IsUpdated user_id alert_id d =
    external_rule failure (λ w fs h. h) (λ w h. h)
      (read_clock_rule ⟫ λ now.
        consequence (λ w h. h) (λ a w h. record { time = now; before = h.0; after = h.1 })
          (λ e w h. h)
          (update_returning-IsFound alert_not_triggered (is_rearmable alert_id user_id)
            (reactivate now) d))

pub update-IsUpdated :
    (user_id alert_id condition : Text) (price : ℤ) (d : Db)
    → Triple
        (λ w. w.db ≡ d)
        (update user_id alert_id condition price)
        (λ a w.
          IsUpdated d (is_owned alert_id user_id) (redefine condition price) a w.db
          × (is_definition condition price ≡ true))
        (λ _ w. w.db ≡ d)
unfolding update
update-IsUpdated user_id alert_id condition price d =
    external_rule failure (λ w fs h. h) (λ w h. h)
      (read_rule (λ db. join_stock db (find? (is_owned alert_id user_id) db.alerts)) ⟫ λ rows.
        with_fact λ _. one_row-eq alert_not_found rows d ⟫ λ p. with_fact λ _.
          raise_if_rule _ failure (λ w e h. h) ⟫ λ _. with_fact λ valid. read_clock_rule ⟫ λ now.
          consequence (λ w h. h)
            (λ a w h. (record { time = now; before = h.0; after = h.1 }, ground arith)) (λ e w h. h)
            (update_returning-IsFound alert_not_found (is_owned alert_id user_id)
              (redefine condition price now) d))

pub delete-eq :
    (user_id alert_id : Text) (d : Db)
    → Triple
        (λ w. w.db ≡ d)
        (delete user_id alert_id)
        (λ _ w.
          (any (is_owned alert_id user_id) d.alerts ≡ true)
          × (w.db ≡ record d { alerts = delete_where (is_owned alert_id user_id) d.alerts }))
        (λ _ w. w.db ≡ d)
unfolding delete
delete-eq user_id alert_id d =
    let q = is_owned alert_id user_id in
    external_rule failure (λ w fs h. h) (λ w h. h)
      (read_rule (λ db. any q db.alerts) ⟫ λ affected. with_fact λ e.
        write_rule (λ db. record db { alerts = delete_where q db.alerts }) ⟫ λ _.
        consequence (λ w h. h) (λ _ w h. (ground arith, h.1)) (λ e w h. h)
          (raise_if_rule (not affected) alert_not_found (λ w n h.
            h
            ∙ ap (λ (rows : List AlertRow). record d { alerts = rows })
                (delete_none q d.alerts (ground arith)))))
