-- ===== src/Repositories/Alerts/Counts.antt =====
-- What the statements on the table alerts do to the number of a user's active alerts.
use line_stock_alert.Common.{
  ℕ, suc, ◌≡◌, refl, sym, ◌∙◌, ap, ◌⊎◌, inl, inr, Bool, true, false, not, ◌&&◌, some, List, [], ◌∷◌,
  arith, count, find?, any, Bool-cases, Option-cases,
}
use line_stock_alert.Common.Int.{ℤ, pos, leb_ℤ}
use line_stock_alert.Text.{Text, text, text_eq}
use line_stock_alert.Text.Laws.{text_eq_refl, text_eq_iff}
use line_stock_alert.Rows.{update_if, update_where}
use line_stock_alert.Rows.Laws.{find?-holds, find?-update}
use line_stock_alert.World.{Db, AlertRow, AlertStatus, StockRow, is_active}
use line_stock_alert.World.Triples.{
  Triple, ◌⟫◌, with_fact, external_rule, raise_if_rule, return_rule, transaction_rule, read_rule,
  write_rule, read_clock_rule, fresh_uuid_rule,
}
use line_stock_alert.Models.{Alert, StockMetadata}
use line_stock_alert.Repositories.Errors.{failure, stock_disabled, alert_already_exists}
use line_stock_alert.Repositories.Alerts.{
  is_active_of, is_definition, scan_alert, new_alert, has_symbol, merge_stock, create, upsert_stock,
  insert_or_merge, insert_alert,
}

abbrev pub active_alerts : Text → Db → ℕ
active_alerts user_id db = count (is_active_of user_id) db.alerts

-- Some row of the table stocks is an enabled stock with the id and the symbol.
abbrev pub IsListed : Text → Text → Db → Type 0
IsListed symbol id db =
    any (λ (r : StockRow). text_eq r.id id && text_eq r.symbol symbol && is_active r.status)
      db.stocks
    ≡ true

-- One row has been put on top of the table: an active alert of the user with the condition and the
-- price, on an enabled stock with the symbol. The alert returned is that row.
pub record HasCreated (user_id symbol condition : Text) (price : ℤ) (alerts : List AlertRow)
    (a : Alert) (db : Db) : Type 0 where
  pub row : AlertRow
  pub on_top : db.alerts ≡ row ∷ alerts
  pub owner : row.user_id ≡ user_id
  pub condition_stored : row.condition ≡ condition
  pub price_stored : row.target_price ≡ price
  pub live : row.status ≡ AlertStatus.active
  pub listed : IsListed symbol row.stock_id db
  pub returned :
      (a.id ≡ row.id)
      × (a.symbol ≡ symbol)
      × (a.condition ≡ condition)
      × (a.target_price ≡ price)
      × (a.status ≡ AlertStatus.active)
  pub counted : active_alerts user_id db ≡ suc (count (is_active_of user_id) alerts)
  pub one_condition : (condition ≡ text "ABOVE") ⊎ (condition ≡ text "BELOW")
  pub positive : leb_ℤ price (pos 0) ≡ false

any_of_found :
    {A : Type 0} (p q : A → Bool) (rs : List A) (a : A)
    → find? p rs ≡ some a
    → q a ≡ true
    → any q rs ≡ true
any_of_found p q [] a e h = cc
any_of_found p q (r ∷ rs) a e h = ground (arith, any_of_found p q rs a)

module _ (m : StockMetadata) (d : Db) where
  merged-IsListed :
      (s : StockRow)
      → find? (has_symbol m.symbol) d.stocks ≡ some s
      → is_active s.status ≡ true
      → IsListed m.symbol s.id
          (record d { stocks = update_where (has_symbol m.symbol) (merge_stock m) d.stocks })
  merged-IsListed s e live =
      let q = has_symbol m.symbol in
      let hit = find?-holds q d.stocks s e in
      any_of_found q _ (update_where q (merge_stock m) d.stocks) (update_if q (merge_stock m) s)
        (find?-update q q (merge_stock m) d.stocks s (λ r. refl) e)
        (ground (arith, hit, text_eq_refl s.id, live))

  upsert_stock-IsListed :
      Triple
        (λ w. w.db ≡ d)
        (upsert_stock m)
        (λ s w.
          (w.db.alerts ≡ d.alerts) × (is_active s.status ≡ true → IsListed m.symbol s.id w.db))
        (λ _ _. Unit {0})
  unfolding upsert_stock insert_or_merge
  upsert_stock-IsListed = read_rule (λ db. find? (has_symbol m.symbol) db.stocks) ⟫ λ o.
      with_fact λ e. elim (Option-cases o) [
        | inl h ↦ rw h (
            fresh_uuid_rule failure (λ w ids h. h) (λ w h. tt) ⟫ λ id. read_rule _ ⟫ λ taken.
            with_fact λ _. raise_if_rule taken failure (λ w n h. tt) ⟫ λ _. with_fact λ _.
              write_rule _ ⟫ λ _. return_rule _ (λ w h. (
                ap (λ (db : Db). db.alerts) h,
                λ live. rw (h, text_eq_refl id, text_eq_refl m.symbol) refl,
              )))
        | inr (s, h) ↦ rw h (
            write_rule _ ⟫ λ _. return_rule _ (λ w k.
              (ap (λ (db : Db). db.alerts) k, λ live. rw k (merged-IsListed s (sym e ∙ h) live))))
      ]

defined :
    (condition : Text) (price : ℤ)
    → not (is_definition condition price) ≡ false
    → ((condition ≡ text "ABOVE") ⊎ (condition ≡ text "BELOW")) × (leb_ℤ price (pos 0) ≡ false)
defined condition price h = elim (Bool-cases (text_eq condition (text "ABOVE"))) [
  | inl e ↦ (inl ((text_eq_iff condition (text "ABOVE")).0 e), ground arith)
  | inr n ↦ (inr ((text_eq_iff condition (text "BELOW")).0 (ground arith)), ground arith)
]

insert_alert-HasCreated :
    (user_id stock_id condition symbol : Text) (price : ℤ) (rows : List AlertRow) (d : Db)
    → (d.alerts ≡ rows) × IsListed symbol stock_id d
    → Triple
        (λ w. w.db ≡ d)
        (insert_alert user_id stock_id condition price)
        (λ a w. HasCreated user_id symbol condition price rows (scan_alert symbol a) w.db)
        (λ _ _. Unit {0})
unfolding insert_alert
insert_alert-HasCreated user_id stock_id condition symbol price rows d start =
    fresh_uuid_rule failure (λ w ids h. h) (λ w h. tt) ⟫ λ id. read_clock_rule ⟫ λ now.
    raise_if_rule _ failure (λ w n h. tt) ⟫ λ _. with_fact λ valid. read_rule _ ⟫ λ taken.
    with_fact λ _. raise_if_rule taken alert_already_exists (λ w n h. tt) ⟫ λ _. with_fact λ _.
      write_rule _ ⟫ λ _. return_rule _ (λ w h. record {
        row = new_alert user_id stock_id condition price id now;
        on_top = rw (h, start.0) refl;
        owner = refl;
        condition_stored = refl;
        price_stored = refl;
        live = refl;
        listed = rw h start.1;
        returned = (refl, refl, refl, refl, refl);
        counted = rw (h, start.0, text_eq_refl user_id) refl;
        one_condition = (defined condition price valid).0;
        positive = (defined condition price valid).1;
      })

pub create-HasCreated :
    (user_id condition : Text) (m : StockMetadata) (price : ℤ) (d : Db)
    → Triple
        (λ w. w.db ≡ d)
        (create user_id m condition price)
        (λ a w. HasCreated user_id m.symbol condition price d.alerts a w.db)
        (λ _ w. w.db ≡ d)
unfolding create
create-HasCreated user_id condition m price d =
    transaction_rule failure d (λ a w fs h. h) (λ e w h. h)
      (external_rule failure (λ w fs h. h) (λ w h. tt) (upsert_stock-IsListed m d) ⟫ λ s.
        raise_if_rule _ stock_disabled (λ w e h. tt) ⟫ λ _. with_fact λ live.
          external_rule failure (λ w fs h. h) (λ w h. tt)
            (record {
              at = λ w h.
                  (insert_alert-HasCreated user_id s.id condition m.symbol price d.alerts w.db
                      (h.0, h.1 (ground (arith, live)))).at
                    w refl;
            })
          ⟫ λ a. return_rule (scan_alert m.symbol a) (λ w h. h))
