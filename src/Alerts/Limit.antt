-- ===== src/Alerts/Limit.antt =====
-- AlertService.Create and Rearm of backend/internal/services/alert_service.go: the active alert limit
-- and what a call leaves of the tables, on every branch and whatever fails on the way.
use line_stock_alert.Common.{
  ℕ, suc, ◌<◌, ◌≤◌, ◌≡◌, refl, sym, ap, ◌∙◌, true, false, arith, find?, leb,
}
use line_stock_alert.Text.{Text, Unicode, trim_space}
use line_stock_alert.Text.Laws.{text_eq_iff}
use line_stock_alert.Errors.{Code, new_error}
use line_stock_alert.World.{World, StockQuote, ok, Db, AlertRow, StockRow}
use line_stock_alert.World.Triples.{
  Post, Triple, ◌⟫◌, consequence, with_fact, map_err_rule, lift_rule, raise_if_rule,
}
use line_stock_alert.Rows.{UniqueKeys}
use line_stock_alert.Rows.Laws.{count-update, find?-unique, find?-holds}
use line_stock_alert.Models.{Alert, StockProvider, StockMetadata, CreateAlertRequest}
use line_stock_alert.Symbols.{matches_symbol, normalize, map_stock_provider_error}
use line_stock_alert.Repositories.Alerts.{
  is_owned, is_rearmable, reactivate, stock_of, is_active_of,
}
use line_stock_alert.Repositories.Alerts.Counts.{active_alerts, HasCreated, create-HasCreated}
use line_stock_alert.Repositories.Alerts.Queries.{
  IsFound, IsUpdated, row_found, stock_found, count_active-eq, get-IsFound, rearm-IsUpdated,
}
use line_stock_alert.Alerts.{
  alert_condition_met, map_alert_repository_error, internal, below_limit, create, rearm,
}

module _ (u : Unicode) (provider : StockProvider) (limit : ℕ) where
  below_limit-lt :
      (user_id : Text) (d : Db)
      → Triple
          (λ w. w.db ≡ d)
          (below_limit u provider limit user_id)
          (λ _ w. (active_alerts user_id d < limit) × (w.db ≡ d))
          (λ _ w. w.db ≡ d)
  unfolding below_limit
  below_limit-lt user_id d =
      map_err_rule (internal "Could not check the alert limit.") (count_active-eq user_id d) ⟫ λ n.
      with_fact λ en.
        consequence (λ w h. h) (λ _ w h. (ground arith, h.1)) (λ e w h. h)
          (raise_if_rule (leb limit n)
            (new_error Code.alert_limit_reached "The active alert limit has been reached.")
            (λ w e h. h))

  create-triple :
      (user_id : Text) (request : CreateAlertRequest) (d : Db)
      → Triple
          (λ w. w.db ≡ d)
          (create u provider limit user_id request)
          (λ a w.
            (stock : StockMetadata) × (provider.validate_us_stock (normalize u request.symbol)
              ≡ ok stock)
            × (HasCreated user_id stock.symbol
                (normalize u request.condition)
                request.target_price
                d.alerts
                a
                w.db)
            × (active_alerts user_id w.db ≤ limit)
            × (matches_symbol (normalize u request.symbol) ≡ true))
          (λ _ w. w.db ≡ d)
  unfolding create
  create-triple user_id request d = raise_if_rule _ _ (λ w e h. h) ⟫ λ _. with_fact λ good.
      lift_rule _ (λ e w _ h. h) ⟫ λ _. with_fact λ _. below_limit-lt user_id d ⟫ λ _.
      with_fact λ room.
        map_err_rule map_stock_provider_error (lift_rule _ (λ e w _ h. h)) ⟫ λ stock.
        with_fact λ known. map_err_rule (map_alert_repository_error "Could not create the alert.") (
          consequence (λ w h. h)
            (λ a w h. (stock, known, h, omega (arith, h.counted), ground arith)) (λ e w h. h)
            (create-HasCreated user_id (normalize u request.condition) stock request.target_price
              d))

  -- A Create that succeeds has put one row on top of the unchanged table alerts: an active alert of the
  -- user with the requested condition, ABOVE or BELOW, and the requested price, which is positive, on
  -- an enabled stock with the symbol that the provider answered for the requested one. The alert
  -- returned is that row's, and the user's active alerts are one more and within the limit. A call that
  -- fails, for whatever reason, leaves every table as it was.
  pub create_within_limit :
      (user_id : Text) (request : CreateAlertRequest) (w : World)
      → Post
          (λ a w'.
            (stock : StockMetadata) × (provider.validate_us_stock (normalize u request.symbol)
              ≡ ok stock)
            × (HasCreated user_id stock.symbol
                (normalize u request.condition)
                request.target_price
                w.db.alerts
                a
                w'.db)
            × (active_alerts user_id w'.db ≤ limit)
            × (matches_symbol (normalize u request.symbol) ≡ true))
          (λ _ w'. w'.db ≡ w.db)
          (create u provider limit user_id request w)
  create_within_limit user_id request w = (create-triple user_id request w.db).at w refl

-- What a successful Rearm has done to the tables `d` for one user and alert.
pub record HasRearmed (provider : StockProvider) (limit : ℕ) (user_id alert_id : Text) (d : Db)
    (a : Alert) (db : Db) : Type 0 where
  pub updated : IsUpdated d (is_rearmable alert_id user_id) reactivate a db
  pub counted : active_alerts user_id db ≡ suc (active_alerts user_id d)
  pub within : active_alerts user_id db ≤ limit
  pub quote : StockQuote
  pub quoted : provider.quote a.symbol ≡ ok quote
  pub moved_away : alert_condition_met a.condition quote.price a.target_price ≡ false

owned_id :
    (alert_id user_id : Text) (r : AlertRow) → is_owned alert_id user_id r ≡ true → r.id ≡ alert_id
owned_id alert_id user_id r h = (text_eq_iff r.id alert_id).0 (ground arith)

rearmable_id :
    (alert_id user_id : Text) (r : AlertRow)
    → is_rearmable alert_id user_id r ≡ true
    → r.id ≡ alert_id
rearmable_id alert_id user_id r h = (text_eq_iff r.id alert_id).0 (ground arith)

-- Re-arming turns the one row into an active row of the user.
rearm-counted :
    (user_id alert_id : Text) (d db : Db) (a : Alert)
    → UniqueKeys (λ (r : AlertRow). r.id) d.alerts
    → IsUpdated d (is_rearmable alert_id user_id) reactivate a db
    → active_alerts user_id db ≡ suc (active_alerts user_id d)
rearm-counted user_id alert_id d db a unique h =
    let q = is_rearmable alert_id user_id in
    let e = row_found d (find? q d.alerts) h.before.found in
    let holds = find?-holds q d.alerts h.before.row e in
    rw h.after (
      ground (
        arith,
        holds,
        count-update (λ (r : AlertRow). r.id) (is_active_of user_id) q (reactivate h.time) alert_id
            d.alerts h.before.row unique (rearmable_id alert_id user_id) e,
      ))

-- The alert that Rearm returns has the definition of the alert that it loaded first.
same_alert :
    (user_id alert_id : Text) (d : Db) (got a : Alert) (t : ℕ)
    → UniqueKeys (λ (r : AlertRow). r.id) d.alerts
    → IsFound d (is_owned alert_id user_id) (λ r. r) got
    → IsFound d (is_rearmable alert_id user_id) (reactivate t) a
    → (a.symbol ≡ got.symbol) × (a.condition ≡ got.condition) × (a.target_price ≡ got.target_price)
same_alert user_id alert_id d got a t unique g h =
    let eg = row_found d (find? (is_owned alert_id user_id) d.alerts) g.found in
    let eh = row_found d (find? (is_rearmable alert_id user_id) d.alerts) h.found in
    let same : g.row ≡ h.row =
      find?-unique (λ (r : AlertRow). r.id) (is_owned alert_id user_id)
        (is_rearmable alert_id user_id) alert_id d.alerts g.row h.row unique
        (owned_id alert_id user_id) (rearmable_id alert_id user_id) eg eh in
    let sg = stock_found d (find? (is_owned alert_id user_id) d.alerts) g.found in
    let sh = stock_found d (find? (is_rearmable alert_id user_id) d.alerts) h.found in
    let st : g.stock ≡ h.stock = cc (sg, ap (stock_of d) same, sh) in
    (
      ap (λ (x : Alert). x.symbol) h.scanned
          ∙ ap (λ (s : StockRow). s.symbol) (sym st)
          ∙ sym (ap (λ (x : Alert). x.symbol) g.scanned),
      ap (λ (x : Alert). x.condition) h.scanned
          ∙ ap (λ (r : AlertRow). r.condition) (sym same)
          ∙ sym (ap (λ (x : Alert). x.condition) g.scanned),
      ap (λ (x : Alert). x.target_price) h.scanned
          ∙ ap (λ (r : AlertRow). r.target_price) (sym same)
          ∙ sym (ap (λ (x : Alert). x.target_price) g.scanned),
    )

module _ (u : Unicode) (provider : StockProvider) (limit : ℕ) where
  rearm-triple :
      (user_id raw_id : Text) (d : Db)
      → UniqueKeys (λ (r : AlertRow). r.id) d.alerts
      → Triple
          (λ w. w.db ≡ d)
          (rearm u provider limit user_id raw_id)
          (λ a w. HasRearmed provider limit user_id (trim_space u raw_id) d a w.db)
          (λ _ w. w.db ≡ d)
  unfolding rearm
  rearm-triple user_id raw_id d unique =
      let alert_id = trim_space u raw_id in
      map_err_rule (map_alert_repository_error "Could not load the alert.")
        (get-IsFound user_id alert_id d)
      ⟫ λ got. with_fact λ found. raise_if_rule _ _ (λ w e h. h) ⟫ λ _. with_fact λ _.
        below_limit-lt u provider limit user_id d ⟫ λ _. with_fact λ room.
          map_err_rule map_stock_provider_error (lift_rule _ (λ e w _ h. h)) ⟫ λ quote.
          with_fact λ quoted. raise_if_rule _ _ (λ w e h. h) ⟫ λ _. with_fact λ away.
            map_err_rule (map_alert_repository_error "Could not re-arm the alert.") (
              consequence (λ w h. h)
                (λ a w h.
                  let same = same_alert user_id alert_id d got a h.time unique found h.before in
                  let n = rearm-counted user_id alert_id d w.db a unique h in
                  record {
                    updated = h;
                    counted = n;
                    within = omega (arith, n);
                    quote = quote;
                    quoted = rw same.0 quoted;
                    moved_away = rw same.1 (rw same.2 away);
                  })
                (λ e w h. h) (rearm-IsUpdated user_id alert_id d))

  -- Where no two alerts share an id: Rearm succeeds only on a triggered alert of the user, below the
  -- limit, at a quoted price that does not meet the alert's condition; it makes exactly that alert
  -- active, and the user's active alerts one more and within the limit. A call that fails leaves
  -- every table as it was.
  pub rearm_within_limit :
      (user_id raw_id : Text) (w : World)
      → UniqueKeys (λ (r : AlertRow). r.id) w.db.alerts
      → Post
          (λ a w'. HasRearmed provider limit user_id (trim_space u raw_id) w.db a w'.db)
          (λ _ w'. w'.db ≡ w.db)
          (rearm u provider limit user_id raw_id w)
  rearm_within_limit user_id raw_id w unique = (rearm-triple user_id raw_id w.db unique).at w refl
