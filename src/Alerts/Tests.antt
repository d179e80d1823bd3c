-- ===== src/Alerts/Tests.antt =====
-- AlertService of backend/internal/services/alert_service.go on concrete tables.
use line_stock_alert.Alerts.Changes.{HasRedefined, update_redefines}
use line_stock_alert.Symbols.{matches_symbol}
use line_stock_alert.Common.{◌≤◌, refl}
use line_stock_alert.Common.Int.{pos}
use line_stock_alert.Text.{text, ascii, to_upper, trim_space, text_eq}
use line_stock_alert.World.{◌>>=◌, transaction}
use line_stock_alert.Models.{CreateAlertRequest, UpdateAlertRequest}
use line_stock_alert.Repositories.Alerts as Store
use line_stock_alert.Repositories.Alerts.Counts.{active_alerts}
use line_stock_alert.Examples.{world, quoting, watching, tables}
use line_stock_alert.Alerts.{create, rearm, validate_alert, alert_condition_met, update}
use line_stock_alert.Alerts.Limit.{create_within_limit, rearm_within_limit}

abbrev request : CreateAlertRequest
request = record { symbol = text " aapl"; condition = text "below"; target_price = pos 5 }

create_within_limit_example :
    active_alerts (text "u3") (create ascii (quoting 7) 2 (text "u3") request world).1.db ≤ 2
unfolding create Store.create Store.count_active Store.upsert_stock Store.insert_alert
    Store.insert_or_merge Store.conflicts validate_alert matches_symbol text_eq ◌>>=◌ transaction
    to_upper trim_space
create_within_limit_example = (create_within_limit ascii (quoting 7) 2 (text "u3") request world).3

rearm_within_limit_example :
    active_alerts (text "u3") (rearm ascii (quoting 7) 2 (text "u3") (text "a2") world).1.db ≤ 2
unfolding rearm Store.get Store.one_row Store.rearm Store.update_returning Store.count_active
    Store.conflicts alert_condition_met text_eq ◌>>=◌ trim_space
rearm_within_limit_example =
    (rearm_within_limit ascii (quoting 7) 2 (text "u3") (text "a2") world (refl, (refl, tt))).within

abbrev lower : UpdateAlertRequest
lower = record { condition = text "below"; target_price = pos 4 }

update_redefines_example :
    HasRedefined
      (text "u3")
      (text "a1")
      (text "BELOW")
      (pos 4)
      tables
      (Store.scan_alert (text "AAPL") (Store.redefine (text "BELOW") (pos 4) 50 watching))
      (update ascii (quoting 7) 2 (text "u3") (text "a1") lower world).1.db
unfolding update Store.update Store.one_row Store.update_returning Store.conflicts validate_alert
    text_eq ◌>>=◌ to_upper trim_space
update_redefines_example = update_redefines ascii (quoting 7) 2 (text "u3") (text "a1") lower world
