-- ===== src/Lifecycle/Tests.antt =====
-- A day of alerts: an administrator disables the stock of an alert, the worker runs, and the user tries to
-- re-arm and to change the alert.
use line_stock_alert.Common.{refl, true, false, List, [], ◌∷◌}
use line_stock_alert.Common.Int.{pos}
use line_stock_alert.Text.{text, text_eq, ascii}
use line_stock_alert.World.{World, AlertStatus}
use line_stock_alert.Examples.{world, watching, by_root, quoting}
use line_stock_alert.Lifecycle.{
  Call, Run, Setting, disable_stock, run_cycle, rearm_alert, update, exec_all,
}
use line_stock_alert.Lifecycle.Refinement.{IsOff, exec_all-Run, disabled_stays}

abbrev setting : Setting
setting = record { now = 60; uuids = text "n1" ∷ []; faults = []; quotes = [] }

abbrev calls : List (Call × Setting)
calls =
    (disable_stock by_root (text "AAPL") (text "halted"), setting)
    ∷ (run_cycle 10 0, setting)
    ∷ (rearm_alert (text "u3") (text "a1"), record setting { faults = false ∷ true ∷ [] })
    ∷ (
      update (text "u3") (text "a1") (record { condition = text "BELOW"; target_price = pos 5 }),
      setting,
    )
    ∷ []

exec_all-Run_example :
    Run false world.db.alerts
      (exec_all ascii (quoting 12) 3 (λ alert q. text "hit") calls world).db.alerts
exec_all-Run_example = exec_all-Run ascii (quoting 12) 3 (λ alert q. text "hit") calls world

abbrev halted : World
halted = record world {
  db = record world.db { alerts = record watching { status = AlertStatus.disabled } ∷ [] };
}

halted-IsOff : IsOff (text "a1") halted.db.alerts
unfolding text_eq
halted-IsOff = record { there = refl; off = refl }

disabled_stays_example :
    IsOff (text "a1") (exec_all ascii (quoting 12) 3 (λ alert q. text "hit") calls halted).db.alerts
disabled_stays_example =
    disabled_stays ascii (quoting 12) 3 (λ alert q. text "hit") calls halted (text "a1") refl
      halted-IsOff
