-- ===== src/Lifecycle.antt =====
-- The life of an alert across alert_service.go, alert_worker.go and the services of the administrators in
-- backend/internal/services: an abstract machine on the table of alerts, and the calls that run it.
mod Keeps
mod Runs
mod Alerts
mod Worker
mod Admin
pub mod Refinement
mod Tests
use line_stock_alert.Common.{
  ℕ, ◌≡◌, Bool, true, false, not, ◌&&◌, ◌||◌, List, [], ◌∷◌, any, if◌then◌else◌,
}
use line_stock_alert.Text.{Text, Unicode, text_eq}
use line_stock_alert.World.{World, M, AlertRow, AlertStatus, StockQuote}
use line_stock_alert.Rows.{delete_where}
use line_stock_alert.Models.{CreateAlertRequest, UpdateAlertRequest, StockProvider, ActiveAlertJob}
use line_stock_alert.Repositories.Admin.{AdminActionContext}
use line_stock_alert.Alerts as Service
use line_stock_alert.Worker as Cycle
use line_stock_alert.Admin as Office

-- How the status of an alert may change.
pub data Move : AlertStatus → AlertStatus → Type 0 where
  stay : (s : AlertStatus) → Move s s
  fire : Move AlertStatus.active AlertStatus.triggered
  rearm : Move AlertStatus.triggered AlertStatus.active
  withdraw : (s : AlertStatus) → Move s AlertStatus.disabled

-- A row and what it has become: still the same alert of the same user.
pub record IsMoved (a b : AlertRow) : Type 0 where
  pub id : b.id ≡ a.id
  pub owner : b.user_id ≡ a.user_id
  pub status : Move a.status b.status

pub data Moves : List AlertRow → List AlertRow → Type 0 where
  none_left : Moves [] []
  next_moves :
      (a b : AlertRow) (rows next : List AlertRow)
      → IsMoved a b
      → Moves rows next
      → Moves (a ∷ rows) (b ∷ next)

abbrev pub has_id : Text → AlertRow → Bool
has_id id a = text_eq a.id id

-- A step of the machine; only where `deletes` holds may it remove alerts.
pub data Step (deletes : Bool) : List AlertRow → List AlertRow → Type 0 where
  change : (rows next : List AlertRow) → Moves rows next → Step deletes rows next
  add :
      (a : AlertRow) (rows : List AlertRow)
      → a.status ≡ AlertStatus.active
      → any (has_id a.id) rows ≡ false
      → Step deletes rows (a ∷ rows)
  remove :
      (p : AlertRow → Bool) (rows : List AlertRow)
      → deletes ≡ true
      → Step deletes rows (delete_where p rows)

pub data Run (deletes : Bool) : List AlertRow → List AlertRow → Type 0 where
  done : (rows : List AlertRow) → Run deletes rows rows
  then_step :
      (rows next last : List AlertRow)
      → Run deletes rows next
      → Step deletes next last
      → Run deletes rows last

-- The calls that reach the table of alerts.
pub data Call : Type 0 where
  list : (user_id symbol status : Text) → Call
  create : (user_id : Text) → CreateAlertRequest → Call
  update : (user_id alert_id : Text) → UpdateAlertRequest → Call
  delete : (user_id alert_id : Text) → Call
  rearm_alert : (user_id alert_id : Text) → Call
  run_cycle : (batch_size offset : ℕ) → Call
  disable_user : AdminActionContext → (target reason : Text) → Call
  enable_user : AdminActionContext → (target : Text) → Call
  disable_stock : AdminActionContext → (symbol reason : Text) → Call
  enable_stock : AdminActionContext → (symbol : Text) → Call
  disable_alert : AdminActionContext → (id reason : Text) → Call

abbrev pub is_delete : Call → Bool
is_delete (delete _ _) = true
is_delete _ = false

abbrev pub after : {E A : Type 0} → M E A → World → World
after m w = (m w).1

-- What a call finds of the world around the tables.
pub record Setting : Type 0 where
  pub now : ℕ
  pub uuids : List Text
  pub faults : List Bool
  pub quotes : List StockQuote

module _ (u : Unicode) (provider : StockProvider) (limit : ℕ)
    (message_of : ActiveAlertJob → StockQuote → Text) where
  abbrev pub exec : Call → World → World
  exec (list user_id symbol status) = after (Service.list u provider limit user_id symbol status)
  exec (create user_id request) = after (Service.create u provider limit user_id request)
  exec (update user_id id request) = after (Service.update u provider limit user_id id request)
  exec (delete user_id id) = after (Service.delete u provider limit user_id id)
  exec (rearm_alert user_id id) = after (Service.rearm u provider limit user_id id)
  exec (run_cycle batch_size offset) = after (Cycle.run_cycle message_of provider batch_size offset)
  exec (disable_user action target reason) = after (Office.disable_user u action target reason)
  exec (enable_user action target) = after (Office.enable_user u action target)
  exec (disable_stock action symbol reason) = after (Office.disable_stock u action symbol reason)
  exec (enable_stock action symbol) = after (Office.enable_stock u action symbol)
  exec (disable_alert action id reason) = after (Office.disable_alert u action id reason)

  -- Calls one after the other, each in a setting of its own.
  abbrev pub exec_all : List (Call × Setting) → World → World
  exec_all [] w = w
  exec_all ((c, s) ∷ cs) w =
      exec_all cs
        (exec c (record w { now = s.now; uuids = s.uuids; faults = s.faults; quotes = s.quotes }))
