-- ===== src/Lifecycle/Alerts.antt =====
-- AlertService of backend/internal/services/alert_service.go runs the machine of alerts.
use line_stock_alert.Common.{ℕ, ◌≡◌, refl, Bool, true, false, Option, none, some, ◌∷◌, arith, sym}
use mathlib.Core.Bool.{true≢false}
use line_stock_alert.Common.Int.{ℤ}
use line_stock_alert.Text.{Text, Unicode}
use line_stock_alert.World.{
  AlertRow, AlertStatus, StockRow, alert_is_triggered, World, raise_if, read, write, pure, ◌>>=◌,
}
use line_stock_alert.Models.{
  StockMetadata, StockProvider, AlertFilter, CreateAlertRequest, UpdateAlertRequest,
}
use line_stock_alert.Repositories.{RepositoryError}
use line_stock_alert.Repositories.Alerts as Store
use line_stock_alert.Alerts as Service
use line_stock_alert.Lifecycle.{IsMoved, rearm, stay, add, remove, done, Move}
use line_stock_alert.Lifecycle.Keeps.{
  Keeps, pure-Keeps, raise-Keeps, lift-Keeps, read-Keeps, external-Keeps, map_err-Keeps,
  clock-Keeps, raise_if-Keeps, uuid-Keeps, bind-Keeps, transaction-Keeps, write-Keeps, IsPreorder,
}
use line_stock_alert.Lifecycle.Runs.{Runs, Runs-IsPreorder, single-Run, update_where-Run}

rearm_move : (s : AlertStatus) → alert_is_triggered s ≡ true → Move s AlertStatus.active
rearm_move AlertStatus.active e = stay AlertStatus.active
rearm_move AlertStatus.triggered e = rearm
rearm_move AlertStatus.disabled e = absurd (true≢false (sym e))

module _ (b : Bool) where
  abbrev o : IsPreorder (Runs b)
  o = Runs-IsPreorder b

  one_row-Keeps :
      (e : RepositoryError) (r : Option (AlertRow × StockRow)) → Keeps (Runs b) (Store.one_row e r)
  unfolding Store.one_row
  one_row-Keeps e none = raise-Keeps o e
  one_row-Keeps e (some p) = pure-Keeps o p

  list-Keeps : (user_id : Text) (f : AlertFilter) → Keeps (Runs b) (Store.list user_id f)
  unfolding Store.list
  list-Keeps user_id f = external-Keeps o _ (read-Keeps o _)

  count_active-Keeps : (user_id : Text) → Keeps (Runs b) (Store.count_active user_id)
  unfolding Store.count_active
  count_active-Keeps user_id = external-Keeps o _ (read-Keeps o _)

  get-Keeps : (user_id id : Text) → Keeps (Runs b) (Store.get user_id id)
  unfolding Store.get
  get-Keeps user_id id =
      external-Keeps o _
        (bind-Keeps o (read-Keeps o _) λ r. bind-Keeps o (one_row-Keeps _ r) λ p. pure-Keeps o _)

  insert_or_merge-Keeps :
      (m : StockMetadata) (r : Option StockRow) → Keeps (Runs b) (Store.insert_or_merge m r)
  unfolding Store.insert_or_merge
  insert_or_merge-Keeps m none = bind-Keeps o (uuid-Keeps o _) λ id.
      bind-Keeps o (read-Keeps o _) λ taken.
        bind-Keeps o (raise_if-Keeps o taken _)
          λ _. bind-Keeps o (write-Keeps _ λ d. done d.alerts) λ _. pure-Keeps o _
  insert_or_merge-Keeps m (some s) =
      bind-Keeps o (write-Keeps _ λ d. done d.alerts) λ _. pure-Keeps o _

  after_check :
      {E : Type 0} (e : E) (a : AlertRow) (t : Bool) (w : World)
      → a.status ≡ AlertStatus.active
      → Store.breaks_unique a w.db ≡ t
      → Runs b w.db
          ((raise_if t e >>= λ _.
              write (λ db. record db { alerts = a ∷ db.alerts }) >>= λ _. pure a)
            w).1.db
  unfolding ◌>>=◌
  after_check e a true w active h = done w.db.alerts
  after_check e a false w active h =
      single-Run b w.db.alerts (a ∷ w.db.alerts) (add a w.db.alerts active (ground (arith, h)))

  add-Keeps :
      {E : Type 0} (e : E) (a : AlertRow)
      → a.status ≡ AlertStatus.active
      → Keeps (Runs b) (
          read (Store.breaks_unique a) >>= λ t.
          raise_if t e >>= λ _. write (λ db. record db { alerts = a ∷ db.alerts }) >>= λ _. pure a)
  unfolding ◌>>=◌
  add-Keeps e a active = record { at = λ w. after_check e a _ w active refl }

  insert_alert-Keeps :
      (user_id stock_id condition : Text) (price : ℤ)
      → Keeps (Runs b) (Store.insert_alert user_id stock_id condition price)
  unfolding Store.insert_alert
  insert_alert-Keeps user_id stock_id condition price = bind-Keeps o (uuid-Keeps o _) λ id.
      bind-Keeps o (clock-Keeps o)
        λ now. bind-Keeps o (raise_if-Keeps o _ _) λ _. add-Keeps _ _ refl

  create-Keeps :
      (user_id : Text) (m : StockMetadata) (condition : Text) (price : ℤ)
      → Keeps (Runs b) (Store.create user_id m condition price)
  unfolding Store.create Store.upsert_stock
  create-Keeps user_id m condition price = transaction-Keeps o _ (
      bind-Keeps o
        (external-Keeps o _ (bind-Keeps o (read-Keeps o _) λ r. insert_or_merge-Keeps m r))
        λ s. bind-Keeps o (raise_if-Keeps o _ _) λ _.
          bind-Keeps o (external-Keeps o _ (insert_alert-Keeps user_id s.id condition price))
            λ a. pure-Keeps o _)

  update_returning-Keeps :
      (e : RepositoryError) (p : AlertRow → Bool) (f : AlertRow → AlertRow)
      → ((a : AlertRow) → p a ≡ true → IsMoved a (f a))
      → Keeps (Runs b) (Store.update_returning e p f)
  unfolding Store.update_returning
  update_returning-Keeps e p f h = bind-Keeps o (read-Keeps o _) λ r.
      bind-Keeps o (one_row-Keeps e r) λ row. bind-Keeps o (read-Keeps o _) λ taken.
        bind-Keeps o (raise_if-Keeps o taken _) λ _.
          bind-Keeps o (write-Keeps _ λ d. update_where-Run b p f d.alerts h) λ _. pure-Keeps o _

  update-Keeps :
      (user_id id condition : Text) (price : ℤ)
      → Keeps (Runs b) (Store.update user_id id condition price)
  unfolding Store.update
  update-Keeps user_id id condition price = external-Keeps o _ (
      bind-Keeps o (read-Keeps o _) λ r. bind-Keeps o (one_row-Keeps _ r) λ _.
        bind-Keeps o (raise_if-Keeps o _ _) λ _. bind-Keeps o (clock-Keeps o) λ now.
          update_returning-Keeps _ _ _
            λ a _. record { id = refl; owner = refl; status = stay a.status })

  rearmed :
      (a : AlertRow) (now : ℕ)
      → alert_is_triggered a.status ≡ true
      → IsMoved a (Store.reactivate now a)
  rearmed a now e = record { id = refl; owner = refl; status = rearm_move a.status e }

  rearm-Keeps : (user_id id : Text) → Keeps (Runs b) (Store.rearm user_id id)
  unfolding Store.rearm
  rearm-Keeps user_id id = external-Keeps o _ (
      bind-Keeps o (clock-Keeps o)
        λ now. update_returning-Keeps _ _ _ λ a e. rearmed a now (ground (arith, e)))

delete-Keeps : (user_id id : Text) → Keeps (Runs true) (Store.delete user_id id)
unfolding Store.delete
delete-Keeps user_id id =
    let o = Runs-IsPreorder true in
    external-Keeps o _ (
      bind-Keeps o (read-Keeps o _) λ affected.
        bind-Keeps o
          (write-Keeps _
            λ d. single-Run true d.alerts _ (remove (Store.is_owned id user_id) d.alerts refl))
          λ _. raise_if-Keeps o _ _)

-- The methods of the service, on top of those of the repository.
module _ (u : Unicode) (provider : StockProvider) (limit : ℕ) (user_id : Text) where
  module _ (b : Bool) where
    below_limit-Keeps : Keeps (Runs b) (Service.below_limit u provider limit user_id)
    unfolding Service.below_limit
    below_limit-Keeps =
        bind-Keeps (o b) (map_err-Keeps (o b) _ (count_active-Keeps b user_id))
          λ n. raise_if-Keeps (o b) _ _

    pub service_list-Keeps :
        (symbol status : Text)
        → Keeps (Runs b) (Service.list u provider limit user_id symbol status)
    unfolding Service.list
    service_list-Keeps symbol status = bind-Keeps (o b) (raise_if-Keeps (o b) _ _) λ _.
        bind-Keeps (o b) (raise_if-Keeps (o b) _ _)
          λ _. map_err-Keeps (o b) _ (list-Keeps b user_id _)

    pub service_create-Keeps :
        (request : CreateAlertRequest)
        → Keeps (Runs b) (Service.create u provider limit user_id request)
    unfolding Service.create
    service_create-Keeps request = bind-Keeps (o b) (raise_if-Keeps (o b) _ _) λ _.
        bind-Keeps (o b) (lift-Keeps (o b) _) λ _. bind-Keeps (o b) below_limit-Keeps λ _.
          bind-Keeps (o b) (map_err-Keeps (o b) _ (lift-Keeps (o b) _))
            λ stock. map_err-Keeps (o b) _ (create-Keeps b user_id stock _ _)

    pub service_update-Keeps :
        (id : Text) (request : UpdateAlertRequest)
        → Keeps (Runs b) (Service.update u provider limit user_id id request)
    unfolding Service.update
    service_update-Keeps id request =
        bind-Keeps (o b) (lift-Keeps (o b) _)
          λ _. map_err-Keeps (o b) _ (update-Keeps b user_id _ _ _)

    pub service_rearm-Keeps :
        (id : Text) → Keeps (Runs b) (Service.rearm u provider limit user_id id)
    unfolding Service.rearm
    service_rearm-Keeps id =
        bind-Keeps (o b) (map_err-Keeps (o b) _ (get-Keeps b user_id _)) λ alert.
          bind-Keeps (o b) (raise_if-Keeps (o b) _ _) λ _. bind-Keeps (o b) below_limit-Keeps λ _.
            bind-Keeps (o b) (map_err-Keeps (o b) _ (lift-Keeps (o b) _)) λ quote.
              bind-Keeps (o b) (raise_if-Keeps (o b) _ _)
                λ _. map_err-Keeps (o b) _ (rearm-Keeps b user_id _)

  pub service_delete-Keeps :
      (id : Text) → Keeps (Runs true) (Service.delete u provider limit user_id id)
  unfolding Service.delete
  service_delete-Keeps id = map_err-Keeps (Runs-IsPreorder true) _ (delete-Keeps user_id _)
