-- ===== src/Lifecycle/Refinement.antt =====
-- alert_service.go, alert_worker.go and the services of the administrators in backend/internal/services: any
-- sequence of their calls is a run of the machine of alerts, and what follows of a disabled alert.
use line_stock_alert.Text.Laws.{text_eq_iff}
use mathlib.Core.Bool.{true≢false}
use line_stock_alert.Common.{
  ℕ, ◌≡◌, refl, sym, ap, ◌∙◌, subst, Bool, true, false, not, ◌&&◌, List, [], ◌∷◌, any,
  if◌then◌else◌, Bool-cases, inl, inr,
}
use line_stock_alert.Text.{Text, Unicode, text_eq}
use line_stock_alert.World.{World, AlertRow, AlertStatus, StockQuote, alert_is_disabled}
use line_stock_alert.Models.{StockProvider, ActiveAlertJob}
use line_stock_alert.Lifecycle.{
  Move, stay, fire, rearm, withdraw, IsMoved, Moves, none_left, next_moves, has_id, Step, change,
  add, remove, Run, done, then_step, Call, list, create, update, delete, rearm_alert, run_cycle,
  disable_user, enable_user, disable_stock, enable_stock, disable_alert, is_delete, Setting, exec,
  exec_all,
}
use line_stock_alert.Lifecycle.Runs.{Runs, trans-Run}
use line_stock_alert.Lifecycle.Alerts.{
  service_list-Keeps, service_create-Keeps, service_update-Keeps, service_rearm-Keeps,
  service_delete-Keeps,
}
use line_stock_alert.Lifecycle.Worker.{run_cycle-Keeps}
use line_stock_alert.Lifecycle.Admin.{
  disable_user-Keeps, enable_user-Keeps, disable_stock-Keeps, enable_stock-Keeps,
  service_alert-Keeps,
}

abbrev pub deletes : List (Call × Setting) → Bool
deletes cs = any (λ (c : Call × Setting). is_delete c.0) cs

later-any : (x : Bool) {y : Bool} → y ≡ true → (if x then true else y) ≡ true
later-any true e = refl
later-any false e = e

module _ (u : Unicode) (provider : StockProvider) (limit : ℕ)
    (message_of : ActiveAlertJob → StockQuote → Text) where
  exec-Run :
      (b : Bool) (c : Call) (w : World)
      → (is_delete c ≡ true → b ≡ true)
      → Runs b w.db (exec u provider limit message_of c w).db
  exec-Run b (list user_id symbol status) w h =
      (service_list-Keeps u provider limit user_id b symbol status).at w
  exec-Run b (create user_id request) w h =
      (service_create-Keeps u provider limit user_id b request).at w
  exec-Run b (update user_id id request) w h =
      (service_update-Keeps u provider limit user_id b id request).at w
  exec-Run b (delete user_id id) w h =
      subst (λ b. Runs b w.db (exec u provider limit message_of (delete user_id id) w).db)
        (sym (h refl)) ((service_delete-Keeps u provider limit user_id id).at w)
  exec-Run b (rearm_alert user_id id) w h = (service_rearm-Keeps u provider limit user_id b id).at w
  exec-Run b (run_cycle size offset) w h = (run_cycle-Keeps b message_of provider size offset).at w
  exec-Run b (disable_user action target reason) w h =
      (disable_user-Keeps b action u target reason).at w
  exec-Run b (enable_user action target) w h = (enable_user-Keeps b action u target).at w
  exec-Run b (disable_stock action symbol reason) w h =
      (disable_stock-Keeps b action u symbol reason).at w
  exec-Run b (enable_stock action symbol) w h = (enable_stock-Keeps b action u symbol).at w
  exec-Run b (disable_alert action id reason) w h = (service_alert-Keeps b action u id reason).at w

  -- Any sequence of calls of the users, the worker and the administrators, whatever fails on the way, takes
  -- the table of alerts along a run of the machine: an alert keeps its id and its user; it only becomes
  -- triggered when it is active, and active when it is triggered; an alert that is added is active and has a
  -- new id; and none is removed unless a Delete is among the calls.
  pub exec_all-Run :
      (cs : List (Call × Setting)) (w : World)
      → Run (deletes cs) w.db.alerts (exec_all u provider limit message_of cs w).db.alerts
  exec_all-Run cs w = go (deletes cs) cs w (λ e. e)
    where
      go :
          (b : Bool) (cs : List (Call × Setting)) (w : World)
          → (deletes cs ≡ true → b ≡ true)
          → Runs b w.db (exec_all u provider limit message_of cs w).db
      go b [] w h = done w.db.alerts
      go b ((c, s) ∷ cs) w h =
          let before = record w {
            now = s.now;
            uuids = s.uuids;
            faults = s.faults;
            quotes = s.quotes;
          } in
          let next = exec u provider limit message_of c before in
          let last = exec_all u provider limit message_of cs next in
          trans-Run b w.db.alerts next.db.alerts last.db.alerts
            (exec-Run b c before λ e. h (rw e refl))
            (go b cs next λ e. h (later-any (is_delete c) e))

-- The alert is there, and no row of it is active or triggered.
abbrev pub live : Text → AlertRow → Bool
live x a = has_id x a && not (alert_is_disabled a.status)

pub record IsOff (x : Text) (rows : List AlertRow) : Type 0 where
  pub there : any (has_id x) rows ≡ true
  pub off : any (live x) rows ≡ false

live-move :
    (k : Bool) (s t : AlertStatus)
    → Move s t
    → (k && not (alert_is_disabled s)) ≡ false
    → (k && not (alert_is_disabled t)) ≡ false
live-move false s t m e = refl
live-move true s t (stay _) e = e
live-move true s t fire e = e
live-move true s t rearm e = e
live-move true s t (withdraw _) e = refl

neither : (b c : Bool) → (if b then true else c) ≡ false → (b ≡ false) × (c ≡ false)
neither true c e = absurd (true≢false e)
neither false c e = (refl, e)

module _ (x : Text) where
  same_id : (a b : AlertRow) → IsMoved a b → has_id x b ≡ has_id x a
  same_id a b m = ap (λ i. text_eq i x) m.id

  there-Moves :
      (rows next : List AlertRow) → Moves rows next → any (has_id x) next ≡ any (has_id x) rows
  there-Moves rows next none_left = refl
  there-Moves rows next (next_moves a b ps qs m ms) =
      let e = same_id a b m in rw (e, there-Moves ps qs ms) refl

  off-Moves :
      (rows next : List AlertRow)
      → Moves rows next
      → any (live x) rows ≡ false
      → any (live x) next ≡ false
  off-Moves rows next none_left h = h
  off-Moves rows next (next_moves a b ps qs m ms) h =
      let here = neither (live x a) (any (live x) ps) h in
      let moved : live x b ≡ false =
        live-move (has_id x b) a.status b.status m.status (rw (same_id a b m) here.0) in
      rw moved (off-Moves ps qs ms here.1)

  -- A row that is added beside it has another id.
  added-other :
      (a : AlertRow) (rows : List AlertRow)
      → any (has_id a.id) rows ≡ false
      → any (has_id x) rows ≡ true
      → has_id x a ≡ false
  added-other a rows free there = elim (Bool-cases (has_id x a)) [
    | inr e ↦ e
    | inl e ↦
        let same = (text_eq_iff a.id x).0 e in
        absurd (true≢false (sym there ∙ (ap (λ i. any (has_id i) rows) (sym same) ∙ free)))
  ]

  Step-IsOff : (rows next : List AlertRow) → Step false rows next → IsOff x rows → IsOff x next
  Step-IsOff rows next (change _ _ m) h = record {
    there = there-Moves rows next m ∙ h.there;
    off = off-Moves rows next m h.off;
  }
  Step-IsOff rows next (add a _ active free) h =
      let other = added-other a rows free h.there in
      record { there = rw other h.there; off = rw other h.off }
  Step-IsOff rows next (remove p _ e) h = absurd (true≢false (sym e))

  Run-IsOff : (rows next : List AlertRow) → Run false rows next → IsOff x rows → IsOff x next
  Run-IsOff rows next (done _) h = h
  Run-IsOff rows next (then_step _ mid _ r s) h = Step-IsOff mid next s (Run-IsOff rows mid r h)

-- An alert that is disabled stays so: after any sequence of calls without a Delete, whatever fails on the
-- way, it is still there, and not active or triggered again.
pub disabled_stays :
    (u : Unicode) (provider : StockProvider) (limit : ℕ)
    (message_of : ActiveAlertJob → StockQuote → Text) (cs : List (Call × Setting)) (w : World)
    (x : Text)
    → deletes cs ≡ false
    → IsOff x w.db.alerts
    → IsOff x (exec_all u provider limit message_of cs w).db.alerts
disabled_stays u provider limit message_of cs w x kept h =
    Run-IsOff x w.db.alerts _
      (subst (λ b. Run b w.db.alerts (exec_all u provider limit message_of cs w).db.alerts) kept
        (exec_all-Run u provider limit message_of cs w))
      h
