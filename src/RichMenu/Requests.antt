-- ===== src/RichMenu/Requests.antt =====
-- Publish of backend/internal/services/rich_menu_service.go from the request that creates a menu on: the
-- requests that LINE has accepted, and the calls that have failed.
use line_stock_alert.Common.{
  ℕ, suc, ◌≡◌, ◌≤◌, refl, sym, subst, ap, ◌⊎◌, inl, inr, Option, none, some, List, [], ◌∷◌, arith,
}
use line_stock_alert.Text.{Text, text}
use line_stock_alert.World.{
  World, Db, Result, ok, err, attempt, ◌>>=◌, MenuRequest, create_menu, upload_image, set_default,
  delete_menu, write,
}
use line_stock_alert.World.Triples.{
  Post, Triple, ◌⟫◌, consequence, with_fact, return_rule, raise_rule, map_err_rule, lift_rule,
  attempt_rule,
}
use line_stock_alert.World.Faults.{HasMet, counted_rule}
use line_stock_alert.Errors.{Error, Code}
use line_stock_alert.Repositories.{failure}
use line_stock_alert.Repositories.Admin.{AdminActionContext, audit_row, insert_audit}
use line_stock_alert.RichMenu.{
  Outside, request, create, non_empty, or_delete, record_publish, publish_menu,
  line_rich_menu_error,
}

abbrev pub Sent : Db → List MenuRequest → World → Type 0
Sent d rs w = (w.db ≡ d) × (w.menu_requests ≡ rs)

-- The requests of a Publish that stopped before the menu was the default one, where `old` were there
-- before and `lost` calls had failed: none, the creation, and the image with it, followed by the deletion
-- of that menu. Without the deletion, either two calls failed or LINE named no menu to delete.
pub data Stopped (o : Outside) (old : List MenuRequest) (lost : ℕ) : List MenuRequest → Type 0 where
  not_created : Stopped o old lost old
  left_unnamed :
      (o.created_id ≡ none) ⊎ (o.created_id ≡ some []) → Stopped o old lost (create_menu ∷ old)
  left_empty : 2 ≤ lost → Stopped o old lost (create_menu ∷ old)
  removed_empty :
      (id : Text) → o.created_id ≡ some id → Stopped o old lost (delete_menu id ∷ create_menu ∷ old)
  left_image :
      (id : Text)
      → o.created_id ≡ some id
      → 2 ≤ lost
      → Stopped o old lost (upload_image id ∷ create_menu ∷ old)
  removed_image :
      (id : Text)
      → o.created_id ≡ some id
      → Stopped o old lost (delete_menu id ∷ upload_image id ∷ create_menu ∷ old)

abbrev pub published : Text → List MenuRequest → List MenuRequest
published id old = set_default id ∷ upload_image id ∷ create_menu ∷ old

-- A failing Publish has stopped so, or has only lost its audit entry.
pub data Failed (o : Outside) (old : List MenuRequest) (lost : ℕ)
    : Code → List MenuRequest → Type 0 where
  stopped : (c : Code) (rs : List MenuRequest) → Stopped o old lost rs → Failed o old lost c rs
  audit_lost :
      (id : Text)
      → o.created_id ≡ some id
      → Failed o old lost Code.internal_server_error (published id old)

-- With a number of calls that have failed since `total` failures were to come.
abbrev pub HasFailed : Outside → List MenuRequest → ℕ → Code → World → Type 0
HasFailed o old total c w = (lost : ℕ) × HasMet total lost w × Failed o old lost c w.menu_requests

named-id : (c : Option Text) (id : Text) → non_empty c ≡ ok id → c ≡ some id
named-id none id e = ground arith
named-id (some []) id e = ground arith
named-id (some (c ∷ rest)) id e = cc

unnamed : (c : Option Text) (e : Unit {0}) → non_empty c ≡ err e → (c ≡ none) ⊎ (c ≡ some [])
unnamed none e h = inl refl
unnamed (some []) e h = inr refl
unnamed (some (c ∷ rest)) e h = ground arith

module _ (o : Outside) (d : Db) (old : List MenuRequest) (total : ℕ) where
  abbrev pub Fails : Error → World → Type 0
  Fails e w = (w.db ≡ d) × HasFailed o old total e.code w

  -- With `met` failures behind.
  abbrev pub SentAfter : ℕ → List MenuRequest → World → Type 0
  SentAfter met rs w = Sent d rs w × HasMet total met w

  pub fails :
      (c : Code) (rs : List MenuRequest) (lost : ℕ) (w : World)
      → Stopped o old lost rs
      → SentAfter lost rs w
      → (w.db ≡ d) × HasFailed o old total c w
  fails c rs lost w s h =
      (h.0.0, (lost, h.1, stopped c w.menu_requests (subst (Stopped o old lost) (sym h.0.1) s)))

  request_rule :
      (met : ℕ) (r : MenuRequest) (rs : List MenuRequest)
      → Triple
          (SentAfter met rs)
          (request r)
          (λ _. SentAfter met (r ∷ rs))
          (λ _. SentAfter (suc met) rs)
  unfolding request
  request_rule met r rs =
      counted_rule total met tt (λ w fs h. h) (λ w h k. (h, k))
        (record { at = λ w h. ((h.0.0, ap (λ (rs : List MenuRequest). r ∷ rs) h.0.1), h.1) })

  -- After one failing step and the deletion, however that went.
  given_up :
      (id : Text) (rs : List MenuRequest) (r : Result (Unit {0}) (Unit {0})) (e : Error) (w : World)
      → Stopped o old 2 rs
      → Stopped o old 1 (delete_menu id ∷ rs)
      → Post (λ _. SentAfter 1 (delete_menu id ∷ rs)) (λ _. SentAfter 2 rs) (r, w)
      → Fails e w
  given_up id rs (ok _) e w s s' h = fails e.code (delete_menu id ∷ rs) 1 w s' h
  given_up id rs (err _) e w s s' h = fails e.code rs 2 w s h

  or_delete_rule :
      (id : Text) (done rs : List MenuRequest) (r : Result (Unit {0}) (Unit {0}))
      → Stopped o old 2 rs
      → Stopped o old 1 (delete_menu id ∷ rs)
      → Triple
          (λ w. Post (λ _. SentAfter 0 done) (λ _. SentAfter 1 rs) (r, w))
          (or_delete id r)
          (λ _. SentAfter 0 done)
          Fails
  or_delete_rule id done rs (ok u) s s' = return_rule _ (λ w h. h)
  or_delete_rule id done rs (err e) s s' = attempt_rule (request_rule 1 (delete_menu id) rs) ⟫ λ r.
      raise_rule _ _ λ w. given_up id rs r (line_rich_menu_error e) w s s'

  step_rule :
      (id : Text) (step : MenuRequest) (rs : List MenuRequest)
      → Stopped o old 2 rs
      → Stopped o old 1 (delete_menu id ∷ rs)
      → Triple
          (SentAfter 0 rs)
          (attempt (request step) >>= or_delete id)
          (λ _. SentAfter 0 (step ∷ rs))
          Fails
  step_rule id step rs s s' =
      attempt_rule (request_rule 0 step rs) ⟫ λ r. or_delete_rule id (step ∷ rs) rs r s s'

  create_rule :
      Triple
        (SentAfter 0 old)
        (create o)
        (λ id w. (o.created_id ≡ some id) × SentAfter 0 (create_menu ∷ old) w)
        (λ e. Fails (line_rich_menu_error e))
  unfolding create
  create_rule =
      consequence (λ w h. h) (λ _ w h. h) (λ e w h. fails _ _ 1 w not_created h)
        (request_rule 0 create_menu old)
      ⟫ λ _.
          consequence (λ w h. h) (λ id w h. (named-id o.created_id id h.0, h.1)) (λ _ w h. h)
            (lift_rule (non_empty o.created_id)
              λ e w c h. fails _ _ 0 w (left_unnamed (unnamed o.created_id e c)) h)

  abbrev audited : AdminActionContext → Text → Db
  audited action id = record d {
    audit_logs = audit_row action (text "RICH_MENU_PUBLISHED") id [] ∷ d.audit_logs;
  }

  record_rule :
      (action : AdminActionContext) (id : Text)
      → Triple
          (SentAfter 0 (published id old))
          (record_publish action id)
          (λ _. Sent (audited action id) (published id old))
          (λ _. SentAfter 1 (published id old))
  unfolding record_publish insert_audit write
  record_rule action id =
      counted_rule total 0 failure (λ w fs h. h) (λ w h k. (h, k))
        (record { at = λ w h. (ap add h.0.0, h.0.1) })
    where
      add : Db → Db
      add db = record db {
        audit_logs = audit_row action (text "RICH_MENU_PUBLISHED") id [] ∷ db.audit_logs;
      }

  pub publish_menu_rule :
      (url : Text) (action : AdminActionContext)
      → Triple
          (SentAfter 0 old)
          (publish_menu o url action)
          (λ r w.
            (o.created_id ≡ some r.rich_menu_id)
            × Sent (audited action r.rich_menu_id) (published r.rich_menu_id old) w)
          Fails
  unfolding publish_menu
  publish_menu_rule url action = map_err_rule _ create_rule ⟫ λ id. with_fact λ named.
      step_rule id (upload_image id) _ (left_empty (omega arith)) (removed_empty id named) ⟫ λ _.
      step_rule id (set_default id) _ (left_image id named (omega arith)) (removed_image id named)
      ⟫ λ _.
          map_err_rule _ (
            consequence (λ w h. h) (λ _ w h. h)
              (λ e w h. (
                h.0.0,
                (
                  1,
                  h.1,
                  subst (Failed o old 1 Code.internal_server_error) (sym h.0.1)
                      (audit_lost id named),
                ),
              ))
              (record_rule action id))
          ⟫ λ _. return_rule _ (λ w h. (named, h))
