-- ===== src/AdminApi/Reading.antt =====
-- Which services of the group /api/v1/admin of backend/main.go only read: whatever they answer, the tables
-- are as they were.
use line_stock_alert.Common.{ℕ, ◌≡◌, Bool, Option, none, some}
use line_stock_alert.Text.{Text, Unicode}
use line_stock_alert.World.{
  Db, M, Result, ◌>>=◌, pure, UserRow, raise_if, read, external, map_err, lift_result,
}
use line_stock_alert.World.Triples.{
  Triple, ◌⟫◌, consequence, with_fact, return_rule, raise_rule, raise_if_rule, lift_rule,
  map_err_rule, external_rule,
}
use line_stock_alert.World.Clock.{At, read_known_rule}
use line_stock_alert.Repositories.{
  RepositoryError, failure, admin_alert_not_found, admin_stock_not_found,
}
use line_stock_alert.Repositories.Admin.{one_or}
use line_stock_alert.Repositories.AdminLists as Rows
use line_stock_alert.Stocks.{positive_int}
use line_stock_alert.Admin.Lists as Lists
use line_stock_alert.Repositories.{admin_user_not_found}
use line_stock_alert.Repositories.AdminReads as Queries
use line_stock_alert.Admin.Reads as Reads

-- A call that only reads.
abbrev pub Stays : {E A : Type 0} → Db → ℕ → M E A → Type 0
Stays d n m = Triple (At d n) m (λ _ w. At d n w) (λ _ w. w.db ≡ d)

module _ {d : Db} {n : ℕ} where
  lift-Stays : {D E A : Type 0} (f : D → E) (r : Result D A) → Stays d n (map_err f (lift_result r))
  lift-Stays f r =
      map_err_rule f
        (consequence (λ w h. h) (λ _ w h. h.1) (λ _ w h. h) (lift_rule r (λ e w _ h. h.0)))

  raise_if-Stays : {E : Type 0} (b : Bool) (e : E) → Stays d n (raise_if b e)
  raise_if-Stays b e =
      consequence (λ w h. h) (λ _ w h. h.1) (λ _ w h. h) (raise_if_rule b e (λ w _ h. h.0))

  read-Stays : {A : Type 0} (g : Db → A) → Stays d n (external failure (read g))
  read-Stays g =
      consequence (λ w h. h) (λ _ w h. h.1) (λ _ w h. h)
        (external_rule failure (λ w fs h. h) (λ w h. h.0) (read_known_rule g))

  found-Stays : {A : Type 0} (e : RepositoryError) (o : Option A) → Stays d n (one_or e o)
  unfolding one_or
  found-Stays e none = raise_rule _ e (λ w h. h.0)
  found-Stays e (some a) = return_rule a (λ w h. h)

  one_or-Stays :
      {A : Type 0} (e : RepositoryError) (g : Db → Option A)
      → Stays d n (external failure (read g >>= one_or e))
  one_or-Stays e g =
      external_rule failure (λ w fs h. h) (λ w h. h.0)
        (read_known_rule g ⟫ λ o. with_fact λ _. found-Stays e o)

module _ {d : Db} {n : ℕ} (u : Unicode) where
  pub list_alerts-Stays :
      (symbol status user_id page limit : Text)
      → Stays d n (Lists.list_alerts u symbol status user_id page limit)
  unfolding Lists.list_alerts Rows.list_alerts
  list_alerts-Stays symbol status user_id page limit =
      lift-Stays _ (positive_int page 1 1000000) ⟫ λ number.
      lift-Stays _ (positive_int limit 20 100) ⟫ λ size. raise_if-Stays _ _ ⟫ λ _.
      raise_if-Stays _ _ ⟫ λ _. raise_if-Stays _ _ ⟫ λ _.
      map_err_rule _
        (read-Stays _ ⟫ λ total. read-Stays _ ⟫ λ rows. return_rule (rows, total) (λ w h. h))
      ⟫ λ found. return_rule _ (λ w h. h)

  pub list_stocks-Stays :
      (search status page limit : Text) → Stays d n (Lists.list_stocks u search status page limit)
  unfolding Lists.list_stocks Rows.list_stocks
  list_stocks-Stays search status page limit =
      lift-Stays _ (positive_int page 1 1000000) ⟫ λ number.
      lift-Stays _ (positive_int limit 20 100) ⟫ λ size. raise_if-Stays _ _ ⟫ λ _.
      map_err_rule _
        (read-Stays _ ⟫ λ total. read-Stays _ ⟫ λ rows. return_rule (rows, total) (λ w h. h))
      ⟫ λ found. return_rule _ (λ w h. h)

  pub get_alert-Stays : (id : Text) → Stays d n (Lists.get_alert u id)
  unfolding Lists.get_alert Rows.get_alert
  get_alert-Stays id = map_err_rule _ (one_or-Stays admin_alert_not_found _)

  pub get_stock-Stays : (symbol : Text) → Stays d n (Lists.get_stock u symbol)
  unfolding Lists.get_stock Rows.get_stock
  get_stock-Stays symbol =
      raise_if-Stays _ _ ⟫ λ _. map_err_rule _ (one_or-Stays admin_stock_not_found _)

module _ {d : Db} {n : ℕ} where
  pagination-Stays :
      (default : ℕ) (page limit : Text) → Stays d n (Reads.pagination default page limit)
  unfolding Reads.pagination
  pagination-Stays default page limit =
      lift-Stays _ _ ⟫ λ number. lift-Stays _ _ ⟫ λ size. return_rule _ (λ w h. h)

  -- Two queries, one after the other.
  both-Stays :
      {A B C : Type 0} (g : Db → A) (k : Db → B) (f : A → B → C)
      → Stays d n (
          external failure (read g) >>= λ a.
          external failure (read k) >>= λ b. pure {E = RepositoryError} (f a b))
  both-Stays g k f = read-Stays g ⟫ λ a. read-Stays k ⟫ λ b. return_rule _ (λ w h. h)

  pub dashboard-Stays : Stays d n Reads.dashboard
  unfolding Reads.dashboard Queries.get_dashboard
  dashboard-Stays = map_err_rule _ (read-Stays _)

  pub line_stats-Stays : Stays d n Reads.line_stats
  unfolding Reads.line_stats Queries.line_stats
  line_stats-Stays = map_err_rule _ (both-Stays _ _ (λ counts recent. counts recent))

  pub failed_line_messages-Stays :
      (page limit : Text) → Stays d n (Reads.failed_line_messages page limit)
  unfolding Reads.failed_line_messages Queries.failed_line_messages
  failed_line_messages-Stays page limit = pagination-Stays 50 page limit ⟫ λ at.
      map_err_rule _ (both-Stays _ _ (λ total rows. (rows, total))) ⟫ λ found.
      return_rule _ (λ w h. h)

  pub audit_logs-Stays : (page limit : Text) → Stays d n (Reads.audit_logs page limit)
  unfolding Reads.audit_logs Queries.audit_logs
  audit_logs-Stays page limit = pagination-Stays 50 page limit ⟫ λ at.
      map_err_rule _ (both-Stays _ _ (λ total rows. (rows, total))) ⟫ λ found.
      return_rule _ (λ w h. h)

  pub application_logs-Stays :
      (u : Unicode) (level service page limit : Text)
      → Stays d n (Reads.application_logs u level service page limit)
  unfolding Reads.application_logs Queries.application_logs
  application_logs-Stays u level service page limit = pagination-Stays 50 page limit ⟫ λ at.
      raise_if-Stays _ _ ⟫ λ _. raise_if-Stays _ _ ⟫ λ _.
      map_err_rule _ (both-Stays _ _ (λ total rows. (rows, total))) ⟫ λ found.
      return_rule _ (λ w h. h)

  module _ (u : Unicode) (display_name : UserRow → Text) where
    pub list_users-Stays :
        (search status page limit : Text)
        → Stays d n (Reads.list_users u display_name search status page limit)
    unfolding Reads.list_users Queries.list_users
    list_users-Stays search status page limit = pagination-Stays 20 page limit ⟫ λ at.
        raise_if-Stays _ _ ⟫ λ _.
        map_err_rule _ (both-Stays _ _ (λ total rows. (rows, total))) ⟫ λ found.
        return_rule _ (λ w h. h)

    pub get_user-Stays : (id : Text) → Stays d n (Reads.get_user u display_name id)
    unfolding Reads.get_user Queries.get_user
    get_user-Stays id = map_err_rule _ (
        one_or-Stays admin_user_not_found _ ⟫ λ user.
        read-Stays _ ⟫ λ providers. read-Stays _ ⟫ λ alerts. return_rule _ (λ w h. h))
