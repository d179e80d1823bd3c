-- ===== src/World/Tables.antt =====
-- Rows of the tables of backend/database/schema.sql. A nullable column is an Option; a column whose
-- CHECK lists its values, and which the code only writes as a literal, is an enumeration.
-- A price is an integer in units of 10^-8, as a NUMERIC(20, 8) column holds it.
use line_stock_alert.Common.{ℕ, Bool, true, false, Option, List}
use line_stock_alert.Common.Int.{ℤ}
use line_stock_alert.Text.{Text, text}

pub data Role : Type 0 where
  user admin : Role

-- The status of a user or of a stock.
pub data Standing : Type 0 where
  active disabled : Standing

pub data AlertStatus : Type 0 where
  active triggered disabled : AlertStatus

abbrev pub is_admin : Role → Bool
is_admin Role.admin = true
is_admin Role.user = false

abbrev pub is_active : Standing → Bool
is_active Standing.active = true
is_active Standing.disabled = false

abbrev pub alert_is_active : AlertStatus → Bool
alert_is_active AlertStatus.active = true
alert_is_active _ = false

abbrev pub alert_is_triggered : AlertStatus → Bool
alert_is_triggered AlertStatus.triggered = true
alert_is_triggered _ = false

abbrev pub alert_is_disabled : AlertStatus → Bool
alert_is_disabled AlertStatus.disabled = true
alert_is_disabled _ = false

abbrev pub alert_status_text : AlertStatus → Text
alert_status_text AlertStatus.active = text "ACTIVE"
alert_status_text AlertStatus.triggered = text "TRIGGERED"
alert_status_text AlertStatus.disabled = text "DISABLED"

pub record UserRow : Type 0 where
  pub id : Text
  pub email : Option Text
  pub password_hash : Option Text
  pub email_verified_at : Option ℕ
  pub role : Role
  pub status : Standing
  pub disabled_reason : Option Text
  pub disabled_at : Option ℕ

-- The column provider holds 'LINE' in every row (its CHECK).
pub record IdentityRow : Type 0 where
  pub user_id : Text
  pub provider_user_id : Text

pub record StockRow : Type 0 where
  pub id : Text
  pub symbol : Text
  pub name : Option Text
  pub exchange : Option Text
  pub currency : Option Text
  pub status : Standing
  pub disabled_reason : Option Text
  pub disabled_at : Option ℕ
  pub last_quote_price : Option ℤ
  pub last_quote_at : Option ℕ

pub record AlertRow : Type 0 where
  pub id : Text
  pub user_id : Text
  pub stock_id : Text
  pub condition : Text
  pub target_price : ℤ
  pub status : AlertStatus
  pub triggered_at : Option ℕ
  pub disabled_reason : Option Text
  pub disabled_at : Option ℕ
  pub created_at : ℕ
  pub updated_at : ℕ

pub record TokenRow : Type 0 where
  pub id : Text
  pub user_id : Text
  pub family_id : Text
  pub token_hash : Text
  pub replaced_by : Option Text
  pub expires_at : ℕ
  pub last_used_at : Option ℕ
  pub revoked_at : Option ℕ

pub record AlertLogRow : Type 0 where
  pub alert_id : Text
  pub user_id : Text
  pub sent : Bool
  pub message : Text
  pub triggered_price : ℤ
  pub sent_at : Option ℕ

pub record AuditRow : Type 0 where
  pub admin_user_id : Text
  pub action : Text
  pub target_id : Text
  pub reason : Text

pub data EventStatus : Type 0 where
  received processed failed : EventStatus

pub record EventRow : Type 0 where
  pub line_event_id : Text
  pub line_user_id : Option Text
  pub event_type : Text
  pub status : EventStatus
  pub processed_at : Option ℕ
  pub error_message : Option Text

pub record Db : Type 0 where
  pub users : List UserRow
  pub identities : List IdentityRow
  pub stocks : List StockRow
  pub alerts : List AlertRow
  pub tokens : List TokenRow
  pub alert_logs : List AlertLogRow
  pub audit_logs : List AuditRow
  pub events : List EventRow
  pub application_logs : List Text

-- backend/internal/models/stock.go, as far as the services compute with a quote.
pub record StockQuote : Type 0 where
  pub symbol : Text
  pub price : ℤ
  pub updated_at : ℕ
  pub cached : Bool

pub record StockCandle : Type 0 where
  pub timestamp : ℕ
  pub open_price : ℤ
  pub high : ℤ
  pub low : ℤ
  pub close_price : ℤ
  pub volume : ℤ

pub record StockCandleSeries : Type 0 where
  pub symbol : Text
  pub range : Text
  pub interval : Text
  pub currency : Text
  pub timezone : Text
  pub candles : List StockCandle
  pub cached : Bool

-- A transition of the US market, whose notification is claimed once for its day.
pub data MarketEvent : Type 0 where
  market_open market_closed : MarketEvent

-- The requests of backend/internal/services/rich_menu_service.go that change what LINE holds.
pub data MenuRequest : Type 0 where
  create_menu : MenuRequest
  upload_image set_default delete_menu : Text → MenuRequest
