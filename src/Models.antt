-- ===== src/Models.antt =====
-- backend/internal/models and the interface StockProvider of
-- backend/internal/services/finnhub_client.go: what the services pass to one another.
use line_stock_alert.Common.{ℕ, Option, List}
use line_stock_alert.Common.Int.{ℤ}
use line_stock_alert.Text.{Text}
use line_stock_alert.World.{AlertStatus, Role, Standing, Result, StockQuote}

pub record StockMetadata : Type 0 where
  pub symbol : Text
  pub name : Text
  pub exchange : Text
  pub currency : Text

pub record Alert : Type 0 where
  pub id : Text
  pub symbol : Text
  pub condition : Text
  pub target_price : ℤ
  pub status : AlertStatus
  pub triggered_at : Option ℕ
  pub disabled_reason : Option Text
  pub created_at : ℕ
  pub updated_at : ℕ

pub record AlertFilter : Type 0 where
  pub symbol : Text
  pub status : Text

pub record CreateAlertRequest : Type 0 where
  pub symbol : Text
  pub condition : Text
  pub target_price : ℤ

pub record UpdateAlertRequest : Type 0 where
  pub condition : Text
  pub target_price : ℤ

pub record ActiveAlertJob : Type 0 where
  pub id : Text
  pub user_id : Text
  pub line_user_id : Option Text
  pub symbol : Text
  pub condition : Text
  pub target_price : ℤ

pub record User : Type 0 where
  pub id : Text
  pub email : Text
  pub password_hash : Text
  pub role : Role
  pub status : Standing
  pub email_verified_at : Option ℕ

pub record RefreshToken : Type 0 where
  pub id : Text
  pub user_id : Text
  pub family_id : Text
  pub token_hash : Text
  pub expires_at : ℕ
  pub revoked_at : Option ℕ

pub record TokenResponse : Type 0 where
  pub access_token : Text
  pub refresh_token : Text
  pub expires_in : ℕ

-- ErrStockNotFound, ErrStockProviderRateLimit, context.DeadlineExceeded and every other error.
pub data ProviderError : Type 0 where
  stock_not_found rate_limit deadline_exceeded other : ProviderError

-- The provider is reached over HTTP: its answers are the environment's.
pub record StockProvider : Type 0 where
  pub search_us_stocks : Result ProviderError (List StockMetadata)
  pub validate_us_stock : Text → Result ProviderError StockMetadata
  pub quote : Text → Result ProviderError StockQuote
