-- ===== src/Examples.antt =====
-- Small concrete tables, a stock provider and a crypto for the tests of every component.
use line_stock_alert.Common.{ℕ, false, none, some, [], ◌∷◌}
use line_stock_alert.Common.Int.{pos}
use line_stock_alert.Text.{text, text_eq}
use line_stock_alert.World.{
  World, ok, Db, UserRow, StockRow, AlertRow, TokenRow, Role, Standing, AlertStatus,
}
use line_stock_alert.Models.{StockProvider, StockMetadata}
use line_stock_alert.Auth.{Crypto, AuthConfig}
use line_stock_alert.Repositories.Admin.{AdminActionContext}

abbrev pub root : UserRow
root = record {
  id = text "u1";
  email = some (text "root@x");
  password_hash = some (text "pw");
  email_verified_at = some 1;
  role = Role.admin;
  status = Standing.active;
  disabled_reason = none;
  disabled_at = none;
}

abbrev pub second_admin : UserRow
second_admin = record root { id = text "u2"; email = some (text "two@x") }

abbrev pub customer : UserRow
customer = record root {
  id = text "u3";
  email = none;
  password_hash = none;
  email_verified_at = none;
  role = Role.user;
}

abbrev pub apple : StockRow
apple = record {
  id = text "s1";
  symbol = text "AAPL";
  name = some (text "Apple");
  exchange = none;
  currency = none;
  status = Standing.active;
  disabled_reason = none;
  disabled_at = none;
  last_quote_price = none;
  last_quote_at = none;
}

abbrev pub watching : AlertRow
watching = record {
  id = text "a1";
  user_id = text "u3";
  stock_id = text "s1";
  condition = text "ABOVE";
  target_price = pos 10;
  status = AlertStatus.active;
  triggered_at = none;
  disabled_reason = none;
  disabled_at = none;
  created_at = 1;
  updated_at = 1;
}

abbrev pub fired : AlertRow
fired = record watching {
  id = text "a2";
  target_price = pos 20;
  status = AlertStatus.triggered;
  triggered_at = some 2;
}

abbrev pub token : TokenRow
token = record {
  id = text "t1";
  user_id = text "u3";
  family_id = text "f1";
  token_hash = text "raw1";
  replaced_by = none;
  expires_at = 100;
  last_used_at = none;
  revoked_at = none;
}

abbrev pub tables : Db
tables = record {
  users = root ∷ second_admin ∷ customer ∷ [];
  identities = record { user_id = text "u3"; provider_user_id = text "L3" } ∷ [];
  stocks = apple ∷ [];
  alerts = watching ∷ fired ∷ [];
  tokens = token ∷ [];
  alert_logs = [];
  audit_logs = [];
  events = [];
  application_logs = [];
}

abbrev pub world : World
world = record {
  db = tables;
  now = 50;
  uuids = text "n1" ∷ text "n2" ∷ text "n3" ∷ text "n4" ∷ [];
  faults = [];
  sent = [];
  quotes = [];
  candles = [];
  market_keys = [];
  menu_requests = [];
}

abbrev pub apple_metadata : StockMetadata
apple_metadata = record {
  symbol = text "AAPL";
  name = text "Apple";
  exchange = text "US";
  currency = text "USD";
}

-- Quotes every symbol at the price given.
abbrev pub quoting : ℕ → StockProvider
quoting price = record {
  search_us_stocks = ok (apple_metadata ∷ []);
  validate_us_stock = λ s. ok apple_metadata;
  quote = λ s. ok (record { symbol = s; price = pos price; updated_at = 40; cached = false });
}

abbrev pub plain_crypto : Crypto
plain_crypto = record {
  sha256_hex = λ t. t;
  password_matches = text_eq;
  parse_address = λ t. some t;
  signed_string = λ secret claims. ok claims.sub;
}

abbrev pub auth_config : AuthConfig
auth_config = record {
  access_secret = text "secret";
  issuer = text "api";
  access_ttl = 60;
  refresh_ttl = 720;
}

abbrev pub by_root : AdminActionContext
by_root = record { admin_user_id = text "u1" }
