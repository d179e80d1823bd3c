-- ===== src/Config.antt =====
-- backend/internal/utils/config.go: the configuration that the process starts with. `env` is os.Getenv,
-- which gives the empty text for a variable that is not set.
pub mod Checks
mod Tests
use line_stock_alert.Common.{
  ℕ, ◌*◌, ◌%◌, ◌^◌, ◌-◌, Bool, true, false, not, ◌||◌, Option, none, some, List, [], ◌∷◌,
  if◌then◌else◌, any, ltb, leb,
}
use line_stock_alert.Common.Int.{ℤ, pos, negsuc, leb_ℤ}
use line_stock_alert.Text.{Text, text, text_eq, is_empty, byte_length}
use line_stock_alert.Text.Atoi.{atoi}
use line_stock_alert.World.{Result, ok, err}

-- The errors, without their texts.
pub data ConfigError : Type 0 where
  not_integer not_boolean not_positive worker_not_positive limit_not_positive : ConfigError
  required secret_too_short : ConfigError

infixl 5 ◌>>=◌ ◌>>◌
unfoldable pub ◌>>=◌ :
    {A B : Type 0} → Result ConfigError A → (A → Result ConfigError B) → Result ConfigError B
ok a >>= f = f a
err e >>= f = err e

abbrev pub ◌>>◌ :
    {A B : Type 0} → Result ConfigError A → Result ConfigError B → Result ConfigError B
m >> k = m >>= λ _. k

unfoldable pub refuse_if : Bool → ConfigError → Result ConfigError (Unit {0})
refuse_if true e = err e
refuse_if false e = ok tt

abbrev parsed : {A : Type 0} → ConfigError → Option A → Result ConfigError A
parsed e none = err e
parsed e (some a) = ok a

-- strconv.ParseBool
unfoldable pub parse_bool : Text → Option Bool
parse_bool value =
    if any (text_eq value)
      (text "1" ∷ text "t" ∷ text "T" ∷ text "true" ∷ text "TRUE" ∷ text "True" ∷ [])
    then some true
    else if any (text_eq value)
        (text "0" ∷ text "f" ∷ text "F" ∷ text "false" ∷ text "FALSE" ∷ text "False" ∷ [])
    then some false
    else none

-- A product of a time.Duration, which is an int64, in nanoseconds.
abbrev pub wrapped : ℕ → ℤ
wrapped n = let m = n % 2 ^ 64 in if ltb m (2 ^ 63) then pos m else negsuc (2 ^ 64 - m - 1)

abbrev pub second : ℕ
second = 10 ^ 9

abbrev pub minute : ℕ
minute = 60 * second

abbrev pub hour : ℕ
hour = 60 * minute

abbrev times : ℕ → ℤ → Result ConfigError ℤ
times unit (negsuc n) = err not_positive
times unit (pos n) = if leb n 0 then err not_positive else ok (wrapped (n * unit))

pub record Config : Type 0 where
  pub database_url : Text
  pub jwt_access_secret : Text
  pub jwt_refresh_secret : Text
  pub jwt_issuer : Text
  pub access_ttl : ℤ
  pub refresh_ttl : ℤ
  pub frontend_url : Text
  pub line_channel_id : Text
  pub line_channel_secret : Text
  pub line_callback_url : Text
  pub line_state_secret : Text
  pub line_messaging_secret : Text
  pub line_messaging_token : Text
  pub redis_url : Text
  pub stock_api_base_url : Text
  pub stock_api_key : Text
  pub stock_request_timeout : ℤ
  pub stock_quote_cache_ttl : ℤ
  pub twelve_data_api_base_url : Text
  pub twelve_data_api_key : Text
  pub stock_candle_cache_ttl : ℤ
  pub alert_limit : ℤ
  pub alert_worker_enabled : Bool
  pub alert_check_interval : ℤ
  pub alert_worker_batch_size : ℤ
  pub alert_worker_concurrency : ℤ
  pub market_notifications_enabled : Bool
  pub market_notification_interval : ℤ

-- The variables that must be set, as the configuration has them.
abbrev pub required_values : Config → List Text
required_values cfg =
    cfg.database_url ∷ cfg.jwt_access_secret ∷ cfg.jwt_refresh_secret ∷ cfg.frontend_url
    ∷ cfg.line_channel_id ∷ cfg.line_channel_secret ∷ cfg.line_callback_url ∷ cfg.line_state_secret
    ∷ cfg.line_messaging_secret ∷ cfg.line_messaging_token ∷ cfg.redis_url ∷ cfg.stock_api_base_url
    ∷ cfg.stock_api_key ∷ cfg.twelve_data_api_base_url ∷ cfg.twelve_data_api_key ∷ []

-- The checks at the end, in the order of the code.
unfoldable pub validated : Config → Result ConfigError Config
validated cfg = do
  refuse_if
      (leb_ℤ cfg.alert_worker_batch_size (pos 0) || leb_ℤ cfg.alert_worker_concurrency (pos 0))
      worker_not_positive
  refuse_if (leb_ℤ cfg.alert_limit (pos 0)) limit_not_positive
  refuse_if (any is_empty (required_values cfg)) required
  refuse_if
      (ltb (byte_length cfg.jwt_access_secret) 32 || ltb (byte_length cfg.jwt_refresh_secret) 32)
      secret_too_short
  refuse_if (ltb (byte_length cfg.line_state_secret) 32) secret_too_short
  ok cfg

module _ (env : Text → Text) where
  unfoldable pub env_or : Text → Text → Text
  env_or key fallback = if is_empty (env key) then fallback else env key

  unfoldable pub env_int : Text → ℕ → Result ConfigError ℤ
  env_int key fallback =
      if is_empty (env key) then ok (pos fallback) else parsed not_integer (atoi (env key))

  unfoldable pub env_bool : Text → Bool → Result ConfigError Bool
  env_bool key fallback =
      if is_empty (env key) then ok fallback else parsed not_boolean (parse_bool (env key))

  unfoldable pub env_duration : Text → ℕ → ℕ → Result ConfigError ℤ
  env_duration key fallback unit = env_int key fallback >>= times unit

  unfoldable pub load_config : Result ConfigError Config
  load_config = do
    access_ttl ← env_duration (text "JWT_ACCESS_TTL_MINUTES") 60 minute
    refresh_ttl ← env_duration (text "JWT_REFRESH_TTL_HOURS") 720 hour
    timeout ← env_duration (text "STOCK_REQUEST_TIMEOUT_SECONDS") 10 second
    quote_ttl ← env_duration (text "STOCK_QUOTE_CACHE_TTL_SECONDS") 15 second
    candle_ttl ← env_duration (text "STOCK_CANDLE_CACHE_TTL_SECONDS") 60 second
    limit ← env_int (text "ALERT_LIMIT_PER_USER") 100
    worker ← env_bool (text "ALERT_WORKER_ENABLED") true
    interval ← env_duration (text "ALERT_CHECK_INTERVAL_SECONDS") 15 second
    batch ← env_int (text "ALERT_WORKER_BATCH_SIZE") 100
    concurrency ← env_int (text "ALERT_WORKER_CONCURRENCY") 5
    market ← env_bool (text "MARKET_NOTIFICATIONS_ENABLED") true
    market_interval ← env_duration (text "MARKET_NOTIFICATION_CHECK_SECONDS") 30 second
    validated (record {
      database_url = env (text "DATABASE_URL");
      jwt_access_secret = env (text "JWT_ACCESS_SECRET");
      jwt_refresh_secret = env (text "JWT_REFRESH_SECRET");
      jwt_issuer = env_or (text "JWT_ISSUER") (text "stock-alert-api");
      access_ttl = access_ttl;
      refresh_ttl = refresh_ttl;
      frontend_url = env (text "FRONTEND_URL");
      line_channel_id = env (text "LINE_LOGIN_CHANNEL_ID");
      line_channel_secret = env (text "LINE_LOGIN_CHANNEL_SECRET");
      line_callback_url = env (text "LINE_LOGIN_CALLBACK_URL");
      line_state_secret = env (text "LINE_OAUTH_STATE_SECRET");
      line_messaging_secret = env (text "LINE_MESSAGING_CHANNEL_SECRET");
      line_messaging_token = env (text "LINE_MESSAGING_CHANNEL_ACCESS_TOKEN");
      redis_url = env (text "REDIS_URL");
      stock_api_base_url = env_or (text "STOCK_API_BASE_URL") (text "https://finnhub.io/api/v1");
      stock_api_key = env (text "STOCK_API_KEY");
      stock_request_timeout = timeout;
      stock_quote_cache_ttl = quote_ttl;
      twelve_data_api_base_url =
          env_or (text "TWELVE_DATA_API_BASE_URL") (text "https://api.twelvedata.com");
      twelve_data_api_key = env (text "TWELVE_DATA_API_KEY");
      stock_candle_cache_ttl = candle_ttl;
      alert_limit = limit;
      alert_worker_enabled = worker;
      alert_check_interval = interval;
      alert_worker_batch_size = batch;
      alert_worker_concurrency = concurrency;
      market_notifications_enabled = market;
      market_notification_interval = market_interval;
    })
