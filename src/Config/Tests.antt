-- ===== src/Config/Tests.antt =====
-- backend/internal/utils/config.go on concrete environments.
use line_stock_alert.Common.{◌*◌, ◌≡◌, refl, true, false, List, [], ◌∷◌, any, if◌then◌else◌}
use line_stock_alert.Common.Int.{pos, negsuc, leb_ℤ}
use line_stock_alert.Text.{Text, text, text_eq, byte_length}
use line_stock_alert.Text.Atoi.{atoi}
use line_stock_alert.World.{ok}
use line_stock_alert.Config.{
  Config, ◌>>=◌, refuse_if, env_or, env_int, env_bool, env_duration, load_config, validated, second,
  minute, hour,
}
use line_stock_alert.Config.Checks.{load_config-IsChecked}

-- An environment that gives every text variable one long value, and no number or Boolean.
abbrev unset : List Text
unset =
    text "JWT_ACCESS_TTL_MINUTES"
    ∷ text "JWT_REFRESH_TTL_HOURS"
    ∷ text "STOCK_REQUEST_TIMEOUT_SECONDS"
    ∷ text "STOCK_QUOTE_CACHE_TTL_SECONDS"
    ∷ text "STOCK_CANDLE_CACHE_TTL_SECONDS"
    ∷ text "ALERT_LIMIT_PER_USER"
    ∷ text "ALERT_WORKER_ENABLED"
    ∷ text "ALERT_CHECK_INTERVAL_SECONDS"
    ∷ text "ALERT_WORKER_BATCH_SIZE"
    ∷ text "ALERT_WORKER_CONCURRENCY"
    ∷ text "MARKET_NOTIFICATIONS_ENABLED"
    ∷ text "MARKET_NOTIFICATION_CHECK_SECONDS"
    ∷ []

abbrev long : Text
long = text "0123456789abcdef0123456789abcdef"

abbrev env : Text → Text
env key = if any (text_eq key) unset then [] else long

-- So many seconds overflow: the duration is negative, although the number of seconds is positive.
overflowing : Text → Text
overflowing key = text "9223372037"

duration_overflow :
    env_duration overflowing (text "STOCK_REQUEST_TIMEOUT_SECONDS") 10 second
    ≡ ok (negsuc 9223372036709551615)
unfolding env_duration env_int atoi ◌>>=◌ overflowing
duration_overflow = refl

abbrev loaded : Config
loaded = record {
  database_url = long;
  jwt_access_secret = long;
  jwt_refresh_secret = long;
  jwt_issuer = long;
  frontend_url = long;
  line_channel_id = long;
  line_channel_secret = long;
  line_callback_url = long;
  line_state_secret = long;
  line_messaging_secret = long;
  line_messaging_token = long;
  redis_url = long;
  stock_api_base_url = long;
  stock_api_key = long;
  twelve_data_api_base_url = long;
  twelve_data_api_key = long;
  access_ttl = pos (60 * minute);
  refresh_ttl = pos (720 * hour);
  stock_request_timeout = pos (10 * second);
  stock_quote_cache_ttl = pos (15 * second);
  stock_candle_cache_ttl = pos (60 * second);
  alert_limit = pos 100;
  alert_worker_enabled = true;
  alert_check_interval = pos (15 * second);
  alert_worker_batch_size = pos 100;
  alert_worker_concurrency = pos 5;
  market_notifications_enabled = true;
  market_notification_interval = pos (30 * second);
}

load_config-IsChecked_example : leb_ℤ loaded.alert_worker_batch_size (pos 0) ≡ false
unfolding load_config env_or env_int env_bool env_duration validated refuse_if ◌>>=◌ text_eq
    byte_length
load_config-IsChecked_example = (load_config-IsChecked env loaded refl).batch_positive
