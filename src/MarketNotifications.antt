-- ===== src/MarketNotifications.antt =====
-- backend/internal/services/market_notification_worker.go and
-- backend/internal/repositories/market_notification_repository.go: the notifications of the opening and
-- the closing of the US market. The keys of Redis last for two weeks, and a transition is reported for
-- minutes: no key expires here.
pub mod Once
pub mod Recipients
mod Tests
use line_stock_alert.Common.{
  ℕ, ◌+◌, ◌/◌, Bool, true, false, not, ◌&&◌, Option, none, some, List, [], ◌∷◌, map, filter, find?,
  any, ◌==◌, if◌then◌else◌,
}
use line_stock_alert.Text.{Text, text, text_eq, text_lt}
use line_stock_alert.Sort.{sort_by}
use line_stock_alert.World.{
  World, Db, M, Result, ok, err, pure, read, write, read_clock, attempt, external, record_sent,
  ◌>>=◌, ◌>>◌, IdentityRow, UserRow, is_active, MarketEvent, market_open, market_closed,
}
use line_stock_alert.Repositories.{RepositoryError, failure}
use line_stock_alert.Repositories.Worker.{user_is_active}
use line_stock_alert.MarketHours.Session.{Zone, market_transition}

-- The event and the day of its time in UTC.
abbrev pub Key : Type 0
Key = MarketEvent × ℕ

abbrev pub same_event : MarketEvent → MarketEvent → Bool
same_event market_open market_open = true
same_event market_closed market_closed = true
same_event _ _ = false

abbrev pub same_key : Key → Key → Bool
same_key a b = same_event a.0 b.0 && (a.1 == b.1)

abbrev pub event_key : MarketEvent × ℕ → Key
event_key (event, at) = (event, at / 86400)

abbrev pub is_claimed : Key → List Key → Bool
is_claimed key keys = any (same_key key) keys

abbrev pub claim : Key → M (Unit {0}) Bool
claim key w = (
  ok (not (is_claimed key w.market_keys)),
  record w {
    market_keys = if is_claimed key w.market_keys then w.market_keys else key ∷ w.market_keys;
  },
)

-- redis.Client.SetNX
unfoldable pub set_nx : Key → M (Unit {0}) Bool
set_nx key = external tt (claim key)

abbrev pub release : Key → M (Unit {0}) (Unit {0})
release key w = (ok tt, record w { market_keys = filter (λ k. not (same_key key k)) w.market_keys })

-- redis.Client.Del
unfoldable pub del : Key → M (Unit {0}) (Unit {0})
del key = external tt (release key)

abbrev pub in_text_order : Text → Text → Bool
in_text_order a b = not (text_lt b a)

-- The LINE ids of the active users, in order.
unfoldable pub recipients : Db → List Text
recipients db = sort_by in_text_order (
    map (λ (i : IdentityRow). i.provider_user_id)
      (filter (λ (i : IdentityRow). user_is_active db i.user_id) db.identities))

unfoldable pub active_line_user_ids : M RepositoryError (List Text)
active_line_user_ids = external failure (read recipients)

unfoldable pub log_error : Text → M RepositoryError (Unit {0})
log_error code =
    external failure (write λ db. record db { application_logs = code ∷ db.application_logs })

unfoldable pub push_text : Text → Text → M RepositoryError (Unit {0})
push_text to message = external failure (record_sent to message)

abbrev pub report_push : Result RepositoryError (Unit {0}) → M ⊥ (Unit {0})
report_push (ok _) = pure tt
report_push (err _) = do
  attempt {E = RepositoryError} (log_error (text "LINE_PUSH_FAILED"))
  pure tt

unfoldable pub push_all : Text → List Text → M ⊥ (Unit {0})
push_all message [] = pure tt
push_all message (id ∷ ids) = do
  attempt (push_text id message) >>= report_push
  push_all message ids

abbrev pub notify : Text → Key → Result RepositoryError (List Text) → M ⊥ (Unit {0})
notify message key (ok ids) = push_all message ids
notify message key (err _) = do
  attempt {E = Unit {0}} (del key)
  attempt {E = RepositoryError} (log_error (text "RECIPIENTS_FAILED"))
  pure tt

abbrev pub after_claim : Text → Key → Result (Unit {0}) Bool → M ⊥ (Unit {0})
after_claim message key (ok true) = attempt active_line_user_ids >>= notify message key
after_claim message key _ = pure tt

-- marketTransitionMessage is a parameter: it formats a time for Bangkok.
module _ (message : MarketEvent → ℕ → Text) where
  unfoldable pub announce : Option (MarketEvent × ℕ) → M ⊥ (Unit {0})
  announce none = pure tt
  announce (some (event, at)) =
      attempt (set_nx (event_key (event, at)))
      >>= after_claim (message event at) (event_key (event, at))

  -- One round of the worker; the window is a minute longer than the interval of the ticker.
  unfoldable pub check : Option Zone → ℕ → M ⊥ (Unit {0})
  check zone interval = do now ← read_clock; announce (market_transition zone now (interval + 60))
