-- ===== src/Admin/Lists.antt =====
-- List and Get of backend/internal/services/admin_alert_service.go and admin_stock_service.go.
pub mod Joins
pub mod Pages
mod Tests
use line_stock_alert.Common.{
  ℕ, ◌-◌, ◌*◌, Bool, true, false, not, ◌&&◌, ◌||◌, List, [], ◌∷◌, ◌++◌, if◌then◌else◌, any, leb,
  ◌==◌,
}
use line_stock_alert.Text.{Text, Unicode, text, text_eq, is_empty, trim_space}
use line_stock_alert.Errors.{Error, Code, new_error}
use line_stock_alert.World.{M, Result, ok, err, pure, raise_if, lift_result, map_err, ◌>>=◌, ◌>>◌}
use line_stock_alert.Symbols.{matches_symbol, normalize}
use line_stock_alert.Stocks.{positive_int}
use line_stock_alert.Repositories.{RepositoryError, admin_alert_not_found, admin_stock_not_found}
use line_stock_alert.Repositories.AdminLists as Store
use line_stock_alert.Repositories.AdminLists.{
  AdminAlert, AdminAlertFilter, AdminStock, AdminStockFilter,
}

abbrev is_digit : ℕ → Bool
is_digit c = leb b'0' c && leb c b'9'

-- [0-9a-fA-F]
abbrev is_hex : ℕ → Bool
is_hex c = is_digit c || (leb b'a' c && leb c b'f') || (leb b'A' c && leb c b'F')

abbrev is_dash : ℕ → Bool
is_dash c = c == b'-'

-- [1-5] and [89abAB]
abbrev is_version : ℕ → Bool
is_version c = leb b'1' c && leb c b'5'

abbrev is_variant : ℕ → Bool
is_variant c = any (λ d. c == d) (text "89abAB")

unfoldable pub matches_each : List (ℕ → Bool) → Text → Bool
matches_each [] [] = true
matches_each (t ∷ ts) (c ∷ s) = t c && matches_each ts s
matches_each _ _ = false

abbrev hex3 : List (ℕ → Bool)
hex3 = is_hex ∷ is_hex ∷ is_hex ∷ []

abbrev hex4 : List (ℕ → Bool)
hex4 = is_hex ∷ hex3

-- `^[0-9a-fA-F]{8}-[0-9a-fA-F]{4}-[1-5][0-9a-fA-F]{3}-[89abAB][0-9a-fA-F]{3}-[0-9a-fA-F]{12}$`
unfoldable pub uuid_filter_pattern : Text → Bool
unfolding matches_each
uuid_filter_pattern s =
    matches_each
      (hex4
        ++ (hex4
            ++ (is_dash
                ∷ (hex4
                    ++ (is_dash
                        ∷ is_version
                        ∷ (hex3
                            ++ (is_dash
                                ∷ is_variant
                                ∷ (hex3 ++ (is_dash ∷ (hex4 ++ (hex4 ++ hex4)))))))))))
      s

pub record AdminAlertPage : Type 0 where
  pub alerts : List AdminAlert
  pub page : ℕ
  pub limit : ℕ
  pub total : ℕ

pub record AdminStockPage : Type 0 where
  pub stocks : List AdminStock
  pub page : ℕ
  pub limit : ℕ
  pub total : ℕ

abbrev pub page_number : Text → M Error ℕ
page_number value =
    map_err (λ _. new_error Code.invalid_filter "Page must be a positive integer.")
      (lift_result (positive_int value 1 1000000))

abbrev pub page_limit : Text → M Error ℕ
page_limit value =
    map_err (λ _. new_error Code.invalid_filter "Limit must be between 1 and 100.")
      (lift_result (positive_int value 20 100))

abbrev is_standing : Text → Bool
is_standing s = text_eq s (text "ACTIVE") || text_eq s (text "DISABLED")

abbrev pub is_alert_status : Text → Bool
is_alert_status s = is_standing s || text_eq s (text "TRIGGERED")

unfoldable pub get_alert_error : RepositoryError → Error
get_alert_error admin_alert_not_found = new_error Code.admin_alert_not_found "Alert not found."
get_alert_error _ = new_error Code.internal_server_error "Could not load the alert."

unfoldable pub get_stock_error : RepositoryError → Error
get_stock_error admin_stock_not_found = new_error Code.admin_stock_not_found "Stock not found."
get_stock_error _ = new_error Code.internal_server_error "Could not load the stock."

abbrev pub alert_filter : Text → Text → Text → ℕ → ℕ → AdminAlertFilter
alert_filter symbol status user_id page limit = record {
  symbol = symbol;
  status = status;
  user_id = user_id;
  limit = limit;
  offset = (page - 1) * limit;
}

abbrev pub stock_filter : Text → Text → ℕ → ℕ → AdminStockFilter
stock_filter search status page limit = record {
  search = search;
  status = status;
  limit = limit;
  offset = (page - 1) * limit;
}

module _ (u : Unicode) where
  unfoldable pub list_alerts : Text → Text → Text → Text → Text → M Error AdminAlertPage
  list_alerts raw_symbol raw_status raw_user_id page_value limit_value = do
    page ← page_number page_value
    limit ← page_limit limit_value
    let symbol = normalize u raw_symbol
    let status = normalize u raw_status
    let user_id = trim_space u raw_user_id
    raise_if (not (is_empty symbol || matches_symbol symbol))
        (new_error Code.invalid_filter "The symbol filter is invalid.")
    raise_if (not (is_empty status || is_alert_status status))
        (new_error Code.invalid_filter "The status filter is invalid.")
    raise_if (not (is_empty user_id || uuid_filter_pattern user_id))
        (new_error Code.invalid_filter "The user_id filter is invalid.")
    found ←
        map_err (λ _. new_error Code.internal_server_error "Could not load alerts.")
          (Store.list_alerts (alert_filter symbol status user_id page limit))
    pure (record { alerts = found.0; page = page; limit = limit; total = found.1 })

  unfoldable pub get_alert : Text → M Error AdminAlert
  get_alert id = map_err get_alert_error (Store.get_alert (trim_space u id))

  unfoldable pub list_stocks : Text → Text → Text → Text → M Error AdminStockPage
  list_stocks search raw_status page_value limit_value = do
    page ← page_number page_value
    limit ← page_limit limit_value
    let status = normalize u raw_status
    raise_if (not (is_empty status || is_standing status))
        (new_error Code.invalid_filter "Status must be ACTIVE or DISABLED.")
    found ←
        map_err (λ _. new_error Code.internal_server_error "Could not load stocks.")
          (Store.list_stocks u (stock_filter (trim_space u search) status page limit))
    pure (record { stocks = found.0; page = page; limit = limit; total = found.1 })

  unfoldable pub get_stock : Text → M Error AdminStock
  get_stock raw_symbol = do
    let symbol = normalize u raw_symbol
    raise_if (not (matches_symbol symbol)) (new_error Code.admin_stock_not_found "Stock not found.")
    map_err get_stock_error (Store.get_stock symbol)
