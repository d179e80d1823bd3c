-- ===== src/Admin/Lists/Tests.antt =====
-- Lists of alerts and stocks on concrete tables.
use line_stock_alert.Common.{◌≡◌, refl, true, none, [], ◌∷◌}
use line_stock_alert.Text.{text, ascii, text_eq, to_upper, to_lower, trim_space}
use line_stock_alert.Text.Like.{contains_like}
use line_stock_alert.Sort.{sort_by}
use line_stock_alert.World.{ok, ◌>>=◌}
use line_stock_alert.Examples.{world, tables, apple, fired}
use line_stock_alert.Stocks.{positive_int}
use line_stock_alert.Repositories.Alerts.{scan_alert}
use line_stock_alert.Repositories.AdminLists as Store
use line_stock_alert.Repositories.AdminLists.{AdminAlert, AdminStock, selected_stocks, admin_stock}
use line_stock_alert.Admin.Lists.{AdminAlertPage, list_stocks, uuid_filter_pattern}

abbrev second : AdminAlertPage
second = record {
  alerts =
      record { alert = scan_alert (text "AAPL") fired; user_id = text "u3"; user_email = none }
      ∷ [];
  page = 2;
  limit = 1;
  total = 2;
}

uuid : uuid_filter_pattern (text "3F2504e0-4f89-41d3-9a0c-0305e82c3301") ≡ true
unfolding uuid_filter_pattern
uuid = refl

-- The search is a pattern, in which a percent sign is any text.
found_by_pattern : list_stocks ascii (text " a%L ") (text "active") [] [] world ≡ (
  ok (record { stocks = admin_stock tables apple ∷ []; page = 1; limit = 20; total = 1 }),
  world,
)
unfolding list_stocks positive_int Store.list_stocks selected_stocks sort_by ◌>>=◌ contains_like
    to_upper to_lower trim_space text_eq
found_by_pattern = refl
