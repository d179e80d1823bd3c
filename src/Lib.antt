-- ===== src/Lib.antt =====
-- Verification of the stock alert bot: the Go services under backend/ that let LINE users set price
-- alerts on US stocks, watch the prices, push a message when an alert fires, and let administrators
-- disable users, stocks and alerts.
--
-- The program. HTTP handlers call services; the services call repositories, which are SQL statements
-- on one PostgreSQL database, a stock data provider, a quote cache in Redis and the LINE Messaging
-- API. The alert worker runs beside them on a ticker. What the parts share is the database: the
-- service of alerts adds alerts, the worker turns active ones into triggered ones, administrators
-- disable them, and the refresh tokens that the authentication service rotates are revoked by
-- administrators.
--
-- The files.
--   Common, Text, Rows, Sort: numbers, lists, strings, tables as lists of rows.
--   World: the tables of backend/database/schema.sql (World/Tables), calls as functions from a world
--     to a result and a world (World/Monad), Hoare triples of calls with one rule for each way to build
--     a call (World/Triples, World/Clock), with the number of failures met (World/Faults).
--   Errors: backend/internal/services/errors.go, handleServiceError of
--     backend/internal/handlers/auth_handler.go.
--   Models: backend/internal/models, as far as the services compute with it.
--   Repositories: backend/internal/repositories: Alerts is alert_repository.go, Worker is
--     alert_worker_repository.go, Auth is auth_repository.go, Admin is SetStatus and Disable of
--     admin_user_repository.go, admin_stock_repository.go and admin_alert_repository.go, LineWebhook is
--     line_webhook_repository.go. A method has the function of its name in snake case.
--   Symbols: backend/internal/services/stock_validation.go.
--   Alerts: alert_service.go. Worker: alert_worker.go. Auth: auth_service.go. Admin: Disable and
--     Enable of admin_user_service.go, admin_stock_service.go and admin_alert_service.go, with List
--     and Get of the latter two in Admin/Lists and Repositories/AdminLists.
--     LineWebhook: line_webhook_service.go. Stocks: stock_service.go, with Quote and MarketStatus
--     in Stocks/Detail and Candles in Stocks/Candles. Finnhub and TwelveData: finnhub_client.go and
--     twelve_data_client.go. LineLogin: line_oauth_service.go and line_client.go. Config:
--     backend/internal/utils/config.go. MarketHours: the trading days of market_hours.go, and
--     MarketHours/Session the status of the session with marketTransition. MarketNotifications:
--     market_notification_worker.go and market_notification_repository.go. RichMenu:
--     rich_menu_service.go and rich_menu_repository.go, with the reader of image headers in
--     RichMenu/Image. Middleware: auth.go, admin.go and line_signature.go of backend/middleware, and
--     admin_access_repository.go. Each has the operations in the file itself and the proofs in the
--     folder beside it, where Tests runs them on the tables of Examples.
--   AdminApi: the seventeen routes of the administrators in backend/main.go, with
--     admin_user_handler.go, admin_stock_handler.go, admin_alert_handler.go,
--     admin_dashboard_handler.go, admin_monitoring_handler.go and rich_menu_handler.go. Admin/Reads:
--     List and Get of admin_user_service.go, admin_dashboard_service.go and
--     admin_monitoring_service.go, over Repositories/AdminReads with the queries of their
--     repositories.
--   Lifecycle: an abstract machine on the table of alerts, and the calls of Alerts, Worker and Admin
--     that run it one after the other.
--
-- The state. A World has the tables, the clock, the random values to come, the messages sent, the
-- quote cache, the keys of the market notifications and the rich menu requests. Its list `faults`
-- says of every statement, cache access and LINE message in turn whether it fails, so that a
-- statement about all worlds is about every way to fail. A statement is one `external` call; a
-- transaction puts the tables back on an error, a failing Begin or Commit included. A failing Commit
-- is one that has not committed.
--
-- Choices. Prices are integers in units of 10^-8, as NUMERIC(20, 8) holds them, where the services
-- compare floating point numbers. Times and durations are seconds on one clock, which stands still
-- during a call. Texts are lists of code points; beyond ASCII the tables of package unicode are a
-- parameter. Emails are compared in lower case, as the type CITEXT of their column does. Calls do not overlap: what is proved of one call is not proved of two that interleave.
-- The symbols of one worker cycle, which goroutines share out, are processed one after the other.
-- Loops are over lists, so that no fuel is needed, but for three: MarketHours looks for a weekday
-- within seven rounds, MarketHours/Session for a trading day within 1000, and RichMenu/Image goes
-- over an image in as many rounds as it has bytes; these are proved to be enough. Text/Atoi writes a number in at most one round more
-- than its value, and so has rounds for all its digits. The days of
-- MarketHours are those of the Gregorian calendar. SHA-256, bcrypt, the signing of tokens and the
-- parsing of addresses are parameters (Auth.Crypto, LineLogin.Jwt, and of the middleware), and so are
-- the time zone database, the text of an alert message and of an error, HTTP requests with the
-- decoding of JSON, and the parsing of the times and decimals of a history. The services take the
-- stock provider as a parameter too (Models.StockProvider), which Finnhub.finnhub is one of.
--
-- Not modelled: foreign keys (no code deletes a user or a stock), the construction of the components
-- in main.go, the encoding of answers as JSON, the columns of answers that the tables of World do not
-- have, the profile of the current user, the rate limiter, which a
-- third party's package implements, the client of LINE messages, and the frontend.
pub mod Common
pub mod Text
pub mod Errors
pub mod World
pub mod Rows
pub mod Sort
pub mod Models
pub mod Repositories
pub mod Symbols
pub mod Alerts
pub mod Worker
pub mod Auth
pub mod Admin
pub mod LineLogin
pub mod LineWebhook
pub mod Stocks
pub mod Finnhub
pub mod TwelveData
pub mod Config
pub mod MarketHours
pub mod RichMenu
pub mod Lifecycle
pub mod MarketNotifications
pub mod Middleware
pub mod AdminApi
pub mod Examples
