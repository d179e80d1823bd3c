-- ===== src/Repositories.antt =====
-- backend/internal/repositories: the SQL statements of each repository over the tables.
mod Errors
pub mod Alerts
pub mod Worker
pub mod Auth
pub mod Admin
pub mod AdminLists
pub mod AdminReads
pub mod LineWebhook
pub use Errors.*
