-- ===== src/World.antt =====
-- The state that the services share: the tables of backend/database/schema.sql, the clock, the
-- quote cache, the LINE messages sent, and what the environment decides (generated ids, failures).
mod Monad
mod Tables
pub mod Triples
pub mod Clock
pub mod Faults
unfoldable pub use Monad.*
pub use Tables.*
