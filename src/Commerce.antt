-- ===== src/Commerce.antt =====
-- backend/internal/commerce: orders, payments and the ledger. The statements of
-- backend/internal/store/sqlc/commerce.sql.go stand with the methods that issue them.
mod Base
mod Tests
pub mod Ledger
pub mod Payment
pub mod Order
pub use Base.*
