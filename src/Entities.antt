-- ===== src/Entities.antt =====
-- The rows that the services read and write: the columns of the TypeORM entities that some modelled
-- operation uses. Identifiers are uuid strings that the code only compares: numbers here. Times are
-- milliseconds. Amounts of money and stock counts are whole numbers, which may become negative.
mod StockRows
mod OrderRows
mod EscrowRows
mod DisputeRows
pub use StockRows.*
pub use OrderRows.*
pub use EscrowRows.*
pub use DisputeRows.*
