-- ===== src/Disputes/Resolution.antt =====
-- An administrator's decision of a dispute.
use market_x_backend.Common.Database.{Database}
use market_x_backend.Rows.{Rows}
