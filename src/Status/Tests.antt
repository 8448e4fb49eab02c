-- ===== src/Status/Tests.antt =====
-- The validator on the table of the orders.
use market_x_backend.Entities.{order_status_enum}
