-- ===== src/Milestones/Plans.antt =====
-- Milestones that are planned.
use market_x_backend.Common.Database.{Database}
