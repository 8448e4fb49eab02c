-- ===== src/Rewards/Checkout.antt =====
-- Points at the checkout.
use market_x_backend.Common.Database.{Database}
