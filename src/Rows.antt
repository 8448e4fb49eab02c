-- ===== src/Rows.antt =====
-- The tables of the services together, over any database, and the actions on one row that the
-- services are made of.
use market_x_backend.Common.{ℕ}
use market_x_backend.Common.Outcome.{Action}
use market_x_backend.Common.Database.{Database}
use market_x_backend.Entities.{
  Listing, ListingVariant, Product, InventoryHistory, Order, EscrowEntity, Dispute, Evidence,
}
use market_x_backend.Events.{Event}

abbrev pub listing_key : Listing → ℕ
listing_key l = l.id

abbrev pub variant_key : ListingVariant → ℕ
variant_key v = v.id

abbrev pub product_key : Product → ℕ
product_key p = p.id

abbrev pub history_key : InventoryHistory → ℕ
history_key h = h.id

abbrev pub order_key : Order → ℕ
order_key o = o.id

abbrev pub escrow_key : EscrowEntity → ℕ
escrow_key e = e.id

abbrev pub dispute_key : Dispute → ℕ
dispute_key d = d.id

abbrev pub evidence_key : Evidence → ℕ
evidence_key e = e.id

pub record Rows (db : Database) : Type 0 where
  pub listings : db.Table Listing listing_key
  pub variants : db.Table ListingVariant variant_key
  pub products : db.Table Product product_key
  pub history : db.Table InventoryHistory history_key
  pub orders : db.Table Order order_key
  pub escrows : db.Table EscrowEntity escrow_key
  pub disputes : db.Table Dispute dispute_key
  pub evidences : db.Table Evidence evidence_key

abbrev pub Call : Database → Type 0 → Type 0
Call db A = Action (Rows db) Event A
