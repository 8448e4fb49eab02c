-- ===== src/Inventory.antt =====
-- src/inventory/inventory.service.ts: the stock columns `quantity`, `reserved` and `available` of
-- listings, variants and products. This file has what its operations share; they stand in the
-- children, and the invariants of the stock beside them.
pub mod Adjust
pub mod OrderStock
pub mod ProductStock
pub mod Stocked
pub mod Invariant
pub mod Replay
pub mod Reservations
pub mod Loops
pub mod Rounds
pub mod ProductLaws
pub mod Guards
pub mod Tests
use market_x_backend.Common.{ℕ, Bool, true, false, Option, none, some, List, [], ◌∷◌, if◌then◌else◌}
use market_x_backend.Common.Int.{ℤ, pos, ◌-ℤ◌, ltb_ℤ}
use market_x_backend.Common.Outcome.{gets, modify, emit}
use market_x_backend.Common.Database.{Database}
use market_x_backend.Entities.{
  Listing, ListingVariant, Product, InventoryHistory, InventoryChangeType, Note,
}
use market_x_backend.Events.{inventory_low_stock}
use market_x_backend.Rows.{Rows, Call}

-- The stock columns after `available` is computed anew.
abbrev pub restock : Listing → ℤ → ℤ → Listing
restock l quantity reserved = record l {
  quantity = quantity;
  reserved = reserved;
  available = quantity -ℤ reserved;
}

abbrev pub restock_product : Product → ℤ → ℤ → Product
restock_product p quantity reserved = record p {
  quantity = quantity;
  reserved = reserved;
  available = quantity -ℤ reserved;
}

-- `if (reserved < 0) reserved = 0`
abbrev pub clamp : ℤ → ℤ
clamp n = if ltb_ℤ n (pos 0) then pos 0 else n

module _ (db : Database) where
  abbrev pub find_listing : ℕ → Call db (Option Listing)
  find_listing k = gets (λ r. db.find_one k r.listings)

  abbrev pub save_listing : Listing → Call db (Unit {0})
  save_listing l = modify (λ r. record r { listings = db.save l r.listings })

  abbrev pub find_variant : ℕ → Call db (Option ListingVariant)
  find_variant k = gets (λ r. db.find_one k r.variants)

  abbrev pub save_variant : ListingVariant → Call db (Unit {0})
  save_variant v = modify (λ r. record r { variants = db.save v r.variants })

  abbrev pub find_product : ℕ → Call db (Option Product)
  find_product k = gets (λ r. db.find_one k r.products)

  abbrev pub save_product : Product → Call db (Unit {0})
  save_product p = modify (λ r. record r { products = db.save p r.products })

  -- `manager.save(manager.create(InventoryHistory, …))`
  abbrev pub log : ℕ → ℕ → ℤ → InventoryChangeType → Note → Call db (Unit {0})
  log listing_id user_id change type note = modify λ r. record r {
    history =
        db.save
          (record {
            id = db.next_key r.history;
            listing_id = listing_id;
            user_id = user_id;
            change = change;
            type = type;
            note = note;
          })
          r.history;
  }

  abbrev pub notify_low_stock : Listing → Call db (Unit {0})
  notify_low_stock l = emit (inventory_low_stock l.id l.title l.available)

  -- The `manager` that `reserveInventory` and its like may be given: without one they open a
  -- transaction of their own.
  abbrev pub within : {A : Type 0} → Bool → Call db A → Call db A
  within true work = work
  within false work = db.transaction work
