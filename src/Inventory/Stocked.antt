-- ===== src/Inventory/Stocked.antt =====
-- Rows whose stock columns are consistent, and what keeps them so in a transaction.
use market_x_backend.Common.{ℕ, Bool, true, false, some, List, ◌≡◌, All}
use market_x_backend.Common.Int.{ℤ, pos, ◌-ℤ◌, ◌≤ℤ◌}
use market_x_backend.Common.Outcome.{Outcome, ok, err, World, settle}
use market_x_backend.Common.Database.{Database}
use market_x_backend.Entities.{Listing, Product, OrderItem}
use market_x_backend.Events.{Event}
use market_x_backend.Rows.{Rows, Call}
use market_x_backend.Inventory.{within}

-- What is available is what is there and not reserved.
pub record IsStocked (quantity reserved available : ℤ) : Type 0 where
  pub balanced : available ≡ quantity -ℤ reserved
  pub reserved_nonneg : pos 0 ≤ℤ reserved

abbrev pub ListingStocked : Listing → Type 0
ListingStocked l = IsStocked l.quantity l.reserved l.available

abbrev pub ProductStocked : Product → Type 0
ProductStocked p = IsStocked p.quantity p.reserved p.available

abbrev pub Ordered : List OrderItem → Type 0
Ordered = All (λ item. pos 0 ≤ℤ item.quantity)

module _ (db : Database) where
  abbrev pub ListingsStocked : Rows db → Type 0
  ListingsStocked r = (k : ℕ) (l : Listing) → db.find_one k r.listings ≡ some l → ListingStocked l

  -- No listing has more reserved than it has.
  abbrev pub ListingsCovered : Rows db → Type 0
  ListingsCovered r =
      (k : ℕ) (l : Listing)
      → db.find_one k r.listings ≡ some l
      → ListingStocked l × (pos 0 ≤ℤ l.available)

  abbrev pub ProductsStocked : Rows db → Type 0
  ProductsStocked r = (k : ℕ) (p : Product) → db.find_one k r.products ≡ some p → ProductStocked p

  settle-keeps :
      {A : Type 0} (P : Rows db → Type 0) (before : Rows db) (r : Outcome A × World (Rows db) Event)
      → P before
      → P r.1.rows
      → P (settle before r).1.rows
  settle-keeps P before (ok a, w) hb h = h
  settle-keeps P before (err e, w) hb h = hb

  -- What the work keeps of the rows, a transaction of it keeps.
  pub transaction-keeps :
      {A : Type 0} (P : Rows db → Type 0) (m : Call db A) (w : World (Rows db) Event)
      → P w.rows
      → P (m w).1.rows
      → P (db.transaction m w).1.rows
  transaction-keeps P m w hb h = rw db.transaction_settles (settle-keeps P w.rows (m w) hb h)

  pub within-keeps :
      {A : Type 0} (P : Rows db → Type 0) (manager : Bool) (m : Call db A)
      → (w : World (Rows db) Event) → P w.rows
      → P (m w).1.rows
      → P (within db manager m w).1.rows
  within-keeps P true m w hb h = h
  within-keeps P false m w hb h = transaction-keeps P m w hb h
