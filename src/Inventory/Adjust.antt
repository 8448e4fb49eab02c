-- ===== src/Inventory/Adjust.antt =====
-- Manual changes of the stock: `adjustVariantInventory` with `syncListingAggregate`,
-- `adjustInventory` and `bulkUpdateInventory`.
use market_x_backend.Common.{
  ℕ, String, Option, none, some, List, [], ◌∷◌, ◌++◌, if◌then◌else◌, ◌==◌,
}
use market_x_backend.Common.Int.{ℤ, pos, ◌+ℤ◌, ◌-ℤ◌, ltb_ℤ, leb_ℤ}
use market_x_backend.Common.Outcome.{
  not_found, bad_request, pure, gets, or_throw, throw_if, when, ◌>>=◌, ◌>>◌,
}
use market_x_backend.Common.Database.{Database}
use market_x_backend.Entities.{Listing, ListingVariant, InventoryChangeType, bulk_update, given}
use market_x_backend.Rows.{Call}
use market_x_backend.Inventory.{
  restock, find_listing, save_listing, find_variant, save_variant, log, notify_low_stock,
}

-- `variants.reduce((sum, v) => sum + f(v), 0)`
unfoldable pub total : (ListingVariant → ℤ) → ℤ → List ListingVariant → ℤ
total f sum [] = sum
total f sum (v ∷ vs) = total f (sum +ℤ f v) vs

-- `Math.min` of the prices of `v` and of `vs`.
unfoldable pub min_price : ListingVariant → List ListingVariant → ℤ
min_price v [] = v.price
min_price v (u ∷ vs) = let rest = min_price u vs in if leb_ℤ v.price rest then v.price else rest

-- The listing's columns after `syncListingAggregate`, from the variants of the listing.
unfoldable pub aggregate : Listing → List ListingVariant → Listing
aggregate l [] = restock l l.quantity l.reserved
aggregate l (v ∷ vs) = record l {
  quantity = total (λ u. u.quantity) (pos 0) (v ∷ vs);
  reserved = total (λ u. u.reserved) (pos 0) (v ∷ vs);
  available = total (λ u. u.available) (pos 0) (v ∷ vs);
  price = min_price v vs;
  currency = v.currency;
}

-- One entry of the list that `bulkUpdateInventory` is given.
pub record StockUpdate : Type 0 where
  pub listing_id : ℕ
  pub user_id : ℕ
  pub change : ℤ
  pub note : Option String

module _ (db : Database) where
  -- Returns the listing that it saves: the source changes the object in place.
  unfoldable pub sync_listing_aggregate : Listing → Call db Listing
  sync_listing_aggregate l = do
    variants ← gets (λ r. db.find (λ v. v.listing_id == l.id) r.variants)
    let l' = aggregate l variants
    save_listing db l'
    pure l'

  -- `if (listing) await this.syncListingAggregate(listing, manager)`
  unfoldable pub sync_if_found : Option Listing → Call db (Option Listing)
  sync_if_found none = pure none
  sync_if_found (some l) = do l' ← sync_listing_aggregate l; pure (some l')

  -- `if (variant.available <= 5 && listing) await this.notifyLowStock(listing)`
  unfoldable pub notify_if_low : ListingVariant → Option Listing → Call db (Unit {0})
  notify_if_low v none = pure tt
  notify_if_low v (some l) = when (leb_ℤ v.available (pos 5)) (notify_low_stock db l)

  -- The work of the transaction of `adjustVariantInventory`, and below of `adjustInventory`.
  unfoldable pub adjust_variant_work :
      ℕ → ℕ → ℤ → InventoryChangeType → Option String → Call db ListingVariant
  adjust_variant_work variant_id user_id change type note = do
    found ← find_variant db variant_id
    v ← or_throw found (not_found "Variant not found")
    let quantity = v.quantity +ℤ change
    let v' = record v { quantity = quantity; available = quantity -ℤ v.reserved }
    throw_if (ltb_ℤ v'.available (pos 0)) (bad_request "Insufficient inventory for variant")
    save_variant db v'
    found_listing ← find_listing db v'.listing_id
    listing ← sync_if_found found_listing
    log db v'.listing_id user_id change type (given note)
    notify_if_low v' listing
    pure v'

  unfoldable pub adjust_variant_inventory :
      ℕ → ℕ → ℤ → InventoryChangeType → Option String → Call db ListingVariant
  adjust_variant_inventory variant_id user_id change type note =
      db.transaction (adjust_variant_work variant_id user_id change type note)

  unfoldable pub adjust_work : ℕ → ℕ → ℤ → InventoryChangeType → Option String → Call db Listing
  adjust_work listing_id user_id change type note = do
    found ← find_listing db listing_id
    l ← or_throw found (not_found "Listing not found")
    let l' = restock l (l.quantity +ℤ change) l.reserved
    save_listing db l'
    log db listing_id user_id change type (given note)
    when (leb_ℤ l'.available (pos 5)) (notify_low_stock db l')
    pure l'

  unfoldable pub adjust_inventory :
      ℕ → ℕ → ℤ → InventoryChangeType → Option String → Call db Listing
  adjust_inventory listing_id user_id change type note =
      db.transaction (adjust_work listing_id user_id change type note)

  -- One round of the loop of `bulkUpdateInventory`: the results so far, with the listing added. A
  -- listing that is not found is skipped.
  unfoldable pub bulk_round : StockUpdate → List Listing → Option Listing → Call db (List Listing)
  bulk_round update results none = pure results
  bulk_round update results (some l) = do
    let l' = restock l (l.quantity +ℤ update.change) l.reserved
    save_listing db l'
    log db update.listing_id update.user_id update.change bulk_update (given update.note)
    pure (results ++ l' ∷ [])

  unfoldable pub bulk_loop : List StockUpdate → List Listing → Call db (List Listing)
  bulk_loop [] results = pure results
  bulk_loop (update ∷ updates) results = do
    found ← find_listing db update.listing_id
    results' ← bulk_round update results found
    bulk_loop updates results'

  unfoldable pub bulk_update_inventory : List StockUpdate → Call db (List Listing)
  bulk_update_inventory updates = db.transaction (bulk_loop updates [])
