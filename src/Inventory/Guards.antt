-- ===== src/Inventory/Guards.antt =====
-- What keeps the manual changes of the stock from going below zero.
use market_x_backend.Common.{ℕ, String, Option, some, ◌≡◌, ◌∙◌, ap, arith, if◌then◌else◌, ◌==◌}
use market_x_backend.Common.Int.{ℤ, pos, ◌+ℤ◌, ◌≤ℤ◌, int_laws}
use market_x_backend.Common.Outcome.{ok, err, bad_request, World, settle}
use market_x_backend.Common.Database.{Database}
use market_x_backend.Entities.{Listing, ListingVariant, InventoryChangeType}
use market_x_backend.Events.{Event}
use market_x_backend.Rows.{Rows}
use market_x_backend.Inventory.{restock}
use market_x_backend.Inventory.Adjust.{
  adjust_variant_work, adjust_variant_inventory, adjust_work, adjust_inventory,
}
use market_x_backend.Inventory.Replay.{transaction-returns}
use market_x_backend.Inventory.Rounds.{listing_at}

module _ (db : Database) where
  -- A change that leaves less of a variant than is reserved is refused, with nothing changed; the same
  -- change of a listing is stored, with less than nothing available, and no other listing is changed.
  pub only_variants_are_guarded :
      (k u : ℕ) (change : ℤ) (type : InventoryChangeType) (remark : Option String)
      → (w : World (Rows db) Event) (v : ListingVariant) (l : Listing)
      → db.find_one k w.rows.variants ≡ some v
      → listing_at db k w ≡ some l
      → v.quantity +ℤ change +ℤ pos 1 ≤ℤ v.reserved
      → l.quantity +ℤ change +ℤ pos 1 ≤ℤ l.reserved
      → let l' = restock l (l.quantity +ℤ change) l.reserved in
        (adjust_variant_inventory db k u change type remark w
          ≡ (err (bad_request "Insufficient inventory for variant"), w))
        × (l'.available +ℤ pos 1 ≤ℤ pos 0)
        × ((w' : World (Rows db) Event) × (adjust_inventory db k u change type remark w
              ≡ (ok l', w'))
            × ((j : ℕ) → listing_at db j w' ≡ (if k == j then some l' else listing_at db j w)))
  unfolding adjust_variant_inventory adjust_inventory adjust_variant_work adjust_work
  only_variants_are_guarded k u change type remark w v l found there short below =
      let work = adjust_variant_work db k u change type remark in
      let refused : work w ≡ (err (bad_request "Insufficient inventory for variant"), w) =
        grind (int_laws, found, short) in
      let l' = restock l (l.quantity +ℤ change) l.reserved in
      let w' = (adjust_work db k u change type remark w).1 in
      let stored : adjust_work db k u change type remark w ≡ (ok l', w') = ground (arith, there) in
      (
        db.transaction_settles work w ∙ ap (settle w.rows) refused,
        grind int_laws,
        (
          w',
          transaction-returns db (adjust_work db k u change type remark) w l' w' stored,
          λ j. grind (arith, db.find_one-save j, db.find_one-key k w.rows.listings l there),
        ),
      )
