-- ===== src/Inventory/ProductLaws.antt =====
-- What the operations on the stock of a product do, on every branch, and how they undo one another.
use mathlib.Core.List.{append-nil}
use market_x_backend.Common.{
  ℕ, Bool, true, false, Option, none, some, List, [], ◌∷◌, ◌++◌, ◌≡◌, ◌∙◌, ap, sym, arith,
  Bool-cases, inl, inr, if◌then◌else◌, ◌==◌, ==_refl,
}
use market_x_backend.Common.Int.{ℤ, pos, ◌+ℤ◌, ◌-ℤ◌, ◌≤ℤ◌, ltb_ℤ, leb_ℤ, int_laws}
use market_x_backend.Common.Outcome.{ok, err, World, settle, not_found, bad_request}
use market_x_backend.Common.Database.{Database}
use market_x_backend.Entities.{Product}
use market_x_backend.Events.{Event, inventory_low_stock}
use market_x_backend.Rows.{Rows, Call}
use market_x_backend.Inventory.{within, restock_product, clamp}
use market_x_backend.Inventory.ProductStock.{
  reserve_work, reserve_inventory, release_work, release_inventory, commit_work, commit_sale,
}
use market_x_backend.Inventory.Stocked.{ProductStocked}

module _ (db : Database) where
  abbrev pub product_at : ℕ → World (Rows db) Event → Option Product
  product_at j w = db.find_one j w.rows.products

  -- A call that throws before it writes anything is refused alike with and without a transaction.
  within-err :
      {A : Type 0} (manager : Bool) (m : Call db A) (w : World (Rows db) Event)
      → (e : _) → m w ≡ (err e, w)
      → within db manager m w ≡ (err e, w)
  within-err true m w e h = h
  within-err false m w e h = db.transaction_settles m w ∙ ap (settle w.rows) h

  within-ok :
      {A : Type 0} (manager : Bool) (m : Call db A) (w w' : World (Rows db) Event) (a : A)
      → m w ≡ (ok a, w')
      → within db manager m w ≡ (ok a, w')
  within-ok true m w w' a h = h
  within-ok false m w w' a h = db.transaction_settles m w ∙ ap (settle w.rows) h

  abbrev pub low_stock : Product → List Event
  low_stock p =
      if leb_ℤ p.available (pos 5) then inventory_low_stock p.id p.title p.available ∷ [] else []

  -- A reservation of a product is refused, with nothing changed or emitted, if there is no such
  -- product or if it asks for more than is available.
  pub reserve_inventory_refused :
      (manager : Bool) (k u : ℕ) (n : ℤ) (w : World (Rows db) Event)
      → (product_at k w ≡ none
          → reserve_inventory db manager k u n w ≡ (err (not_found "Product not found"), w))
        × ((p : Product)
            → product_at k w ≡ some p
            → ltb_ℤ p.available n ≡ true
            → reserve_inventory db manager k u n w
              ≡ (err (bad_request "Insufficient stock for product"), w))
  unfolding reserve_inventory reserve_work
  reserve_inventory_refused manager k u n w = (
    λ missing.
        within-err manager (reserve_work db k u n) w (not_found "Product not found") (ground arith),
    λ p found short.
        within-err manager (reserve_work db k u n) w (bad_request "Insufficient stock for product")
          (ground arith),
  )

  -- A reservation of a product that is there, for no more than is available, succeeds: it returns
  -- the product with the amount added to what is reserved, and `available` computed anew, stores
  -- that product and changes no other, and emits the low-stock event exactly if five or fewer are
  -- then available.
  pub reserve_inventory_succeeds :
      (manager : Bool) (k u : ℕ) (n : ℤ) (w : World (Rows db) Event) (p : Product)
      → product_at k w ≡ some p
      → n ≤ℤ p.available
      → let p' = restock_product p p.quantity (p.reserved +ℤ n) in
        (w' : World (Rows db) Event) × (reserve_inventory db manager k u n w ≡ (ok p', w'))
        × ((j : ℕ) → product_at j w' ≡ (if k == j then some p' else product_at j w))
        × (w'.emitted ≡ w.emitted ++ low_stock p')
  unfolding reserve_inventory reserve_work
  reserve_inventory_succeeds manager k u n w p found enough = (
    (reserve_work db k u n w).1,
    within-ok manager (reserve_work db k u n) w _ _ (ground arith),
    λ j. grind (arith, db.find_one-save j, db.find_one-key k w.rows.products p found),
    grind (arith, append-nil w.emitted),
  )

  release_reserve :
      (n : ℤ) (p : Product)
      → ProductStocked p
      → restock_product p p.quantity (clamp (p.reserved +ℤ n -ℤ n)) ≡ p
  release_reserve n p h = grind int_laws

  commit_reserve :
      (n : ℤ) (p : Product)
      → ProductStocked p
      → restock_product p (p.quantity -ℤ n) (clamp (p.reserved +ℤ n -ℤ n))
        ≡ restock_product p (p.quantity -ℤ n) p.reserved
  commit_reserve n p h = grind int_laws

  release_inventory_succeeds :
      (manager : Bool) (k u : ℕ) (n : ℤ) (w : World (Rows db) Event) (p : Product)
      → product_at k w ≡ some p
      → let p' = restock_product p p.quantity (clamp (p.reserved -ℤ n)) in
        (w' : World (Rows db) Event) × (release_inventory db manager k u n w ≡ (ok p', w'))
        × ((j : ℕ) → product_at j w' ≡ (if k == j then some p' else product_at j w))
  unfolding release_inventory release_work
  release_inventory_succeeds manager k u n w p found = (
    (release_work db k u n w).1,
    within-ok manager (release_work db k u n) w _ _ (ground arith),
    λ j. grind (arith, db.find_one-save j, db.find_one-key k w.rows.products p found),
  )

  commit_sale_succeeds :
      (manager : Bool) (k u : ℕ) (n : ℤ) (w : World (Rows db) Event) (p : Product)
      → product_at k w ≡ some p
      → let p' = restock_product p (p.quantity -ℤ n) (clamp (p.reserved -ℤ n)) in
        (w' : World (Rows db) Event) × (commit_sale db manager k u n w ≡ (ok p', w'))
        × ((j : ℕ) → product_at j w' ≡ (if k == j then some p' else product_at j w))
  unfolding commit_sale commit_work
  commit_sale_succeeds manager k u n w p found = (
    (commit_work db k u n w).1,
    within-ok manager (commit_work db k u n) w _ _ (ground arith),
    λ j. grind (arith, db.find_one-save j, db.find_one-key k w.rows.products p found),
  )

  -- The products after a reservation that succeeded.
  reserved_at :
      (manager : Bool) (k u : ℕ) (n : ℤ) (w w' : World (Rows db) Event) (p p' : Product)
      → product_at k w ≡ some p
      → reserve_inventory db manager k u n w ≡ (ok p', w')
      → (j : ℕ)
      → product_at j w'
        ≡ (if k == j then some (restock_product p p.quantity (p.reserved +ℤ n)) else product_at j w)
  reserved_at manager k u n w w' p p' found e j = elim (Bool-cases (ltb_ℤ p.available n)) [
    | inl short ↦
        absurd (ground (arith, (reserve_inventory_refused manager k u n w).1 p found short))
    | inr enough ↦
        let (v, run, at, _) = reserve_inventory_succeeds manager k u n w p found (ground arith) in
        ap (λ r. product_at j r.1) (sym e ∙ run) ∙ at j
  ]

  -- Releasing what was just reserved of a product whose stock columns were consistent, or selling
  -- it, succeeds. Released, every product
  -- is as it was before the reservation; sold, the product has lost the amount, with no more and no
  -- less reserved or available than a sale without reservation would leave, and no other product
  -- has changed.
  pub release_or_commit_reserved :
      (manager : Bool) (k u : ℕ) (n : ℤ) (w w' : World (Rows db) Event) (p p' : Product)
      → ProductStocked p
      → product_at k w ≡ some p
      → reserve_inventory db manager k u n w ≡ (ok p', w')
      → ((v : World (Rows db) Event) × (release_inventory db manager k u n w' ≡ (ok p, v))
          × ((j : ℕ) → product_at j v ≡ product_at j w))
        × ((v : World (Rows db) Event) × (commit_sale db manager k u n w'
              ≡ (ok (restock_product p (p.quantity -ℤ n) p.reserved), v))
            × ((j : ℕ)
                → product_at j v ≡ (
                    if k == j
                    then some (restock_product p (p.quantity -ℤ n) p.reserved)
                    else product_at j w)))
  release_or_commit_reserved manager k u n w w' p p' h found e =
      let held = restock_product p p.quantity (p.reserved +ℤ n) in
      let at = reserved_at manager k u n w w' p p' found e in
      let here : product_at k w' ≡ some held =
        at k ∙ ap (λ b. if b then some held else product_at k w) (==_refl k) in
      let (v, released, others) = release_inventory_succeeds manager k u n w' held here in
      let (v', sold, others') = commit_sale_succeeds manager k u n w' held here in
      (
        (
          v,
          released ∙ ap (λ q. (ok q, v)) (release_reserve n p h),
          λ j. ground (arith, others j, at j, release_reserve n p h, found),
        ),
        (
          v',
          sold ∙ ap (λ q. (ok q, v')) (commit_reserve n p h),
          λ j. ground (arith, others' j, at j, commit_reserve n p h),
        ),
      )
