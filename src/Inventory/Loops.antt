-- ===== src/Inventory/Loops.antt =====
-- Loops over the items of an order that each change the row of one item: what a run that returns has
-- done to each row.
use mathlib.Core.Option
use market_x_backend.Common.{
  ℕ, true, Option, none, some, List, [], ◌∷◌, ◌≡◌, refl, ◌∙◌, ap, sym, ◌↔◌, arith, Option-cases,
  inl, inr, if◌then◌else◌, ◌==◌, is_some, All, All-map,
}
use market_x_backend.Common.Int.{ℤ}
use market_x_backend.Common.Outcome.{Action, ok, World, for_each, resume, >>=-eq-ok}
use market_x_backend.Entities.{OrderItem}

module _ {R : Type 0} where
  -- What an item does to the row with key `j`, where `g` is what it does to its own row.
  abbrev pub touch : (ℤ → R → R) → ℕ → OrderItem → R → R
  touch g j item l = if item.product_id == j then g item.quantity l else l

  -- What the items do together, one after the other.
  abbrev pub replay : (ℤ → R → R) → ℕ → List OrderItem → R → R
  replay g j [] l = l
  replay g j (item ∷ items) l = replay g j items (touch g j item l)

-- The row with a key is `at` that key.
module _ {S E R : Type 0} (at : ℕ → World S E → Option R) where
  -- A round that returns has changed the item's own row by `g`, and no other.
  abbrev pub Touches : (OrderItem → Action S E (Unit {0})) → (ℤ → R → R) → Type 0
  Touches body g =
      (item : OrderItem) (w w' : World S E)
      → body item w ≡ (ok tt, w')
      → (j : ℕ) → at j w' ≡ Option.map (touch g j item) (at j w)

  -- What a run of the loop that returns has done.
  pub for_each-Touches :
      (body : OrderItem → Action S E (Unit {0})) (g : ℤ → R → R)
      → Touches body g
      → (items : List OrderItem) (w w' : World S E) → for_each body items w ≡ (ok tt, w')
      → (j : ℕ) → at j w' ≡ Option.map (replay g j items) (at j w)
  unfolding for_each
  for_each-Touches body g touches [] w w' e j = elim (Option-cases (at j w)) [
    | inl missing ↦ ground arith
    | inr (l, found) ↦ ground arith
  ]
  for_each-Touches body g touches (item ∷ items) w w' e j =
      let (_, middle, first, others) = >>=-eq-ok (body item) (λ _. for_each body items) w tt w' e in
      for_each-Touches body g touches items middle w' others j
      ∙ (ap (Option.map (replay g j items)) (touches item w middle first j)
          ∙ Option.map-map (replay g j items) (touch g j item) (at j w))

  -- Every item's row is there.
  abbrev pub Found : World S E → List OrderItem → Type 0
  Found w = All (λ item. is_some (at item.product_id w) ≡ true)

  is_some-map : (f : R → R) (o : Option R) → is_some (Option.map f o) ≡ is_some o
  is_some-map f none = refl
  is_some-map f (some l) = refl

  pub Found-moved :
      (f : ℕ → R → R) (w w' : World S E)
      → ((j : ℕ) → at j w' ≡ Option.map (f j) (at j w))
      → (items : List OrderItem) → Found w items ↔ Found w' items
  Found-moved f w w' moved items = (
    All-map (λ item h. ap is_some (moved _) ∙ (is_some-map (f _) (at _ w) ∙ h)) items,
    All-map (λ item h. sym (ap is_some (moved _) ∙ is_some-map (f _) (at _ w)) ∙ h) items,
  )

  -- A loop that returns has found the row of every item.
  pub for_each-Found :
      (body : OrderItem → Action S E (Unit {0})) (g : ℤ → R → R)
      → Touches body g
      → ((item : OrderItem) (w w' : World S E)
          → body item w ≡ (ok tt, w')
          → is_some (at item.product_id w) ≡ true)
      → (items : List OrderItem) (w w' : World S E) → for_each body items w ≡ (ok tt, w')
      → Found w items
  unfolding for_each
  for_each-Found body g touches needs [] w w' e = tt
  for_each-Found body g touches needs (item ∷ items) w w' e =
      let (_, middle, first, others) = >>=-eq-ok (body item) (λ _. for_each body items) w tt w' e in
      (
        needs item w middle first,
        (Found-moved (λ j. touch g j item) w middle (touches item w middle first) items).1
            (for_each-Found body g touches needs items middle w' others),
      )

  -- A loop whose rounds need nothing but the row of their item returns if all are there.
  pub for_each-returns :
      (body : OrderItem → Action S E (Unit {0})) (g : ℤ → R → R)
      → Touches body g
      → ((item : OrderItem) (w : World S E)
          → is_some (at item.product_id w) ≡ true
          → (w' : World S E) × (body item w ≡ (ok tt, w')))
      → (items : List OrderItem) (w : World S E) → Found w items
      → (w' : World S E) × (for_each body items w ≡ (ok tt, w'))
  unfolding for_each
  for_each-returns body g touches returns [] w found = (w, refl)
  for_each-returns body g touches returns (item ∷ items) w found =
      let (middle, first) = returns item w found.0 in
      let (w', others) = for_each-returns body g touches returns items middle (
        (Found-moved (λ j. touch g j item) w middle (touches item w middle first) items).0
          found.1) in
      (w', ap (resume (λ _. for_each body items)) first ∙ others)
