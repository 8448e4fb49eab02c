-- ===== src/Shipping/Lifecycle.antt =====
-- The table of the statuses of a shipment, and the lives that it allows.
use market_x_backend.Common.{
  Bool, true, false, List, [], ◌∷◌, ◌≡◌, refl, arith, any, ◌⊎◌, inl, inr, subst,
}
use market_x_backend.Status.{includes, ◌===◌}
use market_x_backend.Shipping.{
  ShipmentStatus, shipment_status_enum, label_created, picked_up, in_transit, out_for_delivery,
  delivered, failed, returned,
}

unfoldable pub valid_transitions : ShipmentStatus → List ShipmentStatus
valid_transitions label_created = picked_up ∷ failed ∷ []
valid_transitions picked_up = in_transit ∷ failed ∷ []
valid_transitions in_transit = out_for_delivery ∷ failed ∷ returned ∷ []
valid_transitions out_for_delivery = delivered ∷ failed ∷ returned ∷ []
valid_transitions delivered = []
valid_transitions failed = label_created ∷ []
valid_transitions returned = []

unfoldable pub is_valid_state_transition : ShipmentStatus → ShipmentStatus → Bool
is_valid_state_transition current new = includes (valid_transitions current) new

-- Statuses that the table lets follow one another, the first of them after `s`.
abbrev pub Follows : ShipmentStatus → List ShipmentStatus → Type 0
Follows s [] = Unit
Follows s (t ∷ ts) = (is_valid_state_transition s t ≡ true) × Follows t ts

abbrev pub seen : ShipmentStatus → List ShipmentStatus → Bool
seen s ts = any (λ t. t === s) ts

-- Not out for delivery yet, and not at an end.
abbrev pub under_way : ShipmentStatus → Bool
under_way label_created = true
under_way picked_up = true
under_way in_transit = true
under_way out_for_delivery = false
under_way delivered = false
under_way failed = true
under_way returned = false

under_way_next :
    (s t : ShipmentStatus)
    → under_way s ≡ true
    → is_valid_state_transition s t ≡ true
    → (under_way t ≡ true) ⊎ (t ≡ out_for_delivery) ⊎ (t ≡ returned)
unfolding is_valid_state_transition valid_transitions
under_way_next s t h valid = ground arith

returned_ends : (ts : List ShipmentStatus) → Follows returned ts → ts ≡ []
unfolding is_valid_state_transition valid_transitions
returned_ends [] h = refl
returned_ends (t ∷ ts) h = absurd (ground (arith, h.0))

-- In every life of a shipment that is under way, delivered it is only after it went out for delivery.
pub delivered_was_out :
    (s : ShipmentStatus) (ts : List ShipmentStatus)
    → under_way s ≡ true
    → Follows s ts
    → seen delivered ts ≡ true
    → seen out_for_delivery ts ≡ true
delivered_was_out s [] going h was = absurd (ground arith)
delivered_was_out s (t ∷ ts) going h was = elim (under_way_next s t going h.0) [
  | inl still ↦
      let later : seen delivered ts ≡ true = ground arith in
      let rest : seen out_for_delivery ts ≡ true = delivered_was_out t ts still h.1 later in
      ground arith
  | inr (inl out) ↦ ground arith
  | inr (inr back) ↦
      let ends = returned_ends ts (subst (λ u. Follows u ts) back h.1) in absurd (ground arith)
]
