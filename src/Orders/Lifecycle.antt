-- ===== src/Orders/Lifecycle.antt =====
-- The table of the statuses of an order, and the lives of orders that it allows.
use market_x_backend.Common.{
  ℕ, ◌+◌, ◌≤◌, ◌<◌, Bool, true, ◌≡◌, ◌⊎◌, inl, inr, refl, subst, List, [], ◌∷◌, ◌++◌, length, any,
  arith,
}
use market_x_backend.Entities.{OrderStatus, order_status_enum}
use market_x_backend.Status.{StatusTransitionValidator, is_valid, ◌===◌}
use market_x_backend.Status.Laws.{Accepts, length-Accepts}

unfoldable pub order_transitions : OrderStatus → List OrderStatus
order_transitions OrderStatus.pending =
    OrderStatus.confirmed ∷ OrderStatus.cancelled ∷ OrderStatus.manual_review ∷ []
order_transitions OrderStatus.confirmed = OrderStatus.processing ∷ OrderStatus.cancelled ∷ []
order_transitions OrderStatus.processing = OrderStatus.paid ∷ OrderStatus.cancelled ∷ []
order_transitions OrderStatus.paid = OrderStatus.shipped ∷ OrderStatus.cancelled ∷ []
order_transitions OrderStatus.shipped = OrderStatus.delivered ∷ OrderStatus.cancelled ∷ []
order_transitions OrderStatus.delivered = OrderStatus.completed ∷ OrderStatus.refunded ∷ []
order_transitions OrderStatus.completed = OrderStatus.refunded ∷ []
order_transitions OrderStatus.cancelled = []
order_transitions OrderStatus.refunded = []
order_transitions OrderStatus.manual_review = OrderStatus.confirmed ∷ OrderStatus.cancelled ∷ []

abbrev pub order_transition_validator : StatusTransitionValidator OrderStatus
order_transition_validator = record { valid_transitions = order_transitions; entity_name = "Order" }

-- How far an order has come.
abbrev pub progress : OrderStatus → ℕ
progress OrderStatus.pending = 0
progress OrderStatus.manual_review = 1
progress OrderStatus.confirmed = 2
progress OrderStatus.processing = 3
progress OrderStatus.paid = 4
progress OrderStatus.shipped = 5
progress OrderStatus.delivered = 6
progress OrderStatus.completed = 7
progress OrderStatus.cancelled = 8
progress OrderStatus.refunded = 8

progress_rises :
    (s t : OrderStatus) → is_valid order_transition_validator s t ≡ true → progress s < progress t
unfolding is_valid order_transitions
progress_rises s t h = ground arith

progress_below : (s : OrderStatus) → progress s ≤ 8
progress_below s = ground arith

-- The table that updateStatus goes by has no cycle: the statuses that it lets follow one another
-- after `s` are no more than eight less the progress of `s`. (Changes that do not go by the table are
-- not among them.)
pub order_life_ends :
    (s : OrderStatus) (ts : List OrderStatus)
    → Accepts order_transition_validator s ts
    → progress s + length ts ≤ 8
order_life_ends = length-Accepts order_transition_validator progress 8 progress_rises progress_below

-- Statuses between `s` and the completion.
abbrev way : OrderStatus → List OrderStatus
way OrderStatus.pending =
    OrderStatus.confirmed ∷ OrderStatus.processing ∷ OrderStatus.paid ∷ OrderStatus.shipped
    ∷ OrderStatus.delivered ∷ []
way OrderStatus.manual_review =
    OrderStatus.confirmed ∷ OrderStatus.processing ∷ OrderStatus.paid ∷ OrderStatus.shipped
    ∷ OrderStatus.delivered ∷ []
way OrderStatus.confirmed =
    OrderStatus.processing ∷ OrderStatus.paid ∷ OrderStatus.shipped ∷ OrderStatus.delivered ∷ []
way OrderStatus.processing = OrderStatus.paid ∷ OrderStatus.shipped ∷ OrderStatus.delivered ∷ []
way OrderStatus.paid = OrderStatus.shipped ∷ OrderStatus.delivered ∷ []
way OrderStatus.shipped = OrderStatus.delivered ∷ []
way OrderStatus.delivered = []
way OrderStatus.completed = []
way OrderStatus.cancelled = []
way OrderStatus.refunded = []

-- An order that is neither cancelled nor refunded, nor completed, can still be completed: the table
-- allows some statuses one after the other from where it is, the last of them completed.
pub order_can_complete :
    (s : OrderStatus)
    → progress s < 7
    → (ts : List OrderStatus) × Accepts order_transition_validator s
        (ts ++ OrderStatus.completed ∷ [])
unfolding is_valid order_transitions
order_can_complete s low = (way s, ground arith)

abbrev pub visits : OrderStatus → List OrderStatus → Bool
visits s ts = any (λ t. t === s) ts

-- From an order that is not paid, a status leads to one that is not paid, to the payment, or to the
-- cancellation.
unpaid_step :
    (s t : OrderStatus)
    → progress s ≤ 3
    → is_valid order_transition_validator s t ≡ true
    → (progress t ≤ 3) ⊎ (t ≡ OrderStatus.paid) ⊎ (t ≡ OrderStatus.cancelled)
unfolding is_valid order_transitions
unpaid_step s t low h = ground arith

cancelled_ends :
    (ts : List OrderStatus) → Accepts order_transition_validator OrderStatus.cancelled ts → ts ≡ []
unfolding is_valid order_transitions
cancelled_ends [] h = refl
cancelled_ends (t ∷ ts) h = absurd (ground (arith, h.0))

-- In every life that the table allows from a status before the payment, an order that is ever
-- shipped is also paid.
pub shipped_needs_paid :
    (s : OrderStatus) (ts : List OrderStatus)
    → progress s ≤ 3
    → Accepts order_transition_validator s ts
    → visits OrderStatus.shipped ts ≡ true
    → visits OrderStatus.paid ts ≡ true
shipped_needs_paid s [] low h seen = absurd (ground arith)
shipped_needs_paid s (t ∷ ts) low h seen = elim (unpaid_step s t low h.0) [
  | inl still ↦
      let later : visits OrderStatus.shipped ts ≡ true = ground arith in
      let rest : visits OrderStatus.paid ts ≡ true = shipped_needs_paid t ts still h.1 later in
      ground arith
  | inr (inl now_paid) ↦ ground arith
  | inr (inr now_cancelled) ↦
      let ends =
        cancelled_ends ts
          (subst (λ u. Accepts order_transition_validator u ts) now_cancelled h.1) in
      absurd (ground arith)
]
