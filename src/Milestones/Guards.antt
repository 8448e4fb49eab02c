-- ===== src/Milestones/Guards.antt =====
-- Which calls a milestone refuses.
use market_x_backend.Common.{ℕ, Option, ◌≡◌}
use market_x_backend.Common.Outcome.{World, Outcome, Exception, err}
use market_x_backend.Common.Database.{Database}
use market_x_backend.Entities.{Order}
use market_x_backend.Events.{Event}
use market_x_backend.Milestones.{Milestone, MilestoneRows}

module _ (db : Database) where
  abbrev pub MilestoneWorld : Type 0
  MilestoneWorld = World (MilestoneRows db) Event

  abbrev pub milestone_at : ℕ → MilestoneWorld → Option Milestone
  milestone_at k w = db.find_one k w.rows.milestones

  abbrev pub order_at : ℕ → MilestoneWorld → Option Order
  order_at k w = db.find_one k w.rows.orders

  -- The call throws and changes nothing.
  abbrev pub Refuses : {A : Type 0} → MilestoneWorld → Outcome A × MilestoneWorld → Type 0
  Refuses w r = (e : Exception) × (r ≡ (err e, w))
