-- ===== src/Milestones/Related.antt =====
-- Milestones are never related to an order, and what that means for their release.
use market_x_backend.Common.{
  ℕ, suc, Option, none, some, List, [], ◌∷◌, String, ◌≡◌, refl, arith, inl, inr, ◌⊎◌, Option-cases,
  All-of,
}
use market_x_backend.Common.Outcome.{
  err, for_each-keeps, handle-keeps, ◌>>=◌, >>=-keeps, pure, bad_request, type_error,
}
use market_x_backend.Common.Database.{Database}
use market_x_backend.Common.Runs.{Steps, steps-keep}
use market_x_backend.Milestones.{
  Milestone, CreateMilestoneDto, ReleaseMilestoneDto, UpdateMilestoneStatusDto, new_milestone,
  as_released, with_status, pending, approved, rejected, released, or_empty,
}
use market_x_backend.Milestones.Service.{
  create_all, create_milestones, approve_milestone, reject_milestone, release_milestone,
  process_automatic_releases, release_one, release_due, automatic, get_milestone_by_id,
  create_milestone_transaction, update_milestone_status,
}
use market_x_backend.Milestones.Guards.{MilestoneWorld, milestone_at, order_at}

-- A call of the service, whether it returns or throws.
pub data MilestoneStep (db : Database) (parse_int : ℕ → Option ℕ)
    : MilestoneWorld db → MilestoneWorld db → Type 0 where
  created :
      (k : ℕ) (dtos : List CreateMilestoneDto) (w : MilestoneWorld db)
      → MilestoneStep db parse_int w (create_milestones db k dtos w).1
  approves :
      (k : ℕ) (notes : Option String) (w : MilestoneWorld db)
      → MilestoneStep db parse_int w (approve_milestone db k notes w).1
  rejects :
      (k : ℕ) (dto : UpdateMilestoneStatusDto) (w : MilestoneWorld db)
      → MilestoneStep db parse_int w (reject_milestone db k dto w).1
  updates :
      (now k : ℕ) (dto : UpdateMilestoneStatusDto) (w : MilestoneWorld db)
      → MilestoneStep db parse_int w (update_milestone_status db now k dto w).1
  releases :
      (now k : ℕ) (dto : ReleaseMilestoneDto) (w : MilestoneWorld db)
      → MilestoneStep db parse_int w (release_milestone db parse_int now k dto w).1
  runs_job :
      (now : ℕ) (w : MilestoneWorld db)
      → MilestoneStep db parse_int w (process_automatic_releases db parse_int now w).1

-- No stored milestone is related to an order.
unfoldable pub Unrelated : (db : Database) → MilestoneWorld db → Type 0
Unrelated db w = (k : ℕ) (m : Milestone) → milestone_at db k w ≡ some m → m.related_order_id ≡ none

module _ (db : Database) (before : MilestoneWorld db) where
  -- The orders and the transactions are those of the world before.
  unfoldable pub Unpaid : MilestoneWorld db → Type 0
  Unpaid w =
      Unrelated db w
      × (w.rows.orders ≡ before.rows.orders)
      × (w.rows.transactions ≡ before.rows.transactions)

  abbrev saved : Milestone → MilestoneWorld db → MilestoneWorld db
  saved m w = record w { rows = record (w.rows) { milestones = db.save m w.rows.milestones } }

  saved-Unpaid :
      (m : Milestone) (w : MilestoneWorld db)
      → m.related_order_id ≡ none
      → Unpaid w
      → Unpaid (saved m w)
  unfolding Unpaid Unrelated
  saved-Unpaid m w unrelated h =
      (λ k m' found. ground (arith, h.0 k m', db.find_one-save k m w.rows.milestones), h.1, h.2)

  unrelated :
      (k : ℕ) (m : Milestone) (w : MilestoneWorld db)
      → milestone_at db k w ≡ some m
      → Unpaid w
      → m.related_order_id ≡ none
  unfolding Unpaid Unrelated
  unrelated k m w found h = h.0 k m found

  -- A call that at most stores a milestone that is changed.
  approve-Unpaid :
      (k : ℕ) (notes : Option String) (w : MilestoneWorld db)
      → Unpaid w
      → Unpaid (approve_milestone db k notes w).1
  unfolding approve_milestone get_milestone_by_id
  approve-Unpaid k notes w h = elim (Option-cases (milestone_at db k w)) [
    | inl missing ↦ ground (arith, h)
    | inr (m, found) ↦
        let m' = record m { status = approved; admin_notes = some (or_empty notes) } in
        let stored = saved-Unpaid m' w (unrelated k m w found h) h in ground (arith, h, stored)
  ]

  reject-Unpaid :
      (k : ℕ) (dto : UpdateMilestoneStatusDto) (w : MilestoneWorld db)
      → Unpaid w
      → Unpaid (reject_milestone db k dto w).1
  unfolding reject_milestone get_milestone_by_id
  reject-Unpaid k dto w h = elim (Option-cases (milestone_at db k w)) [
    | inl missing ↦ ground (arith, h)
    | inr (m, found) ↦
        let m' : Milestone = record m {
          status = rejected;
          rejection_reason = some (or_empty dto.rejection_reason);
          admin_notes = some (or_empty dto.admin_notes);
        } in
        let stored = saved-Unpaid m' w (unrelated k m w found h) h in ground (arith, h, stored)
  ]

  with_status-related :
      (now : ℕ) (dto : UpdateMilestoneStatusDto) (m : Milestone)
      → (with_status now dto m).related_order_id ≡ m.related_order_id
  with_status-related now dto m = elim (Option-cases dto.dispute_details) [
    | inl plain ↦ ground arith
    | inr (d, details) ↦ ground arith
  ]

  update-Unpaid :
      (now k : ℕ) (dto : UpdateMilestoneStatusDto) (w : MilestoneWorld db)
      → Unpaid w
      → Unpaid (update_milestone_status db now k dto w).1
  unfolding update_milestone_status get_milestone_by_id
  update-Unpaid now k dto w h = elim (Option-cases (milestone_at db k w)) [
    | inl missing ↦ ground (arith, h)
    | inr (m, found) ↦
        let same : (with_status now dto m).related_order_id ≡ none =
          ground (arith, with_status-related now dto m, unrelated k m w found h) in
        let stored = saved-Unpaid (with_status now dto m) w same h in ground (arith, stored)
  ]

  release-Unpaid :
      (parse_int : ℕ → Option ℕ) (now k : ℕ) (dto : ReleaseMilestoneDto) (w : MilestoneWorld db)
      → Unpaid w
      → Unpaid (release_milestone db parse_int now k dto w).1
  unfolding release_milestone get_milestone_by_id create_milestone_transaction
  release-Unpaid parse_int now k dto w h = elim (Option-cases (milestone_at db k w)) [
    | inl missing ↦ ground (arith, h)
    | inr (m, found) ↦
        let none_related = unrelated k m w found h in
        let stored = saved-Unpaid (as_released now dto m) w none_related h in
        ground (arith, h, stored, none_related)
  ]

  create_all-Unpaid :
      (k index : ℕ) (dtos : List CreateMilestoneDto) (w : MilestoneWorld db)
      → Unpaid w
      → Unpaid (create_all db k index dtos w).1
  unfolding create_all
  create_all-Unpaid k index [] w h = h
  create_all-Unpaid k index (dto ∷ dtos) w h =
      let m = new_milestone (db.next_key w.rows.milestones) k index dto in
      >>=-keeps Unpaid (create_all db k (suc index) dtos) (λ rest. pure (m ∷ rest)) (saved m w)
        (create_all-Unpaid k (suc index) dtos (saved m w) (saved-Unpaid m w refl h))
        (λ rest w' h'. h')

  create-Unpaid :
      (k : ℕ) (dtos : List CreateMilestoneDto) (w : MilestoneWorld db)
      → Unpaid w
      → Unpaid (create_milestones db k dtos w).1
  unfolding create_milestones
  create-Unpaid k dtos w h = elim (Option-cases (order_at db k w)) [
    | inl missing ↦ ground (arith, h)
    | inr (o, found) ↦ ground (arith, h, create_all-Unpaid k 0 dtos w h)
  ]

  release_one-Unpaid :
      (parse_int : ℕ → Option ℕ) (now : ℕ) (m : Milestone) (w : MilestoneWorld db)
      → Unpaid w
      → Unpaid (release_one db parse_int now m w).1
  release_one-Unpaid parse_int now m w h =
      handle-keeps Unpaid (λ error. pure tt)
        ((release_milestone db parse_int now m.id automatic >>= λ released. pure tt) w)
        (>>=-keeps Unpaid (release_milestone db parse_int now m.id automatic) (λ released. pure tt)
          w (release-Unpaid parse_int now m.id automatic w h) (λ released w' h'. h'))
        (λ error w' h'. h')

  process-Unpaid :
      (parse_int : ℕ → Option ℕ) (now : ℕ) (w : MilestoneWorld db)
      → Unpaid w
      → Unpaid (process_automatic_releases db parse_int now w).1
  unfolding process_automatic_releases
  process-Unpaid parse_int now w h =
      let due = db.find (release_due db parse_int now) w.rows.milestones in
      for_each-keeps Unpaid (release_one db parse_int now) due
        (All-of (λ m w' h'. release_one-Unpaid parse_int now m w' h') due) w h

  MilestoneStep-Unpaid :
      (parse_int : ℕ → Option ℕ) {w w' : MilestoneWorld db}
      → MilestoneStep db parse_int w w'
      → Unpaid w
      → Unpaid w'
  MilestoneStep-Unpaid parse_int (MilestoneStep.created k dtos w) h = create-Unpaid k dtos w h
  MilestoneStep-Unpaid parse_int (MilestoneStep.approves k notes w) h = approve-Unpaid k notes w h
  MilestoneStep-Unpaid parse_int (MilestoneStep.rejects k dto w) h = reject-Unpaid k dto w h
  MilestoneStep-Unpaid parse_int (MilestoneStep.updates now k dto w) h = update-Unpaid now k dto w h
  MilestoneStep-Unpaid parse_int (MilestoneStep.releases now k dto w) h =
      release-Unpaid parse_int now k dto w h
  MilestoneStep-Unpaid parse_int (MilestoneStep.runs_job now w) h = process-Unpaid parse_int now w h

module _ (db : Database) (parse_int : ℕ → Option ℕ) where
  -- If no milestone is related to an order by the column of the relation, then no calls of the
  -- service, releases and the daily job among them, ever change an order, record a transaction or
  -- relate a milestone to an order.
  pub milestone_calls_pay_nothing :
      {w w' : MilestoneWorld db}
      → Steps (MilestoneStep db parse_int) w w'
      → Unrelated db w
      → Unpaid db w w'
  unfolding Unpaid
  milestone_calls_pay_nothing {w} run h =
      steps-keep (Unpaid db w) (λ s t step. MilestoneStep-Unpaid db w parse_int step) run
        (h, refl, refl)

  -- Releasing a pending or approved milestone that is not related to an order throws, but the
  -- milestone is stored as released by then, at the time of the release, and all else stays as it is.
  -- Releasing it once more is refused.
  pub release_milestone_stuck :
      (now later k : ℕ) (dto : ReleaseMilestoneDto) (w : MilestoneWorld db) (m : Milestone)
      → milestone_at db k w ≡ some m
      → (m.status ≡ pending) ⊎ (m.status ≡ approved)
      → m.related_order_id ≡ none
      → let (r, w') = release_milestone db parse_int now k dto w in
        (r ≡ err (type_error "order of the milestone"))
        × ((m' : Milestone) × (milestone_at db k w' ≡ some m')
            × (m'.status ≡ released)
            × (m'.released_at ≡ some now)
            × (m'.amount ≡ m.amount)
            × (w'.rows.milestones ≡ db.save m' w.rows.milestones))
        × (w'.rows.orders ≡ w.rows.orders)
        × (w'.rows.transactions ≡ w.rows.transactions)
        × (w'.emitted ≡ w.emitted)
        × (release_milestone db parse_int later k dto w'
            ≡ (err (bad_request "Milestone cannot be released in current status"), w'))
  unfolding release_milestone get_milestone_by_id create_milestone_transaction
  release_milestone_stuck now later k dto w m found unreleased unrelated =
      let m' = as_released now dto m in
      let at = db.find_one-key k w.rows.milestones m found in
      let stored : db.find_one k (db.save m' w.rows.milestones) ≡ some m' =
        grind (arith, db.find_one-save k, at) in
      (
        ground arith,
        (m', ground (arith, stored), refl, refl, refl, ground arith),
        ground arith,
        ground arith,
        ground arith,
        ground (arith, stored),
      )
