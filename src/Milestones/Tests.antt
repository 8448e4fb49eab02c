-- ===== src/Milestones/Tests.antt =====
-- Milestones in memory.
use market_x_backend.Common.{ℕ, true, Option, none, some, List, [], ◌∷◌, ◌≡◌, refl, arith, inl}
use market_x_backend.Common.Int.{pos, ◌+ℤ◌}
use market_x_backend.Common.Values.{digits_from}
use market_x_backend.Common.Outcome.{ok, err, bad_request, type_error}
use market_x_backend.Common.Memory.{memory}
use market_x_backend.Common.Runs.{Steps}
use market_x_backend.Samples.{order}
use market_x_backend.Milestones.{
  Milestone, CreateMilestoneDto, ReleaseMilestoneDto, UpdateMilestoneStatusDto, pending, released,
  milestone_key, new_milestone, appended_amount,
}
use market_x_backend.Milestones.Service.{
  create_milestones, release_milestone, update_milestone_status, process_automatic_releases,
  create_all,
}
use market_x_backend.Milestones.Guards.{MilestoneWorld, milestone_at}
use market_x_backend.Milestones.Related.{
  MilestoneStep, Unrelated, Unpaid, milestone_calls_pay_nothing, release_milestone_stuck,
}

abbrev half : CreateMilestoneDto
half = record { title = "half"; amount = pos 8700; auto_release = true; sort_order = 0 }

abbrev first_half : Milestone
first_half = record (new_milestone 0 7 0 half) { release_at = some 10 }

abbrev plain : ReleaseMilestoneDto
plain = record { notes = none; documents = none }

abbrev with_milestones : List Milestone → MilestoneWorld memory
with_milestones ms = record {
  rows = record { milestones = ms; orders = order ∷ []; transactions = [] };
  emitted = [];
}

abbrev same_number : ℕ → Option ℕ
same_number id = some id

planned : create_milestones memory 7 (half ∷ half ∷ []) (with_milestones []) ≡ (
  ok (new_milestone 0 7 0 half ∷ new_milestone 1 7 1 half ∷ []),
  with_milestones (new_milestone 0 7 0 half ∷ new_milestone 1 7 1 half ∷ []),
)
unfolding create_milestones create_all ◌+ℤ◌
planned = refl

-- A second amount is appended: 87 dollars and 87 dollars are 8787 dollars.
appended_twice :
    (appended_amount (pos 0) (pos 8700) ≡ some (pos 8700))
    × (appended_amount (pos 8700) (pos 8700) ≡ some (pos 878700))
    × (appended_amount (pos 8750) (pos 8700) ≡ none)
unfolding digits_from
appended_twice = (refl, refl, refl)

abbrev reopening : UpdateMilestoneStatusDto
reopening = record {
  status = pending;
  admin_notes = none;
  rejection_reason = some "late";
  dispute_details = none;
}

abbrev planned_half : MilestoneWorld memory
planned_half = with_milestones (first_half ∷ [])

abbrev after_job : MilestoneWorld memory
after_job = (process_automatic_releases memory same_number 20 planned_half).1

abbrev reopened : MilestoneWorld memory
reopened = (update_milestone_status memory 25 0 reopening after_job).1

job_and_reopening :
    Steps
      (MilestoneStep memory same_number)
      planned_half
      (release_milestone memory same_number 30 0 plain reopened).1
job_and_reopening = Steps.step (MilestoneStep.runs_job 20 planned_half) (
    Steps.step (MilestoneStep.updates 25 0 reopening after_job)
      (Steps.step (MilestoneStep.releases 30 0 plain reopened) Steps.stop))

none_related : Unrelated memory planned_half
unfolding Unrelated
none_related k m found = ground arith

milestone_calls_pay_nothing_example :
    Unpaid memory planned_half (release_milestone memory same_number 30 0 plain reopened).1
milestone_calls_pay_nothing_example =
    milestone_calls_pay_nothing memory same_number job_and_reopening none_related

release_milestone_stuck_example :
    let (r, w') = release_milestone memory same_number 20 0 plain planned_half in
    (r ≡ err (type_error "order of the milestone"))
    × ((m' : Milestone) × (milestone_at memory 0 w' ≡ some m')
        × (m'.status ≡ released)
        × (m'.released_at ≡ some 20)
        × (m'.amount ≡ pos 8700)
        × (w'.rows.milestones ≡ memory.save {key = milestone_key} m' (first_half ∷ [])))
    × (w'.rows.orders ≡ order ∷ [])
    × (w'.rows.transactions ≡ [])
    × (w'.emitted ≡ [])
    × (release_milestone memory same_number 30 0 plain w'
        ≡ (err (bad_request "Milestone cannot be released in current status"), w'))
release_milestone_stuck_example =
    release_milestone_stuck memory same_number 20 30 0 plain planned_half first_half refl (inl refl)
      refl
