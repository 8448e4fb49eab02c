-- ===== src/Milestones/Service.antt =====
-- src/milestones/milestones.service.ts.
use market_x_backend.Common.{
  ℕ, suc, Bool, false, not, ◌&&◌, Option, none, some, List, [], ◌∷◌, String, ltb, if◌then◌else◌,
  length,
}
use market_x_backend.Common.Int.{ℤ, ltb_ℤ}
use market_x_backend.Common.Outcome.{
  not_found, bad_request, type_error, pure, gets, or_throw, throw_if, modify, for_each, try, ◌>>=◌,
  ◌>>◌,
}
use market_x_backend.Common.Database.{Database}
use market_x_backend.Common.Counts.{sum}
use market_x_backend.Entities.{Order}
use market_x_backend.Milestones.{
  Milestone, MilestoneStatus, Transaction, MilestoneCall, MilestoneRows, CreateMilestoneDto,
  ReleaseMilestoneDto, UpdateMilestoneStatusDto, approved, rejected, is_pending, is_approved,
  is_released, is_rejected, or_empty, new_milestone, new_transaction, as_released, with_status,
  credited,
}

module _ (db : Database) where
  abbrev pub save_milestone : Milestone → MilestoneCall db (Unit {0})
  save_milestone m = modify (λ r. record r { milestones = db.save m r.milestones })

  -- The loop over the milestones of one request, which are saved under fresh keys.
  unfoldable pub create_all : ℕ → ℕ → List CreateMilestoneDto → MilestoneCall db (List Milestone)
  create_all order_id index [] = pure []
  create_all order_id index (dto ∷ dtos) = do
    id ← gets (λ r. db.next_key r.milestones)
    let m = new_milestone id order_id index dto
    save_milestone m
    rest ← create_all order_id (suc index) dtos
    pure (m ∷ rest)

  unfoldable pub create_milestones : ℕ → List CreateMilestoneDto → MilestoneCall db (List Milestone)
  create_milestones order_id dtos = do
    found ← gets (λ r. db.find_one order_id r.orders)
    order ← or_throw found (not_found "Order not found")
    throw_if (ltb_ℤ order.total_amount (sum (λ dto. dto.amount) dtos))
        (bad_request "Total milestone amounts cannot exceed order total")
    create_all order_id 0 dtos

  unfoldable pub get_milestone_by_id : ℕ → MilestoneCall db Milestone
  get_milestone_by_id id = do
    found ← gets (λ r. db.find_one id r.milestones)
    or_throw found (not_found "Milestone not found")

  unfoldable pub approve_milestone : ℕ → Option String → MilestoneCall db Milestone
  unfolding get_milestone_by_id
  approve_milestone id notes = do
    m ← get_milestone_by_id id
    throw_if (not (is_pending m.status))
        (bad_request "Milestone cannot be approved in current status")
    let m' = record m { status = approved; admin_notes = some (or_empty notes) }
    save_milestone m'
    pure m'

  unfoldable pub reject_milestone : ℕ → UpdateMilestoneStatusDto → MilestoneCall db Milestone
  unfolding get_milestone_by_id
  reject_milestone id dto = do
    m ← get_milestone_by_id id
    throw_if (not (is_pending m.status) && not (is_approved m.status))
        (bad_request "Milestone cannot be rejected in current status")
    let m' = record m {
      status = rejected;
      rejection_reason = some (or_empty dto.rejection_reason);
      admin_notes = some (or_empty dto.admin_notes);
    }
    save_milestone m'
    pure m'

  unfoldable pub update_milestone_status :
      ℕ → ℕ → UpdateMilestoneStatusDto → MilestoneCall db Milestone
  unfolding get_milestone_by_id
  update_milestone_status now id dto = do
    m ← get_milestone_by_id id
    let m' = with_status now dto m
    save_milestone m'
    pure m'

  abbrev credit_found : ℤ → Option Order → MilestoneCall db (Unit {0})
  credit_found amount none = pure tt
  credit_found amount (some o) = do
    o' ← or_throw (credited amount o) (type_error "invalid input syntax for type numeric")
    modify (λ r. record r { orders = db.save o' r.orders })

  unfoldable pub update_order_released_amount : ℕ → ℤ → MilestoneCall db (Unit {0})
  update_order_released_amount order_id amount = do
    found ← gets (λ r. db.find_one order_id r.orders)
    credit_found amount found

  -- The order that is loaded with the milestone.
  abbrev pub related_order : Option ℕ → MilestoneRows db → Option Order
  related_order none r = none
  related_order (some id) r = db.find_one id r.orders

-- What `processAutomaticReleases` releases with.
abbrev pub automatic : ReleaseMilestoneDto
automatic = record {
  notes = some "Automatic release based on trigger conditions";
  documents = none;
}

-- `parseInt` of a key, if that is a number; the columns of the transaction refuse what is not one.
module _ (db : Database) (parse_int : ℕ → Option ℕ) where
  -- `parseInt(id || '0')`
  abbrev pub party : Option ℕ → Option ℕ
  party none = some 0
  party (some id) = parse_int id

  unfoldable pub create_milestone_transaction : Milestone → MilestoneCall db Transaction
  create_milestone_transaction m = do
    related ← gets (related_order db m.related_order_id)
    order ← or_throw related (type_error "order of the milestone")
    sender_id ← or_throw (party (some order.buyer_id)) (type_error "sender_id")
    receiver_id ← or_throw (party order.seller_id) (type_error "receiver_id")
    id ← gets (λ r. db.next_key r.transactions)
    let t = new_transaction id sender_id receiver_id order.id m
    modify (λ r. record r { transactions = db.save t r.transactions })
    pure t

  unfoldable pub release_milestone : ℕ → ℕ → ReleaseMilestoneDto → MilestoneCall db Milestone
  unfolding get_milestone_by_id create_milestone_transaction update_order_released_amount
  release_milestone now id dto = do
    m ← get_milestone_by_id db id
    throw_if (not (is_pending m.status) && not (is_approved m.status))
        (bad_request "Milestone cannot be released in current status")
    let m' = as_released now dto m
    save_milestone db m'
    t ← create_milestone_transaction m'
    update_order_released_amount db m'.order_id m'.amount
    pure m'

  -- `status: PENDING, autoRelease: true, releaseAt: LessThan(new Date())`
  abbrev pub release_due : ℕ → Milestone → Bool
  release_due now m = is_pending m.status && m.auto_release && past m.release_at
    where
      past : Option ℕ → Bool
      past none = false
      past (some at) = ltb at now

  abbrev pub release_one : ℕ → Milestone → MilestoneCall db (Unit {0})
  release_one now m = try (do release_milestone now m.id automatic; pure tt) (λ error. pure tt)

  unfoldable pub process_automatic_releases : ℕ → MilestoneCall db (Unit {0})
  process_automatic_releases now = do
    pending_milestones ← gets (λ r. db.find (release_due now) r.milestones)
    for_each (release_one now) pending_milestones

pub record MilestoneStatistics : Type 0 where
  pub total_milestones : ℕ
  pub pending_milestones : ℕ
  pub approved_milestones : ℕ
  pub released_milestones : ℕ
  pub rejected_milestones : ℕ
  pub total_released_amount : ℤ
  pub total_pending_amount : ℤ

abbrev having : (MilestoneStatus → Bool) → List Milestone → List Milestone
having p [] = []
having p (m ∷ ms) = let rest = having p ms in if p m.status then m ∷ rest else rest

-- `getMilestoneStatistics` of the milestones of an order.
unfoldable pub milestone_statistics : List Milestone → MilestoneStatistics
milestone_statistics ms = record {
  total_milestones = length ms;
  pending_milestones = length (having is_pending ms);
  approved_milestones = length (having is_approved ms);
  released_milestones = length (having is_released ms);
  rejected_milestones = length (having is_rejected ms);
  total_released_amount = sum (λ m. m.amount) (having is_released ms);
  total_pending_amount = sum (λ m. m.amount) (having is_pending ms);
}
