-- ===== src/Milestones.antt =====
-- src/milestones: the milestones of an order, their release, and what releasing them does to the
-- order. Columns that are only carried are left out; amounts are whole cents, and the driver answers
-- those of a loaded milestone as texts. The relation to the order has a column of its own, `orderId`,
-- beside the column `order_id` of the key.
pub mod Service
pub mod Guards
pub mod Plans
pub mod Related
pub mod Tests
use market_x_backend.Common.{
  ℕ, zero, suc, ◌+◌, ◌*◌, ◌/◌, ◌%◌, ◌^◌, Bool, true, false, not, ◌&&◌, ◌||◌, Option, none, some,
  List, [], ◌∷◌, String, ltb, ◌==◌, if◌then◌else◌, from_option, length,
}
use market_x_backend.Common.Int.{ℤ, pos, negsuc, ◌+ℤ◌, ◌-ℤ◌, ltb_ℤ}
use market_x_backend.Common.Outcome.{
  World, Action, Exception, not_found, bad_request, type_error, pure, throw, gets, or_throw,
  throw_if, modify, for_each, try, ◌>>=◌, ◌>>◌,
}
use market_x_backend.Common.Values.{digits}
use market_x_backend.Common.Database.{Database}
use market_x_backend.Common.Counts.{sum}
use market_x_backend.Entities.{Order}
use market_x_backend.Events.{Event}
use market_x_backend.Rows.{order_key}

pub data MilestoneStatus : Type 0 where
  pending approved released rejected disputed cancelled : MilestoneStatus

abbrev pub is_pending : MilestoneStatus → Bool
is_pending pending = true
is_pending approved = false
is_pending released = false
is_pending rejected = false
is_pending disputed = false
is_pending cancelled = false

abbrev pub is_approved : MilestoneStatus → Bool
is_approved pending = false
is_approved approved = true
is_approved released = false
is_approved rejected = false
is_approved disputed = false
is_approved cancelled = false

abbrev pub is_released : MilestoneStatus → Bool
is_released pending = false
is_released approved = false
is_released released = true
is_released rejected = false
is_released disputed = false
is_released cancelled = false

abbrev pub is_rejected : MilestoneStatus → Bool
is_rejected pending = false
is_rejected approved = false
is_rejected released = false
is_rejected rejected = true
is_rejected disputed = false
is_rejected cancelled = false

pub record DisputeDetails : Type 0 where
  pub reason : String
  pub description : String
  pub evidence : List String
  pub raised_by : String
  pub raised_at : ℕ

pub record UploadedDocument : Type 0 where
  pub id : String
  pub name : String
  pub url : String
  pub uploaded_at : ℕ

pub record Milestone : Type 0 where
  pub id : ℕ
  pub order_id : ℕ
  pub related_order_id : Option ℕ
  pub title : String
  pub amount : ℤ
  pub status : MilestoneStatus
  pub auto_release : Bool
  pub release_at : Option ℕ
  pub released_at : Option ℕ
  pub uploaded_documents : Option (List UploadedDocument)
  pub admin_notes : Option String
  pub rejection_reason : Option String
  pub dispute_details : Option DisputeDetails
  pub sort_order : ℕ

-- A row of the transactions that `createMilestoneTransaction` asks for.
pub record Transaction : Type 0 where
  pub id : ℕ
  pub amount : ℤ
  pub sender_id : ℕ
  pub receiver_id : ℕ
  pub milestone_id : ℕ
  pub order_id : ℕ

pub record CreateMilestoneDto : Type 0 where
  pub title : String
  pub amount : ℤ
  pub auto_release : Bool
  pub sort_order : ℕ

pub record Document : Type 0 where
  pub id : String
  pub name : String
  pub url : String

pub record ReleaseMilestoneDto : Type 0 where
  pub notes : Option String
  pub documents : Option (List Document)

pub record DisputeDetailsDto : Type 0 where
  pub reason : String
  pub description : String
  pub evidence : List String
  pub raised_by : Option String

pub record UpdateMilestoneStatusDto : Type 0 where
  pub status : MilestoneStatus
  pub admin_notes : Option String
  pub rejection_reason : Option String
  pub dispute_details : Option DisputeDetailsDto

abbrev pub milestone_key : Milestone → ℕ
milestone_key m = m.id

abbrev pub transaction_key : Transaction → ℕ
transaction_key t = t.id

pub record MilestoneRows (db : Database) : Type 0 where
  pub milestones : db.Table Milestone milestone_key
  pub orders : db.Table Order order_key
  pub transactions : db.Table Transaction transaction_key

abbrev pub MilestoneCall : Database → Type 0 → Type 0
MilestoneCall db A = Action (MilestoneRows db) Event A

-- `given || ''`, and `if (given) field = given`; an empty string is none.
abbrev pub or_empty : Option String → String
or_empty none = ""
or_empty (some text) = text

abbrev replaced : Option String → Option String → Option String
replaced old none = old
replaced old (some String.[]) = old
replaced old (some (String.◌∷◌ c s)) = some (String.◌∷◌ c s)

-- `raisedBy || 'system'`
abbrev or_system : Option String → String
or_system none = "system"
or_system (some String.[]) = "system"
or_system (some (String.◌∷◌ c s)) = String.◌∷◌ c s

-- `milestoneData.sortOrder || index`
abbrev order_or : ℕ → ℕ → ℕ
order_or zero index = index
order_or (suc n) index = suc n

abbrev pub new_milestone : ℕ → ℕ → ℕ → CreateMilestoneDto → Milestone
new_milestone id order_id index dto = record {
  id = id;
  order_id = order_id;
  related_order_id = none;
  title = dto.title;
  amount = dto.amount;
  status = pending;
  auto_release = dto.auto_release;
  release_at = none;
  released_at = none;
  uploaded_documents = none;
  admin_notes = none;
  rejection_reason = none;
  dispute_details = none;
  sort_order = order_or dto.sort_order index;
}

abbrev uploaded : ℕ → List Document → List UploadedDocument
uploaded now [] = []
uploaded now (d ∷ ds) =
    record { id = d.id; name = d.name; url = d.url; uploaded_at = now } ∷ uploaded now ds

abbrev uploads :
    ℕ → Option (List UploadedDocument) → Option (List Document) → Option (List UploadedDocument)
uploads now old none = old
uploads now old (some ds) = some (uploaded now ds)

abbrev pub new_transaction : ℕ → ℕ → ℕ → ℕ → Milestone → Transaction
new_transaction id sender_id receiver_id order_id m = record {
  id = id;
  amount = m.amount;
  sender_id = sender_id;
  receiver_id = receiver_id;
  milestone_id = m.id;
  order_id = order_id;
}

-- What `releaseMilestone` stores of the milestone.
abbrev pub as_released : ℕ → ReleaseMilestoneDto → Milestone → Milestone
as_released now dto m = record m {
  status = released;
  released_at = some now;
  admin_notes = some (or_empty dto.notes);
  uploaded_documents = uploads now m.uploaded_documents dto.documents;
}

-- What `updateMilestoneStatus` stores.
abbrev disputed_with : ℕ → Option DisputeDetailsDto → Milestone → Milestone
disputed_with now none m = m
disputed_with now (some d) m = record m {
  status = disputed;
  dispute_details = some (record {
    reason = d.reason;
    description = d.description;
    evidence = d.evidence;
    raised_by = or_system d.raised_by;
    raised_at = now;
  });
}

abbrev pub with_status : ℕ → UpdateMilestoneStatusDto → Milestone → Milestone
with_status now dto m = disputed_with now dto.dispute_details (record m {
  status = dto.status;
  admin_notes = replaced m.admin_notes dto.admin_notes;
  rejection_reason = replaced m.rejection_reason dto.rejection_reason;
})

-- The text of the first number followed by that of the second, which has two decimals, if that is a
-- number's text again and a `decimal(20, 2)` column holds it.
abbrev decimal_column : Bool → ℕ → Option ℕ
decimal_column whole n = if whole && ltb n 100000000000000000000 then some n else none

abbrev appended_cents : ℕ → ℕ → Option ℕ
appended_cents a n = decimal_column (a % 100 == 0) (a * 10 ^ digits (n / 100) + n)

abbrev pub appended_amount : ℤ → ℤ → Option ℤ
appended_amount a (negsuc n) = none
appended_amount (pos a) (pos n) = elim (appended_cents a n) [ none ↦ none | some m ↦ some (pos m) ]
appended_amount (negsuc a) (pos n) = elim (appended_cents (suc a) n) [
  | none ↦ none
  | some m ↦ some (pos 0 -ℤ pos m)
]

abbrev with_released : Order → ℤ → Order
with_released o released_amount = record o {
  released_amount = released_amount;
  remaining_amount = o.total_amount -ℤ released_amount;
}

-- What `updateOrderReleasedAmount` stores, where the amount was loaded and is a text.
abbrev pub credited : ℤ → Order → Option Order
credited amount o = elim (appended_amount o.released_amount amount) [
  | none ↦ none
  | some n ↦ some (with_released o n)
]
