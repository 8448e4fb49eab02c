-- ===== src/Status.antt =====
-- `StatusTransitionValidator` of src/common/validators/status-transition.validator.ts: a table of
-- the statuses that may follow each status, and the checks that the services make against it.
pub mod Laws
pub mod Tests
use market_x_backend.Common.{ℕ, String, Bool, false, true, not, ◌||◌, ◌≡◌, List, [], ◌∷◌, ◌==◌}
use market_x_backend.Common.Outcome.{bad_request, Action, throw_if}

-- The status enums are string enums: two statuses are equal when their numbers are.
pub record Enum (T : Type 0) : Type 0 where
  pub rank : T → ℕ
  pub rank_injective : (a b : T) → rank a ≡ rank b → a ≡ b

infix 50 ◌===◌
abbrev pub ◌===◌ : {T : Type 0} ⦃e : Enum T⦄ → T → T → Bool
◌===◌ ⦃e⦄ a b = e.rank a == e.rank b

-- `Array.prototype.includes`
abbrev pub includes : {T : Type 0} ⦃e : Enum T⦄ → List T → T → Bool
includes [] t = false
includes (x ∷ xs) t = x === t || includes xs t

pub record StatusTransitionValidator (T : Type 0) : Type 0 where
  pub valid_transitions : T → List T
  pub entity_name : String

module _ {T : Type 0} ⦃e : Enum T⦄ (v : StatusTransitionValidator T) where
  unfoldable pub is_valid : T → T → Bool
  is_valid current new = includes (v.valid_transitions current) new

  -- The constant part of the message stands for the whole.
  unfoldable pub validate : {S E : Type 0} → T → T → Action S E (Unit {0})
  validate current new =
      throw_if (not (includes (v.valid_transitions current) new))
        (bad_request "Invalid status transition")

  unfoldable pub get_allowed_transitions : T → List T
  get_allowed_transitions current = v.valid_transitions current

  unfoldable pub is_terminal_state : T → Bool
  is_terminal_state status = elim (v.valid_transitions status) [ [] ↦ true | x ∷ xs ↦ false ]
