-- ===== src/Status/Laws.antt =====
-- What the validator's checks have to do with one another, and sequences of accepted transitions.
use market_x_backend.Common.{
  ℕ, ◌+◌, ◌≤◌, ◌<◌, false, true, ◌≡◌, ◌↔◌, List, [], ◌∷◌, length, List-cases, inl, inr, arith,
  ==_refl,
}
use market_x_backend.Common.Outcome.{ok, World}
use market_x_backend.Status.{Enum, StatusTransitionValidator, is_valid, validate, is_terminal_state}

module _ {T : Type 0} ⦃e : Enum T⦄ (v : StatusTransitionValidator T) where
  -- Each status of the list may follow the one before it; the first follows `s`.
  abbrev pub Accepts : T → List T → Type 0
  Accepts s [] = Unit
  Accepts s (t ∷ ts) = (is_valid v s t ≡ true) × Accepts t ts

  -- `validate` lets exactly the transitions through that `isValid` reports, and changes nothing.
  pub validate-is_valid :
      {S E : Type 0} (s t : T) (w : World S E)
      → (validate v s t w ≡ (ok tt, w)) ↔ (is_valid v s t ≡ true)
  unfolding is_valid validate
  validate-is_valid s t w = ground arith

  -- A status is terminal exactly when no status may follow it.
  pub terminal_iff : (s : T) → (is_terminal_state v s ≡ true) ↔ ((t : T) → is_valid v s t ≡ false)
  unfolding is_valid is_terminal_state
  terminal_iff s = elim (List-cases (v.valid_transitions s)) [
    | inl none_allowed ↦ (λ _ t. rw none_allowed, λ _. rw (none_allowed, is_terminal_state))
    | inr (t, rest, some_allowed) ↦
        (λ terminal. absurd (ground arith), λ h. absurd (ground (arith, h t, ==_refl (e.rank t))))
  ]

  -- Where every transition raises a bounded measure, few transitions can follow one another.
  pub length-Accepts :
      (measure : T → ℕ) (bound : ℕ)
      → ((s t : T) → is_valid v s t ≡ true → measure s < measure t)
      → ((s : T) → measure s ≤ bound)
      → (s : T) (ts : List T) → Accepts s ts
      → measure s + length ts ≤ bound
  length-Accepts measure bound rises below s [] h = omega (arith, below s)
  length-Accepts measure bound rises below s (t ∷ ts) h =
      omega (arith, rises s t h.0, length-Accepts measure bound rises below t ts h.1)
