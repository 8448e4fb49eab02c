-- ===== src/Common/Runs.antt =====
-- Any number of steps of a relation on states, and what every step keeps.
module _ {S : Type 0} where
  pub data Steps (R : S → S → Type 0) : S → S → Type 0 where
    stop : {s : S} → Steps R s s
    step : {s t u : S} → R s t → Steps R t u → Steps R s u

  pub steps-keep :
      {R : S → S → Type 0} (P : S → Type 0)
      → ((s t : S) → R s t → P s → P t)
      → {s t : S} → Steps R s t
      → P s
      → P t
  steps-keep P keep Steps.stop h = h
  steps-keep P keep (Steps.step r rest) h = steps-keep P keep rest (keep _ _ r h)
