-- ===== src/Common/Database.antt =====
-- What the services use of TypeORM, which is not part of the repository: tables of rows that are
-- found by primary key or by a condition, saved, and created with a fresh key; and transactions.
use Prim.Native.Nat.{ℕ}
use mathlib.Core.Path.{◌≡◌}
use mathlib.Core.Bool.{Bool, true}
use mathlib.Core.Option.{Option, none, some}
use mathlib.Core.List.{List, [], ◌∷◌, ◌++◌}
use mathlib.Core.List.{Perm}
use market_x_backend.Common.Tests.{◌==◌, if◌then◌else◌}
use market_x_backend.Common.Lists.{All}
use market_x_backend.Common.Outcome.{World, Action, settle}

-- The row, if there is one and it meets the condition.
abbrev pub matching : {E : Type 0} → (E → Bool) → Option E → List E
matching p none = []
matching p (some e) = if p e then e ∷ [] else []

pub record Database : Type 1 where
  -- Rows of type `E` with the primary key that the function reads off a row.
  pub Table : (E : Type 0) → (E → ℕ) → Type 0
  pub find_one : {E : Type 0} {key : E → ℕ} → ℕ → Table E key → Option E
  pub find : {E : Type 0} {key : E → ℕ} → (E → Bool) → Table E key → List E
  pub save : {E : Type 0} {key : E → ℕ} → E → Table E key → Table E key
  -- The key that `save` generates for the next row that has none.
  pub next_key : {E : Type 0} {key : E → ℕ} → Table E key → ℕ
  pub transaction : {S E A : Type 0} → Action S E A → Action S E A
  -- A row that is found by a key has that key.
  pub find_one-key :
      {E : Type 0} {key : E → ℕ} (k : ℕ) (t : Table E key) (e : E)
      → find_one k t ≡ some e
      → key e ≡ k
  -- A saved row is found under its key, and no other row changes.
  pub find_one-save :
      {E : Type 0} {key : E → ℕ} (k : ℕ) (e : E) (t : Table E key)
      → find_one k (save e t) ≡ (if key e == k then some e else find_one k t)
  -- The rows that a condition finds meet it.
  pub find-holds :
      {E : Type 0} {key : E → ℕ} (p : E → Bool) (t : Table E key) → All (λ e. p e ≡ true) (find p t)
  -- What a condition finds after a row is saved is what it found before, in some order, less the row
  -- that the saved one replaces and with the saved one, as far as they meet the condition.
  pub find-save :
      {E : Type 0} {key : E → ℕ} (p : E → Bool) (e : E) (t : Table E key)
      → Perm
          (matching p (find_one (key e) t) ++ find p (save e t))
          (matching p (some e) ++ find p t)
  -- A generated key is not in use.
  pub next_key_fresh : {E : Type 0} {key : E → ℕ} (t : Table E key) → find_one (next_key t) t ≡ none
  -- A transaction commits, or rolls the rows back and throws on.
  pub transaction_settles :
      {S E A : Type 0} (m : Action S E A) (w : World S E) → transaction m w ≡ settle w.rows (m w)
