-- ===== src/Common/Memory.antt =====
-- A database in memory: tables are lists of rows. It shows that what is assumed of a database can
-- be met, and the tests and examples run on it.
use Prim.Native.Nat.{max}
use market_x_backend.Common.{
  ℕ, ◌+◌, ◌≤◌, Bool, true, Option, none, some, List, [], ◌∷◌, ◌++◌, ◌≡◌, refl, arith, if◌then◌else◌,
  ◌==◌, All,
}
use mathlib.Core.List.Perm.{swap, trans, cons, symm}
use mathlib.Core.List.Perm
use mathlib.Core.List.{Perm, perm_middle}
use market_x_backend.Common.Outcome.{settle}
use market_x_backend.Common.Database.{Database, matching}

module _ {E : Type 0} (key : E → ℕ) where
  abbrev pub find_row : ℕ → List E → Option E
  find_row k [] = none
  find_row k (e ∷ t) = if key e == k then some e else find_row k t

  abbrev pub save_row : E → List E → List E
  save_row e [] = e ∷ []
  save_row e (f ∷ t) = if key f == key e then e ∷ t else f ∷ save_row e t

  abbrev pub fresh_key : List E → ℕ
  fresh_key [] = 0
  fresh_key (e ∷ t) = max (key e + 1) (fresh_key t)

  pub find_row-key : (k : ℕ) (t : List E) (e : E) → find_row k t ≡ some e → key e ≡ k
  find_row-key k [] e h = absurd (ground arith)
  find_row-key k (f ∷ t) e h = ground (arith, find_row-key k t e)

  pub find_row-save :
      (k : ℕ) (e : E) (t : List E)
      → find_row k (save_row e t) ≡ (if key e == k then some e else find_row k t)
  find_row-save k e [] = refl
  find_row-save k e (f ∷ t) = ground (arith, find_row-save k e t)

  find_row-above : (k : ℕ) (t : List E) → fresh_key t ≤ k → find_row k t ≡ none
  find_row-above k [] h = refl
  find_row-above k (f ∷ t) h = ground (arith, find_row-above k t)

abbrev pub find_rows : {E : Type 0} → (E → Bool) → List E → List E
find_rows p [] = []
find_rows p (e ∷ t) = if p e then e ∷ find_rows p t else find_rows p t

pub find_rows-hold :
    {E : Type 0} (p : E → Bool) (t : List E) → All (λ e. p e ≡ true) (find_rows p t)
find_rows-hold p [] = tt
find_rows-hold p (e ∷ t) = ground (arith, find_rows-hold p t)

pub fresh_key_unused :
    {E : Type 0} (key : E → ℕ) (t : List E) → find_row key (fresh_key key t) t ≡ none
fresh_key_unused key t = find_row-above key (fresh_key key t) t (omega arith)

-- An entry in the middle may as well be in front.
move :
    {E : Type 0} (m n xs ys : List E) (f : E)
    → Perm (m ++ xs) (n ++ ys)
    → Perm (m ++ f ∷ xs) (n ++ f ∷ ys)
move m n xs ys f h = trans (perm_middle m xs) (trans (cons f h) (symm (perm_middle n ys)))

module _ {E : Type 0} (key : E → ℕ) (p : E → Bool) where
  replaced :
      (e f : E) (t : List E)
      → Perm
          (matching p (some f) ++ find_rows p (e ∷ t))
          (matching p (some e) ++ find_rows p (f ∷ t))
  replaced e f t = ground (
    arith,
    Perm.refl (find_rows p t),
    Perm.refl (f ∷ find_rows p t),
    Perm.refl (e ∷ find_rows p t),
    swap e f (find_rows p t),
  )

  pub find_rows-save :
      (e : E) (t : List E)
      → Perm
          (matching p (find_row key (key e) t) ++ find_rows p (save_row key e t))
          (matching p (some e) ++ find_rows p t)
  find_rows-save e [] = ground (arith, Perm.nil {A = E}, Perm.refl (e ∷ []))
  find_rows-save e (f ∷ t) = ground (
    arith,
    replaced e f t,
    find_rows-save e t,
    move (matching p (find_row key (key e) t)) (matching p (some e))
        (find_rows p (save_row key e t)) (find_rows p t) f,
  )

abbrev pub memory : Database
memory = record {
  Table = λ E key. List E;
  find_one = λ {E} {key} k t. find_row key k t;
  find = λ {E} {key} p t. find_rows p t;
  save = λ {E} {key} e t. save_row key e t;
  next_key = λ {E} {key} t. fresh_key key t;
  transaction = λ {S} {E} {A} m w. settle w.rows (m w);
  find_one-key = λ {E} {key}. find_row-key key;
  find_one-save = λ {E} {key}. find_row-save key;
  find-holds = λ {E} {key} p t. find_rows-hold p t;
  find-save = λ {E} {key} p e t. find_rows-save key p e t;
  next_key_fresh = λ {E} {key} t. fresh_key_unused key t;
  transaction_settles = λ {S} {E} {A} m w. refl;
}
