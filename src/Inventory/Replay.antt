-- ===== src/Inventory/Replay.antt =====
-- The items of an order, one after the other, and the change of a listing that they make together.
use mathlib.Core.Option
use market_x_backend.Common.{
  ℕ, Option, none, some, List, [], ◌∷◌, ◌≡◌, refl, ◌∙◌, ap, ap₂, arith, Bool-cases, inl, inr,
  if◌then◌else◌, ◌==◌,
}
use market_x_backend.Common.Int.{ℤ, pos, ◌+ℤ◌, ◌-ℤ◌, ◌≤ℤ◌, int_laws}
use market_x_backend.Common.Outcome.{ok, World, settle, settle-eq-ok}
use market_x_backend.Common.Database.{Database}
use market_x_backend.Entities.{Listing, OrderItem}
use market_x_backend.Events.{Event}
use market_x_backend.Rows.{Rows, Call}
use market_x_backend.Inventory.{restock, clamp}
use market_x_backend.Inventory.Loops.{replay}
use market_x_backend.Inventory.Rounds.{reserve_column, confirm_column, cancel_column}
use market_x_backend.Inventory.Stocked.{ListingStocked, Ordered}

-- How much of the listing with key `j` the items ask for together.
abbrev pub ordered : ℕ → List OrderItem → ℤ
ordered j [] = pos 0
ordered j (item ∷ items) =
    if item.product_id == j then item.quantity +ℤ ordered j items else ordered j items

pub ordered_nonneg : (j : ℕ) (items : List OrderItem) → Ordered items → pos 0 ≤ℤ ordered j items
ordered_nonneg j [] h = omega arith
ordered_nonneg j (item ∷ items) h = grind (int_laws, ordered_nonneg j items h.1)

-- The items of an order, one after the other, do what one item for all of them would do, where
-- two changes of a listing can be made as one.
pub replay_at_once :
    {R : Type 0} (P : R → Type 0) (g : ℤ → R → R)
    → ((l : R) → P l → l ≡ g (pos 0) l)
    → ((n : ℤ) (l : R) → pos 0 ≤ℤ n → P l → P (g n l))
    → ((n m : ℤ) (l : R) → pos 0 ≤ℤ n → pos 0 ≤ℤ m → g m (g n l) ≡ g (n +ℤ m) l)
    → (j : ℕ) (items : List OrderItem) (l : R) → Ordered items
    → P l
    → replay g j items l ≡ g (ordered j items) l
replay_at_once P g nothing keeps twice j [] l p h = nothing l h
replay_at_once P g nothing keeps twice j (item ∷ items) l p h =
    elim (Bool-cases (item.product_id == j)) [
      | inl same ↦ rw same (
          replay_at_once P g nothing keeps twice j items (g item.quantity l) p.1
            (keeps item.quantity l p.0 h)
          ∙ twice item.quantity (ordered j items) l p.0 (ordered_nonneg j items p.1))
      | inr other ↦ rw other (replay_at_once P g nothing keeps twice j items l p.1 h)
    ]

pub clamp_twice :
    (r n m : ℤ) → pos 0 ≤ℤ n → pos 0 ≤ℤ m → clamp (clamp (r -ℤ n) -ℤ m) ≡ clamp (r -ℤ (n +ℤ m))
clamp_twice r n m hn hm = grind int_laws

pub sub_twice : (q n m : ℤ) → q -ℤ n -ℤ m ≡ q -ℤ (n +ℤ m)
sub_twice q n m = omega int_laws

pub replay-reserve :
    (j : ℕ) (items : List OrderItem) (l : Listing)
    → Ordered items
    → ListingStocked l
    → replay reserve_column j items l ≡ reserve_column (ordered j items) l
replay-reserve =
    replay_at_once ListingStocked reserve_column (λ l h. grind int_laws)
      (λ n l hn h. grind int_laws) (λ n m l hn hm. grind int_laws)

pub replay-cancel :
    (j : ℕ) (items : List OrderItem) (l : Listing)
    → Ordered items
    → ListingStocked l
    → replay cancel_column j items l ≡ cancel_column (ordered j items) l
replay-cancel =
    replay_at_once ListingStocked cancel_column (λ l h. grind int_laws) (λ n l hn h. grind int_laws)
      (λ n m l hn hm. ap (restock l l.quantity) (clamp_twice l.reserved n m hn hm))

pub replay-confirm :
    (j : ℕ) (items : List OrderItem) (l : Listing)
    → Ordered items
    → ListingStocked l
    → replay confirm_column j items l ≡ confirm_column (ordered j items) l
replay-confirm =
    replay_at_once ListingStocked confirm_column (λ l h. grind int_laws)
      (λ n l hn h. grind int_laws)
      (λ n m l hn hm. ap₂ (restock l) (sub_twice l.quantity n m) (clamp_twice l.reserved n m hn hm))

pub cancel_reserve :
    (n : ℤ) (l : Listing) → ListingStocked l → cancel_column n (reserve_column n l) ≡ l
cancel_reserve n l h = grind int_laws

pub confirm_reserve :
    (n : ℤ) (l : Listing)
    → ListingStocked l
    → confirm_column n (reserve_column n l) ≡ restock l (l.quantity -ℤ n) l.reserved
confirm_reserve n l h = grind int_laws

-- Two changes that agree on the rows with a property agree on what is found, if it has it.
pub map-replay :
    {R : Type 0} (P : R → Type 0) (f g : R → R) (o : Option R)
    → ((l : R) → P l → f l ≡ g l)
    → ((l : R) → o ≡ some l → P l)
    → Option.map f o ≡ Option.map g o
map-replay P f g none same h = refl
map-replay P f g (some l) same h = ap some (same l (h l refl))

pub map-after :
    {R : Type 0} (P : R → Type 0) (f g k : R → R) (o : Option R)
    → ((l : R) → P l → f (g l) ≡ k l)
    → ((l : R) → o ≡ some l → P l)
    → Option.map f (Option.map g o) ≡ Option.map k o
map-after P f g k none same h = refl
map-after P f g k (some l) same h = ap some (same l (h l refl))

pub map-same : {R : Type 0} (o : Option R) → Option.map (λ l. l) o ≡ o
map-same none = refl
map-same (some l) = refl

pub transaction-returns :
    (db : Database) {A : Type 0} (m : Call db A) (w : World (Rows db) Event) (a : A)
    → (w' : World (Rows db) Event) → m w ≡ (ok a, w')
    → db.transaction m w ≡ (ok a, w')
transaction-returns db m w a w' e = db.transaction_settles m w ∙ ap (settle w.rows) e

-- A transaction that returns has done what its work does.
pub transaction-eq-ok :
    (db : Database) {A : Type 0} (m : Call db A) (w : World (Rows db) Event) (a : A)
    → (w' : World (Rows db) Event) → db.transaction m w ≡ (ok a, w')
    → m w ≡ (ok a, w')
transaction-eq-ok db m w a w' e = settle-eq-ok w.rows (m w) (rw db.transaction_settles at e)
