-- ===== src/Common/Outcome.antt =====
-- Handlers of the services: a call reads and writes the rows of the database and may emit events,
-- and it returns a value or throws. What was written or emitted before a throw is there after it.
use Prim.Native.String.{String}
use mathlib.Core.Path.{◌≡◌, refl}
use mathlib.Core.Bool.{Bool}
use mathlib.Core.Logic.{◌⊎◌, inl, inr}
use mathlib.Core.Option.{Option, none, some}
use mathlib.Core.List.{List, [], ◌∷◌, ◌++◌}
use native.Mathlib.Omega.{arith}
use market_x_backend.Common.Tests.{if◌then◌else◌}
use market_x_backend.Common.Lists.{All}

-- The exceptions of `@nestjs/common` that the services throw; the text is the message's constant
-- part. `network` is whatever the Stellar SDK throws, and `type_error` an error of the language or of
-- a column that refuses a value.
pub data Exception : Type 0 where
  not_found bad_request forbidden conflict network type_error : String → Exception

pub data Outcome (A : Type 0) : Type 0 where
  ok : A → Outcome A
  err : Exception → Outcome A

-- The rows of the database, and what has been emitted to the event bus (or sent over the network)
-- so far, the oldest first. Only the rows take part in a transaction.
pub record World (S E : Type 0) : Type 0 where
  pub rows : S
  pub emitted : List E

abbrev pub Action : Type 0 → Type 0 → Type 0 → Type 0
Action S E A = World S E → Outcome A × World S E

module _ {S E A : Type 0} where
  abbrev pub pure : A → Action S E A
  pure a w = (ok a, w)

  abbrev pub throw : Exception → Action S E A
  throw e w = (err e, w)

  abbrev pub gets : (S → A) → Action S E A
  gets f w = (ok (f w.rows), w)

  abbrev pub or_throw : Option A → Exception → Action S E A
  or_throw none e = throw e
  or_throw (some a) e = pure a

-- A call returns or throws.
pub Outcome-cases :
    {A W : Type 0} (r : Outcome A × W)
    → ((a : A) × (w : W) × (r ≡ (ok a, w))) ⊎ ((e : Exception) × (w : W) × (r ≡ (err e, w)))
Outcome-cases (ok a, w) = inl (a, w, refl)
Outcome-cases (err e, w) = inr (e, w, refl)

-- `try { m } catch (error) { handler(error) }`
module _ {S E A : Type 0} where
  abbrev pub handle : (Exception → Action S E A) → Outcome A × World S E → Outcome A × World S E
  handle handler (ok a, w) = (ok a, w)
  handle handler (err e, w) = handler e w

  abbrev pub try : Action S E A → (Exception → Action S E A) → Action S E A
  try m handler w = handle handler (m w)

-- What follows a call runs if the call returned.
abbrev pub resume :
    {S E A B : Type 0} → (A → Action S E B) → Outcome A × World S E → Outcome B × World S E
resume f (ok a, w) = f a w
resume f (err e, w) = (err e, w)

pub resume-keeps :
    {S E A B : Type 0} (P : World S E → Type 0) (f : A → Action S E B)
    → (r : Outcome A × World S E) → P r.1
    → ((a : A) (w : World S E) → P w → P (f a w).1)
    → P (resume f r).1
resume-keeps P f (ok a, w) h k = k a w h
resume-keeps P f (err e, w) h k = h

infixl 5 ◌>>=◌ ◌>>◌
abbrev pub ◌>>=◌ : {S E A B : Type 0} → Action S E A → (A → Action S E B) → Action S E B
◌>>=◌ m f w = resume f (m w)

abbrev pub ◌>>◌ : {S E A B : Type 0} → Action S E A → Action S E B → Action S E B
m >> k = m >>= λ _. k

module _ {S E : Type 0} where
  abbrev pub throw_if : Bool → Exception → Action S E (Unit {0})
  throw_if c e w = (if c then err e else ok tt, w)

  abbrev pub modify : (S → S) → Action S E (Unit {0})
  modify f w = (ok tt, record w { rows = f w.rows })

  abbrev pub emit : E → Action S E (Unit {0})
  emit e w = (ok tt, record w { emitted = w.emitted ++ e ∷ [] })

  abbrev pub when : Bool → Action S E (Unit {0}) → Action S E (Unit {0})
  when c m w = if c then m w else (ok tt, w)

-- A call that returns has been through the calls that it is made of.
module _ {S E A B : Type 0} where
  resume-eq-ok :
      (f : A → Action S E B) (r : Outcome A × World S E) (b : B) (w' : World S E)
      → resume f r ≡ (ok b, w')
      → (a : A) × (middle : World S E) × (r ≡ (ok a, middle)) × (f a middle ≡ (ok b, w'))
  resume-eq-ok f (ok a, middle) b w' h = (a, middle, refl, h)
  resume-eq-ok f (err e, middle) b w' h = absurd (ground arith)

  pub >>=-eq-ok :
      (m : Action S E A) (f : A → Action S E B) (w : World S E) (b : B) (w' : World S E)
      → (m >>= f) w ≡ (ok b, w')
      → (a : A) × (middle : World S E) × (m w ≡ (ok a, middle)) × (f a middle ≡ (ok b, w'))
  >>=-eq-ok m f w b w' h = resume-eq-ok f (m w) b w' h

-- `for (const x of xs) { … }`, where the body may throw.
unfoldable pub for_each :
    {S E A : Type 0} → (A → Action S E (Unit {0})) → List A → Action S E (Unit {0})
for_each body [] w = (ok tt, w)
for_each body (x ∷ xs) w = (body x >> for_each body xs) w

-- What a call and what follows it keep, they keep together, whether or not they throw.
pub >>=-keeps :
    {S E A B : Type 0} (P : World S E → Type 0) (m : Action S E A) (f : A → Action S E B)
    → (w : World S E) → P (m w).1
    → ((a : A) (w' : World S E) → P w' → P (f a w').1)
    → P ((m >>= f) w).1
>>=-keeps P m f w = resume-keeps P f (m w)

pub handle-keeps :
    {S E A : Type 0} (P : World S E → Type 0) (handler : Exception → Action S E A)
    → (r : Outcome A × World S E) → P r.1
    → ((e : Exception) (w : World S E) → P w → P (handler e w).1)
    → P (handle handler r).1
handle-keeps P handler (ok a, w) h k = h
handle-keeps P handler (err e, w) h k = k e w h

pub or_throw-keeps :
    {S E A : Type 0} (P : World S E → Type 0) (o : Option A) (e : Exception) (w : World S E)
    → P w
    → P (or_throw o e w).1
or_throw-keeps P none e w h = h
or_throw-keeps P (some a) e w h = h

pub for_each-keeps :
    {S E A : Type 0} (P : World S E → Type 0) (body : A → Action S E (Unit {0})) (xs : List A)
    → All (λ x. (w : World S E) → P w → P (body x w).1) xs
    → (w : World S E) → P w
    → P (for_each body xs w).1
unfolding for_each
for_each-keeps P body [] keep w h = h
for_each-keeps P body (x ∷ xs) keep w h =
    >>=-keeps P (body x) (λ _. for_each body xs) w (keep.0 w h)
      (λ _ w' h'. for_each-keeps P body xs keep.1 w' h')

-- How a transaction ends: after a throw the rows are what they were before it.
module _ {S E A : Type 0} where
  abbrev pub settle : S → Outcome A × World S E → Outcome A × World S E
  settle before (ok a, w) = (ok a, w)
  settle before (err e, w) = (err e, record w { rows = before })

  pub settle-eq-ok :
      (before : S) (r : Outcome A × World S E) {a : A} {w' : World S E}
      → settle before r ≡ (ok a, w')
      → r ≡ (ok a, w')
  settle-eq-ok before (ok a, w) h = h
  settle-eq-ok before (err e, w) h = absurd (ground arith)
