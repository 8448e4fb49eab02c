-- ===== src/Common/Counts.antt =====
-- How many rows a condition finds, and what they sum up to, before and after a row is saved.
use mathlib.Core.Path.{◌≡◌, refl, ap, ◌∙◌}
use mathlib.Core.Logic.{∥∥₁_elim}
use mathlib.Core.Bool.{Bool}
use mathlib.Core.Option.{none, some}
use mathlib.Core.List.{List, [], ◌∷◌, Perm, Permᴰ}
use native.Mathlib.Nat.{ℕ_set}
use native.Mathlib.Omega.{arith}
use Prim.Native.Nat.{ℕ, suc, ◌+◌}
use market_x_backend.Common.Tests.{if◌then◌else◌}
use market_x_backend.Common.Lists.{length}
use market_x_backend.Common.Int.{ℤ, pos, ◌+ℤ◌, int_laws}
use market_x_backend.Common.Database.{Database}

-- `xs.reduce((sum, x) => sum + f(x), 0)`
abbrev pub sum : {A : Type 0} → (A → ℤ) → List A → ℤ
sum f [] = pos 0
sum f (x ∷ xs) = f x +ℤ sum f xs

+ℤ_swap : (a b c : ℤ) → a +ℤ (b +ℤ c) ≡ b +ℤ (a +ℤ c)
+ℤ_swap a b c = omega int_laws

ℤ_set : IsSet ℤ
ℤ_set = hlevel

module _ {A : Type 0} where
  length-Permᴰ : {xs ys : List A} → Permᴰ xs ys → length xs ≡ length ys
  length-Permᴰ Permᴰ.nil = refl
  length-Permᴰ (Permᴰ.cons e d) = ap suc (length-Permᴰ d)
  length-Permᴰ (Permᴰ.swap e f) = refl
  length-Permᴰ (Permᴰ.trans d e) = length-Permᴰ d ∙ length-Permᴰ e

  sum-Permᴰ : (f : A → ℤ) {xs ys : List A} → Permᴰ xs ys → sum f xs ≡ sum f ys
  sum-Permᴰ f Permᴰ.nil = refl
  sum-Permᴰ f (Permᴰ.cons e d) = cc (e, sum-Permᴰ f d)
  sum-Permᴰ f (Permᴰ.swap {a} {b} {a'} {b'} {l} e g) = cc (e, g, +ℤ_swap (f a) (f b) (sum f l))
  sum-Permᴰ f (Permᴰ.trans d e) = sum-Permᴰ f d ∙ sum-Permᴰ f e

  length-Perm : {xs ys : List A} → Perm xs ys → length xs ≡ length ys
  length-Perm {xs} {ys} h = ∥∥₁_elim h (ℕ_set (length xs) (length ys)) length-Permᴰ

  sum-Perm : (f : A → ℤ) {xs ys : List A} → Perm xs ys → sum f xs ≡ sum f ys
  sum-Perm f {xs} {ys} h = ∥∥₁_elim h (ℤ_set (sum f xs) (sum f ys)) (sum-Permᴰ f)

module _ (db : Database) {E : Type 0} {key : E → ℕ} (p : E → Bool) (e : E)
    (t : db.Table E key) where
  -- A new row adds itself, where it meets the condition.
  module _ (new : db.find_one (key e) t ≡ none) where
    pub length-find-new :
        length (db.find p (db.save e t)) ≡ length (db.find p t) + (if p e then 1 else 0)
    length-find-new = ground (arith, length-Perm (db.find-save p e t))

    pub sum-find-new :
        (f : E → ℤ)
        → sum f (db.find p (db.save e t)) ≡ sum f (db.find p t) +ℤ (if p e then f e else pos 0)
    sum-find-new f = grind (int_laws, sum-Perm f (db.find-save p e t))

  -- A row that replaces another takes its place.
  module _ (old : E) (found : db.find_one (key e) t ≡ some old) where
    pub length-find-old :
        length (db.find p (db.save e t)) + (if p old then 1 else 0)
        ≡ length (db.find p t) + (if p e then 1 else 0)
    length-find-old = ground (arith, length-Perm (db.find-save p e t))

    pub sum-find-old :
        (f : E → ℤ)
        → sum f (db.find p (db.save e t)) +ℤ (if p old then f old else pos 0)
          ≡ sum f (db.find p t) +ℤ (if p e then f e else pos 0)
    sum-find-old f = grind (int_laws, sum-Perm f (db.find-save p e t))
