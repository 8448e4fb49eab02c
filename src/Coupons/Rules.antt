-- ===== src/Coupons/Rules.antt =====
-- Which coupons are accepted, and on which items, against a description by conditions.
use market_x_backend.Common.{
  ℕ, ◌<◌, ◌≤◌, true, false, Option, none, some, List, [], ◌∷◌, ◌≡◌, ◌≢◌, ◌↔◌, ◌⊎◌, refl, arith, All,
  length, ==_iff, Option-cases, inl, inr, ◌==◌, ◌&&◌, subst,
}
use market_x_backend.Common.Int.{ℤ, pos, ◌≤ℤ◌, int_laws}
use market_x_backend.Common.Database.{Database}
use market_x_backend.Coupons.{
  Coupon, CouponRestriction, CouponStatus, is_active, is_valid_coupon, not_yet, over,
}
use market_x_backend.Coupons.Requests.{
  CouponRows, OrderItemForCouponDto, get_applicable_items, items_allowed, item_allowed, includes_id,
  includes_some, order_subtotal, minimum_of, below, has_any, calculate_subtotal,
}
use market_x_backend.Coupons.Service.{validate_coupon, get_user_coupon_usage_count}
use market_x_backend.Common.Counts.{sum}

-- The coupon can be used at the moment, by anyone.
pub Open : ℕ → Coupon → Type 0
Open now c =
    (c.status ≡ CouponStatus.active)
    × ((start : ℕ) → c.start_date ≡ some start → start ≤ now)
    × ((end : ℕ) → c.end_date ≡ some end → now ≤ end)
    × (0 < c.total_usage_limit → c.current_usage_count < c.total_usage_limit)

is_active_iff : (s : CouponStatus) → (is_active s ≡ true) ↔ (s ≡ CouponStatus.active)
is_active_iff s = ground arith

not_yet_iff :
    (now : ℕ) (d : Option ℕ)
    → (not_yet now d ≡ false) ↔ ((start : ℕ) → d ≡ some start → start ≤ now)
not_yet_iff now none = (λ _ start e. ground arith, λ _. refl)
not_yet_iff now (some s) = (λ h start e. ground arith, λ f. ground (arith, f s refl))

over_iff : (now : ℕ) (d : Option ℕ) → (over now d ≡ false) ↔ ((end : ℕ) → d ≡ some end → now ≤ end)
over_iff now none = (λ _ end e. ground arith, λ _. refl)
over_iff now (some s) = (λ h end e. ground arith, λ f. ground (arith, f s refl))

-- `isValid` is true of a coupon exactly when it is active, the moment is not before its start nor
-- after its end, and its total limit, if it has one, is above the count of its uses.
pub is_valid_coupon_iff : (now : ℕ) (c : Coupon) → (is_valid_coupon now c ≡ true) ↔ Open now c
unfolding is_valid_coupon Open
is_valid_coupon_iff now c =
    ground (arith, is_active_iff c.status, not_yet_iff now c.start_date, over_iff now c.end_date)

-- Some member of a list has the property.
pub Somewhere : {A : Type 0} → (A → Type 0) → List A → Type 0
Somewhere P [] = ⊥
Somewhere P (x ∷ xs) = P x ⊎ Somewhere P xs

-- A category, if there is one, is among some.
pub Among : Option ℕ → List ℕ → Type 0
Among none ids = ⊥
Among (some id) ids = Somewhere (λ i. i ≡ id) ids

-- What the restrictions say of one item: its product and its category are not excluded, and they are
-- among those that the coupon is for, if it is only for some.
pub Permits : CouponRestriction → OrderItemForCouponDto → Type 0
Permits r item =
    (¬ Somewhere (λ i. i ≡ item.product_id) r.excluded_product_ids)
    × (¬ Among item.category_id r.excluded_category_ids)
    × ((r.product_ids ≡ []) ⊎ Somewhere (λ i. i ≡ item.product_id) r.product_ids)
    × ((r.category_ids ≡ []) ⊎ Among item.category_id r.category_ids)

-- The restrictions of a coupon, if it has any, permit some of the items.
pub SomePermitted : Option CouponRestriction → List OrderItemForCouponDto → Type 0
SomePermitted none items = items ≢ []
SomePermitted (some r) items = Somewhere (Permits r) items

-- The subtotal that is given, unless it is none or zero, and else the sum of the items'.
pub Subtotal : Option ℤ → List OrderItemForCouponDto → ℤ → Type 0
Subtotal none items n = n ≡ sum (λ i. i.subtotal) items
Subtotal (some m) items n =
    ((m ≢ pos 0) × (n ≡ m)) ⊎ ((m ≡ pos 0) × (n ≡ sum (λ i. i.subtotal) items))

-- A minimum, if there is one, is reached.
pub ReachesAmount : ℤ → Option ℤ → Type 0
ReachesAmount n none = Unit
ReachesAmount n (some minimum) = (minimum ≡ pos 0) ⊎ (minimum ≤ℤ n)

pub Reaches : ℤ → Option CouponRestriction → Type 0
Reaches n none = Unit
Reaches n (some r) = ReachesAmount n r.minimum_order_amount

includes_id_iff :
    (id : ℕ) (ids : List ℕ) → (includes_id id ids ≡ true) ↔ Somewhere (λ i. i ≡ id) ids
unfolding Somewhere
includes_id_iff id [] = ground arith
includes_id_iff id (i ∷ ids) = ground (arith, includes_id_iff id ids, ==_iff i id)

includes_some_iff : (id : Option ℕ) (ids : List ℕ) → (includes_some id ids ≡ true) ↔ Among id ids
unfolding Among
includes_some_iff none ids = ground arith
includes_some_iff (some id) ids = includes_id_iff id ids

has_any_iff : (ids : List ℕ) → (has_any ids ≡ false) ↔ (ids ≡ [])
has_any_iff ids = ground arith

empty_includes : (id : ℕ) (ids : List ℕ) → includes_id id ids ≡ true → has_any ids ≡ true
empty_includes id ids h = ground arith

empty_includes_some :
    (id : Option ℕ) (ids : List ℕ) → includes_some id ids ≡ true → has_any ids ≡ true
empty_includes_some id ids h = ground arith

-- The test of one item decides whether the restrictions permit it.
pub item_allowed_iff :
    (r : CouponRestriction) (item : OrderItemForCouponDto)
    → (item_allowed r item ≡ true) ↔ Permits r item
unfolding Permits Somewhere
item_allowed_iff r item = ground (
  arith,
  includes_id_iff item.product_id r.excluded_product_ids,
  includes_some_iff item.category_id r.excluded_category_ids,
  includes_id_iff item.product_id r.product_ids,
  includes_some_iff item.category_id r.category_ids,
  empty_includes item.product_id r.excluded_product_ids,
  empty_includes_some item.category_id r.excluded_category_ids,
  has_any_iff r.product_ids,
  has_any_iff r.category_ids,
)

items_allowed_iff :
    (r : CouponRestriction) (items : List OrderItemForCouponDto)
    → (items_allowed r items ≢ []) ↔ Somewhere (Permits r) items
unfolding Somewhere
items_allowed_iff r [] = (λ h. h refl, λ h. absurd h)
items_allowed_iff r (item ∷ items) =
    ground (arith, item_allowed_iff r item, items_allowed_iff r items)

get_applicable_items_iff :
    (c : Coupon) (items : List OrderItemForCouponDto)
    → (get_applicable_items c items ≢ []) ↔ SomePermitted c.restrictions items
unfolding get_applicable_items SomePermitted
get_applicable_items_iff c items = elim (Option-cases c.restrictions) [
  | inl free ↦ rw free (λ h. h, λ h. h)
  | inr (r, has) ↦ rw has (items_allowed_iff r items)
]

order_subtotal-Subtotal :
    (subtotal : Option ℤ) (items : List OrderItemForCouponDto)
    → Subtotal subtotal items (order_subtotal subtotal items)
unfolding Subtotal order_subtotal calculate_subtotal
order_subtotal-Subtotal none items = refl
order_subtotal-Subtotal (some n) items = grind int_laws

below_amount_iff : (n : ℤ) (m : Option ℤ) → (below n m ≡ false) ↔ ReachesAmount n m
unfolding ReachesAmount
below_amount_iff n none = ground arith
below_amount_iff n (some m) = (λ h. grind int_laws, λ h. grind int_laws)

below_iff :
    (n : ℤ) (restrictions : Option CouponRestriction)
    → (below n (minimum_of restrictions) ≡ false) ↔ Reaches n restrictions
unfolding Reaches
below_iff n none = ground arith
below_iff n (some r) = below_amount_iff n r.minimum_order_amount

-- The user may use the coupon for the items: it is open, the user's recorded uses of it are below its
-- limit for a user, if it has one, the subtotal reaches the minimum, if there is one, and some item
-- is permitted.
pub Accepts :
    (db : Database)
    → ℕ
    → Coupon
    → ℕ
    → List OrderItemForCouponDto
    → Option ℤ
    → CouponRows db
    → Type 0
Accepts db now c user_id items subtotal r =
    Open now c
    × (0 < c.per_user_limit
        → length (db.find (λ u. u.coupon_id == c.id && u.user_id == user_id) r.usages)
          < c.per_user_limit)
    × ((n : ℤ) × Subtotal subtotal items n × Reaches n c.restrictions)
    × SomePermitted c.restrictions items

Subtotal-unique :
    (subtotal : Option ℤ) (items : List OrderItemForCouponDto) (n m : ℤ)
    → Subtotal subtotal items n
    → Subtotal subtotal items m
    → n ≡ m
unfolding Subtotal
Subtotal-unique none items n m p q = cc (p, q)
Subtotal-unique (some k) items n m p q = ground (arith, p, q)

Reaches-iff :
    (subtotal : Option ℤ) (items : List OrderItemForCouponDto)
    → (restrictions : Option CouponRestriction)
    → (below (order_subtotal subtotal items) (minimum_of restrictions) ≡ false)
      ↔ ((n : ℤ) × Subtotal subtotal items n × Reaches n restrictions)
Reaches-iff subtotal items restrictions =
    let n = order_subtotal subtotal items in
    let is = order_subtotal-Subtotal subtotal items in
    (
      λ h. (n, is, (below_iff n restrictions).0 h),
      λ h.
          let (m, other, reached) = h in
          (below_iff n restrictions).1 (
            subst (λ k. Reaches k restrictions) (Subtotal-unique subtotal items m n other is)
              reached),
    )

length_zero : {A : Type 0} (xs : List A) → (length xs ≡ 0) ↔ (xs ≡ [])
length_zero xs = ground arith

validate_coupon_checks :
    (db : Database) (now : ℕ) (c : Coupon) (user_id : ℕ) (items : List OrderItemForCouponDto)
    → (subtotal : Option ℤ) (r : CouponRows db)
    → ((validate_coupon db now c user_id items subtotal r).valid ≡ true) ↔ (
        (is_valid_coupon now c ≡ true)
        × (0 < c.per_user_limit
            → length (db.find (λ u. u.coupon_id == c.id && u.user_id == user_id) r.usages)
              < c.per_user_limit)
        × (below (order_subtotal subtotal items) (minimum_of c.restrictions) ≡ false)
        × (get_applicable_items c items ≢ []))
unfolding validate_coupon is_valid_coupon get_user_coupon_usage_count
validate_coupon_checks db now c user_id items subtotal r =
    ground (arith, length_zero (get_applicable_items c items))

-- `validateCoupon` accepts exactly where the coupon is open at the moment, the user's uses of it are
-- below its limit for a user, if it has one, the subtotal reaches the minimum, and the restrictions
-- permit some item.
pub validate_coupon_iff :
    (db : Database) (now : ℕ) (c : Coupon) (user_id : ℕ) (items : List OrderItemForCouponDto)
    → (subtotal : Option ℤ) (r : CouponRows db)
    → ((validate_coupon db now c user_id items subtotal r).valid ≡ true)
      ↔ Accepts db now c user_id items subtotal r
unfolding Accepts
validate_coupon_iff db now c user_id items subtotal r =
    let checks = validate_coupon_checks db now c user_id items subtotal r in
    let opens = is_valid_coupon_iff now c in
    let reached = Reaches-iff subtotal items c.restrictions in
    let permitted = get_applicable_items_iff c items in
    (
      λ accepted.
          let (valid, unused, minimum, some_item) = checks.0 accepted in
          (opens.0 valid, unused, reached.0 minimum, permitted.0 some_item),
      λ accepts.
          let (usable, unused, minimum, some_item) = accepts in
          checks.1 (opens.1 usable, unused, reached.1 minimum, permitted.1 some_item),
    )

items_allowed-All :
    (r : CouponRestriction) (items : List OrderItemForCouponDto)
    → All (Permits r) (items_allowed r items)
      × (All (Permits r) items → items_allowed r items ≡ items)
items_allowed-All r [] = (tt, λ _. refl)
items_allowed-All r (item ∷ items) =
    ground (arith, item_allowed_iff r item, items_allowed-All r items)

-- The applicable items of a coupon with restrictions meet them, and where all items meet them all
-- are applicable.
pub get_applicable_items-All :
    (c : Coupon) (r : CouponRestriction) (items : List OrderItemForCouponDto)
    → c.restrictions ≡ some r
    → All (Permits r) (get_applicable_items c items)
      × (All (Permits r) items → get_applicable_items c items ≡ items)
unfolding get_applicable_items
get_applicable_items-All c r items has = ground (arith, items_allowed-All r items)
