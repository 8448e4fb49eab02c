-- ===== src/Lib.antt =====
-- The order, stock, escrow and promotion core of the MarketX backend (TypeScript, NestJS with
-- TypeORM), and what makes it correct.
--
-- The program. Services keep their state in the rows of one database. The inventory service
-- changes the stock columns of listings, variants and products. The orders service reserves the
-- stock of a new order and moves the order through its statuses. The escrow service holds the
-- money of an order in a Stellar account and pays it out. The dispute service freezes an escrow
-- and lets an administrator divide it. A daily job releases escrows whose orders were delivered
-- long ago. Milestones plan the payment of an order in parts. A buyer asks to return a delivered
-- order, and a reviewer decides. Coupons take a discount off a cart; completed orders earn reward
-- points, which buy coupons or a discount. Subscriptions set the limits of what their users may
-- list, and an hourly job renews or ends those that have run out. A shipment is created for a
-- paid order and makes the order shipped, and delivered at its end. Notifications that fail are
-- sent again after growing delays.
--
-- Which file is about what (paths from the repository's root):
--   Common        helpers: the integers, lists, tests; Common.Outcome has the calls, which read
--                 and write the rows, emit events and return or throw; Common.Database the
--                 database; Common.Counts how many rows a condition finds and what they sum up
--                 to; Common.Runs any number of steps; Common.Values the numbers and texts of the
--                 language, where the difference matters
--   Entities      the rows: src/entities/order.entity.ts, src/entities/product.entity.ts,
--                 src/listing/entities/*.ts, src/inventory/inventory-history.entity.ts,
--                 src/escrowes/entities/escrow.entity.ts, src/disputes/dispute.entity.ts,
--                 src/disputes/evidence.entity.ts
--   Events        src/common/events.ts, as far as the modelled services emit them, and the
--                 payments
--   Rows          the tables together; Samples: rows that the examples use
--   Status        src/common/validators/status-transition.validator.ts
--   Inventory     src/inventory/inventory.service.ts: Adjust has `adjustVariantInventory`,
--                 `syncListingAggregate`, `adjustInventory` and `bulkUpdateInventory`; OrderStock
--                 has `reserveForOrder`, `confirmOrder`, `cancelOrder` and
--                 `restoreInventoryFromRefund`, with the body of each loop as a definition of its
--                 own; ProductStock has `reserveInventory`, `releaseInventory` and `commitSale`.
--                 The proofs: Stocked and Invariant (the columns stay consistent), Loops, Rounds,
--                 Replay and Reservations (what an order does to each listing), ProductLaws,
--                 Guards
--   Pricing       src/products/services/pricing.service.ts: minor units, rounding, conversion and
--                 totals, on decimals that are parsed already. The proofs: Rounding, Conversion
--   Orders        src/orders/orders.service.ts: Lifecycle is the table of the statuses with the
--                 lives that it allows, Service the operations. The proofs: Stock, Creation,
--                 Cancellation, Updates
--   Escrow        src/escrowes/escrow.service.ts: Network is the Stellar server and the two
--                 methods that use it, Service the operations. The proofs: Branches, Payouts,
--                 Division, Totals, Repeats, Opening
--   Disputes      src/disputes/disputes.service.ts and src/disputes/state-machine: Service and
--                 StateMachine. The proofs: Final, Freeze, Resolution, Expiry
--   AutoRelease   src/scheduler/escrow-auto-release.task.ts. The proofs: Eligible
--   Coupons       src/coupons: the rows with the methods of the coupon entity; Requests has the
--                 requests and what coupons.service.ts computes of them, Service its operations.
--                 The proofs: Rules, Discounts, Responses, Usages
--   Milestones    src/milestones: the rows; Service is milestones.service.ts. The proofs: Guards,
--                 Plans, Related
--   Refunds       src/refunds: the rows and refunds.service.ts. The proofs: Requests, Reviews,
--                 Single
--   Rewards       src/rewards: the rows and rewards.service.ts. The proofs: Ledger, Redeeming,
--                 Checkout, Keeping
--   Subscriptions src/subscriptions: the tiers and the rows; Service is subscriptions.service.ts.
--                 The proofs: Tiers, Changes, Renewal
--   Shipping      src/shipping: the rows; Lifecycle is the table of the statuses, Service is
--                 shipping.service.ts. The proofs: Lifecycle, Creation, Delivery, Single
--   Retry         src/notifications/retry-strategy.service.ts. The proofs: Delays, Attempts
-- A method `fooBar` is the definition `foo_bar`. The examples of the results stand in the modules
-- named Tests.
--
-- How it is modelled. A handler is a function from the world (the rows, and what has been
-- emitted) to an outcome and the world after it. What a handler saved or sent before it threw
-- stays; a transaction puts the rows back when its work throws. An object that the source changes
-- in place and then saves is a new record that is saved. Keys, accounts and payment hashes are
-- numbers; money and stock are integers, money in the smallest unit of its column (an order's in
-- hundredths, a subscription's in thousandths), so that the rounding of floating-point numbers is
-- not modelled. The driver answers `decimal` columns and sums over a column as texts. Where the
-- source compares such a text by `!==` or adds to it, which appends, the model does so too: in
-- `adminReleaseFunds`, in the balance of the reward points, and in what milestones add to an
-- order. A coupon is loaded too, but its amounts are only compared and multiplied. A discount of
-- a coupon is in ten-thousandths of a cent, in which it is exact; a coupon's code is a list of
-- ASCII codes. Loops are structural over the list that the source has read, and no fuel is
-- needed. A time that a handler reads from the clock is an argument, read once per call.
--
-- What is a parameter. The database (TypeORM) is a record of operations and laws: what is saved
-- is found under its key and nothing else changes, what is found has the key that it was looked
-- for under, a filtered search returns rows for which the filter holds and finds, after a row is
-- saved, what it found before with the saved row in the place of the one it replaces, a generated
-- key is free, and a transaction keeps or undoes its work; Common.Memory fills the record with
-- association lists. The Stellar server answers to loading an account and to submitting a
-- transaction; every theorem about payments holds for whatever it answers. The random numbers of
-- the retries, the end of a billing cycle and the day of a delivery, which the language's dates
-- compute, and the counts of a user's listings, `parseInt` of a user's key, the text of a reward
-- coupon's code, and `Math.floor(d * 100)` of a discount, which floating-point numbers may put
-- one lower, are functions that the definitions take. The products' catalogue is an interface
-- too: what it answers for a product and a currency.
--
-- What is not modelled: calls that run at the same time (each runs alone here, so row locks have
-- nothing to do), unique indexes and foreign keys, the listeners of the events and the queue of
-- notifications, logging, controllers, validation of requests by decorators, and the services
-- that no file above names.
pub mod Common
pub mod Status
pub mod Entities
pub mod Events
pub mod Rows
pub mod Samples
pub mod Inventory
pub mod Pricing
pub mod Orders
pub mod Escrow
pub mod Disputes
pub mod AutoRelease
pub mod Coupons
pub mod Milestones
pub mod Refunds
pub mod Rewards
pub mod Subscriptions
pub mod Shipping
pub mod Retry
