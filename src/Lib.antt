-- ===== src/Lib.antt =====
-- The rules by which the backend of the book house prices a cart, moves an order, and keeps its money
-- and its papers.
--
-- How the parts interact. A product costs what its live deals make of its price (modules/catalog). A
-- cart becomes a quote (modules/orders/pricing): the coupon is evaluated on the lines
-- (orders/promotions), its discount and the price of a bundle are split over lines and parts by
-- `allocate` (common/utils/money.ts), and the delivery fee follows from the zone and the free-delivery
-- rules (orders/shipping). The order made of the quote then moves through its stages
-- (orders/domain/order-status.ts); each move is a plan that says what happens to the stock, the coupon
-- and the papers, and is carried out in one transaction under the version of the order that was read
-- (orders/application): the units are held, sent out and brought back by the inventory
-- (modules/inventory), which keeps the batches they came in and what they cost. An answer of the
-- payment gateway is judged before an order counts as paid (payments/sslcommerz), and a payment that
-- succeeds is posted to the ledger in the same transaction (finance/cashbook). After each move and each
-- payment the accounting papers are synchronised (finance/documents), and the cash of a delivery is
-- posted with them. Refunds (payments/refunds) give back what was paid; bills of suppliers
-- (finance/purchasing) are what the shop itself owes.
--
-- Files and code (paths below backend/src, as above):
--   Base, Base/*            shared notation, results, integers, lists, texts and the lemmas on them
--   Money, Money/Rounding   common/utils/money.ts: min, max, percentOf, roundTo, and the interface
--                           `Decimal` of the rounding of quotients
--   Money/Allocate, */*     common/utils/money.ts: allocate
--   Orders/Status, */Plan   modules/orders/domain/order-status.ts: planTransition and its branches
--   Orders/Reopen           the same file: planReopen
--   Orders/Transition       modules/orders/application/order-transition.service.ts: apply, regress,
--                           reopen
--   Orders/Transition/*, Orders/Status/Effect  their proofs
--   Orders/Idempotency      modules/orders/application/idempotency.service.ts, and isValidIdempotencyKey
--                           of modules/orders/domain/idempotency.ts
--   Orders/Placement        modules/orders/application/order-placement.service.ts: place, placeInTx
--   Orders/Placement/{Holds,Committed,Written,Replay}  their proofs
--   Orders/Life, */*        the transactions above in any order
--   Orders/Redemption       modules/orders/promotions/application/coupon-lookup.service.ts: redeem,
--                           revoke, restore
--   Orders/Lines            what coupons and quotes share of a line
--   Orders/Coupon, */*      modules/orders/promotions/domain/coupon-rules.ts: lineEligible,
--                           couponAvailability, evaluateCoupon, validateCouponShape
--   Orders/Shipping, */*    modules/orders/shipping/domain/shipping-fee.ts: ruleIsLive, resolveShipping
--   Orders/Quote, */*       modules/orders/pricing/domain/quote-calculator.ts: calculateQuote,
--                           stockShortfalls
--   Orders/Picking, */*     modules/orders/domain/pick-list.ts: buildPickList
--   Finance/Documents, */*  modules/finance/documents: planBooks and its tests in
--                           domain/document-policy.ts, syncIn in application/document-issuer.service.ts
--   Finance/Cash            modules/finance/cashbook: domain/cash-math.ts, and account and post of
--                           application/cash-ledger.service.ts
--   Finance/Cash/Postings   has, total, recordGatewayCapture and recordRefund of the latter
--   Finance/Cash/{Days,Once}  their proofs
--   Finance/Profit, */*     modules/finance/reports/domain/pnl.ts: pnlFor, netOf, categoryRows,
--                           courierDue; the credit note of syncIn in document-issuer.service.ts
--   Finance/Refunds         modules/payments/refunds/domain/refund-math.ts: refundable, checkRefund,
--                           paymentStatusAfterRefund
--   Payments/Validation     modules/payments/sslcommerz/domain/validation.ts: evaluateValidation,
--                           mapNotPaid, interpretTransactionQuery
--   Payments/Settlement     modules/payments/sslcommerz/application/payment-settlement.service.ts:
--                           confirm, fail; reconcile in Payments/Settlement/Reconcile
--   Payments/Settlement/{Single,Races,Earned,Settles}  their proofs
--   Payments/Refunding      modules/payments/refunds/application/refunds.service.ts: create, refresh
--   Payments/Refunding/{Sound,Steps}  their proofs
--   Payments/Paid           when an answer counts as paid
--   Payments/Fee            the same file: computeGatewayFee
--   Finance/Purchases       modules/finance/purchasing/domain/purchase-math.ts
--   Catalog/Price           modules/catalog/domain/effective-price.ts
--   Inventory               modules/inventory/inventory.service.ts: the rows, merge, log, lowHit
--   Inventory/Lots          the same file: consume, unconsume, stampOrderCost, refreshCost
--   Inventory/Steps         the same file: reserve, release, fulfill, restock (restock_lines), receive,
--                           addBatch, setOnHand
--   Inventory/{Lines,Shelf,Rows,Refines,Balance,Fifo,Cost,Undo}  their proofs
--   Tests/*                 runs at concrete inputs
--
-- Representation. An amount with two places is its number of paisa, a percentage its number of
-- hundredths; amounts are never negative, as the CHECKs of the database demand. Identifiers are
-- numbers, an instant is its number of milliseconds, a text is the list of its characters' codes, and
-- a refusal is the code of its error, without the message that is shown. A function of the code in
-- camelCase keeps its name in snake_case. decimal.js is not part of the repository: of its rounding the
-- model asks only what its documentation says (the interface `Decimal`), and Money/Rounding shows that
-- exact arithmetic meets it. Remainders in `allocate` are compared exactly, where decimal.js keeps 20
-- digits. The identifiers of new rows come from the database; the model counts them. An
-- update writes the columns that the code lists and leaves the others as they are stored. Of
-- what the gateway sends, a status is named as it reads in upper case, an amount is a number of paisa
-- (zero or more, or below zero) or no number, and an empty text is an absent one.
--
-- Bounds and fuel. No definition is cut off by fuel: every loop runs through a list and is a structural
-- recursion. Amounts are unbounded; the code's decimals are too.
--
-- Not modelled: the database, its locks and its retries, the web controllers, the pages of the shop,
-- messages and labels for the screen; the services that find the customer, the address and the prices
-- of a cart; the entries of the cashbook by hand, and the queries and the percentages of the reports.
pub mod Inventory
pub mod Catalog
pub mod Payments
pub mod Base
pub mod Money
pub mod Orders
pub mod Finance
pub mod Tests
