-- ===== src/Lib.antt =====
-- Verification of the SmartLight shop's API (smartlight/apps/api).
--
-- The API is a NestJS application over one PostgreSQL database, which it reaches through Prisma. Six of
-- its parts are modelled: the inventory module, checkout, orders, payments, shipping and the promotion
-- engine. A checkout makes a session of a cart and holds stock for it; an order is made of a session
-- whose stock is reserved, and its status then moves along two tables of transitions; a payment that
-- succeeds, by a webhook or by an administrator, moves its order to PAID; shipments of an order move by
-- their carrier's webhooks. The promotion engine computes what is taken off a cart.
--
-- State. A table is the list of its rows (Table); SELECT, UPDATE and its row count are functions on
-- lists. The inventory module's tables are the record Database (Database, Database/Stock), which the
-- CheckoutTables extend with the catalogue and the cart (Database/Shop); the orders module's are the
-- OrderTables, which PaymentTables and ShippingTables extend. A call of a service is a function of the
-- tables that returns or throws and leaves tables behind (Prelude/Monad); `prisma.$transaction` rolls
-- back what was written before a throw. Calls run one after the other. The transactions of checkout,
-- orders, payments and shipping ask for that with the isolation level Serializable; elsewhere it is an
-- assumption of the model, since the inventory module's transactions are ReadCommitted, and
-- createInventory, createPayment, createShipment and handleWebhook run several statements in no
-- transaction. Reads that the source makes through the plain client inside a transaction see the tables
-- that were committed before it. Unique columns are checked where a call can run into them; UNIQUE
-- (session_id, product_variant_id) on the items of checkouts, orders and reservations is not, since the
-- items are copied from a cart, whose own constraint excludes duplicates.
--
-- Files, by the code that they model:
-- - Inventory/Repository: smartlight/apps/api/src/modules/inventory/repositories. `reserve_stock` and
--   the others are the raw UPDATE statements, split into their WHERE (`reserve_test`) and SET
--   (`reserve_row`) parts.
-- - Inventory/Service: the stock contract of smartlight/apps/api/src/modules/inventory/service.ts
--   (reserveStock, releaseStock, confirmSale, restoreStock); Inventory/Admin and Inventory/Adjust: its
--   administration (createInventory, importStock, adjustStock, bulkAdjust, updateLowStockThreshold);
--   Inventory/Queries: getAvailability and getInventoryByVariant.
-- - Inventory/Change: what one call may do to the tables, as a relation, with the invariants that it
--   keeps; Inventory/Calls: each call, branch by branch, against that relation; Inventory/History,
--   Inventory/Oversell: sequences of calls.
-- - Orders/Status, Orders/Service: smartlight/apps/api/src/modules/orders/service.ts (the transition
--   tables, createOrder, getOrderForUser, cancelOrderForUser, updateOrderStatusByAdmin and
--   transitionStatus) with the lookups of its repository; Orders/Trail: the history of an order as a
--   path; Orders/History, Orders/Closed, Orders/Conversion, Orders/Ownership: what the calls promise.
-- - Checkout/Tables, Checkout/Service: smartlight/apps/api/src/modules/checkout/service.ts
--   (createCheckout, updateShippingAddress, reserveInventory, cancelCheckout, expireCheckout) with the
--   statements of its repository. Checkout/Rows, Checkout/Loops, Checkout/Outcomes, Checkout/Creation,
--   Checkout/Held: its loops and calls, branch by branch; Checkout/Backed, Checkout/History,
--   Checkout/Laws, Checkout/Replay: sequences of calls.
-- - Payments/Tables, Payments/Service: smartlight/apps/api/src/modules/payments/service.ts
--   (createPayment, retryPayment, confirmOfflinePayment, handleWebhook, applyCallback) with the
--   statements of its repository. Payments/Callbacks, Payments/Confirmed, Payments/Retry: these calls,
--   branch by branch (Effects: what is left in each table); Payments/Duplicates: webhooks that arrive
--   again; Payments/Orders: what payments do to the history of orders, against the transitions of the
--   orders module.
-- - Shipping/Status, Shipping/Tables, Shipping/Service:
--   smartlight/apps/api/src/modules/shipping/service.ts (createShipment, cancelShipment, updateStatus,
--   transitionStatus, handleWebhook) with its tables of states and the statements of its repository.
--   Shipping/Trail, Shipping/Webhooks, Shipping/Creation: the history of a shipment as a path, and each
--   call against it; Shipping/History, Shipping/Terminal: sequences of calls and how they end.
-- - Promotions/Types, Promotions/Engine:
--   smartlight/apps/api/src/modules/promotions/entities/promotion.engine.ts (evaluate and validate),
--   over numbers of which only the laws in Promotions/Amount are used, which hold of finite doubles
--   with their rounding.
--
-- Choices. Ids are numbers in the order in which they are given out, since they are only compared. A
-- quantity is an integer of any size, over the native naturals (Prelude/Int): overflow of the int4
-- columns is not modelled. An amount of an order is an integer count of ten-thousandths and is only
-- copied, multiplied by a quantity or added up. Every definition is structurally recursive, so there is
-- no fuel. A time is a number of milliseconds: the calls of checkout, payments and shipping that read
-- the clock take `now` as an argument, and the time stamps that no call reads are left out, as is
-- logging. The validation of a DTO by its decorators has taken place before a call, which is a
-- hypothesis where a theorem needs it (IsValidated). `generateOrderNumber` and `generateShipmentNumber`
-- are arguments. What a gateway of a payment provider or carrier answers, or throws, is an argument of
-- the call that asks it, and so is the text that an id has in a note. The amounts of a webhook are
-- compared on doubles, so the test is an argument too.
--
-- Not modelled: the paged lists and other plain reads of the modelled modules, the gateways of the
-- payment providers and carriers (HTTP and signatures), fee estimates, the other modules of the API
-- (cart, catalog, auth, users, notification, media, and the promotions service around the engine), the
-- web and admin applications, and the deployment.
pub mod Prelude
pub mod Table
pub mod Database
pub mod Checkout
pub mod Inventory
pub mod Orders
pub mod Payments
pub mod Shipping
pub mod Promotions
