-- ===== src/Payments/Service.antt =====
-- modules/payments/repositories/payments.repository.ts, and the reads of modules/payments/service.ts.
pub mod Callback
pub mod Webhook
pub mod Offline
pub mod Create
use smart_light.Prelude.{
  ℕ, ℤ, String, str_eq, Bool, true, false, ◌&&◌, ◌||◌, not, List, ◌∷◌, Option, none, some, ◌==◌, ok,
  err, throw_if, pure, gets, or_throw, modify, if◌then◌else◌, ◌>>=◌, ◌>>◌,
}
use smart_light.Table.{find_first, update}
use smart_light.Orders.Status.{OrderStatus, pending_payment, paid, is_status}
use smart_light.Orders.Tables.{Order, OrderPaymentStatus, ChangedByType, OrderTables}
use smart_light.Payments.Errors.{
  PaymentProvider, same_provider, PaymentError, payment_not_found, unauthorized_payment_access,
  unique_violation,
}
use smart_light.Payments.Tables.{
  Payment, PaymentTransaction, EventId, event, unknown_at, dup_at, payment_at, WebhookStatus,
  LogNote, PaymentWebhookLog, PaymentTables, Pay, new_id,
}

-- `findById`, and the reads of a transaction by the id
unfoldable pub find_by_id : ℕ → PaymentTables → Option Payment
find_by_id id db = find_first (λ p. p.id == id) db.payment

unfoldable pub find_by_id_for_user : ℕ → ℕ → PaymentTables → Option Payment
find_by_id_for_user id user db = find_first (λ p. (p.id == id) && (p.user_id == user)) db.payment

unfoldable pub find_by_order_id : ℕ → PaymentTables → Option Payment
find_by_order_id id db = find_first (λ p. p.order_id == id) db.payment

-- The order of a payment, as `include: { order: true }` reads it.
unfoldable pub order_of : ℕ → PaymentTables → Option Order
order_of id db = find_first (λ o. o.id == id) db.orders.order

-- `findOrderForPayment`
unfoldable pub find_order_for_payment : ℕ → PaymentTables → Option Order
find_order_for_payment id db = find_first (λ o. (o.id == id) && not o.is_deleted) db.orders.order

abbrev pub is_text : String → Option String → Bool
is_text s o = elim o [ none ↦ false | some x ↦ str_eq x s ]

unfoldable pub find_by_idem_key : String → PaymentTables → Option Payment
find_by_idem_key k db = find_first (λ p. is_text k p.idempotency_key) db.payment

unfoldable pub find_by_provider_txn_id : PaymentProvider → String → PaymentTables → Option Payment
find_by_provider_txn_id provider txn db =
    find_first (λ p. same_provider p.provider provider && is_text txn p.provider_txn_id) db.payment

abbrev pub same_event : EventId → EventId → Bool
same_event (event s) (event t) = str_eq s t
same_event (unknown_at m) (unknown_at n) = m == n
same_event (dup_at m) (dup_at n) = m == n
same_event (payment_at p m) (payment_at q n) = (p == q) && (m == n)
same_event _ _ = false

-- `findWebhookByEventId`
unfoldable pub find_webhook : PaymentProvider → EventId → PaymentTables → Option PaymentWebhookLog
find_webhook provider id db =
    find_first (λ w. same_provider w.provider provider && same_event w.event_id id)
      db.payment_webhook_log

abbrev pub is_found {ℓ} : {A : Type ℓ} → Option A → Bool
is_found none = false
is_found (some _) = true

-- `createTransaction`: UNIQUE (payment_id, provider_txn_id), where a missing id never clashes
abbrev pub clashes : PaymentTransaction → PaymentTransaction → Bool
clashes t x =
    (x.payment_id == t.payment_id)
    && elim t.provider_txn_id [ none ↦ false | some s ↦ is_text s x.provider_txn_id ]

unfoldable pub has_clash : PaymentTransaction → PaymentTables → Bool
has_clash t db = is_found (find_first (clashes t) db.payment_transaction)

unfoldable pub create_transaction : PaymentTransaction → Pay (Unit {0})
create_transaction t = do
  clash ← gets (has_clash t)
  throw_if clash unique_violation
  modify λ db. record db { payment_transaction = t ∷ db.payment_transaction }

-- `createWebhookLog`: UNIQUE (provider, event_id)
unfoldable pub create_webhook_log :
    Option ℕ → PaymentProvider → EventId → WebhookStatus → LogNote → Pay (Unit {0})
create_webhook_log payment provider id status note = do
  known ← gets (find_webhook provider id)
  throw_if (is_found known) unique_violation
  i ← new_id
  modify λ db. record db {
    payment_webhook_log =
        record {
          id = i;
          payment_id = payment;
          provider = provider;
          event_id = id;
          status = status;
          error_message = note;
        }
        ∷ db.payment_webhook_log;
  }

-- The two writes to the orders: `tx.order.update`, and `tx.orderStatusHistory.create`.
abbrev pub paid_order : Order → Order
paid_order o = record o { status = paid; payment_status = OrderPaymentStatus.paid }

unfoldable pub pay_order : ℕ → Pay (Unit {0})
pay_order id = modify λ db. record db {
  orders = record db.orders { order = update (λ o. o.id == id) paid_order db.orders.order };
}

-- `requireOwnedPayment`
unfoldable pub require_owned_payment : ℕ → ℕ → Pay Payment
require_owned_payment id user db = elim (find_by_id_for_user id user db) [
  | some p ↦ ok p db
  | none ↦ elim (find_by_id id db) [
    | some _ ↦ err (unauthorized_payment_access id user) db
    | none ↦ err (payment_not_found id) db
  ]
]
