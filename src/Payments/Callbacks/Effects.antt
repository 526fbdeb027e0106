-- ===== src/Payments/Callbacks/Effects.antt =====
-- What `applyCallback` leaves in each table (modules/payments/service.ts, lines 614-743).
use smart_light.Prelude.{
  ℕ, String, Bool, true, false, ◌∷◌, some, ◌≡◌, refl, ◌∙◌, inl, inr, arith, ◌==◌, Option-cases, ok,
}
use smart_light.Table.{find_first, update}
use smart_light.Table.Rows.{find_first-holds}
use smart_light.Table.Keys.{find_first-update}
use smart_light.Orders.Status.{OrderStatus, pending_payment, paid, is_status}
use smart_light.Orders.Tables.{Order, OrderStatusHistory}
use smart_light.Payments.Errors.{PaymentStatus, is_success}
use smart_light.Payments.Tables.{
  Payment, PaymentTransaction, WebhookStatus, PaymentWebhookLog, PaymentTables,
}
use smart_light.Payments.Service.{find_by_id, order_of, paid_order}
use smart_light.Payments.Service.Callback.{
  CallbackOutcome, success, failed, cancelled, CallbackResult, is_pending_order, apply_callback,
}
use smart_light.Payments.Callbacks.{applied, waits}

pub is_status-eq : (s t : OrderStatus) → is_status s t ≡ true → s ≡ t
is_status-eq s t h = ground (arith, h)

-- The payment has the status and the time of an outcome.
abbrev pub Took : CallbackOutcome → ℕ → Payment → Type 0
Took success now p = (p.status ≡ PaymentStatus.success) × (p.succeeded_at ≡ some now)
Took failed now p = (p.status ≡ PaymentStatus.failed) × (p.failed_at ≡ some now)
Took cancelled now p = (p.status ≡ PaymentStatus.cancelled) × (p.cancelled_at ≡ some now)

-- An order that waits is PAID by a success, and stays as it is by a failure, with an entry of its
-- history each; any other order is left alone.
abbrev pub Followed : Bool → CallbackOutcome → ℕ → PaymentTables → PaymentTables → Type 0
Followed true success id db s =
    (o : Order) × (e : OrderStatusHistory) × (order_of id s ≡ some o)
    × (o.status ≡ paid)
    × (s.orders.order_status_history ≡ e ∷ db.orders.order_status_history)
    × (e.order_id ≡ id)
    × (e.from_status ≡ some pending_payment)
    × (e.to_status ≡ paid)
Followed true failed id db s =
    (e : OrderStatusHistory) × (s.orders.order ≡ db.orders.order)
    × (s.orders.order_status_history ≡ e ∷ db.orders.order_status_history)
    × (e.order_id ≡ id)
    × (e.from_status ≡ some pending_payment)
    × (e.to_status ≡ pending_payment)
Followed true cancelled id db s = s.orders ≡ db.orders
Followed false outcome id db s = s.orders ≡ db.orders

-- One more log of the payment, with a status.
abbrev pub Logged : ℕ → WebhookStatus → PaymentTables → PaymentTables → Type 0
Logged id status db s =
    (w : PaymentWebhookLog) × (s.payment_webhook_log ≡ w ∷ db.payment_webhook_log)
    × (w.payment_id ≡ some id)
    × (w.status ≡ status)

pub order_paid :
    (id : ℕ) (db : PaymentTables) {o : Order}
    → order_of id db ≡ some o
    → find_first (λ x. x.id == id) (update (λ x. x.id == id) paid_order db.orders.order)
      ≡ some (paid_order o)
unfolding order_of
order_paid id db {o} found =
    find_first-update _ _ paid_order db.orders.order (λ x. refl) found
    ∙ ground (arith, find_first-holds _ db.orders.order found)

-- The order that waits is found, and is in PENDING_PAYMENT.
pub waiting_order :
    (id : ℕ) (db : PaymentTables)
    → is_pending_order (order_of id db) ≡ true
    → (o : Order) × (order_of id db ≡ some o) × (o.status ≡ pending_payment)
waiting_order id db h = elim (Option-cases (order_of id db)) [
  | inl missing ↦ absurd (cc (rw missing at h))
  | inr (o, found) ↦ (o, found, is_status-eq o.status pending_payment (rw found at h))
]

module _ (id_text : ℕ → String) (now id : ℕ) (c : CallbackResult) (db : PaymentTables) where
  -- A callback of a payment that has succeeded before.
  pub record Ignored : Type 0 where
    pub payment : Payment
    pub found : find_by_id id db ≡ some payment
    pub over : is_success payment.status ≡ true
    pub after : PaymentTables
    pub result : apply_callback id_text now id c db ≡ ok tt after
    pub payments : after.payment ≡ db.payment
    pub transactions : after.payment_transaction ≡ db.payment_transaction
    pub orders : after.orders ≡ db.orders
    pub log : Logged id WebhookStatus.duplicate db after

  -- A callback of another payment.
  pub record Taken : Type 0 where
    pub payment : Payment
    pub found : find_by_id id db ≡ some payment
    pub live : is_success payment.status ≡ false
    pub after : PaymentTables
    pub result : apply_callback id_text now id c db ≡ ok tt after
    pub paid_by : Payment
    pub found_after : find_by_id id after ≡ some paid_by
    pub outcome : Took c.outcome now paid_by
    pub provider_txn_id : paid_by.provider_txn_id ≡ some c.provider_txn_id
    pub same_amount : paid_by.amount ≡ payment.amount
    pub transaction : PaymentTransaction
    pub transactions : after.payment_transaction ≡ transaction ∷ db.payment_transaction
    pub transaction_payment : transaction.payment_id ≡ id
    pub transaction_amount : transaction.amount ≡ payment.amount
    pub transaction_txn_id : transaction.provider_txn_id ≡ some c.provider_txn_id
    pub order :
        Followed
          (is_pending_order (order_of payment.order_id db))
          c.outcome
          payment.order_id
          db
          after
    pub log : Logged id WebhookStatus.processed db after

  pub applied-Followed :
      (p : Payment) (waiting : Bool) (o : CallbackOutcome)
      → waits id_text c p db ≡ waiting
      → c.outcome ≡ o
      → Followed waiting o p.order_id db (applied id_text now id c db p)
  unfolding order_of
  applied-Followed p false o idle e = rw idle refl
  applied-Followed p true cancelled waiting e = rw (waiting, e) refl
  applied-Followed p true failed waiting e = rw (waiting, e) (_, refl, refl, refl, refl, refl)
  applied-Followed p true success waiting e =
      let o = waiting_order p.order_id db waiting in
      rw (waiting, e) (_, _, order_paid p.order_id db o.1, refl, refl, refl, refl, refl)
