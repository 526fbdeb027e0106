-- ===== src/Payments/Service/Callback.antt =====
-- modules/payments/service.ts, lines 614-743: `applyCallback`.
use Prim.Native.String.{◌++◌}
use smart_light.Prelude.{
  ℕ, suc, ℤ, String, Bool, false, ◌∷◌, Option, none, some, ◌==◌, ok, pure, gets, or_throw, if_else,
  modify, with_transaction, ◌>>=◌, ◌>>◌,
}
use smart_light.Table.{update}
use smart_light.Orders.Status.{OrderStatus, pending_payment, paid, is_status}
use smart_light.Orders.Tables.{Order, ChangedByType, system}
use smart_light.Payments.Errors.{
  PaymentStatus, is_success, PaymentProvider, momo, vnpay, paypal, manual, payment_not_found,
}
use smart_light.Payments.Tables.{
  Payment, TransactionType, TransactionStatus, PaymentTransaction, EventId, event, dup_at,
  payment_at, WebhookStatus, no_note, already_success, Pay,
}
use smart_light.Payments.Service.{
  find_by_id, order_of, create_transaction, create_webhook_log, pay_order,
}

pub data CallbackOutcome : Type 0 where
  success failed cancelled : CallbackOutcome

-- What `verifyCallback` makes of a payload. Of the raw payload it is asked which order its references
-- name: the text before the first dash, or the whole text, and none where it is empty or missing.
pub record CallbackResult : Type 0 where
  pub outcome : CallbackOutcome
  pub provider_txn_id : String
  pub event_id : Option String
  pub amount : ℤ
  pub failure_reason : Option String
  pub raw_order_id : Option ℕ
  pub raw_txn_ref : Option ℕ
  pub raw_custom_id : Option ℕ

-- CALLBACK_TO_PAYMENT_STATUS
abbrev pub callback_status : CallbackOutcome → PaymentStatus
callback_status success = PaymentStatus.success
callback_status failed = PaymentStatus.failed
callback_status cancelled = PaymentStatus.cancelled

-- `providerName`
abbrev pub provider_name : PaymentProvider → String
provider_name momo = "momo"
provider_name vnpay = "vnpay"
provider_name paypal = "paypal"
provider_name manual = "manual"

-- The update of the payment's row.
abbrev pub called_back : ℕ → CallbackResult → Payment → Payment
called_back now c p = elim c.outcome [
  | success ↦ record p {
    status = PaymentStatus.success;
    provider_txn_id = some c.provider_txn_id;
    succeeded_at = some now;
  }
  | failed ↦ record p {
    status = PaymentStatus.failed;
    provider_txn_id = some c.provider_txn_id;
    failed_at = some now;
    failure_reason =
        some (elim c.failure_reason [ none ↦ "provider-failed" | some reason ↦ reason ]);
  }
  | cancelled ↦ record p {
    status = PaymentStatus.cancelled;
    provider_txn_id = some c.provider_txn_id;
    cancelled_at = some now;
  }
]

abbrev pub callback_transaction : CallbackResult → Payment → PaymentTransaction
callback_transaction c p = record {
  payment_id = p.id;
  type = elim c.outcome [
    | success ↦ TransactionType.capture
    | failed ↦ TransactionType.capture
    | cancelled ↦ TransactionType.void
  ];
  status = elim c.outcome [
    | success ↦ TransactionStatus.success
    | failed ↦ TransactionStatus.failed
    | cancelled ↦ TransactionStatus.failed
  ];
  amount = p.amount;
  provider_code = c.failure_reason;
  provider_message = c.failure_reason;
  provider_txn_id = some c.provider_txn_id;
}

abbrev pub is_pending_order : Option Order → Bool
is_pending_order none = false
is_pending_order (some o) = is_status o.status pending_payment

-- `tx.orderStatusHistory.create`, from PENDING_PAYMENT
abbrev pub add_history :
    ℕ → OrderStatus → ChangedByType → Option ℕ → Option String → Option String → Pay (Unit {0})
add_history order to by by_id by_name reason = modify λ db. record db {
  orders = record db.orders {
    next_id = suc db.orders.next_id;
    order_status_history =
        record {
          id = db.orders.next_id;
          order_id = order;
          from_status = some pending_payment;
          to_status = to;
          changed_by_type = by;
          changed_by_id = by_id;
          changed_by_name = by_name;
          reason = reason;
        }
        ∷ db.orders.order_status_history;
  };
}

-- `callback.eventId ?? …`
abbrev pub event_or : Option String → EventId → EventId
event_or none other = other
event_or (some e) other = event e

module _ (id_text : ℕ → String) where
  -- The texts of the entry that a payment adds to the order's history.
  abbrev pub payer_text : Payment → String
  payer_text p = "payment:" ++ provider_name p.provider

  abbrev pub succeeded_text : Payment → String
  succeeded_text p = "Payment " ++ (id_text p.id ++ " succeeded")

  abbrev pub failed_text : CallbackResult → Payment → String
  failed_text c p =
      "Payment "
      ++ (id_text p.id ++ (" failed: " ++ elim c.failure_reason [ none ↦ "unknown" | some r ↦ r ]))

  -- The order follows its payment.
  unfoldable pub synchronize_order : CallbackResult → Payment → Pay (Unit {0})
  synchronize_order c p = do
    waiting ← gets (λ db. is_pending_order (order_of p.order_id db))
    if_else waiting
        (λ db. elim c.outcome [
          | success ↦
              (do
                pay_order p.order_id
                add_history p.order_id paid system none (some (payer_text p))
                    (some (succeeded_text p)))
                db
          | failed ↦
              add_history p.order_id pending_payment system none (some (payer_text p))
                (some (failed_text c p)) db
          | cancelled ↦ ok tt db
        ])
        (pure tt)

  unfoldable pub apply_callback : ℕ → ℕ → CallbackResult → Pay (Unit {0})
  apply_callback now id c = with_transaction (do
    p ← (do or_throw (← gets (find_by_id id)) (payment_not_found id))
    if_else (is_success p.status)
        (create_webhook_log (some id) p.provider (event_or c.event_id (dup_at now))
          WebhookStatus.duplicate already_success)
        (do
          modify
              λ db. record db { payment = update (λ x. x.id == id) (called_back now c) db.payment }
          create_transaction (callback_transaction c p)
          synchronize_order c p
          create_webhook_log (some id) p.provider (event_or c.event_id (payment_at id now))
              WebhookStatus.processed no_note))
