-- ===== src/Payments/Callbacks.antt =====
-- `applyCallback` branch by branch (modules/payments/service.ts, lines 614-743).
pub mod Kept
pub mod Effects
use smart_light.Prelude.{
  ℕ, suc, ◌+◌, String, Bool, true, false, List, ◌∷◌, Option, none, some, ◌≡◌, ◌⊎◌, refl, inl, inr,
  arith, ◌==◌, Bool-cases, Option-cases, ok, err, if◌then◌else◌,
}
use smart_light.Table.{find_first, update}
use smart_light.Orders.Status.{OrderStatus, pending_payment, paid}
use smart_light.Orders.Tables.{OrderStatusHistory, OrderTables, ChangedByType, system}
use smart_light.Payments.Errors.{
  is_success, PaymentProvider, PaymentError, payment_not_found, unique_violation,
}
use smart_light.Payments.Tables.{
  Payment, EventId, dup_at, payment_at, WebhookStatus, LogNote, no_note, already_success,
  PaymentWebhookLog, PaymentTables,
}
use smart_light.Payments.Service.{
  find_by_id, order_of, find_webhook, is_found, has_clash, create_webhook_log, create_transaction,
  paid_order, pay_order,
}
use smart_light.Payments.Service.Callback.{
  CallbackOutcome, success, failed, cancelled, CallbackResult, called_back, callback_transaction,
  is_pending_order, event_or, payer_text, succeeded_text, failed_text, synchronize_order,
  apply_callback,
}

-- The tables with one more log.
abbrev pub logged :
    Option ℕ → PaymentProvider → EventId → WebhookStatus → LogNote → PaymentTables → PaymentTables
logged payment provider id status note db = record db {
  next_id = suc db.next_id;
  payment_webhook_log =
      record {
        id = db.next_id;
        payment_id = payment;
        provider = provider;
        event_id = id;
        status = status;
        error_message = note;
      }
      ∷ db.payment_webhook_log;
}

-- One more entry of an order's history, by the system, from PENDING_PAYMENT.
abbrev pub system_entry : ℕ → OrderStatus → String → String → ℕ → OrderStatusHistory
system_entry order to by reason id = record {
  id = id;
  order_id = order;
  from_status = some pending_payment;
  to_status = to;
  changed_by_type = system;
  changed_by_id = none;
  changed_by_name = some by;
  reason = some reason;
}

pub create_webhook_log-cases :
    (payment : Option ℕ) (provider : PaymentProvider) (id : EventId) (status : WebhookStatus)
    (note : LogNote) (db : PaymentTables)
    → (create_webhook_log payment provider id status note db ≡ err unique_violation db)
      ⊎ (create_webhook_log payment provider id status note db
          ≡ ok tt (logged payment provider id status note db))
unfolding create_webhook_log
create_webhook_log-cases payment provider id status note db =
    elim (Option-cases (find_webhook provider id db)) [
      | inl free ↦ inr (ground (arith, free))
      | inr (w, known) ↦ inl (ground (arith, known))
    ]

module _ (id_text : ℕ → String) (c : CallbackResult) (p : Payment) where
  -- The orders after a callback for a payment whose order waits for it, or does not.
  abbrev pub synchronized : Bool → OrderTables → OrderTables
  synchronized false orders = orders
  synchronized true orders = elim c.outcome [
    | success ↦ record orders {
      next_id = suc orders.next_id;
      order = update (λ o. o.id == p.order_id) paid_order orders.order;
      order_status_history =
          system_entry p.order_id paid (payer_text id_text p) (succeeded_text id_text p)
            orders.next_id
          ∷ orders.order_status_history;
    }
    | failed ↦ record orders {
      next_id = suc orders.next_id;
      order_status_history =
          system_entry p.order_id pending_payment (payer_text id_text p) (failed_text id_text c p)
            orders.next_id
          ∷ orders.order_status_history;
    }
    | cancelled ↦ orders
  ]

  abbrev pub waits : PaymentTables → Bool
  waits db = is_pending_order (order_of p.order_id db)

  pub synchronize_order-synchronized :
      (db : PaymentTables)
      → synchronize_order id_text c p db
        ≡ ok tt (record db { orders = synchronized (waits db) db.orders })
  unfolding synchronize_order pay_order
  synchronize_order-synchronized db = elim (Bool-cases (waits db)) [
    | inr idle ↦ ground (arith, idle)
    | inl waiting ↦ by_outcome c.outcome refl waiting
  ]
    where
      by_outcome :
          (o : CallbackOutcome)
          → c.outcome ≡ o
          → waits db ≡ true
          → synchronize_order id_text c p db
            ≡ ok tt (record db { orders = synchronized (waits db) db.orders })
      by_outcome success e waiting = ground (arith, e, waiting)
      by_outcome failed e waiting = ground (arith, e, waiting)
      by_outcome cancelled e waiting = ground (arith, e, waiting)

  -- The tables after a callback for a payment that has not succeeded before.
  abbrev pub called : ℕ → ℕ → PaymentTables → PaymentTables
  called now id db = record db {
    payment = update (λ x. x.id == id) (called_back now c) db.payment;
    payment_transaction = callback_transaction c p ∷ db.payment_transaction;
    orders = synchronized (waits db) db.orders;
  }

module _ (id_text : ℕ → String) (now id : ℕ) (c : CallbackResult) (db : PaymentTables) where
  abbrev pub repeated : Payment → PaymentTables
  repeated p =
      logged (some id) p.provider (event_or c.event_id (dup_at now)) WebhookStatus.duplicate
        already_success db

  abbrev pub applied : Payment → PaymentTables
  applied p =
      logged (some id) p.provider (event_or c.event_id (payment_at id now)) WebhookStatus.processed
        no_note (called id_text c p now id db)

  -- A callback for a payment that has succeeded before is only logged.
  pub record Repeated : Type 0 where
    pub payment : Payment
    pub found : find_by_id id db ≡ some payment
    pub over : is_success payment.status ≡ true
    pub result : apply_callback id_text now id c db ≡ ok tt (repeated payment)

  -- Another one sets the payment, whose transactions do not know the provider's id yet, and the order.
  pub record Applied : Type 0 where
    pub payment : Payment
    pub found : find_by_id id db ≡ some payment
    pub live : is_success payment.status ≡ false
    pub fresh : has_clash (callback_transaction c payment) db ≡ false
    pub result : apply_callback id_text now id c db ≡ ok tt (applied payment)

  module _ {p : Payment} (found : find_by_id id db ≡ some p) where
    over-cases :
        is_success p.status ≡ true
        → ((e : PaymentError) × (apply_callback id_text now id c db ≡ err e db)) ⊎ Repeated
    unfolding apply_callback
    over-cases over =
        elim (create_webhook_log-cases (some id) p.provider (event_or c.event_id (dup_at now))
          WebhookStatus.duplicate already_success db) [
            | inl known ↦ inl (unique_violation, ground (arith, found, over, known))
            | inr free ↦ inr (record {
              payment = p;
              found = found;
              over = over;
              result = ground (arith, found, over, free);
            })
          ]

    clash_refused :
        is_success p.status ≡ false
        → has_clash (callback_transaction c p) db ≡ true
        → apply_callback id_text now id c db ≡ err unique_violation db
    unfolding apply_callback create_transaction has_clash
    clash_refused live clash = ground (arith, found, live, clash)

    transaction_made :
        has_clash (callback_transaction c p) db ≡ false
        → create_transaction
            (callback_transaction c p)
            (record db { payment = update (λ x. x.id == id) (called_back now c) db.payment })
          ≡ ok tt (record db {
            payment = update (λ x. x.id == id) (called_back now c) db.payment;
            payment_transaction = callback_transaction c p ∷ db.payment_transaction;
          })
    unfolding create_transaction has_clash
    transaction_made fresh = ground (arith, fresh)

    synchronized_after :
        synchronize_order id_text c p (record db {
          payment = update (λ x. x.id == id) (called_back now c) db.payment;
          payment_transaction = callback_transaction c p ∷ db.payment_transaction;
        })
        ≡ ok tt (called id_text c p now id db)
    unfolding order_of
    synchronized_after = synchronize_order-synchronized id_text c p (record db {
      payment = update (λ x. x.id == id) (called_back now c) db.payment;
      payment_transaction = callback_transaction c p ∷ db.payment_transaction;
    })

    live-cases :
        is_success p.status ≡ false
        → has_clash (callback_transaction c p) db ≡ false
        → ((e : PaymentError) × (apply_callback id_text now id c db ≡ err e db)) ⊎ Applied
    unfolding apply_callback
    live-cases live fresh =
        elim (create_webhook_log-cases (some id) p.provider
          (event_or c.event_id (payment_at id now)) WebhookStatus.processed no_note
          (called id_text c p now id db)) [
            | inl known ↦ inl (
              unique_violation,
              ground (arith, found, live, transaction_made fresh, synchronized_after, known),
            )
            | inr free ↦ inr (record {
              payment = p;
              found = found;
              live = live;
              fresh = fresh;
              result =
                  ground (arith, found, live, transaction_made fresh, synchronized_after, free);
            })
          ]

  -- A callback throws and the tables are as before, or its payment has succeeded already and the event
  -- is only logged, or the payment takes its outcome, a transaction is recorded, the order follows if
  -- it waits for the payment, and the event is logged.
  pub apply_callback-cases :
      ((e : PaymentError) × (apply_callback id_text now id c db ≡ err e db)) ⊎ (Repeated ⊎ Applied)
  unfolding apply_callback
  apply_callback-cases = elim (Option-cases (find_by_id id db)) [
    | inl missing ↦ inl (payment_not_found id, ground (arith, missing))
    | inr (p, found) ↦ elim (Bool-cases (is_success p.status)) [
      | inl over ↦ elim (over-cases found over) [ inl thrown ↦ inl thrown | inr r ↦ inr (inl r) ]
      | inr live ↦ elim (Bool-cases (has_clash (callback_transaction c p) db)) [
        | inl clash ↦ inl (unique_violation, clash_refused found live clash)
        | inr fresh ↦ elim (live-cases found live fresh) [
          | inl thrown ↦ inl thrown
          | inr a ↦ inr (inr a)
        ]
      ]
    ]
  ]
