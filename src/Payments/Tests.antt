-- ===== src/Payments/Tests.antt =====
-- The theorems of the payments module on one order.
use smart_light.Prelude.{
  ℕ, ℤ, pos, ◌-ℤ◌, leb_ℤ, max_ℤ, not, String, Bool, true, false, List, [], ◌∷◌, Option, none, some,
  ◌≡◌, ◌≢◌, ◌⊎◌, inl, inr, refl, arith, ok, err, final,
}
use smart_light.Table.{find_first, find_many, update}
use smart_light.Orders.Status.{pending_payment}
use smart_light.Orders.Tables.{
  Address, Order, OrderPaymentStatus, OrderStatusHistory, ChangedByType,
}
use smart_light.Orders.Trail.{IsRecorded, history_of}
use smart_light.Payments.Errors.{PaymentStatus, vnpay, PaymentError}
use smart_light.Payments.Tables.{Payment, PaymentTables}
use smart_light.Payments.Service.{
  find_by_id, find_by_order_id, order_of, find_webhook, find_by_provider_txn_id, has_clash,
  create_transaction, create_webhook_log, pay_order,
}
use smart_light.Payments.Service.Callback.{
  CallbackOutcome, success, failed, CallbackResult, synchronize_order, apply_callback,
  is_pending_order,
}
use smart_light.Payments.Service.Webhook.{
  locate_payment, process_callback, handle_verified, handle_webhook, applied_answer,
  duplicate_answer,
}
use smart_light.Payments.Service.Offline.{ConfirmOfflineDto, confirm_offline_payment}
use smart_light.Payments.Service.Create.{retry_payment}
use smart_light.Payments.Callbacks.Effects.{Followed}
use smart_light.Payments.Callbacks.Kept.{
  Succeeded, Webhook, verified, refused, receive_all, receive_all-Succeeded,
}
use smart_light.Payments.Duplicates.{handle_webhook-handle_webhook}
use smart_light.Payments.Retry.{retry_payment_throws}
use smart_light.Payments.Orders.{apply_callback-paid, apply_callback_unrecorded}
use smart_light.Payments.Confirmed.{confirm_offline_payment-IsRecorded}
use smart_light.Payments.Confirmed.Effects.{Recorded, confirm_offline_payment-effects}

abbrev nowhere : Address
nowhere = record {
  full_name = none;
  phone = none;
  province = none;
  district = none;
  ward = none;
  detail = none;
}

-- An order of user 1 that waits for its payment, with a payment that has been started.
abbrev waiting : Order
waiting = record {
  id = 3;
  order_number = "SL-20250101-000001";
  user_id = 1;
  checkout_session_id = none;
  cart_id = none;
  reservation_id = none;
  status = pending_payment;
  payment_status = OrderPaymentStatus.unpaid;
  currency = "VND";
  locale = "vi-VN";
  totals = record {
    subtotal = pos 100;
    discount_amount = pos 0;
    shipping_fee = pos 5;
    tax_amount = pos 10;
    grand_total = pos 115;
  };
  shipping = nowhere;
  billing = nowhere;
  coupon_code = none;
  customer_notes = none;
  cancel_reason = none;
  cancelled_by_id = none;
  is_deleted = false;
}

abbrev first_entry : OrderStatusHistory
first_entry = record {
  id = 4;
  order_id = 3;
  from_status = none;
  to_status = pending_payment;
  changed_by_type = ChangedByType.customer;
  changed_by_id = some 1;
  changed_by_name = none;
  reason = none;
}

abbrev started : Payment
started = record {
  id = 5;
  order_id = 3;
  user_id = 1;
  provider = vnpay;
  status = PaymentStatus.pending;
  amount = pos 115;
  currency = "VND";
  provider_txn_id = none;
  provider_reference = some "3-1";
  idempotency_key = none;
  checkout_url = some "https://pay.example";
  failure_reason = none;
  expires_at = none;
  succeeded_at = none;
  failed_at = none;
  cancelled_at = none;
}

abbrev shop : PaymentTables
shop = record {
  orders = record {
    checkout_session = [];
    checkout_item = [];
    stock_reservation = [];
    product_variant = [];
    order = waiting ∷ [];
    order_item = [];
    order_status_history = first_entry ∷ [];
    next_id = 12;
  };
  payment = started ∷ [];
  payment_transaction = [];
  payment_webhook_log = [];
  next_id = 20;
}

abbrev paid_shop : PaymentTables
paid_shop = record shop { payment = record started { status = PaymentStatus.success } ∷ [] }

abbrev callback : CallbackOutcome → CallbackResult
callback outcome = record {
  outcome = outcome;
  provider_txn_id = "T1";
  event_id = some "E1";
  amount = pos 115;
  failure_reason = none;
  raw_order_id = none;
  raw_txn_ref = some 3;
  raw_custom_id = none;
}

abbrev id_text : ℕ → String
id_text n = "id"

-- The test of the amounts, exactly.
abbrev exact : ℤ → ℤ → Bool
exact a b = not (leb_ℤ (max_ℤ (a -ℤ b) (b -ℤ a)) (pos 100))

shop-IsRecorded : IsRecorded shop.orders
unfolding history_of find_many
shop-IsRecorded = record {
  ids = (tt, tt);
  orders_numbered = (omega arith, tt);
  entries_numbered = (omega arith, tt);
  trails = ((refl, (refl, refl)), tt);
}

paid_shop-Succeeded : Succeeded 5 (record started { status = PaymentStatus.success }) paid_shop
unfolding find_by_id find_first
paid_shop-Succeeded = record { found = refl; succeeded = refl }

abbrev webhooks : List Webhook
webhooks =
    verified 7 vnpay (callback failed)
    ∷ refused 8 vnpay none "bad signature"
    ∷ verified 9 vnpay (callback success)
    ∷ []

receive_all-Succeeded_example :
    Succeeded 5
      (record started { status = PaymentStatus.success })
      (receive_all id_text exact webhooks paid_shop)
receive_all-Succeeded_example =
    receive_all-Succeeded id_text exact webhooks 5
      (record started { status = PaymentStatus.success }) paid_shop paid_shop-Succeeded

abbrev after_webhook : PaymentTables
after_webhook = final (handle_webhook id_text exact 7 vnpay (callback success) shop)

handle_webhook-shop :
    handle_webhook id_text exact 7 vnpay (callback success) shop ≡ ok applied_answer after_webhook
unfolding handle_webhook handle_verified process_callback locate_payment find_by_provider_txn_id
    find_by_order_id find_by_id find_first find_webhook apply_callback create_transaction has_clash
    create_webhook_log synchronize_order order_of pay_order update smart_light.Prelude.Int.◌-ℤ◌
    smart_light.Prelude.Int.max_ℤ
handle_webhook-shop = refl

handle_webhook-handle_webhook_example :
    (s : PaymentTables) × (handle_webhook id_text exact 9 vnpay (callback failed) after_webhook
      ≡ ok duplicate_answer s)
    × (s.payment ≡ after_webhook.payment)
    × (s.payment_transaction ≡ after_webhook.payment_transaction)
    × (s.orders ≡ after_webhook.orders)
handle_webhook-handle_webhook_example =
    handle_webhook-handle_webhook id_text exact 7 9 vnpay (callback success) (callback failed) "E1"
      shop after_webhook (tt, tt) refl refl refl handle_webhook-shop

retry_payment_throws_example :
    (e : PaymentError) × (retry_payment 7 5 1 (inl "offline") shop ≡ err e shop)
retry_payment_throws_example = retry_payment_throws 7 5 1 (inl "offline") shop

abbrev after_failure : PaymentTables
after_failure = final (apply_callback id_text 7 5 (callback failed) shop)

found_started : find_by_id 5 shop ≡ some started
unfolding find_by_id find_first
found_started = refl

order_waiting : is_pending_order (order_of 3 shop) ≡ true
unfolding order_of find_first
order_waiting = refl

apply_callback-failure : apply_callback id_text 7 5 (callback failed) shop ≡ ok tt after_failure
unfolding find_by_id find_first find_webhook apply_callback create_transaction has_clash
    create_webhook_log synchronize_order order_of pay_order update
apply_callback-failure = refl

apply_callback-success :
    apply_callback id_text 7 5 (callback success) shop
    ≡ ok tt (final (apply_callback id_text 7 5 (callback success) shop))
unfolding find_by_id find_first find_webhook apply_callback create_transaction has_clash
    create_webhook_log synchronize_order order_of pay_order update
apply_callback-success = refl

apply_callback-paid_example :
    IsRecorded (final (apply_callback id_text 7 5 (callback success) shop)).orders
    × Followed true success 3 shop (final (apply_callback id_text 7 5 (callback success) shop))
apply_callback-paid_example =
    apply_callback-paid id_text 7 5 (callback success) shop
      (final (apply_callback id_text 7 5 (callback success) shop)) found_started refl order_waiting
      refl shop-IsRecorded apply_callback-success

apply_callback_unrecorded_example :
    Followed true failed 3 shop after_failure × ¬ IsRecorded after_failure.orders
apply_callback_unrecorded_example =
    apply_callback_unrecorded id_text 7 5 (callback failed) shop after_failure found_started refl
      order_waiting refl apply_callback-failure

abbrev slip : ConfirmOfflineDto
slip = record { note = none; reference_code = some "BANK-1" }

confirm_offline_payment-effects_example :
    ((e : PaymentError) × (confirm_offline_payment 7 3 99 none slip shop ≡ err e shop))
    ⊎ Recorded 7 3 99 none slip shop
confirm_offline_payment-effects_example =
    confirm_offline_payment-effects 7 3 99 none slip shop (tt, tt)

confirm_offline_payment-IsRecorded_example :
    IsRecorded (final (confirm_offline_payment 7 3 99 none slip shop)).orders
confirm_offline_payment-IsRecorded_example =
    confirm_offline_payment-IsRecorded 7 3 99 none slip shop shop-IsRecorded
