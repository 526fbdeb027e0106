-- ===== src/Payments/Service/Offline.antt =====
-- modules/payments/service.ts, lines 366-483: `confirmOfflinePayment`.
use Prim.Native.String.{◌++◌}
use smart_light.Prelude.{
  ℕ, String, str_eq, Bool, not, ◌∷◌, Option, none, some, ◌==◌, throw, throw_if, pure, gets,
  or_throw, modify, with_transaction, if◌then◌else◌, ◌>>=◌, ◌>>◌,
}
use smart_light.Table.{update}
use smart_light.Orders.Status.{pending_payment, paid, is_status}
use smart_light.Orders.Tables.{Order, admin_user}
use smart_light.Payments.Errors.{
  PaymentStatus, is_success, manual, payment_not_found, order_not_found, order_not_payable,
  payment_already_completed,
}
use smart_light.Payments.Tables.{
  Payment, TransactionType, TransactionStatus, PaymentTransaction, Pay, new_id,
}
use smart_light.Payments.Service.{
  find_by_id, find_by_order_id, order_of, create_transaction, pay_order,
}
use smart_light.Payments.Service.Callback.{add_history}

pub record ConfirmOfflineDto : Type 0 where
  pub note : Option String
  pub reference_code : Option String

abbrev pub or_text : Option String → String → String
or_text none other = other
or_text (some s) other = s

-- The data of a payment that an administrator confirms; its metadata is left out.
abbrev pub confirmed : ℕ → Order → Payment → Payment
confirmed now o p = record p {
  provider = manual;
  status = PaymentStatus.success;
  amount = o.totals.grand_total;
  currency = o.currency;
  succeeded_at = some now;
  failure_reason = none;
  failed_at = none;
  cancelled_at = none;
}

abbrev pub new_confirmed : ℕ → Order → ℕ → Payment
new_confirmed now o id = record {
  id = id;
  order_id = o.id;
  user_id = o.user_id;
  provider = manual;
  status = PaymentStatus.success;
  amount = o.totals.grand_total;
  currency = o.currency;
  provider_txn_id = none;
  provider_reference = none;
  idempotency_key = none;
  checkout_url = none;
  failure_reason = none;
  expires_at = none;
  succeeded_at = some now;
  failed_at = none;
  cancelled_at = none;
}

-- The payment of the order: the one that is there is confirmed, or one is created. The id is given
-- back.
unfoldable pub confirm_payment : ℕ → Order → Option Payment → Pay ℕ
confirm_payment now o (some p) = do
  modify λ db. record db { payment = update (λ x. x.id == p.id) (confirmed now o) db.payment }
  pure p.id
confirm_payment now o none = do
  id ← new_id
  modify λ db. record db { payment = new_confirmed now o id ∷ db.payment }
  pure id

abbrev pub confirm_transaction : ConfirmOfflineDto → Order → ℕ → PaymentTransaction
confirm_transaction dto o id = record {
  payment_id = id;
  type = TransactionType.capture;
  status = TransactionStatus.success;
  amount = o.totals.grand_total;
  provider_code = some "MANUAL_CONFIRM";
  provider_message = some (or_text dto.note "Admin manual confirmation");
  provider_txn_id = dto.reference_code;
}

abbrev pub is_blank : String → Bool
is_blank s = str_eq s ""

-- `dto.referenceCode ? ` (ref …)` : ''`
abbrev pub reference_text : Option String → String
reference_text none = ""
reference_text (some code) = if is_blank code then "" else " (ref " ++ (code ++ ")")

-- `dto.note || …`
abbrev pub confirm_reason : ConfirmOfflineDto → String
confirm_reason dto = elim dto.note [
  | none ↦ "Admin confirmed offline payment" ++ reference_text dto.reference_code
  | some note ↦
      if is_blank note
      then "Admin confirmed offline payment" ++ reference_text dto.reference_code
      else note
]

abbrev pub completed_before : Option Payment → Option ℕ
completed_before none = none
completed_before (some p) = if is_success p.status then some p.id else none

abbrev pub throw_some : Option ℕ → Pay (Unit {0})
throw_some none = pure tt
throw_some (some id) = throw (payment_already_completed id)

-- The answer is the payment as it is read again.
unfoldable pub confirm_offline_payment : ℕ → ℕ → ℕ → Option String → ConfirmOfflineDto → Pay Payment
confirm_offline_payment now order_id admin_id admin_name dto = with_transaction (do
  o ← (do or_throw (← gets (order_of order_id)) (order_not_found order_id))
  throw_if (not (is_status o.status pending_payment)) (order_not_payable order_id o.status)
  existing ← gets (find_by_order_id order_id)
  throw_some (completed_before existing)
  id ← confirm_payment now o existing
  create_transaction (confirm_transaction dto o id)
  pay_order order_id
  add_history order_id paid admin_user (some admin_id) (some (or_text admin_name "admin"))
      (some (confirm_reason dto))
  (do or_throw (← gets (find_by_id id)) (payment_not_found id)))
