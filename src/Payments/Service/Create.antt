-- ===== src/Payments/Service/Create.antt =====
-- modules/payments/service.ts, lines 106-261: `createPayment` and `retryPayment`. What the gateway's
-- `createIntent` answers is an argument: an intent, or the text of what it threw.
use Prim.Native.String.{◌++◌}
use smart_light.Prelude.{
  ℕ, ◌+◌, ◌*◌, ℤ, String, str_eq, Bool, true, false, ◌||◌, not, ◌∷◌, Option, none, some, ◌==◌, ◌⊎◌,
  inl, inr, throw, throw_if, pure, gets, or_throw, if_else, modify, if◌then◌else◌, ◌>>=◌, ◌>>◌,
}
use smart_light.Table.{update}
use smart_light.Orders.Status.{pending_payment, is_status}
use smart_light.Orders.Tables.{Order}
use smart_light.Payments.Errors.{
  PaymentStatus, created, pending, processing, cancelled, failed, is_success, PaymentProvider,
  manual, order_not_found, order_not_payable, invalid_payment_state, payment_already_completed,
  unauthorized_payment_access, active_payment_exists, gateway_error, no_gateway, unique_violation,
}
use smart_light.Payments.Tables.{
  Payment, TransactionType, TransactionStatus, PaymentTransaction, PaymentTables, Pay, new_id,
}
use smart_light.Payments.Service.{
  find_by_order_id, find_order_for_payment, find_by_idem_key, order_of, is_found,
  create_transaction, require_owned_payment,
}

-- `PAYMENT_LIMITS.PAYMENT_TTL_MINUTES`, in milliseconds
abbrev pub payment_ttl : ℕ
payment_ttl = 15 * 60000

pub record CreatePaymentDto : Type 0 where
  pub order_id : ℕ
  -- `toProviderEnum(dto.provider)`
  pub provider : PaymentProvider
  pub idempotency_key : Option String

pub record Intent : Type 0 where
  pub checkout_url : String
  pub provider_reference : Option String
  pub provider_txn_id : Option String
  pub expires_at : Option ℕ

pub record PaymentIntentResponse : Type 0 where
  pub payment_id : ℕ
  pub order_id : ℕ
  pub amount : ℤ
  pub currency : String
  pub provider : PaymentProvider
  pub checkout_url : Option String
  pub expires_at : Option ℕ

-- `mapToIntentResponse`
abbrev pub map_to_intent_response : Payment → PaymentIntentResponse
map_to_intent_response p = record {
  payment_id = p.id;
  order_id = p.order_id;
  amount = p.amount;
  currency = p.currency;
  provider = p.provider;
  checkout_url = p.checkout_url;
  expires_at = p.expires_at;
}

-- PAYMENT_ACTIVE_STATUSES
abbrev pub is_active : PaymentStatus → Bool
is_active created = true
is_active pending = true
is_active processing = true
is_active _ = false

abbrev pub active_payment : Option Payment → Option ℕ
active_payment none = none
active_payment (some p) = if is_active p.status then some p.id else none

abbrev pub throw_active : ℕ → Option ℕ → Pay (Unit {0})
throw_active order none = pure tt
throw_active order (some id) = throw (active_payment_exists order id)

-- The payment that a key that is not empty was used for, if its order is this user's.
abbrev pub replayed : ℕ → Option String → PaymentTables → Option Payment
replayed user key db = elim key [
  | none ↦ none
  | some k ↦ if str_eq k "" then none else elim (find_by_idem_key k db) [
    | none ↦ none
    | some p ↦ elim (order_of p.order_id db) [
      | none ↦ none
      | some o ↦ if o.user_id == user then some p else none
    ]
  ]
]

abbrev pub new_payment : ℕ → ℕ → CreatePaymentDto → Order → ℕ → Payment
new_payment now user dto o id = record {
  id = id;
  order_id = dto.order_id;
  user_id = user;
  provider = dto.provider;
  status = created;
  amount = o.totals.grand_total;
  currency = o.currency;
  provider_txn_id = none;
  provider_reference = none;
  idempotency_key = dto.idempotency_key;
  checkout_url = none;
  failure_reason = none;
  expires_at = some (now + payment_ttl);
  succeeded_at = none;
  failed_at = none;
  cancelled_at = none;
}

abbrev pub key_taken : Option String → PaymentTables → Bool
key_taken none db = false
key_taken (some k) db = is_found (find_by_idem_key k db)

-- `payment.create`: order_id and idempotency_key are UNIQUE.
unfoldable pub insert_payment : ℕ → ℕ → CreatePaymentDto → Order → Pay ℕ
insert_payment now user dto o = do
  taken ←
      gets (λ db. is_found (find_by_order_id dto.order_id db) || key_taken dto.idempotency_key db)
  throw_if taken unique_violation
  id ← new_id
  modify λ db. record db { payment = new_payment now user dto o id ∷ db.payment }
  pure id

abbrev pub intent_transaction :
    ℕ → ℤ → TransactionStatus → Option String → String → Option String → PaymentTransaction
intent_transaction id amount status code message txn = record {
  payment_id = id;
  type = TransactionType.create;
  status = status;
  amount = amount;
  provider_code = code;
  provider_message = some message;
  provider_txn_id = txn;
}

abbrev pub has_gateway : PaymentProvider → Bool
has_gateway manual = false
has_gateway _ = true

abbrev pub set_payment : ℕ → (Payment → Payment) → Pay (Unit {0})
set_payment id f = modify λ db. record db { payment = update (λ p. p.id == id) f db.payment }

-- `intent.expiresAt ?? this.computePaymentExpiry()`
abbrev pub intent_expiry : ℕ → Intent → ℕ
intent_expiry now i = elim i.expires_at [ none ↦ now + payment_ttl | some t ↦ t ]

-- What follows the call of the gateway.
unfoldable pub record_intent :
    ℕ → CreatePaymentDto → Order → ℕ → String ⊎ Intent → Pay PaymentIntentResponse
record_intent now dto o id (inl message) = do
  set_payment id (λ p. record p {
    status = failed;
    failure_reason = some ("intent_failed: " ++ message);
    failed_at = some now;
  })
  create_transaction (
      intent_transaction id o.totals.grand_total TransactionStatus.failed (some "INTENT_ERROR")
        message none)
  throw (gateway_error message)
record_intent now dto o id (inr i) = do
  set_payment id (λ p. record p {
    status = pending;
    checkout_url = some i.checkout_url;
    provider_reference = elim i.provider_reference [
      | none ↦ p.provider_reference
      | some r ↦ some r
    ];
    provider_txn_id = elim i.provider_txn_id [ none ↦ p.provider_txn_id | some t ↦ some t ];
    expires_at = some (intent_expiry now i);
  })
  create_transaction (
      intent_transaction id o.totals.grand_total TransactionStatus.initiated none "Intent created"
        i.provider_txn_id)
  pure (record {
    payment_id = id;
    order_id = o.id;
    amount = o.totals.grand_total;
    currency = o.currency;
    provider = dto.provider;
    checkout_url = some i.checkout_url;
    expires_at = some (intent_expiry now i);
  })

unfoldable pub start_payment :
    ℕ → ℕ → CreatePaymentDto → String ⊎ Intent → Pay PaymentIntentResponse
start_payment now user dto answer = do
  o ← (do or_throw (← gets (find_order_for_payment dto.order_id)) (order_not_found dto.order_id))
  throw_if (not (o.user_id == user)) (unauthorized_payment_access dto.order_id user)
  throw_if (not (is_status o.status pending_payment)) (order_not_payable dto.order_id o.status)
  existing ← gets (find_by_order_id dto.order_id)
  throw_active dto.order_id (active_payment existing)
  id ← insert_payment now user dto o
  throw_if (not (has_gateway dto.provider)) (no_gateway dto.provider)
  record_intent now dto o id answer

-- `toProviderEnum` refuses a provider without a gateway before anything is read.
unfoldable pub create_payment :
    ℕ → ℕ → CreatePaymentDto → String ⊎ Intent → Pay PaymentIntentResponse
create_payment now user dto answer db =
    if_else (has_gateway dto.provider)
      (λ db. elim (replayed user dto.idempotency_key db) [
        | some p ↦ pure (map_to_intent_response p) db
        | none ↦ start_payment now user dto answer db
      ])
      (throw (no_gateway dto.provider)) db

abbrev pub may_retry : PaymentStatus → Bool
may_retry failed = true
may_retry cancelled = true
may_retry _ = false

-- `retryPayment`; the provider of the new payment is the old one's.
unfoldable pub retry_payment : ℕ → ℕ → ℕ → String ⊎ Intent → Pay PaymentIntentResponse
retry_payment now id user answer = do
  p ← require_owned_payment id user
  throw_if (is_success p.status) (payment_already_completed id)
  throw_if (not (may_retry p.status)) (invalid_payment_state id p.status)
  create_payment now user
      (record { order_id = p.order_id; provider = p.provider; idempotency_key = none }) answer
