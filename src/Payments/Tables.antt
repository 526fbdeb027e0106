-- ===== src/Payments/Tables.antt =====
-- The rows that the payments module reads and writes (apps/api/prisma/schema.prisma: Payment,
-- PaymentTransaction, PaymentWebhookLog), beside those of the orders. Amounts are Decimal(20, 4),
-- counted in ten-thousandths; payloads, metadata and most time stamps are left out.
use smart_light.Prelude.{ℕ, suc, ℤ, String, List, Option, Action, ok}
use smart_light.Orders.Tables.{OrderTables}
use smart_light.Payments.Errors.{PaymentStatus, PaymentProvider, PaymentError}

pub record Payment : Type 0 where
  pub id : ℕ
  pub order_id : ℕ
  pub user_id : ℕ
  pub provider : PaymentProvider
  pub status : PaymentStatus
  pub amount : ℤ
  pub currency : String
  pub provider_txn_id : Option String
  pub provider_reference : Option String
  pub idempotency_key : Option String
  pub checkout_url : Option String
  pub failure_reason : Option String
  pub expires_at : Option ℕ
  pub succeeded_at : Option ℕ
  pub failed_at : Option ℕ
  pub cancelled_at : Option ℕ

pub data TransactionType : Type 0 where
  create capture void : TransactionType

pub data TransactionStatus : Type 0 where
  initiated success failed reversed : TransactionStatus

pub record PaymentTransaction : Type 0 where
  pub payment_id : ℕ
  pub type : TransactionType
  pub status : TransactionStatus
  pub amount : ℤ
  pub provider_code : Option String
  pub provider_message : Option String
  pub provider_txn_id : Option String

pub data WebhookStatus : Type 0 where
  received processed failed duplicate : WebhookStatus

-- The text of an event: the provider's, or one that the service composes of the time of the call.
pub data EventId : Type 0 where
  event : String → EventId
  -- `unknown-${Date.now()}`
  unknown_at : ℕ → EventId
  -- `dup-${Date.now()}`
  dup_at : ℕ → EventId
  -- `${paymentId}-${now.getTime()}`
  payment_at : ℕ → ℕ → EventId

-- The `errorMessage` of a log, by its parts.
pub data LogNote : Type 0 where
  no_note payment_not_found already_received already_success : LogNote
  provider_mismatch : PaymentProvider → PaymentProvider → LogNote
  amount_mismatch : ℤ → ℤ → LogNote
  gateway_message : String → LogNote

pub record PaymentWebhookLog : Type 0 where
  pub id : ℕ
  pub payment_id : Option ℕ
  pub provider : PaymentProvider
  pub event_id : EventId
  pub status : WebhookStatus
  pub error_message : LogNote

-- The newest row of a table stands first.
pub record PaymentTables : Type 0 where
  pub orders : OrderTables
  pub payment : List Payment
  pub payment_transaction : List PaymentTransaction
  pub payment_webhook_log : List PaymentWebhookLog
  -- `@default(cuid())`: the next id that is given out
  pub next_id : ℕ

abbrev pub Pay : Type 0 → Type 0
Pay A = Action PaymentTables PaymentError A

-- The id of a row that is created.
abbrev pub new_id : Pay ℕ
new_id db = ok db.next_id (record db { next_id = suc db.next_id })
