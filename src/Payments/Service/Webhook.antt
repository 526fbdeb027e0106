-- ===== src/Payments/Service/Webhook.antt =====
-- modules/payments/service.ts, lines 496-608 and 769-802: `handleWebhook` behind the gateway, and
-- `locatePayment`. The gateway's `verifyCallback` has checked the signature; its result is an argument.
use Prim.Native.String.{◌++◌}
use smart_light.Prelude.{
  ℕ, ℤ, String, str_eq, Bool, true, false, not, Option, none, some, ◌==◌, ok, throw, pure, gets,
  if_else, if◌then◌else◌, ◌>>=◌, ◌>>◌,
}
use smart_light.Table.{update}
use smart_light.Payments.Errors.{
  PaymentProvider, momo, vnpay, paypal, manual, same_provider, PaymentError, provider_mismatch,
  amount_mismatch, invalid_webhook_payload, gateway_error,
}
use smart_light.Payments.Tables.{
  Payment, event, unknown_at, WebhookStatus, LogNote, already_received, PaymentWebhookLog,
  PaymentTables, Pay,
}
use smart_light.Payments.Service.{
  find_by_order_id, find_by_provider_txn_id, find_webhook, create_webhook_log,
}
use smart_light.Payments.Service.Callback.{CallbackResult, event_or, apply_callback}
use smart_light.Payments.Service.Create.{has_gateway}

-- The provider as its enum is spelled.
abbrev pub enum_name : PaymentProvider → String
enum_name momo = "MOMO"
enum_name vnpay = "VNPAY"
enum_name paypal = "PAYPAL"
enum_name manual = "MANUAL"

-- `locatePayment`
abbrev pub by_reference : PaymentProvider → Option ℕ → PaymentTables → Option Payment
by_reference provider none db = none
by_reference provider (some order) db = elim (find_by_order_id order db) [
  | none ↦ none
  | some p ↦ if same_provider p.provider provider then some p else none
]

abbrev pub or_else : Option Payment → Option Payment → Option Payment
or_else none b = b
or_else (some a) b = some a

unfoldable pub locate_payment : PaymentProvider → CallbackResult → PaymentTables → Option Payment
locate_payment provider c db =
    or_else
      (if str_eq c.provider_txn_id ""
        then none
        else find_by_provider_txn_id provider c.provider_txn_id db)
      (or_else (by_reference provider c.raw_order_id db) (
        or_else (by_reference provider c.raw_txn_ref db)
          (by_reference provider c.raw_custom_id db)))

-- What `handleWebhook` answers.
pub record WebhookAnswer : Type 0 where
  pub processed : Bool
  pub reason : Option String

abbrev pub applied_answer : WebhookAnswer
applied_answer = record { processed = true; reason = none }

abbrev pub duplicate_answer : WebhookAnswer
duplicate_answer = record { processed = true; reason = some "duplicate" }

-- The answer to a provider without a gateway.
abbrev pub skipped_answer : PaymentProvider → WebhookAnswer
skipped_answer provider = record {
  processed = false;
  reason = some ("Unknown provider: " ++ enum_name provider);
}

-- A log of a failure, and the exception after it.
abbrev pub log_and_throw :
    ℕ → PaymentProvider → CallbackResult → LogNote → PaymentError → Pay WebhookAnswer
log_and_throw now provider c note e = do
  create_webhook_log none provider (event_or c.event_id (unknown_at now)) WebhookStatus.failed note
  throw e

-- `findWebhookByEventId`, where the event has a text that is not empty
abbrev pub seen : PaymentProvider → CallbackResult → PaymentTables → Option PaymentWebhookLog
seen provider c db = elim c.event_id [
  | none ↦ none
  | some e ↦ if str_eq e "" then none else find_webhook provider (event e) db
]

abbrev pub is_processed : WebhookStatus → Bool
is_processed WebhookStatus.processed = true
is_processed _ = false

-- `markWebhookProcessed` of a duplicate
abbrev pub mark_duplicate : PaymentWebhookLog → PaymentTables → PaymentTables
mark_duplicate w db = record db {
  payment_webhook_log =
      update (λ x. x.id == w.id)
        (λ x. record x { status = WebhookStatus.duplicate; error_message = already_received })
        db.payment_webhook_log;
}

-- `handleWebhook` with a payload that the gateway, if there is one, refuses: a failed log under the
-- payload's own event.
unfoldable pub refuse_webhook : ℕ → PaymentProvider → Option String → String → Pay WebhookAnswer
refuse_webhook now provider event_id message =
    if_else (has_gateway provider)
      (do
        create_webhook_log none provider (event_or event_id (unknown_at now)) WebhookStatus.failed
            (LogNote.gateway_message message)
        throw (gateway_error message))
      (pure (skipped_answer provider))

-- `differ` is the test `Math.abs(expectedAmount - callback.amount) > 0.01`, which is made on doubles.
module _ (id_text : ℕ → String) (differ : ℤ → ℤ → Bool) where
  unfoldable pub process_callback : ℕ → PaymentProvider → CallbackResult → Pay WebhookAnswer
  process_callback now provider c = do
    located ← gets (locate_payment provider c)
    elim located [
      | none ↦ log_and_throw now provider c LogNote.payment_not_found invalid_webhook_payload
      | some p ↦
          if_else (not (same_provider p.provider provider))
            (log_and_throw now provider c (LogNote.provider_mismatch p.provider provider)
              (provider_mismatch p.id p.provider provider))
            (if_else (differ p.amount c.amount)
              (log_and_throw now provider c (LogNote.amount_mismatch p.amount c.amount)
                (amount_mismatch p.id p.amount c.amount))
              (do apply_callback id_text now p.id c; pure applied_answer))
    ]

  -- `handleWebhook` from the idempotency test on, with a verified callback.
  unfoldable pub handle_verified : ℕ → PaymentProvider → CallbackResult → Pay WebhookAnswer
  handle_verified now provider c db = elim (seen provider c db) [
    | some w ↦
        if is_processed w.status
        then ok duplicate_answer db
        else ok duplicate_answer (mark_duplicate w db)
    | none ↦ process_callback now provider c db
  ]

  -- `handleWebhook` with a payload that the gateway, if there is one, verifies.
  unfoldable pub handle_webhook : ℕ → PaymentProvider → CallbackResult → Pay WebhookAnswer
  handle_webhook now provider c =
      if_else (has_gateway provider) (handle_verified now provider c)
        (pure (skipped_answer provider))
