-- ===== src/Shipping/Service/Webhook.antt =====
-- modules/shipping/service.ts, lines 522-614 and 713-728: `handleWebhook` and `locateShipment`. The
-- gateway's `verifyCallback` has checked the signature; its result is an argument.
use smart_light.Prelude.{
  ℕ, String, str_eq, Bool, true, false, ◌&&◌, ◌∷◌, Option, none, some, ◌==◌, ok, throw, throw_if,
  pure, gets, modify, if◌then◌else◌, ◌>>=◌, ◌>>◌,
}
use smart_light.Table.{find_first, update}
use smart_light.Shipping.Status.{
  ShippingProvider, ghn, ghtk, viettel_post, ahamove, grab_express, same_provider, CallbackOutcome,
  callback_status, map_outcome_to_event, provider_error, gateway_error, unique_violation,
}
use smart_light.Shipping.Tables.{
  Shipment, webhook, EventId, event, unknown_at, shipment_at, ShippingWebhookLog, ShippingTables,
  Ship, new_id,
}
use smart_light.Shipping.Service.{find_by_tracking_number, find_by_provider_order_code}
use smart_light.Shipping.Service.Transition.{TransitionArgs, transition_status}

pub record CallbackResult : Type 0 where
  pub outcome : CallbackOutcome
  pub tracking_number : Option String
  pub provider_order_code : Option String
  pub event_id : Option String
  pub message : Option String

abbrev pub same_event : EventId → EventId → Bool
same_event (event s) (event t) = str_eq s t
same_event (unknown_at m) (unknown_at n) = m == n
same_event (shipment_at p m) (shipment_at q n) = (p == q) && (m == n)
same_event _ _ = false

-- `findWebhookByEventId`
unfoldable pub find_webhook :
    ShippingProvider → EventId → ShippingTables → Option ShippingWebhookLog
find_webhook provider id db =
    find_first (λ w. same_provider w.provider provider && same_event w.event_id id)
      db.shipping_webhook_log

abbrev pub is_found {ℓ} : {A : Type ℓ} → Option A → Bool
is_found none = false
is_found (some _) = true

-- `createWebhookLog`, where (provider, event_id) is UNIQUE, and `markWebhookProcessed`
unfoldable pub log_webhook :
    ShippingProvider → EventId → Option String → Bool → Option String → Ship (Unit {0})
log_webhook provider id type processed message = do
  known ← gets (find_webhook provider id)
  throw_if (is_found known) unique_violation
  i ← new_id
  modify λ db. record db {
    shipping_webhook_log =
        record {
          id = i;
          provider = provider;
          event_id = id;
          event_type = type;
          processed = processed;
          error_message = message;
        }
        ∷ db.shipping_webhook_log;
  }

abbrev pub event_or : Option String → EventId → EventId
event_or none other = other
event_or (some e) other = event e

-- A search by a text that is not empty.
abbrev pub by_text :
    (String → ShippingTables → Option Shipment) → Option String → ShippingTables → Option Shipment
by_text find none db = none
by_text find (some t) db = if str_eq t "" then none else find t db

-- `locateShipment`
abbrev pub locate_shipment : CallbackResult → ShippingTables → Option Shipment
locate_shipment c db = elim (by_text find_by_provider_order_code c.provider_order_code db) [
  | some s ↦ some s
  | none ↦ by_text find_by_tracking_number c.tracking_number db
]

abbrev pub provider_text : ShippingProvider → String
provider_text ghn = "GHN"
provider_text ghtk = "GHTK"
provider_text viettel_post = "VIETTEL_POST"
provider_text ahamove = "AHAMOVE"
provider_text grab_express = "GRAB_EXPRESS"

abbrev pub webhook_args : ShippingProvider → CallbackResult → ℕ → TransitionArgs
webhook_args provider c id = record {
  shipment_id = id;
  to_status = callback_status c.outcome;
  actor = record { type = webhook; id = none; name = some (provider_text provider) };
  reason = c.message;
  event = map_outcome_to_event c.outcome;
}

unfoldable pub process_callback : ℕ → ShippingProvider → CallbackResult → Ship (Option String)
process_callback now provider c = do
  located ← gets (locate_shipment c)
  elim located [
    | none ↦ (do
      log_webhook provider (event_or c.event_id (unknown_at now)) c.message false
          (some "shipment-not-found")
      throw (provider_error provider))
    | some s ↦ (do
      transition_status now (webhook_args provider c s.id)
      log_webhook provider (event_or c.event_id (shipment_at s.id now)) c.message true none
      pure none)
  ]

abbrev pub seen : ShippingProvider → CallbackResult → ShippingTables → Option ShippingWebhookLog
seen provider c db = elim c.event_id [
  | none ↦ none
  | some e ↦ if str_eq e "" then none else find_webhook provider (event e) db
]

-- `markWebhookProcessed(existing.id, true)`
abbrev pub mark_processed : ShippingWebhookLog → ShippingTables → ShippingTables
mark_processed w db = record db {
  shipping_webhook_log =
      update (λ x. x.id == w.id) (λ x. record x { processed = true; error_message = none })
        db.shipping_webhook_log;
}

-- `handleWebhook` with a verified callback; the answer is the reason of `{ processed: true }`, if
-- there is one.
unfoldable pub handle_webhook : ℕ → ShippingProvider → CallbackResult → Ship (Option String)
handle_webhook now provider c db = elim (seen provider c db) [
  | some w ↦
      if w.processed then ok (some "duplicate") db else ok (some "duplicate") (mark_processed w db)
  | none ↦ process_callback now provider c db
]

-- `handleWebhook` with a payload that the gateway refuses.
unfoldable pub refuse_webhook :
    ℕ → ShippingProvider → Option String → Option String → String → Ship (Option String)
refuse_webhook now provider event_id type message = do
  log_webhook provider (event_or event_id (unknown_at now)) type false (some message)
  throw (gateway_error message)
