-- ===== src/Shipping/Webhooks.antt =====
-- Webhooks of carriers keep the trails of all shipments (modules/shipping/service.ts, lines 522-614).
use smart_light.Prelude.{
  ℕ, ◌≤◌, String, Bool, true, false, Option, none, some, ◌≡◌, ap, arith, inl, inr, Bool-cases,
  Option-cases, Outcome-cases, ok, err, final,
}
use smart_light.Table.Rows.{All-map}
use smart_light.Shipping.Status.{ShippingProvider, ShippingError, provider_error, gateway_error}
use smart_light.Shipping.Tables.{
  Shipment, ShippingWebhookLog, EventId, shipment_at, unknown_at, ShippingTables,
}
use smart_light.Shipping.Service.Transition.{transition_status}
use smart_light.Shipping.Service.Webhook.{
  CallbackResult, find_webhook, log_webhook, locate_shipment, webhook_args, event_or,
  process_callback, seen, handle_webhook, refuse_webhook,
}
use smart_light.Shipping.Trail.{IsTracked}
use smart_light.Shipping.Trail.Moves.Calls.{transition_status-IsTracked}

-- Tables whose shipments and history are as before.
pub record SameShipments (db s : ShippingTables) : Type 0 where
  pub shipment : s.shipment ≡ db.shipment
  pub history : s.shipment_history ≡ db.shipment_history
  pub next : db.next_id ≤ s.next_id

pub SameShipments-IsTracked :
    (db s : ShippingTables) → SameShipments db s → IsTracked db → IsTracked s
SameShipments-IsTracked db s k v = record {
  ids = rw k.shipment v.ids;
  shipments_numbered =
      rw k.shipment (All-map db.shipment (λ x n. omega (arith, n, k.next)) v.shipments_numbered);
  entries_numbered =
      rw k.history
        (All-map db.shipment_history (λ x n. omega (arith, n, k.next)) v.entries_numbered);
  trails = rw (k.shipment, k.history) v.trails;
}

log_webhook-SameShipments :
    (provider : ShippingProvider) (id : EventId) (type : Option String) (processed : Bool)
    (message : Option String) (db : ShippingTables)
    → SameShipments db (final (log_webhook provider id type processed message db))
unfolding log_webhook
log_webhook-SameShipments provider id type processed message db =
    elim (Option-cases (find_webhook provider id db)) [
      | inl free ↦ record {
        shipment = ground (arith, free);
        history = ground (arith, free);
        next = ground (arith, free);
      }
      | inr (w, known) ↦ record {
        shipment = ground (arith, known);
        history = ground (arith, known);
        next = ground (arith, known);
      }
    ]

module _ (now : ℕ) (provider : ShippingProvider) (db : ShippingTables) (v : IsTracked db) where
  logged-IsTracked :
      (id : EventId) (type : Option String) (processed : Bool) (message : Option String)
      → IsTracked (final (log_webhook provider id type processed message db))
  logged-IsTracked id type processed message =
      SameShipments-IsTracked db _ (log_webhook-SameShipments provider id type processed message db)
        v

  pub refuse_webhook-IsTracked :
      (event_id type : Option String) (message : String)
      → IsTracked (final (refuse_webhook now provider event_id type message db))
  unfolding refuse_webhook
  refuse_webhook-IsTracked event_id type message =
      elim (Outcome-cases
        (log_webhook provider (event_or event_id (unknown_at now)) type false (some message) db)) [
          | inr (e, s, known) ↦ rw (ap final (unlogged known)) (
              rw (ap final known) at
                (logged-IsTracked (event_or event_id (unknown_at now)) type false (some message)))
          | inl (_, s, free) ↦ rw (ap final (logged free)) (
              rw (ap final free) at
                (logged-IsTracked (event_or event_id (unknown_at now)) type false (some message)))
        ]
    where
      unlogged :
          {s : ShippingTables} {e : ShippingError}
          → log_webhook provider (event_or event_id (unknown_at now)) type false (some message) db
            ≡ err e s
          → refuse_webhook now provider event_id type message db ≡ err e s
      unlogged known = ground (arith, known)

      logged :
          {s : ShippingTables}
          → log_webhook provider (event_or event_id (unknown_at now)) type false (some message) db
            ≡ ok tt s
          → refuse_webhook now provider event_id type message db ≡ err (gateway_error message) s
      logged free = ground (arith, free)

module _ (now : ℕ) (provider : ShippingProvider) (c : CallbackResult) (db : ShippingTables)
    (v : IsTracked db) where
  located-IsTracked :
      {x : Shipment}
      → locate_shipment c db ≡ some x
      → IsTracked (final (process_callback now provider c db))
  unfolding process_callback
  located-IsTracked {x} located =
      elim (Outcome-cases (transition_status now (webhook_args provider c x.id) db)) [
        | inr (e, s, thrown) ↦ rw (ap final (refused thrown)) (kept (ap final thrown))
        | inl (_, s, made) ↦
            elim (Outcome-cases (
              log_webhook provider (event_or c.event_id (shipment_at x.id now)) c.message true none
                s)) [
                  | inr (e, y, known) ↦ rw (ap final (unlogged made known)) (
                      rw (ap final known) at (
                        logged-IsTracked now provider s (kept (ap final made))
                          (event_or c.event_id (shipment_at x.id now)) c.message true none))
                  | inl (_, y, free) ↦ rw (ap final (logged made free)) (
                      rw (ap final free) at (
                        logged-IsTracked now provider s (kept (ap final made))
                          (event_or c.event_id (shipment_at x.id now)) c.message true none))
                ]
      ]
    where
      kept :
          {s : ShippingTables}
          → final (transition_status now (webhook_args provider c x.id) db) ≡ s
          → IsTracked s
      kept same = rw same at (transition_status-IsTracked now (webhook_args provider c x.id) db v)

      refused :
          {e : ShippingError} {s : ShippingTables}
          → transition_status now (webhook_args provider c x.id) db ≡ err e s
          → process_callback now provider c db ≡ err e s
      refused thrown = ground (arith, located, thrown)

      unlogged :
          {s y : ShippingTables} {e : ShippingError}
          → transition_status now (webhook_args provider c x.id) db ≡ ok tt s
          → log_webhook provider (event_or c.event_id (shipment_at x.id now)) c.message true none s
            ≡ err e y
          → process_callback now provider c db ≡ err e y
      unlogged made known = ground (arith, located, made, known)

      logged :
          {s y : ShippingTables}
          → transition_status now (webhook_args provider c x.id) db ≡ ok tt s
          → log_webhook provider (event_or c.event_id (shipment_at x.id now)) c.message true none s
            ≡ ok tt y
          → process_callback now provider c db ≡ ok none y
      logged made free = ground (arith, located, made, free)

  lost-IsTracked :
      locate_shipment c db ≡ none → IsTracked (final (process_callback now provider c db))
  unfolding process_callback
  lost-IsTracked missing =
      elim (Outcome-cases (
        log_webhook provider (event_or c.event_id (unknown_at now)) c.message false
          (some "shipment-not-found") db)) [
            | inr (e, s, known) ↦ rw (ap final (unlogged known)) (rw (ap final known) at there)
            | inl (_, s, free) ↦ rw (ap final (logged free)) (rw (ap final free) at there)
          ]
    where
      there : IsTracked (
          final (
            log_webhook provider
              (event_or c.event_id (unknown_at now))
              c.message
              false
              (some "shipment-not-found")
              db))
      there =
          logged-IsTracked now provider db v (event_or c.event_id (unknown_at now)) c.message false
            (some "shipment-not-found")

      unlogged :
          {s : ShippingTables} {e : ShippingError}
          → log_webhook provider
              (event_or c.event_id (unknown_at now))
              c.message
              false
              (some "shipment-not-found")
              db
            ≡ err e s
          → process_callback now provider c db ≡ err e s
      unlogged known = ground (arith, missing, known)

      logged :
          {s : ShippingTables}
          → log_webhook provider
              (event_or c.event_id (unknown_at now))
              c.message
              false
              (some "shipment-not-found")
              db
            ≡ ok tt s
          → process_callback now provider c db ≡ err (provider_error provider) s
      logged free = ground (arith, missing, free)

  handle_webhook_new :
      seen provider c db ≡ none
      → handle_webhook now provider c db ≡ process_callback now provider c db
  unfolding handle_webhook
  handle_webhook_new first = ground (arith, first)

  handle_webhook-seen :
      {w : ShippingWebhookLog}
      → seen provider c db ≡ some w
      → SameShipments db (final (handle_webhook now provider c db))
  unfolding handle_webhook
  handle_webhook-seen {w} known = elim (Bool-cases w.processed) [
    | inl done ↦ record {
      shipment = ground (arith, known, done);
      history = ground (arith, known, done);
      next = ground (arith, known, done);
    }
    | inr other ↦ record {
      shipment = ground (arith, known, other);
      history = ground (arith, known, other);
      next = ground (arith, known, other);
    }
  ]

  pub handle_webhook-IsTracked : IsTracked (final (handle_webhook now provider c db))
  handle_webhook-IsTracked = elim (Option-cases (seen provider c db)) [
    | inr (w, known) ↦ SameShipments-IsTracked db _ (handle_webhook-seen known) v
    | inl first ↦ rw (handle_webhook_new first) (elim (Option-cases (locate_shipment c db)) [
      | inl missing ↦ lost-IsTracked missing
      | inr (x, located) ↦ located-IsTracked located
    ])
  ]
