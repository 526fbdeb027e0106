-- ===== src/Shipping/Service/Transition.antt =====
-- modules/shipping/service.ts, lines 365-409 and 620-701: `transitionStatus`, `cancelShipment` and
-- `updateStatus`.
use smart_light.Prelude.{
  ℕ, String, Bool, ◌&&◌, not, Option, some, throw_if, pure, gets, or_throw, if_else,
  with_transaction, ◌>>=◌, ◌>>◌,
}
use smart_light.Shipping.Status.{
  ShipmentStatus, created, waiting_pickup, picked_up, in_transit, out_for_delivery, delivered,
  failed, returning, returned, cancelled, is_status, includes, shipment_transitions, ShipmentEvent,
  status_changed, shipment_not_found, not_cancellable, already_delivered, invalid_transition,
}
use smart_light.Shipping.Tables.{Shipment, ActorType, ShipmentHistory, Ship}
use smart_light.Shipping.Service.{
  find_by_id, set_shipment, create_history, ShipmentResponse, require_shipment,
}

pub record Actor : Type 0 where
  pub type : ActorType
  pub id : Option ℕ
  pub name : Option String

pub record TransitionArgs : Type 0 where
  pub shipment_id : ℕ
  pub to_status : ShipmentStatus
  pub actor : Actor
  pub reason : Option String
  pub event : ShipmentEvent

-- Where a shipment cannot be cancelled any more.
abbrev pub too_late : ShipmentStatus → ShipmentStatus → Bool
too_late from to =
    is_status to cancelled && (not (is_status from created) && not (is_status from waiting_pickup))

abbrev pub is_done : ShipmentStatus → ShipmentStatus → Bool
is_done from to = is_status from delivered && not (is_status to delivered)

-- `patch`, with the time stamp of the status
abbrev pub patched : ℕ → TransitionArgs → Shipment → Shipment
patched now a s = elim a.to_status [
  | created ↦ record s { status = a.to_status }
  | waiting_pickup ↦ record s { status = a.to_status }
  | picked_up ↦ record s { status = a.to_status; picked_up_at = some now }
  | in_transit ↦ record s { status = a.to_status; shipped_at = some now }
  | out_for_delivery ↦ record s { status = a.to_status; shipped_at = some now }
  | delivered ↦ record s { status = a.to_status; delivered_at = some now }
  | failed ↦ record s { status = a.to_status }
  | returning ↦ record s { status = a.to_status }
  | returned ↦ record s { status = a.to_status; returned_at = some now }
  | cancelled ↦ record s {
    status = a.to_status;
    cancelled_at = some now;
    failure_reason = a.reason;
  }
]

abbrev pub transition_entry : TransitionArgs → ShipmentStatus → ShipmentHistory
transition_entry a from = record {
  shipment_id = a.shipment_id;
  event = a.event;
  old_status = some from;
  new_status = a.to_status;
  actor_type = a.actor.type;
  actor_id = a.actor.id;
  actor_name = a.actor.name;
  message = a.reason;
}

unfoldable pub transition_status : ℕ → TransitionArgs → Ship (Unit {0})
transition_status now a = with_transaction (do
  s ← (do or_throw (← gets (find_by_id a.shipment_id)) (shipment_not_found a.shipment_id))
  throw_if (too_late s.status a.to_status) (not_cancellable a.shipment_id s.status)
  throw_if (is_done s.status a.to_status) (already_delivered a.shipment_id)
  if_else (is_status s.status a.to_status) (pure tt) (do
    throw_if (not (includes (shipment_transitions s.status) a.to_status))
        (invalid_transition a.shipment_id s.status a.to_status)
    set_shipment a.shipment_id (patched now a)
    create_history (transition_entry a s.status)))

unfoldable pub cancel_shipment : ℕ → ℕ → Actor → Option String → Ship ShipmentResponse
cancel_shipment now id actor reason = do
  transition_status now (record {
    shipment_id = id;
    to_status = cancelled;
    actor = actor;
    reason = reason;
    event = status_changed;
  })
  require_shipment id

unfoldable pub update_status :
    ℕ → ℕ → ShipmentStatus → Actor → Option String → Ship ShipmentResponse
update_status now id to_status actor reason = do
  transition_status now (record {
    shipment_id = id;
    to_status = to_status;
    actor = actor;
    reason = reason;
    event = status_changed;
  })
  require_shipment id
