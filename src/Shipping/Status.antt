-- ===== src/Shipping/Status.antt =====
-- modules/shipping/constants and interfaces: the states of a shipment and their transitions; and
-- modules/shipping/exceptions.
use smart_light.Prelude.{ℕ, ℤ, String, Bool, false, ◌||◌, List, [], ◌∷◌, ◌==◌}
use smart_light.Orders.Status.{OrderStatus}

pub data ShipmentStatus : Type 0 where
  created waiting_pickup picked_up in_transit out_for_delivery delivered failed returning returned
        cancelled :
      ShipmentStatus

-- The place of a status in the enum.
abbrev pub place : ShipmentStatus → ℕ
place created = 0
place waiting_pickup = 1
place picked_up = 2
place in_transit = 3
place out_for_delivery = 4
place delivered = 5
place failed = 6
place returning = 7
place returned = 8
place cancelled = 9

-- `===` on statuses
abbrev pub is_status : ShipmentStatus → ShipmentStatus → Bool
is_status a b = place a == place b

-- `includes`
unfoldable pub includes : List ShipmentStatus → ShipmentStatus → Bool
includes [] s = false
includes (a ∷ rest) s = is_status a s || includes rest s

-- SHIPMENT_TRANSITIONS
unfoldable pub shipment_transitions : ShipmentStatus → List ShipmentStatus
shipment_transitions created = waiting_pickup ∷ cancelled ∷ []
shipment_transitions waiting_pickup = picked_up ∷ cancelled ∷ []
shipment_transitions picked_up = in_transit ∷ failed ∷ returning ∷ []
shipment_transitions in_transit = out_for_delivery ∷ failed ∷ returning ∷ []
shipment_transitions out_for_delivery = delivered ∷ failed ∷ returning ∷ []
shipment_transitions delivered = []
shipment_transitions failed = returning ∷ cancelled ∷ []
shipment_transitions returning = returned ∷ []
shipment_transitions returned = []
shipment_transitions cancelled = []

pub data ShippingProvider : Type 0 where
  ghn ghtk viettel_post ahamove grab_express : ShippingProvider

abbrev pub provider_place : ShippingProvider → ℕ
provider_place ghn = 0
provider_place ghtk = 1
provider_place viettel_post = 2
provider_place ahamove = 3
provider_place grab_express = 4

abbrev pub same_provider : ShippingProvider → ShippingProvider → Bool
same_provider a b = provider_place a == provider_place b

pub data CallbackOutcome : Type 0 where
  picked_up in_transit out_for_delivery delivered failed returned cancelled : CallbackOutcome

-- CALLBACK_TO_SHIPMENT_STATUS
abbrev pub callback_status : CallbackOutcome → ShipmentStatus
callback_status picked_up = ShipmentStatus.picked_up
callback_status in_transit = ShipmentStatus.in_transit
callback_status out_for_delivery = ShipmentStatus.out_for_delivery
callback_status delivered = ShipmentStatus.delivered
callback_status failed = ShipmentStatus.failed
callback_status returned = ShipmentStatus.returned
callback_status cancelled = ShipmentStatus.cancelled

pub data ShipmentEvent : Type 0 where
  created status_changed tracking_updated delivered returned failed : ShipmentEvent

-- `mapOutcomeToEvent`
abbrev pub map_outcome_to_event : CallbackOutcome → ShipmentEvent
map_outcome_to_event delivered = ShipmentEvent.delivered
map_outcome_to_event returned = ShipmentEvent.returned
map_outcome_to_event failed = ShipmentEvent.failed
map_outcome_to_event _ = status_changed

pub data ShippingError : Type 0 where
  shipment_not_found : ℕ → ShippingError
  order_not_found : ℕ → ShippingError
  order_not_shippable : ℕ → OrderStatus → ShippingError
  -- the same exception with 'NO_ITEMS' for the status
  order_without_items : ℕ → ShippingError
  active_shipment_exists : ℕ → ℕ → ShippingError
  invalid_transition : ℕ → ShipmentStatus → ShipmentStatus → ShippingError
  not_cancellable : ℕ → ShipmentStatus → ShippingError
  already_delivered : ℕ → ShippingError
  invalid_provider : ShippingProvider → ShippingError
  provider_error : ShippingProvider → ShippingError
  -- what a gateway threw: its text
  gateway_error : String → ShippingError
  weight_exceeds_limit : ℤ → ShippingError
  unauthorized_shipment_access : ℕ → ℕ → ShippingError
  -- the database's refusal of UNIQUE columns that are taken
  unique_violation : ShippingError
