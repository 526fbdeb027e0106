-- ===== src/Shipping/Tests.antt =====
-- The theorems of the shipping module on one shipment.
use smart_light.Prelude.{
  ℕ, ◌≤◌, pos, false, List, [], ◌∷◌, Option, none, some, ◌≡◌, inl, refl, arith, err, ◌==◌,
}
use smart_light.Table.{find_first, find_many, update}
use smart_light.Orders.Tables.{Address}
use smart_light.Shipping.Status.{
  ShipmentStatus, created, waiting_pickup, picked_up, ghn, CallbackOutcome, ShipmentEvent,
  ShippingError, includes, shipment_transitions,
}
use smart_light.Shipping.Tables.{Shipment, ActorType, ShipmentHistory, ShippingTables}
use smart_light.Shipping.Service.{find_by_id, is_open}
use smart_light.Shipping.Service.Transition.{Actor}
use smart_light.Shipping.Service.Webhook.{CallbackResult}
use smart_light.Shipping.Service.Create.{CreateShipmentDto, create_shipment}
use smart_light.Shipping.Trail.{IsTracked, history_of, count}
use smart_light.Shipping.Creation.{create_shipment_throws}
use smart_light.Shipping.History.{
  Call, cancels, updates, receives, refuses, run, run-IsTracked, run-count,
}
use smart_light.Shipping.Terminal.{calls, ending, run-ending}

abbrev nowhere : Address
nowhere = record {
  full_name = some "Lan";
  phone = some "0900000000";
  province = none;
  district = none;
  ward = none;
  detail = none;
}

-- A shipment that waits for its carrier.
abbrev parcel : Shipment
parcel = record {
  id = 5;
  shipment_number = "SHP-20250101-000001";
  order_id = 3;
  user_id = 1;
  provider = ghn;
  status = waiting_pickup;
  tracking_number = some "GHN1";
  shipping_fee = pos 250000000;
  cod_amount = pos 0;
  weight_grams = pos 900;
  ship_to = nowhere;
  provider_order_code = some "C1";
  label_url = none;
  estimated_delivery_at = none;
  shipped_at = none;
  picked_up_at = none;
  delivered_at = none;
  returned_at = none;
  cancelled_at = none;
  failure_reason = none;
  notes = none;
}

abbrev entry : Option ShipmentStatus → ShipmentStatus → ShipmentHistory
entry old new = record {
  shipment_id = 5;
  event = ShipmentEvent.status_changed;
  old_status = old;
  new_status = new;
  actor_type = ActorType.system;
  actor_id = none;
  actor_name = none;
  message = none;
}

abbrev shop : ShippingTables
shop = record {
  orders = record {
    checkout_session = [];
    checkout_item = [];
    stock_reservation = [];
    product_variant = [];
    order = [];
    order_item = [];
    order_status_history = [];
    next_id = 12;
  };
  shipment = parcel ∷ [];
  shipment_item = [];
  shipment_history = entry (some created) waiting_pickup ∷ entry none created ∷ [];
  shipping_webhook_log = [];
  next_id = 20;
}

shop-IsTracked : IsTracked shop
unfolding history_of find_many includes shipment_transitions
shop-IsTracked = record {
  ids = (tt, tt);
  shipments_numbered = (omega arith, tt);
  entries_numbered = (omega arith, (omega arith, tt));
  trails = ((refl, (refl, (refl, (refl, refl)))), tt);
}

abbrev clerk : Actor
clerk = record { type = ActorType.admin; id = some 99; name = none }

abbrev picked : CallbackResult
picked = record {
  outcome = CallbackOutcome.picked_up;
  tracking_number = none;
  provider_order_code = some "C1";
  event_id = some "E1";
  message = none;
}

abbrev week : List (ℕ × Call)
week =
    (1, receives ghn picked)
    ∷ (2, receives ghn picked)
    ∷ (3, cancels 5 clerk none)
    ∷ (4, refuses ghn none none "bad signature")
    ∷ []

run-IsTracked_example : IsTracked (run week shop)
run-IsTracked_example = run-IsTracked week shop shop-IsTracked

abbrev first_day : List (ℕ × Call)
first_day = (1, receives ghn picked) ∷ (4, refuses ghn none none "bad signature") ∷ []

parcel_found : find_by_id 5 shop ≡ some parcel
unfolding find_by_id find_first
parcel_found = refl

abbrev moving_parcel : Shipment
moving_parcel = record parcel { status = picked_up; picked_up_at = some 1 }

parcel_moved : find_by_id 5 (run first_day shop) ≡ some moving_parcel
unfolding find_by_id find_first update includes shipment_transitions run
    smart_light.Shipping.History.call smart_light.Shipping.Service.find_by_provider_order_code
    smart_light.Shipping.Service.Transition.transition_status
    smart_light.Shipping.Service.Webhook.handle_webhook
    smart_light.Shipping.Service.Webhook.process_callback
    smart_light.Shipping.Service.Webhook.refuse_webhook
    smart_light.Shipping.Service.Webhook.log_webhook
    smart_light.Shipping.Service.Webhook.find_webhook
parcel_moved = refl

run-count_example : count (history_of 5 (run first_day shop).shipment_history) ≤ 8
run-count_example = run-count first_day 5 shop shop-IsTracked parcel_moved

run-ending_example :
    (x : Shipment) × (find_by_id 5 (run (calls 7 clerk 5 (ending 7 clerk 5 waiting_pickup)) shop)
      ≡ some x)
    × (is_open x.status ≡ false)
run-ending_example = run-ending 7 5 clerk shop parcel_found

abbrev wish : CreateShipmentDto
wish = record { order_id = 3; provider = ghn; weight_grams = none; notes = none }

parcel_shipped : find_first (λ s. s.order_id == 3) shop.shipment ≡ some parcel
unfolding find_first
parcel_shipped = refl

create_shipment_throws_example :
    (e : ShippingError) × (create_shipment 1 "SHP-20250102-000001" "taken" wish (inl "offline") shop
      ≡ err e shop)
create_shipment_throws_example =
    create_shipment_throws 1 "SHP-20250102-000001" "taken" wish (inl "offline") shop parcel_shipped
