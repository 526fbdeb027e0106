-- ===== src/Shipping/Creation/Recorded.antt =====
-- `createShipment` keeps the trails of all shipments (modules/shipping/service.ts, lines 238-355).
use smart_light.Prelude.{
  ℕ, suc, String, true, false, List, ◌∷◌, map, none, some, ◌≡◌, ◌⊎◌, refl, ap, sym, arith, inl, inr,
  Bool-cases, Outcome-cases, ok, err, final,
}
use Prim.Native.String.{◌++◌}
use mathlib.Core.List.{◌++◌ as append}
use smart_light.Table.{find_first}
use smart_light.Orders.Tables.{Order, OrderItem}
use smart_light.Shipping.Status.{
  created, failed, waiting_pickup, ShipmentEvent, ShippingError, includes, shipment_transitions,
}
use smart_light.Shipping.Tables.{Shipment, ShipmentHistory, ShippingTables}
use smart_light.Shipping.Service.{find_by_id, require_shipment}
use smart_light.Shipping.Service.Create.{
  CreateShipmentDto, Registration, find_order_items, weight_of, new_shipment, number_or_order_taken,
  insert_shipment, shipment_item, system_entry, registration_failed, tracking_taken, register,
  write_shipment, create_shipment,
}
use smart_light.Shipping.Trail.{IsTracked}
use smart_light.Shipping.Trail.Moves.{
  moved_tables-IsTracked, started_tables, started_tables-IsTracked,
}
use smart_light.Shipping.Webhooks.{SameShipments-IsTracked}
use smart_light.Shipping.Creation.{IsReady, create_shipment-cases, ready-taken}

require_shipment-final : (id : ℕ) (db : ShippingTables) → final (require_shipment id db) ≡ db
unfolding require_shipment
require_shipment-final id db = ground arith

module _ (refusal : String) (id : ℕ) (db : ShippingTables) {s : Shipment}
    (found : find_by_id id db ≡ some s) (fresh : s.status ≡ created) (v : IsTracked db) where
  failed-IsTracked : (message : String) → IsTracked (final (registration_failed id message db))
  unfolding registration_failed includes shipment_transitions
  failed-IsTracked message =
      moved_tables-IsTracked db
        (record {
          assign = λ x. record x {
            status = failed;
            failure_reason = some ("provider_error: " ++ message);
          };
          entry = system_entry id ShipmentEvent.failed (some created) failed none message;
          shipment = s;
          found = found;
          same_id = λ x. refl;
          new_status = λ x. refl;
          from_old = ap some (sym fresh);
          permitted = rw fresh refl;
        })
        v

  registered-IsTracked :
      (r : Registration)
      → tracking_taken r.tracking_number db ≡ false
      → IsTracked (final (register refusal id (inr r) db))
  unfolding register includes shipment_transitions
  registered-IsTracked r free = rw free (
      moved_tables-IsTracked db
        (record {
          assign = λ x. record x {
            status = waiting_pickup;
            tracking_number = some r.tracking_number;
            provider_order_code = some r.provider_order_code;
            label_url = elim r.label_url [ none ↦ x.label_url | some u ↦ some u ];
            estimated_delivery_at = elim r.estimated_delivery_at [
              | none ↦ x.estimated_delivery_at
              | some t ↦ some t
            ];
          };
          entry =
              system_entry id ShipmentEvent.status_changed (some created) waiting_pickup none
                "Registered with Giao Hàng Nhanh";
          shipment = s;
          found = found;
          same_id = λ x. refl;
          new_status = λ x. refl;
          from_old = ap some (sym fresh);
          permitted = rw fresh refl;
        })
        v)

  register_taken :
      (r : Registration)
      → tracking_taken r.tracking_number db ≡ true
      → register refusal id (inr r) db ≡ registration_failed id refusal db
  unfolding register
  register_taken r taken = ground (arith, taken)

  register-IsTracked :
      (answer : String ⊎ Registration) → IsTracked (final (register refusal id answer db))
  unfolding register
  register-IsTracked (inl message) = failed-IsTracked message
  register-IsTracked (inr r) = elim (Bool-cases (tracking_taken r.tracking_number db)) [
    | inl taken ↦ rw (ap final (register_taken r taken)) (failed-IsTracked refusal)
    | inr free ↦ registered-IsTracked r free
  ]

module _ (user : ℕ) (number refusal : String) (dto : CreateShipmentDto)
    (answer : String ⊎ Registration) (db : ShippingTables) where
  abbrev items : List OrderItem
  items = find_order_items dto.order_id db

  abbrev first_row : Order → Shipment
  first_row x = new_shipment user number dto x (weight_of dto items db) db.next_id

  abbrev first_entry : ShipmentHistory
  first_entry =
      system_entry db.next_id ShipmentEvent.created none created (some user) "Shipment created"

  -- The tables when the carrier is called.
  abbrev inserted : Order → ShippingTables
  inserted x = record (started_tables (first_row x) first_entry db) {
    shipment_item =
        append
          (map
            (shipment_item
              (record db { next_id = suc db.next_id; shipment = first_row x ∷ db.shipment })
              db.next_id)
            items)
          db.shipment_item;
  }

  inserted-IsTracked : (x : Order) → IsTracked db → IsTracked (inserted x)
  inserted-IsTracked x v =
      SameShipments-IsTracked (started_tables (first_row x) first_entry db) (inserted x)
        (record { shipment = refl; history = refl; next = omega arith })
        (started_tables-IsTracked (first_row x) first_entry db refl refl refl refl refl v)

  found_inserted : (x : Order) → find_by_id db.next_id (inserted x) ≡ some (first_row x)
  unfolding find_by_id find_first
  found_inserted x = ground arith

  module _ {o : Order} (ready : IsReady user number refusal dto answer db o)
      (free : number_or_order_taken number dto.order_id db ≡ false) where
    created_thrown :
        {e : ShippingError} {s : ShippingTables}
        → register refusal db.next_id answer (inserted o) ≡ err e s
        → create_shipment user number refusal dto answer db ≡ err e s
    unfolding create_shipment write_shipment insert_shipment
    created_thrown thrown = ground (
      arith, ready.carrier, ready.found, ready.own, ready.shippable, ready.no_active, ready.filled,
      ready.light, free, thrown,
    )

    created_made :
        {s : ShippingTables}
        → register refusal db.next_id answer (inserted o) ≡ ok tt s
        → create_shipment user number refusal dto answer db ≡ require_shipment db.next_id s
    unfolding create_shipment write_shipment insert_shipment
    created_made made = ground (
      arith, ready.carrier, ready.found, ready.own, ready.shippable, ready.no_active, ready.filled,
      ready.light, free, made,
    )

    ready-IsTracked :
        IsTracked db → IsTracked (final (create_shipment user number refusal dto answer db))
    ready-IsTracked v = elim (Outcome-cases (register refusal db.next_id answer (inserted o))) [
      | inr (e, s, thrown) ↦ rw (created_thrown thrown) (rw (ap final thrown) at there)
      | inl (_, s, made) ↦
          rw (created_made made, require_shipment-final db.next_id s) (rw (ap final made) at there)
    ]
      where
        there : IsTracked (final (register refusal db.next_id answer (inserted o)))
        there =
            register-IsTracked refusal db.next_id (inserted o) (found_inserted o) refl
              (inserted-IsTracked o v) answer

  pub create_shipment-IsTracked :
      IsTracked db → IsTracked (final (create_shipment user number refusal dto answer db))
  create_shipment-IsTracked v = elim (create_shipment-cases user number refusal dto answer db) [
    | inl (e, thrown) ↦ rw thrown v
    | inr (o, ready) ↦ elim (Bool-cases (number_or_order_taken number dto.order_id db)) [
      | inl taken ↦ rw (ready-taken user number refusal dto answer db ready taken) v
      | inr free ↦ ready-IsTracked ready free v
    ]
  ]
