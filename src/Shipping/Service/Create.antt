-- ===== src/Shipping/Service/Create.antt =====
-- modules/shipping/service.ts, lines 193-359 and 766-771: `createShipment`. What the gateway answers is
-- an argument: a registration, or the text of what it threw. `generateShipmentNumber` is one too, since
-- it reads the clock.
use Prim.Native.String.{◌++◌}
use smart_light.Prelude.{
  ℕ, ℤ, pos, ◌+ℤ◌, ◌*ℤ◌, leb_ℤ, String, str_eq, Bool, true, false, ◌&&◌, ◌||◌, not, List, [], ◌∷◌,
  map, Option, none, some, ◌==◌, ◌⊎◌, inl, inr, throw, throw_if, pure, gets, or_throw, if_else,
  modify, if◌then◌else◌, ◌>>=◌, ◌>>◌,
}
use mathlib.Core.List.{◌++◌ as append}
use smart_light.Table.{find_first, find_many}
use smart_light.Orders.Status.{
  OrderStatus, processing, packed, shipped, delivering, delivered as order_delivered,
}
use smart_light.Orders.Tables.{Address, Order, OrderItem, OrderPaymentStatus}
use smart_light.Shipping.Status.{
  ShipmentStatus, ShippingProvider, ghn, same_provider, ShipmentEvent, status_changed,
  order_not_found, order_not_shippable, order_without_items, active_shipment_exists,
  invalid_provider, weight_exceeds_limit, unauthorized_shipment_access, unique_violation,
}
use smart_light.Shipping.Tables.{
  Shipment, ShipmentItem, system, ShipmentHistory, ShippingTables, Ship, new_id,
}
use smart_light.Shipping.Service.{
  find_active_by_order_id, find_by_tracking_number, set_shipment, create_history, ShipmentResponse,
  require_shipment,
}

pub record CreateShipmentDto : Type 0 where
  pub order_id : ℕ
  -- `toProviderEnum(dto.provider)`, or the default provider
  pub provider : ShippingProvider
  pub weight_grams : Option ℤ
  pub notes : Option String

pub record Registration : Type 0 where
  pub tracking_number : String
  pub provider_order_code : String
  pub label_url : Option String
  pub estimated_delivery_at : Option ℕ

unfoldable pub find_order_for_shipping : ℕ → ShippingTables → Option Order
find_order_for_shipping id db = find_first (λ o. (o.id == id) && not o.is_deleted) db.orders.order

unfoldable pub find_order_items : ℕ → ShippingTables → List OrderItem
find_order_items id db = find_many (λ i. i.order_id == id) db.orders.order_item

-- SHIPPABLE_ORDER_STATUSES
abbrev pub is_shippable : OrderStatus → Bool
is_shippable processing = true
is_shippable packed = true
is_shippable shipped = true
is_shippable delivering = true
is_shippable order_delivered = true
is_shippable _ = false

-- `it.variant?.weightGrams ?? default`
unfoldable pub weight_or : ℤ → OrderItem → ShippingTables → ℤ
weight_or default i db =
    elim (find_first (λ v. v.id == i.product_variant_id) db.orders.product_variant) [
      | none ↦ default
      | some v ↦ elim v.weight_grams [ none ↦ default | some w ↦ w ]
    ]

unfoldable pub compute_order_weight : ShippingTables → List OrderItem → ℤ
compute_order_weight db [] = pos 0
compute_order_weight db (i ∷ t) =
    weight_or (pos 100) i db *ℤ i.quantity +ℤ compute_order_weight db t

-- `SHIPPING_LIMITS.MAX_WEIGHT_GRAMS`
abbrev pub max_weight_grams : ℤ
max_weight_grams = pos 50000

abbrev pub is_paid : OrderPaymentStatus → Bool
is_paid OrderPaymentStatus.paid = true
is_paid _ = false

-- 500000 and 25000 in ten-thousandths
abbrev pub shipping_fee : Order → ℤ
shipping_fee o = if leb_ℤ (pos 5000000000) o.totals.grand_total then pos 0 else pos 250000000

abbrev pub cod_amount : Order → ℤ
cod_amount o = if is_paid o.payment_status then pos 0 else o.totals.grand_total

-- `input.shipTo.… ?? ''`, but for the ward
abbrev pub or_blank : Option String → Option String
or_blank none = some ""
or_blank (some s) = some s

abbrev pub ship_to : Address → Address
ship_to a = record {
  full_name = or_blank a.full_name;
  phone = or_blank a.phone;
  province = or_blank a.province;
  district = or_blank a.district;
  ward = a.ward;
  detail = or_blank a.detail;
}

abbrev pub new_shipment : ℕ → String → CreateShipmentDto → Order → ℤ → ℕ → Shipment
new_shipment user number dto o weight id = record {
  id = id;
  shipment_number = number;
  order_id = dto.order_id;
  user_id = user;
  provider = dto.provider;
  status = ShipmentStatus.created;
  tracking_number = none;
  shipping_fee = shipping_fee o;
  cod_amount = cod_amount o;
  weight_grams = weight;
  ship_to = ship_to o.shipping;
  provider_order_code = none;
  label_url = none;
  estimated_delivery_at = none;
  shipped_at = none;
  picked_up_at = none;
  delivered_at = none;
  returned_at = none;
  cancelled_at = none;
  failure_reason = none;
  notes = dto.notes;
}

abbrev pub is_found {ℓ} : {A : Type ℓ} → Option A → Bool
is_found none = false
is_found (some _) = true

-- `shipment.create`: order_id and shipmentNumber are UNIQUE.
unfoldable pub number_or_order_taken : String → ℕ → ShippingTables → Bool
number_or_order_taken number order db =
    is_found (find_first (λ s. s.order_id == order) db.shipment)
    || is_found (find_first (λ s. str_eq s.shipment_number number) db.shipment)

unfoldable pub insert_shipment : ℕ → String → CreateShipmentDto → Order → ℤ → Ship ℕ
insert_shipment user number dto o weight = do
  taken ← gets (number_or_order_taken number dto.order_id)
  throw_if taken unique_violation
  id ← new_id
  modify λ db. record db { shipment = new_shipment user number dto o weight id ∷ db.shipment }
  pure id

abbrev pub shipment_item : ShippingTables → ℕ → OrderItem → ShipmentItem
shipment_item db id i = record {
  shipment_id = id;
  order_item_id = i.id;
  product_variant_id = i.product_variant_id;
  quantity = i.quantity;
  product_name_snapshot = i.product_name_snapshot;
  variant_name_snapshot = i.variant_name_snapshot;
  sku_snapshot = i.sku_snapshot;
  weight_grams_snapshot = weight_or (pos 0) i db;
}

abbrev pub system_entry :
    ℕ → ShipmentEvent → Option ShipmentStatus → ShipmentStatus → Option ℕ → String → ShipmentHistory
system_entry id event old new by message = record {
  shipment_id = id;
  event = event;
  old_status = old;
  new_status = new;
  actor_type = system;
  actor_id = by;
  actor_name = none;
  message = some message;
}

abbrev pub tracking_taken : String → ShippingTables → Bool
tracking_taken n db = is_found (find_by_tracking_number n db)

-- The `catch` of the call of the carrier.
unfoldable pub registration_failed : ℕ → String → Ship (Unit {0})
registration_failed id message = do
  set_shipment id (λ s. record s {
    status = ShipmentStatus.failed;
    failure_reason = some ("provider_error: " ++ message);
  })
  create_history (
      system_entry id ShipmentEvent.failed (some ShipmentStatus.created) ShipmentStatus.failed none
        message)

-- A tracking number that is taken makes the update throw inside the `try`; `refusal` is the database's
-- text.
unfoldable pub register : String → ℕ → String ⊎ Registration → Ship (Unit {0})
register refusal id (inl message) = registration_failed id message
register refusal id (inr r) = do
  taken ← gets (tracking_taken r.tracking_number)
  if_else taken (registration_failed id refusal) (do
    set_shipment id (λ s. record s {
      status = ShipmentStatus.waiting_pickup;
      tracking_number = some r.tracking_number;
      provider_order_code = some r.provider_order_code;
      label_url = elim r.label_url [ none ↦ s.label_url | some u ↦ some u ];
      estimated_delivery_at = elim r.estimated_delivery_at [
        | none ↦ s.estimated_delivery_at
        | some t ↦ some t
      ];
    })
    create_history (
        system_entry id status_changed (some ShipmentStatus.created) ShipmentStatus.waiting_pickup
          none "Registered with Giao Hàng Nhanh"))

abbrev pub active_id : Option Shipment → Option ℕ
active_id none = none
active_id (some s) = some s.id

abbrev pub throw_active : ℕ → Option Shipment → Ship (Unit {0})
throw_active order none = pure tt
throw_active order (some s) = throw (active_shipment_exists order s.id)

abbrev pub is_empty : List OrderItem → Bool
is_empty [] = true
is_empty (i ∷ t) = false

abbrev pub weight_of : CreateShipmentDto → List OrderItem → ShippingTables → ℤ
weight_of dto items db = elim dto.weight_grams [ none ↦ compute_order_weight db items | some w ↦ w ]

-- The writes, which run in no transaction.
unfoldable pub write_shipment :
    ℕ
    → String
    → String
    → CreateShipmentDto
    → String ⊎ Registration
    → Order
    → List OrderItem
    → ℤ
    → Ship ℕ
write_shipment user number refusal dto answer o items weight = do
  id ← insert_shipment user number dto o weight
  modify
      λ db. record db { shipment_item = append (map (shipment_item db id) items) db.shipment_item }
  create_history (
      system_entry id ShipmentEvent.created none ShipmentStatus.created (some user)
        "Shipment created")
  register refusal id answer
  pure id

unfoldable pub create_shipment :
    ℕ → String → String → CreateShipmentDto → String ⊎ Registration → Ship ShipmentResponse
create_shipment user number refusal dto answer = do
  throw_if (not (same_provider dto.provider ghn)) (invalid_provider dto.provider)
  o ← (do or_throw (← gets (find_order_for_shipping dto.order_id)) (order_not_found dto.order_id))
  throw_if (not (o.user_id == user)) (unauthorized_shipment_access dto.order_id user)
  throw_if (not (is_shippable o.status)) (order_not_shippable dto.order_id o.status)
  existing ← gets (find_active_by_order_id dto.order_id)
  throw_active dto.order_id existing
  items ← gets (find_order_items dto.order_id)
  throw_if (is_empty items) (order_without_items dto.order_id)
  weight ← gets (weight_of dto items)
  throw_if (not (leb_ℤ weight max_weight_grams)) (weight_exceeds_limit weight)
  id ← write_shipment user number refusal dto answer o items weight
  require_shipment id
