-- ===== src/Shipping/Tables.antt =====
-- The rows that the shipping module reads and writes (apps/api/prisma/schema.prisma: Shipment,
-- ShipmentItem, ShipmentHistory, ShippingWebhookLog), beside those of the orders. Amounts are
-- Decimal(20, 4), counted in ten-thousandths; payloads, sizes and metadata are left out.
use smart_light.Prelude.{ℕ, suc, ℤ, String, Bool, List, Option, Action, ok}
use smart_light.Orders.Tables.{Address, OrderTables}
use smart_light.Shipping.Status.{ShipmentStatus, ShippingProvider, ShipmentEvent, ShippingError}

pub record Shipment : Type 0 where
  pub id : ℕ
  pub shipment_number : String
  pub order_id : ℕ
  pub user_id : ℕ
  pub provider : ShippingProvider
  pub status : ShipmentStatus
  pub tracking_number : Option String
  pub shipping_fee : ℤ
  pub cod_amount : ℤ
  pub weight_grams : ℤ
  pub ship_to : Address
  pub provider_order_code : Option String
  pub label_url : Option String
  pub estimated_delivery_at : Option ℕ
  pub shipped_at : Option ℕ
  pub picked_up_at : Option ℕ
  pub delivered_at : Option ℕ
  pub returned_at : Option ℕ
  pub cancelled_at : Option ℕ
  pub failure_reason : Option String
  pub notes : Option String

pub record ShipmentItem : Type 0 where
  pub shipment_id : ℕ
  pub order_item_id : ℕ
  pub product_variant_id : ℕ
  pub quantity : ℤ
  pub product_name_snapshot : String
  pub variant_name_snapshot : String
  pub sku_snapshot : String
  pub weight_grams_snapshot : ℤ

pub data ActorType : Type 0 where
  customer admin system webhook : ActorType

-- `newStatus` is set by every write.
pub record ShipmentHistory : Type 0 where
  pub shipment_id : ℕ
  pub event : ShipmentEvent
  pub old_status : Option ShipmentStatus
  pub new_status : ShipmentStatus
  pub actor_type : ActorType
  pub actor_id : Option ℕ
  pub actor_name : Option String
  pub message : Option String

-- The text of an event: the carrier's, or one that the service composes of the time of the call.
pub data EventId : Type 0 where
  event : String → EventId
  -- `unknown-${Date.now()}`
  unknown_at : ℕ → EventId
  -- `${shipment.id}-${Date.now()}`
  shipment_at : ℕ → ℕ → EventId

pub record ShippingWebhookLog : Type 0 where
  pub id : ℕ
  pub provider : ShippingProvider
  pub event_id : EventId
  pub event_type : Option String
  pub processed : Bool
  pub error_message : Option String

-- The newest row of a table stands first.
pub record ShippingTables : Type 0 where
  pub orders : OrderTables
  pub shipment : List Shipment
  pub shipment_item : List ShipmentItem
  pub shipment_history : List ShipmentHistory
  pub shipping_webhook_log : List ShippingWebhookLog
  -- `@default(cuid())`: the next id that is given out
  pub next_id : ℕ

abbrev pub Ship : Type 0 → Type 0
Ship A = Action ShippingTables ShippingError A

-- The id of a row that is created.
abbrev pub new_id : Ship ℕ
new_id db = ok db.next_id (record db { next_id = suc db.next_id })
