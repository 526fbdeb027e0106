-- ===== src/Shipping/Service.antt =====
-- modules/shipping/repositories/shipping.repository.ts, and the reads of modules/shipping/service.ts.
pub mod Transition
pub mod Webhook
pub mod Create
use mathlib.Core.List.{reverse}
use smart_light.Prelude.{
  ℕ, String, str_eq, Bool, true, false, ◌&&◌, not, List, ◌∷◌, Option, none, some, ◌==◌, ok, err,
  modify, if◌then◌else◌,
}
use mathlib.Core.List.{reverse}
use smart_light.Table.{find_first, find_many, update}
use smart_light.Shipping.Status.{
  ShipmentStatus, delivered, returned, cancelled, ShippingError, shipment_not_found,
  unauthorized_shipment_access,
}
use smart_light.Shipping.Tables.{Shipment, ShipmentItem, ShipmentHistory, ShippingTables, Ship}

-- `findById`, and the reads of a transaction by the id
unfoldable pub find_by_id : ℕ → ShippingTables → Option Shipment
find_by_id id db = find_first (λ s. s.id == id) db.shipment

unfoldable pub find_by_id_for_user : ℕ → ℕ → ShippingTables → Option Shipment
find_by_id_for_user id user db = find_first (λ s. (s.id == id) && (s.user_id == user)) db.shipment

abbrev pub is_text : String → Option String → Bool
is_text s o = elim o [ none ↦ false | some x ↦ str_eq x s ]

unfoldable pub find_by_tracking_number : String → ShippingTables → Option Shipment
find_by_tracking_number n db = find_first (λ s. is_text n s.tracking_number) db.shipment

unfoldable pub find_by_provider_order_code : String → ShippingTables → Option Shipment
find_by_provider_order_code n db = find_first (λ s. is_text n s.provider_order_code) db.shipment

-- Neither delivered, returned nor cancelled.
abbrev pub is_open : ShipmentStatus → Bool
is_open delivered = false
is_open returned = false
is_open cancelled = false
is_open _ = true

unfoldable pub find_active_by_order_id : ℕ → ShippingTables → Option Shipment
find_active_by_order_id id db = find_first (λ s. (s.order_id == id) && is_open s.status) db.shipment

-- `updateShipment`, `tx.shipment.update`
abbrev pub set_shipment : ℕ → (Shipment → Shipment) → Ship (Unit {0})
set_shipment id f = modify λ db. record db { shipment = update (λ s. s.id == id) f db.shipment }

-- `createHistory`, `tx.shipmentHistory.create`
abbrev pub create_history : ShipmentHistory → Ship (Unit {0})
create_history h = modify λ db. record db { shipment_history = h ∷ db.shipment_history }

pub record ShipmentResponse : Type 0 where
  pub shipment : Shipment
  pub items : List ShipmentItem
  pub history : List ShipmentHistory

-- `mapToResponse`, with the rows that `fullInclude` reads along with the shipment; the
-- history is ordered by `createdAt`, the oldest entry first
unfoldable pub map_to_response : ShippingTables → Shipment → ShipmentResponse
map_to_response db s = record {
  shipment = s;
  items = find_many (λ i. i.shipment_id == s.id) db.shipment_item;
  history = reverse (find_many (λ h. h.shipment_id == s.id) db.shipment_history);
}

-- `requireShipment`, and `findShipment`, which has the same body
unfoldable pub require_shipment : ℕ → Ship ShipmentResponse
require_shipment id db = elim (find_by_id id db) [
  | some s ↦ ok (map_to_response db s) db
  | none ↦ err (shipment_not_found id) db
]

unfoldable pub find_shipment_for_user : ℕ → ℕ → Ship ShipmentResponse
find_shipment_for_user id user db = elim (find_by_id_for_user id user db) [
  | some s ↦ ok (map_to_response db s) db
  | none ↦ elim (find_by_id id db) [
    | some _ ↦ err (unauthorized_shipment_access id user) db
    | none ↦ err (shipment_not_found id) db
  ]
]
