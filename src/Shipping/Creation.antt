-- ===== src/Shipping/Creation.antt =====
-- `createShipment` branch by branch (modules/shipping/service.ts, lines 193-359).
pub mod Recorded
use smart_light.Prelude.{
  ℕ, suc, ◌≤◌, ℤ, leb_ℤ, String, Bool, true, false, ◌||◌, not, List, [], ◌∷◌, map, Option, none,
  some, ◌≡◌, ◌⊎◌, refl, ap, ◌∙◌, sym, arith, ◌==◌, ==_iff, ==_refl, inl, inr, Bool-cases,
  Option-cases, Outcome, Outcome-cases, ok, err, final,
}
use mathlib.Core.List.{◌++◌}
use smart_light.Table.{find_first, update, All}
use smart_light.Table.Rows.{find_first-fits}
use smart_light.Orders.Tables.{Order, OrderItem}
use smart_light.Shipping.Status.{
  ShipmentStatus, ShippingProvider, ghn, same_provider, ShipmentEvent, ShippingError,
  invalid_provider, order_not_found, unauthorized_shipment_access, order_not_shippable,
  active_shipment_exists, order_without_items, weight_exceeds_limit, unique_violation, includes,
  shipment_transitions,
}
use smart_light.Shipping.Tables.{Shipment, ShipmentItem, ShipmentHistory, ShippingTables}
use smart_light.Shipping.Service.{
  find_by_id, find_active_by_order_id, ShipmentResponse, require_shipment,
}
use smart_light.Shipping.Service.Create.{
  CreateShipmentDto, Registration, find_order_for_shipping, find_order_items, is_shippable,
  max_weight_grams, weight_of, is_empty, new_shipment, number_or_order_taken, insert_shipment,
  shipment_item, system_entry, registration_failed, tracking_taken, register, write_shipment,
  create_shipment,
}
use smart_light.Shipping.Trail.{step, IsTracked}
use smart_light.Shipping.Trail.Moves.{
  Move, moved_tables, moved_tables-IsTracked, started_tables, started_tables-IsTracked,
}

module _ (user : ℕ) (number refusal : String) (dto : CreateShipmentDto)
    (answer : String ⊎ Registration) (db : ShippingTables) where
  -- An order that may be shipped: what is asked for before anything is written.
  pub record IsReady (o : Order) : Type 0 where
    pub carrier : same_provider dto.provider ghn ≡ true
    pub found : find_order_for_shipping dto.order_id db ≡ some o
    pub own : (o.user_id == user) ≡ true
    pub shippable : is_shippable o.status ≡ true
    pub no_active : find_active_by_order_id dto.order_id db ≡ none
    pub filled : is_empty (find_order_items dto.order_id db) ≡ false
    pub light : leb_ℤ (weight_of dto (find_order_items dto.order_id db) db) max_weight_grams ≡ true

  own-cases :
      {o : Order}
      → same_provider dto.provider ghn ≡ true
      → find_order_for_shipping dto.order_id db ≡ some o
      → (o.user_id == user) ≡ true
      → ((e : ShippingError) × (create_shipment user number refusal dto answer db ≡ err e db))
        ⊎ IsReady o
  unfolding create_shipment
  own-cases {o} carrier found own = elim (Bool-cases (is_shippable o.status)) [
    | inr other ↦
        inl (order_not_shippable dto.order_id o.status, ground (arith, carrier, found, own, other))
    | inl shippable ↦ elim (Option-cases (find_active_by_order_id dto.order_id db)) [
      | inr (s, active) ↦ inl (
        active_shipment_exists dto.order_id s.id,
        ground (arith, carrier, found, own, shippable, active),
      )
      | inl no_active ↦ elim (Bool-cases (is_empty (find_order_items dto.order_id db))) [
        | inl empty ↦ inl (
          order_without_items dto.order_id,
          ground (arith, carrier, found, own, shippable, no_active, empty),
        )
        | inr filled ↦
            elim (Bool-cases
              (leb_ℤ (weight_of dto (find_order_items dto.order_id db) db) max_weight_grams)) [
                | inr heavy ↦ inl (
                  weight_exceeds_limit (weight_of dto (find_order_items dto.order_id db) db),
                  ground (arith, carrier, found, own, shippable, no_active, filled, heavy),
                )
                | inl light ↦ inr (record {
                  carrier = carrier;
                  found = found;
                  own = own;
                  shippable = shippable;
                  no_active = no_active;
                  filled = filled;
                  light = light;
                })
              ]
      ]
    ]
  ]

  pub create_shipment-cases :
      ((e : ShippingError) × (create_shipment user number refusal dto answer db ≡ err e db))
      ⊎ ((o : Order) × IsReady o)
  unfolding create_shipment
  create_shipment-cases = elim (Bool-cases (same_provider dto.provider ghn)) [
    | inr other ↦ inl (invalid_provider dto.provider, ground (arith, other))
    | inl carrier ↦ elim (Option-cases (find_order_for_shipping dto.order_id db)) [
      | inl missing ↦ inl (order_not_found dto.order_id, ground (arith, carrier, missing))
      | inr (o, found) ↦ elim (Bool-cases (o.user_id == user)) [
        | inr foreign ↦ inl (
          unauthorized_shipment_access dto.order_id user,
          ground (arith, carrier, found, foreign),
        )
        | inl own ↦ elim (own-cases carrier found own) [
          | inl thrown ↦ inl thrown
          | inr ready ↦ inr (o, ready)
        ]
      ]
    ]
  ]

  pub ready-taken :
      {o : Order}
      → IsReady o
      → number_or_order_taken number dto.order_id db ≡ true
      → create_shipment user number refusal dto answer db ≡ err unique_violation db
  unfolding create_shipment write_shipment insert_shipment
  ready-taken r taken =
      ground (arith, r.carrier, r.found, r.own, r.shippable, r.no_active, r.filled, r.light, taken)

  order_taken :
      {s : Shipment}
      → find_first (λ x. x.order_id == dto.order_id) db.shipment ≡ some s
      → number_or_order_taken number dto.order_id db ≡ true
  unfolding number_or_order_taken
  order_taken shipped = ground (arith, shipped)

  -- An order that has a shipment already, in whatever state, gets no other: `createShipment` throws and
  -- writes nothing. A shipment that was FAILED, RETURNED or CANCELLED keeps the UNIQUE order_id.
  pub create_shipment_throws :
      {s : Shipment}
      → find_first (λ x. x.order_id == dto.order_id) db.shipment ≡ some s
      → (e : ShippingError) × (create_shipment user number refusal dto answer db ≡ err e db)
  create_shipment_throws shipped = elim create_shipment-cases [
    | inl thrown ↦ thrown
    | inr (o, ready) ↦ (unique_violation, ready-taken ready (order_taken shipped))
  ]
