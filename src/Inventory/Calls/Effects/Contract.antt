-- ===== src/Inventory/Calls/Effects/Contract.antt =====
-- Each call of the stock contract by its counts (modules/inventory/service.ts, lines 118-362).
use smart_light.Prelude.{
  pos, ◌-ℤ◌, ◌≤ℤ◌, leb_ℤ, ◌≡◌, refl, sym, ◌∙◌, inl, inr, arith, ==_refl, Bool-cases, Option-cases,
  final,
}
use mathlib.Core.Path.{subst}
use smart_light.Database.{Database}
use smart_light.Database.Stock.{reservation, release, sale, return}
use smart_light.Inventory.Change.{Statement, test}
use smart_light.Inventory.Change.Soundness.{IsValid}
use smart_light.Inventory.Service as Service
use smart_light.Inventory.Service.{find_by_variant, find_by_id}
use smart_light.Inventory.Calls.Contract.{
  reservation_movement, reserve_stock_made, reserve_stock_refused, release_movement,
  release_stock_made, sale_movement, confirm_sale_made, confirm_sale_refused, restore_movement,
  restore_stock_made,
}
use smart_light.Inventory.Calls.Changes.{
  reserve_stock_idle, reserve_stock_unknown, release_stock_idle, release_stock_unknown,
  confirm_sale_idle, confirm_sale_unknown, restore_stock_idle, restore_stock_unknown,
}
use smart_light.Inventory.Calls.Effects.{
  AfterReserving, AfterReleasing, AfterSelling, AfterRestoring, Effect, written, idle-Refused,
  unknown-Refused, some_inventory,
}

module _ (db : Database) (v : IsValid db) where
  reserve_stock-Effect :
      (a : Service.ReserveArgs)
      → Effect a.variant_id a.quantity reservation
          (pos 0 -ℤ a.quantity)
          (λ r. a.quantity ≤ℤ r.available)
          (AfterReserving a.quantity)
          db
          (final (Service.reserve_stock a db))
  reserve_stock-Effect a = elim (Bool-cases (leb_ℤ a.quantity (pos 0))) [
    | inl idle ↦ inl (idle-Refused _ idle (reserve_stock_idle a db idle))
    | inr p ↦ elim (Option-cases (find_by_variant a.variant_id db)) [
      | inl unknown ↦ inl (unknown-Refused _ unknown (reserve_stock_unknown a db unknown))
      | inr (r, found) ↦ elim (Bool-cases (leb_ℤ a.quantity r.available)) [
        | inr short ↦ rw (reserve_stock_refused a db v found p short) (
            inl (record {
              same = refl;
              why = λ x known positive allowed.
                  let same : r ≡ x = some_inventory (sym found ∙ known) in
                  grind (arith, short, subst (λ y. a.quantity ≤ℤ y.available) (sym same) allowed);
            }))
        | inl enough ↦ rw (reserve_stock_made a db v found p enough) (
            inr (
              written a.variant_id Statement.reserving a.quantity
                (reservation_movement a db v found p) db v found _ _ _ _ p (grind (arith, enough))
                (ground arith)
                (record { on_hand_count = refl; reserved_count = refl; available_count = refl })
                refl refl refl refl refl refl))
      ]
    ]
  ]

  release_stock-Effect :
      (a : Service.ReleaseArgs)
      → Effect a.variant_id a.quantity release a.quantity
          (λ r. Unit)
          (AfterReleasing a.quantity)
          db
          (final (Service.release_stock a db))
  release_stock-Effect a = elim (Bool-cases (leb_ℤ a.quantity (pos 0))) [
    | inl idle ↦ inl (idle-Refused _ idle (release_stock_idle a db idle))
    | inr p ↦ elim (Option-cases (find_by_variant a.variant_id db)) [
      | inl unknown ↦ inl (unknown-Refused _ unknown (release_stock_unknown a db unknown))
      | inr (r, found) ↦ rw (release_stock_made a db v found p) (
          inr (
            written a.variant_id Statement.releasing a.quantity (release_movement a db v found p) db
              v found _ _ _ _ p tt (ground arith)
              (record { on_hand_count = refl; reserved_count = refl; available_count = refl }) refl
              refl refl refl refl refl))
    ]
  ]

  restore_stock-Effect :
      (a : Service.RestoreArgs)
      → Effect a.variant_id a.quantity return a.quantity
          (λ r. Unit)
          (AfterRestoring a.quantity)
          db
          (final (Service.restore_stock a db))
  restore_stock-Effect a = elim (Bool-cases (leb_ℤ a.quantity (pos 0))) [
    | inl idle ↦ inl (idle-Refused _ idle (restore_stock_idle a db idle))
    | inr p ↦ elim (Option-cases (find_by_variant a.variant_id db)) [
      | inl unknown ↦ inl (unknown-Refused _ unknown (restore_stock_unknown a db unknown))
      | inr (r, found) ↦ rw (restore_stock_made a db v found p) (
          inr (
            written a.variant_id Statement.restoring a.quantity (restore_movement a db v found p) db
              v found _ _ _ _ p tt (ground arith)
              (record { on_hand_count = refl; reserved_count = refl; available_count = refl }) refl
              refl refl refl refl refl))
    ]
  ]

  confirm_sale-Effect :
      (a : Service.SaleArgs)
      → Effect a.variant_id a.quantity sale
          (pos 0 -ℤ a.quantity)
          (λ r. (a.quantity ≤ℤ r.on_hand) × (a.quantity ≤ℤ r.reserved))
          (AfterSelling a.quantity)
          db
          (final (Service.confirm_sale a db))
  confirm_sale-Effect a = elim (Bool-cases (leb_ℤ a.quantity (pos 0))) [
    | inl idle ↦ inl (idle-Refused _ idle (confirm_sale_idle a db idle))
    | inr p ↦ elim (Option-cases (find_by_variant a.variant_id db)) [
      | inl unknown ↦ inl (unknown-Refused _ unknown (confirm_sale_unknown a db unknown))
      | inr (r, found) ↦ elim (Bool-cases (test Statement.selling r.id a.quantity r)) [
        | inr short ↦ rw (confirm_sale_refused a db v found p short) (
            inl (record {
              same = refl;
              why = λ x known positive allowed.
                  let same : x ≡ r = some_inventory (sym known ∙ found) in
                  let on_hand = subst (λ y. a.quantity ≤ℤ y.on_hand) same allowed.0 in
                  let held = subst (λ y. a.quantity ≤ℤ y.reserved) same allowed.1 in
                  grind (arith, short, on_hand, held, ==_refl r.id);
            }))
        | inl enough ↦ rw (confirm_sale_made a db v found p enough) (
            inr (
              written a.variant_id Statement.selling a.quantity (sale_movement a db v found p) db v
                found _ _ _ _ p ((grind (arith, enough), grind (arith, enough))) enough
                (record { on_hand_count = refl; reserved_count = refl; available_count = refl })
                refl refl refl refl refl refl))
      ]
    ]
  ]

-- In tables that are valid, each call of the stock contract, whether it returns or throws, either
-- leaves the tables as they were, and then its quantity is not positive, its variant has no row, or the
-- row does not pass its guard (enough available for a reservation, enough on hand and reserved for a
-- sale); or its quantity is positive, the row passes the guard, the row's counts change by the quantity
-- as the call says (none below 0 in reserved, and none above on hand in what a release makes
-- available), the row of every other variant is as before, and one movement of the call's type, with
-- the signed quantity and the counts afterwards, is added.
pub stock_contract-Effect :
    (db : Database)
    → IsValid db
    → ((a : Service.ReserveArgs)
        → Effect a.variant_id a.quantity reservation
            (pos 0 -ℤ a.quantity)
            (λ r. a.quantity ≤ℤ r.available)
            (AfterReserving a.quantity)
            db
            (final (Service.reserve_stock a db)))
      × ((a : Service.ReleaseArgs)
          → Effect a.variant_id a.quantity release a.quantity
              (λ r. Unit)
              (AfterReleasing a.quantity)
              db
              (final (Service.release_stock a db)))
      × ((a : Service.SaleArgs)
          → Effect a.variant_id a.quantity sale
              (pos 0 -ℤ a.quantity)
              (λ r. (a.quantity ≤ℤ r.on_hand) × (a.quantity ≤ℤ r.reserved))
              (AfterSelling a.quantity)
              db
              (final (Service.confirm_sale a db)))
      × ((a : Service.RestoreArgs)
          → Effect a.variant_id a.quantity return a.quantity
              (λ r. Unit)
              (AfterRestoring a.quantity)
              db
              (final (Service.restore_stock a db)))
stock_contract-Effect db v = (
  reserve_stock-Effect db v,
  release_stock-Effect db v,
  confirm_sale-Effect db v,
  restore_stock-Effect db v,
)
