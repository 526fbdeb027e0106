-- ===== src/Inventory/Calls/Changes.antt =====
-- Each call of the stock contract is one change of the stock tables, or none; a call that throws
-- leaves the database as it was.
use smart_light.Prelude.{
  pos, leb_ℤ, true, none, ◌≡◌, refl, arith, inl, inr, Bool-cases, Option-cases, final,
}
use smart_light.Database.{Database}
use smart_light.Inventory.Change.{Statement, test, Change, same}
use smart_light.Inventory.Change.Soundness.{IsValid}
use smart_light.Inventory.Service as Service
use smart_light.Inventory.Service.{find_by_variant}
use smart_light.Inventory.Calls.{found_by_id, moved_after}
use smart_light.Inventory.Calls.Contract.{
  reservation_movement, reserve_stock_made, reserve_stock_refused, release_movement,
  release_stock_made, sale_movement, confirm_sale_made, confirm_sale_refused, restore_movement,
  restore_stock_made,
}

-- The calls that ask for nothing, or for a variant that has no row.
pub reserve_stock_idle :
    (a : Service.ReserveArgs) (db : Database)
    → leb_ℤ a.quantity (pos 0) ≡ true
    → final (Service.reserve_stock a db) ≡ db
unfolding Service.reserve_stock
reserve_stock_idle a db h = ground arith

pub reserve_stock_unknown :
    (a : Service.ReserveArgs) (db : Database)
    → find_by_variant a.variant_id db ≡ none
    → final (Service.reserve_stock a db) ≡ db
unfolding Service.reserve_stock
reserve_stock_unknown a db h = ground arith

pub reserve_stock-Change :
    (a : Service.ReserveArgs) (db : Database)
    → IsValid db
    → Change db (final (Service.reserve_stock a db))
reserve_stock-Change a db v = elim (Bool-cases (leb_ℤ a.quantity (pos 0))) [
  | inl idle ↦ same (reserve_stock_idle a db idle)
  | inr p ↦ elim (Option-cases (find_by_variant a.variant_id db)) [
    | inl unknown ↦ same (reserve_stock_unknown a db unknown)
    | inr (r, found) ↦ elim (Bool-cases (leb_ℤ a.quantity r.available)) [
      | inl enough ↦ rw (reserve_stock_made a db v found p enough) (
          moved_after Statement.reserving a.quantity r (reservation_movement a db v found p) db _
            refl refl (omega arith) (found_by_id a.variant_id db v found) p (ground arith) refl refl
            refl refl refl)
      | inr short ↦ rw (reserve_stock_refused a db v found p short) (same refl)
    ]
  ]
]

pub release_stock_idle :
    (a : Service.ReleaseArgs) (db : Database)
    → leb_ℤ a.quantity (pos 0) ≡ true
    → final (Service.release_stock a db) ≡ db
unfolding Service.release_stock
release_stock_idle a db h = ground arith

pub release_stock_unknown :
    (a : Service.ReleaseArgs) (db : Database)
    → find_by_variant a.variant_id db ≡ none
    → final (Service.release_stock a db) ≡ db
unfolding Service.release_stock
release_stock_unknown a db h = ground arith

pub release_stock-Change :
    (a : Service.ReleaseArgs) (db : Database)
    → IsValid db
    → Change db (final (Service.release_stock a db))
release_stock-Change a db v = elim (Bool-cases (leb_ℤ a.quantity (pos 0))) [
  | inl idle ↦ same (release_stock_idle a db idle)
  | inr p ↦ elim (Option-cases (find_by_variant a.variant_id db)) [
    | inl unknown ↦ same (release_stock_unknown a db unknown)
    | inr (r, found) ↦ rw (release_stock_made a db v found p) (
        moved_after Statement.releasing a.quantity r (release_movement a db v found p) db _ refl
          refl (omega arith) (found_by_id a.variant_id db v found) p (ground arith) refl refl refl
          refl refl)
  ]
]

pub confirm_sale_idle :
    (a : Service.SaleArgs) (db : Database)
    → leb_ℤ a.quantity (pos 0) ≡ true
    → final (Service.confirm_sale a db) ≡ db
unfolding Service.confirm_sale
confirm_sale_idle a db h = ground arith

pub confirm_sale_unknown :
    (a : Service.SaleArgs) (db : Database)
    → find_by_variant a.variant_id db ≡ none
    → final (Service.confirm_sale a db) ≡ db
unfolding Service.confirm_sale
confirm_sale_unknown a db h = ground arith

pub confirm_sale-Change :
    (a : Service.SaleArgs) (db : Database)
    → IsValid db
    → Change db (final (Service.confirm_sale a db))
confirm_sale-Change a db v = elim (Bool-cases (leb_ℤ a.quantity (pos 0))) [
  | inl idle ↦ same (confirm_sale_idle a db idle)
  | inr p ↦ elim (Option-cases (find_by_variant a.variant_id db)) [
    | inl unknown ↦ same (confirm_sale_unknown a db unknown)
    | inr (r, found) ↦ elim (Bool-cases (test Statement.selling r.id a.quantity r)) [
      | inl enough ↦ rw (confirm_sale_made a db v found p enough) (
          moved_after Statement.selling a.quantity r (sale_movement a db v found p) db _ refl refl
            (omega arith) (found_by_id a.variant_id db v found) p enough refl refl refl refl refl)
      | inr short ↦ rw (confirm_sale_refused a db v found p short) (same refl)
    ]
  ]
]

pub restore_stock_idle :
    (a : Service.RestoreArgs) (db : Database)
    → leb_ℤ a.quantity (pos 0) ≡ true
    → final (Service.restore_stock a db) ≡ db
unfolding Service.restore_stock
restore_stock_idle a db h = ground arith

pub restore_stock_unknown :
    (a : Service.RestoreArgs) (db : Database)
    → find_by_variant a.variant_id db ≡ none
    → final (Service.restore_stock a db) ≡ db
unfolding Service.restore_stock
restore_stock_unknown a db h = ground arith

pub restore_stock-Change :
    (a : Service.RestoreArgs) (db : Database)
    → IsValid db
    → Change db (final (Service.restore_stock a db))
restore_stock-Change a db v = elim (Bool-cases (leb_ℤ a.quantity (pos 0))) [
  | inl idle ↦ same (restore_stock_idle a db idle)
  | inr p ↦ elim (Option-cases (find_by_variant a.variant_id db)) [
    | inl unknown ↦ same (restore_stock_unknown a db unknown)
    | inr (r, found) ↦ rw (restore_stock_made a db v found p) (
        moved_after Statement.restoring a.quantity r (restore_movement a db v found p) db _ refl
          refl (omega arith) (found_by_id a.variant_id db v found) p (ground arith) refl (inr refl)
          refl refl refl)
  ]
]
