-- ===== src/Inventory/Queries/Laws.antt =====
-- What the queries promise against what the calls that write then do.
use smart_light.Prelude.{
  ℕ, pos, ◌≤ℤ◌, leb_ℤ, Bool, true, false, some, ◌≡◌, refl, sym, arith, inl, inr, Bool-cases,
  Option-cases, ok, Outcome, String, err,
}
use smart_light.Table.Rows.{find_first-holds}
use smart_light.Table.Keys.{find_at}
use smart_light.Database.{Database}
use smart_light.Database.Stock.{Inventory}
use smart_light.Inventory.Errors.{InventoryError}
use smart_light.Inventory.Repository.{find_by_variant_id, default_warehouse_code}
use smart_light.Inventory.Change.Soundness.{IsValid}
use smart_light.Inventory.Service as Service
use smart_light.Inventory.Service.{find_by_variant}
use smart_light.Inventory.Calls.Contract.{reserve_stock_made, reserve_stock_refused}
use smart_light.Inventory.Queries.{get_availability}

-- A variant has one row, so the row in a warehouse is the variant's row.
pub find_by_variant-find_by_variant_id :
    (variant : ℕ) (code : String) (db : Database) {r : Inventory}
    → IsValid db
    → find_by_variant_id variant code db ≡ some r
    → find_by_variant variant db ≡ some r
unfolding find_by_variant find_by_variant_id
find_by_variant-find_by_variant_id variant code db {r} v found =
    let at_key = find_at (λ x. x.product_variant_id) _ db.inventory v.variants found in
    let same_variant : r.product_variant_id ≡ variant =
      ground (arith, find_first-holds _ db.inventory found) in
    rw (← same_variant) at_key

-- The field `success` of the result of a reservation; a call that throws has none.
abbrev pub succeeds : Outcome Database InventoryError Service.ReserveResult → Bool
succeeds (ok r _) = r.success
succeeds (err _ _) = false

succeeds_found :
    (a : Service.ReserveArgs) (db : Database) {r : Inventory}
    → IsValid db
    → find_by_variant a.variant_id db ≡ some r
    → pos 1 ≤ℤ a.quantity
    → succeeds (Service.reserve_stock a db) ≡ leb_ℤ a.quantity r.available
succeeds_found a db {r} v found p = elim (Bool-cases (leb_ℤ a.quantity r.available)) [
  | inl enough ↦ rw (reserve_stock_made a db v found (ground arith) enough) (sym enough)
  | inr short ↦ rw (reserve_stock_refused a db v found (ground arith) short) (sym short)
]

availability_found :
    (variant : ℕ) (db : Database)
    → (get_availability variant db).in_stock ≡ true
    → (r : Inventory) × (find_by_variant_id variant default_warehouse_code db ≡ some r)
      × ((get_availability variant db).available_quantity ≡ r.available)
unfolding get_availability
availability_found variant db h =
    elim (Option-cases (find_by_variant_id variant default_warehouse_code db)) [
      | inl missing ↦ absurd (ground arith)
      | inr (r, found) ↦ (r, found, rw (found, get_availability) refl)
    ]

-- Where a variant is shown as in stock, in tables that are valid, a reservation of one or more
-- pieces succeeds exactly when it asks for no more than the quantity shown.
pub reserve_stock-get_availability :
    (a : Service.ReserveArgs) (db : Database)
    → IsValid db
    → pos 1 ≤ℤ a.quantity
    → (get_availability a.variant_id db).in_stock ≡ true
    → succeeds (Service.reserve_stock a db)
      ≡ leb_ℤ a.quantity (get_availability a.variant_id db).available_quantity
reserve_stock-get_availability a db v p h =
    let (r, found, shown) = availability_found a.variant_id db h in
    rw shown (
      succeeds_found a db v
        (find_by_variant-find_by_variant_id a.variant_id default_warehouse_code db v found) p)
