-- ===== src/Inventory/Queries.antt =====
-- modules/inventory/service.ts: `getAvailability` and `getInventoryByVariant`.
pub mod Laws
use smart_light.Prelude.{
  ℕ, ℤ, pos, leb_ℤ, ltb_ℤ, Bool, true, false, String, Option, none, some, ◌==◌, if◌then◌else◌, gets,
  or_throw, ◌>>=◌,
}
use smart_light.Table.{find_first}
use smart_light.Database.{Database}
use smart_light.Database.Stock.{Inventory}
use smart_light.Inventory.Errors.{inventory_not_found}
use smart_light.Inventory.Repository.{Inv, find_by_variant_id, default_warehouse_code}
use smart_light.Inventory.Admin.{variant_text, StockDto, map_to_stock_dto}

pub record AvailabilityDto : Type 0 where
  pub variant_id : ℕ
  pub sku : String
  pub in_stock : Bool
  pub available_quantity : ℤ
  pub stock_on_hand : ℤ
  pub stock_reserved : ℤ
  pub low_stock : Bool
  pub max_quantity_per_order : ℤ

-- Only the row in the default warehouse is read.
unfoldable pub get_availability : ℕ → Database → AvailabilityDto
get_availability variant_id db = elim (find_by_variant_id variant_id default_warehouse_code db) [
  | none ↦ record {
    variant_id = variant_id;
    sku = "";
    in_stock = false;
    available_quantity = pos 0;
    stock_on_hand = pos 0;
    stock_reserved = pos 0;
    low_stock = true;
    max_quantity_per_order = pos 0;
  }
  | some inv ↦ record {
    variant_id = variant_id;
    sku =
        variant_text (λ v. v.sku)
          (find_first (λ v. v.id == inv.product_variant_id) db.product_variant);
    in_stock = ltb_ℤ (pos 0) inv.available;
    available_quantity = inv.available;
    stock_on_hand = inv.on_hand;
    stock_reserved = inv.reserved;
    low_stock = leb_ℤ inv.available inv.low_stock_threshold;
    max_quantity_per_order = if ltb_ℤ (pos 0) inv.available then inv.available else pos 0;
  }
]

unfoldable pub get_inventory_by_variant : ℕ → Inv StockDto
get_inventory_by_variant variant_id = do
  inv ← (do
    or_throw (← gets (find_by_variant_id variant_id default_warehouse_code))
        (inventory_not_found variant_id))
  gets λ db. map_to_stock_dto db inv
