-- ===== src/Inventory/History.antt =====
-- The inventory module over any sequence of calls.
pub mod Laws
pub mod Bulk
use smart_light.Prelude.{ℕ, ℤ, List, [], ◌∷◌, Option, final}
use smart_light.Database.{Database}
use smart_light.Inventory.Service.{
  ReserveArgs, ReleaseArgs, SaleArgs, RestoreArgs, reserve_stock, release_stock, confirm_sale,
  restore_stock,
}
use smart_light.Inventory.Admin.{CreateDto, ImportDto, create_inventory, import_stock}
use smart_light.Inventory.Adjust.{
  AdjustmentDto, BulkDto, adjust_stock, bulk_adjust, update_low_stock_threshold,
}

-- The calls of InventoryService that write.
pub data Call : Type 0 where
  reserves : ReserveArgs → Call
  releases : ReleaseArgs → Call
  sells : SaleArgs → Call
  restores : RestoreArgs → Call
  creates : CreateDto → Option ℕ → Call
  imports : ImportDto → Option ℕ → Call
  adjusts : ℕ → AdjustmentDto → Option ℕ → Call
  bulk_adjusts : BulkDto → Option ℕ → Call
  sets_threshold : ℕ → ℤ → Call

-- The database after a call, whether it returned or threw.
unfoldable pub after_call : Call → Database → Database
after_call (reserves a) db = final (reserve_stock a db)
after_call (releases a) db = final (release_stock a db)
after_call (sells a) db = final (confirm_sale a db)
after_call (restores a) db = final (restore_stock a db)
after_call (creates dto admin) db = final (create_inventory dto admin db)
after_call (imports dto admin) db = final (import_stock dto admin db)
after_call (adjusts variant dto admin) db = final (adjust_stock variant dto admin db)
after_call (bulk_adjusts dto admin) db = (bulk_adjust dto admin db).1
after_call (sets_threshold variant threshold) db =
    final (update_low_stock_threshold variant threshold db)

unfoldable pub run : List Call → Database → Database
run [] db = db
run (c ∷ cs) db = run cs (after_call c db)
