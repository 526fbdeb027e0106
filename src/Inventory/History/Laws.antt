-- ===== src/Inventory/History/Laws.antt =====
-- What holds after every sequence of calls of the inventory module.
use smart_light.Prelude.{ℕ, List, [], ◌∷◌, Option, ◌≡◌, arith, final}
use smart_light.Table.{All}
use smart_light.Database.{Database}
use smart_light.Inventory.Adjust.{
  BulkDto, BulkItem, item_dto, bulk_item, bulk_items, bulk_adjust, adjust_stock,
}
use smart_light.Inventory.Change.{Change}
use smart_light.Inventory.Change.Soundness.{IsValid, Change-IsValid}
use smart_light.Inventory.Change.Journal.{IsAccounted, Change-IsAccounted}
use smart_light.Inventory.Calls.Changes.{
  reserve_stock-Change, release_stock-Change, confirm_sale-Change, restore_stock-Change,
}
use smart_light.Inventory.Calls.Administration.{adjust_stock-Change}
use smart_light.Inventory.Calls.Creation.{import_stock-Change}
use smart_light.Inventory.Calls.NewRow.{IsValidated, create_inventory-Change}
use smart_light.Inventory.Calls.Threshold.{update_low_stock_threshold-Change}
use smart_light.Inventory.History.{
  Call, reserves, releases, sells, restores, creates, imports, adjusts, bulk_adjusts,
  sets_threshold, after_call, run,
}

-- The tables are valid, and the journal accounts for the stock on hand.
pub record Holds (db : Database) : Type 0 where
  pub valid : IsValid db
  pub accounted : IsAccounted db

Change-Holds : {db db' : Database} → Change db db' → Holds db → Holds db'
Change-Holds c h = record {
  valid = Change-IsValid c h.valid;
  accounted = Change-IsAccounted c h.valid h.accounted;
}

-- The DTO of a creation has been validated; nothing is asked of the other calls.
abbrev pub IsAllowed : Call → Type 0
IsAllowed (creates dto admin) = IsValidated dto
IsAllowed _ = Unit

-- The loop body keeps what its call left.
pub bulk_item-final :
    (dto : BulkDto) (admin : Option ℕ) (item : BulkItem) (db : Database)
    → (bulk_item dto admin item db).1
      ≡ final (adjust_stock item.product_variant_id (item_dto dto item) admin db)
unfolding bulk_item
bulk_item-final dto admin item db = ground arith

bulk_items-Holds :
    (dto : BulkDto) (admin : Option ℕ) (items : List BulkItem) (db : Database)
    → Holds db
    → Holds (bulk_items dto admin items db).1
unfolding bulk_items
bulk_items-Holds dto admin [] db h = h
bulk_items-Holds dto admin (item ∷ items) db h =
    bulk_items-Holds dto admin items (bulk_item dto admin item db).1 (
      rw (bulk_item-final dto admin item db)
        (Change-Holds (adjust_stock-Change item.product_variant_id _ admin db h.valid) h))

after_call-Holds : (c : Call) (db : Database) → IsAllowed c → Holds db → Holds (after_call c db)
unfolding after_call bulk_adjust
after_call-Holds (reserves a) db _ h = Change-Holds (reserve_stock-Change a db h.valid) h
after_call-Holds (releases a) db _ h = Change-Holds (release_stock-Change a db h.valid) h
after_call-Holds (sells a) db _ h = Change-Holds (confirm_sale-Change a db h.valid) h
after_call-Holds (restores a) db _ h = Change-Holds (restore_stock-Change a db h.valid) h
after_call-Holds (creates dto admin) db d h =
    Change-Holds (create_inventory-Change dto admin db d) h
after_call-Holds (imports dto admin) db _ h =
    Change-Holds (import_stock-Change dto admin db h.valid) h
after_call-Holds (adjusts variant dto admin) db _ h =
    Change-Holds (adjust_stock-Change variant dto admin db h.valid) h
after_call-Holds (bulk_adjusts dto admin) db _ h = bulk_items-Holds dto admin dto.items db h
after_call-Holds (sets_threshold variant threshold) db _ h =
    Change-Holds (update_low_stock_threshold-Change variant threshold db) h

run-Holds : (cs : List Call) (db : Database) → All IsAllowed cs → Holds db → Holds (run cs db)
unfolding run
run-Holds [] db _ h = h
run-Holds (c ∷ cs) db a h = run-Holds cs (after_call c db) a.1 (after_call-Holds c db a.0 h)

-- Whatever calls are made, in any order and whether they return or throw, from tables that are
-- valid and accounted for: ids and variants stay unique, no row has a negative count on hand or reserved, and the
-- available stock never exceeds the stock on hand that is not reserved. The DTO of every creation
-- has been validated.
pub run-IsValid :
    (cs : List Call) (db : Database) → All IsAllowed cs → Holds db → IsValid (run cs db)
run-IsValid cs db a h = (run-Holds cs db a h).valid

-- Whatever calls are made, in any order and whether they return or throw, from tables that are
-- valid and accounted for: the stock on hand of every row is the sum of the movements that the
-- journal holds for it. The DTO of every creation has been validated.
pub run-IsAccounted :
    (cs : List Call) (db : Database) → All IsAllowed cs → Holds db → IsAccounted (run cs db)
run-IsAccounted cs db a h = (run-Holds cs db a h).accounted
