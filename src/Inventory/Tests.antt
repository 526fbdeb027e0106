-- ===== src/Inventory/Tests.antt =====
-- The theorems of the inventory module on a small shop.
use smart_light.Prelude.{
  ◌-ℤ◌, ◌≤ℤ◌, pos, negsuc, List, [], ◌∷◌, none, some, ◌≡◌, refl, arith, final, true, false, map,
  ◌-ℤ◌, ◌≤ℤ◌, leb_ℤ, ok,
}
use smart_light.Prelude.Int.{◌+ℤ◌}
use smart_light.Table.{find_first}
use smart_light.Database.{Database}
use smart_light.Database.Stock.{
  Inventory, StockMovement, import, note_text, admin_user, ReleaseReason,
}
use smart_light.Inventory.Service as Service
use smart_light.Inventory.Service.{find_by_variant}
use smart_light.Inventory.Admin.{StockDto}
use smart_light.Inventory.Adjust as Adjust
use smart_light.Inventory.Repository.{retune_row, find_by_variant_id}
use smart_light.Inventory.Change.Soundness.{IsValid}
use smart_light.Inventory.Change.Journal.{IsAccounted, journal_total}
use smart_light.Inventory.History.{Call, reserves, sells, adjusts, run}
use smart_light.Inventory.History.Laws.{Holds, run-IsValid, run-IsAccounted}
use smart_light.Inventory.History.Bulk.{bulk_adjust-run, adjusts_item, successes, single_results}
use smart_light.Inventory.Oversell.{granted-available, granted, after_reservations}
use smart_light.Inventory.Queries.{get_availability}
use smart_light.Inventory.Queries.Laws.{reserve_stock-get_availability, succeeds}
use smart_light.Inventory.Calls.Rows.{release-reserve_stock, confirm_sale_subtracts_twice}
use smart_light.Inventory.Calls.Effects.{
  Effect, AfterReserving, AfterReleasing, AfterSelling, AfterRestoring,
}
use smart_light.Inventory.Calls.Effects.Contract.{stock_contract-Effect}
use smart_light.Database.Stock.{reservation, release, sale, return}
use smart_light.Inventory.Calls.Threshold.{update_low_stock_threshold_stale}

-- Ten lamps of variant 7, none reserved.
abbrev lamps : Inventory
lamps = record {
  id = 0;
  product_variant_id = 7;
  warehouse_code = "MAIN";
  on_hand = pos 10;
  reserved = pos 0;
  available = pos 10;
  low_stock_threshold = pos 5;
  allow_backorder = false;
}

abbrev delivery : StockMovement
delivery = record {
  id = 1;
  inventory_id = 0;
  product_variant_id = 7;
  type = import;
  quantity = pos 10;
  on_hand_after = pos 10;
  reserved_after = pos 0;
  reason = note_text "Initial stock creation";
  reference_type = "INITIAL_STOCK";
  reference_id = 0;
  created_by_type = admin_user;
  created_by_id = none;
}

abbrev shop : Database
shop = record {
  product_variant =
      record { id = 7; sku = "LED"; product_name = "Lamp"; product_slug = "lamp" } ∷ [];
  inventory = lamps ∷ [];
  stock_movement = delivery ∷ [];
  inventory_adjustment = [];
  next_id = 2;
}

shop-IsValid : IsValid shop
unfolding ◌+ℤ◌
shop-IsValid = record {
  ids = (tt, tt);
  variants = (tt, tt);
  sound = (
    record { on_hand_nonneg = omega arith; reserved_nonneg = omega arith; covered = omega arith },
    tt,
  );
  rows_numbered = (omega arith, tt);
  movements_numbered = (omega arith, tt);
}

shop-Holds : Holds shop
unfolding journal_total ◌+ℤ◌
shop-Holds = record { valid = shop-IsValid; accounted = (refl, tt) }

abbrev three_lamps : Service.ReserveArgs
three_lamps = record {
  variant_id = 7;
  quantity = pos 3;
  reference_type = "CHECKOUT";
  reference_id = 50;
  actor_id = none;
}

abbrev eight_lamps : Service.ReserveArgs
eight_lamps = record three_lamps { quantity = pos 8 }

abbrev sale_of_three : Service.SaleArgs
sale_of_three = record { variant_id = 7; quantity = pos 3; order_id = 60; actor_id = none }

abbrev breakage : Adjust.AdjustmentDto
breakage = record {
  delta = negsuc 1;
  reason = "DAMAGE";
  note = none;
  reference_type = none;
  reference_id = none;
}

-- The second reservation is refused, and the last adjustment throws.
abbrev busy_day : List Call
busy_day =
    reserves three_lamps
    ∷ reserves eight_lamps
    ∷ sells sale_of_three
    ∷ adjusts 7 breakage none
    ∷ adjusts 8 breakage none
    ∷ []

run-IsAccounted_example : IsAccounted (run busy_day shop)
run-IsAccounted_example = run-IsAccounted busy_day shop (tt, (tt, (tt, (tt, (tt, tt))))) shop-Holds

run-IsValid_example : IsValid (run busy_day shop)
run-IsValid_example = run-IsValid busy_day shop (tt, (tt, (tt, (tt, (tt, tt))))) shop-Holds

lamps_found : find_by_variant 7 shop ≡ some lamps
unfolding find_by_variant find_first
lamps_found = refl

granted-available_example :
    (row : Inventory) × (find_by_variant 7
        (after_reservations (three_lamps ∷ eight_lamps ∷ []) shop)
      ≡ some row)
    × (granted (three_lamps ∷ eight_lamps ∷ []) shop +ℤ row.available ≡ pos 10)
    × (pos 0 ≤ℤ pos 10
        → (pos 0 ≤ℤ row.available) × (granted (three_lamps ∷ eight_lamps ∷ []) shop ≤ℤ pos 10))
granted-available_example =
    granted-available 7 (three_lamps ∷ eight_lamps ∷ []) shop shop-IsValid lamps_found
      ((refl, omega arith), ((refl, omega arith), tt))

release-reserve_stock_example :
    find_by_variant 7 (
      final (
        Service.release_stock
          (record {
            variant_id = 7;
            quantity = pos 3;
            reason = ReleaseReason.order_cancelled;
            reference_id = 50;
            actor_id = none;
          })
          (final (Service.reserve_stock three_lamps shop))))
    ≡ some lamps
release-reserve_stock_example =
    release-reserve_stock three_lamps ReleaseReason.order_cancelled 50 none shop shop-IsValid
      lamps_found (omega arith) (omega arith)

shop_in_stock : (get_availability 7 shop).in_stock ≡ true
unfolding get_availability find_by_variant_id find_first
shop_in_stock = refl

reserve_stock-get_availability_example :
    succeeds (Service.reserve_stock eight_lamps shop)
    ≡ leb_ℤ (pos 8) (get_availability 7 shop).available_quantity
reserve_stock-get_availability_example =
    reserve_stock-get_availability eight_lamps shop shop-IsValid (omega arith) shop_in_stock

confirm_sale_subtracts_twice_example :
    (s : Inventory) × (find_by_variant 7 (
        final (Service.confirm_sale sale_of_three (final (Service.reserve_stock three_lamps shop))))
      ≡ some s)
    × (s.available +ℤ s.reserved ≡ s.on_hand -ℤ pos 3)
    × (s.available ≡ pos 10 -ℤ pos 3 -ℤ pos 3)
unfolding ◌+ℤ◌
confirm_sale_subtracts_twice_example =
    confirm_sale_subtracts_twice three_lamps 60 none shop shop-IsValid lamps_found (omega arith)
      (omega arith) refl

update_low_stock_threshold_stale_example :
    (dto : StockDto) × (db' : Database) × (Adjust.update_low_stock_threshold 7 (pos 20) shop
      ≡ ok dto db')
    × (find_by_variant 7 db' ≡ some (retune_row (pos 20) lamps))
    × (dto.low_stock_threshold ≡ pos 5)
update_low_stock_threshold_stale_example =
    update_low_stock_threshold_stale 7 (pos 20) shop shop-IsValid lamps_found

abbrev stocktaking : Adjust.BulkDto
stocktaking = record {
  reason = "COUNT_CORRECTION";
  note = none;
  items =
      record { product_variant_id = 7; delta = pos 1 }
      ∷ record { product_variant_id = 8; delta = pos 1 }
      ∷ [];
}

bulk_adjust-run_example :
    (Adjust.bulk_adjust stocktaking none shop).1
      ≡ run (map (adjusts_item stocktaking none) stocktaking.items) shop
    × (Adjust.bulk_adjust stocktaking none shop).0.1
      ≡ single_results stocktaking none stocktaking.items shop
    × (Adjust.bulk_adjust stocktaking none shop).0.0
      ≡ successes (single_results stocktaking none stocktaking.items shop)
bulk_adjust-run_example = bulk_adjust-run stocktaking none shop

stock_contract-Effect_example :
    ((a : Service.ReserveArgs)
      → Effect a.variant_id a.quantity reservation
          (pos 0 -ℤ a.quantity)
          (λ r. a.quantity ≤ℤ r.available)
          (AfterReserving a.quantity)
          shop
          (final (Service.reserve_stock a shop)))
    × ((a : Service.ReleaseArgs)
        → Effect a.variant_id a.quantity release a.quantity
            (λ r. Unit)
            (AfterReleasing a.quantity)
            shop
            (final (Service.release_stock a shop)))
    × ((a : Service.SaleArgs)
        → Effect a.variant_id a.quantity sale
            (pos 0 -ℤ a.quantity)
            (λ r. (a.quantity ≤ℤ r.on_hand) × (a.quantity ≤ℤ r.reserved))
            (AfterSelling a.quantity)
            shop
            (final (Service.confirm_sale a shop)))
    × ((a : Service.RestoreArgs)
        → Effect a.variant_id a.quantity return a.quantity
            (λ r. Unit)
            (AfterRestoring a.quantity)
            shop
            (final (Service.restore_stock a shop)))
stock_contract-Effect_example = stock_contract-Effect shop shop-IsValid
