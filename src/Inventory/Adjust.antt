-- ===== src/Inventory/Adjust.antt =====
-- modules/inventory/service.ts: manual adjustments, one by one and in bulk, and the low-stock
-- threshold.
use smart_light.Prelude.{
  ℕ, suc, ℤ, pos, ◌+ℤ◌, ltb_ℤ, eqb_ℤ, not, String, List, [], ◌∷◌, Option, none, some, if◌then◌else◌,
  ok, err, throw, gets, or_throw, throw_if, if_else, pure, modify, with_transaction, ◌>>=◌, ◌>>◌,
}
use smart_light.Table.{update}
use smart_light.Database.{Database}
use smart_light.Database.Stock.{Inventory, import, export, admin_user, system, note_text}
use smart_light.Inventory.Errors.{
  InventoryError, inventory_not_found, stock_negative_prevented, type_error,
}
use smart_light.Inventory.Repository.{Inv, id_test}
use smart_light.Inventory.Repository as Repo
use smart_light.Inventory.Service.{find_by_variant, find_by_id, reserved_of, by_actor}
use smart_light.Inventory.Admin.{or_default, AdjustmentResponse, StockDto, map_to_stock_dto}

pub record AdjustmentDto : Type 0 where
  pub delta : ℤ
  pub reason : String
  pub note : Option String
  pub reference_type : Option String
  pub reference_id : Option ℕ

-- The two records that an adjustment of `inv` leaves behind.
abbrev pub record_adjustment : ℕ → AdjustmentDto → Option ℕ → Inventory → ℤ → Inv AdjustmentResponse
record_adjustment variant_id dto admin_id inv on_hand_after = do
  after ← gets (find_by_id inv.id)
  movement_id ← Repo.create_movement (record {
    inventory_id = inv.id;
    product_variant_id = variant_id;
    type = if ltb_ℤ (pos 0) dto.delta then import else export;
    quantity = dto.delta;
    on_hand_after = on_hand_after;
    reserved_after = reserved_of after;
    reason = note_text (or_default dto.note dto.reason);
    reference_type = or_default dto.reference_type "MANUAL";
    reference_id = or_default dto.reference_id inv.id;
    created_by_type = by_actor admin_id admin_user system;
    created_by_id = admin_id;
  })
  adjustment_id ← Repo.create_adjustment (record {
    inventory_id = inv.id;
    product_variant_id = variant_id;
    quantity_delta = dto.delta;
    on_hand_after = on_hand_after;
    reason = dto.reason;
    note = dto.note;
    reference_type = or_default dto.reference_type "MANUAL";
    reference_id = or_default dto.reference_id inv.id;
    created_by_id = admin_id;
  })
  pure (record {
    variant_id = variant_id;
    previous_on_hand = inv.on_hand;
    new_on_hand = on_hand_after;
    delta = dto.delta;
    reason = dto.reason;
    adjustment_id = adjustment_id;
    movement_id = movement_id;
  })

unfoldable pub adjust_stock : ℕ → AdjustmentDto → Option ℕ → Inv AdjustmentResponse
adjust_stock variant_id dto admin_id =
    if_else (eqb_ℤ dto.delta (pos 0)) (throw (inventory_not_found variant_id)) (
      with_transaction (do
        inv ← (do or_throw (← gets (find_by_variant variant_id)) (inventory_not_found variant_id))
        throw_if (ltb_ℤ (inv.on_hand +ℤ dto.delta) (pos 0))
            (stock_negative_prevented variant_id inv.on_hand dto.delta)
        (success, on_hand_after) ← Repo.adjust_stock inv.id dto.delta
        throw_if (not success) (stock_negative_prevented variant_id inv.on_hand dto.delta)
        record_adjustment variant_id dto admin_id inv on_hand_after))

pub record BulkItem : Type 0 where
  pub product_variant_id : ℕ
  pub delta : ℤ

pub record BulkDto : Type 0 where
  pub reason : String
  pub note : Option String
  pub items : List BulkItem

-- The result of one item: the variant, and the error if it failed.
abbrev pub BulkResult : Type 0
BulkResult = ℕ × Option InventoryError

abbrev pub item_dto : BulkDto → BulkItem → AdjustmentDto
item_dto dto item = record {
  delta = item.delta;
  reason = dto.reason;
  note = dto.note;
  reference_type = none;
  reference_id = none;
}

-- The body of the loop, with its `try` and `catch`.
unfoldable pub bulk_item : BulkDto → Option ℕ → BulkItem → Database → BulkResult × Database
bulk_item dto admin_id item db =
    elim (adjust_stock item.product_variant_id (item_dto dto item) admin_id db) [
      | ok _ db' ↦ ((item.product_variant_id, none), db')
      | err e db' ↦ ((item.product_variant_id, some e), db')
    ]

-- The items in order: how many were processed, and the result of each.
unfoldable pub bulk_items :
    BulkDto → Option ℕ → List BulkItem → Database → (ℕ × List BulkResult) × Database
bulk_items dto admin_id [] db = ((0, []), db)
bulk_items dto admin_id (item ∷ items) db =
    let (r, db') = bulk_item dto admin_id item db in
    let (rest, db'') = bulk_items dto admin_id items db' in
    ((elim r.1 [ none ↦ suc rest.0 | some _ ↦ rest.0 ], r ∷ rest.1), db'')

unfoldable pub bulk_adjust : BulkDto → Option ℕ → Database → (ℕ × List BulkResult) × Database
unfolding bulk_items
bulk_adjust dto admin_id db = bulk_items dto admin_id dto.items db

-- `findByVariantId` asks the plain client and not the transaction's, so it sees the database as it
-- was committed before the transaction.
unfoldable pub update_low_stock_threshold : ℕ → ℤ → Inv StockDto
update_low_stock_threshold variant_id threshold committed =
    with_transaction
      (do
        inv ← (do or_throw (← gets (find_by_variant variant_id)) (inventory_not_found variant_id))
        modify λ db. record db {
          inventory = update (id_test inv.id) (Repo.retune_row threshold) db.inventory;
        }
        updated ←
            or_throw (Repo.find_by_variant_id variant_id inv.warehouse_code committed) type_error
        pure (map_to_stock_dto committed updated))
      committed
