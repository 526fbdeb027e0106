-- ===== src/Inventory/Calls/NewRow.antt =====
-- `createInventory` (modules/inventory/service.ts, lines 368-411), branch by branch. It runs in no
-- transaction.
use text.Mathlib.TextPositions.{eq_refl}
use smart_light.Prelude.{
  ℕ, suc, pos, ◌-ℤ◌, ◌≤ℤ◌, ltb_ℤ, true, false, ◌∷◌, Option, none, some, ◌≡◌, refl, arith, ◌==◌, inl,
  inr, Bool-cases, ok, final, String,
}
use smart_light.Table.{find_first}
use smart_light.Table.Rows.{find_first_unaffected}
use smart_light.Database.{Database}
use smart_light.Database.Stock.{Inventory, StockMovement, import, note_text, admin_user, system}
use smart_light.Inventory.Change.{Change, same}
use smart_light.Inventory.Repository as Repo
use smart_light.Inventory.Service as Service
use smart_light.Inventory.Admin.{or_default, CreateDto, create_inventory, map_to_stock_dto}
use smart_light.Inventory.Calls.Creation.{is_known, created_after}

-- What `@Min(0)` on the fields of CreateInventoryDto lets through.
pub record IsValidated (dto : CreateDto) : Type 0 where
  pub stock : pos 0 ≤ℤ dto.initial_stock
  pub reserved : pos 0 ≤ℤ or_default dto.reserved (pos 0)

module _ (dto : CreateDto) (admin : Option ℕ) (db : Database) where
  abbrev pub code : String
  code = or_default dto.warehouse_code Repo.default_warehouse_code

  abbrev pub new_row : Inventory
  new_row = record {
    id = db.next_id;
    product_variant_id = dto.product_variant_id;
    warehouse_code = code;
    on_hand = dto.initial_stock;
    reserved = or_default dto.reserved (pos 0);
    available = dto.initial_stock -ℤ or_default dto.reserved (pos 0);
    low_stock_threshold = or_default dto.low_stock_threshold (pos 5);
    allow_backorder = false;
  }

  abbrev pub initial_movement : StockMovement
  initial_movement = record {
    id = suc db.next_id;
    inventory_id = db.next_id;
    product_variant_id = dto.product_variant_id;
    type = import;
    quantity = dto.initial_stock;
    on_hand_after = dto.initial_stock;
    reserved_after = or_default dto.reserved (pos 0);
    reason = note_text "Initial stock";
    reference_type = "MANUAL";
    reference_id = db.next_id;
    created_by_type = Service.by_actor admin admin_user system;
    created_by_id = admin;
  }

  abbrev pub with_row : Database
  with_row = record db { inventory = new_row ∷ db.inventory; next_id = suc db.next_id }

  abbrev pub with_movement : Database
  with_movement = record with_row {
    stock_movement = initial_movement ∷ db.stock_movement;
    next_id = suc (suc db.next_id);
  }

  -- The row that was created is found again.
  found_again :
      (db' : Database)
      → db'.inventory ≡ new_row ∷ db.inventory
      → Repo.find_by_variant_id dto.product_variant_id code db' ≡ some new_row
  unfolding Repo.find_by_variant_id find_first
  found_again db' i = rw i (ground (arith, eq_refl code))

  module _ (missing : Repo.find_by_variant_id dto.product_variant_id code db ≡ none)
      (untaken : Repo.exists_for_variant dto.product_variant_id db ≡ false)
      (known : is_known dto.product_variant_id db ≡ true) where
    pub create_inventory_stocked :
        ltb_ℤ (pos 0) dto.initial_stock ≡ true
        → create_inventory dto admin db ≡ ok (map_to_stock_dto with_movement new_row) with_movement
    unfolding create_inventory Repo.create_inventory Repo.create_movement
    create_inventory_stocked some_stock = ground (arith, found_again with_movement refl)

    pub create_inventory_empty :
        ltb_ℤ (pos 0) dto.initial_stock ≡ false
        → create_inventory dto admin db ≡ ok (map_to_stock_dto with_row new_row) with_row
    unfolding create_inventory Repo.create_inventory
    create_inventory_empty no_stock = ground (arith, found_again with_row refl)

  -- A variant with a row is refused, whichever warehouse the row names.
  pub create_inventory_taken :
      Repo.exists_for_variant dto.product_variant_id db ≡ true
      → final (create_inventory dto admin db) ≡ db
  unfolding create_inventory Repo.create_inventory
  create_inventory_taken taken = ground arith

  -- So is a variant that does not exist.
  pub create_inventory_unknown :
      is_known dto.product_variant_id db ≡ false → final (create_inventory dto admin db) ≡ db
  unfolding create_inventory Repo.create_inventory
  create_inventory_unknown unknown = ground arith

  find_none_of_untaken :
      Repo.exists_for_variant dto.product_variant_id db ≡ false
      → Repo.find_by_variant_id dto.product_variant_id code db ≡ none
  unfolding Repo.find_by_variant_id Repo.exists_for_variant
  find_none_of_untaken untaken =
      find_first_unaffected (λ r. r.product_variant_id == dto.product_variant_id) _ db.inventory
        (λ r f. ground (arith, f)) (ground arith)

-- A creation is one change of the tables, or none.
pub create_inventory-Change :
    (dto : CreateDto) (admin : Option ℕ) (db : Database)
    → IsValidated dto
    → Change db (final (create_inventory dto admin db))
create_inventory-Change dto admin db ok_dto =
    elim (Bool-cases (Repo.exists_for_variant dto.product_variant_id db)) [
      | inl taken ↦ same (create_inventory_taken dto admin db taken)
      | inr untaken ↦ elim (Bool-cases (is_known dto.product_variant_id db)) [
        | inr unknown ↦ same (create_inventory_unknown dto admin db unknown)
        | inl known ↦
            let missing = find_none_of_untaken dto admin db untaken in
            elim (Bool-cases (ltb_ℤ (pos 0) dto.initial_stock)) [
              | inl stocked ↦
                  rw (create_inventory_stocked dto admin db missing untaken known stocked) (
                    created_after (new_row dto admin db) db _ refl (omega arith) refl refl
                      ok_dto.stock ok_dto.reserved untaken
                      (inr (initial_movement dto admin db, refl, refl, refl, refl)))
              | inr empty ↦ rw (create_inventory_empty dto admin db missing untaken known empty) (
                  created_after (new_row dto admin db) db _ refl (omega arith) refl refl
                    ok_dto.stock ok_dto.reserved untaken (inl (refl, ground (arith, ok_dto.stock))))
            ]
      ]
    ]
