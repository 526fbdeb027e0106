-- ===== src/Inventory/Admin.antt =====
-- modules/inventory/service.ts: the administrators' calls that change stock. The validation of the
-- DTO classes has taken place before the call.
use smart_light.Prelude.{
  ℕ, ℤ, pos, ◌-ℤ◌, leb_ℤ, ltb_ℤ, Bool, false, not, String, Option, none, some, ◌==◌, throw, gets,
  or_throw, throw_if, if_else, pure, with_transaction, ◌>>=◌, ◌>>◌,
}
use smart_light.Table.{find_first}
use smart_light.Database.{Database}
use smart_light.Database.Stock.{Inventory, ProductVariant, import, admin_user, system, note_text}
use smart_light.Inventory.Errors.{
  stock_reservation_failed, variant_already_has_inventory, quantity_too_small, type_error,
}
use smart_light.Inventory.Repository.{Inv, default_warehouse_code, id_test}
use smart_light.Inventory.Repository as Repo
use smart_light.Inventory.Service.{find_by_id, by_actor}

abbrev pub or_default : {A : Type 0} → Option A → A → A
or_default (some a) _ = a
or_default none a = a

pub record StockDto : Type 0 where
  pub id : ℕ
  pub product_variant_id : ℕ
  pub sku : String
  pub product_name : String
  pub product_slug : String
  pub warehouse_code : String
  pub on_hand : ℤ
  pub reserved : ℤ
  pub available : ℤ
  pub low_stock_threshold : ℤ
  pub low_stock : Bool
  pub allow_backorder : Bool

-- A column of the variant that a row belongs to; '' where there is none.
abbrev pub variant_text : (ProductVariant → String) → Option ProductVariant → String
variant_text column (some v) = column v
variant_text column none = ""

unfoldable pub map_to_stock_dto : Database → Inventory → StockDto
map_to_stock_dto db r =
    let variant = find_first (λ v. v.id == r.product_variant_id) db.product_variant in
    record {
      id = r.id;
      product_variant_id = r.product_variant_id;
      sku = variant_text (λ v. v.sku) variant;
      product_name = variant_text (λ v. v.product_name) variant;
      product_slug = variant_text (λ v. v.product_slug) variant;
      warehouse_code = r.warehouse_code;
      on_hand = r.on_hand;
      reserved = r.reserved;
      available = r.available;
      low_stock_threshold = r.low_stock_threshold;
      low_stock = leb_ℤ r.available r.low_stock_threshold;
      allow_backorder = r.allow_backorder;
    }

pub record CreateDto : Type 0 where
  pub product_variant_id : ℕ
  pub warehouse_code : Option String
  pub initial_stock : ℤ
  pub low_stock_threshold : Option ℤ
  pub reserved : Option ℤ

-- The first movement of a new row, for stock that it starts with.
abbrev pub create_initial_movement : CreateDto → Option ℕ → ℕ → Inv (Unit {0})
create_initial_movement dto admin_id id =
    if_else (ltb_ℤ (pos 0) dto.initial_stock)
      (do
        Repo.create_movement (record {
          inventory_id = id;
          product_variant_id = dto.product_variant_id;
          type = import;
          quantity = dto.initial_stock;
          on_hand_after = dto.initial_stock;
          reserved_after = or_default dto.reserved (pos 0);
          reason = note_text "Initial stock";
          reference_type = "MANUAL";
          reference_id = id;
          created_by_type = by_actor admin_id admin_user system;
          created_by_id = admin_id;
        })
        pure tt)
      (pure tt)

-- The call runs in no transaction.
unfoldable pub create_inventory : CreateDto → Option ℕ → Inv StockDto
create_inventory dto admin_id = do
  let warehouse_code = or_default dto.warehouse_code default_warehouse_code
  variant ← gets (Repo.find_by_variant_id dto.product_variant_id warehouse_code)
  exists ← gets (Repo.exists_for_variant dto.product_variant_id)
  throw_if (elim variant [ some _ ↦ false | none ↦ exists ])
      (variant_already_has_inventory dto.product_variant_id)
  id ← Repo.create_inventory (record {
    product_variant_id = dto.product_variant_id;
    warehouse_code = warehouse_code;
    on_hand = dto.initial_stock;
    reserved = or_default dto.reserved (pos 0);
    low_stock_threshold = or_default dto.low_stock_threshold (pos 5);
  })
  create_initial_movement dto admin_id id
  created ← gets (Repo.find_by_variant_id dto.product_variant_id warehouse_code)
  row ← or_throw created type_error
  gets λ db. map_to_stock_dto db row

pub record ImportDto : Type 0 where
  pub product_variant_id : ℕ
  pub warehouse_code : Option String
  pub quantity : ℤ
  pub note : Option String

pub record AdjustmentResponse : Type 0 where
  pub variant_id : ℕ
  pub previous_on_hand : ℤ
  pub new_on_hand : ℤ
  pub delta : ℤ
  pub reason : String
  pub adjustment_id : ℕ
  pub movement_id : ℕ

-- The row that the import goes to, with the stock added: a new row, or the one that was found.
abbrev pub import_into : ImportDto → String → Option Inventory → Inv (Option Inventory)
import_into dto warehouse_code found s = elim found [
  | none ↦
      (do
        id ← Repo.create_inventory (record {
          product_variant_id = dto.product_variant_id;
          warehouse_code = warehouse_code;
          on_hand = dto.quantity;
          reserved = pos 0;
          low_stock_threshold = pos 5;
        })
        gets (find_by_id id))
        s
  | some inv ↦
      (do
        (success, _) ← Repo.adjust_stock inv.id dto.quantity
        throw_if (not success) (stock_reservation_failed dto.product_variant_id)
        gets (find_by_id inv.id))
        s
]

unfoldable pub import_stock : ImportDto → Option ℕ → Inv AdjustmentResponse
import_stock dto admin_id = if_else (ltb_ℤ dto.quantity (pos 1)) (throw quantity_too_small) (
    with_transaction (do
      let warehouse_code = or_default dto.warehouse_code default_warehouse_code
      found ← gets (Repo.find_by_variant_id dto.product_variant_id warehouse_code)
      after ← import_into dto warehouse_code found
      inv ← or_throw after type_error
      movement_id ← Repo.create_movement (record {
        inventory_id = inv.id;
        product_variant_id = dto.product_variant_id;
        type = import;
        quantity = dto.quantity;
        on_hand_after = inv.on_hand;
        reserved_after = inv.reserved;
        reason = note_text (or_default dto.note "Stock imported");
        reference_type = "IMPORT";
        reference_id = inv.id;
        created_by_type = by_actor admin_id admin_user system;
        created_by_id = admin_id;
      })
      pure (record {
        variant_id = dto.product_variant_id;
        previous_on_hand = inv.on_hand -ℤ dto.quantity;
        new_on_hand = inv.on_hand;
        delta = dto.quantity;
        reason = or_default dto.note "IMPORT";
        adjustment_id = movement_id;
        movement_id = movement_id;
      })))
