-- ===== src/Inventory/Repository.antt =====
-- modules/inventory/repositories/inventory.repository.ts: the statements on the stock tables. The
-- `tx` argument and the plain client run the same statement, so it is left out.
use smart_light.Prelude.{
  ℕ, ℤ, pos, ◌+ℤ◌, ◌-ℤ◌, leb_ℤ, min_ℤ, max_ℤ, Bool, true, false, ◌&&◌, String, str_eq, ◌∷◌, Option,
  none, some, ◌==◌, ltb, if◌then◌else◌, ok, Action, gets, or_throw, throw_if, if_else, pure, modify,
  ◌>>=◌, ◌>>◌,
}
use smart_light.Table.{find_first, update, affected}
use smart_light.Database.{Database, new_id}
use smart_light.Database.Stock.{
  Inventory, InventoryAdjustmentReason, MovementReason, StockMovementType, ActorType,
  count_correction, damage, loss, receiving, transfer, initial_stock, other,
}
use smart_light.Inventory.Errors.{
  InventoryError, unique_violation, foreign_key_violation, invalid_enum_value,
}

abbrev pub Inv : Type 0 → Type 0
Inv A = Action Database InventoryError A

-- 'MAIN'
abbrev pub default_warehouse_code : String
default_warehouse_code = "MAIN"

unfoldable pub find_by_variant_id : ℕ → String → Database → Option Inventory
find_by_variant_id variant_id warehouse_code db =
    find_first (λ r. (r.product_variant_id == variant_id) && str_eq r.warehouse_code warehouse_code)
      db.inventory

-- `count > 0`
unfoldable pub exists_for_variant : ℕ → Database → Bool
exists_for_variant variant_id db =
    ltb 0 (affected (λ r. r.product_variant_id == variant_id) db.inventory)

-- `$executeRaw` of an UPDATE: the number of rows that it changed.
unfoldable pub execute : (Inventory → Bool) → (Inventory → Inventory) → Inv ℕ
execute test assign db =
    ok (affected test db.inventory) (record db { inventory = update test assign db.inventory })

pub record InventoryData : Type 0 where
  pub product_variant_id : ℕ
  pub warehouse_code : String
  pub on_hand : ℤ
  pub reserved : ℤ
  pub low_stock_threshold : ℤ

-- The row is refused where its variant is unknown or has a row already.
unfoldable pub create_inventory : InventoryData → Inv ℕ
unfolding exists_for_variant
create_inventory d = do
  known ← gets (λ db. ltb 0 (affected (λ v. v.id == d.product_variant_id) db.product_variant))
  throw_if (if known then false else true) foreign_key_violation
  taken ← gets (exists_for_variant d.product_variant_id)
  throw_if taken unique_violation
  id ← new_id
  modify λ db. record db {
    inventory =
        record {
          id = id;
          product_variant_id = d.product_variant_id;
          warehouse_code = d.warehouse_code;
          on_hand = d.on_hand;
          reserved = d.reserved;
          available = d.on_hand -ℤ d.reserved;
          low_stock_threshold = d.low_stock_threshold;
          allow_backorder = false;
        }
        ∷ db.inventory;
  }
  pure id

-- The WHERE and SET parts of the stock statements.
abbrev pub reserve_test : ℕ → ℤ → Inventory → Bool
reserve_test id quantity r = (r.id == id) && leb_ℤ quantity r.available

abbrev pub reserve_row : ℤ → Inventory → Inventory
reserve_row quantity r = record r {
  reserved = r.reserved +ℤ quantity;
  available = r.available -ℤ quantity;
}

unfoldable pub reserve_stock : ℕ → ℤ → Inv ℕ
reserve_stock id quantity = execute (reserve_test id quantity) (reserve_row quantity)

abbrev pub id_test : ℕ → Inventory → Bool
id_test id r = r.id == id

abbrev pub release_row : ℤ → Inventory → Inventory
release_row quantity r = record r {
  reserved = max_ℤ (r.reserved -ℤ quantity) (pos 0);
  available = min_ℤ (r.available +ℤ quantity) r.on_hand;
}

unfoldable pub release_stock : ℕ → ℤ → Inv ℕ
release_stock id quantity = execute (id_test id) (release_row quantity)

abbrev pub sale_test : ℕ → ℤ → Inventory → Bool
sale_test id quantity r = (r.id == id) && (leb_ℤ quantity r.on_hand && leb_ℤ quantity r.reserved)

abbrev pub sale_row : ℤ → Inventory → Inventory
sale_row quantity r = record r {
  on_hand = r.on_hand -ℤ quantity;
  reserved = max_ℤ (r.reserved -ℤ quantity) (pos 0);
  available = r.available -ℤ quantity;
}

unfoldable pub confirm_sale : ℕ → ℤ → Inv ℕ
confirm_sale id quantity = execute (sale_test id quantity) (sale_row quantity)

abbrev pub restore_row : ℤ → Inventory → Inventory
restore_row quantity r = record r {
  on_hand = r.on_hand +ℤ quantity;
  available = r.available +ℤ quantity;
}

unfoldable pub restore_stock : ℕ → ℤ → Inv ℕ
restore_stock id quantity = execute (id_test id) (restore_row quantity)

unfoldable pub fetch_on_hand : ℕ → Database → ℤ
fetch_on_hand id db = elim (find_first (id_test id) db.inventory) [
  | some r ↦ r.on_hand
  | none ↦ pos 0
]

abbrev pub remove_test : ℕ → ℤ → Inventory → Bool
remove_test id abs_delta r = (r.id == id) && leb_ℤ abs_delta r.on_hand

abbrev pub remove_row : ℤ → Inventory → Inventory
remove_row abs_delta r = record r {
  on_hand = r.on_hand -ℤ abs_delta;
  available = r.available -ℤ abs_delta;
}

-- Whether a row was changed, and `on_hand` as it then is.
unfoldable pub adjust_stock : ℕ → ℤ → Inv (Bool × ℤ)
adjust_stock id delta =
    if_else (leb_ℤ (pos 0) delta)
      (do
        result ← execute (id_test id) (restore_row delta)
        updated ← gets (fetch_on_hand id)
        pure (ltb 0 result, updated))
      (do
        let abs_delta = pos 0 -ℤ delta
        result ← execute (remove_test id abs_delta) (remove_row abs_delta)
        updated ← gets (fetch_on_hand id)
        pure (ltb 0 result, updated))

-- `data: { lowStockThreshold }`
abbrev pub retune_row : ℤ → Inventory → Inventory
retune_row threshold r = record r { low_stock_threshold = threshold }

-- What a caller gives of a movement; the row also has an id.
pub record MovementData : Type 0 where
  pub inventory_id : ℕ
  pub product_variant_id : ℕ
  pub type : StockMovementType
  pub quantity : ℤ
  pub on_hand_after : ℤ
  pub reserved_after : ℤ
  pub reason : MovementReason
  pub reference_type : String
  pub reference_id : ℕ
  pub created_by_type : ActorType
  pub created_by_id : Option ℕ

unfoldable pub create_movement : MovementData → Inv ℕ
create_movement d = do
  id ← new_id
  modify λ db. record db {
    stock_movement =
        record {
          id = id;
          inventory_id = d.inventory_id;
          product_variant_id = d.product_variant_id;
          type = d.type;
          quantity = d.quantity;
          on_hand_after = d.on_hand_after;
          reserved_after = d.reserved_after;
          reason = d.reason;
          reference_type = d.reference_type;
          reference_id = d.reference_id;
          created_by_type = d.created_by_type;
          created_by_id = d.created_by_id;
        }
        ∷ db.stock_movement;
  }
  pure id

-- The enum that the column `reason` takes.
unfoldable pub adjustment_reason : String → Option InventoryAdjustmentReason
adjustment_reason s =
    if str_eq s "COUNT_CORRECTION"
    then some count_correction
    else if str_eq s "DAMAGE"
    then some damage
    else if str_eq s "LOSS"
    then some loss
    else if str_eq s "RECEIVING"
    then some receiving
    else if str_eq s "TRANSFER"
    then some transfer
    else if str_eq s "INITIAL_STOCK"
    then some initial_stock
    else if str_eq s "OTHER"
    then some other
    else none

pub record AdjustmentData : Type 0 where
  pub inventory_id : ℕ
  pub product_variant_id : ℕ
  pub quantity_delta : ℤ
  pub on_hand_after : ℤ
  pub reason : String
  pub note : Option String
  pub reference_type : String
  pub reference_id : ℕ
  pub created_by_id : Option ℕ

-- The database refuses a reason that is no value of the enum.
unfoldable pub create_adjustment : AdjustmentData → Inv ℕ
create_adjustment d = do
  reason ← or_throw (adjustment_reason d.reason) invalid_enum_value
  id ← new_id
  modify λ db. record db {
    inventory_adjustment =
        record {
          id = id;
          inventory_id = d.inventory_id;
          product_variant_id = d.product_variant_id;
          quantity_delta = d.quantity_delta;
          on_hand_after = d.on_hand_after;
          reason = reason;
          note = d.note;
          reference_type = d.reference_type;
          reference_id = d.reference_id;
          created_by_id = d.created_by_id;
        }
        ∷ db.inventory_adjustment;
  }
  pure id
