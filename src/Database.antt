-- ===== src/Database.antt =====
-- The database that the services share. A row that is created goes to the front of its table.
pub mod Stock
pub mod Shop
use Stock.{ProductVariant, Inventory, StockMovement, InventoryAdjustment}
use smart_light.Prelude.{ℕ, suc, List, Action, ok}

pub record Database : Type 0 where
  pub product_variant : List ProductVariant
  pub inventory : List Inventory
  pub stock_movement : List StockMovement
  pub inventory_adjustment : List InventoryAdjustment
  -- `@default(cuid())` gives every new row an id of its own: ids are numbered in the order in which
  -- they are given out, and this one is the next.
  pub next_id : ℕ

module _ {ℓ} {E : Type ℓ} where
  -- The id of a row that is created.
  abbrev pub new_id : Action Database E ℕ
  new_id db = ok db.next_id (record db { next_id = suc db.next_id })
