-- ===== src/Inventory/Errors.antt =====
-- modules/inventory/exceptions: what a call of the inventory service may throw.
use smart_light.Prelude.{ℕ, ℤ}

pub data InventoryError : Type 0 where
  inventory_not_found : ℕ → InventoryError
  insufficient_stock : ℕ → ℤ → ℤ → InventoryError
  stock_reservation_failed : ℕ → InventoryError
  stock_negative_prevented : ℕ → ℤ → ℤ → InventoryError
  variant_already_has_inventory : ℕ → InventoryError
  -- the plain `Error`s of `importStock`
  quantity_too_small : InventoryError
  -- the database's own refusals: a UNIQUE column taken, a FOREIGN KEY that names no row, a value
  -- outside an enum
  unique_violation : InventoryError
  foreign_key_violation : InventoryError
  invalid_enum_value : InventoryError
  -- a field of `null` is read
  type_error : InventoryError
