-- ===== src/Inventory/Change.antt =====
-- What one call may do to the stock tables: nothing, one stock statement on one row with the
-- movement that records it, or a new row.
pub mod Journal
pub mod Soundness
use smart_light.Prelude.{
  ℕ, ℤ, pos, ◌+ℤ◌, ◌-ℤ◌, ◌≤ℤ◌, ◌≤◌, ◌<◌, Bool, true, List, [], ◌∷◌, some, ◌≡◌, ◌≢◌, ◌⊎◌, ◌==◌,
  if◌then◌else◌,
}
use smart_light.Table.{find_first, update, All, IsUnique}
use smart_light.Database.{Database}
use smart_light.Database.Stock.{
  Inventory, StockMovement, StockMovementType, import, export, sale, reservation, release, return,
  adjustment,
}
use smart_light.Inventory.Repository.{
  id_test, reserve_test, reserve_row, release_row, sale_test, sale_row, restore_row, remove_test,
  remove_row, retune_row,
}

-- The stock statements of the repository.
pub data Statement : Type 0 where
  reserving releasing selling restoring removing : Statement

abbrev pub test : Statement → ℕ → ℤ → Inventory → Bool
test Statement.reserving id q = reserve_test id q
test Statement.releasing id q = id_test id
test Statement.selling id q = sale_test id q
test Statement.restoring id q = id_test id
test Statement.removing id q = remove_test id q

abbrev pub assign : Statement → ℤ → Inventory → Inventory
assign Statement.reserving q = reserve_row q
assign Statement.releasing q = release_row q
assign Statement.selling q = sale_row q
assign Statement.restoring q = restore_row q
assign Statement.removing q = remove_row q

-- What a movement adds to the stock on hand.
abbrev pub effect : StockMovementType → ℤ → ℤ
effect reservation q = pos 0
effect release q = pos 0
effect import q = q
effect export q = q
effect sale q = q
effect return q = q
effect adjustment q = q

-- The signed quantity that a statement records.
abbrev pub recorded : Statement → ℤ → ℤ
recorded Statement.reserving q = pos 0 -ℤ q
recorded Statement.releasing q = q
recorded Statement.selling q = pos 0 -ℤ q
recorded Statement.restoring q = q
recorded Statement.removing q = pos 0 -ℤ q

-- The movement types that a statement is recorded under.
abbrev pub Records : Statement → StockMovementType → Type 0
Records Statement.reserving t = t ≡ reservation
Records Statement.releasing t = t ≡ release
Records Statement.selling t = t ≡ sale
Records Statement.restoring t = (t ≡ import) ⊎ (t ≡ return)
Records Statement.removing t = t ≡ export

-- One statement has changed one row, and one movement records it.
pub record Moved (s : Statement) (q : ℤ) (db db' : Database) : Type 0 where
  pub row : Inventory
  pub found : find_first (id_test row.id) db.inventory ≡ some row
  pub positive : pos 1 ≤ℤ q
  pub passed : test s row.id q row ≡ true
  pub inventory : db'.inventory ≡ update (test s row.id q) (assign s q) db.inventory
  pub movement : StockMovement
  pub journal : db'.stock_movement ≡ movement ∷ db.stock_movement
  pub ids : db.next_id ≤ db'.next_id
  pub movement_row : movement.inventory_id ≡ row.id
  pub movement_type : Records s movement.type
  pub movement_quantity : movement.quantity ≡ recorded s q
  pub on_hand_snapshot : movement.on_hand_after ≡ (assign s q row).on_hand
  pub reserved_snapshot : movement.reserved_after ≡ (assign s q row).reserved

-- A new row, with the movement for the stock that it starts with.
pub record Created (db db' : Database) : Type 0 where
  pub row : Inventory
  pub on_hand_nonneg : pos 0 ≤ℤ row.on_hand
  pub reserved_nonneg : pos 0 ≤ℤ row.reserved
  pub balanced : row.available ≡ row.on_hand -ℤ row.reserved
  pub id : row.id ≡ db.next_id
  pub unlisted : All (λ r. r.product_variant_id ≢ row.product_variant_id) db.inventory
  pub inventory : db'.inventory ≡ row ∷ db.inventory
  pub ids : db.next_id < db'.next_id
  pub journal :
      ((db'.stock_movement ≡ db.stock_movement) × (row.on_hand ≡ pos 0))
      ⊎ ((m : StockMovement) × (db'.stock_movement ≡ m ∷ db.stock_movement)
          × (m.inventory_id ≡ row.id)
          × (m.type ≡ import)
          × (m.quantity ≡ row.on_hand))

-- All that a call of the stock contract or of an administrator does to stock.
pub data Change (db db' : Database) : Type 0 where
  same : db' ≡ db → Change db db'
  moved : (s : Statement) (q : ℤ) → Moved s q db db' → Change db db'
  created : Created db db' → Change db db'
  -- the low-stock threshold of one row
  retuned :
      (id : ℕ) (threshold : ℤ)
      → db'.inventory ≡ update (id_test id) (retune_row threshold) db.inventory
      → db'.stock_movement ≡ db.stock_movement
      → db'.next_id ≡ db.next_id
      → Change db db'
