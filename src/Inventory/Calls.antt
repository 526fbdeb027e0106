-- ===== src/Inventory/Calls.antt =====
-- What the calls read and write of the row that they are about.
pub mod Contract
pub mod Changes
pub mod Administration
pub mod Creation
pub mod NewRow
pub mod Rows
pub mod Effects
pub mod Threshold
use smart_light.Prelude.{
  ℕ, suc, ℤ, pos, ◌+ℤ◌, ◌-ℤ◌, ◌≤ℤ◌, ◌≤◌, leb_ℤ, int_laws, Bool, true, false, List, [], ◌∷◌, Option,
  none, some, ◌≡◌, ◌≢◌, refl, sym, ap, ◌∙◌, arith, ◌==◌, inl, inr, if◌then◌else◌, Bool-cases,
  Option-cases, if_else, with_transaction, ◌>>=◌, or_throw, gets, ok, err, ◌⊎◌,
}
use smart_light.Table.{find_first, update, affected, All, IsUnique}
use smart_light.Table.Keys.{find_at, affected_at, find_first-update}
use smart_light.Table.Rows.{find_first-holds, update_unaffected}
use smart_light.Database.{Database}
use smart_light.Database.Stock.{Inventory, StockMovement, reservation, reserved_for, user, system}
use smart_light.Inventory.Change.{Statement, test, assign, recorded, Records, Moved, Change, moved}
use smart_light.Inventory.Change.Soundness.{IsValid, assign-id}
use smart_light.Inventory.Change.Journal.{test-id}
use smart_light.Inventory.Repository as Repo
use smart_light.Inventory.Service as Service
use smart_light.Inventory.Service.{find_by_variant, find_by_id}

-- The row that a variant's SELECT found, by its id.
pub found_by_id :
    (variant : ℕ) (db : Database) {r : Inventory}
    → IsValid db
    → find_by_variant variant db ≡ some r
    → find_by_id r.id db ≡ some r
unfolding find_by_id find_by_variant
found_by_id variant db v found = find_at (λ x. x.id) _ db.inventory v.ids found

-- A statement on the row that was found changes it once, if its test holds, and the row is then
-- found as assigned.
pub affected_found :
    (s : Statement) (q : ℤ) (db : Database) {r : Inventory}
    → IsValid db
    → find_by_id r.id db ≡ some r
    → affected (test s r.id q) db.inventory ≡ (if test s r.id q r then 1 else 0)
unfolding find_by_id
affected_found s q db v found =
    affected_at (λ x. x.id) _ (test s _ q) db.inventory v.ids found (λ x h. test-id s _ q x h)

pub found-update :
    (s : Statement) (q : ℤ) (db db' : Database) {r : Inventory}
    → find_by_id r.id db ≡ some r
    → db'.inventory ≡ update (test s r.id q) (assign s q) db.inventory
    → find_by_id r.id db' ≡ some (if test s r.id q r then assign s q r else r)
unfolding find_by_id
found-update s q db db' {r} found e = rw e (
    find_first-update _ (test s r.id q) (assign s q) db.inventory
      (λ x. ap (λ i. i == r.id) (assign-id s q x)) found)

-- The tables after a statement on a row, with a movement.
abbrev pub after : Statement → ℤ → Inventory → StockMovement → Database → Database
after s q r m db = record db {
  inventory = update (test s r.id q) (assign s q) db.inventory;
  stock_movement = m ∷ db.stock_movement;
  next_id = suc db.next_id;
}

-- Such an update, recorded as it should be, is a change of the tables.
pub moved_after :
    (s : Statement) (q : ℤ) (r : Inventory) (m : StockMovement) (db db' : Database)
    → db'.inventory ≡ update (test s r.id q) (assign s q) db.inventory
    → db'.stock_movement ≡ m ∷ db.stock_movement
    → db.next_id ≤ db'.next_id
    → find_by_id r.id db ≡ some r
    → leb_ℤ q (pos 0) ≡ false
    → test s r.id q r ≡ true
    → m.inventory_id ≡ r.id
    → Records s m.type
    → m.quantity ≡ recorded s q
    → m.on_hand_after ≡ (assign s q r).on_hand
    → m.reserved_after ≡ (assign s q r).reserved
    → Change db db'
unfolding find_by_id
moved_after s q r m db db' i j n found p t id type quantity on_hand reserved = moved s q (record {
  row = r;
  found = found;
  positive = ground arith;
  passed = t;
  inventory = i;
  movement = m;
  journal = j;
  ids = n;
  movement_row = id;
  movement_type = type;
  movement_quantity = quantity;
  on_hand_snapshot = on_hand;
  reserved_snapshot = reserved;
})
