-- ===== src/Inventory/Calls/Creation.antt =====
-- The calls that may create a row: `importStock` and `createInventory`
-- (modules/inventory/service.ts, lines 368-489).
use smart_light.Prelude.{
  ℕ, suc, ◌<◌, pos, ◌-ℤ◌, ◌≤ℤ◌, ltb_ℤ, Bool, true, false, ◌∷◌, Option, none, some, ◌≡◌, refl, arith,
  ◌==◌, inl, inr, Bool-cases, Option-cases, ok, err, final, String, ltb, ◌⊎◌,
}
use smart_light.Table.{find_first, update, affected}
use smart_light.Table.Rows.{unaffected-All, All-map}
use smart_light.Table.Keys.{find_at}
use smart_light.Database.{Database}
use smart_light.Database.Stock.{Inventory, StockMovement, import, note_text, admin_user, system}
use smart_light.Inventory.Errors.{quantity_too_small, foreign_key_violation, unique_violation}
use smart_light.Inventory.Change.{Statement, test, assign, Change, same, created}
use smart_light.Inventory.Change.Soundness.{IsValid}
use smart_light.Inventory.Repository as Repo
use smart_light.Inventory.Service as Service
use smart_light.Inventory.Service.{find_by_id}
use smart_light.Inventory.Admin.{or_default, AdjustmentResponse, ImportDto, import_stock}
use smart_light.Inventory.Calls.{after, affected_found, found-update, moved_after}

-- A row that a SELECT by variant and warehouse found, by its id.
pub found_in_warehouse :
    (variant : ℕ) (code : String) (db : Database) {r : Inventory}
    → IsValid db
    → Repo.find_by_variant_id variant code db ≡ some r
    → find_by_id r.id db ≡ some r
unfolding find_by_id Repo.find_by_variant_id
found_in_warehouse variant code db v found = find_at (λ x. x.id) _ db.inventory v.ids found

-- The variant exists.
abbrev pub is_known : ℕ → Database → Bool
is_known variant db = ltb 0 (affected (λ v. v.id == variant) db.product_variant)

find_by_id_new :
    (db : Database) (r : Inventory)
    → find_by_id r.id (record db { inventory = r ∷ db.inventory; next_id = suc db.next_id })
      ≡ some r
unfolding find_by_id find_first
find_by_id_new db r = ground arith

module _ (dto : ImportDto) (admin : Option ℕ) (db : Database)
    (p : ltb_ℤ dto.quantity (pos 1) ≡ false) where
  abbrev pub code : String
  code = or_default dto.warehouse_code Repo.default_warehouse_code

  abbrev pub new_row : Inventory
  new_row = record {
    id = db.next_id;
    product_variant_id = dto.product_variant_id;
    warehouse_code = code;
    on_hand = dto.quantity;
    reserved = pos 0;
    available = dto.quantity -ℤ pos 0;
    low_stock_threshold = pos 5;
    allow_backorder = false;
  }

  abbrev pub import_movement : ℕ → Inventory → StockMovement
  import_movement id r = record {
    id = id;
    inventory_id = r.id;
    product_variant_id = dto.product_variant_id;
    type = import;
    quantity = dto.quantity;
    on_hand_after = r.on_hand;
    reserved_after = r.reserved;
    reason = note_text (or_default dto.note "Stock imported");
    reference_type = "IMPORT";
    reference_id = r.id;
    created_by_type = Service.by_actor admin admin_user system;
    created_by_id = admin;
  }

  abbrev pub response : ℕ → Inventory → AdjustmentResponse
  response id r = record {
    variant_id = dto.product_variant_id;
    previous_on_hand = r.on_hand -ℤ dto.quantity;
    new_on_hand = r.on_hand;
    delta = dto.quantity;
    reason = or_default dto.note "IMPORT";
    adjustment_id = id;
    movement_id = id;
  }

  pub import_stock_new :
      Repo.find_by_variant_id dto.product_variant_id code db ≡ none
      → is_known dto.product_variant_id db ≡ true
      → Repo.exists_for_variant dto.product_variant_id db ≡ false
      → import_stock dto admin db
        ≡ ok (response (suc db.next_id) new_row) (record db {
          inventory = new_row ∷ db.inventory;
          stock_movement = import_movement (suc db.next_id) new_row ∷ db.stock_movement;
          next_id = suc (suc db.next_id);
        })
  unfolding import_stock Repo.create_inventory Repo.create_movement
  import_stock_new missing known untaken = ground (arith, find_by_id_new db new_row)

  pub import_stock_more :
      {r : Inventory}
      → IsValid db
      → Repo.find_by_variant_id dto.product_variant_id code db ≡ some r
      → let r' = Repo.restore_row dto.quantity r in
        import_stock dto admin db
        ≡ ok
            (response db.next_id r')
            (after Statement.restoring dto.quantity r (import_movement db.next_id r') db)
  unfolding import_stock Repo.adjust_stock Repo.execute Repo.create_movement
  import_stock_more {r} v found =
      let g = found_in_warehouse dto.product_variant_id code db v found in
      let s = Statement.restoring in
      ground (
        arith,
        affected_found s dto.quantity db v g,
        found-update s dto.quantity db
            (record db {
              inventory = update (test s r.id dto.quantity) (assign s dto.quantity) db.inventory;
            })
            g refl,
      )

  pub import_stock_unknown :
      Repo.find_by_variant_id dto.product_variant_id code db ≡ none
      → is_known dto.product_variant_id db ≡ false
      → import_stock dto admin db ≡ err foreign_key_violation db
  unfolding import_stock Repo.create_inventory
  import_stock_unknown missing unknown = ground arith

  -- A variant that has its row in another warehouse cannot be imported.
  pub import_stock_elsewhere :
      Repo.find_by_variant_id dto.product_variant_id code db ≡ none
      → is_known dto.product_variant_id db ≡ true
      → Repo.exists_for_variant dto.product_variant_id db ≡ true
      → import_stock dto admin db ≡ err unique_violation db
  unfolding import_stock Repo.create_inventory
  import_stock_elsewhere missing known taken = ground arith

pub import_stock_idle :
    (dto : ImportDto) (admin : Option ℕ) (db : Database)
    → ltb_ℤ dto.quantity (pos 1) ≡ true
    → import_stock dto admin db ≡ err quantity_too_small db
unfolding import_stock
import_stock_idle dto admin db h = ground arith

-- A row that is new is a change of the tables.
pub created_after :
    (row : Inventory) (db db' : Database)
    → db'.inventory ≡ row ∷ db.inventory
    → db.next_id < db'.next_id
    → row.id ≡ db.next_id
    → row.available ≡ row.on_hand -ℤ row.reserved
    → pos 0 ≤ℤ row.on_hand
    → pos 0 ≤ℤ row.reserved
    → Repo.exists_for_variant row.product_variant_id db ≡ false
    → ((db'.stock_movement ≡ db.stock_movement) × (row.on_hand ≡ pos 0))
      ⊎ ((m : StockMovement) × (db'.stock_movement ≡ m ∷ db.stock_movement)
          × (m.inventory_id ≡ row.id)
          × (m.type ≡ import)
          × (m.quantity ≡ row.on_hand))
    → Change db db'
unfolding Repo.exists_for_variant
created_after row db db' i n id balanced h r untaken j = created (record {
  row = row;
  on_hand_nonneg = h;
  reserved_nonneg = r;
  balanced = balanced;
  id = id;
  unlisted =
      All-map db.inventory (λ x f. ground (arith, f))
        (unaffected-All (λ x. x.product_variant_id == row.product_variant_id) db.inventory
          (ground arith));
  inventory = i;
  ids = n;
  journal = j;
})

-- An import is one change of the tables, or none.
pub import_stock-Change :
    (dto : ImportDto) (admin : Option ℕ) (db : Database)
    → IsValid db
    → Change db (final (import_stock dto admin db))
import_stock-Change dto admin db v = elim (Bool-cases (ltb_ℤ dto.quantity (pos 1))) [
  | inl idle ↦ rw (import_stock_idle dto admin db idle) (same refl)
  | inr p ↦
      elim (Option-cases
        (Repo.find_by_variant_id dto.product_variant_id (code dto admin db p) db)) [
          | inl missing ↦ elim (Bool-cases (is_known dto.product_variant_id db)) [
            | inl known ↦ elim (Bool-cases (Repo.exists_for_variant dto.product_variant_id db)) [
              | inl taken ↦
                  rw (import_stock_elsewhere dto admin db p missing known taken) (same refl)
              | inr untaken ↦ rw (import_stock_new dto admin db p missing known untaken) (
                  created_after (new_row dto admin db p) db _ refl (omega arith) refl refl
                    (ground arith) (omega arith) untaken
                    (inr (
                      import_movement dto admin db p (suc db.next_id) (new_row dto admin db p),
                      refl,
                      refl,
                      refl,
                      refl,
                    )))
            ]
            | inr unknown ↦ rw (import_stock_unknown dto admin db p missing unknown) (same refl)
          ]
          | inr (r, found) ↦ rw (import_stock_more dto admin db p v found) (
              moved_after Statement.restoring dto.quantity r _ db _ refl refl (omega arith)
                (found_in_warehouse dto.product_variant_id (code dto admin db p) db v found)
                (ground arith) (ground arith) refl (inl refl) refl refl refl)
        ]
]
