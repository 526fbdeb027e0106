-- ===== src/Inventory/Calls/Contract.antt =====
-- The stock contract (modules/inventory/service.ts, lines 118-362), branch by branch.
use smart_light.Prelude.{
  ℤ, pos, ◌+ℤ◌, ◌-ℤ◌, leb_ℤ, max_ℤ, true, false, some, ◌≡◌, refl, arith, ok, err,
}
use smart_light.Table.{update}
use smart_light.Table.Rows.{update_unaffected}
use smart_light.Database.{Database}
use smart_light.Database.Stock.{
  Inventory, StockMovement, reservation, release, sale, return, reserved_for, released,
  sale_confirmed, restored, user, admin_user, system,
}
use smart_light.Inventory.Errors.{insufficient_stock}
use smart_light.Inventory.Change.{Statement, test, assign}
use smart_light.Inventory.Change.Soundness.{IsValid}
use smart_light.Inventory.Repository as Repo
use smart_light.Inventory.Service as Service
use smart_light.Inventory.Service.{find_by_variant, find_by_id}
use smart_light.Inventory.Calls.{after, found_by_id, affected_found, found-update}

-- The database right after the UPDATE.
abbrev updated : Statement → ℤ → Inventory → Database → Database
updated s q r db = record db { inventory = update (test s r.id q) (assign s q) db.inventory }

module _ (a : Service.ReserveArgs) (db : Database) {r : Inventory} (v : IsValid db)
    (found : find_by_variant a.variant_id db ≡ some r) (p : leb_ℤ a.quantity (pos 0) ≡ false) where
  abbrev pub reservation_movement : StockMovement
  reservation_movement = record {
    id = db.next_id;
    inventory_id = r.id;
    product_variant_id = a.variant_id;
    type = reservation;
    quantity = pos 0 -ℤ a.quantity;
    on_hand_after = r.on_hand;
    reserved_after = r.reserved +ℤ a.quantity;
    reason = reserved_for a.reference_type a.reference_id;
    reference_type = a.reference_type;
    reference_id = a.reference_id;
    created_by_type = Service.by_actor a.actor_id user system;
    created_by_id = a.actor_id;
  }

  pub reserve_stock_made :
      leb_ℤ a.quantity r.available ≡ true
      → Service.reserve_stock a db
        ≡ ok
            (record { success = true; available_after = r.available -ℤ a.quantity })
            (after Statement.reserving a.quantity r reservation_movement db)
  unfolding Service.reserve_stock Repo.reserve_stock Repo.execute Repo.create_movement
  reserve_stock_made enough =
      let g = found_by_id a.variant_id db v found in
      let s = Statement.reserving in
      ground (
        arith,
        affected_found s a.quantity db v g,
        found-update s a.quantity db (updated s a.quantity r db) g refl,
      )

  pub reserve_stock_refused :
      leb_ℤ a.quantity r.available ≡ false
      → Service.reserve_stock a db
        ≡ ok (record { success = false; available_after = r.available }) db
  unfolding Service.reserve_stock Repo.reserve_stock Repo.execute
  reserve_stock_refused short =
      let g = found_by_id a.variant_id db v found in
      let s = Statement.reserving in
      let missed = affected_found s a.quantity db v g in
      ground (
        arith,
        missed,
        g,
        update_unaffected (test s r.id a.quantity) (assign s a.quantity) db.inventory,
      )

module _ (a : Service.ReleaseArgs) (db : Database) {r : Inventory} (v : IsValid db)
    (found : find_by_variant a.variant_id db ≡ some r) (p : leb_ℤ a.quantity (pos 0) ≡ false) where
  abbrev pub release_movement : StockMovement
  release_movement = record {
    id = db.next_id;
    inventory_id = r.id;
    product_variant_id = a.variant_id;
    type = release;
    quantity = a.quantity;
    on_hand_after = r.on_hand;
    reserved_after = max_ℤ (r.reserved -ℤ a.quantity) (pos 0);
    reason = released a.reason a.reference_id;
    reference_type = "ORDER";
    reference_id = a.reference_id;
    created_by_type = system;
    created_by_id = a.actor_id;
  }

  pub release_stock_made :
      Service.release_stock a db
      ≡ ok true (after Statement.releasing a.quantity r release_movement db)
  unfolding Service.release_stock Repo.release_stock Repo.execute Repo.create_movement
  release_stock_made =
      let g = found_by_id a.variant_id db v found in
      let s = Statement.releasing in
      ground (arith, found-update s a.quantity db (updated s a.quantity r db) g refl)

module _ (a : Service.SaleArgs) (db : Database) {r : Inventory} (v : IsValid db)
    (found : find_by_variant a.variant_id db ≡ some r) (p : leb_ℤ a.quantity (pos 0) ≡ false) where
  abbrev pub sale_movement : StockMovement
  sale_movement = record {
    id = db.next_id;
    inventory_id = r.id;
    product_variant_id = a.variant_id;
    type = sale;
    quantity = pos 0 -ℤ a.quantity;
    on_hand_after = r.on_hand -ℤ a.quantity;
    reserved_after = max_ℤ (r.reserved -ℤ a.quantity) (pos 0);
    reason = sale_confirmed a.order_id;
    reference_type = "ORDER";
    reference_id = a.order_id;
    created_by_type = system;
    created_by_id = a.actor_id;
  }

  pub confirm_sale_made :
      test Statement.selling r.id a.quantity r ≡ true
      → Service.confirm_sale a db ≡ ok true (after Statement.selling a.quantity r sale_movement db)
  unfolding Service.confirm_sale Repo.confirm_sale Repo.execute Repo.create_movement
  confirm_sale_made enough =
      let g = found_by_id a.variant_id db v found in
      let s = Statement.selling in
      ground (
        arith,
        affected_found s a.quantity db v g,
        found-update s a.quantity db (updated s a.quantity r db) g refl,
      )

  pub confirm_sale_refused :
      test Statement.selling r.id a.quantity r ≡ false
      → Service.confirm_sale a db ≡ err (insufficient_stock a.variant_id a.quantity r.on_hand) db
  unfolding Service.confirm_sale Repo.confirm_sale Repo.execute
  confirm_sale_refused short =
      let g = found_by_id a.variant_id db v found in
      ground (arith, affected_found Statement.selling a.quantity db v g)

module _ (a : Service.RestoreArgs) (db : Database) {r : Inventory} (v : IsValid db)
    (found : find_by_variant a.variant_id db ≡ some r) (p : leb_ℤ a.quantity (pos 0) ≡ false) where
  abbrev pub restore_movement : StockMovement
  restore_movement = record {
    id = db.next_id;
    inventory_id = r.id;
    product_variant_id = a.variant_id;
    type = return;
    quantity = a.quantity;
    on_hand_after = r.on_hand +ℤ a.quantity;
    reserved_after = r.reserved;
    reason = restored a.reason a.reference_id;
    reference_type = "RETURN";
    reference_id = a.reference_id;
    created_by_type = Service.by_actor a.actor_id admin_user system;
    created_by_id = a.actor_id;
  }

  pub restore_stock_made :
      Service.restore_stock a db
      ≡ ok true (after Statement.restoring a.quantity r restore_movement db)
  unfolding Service.restore_stock Repo.restore_stock Repo.execute Repo.create_movement
  restore_stock_made =
      let g = found_by_id a.variant_id db v found in
      let s = Statement.restoring in
      ground (arith, found-update s a.quantity db (updated s a.quantity r db) g refl)
