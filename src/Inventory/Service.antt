-- ===== src/Inventory/Service.antt =====
-- modules/inventory/service.ts: the calls that other modules and the administrators make. Logging
-- is left out; quantities are integers of any size.
use smart_light.Prelude.{
  ℕ, ℤ, pos, ◌-ℤ◌, leb_ℤ, Bool, true, false, String, Option, none, some, ◌==◌, gets, or_throw,
  throw_if, if_else, pure, with_transaction, ◌>>=◌, ◌>>◌,
}
use smart_light.Table.{find_first}
use smart_light.Database.{Database}
use smart_light.Database.Stock.{
  Inventory, sale, reservation, release, return, ActorType, user, admin_user, system, reserved_for,
  released, sale_confirmed, restored, ReleaseReason, RestoreReason,
}
use smart_light.Inventory.Errors.{inventory_not_found, insufficient_stock}
use smart_light.Inventory.Repository.{Inv, default_warehouse_code, id_test}
use smart_light.Inventory.Repository as Repo

-- `tx.inventory.findFirst({ where: { productVariantId } })`
unfoldable pub find_by_variant : ℕ → Database → Option Inventory
find_by_variant variant_id db = find_first (λ r. r.product_variant_id == variant_id) db.inventory

-- `tx.inventory.findUnique({ where: { id } })`
unfoldable pub find_by_id : ℕ → Database → Option Inventory
find_by_id id db = find_first (id_test id) db.inventory

-- `row?.onHand ?? 0` and the like.
abbrev pub on_hand_of : Option Inventory → ℤ
on_hand_of (some r) = r.on_hand
on_hand_of none = pos 0

abbrev pub reserved_of : Option Inventory → ℤ
reserved_of (some r) = r.reserved
reserved_of none = pos 0

abbrev pub available_of : Option Inventory → ℤ
available_of (some r) = r.available
available_of none = pos 0

-- `actorId ? a : b`
abbrev pub by_actor : Option ℕ → ActorType → ActorType → ActorType
by_actor (some _) a b = a
by_actor none a b = b

pub record ReserveArgs : Type 0 where
  pub variant_id : ℕ
  pub quantity : ℤ
  pub reference_type : String
  pub reference_id : ℕ
  pub actor_id : Option ℕ

pub record ReserveResult : Type 0 where
  pub success : Bool
  pub available_after : ℤ

-- The part of the transaction that follows a successful UPDATE.
abbrev pub record_reservation : ReserveArgs → Inventory → Inv ReserveResult
record_reservation a inv = do
  after ← gets (find_by_id inv.id)
  Repo.create_movement (record {
    inventory_id = inv.id;
    product_variant_id = a.variant_id;
    type = reservation;
    quantity = pos 0 -ℤ a.quantity;
    on_hand_after = on_hand_of after;
    reserved_after = reserved_of after;
    reason = reserved_for a.reference_type a.reference_id;
    reference_type = a.reference_type;
    reference_id = a.reference_id;
    created_by_type = by_actor a.actor_id user system;
    created_by_id = a.actor_id;
  })
  pure (record { success = true; available_after = available_of after })

unfoldable pub reserve_stock : ReserveArgs → Inv ReserveResult
reserve_stock a =
    if_else (leb_ℤ a.quantity (pos 0)) (pure (record { success = false; available_after = pos 0 }))
      (with_transaction (do
        inv ← (do
          or_throw (← gets (find_by_variant a.variant_id)) (inventory_not_found a.variant_id))
        updated ← Repo.reserve_stock inv.id a.quantity
        if_else (updated == 0)
            (do
              current ← gets (find_by_id inv.id)
              pure (record { success = false; available_after = available_of current }))
            (record_reservation a inv)))

pub record ReleaseArgs : Type 0 where
  pub variant_id : ℕ
  pub quantity : ℤ
  pub reason : ReleaseReason
  pub reference_id : ℕ
  pub actor_id : Option ℕ

-- The body of the transaction, given the row that it has looked for.
abbrev pub release_found : ReleaseArgs → Option Inventory → Inv Bool
release_found a found s = elim found [
  | none ↦ pure true s
  | some inv ↦
      (do
        Repo.release_stock inv.id a.quantity
        after ← gets (find_by_id inv.id)
        Repo.create_movement (record {
          inventory_id = inv.id;
          product_variant_id = a.variant_id;
          type = release;
          quantity = a.quantity;
          on_hand_after = on_hand_of after;
          reserved_after = reserved_of after;
          reason = released a.reason a.reference_id;
          reference_type = "ORDER";
          reference_id = a.reference_id;
          created_by_type = system;
          created_by_id = a.actor_id;
        })
        pure true)
        s
]

-- The result is the field `success`.
unfoldable pub release_stock : ReleaseArgs → Inv Bool
release_stock a =
    if_else (leb_ℤ a.quantity (pos 0)) (pure true)
      (with_transaction (do inv ← gets (find_by_variant a.variant_id); release_found a inv))

pub record SaleArgs : Type 0 where
  pub variant_id : ℕ
  pub quantity : ℤ
  pub order_id : ℕ
  pub actor_id : Option ℕ

unfoldable pub confirm_sale : SaleArgs → Inv Bool
confirm_sale a = if_else (leb_ℤ a.quantity (pos 0)) (pure true) (
    with_transaction (do
      inv ← (do or_throw (← gets (find_by_variant a.variant_id)) (inventory_not_found a.variant_id))
      updated ← Repo.confirm_sale inv.id a.quantity
      throw_if (updated == 0) (insufficient_stock a.variant_id a.quantity inv.on_hand)
      after ← gets (find_by_id inv.id)
      Repo.create_movement (record {
        inventory_id = inv.id;
        product_variant_id = a.variant_id;
        type = sale;
        quantity = pos 0 -ℤ a.quantity;
        on_hand_after = on_hand_of after;
        reserved_after = reserved_of after;
        reason = sale_confirmed a.order_id;
        reference_type = "ORDER";
        reference_id = a.order_id;
        created_by_type = system;
        created_by_id = a.actor_id;
      })
      pure true))

pub record RestoreArgs : Type 0 where
  pub variant_id : ℕ
  pub quantity : ℤ
  pub reason : RestoreReason
  pub reference_id : ℕ
  pub actor_id : Option ℕ

unfoldable pub restore_stock : RestoreArgs → Inv Bool
restore_stock a = if_else (leb_ℤ a.quantity (pos 0)) (pure true) (
    with_transaction (do
      inv ← (do or_throw (← gets (find_by_variant a.variant_id)) (inventory_not_found a.variant_id))
      Repo.restore_stock inv.id a.quantity
      after ← gets (find_by_id inv.id)
      Repo.create_movement (record {
        inventory_id = inv.id;
        product_variant_id = a.variant_id;
        type = return;
        quantity = a.quantity;
        on_hand_after = on_hand_of after;
        reserved_after = reserved_of after;
        reason = restored a.reason a.reference_id;
        reference_type = "RETURN";
        reference_id = a.reference_id;
        created_by_type = by_actor a.actor_id admin_user system;
        created_by_id = a.actor_id;
      })
      pure true))
