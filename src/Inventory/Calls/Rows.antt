-- ===== src/Inventory/Calls/Rows.antt =====
-- A variant's row after the calls of the stock contract.
use smart_light.Prelude.{
  ℕ, ℤ, pos, ◌+ℤ◌, ◌-ℤ◌, ◌≤ℤ◌, min_ℤ, max_ℤ, min_ℤ_cases, max_ℤ_cases, int_laws, Option, some, ◌≡◌,
  refl, ap, ◌∙◌, arith, ◌==◌, if◌then◌else◌, final,
}
use smart_light.Table.Rows.{All-find_first}
use smart_light.Table.Keys.{find_first-update}
use smart_light.Database.{Database}
use smart_light.Database.Stock.{Inventory, StockMovement, ReleaseReason}
use smart_light.Inventory.Change.{Statement, test, assign}
use smart_light.Inventory.Change.Soundness.{IsSound, IsValid, assign-variant, Change-IsValid}
use smart_light.Inventory.Service as Service
use smart_light.Inventory.Service.{find_by_variant}
use smart_light.Inventory.Calls.{after}
use smart_light.Inventory.Calls.Changes.{reserve_stock-Change}
use smart_light.Inventory.Calls.Contract.{reserve_stock_made, release_stock_made, confirm_sale_made}

-- The row of any variant, after a statement on one row.
pub find_by_variant-after :
    (variant : ℕ) (s : Statement) (q : ℤ) (hit : Inventory) (m : StockMovement) (db : Database)
    {r : Inventory}
    → find_by_variant variant db ≡ some r
    → find_by_variant variant (after s q hit m db)
      ≡ some (if test s hit.id q r then assign s q r else r)
unfolding find_by_variant
find_by_variant-after variant s q hit m db found =
    find_first-update _ (test s hit.id q) (assign s q) db.inventory
      (λ x. ap (λ i. i == variant) (assign-variant s q x)) found

pub find_by_variant-IsSound :
    (variant : ℕ) (db : Database) {r : Inventory}
    → IsValid db
    → find_by_variant variant db ≡ some r
    → IsSound r
unfolding find_by_variant
find_by_variant-IsSound variant db v found = All-find_first IsSound _ db.inventory v.sound found

-- After a reservation that the stock allows.
pub reserve_stock-row :
    (a : Service.ReserveArgs) (db : Database) {r : Inventory}
    → IsValid db
    → find_by_variant a.variant_id db ≡ some r
    → pos 1 ≤ℤ a.quantity
    → a.quantity ≤ℤ r.available
    → find_by_variant a.variant_id (final (Service.reserve_stock a db))
      ≡ some (assign Statement.reserving a.quantity r)
reserve_stock-row a db {r} v found p enough =
    rw (reserve_stock_made a db v found (ground arith) (ground arith)) (
      rw (find_by_variant-after a.variant_id Statement.reserving a.quantity r _ db found)
        (ground arith))

pub release_stock-row :
    (a : Service.ReleaseArgs) (db : Database) {r : Inventory}
    → IsValid db
    → find_by_variant a.variant_id db ≡ some r
    → pos 1 ≤ℤ a.quantity
    → find_by_variant a.variant_id (final (Service.release_stock a db))
      ≡ some (assign Statement.releasing a.quantity r)
release_stock-row a db {r} v found p = rw (release_stock_made a db v found (ground arith)) (
    rw (find_by_variant-after a.variant_id Statement.releasing a.quantity r _ db found)
      (ground arith))

pub confirm_sale-row :
    (a : Service.SaleArgs) (db : Database) {r : Inventory}
    → IsValid db
    → find_by_variant a.variant_id db ≡ some r
    → pos 1 ≤ℤ a.quantity
    → a.quantity ≤ℤ r.on_hand
    → a.quantity ≤ℤ r.reserved
    → find_by_variant a.variant_id (final (Service.confirm_sale a db))
      ≡ some (assign Statement.selling a.quantity r)
confirm_sale-row a db {r} v found p enough held =
    rw (confirm_sale_made a db v found (ground arith) (ground arith)) (
      rw (find_by_variant-after a.variant_id Statement.selling a.quantity r _ db found)
        (ground arith))

release-reserve_row :
    (q : ℤ) (r : Inventory)
    → IsSound r
    → pos 1 ≤ℤ q
    → assign Statement.releasing q (assign Statement.reserving q r) ≡ r
release-reserve_row q r s p = rw (back, covered)
  where
    back : max_ℤ (r.reserved +ℤ q -ℤ q) (pos 0) ≡ r.reserved
    back = grind (int_laws, max_ℤ_cases (r.reserved +ℤ q -ℤ q) (pos 0))

    covered : min_ℤ (r.available -ℤ q +ℤ q) r.on_hand ≡ r.available
    covered = grind (int_laws, min_ℤ_cases (r.available -ℤ q +ℤ q) r.on_hand)

-- Releasing what was just reserved, one piece or more, gives the variant its row back exactly, in
-- tables that are valid and where the stock allows the reservation.
pub release-reserve_stock :
    (a : Service.ReserveArgs) (reason : ReleaseReason) (reference : ℕ) (actor : Option ℕ)
    (db : Database) {r : Inventory}
    → IsValid db
    → find_by_variant a.variant_id db ≡ some r
    → pos 1 ≤ℤ a.quantity
    → a.quantity ≤ℤ r.available
    → find_by_variant a.variant_id (
        final (
          Service.release_stock
            (record {
              variant_id = a.variant_id;
              quantity = a.quantity;
              reason = reason;
              reference_id = reference;
              actor_id = actor;
            })
            (final (Service.reserve_stock a db))))
      ≡ some r
release-reserve_stock a reason reference actor db {r} v found p enough =
    release_stock-row _ (final (Service.reserve_stock a db))
      (Change-IsValid (reserve_stock-Change a db v) v) (reserve_stock-row a db v found p enough) p
    ∙ ap some (release-reserve_row a.quantity r (find_by_variant-IsSound a.variant_id db v found) p)

selling_reserved :
    (q : ℤ) (r : Inventory)
    → IsSound r
    → r.available +ℤ r.reserved ≡ r.on_hand
    → let s = assign Statement.selling q (assign Statement.reserving q r) in
      s.available +ℤ s.reserved ≡ s.on_hand -ℤ q
selling_reserved q r s balanced =
    grind (int_laws, max_ℤ_cases (r.reserved +ℤ q -ℤ q) (pos 0), balanced)

-- In tables that are valid, and where the stock allows a reservation of one piece or more,
-- `confirmSale` takes the quantity off `available` once more, though the reservation has done so: where reserved and available stock made up the stock on hand, they fall short of it by the
-- quantity afterwards, and `available` has lost it twice.
pub confirm_sale_subtracts_twice :
    (a : Service.ReserveArgs) (order : ℕ) (actor : Option ℕ) (db : Database) {r : Inventory}
    → IsValid db
    → find_by_variant a.variant_id db ≡ some r
    → pos 1 ≤ℤ a.quantity
    → a.quantity ≤ℤ r.available
    → r.available +ℤ r.reserved ≡ r.on_hand
    → (s : Inventory) × (find_by_variant a.variant_id (
          final (
            Service.confirm_sale
              (record {
                variant_id = a.variant_id;
                quantity = a.quantity;
                order_id = order;
                actor_id = actor;
              })
              (final (Service.reserve_stock a db))))
        ≡ some s)
      × (s.available +ℤ s.reserved ≡ s.on_hand -ℤ a.quantity)
      × (s.available ≡ r.available -ℤ a.quantity -ℤ a.quantity)
confirm_sale_subtracts_twice a order actor db {r} v found p enough balanced = (
  assign Statement.selling a.quantity (assign Statement.reserving a.quantity r),
  confirm_sale-row _ (final (Service.reserve_stock a db))
      (Change-IsValid (reserve_stock-Change a db v) v) (reserve_stock-row a db v found p enough) p
      (grind (int_laws, sound.reserved_nonneg, balanced)) (grind (int_laws, sound.reserved_nonneg)),
  selling_reserved a.quantity r sound balanced,
  refl,
)
  where
    sound : IsSound r
    sound = find_by_variant-IsSound a.variant_id db v found
