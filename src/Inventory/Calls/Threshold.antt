-- ===== src/Inventory/Calls/Threshold.antt =====
-- `updateLowStockThreshold` (modules/inventory/service.ts, lines 733-751).
use text.Mathlib.TextPositions.{eq_refl}
use smart_light.Prelude.{ℕ, ℤ, none, some, ◌≡◌, ◌∙◌, refl, arith, inl, inr, Option-cases, ok, final}
use smart_light.Table.{update}
use smart_light.Table.Rows.{find_first-holds}
use smart_light.Table.Keys.{find_first-update, find_other}
use smart_light.Database.{Database}
use smart_light.Database.Stock.{Inventory}
use smart_light.Inventory.Change.{Change, same, retuned}
use smart_light.Inventory.Change.Soundness.{IsValid}
use smart_light.Inventory.Repository.{id_test, retune_row}
use smart_light.Inventory.Repository as Repo
use smart_light.Inventory.Service.{find_by_variant}
use smart_light.Inventory.Admin.{StockDto, map_to_stock_dto}
use smart_light.Inventory.Adjust.{update_low_stock_threshold}

threshold_unknown :
    (variant : ℕ) (threshold : ℤ) (db : Database)
    → find_by_variant variant db ≡ none
    → final (update_low_stock_threshold variant threshold db) ≡ db
unfolding update_low_stock_threshold
threshold_unknown variant threshold db h = ground arith

module _ (variant : ℕ) (threshold : ℤ) (db : Database) {r : Inventory}
    (found : find_by_variant variant db ≡ some r) where
  abbrev pub retuned_tables : Database
  retuned_tables = record db {
    inventory = update (id_test r.id) (retune_row threshold) db.inventory;
  }

  pub threshold_made :
      Repo.find_by_variant_id variant r.warehouse_code db ≡ some r
      → update_low_stock_threshold variant threshold db ≡ ok (map_to_stock_dto db r) retuned_tables
  unfolding update_low_stock_threshold
  threshold_made again = ground arith

  threshold_lost :
      Repo.find_by_variant_id variant r.warehouse_code db ≡ none
      → final (update_low_stock_threshold variant threshold db) ≡ db
  unfolding update_low_stock_threshold
  threshold_lost lost = ground arith

  threshold_other :
      {x : Inventory}
      → Repo.find_by_variant_id variant r.warehouse_code db ≡ some x
      → final (update_low_stock_threshold variant threshold db) ≡ retuned_tables
  unfolding update_low_stock_threshold
  threshold_other again = ground arith

row_retuned :
    (variant : ℕ) (threshold : ℤ) (db : Database) {r : Inventory}
    (found : find_by_variant variant db ≡ some r)
    → find_by_variant variant (retuned_tables variant threshold db found)
      ≡ some (retune_row threshold r)
unfolding find_by_variant
row_retuned variant threshold db {r} found =
    find_first-update _ (id_test r.id) (retune_row threshold) db.inventory (λ x. refl) found
    ∙ ground arith

pub update_low_stock_threshold-Change :
    (variant : ℕ) (threshold : ℤ) (db : Database)
    → Change db (final (update_low_stock_threshold variant threshold db))
update_low_stock_threshold-Change variant threshold db =
    elim (Option-cases (find_by_variant variant db)) [
      | inl unknown ↦ same (threshold_unknown variant threshold db unknown)
      | inr (r, found) ↦ elim (Option-cases (Repo.find_by_variant_id variant r.warehouse_code db)) [
        | inl lost ↦ same (threshold_lost variant threshold db found lost)
        | inr (x, again) ↦
            rw (threshold_other variant threshold db found again)
              (retuned r.id threshold refl refl refl)
      ]
    ]

-- The variant's row by its own warehouse.
find_again :
    (variant : ℕ) (db : Database) {r : Inventory}
    → IsValid db
    → find_by_variant variant db ≡ some r
    → Repo.find_by_variant_id variant r.warehouse_code db ≡ some r
unfolding find_by_variant Repo.find_by_variant_id
find_again variant db {r} v found =
    let mine = find_first-holds _ db.inventory found in
    find_other (λ x. x.product_variant_id) _ _ db.inventory v.variants found
      (λ x h. ground (arith, h, mine)) (ground (arith, mine, eq_refl r.warehouse_code))

-- `updateLowStockThreshold` stores the new threshold and answers with the old one, in tables that
-- are valid and where the variant has a row: the answer is read outside the transaction.
pub update_low_stock_threshold_stale :
    (variant : ℕ) (threshold : ℤ) (db : Database) {r : Inventory}
    → IsValid db
    → find_by_variant variant db ≡ some r
    → (dto : StockDto) × (db' : Database) × (update_low_stock_threshold variant threshold db
        ≡ ok dto db')
      × (find_by_variant variant db' ≡ some (retune_row threshold r))
      × (dto.low_stock_threshold ≡ r.low_stock_threshold)
unfolding map_to_stock_dto
update_low_stock_threshold_stale variant threshold db {r} v found = (
  map_to_stock_dto db r,
  retuned_tables variant threshold db found,
  threshold_made variant threshold db found (find_again variant db v found),
  row_retuned variant threshold db found,
  refl,
)
