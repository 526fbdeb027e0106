-- ===== src/Inventory/History/Bulk.antt =====
-- `bulkAdjust` (modules/inventory/service.ts, lines 587-621) against the single adjustments.
use smart_light.Prelude.{
  ℕ, suc, List, [], ◌∷◌, Option, none, some, ◌≡◌, refl, ap, ◌∙◌, inl, inr, arith, map, Outcome,
  Outcome-cases, ok, err, final,
}
use smart_light.Database.{Database}
use smart_light.Inventory.Errors.{InventoryError}
use smart_light.Inventory.Adjust.{
  adjust_stock, BulkDto, BulkItem, BulkResult, item_dto, bulk_item, bulk_items, bulk_adjust,
}
use smart_light.Inventory.History.{Call, adjusts, after_call, run}
use smart_light.Inventory.History.Laws.{bulk_item-final}

-- The results without an error.
abbrev pub successes : List BulkResult → ℕ
successes [] = 0
successes ((_, none) ∷ rs) = suc (successes rs)
successes ((_, some e) ∷ rs) = successes rs

abbrev pub adjusts_item : BulkDto → Option ℕ → BulkItem → Call
adjusts_item dto admin item = adjusts item.product_variant_id (item_dto dto item) admin

bulk_items-run :
    (dto : BulkDto) (admin : Option ℕ) (items : List BulkItem) (db : Database)
    → (bulk_items dto admin items db).1 ≡ run (map (adjusts_item dto admin) items) db
unfolding bulk_items run after_call
bulk_items-run dto admin [] db = refl
bulk_items-run dto admin (item ∷ items) db =
    bulk_items-run dto admin items (bulk_item dto admin item db).1
    ∙ ap (run (map (adjusts_item dto admin) items)) (bulk_item-final dto admin item db)

bulk_items-successes :
    (dto : BulkDto) (admin : Option ℕ) (items : List BulkItem) (db : Database)
    → (bulk_items dto admin items db).0.0 ≡ successes (bulk_items dto admin items db).0.1
unfolding bulk_items
bulk_items-successes dto admin [] db = refl
bulk_items-successes dto admin (item ∷ items) db =
    ground (arith, bulk_items-successes dto admin items (bulk_item dto admin item db).1)

-- What the single adjustments answer, one after the other: each variant with what its adjustment threw,
-- if it threw.
unfoldable pub error_of : {A : Type 0} → Outcome Database InventoryError A → Option InventoryError
error_of (ok _ _) = none
error_of (err e _) = some e

unfoldable pub single_results : BulkDto → Option ℕ → List BulkItem → Database → List BulkResult
single_results dto admin [] db = []
single_results dto admin (item ∷ items) db =
    let rest = single_results dto admin items (after_call (adjusts_item dto admin item) db) in
    (
      item.product_variant_id,
      error_of (adjust_stock item.product_variant_id (item_dto dto item) admin db),
    )
    ∷ rest

bulk_item-result :
    (dto : BulkDto) (admin : Option ℕ) (item : BulkItem) (db : Database)
    → (bulk_item dto admin item db).0 ≡ (
      item.product_variant_id,
      error_of (adjust_stock item.product_variant_id (item_dto dto item) admin db),
    )
unfolding bulk_item error_of
bulk_item-result dto admin item db =
    elim (Outcome-cases (adjust_stock item.product_variant_id (item_dto dto item) admin db)) [
      | inl (r, s, returned) ↦ ground (arith, returned)
      | inr (e, s, thrown) ↦ ground (arith, thrown)
    ]

bulk_items-single_results :
    (dto : BulkDto) (admin : Option ℕ) (items : List BulkItem) (db : Database)
    → (bulk_items dto admin items db).0.1 ≡ single_results dto admin items db
unfolding bulk_items single_results after_call
bulk_items-single_results dto admin [] db = refl
bulk_items-single_results dto admin (item ∷ items) db =
    rw
      (
        bulk_item-result dto admin item db,
        bulk_item-final dto admin item db,
        bulk_items-single_results dto admin items
            (final (adjust_stock item.product_variant_id (item_dto dto item) admin db)),
      )
      refl

-- A bulk adjustment leaves the tables as the single adjustments of its items, made one after the
-- other, leave them, whichever of these throw; it answers, in the order of the items, each variant with
-- what its single adjustment threw, if it threw; and the number of items that it says were processed
-- is the number of single adjustments that returned.
pub bulk_adjust-run :
    (dto : BulkDto) (admin : Option ℕ) (db : Database)
    → (bulk_adjust dto admin db).1 ≡ run (map (adjusts_item dto admin) dto.items) db
      × (bulk_adjust dto admin db).0.1 ≡ single_results dto admin dto.items db
      × (bulk_adjust dto admin db).0.0 ≡ successes (single_results dto admin dto.items db)
unfolding bulk_adjust
bulk_adjust-run dto admin db = (
  bulk_items-run dto admin dto.items db,
  bulk_items-single_results dto admin dto.items db,
  bulk_items-successes dto admin dto.items db
      ∙ ap successes (bulk_items-single_results dto admin dto.items db),
)
