-- ===== src/Inventory/Calls/Administration.antt =====
-- The administrators' calls (modules/inventory/service.ts, lines 368-581), branch by branch.
use smart_light.Prelude.{
  ℕ, suc, ℤ, pos, ◌+ℤ◌, ◌-ℤ◌, leb_ℤ, ltb_ℤ, eqb_ℤ, true, false, ◌∷◌, Option, none, some, ◌≡◌, refl,
  sym, arith, inl, inr, if◌then◌else◌, Bool-cases, Option-cases, ok, err, final, sub_neg, neg_neg,
  covers, leb_neg,
}
use smart_light.Table.{update}
use smart_light.Database.{Database}
use smart_light.Database.Stock.{
  Inventory, StockMovement, InventoryAdjustment, import, export, note_text, admin_user, system,
  InventoryAdjustmentReason,
}
use smart_light.Inventory.Errors.{inventory_not_found, stock_negative_prevented, invalid_enum_value}
use smart_light.Inventory.Change.{Statement, test, assign, Change, same}
use smart_light.Inventory.Change.Soundness.{IsValid}
use smart_light.Inventory.Repository as Repo
use smart_light.Inventory.Service as Service
use smart_light.Inventory.Service.{find_by_variant, find_by_id}
use smart_light.Inventory.Admin.{or_default}
use smart_light.Inventory.Adjust.{AdjustmentDto, adjust_stock}
use smart_light.Inventory.Calls.{found_by_id, affected_found, found-update, moved_after}

-- The statement that an adjustment sends, and its quantity.
abbrev pub adjusting : ℤ → Statement
adjusting delta = if leb_ℤ (pos 0) delta then Statement.restoring else Statement.removing

abbrev pub adjusted_by : ℤ → ℤ
adjusted_by delta = if leb_ℤ (pos 0) delta then delta else pos 0 -ℤ delta

abbrev updated : Statement → ℤ → Inventory → Database → Database
updated s q r db = record db { inventory = update (test s r.id q) (assign s q) db.inventory }

module _ (variant : ℕ) (dto : AdjustmentDto) (admin : Option ℕ) (db : Database) {r : Inventory}
    (v : IsValid db) (found : find_by_variant variant db ≡ some r)
    (p : eqb_ℤ dto.delta (pos 0) ≡ false) where
  abbrev pub adjustment_movement : StockMovement
  adjustment_movement = record {
    id = db.next_id;
    inventory_id = r.id;
    product_variant_id = variant;
    type = if ltb_ℤ (pos 0) dto.delta then import else export;
    quantity = dto.delta;
    on_hand_after = r.on_hand +ℤ dto.delta;
    reserved_after = r.reserved;
    reason = note_text (or_default dto.note dto.reason);
    reference_type = or_default dto.reference_type "MANUAL";
    reference_id = or_default dto.reference_id r.id;
    created_by_type = Service.by_actor admin admin_user system;
    created_by_id = admin;
  }

  abbrev pub adjustment_row : InventoryAdjustmentReason → InventoryAdjustment
  adjustment_row reason = record {
    id = suc db.next_id;
    inventory_id = r.id;
    product_variant_id = variant;
    quantity_delta = dto.delta;
    on_hand_after = r.on_hand +ℤ dto.delta;
    reason = reason;
    note = dto.note;
    reference_type = or_default dto.reference_type "MANUAL";
    reference_id = or_default dto.reference_id r.id;
    created_by_id = admin;
  }

  abbrev pub adjusted : InventoryAdjustmentReason → Database
  adjusted reason = record db {
    inventory =
        update (test (adjusting dto.delta) r.id (adjusted_by dto.delta))
          (assign (adjusting dto.delta) (adjusted_by dto.delta)) db.inventory;
    stock_movement = adjustment_movement ∷ db.stock_movement;
    inventory_adjustment = adjustment_row reason ∷ db.inventory_adjustment;
    next_id = suc (suc db.next_id);
  }

  pub adjust_stock_up :
      {reason : InventoryAdjustmentReason}
      → leb_ℤ (pos 0) dto.delta ≡ true
      → ltb_ℤ (r.on_hand +ℤ dto.delta) (pos 0) ≡ false
      → Repo.adjustment_reason dto.reason ≡ some reason
      → adjust_stock variant dto admin db
        ≡ ok
            (record {
              variant_id = variant;
              previous_on_hand = r.on_hand;
              new_on_hand = r.on_hand +ℤ dto.delta;
              delta = dto.delta;
              reason = dto.reason;
              adjustment_id = suc db.next_id;
              movement_id = db.next_id;
            })
            (adjusted reason)
  unfolding adjust_stock Repo.adjust_stock Repo.execute Repo.create_movement Repo.create_adjustment
      Repo.fetch_on_hand find_by_id
  adjust_stock_up up enough known =
      let g = found_by_id variant db v found in
      let s = Statement.restoring in
      ground (
        arith,
        affected_found s dto.delta db v g,
        found-update s dto.delta db (updated s dto.delta r db) g refl,
      )

  pub adjust_stock_down :
      {reason : InventoryAdjustmentReason}
      → leb_ℤ (pos 0) dto.delta ≡ false
      → ltb_ℤ (r.on_hand +ℤ dto.delta) (pos 0) ≡ false
      → Repo.adjustment_reason dto.reason ≡ some reason
      → adjust_stock variant dto admin db
        ≡ ok
            (record {
              variant_id = variant;
              previous_on_hand = r.on_hand;
              new_on_hand = r.on_hand +ℤ dto.delta;
              delta = dto.delta;
              reason = dto.reason;
              adjustment_id = suc db.next_id;
              movement_id = db.next_id;
            })
            (adjusted reason)
  unfolding adjust_stock Repo.adjust_stock Repo.execute Repo.create_movement Repo.create_adjustment
      Repo.fetch_on_hand find_by_id
  adjust_stock_down down enough known =
      let g = found_by_id variant db v found in
      let s = Statement.removing in
      let q = pos 0 -ℤ dto.delta in
      ground (
        arith,
        sub_neg r.on_hand dto.delta,
        covers r.on_hand dto.delta enough,
        affected_found s q db v g,
        found-update s q db (updated s q r db) g refl,
      )

  -- A reason that the enum lacks undoes the adjustment.
  pub adjust_stock_reason :
      ltb_ℤ (r.on_hand +ℤ dto.delta) (pos 0) ≡ false
      → Repo.adjustment_reason dto.reason ≡ none
      → adjust_stock variant dto admin db ≡ err invalid_enum_value db
  unfolding adjust_stock Repo.adjust_stock Repo.execute Repo.create_movement Repo.create_adjustment
  adjust_stock_reason enough unknown =
      let g = found_by_id variant db v found in
      let q = pos 0 -ℤ dto.delta in
      ground (
        arith,
        covers r.on_hand dto.delta enough,
        affected_found Statement.removing q db v g,
        affected_found Statement.restoring dto.delta db v g,
      )

  pub adjust_stock_refused :
      ltb_ℤ (r.on_hand +ℤ dto.delta) (pos 0) ≡ true
      → adjust_stock variant dto admin db
        ≡ err (stock_negative_prevented variant r.on_hand dto.delta) db
  unfolding adjust_stock
  adjust_stock_refused short = ground arith

module _ (variant : ℕ) (dto : AdjustmentDto) (admin : Option ℕ) (db : Database) where
  pub adjust_stock_idle :
      eqb_ℤ dto.delta (pos 0) ≡ true
      → adjust_stock variant dto admin db ≡ err (inventory_not_found variant) db
  unfolding adjust_stock
  adjust_stock_idle h = ground arith

  pub adjust_stock_unknown :
      find_by_variant variant db ≡ none
      → adjust_stock variant dto admin db ≡ err (inventory_not_found variant) db
  unfolding adjust_stock
  adjust_stock_unknown h = ground arith

positive_delta : (d : ℤ) → leb_ℤ (pos 0) d ≡ true → eqb_ℤ d (pos 0) ≡ false → ltb_ℤ (pos 0) d ≡ true
positive_delta d h k = ground arith

-- An adjustment is one change of the tables, or none.
pub adjust_stock-Change :
    (variant : ℕ) (dto : AdjustmentDto) (admin : Option ℕ) (db : Database)
    → IsValid db
    → Change db (final (adjust_stock variant dto admin db))
adjust_stock-Change variant dto admin db v = elim (Bool-cases (eqb_ℤ dto.delta (pos 0))) [
  | inl idle ↦ rw (adjust_stock_idle variant dto admin db idle) (same refl)
  | inr p ↦ elim (Option-cases (find_by_variant variant db)) [
    | inl unknown ↦ rw (adjust_stock_unknown variant dto admin db unknown) (same refl)
    | inr (r, found) ↦ elim (Bool-cases (ltb_ℤ (r.on_hand +ℤ dto.delta) (pos 0))) [
      | inl short ↦ rw (adjust_stock_refused variant dto admin db v found p short) (same refl)
      | inr enough ↦ elim (Option-cases (Repo.adjustment_reason dto.reason)) [
        | inl bad ↦ rw (adjust_stock_reason variant dto admin db v found p enough bad) (same refl)
        | inr (reason, known) ↦ elim (Bool-cases (leb_ℤ (pos 0) dto.delta)) [
          | inl up ↦ rw (adjust_stock_up variant dto admin db v found p up enough known) (
              moved_after Statement.restoring dto.delta r _ db _ (ground arith) refl (omega arith)
                (found_by_id variant db v found) (ground arith) (ground arith) refl
                (inl (ground (arith, positive_delta dto.delta up p))) refl refl refl)
          | inr down ↦ rw (adjust_stock_down variant dto admin db v found p down enough known) (
              moved_after Statement.removing (pos 0 -ℤ dto.delta) r _ db _ (ground arith) refl
                (omega arith) (found_by_id variant db v found) (leb_neg dto.delta down)
                (ground (arith, covers r.on_hand dto.delta enough)) refl (ground arith)
                (sym (neg_neg dto.delta)) (sym (sub_neg r.on_hand dto.delta)) refl)
        ]
      ]
    ]
  ]
]
