-- ===== src/Inventory/Calls/Effects.antt =====
-- The stock contract by its counts (modules/inventory/service.ts, lines 118-362).
pub mod Contract
use smart_light.Prelude.{
  ℕ, ℤ, List, [], Bool, pos, ◌+ℤ◌, ◌-ℤ◌, ◌≤ℤ◌, leb_ℤ, min_ℤ, max_ℤ, true, false, ◌&&◌, ◌∷◌, Option,
  none, some, ◌≡◌, ◌≢◌, ◌⊎◌, refl, sym, ap, ◌∙◌, inl, inr, arith, ◌==◌, ==_iff, ==_refl, Bool-cases,
  Option-cases, final, if◌then◌else◌,
}
use mathlib.Core.Path.{subst}
use smart_light.Table.{find_first, update}
use smart_light.Table.Rows.{find_first-holds}
use smart_light.Database.{Database}
use smart_light.Database.Stock.{
  Inventory, StockMovement, StockMovementType, reservation, release, sale, return,
}
use smart_light.Inventory.Change.{Statement, test, assign}
use smart_light.Inventory.Change.Soundness.{IsValid, assign-variant}
use smart_light.Inventory.Change.Journal.{test-id}
use smart_light.Inventory.Service as Service
use smart_light.Inventory.Service.{find_by_variant, find_by_id}
use smart_light.Inventory.Calls.{after, found_by_id}
use smart_light.Inventory.Calls.Rows.{find_by_variant-after}
use smart_light.Inventory.Calls.Contract.{
  reservation_movement, reserve_stock_made, reserve_stock_refused, release_movement,
  release_stock_made, sale_movement, confirm_sale_made, confirm_sale_refused, restore_movement,
  restore_stock_made,
}
use smart_light.Inventory.Calls.Changes.{
  reserve_stock_idle, reserve_stock_unknown, release_stock_idle, release_stock_unknown,
  confirm_sale_idle, confirm_sale_unknown, restore_stock_idle, restore_stock_unknown,
}

-- The counts of a row after a quantity is reserved, released, sold and restored.
pub record Counted (on_hand reserved available : ℤ) (s : Inventory) : Type 0 where
  pub on_hand_count : s.on_hand ≡ on_hand
  pub reserved_count : s.reserved ≡ reserved
  pub available_count : s.available ≡ available

abbrev pub AfterReserving : ℤ → Inventory → Inventory → Type 0
AfterReserving q r = Counted r.on_hand (r.reserved +ℤ q) (r.available -ℤ q)

abbrev pub AfterReleasing : ℤ → Inventory → Inventory → Type 0
AfterReleasing q r =
    Counted r.on_hand (max_ℤ (r.reserved -ℤ q) (pos 0)) (min_ℤ (r.available +ℤ q) r.on_hand)

abbrev pub AfterSelling : ℤ → Inventory → Inventory → Type 0
AfterSelling q r = Counted (r.on_hand -ℤ q) (max_ℤ (r.reserved -ℤ q) (pos 0)) (r.available -ℤ q)

abbrev pub AfterRestoring : ℤ → Inventory → Inventory → Type 0
AfterRestoring q r = Counted (r.on_hand +ℤ q) r.reserved (r.available +ℤ q)

-- A call that changed the counts of its variant's row, and of no other variant's, and recorded it.
pub record Written (variant : ℕ) (q : ℤ) (type : StockMovementType) (signed : ℤ)
    (Guard : Inventory → Type 0) (Counts : Inventory → Inventory → Type 0) (db db' : Database)
    : Type 0 where
  pub row : Inventory
  pub found : find_by_variant variant db ≡ some row
  pub positive : pos 1 ≤ℤ q
  pub allowed : Guard row
  pub row_after : Inventory
  pub found_after : find_by_variant variant db' ≡ some row_after
  pub counts : Counts row row_after
  pub others : (v : ℕ) → v ≢ variant → find_by_variant v db' ≡ find_by_variant v db
  pub movement : StockMovement
  pub journal : db'.stock_movement ≡ movement ∷ db.stock_movement
  pub movement_variant : movement.product_variant_id ≡ variant
  pub movement_row : movement.inventory_id ≡ row.id
  pub movement_type : movement.type ≡ type
  pub movement_quantity : movement.quantity ≡ signed
  pub on_hand_snapshot : movement.on_hand_after ≡ row_after.on_hand
  pub reserved_snapshot : movement.reserved_after ≡ row_after.reserved

-- A call that left the tables alone, since its quantity, its variant or its guard did not allow more.
pub record Refused (variant : ℕ) (q : ℤ) (Guard : Inventory → Type 0) (db db' : Database)
    : Type 0 where
  pub same : db' ≡ db
  pub why : (r : Inventory) → find_by_variant variant db ≡ some r → pos 1 ≤ℤ q → ¬ Guard r

abbrev pub Effect :
    ℕ
    → ℤ
    → StockMovementType
    → ℤ
    → (Inventory → Type 0)
    → (Inventory → Inventory → Type 0)
    → Database
    → Database
    → Type 0
Effect variant q type signed Guard Counts db db' =
    Refused variant q Guard db db' ⊎ Written variant q type signed Guard Counts db db'

pub some_inventory : {x y : Inventory} → some x ≡ some y → x ≡ y
some_inventory h = cc

find_first-none :
    (q p : Inventory → Bool) (f : Inventory → Inventory) (t : List Inventory)
    → ((s : Inventory) → q (f s) ≡ q s)
    → find_first q t ≡ none
    → find_first q (update p f t) ≡ none
unfolding find_first update
find_first-none q p f [] same h = refl
find_first-none q p f (s ∷ t) same h = elim (Bool-cases (q s)) [
  | inl e ↦ absurd (ground (arith, e, h))
  | inr e ↦ ground (arith, same s, e, find_first-none q p f t same (ground (arith, e, h)))
]

module _ (variant : ℕ) (s : Statement) (q : ℤ) (m : StockMovement) (db : Database) {r : Inventory}
    (v : IsValid db) (found : find_by_variant variant db ≡ some r) where
  variant_of_row :
      (w : ℕ) {x : Inventory} → find_by_variant w db ≡ some x → x.product_variant_id ≡ w
  unfolding find_by_variant
  variant_of_row w known = (==_iff _ w).0 (find_first-holds _ db.inventory known)

  missed :
      (w : ℕ) {x : Inventory}
      → w ≢ variant
      → find_by_variant w db ≡ some x
      → test s r.id q x ≡ false
  missed w {x} other known = elim (Bool-cases (test s r.id q x)) [
    | inr e ↦ e
    | inl e ↦
        let same_id : x.id ≡ r.id = test-id s r.id q x e in
        let a = found_by_id w db v known in
        let b = found_by_id variant db v found in
        let same : x ≡ r = some_inventory (sym a ∙ ap (λ i. find_by_id i db) same_id ∙ b) in
        absurd (
          other (
            sym (variant_of_row w known)
            ∙ ap (λ y. y.product_variant_id) same
            ∙ variant_of_row variant found))
  ]

  others_after : (w : ℕ) → w ≢ variant → find_by_variant w (after s q r m db) ≡ find_by_variant w db
  unfolding find_by_variant
  others_after w other = elim (Option-cases (find_by_variant w db)) [
    | inl none_found ↦
        find_first-none _ _ (assign s q) db.inventory (λ x. ap (λ i. i == w) (assign-variant s q x))
          none_found
        ∙ sym none_found
    | inr (x, known) ↦
        find_by_variant-after w s q r m db known ∙ rw (missed w other known) (sym known)
  ]

  found_after :
      test s r.id q r ≡ true → find_by_variant variant (after s q r m db) ≡ some (assign s q r)
  found_after hit = find_by_variant-after variant s q r m db found ∙ rw hit refl

  pub written :
      (type : StockMovementType) (signed : ℤ) (Guard : Inventory → Type 0)
      (Counts : Inventory → Inventory → Type 0)
      → leb_ℤ q (pos 0) ≡ false
      → Guard r
      → test s r.id q r ≡ true
      → Counts r (assign s q r)
      → m.product_variant_id ≡ variant
      → m.inventory_id ≡ r.id
      → m.type ≡ type
      → m.quantity ≡ signed
      → m.on_hand_after ≡ (assign s q r).on_hand
      → m.reserved_after ≡ (assign s q r).reserved
      → Written variant q type signed Guard Counts db (after s q r m db)
  written type signed Guard Counts p allowed hit counts mv mr mt mq mo ms = record {
    row = r;
    found = found;
    positive = grind (arith, p);
    allowed = allowed;
    row_after = assign s q r;
    found_after = found_after hit;
    counts = counts;
    others = others_after;
    movement = m;
    journal = refl;
    movement_variant = mv;
    movement_row = mr;
    movement_type = mt;
    movement_quantity = mq;
    on_hand_snapshot = mo;
    reserved_snapshot = ms;
  }

module _ {variant : ℕ} {q : ℤ} (Guard : Inventory → Type 0) {db db' : Database} where
  pub idle-Refused : leb_ℤ q (pos 0) ≡ true → db' ≡ db → Refused variant q Guard db db'
  idle-Refused idle same = record {
    same = same;
    why = λ r known positive allowed. grind (arith, idle, positive);
  }

  pub unknown-Refused :
      find_by_variant variant db ≡ none → db' ≡ db → Refused variant q Guard db db'
  unknown-Refused unknown same = record {
    same = same;
    why = λ r known positive allowed. cc (unknown, known);
  }
