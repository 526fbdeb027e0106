-- ===== src/Inventory/Change/Journal.antt =====
-- The journal of stock movements accounts for the stock on hand.
use smart_light.Prelude.{
  ℕ, ℤ, pos, ◌+ℤ◌, int_laws, +ℤ_zero, true, false, List, [], ◌∷◌, ◌≡◌, ◌≢◌, refl, sym, ap, ◌∙◌,
  arith, ◌==◌, inl, inr, if◌then◌else◌,
}
use mathlib.Core.Path.{subst₂}
use smart_light.Table.{update, All}
use smart_light.Table.Rows.{All-update, All-map, All-zip}
use smart_light.Table.Keys.{find_first_unique}
use smart_light.Database.{Database}
use smart_light.Database.Stock.{Inventory, StockMovement, import}
use smart_light.Inventory.Repository.{id_test, retune_row}
use smart_light.Inventory.Change.{
  Statement, test, assign, effect, recorded, Records, Moved, Created, Change, same, moved, created,
  retuned,
}
use smart_light.Inventory.Change.Soundness.{IsValid, assign-id}

-- The sum of the movements of a row, as far as they move stock.
unfoldable pub journal_total : ℕ → List StockMovement → ℤ
journal_total id [] = pos 0
journal_total id (m ∷ ms) =
    if m.inventory_id == id
    then journal_total id ms +ℤ effect m.type m.quantity
    else journal_total id ms

-- The stock on hand of every row is the sum of its movements.
abbrev pub Accounts : List StockMovement → List Inventory → Type 0
Accounts ms = All (λ r. r.on_hand ≡ journal_total r.id ms)

abbrev pub IsAccounted : Database → Type 0
IsAccounted db = Accounts db.stock_movement db.inventory

-- A statement changes the stock on hand by what its movement records.
on_hand-assign :
    (s : Statement) (q : ℤ) (r : Inventory) (m : StockMovement)
    → Records s m.type
    → m.quantity ≡ recorded s q
    → (assign s q r).on_hand ≡ r.on_hand +ℤ effect m.type m.quantity
on_hand-assign Statement.reserving q r m t e = rw t (omega int_laws)
on_hand-assign Statement.releasing q r m t e = rw t (omega int_laws)
on_hand-assign Statement.selling q r m t e = rw (t, e) (omega int_laws)
on_hand-assign Statement.restoring q r m (inl t) e = rw (t, e) refl
on_hand-assign Statement.restoring q r m (inr t) e = rw (t, e) refl
on_hand-assign Statement.removing q r m t e = rw (t, e) (omega int_laws)

pub test-id : (s : Statement) (id : ℕ) (q : ℤ) (r : Inventory) → test s id q r ≡ true → r.id ≡ id
test-id Statement.reserving id q r h = ground arith
test-id Statement.releasing id q r h = ground arith
test-id Statement.selling id q r h = ground arith
test-id Statement.restoring id q r h = ground arith
test-id Statement.removing id q r h = ground arith

journal_total_hit :
    (id : ℕ) (m : StockMovement) (ms : List StockMovement)
    → m.inventory_id ≡ id
    → journal_total id (m ∷ ms) ≡ journal_total id ms +ℤ effect m.type m.quantity
unfolding journal_total
journal_total_hit id m ms h = ground arith

pub journal_total_miss :
    (id : ℕ) (m : StockMovement) (ms : List StockMovement)
    → m.inventory_id ≢ id
    → journal_total id (m ∷ ms) ≡ journal_total id ms
unfolding journal_total
journal_total_miss id m ms h = ground arith

module _ {s : Statement} {q : ℤ} {db db' : Database} (moved : Moved s q db db') where
  open moved use {row, movement}

  -- The row that the statement hits.
  row-accounted :
      (r : Inventory)
      → r ≡ row
      → r.on_hand ≡ journal_total r.id db.stock_movement
      → (assign s q r).on_hand ≡ journal_total (assign s q r).id (movement ∷ db.stock_movement)
  row-accounted r eq h = rw (
    assign-id s q r,
    journal_total_hit r.id movement db.stock_movement
        (moved.movement_row ∙ sym (ap (λ x. x.id) eq)),
    on_hand-assign s q r movement moved.movement_type moved.movement_quantity,
    h,
  )

  -- A row with another id.
  other-accounted :
      (r : Inventory)
      → (r.id ≡ row.id → r ≡ row)
      → test s row.id q r ≡ false
      → r.on_hand ≡ journal_total r.id db.stock_movement
      → r.on_hand ≡ journal_total r.id (movement ∷ db.stock_movement)
  other-accounted r only missed h =
      h
      ∙ sym (
          journal_total_miss r.id movement db.stock_movement
            (λ e. contra (only (sym e ∙ moved.movement_row))))
    where
      contra : r ≡ row → ⊥
      contra eq = ground (arith, eq, missed, moved.passed)

  -- The journal goes on accounting for the stock on hand.
  pub Moved-IsAccounted : IsValid db → IsAccounted db → IsAccounted db'
  Moved-IsAccounted v a =
      rw (moved.inventory, moved.journal)
        (All-update (test s row.id q) (assign s q) db.inventory
          (λ r t h. row-accounted r (h.1 (test-id s row.id q r t)) h.0)
          (λ r t h. other-accounted r h.1 t h.0)
          (All-zip _ _ db.inventory a
            (find_first_unique (λ r. r.id) (λ r. r.id == row.id) db.inventory v.ids moved.found)))

journal_total_none :
    (id : ℕ) (ms : List StockMovement)
    → All (λ m. m.inventory_id ≢ id) ms
    → journal_total id ms ≡ pos 0
unfolding journal_total
journal_total_none id [] a = refl
journal_total_none id (m ∷ ms) a = ground (arith, a.0, journal_total_none id ms a.1)

module _ {db db' : Database} (c : Created db db') (v : IsValid db) where
  open c use {row}

  unused : All (λ m. m.inventory_id ≢ row.id) db.stock_movement
  unused = All-map db.stock_movement (λ m h. omega (arith, c.id)) v.movements_numbered

  older : All (λ r. r.id ≢ row.id) db.inventory
  older = All-map db.inventory (λ r h. omega (arith, c.id)) v.rows_numbered

  -- A new row starts with the stock that its first movement records.
  pub Created-IsAccounted : IsAccounted db → IsAccounted db'
  Created-IsAccounted a = elim c.journal [
    | inl (j, empty) ↦
        subst₂ Accounts (sym j) (sym c.inventory)
          (empty ∙ sym (journal_total_none row.id db.stock_movement unused), a)
    | inr (m, j, i, t, n) ↦ subst₂ Accounts (sym j) (sym c.inventory) (
      first_row m i t n,
      All-map db.inventory
          (λ r h. h.1 ∙ sym (journal_total_miss r.id m db.stock_movement (λ e. h.0 (sym e ∙ i))))
          (All-zip _ _ db.inventory older a),
    )
  ]
    where
      first_row :
          (m : StockMovement)
          → m.inventory_id ≡ row.id
          → m.type ≡ import
          → m.quantity ≡ row.on_hand
          → row.on_hand ≡ journal_total row.id (m ∷ db.stock_movement)
      first_row m i t n =
          rw
            (
              journal_total_hit row.id m db.stock_movement i,
              journal_total_none row.id db.stock_movement unused,
              t,
              n,
            )
            (sym (+ℤ_zero row.on_hand))

retuned-IsAccounted :
    (db db' : Database) (id : ℕ) (threshold : ℤ)
    → db'.inventory ≡ update (id_test id) (retune_row threshold) db.inventory
    → db'.stock_movement ≡ db.stock_movement
    → IsAccounted db
    → IsAccounted db'
retuned-IsAccounted db db' id threshold i j a =
    subst₂ Accounts (sym j) (sym i)
      (All-update (id_test id) (retune_row threshold) db.inventory (λ r _ h. h) (λ r _ h. h) a)

pub Change-IsAccounted :
    {db db' : Database} → Change db db' → IsValid db → IsAccounted db → IsAccounted db'
Change-IsAccounted (same e) v a = rw e a
Change-IsAccounted (moved s q m) v a = Moved-IsAccounted m v a
Change-IsAccounted (created c) v a = Created-IsAccounted c v a
Change-IsAccounted {db} {db'} (retuned id t i j n) v a = retuned-IsAccounted db db' id t i j a
