-- ===== src/Inventory/Change/Soundness.antt =====
-- The stock rows under the repository's statements: nothing is promised that is not on hand.
use smart_light.Prelude.{
  ℕ, ◌<◌, inl, inr, ℤ, pos, ◌+ℤ◌, ◌-ℤ◌, ◌≤ℤ◌, int_laws, min_ℤ_cases, max_ℤ_cases, true, ◌≡◌, refl,
  arith,
}
use smart_light.Table.{update, All, IsUnique}
use smart_light.Table.Rows.{All-update, All-map, All-find_first}
use smart_light.Table.Keys.{IsUnique-update}
use smart_light.Database.{Database}
use smart_light.Database.Stock.{Inventory}
use smart_light.Inventory.Repository.{id_test, retune_row}
use smart_light.Inventory.Change.{
  Statement, test, assign, Moved, Created, Change, same, moved, created, retuned,
}

-- Neither count is negative, and what may still be sold is covered by the stock that is on hand and
-- not reserved.
pub record IsSound (r : Inventory) : Type 0 where
  pub on_hand_nonneg : pos 0 ≤ℤ r.on_hand
  pub reserved_nonneg : pos 0 ≤ℤ r.reserved
  pub covered : r.available +ℤ r.reserved ≤ℤ r.on_hand

assign-IsSound :
    (s : Statement) (id : ℕ) (q : ℤ) (r : Inventory)
    → pos 1 ≤ℤ q
    → test s id q r ≡ true
    → IsSound r
    → IsSound (assign s q r)
assign-IsSound Statement.reserving id q r p t v = grind int_laws
assign-IsSound Statement.releasing id q r p t v =
    grind
      (int_laws, max_ℤ_cases (r.reserved -ℤ q) (pos 0), min_ℤ_cases (r.available +ℤ q) r.on_hand)
assign-IsSound Statement.selling id q r p t v =
    grind (int_laws, max_ℤ_cases (r.reserved -ℤ q) (pos 0))
assign-IsSound Statement.restoring id q r p t v = grind int_laws
assign-IsSound Statement.removing id q r p t v = grind int_laws

-- The constraints of the tables, with soundness of every row; no id is given out twice.
pub record IsValid (db : Database) : Type 0 where
  pub ids : IsUnique (λ r. r.id) db.inventory
  pub variants : IsUnique (λ r. r.product_variant_id) db.inventory
  pub sound : All IsSound db.inventory
  pub rows_numbered : All (λ r. r.id < db.next_id) db.inventory
  pub movements_numbered : All (λ m. m.inventory_id < db.next_id) db.stock_movement

pub assign-id : (s : Statement) (q : ℤ) (r : Inventory) → (assign s q r).id ≡ r.id
assign-id Statement.reserving q r = refl
assign-id _ q r = refl

pub assign-variant :
    (s : Statement) (q : ℤ) (r : Inventory)
    → (assign s q r).product_variant_id ≡ r.product_variant_id
assign-variant Statement.reserving q r = refl
assign-variant _ q r = refl

-- A statement with its movement keeps the tables valid.
pub Moved-IsValid :
    {s : Statement} {q : ℤ} {db db' : Database} → Moved s q db db' → IsValid db → IsValid db'
Moved-IsValid {s} {q} {db} {db'} m v = record {
  ids = rw m.inventory (IsUnique-update (λ r. r.id) _ _ db.inventory (assign-id s q) v.ids);
  variants = rw m.inventory (
      IsUnique-update (λ r. r.product_variant_id) _ _ db.inventory (assign-variant s q) v.variants);
  sound = rw m.inventory (
      All-update (test s m.row.id q) (assign s q) db.inventory
        (λ r t h. assign-IsSound s m.row.id q r m.positive t h) (λ r _ h. h) v.sound);
  rows_numbered = rw m.inventory (
      All-update {P = λ r. r.id < db.next_id} {Q = λ r. r.id < db'.next_id} (test s m.row.id q)
        (assign s q) db.inventory (λ r _ h. rw (assign-id s q r) (omega (arith, m.ids)))
        (λ r _ h. omega (arith, m.ids)) v.rows_numbered);
  movements_numbered = rw m.journal (
    omega (
      arith,
      m.movement_row,
      m.ids,
      All-find_first (λ r. r.id < db.next_id) _ db.inventory v.rows_numbered m.found,
    ),
    All-map db.stock_movement (λ x h. omega (arith, m.ids)) v.movements_numbered,
  );
}

-- So does a new row.
pub Created-IsValid : {db db' : Database} → Created db db' → IsValid db → IsValid db'
Created-IsValid {db} {db'} c v = record {
  ids = rw c.inventory (All-map db.inventory (λ r h. omega (arith, c.id)) v.rows_numbered, v.ids);
  variants = rw c.inventory (c.unlisted, v.variants);
  sound = rw c.inventory (
    record {
      on_hand_nonneg = c.on_hand_nonneg;
      reserved_nonneg = c.reserved_nonneg;
      covered = rw c.balanced (omega int_laws);
    },
    v.sound,
  );
  rows_numbered = rw c.inventory (
    omega (arith, c.id, c.ids),
    All-map db.inventory (λ r h. omega (arith, c.ids)) v.rows_numbered,
  );
  movements_numbered = elim c.journal [
    | inl (j, _) ↦
        rw j (All-map db.stock_movement (λ x h. omega (arith, c.ids)) v.movements_numbered)
    | inr (m, j, i, _, _) ↦ rw j (
      omega (arith, i, c.id, c.ids),
      All-map db.stock_movement (λ x h. omega (arith, c.ids)) v.movements_numbered,
    )
  ];
}

retuned-IsValid :
    {db db' : Database} (id : ℕ) (threshold : ℤ)
    → db'.inventory ≡ update (id_test id) (retune_row threshold) db.inventory
    → db'.stock_movement ≡ db.stock_movement
    → db'.next_id ≡ db.next_id
    → IsValid db
    → IsValid db'
retuned-IsValid {db} id threshold i j n v = record {
  ids = rw i (IsUnique-update (λ r. r.id) _ _ db.inventory (λ r. refl) v.ids);
  variants =
      rw i (IsUnique-update (λ r. r.product_variant_id) _ _ db.inventory (λ r. refl) v.variants);
  sound = rw i (
      All-update (id_test id) (retune_row threshold) db.inventory
        (λ r _ h. record {
          on_hand_nonneg = h.on_hand_nonneg;
          reserved_nonneg = h.reserved_nonneg;
          covered = h.covered;
        })
        (λ r _ h. h) v.sound);
  rows_numbered =
      rw (i, n)
        (All-update (id_test id) (retune_row threshold) db.inventory (λ r _ h. h) (λ r _ h. h)
          v.rows_numbered);
  movements_numbered = rw (j, n) v.movements_numbered;
}

pub Change-IsValid : {db db' : Database} → Change db db' → IsValid db → IsValid db'
Change-IsValid (same e) v = rw e v
Change-IsValid (moved s q m) v = Moved-IsValid m v
Change-IsValid (created c) v = Created-IsValid c v
Change-IsValid (retuned id t i j n) v = retuned-IsValid id t i j n v
