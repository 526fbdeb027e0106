-- ===== src/Checkout/Loops.antt =====
-- The loops of `reserveInventory` and of the releases over the whole stock
-- (modules/checkout/service.ts, lines 315-364, 427-436 and 482-491).
use smart_light.Prelude.{
  ℕ, int_laws, Bool, List, [], ◌∷◌, map, none, some, ◌≡◌, ◌≢◌, ◌⊎◌, refl, sym, ap, ◌∙◌, inl, inr,
  arith, ◌==◌, ==_iff, Bool-cases, Option-cases, ok, err, if◌then◌else◌,
}
use smart_light.Table.{update, affected, All, IsUnique}
use smart_light.Table.Rows.{All-map, All-update}
use smart_light.Table.Keys.{IsUnique-update}
use smart_light.Database.Stock.{Inventory}
use smart_light.Orders.Tables.{CheckoutItem}
use smart_light.Checkout.Errors.{CheckoutError, insufficient_stock}
use smart_light.Checkout.Tables.{ReservationItem, CheckoutTables}
use smart_light.Checkout.Service.{available_of}
use smart_light.Checkout.Service.Reserve.{
  reserve_test, reserve_row, take_stock, revalidate, reserve_items, reservation_item_of,
}
use smart_light.Checkout.Service.Release.{release_test, release_row, release_items}
use smart_light.Checkout.Rows.{IsBalanced, take, give, taken, given}

abbrev pub Stock : Type 0
Stock = List Inventory

abbrev variant_key : Inventory → ℕ
variant_key r = r.product_variant_id

-- A statement whose test fits wherever the key does changes every row with the key.
update-All :
    (p q : Inventory → Bool) (f : Inventory → Inventory) (t : Stock)
    → All (λ r. p r ≡ q r) t
    → update p f t ≡ map (λ r. if q r then f r else r) t
unfolding update
update-All p q f [] a = refl
update-All p q f (r ∷ t) a = rw (a.0, update-All p q f t a.1)

miss-All :
    (i : ReservationItem) (t : Stock)
    → All (λ s. variant_key s ≢ i.product_variant_id) t
    → (affected (reserve_test i) t ≡ 0) × All (λ r. reserve_test i r ≡ release_test i r) t
unfolding affected
miss-All i [] a = (refl, tt)
miss-All i (r ∷ t) a =
    let rest = miss-All i t a.1 in (ground (arith, a.0, rest.0), (ground (arith, a.0), rest.1))

-- A row that an UPDATE by a unique key hits is the only one with the key.
hit-All :
    (i : ReservationItem) (t : Stock)
    → IsUnique variant_key t
    → affected (reserve_test i) t ≢ 0
    → All (λ r. reserve_test i r ≡ release_test i r) t
unfolding affected
hit-All i [] u h = tt
hit-All i (r ∷ t) (u, v) h = elim (Bool-cases (release_test i r)) [
  | inl e ↦
      let rest = miss-All i t (All-map t (λ s ne. ground (arith, ne, (==_iff _ _).0 e)) u) in
      (ground (arith, e, h, rest.0), rest.1)
  | inr e ↦ (ground (arith, e), hit-All i t v (ground (arith, e, h)))
]

take_stock-cases :
    (i : ReservationItem) (db : CheckoutTables)
    → ((e : CheckoutError) × (take_stock i db ≡ err e db))
      ⊎ ((affected (reserve_test i) db.inventory ≢ 0)
          × (take_stock i db
              ≡ ok tt
                  (record db { inventory = update (reserve_test i) (reserve_row i) db.inventory })))
unfolding take_stock
take_stock-cases i db = elim (Bool-cases (affected (reserve_test i) db.inventory == 0)) [
  | inl e ↦ inl (
    insufficient_stock i.product_variant_id i.quantity (available_of i.product_variant_id db),
    ground (arith, e),
  )
  | inr e ↦ inr (ground (arith, e), ground (arith, e))
]

-- One item is taken, from every row of its variant, of which there is one at most.
abbrev pub AfterTaking : List ReservationItem → CheckoutTables → CheckoutTables
AfterTaking items db = record db { inventory = map (taken items) db.inventory }

map_id : (t : Stock) → map (λ r. r) t ≡ t
map_id [] = refl
map_id (r ∷ t) = rw (map_id t) refl

map-map : (f g : Inventory → Inventory) (t : Stock) → map f (map g t) ≡ map (λ r. f (g r)) t
map-map f g [] = refl
map-map f g (r ∷ t) = rw (map-map f g t) refl

-- The loop has taken all its items, and no row is overdrawn.
pub record AllTaken (read : CheckoutTables) (items : List CheckoutItem) (db : CheckoutTables)
    : Type 0 where
  pub result : reserve_items read items db ≡ ok tt (AfterTaking (map reservation_item_of items) db)
  pub rows : All IsBalanced (map (taken (map reservation_item_of items)) db.inventory)

module _ (i : ReservationItem) (t : Stock) (a : All IsBalanced t) where
  updated-IsBalanced : All IsBalanced (update (reserve_test i) (reserve_row i) t)
  updated-IsBalanced =
      All-update (reserve_test i) (reserve_row i) t
        (λ r hit b. record {
          sum = grind (int_laws, b.sum);
          available_positive = grind (int_laws, hit);
        })
        (λ r miss b. b) a

-- Taking one item and then the others.
take_then :
    (i : ReservationItem) (items : List ReservationItem) (t : Stock)
    → IsUnique variant_key t
    → affected (reserve_test i) t ≢ 0
    → map (taken items) (update (reserve_test i) (reserve_row i) t) ≡ map (taken (i ∷ items)) t
take_then i items t u hit =
    ap (map (taken items))
      (update-All (reserve_test i) (release_test i) (reserve_row i) t (hit-All i t u hit))
    ∙ map-map (taken items) (take i) t

reserve_items_refused :
    (read : CheckoutTables) (i : CheckoutItem) (t : List CheckoutItem) (db : CheckoutTables)
    {e : CheckoutError}
    → revalidate read i ≡ some e
    → reserve_items read (i ∷ t) db ≡ err e db
unfolding reserve_items
reserve_items_refused read i t db refused = ground (arith, refused)

reserve_items_short :
    (read : CheckoutTables) (i : CheckoutItem) (t : List CheckoutItem) (db : CheckoutTables)
    {e : CheckoutError}
    → revalidate read i ≡ none
    → take_stock (reservation_item_of i) db ≡ err e db
    → reserve_items read (i ∷ t) db ≡ err e db
unfolding reserve_items
reserve_items_short read i t db fine short = ground (arith, fine, short)

reserve_items_next :
    (read : CheckoutTables) (i : CheckoutItem) (t : List CheckoutItem) (db db' : CheckoutTables)
    → revalidate read i ≡ none
    → take_stock (reservation_item_of i) db ≡ ok tt db'
    → reserve_items read (i ∷ t) db ≡ reserve_items read t db'
unfolding reserve_items
reserve_items_next read i t db db' fine enough = ground (arith, fine, enough)

pub reserve_items-cases :
    (read : CheckoutTables) (items : List CheckoutItem) (db : CheckoutTables)
    → IsUnique variant_key db.inventory
    → All IsBalanced db.inventory
    → ((e : CheckoutError) × (s : CheckoutTables) × (reserve_items read items db ≡ err e s))
      ⊎ AllTaken read items db
unfolding reserve_items
reserve_items-cases read [] db u a =
    inr (record { result = rw (map_id db.inventory) refl; rows = rw (map_id db.inventory) a })
reserve_items-cases read (i ∷ t) db u a = elim (Option-cases (revalidate read i)) [
  | inr (e, refused) ↦ inl (e, db, reserve_items_refused read i t db refused)
  | inl fine ↦ elim (take_stock-cases (reservation_item_of i) db) [
    | inl (e, short) ↦ inl (e, db, reserve_items_short read i t db fine short)
    | inr (hit, enough) ↦
        let item = reservation_item_of i in
        let next = reserve_items_next read i t db _ fine enough in
        elim (reserve_items-cases read t
          (record db { inventory = update (reserve_test item) (reserve_row item) db.inventory })
          (IsUnique-update variant_key (reserve_test item) (reserve_row item) db.inventory
            (λ r. refl) u)
          (updated-IsBalanced item db.inventory a)) [
            | inl (e, s, thrown) ↦ inl (e, s, next ∙ thrown)
            | inr rest ↦
                let same = take_then item (map reservation_item_of t) db.inventory u hit in
                inr (record {
                  result = next ∙ rest.result ∙ ap (λ x. ok tt (record db { inventory = x })) same;
                  rows = rw same at rest.rows;
                })
          ]
  ]
]

-- The loop over the items of a reservation gives them back to every row.
pub release_items-given :
    (items : List ReservationItem) (t : Stock) → release_items items t ≡ map (given items) t
unfolding release_items
release_items-given [] t = sym (map_id t)
release_items-given (i ∷ rest) t =
    release_items-given rest (update (release_test i) (release_row i) t)
    ∙ ap (map (given rest))
        (update-All (release_test i) (release_test i) (release_row i) t (All_refl t))
    ∙ map-map (given rest) (give i) t
  where
    All_refl : (l : Stock) → All (λ r. release_test i r ≡ release_test i r) l
    All_refl [] = tt
    All_refl (r ∷ l) = (refl, All_refl l)
