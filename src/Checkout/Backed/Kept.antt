-- ===== src/Checkout/Backed/Kept.antt =====
-- Reserving, releasing and expiring keep every row covered (modules/checkout/service.ts, lines 283-507).
use smart_light.Prelude.{
  ℕ, pos, ◌+ℤ◌, ◌≤ℤ◌, int_laws, true, ◌∷◌, map, some, ◌≡◌, refl, inl, inr, arith, ◌==◌, Bool-cases,
  Option-cases,
}
use smart_light.Table.{All, IsUnique}
use smart_light.Table.Rows.{
  All-map, All-update, All-find_first, All-find_many, All-assigned, All-of_map,
}
use smart_light.Table.Keys.{IsUnique-map, IsUnique-update}
use smart_light.Database.Stock.{Inventory}
use smart_light.Orders.Errors.{StockReservationStatus}
use smart_light.Checkout.Tables.{ReleaseNote, StockReservation, CheckoutTables}
use smart_light.Checkout.Service.{items_of, reservation_of}
use smart_light.Checkout.Service.Reserve.{reservation_item_of, new_reservation}
use smart_light.Checkout.Service.Release.{
  is_active_reservation, close_reservation, release_reservation,
}
use smart_light.Checkout.Rows.{
  need, IsPositive, IsBalanced, taken, given, Moved, taken-Moved, given-Moved, Moved-IsBalanced,
  need-positive, given-variant,
}
use smart_light.Checkout.Loops.{release_items-given}
use smart_light.Checkout.Outcomes.{wanted, reserved_tables, Reserved}
use smart_light.Checkout.Backed.{
  held, AllPositive, IsCovered, IsBacked, held-positive, IsClosing, closed, held_closed,
}

pub wanted-IsPositive : (id : ℕ) (db : CheckoutTables) → IsBacked db → All IsPositive (wanted id db)
unfolding items_of
wanted-IsPositive id db v =
    All-of_map (λ i. pos 0 ≤ℤ i.quantity) IsPositive reservation_item_of (items_of id db) (λ i p. p)
      (All-find_many (λ i. pos 0 ≤ℤ i.quantity) (λ i. i.session_id == id) db.checkout_item v.items)

module _ (now id user : ℕ) (db : CheckoutTables) (v : IsBacked db)
    (m : Reserved now id user db) where
  open m use {session}

  IsCovered-after :
      (r : Inventory)
      → IsCovered db.stock_reservation r
      → IsBalanced (taken (wanted id db) r)
      → IsCovered
          (new_reservation now session user (wanted id db) db.next_id ∷ db.stock_reservation)
          (taken (wanted id db) r)
  IsCovered-after r c b =
      let moved = taken-Moved (wanted id db) r in
      record { balanced = b; covered = grind (int_laws, moved.variant, moved.reserved, c.covered) }

  pub Reserved-IsBacked : IsBacked (reserved_tables now session user (wanted id db) db)
  Reserved-IsBacked = record {
    variants =
        IsUnique-map (λ r. r.product_variant_id) (taken (wanted id db)) db.inventory
          (λ r. (taken-Moved (wanted id db) r).variant) v.variants;
    ids = (All-map db.stock_reservation (λ r n. omega (arith, n)) v.numbered, v.ids);
    numbered = (omega arith, All-map db.stock_reservation (λ r n. omega (arith, n)) v.numbered);
    cart_items = v.cart_items;
    items = v.items;
    reserved_items = (wanted-IsPositive id db v, v.reserved_items);
    rows = All-assigned _ _ _ (taken (wanted id db)) db.inventory IsCovered-after v.rows m.rows;
  }

module _ (status : StockReservationStatus) (note : ReleaseNote) (now : ℕ)
    (closing : IsClosing status) where
  module _ (id : ℕ) (db : CheckoutTables) (v : IsBacked db) (r : StockReservation)
      (found : reservation_of id db ≡ some r) (live : is_active_reservation r.status ≡ true) where
    closed-positive : All AllPositive (closed status note now r.id db.stock_reservation)
    closed-positive =
        All-update _ (close_reservation status note now) db.stock_reservation (λ x _ p. p)
          (λ x _ p. p) v.reserved_items

    released_part :
        (w : ℕ)
        → held w (closed status note now r.id db.stock_reservation) +ℤ need w r.items
          ≡ held w db.stock_reservation
    unfolding reservation_of
    released_part w =
        rw live at (held_closed status note now _ w db.stock_reservation closing v.ids found)

    rest-positive : (w : ℕ) → pos 0 ≤ℤ held w (closed status note now r.id db.stock_reservation)
    rest-positive w =
        held-positive w (closed status note now r.id db.stock_reservation) closed-positive

    items-IsPositive : All IsPositive r.items
    unfolding reservation_of
    items-IsPositive = All-find_first AllPositive _ db.stock_reservation v.reserved_items found

    given_from :
        (x : Inventory)
        → IsCovered db.stock_reservation x
        → Moved (need x.product_variant_id r.items) x (given r.items x)
    given_from x c = given-Moved r.items x c.balanced items-IsPositive (
        grind (
          int_laws,
          c.covered,
          released_part x.product_variant_id,
          rest-positive x.product_variant_id,
        ))

    given-IsCovered :
        (x : Inventory)
        → IsCovered db.stock_reservation x
        → IsCovered (closed status note now r.id db.stock_reservation) (given r.items x)
    given-IsCovered x c =
        let moved = given_from x c in
        record {
          balanced = Moved-IsBalanced _ x (given r.items x) moved c.balanced (
              grind (
                int_laws,
                moved.available,
                c.balanced.available_positive,
                need-positive x.product_variant_id r.items items-IsPositive,
              ));
          covered = grind (
            int_laws,
            moved.variant,
            moved.reserved,
            c.covered,
            released_part x.product_variant_id,
          );
        }

    given_variants : IsUnique (λ y. y.product_variant_id) (map (given r.items) db.inventory)
    given_variants =
        IsUnique-map (λ y. y.product_variant_id) (given r.items) db.inventory
          (given-variant r.items) v.variants

    released-IsBacked : IsBacked (release_reservation status note now (some r) db)
    released-IsBacked =
        rw (live, release_items-given r.items db.inventory)
          (record {
            variants = given_variants;
            ids =
                IsUnique-update (λ x. x.id) _ (close_reservation status note now)
                  db.stock_reservation (λ x. refl) v.ids;
            numbered =
                All-update _ (close_reservation status note now) db.stock_reservation (λ x _ n. n)
                  (λ x _ n. n) v.numbered;
            cart_items = v.cart_items;
            items = v.items;
            reserved_items = closed-positive;
            rows =
                All-of_map (IsCovered db.stock_reservation) _ (given r.items) db.inventory
                  given-IsCovered v.rows;
          })

  pub release_reservation-IsBacked :
      (id : ℕ) (db : CheckoutTables)
      → IsBacked db
      → IsBacked (release_reservation status note now (reservation_of id db) db)
  release_reservation-IsBacked id db v = elim (Option-cases (reservation_of id db)) [
    | inl missing ↦ rw missing v
    | inr (r, found) ↦ elim (Bool-cases (is_active_reservation r.status)) [
      | inl live ↦ rw found (released-IsBacked id db v r found live)
      | inr over ↦ rw (found, over) v
    ]
  ]
