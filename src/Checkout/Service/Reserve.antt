-- ===== src/Checkout/Service/Reserve.antt =====
-- modules/checkout/service.ts, lines 283-405: `reserveInventory`.
use smart_light.Prelude.{
  ℕ, ◌+◌, ◌*◌, ◌+ℤ◌, ◌-ℤ◌, leb_ℤ, ltb_ℤ, Bool, true, false, ◌&&◌, ◌||◌, not, List, [], ◌∷◌, map,
  Option, none, some, ◌==◌, throw, throw_if, pure, gets, or_throw, modify, with_transaction,
  if◌then◌else◌, ◌>>=◌, ◌>>◌,
}
use smart_light.Table.{update, affected}
use smart_light.Database.Stock.{Inventory}
use smart_light.Orders.Errors.{CheckoutSessionStatus, StockReservationStatus}
use smart_light.Orders.Tables.{CheckoutItem}
use smart_light.Checkout.Errors.{
  CheckoutError, checkout_not_found, checkout_invalid_status, product_unavailable,
  variant_unavailable, variant_inactive, insufficient_stock, unique_violation,
}
use smart_light.Checkout.Tables.{
  CheckoutSession, ReservationItem, StockReservation, CheckoutTables, Chk, new_id,
}
use smart_light.Checkout.Service.{
  is_created, find_by_id, find_by_id_for_user, variant_of, product_of, items_of, reservation_of,
  available_of, assert_session_not_expired, CheckoutResponse, map_to_response,
}
use smart_light.Checkout.Service.Create.{is_published, is_active_variant}

-- `CHECKOUT_LIMITS.RESERVATION_TTL_MINUTES`, in milliseconds
abbrev pub reservation_ttl : ℕ
reservation_ttl = 15 * 60000

-- What one item of the loop is tested for, on the rows that were read with the session.
unfoldable pub revalidate : CheckoutTables → CheckoutItem → Option CheckoutError
revalidate read i = elim (product_of (variant_of i.product_variant_id read) read) [
  | none ↦ some (product_unavailable i.product_variant_id)
  | some product ↦
      if product.is_deleted || not (is_published product.status)
      then some (product_unavailable i.product_variant_id)
      else elim (variant_of i.product_variant_id read) [
        | none ↦ some (variant_unavailable i.product_variant_id variant_inactive)
        | some variant ↦
            if variant.is_deleted || not (is_active_variant variant.status)
            then some (variant_unavailable i.product_variant_id variant_inactive)
            else if ltb_ℤ (available_of i.product_variant_id read) i.quantity
            then some (
                insufficient_stock i.product_variant_id i.quantity
                  (available_of i.product_variant_id read))
            else none
      ]
]

abbrev pub reserve_test : ReservationItem → Inventory → Bool
reserve_test i r = (r.product_variant_id == i.product_variant_id) && leb_ℤ i.quantity r.available

abbrev pub reserve_row : ReservationItem → Inventory → Inventory
reserve_row i r = record r {
  available = r.available -ℤ i.quantity;
  reserved = r.reserved +ℤ i.quantity;
}

-- The raw UPDATE, and the exception if it changed no row.
unfoldable pub take_stock : ReservationItem → Chk (Unit {0})
take_stock i db =
    if affected (reserve_test i) db.inventory == 0
    then throw
        (insufficient_stock i.product_variant_id i.quantity (available_of i.product_variant_id db))
        db
    else modify (λ x. record x { inventory = update (reserve_test i) (reserve_row i) x.inventory })
        db

abbrev pub reservation_item_of : CheckoutItem → ReservationItem
reservation_item_of i = record { product_variant_id = i.product_variant_id; quantity = i.quantity }

abbrev pub throw_some : Option CheckoutError → Chk (Unit {0})
throw_some none db = pure tt db
throw_some (some e) db = throw e db

unfoldable pub reserve_items : CheckoutTables → List CheckoutItem → Chk (Unit {0})
reserve_items read [] = pure tt
reserve_items read (i ∷ t) = do
  throw_some (revalidate read i)
  take_stock (reservation_item_of i)
  reserve_items read t

abbrev pub new_reservation : ℕ → CheckoutSession → ℕ → List ReservationItem → ℕ → StockReservation
new_reservation now s user items id = record {
  id = id;
  checkout_session_id = some s.id;
  cart_id = some s.cart_id;
  user_id = some user;
  status = StockReservationStatus.active;
  expires_at = now + reservation_ttl;
  released_at = none;
  released_reason = none;
  items = items;
}

abbrev pub has_reservation : ℕ → CheckoutTables → Bool
has_reservation id db = elim (reservation_of id db) [ none ↦ false | some _ ↦ true ]

-- The writes after the loop. The database refuses a second reservation of the session.
unfoldable pub write_reservation : ℕ → CheckoutSession → ℕ → List ReservationItem → Chk (Unit {0})
write_reservation now s user items = do
  throw_if (← gets (has_reservation s.id)) unique_violation
  id ← new_id
  modify λ db. record db {
    stock_reservation = new_reservation now s user items id ∷ db.stock_reservation;
    checkout_session =
        update (λ x. x.id == s.id) (λ x. record x { status = CheckoutSessionStatus.reserved })
          db.checkout_session;
  }

unfoldable pub reserve_inventory : ℕ → ℕ → ℕ → Chk CheckoutResponse
reserve_inventory now id user = with_transaction (do
  read ← gets (λ db. db)
  s ← or_throw (find_by_id_for_user id user read) (checkout_not_found (some id))
  assert_session_not_expired now s
  throw_if (not (is_created s.status)) (checkout_invalid_status id s.status)
  reserve_items read (items_of id read)
  write_reservation now s user (map reservation_item_of (items_of id read))
  full ← (do or_throw (← gets (find_by_id id)) (checkout_not_found (some id)))
  gets (λ db. map_to_response db full))
