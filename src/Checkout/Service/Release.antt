-- ===== src/Checkout/Service/Release.antt =====
-- modules/checkout/service.ts, lines 410-507: `cancelCheckout` and `expireCheckout`.
use smart_light.Prelude.{
  ℕ, pos, ◌+ℤ◌, ◌-ℤ◌, min_ℤ, max_ℤ, Bool, true, false, List, [], ◌∷◌, Option, none, some, ◌==◌,
  pure, gets, or_throw, modify, with_transaction, if◌then◌else◌, ◌>>=◌, ◌>>◌,
}
use smart_light.Table.{update}
use smart_light.Database.Stock.{Inventory}
use smart_light.Orders.Errors.{CheckoutSessionStatus, expired, completed, StockReservationStatus}
use smart_light.Checkout.Errors.{checkout_not_found}
use smart_light.Checkout.Tables.{
  ReservationItem, ReleaseNote, checkout_cancelled, checkout_expired, StockReservation,
  CheckoutTables, Chk,
}
use smart_light.Checkout.Service.{find_by_id, find_by_id_for_user, reservation_of}

abbrev pub is_active_reservation : StockReservationStatus → Bool
is_active_reservation StockReservationStatus.active = true
is_active_reservation _ = false

abbrev pub release_row : ReservationItem → Inventory → Inventory
release_row i r = record r {
  available = min_ℤ (r.available +ℤ i.quantity) r.on_hand;
  reserved = max_ℤ (r.reserved -ℤ i.quantity) (pos 0);
}

abbrev pub release_test : ReservationItem → Inventory → Bool
release_test i r = r.product_variant_id == i.product_variant_id

-- The loop over the items of a reservation.
unfoldable pub release_items : List ReservationItem → List Inventory → List Inventory
release_items [] t = t
release_items (i ∷ rest) t = release_items rest (update (release_test i) (release_row i) t)

abbrev pub close_reservation :
    StockReservationStatus → ReleaseNote → ℕ → StockReservation → StockReservation
close_reservation status note now r = record r {
  status = status;
  released_at = some now;
  released_reason = some note;
}

-- The release of a session's reservation, if there is one and it is ACTIVE.
abbrev pub release_reservation :
    StockReservationStatus
    → ReleaseNote
    → ℕ
    → Option StockReservation
    → CheckoutTables
    → CheckoutTables
release_reservation status note now none db = db
release_reservation status note now (some r) db =
    if is_active_reservation r.status
    then record db {
      inventory = release_items r.items db.inventory;
      stock_reservation =
          update (λ x. x.id == r.id) (close_reservation status note now) db.stock_reservation;
    }
    else db

unfoldable pub cancel_checkout : ℕ → ℕ → ℕ → Chk (Unit {0})
cancel_checkout now id user = with_transaction (do
  s ← (do or_throw (← gets (find_by_id_for_user id user)) (checkout_not_found (some id)))
  reservation ← gets (reservation_of id)
  modify (release_reservation StockReservationStatus.released checkout_cancelled now reservation)
  modify λ db. record db {
    checkout_session =
        update (λ x. x.id == id)
          (λ x. record x { status = CheckoutSessionStatus.cancelled; cancelled_at = some now })
          db.checkout_session;
  })

abbrev pub is_over : CheckoutSessionStatus → Bool
is_over expired = true
is_over completed = true
is_over _ = false

unfoldable pub expire_checkout : ℕ → ℕ → Chk (Unit {0})
expire_checkout now id db = elim (find_by_id id db) [
  | none ↦ pure tt db
  | some s ↦
      if is_over s.status
      then pure tt db
      else modify
          (λ x.
            record (release_reservation StockReservationStatus.expired checkout_expired now
              (reservation_of id x) x) {
                checkout_session =
                    update (λ y. y.id == id)
                      (λ y. record y { status = CheckoutSessionStatus.expired }) x.checkout_session;
              })
          db
]
