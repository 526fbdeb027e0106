-- ===== src/Checkout/Replay.antt =====
-- An idempotency key that is used again, and the cancelling of a session in any status
-- (modules/checkout/service.ts, lines 82-89 and 410-457).
use smart_light.Prelude.{ℕ, false, some, ◌≡◌, refl, ◌∙◌, arith, ◌==◌, ok}
use smart_light.Table.{update}
use smart_light.Table.Rows.{find_first-holds}
use smart_light.Table.Keys.{find_first-update}
use smart_light.Orders.Errors.{CheckoutSessionStatus, completed, cancelled}
use smart_light.Checkout.Tables.{CheckoutSession, StockReservation, CheckoutTables}
use smart_light.Checkout.Service.{find_by_id_for_user, reservation_of}
use smart_light.Checkout.Service.Release.{is_active_reservation, cancel_checkout}
use smart_light.Checkout.Outcomes.{cancel_checkout_made}

abbrev cancelled_session : ℕ → CheckoutSession → CheckoutSession
cancelled_session now x = record x {
  status = CheckoutSessionStatus.cancelled;
  cancelled_at = some now;
}

-- `cancelCheckout` asks for no status: a user's own session becomes CANCELLED even if it is COMPLETED,
-- so that an order has been made from it. The stock and the reservation, which is not ACTIVE any more,
-- stay as they are.
pub cancel_checkout-completed :
    (now id user : ℕ) (db : CheckoutTables) {s : CheckoutSession} {r : StockReservation}
    → find_by_id_for_user id user db ≡ some s
    → s.status ≡ completed
    → reservation_of id db ≡ some r
    → is_active_reservation r.status ≡ false
    → (db' : CheckoutTables) × (x : CheckoutSession) × (cancel_checkout now id user db ≡ ok tt db')
      × (find_by_id_for_user id user db' ≡ some x)
      × (x.status ≡ cancelled)
      × (db'.inventory ≡ db.inventory)
      × (reservation_of id db' ≡ some r)
unfolding find_by_id_for_user reservation_of
cancel_checkout-completed now id user db {s} {r} found over held confirmed = (
  record db {
    checkout_session = update (λ x. x.id == id) (cancelled_session now) db.checkout_session;
  },
  cancelled_session now s,
  cancel_checkout_made now id user db found ∙ rw (held, confirmed) refl,
  find_first-update _ _ (cancelled_session now) db.checkout_session (λ x. refl) found
      ∙ ground (arith, find_first-holds _ db.checkout_session found),
  refl,
  refl,
  held,
)
