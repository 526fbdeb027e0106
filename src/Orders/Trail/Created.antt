-- ===== src/Orders/Trail/Created.antt =====
-- A new order starts its own trail and keeps the others (modules/orders/service.ts, lines 132-287).
use smart_light.Prelude.{ℕ, String, ◌≢◌, refl, arith, inl, inr, final}
use smart_light.Table.{All}
use smart_light.Table.Rows.{All-map, All-zip}
use smart_light.Orders.Tables.{CheckoutSession, StockReservation, OrderTables}
use smart_light.Orders.Service.Create.{CreateOrderDto, create_order, first_entry}
use smart_light.Orders.Trail.{
  IsRecorded, HasTrail, history_of-hit, history_of-miss, history_of-none,
}
use smart_light.Orders.Trail.Creation.{ordered, last_id, create_order_made, create_order-cases}

module _ (generate : OrderTables → String) (user : ℕ) (dto : CreateOrderDto) (db : OrderTables)
    (v : IsRecorded db) where
  ordered-IsRecorded :
      (s : CheckoutSession) (r : StockReservation) → IsRecorded (ordered generate user dto db s r)
  ordered-IsRecorded s r = record {
    ids = (All-map db.order (λ o h. omega (arith, h)) v.orders_numbered, v.ids);
    orders_numbered = (omega arith, All-map db.order (λ o h. omega (arith, h)) v.orders_numbered);
    entries_numbered =
        (omega arith, All-map db.order_status_history (λ o h. omega (arith, h)) v.entries_numbered);
    trails = (
      rw
          (
            history_of-hit db.next_id (first_entry (last_id generate user dto db s) db.next_id user)
                db.order_status_history refl,
            history_of-none db.next_id db.order_status_history unused,
          )
          (refl, (refl, refl)),
      older,
    );
  }
    where
      unused : All (λ h. h.order_id ≢ db.next_id) db.order_status_history
      unused = All-map db.order_status_history (λ h n. omega (arith, n)) v.entries_numbered

      older : All (HasTrail (ordered generate user dto db s r).order_status_history) db.order
      older =
          All-map db.order
            (λ o h.
              rw
                (history_of-miss o.id (first_entry (last_id generate user dto db s) db.next_id user)
                  db.order_status_history (omega (arith, h.0)))
                h.1)
            (All-zip _ _ db.order v.orders_numbered v.trails)

  pub create_order-IsRecorded : IsRecorded (final (create_order generate user dto db))
  create_order-IsRecorded = elim (create_order-cases generate user dto db) [
    | inl (e, thrown) ↦ rw thrown v
    | inr (s, r, ready) ↦
        rw (create_order_made generate user dto db s r ready) (ordered-IsRecorded s r)
  ]
