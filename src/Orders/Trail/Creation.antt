-- ===== src/Orders/Trail/Creation.antt =====
-- `createOrder` (modules/orders/service.ts, lines 132-287), where it makes an order and where it
-- throws.
use smart_light.Prelude.{
  ℕ, suc, ◌+◌, true, false, String, ◌∷◌, ◌++◌, none, some, ◌≡◌, ◌⊎◌, arith, ◌==◌, ltb, inl, inr,
  Bool-cases, Option-cases, ok, err,
}
use smart_light.Table.{update, affected}
use smart_light.Orders.Errors.{
  OrderError, order_already_exists, checkout_not_ready, not_found, in_status,
  checkout_no_reservation, checkout_reservation_not_active, empty_order, unique_violation,
}
use smart_light.Orders.Tables.{CheckoutSession, StockReservation, Order, OrderTables}
use smart_light.Orders.Service.Create.{
  CreateOrderDto, OrderCreateResponse, is_reserved, is_active, is_empty,
  find_by_checkout_session_id, find_session, reservation_of, items_of, order_snapshot, is_taken,
  item_rows, count, confirm, complete, first_entry, create_order,
}

module _ (generate : OrderTables → String) (user : ℕ) (dto : CreateOrderDto)
    (db : OrderTables) where
  abbrev pub new_order : CheckoutSession → StockReservation → Order
  new_order s r = order_snapshot s r user dto (generate db) db.next_id

  abbrev pub last_id : CheckoutSession → ℕ
  last_id s = suc db.next_id + count (items_of s.id db)

  -- The tables after the order has been made from a session and its reservation.
  abbrev pub ordered : CheckoutSession → StockReservation → OrderTables
  ordered s r = record {
    checkout_session = update (λ x. x.id == s.id) complete db.checkout_session;
    checkout_item = db.checkout_item;
    stock_reservation = update (λ x. x.id == r.id) confirm db.stock_reservation;
    product_variant = db.product_variant;
    order = new_order s r ∷ db.order;
    order_item = item_rows db.next_id (suc db.next_id) (items_of s.id db) ++ db.order_item;
    order_status_history = first_entry (last_id s) db.next_id user ∷ db.order_status_history;
    next_id = suc (last_id s);
  }

  abbrev pub answer : CheckoutSession → StockReservation → OrderCreateResponse
  answer s r = record {
    id = db.next_id;
    order_number = generate db;
    status = (new_order s r).status;
    payment_status = (new_order s r).payment_status;
    grand_total = s.totals.grand_total;
    currency = s.currency;
  }

  -- All that `createOrder` asks for.
  pub record IsReady (s : CheckoutSession) (r : StockReservation) : Type 0 where
    pub fresh : find_by_checkout_session_id dto.checkout_session_id db ≡ none
    pub session : find_session dto.checkout_session_id user db ≡ some s
    pub session_reserved : is_reserved s.status ≡ true
    pub reservation : reservation_of s.id db ≡ some r
    pub reservation_active : is_active r.status ≡ true
    pub filled : is_empty (items_of s.id db) ≡ false
    pub untaken : ltb 0 (affected (is_taken (generate db) s.id) db.order) ≡ false

  pub create_order_made :
      (s : CheckoutSession) (r : StockReservation)
      → IsReady s r
      → create_order generate user dto db ≡ ok (answer s r) (ordered s r)
  unfolding create_order
  create_order_made s r h = ground (arith, h)

  -- Either the tables stay as they are, or a session that is ready becomes an order.
  pub create_order-cases :
      ((e : OrderError) × (create_order generate user dto db ≡ err e db))
      ⊎ ((s : CheckoutSession) × (r : StockReservation) × IsReady s r)
  unfolding create_order
  create_order-cases =
      elim (Option-cases (find_by_checkout_session_id dto.checkout_session_id db)) [
        | inr (o, old) ↦ inl (order_already_exists dto.checkout_session_id, ground arith)
        | inl fresh ↦ elim (Option-cases (find_session dto.checkout_session_id user db)) [
          | inl lost ↦ inl (checkout_not_ready dto.checkout_session_id not_found, ground arith)
          | inr (s, session) ↦ elim (Bool-cases (is_reserved s.status)) [
            | inr early ↦
                inl (checkout_not_ready dto.checkout_session_id (in_status s.status), ground arith)
            | inl session_reserved ↦ elim (Option-cases (reservation_of s.id db)) [
              | inl lost ↦ inl (checkout_no_reservation dto.checkout_session_id, ground arith)
              | inr (r, reservation) ↦ elim (Bool-cases (is_active r.status)) [
                | inr over ↦
                    inl (
                      checkout_reservation_not_active dto.checkout_session_id r.status,
                      ground arith,
                    )
                | inl reservation_active ↦ elim (Bool-cases (is_empty (items_of s.id db))) [
                  | inl empty ↦ inl (empty_order, ground arith)
                  | inr filled ↦
                      elim (Bool-cases (ltb 0 (affected (is_taken (generate db) s.id) db.order))) [
                        | inl taken ↦ inl (unique_violation, ground arith)
                        | inr untaken ↦ inr (
                          s,
                          r,
                          record {
                            fresh = fresh;
                            session = session;
                            session_reserved = session_reserved;
                            reservation = reservation;
                            reservation_active = reservation_active;
                            filled = filled;
                            untaken = untaken;
                          },
                        )
                      ]
                ]
              ]
            ]
          ]
        ]
      ]
