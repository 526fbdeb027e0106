-- ===== src/Payments/Confirmed.antt =====
-- `confirmOfflinePayment` branch by branch (modules/payments/service.ts, lines 366-483).
pub mod Effects
use smart_light.Prelude.{
  ℕ, suc, String, true, false, ◌∷◌, Option, none, some, ◌≡◌, ◌⊎◌, refl, inl, inr, arith, ◌==◌,
  Bool-cases, Option-cases, ok, err, final,
}
use smart_light.Table.{update}
use smart_light.Orders.Status.{pending_payment, paid, is_status}
use smart_light.Orders.Tables.{Order, OrderStatusHistory, admin_user}
use smart_light.Orders.Trail.{IsRecorded}
use smart_light.Payments.Errors.{
  PaymentError, order_not_found, order_not_payable, payment_already_completed, payment_not_found,
  unique_violation,
}
use smart_light.Payments.Tables.{Payment, PaymentTables}
use smart_light.Payments.Service.{
  find_by_id, find_by_order_id, order_of, has_clash, create_transaction, paid_order, pay_order,
}
use smart_light.Payments.Service.Offline.{
  ConfirmOfflineDto, or_text, confirmed, new_confirmed, confirm_payment, confirm_transaction,
  confirm_reason, completed_before, confirm_offline_payment,
}
use smart_light.Payments.Callbacks.Effects.{is_status-eq}
use smart_light.Payments.Orders.{paid-IsRecorded}

-- The entry that a confirmation adds.
abbrev pub admin_entry : ℕ → ℕ → Option String → ConfirmOfflineDto → ℕ → OrderStatusHistory
admin_entry order admin_id name dto id = record {
  id = id;
  order_id = order;
  from_status = some pending_payment;
  to_status = paid;
  changed_by_type = admin_user;
  changed_by_id = some admin_id;
  changed_by_name = some (or_text name "admin");
  reason = some (confirm_reason dto);
}

-- The payments after a confirmation, with the id of the one that is confirmed.
abbrev pub with_payment : ℕ → Order → Option Payment → PaymentTables → PaymentTables
with_payment now o (some p) db = record db {
  payment = update (λ x. x.id == p.id) (confirmed now o) db.payment;
}
with_payment now o none db = record db {
  next_id = suc db.next_id;
  payment = new_confirmed now o db.next_id ∷ db.payment;
}

abbrev pub confirmed_id : Option Payment → PaymentTables → ℕ
confirmed_id (some p) db = p.id
confirmed_id none db = db.next_id

confirm_payment-with_payment :
    (now : ℕ) (o : Order) (existing : Option Payment) (db : PaymentTables)
    → confirm_payment now o existing db
      ≡ ok (confirmed_id existing db) (with_payment now o existing db)
unfolding confirm_payment
confirm_payment-with_payment now o none db = refl
confirm_payment-with_payment now o (some p) db = refl

pub with_payment-orders :
    (now : ℕ) (o : Order) (existing : Option Payment) (db : PaymentTables)
    → (with_payment now o existing db).orders ≡ db.orders
with_payment-orders now o none db = refl
with_payment-orders now o (some p) db = refl

module _ (now order_id admin_id : ℕ) (name : Option String) (dto : ConfirmOfflineDto)
    (db : PaymentTables) {o : Order} (found : order_of order_id db ≡ some o)
    (waiting : is_status o.status pending_payment ≡ true)
    (open_ : completed_before (find_by_order_id order_id db) ≡ none) where
  abbrev existing : Option Payment
  existing = find_by_order_id order_id db

  abbrev id : ℕ
  id = confirmed_id existing db

  clashing :
      has_clash (confirm_transaction dto o id) (with_payment now o existing db) ≡ true
      → confirm_offline_payment now order_id admin_id name dto db ≡ err unique_violation db
  unfolding confirm_offline_payment create_transaction
  clashing clash =
      ground (arith, found, waiting, open_, confirm_payment-with_payment now o existing db, clash)

  -- The tables after a confirmation.
  abbrev pub settled : PaymentTables
  settled = record (with_payment now o existing db) {
    payment_transaction =
        confirm_transaction dto o id ∷ (with_payment now o existing db).payment_transaction;
    orders = record (with_payment now o existing db).orders {
      next_id = suc (with_payment now o existing db).orders.next_id;
      order =
          update (λ x. x.id == order_id) paid_order (with_payment now o existing db).orders.order;
      order_status_history =
          admin_entry order_id admin_id name dto (with_payment now o existing db).orders.next_id
          ∷ (with_payment now o existing db).orders.order_status_history;
    };
  }

  settling :
      (r : Option Payment)
      → find_by_id id settled ≡ r
      → has_clash (confirm_transaction dto o id) (with_payment now o existing db) ≡ false
      → (confirm_offline_payment now order_id admin_id name dto db ≡ err (payment_not_found id) db)
        ⊎ ((p : Payment) × (find_by_id id settled ≡ some p)
            × (confirm_offline_payment now order_id admin_id name dto db ≡ ok p settled))
  unfolding confirm_offline_payment create_transaction pay_order
  settling none again fresh = inl (
      ground (
        arith,
        found,
        waiting,
        open_,
        confirm_payment-with_payment now o existing db,
        fresh,
        again,
      ))
  settling (some p) again fresh = inr (
    p,
    again,
    ground (
      arith,
      found,
      waiting,
      open_,
      confirm_payment-with_payment now o existing db,
      fresh,
      again,
    ),
  )

  settled-IsRecorded : IsRecorded db.orders → IsRecorded settled.orders
  settled-IsRecorded v = rw (with_payment-orders now o existing db) (
      paid-IsRecorded order_id (admin_entry order_id admin_id name dto db.orders.next_id) db found
        (is_status-eq o.status pending_payment waiting) refl refl refl v)

-- A confirmation that was made: its order waited for payment, its payment had not succeeded.
pub record Settled (now order_id admin_id : ℕ) (name : Option String) (dto : ConfirmOfflineDto)
    (db : PaymentTables) : Type 0 where
  pub order : Order
  pub found : order_of order_id db ≡ some order
  pub waiting : is_status order.status pending_payment ≡ true
  pub unpaid : completed_before (find_by_order_id order_id db) ≡ none
  pub payment : Payment
  pub again :
      find_by_id
        (confirmed_id (find_by_order_id order_id db) db)
        (settled now order_id admin_id name dto db found waiting unpaid)
      ≡ some payment
  pub result :
      confirm_offline_payment now order_id admin_id name dto db
      ≡ ok payment (settled now order_id admin_id name dto db found waiting unpaid)

module _ (now order_id admin_id : ℕ) (name : Option String) (dto : ConfirmOfflineDto)
    (db : PaymentTables) where
  unpaid-cases :
      {o : Order}
      → order_of order_id db ≡ some o
      → is_status o.status pending_payment ≡ true
      → completed_before (find_by_order_id order_id db) ≡ none
      → ((e : PaymentError) × (confirm_offline_payment now order_id admin_id name dto db
            ≡ err e db))
        ⊎ Settled now order_id admin_id name dto db
  unpaid-cases {o} found waiting unpaid =
      elim (Bool-cases (
        has_clash (confirm_transaction dto o (confirmed_id (find_by_order_id order_id db) db))
          (with_payment now o (find_by_order_id order_id db) db))) [
            | inl clash ↦ inl (
              unique_violation,
              clashing now order_id admin_id name dto db found waiting unpaid clash,
            )
            | inr fresh ↦
                elim (settling now order_id admin_id name dto db found waiting unpaid _ refl
                  fresh) [
                    | inl gone ↦ inl (payment_not_found _, gone)
                    | inr (p, again, made) ↦ inr (record {
                      order = o;
                      found = found;
                      waiting = waiting;
                      unpaid = unpaid;
                      payment = p;
                      again = again;
                      result = made;
                    })
                  ]
          ]

  -- Either a confirmation throws and the tables are as before, or its order waited for payment and no
  -- payment of it had succeeded; then the payment of the order, the one that is there or a new one, is
  -- a success over the order's total, a transaction is recorded, and the order is PAID with an entry.
  pub confirm_offline_payment-cases :
      ((e : PaymentError) × (confirm_offline_payment now order_id admin_id name dto db ≡ err e db))
      ⊎ Settled now order_id admin_id name dto db
  unfolding confirm_offline_payment
  confirm_offline_payment-cases = elim (Option-cases (order_of order_id db)) [
    | inl missing ↦ inl (order_not_found order_id, ground (arith, missing))
    | inr (o, found) ↦ elim (Bool-cases (is_status o.status pending_payment)) [
      | inr other ↦ inl (order_not_payable order_id o.status, ground (arith, found, other))
      | inl waiting ↦ elim (Option-cases (completed_before (find_by_order_id order_id db))) [
        | inl unpaid ↦ unpaid-cases found waiting unpaid
        | inr (k, over) ↦ inl (payment_already_completed k, ground (arith, found, waiting, over))
      ]
    ]
  ]

  -- A confirmation by an administrator, whether it throws or not, keeps the history of every order a path
  -- along the transitions of the orders module.
  pub confirm_offline_payment-IsRecorded :
      IsRecorded db.orders
      → IsRecorded (final (confirm_offline_payment now order_id admin_id name dto db)).orders
  confirm_offline_payment-IsRecorded v = elim confirm_offline_payment-cases [
    | inl (e, thrown) ↦ rw thrown v
    | inr m ↦
        rw m.result
          (settled-IsRecorded now order_id admin_id name dto db m.found m.waiting m.unpaid v)
  ]
