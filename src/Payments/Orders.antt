-- ===== src/Payments/Orders.antt =====
-- What payments do to the history of orders (modules/payments/service.ts, lines 445-466 and 685-723),
-- against the transitions of the orders module.
use smart_light.Prelude.{
  ℕ, String, suc, ◌∷◌, some, ◌≡◌, ◌≢◌, refl, sym, ap, ◌∙◌, true, false, inl, inr, ◌==◌, ==_iff,
  Bool-cases, ok, final,
}
use smart_light.Table.{update}
use smart_light.Table.Rows.{find_first-holds, All-find_first}
use smart_light.Orders.Status.{pending_payment, paid, includes, customer_allowed, admin_allowed}
use smart_light.Orders.Tables.{Order, OrderStatusHistory, OrderTables}
use smart_light.Orders.Trail.{HasTrail, step, IsRecorded, history_of, history_of-hit}
use smart_light.Orders.Trail.Moved.{Move, moved_tables-IsRecorded}
use smart_light.Payments.Tables.{Payment, PaymentTables}
use smart_light.Payments.Service.{find_by_id, order_of, paid_order}
use smart_light.Payments.Service.Callback.{
  CallbackOutcome, success, failed, cancelled, CallbackResult, is_pending_order, payer_text,
  succeeded_text, failed_text, apply_callback,
}
use smart_light.Payments.Duplicates.{ok_state, some_eq}
use smart_light.Payments.Callbacks.Effects.{waiting_order, Followed, applied-Followed}
use smart_light.Payments.Errors.{is_success}
use mathlib.Core.Path.{subst}
use smart_light.Payments.Callbacks.{
  system_entry, applied, synchronized, waits, Applied, apply_callback-cases,
}

pub order_of-id : (id : ℕ) (db : PaymentTables) {o : Order} → order_of id db ≡ some o → o.id ≡ id
unfolding order_of
order_of-id id db found = (==_iff _ id).0 (find_first-holds _ db.orders.order found)

-- The order of a payment moves to PAID, with an entry of its history.
paying-Move :
    (id : ℕ) (entry : OrderStatusHistory) (db : PaymentTables) {o : Order}
    → order_of id db ≡ some o
    → o.status ≡ pending_payment
    → entry.order_id ≡ id
    → entry.from_status ≡ some pending_payment
    → entry.to_status ≡ paid
    → Move db.orders
unfolding order_of includes customer_allowed admin_allowed
paying-Move id entry db {o} found waiting entry_id from to = record {
  id = id;
  test = λ x. x.id == id;
  assign = paid_order;
  entry = entry;
  order = o;
  found = found;
  found_id = (==_iff o.id id).0 (find_first-holds _ db.orders.order found);
  same_id = λ x. refl;
  new_status = λ x. sym to;
  entry_id = entry_id;
  from_old = from ∙ ap some (sym waiting);
  permitted = rw (waiting, to) refl;
}

pub paid-IsRecorded :
    (id : ℕ) (entry : OrderStatusHistory) (db : PaymentTables) {o : Order}
    → order_of id db ≡ some o
    → o.status ≡ pending_payment
    → entry.order_id ≡ id
    → entry.from_status ≡ some pending_payment
    → entry.to_status ≡ paid
    → IsRecorded db.orders
    → IsRecorded (record db.orders {
      next_id = suc db.orders.next_id;
      order = update (λ x. x.id == id) paid_order db.orders.order;
      order_status_history = entry ∷ db.orders.order_status_history;
    })
unfolding paying-Move
paid-IsRecorded id entry db found waiting entry_id from to v =
    moved_tables-IsRecorded db.orders (paying-Move id entry db found waiting entry_id from to) v

module _ (id_text : ℕ → String) (now id : ℕ) (c : CallbackResult) (db : PaymentTables) where
  synchronized-IsRecorded :
      (p : Payment)
      → c.outcome ≢ failed
      → IsRecorded db.orders
      → IsRecorded (synchronized id_text c p (waits id_text c p db) db.orders)
  synchronized-IsRecorded p fine v = elim (Bool-cases (waits id_text c p db)) [
    | inr idle ↦ rw idle v
    | inl waiting ↦ rw waiting (by_outcome c.outcome refl waiting)
  ]
    where
      by_outcome :
          (o : CallbackOutcome)
          → c.outcome ≡ o
          → waits id_text c p db ≡ true
          → IsRecorded (synchronized id_text c p true db.orders)
      by_outcome failed e waiting = absurd (fine e)
      by_outcome cancelled e waiting = rw e v
      by_outcome success e waiting =
          let o = waiting_order p.order_id db waiting in
          rw e (
            paid-IsRecorded p.order_id
              (system_entry p.order_id paid (payer_text id_text p) (succeeded_text id_text p)
                db.orders.next_id)
              db o.1 o.2 refl refl refl v)

  -- A callback that is not FAILED, whatever comes of it, keeps the history of every order a path.
  apply_callback-IsRecorded :
      c.outcome ≢ failed
      → IsRecorded db.orders
      → IsRecorded (final (apply_callback id_text now id c db)).orders
  apply_callback-IsRecorded fine v = elim (apply_callback-cases id_text now id c db) [
    | inl (e, thrown) ↦ rw thrown v
    | inr done ↦ elim done [
      | inl r ↦ rw r.result v
      | inr a ↦ rw a.result (synchronized-IsRecorded a.payment fine v)
    ]
  ]

  failed_after : (p : Payment) → OrderTables
  failed_after p = record db.orders {
    next_id = suc db.orders.next_id;
    order_status_history =
        system_entry p.order_id pending_payment (payer_text id_text p) (failed_text id_text c p)
          db.orders.next_id
        ∷ db.orders.order_status_history;
  }

  synchronized_failed :
      (p : Payment)
      → waits id_text c p db ≡ true
      → c.outcome ≡ failed
      → synchronized id_text c p (waits id_text c p db) db.orders ≡ failed_after p
  unfolding failed_after
  synchronized_failed p waiting outcome = rw (waiting, outcome) refl

  failed_unrecorded : (p : Payment) → waits id_text c p db ≡ true → ¬ IsRecorded (failed_after p)
  unfolding order_of includes customer_allowed admin_allowed failed_after
  failed_unrecorded p waiting v = no_step (rw (history, o.2) at trail).1.0
    where
      o : (x : Order) × (order_of p.order_id db ≡ some x) × (x.status ≡ pending_payment)
      o = waiting_order p.order_id db waiting

      history :
          history_of o.0.id (failed_after p).order_status_history
          ≡ system_entry p.order_id pending_payment
              (payer_text id_text p)
              (failed_text id_text c p)
              db.orders.next_id
            ∷ history_of o.0.id db.orders.order_status_history
      history = history_of-hit o.0.id _ _ (sym (order_of-id p.order_id db o.1))

      trail : HasTrail (failed_after p).order_status_history o.0
      trail = All-find_first _ _ db.orders.order v.trails o.1

      no_step : ¬ (step (some pending_payment) pending_payment ≡ true)
      no_step h = cc h

  -- A callback that returns, for a payment that has not succeeded before.
  taken :
      {p : Payment} (s : PaymentTables)
      → find_by_id id db ≡ some p
      → is_success p.status ≡ false
      → apply_callback id_text now id c db ≡ ok tt s
      → Applied id_text now id c db
  taken s found live made = elim (apply_callback-cases id_text now id c db) [
    | inl (e, thrown) ↦ absurd (cc (thrown, made))
    | inr done ↦ elim done [ inl r ↦ absurd (cc (r.found, r.over, found, live)) | inr a ↦ a ]
  ]

  taken-applied :
      {p : Payment} (s : PaymentTables)
      → find_by_id id db ≡ some p
      → is_success p.status ≡ false
      → apply_callback id_text now id c db ≡ ok tt s
      → applied id_text now id c db p ≡ s
  taken-applied {p} s found live made =
      let a = taken s found live made in
      ap (applied id_text now id c db) (some_eq (sym found ∙ a.found))
      ∙ ok_state (sym a.result ∙ made)

  -- A SUCCESS callback that returns, for a payment that has not succeeded before and whose order waits
  -- for it: the order is PAID, with an entry from PENDING_PAYMENT to PAID in its history, and the history
  -- of every order is still a path along the transitions of the orders module.
  pub apply_callback-paid :
      {p : Payment} (s : PaymentTables)
      → find_by_id id db ≡ some p
      → is_success p.status ≡ false
      → is_pending_order (order_of p.order_id db) ≡ true
      → c.outcome ≡ success
      → IsRecorded db.orders
      → apply_callback id_text now id c db ≡ ok tt s
      → IsRecorded s.orders × Followed true success p.order_id db s
  apply_callback-paid {p} s found live waiting outcome v made = (
    rw made at (apply_callback-IsRecorded (λ e. cc (e, outcome)) v),
    subst (Followed true success p.order_id db) (taken-applied s found live made)
        (applied-Followed id_text now id c db p true success waiting outcome),
  )

  -- A FAILED callback that returns, for a payment that has not succeeded before and whose order waits
  -- for it: the order stays as it is, its history gets an entry from PENDING_PAYMENT to PENDING_PAYMENT,
  -- and so it is no path along the transitions of the orders module any more.
  pub apply_callback_unrecorded :
      {p : Payment} (s : PaymentTables)
      → find_by_id id db ≡ some p
      → is_success p.status ≡ false
      → is_pending_order (order_of p.order_id db) ≡ true
      → c.outcome ≡ failed
      → apply_callback id_text now id c db ≡ ok tt s
      → Followed true failed p.order_id db s × ¬ IsRecorded s.orders
  unfolding order_of includes customer_allowed admin_allowed
  apply_callback_unrecorded {p} s found live waiting outcome made = (
    subst (Followed true failed p.order_id db) same
        (applied-Followed id_text now id c db p true failed waiting outcome),
    λ v. failed_unrecorded p waiting (
        rw (sym (synchronized_failed p waiting outcome))
          (subst (λ x. IsRecorded x.orders) (sym same) v)),
  )
    where
      same : applied id_text now id c db p ≡ s
      same = taken-applied s found live made
