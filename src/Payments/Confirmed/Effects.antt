-- ===== src/Payments/Confirmed/Effects.antt =====
-- What `confirmOfflinePayment` leaves in each table (modules/payments/service.ts, lines 366-483).
use smart_light.Prelude.{
  ℕ, String, true, ◌∷◌, Option, none, some, ◌≡◌, ◌⊎◌, refl, sym, ◌∙◌, inl, inr, arith, ==_iff,
  ==_refl, ok, err,
}
use smart_light.Table.{IsUnique, find_first}
use smart_light.Table.Rows.{find_first-holds}
use smart_light.Table.Keys.{find_first-update, find_at}
use smart_light.Orders.Status.{pending_payment, is_status}
use smart_light.Orders.Tables.{Order}
use smart_light.Payments.Errors.{PaymentStatus, manual, PaymentError}
use smart_light.Payments.Tables.{Payment, TransactionStatus, PaymentTransaction, PaymentTables}
use smart_light.Payments.Service.Callback.{success}
use smart_light.Payments.Service.{find_by_id, find_by_order_id, order_of}
use smart_light.Payments.Service.Offline.{
  ConfirmOfflineDto, completed_before, confirmed, new_confirmed, confirm_transaction,
  confirm_offline_payment,
}
use smart_light.Payments.Duplicates.{some_eq}
use smart_light.Payments.Callbacks.Effects.{Followed, order_paid}
use smart_light.Payments.Orders.{order_of-id}
use smart_light.Payments.Confirmed.{
  with_payment, with_payment-orders, confirmed_id, Settled, settled, confirm_offline_payment-cases,
}

-- A payment by hand of an order's whole total.
pub record PaidByHand (now : ℕ) (o : Order) (p : Payment) : Type 0 where
  pub status : p.status ≡ PaymentStatus.success
  pub amount : p.amount ≡ o.totals.grand_total
  pub currency : p.currency ≡ o.currency
  pub provider : p.provider ≡ manual
  pub order_id : p.order_id ≡ o.id
  pub succeeded_at : p.succeeded_at ≡ some now

module _ (now order_id admin_id : ℕ) (name : Option String) (dto : ConfirmOfflineDto)
    (db : PaymentTables) where
  -- A confirmation that was made.
  pub record Recorded : Type 0 where
    pub order : Order
    pub found : order_of order_id db ≡ some order
    pub waiting : is_status order.status pending_payment ≡ true
    pub unpaid : completed_before (find_by_order_id order_id db) ≡ none
    pub payment : Payment
    pub after : PaymentTables
    pub result : confirm_offline_payment now order_id admin_id name dto db ≡ ok payment after
    pub payment_found : find_by_id payment.id after ≡ some payment
    pub by_hand : PaidByHand now order payment
    pub transaction : PaymentTransaction
    pub transactions : after.payment_transaction ≡ transaction ∷ db.payment_transaction
    pub transaction_payment : transaction.payment_id ≡ payment.id
    pub transaction_amount : transaction.amount ≡ order.totals.grand_total
    pub transaction_status : transaction.status ≡ TransactionStatus.success
    pub order_paid : Followed true success order_id db after

  module _ (u : IsUnique (λ p. p.id) db.payment) {o : Order}
      (found : order_of order_id db ≡ some o) where
    -- The payment that is confirmed, or created, as it is read again.
    payment-PaidByHand :
        (existing : Option Payment) {p : Payment}
        → find_by_order_id order_id db ≡ existing
        → find_by_id (confirmed_id existing db) (with_payment now o existing db) ≡ some p
        → PaidByHand now o p × (p.id ≡ confirmed_id existing db)
    unfolding find_by_id find_by_order_id find_first
    payment-PaidByHand none {p} missing again =
        let new : new_confirmed now o db.next_id ≡ p =
          some_eq (sym (ground (arith, ==_refl db.next_id)) ∙ again) in
        rw (sym new) (
          record {
            status = refl;
            amount = refl;
            currency = refl;
            provider = refl;
            order_id = refl;
            succeeded_at = refl;
          },
          refl,
        )
    payment-PaidByHand (some q) {p} known again =
        let own : confirmed now o q ≡ p = some_eq (
          sym (
            find_first-update _ _ (confirmed now o) db.payment (λ x. refl)
              (find_at (λ x. x.id) _ db.payment u known)
            ∙ ground (arith, ==_refl q.id))
          ∙ again) in
        rw (sym own) (
          record {
            status = refl;
            amount = refl;
            currency = refl;
            provider = refl;
            order_id =
                (==_iff q.order_id order_id).0 (find_first-holds _ db.payment known)
                ∙ sym (order_of-id order_id db found);
            succeeded_at = refl;
          },
          refl,
        )

  settled-Followed :
      {o : Order} (found : order_of order_id db ≡ some o)
      (waiting : is_status o.status pending_payment ≡ true)
      (unpaid : completed_before (find_by_order_id order_id db) ≡ none)
      → Followed true success order_id db
          (settled now order_id admin_id name dto db found waiting unpaid)
  unfolding order_of
  settled-Followed {o} found waiting unpaid =
      let same = with_payment-orders now o (find_by_order_id order_id db) db in
      rw same (_, _, order_paid order_id db found, refl, refl, refl, refl, refl)

  -- The transactions are as before.
  with_payment-transactions :
      (o : Order) (e : Option Payment)
      → (with_payment now o e db).payment_transaction ≡ db.payment_transaction
  with_payment-transactions o none = refl
  with_payment-transactions o (some p) = refl

  Settled-Recorded :
      IsUnique (λ p. p.id) db.payment → Settled now order_id admin_id name dto db → Recorded
  unfolding find_by_id
  Settled-Recorded u m =
      let paid_by = payment-PaidByHand u m.found (find_by_order_id order_id db) refl m.again in
      record {
        order = m.order;
        found = m.found;
        waiting = m.waiting;
        unpaid = m.unpaid;
        payment = m.payment;
        after = settled now order_id admin_id name dto db m.found m.waiting m.unpaid;
        result = m.result;
        payment_found = rw (sym paid_by.1) at m.again;
        by_hand = paid_by.0;
        transaction =
            confirm_transaction dto m.order (confirmed_id (find_by_order_id order_id db) db);
        transactions = rw (with_payment-transactions m.order (find_by_order_id order_id db)) refl;
        transaction_payment = sym paid_by.1;
        transaction_amount = refl;
        transaction_status = refl;
        order_paid = settled-Followed m.found m.waiting m.unpaid;
      }

  -- Payments have ids of their own. Either a confirmation throws and the tables are as before, or its
  -- order waited for payment and no payment of it had succeeded; then the payment that it answers is
  -- found in the tables, is the order's, a success by hand of the order's total; a successful transaction
  -- of that total is recorded for it; and the order is PAID, with an entry of its history.
  pub confirm_offline_payment-effects :
      IsUnique (λ p. p.id) db.payment
      → ((e : PaymentError) × (confirm_offline_payment now order_id admin_id name dto db
            ≡ err e db))
        ⊎ Recorded
  confirm_offline_payment-effects u =
      elim (confirm_offline_payment-cases now order_id admin_id name dto db) [
        | inl thrown ↦ inl thrown
        | inr m ↦ inr (Settled-Recorded u m)
      ]
