-- ===== src/Payments/Retry.antt =====
-- `retryPayment` (modules/payments/service.ts, lines 237-261).
use smart_light.Prelude.{
  ℕ, String, none, some, ◌≡◌, refl, ◌⊎◌, inl, inr, arith, ◌==◌, ==_iff, Bool-cases, Option-cases,
  ok, err,
}
use smart_light.Table.Rows.{find_first-fits}
use smart_light.Orders.Status.{pending_payment, is_status}
use smart_light.Payments.Errors.{
  is_success, PaymentError, payment_not_found, unauthorized_payment_access,
  payment_already_completed, invalid_payment_state, no_gateway, order_not_found, order_not_payable,
  active_payment_exists, unique_violation,
}
use smart_light.Payments.Tables.{Payment, PaymentTables}
use smart_light.Payments.Service.{
  find_by_id, find_by_id_for_user, find_by_order_id, find_order_for_payment, require_owned_payment,
}
use smart_light.Payments.Service.Create.{
  CreatePaymentDto, Intent, is_active, has_gateway, may_retry, insert_payment, start_payment,
  create_payment, retry_payment,
}

-- An order that has a payment gets no other.
start_payment-refused :
    (now user : ℕ) (dto : CreatePaymentDto) (answer : String ⊎ Intent) (db : PaymentTables)
    {p : Payment}
    → find_by_order_id dto.order_id db ≡ some p
    → (e : PaymentError) × (start_payment now user dto answer db ≡ err e db)
unfolding start_payment insert_payment
start_payment-refused now user dto answer db {p} taken =
    elim (Option-cases (find_order_for_payment dto.order_id db)) [
      | inl missing ↦ (order_not_found dto.order_id, ground (arith, missing))
      | inr (o, found) ↦ elim (Bool-cases (o.user_id == user)) [
        | inr foreign ↦
            (unauthorized_payment_access dto.order_id user, ground (arith, found, foreign))
        | inl own ↦ elim (Bool-cases (is_status o.status pending_payment)) [
          | inr other ↦ (order_not_payable dto.order_id o.status, ground (arith, found, own, other))
          | inl waiting ↦ elim (Bool-cases (is_active p.status)) [
            | inl live ↦ (
              active_payment_exists dto.order_id p.id,
              ground (arith, found, own, waiting, taken, live),
            )
            | inr over ↦ (unique_violation, ground (arith, found, own, waiting, taken, over))
          ]
        ]
      ]
    ]

module _ (now id user : ℕ) (answer : String ⊎ Intent) (db : PaymentTables) {p : Payment}
    (found : find_by_id_for_user id user db ≡ some p) where
  owned : require_owned_payment id user db ≡ ok p db
  unfolding require_owned_payment
  owned = ground (arith, found)

  order_taken : (x : Payment) × (find_by_order_id p.order_id db ≡ some x)
  unfolding find_by_id_for_user find_by_order_id
  order_taken =
      find_first-fits _ (λ x. x.order_id == p.order_id) db.payment found
        ((==_iff p.order_id p.order_id).1 refl)

  retry_owned : (e : PaymentError) × (retry_payment now id user answer db ≡ err e db)
  unfolding retry_payment create_payment
  retry_owned = elim (Bool-cases (is_success p.status)) [
    | inl done ↦ (payment_already_completed id, ground (arith, owned, done))
    | inr open_ ↦ elim (Bool-cases (may_retry p.status)) [
      | inr early ↦ (invalid_payment_state id p.status, ground (arith, owned, open_, early))
      | inl late ↦ elim (Bool-cases (has_gateway p.provider)) [
        | inr offline ↦ (no_gateway p.provider, ground (arith, owned, open_, late, offline))
        | inl online ↦
            let refused =
              start_payment-refused now user
                (record { order_id = p.order_id; provider = p.provider; idempotency_key = none })
                answer db order_taken.1 in
            (refused.0, ground (arith, owned, open_, late, online, refused.1))
      ]
    ]
  ]

-- `retryPayment` throws whatever the tables hold, and writes nothing: the payment that is retried takes
-- the UNIQUE order_id that the new one would need.
pub retry_payment_throws :
    (now id user : ℕ) (answer : String ⊎ Intent) (db : PaymentTables)
    → (e : PaymentError) × (retry_payment now id user answer db ≡ err e db)
unfolding retry_payment require_owned_payment
retry_payment_throws now id user answer db = elim (Option-cases (find_by_id_for_user id user db)) [
  | inr (p, found) ↦ retry_owned now id user answer db found
  | inl missing ↦ elim (Option-cases (find_by_id id db)) [
    | inr (p, foreign) ↦ (unauthorized_payment_access id user, ground (arith, missing, foreign))
    | inl gone ↦ (payment_not_found id, ground (arith, missing, gone))
  ]
]
