-- ===== src/Orders/Errors.antt =====
-- modules/orders/exceptions: what a call of the orders service may throw.
use smart_light.Prelude.{ℕ, String}
use smart_light.Orders.Status.{OrderStatus}

pub data CheckoutSessionStatus : Type 0 where
  created pending_reservation reserved expired cancelled completed : CheckoutSessionStatus

pub data StockReservationStatus : Type 0 where
  active released confirmed expired : StockReservationStatus

-- The `currentStatus` of CheckoutNotReady: a status, or 'NOT_FOUND'.
pub data Readiness : Type 0 where
  not_found : Readiness
  in_status : CheckoutSessionStatus → Readiness

pub data OrderError : Type 0 where
  order_not_found : ℕ → OrderError
  order_already_exists : ℕ → OrderError
  invalid_status_transition : ℕ → OrderStatus → OrderStatus → OrderError
  -- the same exception as `parseStatus` throws it, with '?' for the order and its status
  unknown_status : String → OrderError
  checkout_not_ready : ℕ → Readiness → OrderError
  checkout_no_reservation : ℕ → OrderError
  checkout_reservation_not_active : ℕ → StockReservationStatus → OrderError
  order_already_cancelled : ℕ → OrderError
  order_delivered_cannot_cancel : ℕ → OrderError
  unauthorized_order_access : ℕ → ℕ → OrderError
  empty_order : OrderError
  -- the database's refusal of a UNIQUE column that is taken
  unique_violation : OrderError
