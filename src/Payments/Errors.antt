-- ===== src/Payments/Errors.antt =====
-- modules/payments/exceptions: what a call of the payments service may throw; the states and providers
-- of payments (apps/api/prisma/schema.prisma).
use smart_light.Prelude.{ℕ, ℤ, String, Bool, true, false}
use smart_light.Orders.Status.{OrderStatus}

pub data PaymentStatus : Type 0 where
  created pending processing success failed cancelled refunded : PaymentStatus

pub data PaymentProvider : Type 0 where
  momo vnpay paypal manual : PaymentProvider

pub data PaymentError : Type 0 where
  payment_not_found : ℕ → PaymentError
  order_not_found : ℕ → PaymentError
  order_not_payable : ℕ → OrderStatus → PaymentError
  invalid_payment_state : ℕ → PaymentStatus → PaymentError
  payment_already_completed : ℕ → PaymentError
  provider_mismatch : ℕ → PaymentProvider → PaymentProvider → PaymentError
  amount_mismatch : ℕ → ℤ → ℤ → PaymentError
  unauthorized_payment_access : ℕ → ℕ → PaymentError
  active_payment_exists : ℕ → ℕ → PaymentError
  invalid_webhook_payload : PaymentError
  -- no gateway is registered for the provider
  no_gateway : PaymentProvider → PaymentError
  -- what a gateway threw: its text
  gateway_error : String → PaymentError
  -- the database's refusal of UNIQUE columns that are taken
  unique_violation : PaymentError

abbrev pub is_success : PaymentStatus → Bool
is_success success = true
is_success _ = false

abbrev pub same_provider : PaymentProvider → PaymentProvider → Bool
same_provider momo momo = true
same_provider vnpay vnpay = true
same_provider paypal paypal = true
same_provider manual manual = true
same_provider _ _ = false
