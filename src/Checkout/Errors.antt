-- ===== src/Checkout/Errors.antt =====
-- modules/checkout/exceptions: what a call of the checkout service may throw.
use smart_light.Prelude.{ℕ, ℤ, Option}
use smart_light.Orders.Errors.{CheckoutSessionStatus}

pub data VariantReason : Type 0 where
  variant_deleted variant_inactive : VariantReason

pub data CheckoutError : Type 0 where
  checkout_not_found : Option ℕ → CheckoutError
  checkout_expired : ℕ → CheckoutError
  checkout_cancelled : ℕ → CheckoutError
  checkout_completed : ℕ → CheckoutError
  -- the status that the session is in, where CREATED is required
  checkout_invalid_status : ℕ → CheckoutSessionStatus → CheckoutError
  no_selected_items : CheckoutError
  product_unavailable : ℕ → CheckoutError
  variant_unavailable : ℕ → VariantReason → CheckoutError
  -- the variant, the quantity asked for and what is available
  insufficient_stock : ℕ → ℤ → ℤ → CheckoutError
  -- a phone number that is not Vietnamese
  invalid_phone : CheckoutError
  -- the database's refusal of a UNIQUE column that is taken
  unique_violation : CheckoutError
