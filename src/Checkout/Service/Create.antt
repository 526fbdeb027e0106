-- ===== src/Checkout/Service/Create.antt =====
-- modules/checkout/service.ts, lines 78-229: `createCheckout`.
use smart_light.Prelude.{
  ℕ, ◌+◌, ◌*◌, ℤ, pos, ◌+ℤ◌, ◌*ℤ◌, ltb_ℤ, Bool, true, false, ◌&&◌, not, String, str_eq, List, [],
  ◌∷◌, ◌++◌, map, Option, none, some, ◌==◌, throw, throw_if, pure, gets, or_throw, modify,
  with_transaction, if◌then◌else◌, ◌>>=◌, ◌>>◌,
}
use smart_light.Table.{find_first, find_many}
use smart_light.Database.Shop.{ProductStatus, published, VariantStatus, Cart, CartStatus, CartItem}
use smart_light.Orders.Errors.{CheckoutSessionStatus}
use smart_light.Orders.Tables.{Address, Totals, CheckoutItem}
use smart_light.Checkout.Errors.{
  checkout_not_found, no_selected_items, product_unavailable, variant_unavailable, variant_deleted,
  variant_inactive, insufficient_stock, unique_violation,
}
use smart_light.Checkout.Tables.{CheckoutSession, CheckoutTables, Chk, new_id}
use smart_light.Checkout.Service.{variant_of, product_of, available_of}

-- `CHECKOUT_LIMITS.SESSION_TTL_MINUTES`, in milliseconds
abbrev pub session_ttl : ℕ
session_ttl = 15 * 60000

abbrev pub is_published : ProductStatus → Bool
is_published published = true
is_published _ = false

abbrev pub is_active_variant : VariantStatus → Bool
is_active_variant VariantStatus.active = true
is_active_variant _ = false

abbrev pub is_active_cart : CartStatus → Bool
is_active_cart CartStatus.active = true
is_active_cart _ = false

pub record CheckoutCreateResponse : Type 0 where
  pub id : ℕ
  pub status : CheckoutSessionStatus
  pub expires_at : ℕ
  pub item_count : ℕ
  pub totals : Totals

-- `mapToCreateResponse`: neither of the queries whose row is passed counts the items.
abbrev pub map_to_create_response : CheckoutSession → CheckoutCreateResponse
map_to_create_response s = record {
  id = s.id;
  status = s.status;
  expires_at = s.expires_at;
  item_count = 0;
  totals = s.totals;
}

-- `dto.idempotencyKey` is looked at if it is a text that is not empty.
abbrev pub given_key : Option String → Option String
given_key none = none
given_key (some k) = if str_eq k "" then none else some k

abbrev pub has_key : String → CheckoutSession → Bool
has_key k s = elim s.idempotency_key [ none ↦ false | some x ↦ str_eq x k ]

-- `findByIdemKey`
abbrev pub find_by_idem_key : String → CheckoutTables → Option CheckoutSession
find_by_idem_key k db = find_first (has_key k) db.checkout_session

abbrev pub active_cart : ℕ → CheckoutTables → Option Cart
active_cart user db =
    find_first (λ c. (c.user_id == user) && (is_active_cart c.status && not c.is_deleted)) db.cart

unfoldable pub selected_items : ℕ → CheckoutTables → List CartItem
selected_items cart db =
    find_many (λ i. (i.cart_id == cart) && (not i.is_deleted && i.is_selected)) db.cart_item

-- The tests of the loop over the items. A variant without a product counts as one without a variant.
unfoldable pub validate_item : CartItem → Chk (Unit {0})
validate_item i db = elim (product_of (variant_of i.product_variant_id db) db) [
  | none ↦ throw (product_unavailable i.product_variant_id) db
  | some product ↦ elim (variant_of i.product_variant_id db) [
    | none ↦ throw (product_unavailable i.product_variant_id) db
    | some variant ↦
        (do
          throw_if product.is_deleted (product_unavailable i.product_variant_id)
          throw_if (not (is_published product.status)) (product_unavailable product.id)
          throw_if variant.is_deleted (variant_unavailable i.product_variant_id variant_deleted)
          throw_if (not (is_active_variant variant.status))
              (variant_unavailable i.product_variant_id variant_inactive)
          throw_if (ltb_ℤ (available_of i.product_variant_id db) i.quantity) (
              insufficient_stock i.product_variant_id i.quantity
                (available_of i.product_variant_id db)))
          db
  ]
]

unfoldable pub validate_items : List CartItem → Chk (Unit {0})
validate_items [] = pure tt
validate_items (i ∷ t) = do validate_item i; validate_items t

unfoldable pub subtotal_of : List CartItem → ℤ
subtotal_of [] = pos 0
subtotal_of (i ∷ t) = i.unit_price *ℤ i.quantity +ℤ subtotal_of t

abbrev pub checkout_item_of : ℕ → CartItem → CheckoutItem
checkout_item_of session i = record {
  session_id = session;
  product_variant_id = i.product_variant_id;
  quantity = i.quantity;
  unit_price_snapshot = i.unit_price;
  line_subtotal_snapshot = i.unit_price *ℤ i.quantity;
  tax_amount_snapshot = pos 0;
  product_name_snapshot = i.product_name_snapshot;
  variant_name_snapshot = i.variant_name_snapshot;
  sku_snapshot = i.sku_snapshot;
  product_slug = i.product_slug;
  product_image_url = i.product_image_url;
}

abbrev pub no_address : Address
no_address = record {
  full_name = none;
  phone = none;
  province = none;
  district = none;
  ward = none;
  detail = none;
}

abbrev pub session_of : ℕ → ℕ → Option String → Cart → List CartItem → ℕ → CheckoutSession
session_of now user key cart items id = record {
  id = id;
  cart_id = cart.id;
  user_id = user;
  status = CheckoutSessionStatus.created;
  shipping = no_address;
  billing = no_address;
  currency = cart.currency;
  totals = record {
    subtotal = subtotal_of items;
    discount_amount = pos 0;
    shipping_fee = pos 0;
    tax_amount = pos 0;
    grand_total = subtotal_of items;
  };
  coupon_code = none;
  idempotency_key = key;
  expires_at = now + session_ttl;
  cancelled_at = none;
}

abbrev pub is_taken : Option String → CheckoutTables → Bool
is_taken none db = false
is_taken (some k) db = elim (find_by_idem_key k db) [ none ↦ false | some _ ↦ true ]

abbrev pub is_empty : List CartItem → Bool
is_empty [] = true
is_empty (i ∷ t) = false

-- The transaction. The database refuses a key that is taken when the session is written.
unfoldable pub create_from_cart : ℕ → ℕ → Option String → Chk CheckoutCreateResponse
create_from_cart now user key = with_transaction (do
  cart ← (do or_throw (← gets (active_cart user)) (checkout_not_found none))
  items ← gets (selected_items cart.id)
  throw_if (is_empty items) no_selected_items
  validate_items items
  taken ← gets (is_taken key)
  throw_if taken unique_violation
  id ← new_id
  modify λ db. record db {
    checkout_session = session_of now user key cart items id ∷ db.checkout_session;
    checkout_item = map (checkout_item_of id) items ++ db.checkout_item;
  }
  pure (map_to_create_response (session_of now user key cart items id)))

-- The session that a key was used for, if it is this user's.
abbrev pub replayed : ℕ → Option String → CheckoutTables → Option CheckoutSession
replayed user key db = elim (given_key key) [
  | none ↦ none
  | some k ↦ elim (find_by_idem_key k db) [
    | none ↦ none
    | some s ↦ if s.user_id == user then some s else none
  ]
]

unfoldable pub create_checkout : ℕ → ℕ → Option String → Chk CheckoutCreateResponse
create_checkout now user key db = elim (replayed user key db) [
  | some s ↦ pure (map_to_create_response s) db
  | none ↦ create_from_cart now user key db
]
