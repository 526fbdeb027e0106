-- ===== src/Checkout/Service.antt =====
-- modules/checkout/service.ts: lookups, guards and the answer of the calls, with the statements of
-- modules/checkout/repositories/checkout.repository.ts that they use. Logging is left out, and `d2n`,
-- which turns a Decimal into a number, too: amounts stay as they are in the tables.
pub mod Create
pub mod Reserve
pub mod Release
use smart_light.Prelude.{
  ℕ, ℤ, pos, leb_ℤ, Bool, true, false, ◌&&◌, not, String, List, map, Option, none, some, ◌==◌, ltb,
  ok, err, throw_if, pure, str_eq, if◌then◌else◌, ◌>>=◌, ◌>>◌, gets, or_throw, modify,
}
use smart_light.Table.{find_first, find_many, update}
use smart_light.Database.Stock.{Inventory}
use smart_light.Database.Shop.{Product, Variant}
use smart_light.Orders.Errors.{
  CheckoutSessionStatus, created, completed, cancelled, StockReservationStatus,
}
use smart_light.Orders.Tables.{Address, Totals, CheckoutItem}
use smart_light.Orders.Service.{given_address}
use smart_light.Checkout.Errors.{
  CheckoutError, checkout_not_found, checkout_expired, checkout_cancelled, checkout_completed,
  invalid_phone,
}
use smart_light.Checkout.Tables.{
  CheckoutSession, ReservationItem, StockReservation, CheckoutTables, Chk,
}

abbrev pub is_created : CheckoutSessionStatus → Bool
is_created created = true
is_created _ = false

abbrev pub is_completed : CheckoutSessionStatus → Bool
is_completed completed = true
is_completed _ = false

abbrev pub is_cancelled : CheckoutSessionStatus → Bool
is_cancelled cancelled = true
is_cancelled _ = false

-- `findById`: `where: { id }`
unfoldable pub find_by_id : ℕ → CheckoutTables → Option CheckoutSession
find_by_id id db = find_first (λ s. s.id == id) db.checkout_session

-- `findByIdForUser`: `where: { id, userId }`
unfoldable pub find_by_id_for_user : ℕ → ℕ → CheckoutTables → Option CheckoutSession
find_by_id_for_user id user db =
    find_first (λ s. (s.id == id) && (s.user_id == user)) db.checkout_session

-- What is read along with a session or with one of its items.
unfoldable pub variant_of : ℕ → CheckoutTables → Option Variant
variant_of id db = find_first (λ v. v.id == id) db.variant

unfoldable pub product_of : Option Variant → CheckoutTables → Option Product
product_of none db = none
product_of (some v) db = find_first (λ p. p.id == v.product_id) db.product

unfoldable pub inventory_of : ℕ → CheckoutTables → Option Inventory
inventory_of id db = find_first (λ r. r.product_variant_id == id) db.inventory

unfoldable pub items_of : ℕ → CheckoutTables → List CheckoutItem
items_of id db = find_many (λ i. i.session_id == id) db.checkout_item

abbrev pub is_for : ℕ → StockReservation → Bool
is_for id r = elim r.checkout_session_id [ none ↦ false | some s ↦ s == id ]

unfoldable pub reservation_of : ℕ → CheckoutTables → Option StockReservation
reservation_of id db = find_first (is_for id) db.stock_reservation

-- `variant.inventory?.available ?? 0`
abbrev pub available_of : ℕ → CheckoutTables → ℤ
available_of id db = elim (inventory_of id db) [ none ↦ pos 0 | some r ↦ r.available ]

-- `assertSessionNotExpired`, at the time `now`
abbrev pub assert_session_not_expired : ℕ → CheckoutSession → Chk (Unit {0})
assert_session_not_expired now s =
    throw_if (not (is_completed s.status) && ltb s.expires_at now) (checkout_expired s.id)

pub record ItemResponse : Type 0 where
  pub item : CheckoutItem
  -- '' where the variant has no product
  pub product_id : Option ℕ
  pub in_stock : Bool
  pub available_quantity : ℤ

pub record ReservationItemResponse : Type 0 where
  pub product_variant_id : ℕ
  pub quantity : ℤ
  -- the names are '' where there is no variant; the query reads no product for them
  pub variant_name : String
  pub sku : String

pub record ReservationResponse : Type 0 where
  pub id : ℕ
  pub status : StockReservationStatus
  pub expires_at : ℕ
  pub items : List ReservationItemResponse

pub record CheckoutResponse : Type 0 where
  pub id : ℕ
  pub cart_id : ℕ
  pub user_id : ℕ
  pub status : CheckoutSessionStatus
  pub currency : String
  pub items : List ItemResponse
  pub reservation : Option ReservationResponse
  pub shipping_address : Option Address
  pub billing_address : Option Address
  pub coupon_code : Option String
  pub totals : Totals
  pub expires_at : ℕ
  pub cancelled_at : Option ℕ

abbrev pub item_response : CheckoutTables → CheckoutItem → ItemResponse
item_response db i = record {
  item = i;
  product_id = elim (product_of (variant_of i.product_variant_id db) db) [
    | none ↦ none
    | some p ↦ some p.id
  ];
  in_stock = leb_ℤ i.quantity (available_of i.product_variant_id db);
  available_quantity = available_of i.product_variant_id db;
}

abbrev pub reservation_item_response : CheckoutTables → ReservationItem → ReservationItemResponse
reservation_item_response db i = record {
  product_variant_id = i.product_variant_id;
  quantity = i.quantity;
  variant_name = elim (variant_of i.product_variant_id db) [ none ↦ "" | some v ↦ v.name ];
  sku = elim (variant_of i.product_variant_id db) [ none ↦ "" | some v ↦ v.sku ];
}

unfoldable pub map_to_response : CheckoutTables → CheckoutSession → CheckoutResponse
map_to_response db s = record {
  id = s.id;
  cart_id = s.cart_id;
  user_id = s.user_id;
  status = s.status;
  currency = s.currency;
  items = map (item_response db) (items_of s.id db);
  reservation = elim (reservation_of s.id db) [
    | none ↦ none
    | some r ↦ some (record {
      id = r.id;
      status = r.status;
      expires_at = r.expires_at;
      items = map (reservation_item_response db) r.items;
    })
  ];
  shipping_address = given_address s.shipping;
  billing_address = given_address s.billing;
  coupon_code = s.coupon_code;
  totals = s.totals;
  expires_at = s.expires_at;
  cancelled_at = s.cancelled_at;
}

unfoldable pub get_checkout : ℕ → ℕ → ℕ → Chk CheckoutResponse
get_checkout now id user = do
  s ← (do or_throw (← gets (find_by_id_for_user id user)) (checkout_not_found (some id)))
  assert_session_not_expired now s
  gets (λ db. map_to_response db s)

unfoldable pub require_owned_active_session : ℕ → ℕ → ℕ → Chk CheckoutSession
require_owned_active_session now id user = do
  s ← (do or_throw (← gets (find_by_id_for_user id user)) (checkout_not_found (some id)))
  assert_session_not_expired now s
  throw_if (is_cancelled s.status) (checkout_cancelled id)
  throw_if (is_completed s.status) (checkout_completed id)
  pure s

-- `updateShippingAddress`; the test of the phone number is a regular expression's.
unfoldable pub update_shipping_address :
    (String → Bool) → ℕ → ℕ → ℕ → Address → String → Chk CheckoutResponse
update_shipping_address is_phone now id user address phone = do
  require_owned_active_session now id user
  throw_if (not (is_phone phone)) invalid_phone
  modify λ db. record db {
    checkout_session =
        update (λ s. s.id == id)
          (λ s. record s { shipping = record address { phone = some phone } }) db.checkout_session;
  }
  s ← (do or_throw (← gets (find_by_id_for_user id user)) (checkout_not_found (some id)))
  gets (λ db. map_to_response db s)

unfoldable pub get_for_admin : ℕ → Chk CheckoutResponse
get_for_admin id = do
  s ← (do or_throw (← gets (find_by_id id)) (checkout_not_found (some id)))
  gets (λ db. map_to_response db s)
