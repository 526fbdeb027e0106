-- ===== src/Orders/Service.antt =====
-- modules/orders/service.ts: the calls of customers and administrators that write, and the statements
-- of modules/orders/repositories/orders.repository.ts that they use. Logging is left out, and `d2n`,
-- which turns a Decimal into a number, too: amounts stay as they are in the tables.
pub mod Create
pub mod Transition
use mathlib.Core.List.{reverse}
use smart_light.Prelude.{
  ℕ, ℤ, Bool, true, false, ◌&&◌, not, String, str_eq, List, Option, none, some, ◌==◌, ok, err,
  throw, gets, or_throw, if◌then◌else◌,
}
use smart_light.Table.{find_first, find_many}
use smart_light.Orders.Status.{OrderStatus}
use smart_light.Orders.Errors.{OrderError, order_not_found, unauthorized_order_access}
use smart_light.Orders.Tables.{
  Address, Totals, Order, OrderItem, OrderStatusHistory, OrderPaymentStatus, OrderTables, Ord,
}

-- `findById`: `where: { id, deletedAt: null }`
unfoldable pub find_by_id : ℕ → OrderTables → Option Order
find_by_id id db = find_first (λ o. (o.id == id) && not o.is_deleted) db.order

-- `findByIdForUser`: `where: { id, userId, deletedAt: null }`
unfoldable pub find_by_id_for_user : ℕ → ℕ → OrderTables → Option Order
find_by_id_for_user id user db =
    find_first (λ o. (o.id == id) && ((o.user_id == user) && not o.is_deleted)) db.order

pub record OrderResponse : Type 0 where
  pub id : ℕ
  pub order_number : String
  pub user_id : ℕ
  pub checkout_session_id : Option ℕ
  pub cart_id : Option ℕ
  pub status : OrderStatus
  pub payment_status : OrderPaymentStatus
  pub currency : String
  pub items : List OrderItem
  pub status_history : List OrderStatusHistory
  pub shipping_address : Option Address
  pub billing_address : Option Address
  pub totals : Totals
  pub coupon_code : Option String
  pub customer_notes : Option String
  pub cancel_reason : Option String

-- An address counts as given if its name is a text that is not empty.
abbrev pub given_address : Address → Option Address
given_address a = elim a.full_name [
  | none ↦ none
  | some name ↦ if str_eq name "" then none else some a
]

-- The rows that `fullInclude` reads along with the order are read here. The history has its oldest
-- entry first, by `orderBy: { createdAt: 'asc' }`.
unfoldable pub map_to_response : OrderTables → Order → OrderResponse
map_to_response db order = record {
  id = order.id;
  order_number = order.order_number;
  user_id = order.user_id;
  checkout_session_id = order.checkout_session_id;
  cart_id = order.cart_id;
  status = order.status;
  payment_status = order.payment_status;
  currency = order.currency;
  items = find_many (λ i. i.order_id == order.id) db.order_item;
  status_history = reverse (find_many (λ h. h.order_id == order.id) db.order_status_history);
  shipping_address = given_address order.shipping;
  billing_address = given_address order.billing;
  totals = order.totals;
  coupon_code = order.coupon_code;
  customer_notes = order.customer_notes;
  cancel_reason = order.cancel_reason;
}

-- `requireOwnedOrder`, and `getOrderForUser`, which has the same body.
unfoldable pub require_owned_order : ℕ → ℕ → Ord OrderResponse
require_owned_order id user db = elim (find_by_id_for_user id user db) [
  | some order ↦ ok (map_to_response db order) db
  | none ↦ elim (find_by_id id db) [
    | some _ ↦ err (unauthorized_order_access id user) db
    | none ↦ err (order_not_found id) db
  ]
]

unfoldable pub get_order_for_user : ℕ → ℕ → Ord OrderResponse
get_order_for_user id user db = elim (find_by_id_for_user id user db) [
  | some order ↦ ok (map_to_response db order) db
  | none ↦ elim (find_by_id id db) [
    | some _ ↦ err (unauthorized_order_access id user) db
    | none ↦ err (order_not_found id) db
  ]
]

-- `requireOrder`
unfoldable pub require_order : ℕ → Ord OrderResponse
require_order id db = elim (find_by_id id db) [
  | some order ↦ ok (map_to_response db order) db
  | none ↦ err (order_not_found id) db
]
