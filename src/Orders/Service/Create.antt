-- ===== src/Orders/Service/Create.antt =====
-- `createOrder` (modules/orders/service.ts, lines 132-287).
use smart_light.Prelude.{
  ℕ, suc, ◌+◌, ℤ, Bool, true, false, ◌&&◌, ◌||◌, not, String, str_eq, List, [], ◌∷◌, ◌++◌, Option,
  none, some, ◌==◌, ltb, map, gets, or_throw, throw_if, modify, pure, with_transaction, ◌>>=◌, ◌>>◌,
}
use smart_light.Table.{find_first, find_many, update, affected}
use smart_light.Orders.Status.{OrderStatus, pending_payment}
use smart_light.Orders.Errors.{
  CheckoutSessionStatus, StockReservationStatus, not_found, in_status, order_already_exists,
  checkout_not_ready, checkout_no_reservation, checkout_reservation_not_active, empty_order,
  unique_violation,
}
use smart_light.Orders.Tables.{
  CheckoutSession, CheckoutItem, StockReservation, Order, OrderItem, OrderStatusHistory,
  OrderPaymentStatus, unpaid, customer, OrderTables, Ord, new_id,
}

pub record CreateOrderDto : Type 0 where
  pub checkout_session_id : ℕ
  pub customer_notes : Option String

pub record OrderCreateResponse : Type 0 where
  pub id : ℕ
  pub order_number : String
  pub status : OrderStatus
  pub payment_status : OrderPaymentStatus
  pub grand_total : ℤ
  pub currency : String

-- A relation that may be missing, by the id that it should have.
abbrev pub refers_to : Option ℕ → ℕ → Bool
refers_to none _ = false
refers_to (some a) b = a == b

abbrev pub is_reserved : CheckoutSessionStatus → Bool
is_reserved CheckoutSessionStatus.reserved = true
is_reserved _ = false

abbrev pub is_active : StockReservationStatus → Bool
is_active StockReservationStatus.active = true
is_active _ = false

abbrev pub is_empty : {A : Type 0} → List A → Bool
is_empty [] = true
is_empty (_ ∷ _) = false

abbrev pub is_found : Option Order → Bool
is_found none = false
is_found (some _) = true

-- `findByCheckoutSessionId`: `where: { checkoutSessionId, deletedAt: null }`
unfoldable pub find_by_checkout_session_id : ℕ → OrderTables → Option Order
find_by_checkout_session_id session db =
    find_first (λ o. refers_to o.checkout_session_id session && not o.is_deleted) db.order

-- The three reads of `tx.checkoutSession.findFirst` with its `include`.
unfoldable pub find_session : ℕ → ℕ → OrderTables → Option CheckoutSession
find_session id user db = find_first (λ s. (s.id == id) && (s.user_id == user)) db.checkout_session

unfoldable pub reservation_of : ℕ → OrderTables → Option StockReservation
reservation_of session db =
    find_first (λ r. refers_to r.checkout_session_id session) db.stock_reservation

-- `item.variant?.weightGrams ?? null`
unfoldable pub weight_of : ℕ → OrderTables → Option ℤ
weight_of variant db = elim (find_first (λ v. v.id == variant) db.product_variant) [
  | none ↦ none
  | some v ↦ v.weight_grams
]

-- An item with the weight of its variant, which is read along with it.
abbrev pub LoadedItem : Type 0
LoadedItem = CheckoutItem × Option ℤ

unfoldable pub items_of : ℕ → OrderTables → List LoadedItem
items_of session db =
    map (λ i. (i, weight_of i.product_variant_id db))
      (find_many (λ i. i.session_id == session) db.checkout_item)

-- The data of `tx.order.create`.
abbrev pub order_snapshot :
    CheckoutSession → StockReservation → ℕ → CreateOrderDto → String → ℕ → Order
order_snapshot session reservation user_id dto number id = record {
  id = id;
  order_number = number;
  user_id = user_id;
  checkout_session_id = some session.id;
  cart_id = some session.cart_id;
  reservation_id = some reservation.id;
  status = pending_payment;
  payment_status = unpaid;
  currency = session.currency;
  locale = "vi-VN";
  totals = session.totals;
  shipping = session.shipping;
  billing = session.billing;
  coupon_code = session.coupon_code;
  customer_notes = dto.customer_notes;
  cancel_reason = none;
  cancelled_by_id = none;
  is_deleted = false;
}

-- One row of `tx.orderItem.createMany`.
abbrev pub item_snapshot : ℕ → LoadedItem → ℕ → OrderItem
item_snapshot order_id (item, weight_grams) id = record {
  id = id;
  order_id = order_id;
  product_variant_id = item.product_variant_id;
  quantity = item.quantity;
  unit_price_snapshot = item.unit_price_snapshot;
  line_subtotal_snapshot = item.line_subtotal_snapshot;
  tax_amount_snapshot = item.tax_amount_snapshot;
  product_name_snapshot = item.product_name_snapshot;
  variant_name_snapshot = item.variant_name_snapshot;
  sku_snapshot = item.sku_snapshot;
  product_slug_snapshot = item.product_slug;
  image_snapshot_url = item.product_image_url;
  weight_grams_snapshot = weight_grams;
}

-- `UNIQUE (order_number)` and `UNIQUE (checkout_session_id)`, which deleted orders count for too.
abbrev pub is_taken : String → ℕ → Order → Bool
is_taken number session o = str_eq o.order_number number || refers_to o.checkout_session_id session

-- `createMany`: the rows take their ids from `id` on.
unfoldable pub item_rows : ℕ → ℕ → List LoadedItem → List OrderItem
item_rows order_id id [] = []
item_rows order_id id (item ∷ items) =
    item_snapshot order_id item id ∷ item_rows order_id (suc id) items

unfoldable pub count : List LoadedItem → ℕ
count [] = 0
count (_ ∷ items) = suc (count items)

abbrev pub confirm : StockReservation → StockReservation
confirm r = record r { status = StockReservationStatus.confirmed }

abbrev pub complete : CheckoutSession → CheckoutSession
complete s = record s { status = CheckoutSessionStatus.completed }

abbrev pub first_entry : ℕ → ℕ → ℕ → OrderStatusHistory
first_entry id order_id user_id = record {
  id = id;
  order_id = order_id;
  from_status = none;
  to_status = pending_payment;
  changed_by_type = customer;
  changed_by_id = some user_id;
  changed_by_name = none;
  reason = some "Order created from checkout session";
}

-- Steps 5 to 9: the writes, once the session and its reservation have passed.
abbrev pub write_order :
    ℕ
    → CreateOrderDto
    → String
    → CheckoutSession
    → StockReservation
    → List LoadedItem
    → Ord OrderCreateResponse
write_order user_id dto number session reservation items = do
  taken ← gets (λ db. ltb 0 (affected (is_taken number session.id) db.order))
  throw_if taken unique_violation
  id ← new_id
  let order = order_snapshot session reservation user_id dto number id
  modify λ db. record db { order = order ∷ db.order }
  modify λ db. record db {
    order_item = item_rows id db.next_id items ++ db.order_item;
    next_id = db.next_id + count items;
  }
  modify λ db. record db {
    stock_reservation = update (λ r. r.id == reservation.id) confirm db.stock_reservation;
  }
  modify λ db. record db {
    checkout_session = update (λ s. s.id == session.id) complete db.checkout_session;
  }
  entry ← new_id
  modify λ db. record db {
    order_status_history = first_entry entry id user_id ∷ db.order_status_history;
  }
  pure (record {
    id = id;
    order_number = number;
    status = order.status;
    payment_status = order.payment_status;
    grand_total = order.totals.grand_total;
    currency = order.currency;
  })

-- `generate` is the repository's `generateOrderNumber`, which reads the clock and the tables as they
-- were committed before the transaction.
unfoldable pub create_order : (OrderTables → String) → ℕ → CreateOrderDto → Ord OrderCreateResponse
create_order generate user_id dto committed =
    (do
      existing ← gets (find_by_checkout_session_id dto.checkout_session_id)
      throw_if (is_found existing) (order_already_exists dto.checkout_session_id)
      with_transaction (do
        session ← (do
          or_throw (← gets (find_session dto.checkout_session_id user_id))
              (checkout_not_ready dto.checkout_session_id not_found))
        throw_if (not (is_reserved session.status))
            (checkout_not_ready dto.checkout_session_id (in_status session.status))
        reservation ← (do
          or_throw (← gets (reservation_of session.id))
              (checkout_no_reservation dto.checkout_session_id))
        throw_if (not (is_active reservation.status))
            (checkout_reservation_not_active dto.checkout_session_id reservation.status)
        items ← gets (items_of session.id)
        throw_if (is_empty items) empty_order
        write_order user_id dto (generate committed) session reservation items))
      committed
