-- ===== src/Orders/Tests.antt =====
-- The theorems of the orders module on a small shop.
use smart_light.Prelude.{
  ℕ, pos, String, List, [], ◌∷◌, Option, none, some, ◌≡◌, ◌⊎◌, inl, refl, arith, ok, err, false,
}
use smart_light.Table.{find_first}
use smart_light.Orders.Status.{OrderStatus, pending_payment, cancelled, includes, customer_allowed}
use smart_light.Orders.Errors.{
  CheckoutSessionStatus, StockReservationStatus, OrderError, unauthorized_order_access,
  order_already_exists,
}
use smart_light.Orders.Tables.{
  Address, CheckoutSession, CheckoutItem, StockReservation, Order, OrderPaymentStatus,
  OrderStatusHistory, OrderTables, ChangedByType,
}
use smart_light.Orders.Service.{find_by_id, OrderResponse, map_to_response, get_order_for_user}
use smart_light.Orders.Service.Transition.{transition_status, cancel_args, cancel_order_for_user}
use smart_light.Orders.Service.Create.{CreateOrderDto, create_order}
use smart_light.Orders.Trail.{IsRecorded, history_of}
use smart_light.Orders.Trail.Effects.{Moved, transition_status-effects}
use smart_light.Orders.Trail.Creation.{answer, ordered, IsReady, create_order_made}
use smart_light.Orders.History.{Call, creates, cancels, updates, run, run-IsRecorded}
use smart_light.Orders.Ownership.{get_order_for_user_owned, cancel_order_for_user_foreign}
use smart_light.Orders.Conversion.{Snapshot, create_order-Snapshot, create_order-create_order}
use smart_light.Orders.Closed.{run-closed}

abbrev home : Address
home = record {
  full_name = some "Lan";
  phone = some "0900000000";
  province = some "Ha Noi";
  district = some "Ba Dinh";
  ward = some "Kim Ma";
  detail = none;
}

-- A session of user 1 that is ready, and an order of user 1 that waits for its payment.
abbrev session : CheckoutSession
session = record {
  id = 10;
  cart_id = 20;
  user_id = 1;
  status = CheckoutSessionStatus.reserved;
  shipping = home;
  billing = home;
  currency = "VND";
  totals = record {
    subtotal = pos 100;
    discount_amount = pos 0;
    shipping_fee = pos 5;
    tax_amount = pos 10;
    grand_total = pos 115;
  };
  coupon_code = none;
}

abbrev lamp : CheckoutItem
lamp = record {
  session_id = 10;
  product_variant_id = 7;
  quantity = pos 2;
  unit_price_snapshot = pos 50;
  line_subtotal_snapshot = pos 100;
  tax_amount_snapshot = pos 10;
  product_name_snapshot = "Lamp";
  variant_name_snapshot = "White";
  sku_snapshot = "LED";
  product_slug = "lamp";
  product_image_url = none;
}

abbrev hold : StockReservation
hold = record { id = 11; checkout_session_id = some 10; status = StockReservationStatus.active }

abbrev waiting : Order
waiting = record {
  id = 3;
  order_number = "SL-20250101-000001";
  user_id = 1;
  checkout_session_id = some 9;
  cart_id = none;
  reservation_id = none;
  status = pending_payment;
  payment_status = OrderPaymentStatus.unpaid;
  currency = "VND";
  locale = "vi-VN";
  totals = session.totals;
  shipping = home;
  billing = home;
  coupon_code = none;
  customer_notes = none;
  cancel_reason = none;
  cancelled_by_id = none;
  is_deleted = false;
}

abbrev closed_order : Order
closed_order = record waiting {
  id = 5;
  order_number = "SL-20250101-000002";
  checkout_session_id = some 8;
  status = cancelled;
}

abbrev entry : ℕ → ℕ → Option OrderStatus → OrderStatus → OrderStatusHistory
entry id order from to = record {
  id = id;
  order_id = order;
  from_status = from;
  to_status = to;
  changed_by_type = ChangedByType.customer;
  changed_by_id = some 1;
  changed_by_name = none;
  reason = none;
}

abbrev shop : OrderTables
shop = record {
  checkout_session = session ∷ [];
  checkout_item = lamp ∷ [];
  stock_reservation = hold ∷ [];
  product_variant = record { id = 7; weight_grams = some (pos 900) } ∷ [];
  order = waiting ∷ closed_order ∷ [];
  order_item = [];
  order_status_history =
      entry 6 5 (some pending_payment) cancelled
      ∷ entry 4 3 none pending_payment
      ∷ entry 2 5 none pending_payment
      ∷ [];
  next_id = 12;
}

shop-IsRecorded : IsRecorded shop
unfolding history_of smart_light.Table.find_many includes customer_allowed
shop-IsRecorded = record {
  ids = ((omega arith, tt), (tt, tt));
  orders_numbered = (omega arith, (omega arith, tt));
  entries_numbered = (omega arith, (omega arith, (omega arith, tt)));
  trails = ((refl, (refl, refl)), ((refl, (refl, (refl, (refl, refl)))), tt));
}

abbrev next_number : OrderTables → String
next_number _ = "SL-20250101-000003"

abbrev wish : CreateOrderDto
wish = record { checkout_session_id = 10; customer_notes = none }

abbrev busy_day : List Call
busy_day =
    creates next_number 1 wish
    ∷ cancels 3 1 none
    ∷ updates 12 99 none (record { to_status = "PAID"; reason = none })
    ∷ updates 5 99 none (record { to_status = "PAID"; reason = none })
    ∷ []

run-IsRecorded_example : IsRecorded (run busy_day shop)
run-IsRecorded_example = run-IsRecorded busy_day shop shop-IsRecorded

waiting_found : find_by_id 3 shop ≡ some waiting
unfolding find_by_id find_first
waiting_found = refl

closed_found : find_by_id 5 shop ≡ some closed_order
unfolding find_by_id find_first
closed_found = refl

run-closed_example : find_by_id 5 (run busy_day shop) ≡ some closed_order
run-closed_example = run-closed busy_day 5 shop shop-IsRecorded closed_found (inl refl)

cancel_order_for_user_foreign_example :
    (db' : OrderTables) × (x : Order) × (cancel_order_for_user 3 2 none shop
      ≡ err (unauthorized_order_access 3 2) db')
    × (find_by_id 3 db' ≡ some x)
    × (x.status ≡ cancelled)
cancel_order_for_user_foreign_example =
    cancel_order_for_user_foreign 3 2 none shop shop-IsRecorded waiting_found (omega arith) refl

get_order_for_user-shop : get_order_for_user 3 1 shop ≡ ok (map_to_response shop waiting) shop
unfolding get_order_for_user smart_light.Orders.Service.find_by_id_for_user find_first
get_order_for_user-shop = refl

get_order_for_user_owned_example :
    ((map_to_response shop waiting).id ≡ 3)
    × ((map_to_response shop waiting).user_id ≡ 1)
    × (shop ≡ shop)
get_order_for_user_owned_example =
    get_order_for_user_owned 3 1 shop shop (map_to_response shop waiting) get_order_for_user-shop

shop-IsReady : IsReady next_number 1 wish shop session hold
unfolding smart_light.Orders.Service.Create.find_by_checkout_session_id
    smart_light.Orders.Service.Create.find_session smart_light.Orders.Service.Create.reservation_of
    smart_light.Orders.Service.Create.items_of find_first smart_light.Table.find_many
    smart_light.Table.affected
shop-IsReady = record {
  fresh = refl;
  session = refl;
  session_reserved = refl;
  reservation = refl;
  reservation_active = refl;
  filled = refl;
  untaken = refl;
}

abbrev shop_after : OrderTables
shop_after = ordered next_number 1 wish shop session hold

create_order-shop :
    create_order next_number 1 wish shop
    ≡ ok (answer next_number 1 wish shop session hold) shop_after
create_order-shop = create_order_made next_number 1 wish shop session hold shop-IsReady

create_order-Snapshot_example :
    Snapshot 1 10 shop shop_after (answer next_number 1 wish shop session hold)
create_order-Snapshot_example =
    create_order-Snapshot next_number 1 wish shop shop_after
      (answer next_number 1 wish shop session hold) create_order-shop

create_order-create_order_example :
    create_order next_number 2
      (record { checkout_session_id = 10; customer_notes = none })
      shop_after
    ≡ err (order_already_exists 10) shop_after
create_order-create_order_example =
    create_order-create_order next_number 1 wish shop shop_after
      (answer next_number 1 wish shop session hold) create_order-shop next_number 2 none

transition_status-effects_example :
    ((e : OrderError) × (transition_status (cancel_args 3 1 none) shop ≡ err e shop))
    ⊎ Moved (cancel_args 3 1 none) shop
transition_status-effects_example = transition_status-effects (cancel_args 3 1 none) shop
