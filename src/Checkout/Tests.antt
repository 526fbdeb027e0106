-- ===== src/Checkout/Tests.antt =====
-- The theorems of the checkout on a small shop.
use smart_light.Prelude.{
  ℕ, pos, String, List, [], ◌∷◌, none, some, ◌≡◌, ◌⊎◌, refl, arith, ok, err, final, Bool, true,
  false, ◌+ℤ◌,
}
use smart_light.Prelude.Int.{◌+ℤ◌}
use smart_light.Table.{find_first, find_many, update, affected}
use smart_light.Database.Stock.{Inventory}
use smart_light.Database.Shop.{
  Product, published, Variant, VariantStatus, Cart, CartStatus, CartItem,
}
use smart_light.Orders.Errors.{CheckoutSessionStatus, completed, cancelled, StockReservationStatus}
use smart_light.Orders.Tables.{CheckoutItem}
use smart_light.Checkout.Errors.{CheckoutError}
use smart_light.Checkout.Tables.{CheckoutSession, StockReservation, CheckoutTables}
use smart_light.Checkout.Service.{
  find_by_id, find_by_id_for_user, items_of, variant_of, product_of, inventory_of, reservation_of,
  CheckoutResponse, map_to_response,
}
use smart_light.Checkout.Service.Create.{no_address, create_from_cart}
use smart_light.Checkout.Service.Reserve.{
  revalidate, take_stock, reserve_items, write_reservation, reserve_inventory,
}
use smart_light.Checkout.Service.Release.{cancel_checkout}
use smart_light.Checkout.Rows.{IsBalanced}
use smart_light.Checkout.Held.{Held, reserve_inventory-effects}
use smart_light.Checkout.Creation.Effects.{Started, create_from_cart-effects}
use smart_light.Checkout.Backed.{IsBacked}
use smart_light.Checkout.History.{Call, creates, reserves, cancels, expires, run, run-IsBacked}
use smart_light.Checkout.Laws.{cancel_checkout-reserve_inventory}
use smart_light.Checkout.Replay.{cancel_checkout-completed}

-- Ten lamps of variant 7, of which an ACTIVE reservation holds two.
abbrev lamps : Inventory
lamps = record {
  id = 0;
  product_variant_id = 7;
  warehouse_code = "MAIN";
  on_hand = pos 10;
  reserved = pos 2;
  available = pos 8;
  low_stock_threshold = pos 5;
  allow_backorder = false;
}

abbrev lamp : Product
lamp = record { id = 70; slug = "lamp"; name = "Lamp"; status = published; is_deleted = false }

abbrev white_lamp : Variant
white_lamp = record {
  id = 7;
  product_id = 70;
  name = "White";
  sku = "LED";
  price = pos 50;
  compare_at_price = none;
  status = VariantStatus.active;
  is_deleted = false;
}

abbrev basket : Cart
basket = record {
  id = 20;
  user_id = 1;
  status = CartStatus.active;
  currency = "VND";
  subtotal = pos 150;
  discount_total = pos 0;
  tax_total = pos 0;
  shipping_total = pos 0;
  estimated_shipping = pos 0;
  grand_total = pos 150;
  item_count = pos 3;
  selected_item_count = pos 3;
  is_item_selected = true;
  is_deleted = false;
}

abbrev three_lamps : CartItem
three_lamps = record {
  id = 21;
  cart_id = 20;
  product_variant_id = 7;
  quantity = pos 3;
  unit_price = pos 50;
  subtotal = pos 150;
  product_name_snapshot = "Lamp";
  variant_name_snapshot = "White";
  sku_snapshot = "LED";
  product_slug = "lamp";
  product_image_url = none;
  is_selected = true;
  notes = none;
  is_deleted = false;
}

-- A session of user 1 for three lamps, and one that an order was made from.
abbrev started : CheckoutSession
started = record {
  id = 10;
  cart_id = 20;
  user_id = 1;
  status = CheckoutSessionStatus.created;
  shipping = no_address;
  billing = no_address;
  currency = "VND";
  totals = record {
    subtotal = pos 150;
    discount_amount = pos 0;
    shipping_fee = pos 0;
    tax_amount = pos 0;
    grand_total = pos 150;
  };
  coupon_code = none;
  idempotency_key = some "k1";
  expires_at = 900000;
  cancelled_at = none;
}

abbrev bought : CheckoutSession
bought = record started { id = 12; status = completed; idempotency_key = none }

abbrev held_lamps : StockReservation
held_lamps = record {
  id = 11;
  checkout_session_id = some 9;
  cart_id = none;
  user_id = some 2;
  status = StockReservationStatus.active;
  expires_at = 900000;
  released_at = none;
  released_reason = none;
  items = record { product_variant_id = 7; quantity = pos 2 } ∷ [];
}

abbrev sold_lamps : StockReservation
sold_lamps = record held_lamps {
  id = 13;
  checkout_session_id = some 12;
  status = StockReservationStatus.confirmed;
}

abbrev lamp_line : CheckoutItem
lamp_line = record {
  session_id = 10;
  product_variant_id = 7;
  quantity = pos 3;
  unit_price_snapshot = pos 50;
  line_subtotal_snapshot = pos 150;
  tax_amount_snapshot = pos 0;
  product_name_snapshot = "Lamp";
  variant_name_snapshot = "White";
  sku_snapshot = "LED";
  product_slug = "lamp";
  product_image_url = none;
}

abbrev shop : CheckoutTables
shop = record {
  product = lamp ∷ [];
  variant = white_lamp ∷ [];
  inventory = lamps ∷ [];
  cart = basket ∷ [];
  cart_item = three_lamps ∷ [];
  checkout_session = started ∷ bought ∷ [];
  checkout_item = lamp_line ∷ [];
  stock_reservation = held_lamps ∷ sold_lamps ∷ [];
  next_id = 30;
}

lamps-IsBalanced : IsBalanced lamps
unfolding ◌+ℤ◌
lamps-IsBalanced = record { sum = refl; available_positive = omega arith }

shop-IsBacked : IsBacked shop
unfolding ◌+ℤ◌
shop-IsBacked = record {
  variants = (tt, tt);
  ids = ((omega arith, tt), (tt, tt));
  numbered = (omega arith, (omega arith, tt));
  cart_items = (omega arith, tt);
  items = (omega arith, tt);
  reserved_items = ((omega arith, tt), ((omega arith, tt), tt));
  rows = (record { balanced = lamps-IsBalanced; covered = omega arith }, tt);
}

abbrev is_phone : String → Bool
is_phone _ = true

abbrev visits : List (ℕ × Call)
visits =
    (1, reserves 10 1)
    ∷ (2, creates 1 (some "k2"))
    ∷ (3, reserves 30 1)
    ∷ (4, cancels 10 1)
    ∷ (900001, expires 30)
    ∷ []

run-IsBacked_example : IsBacked (run is_phone visits shop)
run-IsBacked_example = run-IsBacked is_phone visits shop shop-IsBacked

abbrev after_reserving : CheckoutTables
after_reserving = final (reserve_inventory 1 10 1 shop)

reserve_inventory-effects_example :
    ((e : CheckoutError) × (reserve_inventory 1 10 1 shop ≡ err e shop)) ⊎ Held 1 10 1 shop
reserve_inventory-effects_example =
    reserve_inventory-effects 1 10 1 shop shop-IsBacked.variants (lamps-IsBalanced, tt)

create_from_cart-effects_example :
    ((e : CheckoutError) × (create_from_cart 1 1 none shop ≡ err e shop)) ⊎ Started 1 1 none shop
create_from_cart-effects_example = create_from_cart-effects 1 1 none shop

bought_found : find_by_id_for_user 12 1 shop ≡ some bought
unfolding find_by_id_for_user find_first
bought_found = refl

sold_lamps_found : reservation_of 12 shop ≡ some sold_lamps
unfolding reservation_of find_first
sold_lamps_found = refl

cancel_checkout-completed_example :
    (db' : CheckoutTables) × (x : CheckoutSession) × (cancel_checkout 2 12 1 shop ≡ ok tt db')
    × (find_by_id_for_user 12 1 db' ≡ some x)
    × (x.status ≡ cancelled)
    × (db'.inventory ≡ shop.inventory)
    × (reservation_of 12 db' ≡ some sold_lamps)
cancel_checkout-completed_example =
    cancel_checkout-completed 2 12 1 shop bought_found refl sold_lamps_found refl

-- The answer to the reservation of the three lamps.
abbrev answer : CheckoutResponse
answer =
    map_to_response after_reserving (record started { status = CheckoutSessionStatus.reserved })

reserve_inventory-shop : reserve_inventory 1 10 1 shop ≡ ok answer after_reserving
unfolding reserve_inventory find_first find_many update affected find_by_id_for_user find_by_id
    items_of reservation_of variant_of product_of inventory_of revalidate take_stock reserve_items
    write_reservation
reserve_inventory-shop = refl

cancel_checkout-reserve_inventory_example :
    (s : CheckoutTables) × (cancel_checkout 2 10 1 after_reserving ≡ ok tt s)
    × (s.inventory ≡ lamps ∷ [])
cancel_checkout-reserve_inventory_example =
    cancel_checkout-reserve_inventory 1 2 10 1 shop after_reserving answer shop-IsBacked
      reserve_inventory-shop
