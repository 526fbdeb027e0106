-- ===== src/Orders/Conversion.antt =====
-- A checkout session becomes an order (modules/orders/service.ts, lines 132-287).
use smart_light.Prelude.{
  ℕ, suc, String, List, [], ◌∷◌, ◌++◌, map, ◌==◌, Option, some, ◌≡◌, refl, sym, ap, ◌∙◌, arith,
  ==_refl, inl, inr, ok, err, final, Outcome,
}
use mathlib.Core.Path.{subst₂}
use smart_light.Table.{find_first, find_many}
use smart_light.Table.Rows.{find_first-holds}
use smart_light.Table.Keys.{find_first-update}
use smart_light.Orders.Status.{pending_payment}
use smart_light.Orders.Errors.{
  CheckoutSessionStatus, StockReservationStatus, OrderError, order_already_exists,
}
use smart_light.Orders.Tables.{
  CheckoutSession, CheckoutItem, OrderItem, StockReservation, Order, OrderTables,
}
use smart_light.Orders.Service.{find_by_id}
use smart_light.Orders.Service.Create.{
  CreateOrderDto, OrderCreateResponse, items_of, item_rows, weight_of, confirm, complete,
  find_session, reservation_of, find_by_checkout_session_id, create_order,
}
use smart_light.Orders.Trail.Creation.{
  new_order, ordered, answer, IsReady, create_order_made, create_order-cases,
}

-- An item of an order is a copy of an item of a checkout, with the weight of its variant.
pub record IsCopy (order : ℕ) (db : OrderTables) (i : CheckoutItem) (o : OrderItem) : Type 0 where
  pub order_id : o.order_id ≡ order
  pub variant : o.product_variant_id ≡ i.product_variant_id
  pub quantity : o.quantity ≡ i.quantity
  pub unit_price : o.unit_price_snapshot ≡ i.unit_price_snapshot
  pub line_subtotal : o.line_subtotal_snapshot ≡ i.line_subtotal_snapshot
  pub tax_amount : o.tax_amount_snapshot ≡ i.tax_amount_snapshot
  pub product_name : o.product_name_snapshot ≡ i.product_name_snapshot
  pub variant_name : o.variant_name_snapshot ≡ i.variant_name_snapshot
  pub sku : o.sku_snapshot ≡ i.sku_snapshot
  pub slug : o.product_slug_snapshot ≡ i.product_slug
  pub image : o.image_snapshot_url ≡ i.product_image_url
  pub weight : o.weight_grams_snapshot ≡ weight_of i.product_variant_id db

-- Each item is copied, in order, and nothing else.
abbrev pub Copies : ℕ → OrderTables → List CheckoutItem → List OrderItem → Type 0
Copies order db [] [] = Unit
Copies order db (i ∷ is) (o ∷ os) = IsCopy order db i o × Copies order db is os
Copies order db _ _ = ⊥

item_rows-Copies :
    (order id : ℕ) (db : OrderTables) (items : List CheckoutItem)
    → Copies order db items
        (item_rows order id (map (λ i. (i, weight_of i.product_variant_id db)) items))
unfolding item_rows
item_rows-Copies order id db [] = tt
item_rows-Copies order id db (i ∷ t) = (
  record {
    order_id = refl;
    variant = refl;
    quantity = refl;
    unit_price = refl;
    line_subtotal = refl;
    tax_amount = refl;
    product_name = refl;
    variant_name = refl;
    sku = refl;
    slug = refl;
    image = refl;
    weight = refl;
  },
  item_rows-Copies order (suc id) db t,
)

-- What an order is made of, and what has become of the session and its reservation.
pub record Snapshot (user session : ℕ) (db db' : OrderTables) (response : OrderCreateResponse)
    : Type 0 where
  pub checkout : CheckoutSession
  pub found : find_session session user db ≡ some checkout
  pub was_reserved : checkout.status ≡ CheckoutSessionStatus.reserved
  pub is_completed : find_session session user db' ≡ some (complete checkout)
  pub reservation : StockReservation
  pub held : reservation_of checkout.id db ≡ some reservation
  pub was_active : reservation.status ≡ StockReservationStatus.active
  pub is_confirmed : reservation_of checkout.id db' ≡ some (confirm reservation)
  pub order : Order
  pub order_found : find_by_id response.id db' ≡ some order
  pub order_user : order.user_id ≡ user
  pub order_status : order.status ≡ pending_payment
  pub order_totals : order.totals ≡ checkout.totals
  pub order_shipping : order.shipping ≡ checkout.shipping
  pub order_billing : order.billing ≡ checkout.billing
  pub new_items : List OrderItem
  pub items : db'.order_item ≡ new_items ++ db.order_item
  pub items_copied :
      Copies response.id db
        (find_many (λ i. i.session_id == checkout.id) db.checkout_item)
        new_items

module _ (generate : OrderTables → String) (user : ℕ) (dto : CreateOrderDto) (db : OrderTables)
    (s : CheckoutSession) (r : StockReservation) (h : IsReady generate user dto db s r) where
  abbrev result : OrderTables
  result = ordered generate user dto db s r

  completed_after : find_session dto.checkout_session_id user result ≡ some (complete s)
  unfolding find_session
  completed_after =
      find_first-update _ _ complete db.checkout_session (λ x. refl) h.session
      ∙ ground (arith, ==_refl s.id)

  confirmed_after : reservation_of s.id result ≡ some (confirm r)
  unfolding reservation_of
  confirmed_after =
      find_first-update _ _ confirm db.stock_reservation (λ x. refl) h.reservation
      ∙ ground (arith, ==_refl r.id)

  order_after : find_by_id db.next_id result ≡ some (new_order generate user dto db s r)
  unfolding find_by_id find_first
  order_after = ground (arith, ==_refl db.next_id)

  -- The new order is found by its session.
  converted_after :
      find_by_checkout_session_id dto.checkout_session_id result
      ≡ some (new_order generate user dto db s r)
  unfolding find_by_checkout_session_id find_first find_session
  converted_after = ground (arith, find_first-holds _ db.checkout_session h.session)

  pub ordered-Snapshot :
      Snapshot user dto.checkout_session_id db result (answer generate user dto db s r)
  unfolding items_of
  ordered-Snapshot = record {
    checkout = s;
    found = h.session;
    was_reserved = ground (arith, h.session_reserved);
    is_completed = completed_after;
    reservation = r;
    held = h.reservation;
    was_active = ground (arith, h.reservation_active);
    is_confirmed = confirmed_after;
    order = new_order generate user dto db s r;
    order_found = order_after;
    order_user = refl;
    order_status = refl;
    order_totals = refl;
    order_shipping = refl;
    order_billing = refl;
    new_items = item_rows db.next_id (suc db.next_id) (items_of s.id db);
    items = refl;
    items_copied =
        item_rows-Copies db.next_id (suc db.next_id) db
          (find_many (λ i. i.session_id == s.id) db.checkout_item);
  }

ok_value :
    {A : Type 0} {a b : A} {s t : OrderTables}
    → Path (Outcome OrderTables OrderError A) (ok a s) (ok b t)
    → a ≡ b
ok_value e = cc

-- Where `createOrder` returns, the user had a RESERVED session with an ACTIVE reservation; the order
-- that it names is found, waits for its payment, belongs to the user and has the totals and the
-- addresses of the session; its items are the items of the session; the session is COMPLETED and the
-- reservation CONFIRMED.
pub create_order-Snapshot :
    (generate : OrderTables → String) (user : ℕ) (dto : CreateOrderDto) (db db' : OrderTables)
    (response : OrderCreateResponse)
    → create_order generate user dto db ≡ ok response db'
    → Snapshot user dto.checkout_session_id db db' response
create_order-Snapshot generate user dto db db' response returned =
    elim (create_order-cases generate user dto db) [
      | inl (e, thrown) ↦ absurd (ground (arith, returned, thrown))
      | inr (s, r, ready) ↦
          let same_end = sym (create_order_made generate user dto db s r ready) ∙ returned in
          subst₂ (Snapshot user dto.checkout_session_id db) (ap final same_end) (ok_value same_end)
            (ordered-Snapshot generate user dto db s r ready)
    ]

create_order_existing :
    (generate : OrderTables → String) (user : ℕ) (dto : CreateOrderDto) (db : OrderTables)
    {o : Order}
    → find_by_checkout_session_id dto.checkout_session_id db ≡ some o
    → create_order generate user dto db ≡ err (order_already_exists dto.checkout_session_id) db
unfolding create_order
create_order_existing generate user dto db old = ground arith

-- A checkout session becomes one order at most: in the tables that `createOrder` has left where
-- it returned, another call for the same session, by any user, throws OrderAlreadyExists and writes
-- nothing.
pub create_order-create_order :
    (generate : OrderTables → String) (user : ℕ) (dto : CreateOrderDto) (db db' : OrderTables)
    (response : OrderCreateResponse)
    → create_order generate user dto db ≡ ok response db'
    → (generate' : OrderTables → String) (user' : ℕ) (notes : Option String)
    → create_order generate' user'
        (record { checkout_session_id = dto.checkout_session_id; customer_notes = notes })
        db'
      ≡ err (order_already_exists dto.checkout_session_id) db'
create_order-create_order generate user dto db db' response returned generate' user' notes =
    elim (create_order-cases generate user dto db) [
      | inl (e, thrown) ↦ absurd (ground (arith, returned, thrown))
      | inr (s, r, ready) ↦
          let same_end = sym (create_order_made generate user dto db s r ready) ∙ returned in
          rw (sym (ap final same_end)) (
            create_order_existing generate' user' _ (ordered generate user dto db s r)
              (converted_after generate user dto db s r ready))
    ]
