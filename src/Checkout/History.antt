-- ===== src/Checkout/History.antt =====
-- Sequences of checkout calls (modules/checkout/service.ts).
use smart_light.Prelude.{
  ℕ, pos, ◌≤ℤ◌, String, Bool, List, [], ◌∷◌, map, Option, some, ◌≡◌, ◌⊎◌, refl, inl, inr, arith,
  ◌==◌, Bool-cases, Option-cases, ok, err, final, ◌&&◌, not, ltb,
}
use smart_light.Table.{update}
use smart_light.Table.Rows.{All-map, All-find_many, All-of_map, All-append}
use smart_light.Orders.Errors.{StockReservationStatus}
use smart_light.Orders.Tables.{Address}
use smart_light.Checkout.Errors.{
  CheckoutError, checkout_not_found, checkout_expired, checkout_cancelled, checkout_completed,
}
use smart_light.Checkout.Tables.{
  CheckoutSession, CheckoutTables, checkout_cancelled as cancelled_note,
  checkout_expired as expired_note,
}
use smart_light.Checkout.Service.{
  find_by_id_for_user, is_completed, is_cancelled, require_owned_active_session,
  update_shipping_address,
}
use smart_light.Checkout.Service.Create.{
  selected_items, checkout_item_of, replayed, create_checkout,
}
use smart_light.Checkout.Service.Reserve.{reserve_inventory}
use smart_light.Checkout.Service.Release.{cancel_checkout, expire_checkout}
use smart_light.Checkout.Outcomes.{
  reserve_inventory-cases, cancel_checkout_unknown, cancel_checkout_made, cancelled_tables,
  expired_tables, expire_checkout-cases,
}
use smart_light.Checkout.Creation.{
  created_tables, Created, create_from_cart-cases, create_checkout_first, create_checkout-replayed,
}
use smart_light.Checkout.Backed.{IsBacked}
use smart_light.Checkout.Backed.Kept.{Reserved-IsBacked, release_reservation-IsBacked}

pub data Call : Type 0 where
  creates : (user : ℕ) → Option String → Call
  reserves : (session user : ℕ) → Call
  cancels : (session user : ℕ) → Call
  expires : (session : ℕ) → Call
  addresses : (session user : ℕ) → Address → String → Call

module _ (is_phone : String → Bool) where
  -- The tables that a call leaves, at its time.
  unfoldable pub call : ℕ → Call → CheckoutTables → CheckoutTables
  call now (creates user key) db = final (create_checkout now user key db)
  call now (reserves id user) db = final (reserve_inventory now id user db)
  call now (cancels id user) db = final (cancel_checkout now id user db)
  call now (expires id) db = final (expire_checkout now id db)
  call now (addresses id user address phone) db =
      final (update_shipping_address is_phone now id user address phone db)

  -- Calls one after the other, each with its time.
  unfoldable pub run : List (ℕ × Call) → CheckoutTables → CheckoutTables
  run [] db = db
  run (c ∷ t) db = run t (call c.0 c.1 db)

require_owned_active_session-cases :
    (now id user : ℕ) (db : CheckoutTables)
    → ((e : CheckoutError) × (require_owned_active_session now id user db ≡ err e db))
      ⊎ ((s : CheckoutSession) × (require_owned_active_session now id user db ≡ ok s db))
unfolding require_owned_active_session
require_owned_active_session-cases now id user db =
    elim (Option-cases (find_by_id_for_user id user db)) [
      | inl missing ↦ inl (checkout_not_found (some id), ground (arith, missing))
      | inr (s, found) ↦ elim (Bool-cases (not (is_completed s.status) && ltb s.expires_at now)) [
        | inl late ↦ inl (checkout_expired s.id, ground (arith, found, late))
        | inr timely ↦ elim (Bool-cases (is_cancelled s.status)) [
          | inl off ↦ inl (checkout_cancelled id, ground (arith, found, timely, off))
          | inr on ↦ elim (Bool-cases (is_completed s.status)) [
            | inl over ↦ inl (checkout_completed id, ground (arith, found, timely, on, over))
            | inr live ↦ inr (s, ground (arith, found, timely, on, live))
          ]
        ]
      ]
    ]

update_shipping_address-final :
    (is_phone : String → Bool) (now id user : ℕ) (address : Address) (phone : String)
    (db : CheckoutTables)
    → (final (update_shipping_address is_phone now id user address phone db) ≡ db)
      ⊎ ((t : List CheckoutSession) × (final
              (update_shipping_address is_phone now id user address phone db)
            ≡ record db { checkout_session = t }))
unfolding update_shipping_address
update_shipping_address-final is_phone now id user address phone db =
    elim (require_owned_active_session-cases now id user db) [
      | inl (e, thrown) ↦ inl (ground (arith, thrown))
      | inr (s, owned) ↦ elim (Bool-cases (is_phone phone)) [
        | inr bad ↦ inl (ground (arith, owned, bad))
        | inl good ↦ inr (
          update (λ s. s.id == id)
              (λ s. record s { shipping = record address { phone = some phone } })
              db.checkout_session,
          ground (arith, owned, good),
        )
      ]
    ]

module _ (db : CheckoutTables) (v : IsBacked db) where
  Created-IsBacked :
      (now user : ℕ) (key : Option String) (m : Created now user key db)
      → IsBacked (created_tables now user key m.cart (selected_items m.cart.id db) db)
  unfolding selected_items
  Created-IsBacked now user key m = record {
    variants = v.variants;
    ids = v.ids;
    numbered = All-map db.stock_reservation (λ r n. omega (arith, n)) v.numbered;
    cart_items = v.cart_items;
    items =
        All-append (λ i. pos 0 ≤ℤ i.quantity)
          (map (checkout_item_of db.next_id) (selected_items m.cart.id db)) db.checkout_item
          (All-of_map (λ i. pos 0 ≤ℤ i.quantity) (λ i. pos 0 ≤ℤ i.quantity)
            (checkout_item_of db.next_id) (selected_items m.cart.id db) (λ i p. p)
            (All-find_many (λ i. pos 0 ≤ℤ i.quantity) _ db.cart_item v.cart_items))
          v.items;
    reserved_items = v.reserved_items;
    rows = v.rows;
  }

  create_checkout-IsBacked :
      (now user : ℕ) (key : Option String) → IsBacked (final (create_checkout now user key db))
  create_checkout-IsBacked now user key = elim (Option-cases (replayed user key db)) [
    | inr (s, again) ↦ rw (create_checkout-replayed now user key db again) v
    | inl first ↦ elim (create_from_cart-cases now user key db) [
      | inl (e, thrown) ↦ rw (create_checkout_first now user key db first, thrown) v
      | inr m ↦
          rw (create_checkout_first now user key db first, m.result)
            (Created-IsBacked now user key m)
    ]
  ]

  reserve_inventory-IsBacked :
      (now id user : ℕ) → IsBacked (final (reserve_inventory now id user db))
  reserve_inventory-IsBacked now id user =
      elim (reserve_inventory-cases now id user db v.variants
        (All-map db.inventory (λ r c. c.balanced) v.rows)) [
          | inl (e, thrown) ↦ rw thrown v
          | inr m ↦ rw m.result (Reserved-IsBacked now id user db v m)
        ]

  sessions-IsBacked :
      (sessions : List CheckoutSession) → IsBacked (record db { checkout_session = sessions })
  sessions-IsBacked sessions = record {
    variants = v.variants;
    ids = v.ids;
    numbered = v.numbered;
    cart_items = v.cart_items;
    items = v.items;
    reserved_items = v.reserved_items;
    rows = v.rows;
  }

  update_shipping_address-IsBacked :
      (is_phone : String → Bool) (now id user : ℕ) (address : Address) (phone : String)
      → IsBacked (final (update_shipping_address is_phone now id user address phone db))
  update_shipping_address-IsBacked is_phone now id user address phone =
      elim (update_shipping_address-final is_phone now id user address phone db) [
        | inl same ↦ rw same v
        | inr (sessions, changed) ↦ rw changed (sessions-IsBacked sessions)
      ]

module _ (now id : ℕ) (db : CheckoutTables) (v : IsBacked db) where
  cancel_checkout-IsBacked : (user : ℕ) → IsBacked (final (cancel_checkout now id user db))
  cancel_checkout-IsBacked user = elim (Option-cases (find_by_id_for_user id user db)) [
    | inl missing ↦ rw (cancel_checkout_unknown now id user db missing) v
    | inr (s, found) ↦ rw (cancel_checkout_made now id user db found) (
        sessions-IsBacked _
          (release_reservation-IsBacked StockReservationStatus.released cancelled_note now refl id
            db v)
          (cancelled_tables now id db).checkout_session)
  ]

  expire_checkout-IsBacked : IsBacked (final (expire_checkout now id db))
  expire_checkout-IsBacked = elim (expire_checkout-cases now id db) [
    | inl same ↦ rw same v
    | inr changed ↦ rw changed (
        sessions-IsBacked _
          (release_reservation-IsBacked StockReservationStatus.expired expired_note now refl id db
            v)
          (expired_tables now id db).checkout_session)
  ]

module _ (is_phone : String → Bool) where
  call-IsBacked :
      (now : ℕ) (c : Call) (db : CheckoutTables) → IsBacked db → IsBacked (call is_phone now c db)
  unfolding call
  call-IsBacked now (creates user key) db v = create_checkout-IsBacked db v now user key
  call-IsBacked now (reserves id user) db v = reserve_inventory-IsBacked db v now id user
  call-IsBacked now (cancels id user) db v = cancel_checkout-IsBacked now id db v user
  call-IsBacked now (expires id) db v = expire_checkout-IsBacked now id db v
  call-IsBacked now (addresses id user address phone) db v =
      update_shipping_address-IsBacked db v is_phone now id user address phone

  -- After any sequence of calls of the checkout, at any times, returning or throwing, in tables where
  -- it held before: on every row of the stock the available and the reserved count sum up to what is
  -- on hand, the available count is not negative, and the reserved count covers what the ACTIVE
  -- reservations hold of the variant.
  pub run-IsBacked :
      (calls : List (ℕ × Call)) (db : CheckoutTables)
      → IsBacked db
      → IsBacked (run is_phone calls db)
  unfolding run
  run-IsBacked [] db v = v
  run-IsBacked (c ∷ t) db v = run-IsBacked t (call is_phone c.0 c.1 db) (call-IsBacked c.0 c.1 db v)
