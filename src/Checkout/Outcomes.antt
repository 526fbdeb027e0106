-- ===== src/Checkout/Outcomes.antt =====
-- `reserveInventory`, `cancelCheckout` and `expireCheckout` branch by branch
-- (modules/checkout/service.ts, lines 283-507).
use smart_light.Prelude.{
  ℕ, suc, true, false, ◌&&◌, not, List, ◌∷◌, map, Option, none, some, ◌≡◌, ◌⊎◌, refl, inl, inr,
  arith, ◌==◌, ltb, Bool-cases, Option-cases, ok, err,
}
use smart_light.Table.{update, All, IsUnique}
use smart_light.Orders.Errors.{CheckoutSessionStatus, StockReservationStatus}
use smart_light.Checkout.Errors.{
  CheckoutError, checkout_not_found, checkout_expired, checkout_invalid_status, unique_violation,
}
use smart_light.Checkout.Tables.{
  CheckoutSession, ReservationItem, StockReservation, CheckoutTables, checkout_cancelled,
  checkout_expired as expired_note,
}
use smart_light.Checkout.Service.{
  is_created, is_completed, find_by_id, find_by_id_for_user, items_of, reservation_of,
  CheckoutResponse, map_to_response,
}
use smart_light.Checkout.Service.Reserve.{
  reservation_item_of, reserve_items, new_reservation, write_reservation, reserve_inventory,
}
use smart_light.Checkout.Service.Release.{
  release_reservation, cancel_checkout, is_over, expire_checkout,
}
use smart_light.Checkout.Rows.{IsBalanced}
use smart_light.Checkout.Loops.{AfterTaking, AllTaken, reserve_items-cases}

-- The items that a session wants to hold.
abbrev pub wanted : ℕ → CheckoutTables → List ReservationItem
wanted id db = map reservation_item_of (items_of id db)

-- The tables after a reservation.
abbrev pub reserved_tables :
    ℕ → CheckoutSession → ℕ → List ReservationItem → CheckoutTables → CheckoutTables
reserved_tables now s user items db = record (AfterTaking items db) {
  next_id = suc db.next_id;
  stock_reservation = new_reservation now s user items db.next_id ∷ db.stock_reservation;
  checkout_session =
      update (λ x. x.id == s.id) (λ x. record x { status = CheckoutSessionStatus.reserved })
        db.checkout_session;
}

write_reservation_taken :
    (now : ℕ) (s : CheckoutSession) (user : ℕ) (items : List ReservationItem) (db : CheckoutTables)
    {r : StockReservation}
    → reservation_of s.id db ≡ some r
    → write_reservation now s user items db ≡ err unique_violation db
unfolding write_reservation
write_reservation_taken now s user items db held = ground (arith, held)

write_reservation_made :
    (now : ℕ) (s : CheckoutSession) (user : ℕ) (items : List ReservationItem) (db : CheckoutTables)
    → reservation_of s.id db ≡ none
    → write_reservation now s user items (AfterTaking items db)
      ≡ ok tt (reserved_tables now s user items db)
unfolding write_reservation reservation_of
write_reservation_made now s user items db fresh = ground (arith, fresh)

module _ (now id user : ℕ) (db : CheckoutTables) where
  unknown :
      find_by_id_for_user id user db ≡ none
      → reserve_inventory now id user db ≡ err (checkout_not_found (some id)) db
  unfolding reserve_inventory
  unknown missing = ground (arith, missing)

  module _ {s : CheckoutSession} (found : find_by_id_for_user id user db ≡ some s) where
    too_late :
        (not (is_completed s.status) && ltb s.expires_at now) ≡ true
        → reserve_inventory now id user db ≡ err (checkout_expired s.id) db
    unfolding reserve_inventory
    too_late late = ground (arith, found, late)

    module _ (timely : (not (is_completed s.status) && ltb s.expires_at now) ≡ false) where
      wrong_status :
          is_created s.status ≡ false
          → reserve_inventory now id user db ≡ err (checkout_invalid_status id s.status) db
      unfolding reserve_inventory
      wrong_status other = ground (arith, found, timely, other)

      module _ (fresh : is_created s.status ≡ true) where
        stock_refused :
            {e : CheckoutError} {s' : CheckoutTables}
            → reserve_items db (items_of id db) db ≡ err e s'
            → reserve_inventory now id user db ≡ err e db
        unfolding reserve_inventory
        stock_refused refused = ground (arith, found, timely, fresh, refused)

        write_refused :
            {e : CheckoutError} {x s' : CheckoutTables}
            → reserve_items db (items_of id db) db ≡ ok tt x
            → write_reservation now s user (wanted id db) x ≡ err e s'
            → reserve_inventory now id user db ≡ err e db
        unfolding reserve_inventory
        write_refused taken refused = ground (arith, found, timely, fresh, taken, refused)

        reread :
            {x y : CheckoutTables} (o : Option CheckoutSession)
            → reserve_items db (items_of id db) db ≡ ok tt x
            → write_reservation now s user (wanted id db) x ≡ ok tt y
            → find_by_id id y ≡ o
            → (reserve_inventory now id user db ≡ err (checkout_not_found (some id)) db)
              ⊎ ((r : CheckoutResponse) × (reserve_inventory now id user db ≡ ok r y))
        unfolding reserve_inventory
        reread none taken written again =
            inl (ground (arith, found, timely, fresh, taken, written, again))
        reread {x} {y} (some f) taken written again =
            inr (map_to_response y f, ground (arith, found, timely, fresh, taken, written, again))

-- A reservation that was made.
pub record Reserved (now id user : ℕ) (db : CheckoutTables) : Type 0 where
  pub session : CheckoutSession
  pub found : find_by_id_for_user id user db ≡ some session
  pub fresh : is_created session.status ≡ true
  pub no_reservation : reservation_of session.id db ≡ none
  pub rows : All IsBalanced (AfterTaking (wanted id db) db).inventory
  pub loop : reserve_items db (items_of id db) db ≡ ok tt (AfterTaking (wanted id db) db)
  pub response : CheckoutResponse
  pub result :
      reserve_inventory now id user db
      ≡ ok response (reserved_tables now session user (wanted id db) db)

module _ (now id user : ℕ) (db : CheckoutTables) where
  reserving :
      (s : CheckoutSession)
      → find_by_id_for_user id user db ≡ some s
      → (not (is_completed s.status) && ltb s.expires_at now) ≡ false
      → is_created s.status ≡ true
      → AllTaken db (items_of id db) db
      → ((e : CheckoutError) × (reserve_inventory now id user db ≡ err e db))
        ⊎ Reserved now id user db
  unfolding reservation_of
  reserving s found timely fresh taken = elim (Option-cases (reservation_of s.id db)) [
    | inr (r, held) ↦ inl (
      unique_violation,
      write_refused now id user db found timely fresh taken.result
          (write_reservation_taken now s user (wanted id db) (AfterTaking (wanted id db) db) held),
    )
    | inl free ↦
        elim (reread now id user db found timely fresh _ taken.result
          (write_reservation_made now s user (wanted id db) db free) refl) [
            | inl gone ↦ inl (checkout_not_found (some id), gone)
            | inr (response, made) ↦ inr (record {
              session = s;
              found = found;
              fresh = fresh;
              no_reservation = free;
              rows = taken.rows;
              loop = taken.result;
              response = response;
              result = made;
            })
          ]
  ]

  -- Either the reservation throws and the tables are as before, or the session was CREATED, all its
  -- items are taken off the stock and no row is overdrawn, and the reservation holds them.
  pub reserve_inventory-cases :
      IsUnique (λ r. r.product_variant_id) db.inventory
      → All IsBalanced db.inventory
      → ((e : CheckoutError) × (reserve_inventory now id user db ≡ err e db))
        ⊎ Reserved now id user db
  reserve_inventory-cases u balanced = elim (Option-cases (find_by_id_for_user id user db)) [
    | inl missing ↦ inl (checkout_not_found (some id), unknown now id user db missing)
    | inr (s, found) ↦ elim (Bool-cases (not (is_completed s.status) && ltb s.expires_at now)) [
      | inl late ↦ inl (checkout_expired s.id, too_late now id user db found late)
      | inr timely ↦ elim (Bool-cases (is_created s.status)) [
        | inr other ↦
            inl
              (checkout_invalid_status id s.status, wrong_status now id user db found timely other)
        | inl fresh ↦ elim (reserve_items-cases db (items_of id db) db u balanced) [
          | inl (e, s', refused) ↦ inl (e, stock_refused now id user db found timely fresh refused)
          | inr taken ↦ reserving s found timely fresh taken
        ]
      ]
    ]
  ]

-- The tables after a release, and after the status of the session is written.
abbrev pub cancelled_tables : ℕ → ℕ → CheckoutTables → CheckoutTables
cancelled_tables now id db =
    record (release_reservation StockReservationStatus.released checkout_cancelled now
      (reservation_of id db) db) {
        checkout_session =
            update (λ x. x.id == id)
              (λ x. record x { status = CheckoutSessionStatus.cancelled; cancelled_at = some now })
              (release_reservation StockReservationStatus.released checkout_cancelled now
                (reservation_of id db) db).checkout_session;
      }

abbrev pub expired_tables : ℕ → ℕ → CheckoutTables → CheckoutTables
expired_tables now id db =
    record (release_reservation StockReservationStatus.expired expired_note now
      (reservation_of id db) db) {
        checkout_session =
            update (λ x. x.id == id) (λ x. record x { status = CheckoutSessionStatus.expired })
              (release_reservation StockReservationStatus.expired expired_note now
                (reservation_of id db) db).checkout_session;
      }

pub cancel_checkout_unknown :
    (now id user : ℕ) (db : CheckoutTables)
    → find_by_id_for_user id user db ≡ none
    → cancel_checkout now id user db ≡ err (checkout_not_found (some id)) db
unfolding cancel_checkout
cancel_checkout_unknown now id user db missing = ground (arith, missing)

pub cancel_checkout_made :
    (now id user : ℕ) (db : CheckoutTables) {s : CheckoutSession}
    → find_by_id_for_user id user db ≡ some s
    → cancel_checkout now id user db ≡ ok tt (cancelled_tables now id db)
unfolding cancel_checkout
cancel_checkout_made now id user db found = ground (arith, found)

pub expire_checkout-cases :
    (now id : ℕ) (db : CheckoutTables)
    → (expire_checkout now id db ≡ ok tt db)
      ⊎ (expire_checkout now id db ≡ ok tt (expired_tables now id db))
unfolding expire_checkout
expire_checkout-cases now id db = elim (Option-cases (find_by_id id db)) [
  | inl missing ↦ inl (ground (arith, missing))
  | inr (s, found) ↦ elim (Bool-cases (is_over s.status)) [
    | inl over ↦ inl (ground (arith, found, over))
    | inr live ↦ inr (ground (arith, found, live))
  ]
]
