-- ===== src/Checkout/Laws.antt =====
-- Calls of the checkout one after the other (modules/checkout/service.ts, lines 78-91 and 283-457).
use smart_light.Prelude.{
  ℕ, ◌≤ℤ◌, int_laws, List, [], ◌∷◌, map, some, ◌≡◌, refl, sym, ◌∙◌, inl, inr, arith, Outcome, ok,
}
use smart_light.Table.{find_first, All}
use smart_light.Table.Rows.{find_first-holds, All-map}
use smart_light.Table.Keys.{find_first-update}
use smart_light.Database.Stock.{Inventory}
use smart_light.Checkout.Errors.{CheckoutError}
use smart_light.Checkout.Tables.{ReservationItem, CheckoutSession, StockReservation, CheckoutTables}
use smart_light.Checkout.Service.{find_by_id_for_user, reservation_of, CheckoutResponse}
use smart_light.Checkout.Service.Reserve.{reserve_inventory, new_reservation}
use smart_light.Checkout.Service.Release.{cancel_checkout}
use smart_light.Checkout.Rows.{IsPositive, need, taken, given, given-taken}
use smart_light.Checkout.Loops.{release_items-given}
use smart_light.Checkout.Outcomes.{
  wanted, reserved_tables, Reserved, reserve_inventory-cases, cancel_checkout_made,
  cancelled_tables,
}
use smart_light.Checkout.Backed.{IsBacked, IsCovered, held, held-positive}
use smart_light.Checkout.Backed.Kept.{wanted-IsPositive, Reserved-IsBacked}

pub ok_state {ℓ} :
    {A : Type ℓ} {a b : A} {s t : CheckoutTables}
    → Path (Outcome CheckoutTables CheckoutError A) (ok a s) (ok b t)
    → s ≡ t
ok_state h = cc

pub ok_value {ℓ} :
    {A : Type ℓ} {a b : A} {s t : CheckoutTables}
    → Path (Outcome CheckoutTables CheckoutError A) (ok a s) (ok b t)
    → a ≡ b
ok_value h = cc

given_back :
    (items : List ReservationItem) (t : List Inventory)
    → All IsPositive items
    → (reservations : List StockReservation) → ((w : ℕ) → need w items ≤ℤ held w reservations)
    → All (IsCovered reservations) (map (taken items) t)
    → map (given items) (map (taken items) t) ≡ t
given_back items [] p rs within a = refl
given_back items (r ∷ t) p rs within a =
    rw
      (
        given-taken items r a.0.balanced p
            (grind (int_laws, within (taken items r).product_variant_id, a.0.covered)),
        given_back items t p rs within a.1,
      )
      refl

module _ (now id user : ℕ) (db : CheckoutTables) (v : IsBacked db)
    (m : Reserved now id user db) where
  open m use {session}

  abbrev after : CheckoutTables
  after = reserved_tables now session user (wanted id db) db

  same_id : session.id ≡ id
  unfolding find_by_id_for_user
  same_id = ground (arith, find_first-holds _ db.checkout_session m.found)

  found_after : (x : CheckoutSession) × (find_by_id_for_user id user after ≡ some x)
  unfolding find_by_id_for_user
  found_after = (_, find_first-update _ _ _ db.checkout_session (λ x. refl) m.found)

  held_after :
      reservation_of id after ≡ some (new_reservation now session user (wanted id db) db.next_id)
  unfolding reservation_of find_first
  held_after = ground (arith, same_id)

  restored : (later : ℕ) → (cancelled_tables later id after).inventory ≡ db.inventory
  restored later = rw held_after (
      release_items-given (wanted id db) (map (taken (wanted id db)) db.inventory)
      ∙ given_back (wanted id db) db.inventory (wanted-IsPositive id db v) _
          (λ w. grind (int_laws, held-positive w db.stock_reservation v.reserved_items))
          (Reserved-IsBacked now id user db v m).rows)

  cancelled_after :
      (t : ℕ) → (cancel_checkout t id user after ≡ ok tt (cancelled_tables t id after))
  cancelled_after t = cancel_checkout_made t id user after found_after.1

-- In tables where every row covers its reservations: cancelling a checkout after its stock was reserved,
-- at any time, succeeds and gives the whole stock back as it was before the reservation.
pub cancel_checkout-reserve_inventory :
    (now later id user : ℕ) (db db' : CheckoutTables) (response : CheckoutResponse)
    → IsBacked db
    → reserve_inventory now id user db ≡ ok response db'
    → (s : CheckoutTables) × (cancel_checkout later id user db' ≡ ok tt s)
      × (s.inventory ≡ db.inventory)
cancel_checkout-reserve_inventory now later id user db db' response v reserved =
    elim (reserve_inventory-cases now id user db v.variants
      (All-map db.inventory (λ r c. c.balanced) v.rows)) [
        | inl (e, thrown) ↦ absurd (cc (thrown, reserved))
        | inr m ↦
            let same : reserved_tables now m.session user (wanted id db) db ≡ db' =
              ok_state (sym m.result ∙ reserved) in
            rw (sym same) (
              cancelled_tables later id (reserved_tables now m.session user (wanted id db) db),
              cancelled_after now id user db v m later,
              restored now id user db v m later,
            )
      ]
