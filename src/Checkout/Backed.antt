-- ===== src/Checkout/Backed.antt =====
-- The stock that the ACTIVE reservations hold, and the rows that it is held on
-- (modules/checkout/service.ts, lines 283-507).
pub mod Kept
use smart_light.Prelude.{
  ℕ, ◌+◌, ◌<◌, ℤ, pos, ◌+ℤ◌, ◌-ℤ◌, ◌≤ℤ◌, int_laws, Bool, true, false, List, [], ◌∷◌, Option, none,
  some, ◌≡◌, ◌≢◌, refl, sym, inl, inr, arith, ◌==◌, ==_iff, Bool-cases, if◌then◌else◌,
}
use smart_light.Table.{update, All, IsUnique, find_first}
use smart_light.Table.Rows.{All-find_first}
use smart_light.Database.Stock.{Inventory}
use smart_light.Orders.Errors.{StockReservationStatus}
use smart_light.Orders.Tables.{CheckoutItem}
use smart_light.Checkout.Tables.{ReservationItem, ReleaseNote, StockReservation, CheckoutTables}
use smart_light.Database.Shop.{CartItem}
use smart_light.Checkout.Service.Release.{is_active_reservation, close_reservation}
use smart_light.Checkout.Rows.{need, need-positive, IsPositive, IsBalanced}

-- What one reservation holds of a variant, and what all of them hold.
abbrev pub held_by : ℕ → StockReservation → ℤ
held_by v r = if is_active_reservation r.status then need v r.items else pos 0

abbrev pub held : ℕ → List StockReservation → ℤ
held v [] = pos 0
held v (r ∷ t) = held_by v r +ℤ held v t

abbrev pub AllPositive : StockReservation → Type 0
AllPositive r = All IsPositive r.items

-- A row is balanced, and has in its reserved count what the reservations hold of its variant.
pub record IsCovered (reservations : List StockReservation) (r : Inventory) : Type 0 where
  pub balanced : IsBalanced r
  pub covered : held r.product_variant_id reservations ≤ℤ r.reserved

-- Each variant has one row, every row is covered, reservations have ids of their own, and no quantity
-- is negative.
pub record IsBacked (db : CheckoutTables) : Type 0 where
  pub variants : IsUnique (λ r. r.product_variant_id) db.inventory
  pub ids : IsUnique (λ r. r.id) db.stock_reservation
  pub numbered : All (λ r. r.id < db.next_id) db.stock_reservation
  pub cart_items : All (λ i. pos 0 ≤ℤ i.quantity) db.cart_item
  pub items : All (λ i. pos 0 ≤ℤ i.quantity) db.checkout_item
  pub reserved_items : All AllPositive db.stock_reservation
  pub rows : All (IsCovered db.stock_reservation) db.inventory

pub held_by-positive : (v : ℕ) (r : StockReservation) → AllPositive r → pos 0 ≤ℤ held_by v r
held_by-positive v r a = elim (Bool-cases (is_active_reservation r.status)) [
  | inl e ↦ rw e (need-positive v r.items a)
  | inr e ↦ rw e (omega arith)
]

pub held-positive : (v : ℕ) (t : List StockReservation) → All AllPositive t → pos 0 ≤ℤ held v t
held-positive v [] a = omega arith
held-positive v (r ∷ t) a = grind (int_laws, held_by-positive v r a.0, held-positive v t a.1)

some_eq : {r s : StockReservation} → some s ≡ some r → s ≡ r
some_eq k = cc

-- A status that holds nothing.
abbrev pub IsClosing : StockReservationStatus → Type 0
IsClosing status = is_active_reservation status ≡ false

module _ (status : StockReservationStatus) (note : ReleaseNote) (now : ℕ) where
  abbrev pub closed : ℕ → List StockReservation → List StockReservation
  closed id t = update (λ x. x.id == id) (close_reservation status note now) t

  closed_miss : (id : ℕ) (t : List StockReservation) → All (λ s. s.id ≢ id) t → closed id t ≡ t
  unfolding update
  closed_miss id [] a = refl
  closed_miss id (r ∷ t) a = ground (arith, a.0, closed_miss id t a.1)

  closed_hit :
      (r : StockReservation) (t : List StockReservation)
      → All (λ s. s.id ≢ r.id) t
      → closed r.id (r ∷ t) ≡ close_reservation status note now r ∷ t
  unfolding update
  closed_hit r t a = ground (arith, closed_miss r.id t a)

  closed_other :
      (id : ℕ) (s : StockReservation) (t : List StockReservation)
      → s.id ≢ id
      → closed id (s ∷ t) ≡ s ∷ closed id t
  unfolding update
  closed_other id s t ne = ground (arith, ne)

  -- Closing the one reservation that was found takes what it held off what all hold.
  pub held_closed :
      (q : StockReservation → Bool) (v : ℕ) (t : List StockReservation) {r : StockReservation}
      → IsClosing status
      → IsUnique (λ x. x.id) t
      → find_first q t ≡ some r
      → held v (closed r.id t) +ℤ held_by v r ≡ held v t
  unfolding find_first
  held_closed q v [] closing u h = cc
  held_closed q v (s ∷ t) {r} closing (u, w) h = elim (Bool-cases (q s)) [
    | inl e ↦
        let same : s ≡ r = some_eq (rw e at h) in
        rw (same, closed_hit r t (rw same at u), closing) (omega int_laws)
    | inr e ↦
        let apart = All-find_first (λ x. x.id ≢ s.id) q t u (rw e at h) in
        rw (closed_other r.id s t (λ same. apart (sym same)))
          (grind (int_laws, held_closed q v t closing w (rw e at h)))
  ]
