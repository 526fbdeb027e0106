-- ===== src/Orders/Trail.antt =====
-- The history of an order as a path through its states (modules/orders/service.ts).
pub mod Transitions
pub mod Moved
pub mod Effects
pub mod Kept
pub mod Creation
pub mod Created
use smart_light.Prelude.{
  ℕ, ◌<◌, Bool, true, false, ◌||◌, List, [], ◌∷◌, Option, none, some, ◌≡◌, ◌≢◌, refl, arith, ◌==◌,
  if◌then◌else◌, ==_iff, ==_refl, inl, inr, Bool-cases,
}
use smart_light.Table.{find_many, All, IsUnique}
use smart_light.Orders.Status.{
  OrderStatus, pending_payment, is_status, includes, customer_allowed, admin_allowed,
}
use smart_light.Orders.Tables.{Order, OrderStatusHistory, OrderTables}

-- An order starts in PENDING_PAYMENT and then makes the transitions of a customer or of an
-- administrator.
abbrev pub step : Option OrderStatus → OrderStatus → Bool
step none to = is_status to pending_payment
step (some from) to = includes (customer_allowed from) to || includes (admin_allowed from) to

-- The entries lead, newest first, from the creation to the status.
abbrev pub IsTrail : Option OrderStatus → List OrderStatusHistory → Type 0
IsTrail status [] = status ≡ none
IsTrail status (h ∷ t) =
    (status ≡ some h.to_status)
    × ((step h.from_status h.to_status ≡ true) × IsTrail h.from_status t)

unfoldable pub history_of : ℕ → List OrderStatusHistory → List OrderStatusHistory
history_of id t = find_many (λ h. h.order_id == id) t

abbrev pub HasTrail : List OrderStatusHistory → Order → Type 0
HasTrail t o = IsTrail (some o.status) (history_of o.id t)

-- Every order has its trail; ids are unique and numbered.
pub record IsRecorded (db : OrderTables) : Type 0 where
  pub ids : IsUnique (λ o. o.id) db.order
  pub orders_numbered : All (λ o. o.id < db.next_id) db.order
  pub entries_numbered : All (λ h. h.order_id < db.next_id) db.order_status_history
  pub trails : All (HasTrail db.order_status_history) db.order

pub history_of-hit :
    (id : ℕ) (h : OrderStatusHistory) (t : List OrderStatusHistory)
    → h.order_id ≡ id
    → history_of id (h ∷ t) ≡ h ∷ history_of id t
unfolding history_of find_many
history_of-hit id h t e = ground arith

pub history_of-miss :
    (id : ℕ) (h : OrderStatusHistory) (t : List OrderStatusHistory)
    → h.order_id ≢ id
    → history_of id (h ∷ t) ≡ history_of id t
unfolding history_of find_many
history_of-miss id h t e = ground arith

pub history_of-none :
    (id : ℕ) (t : List OrderStatusHistory) → All (λ h. h.order_id ≢ id) t → history_of id t ≡ []
unfolding history_of find_many
history_of-none id [] a = refl
history_of-none id (h ∷ t) a = ground (arith, a.0, history_of-none id t a.1)
