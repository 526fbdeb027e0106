-- ===== src/Orders/Trail/Effects.antt =====
-- What `transitionStatus` leaves in the tables (modules/orders/service.ts, lines 456-538).
use smart_light.Prelude.{
  ℕ, String, true, false, ◌∷◌, Option, none, some, ◌≡◌, ◌≢◌, ◌⊎◌, refl, sym, ◌∙◌, inl, inr, arith,
  ◌==◌, ==_iff, Bool-cases, ok, err,
}
use smart_light.Table.Rows.{find_first-holds, find_first_missed}
use smart_light.Table.Keys.{find_first-update}
use smart_light.Orders.Status.{OrderStatus, cancelled, is_status, includes, allowed}
use smart_light.Orders.Errors.{OrderError}
use smart_light.Orders.Tables.{Order, OrderStatusHistory, OrderTables}
use smart_light.Orders.Service.{find_by_id}
use smart_light.Orders.Service.Transition.{TransitionArgs, updated_order, transition_status}
use smart_light.Orders.Trail.Transitions.{Made, entry, transitioned, transition_status-cases}

-- `a ?? b`
abbrev or_default {ℓ} : {A : Type ℓ} → Option A → A → A
or_default none b = b
or_default (some a) b = a

-- Why and by whom an order is cancelled. The actor of an administrator's transition is kept.
pub record Cancelled (a : TransitionArgs) (before after : Order) : Type 0 where
  pub reason : after.cancel_reason ≡ some (or_default a.reason "CANCELLED")
  pub by_admin : (i : ℕ) → a.is_admin ≡ true → a.actor.id ≡ some i → after.cancelled_by_id ≡ some i
  pub by_customer : a.is_admin ≡ false → after.cancelled_by_id ≡ before.cancelled_by_id

-- An order that only its status distinguishes from another one.
pub record SameButStatus (before after : Order) : Type 0 where
  pub id : after.id ≡ before.id
  pub user_id : after.user_id ≡ before.user_id
  pub payment_status : after.payment_status ≡ before.payment_status
  pub totals : after.totals ≡ before.totals
  pub shipping : after.shipping ≡ before.shipping
  pub billing : after.billing ≡ before.billing
  pub checkout_session_id : after.checkout_session_id ≡ before.checkout_session_id

module _ (a : TransitionArgs) (db : OrderTables) where
  -- A transition that was made.
  pub record Moved : Type 0 where
    pub before : Order
    pub found : find_by_id a.order_id db ≡ some before
    pub permitted : includes (allowed a.is_admin before.status) a.to_status ≡ true
    pub tables : OrderTables
    pub result : transition_status a db ≡ ok tt tables
    pub after : Order
    pub after_found : find_by_id a.order_id tables ≡ some after
    pub status : after.status ≡ a.to_status
    pub kept : SameButStatus before after
    pub cancellation : a.to_status ≡ cancelled → Cancelled a before after
    pub others : (id : ℕ) → id ≢ a.order_id → find_by_id id tables ≡ find_by_id id db
    pub written : OrderStatusHistory
    pub history : tables.order_status_history ≡ written ∷ db.order_status_history
    pub written_order : written.order_id ≡ a.order_id
    pub written_from : written.from_status ≡ some before.status
    pub written_to : written.to_status ≡ a.to_status
    pub written_by : written.changed_by_id ≡ a.actor.id
    pub written_reason : written.reason ≡ a.reason

  updated-status : (o : Order) → (updated_order a o).status ≡ a.to_status
  updated-status o = ground arith

  updated-id : (o : Order) → (updated_order a o).id ≡ o.id
  updated-id o = ground arith

  updated-is_deleted : (o : Order) → (updated_order a o).is_deleted ≡ o.is_deleted
  updated-is_deleted o = ground arith

  updated-SameButStatus : (o : Order) → SameButStatus o (updated_order a o)
  updated-SameButStatus o = elim (Bool-cases (is_status a.to_status cancelled)) [
    | inl e ↦ rw e (record {
      id = refl;
      user_id = refl;
      payment_status = refl;
      totals = refl;
      shipping = refl;
      billing = refl;
      checkout_session_id = refl;
    })
    | inr e ↦ rw e (record {
      id = refl;
      user_id = refl;
      payment_status = refl;
      totals = refl;
      shipping = refl;
      billing = refl;
      checkout_session_id = refl;
    })
  ]

  updated-Cancelled : (o : Order) → a.to_status ≡ cancelled → Cancelled a o (updated_order a o)
  updated-Cancelled o e = record {
    reason = reason_given a.reason refl;
    by_admin = λ i admin actor. ground (arith, e, admin, actor);
    by_customer = λ customer. ground (arith, e, customer);
  }
    where
      reason_given :
          (r : Option String)
          → a.reason ≡ r
          → (updated_order a o).cancel_reason ≡ some (or_default r "CANCELLED")
      reason_given none given = rw (e, given) refl
      reason_given (some r) given = rw (e, given) refl

  transitioned-found :
      {o : Order} (from : OrderStatus)
      → find_by_id a.order_id db ≡ some o
      → find_by_id a.order_id (transitioned a from db) ≡ some (updated_order a o)
  unfolding find_by_id
  transitioned-found from found =
      find_first-update _ _ (updated_order a) db.order
        (λ x. rw (updated-id x, updated-is_deleted x) refl) found
      ∙ ground (arith, find_first-holds _ db.order found)

  transitioned-others :
      (from : OrderStatus) (id : ℕ)
      → id ≢ a.order_id
      → find_by_id id (transitioned a from db) ≡ find_by_id id db
  unfolding find_by_id
  transitioned-others from id other =
      find_first_missed _ (λ x. x.id == a.order_id) (updated_order a) db.order
        (λ x hit.
          let apart : (x.id == id) ≡ false = differs x hit in
          (rw apart refl, rw (updated-id x, apart) refl))
    where
      differs : (x : Order) → (x.id == a.order_id) ≡ true → (x.id == id) ≡ false
      differs x hit = elim (Bool-cases (x.id == id)) [
        | inr e ↦ e
        | inl e ↦ absurd (other (sym ((==_iff x.id id).0 e) ∙ (==_iff x.id a.order_id).0 hit))
      ]

  Made-Moved : Made a db → Moved
  Made-Moved m = record {
    before = m.order;
    found = m.found;
    permitted = m.permitted;
    tables = transitioned a m.order.status db;
    result = m.result;
    after = updated_order a m.order;
    after_found = transitioned-found m.order.status m.found;
    status = updated-status m.order;
    kept = updated-SameButStatus m.order;
    cancellation = updated-Cancelled m.order;
    others = transitioned-others m.order.status;
    written = entry a m.order.status db.next_id;
    history = refl;
    written_order = refl;
    written_from = refl;
    written_to = refl;
    written_by = refl;
    written_reason = refl;
  }

  -- A transition either throws and leaves the tables as they were; or its order is found, the table of
  -- its actor permits it, the order has the new status, with the reason and, for an administrator, the
  -- actor of a cancellation, and keeps its owner, payment status, amounts and addresses; every other
  -- order is as before; and one entry from the old to the new status is added to its history.
  pub transition_status-effects : ((e : OrderError) × (transition_status a db ≡ err e db)) ⊎ Moved
  transition_status-effects = elim (transition_status-cases a db) [
    | inl thrown ↦ inl thrown
    | inr m ↦ inr (Made-Moved m)
  ]
