-- ===== src/Orders/Trail/Transitions.antt =====
-- `transitionStatus` (modules/orders/service.ts, lines 456-538), branch by branch.
use smart_light.Prelude.{
  ℕ, suc, true, false, ◌&&◌, ◌∷◌, none, some, ◌≡◌, ◌⊎◌, arith, ◌==◌, inl, inr, Bool-cases,
  Option-cases, ok, err,
}
use smart_light.Table.{update}
use smart_light.Orders.Status.{OrderStatus, cancelled, is_status, includes, allowed}
use smart_light.Orders.Errors.{
  OrderError, order_not_found, order_already_cancelled, order_delivered_cannot_cancel,
  invalid_status_transition,
}
use smart_light.Orders.Tables.{Order, OrderStatusHistory, OrderTables}
use smart_light.Orders.Service.{find_by_id}
use smart_light.Orders.Service.Transition.{
  TransitionArgs, is_past_cancelling, updated_order, transition_status,
}

abbrev pub entry : TransitionArgs → OrderStatus → ℕ → OrderStatusHistory
entry a from id = record {
  id = id;
  order_id = a.order_id;
  from_status = some from;
  to_status = a.to_status;
  changed_by_type = a.actor.type;
  changed_by_id = a.actor.id;
  changed_by_name = a.actor.name;
  reason = a.reason;
}

-- The tables after a transition from a status.
abbrev pub transitioned : TransitionArgs → OrderStatus → OrderTables → OrderTables
transitioned a from db = record db {
  order = update (λ o. o.id == a.order_id) (updated_order a) db.order;
  next_id = suc db.next_id;
  order_status_history = entry a from db.next_id ∷ db.order_status_history;
}

pub transition_status_made :
    (a : TransitionArgs) (db : OrderTables) {o : Order}
    → find_by_id a.order_id db ≡ some o
    → is_status o.status cancelled ≡ false
    → (is_status a.to_status cancelled && is_past_cancelling o.status) ≡ false
    → includes (allowed a.is_admin o.status) a.to_status ≡ true
    → transition_status a db ≡ ok tt (transitioned a o.status db)
unfolding transition_status
transition_status_made a db found live early permitted = ground arith

transition_status_unknown :
    (a : TransitionArgs) (db : OrderTables)
    → find_by_id a.order_id db ≡ none
    → transition_status a db ≡ err (order_not_found a.order_id) db
unfolding transition_status
transition_status_unknown a db missing = ground arith

transition_status_cancelled :
    (a : TransitionArgs) (db : OrderTables) {o : Order}
    → find_by_id a.order_id db ≡ some o
    → is_status o.status cancelled ≡ true
    → transition_status a db ≡ err (order_already_cancelled a.order_id) db
unfolding transition_status
transition_status_cancelled a db found closed = ground arith

transition_status_late :
    (a : TransitionArgs) (db : OrderTables) {o : Order}
    → find_by_id a.order_id db ≡ some o
    → is_status o.status cancelled ≡ false
    → (is_status a.to_status cancelled && is_past_cancelling o.status) ≡ true
    → transition_status a db ≡ err (order_delivered_cannot_cancel a.order_id) db
unfolding transition_status
transition_status_late a db found live late = ground arith

transition_status_forbidden :
    (a : TransitionArgs) (db : OrderTables) {o : Order}
    → find_by_id a.order_id db ≡ some o
    → is_status o.status cancelled ≡ false
    → (is_status a.to_status cancelled && is_past_cancelling o.status) ≡ false
    → includes (allowed a.is_admin o.status) a.to_status ≡ false
    → transition_status a db ≡ err (invalid_status_transition a.order_id o.status a.to_status) db
unfolding transition_status
transition_status_forbidden a db found live early forbidden = ground arith

-- A transition that the table of its actor permits.
pub record Made (a : TransitionArgs) (db : OrderTables) : Type 0 where
  pub order : Order
  pub found : find_by_id a.order_id db ≡ some order
  pub permitted : includes (allowed a.is_admin order.status) a.to_status ≡ true
  pub result : transition_status a db ≡ ok tt (transitioned a order.status db)

-- A transition either throws and leaves the tables as they were, or its order is found, the table of
-- its actor permits it, the order is updated by it, and one entry is added to the order's history.
pub transition_status-cases :
    (a : TransitionArgs) (db : OrderTables)
    → ((e : OrderError) × (transition_status a db ≡ err e db)) ⊎ Made a db
transition_status-cases a db = elim (Option-cases (find_by_id a.order_id db)) [
  | inl missing ↦ inl (_, transition_status_unknown a db missing)
  | inr (o, found) ↦ elim (Bool-cases (is_status o.status cancelled)) [
    | inl closed ↦ inl (_, transition_status_cancelled a db found closed)
    | inr live ↦
        elim (Bool-cases (is_status a.to_status cancelled && is_past_cancelling o.status)) [
          | inl late ↦ inl (_, transition_status_late a db found live late)
          | inr early ↦ elim (Bool-cases (includes (allowed a.is_admin o.status) a.to_status)) [
            | inl permitted ↦ inr (record {
              order = o;
              found = found;
              permitted = permitted;
              result = transition_status_made a db found live early permitted;
            })
            | inr forbidden ↦ inl (_, transition_status_forbidden a db found live early forbidden)
          ]
        ]
  ]
]
