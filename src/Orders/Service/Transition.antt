-- ===== src/Orders/Service/Transition.antt =====
-- modules/orders/service.ts, lines 365-377 and 433-538: `transitionStatus` and the calls that make
-- transitions.
use smart_light.Prelude.{
  ℕ, Bool, true, false, ◌&&◌, ◌||◌, not, String, ◌∷◌, Option, none, some, ◌==◌, gets, or_throw,
  throw_if, modify, with_transaction, if◌then◌else◌, ◌>>=◌, ◌>>◌,
}
use smart_light.Table.{update}
use smart_light.Orders.Status.{
  OrderStatus, delivered, delivering, returned, refunded, cancelled, is_status, includes, allowed,
  parse_status,
}
use smart_light.Orders.Errors.{
  order_not_found, order_already_cancelled, order_delivered_cannot_cancel,
  invalid_status_transition, unknown_status,
}
use smart_light.Orders.Tables.{Order, ChangedByType, customer, admin, Ord, new_id}
use smart_light.Orders.Service.{find_by_id, OrderResponse, require_owned_order, require_order}

pub record Actor : Type 0 where
  pub type : ChangedByType
  pub id : Option ℕ
  pub name : Option String

pub record TransitionArgs : Type 0 where
  pub order_id : ℕ
  pub actor : Actor
  pub to_status : OrderStatus
  pub reason : Option String
  pub is_admin : Bool

-- Delivered, on the way, returned or refunded.
abbrev pub is_past_cancelling : OrderStatus → Bool
is_past_cancelling s =
    is_status s delivered
    || (is_status s delivering || (is_status s returned || is_status s refunded))

-- `updateData`
abbrev pub updated_order : TransitionArgs → Order → Order
updated_order a o =
    if is_status a.to_status cancelled
    then record o {
      status = a.to_status;
      cancel_reason = some (elim a.reason [ none ↦ "CANCELLED" | some r ↦ r ]);
      cancelled_by_id =
          if a.is_admin
          then elim a.actor.id [ none ↦ o.cancelled_by_id | some i ↦ some i ]
          else o.cancelled_by_id;
    }
    else record o { status = a.to_status }

-- The writes of a transition: the order, and an entry of its history.
abbrev pub write_transition : TransitionArgs → OrderStatus → Ord (Unit {0})
write_transition a from_status = do
  modify λ db. record db { order = update (λ o. o.id == a.order_id) (updated_order a) db.order }
  id ← new_id
  modify λ db. record db {
    order_status_history =
        record {
          id = id;
          order_id = a.order_id;
          from_status = some from_status;
          to_status = a.to_status;
          changed_by_type = a.actor.type;
          changed_by_id = a.actor.id;
          changed_by_name = a.actor.name;
          reason = a.reason;
        }
        ∷ db.order_status_history;
  }

unfoldable pub transition_status : TransitionArgs → Ord (Unit {0})
transition_status a = with_transaction (do
  order ← (do or_throw (← gets (find_by_id a.order_id)) (order_not_found a.order_id))
  throw_if (is_status order.status cancelled) (order_already_cancelled a.order_id)
  throw_if (is_status a.to_status cancelled && is_past_cancelling order.status)
      (order_delivered_cannot_cancel a.order_id)
  throw_if (not (includes (allowed a.is_admin order.status) a.to_status))
      (invalid_status_transition a.order_id order.status a.to_status)
  write_transition a order.status)

-- `dto.reason ?? 'Cancelled by customer'`
abbrev pub cancel_args : ℕ → ℕ → Option String → TransitionArgs
cancel_args order_id user_id reason = record {
  order_id = order_id;
  actor = record { type = customer; id = some user_id; name = none };
  to_status = cancelled;
  reason = some (elim reason [ none ↦ "Cancelled by customer" | some r ↦ r ]);
  is_admin = false;
}

-- The transition is committed before the owner is asked for.
unfoldable pub cancel_order_for_user : ℕ → ℕ → Option String → Ord OrderResponse
cancel_order_for_user order_id user_id reason = do
  transition_status (cancel_args order_id user_id reason)
  require_owned_order order_id user_id

pub record UpdateStatusDto : Type 0 where
  pub to_status : String
  pub reason : Option String

abbrev pub admin_args : ℕ → ℕ → Option String → UpdateStatusDto → OrderStatus → TransitionArgs
admin_args order_id admin_id admin_name dto to_status = record {
  order_id = order_id;
  actor = record { type = admin; id = some admin_id; name = admin_name };
  to_status = to_status;
  reason = dto.reason;
  is_admin = true;
}

unfoldable pub update_order_status_by_admin :
    ℕ → ℕ → Option String → UpdateStatusDto → Ord OrderResponse
update_order_status_by_admin order_id admin_id admin_name dto = do
  to_status ← or_throw (parse_status dto.to_status) (unknown_status dto.to_status)
  transition_status (admin_args order_id admin_id admin_name dto to_status)
  require_order order_id
