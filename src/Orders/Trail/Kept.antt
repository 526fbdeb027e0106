-- ===== src/Orders/Trail/Kept.antt =====
-- A transition keeps the trails of all orders (modules/orders/service.ts, lines 456-538).
use smart_light.Prelude.{
  ℕ, Bool, true, false, some, ◌≡◌, refl, arith, ◌==◌, ◌&&◌, not, inl, inr, final,
}
use smart_light.Table.Rows.{find_first-holds}
use smart_light.Orders.Status.{OrderStatus, includes, allowed}
use smart_light.Orders.Tables.{Order, OrderTables}
use smart_light.Orders.Service.{find_by_id}
use smart_light.Orders.Service.Transition.{TransitionArgs, updated_order, transition_status}
use smart_light.Orders.Trail.{step, IsRecorded}
use smart_light.Orders.Trail.Moved.{Move, moved_tables-IsRecorded}
use smart_light.Orders.Trail.Transitions.{entry, transitioned, Made, transition_status-cases}

pub find_by_id-id : (id : ℕ) (db : OrderTables) {o : Order} → find_by_id id db ≡ some o → o.id ≡ id
unfolding find_by_id
find_by_id-id id db found = ground (arith, find_first-holds _ db.order found)

pub updated_order-id : (a : TransitionArgs) (o : Order) → (updated_order a o).id ≡ o.id
updated_order-id a o = ground arith

pub updated_order-status :
    (a : TransitionArgs) (o : Order) → (updated_order a o).status ≡ a.to_status
updated_order-status a o = ground arith

step-allowed :
    (is_admin : Bool) (from to : OrderStatus)
    → includes (allowed is_admin from) to ≡ true
    → step (some from) to ≡ true
step-allowed true from to h = ground (arith, h)
step-allowed false from to h = ground (arith, h)

transitioned-Move : (a : TransitionArgs) (db : OrderTables) → Made a db → Move db
unfolding find_by_id
transitioned-Move a db m = record {
  id = a.order_id;
  test = λ o. (o.id == a.order_id) && not o.is_deleted;
  assign = updated_order a;
  entry = entry a m.order.status db.next_id;
  order = m.order;
  found = m.found;
  found_id = find_by_id-id a.order_id db m.found;
  same_id = updated_order-id a;
  new_status = updated_order-status a;
  entry_id = refl;
  from_old = refl;
  permitted = step-allowed a.is_admin m.order.status a.to_status m.permitted;
}

transitioned-IsRecorded :
    (a : TransitionArgs) (db : OrderTables) (m : Made a db)
    → IsRecorded db
    → IsRecorded (transitioned a m.order.status db)
unfolding transitioned-Move
transitioned-IsRecorded a db m v = moved_tables-IsRecorded db (transitioned-Move a db m) v

pub transition_status-IsRecorded :
    (a : TransitionArgs) (db : OrderTables)
    → IsRecorded db
    → IsRecorded (final (transition_status a db))
transition_status-IsRecorded a db v = elim (transition_status-cases a db) [
  | inl (e, thrown) ↦ rw thrown v
  | inr made ↦ rw made.result (transitioned-IsRecorded a db made v)
]
