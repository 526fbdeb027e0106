-- ===== src/Orders/Closed.antt =====
-- Orders that are cancelled or refunded (modules/orders/service.ts, lines 69-103 and 456-538).
use smart_light.Prelude.{
  ℕ, ◌<◌, Bool, true, false, String, List, [], ◌∷◌, some, ◌≡◌, ◌⊎◌, refl, sym, ap, ◌∙◌, arith, ◌==◌,
  ==_iff, inl, inr, Bool-cases, Option-cases, final,
}
use smart_light.Table.{find_first}
use smart_light.Table.Rows.{All-find_first}
use smart_light.Orders.Status.{
  OrderStatus, cancelled, refunded, includes, allowed, customer_allowed, admin_allowed,
  parse_status,
}
use smart_light.Orders.Tables.{CheckoutSession, StockReservation, Order, OrderTables}
use smart_light.Orders.Service.{find_by_id}
use smart_light.Orders.Service.Transition.{
  TransitionArgs, transition_status, cancel_args, admin_args,
}
use smart_light.Orders.Service.Create.{CreateOrderDto, create_order}
use smart_light.Orders.Trail.{IsRecorded}
use smart_light.Orders.Trail.Transitions.{Made, transition_status-cases}
use smart_light.Orders.Trail.Kept.{find_by_id-id}
use smart_light.Orders.Trail.Creation.{ordered, create_order_made, create_order-cases}
use smart_light.Orders.Ownership.{find_by_id-transitioned}
use smart_light.Orders.History.{
  Call, creates, cancels, updates, after_call, run, after_call-IsRecorded,
  cancel_order_for_user-final, update_order_status_by_admin-parsed,
  update_order_status_by_admin-unknown,
}

-- The states that no table leads out of.
abbrev pub IsClosed : OrderStatus → Type 0
IsClosed s = (s ≡ cancelled) ⊎ (s ≡ refunded)

closed_forbids :
    (is_admin : Bool) (from to : OrderStatus)
    → IsClosed from
    → includes (allowed is_admin from) to ≡ false
unfolding includes customer_allowed admin_allowed
closed_forbids true from to (inl e) = rw e refl
closed_forbids true from to (inr e) = rw e refl
closed_forbids false from to (inl e) = rw e refl
closed_forbids false from to (inr e) = rw e refl

transition_status-closed :
    (a : TransitionArgs) (id : ℕ) (db : OrderTables) {o : Order}
    → find_by_id id db ≡ some o
    → IsClosed o.status
    → find_by_id id (final (transition_status a db)) ≡ some o
transition_status-closed a id db {o} found closed = elim (transition_status-cases a db) [
  | inl (e, thrown) ↦ rw thrown found
  | inr made ↦ rw made.result (elim (Bool-cases (o.id == a.order_id)) [
    | inl hit ↦ absurd (barred made hit)
    | inr miss ↦ find_by_id-transitioned a made.order.status id db found ∙ ground (arith, miss)
  ])
]
  where
    same_order : Made a db → (o.id == a.order_id) ≡ true → some o ≡ find_by_id a.order_id db
    same_order made hit =
        sym found
        ∙ ap (λ x. find_by_id x db)
            (sym (find_by_id-id id db found) ∙ (==_iff o.id a.order_id).0 hit)

    barred : Made a db → (o.id == a.order_id) ≡ true → ⊥
    barred made hit =
        let same_row : some o ≡ some made.order = same_order made hit ∙ made.found in
        ground
          (arith, same_row, made.permitted, closed_forbids a.is_admin o.status a.to_status closed)

find_by_id-ordered :
    (generate : OrderTables → String) (user : ℕ) (dto : CreateOrderDto) (id : ℕ) (db : OrderTables)
    {o : Order}
    → IsRecorded db
    → find_by_id id db ≡ some o
    → (s : CheckoutSession) (r : StockReservation)
    → find_by_id id (ordered generate user dto db s r) ≡ some o
unfolding find_by_id find_first
find_by_id-ordered generate user dto id db {o} v found s r =
    let older : o.id < db.next_id = All-find_first _ _ db.order v.orders_numbered found in
    ground (arith, older, find_by_id-id id db found, found)

create_order-closed :
    (generate : OrderTables → String) (user : ℕ) (dto : CreateOrderDto) (id : ℕ) (db : OrderTables)
    {o : Order}
    → IsRecorded db
    → find_by_id id db ≡ some o
    → find_by_id id (final (create_order generate user dto db)) ≡ some o
create_order-closed generate user dto id db {o} v found =
    elim (create_order-cases generate user dto db) [
      | inl (e, thrown) ↦ rw thrown found
      | inr (s, r, ready) ↦
          rw (create_order_made generate user dto db s r ready)
            (find_by_id-ordered generate user dto id db v found s r)
    ]

after_call-closed :
    (c : Call) (id : ℕ) (db : OrderTables) {o : Order}
    → IsRecorded db
    → find_by_id id db ≡ some o
    → IsClosed o.status
    → find_by_id id (after_call c db) ≡ some o
unfolding after_call
after_call-closed (creates generate user dto) id db v found closed =
    create_order-closed generate user dto id db v found
after_call-closed (cancels k user reason) id db v found closed =
    rw (cancel_order_for_user-final k user reason db)
      (transition_status-closed (cancel_args k user reason) id db found closed)
after_call-closed (updates k admin name dto) id db v found closed =
    elim (Option-cases (parse_status dto.to_status)) [
      | inl unknown ↦ rw (update_order_status_by_admin-unknown k admin name dto db unknown) found
      | inr (s, known) ↦
          rw (update_order_status_by_admin-parsed k admin name dto db known)
            (transition_status-closed (admin_args k admin name dto s) id db found closed)
    ]

-- An order that is cancelled or refunded stays as it is, whatever calls are made afterwards, by
-- customers and administrators, in any order, in tables in which every order has its trail.
pub run-closed :
    (cs : List Call) (id : ℕ) (db : OrderTables) {o : Order}
    → IsRecorded db
    → find_by_id id db ≡ some o
    → IsClosed o.status
    → find_by_id id (run cs db) ≡ some o
unfolding run
run-closed [] id db v found closed = found
run-closed (c ∷ cs) id db v found closed =
    run-closed cs id (after_call c db) (after_call-IsRecorded c db v)
      (after_call-closed c id db v found closed) closed
