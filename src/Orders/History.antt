-- ===== src/Orders/History.antt =====
-- The orders module over any sequence of calls (modules/orders/service.ts).
use smart_light.Prelude.{
  ℕ, String, List, [], ◌∷◌, Option, none, some, ◌≡◌, refl, arith, inl, inr, Option-cases, ok, err,
  final, Outcome, Outcome-cases,
}
use smart_light.Orders.Status.{OrderStatus, parse_status}
use smart_light.Orders.Errors.{OrderError}
use smart_light.Orders.Tables.{OrderTables}
use smart_light.Orders.Service.Transition.{
  UpdateStatusDto, transition_status, cancel_args, cancel_order_for_user, admin_args,
  update_order_status_by_admin,
}
use smart_light.Orders.Service.Create.{CreateOrderDto, create_order}
use smart_light.Orders.Service.{require_owned_order, require_order}
use smart_light.Orders.Trail.{IsRecorded}
use smart_light.Orders.Trail.Kept.{transition_status-IsRecorded}
use smart_light.Orders.Trail.Created.{create_order-IsRecorded}

-- The calls of OrdersService that write.
pub data Call : Type 0 where
  creates : (OrderTables → String) → ℕ → CreateOrderDto → Call
  cancels : ℕ → ℕ → Option String → Call
  updates : ℕ → ℕ → Option String → UpdateStatusDto → Call

unfoldable pub after_call : Call → OrderTables → OrderTables
after_call (creates generate user dto) db = final (create_order generate user dto db)
after_call (cancels id user reason) db = final (cancel_order_for_user id user reason db)
after_call (updates id admin name dto) db =
    final (update_order_status_by_admin id admin name dto db)

unfoldable pub run : List Call → OrderTables → OrderTables
run [] db = db
run (c ∷ cs) db = run cs (after_call c db)

-- The read that follows a transition writes nothing.
pub require_owned_order-final :
    (id user : ℕ) (db : OrderTables) → final (require_owned_order id user db) ≡ db
unfolding require_owned_order
require_owned_order-final id user db = ground arith

require_order-final : (id : ℕ) (db : OrderTables) → final (require_order id db) ≡ db
unfolding require_order
require_order-final id db = ground arith

pub cancel_order_for_user-final :
    (id user : ℕ) (reason : Option String) (db : OrderTables)
    → final (cancel_order_for_user id user reason db)
      ≡ final (transition_status (cancel_args id user reason) db)
unfolding cancel_order_for_user
cancel_order_for_user-final id user reason db =
    after (transition_status (cancel_args id user reason) db)
  where
    after :
        (o : Outcome OrderTables OrderError (Unit {0}))
        → final (elim o [ ok _ s ↦ require_owned_order id user s | err e s ↦ err e s ]) ≡ final o
    after (ok _ s) = require_owned_order-final id user s
    after (err e s) = refl

pub update_order_status_by_admin-parsed :
    (id admin : ℕ) (name : Option String) (dto : UpdateStatusDto) (db : OrderTables)
    {s : OrderStatus}
    → parse_status dto.to_status ≡ some s
    → final (update_order_status_by_admin id admin name dto db)
      ≡ final (transition_status (admin_args id admin name dto s) db)
unfolding update_order_status_by_admin
update_order_status_by_admin-parsed id admin name dto db {s} known =
    elim (Outcome-cases (transition_status (admin_args id admin name dto s) db)) [
      | inl (u, db', made) ↦ ground (arith, known, made, require_order-final id db')
      | inr (e, db', thrown) ↦ ground (arith, known, thrown)
    ]

pub update_order_status_by_admin-unknown :
    (id admin : ℕ) (name : Option String) (dto : UpdateStatusDto) (db : OrderTables)
    → parse_status dto.to_status ≡ none
    → final (update_order_status_by_admin id admin name dto db) ≡ db
unfolding update_order_status_by_admin
update_order_status_by_admin-unknown id admin name dto db unknown = ground arith

pub after_call-IsRecorded :
    (c : Call) (db : OrderTables) → IsRecorded db → IsRecorded (after_call c db)
unfolding after_call
after_call-IsRecorded (creates generate user dto) db v =
    create_order-IsRecorded generate user dto db v
after_call-IsRecorded (cancels id user reason) db v =
    rw (cancel_order_for_user-final id user reason db)
      (transition_status-IsRecorded (cancel_args id user reason) db v)
after_call-IsRecorded (updates id admin name dto) db v =
    elim (Option-cases (parse_status dto.to_status)) [
      | inl unknown ↦ rw (update_order_status_by_admin-unknown id admin name dto db unknown) v
      | inr (s, known) ↦
          rw (update_order_status_by_admin-parsed id admin name dto db known)
            (transition_status-IsRecorded (admin_args id admin name dto s) db v)
    ]

-- Whatever calls are made, in any order and whether they return or throw, from tables in which every
-- order has its trail: afterwards the history of every order, read from its newest entry back, starts
-- at the status that the order has, each entry begins where the one before it ended and makes a
-- transition of one of the two tables, and the oldest entry is the creation in PENDING_PAYMENT.
pub run-IsRecorded : (cs : List Call) (db : OrderTables) → IsRecorded db → IsRecorded (run cs db)
unfolding run
run-IsRecorded [] db v = v
run-IsRecorded (c ∷ cs) db v = run-IsRecorded cs (after_call c db) (after_call-IsRecorded c db v)
