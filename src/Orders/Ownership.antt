-- ===== src/Orders/Ownership.antt =====
-- Who may read and who may cancel an order (modules/orders/service.ts, lines 293-307 and 365-377).
use smart_light.Prelude.{
  ℕ, Bool, not, ◌&&◌, String, Option, none, some, ◌≡◌, ◌≢◌, refl, sym, ap, ◌∙◌, arith, ◌==◌, inl,
  inr, Option-cases, ok, err, if◌then◌else◌,
}
use smart_light.Table.{find_first, IsUnique}
use smart_light.Table.Rows.{find_first-holds, All-find_first}
use smart_light.Table.Keys.{find_first-update, find_first_unique, IsUnique-update}
use smart_light.Orders.Status.{OrderStatus, pending_payment, cancelled, includes, customer_allowed}
use smart_light.Orders.Errors.{unauthorized_order_access}
use smart_light.Orders.Tables.{Order, OrderTables}
use smart_light.Orders.Service.{
  find_by_id, find_by_id_for_user, OrderResponse, map_to_response, get_order_for_user,
  require_owned_order,
}
use smart_light.Orders.Service.Transition.{
  TransitionArgs, updated_order, transition_status, cancel_args, cancel_order_for_user,
}
use smart_light.Orders.Trail.{IsRecorded}
use smart_light.Orders.Trail.Transitions.{transitioned, transition_status_made}
use smart_light.Orders.Trail.Kept.{find_by_id-id, updated_order-id}

-- A customer who is answered with an order owns it, and it is the order that was asked for; the
-- call writes nothing.
pub get_order_for_user_owned :
    (id user : ℕ) (db db' : OrderTables) (response : OrderResponse)
    → get_order_for_user id user db ≡ ok response db'
    → (response.id ≡ id) × (response.user_id ≡ user) × (db' ≡ db)
unfolding get_order_for_user find_by_id_for_user map_to_response
get_order_for_user_owned id user db db' response answered =
    elim (Option-cases (find_by_id_for_user id user db)) [
      | inl missing ↦ absurd (elim (Option-cases (find_by_id id db)) [
        | inl gone ↦ ground arith
        | inr (o, foreign) ↦ ground arith
      ])
      | inr (o, found) ↦ ground (arith, find_first-holds _ db.order found)
    ]

pub updated_order-keeps :
    (id : ℕ) (a : TransitionArgs) (o : Order)
    → ((updated_order a o).id == id) && not (updated_order a o).is_deleted
      ≡ (o.id == id) && not o.is_deleted
updated_order-keeps id a o = ground arith

-- The order that a transition was made on, afterwards.
pub find_by_id-transitioned :
    (a : TransitionArgs) (from : OrderStatus) (id : ℕ) (db : OrderTables) {o : Order}
    → find_by_id id db ≡ some o
    → find_by_id id (transitioned a from db)
      ≡ some (if o.id == a.order_id then updated_order a o else o)
unfolding find_by_id
find_by_id-transitioned a from id db found =
    find_first-update _ _ (updated_order a) db.order (updated_order-keeps id a) found

-- A row that is found by another test with the same id is the same row.
same_order :
    (id : ℕ) (p : Order → Bool) (db : OrderTables) {o x : Order}
    → IsUnique (λ y. y.id) db.order
    → find_by_id id db ≡ some o
    → find_first p db.order ≡ some x
    → x.id ≡ id
    → x ≡ o
unfolding find_by_id
same_order id p db {o} {x} u found other same_id =
    All-find_first (λ y. y.id ≡ o.id → y ≡ o) p db.order
      (find_first_unique (λ y. y.id) _ db.order u found) other
      (same_id ∙ sym (find_by_id-id id db found))

-- Where the order is another user's, SELECT by id and user finds nothing.
no_owned :
    (id user : ℕ) (db : OrderTables) {o : Order}
    → IsUnique (λ x. x.id) db.order
    → find_by_id id db ≡ some o
    → o.user_id ≢ user
    → find_by_id_for_user id user db ≡ none
unfolding find_by_id_for_user
no_owned id user db {o} u found foreign = elim (Option-cases (find_by_id_for_user id user db)) [
  | inl missing ↦ missing
  | inr (x, owned) ↦
      let fits = find_first-holds _ db.order owned in
      absurd (
        foreign (
          ap (λ y. y.user_id) (sym (same_order id _ db u found owned (ground (arith, fits))))
          ∙ ground (arith, fits)))
]

require_owned_order_foreign :
    (id user : ℕ) (db : OrderTables) {o : Order}
    → find_by_id id db ≡ some o
    → find_by_id_for_user id user db ≡ none
    → require_owned_order id user db ≡ err (unauthorized_order_access id user) db
unfolding require_owned_order
require_owned_order_foreign id user db found missing = ground arith

module _ (id user : ℕ) (reason : Option String) (db : OrderTables) (o : Order) where
  abbrev after_cancelling : OrderTables
  after_cancelling = transitioned (cancel_args id user reason) o.status db

  cancelling_made :
      find_by_id id db ≡ some o
      → o.status ≡ pending_payment
      → transition_status (cancel_args id user reason) db ≡ ok tt after_cancelling
  unfolding includes customer_allowed
  cancelling_made found waiting =
      transition_status_made (cancel_args id user reason) db found (rw waiting refl)
        (rw waiting refl) (rw waiting refl)

  cancelled_after :
      find_by_id id db ≡ some o
      → find_by_id id after_cancelling ≡ some (updated_order (cancel_args id user reason) o)
  cancelled_after found =
      find_by_id-transitioned (cancel_args id user reason) o.status id db found
      ∙ ground (arith, find_by_id-id id db found)

  cancelled_foreign :
      IsRecorded db
      → find_by_id id db ≡ some o
      → o.user_id ≢ user
      → find_by_id_for_user id user after_cancelling ≡ none
  cancelled_foreign v found foreign =
      no_owned id user after_cancelling
        (IsUnique-update (λ x. x.id) _ (updated_order (cancel_args id user reason)) db.order
          (updated_order-id (cancel_args id user reason)) v.ids)
        (cancelled_after found) foreign

-- In tables in which every order has its trail, a user may cancel an order of someone else that waits
-- for its payment: the call answers that the
-- order is not the user's, but the order is cancelled in the tables that it leaves.
pub cancel_order_for_user_foreign :
    (id user : ℕ) (reason : Option String) (db : OrderTables) {o : Order}
    → IsRecorded db
    → find_by_id id db ≡ some o
    → o.user_id ≢ user
    → o.status ≡ pending_payment
    → (db' : OrderTables) × (x : Order) × (cancel_order_for_user id user reason db
        ≡ err (unauthorized_order_access id user) db')
      × (find_by_id id db' ≡ some x)
      × (x.status ≡ cancelled)
unfolding cancel_order_for_user
cancel_order_for_user_foreign id user reason db {o} v found foreign waiting = (
  after_cancelling id user reason db o,
  updated_order (cancel_args id user reason) o,
  ground (
    arith,
    cancelling_made id user reason db o found waiting,
    require_owned_order_foreign id user (after_cancelling id user reason db o)
        (cancelled_after id user reason db o found)
        (cancelled_foreign id user reason db o v found foreign),
  ),
  cancelled_after id user reason db o found,
  refl,
)
