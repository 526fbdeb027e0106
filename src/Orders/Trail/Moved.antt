-- ===== src/Orders/Trail/Moved.antt =====
-- A write that moves one order to a status, with an entry of its history, keeps the trails of all
-- orders (modules/orders/service.ts, lines 504-533; modules/payments/service.ts, lines 445-466 and
-- 685-707).
use smart_light.Prelude.{
  ℕ, suc, ◌<◌, Bool, true, false, List, ◌∷◌, some, ◌≡◌, refl, sym, ap, ◌∙◌, arith, ◌==◌, ==_iff,
}
use smart_light.Table.{find_first, update}
use smart_light.Table.Rows.{All-find_first, All-map, All-zip, All-update}
use smart_light.Table.Keys.{find_first_unique, IsUnique-update}
use smart_light.Orders.Tables.{Order, OrderStatusHistory, OrderTables}
use smart_light.Orders.Trail.{step, HasTrail, IsRecorded, history_of-hit, history_of-miss}

-- An assignment to an order, and the entry that records it.
pub record Move (db : OrderTables) : Type 0 where
  pub id : ℕ
  pub test : Order → Bool
  pub assign : Order → Order
  pub entry : OrderStatusHistory
  pub order : Order
  pub found : find_first test db.order ≡ some order
  pub found_id : order.id ≡ id
  pub same_id : (o : Order) → (assign o).id ≡ o.id
  pub new_status : (o : Order) → (assign o).status ≡ entry.to_status
  pub entry_id : entry.order_id ≡ id
  pub from_old : entry.from_status ≡ some order.status
  pub permitted : step (some order.status) entry.to_status ≡ true

-- The tables after the move.
abbrev pub moved_tables : (db : OrderTables) → Move db → OrderTables
moved_tables db m = record db {
  order = update (λ o. o.id == m.id) m.assign db.order;
  next_id = suc db.next_id;
  order_status_history = m.entry ∷ db.order_status_history;
}

module _ (db : OrderTables) (m : Move db) (v : IsRecorded db) where
  open m use {id, assign, entry, order}

  abbrev old : List OrderStatusHistory
  old = db.order_status_history

  moved-HasTrail :
      (o : Order)
      → (o.id == id) ≡ true
      → HasTrail old o × (o.id ≡ order.id → o ≡ order)
      → HasTrail (entry ∷ old) (assign o)
  moved-HasTrail o hit (trail, only) =
      rw
        (
          m.new_status o,
          m.same_id o,
          history_of-hit o.id entry old (m.entry_id ∙ sym same),
          m.from_old,
        )
        (refl, (m.permitted, rw (ap (λ x. x.status) mine) at trail))
    where
      same : o.id ≡ id
      same = (==_iff o.id id).0 hit

      mine : o ≡ order
      mine = only (same ∙ sym m.found_id)

  other-HasTrail :
      (o : Order)
      → (o.id == id) ≡ false
      → HasTrail old o × (o.id ≡ order.id → o ≡ order)
      → HasTrail (entry ∷ old) o
  other-HasTrail o miss (trail, only) =
      rw (history_of-miss o.id entry old (ground (arith, miss, m.entry_id))) trail

  known : order.id < db.next_id
  known = All-find_first _ _ db.order v.orders_numbered m.found

  pub moved_tables-IsRecorded : IsRecorded (moved_tables db m)
  moved_tables-IsRecorded = record {
    ids = IsUnique-update (λ o. o.id) _ assign db.order m.same_id v.ids;
    orders_numbered =
        All-update _ assign db.order (λ o _ h. rw (m.same_id o) (omega (arith, h)))
          (λ o _ h. omega (arith, h)) v.orders_numbered;
    entries_numbered = (
      omega (arith, known, m.found_id, m.entry_id),
      All-map old (λ h n. omega (arith, n)) v.entries_numbered,
    );
    trails =
        All-update _ assign db.order moved-HasTrail other-HasTrail
          (All-zip _ _ db.order v.trails (find_first_unique (λ o. o.id) _ db.order v.ids m.found));
  }
